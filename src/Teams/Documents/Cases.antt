-- ===== src/Teams/Documents/Cases.antt =====
-- What a request about documents can do to the site, handler by handler.
use oc_piloci.Prelude.{
  ℕ, ◌≡◌, refl, Option, none, some, Bool, true, false, not, String, ◌==◌, ◌=?◌, ltb, if◌then◌else◌,
  arith, Bool-cases, inl, inr,
}
use oc_piloci.Db.{Found, nothing, several, one}
use oc_piloci.Teams.{Site, Caller, Texts, Tables, TeamDocument, get_team_member, or_empty}
use oc_piloci.Teams.Documents.{
  DocumentReply, Contents, Files, NewDocument, Edit, Upload, Stored, or_none, live_at, live_id,
  DocumentHandler, create_document, put_document, insert_live, edited, is_stale, update_document,
  stored, upsert, upload_file, delete_document, is_several, if_found, if_given, content_of, written,
  discard_document, max_upload_bytes, upload_path,
}

-- A request about documents, with the ids and the time that it meets.
pub data DocumentRequest (Data : Type 0) : Type 0 where
  add : String → Option NewDocument → String → ℕ → DocumentRequest Data
  upload : String → Option (Upload Data) → String → ℕ → DocumentRequest Data
  edit : String → String → Option Edit → ℕ → DocumentRequest Data
  discard : String → String → ℕ → DocumentRequest Data

module _ {T M I D B Data : Type 0} (db : Tables T M I D) (texts : Texts) (contents : Contents Data)
    (files : Files B Data) where
  unfoldable pub document_step : Option Caller → DocumentRequest Data → DocumentHandler T M I D B
  document_step c (add team_id body doc_id now) s =
      create_document db texts contents c team_id body doc_id now s
  document_step c (upload team_id form doc_id now) s =
      upload_file db texts contents files c team_id form doc_id now s
  document_step c (edit team_id doc_id body now) s =
      update_document db texts contents c team_id doc_id body now s
  document_step c (discard team_id doc_id now) s =
      delete_document db texts contents files c team_id doc_id now s

module _ {T M I D B : Type 0} (P : Site T M I D B → Type 0) (s : Site T M I D B) (same : P s) where
  if-cases :
      (b : Bool) (x y : Site T M I D B × DocumentReply)
      → (b ≡ true → P x.0)
      → (b ≡ false → P y.0)
      → P (if b then x else y).0
  if-cases b x y h k = elim (Bool-cases b) [ inl e ↦ rw e (h e) | inr e ↦ rw e (k e) ]

  if_found-cases :
      {Row : Type 0} (f : Found Row) (act : Row → DocumentHandler T M I D B)
      → ((r : Row) → f ≡ one r → P (act r s).0)
      → P (if_found f act s).0
  if_found-cases {Row} nothing act h = same
  if_found-cases {Row} several act h = same
  if_found-cases {Row} (one r) act h = h r refl

  if_given-cases :
      {A : Type 0} (o : Option A) (code : ℕ) (act : A → DocumentHandler T M I D B)
      → ((a : A) → o ≡ some a → P (act a s).0)
      → P (if_given o code act s).0
  if_given-cases {A} none code act h = same
  if_given-cases {A} (some a) code act h = h a refl

module _ {T M I D B Data : Type 0} (db : Tables T M I D) (texts : Texts) (contents : Contents Data)
    (P : Site T M I D B → Type 0) (s : Site T M I D B) (same : P s) (c : Caller) where
  pub create-cases :
      (team_id : String) (body : Option NewDocument) (doc_id : String) (now : ℕ)
      → ((path content : String) (parent : Option String)
          → db.documents.count (live_at team_id path) s.documents ≡ 0
          → P (record s {
            documents =
                db.documents.insert
                  (written contents c team_id path content parent doc_id now)
                  s.documents;
          }))
      → P (create_document db texts contents (some c) team_id body doc_id now s).0
  unfolding create_document
  create-cases team_id none doc_id now h = same
  create-cases team_id (some b) doc_id now h =
      if-cases P s same (texts.strip (or_empty b.path) == "") _ _ (λ e. same)
        (λ e. if_given-cases P s same (content_of b.content) 400 _ (λ content g.
          if_found-cases P s same (get_team_member db team_id c.user_id s) _ (λ m f.
            elim (Bool-cases (
              not (
                db.documents.count (live_at team_id (texts.strip (or_empty b.path))) s.documents
                =? 0))) [
                  | inl n ↦ rw (n, put_document, insert_live) same
                  | inr n ↦
                      rw (n, put_document, insert_live)
                        (h (texts.strip (or_empty b.path)) content (or_none b.parent_hash)
                          (ground arith))
                ])))

  pub update-cases :
      (team_id doc_id : String) (body : Option Edit) (now : ℕ)
      → ((content : String) (d : TeamDocument)
          → db.documents.one_or_none (live_id team_id doc_id) s.documents ≡ one d
          → P (record s {
            documents =
                db.documents.update (λ e. e.id == d.id) (edited contents c content now) s.documents;
          }))
      → P (update_document db texts contents (some c) team_id doc_id body now s).0
  unfolding update_document
  update-cases team_id doc_id none now h = same
  update-cases team_id doc_id (some b) now h = if_given-cases P s same b.content 400 _ (λ content g.
      if_found-cases P s same (get_team_member db team_id c.user_id s) _ (λ m f.
        if_found-cases P s same (db.documents.one_or_none (live_id team_id doc_id) s.documents) _
          (λ d e.
            if-cases P s same (is_stale (or_none b.parent_hash) d.content_hash) _ _ (λ n. same)
              (λ n. h content d e))))

module _ {T M I D B Data : Type 0} (db : Tables T M I D) (texts : Texts) (contents : Contents Data)
    (files : Files B Data) (P : Site T M I D B → Type 0) (s : Site T M I D B) (same : P s)
    (c : Caller) where
  pub delete-cases :
      (team_id doc_id : String) (now : ℕ)
      → ((d : TeamDocument)
          → db.documents.one_or_none (live_id team_id doc_id) s.documents ≡ one d
          → P (discard_document db texts contents files now d s).0)
      → P (delete_document db texts contents files (some c) team_id doc_id now s).0
  unfolding delete_document
  delete-cases team_id doc_id now h =
      if_found-cases P s same (get_team_member db team_id c.user_id s) _ (λ m f.
        if_found-cases P s same (db.documents.one_or_none (live_id team_id doc_id) s.documents) _ h)

  pub upload-cases :
      (team_id : String) (form : Option (Upload Data)) (doc_id : String) (now : ℕ)
      → ((path : String) (f : Stored) (blobs : B)
          → is_several (db.documents.one_or_none (live_at team_id path) s.documents) ≡ false
          → P (record s {
            documents =
                upsert db texts contents files c team_id path doc_id f now
                  (db.documents.one_or_none (live_at team_id path) s.documents)
                  s.documents;
            blobs = blobs;
          }))
      → P (upload_file db texts contents files (some c) team_id form doc_id now s).0
  unfolding upload_file
  upload-cases team_id none doc_id now h = same
  upload-cases team_id (some u) doc_id now h = if_given-cases P s same u.file 400 _ (λ bytes g.
      if-cases P s same (ltb max_upload_bytes (contents.data_size bytes)) _ _ (λ e. same)
        (λ e.
          if-cases P s same (upload_path db texts contents files u == "") _ _ (λ e'. same)
            (λ e'. if_found-cases P s same (get_team_member db team_id c.user_id s) _ (λ m f.
              if-cases P s same
                (is_several (
                  db.documents.one_or_none (live_at team_id (upload_path db texts contents files u))
                    s.documents))
                _ _ (λ n. same)
                (λ n.
                  if_given-cases P s same (stored db texts contents files team_id u bytes s.blobs)
                    500 _ (λ kept k. h (upload_path db texts contents files u) kept.1 kept.0 n))))))

-- ===== src/Teams/Documents.antt =====
-- api/team_routes.py: the documents of a team, and storage/team_files.py: the store of blobs of
-- files that are no text. The file system, the hashes, UTF-8 and the patterns are parameters.
mod Records
pub mod Cases
pub mod Edits
pub mod Conflicts
pub mod Blobs
pub mod Pull
pub mod Following
mod Examples
use oc_piloci.Prelude.{
  ℕ, ◌+◌, ◌*◌, Option, none, some, Bool, true, false, not, ◌&&◌, ◌||◌, String, ◌==◌, ltb, ◌=?◌,
  if◌then◌else◌, List, [], ◌∷◌, ◌++◌,
}
use oc_piloci.Db.{Sql, Found, nothing, several, one}
use oc_piloci.Teams.{
  Site, Caller, Texts, Tables, TeamDocument, TeamMember, get_team_member, or_empty,
}
pub use Records.*

-- A row that a handler needs.
abbrev pub if_found :
    {T M I D B Row : Type 0}
    → Found Row
    → (Row → DocumentHandler T M I D B)
    → DocumentHandler T M I D B
if_found nothing act s = (s, refused 404)
if_found several act s = (s, refused 500)
if_found (one r) act s = act r s

-- A value that a handler needs.
abbrev pub if_given :
    {T M I D B A : Type 0}
    → Option A
    → ℕ
    → (A → DocumentHandler T M I D B)
    → DocumentHandler T M I D B
if_given none code act s = (s, refused code)
if_given (some a) code act s = act a s

-- `body.get("content") or ""`, `none` where that is no text.
abbrev pub content_of : Option (Option String) → Option String
content_of none = some ""
content_of (some v) = v

module _ {T M I D B : Type 0} (db : Tables T M I D) where
  abbrev pub if_reader : String → String → DocumentHandler T M I D B → DocumentHandler T M I D B
  if_reader team_id user_id act s = if_found (get_team_member db team_id user_id s) (λ m. act) s

-- A deletion that raises leaves the store as it is.
abbrev pub remaining : {B : Type 0} → Option (B × Bool) → B → B
remaining none blobs = blobs
remaining (some (blobs', removed)) blobs = blobs'

module _ {B Data : Type 0} (contents : Contents Data) (files : Files B Data) where
  open contents use {sha256, data_size, is_team_id, is_storage_key, join, split}

  -- `save_blob`: the hash, the key and the size; `none` where it raises.
  pub save_blob : String → Data → B → Option (B × (String × (String × ℕ)))
  save_blob team_id bytes blobs =
      if team_id == "" || not (is_team_id team_id)
      then none
      else elim (files.resolve team_id (sha256 bytes)) [
        | none ↦ none
        | some target ↦ some (
          if files.exists target blobs then blobs else files.write_bytes target bytes blobs,
          (sha256 bytes, (join team_id (sha256 bytes), data_size bytes)),
        )
      ]

  -- `delete_blob`: a key of another form and a path that leaves the directory raise. The form
  -- has no dots, so the test for `..` turns nothing else away.
  pub delete_blob : String → B → Option (B × Bool)
  delete_blob storage_key blobs =
      if storage_key == "" || not (is_storage_key storage_key)
      then none
      else (let team_id : String = (split storage_key).0 in
          if team_id == "" || not (is_team_id team_id)
          then none
          else (elim (files.resolve team_id (split storage_key).1) [
            | none ↦ none
            | some target ↦
                if files.exists target blobs
                then some (files.unlink target blobs, true)
                else some (blobs, false)
          ]))

module _ {T M I D : Type 0} (db : Tables T M I D) where
  -- INSERT under the unique index of live paths: nothing where it raises `IntegrityError`.
  abbrev pub insert_live : String → String → TeamDocument → D → Option D
  insert_live team_id path d t =
      if not (db.documents.count (live_at team_id path) t =? 0)
      then none
      else some (db.documents.insert d t)

module _ {T M I D B Data : Type 0} (db : Tables T M I D) (texts : Texts)
    (contents : Contents Data) where
  open texts use {strip}
  open contents use {content_hash, utf8_size}

  abbrev pub put_document :
      Caller → String → String → String → Option String → String → ℕ → DocumentHandler T M I D B
  put_document c team_id path content parent_hash doc_id now s =
      elim (insert_live db team_id path
        (written contents c team_id path content parent_hash doc_id now) s.documents) [
          | none ↦ (s, refused 409)
          | some documents ↦ (record s { documents = documents }, saved (content_hash content) 1)
        ]

  pub create_document :
      Option Caller → String → Option NewDocument → String → ℕ → DocumentHandler T M I D B
  create_document none team_id body doc_id now s = (s, refused 401)
  create_document (some c) team_id none doc_id now s = (s, refused 400)
  create_document (some c) team_id (some b) doc_id now s =
      let path : String = strip (or_empty b.path) in
      if path == ""
      then (s, refused 400)
      else if_given (content_of b.content) 400
          (λ content.
            if_reader db team_id c.user_id
              (put_document c team_id path content (or_none b.parent_hash) doc_id now))
          s

  abbrev pub change_document :
      Caller → String → Option String → ℕ → TeamDocument → DocumentHandler T M I D B
  change_document c content parent_hash now d s =
      if is_stale parent_hash d.content_hash then (s, conflict d.content_hash d.version) else (
        record s {
          documents =
              db.documents.update (λ e. e.id == d.id) (edited contents c content now) s.documents;
        },
        saved (content_hash content) (d.version + 1),
      )

  pub update_document :
      Option Caller → String → String → Option Edit → ℕ → DocumentHandler T M I D B
  update_document none team_id doc_id body now s = (s, refused 401)
  update_document (some c) team_id doc_id none now s = (s, refused 400)
  update_document (some c) team_id doc_id (some b) now s =
      if_given b.content 400
        (λ content. if_reader db team_id c.user_id (λ s'.
          if_found (db.documents.one_or_none (live_id team_id doc_id) s'.documents)
            (change_document c content (or_none b.parent_hash) now) s'))
        s

module _ {T M I D B Data : Type 0} (db : Tables T M I D) (texts : Texts) (contents : Contents Data)
    (files : Files B Data) where
  open texts use {strip}
  open contents use {content_hash, utf8_size, data_size, decode}

  -- The path of the form, or the name of the file.
  abbrev pub upload_path : Upload Data → String
  upload_path u =
      if strip (or_empty u.path) == "" then strip (or_empty u.filename) else strip (or_empty u.path)

  -- Text stays in the row; other bytes go to the store.
  abbrev pub stored : String → Upload Data → Data → B → Option (B × Stored)
  stored team_id u bytes blobs = elim (decode bytes) [
    | some text ↦ some (
      blobs,
      record {
        content = text;
        content_hash = content_hash text;
        size = utf8_size text;
        mime = or_default u.content_type "text/plain";
        is_binary = false;
        storage_key = none;
      },
    )
    | none ↦ (elim (save_blob contents files team_id bytes blobs) [
      | none ↦ none
      | some (blobs', (sha, (key, size))) ↦ some (
        blobs',
        record {
          content = "";
          content_hash = sha;
          size = size;
          mime = or_default u.mime (or_default u.content_type "application/octet-stream");
          is_binary = true;
          storage_key = some key;
        },
      )
    ])
  ]

  -- The row of an upload, in place of the one at its path or new.
  abbrev pub upsert : Caller → String → String → String → Stored → ℕ → Found TeamDocument → D → D
  upsert c team_id path doc_id f now existing docs = elim existing [
    | one d ↦ db.documents.update (λ e. e.id == d.id) (replaced c f now) docs
    | several ↦ docs
    | nothing ↦ db.documents.insert (uploaded c team_id path doc_id f now) docs
  ]

  abbrev pub put_upload :
      Caller → String → Upload Data → Data → String → ℕ → DocumentHandler T M I D B
  put_upload c team_id u bytes doc_id now s =
      let existing : Found TeamDocument =
        db.documents.one_or_none (live_at team_id (upload_path u)) s.documents in
      if is_several existing
      then (s, refused 500)
      else if_given (stored team_id u bytes s.blobs) 500
          (λ kept s'. (
            record s' {
              documents = upsert c team_id (upload_path u) doc_id kept.1 now existing s'.documents;
              blobs = kept.0;
            },
            saved kept.1.content_hash (next_version existing),
          ))
          s

  pub upload_file :
      Option Caller → String → Option (Upload Data) → String → ℕ → DocumentHandler T M I D B
  upload_file none team_id form doc_id now s = (s, refused 401)
  upload_file (some c) team_id none doc_id now s = (s, refused 400)
  upload_file (some c) team_id (some u) doc_id now s =
      if_given u.file 400
        (λ bytes s'.
          if ltb max_upload_bytes (data_size bytes)
          then (s', refused 413)
          else if upload_path u == ""
          then (s', refused 400)
          else if_reader db team_id c.user_id (put_upload c team_id u bytes doc_id now) s')
        s

  -- The blob goes with the row, whatever becomes of the deletion of the file.
  abbrev pub drop_blob : TeamDocument → B → B
  drop_blob d blobs = elim (or_none d.storage_key) [
    | none ↦ blobs
    | some key ↦
        if d.is_binary then remaining (delete_blob contents files key blobs) blobs else blobs
  ]

  abbrev pub discard_document : ℕ → TeamDocument → DocumentHandler T M I D B
  discard_document now d s = (
    record s {
      documents =
          db.documents.update (λ e. e.id == d.id)
            (λ e. record e { is_deleted = true; updated_at = now }) s.documents;
      blobs = drop_blob d s.blobs;
    },
    deleted,
  )

  pub delete_document : Option Caller → String → String → ℕ → DocumentHandler T M I D B
  delete_document none team_id doc_id now s = (s, refused 401)
  delete_document (some c) team_id doc_id now s =
      if_reader db team_id c.user_id
        (λ s'.
          if_found (db.documents.one_or_none (live_id team_id doc_id) s'.documents)
            (discard_document now) s')
        s

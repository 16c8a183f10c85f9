-- ===== src/Teams/Documents/Edits.antt =====
-- Edits of documents: who wrote them first, their versions and their paths.
use oc_piloci.Prelude.{
  ℕ, ◌+◌, ◌≤◌, ◌≡◌, refl, sym, ◌∙◌, ap, ap₂, Option, none, some, List, [], ◌∷◌, map, Bool, true,
  false, not, ◌&&◌, String, ◌==◌, ltb, if◌then◌else◌, keep, arith, eq_iff, Bool-cases, inl, inr,
  length,
}
use oc_piloci.Db.{Sql, IsSql, Found, nothing, several, one, count_if}
use oc_piloci.Db.Counts.{count-grows, count_if-append}
use oc_piloci.Db.Finding.{found-nothing}
use oc_piloci.Teams.{Site, Caller, Texts, Tables, TeamDocument}
use oc_piloci.Teams.Documents.{
  Contents, Files, Stored, live_at, create_document, edited, update_document, replaced, upsert,
  upload_file, delete_document, written, uploaded,
}
use oc_piloci.Teams.Documents.Cases.{
  DocumentRequest, add, upload, edit, discard, document_step, create-cases, update-cases,
  upload-cases, delete-cases,
}

abbrev pub uploaded_by : String → Option String → Bool
uploaded_by u none = false
uploaded_by u (some w) = w == u

-- The document, its first uploader, and a version that is not below the given one.
abbrev pub keeps : String → String → ℕ → TeamDocument → Bool
keeps doc_id u version d =
    (d.id == doc_id) && (uploaded_by u d.uploader_id && not (ltb d.version version))

module _ {Row : Type 0} where
  count-shrinks :
      (p q : Row → Bool) (f : Row → Row) (xs : List Row)
      → ((r : Row) → p (f r) ≡ true → p r ≡ true)
      → count_if p (map (λ r. if q r then f r else r) xs) ≤ count_if p xs
  count-shrinks p q f [] h = omega arith
  count-shrinks p q f (x ∷ xs) h = ground (arith, h x, count-shrinks p q f xs h)

module _ {D : Type 0} (documents : Sql D TeamDocument) (laws : IsSql documents)
    (p : TeamDocument → Bool) where
  count-insert :
      (d : TeamDocument) (docs : D)
      → count_if p (documents.rows (documents.insert d docs))
        ≡ count_if p (documents.rows docs) + (if p d then 1 else 0)
  count-insert d docs =
      ap (count_if p) (laws.rows-insert d docs)
      ∙ count_if-append p (documents.rows docs) (d ∷ [])
      ∙ ground arith

  update-grows :
      (q : TeamDocument → Bool) (f : TeamDocument → TeamDocument) (docs : D)
      → ((d : TeamDocument) → p d ≡ true → p (f d) ≡ true)
      → count_if p (documents.rows docs) ≤ count_if p (documents.rows (documents.update q f docs))
  update-grows q f docs h = omega (
    arith,
    ap (count_if p) (laws.rows-update q f docs),
    count-grows p q f (documents.rows docs) h,
  )

  update-shrinks :
      (q : TeamDocument → Bool) (f : TeamDocument → TeamDocument) (docs : D)
      → ((d : TeamDocument) → p (f d) ≡ true → p d ≡ true)
      → count_if p (documents.rows (documents.update q f docs)) ≤ count_if p (documents.rows docs)
  update-shrinks q f docs h = omega (
    arith,
    ap (count_if p) (laws.rows-update q f docs),
    count-shrinks p q f (documents.rows docs) h,
  )

  count-nothing :
      (docs : D) → documents.one_or_none p docs ≡ nothing → count_if p (documents.rows docs) ≡ 0
  count-nothing docs e =
      ap length
        (found-nothing (keep p (documents.rows docs)) (sym (laws.one_or_none_lem p docs) ∙ e))

module _ {T M I D B Data : Type 0} (db : Tables T M I D) (texts : Texts) (contents : Contents Data)
    (files : Files B Data) (laws : IsSql db.documents) (k u : String) (v : ℕ)
    (s : Site T M I D B) where
  abbrev Kept : Site T M I D B → Type 0
  Kept s' =
      count_if (keeps k u v) (db.documents.rows s.documents)
      ≤ count_if (keeps k u v) (db.documents.rows s'.documents)

  inserted-keeps :
      (d : TeamDocument)
      → count_if (keeps k u v) (db.documents.rows s.documents)
        ≤ count_if (keeps k u v) (db.documents.rows (db.documents.insert d s.documents))
  inserted-keeps d = omega (arith, count-insert db.documents laws (keeps k u v) d s.documents)

  changed-keeps :
      (f : TeamDocument → TeamDocument) (d : TeamDocument)
      → ((e : TeamDocument) → keeps k u v e ≡ true → keeps k u v (f e) ≡ true)
      → count_if (keeps k u v) (db.documents.rows s.documents)
        ≤ count_if
            (keeps k u v)
            (db.documents.rows (db.documents.update (λ e. e.id == d.id) f s.documents))
  changed-keeps f d h =
      update-grows db.documents laws (keeps k u v) (λ e. e.id == d.id) f s.documents h

  upsert-keeps :
      (c : Caller) (t path id : String) (f : Stored) (now : ℕ) (e : Found TeamDocument)
      → count_if (keeps k u v) (db.documents.rows s.documents)
        ≤ count_if
            (keeps k u v)
            (db.documents.rows (upsert db texts contents files c t path id f now e s.documents))
  upsert-keeps c t path id f now nothing = inserted-keeps (uploaded c t path id f now)
  upsert-keeps c t path id f now several = omega arith
  upsert-keeps c t path id f now (one d) = changed-keeps (replaced c f now) d (λ e h. ground arith)

  -- The first uploader of a document stays, and its version never goes back: no request lowers the
  -- number of rows with an id, an uploader, and at least a version.
  pub step-uploader :
      (c : Option Caller) (r : DocumentRequest Data)
      → count_if (keeps k u v) (db.documents.rows s.documents)
        ≤ count_if
            (keeps k u v)
            (db.documents.rows (document_step db texts contents files c r s).0.documents)
  unfolding document_step create_document update_document upload_file delete_document
  step-uploader none (add t b id now) = omega arith
  step-uploader none (upload t b id now) = omega arith
  step-uploader none (edit t id b now) = omega arith
  step-uploader none (discard t id now) = omega arith
  step-uploader (some c) (add t b id now) =
      create-cases db texts contents Kept s (omega arith) c t b id now
        (λ path content parent h. inserted-keeps (written contents c t path content parent id now))
  step-uploader (some c) (upload t b id now) =
      upload-cases db texts contents files Kept s (omega arith) c t b id now (λ path f blobs h.
        upsert-keeps c t path id f now (db.documents.one_or_none (live_at t path) s.documents))
  step-uploader (some c) (edit t id b now) =
      update-cases db texts contents Kept s (omega arith) c t id b now
        (λ content d h. changed-keeps (edited contents c content now) d (λ e g. ground arith))
  step-uploader (some c) (discard t id now) =
      delete-cases db texts contents files Kept s (omega arith) c t id now
        (λ d h. changed-keeps (λ e. record e { is_deleted = true; updated_at = now }) d (λ e g. g))

module _ {T M I D B : Type 0} (db : Tables T M I D) where
  -- No path of a team has two documents that are not deleted.
  abbrev pub HasPaths : Site T M I D B → Type 0
  HasPaths s' = (t p : String) → count_if (live_at t p) (db.documents.rows s'.documents) ≤ 1

module _ {T M I D B Data : Type 0} (db : Tables T M I D) (texts : Texts) (contents : Contents Data)
    (files : Files B Data) (laws : IsSql db.documents) (s : Site T M I D B) where
  paths-insert :
      (d : TeamDocument)
      → HasPaths db s
      → count_if (live_at d.team_id d.path) (db.documents.rows s.documents) ≡ 0
      → HasPaths db (record s { documents = db.documents.insert d s.documents })
  paths-insert d h z t p = elim (Bool-cases ((d.team_id == t) && (d.path == p))) [
    | inl q ↦
        let e : d.team_id ≡ t = (eq_iff d.team_id t).0 (ground arith) in
        let f : d.path ≡ p = (eq_iff d.path p).0 (ground arith) in
        let none : count_if (live_at t p) (db.documents.rows s.documents) ≡ 0 =
          ap₂ (λ x y. count_if (live_at x y) (db.documents.rows s.documents)) (sym e) (sym f) ∙ z in
        ground (arith, none, count-insert db.documents laws (live_at t p) d s.documents)
    | inr q ↦ ground (arith, h t p, count-insert db.documents laws (live_at t p) d s.documents)
  ]

  paths-update :
      (f : TeamDocument → TeamDocument) (d : TeamDocument)
      → HasPaths db s
      → ((t p : String) (e : TeamDocument) → live_at t p (f e) ≡ true → live_at t p e ≡ true)
      → HasPaths db (record s { documents = db.documents.update (λ e. e.id == d.id) f s.documents })
  paths-update f d h k t p = omega (
    arith,
    h t p,
    update-shrinks db.documents laws (live_at t p) (λ e. e.id == d.id) f s.documents (k t p),
  )

  paths-upsert :
      (c : Caller) (t path id : String) (f : Stored) (now : ℕ) (blobs : B) (e : Found TeamDocument)
      → HasPaths db s
      → db.documents.one_or_none (live_at t path) s.documents ≡ e
      → HasPaths db (record s {
        documents = upsert db texts contents files c t path id f now e s.documents;
        blobs = blobs;
      })
  paths-upsert c t path id f now blobs nothing h e =
      paths-insert (uploaded c t path id f now) h
        (count-nothing db.documents laws (live_at t path) s.documents e)
  paths-upsert c t path id f now blobs several h e = h
  paths-upsert c t path id f now blobs (one d) h e =
      paths-update (replaced c f now) d h (λ t p e g. g)

  -- No request makes a second live document at a path: what creates one looks for the path first,
  -- and no edit moves a document or brings a deleted one back.
  pub step-HasPaths :
      (c : Option Caller) (r : DocumentRequest Data)
      → HasPaths db s
      → HasPaths db (document_step db texts contents files c r s).0
  unfolding document_step create_document update_document upload_file delete_document
  step-HasPaths none (add t b id now) h = h
  step-HasPaths none (upload t b id now) h = h
  step-HasPaths none (edit t id b now) h = h
  step-HasPaths none (discard t id now) h = h
  step-HasPaths (some c) (add t b id now) h =
      create-cases db texts contents (HasPaths db) s h c t b id now (λ path content parent e.
        paths-insert (written contents c t path content parent id now) h
          (sym (laws.count_lem (live_at t path) s.documents) ∙ e))
  step-HasPaths (some c) (upload t b id now) h =
      upload-cases db texts contents files (HasPaths db) s h c t b id now (λ path f blobs e.
        paths-upsert c t path id f now blobs (db.documents.one_or_none (live_at t path) s.documents)
          h refl)
  step-HasPaths (some c) (edit t id b now) h =
      update-cases db texts contents (HasPaths db) s h c t id b now
        (λ content d e. paths-update (edited contents c content now) d h (λ t p e g. g))
  step-HasPaths (some c) (discard t id now) h =
      delete-cases db texts contents files (HasPaths db) s h c t id now (λ d e.
        paths-update (λ e. record e { is_deleted = true; updated_at = now }) d h
          (λ t p e g. ground arith))

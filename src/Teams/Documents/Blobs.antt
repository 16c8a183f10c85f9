-- ===== src/Teams/Documents/Blobs.antt =====
-- The blobs of documents that are no text, and the documents that share one.
use oc_piloci.Prelude.{
  ℕ, ◌≡◌, ◌≢◌, refl, sym, ◌∙◌, subst, ap, ap₂, Option, none, some, Bool, true, false, not, ◌&&◌,
  ◌||◌, String, ◌==◌, if◌then◌else◌, arith, eq_iff, Bool-cases, inl, inr, List, [], ◌∷◌, map,
}
use oc_piloci.Db.{IsSql, one, count_if}
use oc_piloci.Teams.{Site, Caller, Texts, Tables, TeamDocument, TeamMember, get_team_member}
use oc_piloci.Teams.Documents.{
  Contents, Files, or_none, live_id, save_blob, delete_blob, drop_blob, remaining, delete_document,
  discard_document,
}

-- What a directory of files promises.
pub record IsFiles {B Data : Type 0} (files : Files B Data) : Type 0 where
  pub exists-unlink_same : (p : String) (b : B) → files.exists p (files.unlink p b) ≡ false
  pub exists-unlink_other :
      (p q : String) (b : B) → p ≢ q → files.exists q (files.unlink p b) ≡ files.exists q b
  pub exists-write_same :
      (p : String) (x : Data) (b : B) → files.exists p (files.write_bytes p x b) ≡ true
  pub exists-write_other :
      (p q : String) (x : Data) (b : B)
      → p ≢ q
      → files.exists q (files.write_bytes p x b) ≡ files.exists q b

-- What the keys of the store promise: a key is split where it was joined.
pub record IsContents {Data : Type 0} (contents : Contents Data) : Type 0 where
  pub split-join :
      (team_id : String) (x : Data)
      → contents.is_team_id team_id ≡ true
      → contents.split (contents.join team_id (contents.sha256 x)) ≡ (team_id, contents.sha256 x)

abbrev pub present : {B Data : Type 0} → Files B Data → Option String → B → Bool
present files none blobs = false
present files (some p) blobs = files.exists p blobs

module _ {B Data : Type 0} (contents : Contents Data) (files : Files B Data) where
  -- The file of a key.
  abbrev pub target_of : String → Option String
  target_of key =
      if (contents.split key).0 == "" || not (contents.is_team_id (contents.split key).0)
      then none
      else files.resolve (contents.split key).0 (contents.split key).1

  -- Whether the store has the bytes of a key.
  abbrev pub holds : String → B → Bool
  holds key blobs = present files (target_of key) blobs

  exists-write :
      (laws : IsFiles files) (p : String) (x : Data) (b : B)
      → files.exists p (if files.exists p b then b else files.write_bytes p x b) ≡ true
  exists-write laws p x b = ground (arith, laws.exists-write_same p x b)

  write-present :
      (laws : IsFiles files) (p : String) (o : Option String) (x : Data) (b : B)
      → present files o b ≡ true
      → present files o (if files.exists p b then b else files.write_bytes p x b) ≡ true
  write-present laws p none x b h = absurd (cc h)
  write-present laws p (some q) x b h = elim (Bool-cases (p == q)) [
    | inl f ↦
        subst (λ r. files.exists r (if files.exists p b then b else files.write_bytes p x b) ≡ true)
          ((eq_iff p q).0 f) (exists-write laws p x b)
    | inr f ↦
        ground (arith, laws.exists-write_other p q x b (λ same. ground (arith, eq_iff p q)), h)
  ]

  -- A blob that is saved is in the store under the key that the row gets, and no blob goes.
  pub save_blob-holds :
      (laws : IsFiles files) (keys : IsContents contents) (team_id sha key : String) (x : Data)
      (n : ℕ) (b b' : B)
      → save_blob contents files team_id x b ≡ some (b', (sha, (key, n)))
      → (holds key b' ≡ true) × ((k : String) → holds k b ≡ true → holds k b' ≡ true)
  unfolding save_blob
  save_blob-holds laws keys team_id sha key x n b b' e =
      by_target (files.resolve team_id (contents.sha256 x)) refl
    where
      valid : contents.is_team_id team_id ≡ true
      valid = ground arith

      by_target :
          (o : Option String)
          → files.resolve team_id (contents.sha256 x) ≡ o
          → (holds key b' ≡ true) × ((k : String) → holds k b ≡ true → holds k b' ≡ true)
      by_target none f = absurd (ground arith)
      by_target (some p) f =
          let same : (if files.exists p b then b else files.write_bytes p x b) ≡ b' =
            ground arith in
          let same_key : contents.join team_id (contents.sha256 x) ≡ key = ground arith in
          let at : target_of key ≡ some p =
            sym (ap target_of same_key) ∙ ground (arith, keys.split-join team_id x valid) in
          (
            ap₂ (present files) at (sym same) ∙ exists-write laws p x b,
            λ k h.
                ap (present files (target_of k)) (sym same)
                ∙ write-present laws p (target_of k) x b h,
          )

  delete_blob-holds :
      (laws : IsFiles files) (key : String) (b b' : B) (removed : Bool)
      → delete_blob contents files key b ≡ some (b', removed)
      → holds key b' ≡ false
  unfolding delete_blob
  delete_blob-holds laws key b b' removed e =
      by_target (files.resolve (contents.split key).0 (contents.split key).1) refl
    where
      by_target :
          (o : Option String)
          → files.resolve (contents.split key).0 (contents.split key).1 ≡ o
          → holds key b' ≡ false
      by_target none f = absurd (ground arith)
      by_target (some p) f = ground (arith, laws.exists-unlink_same p b)

-- Another document, which is not deleted, with this key.
abbrev pub shares : String → String → TeamDocument → Bool
shares key doc_id d = not (d.id == doc_id) && (not d.is_deleted && has_key d.storage_key)
  where
    has_key : Option String → Bool
    has_key none = false
    has_key (some k) = k == key

count-unseen :
    {Row : Type 0} (p q : Row → Bool) (f : Row → Row) (xs : List Row)
    → ((r : Row) → q r ≡ true → p r ≡ false)
    → ((r : Row) → q r ≡ true → p (f r) ≡ false)
    → count_if p (map (λ r. if q r then f r else r) xs) ≡ count_if p xs
count-unseen {Row} p q f [] h k = refl
count-unseen {Row} p q f (x ∷ xs) h k = ground (arith, h x, k x, count-unseen p q f xs h k)

module _ {T M I D B Data : Type 0} (db : Tables T M I D) (texts : Texts) (contents : Contents Data)
    (files : Files B Data) where
  delete-done :
      (c : Caller) (m : TeamMember) (t id : String) (d : TeamDocument) (now : ℕ)
      (s : Site T M I D B)
      → get_team_member db t c.user_id s ≡ one m
      → db.documents.one_or_none (live_id t id) s.documents ≡ one d
      → delete_document db texts contents files (some c) t id now s
        ≡ discard_document db texts contents files now d s
  unfolding delete_document
  delete-done c m t id d now s e f = ground arith

  drop_blob-gone :
      (laws : IsFiles files) (key : String) (d : TeamDocument) (b : B)
      → d.is_binary ≡ true
      → or_none d.storage_key ≡ some key
      → contents.is_storage_key key ≡ true
      → holds contents files key (drop_blob db texts contents files d b) ≡ false
  unfolding delete_blob
  drop_blob-gone laws key d b h k v =
      ap (holds contents files key) dropped
      ∙ by_target (files.resolve (contents.split key).0 (contents.split key).1) refl
    where
      nonempty : (o : Option String) → or_none o ≡ some key → (key == "") ≡ false
      nonempty none e = absurd (cc e)
      nonempty (some x) e = elim (Bool-cases (x == "")) [
        | inl f ↦ absurd (ground arith)
        | inr f ↦ let same : x ≡ key = ground arith in ap (λ y. y == "") (sym same) ∙ f
      ]

      dropped :
          drop_blob db texts contents files d b ≡ remaining (delete_blob contents files key b) b
      dropped = rw (k, drop_blob) (rw h refl)

      by_target :
          (o : Option String)
          → files.resolve (contents.split key).0 (contents.split key).1 ≡ o
          → holds contents files key (remaining (delete_blob contents files key b) b) ≡ false
      by_target none f = ground (arith, nonempty d.storage_key k)
      by_target (some p) f = ground (arith, nonempty d.storage_key k, laws.exists-unlink_same p b)

  -- A document that is no text takes its blob with it when it is deleted. The other documents with
  -- the same bytes, which are not deleted, keep their rows, and the bytes that these name are gone.
  pub delete-shared :
      (laws : IsFiles files) (sql : IsSql db.documents) (c : Caller) (m : TeamMember)
      (t id key : String) (d : TeamDocument) (now : ℕ) (s : Site T M I D B)
      → get_team_member db t c.user_id s ≡ one m
      → db.documents.one_or_none (live_id t id) s.documents ≡ one d
      → d.is_binary ≡ true
      → or_none d.storage_key ≡ some key
      → contents.is_storage_key key ≡ true
      → (holds contents files key
            (delete_document db texts contents files (some c) t id now s).0.blobs
          ≡ false)
        × (count_if (shares key d.id) (
              db.documents.rows
                (delete_document db texts contents files (some c) t id now s).0.documents)
            ≡ count_if (shares key d.id) (db.documents.rows s.documents))
  delete-shared laws sql c m t id key d now s e f h k v = (
    ap (λ x. holds contents files key x.0.blobs) (delete-done c m t id d now s e f)
        ∙ drop_blob-gone laws key d s.blobs h k v,
    ap (λ x. count_if (shares key d.id) (db.documents.rows x.0.documents))
          (delete-done c m t id d now s e f)
        ∙ ap (count_if (shares key d.id)) (
            sql.rows-update (λ x. x.id == d.id)
              (λ x. record x { is_deleted = true; updated_at = now }) s.documents)
        ∙ count-unseen (shares key d.id) (λ x. x.id == d.id)
            (λ x. record x { is_deleted = true; updated_at = now }) (db.documents.rows s.documents)
            (λ r q. ground arith) (λ r q. ground arith),
  )

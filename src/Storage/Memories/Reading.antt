-- ===== src/Storage/Memories/Reading.antt =====
-- What the reads of the store return after its writes.
use oc_piloci.Prelude.{
  ℕ, ◌≤◌, ◌≡◌, refl, ◌∙◌, ap, none, some, List, [], ◌∷◌, ◌++◌, Bool, true, false, not, ◌&&◌, String,
  ◌==◌, length, keep, contains, All, arith, eq_iff, eq_refl, ok, ltb, Bool-cases, inl, inr,
}
use oc_piloci.Db.{count_if}
use oc_piloci.Db.Counts.{count_if-append}
use oc_piloci.Storage.Lance.{Lance, IsLance}
use oc_piloci.Storage.Memories.Records.{
  Row, MemoryWrite, Codec, Meta, safe_id, is_safe_id, codes, is_personal, has_id,
}
use oc_piloci.Storage.Memories.{save_many, get, delete, must_filter, memory_filter, new_row}
use oc_piloci.Storage.Memories.Isolation.{saves, after}

-- What the codec of JSON promises: what was written is read, and no dict is written as "".
pub record IsCodec {J : Type 0} (codec : Codec J) : Type 0 where
  pub loads-dumps : (m : Meta J) → codec.loads (codec.dumps m) ≡ some m
  pub dumps_nonempty : (m : Meta J) → (codec.dumps m == "") ≡ false

module _ {T Row : Type 0} (lance : Lance T Row) (laws : IsLance lance) where
  one_row : (row : Row) (xs : List Row) → length xs ≡ 1 → All (λ r. r ≡ row) xs → xs ≡ row ∷ []
  one_row row [] h a = absurd (omega arith)
  one_row row (x ∷ []) h a = ap (λ (y : Row). y ∷ []) a.0
  one_row row (x ∷ y ∷ xs) h a = absurd (omega arith)

  no_row : (xs : List Row) → length xs ≡ 0 → xs ≡ []
  no_row [] h = refl
  no_row (x ∷ xs) h = absurd (omega arith)

  -- A test that one row of the table passes finds it.
  pub query-one :
      (p : Row → Bool) (row : Row) (t : T)
      → 1 ≤ count_if p (lance.rows t)
      → All (λ r. p r ≡ true → r ≡ row) (lance.rows t)
      → lance.query p 1 0 t ≡ row ∷ []
  query-one p row t some_row a =
      one_row row (lance.query p 1 0 t) (omega (arith, laws.length-query p 1 0 t))
        (laws.query-All (λ r. r ≡ row) p 1 0 t a)

  pub query-none :
      (p : Row → Bool) (n k : ℕ) (t : T) → count_if p (lance.rows t) ≡ 0 → lance.query p n k t ≡ []
  query-none p n k t h = no_row (lance.query p n k t) (omega (arith, laws.length-query p n k t))

module _ {T V J : Type 0} (lance : Lance T (Row V)) (laws : IsLance lance)
    (keyed : (r : Row V) → lance.key r ≡ r.memory_id) (codec : Codec J) (json : IsCodec codec) where
  -- What a merge leaves of the old rows has another id.
  old-All :
      (P : Row V → Type 0) (id : String) (p : Row V → Bool) (xs : List (Row V))
      → All
          (λ r. (p r && has_id id r) ≡ true → P r)
          (keep (λ r. not (contains (lance.key r) (id ∷ []))) xs)
  unfolding contains
  old-All P id p [] = tt
  old-All P id p (x ∷ xs) = elim (Bool-cases (id == lance.key x)) [
    | inl e ↦ rw e (old-All P id p xs)
    | inr e ↦ rw e (
      λ own. absurd (ground (arith, keyed x, eq_iff id (lance.key x), eq_iff x.memory_id id)),
      old-All P id p xs,
    )
  ]

  All-append : (P : Row V → Type 0) (xs ys : List (Row V)) → All P xs → All P ys → All P (xs ++ ys)
  All-append P [] ys a b = b
  All-append P (x ∷ xs) ys a b = (a.0, All-append P xs ys a.1 b)

  -- The table after one row came in.
  merged_rows :
      (row : Row V) (t : T)
      → lance.rows (lance.merge_insert (row ∷ []) t)
        ≡ keep (λ r. not (contains (lance.key r) (lance.key row ∷ []))) (lance.rows t) ++ row ∷ []
  merged_rows row t = laws.rows-merge_insert (row ∷ []) t

  pub query-merged :
      (p : Row V → Bool) (row : Row V) (t : T)
      → (p row && has_id row.memory_id row) ≡ true
      → lance.query (λ r. p r && has_id row.memory_id r) 1 0 (lance.merge_insert (row ∷ []) t)
        ≡ row ∷ []
  query-merged p row t own =
      let old : List (Row V) =
        keep (λ r. not (contains (lance.key r) (row.memory_id ∷ []))) (lance.rows t) in
      let where_ : Row V → Bool = λ r. p r && has_id row.memory_id r in
      let rows : lance.rows (lance.merge_insert (row ∷ []) t) ≡ old ++ row ∷ [] =
        merged_rows row t
        ∙ ap (λ k. keep (λ r. not (contains (lance.key r) (k ∷ []))) (lance.rows t) ++ row ∷ [])
            (keyed row) in
      query-one lance laws where_ row (lance.merge_insert (row ∷ []) t)
        (ground (arith, ap (count_if where_) rows, count_if-append where_ old (row ∷ [])))
        (rw rows (
          All-append (λ r. where_ r ≡ true → r ≡ row) old (row ∷ [])
            (old-All (λ r. r ≡ row) row.memory_id p (lance.rows t)) (λ _. refl, tt)))

  -- A memory that is saved is read under its id by its project as it was given, and belongs to no team.
  pub get-save_many :
      (user_id project_id id : String) (m : MemoryWrite V J) (now : ℕ) (t : T)
      → is_safe_id (codes user_id) ≡ true
      → is_safe_id (codes project_id) ≡ true
      → is_safe_id (codes id) ≡ true
      → (save_many lance codec user_id project_id ((id, m) ∷ []) now t
          ≡ ok (after lance codec (saves user_id project_id ((id, m) ∷ [])) now t, id ∷ []))
        × (get lance codec user_id project_id id
              (after lance codec (saves user_id project_id ((id, m) ∷ [])) now t)
            ≡ ok (
                some (record {
                  id = id;
                  user_id = user_id;
                  project_id = project_id;
                  scope = "personal";
                  team_id = none;
                  content = m.content;
                  tags = m.tags;
                  metadata = m.metadata;
                  created_at = now;
                  updated_at = now;
                })))
  unfolding after save_many get safe_id must_filter memory_filter
  get-save_many user_id project_id id m now t safe_user safe_project safe_memory =
      rw (safe_user, safe_project, safe_memory)
        (
          refl,
          rw
              (
                query-merged (is_personal user_id project_id)
                    (new_row lance codec user_id project_id id m now) t
                    (ground (arith, eq_refl user_id, eq_refl project_id, eq_refl id)),
                json.dumps_nonempty m.metadata,
                json.loads-dumps m.metadata,
              )
              refl,
        )

  -- A memory that is deleted is not found any more; the reply says whether there was one.
  pub get-delete :
      (user_id project_id id : String) (t : T)
      → is_safe_id (codes user_id) ≡ true
      → is_safe_id (codes project_id) ≡ true
      → is_safe_id (codes id) ≡ true
      → (t' : T) × (delete lance codec user_id project_id id t
          ≡ ok (
            t',
            ltb 0 (count_if (λ r. is_personal user_id project_id r && has_id id r) (lance.rows t)),
          ))
        × (get lance codec user_id project_id id t' ≡ ok none)
  unfolding delete get safe_id must_filter memory_filter
  get-delete user_id project_id id t safe_user safe_project safe_memory =
      let where_ : Row V → Bool = λ r. is_personal user_id project_id r && has_id id r in
      (
        (lance.delete where_ t).0,
        rw (safe_user, safe_project, safe_memory, laws.deleted_count where_ t) refl,
        rw (safe_user, safe_project, safe_memory)
            (rw
              (query-none lance laws where_ 1 0 (lance.delete where_ t).0 (
                ap (count_if where_) (laws.rows-delete where_ t)
                ∙ count-dropped where_ (lance.rows t)))
              refl),
      )
    where
      count-dropped :
          (p : Row V → Bool) (xs : List (Row V)) → count_if p (keep (λ r. not (p r)) xs) ≡ 0
      count-dropped p [] = refl
      count-dropped p (x ∷ xs) = ground (arith, count-dropped p xs)

-- ===== src/Storage/Lance.antt =====
-- A table of LanceDB, as storage/ uses it. The database is a parameter; `Lance.Table` gives one to
-- run with. The view `rows` has an order that no read depends on.
pub mod Table
pub mod Frames
pub mod Keys
use oc_piloci.Prelude.{
  ℕ, ◌-◌, ◌≤◌, ◌≡◌, min, Option, some, List, ◌++◌, map, Bool, true, not, String, if◌then◌else◌,
  length, keep, All, contains,
}
use oc_piloci.Db.{count_if}

pub record Lance (T Row : Type 0) : Type 0 where
  -- The column that `merge_insert` goes by.
  pub key : Row → String
  pub rows : T → List Row
  -- tbl.query().where(p).limit(n).offset(k).to_list()
  pub query : (Row → Bool) → ℕ → ℕ → T → List Row
  -- tbl.count_rows(p)
  pub count_rows : (Row → Bool) → T → ℕ
  -- tbl.update(where=p), with the number of rows it updated
  pub update : (Row → Bool) → (Row → Row) → T → T × ℕ
  -- tbl.delete(p), with the number of rows it deleted
  pub delete : (Row → Bool) → T → T × ℕ
  -- merge_insert(key).when_matched_update_all().when_not_matched_insert_all().execute(rows)
  pub merge_insert : List Row → T → T

-- The two searches: by the distance of a vector, and by the words of a text, where the index may
-- not be ready and the search raises.
pub record Engine (T Row V F : Type 0) : Type 0 where
  pub vector_search : V → (Row → Bool) → ℕ → T → List (Row × F)
  pub text_search : String → (Row → Bool) → ℕ → T → Option (List Row)

-- What the documentation of LanceDB says.
pub record IsLance {T Row : Type 0} (lance : Lance T Row) : Type 1 where
  -- A result holds rows of the table that pass, as many as there are up to the limit.
  pub query-All :
      (P : Row → Type 0) (p : Row → Bool) (n k : ℕ) (t : T)
      → All (λ r. p r ≡ true → P r) (lance.rows t)
      → All P (lance.query p n k t)
  pub length-query :
      (p : Row → Bool) (n k : ℕ) (t : T)
      → length (lance.query p n k t) ≡ min n (count_if p (lance.rows t) - k)
  pub count_rows_lem : (p : Row → Bool) (t : T) → lance.count_rows p t ≡ count_if p (lance.rows t)
  pub rows-update :
      (p : Row → Bool) (f : Row → Row) (t : T)
      → lance.rows (lance.update p f t).0 ≡ map (λ r. if p r then f r else r) (lance.rows t)
  pub updated_count :
      (p : Row → Bool) (f : Row → Row) (t : T) → (lance.update p f t).1 ≡ count_if p (lance.rows t)
  pub rows-delete :
      (p : Row → Bool) (t : T)
      → lance.rows (lance.delete p t).0 ≡ keep (λ r. not (p r)) (lance.rows t)
  pub deleted_count : (p : Row → Bool) (t : T) → (lance.delete p t).1 ≡ count_if p (lance.rows t)
  pub rows-merge_insert :
      (rs : List Row) (t : T)
      → lance.rows (lance.merge_insert rs t)
        ≡ keep (λ r. not (contains (lance.key r) (map lance.key rs))) (lance.rows t) ++ rs

-- A search finds rows of the table that pass, at most as many as the limit.
pub record IsEngine {T Row V F : Type 0} (lance : Lance T Row) (engine : Engine T Row V F)
    : Type 1 where
  pub vector_search-All :
      (P : Row → Type 0) (v : V) (p : Row → Bool) (n : ℕ) (t : T)
      → All (λ r. p r ≡ true → P r) (lance.rows t)
      → All (λ x. P x.0) (engine.vector_search v p n t)
  pub length-vector_search :
      (v : V) (p : Row → Bool) (n : ℕ) (t : T) → length (engine.vector_search v p n t) ≤ n
  pub text_search-All :
      (P : Row → Type 0) (s : String) (p : Row → Bool) (n : ℕ) (t : T) (found : List Row)
      → All (λ r. p r ≡ true → P r) (lance.rows t)
      → engine.text_search s p n t ≡ some found
      → All P found

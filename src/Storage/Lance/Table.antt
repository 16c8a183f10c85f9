-- ===== src/Storage/Lance/Table.antt =====
-- A table that is the list of its rows: it meets all that `IsLance` asks for.
use oc_piloci.Prelude.{
  ℕ, zero, suc, ◌≡◌, refl, some, List, [], ◌∷◌, ◌++◌, map, Bool, true, not, String, if◌then◌else◌,
  length, keep, take, drop, All, arith, contains, length-take, length-drop, length-map, ◌∙◌, ◌≤◌,
  ◌&&◌, subst,
}
use oc_piloci.Storage.Lance.{Lance, IsLance, Engine, IsEngine}

module _ {Row : Type 0} where
  All-keep :
      (P : Row → Type 0) (p : Row → Bool) (xs : List Row)
      → All (λ r. p r ≡ true → P r) xs
      → All P (keep p xs)
  All-keep P p [] a = tt
  All-keep P p (x ∷ xs) a = ground (arith, a.0, All-keep P p xs a.1)

  All-take : (P : Row → Type 0) (n : ℕ) (xs : List Row) → All P xs → All P (take n xs)
  All-take P zero xs a = tt
  All-take P (suc n) [] a = tt
  All-take P (suc n) (x ∷ xs) a = (a.0, All-take P n xs a.1)

  All-drop : (P : Row → Type 0) (n : ℕ) (xs : List Row) → All P xs → All P (drop n xs)
  All-drop P zero xs a = a
  All-drop P (suc n) [] a = tt
  All-drop P (suc n) (x ∷ xs) a = All-drop P n xs a.1

  abbrev pub table : (Row → String) → Lance (List Row) Row
  table key = record {
    key = key;
    rows = λ t. t;
    query = λ p n k t. take n (drop k (keep p t));
    count_rows = λ p t. length (keep p t);
    update = λ p f t. (map (λ r. if p r then f r else r) t, length (keep p t));
    delete = λ p t. (keep (λ r. not (p r)) t, length (keep p t));
    merge_insert = λ rs t. keep (λ r. not (contains (key r) (map key rs))) t ++ rs;
  }

  pub table-IsLance : (key : Row → String) → IsLance (table key)
  table-IsLance key = record {
    query-All = λ P p n k t a.
        All-take P n (drop k (keep p t)) (All-drop P k (keep p t) (All-keep P p t a));
    length-query =
        λ p n k t. length-take n (drop k (keep p t)) ∙ rw (length-drop k (keep p t)) refl;
    count_rows_lem = λ p t. refl;
    rows-update = λ p f t. refl;
    updated_count = λ p f t. refl;
    rows-delete = λ p t. refl;
    deleted_count = λ p t. refl;
    rows-merge_insert = λ rs t. refl;
  }

All-both :
    {Row : Type 0} (P : Row → Type 0) (p q : Row → Bool) (xs : List Row)
    → All (λ r. p r ≡ true → P r) xs
    → All (λ r. (p r && q r) ≡ true → P r) xs
All-both {Row} P p q [] a = tt
All-both {Row} P p q (x ∷ xs) a = (λ h. a.0 (ground arith), All-both P p q xs a.1)

module _ {Row V F : Type 0} (key : Row → String) (distance : V → Row → F)
    (has_words : String → Row → Bool) where
  -- Searches that take the first rows that pass.
  abbrev pub scan : Engine (List Row) Row V F
  scan = record {
    vector_search = λ v p n t. map (λ r. (r, distance v r)) (take n (keep p t));
    text_search = λ s p n t. some (take n (keep (λ r. p r && has_words s r) t));
  }

  abbrev measured : V → Row → Row × F
  measured v r = (r, distance v r)

  All-map :
      (P : Row → Type 0) (v : V) (xs : List Row)
      → All P xs
      → All (λ (x : Row × F). P x.0) (map (measured v) xs)
  All-map P v [] a = tt
  All-map P v (x ∷ xs) a = (a.0, All-map P v xs a.1)

  length-scan : (v : V) (n : ℕ) (xs : List Row) → length (map (measured v) (take n xs)) ≤ n
  length-scan v n xs = omega (arith, length-map (measured v) (take n xs), length-take n xs)

  pub scan-IsEngine : IsEngine (table key) scan
  scan-IsEngine = record {
    vector_search-All =
        λ P v p n t a. All-map P v (take n (keep p t)) (All-take P n (keep p t) (All-keep P p t a));
    length-vector_search = λ v p n t. length-scan v n (keep p t);
    text_search-All = λ P s p n t found a e. subst (All P) (cc e) (
        All-take P n (keep (λ r. p r && has_words s r) t)
          (All-keep P (λ r. p r && has_words s r) t (All-both P p (has_words s) t a)));
  }

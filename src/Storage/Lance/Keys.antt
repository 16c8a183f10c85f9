-- ===== src/Storage/Lance/Keys.antt =====
-- The column that rows are merged by stays a key.
use oc_piloci.Prelude.{
  ◌+◌, ◌≤◌, ◌≡◌, refl, ◌∙◌, ap, List, [], ◌∷◌, ◌++◌, map, Bool, true, false, not, String, ◌==◌,
  if◌then◌else◌, keep, contains, Distinct, arith, eq_iff, Bool-cases, inl, inr, subst, fun_ext, All,
}
use oc_piloci.Db.{count_if}
use oc_piloci.Db.Counts.{count_if-append, count_if-keep, count_if-and-le, HasKeys}
use oc_piloci.Storage.Lance.{Lance, IsLance}

module _ {Row : Type 0} (id : Row → String) where
  count-absent :
      (k : String) (xs : List Row)
      → contains k (map id xs) ≡ false
      → count_if (λ r. id r == k) xs ≡ 0
  unfolding contains
  count-absent k [] h = refl
  count-absent k (x ∷ xs) h = ground (arith, count-absent k xs)

  pub Distinct-HasKeys : (xs : List Row) → Distinct (map id xs) → HasKeys id xs
  Distinct-HasKeys [] d k = omega arith
  Distinct-HasKeys (x ∷ xs) d k =
      ground (arith, Distinct-HasKeys xs d.1 k, count-absent (id x) xs d.0, eq_iff (id x) k)

  count-map :
      (p : Row → Bool) (f : Row → Row) (k : String) (xs : List Row)
      → ((r : Row) → id (f r) ≡ id r)
      → count_if (λ r. id r == k) (map (λ r. if p r then f r else r) xs)
        ≡ count_if (λ r. id r == k) xs
  count-map p f k [] h = refl
  count-map p f k (x ∷ xs) h = elim (Bool-cases (p x)) [
    | inl e ↦ rw (e, h x) (ground (arith, count-map p f k xs h))
    | inr e ↦ rw e (ground (arith, count-map p f k xs h))
  ]

  count-other :
      (ks : List String) (k : String) (xs : List Row)
      → contains k ks ≡ true
      → count_if (λ r. id r == k) (keep (λ r. not (contains (id r) ks)) xs) ≡ 0
  count-other ks k [] h = refl
  count-other ks k (x ∷ xs) h = elim (Bool-cases (id x == k)) [
    | inl e ↦ rw ((eq_iff (id x) k).0 e, h) (count-other ks k xs h)
    | inr e ↦ ground (arith, count-other ks k xs h)
  ]

module _ {T Row : Type 0} (lance : Lance T Row) (laws : IsLance lance) (id : Row → String) where
  pub update-HasKeys :
      (p : Row → Bool) (f : Row → Row) (t : T)
      → ((r : Row) → id (f r) ≡ id r)
      → HasKeys id (lance.rows t)
      → HasKeys id (lance.rows (lance.update p f t).0)
  update-HasKeys p f t h keys k = omega (
    arith,
    ap (count_if (λ r. id r == k)) (laws.rows-update p f t),
    count-map id p f k (lance.rows t) h,
    keys k,
  )

  pub delete-HasKeys :
      (p : Row → Bool) (t : T)
      → HasKeys id (lance.rows t)
      → HasKeys id (lance.rows (lance.delete p t).0)
  delete-HasKeys p t keys k = omega (
    arith,
    ap (count_if (λ r. id r == k)) (laws.rows-delete p t),
    count_if-keep (λ r. not (p r)) (λ r. id r == k) (lance.rows t),
    count_if-and-le (λ r. not (p r)) (λ r. id r == k) (lance.rows t),
    keys k,
  )

  pub merge-HasKeys :
      (keyed : (r : Row) → lance.key r ≡ id r) (rs : List Row) (t : T)
      → Distinct (map id rs)
      → HasKeys id (lance.rows t)
      → HasKeys id (lance.rows (lance.merge_insert rs t))
  merge-HasKeys keyed rs t d keys k =
      let by_key : lance.key ≡ id = fun_ext keyed in
      let old : List Row = keep (λ r. not (contains (id r) (map id rs))) (lance.rows t) in
      let new : lance.rows (lance.merge_insert rs t) ≡ old ++ rs =
        subst
          (λ (f : Row → String).
            lance.rows (lance.merge_insert rs t)
            ≡ keep (λ r. not (contains (f r) (map f rs))) (lance.rows t) ++ rs)
          by_key (laws.rows-merge_insert rs t) in
      let total : count_if (λ r. id r == k) (lance.rows (lance.merge_insert rs t))
          ≡ count_if (λ r. id r == k) old + count_if (λ r. id r == k) rs =
        ap (count_if (λ r. id r == k)) new ∙ count_if-append (λ r. id r == k) old rs in
      elim (Bool-cases (contains k (map id rs))) [
        | inl e ↦ omega (
          arith,
          total,
          count-other id (map id rs) k (lance.rows t) e,
          Distinct-HasKeys id rs d k,
        )
        | inr e ↦ omega (
          arith,
          total,
          count-absent id k rs e,
          count_if-keep (λ r. not (contains (id r) (map id rs))) (λ r. id r == k) (lance.rows t),
          count_if-and-le (λ r. not (contains (id r) (map id rs))) (λ r. id r == k) (lance.rows t),
          keys k,
        )
      ]

-- A test that one row at most passes: who passes it is that row.
pub sole :
    {Row : Type 0} (p : Row → Bool) (xs : List Row)
    → count_if p xs ≤ 1
    → All (λ r. p r ≡ true → All (λ x. p x ≡ true → x ≡ r) xs) xs
sole {Row} p [] h = tt
sole {Row} p (y ∷ ys) h = elim (Bool-cases (p y)) [
  | inl e ↦
      let rest : count_if p ys ≡ 0 = ground arith in
      (
        λ _. (λ _. refl, none_pass ys rest (λ x. x ≡ y)),
        none_pass ys rest (λ r. All (λ x. p x ≡ true → x ≡ r) (y ∷ ys)),
      )
  | inr e ↦ (λ q. absurd (ground arith), with_head ys (sole p ys (ground arith)) e)
]
  where
    none_pass :
        (zs : List Row) → count_if p zs ≡ 0 → (P : Row → Type 0) → All (λ x. p x ≡ true → P x) zs
    none_pass [] h P = tt
    none_pass (z ∷ zs) h P = (λ q. absurd (ground arith), none_pass zs (ground arith) P)

    with_head :
        (zs : List Row)
        → All (λ r. p r ≡ true → All (λ x. p x ≡ true → x ≡ r) ys) zs
        → p y ≡ false
        → All (λ r. p r ≡ true → All (λ x. p x ≡ true → x ≡ r) (y ∷ ys)) zs
    with_head [] a e = tt
    with_head (z ∷ zs) a e = (λ q. (λ k. absurd (ground arith), a.0 q), with_head zs a.1 e)

-- ===== src/Storage/Lance/Frames.antt =====
-- What the statements on a table leave alone: the count of the rows that a test picks.
use oc_piloci.Prelude.{
  ℕ, ◌+◌, ◌≤◌, ◌≡◌, refl, ◌∙◌, ap, List, [], ◌∷◌, map, Bool, true, false, not, ◌&&◌, if◌then◌else◌,
  length, keep, contains, arith,
}
use oc_piloci.Db.{count_if}
use oc_piloci.Db.Counts.{count_if-append}
use oc_piloci.Storage.Lance.{Lance, IsLance}

module _ {Row : Type 0} where
  map-frame :
      (p q : Row → Bool) (f : Row → Row) (xs : List Row)
      → ((r : Row) → p r ≡ true → q r ≡ false)
      → ((r : Row) → p r ≡ true → q (f r) ≡ false)
      → count_if q (map (λ r. if p r then f r else r) xs) ≡ count_if q xs
  map-frame p q f [] before after = refl
  map-frame p q f (x ∷ xs) before after =
      ground (arith, before x, after x, map-frame p q f xs before after)

  -- Rows that the first test drops are not picked by the second.
  keep-frame :
      (p q : Row → Bool) (xs : List Row)
      → count_if (λ r. p r && q r) xs ≡ 0
      → count_if q (keep (λ r. not (p r)) xs) ≡ count_if q xs
  keep-frame p q [] h = refl
  keep-frame p q (x ∷ xs) h = ground (arith, keep-frame p q xs)

  pub count-disjoint :
      (p q : Row → Bool) (xs : List Row)
      → ((r : Row) → p r ≡ true → q r ≡ false)
      → count_if (λ r. p r && q r) xs ≡ 0
  count-disjoint p q [] h = refl
  count-disjoint p q (x ∷ xs) h = ground (arith, h x, count-disjoint p q xs h)

  -- Of a key that one row has, a row with another owner is not found.
  pub count-owned :
      (p q own : Row → Bool) (xs : List Row)
      → count_if p xs ≤ 1
      → 1 ≤ count_if (λ r. own r && p r) xs
      → ((r : Row) → own r ≡ true → q r ≡ false)
      → count_if (λ r. p r && q r) xs ≡ 0
  count-owned p q own xs one found apart = omega (arith, shares xs)
    where
      shares :
          (ys : List Row)
          → count_if (λ r. own r && p r) ys + count_if (λ r. p r && q r) ys ≤ count_if p ys
      shares [] = omega arith
      shares (y ∷ ys) = ground (arith, apart y, shares ys)

module _ {T Row : Type 0} (lance : Lance T Row) (laws : IsLance lance) where
  pub update-frame :
      (p q : Row → Bool) (f : Row → Row) (t : T)
      → ((r : Row) → p r ≡ true → q r ≡ false)
      → ((r : Row) → p r ≡ true → q (f r) ≡ false)
      → count_if q (lance.rows (lance.update p f t).0) ≡ count_if q (lance.rows t)
  update-frame p q f t before after =
      ap (count_if q) (laws.rows-update p f t) ∙ map-frame p q f (lance.rows t) before after

  pub delete-frame :
      (p q : Row → Bool) (t : T)
      → ((r : Row) → p r ≡ true → q r ≡ false)
      → count_if q (lance.rows (lance.delete p t).0) ≡ count_if q (lance.rows t)
  delete-frame p q t h =
      ap (count_if q) (laws.rows-delete p t)
      ∙ keep-frame p q (lance.rows t) (count-disjoint p q (lance.rows t) h)

  -- The rows that come in are not picked, nor those whose keys they have.
  pub merge-frame :
      (rs : List Row) (q : Row → Bool) (t : T)
      → count_if q rs ≡ 0
      → count_if (λ r. contains (lance.key r) (map lance.key rs) && q r) (lance.rows t) ≡ 0
      → count_if q (lance.rows (lance.merge_insert rs t)) ≡ count_if q (lance.rows t)
  merge-frame rs q t new old = omega (
    arith,
    ap (count_if q) (laws.rows-merge_insert rs t),
    count_if-append q (keep (λ r. not (contains (lance.key r) (map lance.key rs))) (lance.rows t))
        rs,
    keep-frame (λ r. contains (lance.key r) (map lance.key rs)) q (lance.rows t) old,
  )

  -- What a query returns is in the table.
  pub count-query :
      (p : Row → Bool) (r : Row) (rest : List Row) (n : ℕ) (t : T)
      → lance.query p n 0 t ≡ r ∷ rest
      → 1 ≤ count_if p (lance.rows t)
  count-query p r rest n t e = omega (arith, laws.length-query p n 0 t, ap length e)

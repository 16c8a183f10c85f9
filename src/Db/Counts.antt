-- ===== src/Db/Counts.antt =====
-- Counting the rows that pass a test, through the statements that change a table.
use oc_piloci.Prelude.{
  ◌+◌, ◌≤◌, ◌≡◌, refl, List, [], ◌∷◌, ◌++◌, map, Bool, true, false, not, ◌&&◌, String,
  if◌then◌else◌, length, keep, ◌==◌, eq_iff, arith, contains, Distinct,
}
use oc_piloci.Db.{count_if}

module _ {Row : Type 0} where
  pub count_if-append :
      (p : Row → Bool) (xs ys : List Row) → count_if p (xs ++ ys) ≡ count_if p xs + count_if p ys
  count_if-append p [] ys = omega arith
  count_if-append p (x ∷ xs) ys = ground (arith, count_if-append p xs ys)

  pub count_if-keep :
      (p q : Row → Bool) (xs : List Row) → count_if q (keep p xs) ≡ count_if (λ r. p r && q r) xs
  count_if-keep p q [] = refl
  count_if-keep p q (x ∷ xs) = ground (arith, count_if-keep p q xs)

  -- The rows that pass `p`, by what a second test says of them.
  pub count_if-split :
      (p q : Row → Bool) (xs : List Row)
      → count_if p xs ≡ count_if (λ r. p r && q r) xs + count_if (λ r. p r && not (q r)) xs
  count_if-split p q [] = omega arith
  count_if-split p q (x ∷ xs) = ground (arith, count_if-split p q xs)

  -- An update that makes its rows fail `p`.
  pub count_if-update :
      (p q : Row → Bool) (f : Row → Row) (xs : List Row)
      → ((r : Row) → p (f r) ≡ false)
      → count_if p (map (λ r. if q r then f r else r) xs) ≡ count_if (λ r. p r && not (q r)) xs
  count_if-update p q f [] h = refl
  count_if-update p q f (x ∷ xs) h = ground (arith, h x, count_if-update p q f xs h)

  pub count_if-and-le :
      (p q : Row → Bool) (xs : List Row) → count_if (λ r. p r && q r) xs ≤ count_if q xs
  count_if-and-le p q [] = omega arith
  count_if-and-le p q (x ∷ xs) = ground (arith, count_if-and-le p q xs)

  pub count_if-le : (p : Row → Bool) (xs : List Row) → count_if p xs ≤ length xs
  count_if-le p [] = omega arith
  count_if-le p (x ∷ xs) = ground (arith, count_if-le p xs)

  -- An update that no row fails a test by.
  pub count-grows :
      (p q : Row → Bool) (f : Row → Row) (xs : List Row)
      → ((r : Row) → p r ≡ true → p (f r) ≡ true)
      → count_if p xs ≤ count_if p (map (λ r. if q r then f r else r) xs)
  count-grows p q f [] h = omega arith
  count-grows p q f (x ∷ xs) h = ground (arith, h x, count-grows p q f xs h)

module _ {Row : Type 0} (id : Row → String) where
  -- No two rows have one key.
  abbrev pub HasKeys : List Row → Type 0
  HasKeys xs = (k : String) → count_if (λ r. id r == k) xs ≤ 1

  -- The row's key is among these.
  abbrev pub one_of : List String → Row → Bool
  one_of ks r = contains (id r) ks

  contains-map :
      (k : String) (xs : List Row)
      → count_if (λ r. id r == k) xs ≡ 0
      → contains k (map id xs) ≡ false
  unfolding contains
  contains-map k [] h = refl
  contains-map k (x ∷ xs) h = ground (arith, contains-map k xs)

  pub Distinct-keys : (xs : List Row) → HasKeys xs → Distinct (map id xs)
  Distinct-keys [] h = tt
  Distinct-keys (x ∷ xs) h = (
    contains-map (id x) xs (ground (arith, h (id x), eq_iff (id x) (id x))),
    Distinct-keys xs (λ k. ground (arith, h k)),
  )

  count_if-none : (xs : List Row) → count_if (one_of []) xs ≡ 0
  unfolding contains
  count_if-none [] = refl
  count_if-none (x ∷ xs) = count_if-none xs

  count_if-cons_absent :
      (k : String) (ks : List String) (xs : List Row)
      → contains k (map id xs) ≡ false
      → count_if (one_of (k ∷ ks)) xs ≡ count_if (one_of ks) xs
  unfolding contains
  count_if-cons_absent k ks [] h = refl
  count_if-cons_absent k ks (x ∷ xs) h =
      ground (arith, count_if-cons_absent k ks xs, eq_iff k (id x), eq_iff (id x) k)

  -- The keys of a first part pick out that part and no more.
  pub count_if-front :
      (front rest : List Row)
      → Distinct (map id (front ++ rest))
      → count_if (one_of (map id front)) (front ++ rest) ≡ length front
  unfolding contains
  count_if-front [] rest d = count_if-none rest
  count_if-front (x ∷ front) rest d = ground (
    arith,
    count_if-cons_absent (id x) (map id front) (front ++ rest) d.0,
    count_if-front front rest d.1,
    eq_iff (id x) (id x),
  )

-- ===== src/Db/Table.antt =====
-- A table that is the list of its rows: it meets all that `IsSql` asks for.
use oc_piloci.Prelude.{
  ◌≡◌, refl, ◌∙◌, inl, inr, List, [], ◌∷◌, ◌++◌, map, true, false, not, String, if◌then◌else◌,
  length, keep, All, ◌==◌, arith, Bool-cases,
}
use oc_piloci.Db.{Key, asc, desc, precedes, SameRows, IsOrderedBy, find, found, Sql, IsSql}

module _ {Row : Type 0} where
  precedes_total :
      (ks : List (Key Row)) (a b : Row) → precedes ks a b ≡ false → precedes ks b a ≡ true
  unfolding precedes
  precedes_total [] a b h = refl
  precedes_total (asc f ∷ ks) a b h = ground (arith, precedes_total ks a b)
  precedes_total (desc f ∷ ks) a b h = ground (arith, precedes_total ks a b)

  precedes_trans :
      (ks : List (Key Row)) (a b c : Row)
      → precedes ks a b ≡ true
      → precedes ks b c ≡ true
      → precedes ks a c ≡ true
  unfolding precedes
  precedes_trans [] a b c h k = refl
  precedes_trans (asc f ∷ ks) a b c h k = ground (arith, precedes_trans ks a b c)
  precedes_trans (desc f ∷ ks) a b c h k = ground (arith, precedes_trans ks a b c)

  place : List (Key Row) → Row → List Row → List Row
  place ks x [] = x ∷ []
  place ks x (y ∷ ys) = if precedes ks x y then x ∷ y ∷ ys else y ∷ place ks x ys

  unfoldable pub sort : List (Key Row) → List Row → List Row
  unfolding place
  sort ks [] = []
  sort ks (x ∷ xs) = place ks x (sort ks xs)

  place-same : (ks : List (Key Row)) (x : Row) (xs : List Row) → SameRows (place ks x xs) (x ∷ xs)
  unfolding place
  place-same ks x [] p = refl
  place-same ks x (y ∷ ys) p = ground (arith, place-same ks x ys p)

  sort-same : (ks : List (Key Row)) (xs : List Row) → SameRows (sort ks xs) xs
  unfolding sort
  sort-same ks [] p = refl
  sort-same ks (x ∷ xs) p = place-same ks x (sort ks xs) p ∙ ground (arith, sort-same ks xs p)

  All-trans :
      (ks : List (Key Row)) (x y : Row) (ys : List Row)
      → precedes ks x y ≡ true
      → All (λ z. precedes ks y z ≡ true) ys
      → All (λ z. precedes ks x z ≡ true) ys
  All-trans ks x y [] h a = tt
  All-trans ks x y (z ∷ zs) h a = (precedes_trans ks x y z h a.0, All-trans ks x y zs h a.1)

  All-place :
      (P : Row → Type 0) (ks : List (Key Row)) (x : Row) (ys : List Row)
      → P x
      → All P ys
      → All P (place ks x ys)
  unfolding place
  All-place P ks x [] h a = (h, tt)
  All-place P ks x (y ∷ ys) h a = elim (Bool-cases (precedes ks x y)) [
    | inl e ↦ rw e (h, a)
    | inr e ↦ rw e (a.0, All-place P ks x ys h a.1)
  ]

  place-ordered :
      (ks : List (Key Row)) (x : Row) (ys : List Row)
      → IsOrderedBy ks ys
      → IsOrderedBy ks (place ks x ys)
  unfolding place
  place-ordered ks x [] o = (tt, tt)
  place-ordered ks x (y ∷ ys) o = elim (Bool-cases (precedes ks x y)) [
    | inl e ↦ rw e ((e, All-trans ks x y ys e o.0), o)
    | inr e ↦ rw e (
      All-place (λ z. precedes ks y z ≡ true) ks x ys (precedes_total ks x y e) o.0,
      place-ordered ks x ys o.1,
    )
  ]

  sort-ordered : (ks : List (Key Row)) (xs : List Row) → IsOrderedBy ks (sort ks xs)
  unfolding sort
  sort-ordered ks [] = tt
  sort-ordered ks (x ∷ xs) = place-ordered ks x (sort ks xs) (sort-ordered ks xs)

  abbrev pub table : (Row → String) → Sql (List Row) Row
  table key = record {
    primary_key = key;
    rows = λ t. t;
    count = λ p t. length (keep p t);
    select = λ p ks t. sort ks (keep p t);
    get = λ k t. find (λ r. key r == k) t;
    one_or_none = λ p t. found (keep p t);
    update = λ p f t. map (λ r. if p r then f r else r) t;
    insert = λ r t. t ++ r ∷ [];
    delete = λ p t. keep (λ r. not (p r)) t;
  }

  pub table-IsSql : (key : Row → String) → IsSql (table key)
  table-IsSql key = record {
    count_lem = λ p t. refl;
    select-same = λ p ks t. sort-same ks (keep p t);
    select-ordered = λ p ks t. sort-ordered ks (keep p t);
    get_lem = λ k t. refl;
    one_or_none_lem = λ p t. refl;
    rows-update = λ p f t. refl;
    rows-insert = λ r t. refl;
    rows-delete = λ p t. refl;
  }

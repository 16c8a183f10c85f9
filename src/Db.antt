-- ===== src/Db.antt =====
-- A table of the SQL database, as the code uses it through SQLAlchemy: what each statement does to
-- the rows. The database is a parameter; `Db.Table` gives one to run with.
pub mod Table
pub mod Counts
pub mod Finding
use oc_piloci.Prelude.{
  ℕ, ◌≡◌, Option, none, some, List, [], ◌∷◌, ◌++◌, map, Bool, true, false, not, ◌&&◌, ◌||◌, String,
  ltb, ◌=?◌, if◌then◌else◌, length, keep, All, ◌==◌,
}

-- A column to order by.
pub data Key (Row : Type 0) : Type 0 where
  asc desc : (Row → ℕ) → Key Row

module _ {Row : Type 0} where
  -- `a` may stand before `b` in a result with this ORDER BY.
  unfoldable pub precedes : List (Key Row) → Row → Row → Bool
  precedes [] a b = true
  precedes (asc f ∷ ks) a b = ltb (f a) (f b) || ((f a =? f b) && precedes ks a b)
  precedes (desc f ∷ ks) a b = ltb (f b) (f a) || ((f a =? f b) && precedes ks a b)

  abbrev pub count_if : (Row → Bool) → List Row → ℕ
  count_if p rows = length (keep p rows)

  -- The same rows, each as often, in any order.
  abbrev pub SameRows : List Row → List Row → Type 0
  SameRows xs ys = (p : Row → Bool) → count_if p xs ≡ count_if p ys

  abbrev pub IsOrderedBy : List (Key Row) → List Row → Type 0
  IsOrderedBy ks [] = Unit
  IsOrderedBy ks (x ∷ xs) = All (λ y. precedes ks x y ≡ true) xs × IsOrderedBy ks xs

  -- The first row that passes.
  abbrev pub find : (Row → Bool) → List Row → Option Row
  find p [] = none
  find p (x ∷ xs) = let rest = find p xs in if p x then some x else rest

-- What SQLAlchemy's `scalar_one_or_none` makes of a result: the row, nothing, or, for several
-- rows, the exception `MultipleResultsFound`.
pub data Found (Row : Type 0) : Type 0 where
  nothing several : Found Row
  one : Row → Found Row

abbrev pub found : {Row : Type 0} → List Row → Found Row
found [] = nothing
found (r ∷ []) = one r
found (r ∷ s ∷ rows) = several

-- The statements that the code runs on a table `T` of rows.
pub record Sql (T Row : Type 0) : Type 0 where
  pub primary_key : Row → String
  -- The rows that are in the table.
  pub rows : T → List Row
  -- SELECT COUNT(*) … WHERE p
  pub count : (Row → Bool) → T → ℕ
  -- SELECT … WHERE p ORDER BY ks
  pub select : (Row → Bool) → List (Key Row) → T → List Row
  -- SELECT by primary key
  pub get : String → T → Option Row
  -- SELECT … WHERE p, and `scalar_one_or_none`
  pub one_or_none : (Row → Bool) → T → Found Row
  -- UPDATE … WHERE p
  pub update : (Row → Bool) → (Row → Row) → T → T
  pub insert : Row → T → T
  -- DELETE … WHERE p
  pub delete : (Row → Bool) → T → T

-- What the documentation of SQL says of them.
pub record IsSql {T Row : Type 0} (sql : Sql T Row) : Type 0 where
  pub count_lem : (p : Row → Bool) (t : T) → sql.count p t ≡ count_if p (sql.rows t)
  pub select-same :
      (p : Row → Bool) (ks : List (Key Row)) (t : T)
      → SameRows (sql.select p ks t) (keep p (sql.rows t))
  pub select-ordered :
      (p : Row → Bool) (ks : List (Key Row)) (t : T) → IsOrderedBy ks (sql.select p ks t)
  pub get_lem : (k : String) (t : T) → sql.get k t ≡ find (λ r. sql.primary_key r == k) (sql.rows t)
  pub one_or_none_lem : (p : Row → Bool) (t : T) → sql.one_or_none p t ≡ found (keep p (sql.rows t))
  pub rows-update :
      (p : Row → Bool) (f : Row → Row) (t : T)
      → sql.rows (sql.update p f t) ≡ map (λ r. if p r then f r else r) (sql.rows t)
  pub rows-insert : (r : Row) (t : T) → sql.rows (sql.insert r t) ≡ sql.rows t ++ r ∷ []
  pub rows-delete :
      (p : Row → Bool) (t : T) → sql.rows (sql.delete p t) ≡ keep (λ r. not (p r)) (sql.rows t)

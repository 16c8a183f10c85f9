-- ===== src/Prelude/Assoc.antt =====
-- Python's `dict` with text keys, and its `list` of texts under `in`, `remove`.
use Prim.Native.Nat.{suc, ◌+◌}
use Prim.Native.String.{String}
use mathlib.Core.Path.{◌≡◌, refl, ap}
use mathlib.Core.Bool.{Bool, true, false, ◌||◌}
use mathlib.Core.Option.{Option, none, some}
use mathlib.Core.List.{List, [], ◌∷◌, ◌++◌}
use native.Mathlib.Omega.{arith}
use text.Mathlib.Text.{◌==◌}
use text.Mathlib.TextEquality.{eq_iff}
use oc_piloci.Prelude.Tests.{if◌then◌else◌}
use oc_piloci.Prelude.Lists.{length}

-- `k in keys`
unfoldable pub contains : String → List String → Bool
contains k [] = false
contains k (j ∷ js) = (j == k) || contains k js

-- `keys.remove(k)`: the first occurrence only. Python raises where there is none.
unfoldable pub remove : String → List String → List String
remove k [] = []
remove k (j ∷ js) = if j == k then js else j ∷ remove k js

-- No text occurs twice.
abbrev pub Distinct : List String → Type 0
Distinct [] = Unit
Distinct (k ∷ ks) = (contains k ks ≡ false) × Distinct ks

pub contains-append :
    (k : String) (xs ys : List String) → contains k (xs ++ ys) ≡ (contains k xs || contains k ys)
unfolding contains
contains-append k [] ys = refl
contains-append k (x ∷ xs) ys = ground (arith, contains-append k xs ys)

pub contains-remove :
    (k j : String) (ks : List String)
    → Distinct ks
    → contains j (remove k ks) ≡ (if k == j then false else contains j ks)
unfolding contains remove
contains-remove k j [] d = ground arith
contains-remove k j (i ∷ is) d =
    ground (arith, eq_iff i k, eq_iff i j, eq_iff k j, contains-remove k j is d.1)

pub remove-Distinct : (k : String) (ks : List String) → Distinct ks → Distinct (remove k ks)
unfolding remove
remove-Distinct k [] d = tt
remove-Distinct k (i ∷ is) d =
    ground (arith, contains-remove k i is d.1, remove-Distinct k is d.1, eq_iff k i)

pub append-Distinct :
    (k : String) (ks : List String) → Distinct ks → contains k ks ≡ false → Distinct (ks ++ k ∷ [])
unfolding contains
append-Distinct k [] d h = (refl, tt)
append-Distinct k (i ∷ is) d h =
    ground (arith, append-Distinct k is d.1, contains-append i is (k ∷ []), eq_iff k i, eq_iff i k)

pub length-remove :
    (k : String) (ks : List String) → contains k ks ≡ true → length (remove k ks) + 1 ≡ length ks
unfolding contains remove
length-remove k [] h = ground arith
length-remove k (i ∷ is) h = ground (arith, length-remove k is)

abbrev pub is_some {ℓ} : {A : Type ℓ} → Option A → Bool
is_some none = false
is_some (some a) = true

module _ {ℓ} {V : Type ℓ} where
  -- `d.get(k)`
  unfoldable pub lookup : String → List (String × V) → Option V
  lookup key [] = none
  lookup key (entry ∷ rest) = if entry.0 == key then some entry.1 else lookup key rest

  -- `d[k] = v`: in place, or at the end.
  unfoldable pub insert : String → V → List (String × V) → List (String × V)
  insert key value [] = (key, value) ∷ []
  insert key value (entry ∷ rest) =
      if entry.0 == key then (key, value) ∷ rest else entry ∷ insert key value rest

  -- `del d[k]`, `d.pop(k, None)`
  unfoldable pub erase : String → List (String × V) → List (String × V)
  erase k [] = []
  erase k ((j, w) ∷ m) = let rest = erase k m in if j == k then rest else (j, w) ∷ rest

  pub lookup-insert :
      (key other : String) (value : V) (d : List (String × V))
      → lookup other (insert key value d) ≡ (if key == other then some value else lookup other d)
  unfolding lookup insert
  lookup-insert key other value [] = refl
  lookup-insert key other value (entry ∷ rest) = ground (
    arith,
    eq_iff key other,
    eq_iff entry.0 key,
    eq_iff entry.0 other,
    lookup-insert key other value rest,
  )

  pub lookup-erase :
      (k j : String) (m : List (String × V))
      → lookup j (erase k m) ≡ (if k == j then none else lookup j m)
  unfolding lookup erase
  lookup-erase k j [] = ground arith
  lookup-erase k j ((i, w) ∷ m) =
      ground (arith, eq_iff k j, eq_iff i k, eq_iff i j, lookup-erase k j m)

  pub lookup-append :
      (k : String) (xs ys : List (String × V))
      → lookup k (xs ++ ys) ≡ (elim (lookup k xs) [ none ↦ lookup k ys | some v ↦ some v ])
  unfolding lookup
  lookup-append k [] ys = refl
  lookup-append k ((i, v) ∷ xs) ys = ground (arith, lookup-append k xs ys)

  -- The keys, in the order of the entries.
  abbrev pub keys_of : List (String × V) → List String
  keys_of [] = []
  keys_of ((k, v) ∷ m) = k ∷ keys_of m

  pub keys_of-append : (xs ys : List (String × V)) → keys_of (xs ++ ys) ≡ keys_of xs ++ keys_of ys
  keys_of-append [] ys = refl
  keys_of-append ((k, v) ∷ xs) ys = ap (◌∷◌ k) (keys_of-append xs ys)

  pub contains-keys_of :
      (k : String) (m : List (String × V)) → contains k (keys_of m) ≡ is_some (lookup k m)
  unfolding contains lookup
  contains-keys_of k [] = refl
  contains-keys_of k ((i, v) ∷ m) = ground (arith, contains-keys_of k m)

  erase_absent :
      (k : String) (m : List (String × V)) → contains k (keys_of m) ≡ false → erase k m ≡ m
  unfolding contains erase
  erase_absent k [] h = refl
  erase_absent k ((i, v) ∷ m) h = ground (arith, erase_absent k m)

  pub keys_of-erase :
      (k : String) (m : List (String × V))
      → Distinct (keys_of m)
      → keys_of (erase k m) ≡ remove k (keys_of m)
  unfolding erase remove
  keys_of-erase k [] d = refl
  keys_of-erase k ((i, v) ∷ m) d =
      ground (arith, keys_of-erase k m d.1, erase_absent k m, eq_iff i k)

  pub keys_of-insert :
      (k : String) (v : V) (m : List (String × V))
      → keys_of (insert k v m) ≡ (if contains k (keys_of m) then keys_of m else keys_of m ++ k ∷ [])
  unfolding insert contains
  keys_of-insert k v [] = refl
  keys_of-insert k v ((i, w) ∷ m) = ground (arith, keys_of-insert k v m, eq_iff i k)

  pub length-keys_of : (m : List (String × V)) → length (keys_of m) ≡ length m
  length-keys_of [] = refl
  length-keys_of ((k, v) ∷ m) = ap suc (length-keys_of m)

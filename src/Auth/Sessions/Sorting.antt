-- ===== src/Auth/Sessions/Sorting.antt =====
-- The order in which ids are looked at, and sessions evicted.
use oc_piloci.Prelude.{
  ◌≡◌, refl, ◌∙◌, List, [], ◌∷◌, map, Bool, ◌||◌, String, ◌==◌, contains, arith,
}
use oc_piloci.Auth.Sessions.{insert_sorted, sorted}

contains-insert_sorted :
    {A : Type 0} (le : A → A → Bool) (key : A → String) (y : String) (x : A) (xs : List A)
    → contains y (map key (insert_sorted le x xs)) ≡ (key x == y) || contains y (map key xs)
unfolding insert_sorted contains
contains-insert_sorted {A} le key y x [] = refl
contains-insert_sorted {A} le key y x (z ∷ zs) =
    ground (arith, contains-insert_sorted le key y x zs)

pub contains-sorted :
    {A : Type 0} (le : A → A → Bool) (key : A → String) (y : String) (xs : List A)
    → contains y (map key (sorted le xs)) ≡ contains y (map key xs)
unfolding sorted contains
contains-sorted {A} le key y [] = refl
contains-sorted {A} le key y (x ∷ xs) =
    contains-insert_sorted le key y x (sorted le xs) ∙ ground (arith, contains-sorted le key y xs)

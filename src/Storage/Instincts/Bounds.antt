-- ===== src/Storage/Instincts/Bounds.antt =====
-- The bounds of an instinct, and what they mean for its promotion.
use oc_piloci.Prelude.{
  ℕ, ◌+◌, ◌*◌, ◌≤◌, ◌≡◌, List, [], ◌∷◌, ◌++◌, map, Bool, true, not, ◌&&◌, String, ◌==◌,
  if◌then◌else◌, length, length-append, keep, contains, All, Floats, arith, Bool-cases, inl, inr,
}
use oc_piloci.Storage.Lance.{Lance, IsLance}
use oc_piloci.Storage.Instincts.Confidence.{
  confidence_init, confidence_boost, confidence_max, confidence_min, float32-IsNear, float64-IsNear,
}
use oc_piloci.Storage.Instincts.{Instinct, as_stored, boosted, fresh, observe_nearest, set_observed}

-- A confidence between 0.1 and 0.9 that the observations account for, up to the rounding of a float32
-- (2^-22, which is 17179869184 units), and at most ten notes.
pub record IsSound {V : Type 0} (r : Instinct V) : Type 0 where
  pub least : confidence_min ≤ r.confidence + 17179869184
  pub most : r.confidence ≤ confidence_max + 17179869184
  pub seen : 1 ≤ r.instinct_count
  pub earned : r.confidence ≤ 14411518807585588 + 7205776583661978 * r.instinct_count
  pub noted : length r.evidence ≤ 10

module _ {V : Type 0} where
  boosted-IsSound :
      (note : String) (now : ℕ) (r : Instinct V)
      → IsSound r
      → IsSound (as_stored (boosted note now r))
  boosted-IsSound note now r h =
      let near = float32-IsNear (boosted note now r).confidence in
      let sum = float64-IsNear (r.confidence + confidence_boost) in
      record {
        least = omega (arith, h.least, near.1, sum.1);
        most = omega (arith, near.0);
        seen = omega arith;
        earned = omega (arith, h.earned, near.0, sum.0);
        noted = ground (arith, h.noted, length-append {0} r.evidence (note ∷ []));
      }

module _ {T V : Type 0} (lance : Lance T (Instinct V)) (laws : IsLance lance) where
  abbrev pub AllSound : T → Type 0
  AllSound t = All (λ (r : Instinct V). IsSound r) (lance.rows t)

  pub fresh-IsSound :
      (id u p trigger action domain note : String) (v : V) (now : ℕ)
      → IsSound (as_stored (fresh lance id u p trigger action domain note v now))
  fresh-IsSound id u p trigger action domain note v now =
      let near = float32-IsNear confidence_init in
      record {
        least = omega (arith, near.1);
        most = omega (arith, near.0);
        seen = omega arith;
        earned = omega (arith, near.0);
        noted = ground arith;
      }

  All-map-if :
      (P : Instinct V → Type 0) (p : Instinct V → Bool) (f : Instinct V → Instinct V)
      (xs : List (Instinct V))
      → ((r : Instinct V) → P r → P (f r))
      → All P xs
      → All P (map (λ r. if p r then f r else r) xs)
  All-map-if P p f [] h a = tt
  All-map-if P p f (x ∷ xs) h a = elim (Bool-cases (p x)) [
    | inl e ↦ rw e (h x a.0, All-map-if P p f xs h a.1)
    | inr e ↦ rw e (a.0, All-map-if P p f xs h a.1)
  ]

  All-keep :
      (P : Instinct V → Type 0) (p : Instinct V → Bool) (xs : List (Instinct V))
      → All P xs
      → All P (keep p xs)
  All-keep P p [] a = tt
  All-keep P p (x ∷ xs) a = elim (Bool-cases (p x)) [
    | inl e ↦ rw e (a.0, All-keep P p xs a.1)
    | inr e ↦ rw e (All-keep P p xs a.1)
  ]

  All-snoc :
      (P : Instinct V → Type 0) (xs : List (Instinct V)) (y : Instinct V)
      → All P xs
      → P y
      → All P (xs ++ y ∷ [])
  All-snoc P [] y a h = (h, tt)
  All-snoc P (x ∷ xs) y a h = (a.0, All-snoc P xs y a.1 h)

  pub update-AllSound :
      (p : Instinct V → Bool) (f : Instinct V → Instinct V) (t : T)
      → ((r : Instinct V) → IsSound r → IsSound (f r))
      → AllSound t
      → AllSound (lance.update p f t).0
  update-AllSound p f t h a =
      rw (laws.rows-update p f t) (All-map-if (λ r. IsSound r) p f (lance.rows t) h a)

  All-map-found :
      (P : Instinct V → Type 0) (p : Instinct V → Bool) (f : Instinct V → Instinct V)
      (xs : List (Instinct V))
      → All (λ r. p r ≡ true → P (f r)) xs
      → All P xs
      → All P (map (λ r. if p r then f r else r) xs)
  All-map-found P p f [] h a = tt
  All-map-found P p f (x ∷ xs) h a = elim (Bool-cases (p x)) [
    | inl e ↦ rw e (h.0 e, All-map-found P p f xs h.1 a.1)
    | inr e ↦ rw e (a.0, All-map-found P p f xs h.1 a.1)
  ]

  -- An update of which only the rows that it finds are known.
  pub found-AllSound :
      (p : Instinct V → Bool) (f : Instinct V → Instinct V) (t : T)
      → All (λ r. p r ≡ true → IsSound (f r)) (lance.rows t)
      → AllSound t
      → AllSound (lance.update p f t).0
  found-AllSound p f t h a =
      rw (laws.rows-update p f t) (All-map-found (λ r. IsSound r) p f (lance.rows t) h a)

  pub delete-AllSound : (p : Instinct V → Bool) (t : T) → AllSound t → AllSound (lance.delete p t).0
  delete-AllSound p t a =
      rw (laws.rows-delete p t) (All-keep (λ r. IsSound r) (λ r. not (p r)) (lance.rows t) a)

  merge-AllSound :
      (r : Instinct V) (t : T) → IsSound r → AllSound t → AllSound (lance.merge_insert (r ∷ []) t)
  merge-AllSound r t h a = rw (laws.rows-merge_insert (r ∷ []) t) (
      All-snoc (λ r. IsSound r)
        (keep (λ x. not (contains (lance.key x) (lance.key r ∷ []))) (lance.rows t)) r
        (All-keep (λ r. IsSound r) (λ x. not (contains (lance.key x) (lance.key r ∷ [])))
          (lance.rows t) a)
        h)

  pub observe_nearest-AllSound :
      {F : Type 0} (fl : Floats F) (where_ : Instinct V → Bool) (new : Instinct V) (note : String)
      (now : ℕ) (found : List (Instinct V × F)) (t : T)
      → IsSound (as_stored new)
      → All (λ (x : Instinct V × F). IsSound x.0) found
      → AllSound t
      → AllSound (observe_nearest lance fl where_ new note now found t).0
  observe_nearest-AllSound fl where_ new note now [] t h f a = merge-AllSound (as_stored new) t h a
  observe_nearest-AllSound fl where_ new note now ((r, d) ∷ more) t h f a =
      elim (Bool-cases (fl.ge (fl.minus (fl.milli 1000) d) (fl.milli 850))) [
        | inl e ↦ rw e (
            update-AllSound (λ x. where_ x && (x.instinct_id == r.instinct_id))
              (set_observed lance (boosted note now r)) t (λ x _. observed x) a)
        | inr e ↦ rw e (merge-AllSound (as_stored new) t h a)
      ]
    where
      observed : (x : Instinct V) → IsSound (set_observed lance (boosted note now r) x)
      observed x =
          let s = boosted-IsSound note now r f.0 in
          record {
            least = s.least;
            most = s.most;
            seen = s.seen;
            earned = s.earned;
            noted = s.noted;
          }

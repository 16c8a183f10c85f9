-- ===== src/Storage/Instincts/Promotion.antt =====
-- Sequences of calls of the instinct store, and who is recommended after them.
use oc_piloci.Prelude.{
  ℕ, ◌-◌, ◌≤◌, ◌≡◌, refl, List, [], ◌∷◌, Bool, true, ◌&&◌, String, ◌==◌, All, Floats, arith,
  Bool-cases, inl, inr, subst, sym, contains,
}
use oc_piloci.Db.{count_if}
use oc_piloci.Db.Counts.{HasKeys, count_if-and-le}
use oc_piloci.Storage.Lance.Keys.{sole, update-HasKeys, delete-HasKeys, merge-HasKeys}
use oc_piloci.Storage.Lance.{Lance, Engine, IsLance, IsEngine}
use oc_piloci.Storage.Memories.Records.{safe_id, is_safe_id, codes}
use oc_piloci.Storage.Memories.Isolation.{state_of}
use oc_piloci.Storage.Instincts.Confidence.{
  confidence_decay, float32, float32-IsNear, float64-IsNear,
}
use oc_piloci.Storage.Instincts.{
  Instinct, as_stored, boosted, set_observed, observe_nearest, decayed, fresh, belongs,
  project_filter, instinct_filter, observe, contradict_found, contradict, delete_instinct,
  clear_project,
}
use oc_piloci.Storage.Instincts.Bounds.{
  IsSound, found-AllSound, AllSound, fresh-IsSound, delete-AllSound, observe_nearest-AllSound,
}

-- The calls that write.
pub data Call (V : Type 0) : Type 0 where
  observes : String → String → String → String → String → String → V → String → Call V
  contradicts : String → String → String → Call V
  deletes : String → String → String → Call V
  clears : String → String → Call V

module _ {T V F : Type 0} (lance : Lance T (Instinct V)) (engine : Engine T (Instinct V) V F)
    (fl : Floats F) where
  unfoldable pub serve : Call V → ℕ → T → T
  serve (observes u p trigger action domain note v new_id) now t =
      state_of t (observe lance engine fl u p trigger action domain note v new_id now t)
  serve (contradicts u p id) now t = state_of t (contradict lance u p id now t)
  serve (deletes u p id) now t = state_of t (delete_instinct lance u p id t)
  serve (clears u p) now t = state_of t (clear_project lance u p t)

  unfoldable pub run : List (Call V × ℕ) → T → T
  unfolding serve
  run [] t = t
  run ((c, now) ∷ calls) t = run calls (serve c now t)

  module _ (laws : IsLance lance) (finds : IsEngine lance engine) where
    abbrev lower : Instinct V → ℕ → Instinct V → Instinct V
    lower r now x = record x { confidence = float32 (decayed now r).confidence; updated_at = now }

    lowered : (now : ℕ) (r : Instinct V) → IsSound r → IsSound (lower r now r)
    lowered now r h =
        let near = float32-IsNear (decayed now r).confidence in
        let less = float64-IsNear (r.confidence - confidence_decay) in
        record {
          least = omega (arith, near.1);
          most = omega (arith, h.most, near.0, less.0);
          seen = h.seen;
          earned = omega (arith, h.earned, h.seen, near.0, less.0);
          noted = h.noted;
        }

    -- The row that a query found stands for all that pass its test.
    abbrev Sole : (Instinct V → Bool) → T → Instinct V → Type 0
    Sole where_ t r = IsSound r × All (λ x. where_ x ≡ true → x ≡ r) (lance.rows t)

    lowered-All :
        (where_ : Instinct V → Bool) (now : ℕ) (r : Instinct V) (xs : List (Instinct V))
        → IsSound r
        → All (λ x. where_ x ≡ true → x ≡ r) xs
        → All (λ x. where_ x ≡ true → IsSound (lower r now x)) xs
    lowered-All where_ now r [] h a = tt
    lowered-All where_ now r (x ∷ xs) h a = (
      λ e. subst (λ y. IsSound (lower r now y)) (sym (a.0 e)) (lowered now r h),
      lowered-All where_ now r xs h a.1,
    )

    contradicted-AllSound :
        (where_ : Instinct V → Bool) (now : ℕ) (found : List (Instinct V)) (t : T)
        → All (Sole where_ t) found
        → AllSound lance laws t
        → AllSound lance laws (contradict_found lance where_ now found t).0
    contradicted-AllSound where_ now [] t f a = a
    contradicted-AllSound where_ now (r ∷ rest) t f a =
        found-AllSound lance laws where_ (lower r now) t
          (lowered-All where_ now r (lance.rows t) f.0.0 f.0.1) a

    both :
        (where_ : Instinct V → Bool) (xs : List (Instinct V)) (P Q : Instinct V → Type 0)
        → All P xs
        → All (λ r. where_ r ≡ true → Q r) xs
        → All (λ r. where_ r ≡ true → P r × Q r) xs
    both where_ [] P Q a b = tt
    both where_ (x ∷ xs) P Q a b = (λ e. (a.0, b.0 e), both where_ xs P Q a.1 b.1)

    abbrev by_id : Instinct V → String
    by_id r = r.instinct_id

    contradicts-AllSound :
        (u p id : String) (now : ℕ) (t : T)
        → HasKeys by_id (lance.rows t)
        → AllSound lance laws t
        → AllSound lance laws (serve (contradicts u p id) now t)
    unfolding serve contradict instinct_filter project_filter safe_id
    contradicts-AllSound u p id now t keys a =
        let where_ : Instinct V → Bool = λ r. belongs u p r && (r.instinct_id == id) in
        let one : count_if where_ (lance.rows t) ≤ 1 = omega (
          arith,
          count_if-and-le (belongs u p) (λ r. r.instinct_id == id) (lance.rows t),
          keys id,
        ) in
        let done =
          contradicted-AllSound where_ now (lance.query where_ 1 0 t) t
            (laws.query-All (Sole where_ t) where_ 1 0 t (
              both where_ (lance.rows t) (λ r. IsSound r)
                (λ r. All (λ x. where_ x ≡ true → x ≡ r) (lance.rows t)) a
                (sole where_ (lance.rows t) one)))
            a in
        elim (Bool-cases (is_safe_id (codes u))) [
          | inl e ↦ rw e (elim (Bool-cases (is_safe_id (codes p))) [
            | inl f ↦
                rw f
                  (elim (Bool-cases (is_safe_id (codes id))) [ inl g ↦ rw g done | inr g ↦ rw g a ])
            | inr f ↦ rw f a
          ])
          | inr e ↦ rw e a
        ]

    -- The rows are sound, and no two have one id.
    abbrev pub IsValid : T → Type 0
    IsValid t = AllSound lance laws t × HasKeys by_id (lance.rows t)

    module _ (keyed : (r : Instinct V) → lance.key r ≡ r.instinct_id) where
      merge-valid :
          (r : Instinct V) (t : T)
          → HasKeys by_id (lance.rows t)
          → HasKeys by_id (lance.rows (lance.merge_insert (r ∷ []) t))
      unfolding contains
      merge-valid r t keys = merge-HasKeys lance laws by_id keyed (r ∷ []) t (refl, tt) keys

      nearest-keys :
          (where_ : Instinct V → Bool) (new : Instinct V) (note : String) (now : ℕ)
          (found : List (Instinct V × F)) (t : T)
          → HasKeys by_id (lance.rows t)
          → HasKeys by_id (lance.rows (observe_nearest lance fl where_ new note now found t).0)
      nearest-keys where_ new note now [] t keys = merge-valid (as_stored new) t keys
      nearest-keys where_ new note now ((r, d) ∷ more) t keys =
          elim (Bool-cases (fl.ge (fl.minus (fl.milli 1000) d) (fl.milli 850))) [
            | inl e ↦ rw e (
                update-HasKeys lance laws by_id (λ x. where_ x && (x.instinct_id == r.instinct_id))
                  (set_observed lance (boosted note now r)) t (λ x. refl) keys)
            | inr e ↦ rw e (merge-valid (as_stored new) t keys)
          ]

      contradicted-keys :
          (where_ : Instinct V → Bool) (now : ℕ) (found : List (Instinct V)) (t : T)
          → HasKeys by_id (lance.rows t)
          → HasKeys by_id (lance.rows (contradict_found lance where_ now found t).0)
      contradicted-keys where_ now [] t keys = keys
      contradicted-keys where_ now (r ∷ rest) t keys =
          update-HasKeys lance laws by_id where_ (lower r now) t (λ x. refl) keys

      any-All :
          (p : Instinct V → Bool) (xs : List (Instinct V))
          → All (λ (r : Instinct V). IsSound r) xs
          → All (λ r. p r ≡ true → IsSound r) xs
      any-All p [] a = tt
      any-All p (x ∷ xs) a = (λ _. a.0, any-All p xs a.1)

      observes-IsValid :
          (u p trigger action domain note : String) (v : V) (new_id : String) (now : ℕ) (t : T)
          → IsValid t
          → IsValid (serve (observes u p trigger action domain note v new_id) now t)
      unfolding serve observe project_filter safe_id
      observes-IsValid u p trigger action domain note v new_id now t h =
          let new : Instinct V = fresh lance new_id u p trigger action domain note v now in
          let found : List (Instinct V × F) = engine.vector_search v (belongs u p) 1 t in
          let done : IsValid (observe_nearest lance fl (belongs u p) new note now found t).0 = (
            observe_nearest-AllSound lance laws fl (belongs u p) new note now found t
                (fresh-IsSound lance laws new_id u p trigger action domain note v now)
                (finds.vector_search-All (λ r. IsSound r) v (belongs u p) 1 t
                  (any-All (belongs u p) (lance.rows t) h.0))
                h.0,
            nearest-keys (belongs u p) new note now found t h.1,
          ) in
          elim (Bool-cases (is_safe_id (codes u))) [
            | inl e ↦
                rw e
                  (elim (Bool-cases (is_safe_id (codes p))) [ inl f ↦ rw f done | inr f ↦ rw f h ])
            | inr e ↦ rw e h
          ]

      serve-IsValid : (c : Call V) (now : ℕ) (t : T) → IsValid t → IsValid (serve c now t)
      unfolding serve contradict instinct_filter project_filter safe_id delete_instinct
          clear_project
      serve-IsValid (observes u p trigger action domain note v new_id) now t h =
          observes-IsValid u p trigger action domain note v new_id now t h
      serve-IsValid (contradicts u p id) now t h =
          let where_ : Instinct V → Bool = λ r. belongs u p r && (r.instinct_id == id) in
          (
            contradicts-AllSound u p id now t h.1 h.0,
            λ k.
                ground
                  (arith, h.1 k, contradicted-keys where_ now (lance.query where_ 1 0 t) t h.1 k),
          )
      serve-IsValid (deletes u p id) now t h =
          let where_ : Instinct V → Bool = λ r. belongs u p r && (r.instinct_id == id) in
          let done : IsValid (lance.delete where_ t).0 = (
            delete-AllSound lance laws where_ t h.0,
            delete-HasKeys lance laws by_id where_ t h.1,
          ) in
          elim (Bool-cases (is_safe_id (codes u))) [
            | inl e ↦ rw e (elim (Bool-cases (is_safe_id (codes p))) [
              | inl f ↦
                  rw f (elim (Bool-cases (is_safe_id (codes id))) [
                    | inl g ↦ rw g done
                    | inr g ↦ rw g h
                  ])
              | inr f ↦ rw f h
            ])
            | inr e ↦ rw e h
          ]
      serve-IsValid (clears u p) now t h =
          let done : IsValid (lance.delete (belongs u p) t).0 = (
            delete-AllSound lance laws (belongs u p) t h.0,
            delete-HasKeys lance laws by_id (belongs u p) t h.1,
          ) in
          elim (Bool-cases (is_safe_id (codes u))) [
            | inl e ↦
                rw e
                  (elim (Bool-cases (is_safe_id (codes p))) [ inl f ↦ rw f done | inr f ↦ rw f h ])
            | inr e ↦ rw e h
          ]

      -- Over any sequence of calls, with any ids and at any times, every instinct keeps a confidence from
      -- 0.1 to 0.9 that is at most 0.2 and 0.1 for each observation, up to a rounding of 2^-22 once and
      -- for each observation, and at most ten notes; no two instincts get one id.
      pub run-IsValid : (calls : List (Call V × ℕ)) (t : T) → IsValid t → IsValid (run calls t)
      unfolding run
      run-IsValid [] t h = h
      run-IsValid ((c, now) ∷ calls) t h =
          run-IsValid calls (serve c now t) (serve-IsValid c now t h)

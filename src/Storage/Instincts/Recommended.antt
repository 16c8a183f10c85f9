-- ===== src/Storage/Instincts/Recommended.antt =====
-- Who is recommended.
use oc_piloci.Prelude.{
  ℕ, ◌*◌, ◌≤◌, ◌≡◌, refl, ltb, none, List, [], ◌∷◌, map, Bool, true, ◌&&◌, String, keep, take, All,
  ok, arith, Bool-cases, inl, inr,
}
use oc_piloci.Storage.Lance.{Lance, IsLance}
use oc_piloci.Storage.Memories.Records.{safe_id, is_safe_id, codes}
use oc_piloci.Storage.Instincts.Confidence.{promote_confidence}
use oc_piloci.Storage.Instincts.{
  Instinct, belongs, project_filter, place, sort, weight, is_listed, list_instincts, is_promoted,
  with_skills, get_recommendations,
}
use oc_piloci.Storage.Instincts.Bounds.{IsSound, AllSound}

module _ {T V : Type 0} (lance : Lance T (Instinct V)) (laws : IsLance lance) where
  abbrev Confident : Instinct V → Type 0
  Confident r = (promote_confidence ≤ r.confidence) × (4 ≤ r.instinct_count)

  All-place :
      (r : Instinct V) (xs : List (Instinct V))
      → Confident r
      → All Confident xs
      → All Confident (place lance r xs)
  unfolding place
  All-place r [] h a = (h, tt)
  All-place r (x ∷ xs) h a = elim (Bool-cases (ltb (weight lance r) (weight lance x))) [
    | inl e ↦ rw e (a.0, All-place r xs h a.1)
    | inr e ↦ rw e (h, a)
  ]

  All-sort : (xs : List (Instinct V)) → All Confident xs → All Confident (sort lance xs)
  unfolding sort
  All-sort [] a = tt
  All-sort (x ∷ xs) a = All-place x (sort lance xs) a.0 (All-sort xs a.1)

  keep-promoted : (xs : List (Instinct V)) → All Confident xs → keep (is_promoted lance) xs ≡ xs
  keep-promoted [] a = refl
  keep-promoted (x ∷ xs) a = ground (arith, a.0.0, a.0.1, keep-promoted xs a.1)

  listed-Confident :
      (u p : String) (xs : List (Instinct V))
      → All (λ (r : Instinct V). IsSound r) xs
      → All
          (λ r. (belongs u p r && is_listed lance none promote_confidence r) ≡ true → Confident r)
          xs
  listed-Confident u p [] a = tt
  listed-Confident u p (x ∷ xs) a = (λ e. confident x a.0 e, listed-Confident u p xs a.1)
    where
      confident :
          (r : Instinct V)
          → IsSound r
          → (belongs u p r && is_listed lance none promote_confidence r) ≡ true
          → Confident r
      confident r h e =
          let c : promote_confidence ≤ r.confidence = ground arith in
          (c, omega (arith, h.earned, c))

  -- Where the rows are sound, the recommendations are the first of the listed instincts with a confidence
  -- of 0.6: each was seen four times or more, so that the further test for three drops none.
  pub get_recommendations-list :
      (user_id project_id : String) (limit : ℕ) (t : T)
      → AllSound lance laws t
      → is_safe_id (codes user_id) ≡ true
      → is_safe_id (codes project_id) ≡ true
      → (listed : List (Instinct V)) × (list_instincts lance user_id project_id none
            promote_confidence
            (limit * 3)
            t
          ≡ ok listed)
        × (get_recommendations lance user_id project_id limit t
            ≡ ok (map (with_skills lance) (take limit listed)))
        × All (λ (r : Instinct V). 4 ≤ r.instinct_count) listed
  unfolding list_instincts get_recommendations project_filter safe_id
  get_recommendations-list user_id project_id limit t sound safe_user safe_project =
      let where_ : Instinct V → Bool =
        λ r. belongs user_id project_id r && is_listed lance none promote_confidence r in
      let found : List (Instinct V) = lance.query where_ (limit * 3) 0 t in
      let confident : All Confident (sort lance found) = All-sort found (
        laws.query-All Confident where_ (limit * 3) 0 t
          (listed-Confident user_id project_id (lance.rows t) sound)) in
      (
        sort lance found,
        rw (safe_user, safe_project) refl,
        rw (safe_user, safe_project, keep-promoted (sort lance found) confident) refl,
        counts (sort lance found) confident,
      )
    where
      counts :
          (xs : List (Instinct V))
          → All Confident xs
          → All (λ (r : Instinct V). 4 ≤ r.instinct_count) xs
      counts [] a = tt
      counts (x ∷ xs) a = (a.0.1, counts xs a.1)

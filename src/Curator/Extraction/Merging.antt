-- ===== src/Curator/Extraction/Merging.antt =====
-- What is left of the extractions of several chunks.
use oc_piloci.Prelude.{
  ℕ, ◌≡◌, ◌↔◌, refl, sym, ◌∙◌, ap, ap₂, none, List, [], ◌∷◌, Bool, true, false, not, ◌&&◌,
  if◌then◌else◌, any, is_nil, arith, Bool-cases, inl, inr,
}
use oc_piloci.Db.{count_if, find}
use oc_piloci.Curator.Extraction.{
  DistilledMemory, DistilledInstinct, DistilledSession, memory_key, instinct_key, same, same_pair,
  fresh, all_of, merge_distilled,
}

same→≡ : (a b : List ℕ) → same a b ≡ true → a ≡ b
same→≡ [] [] h = refl
same→≡ [] (b ∷ ys) h = absurd (cc h)
same→≡ (a ∷ xs) [] h = absurd (cc h)
same→≡ (a ∷ xs) (b ∷ ys) h = ap₂ ◌∷◌ (ground arith) (same→≡ xs ys (ground arith))

same_refl : (a : List ℕ) → same a a ≡ true
same_refl [] = refl
same_refl (a ∷ xs) = ground (arith, same_refl xs)

-- A test of equality.
abbrev IsEquality : {K : Type 0} → (K → K → Bool) → Type 0
IsEquality {K} eq = (a b : K) → (eq a b ≡ true) ↔ (a ≡ b)

same-IsEquality : IsEquality same
same-IsEquality a b = (same→≡ a b, λ e. ap (same a) (sym e) ∙ same_refl a)

same_pair-IsEquality : IsEquality same_pair
same_pair-IsEquality a b = (
  λ h. ap₂ (λ x y. (x, y)) (same→≡ a.0 b.0 (ground arith)) (same→≡ a.1 b.1 (ground arith)),
  λ e. ap (same_pair a) (sym e) ∙ ground (arith, same_refl a.0, same_refl a.1),
)

module _ {A K : Type 0} (eq : K → K → Bool) (key : A → K) (usable : K → Bool) (law : IsEquality eq)
    (k : K) where
  -- Of the items with one usable key that was not seen the first stays, and no other.
  count-fresh :
      (seen : List K) (xs : List A)
      → count_if (λ x. eq (key x) k) (fresh eq key usable seen xs) ≡ (
          if usable k && (not (any (λ j. eq j k) seen) && any (λ x. eq (key x) k) xs) then 1 else 0)
  unfolding fresh
  count-fresh seen [] = ground arith
  count-fresh seen (x ∷ xs) = elim (Bool-cases (eq (key x) k)) [
    | inl e ↦
        let q : key x ≡ k = (law (key x) k).0 e in
        let u : usable (key x) ≡ usable k = ap usable q in
        let v : any (λ j. eq j (key x)) seen ≡ any (λ j. eq j k) seen =
          ap (λ y. any (λ j. eq j y) seen) q in
        ground (arith, u, v, count-fresh seen xs, count-fresh (key x ∷ seen) xs)
    | inr e ↦ ground (arith, count-fresh seen xs, count-fresh (key x ∷ seen) xs)
  ]

  find-fresh :
      (seen : List K) (xs : List A)
      → find (λ x. eq (key x) k) (fresh eq key usable seen xs)
        ≡ (if usable k && not (any (λ j. eq j k) seen) then find (λ x. eq (key x) k) xs else none)
  unfolding fresh
  find-fresh seen [] = ground arith
  find-fresh seen (x ∷ xs) = elim (Bool-cases (eq (key x) k)) [
    | inl e ↦
        let q : key x ≡ k = (law (key x) k).0 e in
        let u : usable (key x) ≡ usable k = ap usable q in
        let v : any (λ j. eq j (key x)) seen ≡ any (λ j. eq j k) seen =
          ap (λ y. any (λ j. eq j y) seen) q in
        ground (arith, u, v, find-fresh seen xs, find-fresh (key x ∷ seen) xs)
    | inr e ↦ ground (arith, find-fresh seen xs, find-fresh (key x ∷ seen) xs)
  ]

-- For every key that is not empty the first memory of all chunks that has it stays, and it is the
-- only one left with this key; so it is with the pairs of keys of instincts.
pub merge_distilled_lem :
    (lower : List ℕ → List ℕ) (parts : List DistilledSession) (k t a : List ℕ)
    → is_nil k ≡ false
    → is_nil t ≡ false
    → is_nil a ≡ false
    → let of_memory : DistilledMemory → Bool = λ m. same (memory_key lower m) k in
      let of_instinct : DistilledInstinct → Bool = λ i. same_pair (instinct_key lower i) (t, a) in
      let all_memories = all_of (λ p. p.memories) parts in
      let all_instincts = all_of (λ p. p.instincts) parts in
      (find of_memory (merge_distilled lower parts).memories ≡ find of_memory all_memories)
      × ((count_if of_memory (merge_distilled lower parts).memories
            ≡ (if any of_memory all_memories then 1 else 0))
          × ((find of_instinct (merge_distilled lower parts).instincts
                ≡ find of_instinct all_instincts)
              × (count_if of_instinct (merge_distilled lower parts).instincts
                  ≡ (if any of_instinct all_instincts then 1 else 0))))
unfolding merge_distilled
merge_distilled_lem lower parts k t a h n m = (
  find-fresh same (memory_key lower) (λ x. not (is_nil x)) same-IsEquality k []
        (all_of (λ p. p.memories) parts)
      ∙ rw h refl,
  (
    count-fresh same (memory_key lower) (λ x. not (is_nil x)) same-IsEquality k []
          (all_of (λ p. p.memories) parts)
        ∙ rw h refl,
    (
      find-fresh same_pair (instinct_key lower) (λ x. not (is_nil x.0) && not (is_nil x.1))
            same_pair-IsEquality (t, a) [] (all_of (λ p. p.instincts) parts)
          ∙ rw (n, m) refl,
      count-fresh same_pair (instinct_key lower) (λ x. not (is_nil x.0) && not (is_nil x.1))
            same_pair-IsEquality (t, a) [] (all_of (λ p. p.instincts) parts)
          ∙ rw (n, m) refl,
    ),
  ),
)

-- ===== src/Curator/Extraction/Examples.antt =====
-- Cuts of short texts, and a merge of two extractions that share a memory.
use native.Mathlib.Nat.{
  le_of_mul-le-mul_left, lt_of_mul-lt-mul_left, mul-le-mul_right, div-add-mod, zero-div, zero-mod,
}
use oc_piloci.Prelude.{
  zero, suc, ◌+◌, ◌%◌, ◌<◌, sym, subst, ltb, ℕ, ◌-◌, ◌*◌, ◌/◌, ◌≤◌, ◌≡◌, refl, max, List, [], ◌∷◌,
  ◌++◌, Bool, true, if◌then◌else◌, length, take, any, arith,
}
use oc_piloci.Db.{count_if, find}
use oc_piloci.Curator.Extraction.{
  DistilledMemory, DistilledInstinct, DistilledSession, on_device, external, split_into_chunks,
  split_full_coverage, memory_key, instinct_key, same, same_pair, all_of, merge_distilled, plan,
  fallback, full_coverage_max_chunks, Division, IsDivision,
}
use oc_piloci.Curator.Extraction.Windows.{
  rebuild, rebuild-split_full_coverage, AllWithin, plan-bounds,
}
use oc_piloci.Curator.Extraction.Sampling.{split_into_chunks-opening}
use oc_piloci.Curator.Extraction.Merging.{merge_distilled_lem}

abbrev letters : ℕ → List ℕ
letters n = 97 ∷ 98 ∷ 99 ∷ 100 ∷ 101 ∷ 102 ∷ 103 ∷ 104 ∷ 105 ∷ 106 ∷ n ∷ []

abbrev text : List ℕ
text = letters 107 ++ letters 108

abbrev rounded : ℕ → ℕ → ℕ → ℕ
rounded q r b = if ltb (2 * r) b then q else (if ltb b (2 * r) then q + 1 else q + q % 2)

abbrev nearest : ℕ → ℕ → ℕ
nearest a b = rounded (a / b) (a % b) b

rounded_le : (q r b last : ℕ) → 1 ≤ b → b * q + r ≤ b * last → rounded q r b ≤ last
rounded_le q zero b last one h =
    let scaled : b * q ≤ b * last = omega (arith, h) in
    let positive : 0 < b = omega (arith, one) in
    let most : q ≤ last = le_of_mul-le-mul_left scaled positive in ground (arith, most, one)
rounded_le q (suc r) b last one h =
    let scaled : b * q < b * last = omega (arith, h) in
    let most : q < last = lt_of_mul-lt-mul_left b scaled in ground (arith, most)

-- Fractions for floats, rounded to the nearest number and, in the middle, to the even one.
abbrev fractions : Division (ℕ × ℕ)
fractions = record {
  over = λ a b. (a, b);
  times = λ i x. (i * x.0, x.1);
  round = λ x. nearest x.0 x.1;
}

rebuild-split_full_coverage_example :
    rebuild (max 1 (10 - 3)) (split_full_coverage text 10 3) ≡ text
rebuild-split_full_coverage_example = rebuild-split_full_coverage text 10 3 (omega arith)

rounded_zero : (b : ℕ) → rounded 0 0 b ≡ 0
rounded_zero b = ground arith

fractions-IsDivision : IsDivision fractions
fractions-IsDivision = record {
  times_zero = λ x.
      let none_taken : 0 * x.0 ≡ 0 = omega arith in
      subst (λ a. nearest a x.1 ≡ 0) (sym none_taken)
        (rw (zero-div x.1, zero-mod x.1) (rounded_zero x.1));
  times_part = λ last m i one h.
      rounded_le (i * last / m) (i * last % m) m last one
        (subst (λ a. a ≤ m * last) (sym (div-add-mod (i * last) m)) (mul-le-mul_right last h));
}

plan-bounds_example :
    (length (plan fractions (fallback 0 ∷ []) true 10 4 2 text).0 ≤ max full_coverage_max_chunks 4)
    × AllWithin
        (plan fractions (fallback 0 ∷ []) true 10 4 2 text).1.0
        (plan fractions (fallback 0 ∷ []) true 10 4 2 text).0
plan-bounds_example = plan-bounds fractions (fallback 0 ∷ []) true 10 4 2 text

split_into_chunks-opening_example : split_into_chunks fractions text 4 16 2 ≡ take 16 text ∷ []
split_into_chunks-opening_example =
    split_into_chunks-opening fractions fractions-IsDivision text 4 16 2 (omega arith) (omega arith)
      (omega arith)

abbrev lower : List ℕ → List ℕ
lower s = s

abbrev note : List ℕ → DistilledMemory
note s = record { content = s; title = []; tags = []; category = [] }

abbrev habit : DistilledInstinct
habit = record { trigger = 97 ∷ []; action = 98 ∷ []; domain = []; evidence = [] }

abbrev parts : List DistilledSession
parts =
    record {
      memories = note (97 ∷ []) ∷ note (98 ∷ []) ∷ [];
      instincts = habit ∷ [];
      processing_path = on_device;
    }
    ∷ record {
      memories = note (32 ∷ 97 ∷ []) ∷ [];
      instincts = habit ∷ [];
      processing_path = external;
    }
    ∷ []

merge_distilled_lem_example :
    let of_memory : DistilledMemory → Bool = λ m. same (memory_key lower m) (97 ∷ []) in
    let of_instinct : DistilledInstinct → Bool =
      λ i. same_pair (instinct_key lower i) (97 ∷ [], 98 ∷ []) in
    let all_memories = all_of (λ p. p.memories) parts in
    let all_instincts = all_of (λ p. p.instincts) parts in
    (find of_memory (merge_distilled lower parts).memories ≡ find of_memory all_memories)
    × ((count_if of_memory (merge_distilled lower parts).memories
          ≡ (if any of_memory all_memories then 1 else 0))
        × ((find of_instinct (merge_distilled lower parts).instincts
              ≡ find of_instinct all_instincts)
            × (count_if of_instinct (merge_distilled lower parts).instincts
                ≡ (if any of_instinct all_instincts then 1 else 0))))
merge_distilled_lem_example =
    merge_distilled_lem lower parts (97 ∷ []) (97 ∷ []) (98 ∷ []) refl refl refl

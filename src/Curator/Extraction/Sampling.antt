-- ===== src/Curator/Extraction/Sampling.antt =====
-- The windows that sampling leaves of a transcript that is little longer than one.
use oc_piloci.Prelude.{
  ℕ, zero, suc, ◌+◌, ◌-◌, ◌≤◌, ◌<◌, ◌≡◌, refl, ap, max, none, some, List, [], ◌∷◌, map, false, ◌||◌,
  ltb, leb, ◌=?◌, length, take, is_nil, arith, Bool-cases, inl, inr,
}
use oc_piloci.Curator.Extraction.{
  slice, thin, range_from, Division, IsDivision, start_at, raw_starts, split_into_chunks,
}

module _ {F : Type 0} (py : Division F) (laws : IsDivision py) where
  thin-near :
      (last n stride a k : ℕ)
      → 2 ≤ n
      → a + k ≤ n
      → last < stride
      → thin stride (some 0) (map (start_at py last n) (range_from a k)) ≡ []
  unfolding thin range_from
  thin-near last n stride a zero two h l = refl
  thin-near last n stride a (suc k) two h l = ground (
    arith,
    laws.times_part last (n - 1) a (omega (arith, two)) (omega (arith, h)),
    l,
    thin-near last n stride (a + 1) k two (omega (arith, h)) l,
  )

  thin-raw :
      (last n stride : ℕ) → 2 ≤ n → last < stride → thin stride none (raw_starts py last n) ≡ 0 ∷ []
  unfolding thin range_from
  thin-raw last zero stride two l = absurd (omega (arith, two))
  thin-raw last (suc n) stride two l = elim (Bool-cases (suc n =? 2)) [
    | inl e ↦ rw e (ground (arith, l))
    | inr e ↦
        rw (e, laws.times_zero (py.over last (suc n - 1)))
          (ap (◌∷◌ 0) (thin-near last (suc n) stride (0 + 1) n two (omega arith) l))
  ]

  -- Sampling drops the closing of a text that is longer than one chunk by less than the stride: all
  -- that is left is the opening, in one chunk, however many chunks are allowed.
  pub split_into_chunks-opening :
      (text : List ℕ) (n chunk_chars overlap : ℕ)
      → 1 ≤ n
      → chunk_chars < length text
      → length text < chunk_chars + max 1 (chunk_chars - overlap)
      → split_into_chunks py text n chunk_chars overlap ≡ take chunk_chars text ∷ []
  unfolding split_into_chunks
  split_into_chunks-opening text n chunk_chars overlap one k m =
      elim (Bool-cases (is_nil text || (leb (length text) chunk_chars || (n =? 1)))) [
        | inl e ↦ rw (some_chunks, e) (rw (nonempty text k) refl)
        | inr e ↦
            let starts =
              thin-raw (length text - chunk_chars) n (max 1 (chunk_chars - overlap))
                (ground (arith, e, one)) (omega (arith, k, m)) in
            rw (some_chunks, e) (ap (map (λ s. slice text s chunk_chars)) starts)
      ]
    where
      some_chunks : ltb n 1 ≡ false
      some_chunks = ground (arith, one)

      nonempty : (xs : List ℕ) → chunk_chars < length xs → is_nil xs ≡ false
      nonempty [] h = absurd (omega (arith, h))
      nonempty (x ∷ xs) h = refl

-- ===== src/Curator/Extraction/Windows.antt =====
-- What the pieces of a transcript cover, and how many there are.
use oc_piloci.Prelude.{
  ℕ, zero, suc, ◌+◌, ◌-◌, ◌/◌, ◌≤◌, ◌<◌, ◌≡◌, refl, sym, ◌∙◌, ap, ap₂, min, max, Option, none, some,
  List, [], ◌∷◌, ◌++◌, map, Bool, false, not, ◌&&◌, ◌||◌, ltb, leb, ◌=?◌, if◌then◌else◌, length,
  take, drop, is_nil, All, arith, Bool-cases, inl, inr, length-append, length-take, length-drop,
  length-map, take-append-drop, take-take, drop-drop, drop_all, take_all,
}
use oc_piloci.Curator.Extraction.{
  marker, truncate, slice, is_apart, thin, range_from, Division, start_at, raw_starts,
  split_into_chunks, walk, split_full_coverage, Target, external_chunk_chars,
  full_coverage_max_chunks, plan,
}

-- A text is cut to exactly the allowed length, where the marker fits in it.
pub length-truncate :
    (text : List ℕ) (max_chars : ℕ)
    → 19 ≤ max_chars
    → length (truncate text max_chars) ≡ min max_chars (length text)
unfolding truncate
length-truncate text max_chars h = elim (Bool-cases (leb (length text) max_chars)) [
  | inl e ↦ rw e (ground arith)
  | inr e ↦ elim (Bool-cases (ltb max_chars (length marker))) [
    | inl f ↦ absurd (ground arith)
    | inr f ↦
        let head : ℕ = min ((max_chars - 19) / 3) 500 in
        let tail : ℕ = (max_chars - 19) - head in
        rw (e, f)
          (length-append (take head text) (marker ++ drop (length text - tail) text)
            ∙ ground (
              arith,
              length-take head text,
              length-append marker (drop (length text - tail) text),
              length-drop (length text - tail) text,
            ))
  ]
]

-- The text that chunks make up, each but the last by its first characters up to the next.
abbrev pub rebuild : ℕ → List (List ℕ) → List ℕ
rebuild stride [] = []
rebuild stride (c ∷ []) = c
rebuild stride (c ∷ d ∷ chunks) = take stride c ++ rebuild stride (d ∷ chunks)

rebuild-cons :
    (stride : ℕ) (c : List ℕ) (chunks : List (List ℕ))
    → is_nil chunks ≡ false
    → rebuild stride (c ∷ chunks) ≡ take stride c ++ rebuild stride chunks
rebuild-cons stride c [] h = absurd (cc h)
rebuild-cons stride c (d ∷ chunks) h = refl

module _ (text : List ℕ) (chunk_chars stride : ℕ) (pos : 1 ≤ stride)
    (fits : stride ≤ chunk_chars) where
  is_nil-walk :
      (fuel start : ℕ)
      → start < length text
      → length text - start ≤ fuel
      → is_nil (walk fuel text chunk_chars stride start) ≡ false
  unfolding walk
  is_nil-walk zero start h k = absurd (omega (arith, h, k))
  is_nil-walk (suc fuel) start h k = ground (arith, h)

  nil-walk : (fuel start : ℕ) → length text ≤ start → walk fuel text chunk_chars stride start ≡ []
  unfolding walk
  nil-walk zero start h = refl
  nil-walk (suc fuel) start h = ground (arith, h)

  rebuild-walk :
      (fuel start : ℕ)
      → length text - start ≤ fuel
      → rebuild stride (walk fuel text chunk_chars stride start) ≡ drop start text
  unfolding walk
  rebuild-walk zero start k = sym (drop_all start text (omega (arith, k)))
  rebuild-walk (suc fuel) start k = elim (Bool-cases (ltb start (length text))) [
    | inr e ↦ rw e (sym (drop_all start text (ground (arith, e))))
    | inl e ↦ elim (Bool-cases (ltb (start + stride) (length text))) [
      | inl f ↦ rw e (
          rebuild-cons stride (slice text start chunk_chars)
            (walk fuel text chunk_chars stride (start + stride))
            (is_nil-walk fuel (start + stride) (ground (arith, f)) (ground (arith, pos, k)))
          ∙ ap₂ ◌++◌ (take-take stride chunk_chars (drop start text) fits) (
              rebuild-walk fuel (start + stride) (ground (arith, pos, k))
              ∙ sym (drop-drop start stride text))
          ∙ take-append-drop stride (drop start text))
      | inr f ↦ rw e (
          ap (λ rest. rebuild stride (slice text start chunk_chars ∷ rest))
            (nil-walk fuel (start + stride) (ground (arith, f)))
          ∙ take_all chunk_chars (drop start text)
              (ground (arith, f, fits, length-drop start text)))
    ]
  ]

-- Nothing of a text is dropped by full coverage: the chunks make up the text again, when each but
-- the last counts up to the start of the next.
pub rebuild-split_full_coverage :
    (text : List ℕ) (chunk_chars overlap : ℕ)
    → 1 ≤ chunk_chars
    → rebuild (max 1 (chunk_chars - overlap)) (split_full_coverage text chunk_chars overlap) ≡ text
unfolding split_full_coverage
rebuild-split_full_coverage [] chunk_chars overlap h = refl
rebuild-split_full_coverage (c ∷ text) chunk_chars overlap h =
    elim (Bool-cases (leb (length (c ∷ text)) chunk_chars)) [
      | inl e ↦ rw e refl
      | inr e ↦ rw e (
          rebuild-walk (c ∷ text) chunk_chars (max 1 (chunk_chars - overlap)) (omega arith)
            (omega (arith, h)) (length (c ∷ text)) 0 (omega arith))
    ]

-- Chunks that are no longer than a bound.
abbrev pub AllWithin : ℕ → List (List ℕ) → Type 0
AllWithin n chunks = All (λ c. length c ≤ n) chunks

within-walk :
    (text : List ℕ) (n stride fuel start : ℕ) → AllWithin n (walk fuel text n stride start)
unfolding walk
within-walk text n stride zero start = tt
within-walk text n stride (suc fuel) start = elim (Bool-cases (ltb start (length text))) [
  | inl e ↦ rw e (
      (
        omega (arith, length-take n (drop start text)),
        within-walk text n stride fuel (start + stride),
      ))
  | inr e ↦ rw e tt
]

within-slices :
    (text : List ℕ) (n : ℕ) (starts : List ℕ) → AllWithin n (map (λ s. slice text s n) starts)
within-slices text n [] = tt
within-slices text n (s ∷ starts) =
    (omega (arith, length-take n (drop s text)), within-slices text n starts)

within-full : (text : List ℕ) (n overlap : ℕ) → AllWithin n (split_full_coverage text n overlap)
unfolding split_full_coverage
within-full [] n overlap = tt
within-full (c ∷ text) n overlap = elim (Bool-cases (leb (length (c ∷ text)) n)) [
  | inl e ↦ rw e ((ground (arith, e), tt))
  | inr e ↦ rw e (within-walk (c ∷ text) n (max 1 (n - overlap)) (length (c ∷ text)) 0)
]

within-take : (n m : ℕ) (chunks : List (List ℕ)) → AllWithin n chunks → AllWithin n (take m chunks)
within-take n zero chunks h = tt
within-take n (suc m) [] h = tt
within-take n (suc m) (c ∷ chunks) h = (h.0, within-take n m chunks h.1)

length-thin :
    (stride : ℕ) (last : Option ℕ) (starts : List ℕ)
    → length (thin stride last starts) ≤ length starts
unfolding thin
length-thin stride last [] = omega arith
length-thin stride last (s ∷ starts) =
    ground (arith, length-thin stride (if is_apart stride last s then some s else last) starts)

length-range_from : (a n : ℕ) → length (range_from a n) ≡ n
unfolding range_from
length-range_from a zero = refl
length-range_from a (suc n) = ap suc (length-range_from (a + 1) n)

module _ {F : Type 0} (py : Division F) where
  length-raw_starts : (last n : ℕ) → length (raw_starts py last n) ≡ n
  length-raw_starts last n = elim (Bool-cases (n =? 2)) [
    | inl e ↦ rw e (ground (arith, e))
    | inr e ↦ rw e (length-map (start_at py last n) (range_from 0 n) ∙ length-range_from 0 n)
  ]

  split-bounds :
      (text : List ℕ) (n chunk_chars overlap : ℕ)
      → (length (split_into_chunks py text n chunk_chars overlap) ≤ n)
        × AllWithin chunk_chars (split_into_chunks py text n chunk_chars overlap)
  unfolding split_into_chunks
  split-bounds text n chunk_chars overlap = elim (Bool-cases (ltb n 1)) [
    | inl e ↦ rw e ((omega arith, tt))
    | inr e ↦ elim (Bool-cases (is_nil text || (leb (length text) chunk_chars || (n =? 1)))) [
      | inl f ↦ elim (Bool-cases (is_nil text)) [
        | inl g ↦ rw (e, f) (rw g ((omega arith, tt)))
        | inr g ↦
            rw (e, f)
              (rw g ((ground (arith, e), (omega (arith, length-take chunk_chars text), tt))))
      ]
      | inr f ↦
          let starts : List ℕ = raw_starts py (length text - chunk_chars) n in
          let stride : ℕ = max 1 (chunk_chars - overlap) in
          rw (e, f)
            ((
              omega (
                arith,
                length-map (λ s. slice text s chunk_chars) (thin stride none starts),
                length-thin stride none starts,
                length-raw_starts (length text - chunk_chars) n,
              ),
              within-slices text chunk_chars (thin stride none starts),
            ))
    ]
  ]

  -- However long a transcript is, at most 64 chunks of it or the configured number are sent to a
  -- model, whichever is more, and none is longer than its call allows.
  pub plan-bounds :
      (fallbacks : List Target) (prefer_external : Bool) (chunk_chars max_chunks chunk_overlap : ℕ)
      (text : List ℕ)
      → (length (plan py fallbacks prefer_external chunk_chars max_chunks chunk_overlap text).0
          ≤ max full_coverage_max_chunks max_chunks)
        × AllWithin
            (plan py fallbacks prefer_external chunk_chars max_chunks chunk_overlap text).1.0
            (plan py fallbacks prefer_external chunk_chars max_chunks chunk_overlap text).0
  unfolding plan split_full_coverage
  plan-bounds fallbacks prefer_external chunk_chars max_chunks chunk_overlap text =
      elim (Bool-cases
        (not (is_nil fallbacks) && (prefer_external && ltb chunk_chars (length text)))) [
          | inl e ↦ rw e (
              (
                omega (
                  arith,
                  length-take full_coverage_max_chunks
                      (split_full_coverage text external_chunk_chars chunk_overlap),
                ),
                within-take external_chunk_chars full_coverage_max_chunks
                    (split_full_coverage text external_chunk_chars chunk_overlap)
                    (within-full text external_chunk_chars chunk_overlap),
              ))
          | inr e ↦
              let bounds = split-bounds text max_chunks chunk_chars chunk_overlap in
              rw e ((omega (arith, bounds.0), bounds.1))
        ]

-- ===== src/Curator/Extraction.antt =====
-- curator/extraction.py: how a transcript is cut into the pieces that a model reads, and how what
-- it says of them is merged. Texts are lists of code points. `lower` is Python's, and so
-- are the floats of `Division`; `chat` is what `chat_json` makes of a list of
-- targets: the label of the one that answered and its answer, `none` where all fail.
pub mod Windows
pub mod Sampling
pub mod Merging
mod Examples
use oc_piloci.Prelude.{
  ◌≡◌, ◌≤◌, ℕ, zero, suc, ◌+◌, ◌-◌, ◌*◌, ◌/◌, min, max, Option, none, some, List, [], ◌∷◌, ◌++◌,
  map, Bool, true, false, not, ◌&&◌, ◌||◌, ltb, leb, ◌=?◌, if◌then◌else◌, length, take, drop, any,
  is_nil,
}
use oc_piloci.Text.{strip, is_space}

pub record DistilledMemory : Type 0 where
  pub content : List ℕ
  pub title : List ℕ
  pub tags : List (List ℕ)
  pub category : List ℕ

pub record DistilledInstinct : Type 0 where
  pub trigger : List ℕ
  pub action : List ℕ
  pub domain : List ℕ
  pub evidence : List ℕ

pub data ProcessingPath : Type 0 where
  on_device external : ProcessingPath

pub record DistilledSession : Type 0 where
  pub memories : List DistilledMemory
  pub instincts : List DistilledInstinct
  pub processing_path : ProcessingPath

abbrev pub nothing_distilled : DistilledSession
nothing_distilled = record { memories = []; instincts = []; processing_path = on_device }

-- "\n...[truncated]...\n"
abbrev pub marker : List ℕ
marker =
    10 ∷ 46 ∷ 46 ∷ 46 ∷ 91 ∷ 116 ∷ 114 ∷ 117 ∷ 110 ∷ 99 ∷ 97 ∷ 116 ∷ 101 ∷ 100 ∷ 93 ∷ 46 ∷ 46 ∷ 46
    ∷ 10 ∷ []

-- `_truncate`. Below the length of the marker the budget is negative, and the slice counts from the end.
unfoldable pub truncate : List ℕ → ℕ → List ℕ
truncate text max_chars =
    if leb (length text) max_chars
    then text
    else if ltb max_chars (length marker)
    then take (length text - (length marker - max_chars + 2) / 3) text ++ marker
    else (let budget : ℕ = max_chars - length marker in
        let head_budget : ℕ = min (budget / 3) 500 in
        let tail_budget : ℕ = budget - head_budget in
        take head_budget text ++ (marker ++ drop (length text - tail_budget) text))

-- `text[s : s + n]`
abbrev pub slice : List ℕ → ℕ → ℕ → List ℕ
slice text s n = take n (drop s text)

-- The floats of the starts: `a / b`, `i * x` and `int(round(x))`.
pub record Division (F : Type 0) : Type 0 where
  pub over : ℕ → ℕ → F
  pub times : ℕ → F → F
  pub round : F → ℕ

-- What floats keep to where the numbers are lengths of texts: nothing taken times anything is 0, and
-- parts of a whole round to no more than the whole.
pub record IsDivision {F : Type 0} (py : Division F) : Type 0 where
  pub times_zero : (x : F) → py.round (py.times 0 x) ≡ 0
  pub times_part : (last m i : ℕ) → 1 ≤ m → i ≤ m → py.round (py.times i (py.over last m)) ≤ last

-- `int(round(i * step))`
abbrev pub start_at : {F : Type 0} → Division F → ℕ → ℕ → ℕ → ℕ
start_at py last_start n_chunks i = py.round (py.times i (py.over last_start (n_chunks - 1)))

-- Whether a window starts far enough behind the one before.
abbrev pub is_apart : ℕ → Option ℕ → ℕ → Bool
is_apart min_stride none s = true
is_apart min_stride (some p) s = leb (p + min_stride) s

-- The starts that are far enough from the last one that was taken.
unfoldable pub thin : ℕ → Option ℕ → List ℕ → List ℕ
thin min_stride last [] = []
thin min_stride last (s ∷ raw_starts) =
    let taken : Bool = is_apart min_stride last s in
    let rest = thin min_stride (if taken then some s else last) raw_starts in
    if taken then s ∷ rest else rest

-- `range(a, a + n)`
unfoldable pub range_from : ℕ → ℕ → List ℕ
range_from a zero = []
range_from a (suc n) = a ∷ range_from (a + 1) n

abbrev pub raw_starts : {F : Type 0} → Division F → ℕ → ℕ → List ℕ
raw_starts py last_start n_chunks =
    if n_chunks =? 2
    then 0 ∷ last_start ∷ []
    else map (start_at py last_start n_chunks) (range_from 0 n_chunks)

-- `_split_into_chunks`
unfoldable pub split_into_chunks : {F : Type 0} → Division F → List ℕ → ℕ → ℕ → ℕ → List (List ℕ)
split_into_chunks py text n_chunks chunk_chars overlap =
    if ltb n_chunks 1
    then []
    else if is_nil text || (leb (length text) chunk_chars || (n_chunks =? 1))
    then (if is_nil text then [] else take chunk_chars text ∷ [])
    else map (λ s. slice text s chunk_chars)
        (thin (max 1 (chunk_chars - overlap)) none
          (raw_starts py (length text - chunk_chars) n_chunks))

-- The loop of `_split_full_coverage`, on fuel.
unfoldable pub walk : ℕ → List ℕ → ℕ → ℕ → ℕ → List (List ℕ)
walk zero text chunk_chars stride start = []
walk (suc fuel) text chunk_chars stride start =
    let rest = walk fuel text chunk_chars stride (start + stride) in
    if ltb start (length text) then slice text start chunk_chars ∷ rest else []

-- `_split_full_coverage`: a step for each character is enough.
unfoldable pub split_full_coverage : List ℕ → ℕ → ℕ → List (List ℕ)
split_full_coverage text chunk_chars overlap =
    if is_nil text
    then []
    else if leb (length text) chunk_chars
    then text ∷ []
    else walk (length text) text chunk_chars (max 1 (chunk_chars - overlap)) 0

-- `re.sub(r"\s+", " ", s)`; the argument says whether the character before was a space.
abbrev pub collapse : Bool → List ℕ → List ℕ
collapse spaced [] = []
collapse spaced (c ∷ s) =
    let rest = collapse (is_space c) s in
    if is_space c then (if spaced then rest else 32 ∷ rest) else c ∷ rest

module _ (lower : List ℕ → List ℕ) where
  -- `_normalize_for_dedupe`
  abbrev pub normalize_for_dedupe : List ℕ → List ℕ
  normalize_for_dedupe s = lower (collapse false (strip s))

  abbrev pub memory_key : DistilledMemory → List ℕ
  memory_key m = take 200 (normalize_for_dedupe m.content)

  abbrev pub instinct_key : DistilledInstinct → List ℕ × List ℕ
  instinct_key i = (normalize_for_dedupe i.trigger, normalize_for_dedupe i.action)

abbrev pub same : List ℕ → List ℕ → Bool
same [] [] = true
same [] (b ∷ ys) = false
same (a ∷ xs) [] = false
same (a ∷ xs) (b ∷ ys) = (a =? b) && same xs ys

abbrev pub same_pair : List ℕ × List ℕ → List ℕ × List ℕ → Bool
same_pair a b = same a.0 b.0 && same a.1 b.1

-- The items whose key is usable and was not seen before.
unfoldable pub fresh :
    {A K : Type 0} → (K → K → Bool) → (A → K) → (K → Bool) → List K → List A → List A
fresh eq key usable seen [] = []
fresh eq key usable seen (x ∷ xs) =
    let taken : Bool = usable (key x) && not (any (λ k. eq k (key x)) seen) in
    let rest = fresh eq key usable (if taken then key x ∷ seen else seen) xs in
    if taken then x ∷ rest else rest

abbrev pub is_external : ProcessingPath → Bool
is_external on_device = false
is_external external = true

abbrev pub all_of : {A : Type 0} → (DistilledSession → List A) → List DistilledSession → List A
all_of f [] = []
all_of f (p ∷ parts) = f p ++ all_of f parts

-- `_merge_distilled`. The two loops in each part have nothing in common, so that each kind is one
-- pass over the parts.
unfoldable pub merge_distilled : (List ℕ → List ℕ) → List DistilledSession → DistilledSession
merge_distilled lower parts = record {
  memories =
      fresh same (memory_key lower) (λ k. not (is_nil k)) [] (all_of (λ p. p.memories) parts);
  instincts =
      fresh same_pair (instinct_key lower) (λ k. not (is_nil k.0) && not (is_nil k.1)) []
        (all_of (λ p. p.instincts) parts);
  processing_path = if any (λ p. is_external p.processing_path) parts then external else on_device;
}

-- The targets of a chat: the primary, its place at the tail, and a fallback by its number.
pub data Target : Type 0 where
  primary local_after : Target
  fallback : ℕ → Target

abbrev pub targets_of : Bool → List Target → List Target
targets_of prefer_external [] = primary ∷ []
targets_of prefer_external (f ∷ fallbacks) =
    if prefer_external then (f ∷ fallbacks) ++ local_after ∷ [] else primary ∷ f ∷ fallbacks

abbrev pub path_of : Target → ProcessingPath
path_of primary = on_device
path_of local_after = on_device
path_of (fallback n) = external

-- `extract_session`; the answer is what `_validate_memory` and `_validate_instinct` let through.
abbrev pub extract_session :
    (List ℕ → List Target → Option (Target × (List DistilledMemory × List DistilledInstinct)))
    → List Target
    → Bool
    → ℕ
    → List ℕ
    → DistilledSession
extract_session chat fallbacks prefer_external max_chars text =
    if is_nil (strip text)
    then nothing_distilled
    else elim (chat (truncate text max_chars) (targets_of prefer_external fallbacks)) [
      | none ↦ nothing_distilled
      | some (target, (memories, instincts)) ↦ record {
        memories = memories;
        instincts = instincts;
        processing_path = path_of target;
      }
    ]

abbrev pub external_chunk_chars : ℕ
external_chunk_chars = 100000

abbrev pub full_coverage_max_chunks : ℕ
full_coverage_max_chunks = 64

-- The chunks of `extract_session_multipass`, the length that each may have, and the route.
unfoldable pub plan :
    {F : Type 0} → Division F → List Target → Bool → ℕ → ℕ → ℕ → List ℕ → List (List ℕ) × (ℕ × Bool)
plan py fallbacks prefer_external chunk_chars max_chunks chunk_overlap text =
    if not (is_nil fallbacks) && (prefer_external && ltb chunk_chars (length text))
    then (
      take full_coverage_max_chunks (split_full_coverage text external_chunk_chars chunk_overlap),
      (external_chunk_chars, true),
    )
    else (
      split_into_chunks py text max_chunks chunk_chars chunk_overlap,
      (chunk_chars, prefer_external),
    )

-- One part is passed on as it is.
abbrev pub merged_parts : (List ℕ → List ℕ) → List DistilledSession → DistilledSession
merged_parts lower [] = nothing_distilled
merged_parts lower (p ∷ []) = p
merged_parts lower (p ∷ q ∷ parts) = merge_distilled lower (p ∷ q ∷ parts)

pub extract_session_multipass :
    {F : Type 0}
    → (List ℕ → List ℕ)
    → Division F
    → (List ℕ → List Target → Option (Target × (List DistilledMemory × List DistilledInstinct)))
    → List Target
    → Bool
    → ℕ
    → ℕ
    → ℕ
    → List ℕ
    → DistilledSession
unfolding plan
extract_session_multipass lower py chat fallbacks prefer_external chunk_chars max_chunks
      chunk_overlap text =
    if is_nil (strip text)
    then nothing_distilled
    else (let chosen =
          plan py fallbacks prefer_external chunk_chars max_chunks chunk_overlap text in
        merged_parts lower (map (extract_session chat fallbacks chosen.1.1 chosen.1.0) chosen.0))

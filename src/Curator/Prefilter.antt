-- ===== src/Curator/Prefilter.antt =====
-- curator/prefilter.py: which transcripts are worth distilling. Texts are lists of code points. What
-- JSON holds, the patterns of notifications, `lower` and `isalnum` are parameters.
pub mod Verdicts
use oc_piloci.Prelude.{
  ℕ, suc, ◌+◌, Option, none, some, List, [], ◌∷◌, ◌++◌, map, Bool, true, false, not, ◌&&◌, ◌||◌,
  ltb, ◌=?◌, if◌then◌else◌, length, any, keep, is_nil,
}
use oc_piloci.Text.{lstrip, strip, is_space}
use oc_piloci.Curator.Extraction.{same}

-- A block of a message: a dict with its `text`, if that is a text, a text, or something else.
pub data Block : Type 0 where
  block : Option (List ℕ) → Block
  text_block : List ℕ → Block
  other_block : Block

pub data Content : Type 0 where
  text_content : List ℕ → Content
  blocks : List Block → Content
  other_content : Content

-- A message with its role and content, or something that is no dict.
pub data Message : Type 0 where
  message : List ℕ → Content → Message
  other_message : Message

pub data Transcript : Type 0 where
  plain : List ℕ → Transcript
  messages : List Message → Transcript

pub data FilterReason : Type 0 where
  empty system_notification too_short no_assistant_content low_diversity : FilterReason

pub record PrefilterDecision : Type 0 where
  pub reason : Option FilterReason
  pub char_count : ℕ
  pub distinct_words : ℕ
  pub assistant_chars : ℕ

-- `passes`
abbrev pub passes : PrefilterDecision → Bool
passes d = elim d.reason [ none ↦ true | some r ↦ false ]

abbrev pub min_transcript_chars : ℕ
min_transcript_chars = 600

abbrev pub min_distinct_words : ℕ
min_distinct_words = 60

abbrev pub min_assistant_chars : ℕ
min_assistant_chars = 200

abbrev pub notification_max_chars : ℕ
notification_max_chars = 600

pub record Library : Type 0 where
  -- `orjson.loads`: `none` where it raises, `some none` for anything but a list.
  pub loads : List ℕ → Option (Option (List Message))
  -- Whether one of `_NOTIFICATION_PATTERNS` is found.
  pub is_templated : List ℕ → Bool
  pub lower : List ℕ → List ℕ
  pub isalnum : List ℕ → Bool

-- `sep.join(parts)`
abbrev pub join : List ℕ → List (List ℕ) → List ℕ
join sep [] = []
join sep (p ∷ []) = p
join sep (p ∷ q ∷ parts) = p ++ (sep ++ join sep (q ∷ parts))

abbrev pub texts_of : List Block → List (List ℕ)
texts_of [] = []
texts_of (block none ∷ bs) = texts_of bs
texts_of (block (some t) ∷ bs) = t ∷ texts_of bs
texts_of (text_block t ∷ bs) = t ∷ texts_of bs
texts_of (other_block ∷ bs) = texts_of bs

-- `_flatten_content`
abbrev pub flatten_content : Content → List ℕ
flatten_content (text_content t) = t
flatten_content (blocks bs) = join (32 ∷ []) (texts_of bs)
flatten_content other_content = []

-- "assistant"
abbrev pub assistant : List ℕ
assistant = 97 ∷ 115 ∷ 115 ∷ 105 ∷ 115 ∷ 116 ∷ 97 ∷ 110 ∷ 116 ∷ []

-- "[role] text", for each message
abbrev pub full_parts : List Message → List (List ℕ)
full_parts [] = []
full_parts (message role content ∷ ms) =
    (91 ∷ role ++ 93 ∷ 32 ∷ flatten_content content) ∷ full_parts ms
full_parts (other_message ∷ ms) = full_parts ms

abbrev pub assistant_parts : List Message → List (List ℕ)
assistant_parts [] = []
assistant_parts (message role content ∷ ms) =
    let rest = assistant_parts ms in
    if same role assistant then flatten_content content ∷ rest else rest
assistant_parts (other_message ∷ ms) = assistant_parts ms

-- `_normalize`
unfoldable pub normalize : Transcript → List ℕ × List ℕ
normalize (plain t) = (t, t)
normalize (messages ms) = (join (10 ∷ []) (full_parts ms), join (10 ∷ []) (assistant_parts ms))

-- `str.split()`; the first argument is the word that is being read.
abbrev pub split : List ℕ → List ℕ → List (List ℕ)
split word [] = if is_nil word then [] else word ∷ []
split word (c ∷ s) =
    let rest = split (if is_space c then [] else word ++ c ∷ []) s in
    if is_space c && not (is_nil word) then word ∷ rest else rest

-- The number of different words.
abbrev pub count_distinct : List (List ℕ) → ℕ
count_distinct [] = 0
count_distinct (w ∷ ws) = let rest = count_distinct ws in if any (same w) ws then rest else rest + 1

module _ (lib : Library) where
  open lib use {loads, is_templated, lower, isalnum}

  abbrev pub starts_json : List ℕ → Bool
  starts_json [] = false
  starts_json (c ∷ s) = (c =? 91) || (c =? 123)

  -- `_parse_if_json`
  unfoldable pub parse_if_json : List ℕ → Transcript
  parse_if_json raw = if not (starts_json (lstrip raw)) then plain raw else elim (loads raw) [
    | none ↦ plain raw
    | some none ↦ plain raw
    | some (some ms) ↦ messages ms
  ]

  -- `_looks_like_system_notification`
  abbrev pub looks_like_system_notification : List ℕ → Bool
  looks_like_system_notification text =
      if is_nil (strip text) || ltb notification_max_chars (length (strip text))
      then false
      else is_templated (strip text)

  abbrev pub distinct_words_of : List ℕ → ℕ
  distinct_words_of text = count_distinct (keep isalnum (split [] (lower text)))

  abbrev pub rejected : FilterReason → ℕ → ℕ → ℕ → PrefilterDecision
  rejected reason chars words assistant_chars = record {
    reason = some reason;
    char_count = chars;
    distinct_words = words;
    assistant_chars = assistant_chars;
  }

  -- `evaluate`, after a text was parsed.
  unfoldable pub judge : Transcript → PrefilterDecision
  judge t =
      let full : List ℕ = (normalize t).0 in
      let said : ℕ = length (normalize t).1 in
      if is_nil (strip full)
      then rejected empty 0 0 0
      else if looks_like_system_notification full
      then rejected system_notification (length full) 0 0
      else if ltb (length full) min_transcript_chars
      then rejected too_short (length full) 0 0
      else if ltb said min_assistant_chars
      then rejected no_assistant_content (length full) 0 said
      else if ltb (distinct_words_of full) min_distinct_words
      then rejected low_diversity (length full) (distinct_words_of full) said
      else record {
        reason = none;
        char_count = length full;
        distinct_words = distinct_words_of full;
        assistant_chars = said;
      }

  unfoldable pub evaluate : Transcript → PrefilterDecision
  evaluate (plain raw) = judge (parse_if_json raw)
  evaluate (messages ms) = judge (messages ms)

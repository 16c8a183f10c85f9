-- ===== src/Curator/Prefilter/Verdicts.antt =====
-- Which transcripts pass the prefilter.
use oc_piloci.Prelude.{◌≡◌, refl, ap, ◌∙◌, not, ◌&&◌, leb, length, is_nil, arith}
use oc_piloci.Text.{strip}
use oc_piloci.Curator.Prefilter.{
  Transcript, plain, messages, passes, Library, normalize, parse_if_json,
  looks_like_system_notification, distinct_words_of, judge, evaluate,
}

module _ (lib : Library) where
  -- A text that holds JSON messages is judged as these.
  abbrev pub parsed : Transcript → Transcript
  parsed (plain raw) = parse_if_json lib raw
  parsed (messages ms) = messages ms

  evaluate-parsed : (t : Transcript) → evaluate lib t ≡ judge lib (parsed t)
  unfolding evaluate
  evaluate-parsed (plain raw) = refl
  evaluate-parsed (messages ms) = refl

  passes-judge :
      (t : Transcript)
      → passes (judge lib t) ≡ (
          not (is_nil (strip (normalize t).0))
          && (not (looks_like_system_notification lib (normalize t).0)
              && (leb 600 (length (normalize t).0)
                  && (leb 200 (length (normalize t).1)
                      && leb 60 (distinct_words_of lib (normalize t).0)))))
  unfolding judge
  passes-judge t = ground arith

  -- A transcript passes exactly if it is not blank and no short notification, has 600 characters or
  -- more and 200 or more by the assistant, and at least 60 different words; a text that holds a JSON
  -- list of messages is judged as these messages.
  pub passes-evaluate :
      (t : Transcript)
      → passes (evaluate lib t) ≡ (
          not (is_nil (strip (normalize (parsed t)).0))
          && (not (looks_like_system_notification lib (normalize (parsed t)).0)
              && (leb 600 (length (normalize (parsed t)).0)
                  && (leb 200 (length (normalize (parsed t)).1)
                      && leb 60 (distinct_words_of lib (normalize (parsed t)).0)))))
  passes-evaluate t = ap passes (evaluate-parsed t) ∙ passes-judge (parsed t)

-- ===== src/Tools/Texts.antt =====
-- A codec of the dicts of texts, to run the store with.
use oc_piloci.Prelude.{
  ◌≡◌, refl, ◌∙◌, ap, Option, none, some, List, [], ◌∷◌, false, not, String, ◌==◌, if◌then◌else◌,
  ◌=?◌, eq_iff, Bool-cases, inl, inr,
}
use Prim.Native.Char.{Char, code}
use oc_piloci.Storage.Memories.Records.{Codec, Meta}
use oc_piloci.Storage.Memories.Reading.{IsCodec}
use oc_piloci.Tools.Memory.Refusals.{IsText}

abbrev mark : Char
mark = "x"

abbrev stop : Char
stop = "e"

-- A text, each character marked, and a stop.
encoded : String → String → String
encoded String.[] rest = String.◌∷◌ stop rest
encoded (String.◌∷◌ c s) rest = String.◌∷◌ mark (String.◌∷◌ c (encoded s rest))

push : Char → List String → List String
push c [] = []
push c (s ∷ ss) = String.◌∷◌ c s ∷ ss

decoded : String → List String
decoded String.[] = []
decoded (String.◌∷◌ t String.[]) = String.[] ∷ []
decoded (String.◌∷◌ t (String.◌∷◌ c r)) =
    let next = decoded (String.◌∷◌ c r) in
    let rest = decoded r in if code t =? b'e' then String.[] ∷ next else push c rest

decoded-encoded : (s rest : String) → decoded (encoded s rest) ≡ s ∷ decoded rest
unfolding encoded decoded push
decoded-encoded String.[] String.[] = refl
decoded-encoded String.[] (String.◌∷◌ c r) = refl
decoded-encoded (String.◌∷◌ c s) rest = ap (push c) (decoded-encoded s rest)

flat : Meta String → String
flat [] = ""
flat ((k, v) ∷ m) = encoded k (encoded v (flat m))

pairs : List String → Meta String
pairs [] = []
pairs (k ∷ []) = []
pairs (k ∷ v ∷ r) = (k, v) ∷ pairs r

pairs-flat : (m : Meta String) → pairs (decoded (flat m)) ≡ m
unfolding flat pairs decoded
pairs-flat [] = refl
pairs-flat ((k, v) ∷ m) =
    ap pairs (decoded-encoded k (encoded v (flat m)) ∙ ap (◌∷◌ k) (decoded-encoded v (flat m)))
    ∙ ap (◌∷◌ (k, v)) (pairs-flat m)

unfoldable pub loaded : String → Option (Meta String)
unfolding pairs decoded push
loaded String.[] = none
loaded (String.◌∷◌ c s) = some (pairs (decoded s))

unfoldable pub dumped : Meta String → String
unfolding flat encoded
dumped m = String.◌∷◌ mark (flat m)

abbrev pub text_codec : Codec String
text_codec = record {
  loads = loaded;
  dumps = dumped;
  text = λ s. s;
  text_of = λ s. some s;
  is_truthy = λ s. not (s == "");
}

loaded-dumped : (m : Meta String) → loaded (dumped m) ≡ some m
unfolding loaded dumped
loaded-dumped m = ap some (pairs-flat m)

not_empty : (s : String) → String.◌∷◌ mark s ≡ String.[] → ⊥
not_empty s e = cc

dumped_nonempty : (m : Meta String) → (dumped m == "") ≡ false
unfolding dumped
dumped_nonempty m = elim (Bool-cases (dumped m == "")) [
  | inl e ↦ absurd (not_empty (flat m) ((eq_iff (dumped m) "").0 e))
  | inr e ↦ e
]

pub text_codec-IsCodec : IsCodec text_codec
text_codec-IsCodec = record { loads-dumps = loaded-dumped; dumps_nonempty = dumped_nonempty }

pub text_codec-IsText : IsText text_codec
text_codec-IsText = record { text_of-text = λ s. refl; is_truthy-text = λ s. refl }

-- ===== src/Auth/DevicePairing/Examples.antt =====
-- Runs of the pairing store.
use oc_piloci.Prelude.{ℕ, ◌≡◌, refl, Option, none, some, List, [], ◌∷◌, String}
use oc_piloci.Auth.Redis.Memory.{memory, memory-IsRedis}
use oc_piloci.Auth.DevicePairing.{
  Pairing, Codec, IsCodec, read, write, created, lookup_user_code, poll,
}
use oc_piloci.Auth.DevicePairing.Delivery.{answered, poll_once}

-- Stored values as the texts and objects that they encode.
data Stored : Type 0 where
  text : String → Stored
  pairing : Pairing → Stored

decode : Stored → String
decode (text s) = s
decode (pairing p) = ""

loads : Stored → Option Pairing
loads (text s) = none
loads (pairing p) = some p

abbrev codec : Codec Stored
codec = record { encode = text; decode = decode; dumps = pairing; loads = loads }

codec-IsCodec : IsCodec codec
unfolding decode loads
codec-IsCodec = record { decode-encode = λ s. refl; loads-dumps = λ p. refl }

abbrev Store : Type 0
Store = String → Option (Stored × ℕ)

abbrev no_pairings : Store
no_pairings k = none

abbrev two_codes : List (String × String)
two_codes = ("dev-1", "AAAA-2222") ∷ ("dev-2", "BBBB-3333") ∷ []

abbrev waiting : Pairing
waiting = created memory codec "AAAA-2222" none

abbrev one_pairing : Store
one_pairing = write memory codec no_pairings 10 "dev-1" waiting

abbrev one_answer : Store
one_answer = write memory codec no_pairings 10 "dev-1" (answered waiting "tok" none)

poll_once_example :
    ((poll memory codec (poll memory codec one_answer 30 "dev-1").0 40 "dev-1").1 ≡ none)
    × (lookup_user_code memory codec (poll memory codec one_answer 30 "dev-1").0 40 "AAAA-2222"
        ≡ none)
unfolding poll read loads
poll_once_example =
    poll_once memory-IsRedis codec-IsCodec one_answer 30 40 "dev-1" (answered waiting "tok" none)
      refl refl

-- ===== src/Auth/DevicePairing.antt =====
-- auth/device_pairing.py: `DevicePairingStore`. Each method runs at one time, with nothing of
-- another client between its Redis calls. The random codes come in as an argument, and the bytes
-- that `encode` and `orjson` make are values of a type of which a codec is given.
pub mod Delivery
pub mod Creation
mod Examples
use oc_piloci.Prelude.{
  ℕ, ◌≡◌, Option, none, some, List, [], ◌∷◌, Bool, true, false, not, ◌&&◌, String, is_nil, take,
  if◌then◌else◌, ◌==◌,
}
use oc_piloci.Auth.Redis.{Redis, device_key, user_code_key}

pub data DeviceStatus : Type 0 where
  pending approved denied : DeviceStatus

-- The JSON object of a pairing.
pub record Pairing : Type 0 where
  pub status : DeviceStatus
  pub user_code : String
  pub detected : Option (List String)
  pub token : Option String
  pub targets : Option (List String)

pub record Codec (V : Type 0) : Type 0 where
  pub encode : String → V
  pub decode : V → String
  pub dumps : Pairing → V
  -- `none` where the text is no JSON object.
  pub loads : V → Option Pairing

pub record IsCodec {V : Type 0} (codec : Codec V) : Type 0 where
  pub decode-encode : (s : String) → codec.decode (codec.encode s) ≡ s
  pub loads-dumps : (p : Pairing) → codec.loads (codec.dumps p) ≡ some p

abbrev pub device_ttl_sec : ℕ
device_ttl_sec = 600

abbrev pub is_pending : DeviceStatus → Bool
is_pending pending = true
is_pending approved = false
is_pending denied = false

-- `record["detected"] = list(detected)` if there are any.
abbrev pub some_detected : Option (List String) → Option (List String)
some_detected none = none
some_detected (some l) = if is_nil l then none else some l

-- A list replaces what is there; `None` leaves it.
abbrev pub or_else {ℓ} : {A : Type ℓ} → Option A → Option A → Option A
or_else none old = old
or_else (some a) old = some a

module _ {R V : Type 0} (redis : Redis R V) (codec : Codec V) where
  pub read : R → ℕ → String → Option Pairing
  read r now device_code =
      if device_code == "" then none else elim (redis.get r now (device_key device_code)) [
        | none ↦ none
        | some raw ↦ codec.loads raw
      ]

  abbrev pub write : R → ℕ → String → Pairing → R
  write r now device_code p =
      redis.set r now (device_key device_code) (codec.dumps p) device_ttl_sec

  abbrev pub created : String → Option (List String) → Pairing
  created user_code detected = record {
    status = pending;
    user_code = user_code;
    detected = some_detected detected;
    token = none;
    targets = none;
  }

  -- The loop over pairs of a device code and a user code; `none` is the `RuntimeError`.
  attempts : R → ℕ → Option (List String) → List (String × String) → R × Option (String × String)
  attempts r now detected [] = (r, none)
  attempts r now detected ((device_code, user_code) ∷ codes) =
      let claim =
        redis.set_nx r now (user_code_key user_code) (codec.encode device_code) device_ttl_sec in
      let rest = attempts claim.0 now detected codes in
      if claim.1
      then (
        write claim.0 now device_code (created user_code detected),
        some (device_code, user_code),
      )
      else rest

  pub create : R → ℕ → Option (List String) → List (String × String) → R × Option (String × String)
  unfolding attempts
  create r now detected codes = attempts r now detected (take 8 codes)

  pub lookup_user_code : R → ℕ → String → Option (String × Pairing)
  lookup_user_code r now user_code =
      if user_code == "" then none else elim (redis.get r now (user_code_key user_code)) [
        | none ↦ none
        | some raw ↦ elim (read r now (codec.decode raw)) [
          | none ↦ none
          | some p ↦ some (codec.decode raw, p)
        ]
      ]

  pub approve : R → ℕ → String → String → Option (List String) → R × Bool
  approve r now device_code token targets = elim (read r now device_code) [
    | none ↦ (r, false)
    | some p ↦
        if is_pending p.status
        then (
          write r now device_code (record p {
            status = approved;
            token = some token;
            targets = or_else targets p.targets;
          }),
          true,
        )
        else (r, false)
  ]

  pub deny : R → ℕ → String → R × Bool
  deny r now device_code = elim (read r now device_code) [
    | none ↦ (r, false)
    | some p ↦
        if is_pending p.status
        then (write r now device_code (record p { status = denied }), true)
        else (r, false)
  ]

  pub poll : R → ℕ → String → R × Option Pairing
  poll r now device_code = elim (read r now device_code) [
    | none ↦ (r, none)
    | some p ↦ if is_pending p.status then (r, some p) else (
      let r' = redis.delete r (device_key device_code) in
          if p.user_code == "" then r' else redis.delete r' (user_code_key p.user_code),
      some p,
    )
  ]

-- ===== src/Auth/DevicePairing/Delivery.antt =====
-- A pairing from its approval to the delivery of its token.
use oc_piloci.Prelude.{
  ℕ, ◌+◌, ◌≤◌, ◌<◌, ◌≡◌, refl, ◌∙◌, ap, Option, none, some, List, true, false, String,
  if◌then◌else◌, ◌==◌, arith, eq_iff, eq_refl, Bool-cases, Option-cases, inl, inr,
}
use oc_piloci.Auth.Redis.{Redis, IsRedis, device_key, user_code_key, keys_differ'}
use oc_piloci.Auth.DevicePairing.{
  pending, approved, Pairing, Codec, IsCodec, is_pending, read, write, lookup_user_code, approve,
  deny, poll, device_ttl_sec, or_else,
}

-- What `approve` writes over a pending pairing.
abbrev pub answered : Pairing → String → Option (List String) → Pairing
answered p token targets = record p {
  status = approved;
  token = some token;
  targets = or_else targets p.targets;
}

module _ {R V : Type 0} {redis : Redis R V} {codec : Codec V} (laws : IsRedis redis)
    (coding : IsCodec codec) where
  pub read-write :
      (r : R) (now later : ℕ) (dc : String) (p : Pairing)
      → now ≤ later
      → later < now + device_ttl_sec
      → (dc == "") ≡ false
      → read redis codec (write redis codec r now dc p) later dc ≡ some p
  unfolding read
  read-write r now later dc p h l n = ground (
    arith,
    laws.get-set r now later (device_key dc) (device_key dc) (codec.dumps p) device_ttl_sec h,
    eq_refl (device_key dc),
    coding.loads-dumps p,
  )

  read-nonempty :
      (r : R) (now : ℕ) (dc : String) (p : Pairing)
      → read redis codec r now dc ≡ some p
      → (dc == "") ≡ false
  unfolding read
  read-nonempty r now dc p e = ground arith

  approve_pending :
      (r : R) (now : ℕ) (dc token : String) (targets : Option (List String)) (p : Pairing)
      → read redis codec r now dc ≡ some p
      → is_pending p.status ≡ true
      → approve redis codec r now dc token targets
        ≡ (write redis codec r now dc (answered p token targets), true)
  unfolding approve
  approve_pending r now dc token targets p e s = rw (e, approve) (rw s)

  approve_inverse :
      (r : R) (now : ℕ) (dc token : String) (targets : Option (List String))
      → (approve redis codec r now dc token targets).1 ≡ true
      → (p : Pairing) × (read redis codec r now dc ≡ some p) × (is_pending p.status ≡ true)
  unfolding approve
  approve_inverse r now dc token targets a = elim (Option-cases (read redis codec r now dc)) [
    | inl e ↦ absurd (ground (arith))
    | inr (p, e) ↦ (p, e, ground arith)
  ]

  approve_settled :
      (r : R) (now : ℕ) (dc token : String) (targets : Option (List String)) (p : Pairing)
      → read redis codec r now dc ≡ some p
      → is_pending p.status ≡ false
      → (approve redis codec r now dc token targets ≡ (r, false))
        × (deny redis codec r now dc ≡ (r, false))
  unfolding approve deny
  approve_settled r now dc token targets p e s = (rw (e, approve) (rw s), rw (e, deny) (rw s))

  -- Once a pairing is approved, and while it can be read, further approvals and denials fail and
  -- leave the store as it is.
  pub settled_once :
      (r : R) (now later : ℕ) (dc token token' : String) (targets targets' : Option (List String))
      → now ≤ later
      → later < now + device_ttl_sec
      → (approve redis codec r now dc token targets).1 ≡ true
      → let r' = (approve redis codec r now dc token targets).0 in
        (approve redis codec r' later dc token' targets' ≡ (r', false))
        × (deny redis codec r' later dc ≡ (r', false))
  settled_once r now later dc token token' targets targets' h l a =
      let (p, e, s) = approve_inverse r now dc token targets a in
      let w : R = write redis codec r now dc (answered p token targets) in
      rw (approve_pending r now dc token targets p e s) (
        approve_settled w later dc token' targets' (answered p token targets)
          (read-write r now later dc (answered p token targets) h l (read-nonempty r now dc p e))
          refl)

  -- What an approval of a pending pairing puts there, the next poll within the time to live
  -- returns: the pairing, approved, with the token and the chosen targets.
  pub poll-approve :
      (r : R) (now later : ℕ) (dc token : String) (targets : Option (List String)) (p : Pairing)
      → now ≤ later
      → later < now + device_ttl_sec
      → read redis codec r now dc ≡ some p
      → p.status ≡ pending
      → ((approve redis codec r now dc token targets).1 ≡ true)
        × ((poll redis codec (approve redis codec r now dc token targets).0 later dc).1
            ≡ some (answered p token targets))
  unfolding poll
  poll-approve r now later dc token targets p h l e s =
      rw (approve_pending r now dc token targets p e (ap is_pending s)) (
        refl,
        rw
            (
              read-write r now later dc (answered p token targets) h l (read-nonempty r now dc p e),
              poll,
            )
            refl,
      )

  -- A settled pairing that a poll returns is gone from the store.
  poll_settled :
      (r : R) (now : ℕ) (dc : String) (p : Pairing)
      → (poll redis codec r now dc).1 ≡ some p
      → is_pending p.status ≡ false
      → (poll redis codec r now dc).0 ≡ (
          let r' = redis.delete r (device_key dc) in
          if p.user_code == "" then r' else redis.delete r' (user_code_key p.user_code))
  unfolding poll
  poll_settled r now dc p e s = elim (Option-cases (read redis codec r now dc)) [
    | inl n ↦ absurd (ground arith)
    | inr (q, n) ↦ ground arith
  ]

  read_deleted :
      (r : R) (later : ℕ) (dc : String)
      → redis.get r later (device_key dc) ≡ none
      → read redis codec r later dc ≡ none
  unfolding read
  read_deleted r later dc e = ground arith

  poll_nothing :
      (r : R) (later : ℕ) (dc : String)
      → read redis codec r later dc ≡ none
      → (poll redis codec r later dc).1 ≡ none
  unfolding poll
  poll_nothing r later dc e = rw (e, poll)

  lookup_nothing :
      (r : R) (later : ℕ) (uc : String)
      → (uc == "") ≡ false
      → redis.get r later (user_code_key uc) ≡ none
      → lookup_user_code redis codec r later uc ≡ none
  unfolding lookup_user_code
  lookup_nothing r later uc n e = rw (e, lookup_user_code) (ground arith)

  lookup_empty : (r : R) (later : ℕ) → lookup_user_code redis codec r later "" ≡ none
  unfolding lookup_user_code
  lookup_empty r later = refl

  -- An answer is delivered once: after a poll that returned a settled pairing, a poll of its device
  -- code and a lookup of its user code find nothing, at any time.
  pub poll_once :
      (r : R) (now later : ℕ) (dc : String) (p : Pairing)
      → (poll redis codec r now dc).1 ≡ some p
      → is_pending p.status ≡ false
      → ((poll redis codec (poll redis codec r now dc).0 later dc).1 ≡ none)
        × (lookup_user_code redis codec (poll redis codec r now dc).0 later p.user_code ≡ none)
  poll_once r now later dc p e s = elim (Bool-cases (p.user_code == "")) [
    | inl n ↦
        rw (poll_settled r now dc p e s, n)
          (
            poll_nothing _ later dc (
                read_deleted _ later dc (
                  laws.get-delete r later (device_key dc) (device_key dc)
                  ∙ rw (eq_refl (device_key dc)))),
            rw ((eq_iff p.user_code "").0 n) (lookup_empty _ later),
          )
    | inr n ↦
        let u : String = user_code_key p.user_code in
        let r' : R = redis.delete r (device_key dc) in
        rw (poll_settled r now dc p e s, n)
          (
            poll_nothing _ later dc (
                read_deleted _ later dc (
                  laws.get-delete r' later u (device_key dc)
                  ∙ rw (
                    keys_differ' dc p.user_code,
                    laws.get-delete r later (device_key dc) (device_key dc),
                    eq_refl (device_key dc),
                  ))),
            lookup_nothing _ later p.user_code n (laws.get-delete r' later u u ∙ rw (eq_refl u)),
          )
  ]

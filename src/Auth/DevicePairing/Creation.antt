-- ===== src/Auth/DevicePairing/Creation.antt =====
-- A pairing from its creation to its lookup by the user code.
use oc_piloci.Prelude.{
  ℕ, ◌+◌, ◌≤◌, ◌<◌, ◌≡◌, ◌∙◌, Option, none, some, List, [], ◌∷◌, false, String, take, ◌==◌, eq_refl,
  Option-cases, inl, inr, lt→ltb,
}
use oc_piloci.Auth.Redis.{Redis, IsRedis, device_key, user_code_key, keys_differ}
use oc_piloci.Auth.DevicePairing.{
  Pairing, Codec, IsCodec, write, create, attempts, created, lookup_user_code, device_ttl_sec,
}
use oc_piloci.Auth.DevicePairing.Delivery.{read-write}

module _ {R V : Type 0} {redis : Redis R V} {codec : Codec V} (laws : IsRedis redis)
    (coding : IsCodec codec) where
  stored :
      (r : R) (now later : ℕ) (detected : Option (List String)) (dc uc : String)
      → now ≤ later
      → later < now + device_ttl_sec
      → (dc == "") ≡ false
      → (uc == "") ≡ false
      → lookup_user_code redis codec
          (write redis codec
            (redis.set r now (user_code_key uc) (codec.encode dc) device_ttl_sec)
            now
            dc
            (created redis codec uc detected))
          later
          uc
        ≡ some (dc, created redis codec uc detected)
  unfolding lookup_user_code
  stored r now later detected dc uc h l nd nu =
      let r' : R = redis.set r now (user_code_key uc) (codec.encode dc) device_ttl_sec in
      let p : Pairing = created redis codec uc detected in
      let found : redis.get (write redis codec r' now dc p) later (user_code_key uc)
          ≡ some (codec.encode dc) =
        laws.get-set r' now later (device_key dc) (user_code_key uc) (codec.dumps p) device_ttl_sec
          h
        ∙ rw (
          keys_differ dc uc,
          laws.get-set r now later (user_code_key uc) (user_code_key uc) (codec.encode dc)
              device_ttl_sec h,
          eq_refl (user_code_key uc),
          lt→ltb _ _ l,
        ) in
      rw (nu, found, lookup_user_code)
        (rw (coding.decode-encode dc, read-write laws coding r' now later dc p h l nd)
          (rw (coding.decode-encode dc)))

  taken :
      (r : R) (now : ℕ) (detected : Option (List String)) (dc uc : String)
      (codes : List (String × String))
      → redis.get r now (user_code_key uc) ≡ none
      → attempts redis codec r now detected ((dc, uc) ∷ codes) ≡ (
        write redis codec
            (redis.set r now (user_code_key uc) (codec.encode dc) device_ttl_sec)
            now
            dc
            (created redis codec uc detected),
        some (dc, uc),
      )
  unfolding attempts
  taken r now detected dc uc codes e =
      rw (laws.set_nx_lem r now (user_code_key uc) (codec.encode dc) device_ttl_sec) (rw e)

  skipped :
      (r : R) (now : ℕ) (detected : Option (List String)) (dc uc : String)
      (codes : List (String × String)) (w : V)
      → redis.get r now (user_code_key uc) ≡ some w
      → attempts redis codec r now detected ((dc, uc) ∷ codes)
        ≡ attempts redis codec r now detected codes
  unfolding attempts
  skipped r now detected dc uc codes w e =
      rw (laws.set_nx_lem r now (user_code_key uc) (codec.encode dc) device_ttl_sec) (rw e)

  attempts-lookup :
      (r : R) (now later : ℕ) (detected : Option (List String)) (codes : List (String × String))
      (dc uc : String)
      → now ≤ later
      → later < now + device_ttl_sec
      → (dc == "") ≡ false
      → (uc == "") ≡ false
      → (attempts redis codec r now detected codes).1 ≡ some (dc, uc)
      → lookup_user_code redis codec (attempts redis codec r now detected codes).0 later uc
        ≡ some (dc, created redis codec uc detected)
  attempts-lookup r now later detected [] dc uc h l nd nu e = absurd (unfold attempts in cc e)
  attempts-lookup r now later detected ((dc', uc') ∷ codes) dc uc h l nd nu e =
      elim (Option-cases (redis.get r now (user_code_key uc'))) [
        | inl f ↦
            let same : some (dc', uc') ≡ some (dc, uc) =
              rw (taken r now detected dc' uc' codes f) at e in
            let same_dc : dc' ≡ dc = cc same in
            let same_uc : uc' ≡ uc = cc same in
            rw (taken r now detected dc' uc' codes f)
              (rw (same_dc, same_uc) (stored r now later detected dc uc h l nd nu))
        | inr (w, f) ↦ rw (skipped r now detected dc' uc' codes w f) (
            attempts-lookup r now later detected codes dc uc h l nd nu
              (rw (skipped r now detected dc' uc' codes w f) at e))
      ]

  -- The codes that `create` returns, if they are not empty, lead from the user code to the device
  -- code and a pending pairing with the detected clients, until the time to live is over.
  pub create-lookup :
      (r : R) (now later : ℕ) (detected : Option (List String)) (codes : List (String × String))
      (dc uc : String)
      → now ≤ later
      → later < now + device_ttl_sec
      → (dc == "") ≡ false
      → (uc == "") ≡ false
      → (create redis codec r now detected codes).1 ≡ some (dc, uc)
      → lookup_user_code redis codec (create redis codec r now detected codes).0 later uc
        ≡ some (dc, created redis codec uc detected)
  unfolding create
  create-lookup r now later detected codes dc uc h l nd nu e =
      attempts-lookup r now later detected (take 8 codes) dc uc h l nd nu e

-- ===== src/Auth/InstallPairing/Once.antt =====
-- An install code is good for one use.
use oc_piloci.Prelude.{
  ℕ, ◌+◌, ◌<◌, ◌≤◌, ◌≡◌, ◌∙◌, ap, none, some, false, String, ◌==◌, if◌then◌else◌, arith, eq_refl,
  Bool-cases, inl, inr,
}
use oc_piloci.Auth.Redis.{Redis, IsRedis, append_iff}
use oc_piloci.Auth.InstallPairing.{
  InstallCodec, IsInstallCodec, install_key, install_code_ttl_sec, create_install, payload_of,
  pairing_of, consume,
}

module _ {R V : Type 0} (redis : Redis R V) (codec : InstallCodec V) (laws : IsRedis redis)
    (codec_laws : IsInstallCodec codec) where
  -- Within ten minutes a code that was created, and is not empty, gives its token and address to the
  -- first who asks, and nothing to whoever asks after that, at any time; other codes are as before.
  pub consume-create_install :
      (install_code token base_url : String) (r : R) (now later : ℕ)
      → (install_code == "") ≡ false
      → now ≤ later
      → later < now + install_code_ttl_sec
      → let first =
          consume redis codec install_code
            (create_install redis codec install_code token base_url r now)
            later in
        (first.1 ≡ some (token, base_url))
        × ((t : ℕ) (other : String)
            → (consume redis codec other first.0 t).1 ≡ (
                if install_code == other
                then none
                else (consume redis codec other
                    (create_install redis codec install_code token base_url r now)
                    t).1))
  unfolding create_install consume
  consume-create_install install_code token base_url r now later n o l = (
    rw n (
        ap (payload_of redis codec) found
        ∙ ap pairing_of
            (codec_laws.loads-dumps (record { token = some token; base_url = some base_url }))),
    λ t other. rw n (after t other),
  )
    where
      found :
          redis.get
            (create_install redis codec install_code token base_url r now)
            later
            (install_key install_code)
          ≡ some (codec.dumps (record { token = some token; base_url = some base_url }))
      found =
          laws.get-set r now later (install_key install_code) (install_key install_code)
            (codec.dumps (record { token = some token; base_url = some base_url }))
            install_code_ttl_sec o
          ∙ ground (arith, eq_refl (install_key install_code), l)

      after :
          (t : ℕ) (other : String)
          → (consume redis codec other
              (redis.delete
                (create_install redis codec install_code token base_url r now)
                (install_key install_code))
              t).1
            ≡ (if install_code == other
                then none
                else (consume redis codec other
                    (create_install redis codec install_code token base_url r now)
                    t).1)
      after t other = elim (Bool-cases (other == "")) [
        | inl e ↦ rw e (ground arith)
        | inr e ↦ rw e (
            ap (payload_of redis codec) (
              laws.get-delete (create_install redis codec install_code token base_url r now) t
                (install_key install_code) (install_key other))
            ∙ ground (arith, append_iff "install:" install_code other))
      ]

-- ===== src/Auth/InstallPairing.antt =====
-- auth/install_pairing.py: one-time install codes. Redis and the JSON codec are parameters; the code
-- that is drawn comes in. `loads` gives `none` where the parser raises, `some none` for no dict.
pub mod Once
mod Examples
use Prim.Native.String.{◌++◌ as str_append}
use oc_piloci.Prelude.{ℕ, ◌*◌, ◌≡◌, Option, none, some, String, ◌==◌, if◌then◌else◌}
use oc_piloci.Auth.Redis.{Redis}

-- The payload: the texts under "token" and "base_url".
pub record Install : Type 0 where
  pub token : Option String
  pub base_url : Option String

pub record InstallCodec (V : Type 0) : Type 0 where
  pub dumps : Install → V
  pub loads : V → Option (Option Install)

pub record IsInstallCodec {V : Type 0} (codec : InstallCodec V) : Type 0 where
  pub loads-dumps : (i : Install) → codec.loads (codec.dumps i) ≡ some (some i)

abbrev pub install_key : String → String
install_key install_code = str_append "install:" install_code

abbrev pub install_code_ttl_sec : ℕ
install_code_ttl_sec = 10 * 60

-- `data.get(key, "")`
abbrev pub or_blank : Option String → String
or_blank none = ""
or_blank (some s) = s

abbrev pub pairing_of : Option (Option Install) → Option (String × String)
pairing_of none = none
pairing_of (some none) = none
pairing_of (some (some i)) = some (or_blank i.token, or_blank i.base_url)

module _ {R V : Type 0} (redis : Redis R V) (codec : InstallCodec V) where
  unfoldable pub create_install : String → String → String → R → ℕ → R
  create_install install_code token base_url r now =
      redis.set r now (install_key install_code)
        (codec.dumps (record { token = some token; base_url = some base_url })) install_code_ttl_sec

  -- The token and the address of what was parsed.
  abbrev pub payload_of : Option V → Option (String × String)
  payload_of none = none
  payload_of (some raw) = pairing_of (codec.loads raw)

  -- GETDEL, or GET and DEL in one transaction: both read the value and then delete it.
  unfoldable pub consume : String → R → ℕ → R × Option (String × String)
  consume install_code r now = if install_code == "" then (r, none) else (
    redis.delete r (install_key install_code),
    payload_of (redis.get r now (install_key install_code)),
  )

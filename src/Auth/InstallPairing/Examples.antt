-- ===== src/Auth/InstallPairing/Examples.antt =====
-- One code, used twice.
use oc_piloci.Prelude.{ℕ, ◌≡◌, refl, Option, none, some, String, ◌==◌, if◌then◌else◌, arith}
use oc_piloci.Auth.Redis.Memory.{memory, memory-IsRedis}
use oc_piloci.Auth.InstallPairing.{Install, InstallCodec, IsInstallCodec, create_install, consume}
use oc_piloci.Auth.InstallPairing.Once.{consume-create_install}

abbrev plain_codec : InstallCodec Install
plain_codec = record { dumps = λ i. i; loads = λ i. some (some i) }

plain_codec-IsInstallCodec : IsInstallCodec plain_codec
plain_codec-IsInstallCodec = record { loads-dumps = λ i. refl }

abbrev no_values : String → Option (Install × ℕ)
no_values k = none

consume-create_install_example :
    let first =
      consume memory plain_codec "c"
        (create_install memory plain_codec "c" "t" "u" no_values 100)
        200 in
    (first.1 ≡ some ("t", "u"))
    × ((t : ℕ) (other : String)
        → (consume memory plain_codec other first.0 t).1 ≡ (
            if "c" == other
            then none
            else (consume memory plain_codec other
                (create_install memory plain_codec "c" "t" "u" no_values 100)
                t).1))
consume-create_install_example =
    consume-create_install memory plain_codec memory-IsRedis plain_codec-IsInstallCodec "c" "t" "u"
      no_values 100 200 refl (omega arith) (omega arith)

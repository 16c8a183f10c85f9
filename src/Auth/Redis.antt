-- ===== src/Auth/Redis.antt =====
-- Redis, as the stores use it: values with a time to live under text keys. The service is a
-- parameter; a key is a prefix and a name.
pub mod Memory
use Prim.Native.String.{◌++◌ as str_append}
use Prim.Native.Char.{Char, code}
use text.Mathlib.TextLemmas.{append_cancel_left, cons-append, append_assoc, head-eq_of_cons-eq}
use oc_piloci.Prelude.{
  ℕ, ◌+◌, ◌≤◌, ◌≡◌, ◌≢◌, Option, none, some, Bool, true, false, String, ltb, if◌then◌else◌, ◌==◌,
  arith, eq_iff, refl, ap, sym, ◌∙◌, eq_refl, Bool-cases, inl, inr,
}

pub record Redis (R V : Type 0) : Type 0 where
  -- `get(key)` at a time
  pub get : R → ℕ → String → Option V
  -- `set(key, value, ex=ttl)` at a time
  pub set : R → ℕ → String → V → ℕ → R
  -- `set(key, value, ex=ttl, nx=True)`: whether the key was free.
  pub set_nx : R → ℕ → String → V → ℕ → R × Bool
  pub delete : R → String → R

-- What Redis documents: a value can be read until its time to live is over, or it is deleted.
pub record IsRedis {R V : Type 0} (redis : Redis R V) : Type 0 where
  pub get-set :
      (r : R) (now later : ℕ) (k j : String) (v : V) (ttl : ℕ)
      → now ≤ later
      → redis.get (redis.set r now k v ttl) later j
        ≡ (if k == j then (if ltb later (now + ttl) then some v else none) else redis.get r later j)
  pub get-delete :
      (r : R) (now : ℕ) (k j : String)
      → redis.get (redis.delete r k) now j ≡ (if k == j then none else redis.get r now j)
  pub set_nx_lem :
      (r : R) (now : ℕ) (k : String) (v : V) (ttl : ℕ)
      → redis.set_nx r now k v ttl ≡ (elim (redis.get r now k) [
        | none ↦ (redis.set r now k v ttl, true)
        | some w ↦ (r, false)
      ])

pub not_equal : (s t : String) → s ≢ t → (s == t) ≡ false
not_equal s t h = elim (Bool-cases (s == t)) [ inl e ↦ absurd (h ((eq_iff s t).0 e)) | inr e ↦ e ]

-- A key is determined by its name, under one prefix.
pub append_iff : (p x y : String) → (str_append p x == str_append p y) ≡ (x == y)
append_iff p x y = elim (Bool-cases (x == y)) [
  | inl e ↦ rw (e, (eq_iff x y).0 e) (eq_refl (str_append p y))
  | inr e ↦ rw e (
      not_equal (str_append p x) (str_append p y)
        (λ h. grind (arith, eq_iff x y, append_cancel_left p x y h)))
]

pub first_char :
    (a b : Char) (x y : String)
    → str_append (String.◌∷◌ a String.[]) x ≡ str_append (String.◌∷◌ b String.[]) y
    → a ≡ b
first_char a b x y e = head-eq_of_cons-eq (sym (cons-append a "" x) ∙ e ∙ cons-append b "" y)

-- No device code makes the key of a user code.
device_keys_apart : (x y : String) → str_append "device:" x ≢ str_append "device_user:" y
device_keys_apart x y e = absurd (
    omega (
      arith,
      ap code (first_char ":" "_" x (str_append "user:" y) (rest ∙ append_assoc "_" "user:" y)),
    ))
  where
    rest : str_append ":" x ≡ str_append "_user:" y
    rest =
        append_cancel_left "device" _ _
          (sym (append_assoc "device" ":" x) ∙ e ∙ append_assoc "device" "_user:" y)

-- The keys of the pairing records.
abbrev pub device_key : String → String
device_key device_code = str_append "device:" device_code

abbrev pub user_code_key : String → String
user_code_key user_code = str_append "device_user:" user_code

pub keys_differ : (x y : String) → (device_key x == user_code_key y) ≡ false
keys_differ x y = not_equal _ _ (device_keys_apart x y)

pub keys_differ' : (x y : String) → (user_code_key y == device_key x) ≡ false
keys_differ' x y = not_equal _ _ (λ e. device_keys_apart x y (sym e))

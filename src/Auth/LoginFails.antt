-- ===== src/Auth/LoginFails.antt =====
-- auth/session.py: the counters of `SessionStore`. Redis is a parameter, here with the commands on
-- counters; times are seconds.
pub mod Window
pub mod Store
mod Examples
use Prim.Native.String.{◌++◌ as str_append}
use oc_piloci.Prelude.{
  ℕ, ◌+◌, ◌≡◌, refl, Option, none, some, Bool, true, false, String, ltb, ◌=?◌, if◌then◌else◌, ◌==◌,
  arith,
}

-- A counter with the time when it ends, if it has one.
abbrev pub Entry : Type 0
Entry = Option (ℕ × Option ℕ)

-- What can be read of a counter at a time.
abbrev pub value : ℕ → Entry → Option ℕ
value now none = none
value now (some (n, none)) = some n
value now (some (n, some end)) = if ltb now end then some n else none

abbrev pub end_of : Entry → Option ℕ
end_of none = none
end_of (some (n, end)) = end

pub record Counters (R : Type 0) : Type 0 where
  -- What the server holds under a key.
  pub entry : R → String → Entry
  pub get : R → ℕ → String → Option ℕ
  pub incr : R → ℕ → String → R × ℕ
  pub expire : R → ℕ → String → ℕ → R
  pub delete : R → String → R

-- What Redis documents of GET, INCR, EXPIRE and DEL.
pub record IsCounters {R : Type 0} (redis : Counters R) : Type 0 where
  pub get_lem : (r : R) (now : ℕ) (k : String) → redis.get r now k ≡ value now (redis.entry r k)
  pub incr_result :
      (r : R) (now : ℕ) (k : String)
      → (redis.incr r now k).1 ≡ (elim (value now (redis.entry r k)) [ none ↦ 1 | some n ↦ n + 1 ])
  pub entry-incr :
      (r : R) (now : ℕ) (k j : String)
      → redis.entry (redis.incr r now k).0 j ≡ (
          if k == j
          then (elim (value now (redis.entry r k)) [
            | none ↦ some (1, none)
            | some n ↦ some (n + 1, end_of (redis.entry r k))
          ])
          else redis.entry r j)
  pub entry-expire :
      (r : R) (now : ℕ) (k j : String) (ttl : ℕ)
      → redis.entry (redis.expire r now k ttl) j ≡ (
          if k == j
          then (elim (value now (redis.entry r k)) [
            | none ↦ redis.entry r k
            | some n ↦ some (n, some (now + ttl))
          ])
          else redis.entry r j)
  pub entry-delete :
      (r : R) (k j : String)
      → redis.entry (redis.delete r k) j ≡ (if k == j then none else redis.entry r j)

abbrev pub login_fail_ttl : ℕ
login_fail_ttl = 900

abbrev pub ratelimit_ttl : ℕ
ratelimit_ttl = 60

abbrev pub login_fail_key : String → String
login_fail_key email = str_append "login_fail:" email

abbrev pub ratelimit_key : String → String
ratelimit_key ip = str_append "ratelimit:login:" ip

module _ {R : Type 0} (redis : Counters R) where
  -- INCR, and EXPIRE on the first count.
  pub count_up : R → ℕ → String → ℕ → R × ℕ
  count_up r now key ttl =
      let c = redis.incr r now key in (if c.1 =? 1 then redis.expire c.0 now key ttl else c.0, c.1)

  pub record_login_fail : R → ℕ → String → R × ℕ
  unfolding count_up
  record_login_fail r now email = count_up r now (login_fail_key email) login_fail_ttl

  pub clear_login_fails : R → String → R
  clear_login_fails r email = redis.delete r (login_fail_key email)

  unfoldable pub get_login_fails : R → ℕ → String → ℕ
  get_login_fails r now email = elim (redis.get r now (login_fail_key email)) [
    | none ↦ 0
    | some n ↦ n
  ]

  pub record_ratelimit : R → ℕ → String → R × ℕ
  unfolding count_up
  record_ratelimit r now ip = count_up r now (ratelimit_key ip) ratelimit_ttl

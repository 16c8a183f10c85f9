-- ===== src/Auth/Local.antt =====
-- auth/local.py: `_validate_password` and `login`. The database, the counters of the
-- session store, the hashes of passwords, the codes of the second factor and the issuing of a
-- session are parameters; texts are lists of code points where characters are read. A function
-- returns the state that it leaves with its result or the exception that it raises.
pub mod Access
pub mod Signup
mod Examples
use oc_piloci.Prelude.{
  ℕ, Option, none, some, List, [], ◌∷◌, Bool, true, false, not, ◌&&◌, ◌||◌, String, ◌==◌, leb, ltb,
  ◌=?◌, if◌then◌else◌, length, any, Result, ok, err,
}
use oc_piloci.Db.{Sql}
use oc_piloci.Auth.LoginFails.{Counters, get_login_fails, record_login_fail, clear_login_fails}

pub data AuthError : Type 0 where
  account_locked invalid_credentials weak_password email_exists totp_required invalid_totp
        approval_pending approval_rejected :
      AuthError
  -- `MultipleResultsFound` of SQLAlchemy's `scalar_one_or_none`.
  multiple_results : AuthError

pub data Approval : Type 0 where
  pending approved rejected : Approval

-- The columns of an account that a login reads or returns.
pub record User : Type 0 where
  pub id : String
  pub email : String
  pub name : Option String
  pub password_hash : Option String
  pub approval_status : Approval
  pub is_admin : Bool
  pub totp_enabled : Bool
  pub totp_secret : Option String

-- Two columns of an audit log.
pub record AuditLog : Type 0 where
  pub user_id : String
  pub action : String

-- What the functions change.
pub record Site (U R S : Type 0) : Type 0 where
  pub users : U
  pub counters : R
  pub sessions : S
  pub audit : List AuditLog

-- The libraries behind passwords and second factors.
pub record Secrets : Type 0 where
  pub verify_password : String → String → Bool
  pub needs_rehash : String → Bool
  pub hash_password : String → String
  pub verify_totp : Option String → String → Bool

abbrev pub max_login_attempts : ℕ
max_login_attempts = 5

abbrev pub min_password_len : ℕ
min_password_len = 12

-- `[A-Z]` and `[a-z]`
abbrev pub is_upper : ℕ → Bool
is_upper c = leb b'A' c && leb c b'Z'

abbrev pub is_lower : ℕ → Bool
is_lower c = leb b'a' c && leb c b'z'

-- `is_digit` is the `\d` of Python's regular expressions.
pub validate_password : (ℕ → Bool) → List ℕ → Option AuthError
validate_password is_digit password =
    if ltb (length password) min_password_len
    then some weak_password
    else if not (any is_upper password)
    then some weak_password
    else if not (any is_lower password)
    then some weak_password
    else if not (any is_digit password)
    then some weak_password
    else none

-- `user.password_hash or ""`
abbrev pub hash_of : User → String
hash_of u = elim u.password_hash [ none ↦ "" | some h ↦ h ]

abbrev pub is_pending : Approval → Bool
is_pending pending = true
is_pending approved = false
is_pending rejected = false

abbrev pub is_rejected : Approval → Bool
is_rejected rejected = true
is_rejected pending = false
is_rejected approved = false

-- `not totp_code`
abbrev pub no_code : Option String → Bool
no_code none = true
no_code (some c) = c == ""

abbrev pub code_of : Option String → String
code_of none = ""
code_of (some c) = c

abbrev pub logged : {U R S : Type 0} → String → String → Site U R S → Site U R S
logged user_id action s = record s {
  audit = record { user_id = user_id; action = action } ∷ s.audit;
}

module _ {U R S : Type 0} (sql : Sql U User) (redis : Counters R) (secrets : Secrets)
    (create_session : S → ℕ → User → S × String) where
  open secrets use {verify_password, needs_rehash, hash_password, verify_totp}

  -- `scalar_one_or_none` of the users with an address.
  abbrev pub one_or_none : List User → Result AuthError (Option User)
  one_or_none [] = ok none
  one_or_none (u ∷ []) = ok (some u)
  one_or_none (u ∷ v ∷ us) = err multiple_results

  abbrev pub user_by_email : String → U → Result AuthError (Option User)
  user_by_email email users = one_or_none (sql.select (λ u. u.email == email) [] users)

  -- A failure that is counted, and logged if the account exists.
  abbrev count_fail : ℕ → String → Site U R S → Site U R S
  count_fail now email s = record s { counters = (record_login_fail redis s.counters now email).0 }

  -- From `clear_login_fails` to the end.
  abbrev succeed :
      ℕ → String → String → User → Site U R S → Site U R S × Result AuthError (User × String)
  succeed now email password u s =
      let u' : User =
        if needs_rehash (hash_of u)
        then record u { password_hash = some (hash_password password) }
        else u in
      let users : U =
        if needs_rehash (hash_of u)
        then sql.update (λ v. v.id == u.id)
            (λ v. record v { password_hash = some (hash_password password) }) s.users
        else s.users in
      let issued = create_session s.sessions now u' in
      (
        logged u.id "login_success" (record s {
          users = users;
          counters = clear_login_fails redis s.counters email;
          sessions = issued.0;
        }),
        ok (u', issued.1),
      )

  -- The checks of an account that was found.
  abbrev admit :
      ℕ
      → String
      → String
      → Option String
      → User
      → Site U R S
      → Site U R S × Result AuthError (User × String)
  admit now email password totp_code u s =
      if not (verify_password password (hash_of u))
      then (logged u.id "login_fail" (count_fail now email s), err invalid_credentials)
      else if is_pending u.approval_status
      then (s, err approval_pending)
      else if is_rejected u.approval_status
      then (s, err approval_rejected)
      else if u.totp_enabled && no_code totp_code
      then (s, err totp_required)
      else if u.totp_enabled && not (verify_totp u.totp_secret (code_of totp_code))
      then (logged u.id "login_fail_totp" (count_fail now email s), err invalid_totp)
      else succeed now email password u s

  pub login :
      ℕ
      → String
      → String
      → Option String
      → Site U R S
      → Site U R S × Result AuthError (User × String)
  login now email password totp_code s =
      if leb max_login_attempts (get_login_fails redis s.counters now email)
      then (s, err account_locked)
      else elim (user_by_email email s.users) [
        | err e ↦ (s, err e)
        | ok none ↦ (count_fail now email s, err invalid_credentials)
        | ok (some u) ↦ admit now email password totp_code u s
      ]

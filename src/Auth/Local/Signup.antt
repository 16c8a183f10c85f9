-- ===== src/Auth/Local/Signup.antt =====
-- auth/local.py: `signup`. The characters of a text, Python's `\d` and the new id come in.
use oc_piloci.Prelude.{
  ℕ, ◌≡◌, refl, ap, ◌∙◌, none, some, List, [], ◌∷◌, ◌++◌, Bool, true, false, String, ◌=?◌,
  if◌then◌else◌, Result, ok, err,
}
use oc_piloci.Db.{Sql, IsSql, count_if}
use oc_piloci.Auth.LoginFails.{Counters}
use oc_piloci.Auth.Local.{
  AuthError, email_exists, User, Site, Secrets, approved, pending, validate_password, user_by_email,
  logged,
}

module _ {U R S : Type 0} (sql : Sql U User) (redis : Counters R) (secrets : Secrets)
    (create_session : S → ℕ → User → S × String) (is_digit : ℕ → Bool)
    (chars : String → List ℕ) where
  -- The row that is added: the first account is an approved administrator.
  abbrev pub new_user : String → String → String → String → U → User
  new_user new_id email password name users =
      let is_first_user = sql.count (λ u. true) users =? 0 in
      record {
        id = new_id;
        email = email;
        name = some name;
        password_hash = some (secrets.hash_password password);
        approval_status = if is_first_user then approved else pending;
        is_admin = is_first_user;
        totp_enabled = false;
        totp_secret = none;
      }

  pub signup : String → String → String → String → Site U R S → Site U R S × Result AuthError User
  signup new_id email password name s = elim (validate_password is_digit (chars password)) [
    | some e ↦ (s, err e)
    | none ↦ elim (user_by_email sql redis secrets create_session email s.users) [
      | err e ↦ (s, err e)
      | ok (some u) ↦ (s, err email_exists)
      | ok none ↦
          let u = new_user new_id email password name s.users in
          (logged new_id "signup" (record s { users = sql.insert u s.users }), ok u)
    ]
  ]

  module _ (laws : IsSql sql) where
    -- An account that signs up with a password that meets the policy and an address that is free
    -- is added after the others, with its password hashed: the very first one as an approved
    -- administrator, every later one pending and no administrator.
    pub signup_lem :
        (new_id email password name : String) (s : Site U R S) (first : Bool)
        → validate_password is_digit (chars password) ≡ none
        → user_by_email sql redis secrets create_session email s.users ≡ ok none
        → (count_if (λ u. true) (sql.rows s.users) =? 0) ≡ first
        → let r = signup new_id email password name s in
          (u : User) × (r.1 ≡ ok u)
          × (sql.rows r.0.users ≡ sql.rows s.users ++ u ∷ [])
          × (u.email ≡ email)
          × (u.password_hash ≡ some (secrets.hash_password password))
          × (u.is_admin ≡ first)
          × (u.approval_status ≡ (if first then approved else pending))
    unfolding signup
    signup_lem new_id email password name s first p e f =
        rw (p, signup)
          (rw (e, signup)
            (
              new_user new_id email password name s.users,
              refl,
              laws.rows-insert _ s.users,
              refl,
              refl,
              counted,
              ap (λ (b : Bool). if b then approved else pending) counted,
            ))
      where
        counted : (sql.count (λ u. true) s.users =? 0) ≡ first
        counted = ap (λ (n : ℕ). n =? 0) (laws.count_lem (λ u. true) s.users) ∙ f

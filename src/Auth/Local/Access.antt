-- ===== src/Auth/Local/Access.antt =====
-- Who gets in, and what guessing a password leads to.
use oc_piloci.Prelude.{
  ℕ, suc, ◌+◌, ◌≤◌, ◌<◌, ◌≡◌, refl, ◌∙◌, ap, min, Option, none, some, List, [], ◌∷◌, Bool, true,
  false, not, ◌&&◌, ◌||◌, String, leb, ltb, if◌then◌else◌, length, All, Result, ok, err, arith,
  Bool-cases, inl, inr, lt→ltb,
}
use oc_piloci.Db.{Sql}
use oc_piloci.Auth.LoginFails.{
  Counters, IsCounters, get_login_fails, record_login_fail, login_fail_key, login_fail_ttl,
}
use oc_piloci.Auth.LoginFails.Window.{record_first, record_next, get-entry}
use oc_piloci.Auth.Local.{
  AuthError, account_locked, User, Site, Secrets, hash_of, is_pending, is_rejected, no_code,
  code_of, user_by_email, login,
}

abbrev pub is_ok : {A : Type 0} → Result AuthError A → Bool
is_ok (ok a) = true
is_ok (err e) = false

-- The account, the password and the second factor are in order.
abbrev pub in_order : Secrets → String → Option String → Result AuthError (Option User) → Bool
in_order secrets password totp_code (err e) = false
in_order secrets password totp_code (ok none) = false
in_order secrets password totp_code (ok (some u)) =
    secrets.verify_password password (hash_of u)
    && not (is_pending u.approval_status)
    && not (is_rejected u.approval_status)
    && (not u.totp_enabled
        || (not (no_code totp_code) && secrets.verify_totp u.totp_secret (code_of totp_code)))

-- A password that is not that of the account, if there is one.
abbrev pub IsWrong : Secrets → String → Option User → Type 0
IsWrong secrets password none = Unit
IsWrong secrets password (some u) = secrets.verify_password password (hash_of u) ≡ false

-- One try to log in.
pub record Try : Type 0 where
  pub now : ℕ
  pub password : String
  pub totp_code : Option String

module _ {U R S : Type 0} (sql : Sql U User) (redis : Counters R) (secrets : Secrets)
    (create_session : S → ℕ → User → S × String) (email : String) where
  abbrev enter :
      ℕ → String → Option String → Site U R S → Site U R S × Result AuthError (User × String)
  enter now password totp_code s =
      login sql redis secrets create_session now email password totp_code s

  -- The tries in turn.
  pub tries : List Try → Site U R S → Site U R S
  tries [] s = s
  tries (t ∷ ts) s = tries ts (enter t.now t.password t.totp_code s).0

  -- A login gives a session exactly if fewer than five failures are counted, the address has one
  -- account, the password is its password, it is neither pending nor rejected, and the second
  -- factor, where it is enabled, is given and valid.
  pub is_ok-login :
      (now : ℕ) (password : String) (totp_code : Option String) (s : Site U R S)
      → is_ok (login sql redis secrets create_session now email password totp_code s).1 ≡ (
          ltb (get_login_fails redis s.counters now email) 5
          && in_order secrets password totp_code
              (user_by_email sql redis secrets create_session email s.users))
  unfolding login
  is_ok-login now password totp_code s =
      by_account (user_by_email sql redis secrets create_session email s.users) refl
    where
      by_account :
          (x : Result AuthError (Option User))
          → user_by_email sql redis secrets create_session email s.users ≡ x
          → is_ok (login sql redis secrets create_session now email password totp_code s).1 ≡ (
              ltb (get_login_fails redis s.counters now email) 5
              && in_order secrets password totp_code x)
      by_account (err e) h = rw (h, login) (ground arith)
      by_account (ok none) h = rw (h, login) (ground arith)
      by_account (ok (some u)) h = rw (h, login) (ground arith)

  -- A wrong try is counted, unless the address is locked; no account changes.
  wrong_try :
      (now : ℕ) (password : String) (totp_code : Option String) (s : Site U R S) (u : Option User)
      → user_by_email sql redis secrets create_session email s.users ≡ ok u
      → IsWrong secrets password u
      → let s' = (login sql redis secrets create_session now email password totp_code s).0 in
        (s'.users ≡ s.users)
        × (s'.counters ≡ (
            if leb 5 (get_login_fails redis s.counters now email)
            then s.counters
            else (record_login_fail redis s.counters now email).0))
  unfolding login
  wrong_try now password totp_code s none e w = rw (e, login) (ground arith, ground arith)
  wrong_try now password totp_code s (some u) e w = rw (e, login) (ground arith, ground arith)

  module _ (laws : IsCounters redis) where
    abbrev entry_of : Site U R S → Option (ℕ × Option ℕ)
    entry_of s = redis.entry s.counters (login_fail_key email)

    -- One wrong try in an open window.
    counted_try :
        (t : Try) (s : Site U R S) (u : Option User) (n end : ℕ)
        → entry_of s ≡ some (suc n, some end)
        → n < 5
        → user_by_email sql redis secrets create_session email s.users ≡ ok u
        → IsWrong secrets t.password u
        → t.now < end
        → entry_of (enter t.now t.password t.totp_code s).0 ≡ some (min 5 (suc (suc n)), some end)
    counted_try t s u n end e m a w h =
        elim (Bool-cases (leb 5 (get_login_fails redis s.counters t.now email))) [
          | inl full ↦
              ap (λ (r : R). redis.entry r (login_fail_key email))
                ((wrong_try t.now t.password t.totp_code s u a w).1 ∙ rw full)
              ∙ e
              ∙ ap (λ (x : ℕ). some (x, some end)) (ground (arith, shown))
          | inr free ↦
              ap (λ (r : R). redis.entry r (login_fail_key email))
                ((wrong_try t.now t.password t.totp_code s u a w).1 ∙ rw free)
              ∙ record_next laws s.counters t.now email n end e h
              ∙ ap (λ (x : ℕ). some (x, some end)) (ground (arith, shown))
        ]
      where
        shown : get_login_fails redis s.counters t.now email ≡ suc n
        shown = get-entry laws s.counters t.now email (suc n) end e ∙ rw (lt→ltb t.now end h)

    entry-tries :
        (ts : List Try) (s : Site U R S) (u : Option User) (n end : ℕ)
        → entry_of s ≡ some (suc n, some end)
        → n < 5
        → user_by_email sql redis secrets create_session email s.users ≡ ok u
        → All (λ t. IsWrong secrets t.password u × (t.now < end)) ts
        → entry_of (tries ts s) ≡ some (min 5 (suc n + length ts), some end)
    unfolding tries
    entry-tries [] s u n end e m a h = e ∙ ap (λ (x : ℕ). some (x, some end)) (ground arith)
    entry-tries (t ∷ ts) s u n end e m a h =
        let s' : Site U R S = (enter t.now t.password t.totp_code s).0 in
        let e' : entry_of s' ≡ some (suc (min 4 (suc n)), some end) =
          counted_try t s u n end e m a h.0.0 h.0.1
          ∙ ap (λ (x : ℕ). some (x, some end)) (omega arith) in
        let a' : user_by_email sql redis secrets create_session email s'.users ≡ ok u =
          ap (user_by_email sql redis secrets create_session email)
            (wrong_try t.now t.password t.totp_code s u a h.0.0).0
          ∙ a in
        entry-tries ts s' u (min 4 (suc n)) end e' (omega arith) a' h.1
        ∙ ap (λ (x : ℕ). some (x, some end)) (omega arith)

    first_try :
        (t : Try) (s : Site U R S) (u : Option User)
        → get_login_fails redis s.counters t.now email ≡ 0
        → user_by_email sql redis secrets create_session email s.users ≡ ok u
        → IsWrong secrets t.password u
        → entry_of (enter t.now t.password t.totp_code s).0
          ≡ some (1, some (t.now + login_fail_ttl))
    first_try t s u z a w =
        ap (λ (r : R). redis.entry r (login_fail_key email))
          ((wrong_try t.now t.password t.totp_code s u a w).1 ∙ rw z)
        ∙ record_first laws s.counters t.now email z

    -- Guessing: of the wrong tries within 900 seconds of the first, on an address with one account
    -- or none and no failure counted before, at most five are counted.
    pub get-tries :
        (first : Try) (rest : List Try) (s : Site U R S) (u : Option User) (now : ℕ)
        → get_login_fails redis s.counters first.now email ≡ 0
        → user_by_email sql redis secrets create_session email s.users ≡ ok u
        → IsWrong secrets first.password u
        → All (λ t. IsWrong secrets t.password u × (t.now < first.now + login_fail_ttl)) rest
        → now < first.now + login_fail_ttl
        → get_login_fails redis (tries (first ∷ rest) s).counters now email
          ≡ min 5 (suc (length rest))
    unfolding tries
    get-tries first rest s u now z a w h l =
        let s' : Site U R S = (enter first.now first.password first.totp_code s).0 in
        let a' : user_by_email sql redis secrets create_session email s'.users ≡ ok u =
          ap (user_by_email sql redis secrets create_session email)
            (wrong_try first.now first.password first.totp_code s u a w).0
          ∙ a in
        get-entry laws (tries rest s').counters now email (min 5 (1 + length rest))
          (first.now + login_fail_ttl)
          (entry-tries rest s' u 0 (first.now + login_fail_ttl) (first_try first s u z a w)
            (omega arith) a' h)
        ∙ rw (lt→ltb now (first.now + login_fail_ttl) l) (omega arith)

    -- Where no failure was counted at the first of five or more wrong tries, all within 900 seconds of
    -- the first, a login on that address is refused until these are over, with any password, and it
    -- changes nothing.
    pub login-tries :
        (first : Try) (rest : List Try) (s : Site U R S) (u : Option User) (now : ℕ)
        (password : String) (totp_code : Option String)
        → get_login_fails redis s.counters first.now email ≡ 0
        → user_by_email sql redis secrets create_session email s.users ≡ ok u
        → IsWrong secrets first.password u
        → All (λ t. IsWrong secrets t.password u × (t.now < first.now + login_fail_ttl)) rest
        → now < first.now + login_fail_ttl
        → 4 ≤ length rest
        → login sql redis secrets create_session now email password totp_code
            (tries (first ∷ rest) s)
          ≡ (tries (first ∷ rest) s, err account_locked)
    unfolding login
    login-tries first rest s u now password totp_code z a w h l n =
        rw (get-tries first rest s u now z a w h l) (rw (full (length rest) n) refl)
      where
        full : (k : ℕ) → 4 ≤ k → leb 5 (min 5 (suc k)) ≡ true
        full k m = ground arith

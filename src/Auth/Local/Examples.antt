-- ===== src/Auth/Local/Examples.antt =====
-- Logins on a table with one account, with plain texts for hashes.
use oc_piloci.Prelude.{
  ℕ, ◌+◌, ◌≡◌, refl, none, some, List, [], ◌∷◌, false, ◌&&◌, String, ◌==◌, ltb, err, arith,
}
use oc_piloci.Db.Table.{table, sort}
use oc_piloci.Auth.LoginFails.{get_login_fails}
use oc_piloci.Auth.LoginFails.Store.{Store, counters, counters-IsCounters, no_failures}
use oc_piloci.Prelude.{leb, Bool}
use oc_piloci.Auth.Local.{account_locked, User, approved, Site, Secrets, login, user_by_email}
use oc_piloci.Auth.Local.Access.{is_ok, in_order, Try, tries, is_ok-login, login-tries}

abbrev ann : User
ann = record {
  id = "1";
  email = "a@b.c";
  name = some "Ann";
  password_hash = some "Correct-horse-1";
  approval_status = approved;
  is_admin = false;
  totp_enabled = false;
  totp_secret = none;
}

abbrev plain : Secrets
plain = record {
  verify_password = λ p h. p == h;
  needs_rehash = λ h. false;
  hash_password = λ p. p;
  verify_totp = λ s c. false;
}

-- Sessions are numbered.
abbrev issue : ℕ → ℕ → User → ℕ × String
issue n now u = (n + 1, "session")

abbrev site : Site (List User) Store ℕ
site = record { users = ann ∷ []; counters = no_failures; sessions = 0; audit = [] }

abbrev guess : ℕ → Try
guess now = record { now = now; password = "guess"; totp_code = none }

abbrev more_guesses : List Try
more_guesses = guess 110 ∷ guess 120 ∷ guess 130 ∷ guess 140 ∷ []

is_ok-login_example :
    is_ok (login (table (λ u. u.id)) counters plain issue 100 "a@b.c" "Correct-horse-1" none site).1
    ≡ (ltb (get_login_fails counters no_failures 100 "a@b.c") 5
        && in_order plain "Correct-horse-1" none
            (user_by_email (table (λ u. u.id)) counters plain issue "a@b.c" (ann ∷ [])))
is_ok-login_example =
    is_ok-login (table (λ u. u.id)) counters plain issue "a@b.c" 100 "Correct-horse-1" none site

login-tries_example :
    let s =
      tries (table (λ u. u.id)) counters plain issue "a@b.c" (guess 100 ∷ more_guesses) site in
    login (table (λ u. u.id)) counters plain issue 200 "a@b.c" "Correct-horse-1" none s
    ≡ (s, err account_locked)
unfolding get_login_fails sort
login-tries_example =
    login-tries (table (λ u. u.id)) counters plain issue "a@b.c" counters-IsCounters (guess 100)
      more_guesses site (some ann) 200 "Correct-horse-1" none refl refl refl
      ((refl, omega arith), ((refl, omega arith), ((refl, omega arith), ((refl, omega arith), tt))))
      (omega arith) (omega arith)

-- "Correct-horse-1"
abbrev letters : String → List ℕ
letters p =
    b'C' ∷ b'o' ∷ b'r' ∷ b'r' ∷ b'e' ∷ b'c' ∷ b't' ∷ b'-' ∷ b'h' ∷ b'o' ∷ b'r' ∷ b's' ∷ b'e' ∷ b'-'
    ∷ b'1' ∷ []

abbrev digit : ℕ → Bool
digit c = leb b'0' c && leb c b'9'

abbrev empty_site : Site (List User) Store ℕ
empty_site = record { users = []; counters = no_failures; sessions = 0; audit = [] }

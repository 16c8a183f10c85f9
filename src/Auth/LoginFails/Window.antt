-- ===== src/Auth/LoginFails/Window.antt =====
-- The failures of one address are counted over a fixed window from the first of them.
use oc_piloci.Prelude.{
  ℕ, suc, ◌+◌, ◌<◌, ◌≡◌, sym, ◌∙◌, ap, Option, none, some, true, String, ltb, ◌=?◌, if◌then◌else◌,
  ◌==◌, arith, List, [], ◌∷◌, length, All, eq_refl, lt→ltb,
}
use oc_piloci.Auth.LoginFails.{
  Entry, value, end_of, Counters, IsCounters, login_fail_ttl, login_fail_key, record_login_fail,
  get_login_fails,
}

-- What is counted of an entry.
amount : ℕ → Entry → ℕ
amount now e = elim (value now e) [ none ↦ 0 | some n ↦ n ]

module _ {R : Type 0} (redis : Counters R) where
  -- The failures of one address, at these times.
  pub fails : R → String → List ℕ → R
  fails r email [] = r
  fails r email (t ∷ ts) = fails (record_login_fail redis r t email).0 email ts

module _ {R : Type 0} {redis : Counters R} (laws : IsCounters redis) where
  open laws use {get_lem, incr_result, entry-incr, entry-expire, entry-delete}

  -- The counter a failure leaves.
  pub counted : ℕ → Entry → Entry
  unfolding amount
  counted now e = elim (value now e) [
    | none ↦ some (1, some (now + login_fail_ttl))
    | some n ↦ if n =? 0 then some (1, some (now + login_fail_ttl)) else some (n + 1, end_of e)
  ]

  get-amount :
      (r : R) (now : ℕ) (email : String)
      → get_login_fails redis r now email ≡ amount now (redis.entry r (login_fail_key email))
  unfolding get_login_fails amount
  get-amount r now email =
      ap (λ (x : Option ℕ). elim x [ none ↦ 0 | some n ↦ n ]) (get_lem r now (login_fail_key email))

  entry-record :
      (r : R) (now : ℕ) (email : String)
      → redis.entry (record_login_fail redis r now email).0 (login_fail_key email)
        ≡ counted now (redis.entry r (login_fail_key email))
  unfolding record_login_fail counted
  entry-record r now email =
      let k = login_fail_key email in
      let q : (k == k) ≡ true = eq_refl k in
      let c = redis.incr r now k in
      let a = incr_result r now k in
      let b = entry-incr r now k k in
      let d = entry-expire c.0 now k k login_fail_ttl in ground (arith)

  -- The first failure opens the window.
  pub record_first :
      (r : R) (now : ℕ) (email : String)
      → get_login_fails redis r now email ≡ 0
      → redis.entry (record_login_fail redis r now email).0 (login_fail_key email)
        ≡ some (1, some (now + login_fail_ttl))
  record_first r now email h =
      entry-record r now email
      ∙ opens now (redis.entry r (login_fail_key email)) (sym (get-amount r now email) ∙ h)
    where
      opens :
          (t : ℕ) (e : Entry) → amount t e ≡ 0 → counted t e ≡ some (1, some (t + login_fail_ttl))
      opens t e q = unfold counted amount in ground arith

  -- A later one in the window counts on and leaves its end.
  pub record_next :
      (r : R) (now : ℕ) (email : String) (n end : ℕ)
      → redis.entry r (login_fail_key email) ≡ some (suc n, some end)
      → now < end
      → redis.entry (record_login_fail redis r now email).0 (login_fail_key email)
        ≡ some (suc (suc n), some end)
  record_next r now email n end e h =
      entry-record r now email ∙ ap (counted now) e ∙ next (lt→ltb now end h)
    where
      next :
          ltb now end ≡ true → counted now (some (suc n, some end)) ≡ some (suc (suc n), some end)
      next b = unfold counted in ground arith

  -- What a counter shows, by its window.
  pub get-entry :
      (r : R) (now : ℕ) (email : String) (n end : ℕ)
      → redis.entry r (login_fail_key email) ≡ some (n, some end)
      → get_login_fails redis r now email ≡ (if ltb now end then n else 0)
  get-entry r now email n end e = get-amount r now email ∙ ap (amount now) e ∙ shown
    where
      shown : amount now (some (n, some end)) ≡ (if ltb now end then n else 0)
      shown = unfold amount in ground arith

  entry-fails :
      (r : R) (email : String) (ts : List ℕ) (n end : ℕ)
      → redis.entry r (login_fail_key email) ≡ some (suc n, some end)
      → All (λ t. t < end) ts
      → redis.entry (fails redis r email ts) (login_fail_key email)
        ≡ some (suc (n + length ts), some end)
  unfolding fails
  entry-fails r email [] n end e h = e ∙ ap (λ (x : ℕ). some (x, some end)) (omega arith)
  entry-fails r email (t ∷ ts) n end e (a, h) =
      entry-fails (record_login_fail redis r t email).0 email ts (suc n) end
        (record_next r t email n end e a) h
      ∙ ap (λ (x : ℕ). some (x, some end)) (omega arith)

  -- The first failure of an address opens a window of 900 seconds: all the failures in it are
  -- counted until it ends, and none of them afterwards, however late the last one was.
  pub get-fails :
      (r : R) (email : String) (first : ℕ) (rest : List ℕ) (now : ℕ)
      → get_login_fails redis r first email ≡ 0
      → All (λ t. t < first + login_fail_ttl) rest
      → get_login_fails redis (fails redis r email (first ∷ rest)) now email
        ≡ (if ltb now (first + login_fail_ttl) then suc (length rest) else 0)
  unfolding fails
  get-fails r email first rest now none_yet h =
      let s : R = (record_login_fail redis r first email).0 in
      get-entry (fails redis s email rest) now email (suc (length rest)) (first + login_fail_ttl) (
        entry-fails s email rest 0 (first + login_fail_ttl) (record_first r first email none_yet) h
        ∙ ap (λ (x : ℕ). some (x, some (first + login_fail_ttl))) (omega arith))

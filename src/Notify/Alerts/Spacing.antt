-- ===== src/Notify/Alerts/Spacing.antt =====
-- What a sequence of polls of one tracker fires, and when.
use oc_piloci.Prelude.{
  ℕ, ◌+◌, ◌<◌, ◌≡◌, refl, Option, some, List, [], ◌∷◌, ◌++◌, Bool, true, ◌&&◌, leb, arith, inl, inr,
  sym, ap, ◌∙◌, length-append, Bool-cases, map, All, length,
}
use oc_piloci.Notify.Alerts.{
  Status, normal, alerted, warning, info, AlertTracker, FiredAlert, Check, eval_breach, cooldown_ok,
  recovered, is_normal,
}

-- One poll: whether the reading is a breach, when, and the two texts.
pub record Poll (M : Type 0) : Type 0 where
  pub breached : Bool
  pub now : ℕ
  pub fire_message : M
  pub recover_message : M

-- The guard of a warning.
abbrev may_warn : Check → AlertTracker → ℕ → Bool
may_warn c tracker now =
    is_normal tracker.state
    && leb c.consecutive_required (tracker.consecutive_breaches + 1)
    && cooldown_ok tracker.last_fired_at c.cooldown_min now

module _ {M : Type 0} (c : Check) where
  abbrev pub poll : AlertTracker → Poll M → AlertTracker × List (FiredAlert M)
  poll tracker p = eval_breach c tracker p.breached p.now p.fire_message p.recover_message

  -- The alerts that the polls fire, each with its time.
  pub fired : AlertTracker → List (Poll M) → List (ℕ × FiredAlert M)
  fired tracker [] = []
  fired tracker (p ∷ ps) = map (λ a. (p.now, a)) (poll tracker p).1 ++ fired (poll tracker p).0 ps

  pub after : AlertTracker → List (Poll M) → AlertTracker
  after tracker [] = tracker
  after tracker (p ∷ ps) = after (poll tracker p).0 ps

  -- A warning first, then its recovery, and so on; from an alerted tracker the recovery first.
  abbrev pub Alternates : Status → List (ℕ × FiredAlert M) → Type 0
  Alternates s [] = Unit
  Alternates normal ((t, a) ∷ rest) =
      (a.severity ≡ warning) × (a.kind ≡ c.kind) × Alternates alerted rest
  Alternates alerted ((t, a) ∷ rest) =
      (a.severity ≡ info) × (a.kind ≡ recovered c.kind) × Alternates normal rest

  -- No warning comes within the cooldown of the one before it.
  abbrev pub Spaced : Option ℕ → List (ℕ × FiredAlert M) → Type 0
  Spaced last [] = Unit
  Spaced last ((t, a) ∷ rest) = elim a.severity [
    | info ↦ Spaced last rest
    | warning ↦ (cooldown_ok last c.cooldown_min t ≡ true) × Spaced (some t) rest
  ]

  -- What one poll can do.
  data Does (tracker : AlertTracker) (p : Poll M) (r : AlertTracker × List (FiredAlert M))
      : Type 0 where
    keeps_silent :
        r.1 ≡ []
        → r.0.state ≡ tracker.state
        → r.0.last_fired_at ≡ tracker.last_fired_at
        → Does tracker p r
    warns :
        (a : FiredAlert M)
        → r.1 ≡ a ∷ []
        → a.severity ≡ warning
        → a.kind ≡ c.kind
        → tracker.state ≡ normal
        → r.0.state ≡ alerted
        → cooldown_ok tracker.last_fired_at c.cooldown_min p.now ≡ true
        → r.0.last_fired_at ≡ some p.now
        → Does tracker p r
    recovers :
        (a : FiredAlert M)
        → r.1 ≡ a ∷ []
        → a.severity ≡ info
        → a.kind ≡ recovered c.kind
        → tracker.state ≡ alerted
        → r.0.state ≡ normal
        → r.0.last_fired_at ≡ tracker.last_fired_at
        → Does tracker p r

  does : (tracker : AlertTracker) (p : Poll M) → Does tracker p (poll tracker p)
  unfolding eval_breach
  does tracker p = elim (Bool-cases p.breached) [
    | inl b ↦ elim (Bool-cases (may_warn c tracker p.now)) [
      | inl g ↦
          warns (record { kind = c.kind; severity = warning; message = p.fire_message })
            (ground arith) refl refl (ground arith) (ground arith) (ground arith) (ground arith)
      | inr g ↦ keeps_silent (ground arith) (ground arith) (ground arith)
    ]
    | inr b ↦ elim (Bool-cases (is_normal tracker.state)) [
      | inl n ↦ keeps_silent (ground arith) (ground arith) (ground arith)
      | inr n ↦
          recovers
            (record { kind = recovered c.kind; severity = info; message = p.recover_message })
            (ground arith) refl refl (ground arith) (ground arith) (ground arith)
    ]
  ]

  alternating :
      (s : Status) (tracker : AlertTracker) (ps : List (Poll M))
      → tracker.state ≡ s
      → Alternates s (fired tracker ps)
  unfolding fired
  alternating s tracker [] h = tt
  alternating s tracker (p ∷ ps) h = elim (does tracker p) [
    | keeps_silent e k l ↦ rw e (alternating s (poll tracker p).0 ps (k ∙ h))
    | warns a e w k n s' o l ↦
        rw (e, sym h ∙ n) (w, k, alternating alerted (poll tracker p).0 ps s')
    | recovers a e w k n s' l ↦
        rw (e, sym h ∙ n) (w, k, alternating normal (poll tracker p).0 ps s')
  ]

  -- Whatever the readings, warnings and recoveries alternate, each with its own kind: from a
  -- normal tracker a warning comes first, from an alerted one a recovery.
  pub fired-Alternates :
      (tracker : AlertTracker) (ps : List (Poll M)) → Alternates tracker.state (fired tracker ps)
  fired-Alternates tracker ps = alternating tracker.state tracker ps refl

  spaced :
      (last : Option ℕ) (tracker : AlertTracker) (ps : List (Poll M))
      → tracker.last_fired_at ≡ last
      → Spaced last (fired tracker ps)
  unfolding fired
  spaced last tracker [] h = tt
  spaced last tracker (p ∷ ps) h = elim (does tracker p) [
    | keeps_silent e s l ↦ rw e (spaced last (poll tracker p).0 ps (l ∙ h))
    | warns a e w k n s' o l ↦
        rw (e, w)
          (
            ap (λ (t : Option ℕ). cooldown_ok t c.cooldown_min p.now) (sym h) ∙ o,
            spaced (some p.now) (poll tracker p).0 ps l,
          )
    | recovers a e w k n s' l ↦ rw (e, w) (spaced last (poll tracker p).0 ps (l ∙ h))
  ]

  -- Whatever the readings, two warnings lie at least the cooldown apart.
  pub fired-Spaced :
      (tracker : AlertTracker) (ps : List (Poll M))
      → Spaced tracker.last_fired_at (fired tracker ps)
  fired-Spaced tracker ps = spaced tracker.last_fired_at tracker ps refl

  -- A run of breaches shorter than `consecutive_required`, after a reading that was none, fires
  -- no warning.
  quiet :
      (tracker : AlertTracker) (ps : List (Poll M))
      → tracker.state ≡ normal
      → All (λ p. p.breached ≡ true) ps
      → tracker.consecutive_breaches + length ps < c.consecutive_required
      → fired tracker ps ≡ []
  unfolding fired eval_breach
  quiet tracker [] h b l = refl
  quiet tracker (p ∷ ps) h b l =
      let t : AlertTracker = record tracker {
        consecutive_breaches = tracker.consecutive_breaches + 1;
      } in
      ground (arith, quiet t ps h b.1)

  -- The breach that completes the required number fires a warning, if the cooldown has passed.
  on_time :
      (tracker : AlertTracker) (ps : List (Poll M)) (p : Poll M)
      → tracker.state ≡ normal
      → All (λ q. q.breached ≡ true) (ps ++ p ∷ [])
      → tracker.consecutive_breaches + length (ps ++ p ∷ []) ≡ c.consecutive_required
      → cooldown_ok tracker.last_fired_at c.cooldown_min p.now ≡ true
      → fired tracker (ps ++ p ∷ [])
        ≡ (p.now, record { kind = c.kind; severity = warning; message = p.fire_message }) ∷ []
  unfolding fired eval_breach
  on_time tracker [] p h b l o = ground arith
  on_time tracker (q ∷ ps) p h b l o =
      let t : AlertTracker = record tracker {
        consecutive_breaches = tracker.consecutive_breaches + 1;
      } in
      ground (arith, on_time t ps p h b.1, length-append ps (p ∷ []))

  -- From a normal tracker with no breach counted, consecutive breaches fire nothing as long as they
  -- are fewer than required; the one that completes the number fires one warning, if the cooldown
  -- since the last warning has passed by then.
  pub debounce :
      (tracker : AlertTracker) (ps : List (Poll M)) (p : Poll M)
      → tracker.state ≡ normal
      → tracker.consecutive_breaches ≡ 0
      → All (λ q. q.breached ≡ true) (ps ++ p ∷ [])
      → length ps + 1 ≡ c.consecutive_required
      → cooldown_ok tracker.last_fired_at c.cooldown_min p.now ≡ true
      → (fired tracker ps ≡ [])
        × (fired tracker (ps ++ p ∷ [])
            ≡ (p.now, record { kind = c.kind; severity = warning; message = p.fire_message }) ∷ [])
  debounce tracker ps p h z b l o = (
    quiet tracker ps h (front ps b) (omega arith),
    on_time tracker ps p h b (omega (arith, length-append ps (p ∷ []))) o,
  )
    where
      front :
          (qs : List (Poll M))
          → All (λ q. q.breached ≡ true) (qs ++ p ∷ [])
          → All (λ q. q.breached ≡ true) qs
      front [] a = tt
      front (q ∷ qs) a = (a.0, front qs a.1)

-- ===== src/Notify/Heartbeat.antt =====
-- notify/health.py: the periodic report, `prime_heartbeat_baseline`, `_build_heartbeat_message` and
-- `_maybe_send_heartbeat`. Times are seconds, the local time of day is in microseconds; of the text
-- the numbers are kept that it computes from the state.
use oc_piloci.Prelude.{
  ℕ, ◌+◌, ◌-◌, ◌*◌, ◌≡◌, ap, ◌∙◌, Option, none, some, List, [], ◌∷◌, Bool, true, false, not, ◌&&◌,
  leb, ltb, if◌then◌else◌, arith, Bool-cases, inl, inr, is_some,
}
use oc_piloci.Curator.Scheduler.Window
use oc_piloci.Curator.Scheduler.Window.{IdleWindow, parse_idle_window}

-- `_HeartbeatState`
pub record HeartbeatState : Type 0 where
  pub last_sent_at : Option ℕ
  pub last_distilled_count : Option ℕ

pub record ReportSettings : Type 0 where
  pub health_periodic_report_enabled : Bool
  pub health_periodic_report_interval_min : ℕ
  pub health_periodic_report_active_window : Option (List ℕ)

-- `delta_str`: a first count, or the change since the last one.
pub data Delta : Type 0 where
  since_startup gained lost : ℕ → Delta

pub record Report : Type 0 where
  pub delta : Delta
  pub distilled : ℕ
  pub pending : ℕ
  pub failed : ℕ

-- How a report fares: a query raises, or the call of Telegram raises, says no, or delivers it.
pub data Fate : Type 0 where
  not_built raised unsent sent : Fate

-- What one call meets.
pub record Beat : Type 0 where
  pub now : ℕ
  pub clock : ℕ
  pub distilled : ℕ
  pub pending : ℕ
  pub failed : ℕ
  pub fate : Fate

abbrev pub prime_heartbeat_baseline : ℕ → HeartbeatState → HeartbeatState
prime_heartbeat_baseline now h = elim h.last_sent_at [
  | none ↦ record h { last_sent_at = some now }
  | some t ↦ h
]

abbrev pub delta_of : Option ℕ → ℕ → Delta
delta_of none distilled = since_startup distilled
delta_of (some last) distilled =
    if leb last distilled then gained (distilled - last) else lost (last - distilled)

abbrev pub build_heartbeat_message : HeartbeatState → Beat → HeartbeatState × Report
build_heartbeat_message h b = (
  record h { last_distilled_count = some b.distilled },
  record {
    delta = delta_of h.last_distilled_count b.distilled;
    distilled = b.distilled;
    pending = b.pending;
    failed = b.failed;
  },
)

-- A window that is set and parsed must be open.
abbrev pub window_open : Option IdleWindow → ℕ → Bool
window_open none clock = true
window_open (some w) clock = Window.contains w clock

-- The interval since the last report is over.
abbrev pub is_due : Option ℕ → ℕ → ℕ → Bool
is_due none interval_min now = true
is_due (some last) interval_min now = leb (last + interval_min * 60) now

-- The build and the sending; the report that reaches the administrator.
abbrev send : HeartbeatState → Beat → Fate → HeartbeatState × Option Report
send h b not_built = (h, none)
send h b raised = ((build_heartbeat_message h b).0, none)
send h b unsent = ((build_heartbeat_message h b).0, none)
send h b sent = (
  record (build_heartbeat_message h b).0 { last_sent_at = some b.now },
  some (build_heartbeat_message h b).1,
)

unfoldable pub maybe_send_heartbeat :
    ReportSettings → HeartbeatState → Beat → HeartbeatState × Option Report
maybe_send_heartbeat s h b =
    if not s.health_periodic_report_enabled
    then (h, none)
    else if leb s.health_periodic_report_interval_min 0
    then (h, none)
    else if not (window_open (parse_idle_window s.health_periodic_report_active_window) b.clock)
    then (h, none)
    else if not (is_due h.last_sent_at s.health_periodic_report_interval_min b.now)
    then (h, none)
    else send h b b.fate

abbrev pub is_sent : Fate → Bool
is_sent sent = true
is_sent not_built = false
is_sent raised = false
is_sent unsent = false

-- A report arrives exactly if reports are enabled with a positive interval, the active window is
-- unset, invalid or open, the interval since the last report is over, and Telegram delivers it;
-- the time of the last report moves exactly then.
pub is_some-maybe_send_heartbeat :
    (s : ReportSettings) (h : HeartbeatState) (b : Beat)
    → let r = maybe_send_heartbeat s h b in
      (is_some r.1 ≡ (
        s.health_periodic_report_enabled
        && ltb 0 s.health_periodic_report_interval_min
        && window_open (parse_idle_window s.health_periodic_report_active_window) b.clock
        && is_due h.last_sent_at s.health_periodic_report_interval_min b.now
        && is_sent b.fate))
      × (r.0.last_sent_at ≡ (if is_some r.1 then some b.now else h.last_sent_at))
unfolding maybe_send_heartbeat
is_some-maybe_send_heartbeat s h b = by_fate b.fate
  where
    by_fate :
        (f : Fate)
        → let r = maybe_send_heartbeat s h (record b { fate = f }) in
          (is_some r.1 ≡ (
            s.health_periodic_report_enabled
            && ltb 0 s.health_periodic_report_interval_min
            && window_open (parse_idle_window s.health_periodic_report_active_window) b.clock
            && is_due h.last_sent_at s.health_periodic_report_interval_min b.now
            && is_sent f))
          × (r.0.last_sent_at ≡ (if is_some r.1 then some b.now else h.last_sent_at))
    by_fate not_built = (ground arith, ground arith)
    by_fate raised = (ground arith, ground arith)
    by_fate unsent = (ground arith, ground arith)
    by_fate sent = (ground arith, ground arith)

module _ (s : ReportSettings) where
  -- The times at which reports arrive.
  pub report_times : HeartbeatState → List Beat → List ℕ
  report_times h [] = []
  report_times h (b ∷ bs) =
      let r = maybe_send_heartbeat s h b in
      let rest = report_times r.0 bs in if is_some r.1 then b.now ∷ rest else rest

  -- Each comes at least the interval after the one before it.
  abbrev pub Apart : Option ℕ → List ℕ → Type 0
  Apart last [] = Unit
  Apart last (t ∷ ts) =
      (is_due last s.health_periodic_report_interval_min t ≡ true) × Apart (some t) ts

  -- Whatever the calls meet, two reports lie at least the interval apart; from a state that
  -- `prime_heartbeat_baseline` has set, the first comes that long after the start.
  pub report_times-Apart :
      (h : HeartbeatState) (bs : List Beat) → Apart h.last_sent_at (report_times h bs)
  unfolding report_times
  report_times-Apart h [] = tt
  report_times-Apart h (b ∷ bs) =
      let r = maybe_send_heartbeat s h b in
      let fact = is_some-maybe_send_heartbeat s h b in
      let rest = report_times-Apart r.0 bs in
      elim (Bool-cases (is_some r.1)) [
        | inl e ↦ rw e (
          due s.health_periodic_report_enabled (ltb 0 s.health_periodic_report_interval_min)
              (window_open (parse_idle_window s.health_periodic_report_active_window) b.clock)
              (is_due h.last_sent_at s.health_periodic_report_interval_min b.now) (is_sent b.fate) _
              fact.0 e,
          rw e at (rw fact.1 at rest),
        )
        | inr e ↦ rw e (rw e at (rw fact.1 at rest))
      ]
    where
      due : (a c d f g x : Bool) → x ≡ (a && c && d && f && g) → x ≡ true → f ≡ true
      due a c d f g x p q = ground arith

delta-sent :
    (s : ReportSettings) (h : HeartbeatState) (b : Beat) (f : Fate) (r : Report)
    → (maybe_send_heartbeat s h (record b { fate = f })).1 ≡ some r
    → r.delta ≡ delta_of h.last_distilled_count b.distilled
unfolding maybe_send_heartbeat
delta-sent s h b not_built r e = ground arith
delta-sent s h b raised r e = ground arith
delta-sent s h b unsent r e = ground arith
delta-sent s h b sent r e = ground arith

count_unsent :
    (s : ReportSettings) (h : HeartbeatState) (b : Beat)
    → is_some (maybe_send_heartbeat s h (record b { fate = sent })).1 ≡ true
    → (maybe_send_heartbeat s h (record b { fate = unsent })).0.last_distilled_count
      ≡ some b.distilled
unfolding maybe_send_heartbeat
count_unsent s h b e = ground arith

-- A report that is built and not delivered takes its change with it: the next one that arrives
-- tells only what came since the failed one.
pub delta-after_failure :
    (s : ReportSettings) (h : HeartbeatState) (b next : Beat) (r : Report)
    → b.fate ≡ unsent
    → is_some (maybe_send_heartbeat s h (record b { fate = sent })).1 ≡ true
    → (maybe_send_heartbeat s (maybe_send_heartbeat s h b).0 next).1 ≡ some r
    → r.delta ≡ delta_of (some b.distilled) next.distilled
delta-after_failure s h b next r f e g =
    delta-sent s (maybe_send_heartbeat s h b).0 next next.fate r g
    ∙ ap (λ (c : Option ℕ). delta_of c next.distilled)
        (ap
            (λ (x : Fate).
              (maybe_send_heartbeat s h (record b { fate = x })).0.last_distilled_count)
            f
          ∙ count_unsent s h b e)

-- ===== src/Notify/Monitor.antt =====
-- notify/health.py: one iteration of `run_health_monitor`, with its four evaluators, the queue of
-- the quiet hours and the consolidated message. Readings and the answers of the database come in as
-- arguments; the messages that are handed to Telegram are returned, each with whether the call took it
-- or raised: the code logs the exception and goes on.
pub mod Queue
pub mod Digest
use oc_piloci.Prelude.{
  ℕ, ◌+◌, ◌*◌, Option, none, some, List, [], ◌∷◌, ◌++◌, Bool, true, false, not, ◌&&◌, String, leb,
  is_nil, length, map, if◌then◌else◌, lookup, insert, Floats,
}
use oc_piloci.Notify.Alerts.{AlertTracker, FiredAlert, Check, fresh, eval_breach}

-- The settings that the monitor reads.
pub record HealthSettings (F : Type 0) : Type 0 where
  pub health_monitor_enabled : Bool
  pub has_telegram_bot_token : Bool
  pub health_alert_consecutive : ℕ
  pub health_alert_cooldown_min : ℕ
  pub health_temp_alert_c : F
  pub health_load_alert_1m : F
  pub health_swap_alert_pct : F
  pub health_backlog_stuck_min : ℕ

-- The texts of the alerts, with the values that they show.
pub data Message (F : Type 0) : Type 0 where
  exceeded : F → F → Message F
  recovered_at : F → Message F
  cleared resumed : ℕ → Message F
  stuck : ℕ → ℕ → Message F

-- `_trackers`
abbrev pub Trackers : Type 0
Trackers = List (String × AlertTracker)

-- `_tracker(kind)`
abbrev pub tracker_of : Trackers → String → AlertTracker
tracker_of trackers kind = elim (lookup kind trackers) [ none ↦ fresh | some t ↦ t ]

-- What an iteration reads; `none` stands for a value that is not there.
pub record Readings (F : Type 0) : Type 0 where
  pub temp : Option F
  pub load : Option F
  pub swap : Option F
  pub pending : ℕ
  pub last_processed : Option ℕ
  pub oldest_pending : Option ℕ

module _ {F : Type 0} (fl : Floats F) (s : HealthSettings F) (now : ℕ) where
  abbrev check : String → Check
  check kind = record {
    consecutive_required = s.health_alert_consecutive;
    cooldown_min = s.health_alert_cooldown_min;
    kind = kind;
  }

  -- `_eval_breach(_tracker(kind), …)`, which changes the tracker in place.
  evaluate :
      String → Bool → Message F → Message F → Trackers → Trackers × List (FiredAlert (Message F))
  evaluate kind breached fire_message recover_message trackers =
      let r =
        eval_breach (check kind) (tracker_of trackers kind) breached now fire_message
          recover_message in
      (insert kind r.0 trackers, r.1)

  -- `_eval_temp`, `_eval_load` and `_eval_swap`: a missing reading changes nothing.
  eval_reading : String → F → Option F → Trackers → Trackers × List (FiredAlert (Message F))
  unfolding evaluate
  eval_reading kind threshold none trackers = (trackers, [])
  eval_reading kind threshold (some x) trackers =
      evaluate kind (fl.ge x threshold) (exceeded x threshold) (recovered_at x) trackers

  -- `last_processed or oldest_pending`
  abbrev anchor : Readings F → Option ℕ
  anchor r = elim r.last_processed [ some t ↦ some t | none ↦ r.oldest_pending ]

  eval_backlog_stuck : Readings F → Trackers → Trackers × List (FiredAlert (Message F))
  unfolding evaluate
  eval_backlog_stuck r trackers =
      if leb r.pending 0
      then evaluate "backlog" false (cleared r.pending) (cleared r.pending) trackers
      else elim (anchor r) [
        | none ↦ (trackers, [])
        | some t ↦
            evaluate "backlog" (leb (t + s.health_backlog_stuck_min * 60) now) (stuck r.pending t)
              (resumed r.pending) trackers
      ]

  -- The four evaluators in turn.
  unfoldable pub evaluate_all : Readings F → Trackers → Trackers × List (FiredAlert (Message F))
  unfolding eval_reading eval_backlog_stuck
  evaluate_all r trackers =
      let a = eval_reading "temp" s.health_temp_alert_c r.temp trackers in
      let b = eval_reading "load" s.health_load_alert_1m r.load a.0 in
      let c = eval_reading "swap" s.health_swap_alert_pct r.swap b.0 in
      let d = eval_backlog_stuck r c.0 in (d.0, a.1 ++ b.1 ++ c.1 ++ d.1)

-- A message to the administrator: one alert, or those of the quiet hours together.
pub data Sent (M : Type 0) : Type 0 where
  single : FiredAlert M → Sent M
  consolidated : List (FiredAlert M) → Sent M

module _ {M : Type 0} (takes : Sent M → Bool) where
  -- The call of `send_admin_notification`, which raises unless Telegram takes the message.
  abbrev send : Sent M → Sent M × Bool
  send message = (message, takes message)

  -- The loop over the fired alerts.
  abbrev pub deliver_each :
      Bool → List (FiredAlert M) → List (FiredAlert M) → List (FiredAlert M) × List (Sent M × Bool)
  deliver_each in_window queue [] = (queue, [])
  deliver_each in_window queue (a ∷ fired) =
      let r = deliver_each in_window (if in_window then queue else queue ++ a ∷ []) fired in
      (r.0, if in_window then send (single a) ∷ r.1 else r.1)

  -- The new queue, and what is sent in order: the queue is cleared before its message is sent.
  pub deliver :
      Bool → List (FiredAlert M) → List (FiredAlert M) → List (FiredAlert M) × List (Sent M × Bool)
  deliver in_window queue fired =
      if in_window && not (is_nil queue)
      then (let r = deliver_each in_window [] fired in (r.0, send (consolidated queue) ∷ r.1))
      else deliver_each in_window queue fired

-- The module's variables `_trackers` and `_pending_queue`.
pub record Monitor (F : Type 0) : Type 0 where
  pub trackers : Trackers
  pub pending_queue : List (FiredAlert (Message F))

module _ {F : Type 0} (fl : Floats F) (s : HealthSettings F) where
  -- One pass of the loop, without the heartbeat.
  pub iterate :
      (Sent (Message F) → Bool)
      → Monitor F
      → ℕ
      → Bool
      → Readings F
      → Monitor F × List (Sent (Message F) × Bool)
  iterate takes m now in_window r =
      if s.health_monitor_enabled && s.has_telegram_bot_token
      then (let e = evaluate_all fl s now r m.trackers in
          let d = deliver takes in_window m.pending_queue e.1 in
          (record { trackers = e.0; pending_queue = d.0 }, d.1))
      else (m, [])

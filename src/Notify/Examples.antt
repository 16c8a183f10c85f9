-- ===== src/Notify/Examples.antt =====
-- Runs of one alert and of the monitor.
use oc_piloci.Prelude.{ℕ, ◌≡◌, none, some, List, [], ◌∷◌, ◌++◌, true, false, thousandths}
use oc_piloci.Notify.Alerts.{warning, FiredAlert, Check, fresh}
use oc_piloci.Notify.Alerts.Spacing.{Poll, fired, Spaced, fired-Spaced}
use oc_piloci.Notify.Heartbeat.{
  HeartbeatState, ReportSettings, Beat, sent, unsent, prime_heartbeat_baseline,
}
use oc_piloci.Notify.Monitor.{HealthSettings, Readings, Monitor}
use oc_piloci.Notify.Monitor.Queue.{contents, Tick, watch, watch_conserves}

abbrev temp_check : Check
temp_check = record { consecutive_required = 2; cooldown_min = 30; kind = "temp" }

abbrev bad : ℕ → Poll ℕ
bad now = record { breached = true; now = now; fire_message = 1; recover_message = 2 }

abbrev good : ℕ → Poll ℕ
good now = record { breached = false; now = now; fire_message = 1; recover_message = 2 }

abbrev polls : List (Poll ℕ)
polls = bad 0 ∷ bad 60 ∷ good 120 ∷ bad 180 ∷ bad 240 ∷ bad 4000 ∷ []

fired-Spaced_example : Spaced temp_check none (fired temp_check fresh polls)
fired-Spaced_example = fired-Spaced temp_check fresh polls

abbrev temp_alert : FiredAlert ℕ
temp_alert = record { kind = "temp"; severity = warning; message = 7 }

abbrev swap_alert : FiredAlert ℕ
swap_alert = record { kind = "swap"; severity = warning; message = 8 }

abbrev alerts : List (FiredAlert ℕ)
alerts = temp_alert ∷ swap_alert ∷ temp_alert ∷ []

abbrev settings : HealthSettings ℕ
settings = record {
  health_monitor_enabled = true;
  has_telegram_bot_token = true;
  health_alert_consecutive = 1;
  health_alert_cooldown_min = 30;
  health_temp_alert_c = 70000;
  health_load_alert_1m = 3000;
  health_swap_alert_pct = 80000;
  health_backlog_stuck_min = 60;
}

abbrev hot : Readings ℕ
hot = record {
  temp = some 75000;
  load = some 500;
  swap = none;
  pending = 0;
  last_processed = none;
  oldest_pending = none;
}

abbrev ticks : List (Tick ℕ)
ticks =
    record { now = 100; in_window = false; readings = hot; takes = λ m. false }
    ∷ record { now = 200; in_window = true; readings = hot; takes = λ m. false }
    ∷ []

abbrev idle : Monitor ℕ
idle = record { trackers = []; pending_queue = [] }

watch_conserves_example :
    contents (watch thousandths settings idle ticks).2
      ++ (watch thousandths settings idle ticks).0.pending_queue
    ≡ [] ++ (watch thousandths settings idle ticks).1
watch_conserves_example = watch_conserves thousandths settings idle ticks

abbrev hourly : ReportSettings
hourly = record {
  health_periodic_report_enabled = true;
  health_periodic_report_interval_min = 60;
  health_periodic_report_active_window = none;
}

abbrev started : HeartbeatState
started = prime_heartbeat_baseline 0 (record { last_sent_at = none; last_distilled_count = some 3 })

abbrev lost_beat : Beat
lost_beat = record { now = 3600; clock = 0; distilled = 5; pending = 1; failed = 0; fate = unsent }

abbrev next_beat : Beat
next_beat = record { now = 3700; clock = 0; distilled = 6; pending = 1; failed = 0; fate = sent }

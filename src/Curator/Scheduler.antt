-- ===== src/Curator/Scheduler.antt =====
-- curator/scheduler.py: when the distillation worker runs, and on which provider. Times of day are
-- microseconds since midnight. The texts of `reason` are constructors with the values they show.
pub mod Window
pub mod Gates
pub mod Chunks
mod Examples
use oc_piloci.Prelude.{
  ℕ, ◌/◌, max, Option, none, some, Bool, true, false, not, ◌&&◌, ◌||◌, leb, ◌=?◌, if◌then◌else◌,
  Floats,
}
use Window.{IdleWindow, contains}

pub data Reason (F : Type 0) : Type 0 where
  queue_empty idle_window within_thresholds : Reason F
  overflow : ℕ → ℕ → Reason F
  soc load : Option F → F → Reason F

pub record SchedulerDecision (F : Type 0) : Type 0 where
  pub should_run : Bool
  pub use_external : Bool
  pub reason : Reason F
  pub pending_count : ℕ
  pub cpu_temp_c : Option F
  pub load_avg_1m : Option F
  pub next_poll_seconds : F
  pub recommended_max_chunks : Option ℕ

pub record SchedulerConfig (F : Type 0) : Type 0 where
  pub idle_window : Option IdleWindow
  pub temp_ceiling_celsius : F
  pub load_ceiling_1m : F
  pub overflow_threshold : ℕ
  pub poll_interval_normal : F
  pub poll_interval_idle : F
  pub poll_interval_held : F
  pub max_chunks : ℕ

-- `window is not None and window.contains(now)`
abbrev pub in_window : Option IdleWindow → ℕ → Bool
in_window none now = false
in_window (some w) now = contains w now

module _ {F : Type 0} (fl : Floats F) where
  open fl use {ge, minus, times, milli}

  -- `x is not None and x >= bound`
  abbrev pub reaches : Option F → F → Bool
  reaches none bound = false
  reaches (some x) bound = ge x bound

  abbrev is_hot : SchedulerConfig F → Option F → Option F → Bool
  is_hot config cpu_temp load_1m =
      reaches cpu_temp (minus config.temp_ceiling_celsius (milli 5000))
      || reaches load_1m (times config.load_ceiling_1m (milli 900))

  abbrev is_warm : SchedulerConfig F → Option F → Option F → Bool
  is_warm config cpu_temp load_1m =
      reaches cpu_temp (minus config.temp_ceiling_celsius (milli 15000))
      || reaches load_1m (times config.load_ceiling_1m (milli 700))

  pub recommend_chunks : SchedulerConfig F → Option F → Option F → ℕ
  recommend_chunks config cpu_temp load_1m =
      let base = max 1 config.max_chunks in
      if base =? 1
      then 1
      else if is_hot config cpu_temp load_1m
      then 1
      else if is_warm config cpu_temp load_1m
      then max 1 (base / 2)
      else base

  -- `now` is `now_time`, or the local time where that is not given.
  pub decide : SchedulerConfig F → ℕ → Bool → Bool → ℕ → Option F → Option F → SchedulerDecision F
  decide config pending_count has_external_provider budget_exhausted now cpu_temp load_1m =
      if leb pending_count 0
      then record {
        should_run = false;
        use_external = false;
        reason = queue_empty;
        pending_count = 0;
        cpu_temp_c = cpu_temp;
        load_avg_1m = load_1m;
        next_poll_seconds = config.poll_interval_normal;
        recommended_max_chunks = none;
      }
      else if in_window config.idle_window now
      then record {
        should_run = true;
        use_external = false;
        reason = idle_window;
        pending_count = pending_count;
        cpu_temp_c = cpu_temp;
        load_avg_1m = load_1m;
        next_poll_seconds = config.poll_interval_idle;
        recommended_max_chunks = some (recommend_chunks config cpu_temp load_1m);
      }
      else if leb config.overflow_threshold pending_count
          && has_external_provider
          && not budget_exhausted
      then record {
        should_run = true;
        use_external = true;
        reason = overflow pending_count config.overflow_threshold;
        pending_count = pending_count;
        cpu_temp_c = cpu_temp;
        load_avg_1m = load_1m;
        next_poll_seconds = config.poll_interval_idle;
        recommended_max_chunks = some (max 1 config.max_chunks);
      }
      else if reaches cpu_temp config.temp_ceiling_celsius
      then record {
        should_run = false;
        use_external = false;
        reason = soc cpu_temp config.temp_ceiling_celsius;
        pending_count = pending_count;
        cpu_temp_c = cpu_temp;
        load_avg_1m = load_1m;
        next_poll_seconds = config.poll_interval_held;
        recommended_max_chunks = some (recommend_chunks config cpu_temp load_1m);
      }
      else if reaches load_1m config.load_ceiling_1m
      then record {
        should_run = false;
        use_external = false;
        reason = load load_1m config.load_ceiling_1m;
        pending_count = pending_count;
        cpu_temp_c = cpu_temp;
        load_avg_1m = load_1m;
        next_poll_seconds = config.poll_interval_held;
        recommended_max_chunks = some (recommend_chunks config cpu_temp load_1m);
      }
      else record {
        should_run = true;
        use_external = false;
        reason = within_thresholds;
        pending_count = pending_count;
        cpu_temp_c = cpu_temp;
        load_avg_1m = load_1m;
        next_poll_seconds = config.poll_interval_normal;
        recommended_max_chunks = some (recommend_chunks config cpu_temp load_1m);
      }

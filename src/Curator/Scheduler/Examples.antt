-- ===== src/Curator/Scheduler/Examples.antt =====
-- Runs of the scheduler, with thousandths for floats.
use oc_piloci.Prelude.{ℕ, ◌*◌, ◌≡◌, none, some, true, false, not, ◌&&◌, ◌||◌, leb, ltb, thousandths}
use oc_piloci.Curator.Scheduler.{SchedulerConfig, decide, in_window, reaches}
use oc_piloci.Curator.Scheduler.Window.{IdleWindow}
use oc_piloci.Curator.Scheduler.Gates.{should_run-decide}

-- From two in the night to six.
abbrev night : IdleWindow
night = record { start = 2 * 3_600_000_000; end = 6 * 3_600_000_000 }

abbrev config : SchedulerConfig ℕ
config = record {
  idle_window = some night;
  temp_ceiling_celsius = 70000;
  load_ceiling_1m = 3000;
  overflow_threshold = 20;
  poll_interval_normal = 30000;
  poll_interval_idle = 5000;
  poll_interval_held = 60000;
  max_chunks = 8;
}

abbrev noon : ℕ
noon = 12 * 3_600_000_000

should_run-decide_example :
    (decide thousandths config 25 true false noon (some 80000) none).should_run ≡ (
      ltb 0 25
      && (in_window config.idle_window noon
          || (leb config.overflow_threshold 25 && true && not false)
          || (not (reaches thousandths (some 80000) config.temp_ceiling_celsius)
              && not (reaches thousandths none config.load_ceiling_1m))))
should_run-decide_example =
    should_run-decide thousandths config 25 true false noon (some 80000) none

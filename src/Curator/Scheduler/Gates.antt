-- ===== src/Curator/Scheduler/Gates.antt =====
-- When the scheduler lets the worker run, and when it routes the work to a hosted provider.
use oc_piloci.Prelude.{
  ℕ, Option, Bool, not, ◌&&◌, ◌||◌, ◌≡◌, ltb, leb, if◌then◌else◌, Floats, arith,
}
use oc_piloci.Curator.Scheduler.{SchedulerConfig, decide, in_window, reaches}

module _ {F : Type 0} (fl : Floats F) where
  -- The worker may run exactly if there is work and one of three holds: the idle window is open;
  -- the backlog is at the overflow threshold, with a provider and budget left; or neither the
  -- temperature nor the load, as far as they can be read, is at its ceiling.
  pub should_run-decide :
      (config : SchedulerConfig F) (pending : ℕ) (provider exhausted : Bool) (now : ℕ)
      (temp load : Option F)
      → (decide fl config pending provider exhausted now temp load).should_run ≡ (
          ltb 0 pending
          && (in_window config.idle_window now
              || (leb config.overflow_threshold pending && provider && not exhausted)
              || (not (reaches fl temp config.temp_ceiling_celsius)
                  && not (reaches fl load config.load_ceiling_1m))))
  unfolding decide
  should_run-decide config pending provider exhausted now temp load = ground arith

  -- Work goes to the hosted provider exactly if there is work, the idle window is shut, the backlog
  -- is at the overflow threshold, a provider is there and its budget is not used up.
  pub use_external-decide :
      (config : SchedulerConfig F) (pending : ℕ) (provider exhausted : Bool) (now : ℕ)
      (temp load : Option F)
      → (decide fl config pending provider exhausted now temp load).use_external ≡ (
          ltb 0 pending
          && not (in_window config.idle_window now)
          && leb config.overflow_threshold pending
          && provider
          && not exhausted)
  unfolding decide
  use_external-decide config pending provider exhausted now temp load = ground arith

  -- The next poll: after the normal interval for an empty queue or for local work in normal hours,
  -- after the idle interval in the idle window or for external work, else after the held one.
  pub next_poll-decide :
      (config : SchedulerConfig F) (pending : ℕ) (provider exhausted : Bool) (now : ℕ)
      (temp load : Option F)
      → let d = decide fl config pending provider exhausted now temp load in
        d.next_poll_seconds ≡ (
          if not (ltb 0 pending)
          then config.poll_interval_normal
          else if not d.should_run
          then config.poll_interval_held
          else if in_window config.idle_window now || d.use_external
          then config.poll_interval_idle
          else config.poll_interval_normal)
  unfolding decide
  next_poll-decide config pending provider exhausted now temp load = ground arith

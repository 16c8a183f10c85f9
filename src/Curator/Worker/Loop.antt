-- ===== src/Curator/Worker/Loop.antt =====
-- curator/distillation_worker.py: one round of the loop of `run_distillation_worker`, with
-- `_build_scheduler_config` and `_decide`. What the sensors, the clock and the budget say comes in.
use oc_piloci.Prelude.{
  ℕ, ◌≡◌, refl, ap, ◌∙◌, fun_ext, Option, none, some, List, Bool, true, false, not, ◌&&◌, ◌||◌,
  String, leb, ltb, if◌then◌else◌, is_nil, Floats, arith, ◌==◌,
}
use oc_piloci.Db.{Sql}
use oc_piloci.Curator.RawSessions.{RawSession}
use oc_piloci.Curator.Scheduler.{SchedulerConfig, SchedulerDecision, decide, in_window, reaches}
use oc_piloci.Curator.Scheduler.Window.{parse_idle_window}
use oc_piloci.Curator.Scheduler.Gates.{should_run-decide, next_poll-decide}
use oc_piloci.Curator.Backlog.{count_pending}
use oc_piloci.Curator.Worker.{
  Attempt, World, default_batch_size, fetch_pending_batch, pass_rows, Turn,
}

-- The settings that a round reads.
pub record Settings (F : Type 0) : Type 0 where
  pub distillation_idle_window : Option (List ℕ)
  pub distillation_temp_ceiling_c : F
  pub distillation_load_ceiling_1m : F
  pub distillation_overflow_threshold : ℕ
  pub distillation_poll_interval_normal_sec : F
  pub distillation_poll_interval_idle_sec : F
  pub distillation_poll_interval_held_sec : F
  pub distillation_max_chunks : ℕ
  pub distillation_max_attempts : ℕ
  pub external_llm_endpoint : Option String
  pub external_llm_model : Option String
  pub external_llm_api_key : Option String

-- The columns of a user's preferences that come before the settings.
pub record UserPreferences (F : Type 0) : Type 0 where
  pub distillation_idle_window : Option (List ℕ)
  pub distillation_temp_ceiling_c : Option F
  pub distillation_load_ceiling_1m : Option F
  pub distillation_overflow_threshold : Option ℕ

abbrev pub preferred {ℓ} : {A : Type ℓ} → Option A → A → A
preferred none a = a
preferred (some b) a = b

-- A preference for the idle window, which may be the empty text.
abbrev preferred_window : Option (List ℕ) → Option (List ℕ) → Option (List ℕ)
preferred_window none spec = spec
preferred_window (some s) spec = some s

abbrev config_of : {F : Type 0} → Settings F → Option (List ℕ) → F → F → ℕ → SchedulerConfig F
config_of settings idle_spec temp_ceiling load_ceiling overflow = record {
  idle_window = parse_idle_window idle_spec;
  temp_ceiling_celsius = temp_ceiling;
  load_ceiling_1m = load_ceiling;
  overflow_threshold = overflow;
  poll_interval_normal = settings.distillation_poll_interval_normal_sec;
  poll_interval_idle = settings.distillation_poll_interval_idle_sec;
  poll_interval_held = settings.distillation_poll_interval_held_sec;
  max_chunks = settings.distillation_max_chunks;
}

abbrev pub build_scheduler_config :
    {F : Type 0} → Settings F → Option (UserPreferences F) → SchedulerConfig F
build_scheduler_config settings none =
    config_of settings settings.distillation_idle_window settings.distillation_temp_ceiling_c
      settings.distillation_load_ceiling_1m settings.distillation_overflow_threshold
build_scheduler_config settings (some prefs) =
    config_of settings
      (preferred_window prefs.distillation_idle_window settings.distillation_idle_window)
      (preferred prefs.distillation_temp_ceiling_c settings.distillation_temp_ceiling_c)
      (preferred prefs.distillation_load_ceiling_1m settings.distillation_load_ceiling_1m)
      (preferred prefs.distillation_overflow_threshold settings.distillation_overflow_threshold)

-- A text that is there and not empty.
abbrev given : Option String → Bool
given none = false
given (some s) = not (s == "")

abbrev pub has_external : {F : Type 0} → Settings F → Bool
has_external settings =
    given settings.external_llm_endpoint
    && given settings.external_llm_model
    && given settings.external_llm_api_key

-- What the scheduler reads: the time of day, the temperature and the load.
pub record Probe (F : Type 0) : Type 0 where
  pub now : ℕ
  pub cpu_temp : Option F
  pub load_1m : Option F

-- What a row meets in a round: how an attempt goes depends on the route and on the chunks.
pub record Meeting : Type 0 where
  pub stopped : Bool
  pub budget_exhausted : Bool
  pub started : ℕ
  pub now : ℕ
  pub attempt : Bool → Option ℕ → Attempt

module _ {F T : Type 0} (fl : Floats F) (sql : Sql T RawSession) (settings : Settings F) where
  -- `_decide`
  abbrev pub decision : Probe F → T → SchedulerDecision F
  decision probe t =
      decide fl (build_scheduler_config settings none) (count_pending sql none t)
        (has_external settings) false probe.now probe.cpu_temp probe.load_1m

  -- The route of a row: `row_use_external`.
  abbrev pub turn_of : SchedulerDecision F → Meeting → Turn sql settings.distillation_max_attempts
  turn_of d m = record {
    stopped = m.stopped;
    started = m.started;
    now = m.now;
    attempt = m.attempt (d.use_external && not m.budget_exhausted) d.recommended_max_chunks;
  }

  -- The world after a round, and for how long the loop then waits; `none` for the probe stands for a
  -- poll that raises.
  pub round : Option (Probe F) → (RawSession → Meeting) → World T → World T × Option F
  round none meeting w = (w, some settings.distillation_poll_interval_held_sec)
  round (some probe) meeting w =
      let d = decision probe w.sessions in
      let batch =
        fetch_pending_batch sql settings.distillation_max_attempts default_batch_size w.sessions in
      if not d.should_run
      then (w, some d.next_poll_seconds)
      else if is_nil batch
      then (w, some d.next_poll_seconds)
      else (
        (pass_rows sql settings.distillation_max_attempts batch (λ row. turn_of d (meeting row))
            w).1,
        none,
      )

  abbrev pub config : SchedulerConfig F
  config = build_scheduler_config settings none

  -- With a sensor at its ceiling, outside the idle window and with no overflow to a provider, a
  -- round changes nothing, and the loop waits: for the held interval if there is work, else for
  -- the normal one.
  pub round-held :
      (probe : Probe F) (meeting : RawSession → Meeting) (w : World T)
      → (reaches fl probe.cpu_temp config.temp_ceiling_celsius
          || reaches fl probe.load_1m config.load_ceiling_1m)
        ≡ true
      → in_window config.idle_window probe.now ≡ false
      → (leb config.overflow_threshold (count_pending sql none w.sessions) && has_external settings)
        ≡ false
      → round (some probe) meeting w ≡ (
        w,
        some (
            if ltb 0 (count_pending sql none w.sessions)
            then settings.distillation_poll_interval_held_sec
            else settings.distillation_poll_interval_normal_sec),
      )
  unfolding round
  round-held probe meeting w hot busy alone =
      let waiting : ℕ = count_pending sql none w.sessions in
      let held : (decision probe w.sessions).should_run ≡ false =
        should_run-decide fl config waiting (has_external settings) false probe.now probe.cpu_temp
          probe.load_1m
        ∙ ground arith in
      rw held (
        ap (λ (x : F). (w, some x))
          (next_poll-decide fl config waiting (has_external settings) false probe.now probe.cpu_temp
              probe.load_1m
            ∙ rw held (ground arith)))

  -- The rows of users whose budget is used up are never sent to the provider: a round goes as if
  -- every attempt on the external route went as one on the local route.
  pub round-local :
      (probe : Option (Probe F)) (meeting : RawSession → Meeting) (w : World T)
      → ((row : RawSession) → (meeting row).budget_exhausted ≡ true)
      → round probe meeting w
        ≡ round probe
            (λ row. record (meeting row) { attempt = λ external. (meeting row).attempt false })
            w
  unfolding round
  round-local none meeting w h = refl
  round-local (some probe) meeting w h =
      let d = decision probe w.sessions in
      let batch =
        fetch_pending_batch sql settings.distillation_max_attempts default_batch_size w.sessions in
      ap
        (λ (turn : RawSession → Turn sql settings.distillation_max_attempts).
          if not d.should_run
          then (w, some d.next_poll_seconds)
          else if is_nil batch
          then (w, some d.next_poll_seconds)
          else ((pass_rows sql settings.distillation_max_attempts batch turn w).1, none))
        (fun_ext (λ row. same d (meeting row) (h row)))
    where
      never : (b c : Bool) → c ≡ true → (b && not c) ≡ false
      never b c e = ground arith

      same :
          (d : SchedulerDecision F) (m : Meeting)
          → m.budget_exhausted ≡ true
          → turn_of d m ≡ turn_of d (record m { attempt = λ external. m.attempt false })
      same d m e =
          ap
            (λ (b : Bool). record {
              stopped = m.stopped;
              started = m.started;
              now = m.now;
              attempt = m.attempt b d.recommended_max_chunks;
            })
            (never d.use_external m.budget_exhausted e)

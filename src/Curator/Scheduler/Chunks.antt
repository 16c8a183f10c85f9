-- ===== src/Curator/Scheduler/Chunks.antt =====
-- How many chunks the scheduler recommends.
use oc_piloci.Prelude.{ℕ, ◌≤◌, max, Option, none, some, Bool, true, ◌≡◌, Floats, IsOrdered, arith}
use oc_piloci.Curator.Scheduler.{SchedulerConfig, decide, recommend_chunks, reaches}

module _ {F : Type 0} (fl : Floats F) where
  open fl use {minus, times, milli}

  -- There is always at least one chunk, and never more than the configured number.
  pub recommend_chunks_bounds :
      (config : SchedulerConfig F) (temp load : Option F)
      → (1 ≤ recommend_chunks fl config temp load)
        × (recommend_chunks fl config temp load ≤ max 1 config.max_chunks)
  unfolding recommend_chunks
  recommend_chunks_bounds config temp load = ground arith

  -- What a decision recommends is in the same bounds.
  pub decide_chunks_bounds :
      (config : SchedulerConfig F) (pending : ℕ) (provider exhausted : Bool) (now : ℕ)
      (temp load : Option F) (n : ℕ)
      → (decide fl config pending provider exhausted now temp load).recommended_max_chunks ≡ some n
      → (1 ≤ n) × (n ≤ max 1 config.max_chunks)
  unfolding decide
  decide_chunks_bounds config pending provider exhausted now temp load n h =
      ground (arith, recommend_chunks_bounds config temp load)

  -- The reading `b` is at least `a`, or `a` is missing.
  abbrev pub AtLeast : Option F → Option F → Type 0
  AtLeast b none = Unit
  AtLeast none (some x) = ⊥
  AtLeast (some y) (some x) = fl.ge y x ≡ true

  module _ (o : IsOrdered fl) where
    reaches_mono :
        (b a : Option F) (bound : F)
        → AtLeast b a
        → reaches fl a bound ≡ true
        → reaches fl b bound ≡ true
    reaches_mono b none bound h e = cc e
    reaches_mono none (some x) bound h e = absurd h
    reaches_mono (some y) (some x) bound h e = o.trans y x bound h e

    -- A hotter or busier device is never given more chunks.
    pub recommend_chunks_antitone :
        (config : SchedulerConfig F) (temp temp' load load' : Option F)
        → AtLeast temp' temp
        → AtLeast load' load
        → recommend_chunks fl config temp' load' ≤ recommend_chunks fl config temp load
    unfolding recommend_chunks
    recommend_chunks_antitone config temp temp' load load' h k =
        let t = λ (bound : F). reaches_mono temp' temp bound h in
        let l = λ (bound : F). reaches_mono load' load bound k in
        ground (
          arith,
          t (minus config.temp_ceiling_celsius (milli 5000)),
          t (minus config.temp_ceiling_celsius (milli 15000)),
          l (times config.load_ceiling_1m (milli 900)),
          l (times config.load_ceiling_1m (milli 700)),
        )

-- ===== src/Curator/Worker.antt =====
-- curator/distillation_worker.py: what the worker does to the rows. The language model, the stores of
-- memories and instincts and the clock are outside: an `Attempt` says how they answered.
pub mod Outcome
pub mod Retries
pub mod Loop
mod Examples
use oc_piloci.Prelude.{
  ℕ, ◌+◌, ◌≡◌, Option, none, some, List, [], ◌∷◌, Bool, true, false, not, ◌&&◌, String, ◌==◌, leb,
  ltb, ◌=?◌, if◌then◌else◌, take,
}
use oc_piloci.Db.{Key, asc, desc, Sql}
use oc_piloci.Curator.RawSessions.{RawSession, State, pending, distilled, failed, is_pending}

abbrev pub default_batch_size : ℕ
default_batch_size = 4

-- The WHERE clause of `_fetch_pending_batch`.
abbrev pub is_ready : ℕ → RawSession → Bool
is_ready max_attempts r = is_pending r.distillation_state && ltb r.attempt_count max_attempts

-- A session that was distilled: how many memories and instincts were found, and on which path.
pub record Distilled : Type 0 where
  pub memories : ℕ
  pub instincts : ℕ
  pub processing_path : String

-- What happens outside of the worker while one row is processed. A session of the database that raises
-- keeps nothing of its statements. Where a result says that a step raises which the row does not
-- reach, the numbers of saved memories and instincts tell the rest.
pub data Attempt : Type 0 where
  -- `orjson.loads` raises.
  unparsable : Attempt
  -- The count of the attempt raises.
  counting_raises : Attempt
  -- The user's providers or the extraction raise.
  extraction_raises : Attempt
  -- The extraction returns, and then saving raises.
  saving_raises : Distilled → Attempt
  -- So many memories and instincts are saved, and then `record_usage` raises.
  booking_raises : Distilled → ℕ → ℕ → Attempt
  -- The last update of the row raises, or that of a row without a result.
  updating_raises : Distilled → ℕ → ℕ → Attempt
  -- `invalidate_project_vault_cache` raises.
  cache_raises : Distilled → ℕ → ℕ → Attempt
  -- Nothing raises; so many memories and instincts are saved, if the row has a project.
  returns : Distilled → ℕ → ℕ → Attempt

-- The rows, the usage records by user, and the counters of the projects.
pub record World (T : Type 0) : Type 0 where
  pub sessions : T
  pub usage : List String
  pub memory_count : String → ℕ
  pub instinct_count : String → ℕ

-- `new_state`
abbrev pub state_after : ℕ → ℕ → State
state_after max_attempts attempt_count = if leb max_attempts attempt_count then failed else pending

-- `processed_at` of a row that did not succeed.
abbrev pub closed_at : ℕ → ℕ → ℕ → Option ℕ
closed_at max_attempts attempt_count now = if leb max_attempts attempt_count then some now else none

abbrev has_text : String → Bool
has_text s = not (s == "")

-- `row.project_id or ""`
abbrev project_of : RawSession → String
project_of r = elim r.project_id [ none ↦ "" | some p ↦ p ]

abbrev pub add_count : (String → ℕ) → String → ℕ → String → ℕ
add_count counts project n p =
    if has_text project && (ltb 0 n && (project == p)) then counts p + n else counts p

module _ {T : Type 0} (sql : Sql T RawSession) (max_attempts : ℕ) where
  pub fetch_pending_batch : ℕ → T → List RawSession
  fetch_pending_batch limit t =
      take limit (
        sql.select (is_ready max_attempts) (desc (λ r. r.priority) ∷ asc (λ r. r.created_at) ∷ [])
          t)

  -- UPDATE … WHERE ingest_id == k
  abbrev pub update_row : String → (RawSession → RawSession) → World T → World T
  update_row k f w = record w { sessions = sql.update (λ r. r.ingest_id == k) f w.sessions }

  abbrev count_attempt : RawSession → ℕ → World T → World T
  count_attempt row started =
      update_row row.ingest_id
        (λ r. record r { attempt_count = r.attempt_count + 1; last_attempted_at = some started })

  -- The branch of a result with neither memories nor instincts.
  abbrev nothing_found : RawSession → Distilled → ℕ → World T → World T
  nothing_found row d now w = elim (sql.get row.ingest_id w.sessions) [
    | none ↦ w
    | some current ↦
        update_row row.ingest_id
          (λ r. record r {
            processed_at = closed_at max_attempts current.attempt_count now;
            error = some "empty_extraction";
            distillation_state = state_after max_attempts current.attempt_count;
            processing_path = some d.processing_path;
          })
          w
  ]

  abbrev book_usage : RawSession → Distilled → World T → World T
  book_usage row d w =
      if d.processing_path == "external" then record w { usage = row.user_id ∷ w.usage } else w

  abbrev finish : RawSession → Distilled → ℕ → ℕ → ℕ → World T → World T
  finish row d memories_saved instincts_saved now w =
      let w' =
        update_row row.ingest_id
          (λ r. record r {
            processed_at = some now;
            error = none;
            memories_extracted = memories_saved;
            instincts_extracted = instincts_saved;
            distillation_state = distilled;
            processing_path = some d.processing_path;
          })
          w in
      record w' {
        memory_count = add_count w.memory_count (project_of row) memories_saved;
        instinct_count = add_count w.instinct_count (project_of row) instincts_saved;
      }

  -- What follows a result, once memories and instincts are saved for a row with a project.
  abbrev complete : RawSession → Distilled → ℕ → ℕ → ℕ → World T → World T
  complete row d m i now w =
      finish row d (if has_text (project_of row) then m else 0)
        (if has_text (project_of row) then i else 0) now (book_usage row d w)

  -- Whether the call raised, and the state that it left.
  pub process_one : RawSession → ℕ → ℕ → Attempt → World T → Bool × World T
  process_one row started now unparsable w = (true, w)
  process_one row started now counting_raises w = (true, w)
  process_one row started now extraction_raises w = (true, count_attempt row started w)
  process_one row started now (saving_raises d) w =
      if (d.memories =? 0) && (d.instincts =? 0)
      then (false, nothing_found row d now (count_attempt row started w))
      else if has_text (project_of row)
      then (true, count_attempt row started w)
      else (false, complete row d 0 0 now (count_attempt row started w))
  process_one row started now (booking_raises d m i) w =
      if (d.memories =? 0) && (d.instincts =? 0)
      then (false, nothing_found row d now (count_attempt row started w))
      else if d.processing_path == "external"
      then (true, count_attempt row started w)
      else (false, complete row d m i now (count_attempt row started w))
  process_one row started now (updating_raises d m i) w =
      if (d.memories =? 0) && (d.instincts =? 0)
      then (true, count_attempt row started w)
      else (true, book_usage row d (count_attempt row started w))
  process_one row started now (cache_raises d m i) w =
      if (d.memories =? 0) && (d.instincts =? 0)
      then (false, nothing_found row d now (count_attempt row started w))
      else (
        has_text (project_of row) && ltb 0 m,
        complete row d m i now (count_attempt row started w),
      )
  process_one row started now (returns d m i) w =
      if (d.memories =? 0) && (d.instincts =? 0)
      then (false, nothing_found row d now (count_attempt row started w))
      else (false, complete row d m i now (count_attempt row started w))

  -- The handler of an exception, whose own statements do not raise.
  pub on_crash : RawSession → ℕ → World T → World T
  on_crash row now w = elim (sql.get row.ingest_id w.sessions) [
    | none ↦ w
    | some current ↦
        update_row row.ingest_id
          (λ r. record r {
            processed_at = closed_at max_attempts current.attempt_count now;
            error = some "worker_exception";
            distillation_state = state_after max_attempts current.attempt_count;
          })
          w
  ]

  -- One row of a batch: whether it counts as processed, and the state.
  pub handle : RawSession → ℕ → ℕ → Attempt → World T → Bool × World T
  handle row started now attempt w =
      let r = process_one row started now attempt w in
      if r.0 then (false, on_crash row now r.1) else (true, r.1)

  -- What one row of a pass meets: whether the stop event is set, the times, and the outside.
  pub record Turn : Type 0 where
    pub stopped : Bool
    pub started : ℕ
    pub now : ℕ
    pub attempt : Attempt

  -- The loop of `run_distillation_pass` over the batch.
  pub pass_rows : List RawSession → (RawSession → Turn) → World T → ℕ × World T
  pass_rows [] turn w = (0, w)
  pass_rows (row ∷ rows) turn w =
      let t = turn row in
      let h = handle row t.started t.now t.attempt w in
      let rest = pass_rows rows turn h.1 in
      if t.stopped then (0, w) else (if h.0 then rest.0 + 1 else rest.0, rest.1)

  pub run_distillation_pass : ℕ → (RawSession → Turn) → World T → ℕ × World T
  run_distillation_pass max_rows turn w = pass_rows (fetch_pending_batch max_rows w.sessions) turn w

-- ===== src/Curator/Ingest.antt =====
-- api/routes.py: `route_ingest` and `route_sessions_ingest`, which store captured sessions as rows:
-- the prefilter decides their state, and the ceiling is enforced after each that is queued. The ids
-- of rows and the time come in; texts and JSON are parameters.
pub mod Ceiling
pub mod Again
mod Examples
use oc_piloci.Prelude.{
  ℕ, suc, ◌+◌, ◌*◌, Option, none, some, List, [], ◌∷◌, Bool, true, false, not, ◌&&◌, ◌||◌, String,
  ◌==◌, ltb, if◌then◌else◌, length, take, is_nil,
}
use oc_piloci.Db.{Sql}
use oc_piloci.Curator.RawSessions.{RawSession, State, pending, filtered}
use oc_piloci.Curator.Backlog.{enforce_ceiling_after_ingest}
use oc_piloci.Curator.Prefilter.{
  Message, messages, FilterReason, empty, system_notification, too_short, no_assistant_content,
  low_diversity, Library, passes, evaluate,
}

pub record IngestTexts : Type 0 where
  pub strip : String → String
  -- `text[:n]`
  pub cut : ℕ → String → String
  pub splitlines : String → List String
  -- `orjson.loads` of a line, `none` where it raises.
  pub loads : String → Option Message
  pub dumps : List Message → String

-- The caller, as the token names it.
pub record Uploader : Type 0 where
  pub user_id : String
  pub project_id : Option String

pub record IngestBody : Type 0 where
  pub client : Option String
  -- `none` where it is no list.
  pub transcript : Option (List Message)
  pub session_id : Option String
  pub project_id : Option String

pub data IngestReply : Type 0 where
  turned_away : ℕ → IngestReply
  -- whether it is queued, and how many rows were archived
  accepted : Bool → ℕ → IngestReply

pub record BatchItem : Type 0 where
  pub session_id : Option String
  pub transcript : Option String
  pub source : Option String

abbrev pub reason_text : FilterReason → String
reason_text empty = "empty"
reason_text system_notification = "system_notification"
reason_text too_short = "too_short"
reason_text no_assistant_content = "no_assistant_content"
reason_text low_diversity = "low_diversity"

abbrev pub or_empty : Option String → String
or_empty none = ""
or_empty (some s) = s

abbrev pub first_given : Option String → Option String → Option String
first_given none b = b
first_given (some a) b = if a == "" then b else some a

abbrev pub nonempty : String → Option String
nonempty s = if s == "" then none else some s

abbrev pub or_name : String → String → String
or_name s name = if s == "" then name else s

abbrev pub is_given : Option String → Bool
is_given none = false
is_given (some s) = not (s == "")

-- The row of a captured session, with the defaults of the columns.
abbrev pub captured :
    String
    → String
    → Option String
    → String
    → Option String
    → String
    → ℕ
    → State
    → Option String
    → RawSession
captured ingest_id user_id project_id client session_id transcript_json now state reason = record {
  ingest_id = ingest_id;
  user_id = user_id;
  project_id = project_id;
  client = client;
  session_id = session_id;
  transcript_json = transcript_json;
  created_at = now;
  processed_at = none;
  error = none;
  memories_extracted = 0;
  instincts_extracted = 0;
  distillation_state = state;
  archived_at = none;
  processing_path = none;
  priority = 0;
  filter_reason = reason;
  last_attempted_at = none;
  attempt_count = 0;
}

abbrev pub is_same : Option String → String → Bool
is_same none k = false
is_same (some j) k = j == k

-- A row of this user, project and session.
abbrev pub is_row_of : String → String → String → RawSession → Bool
is_row_of user_id project_id session_id r =
    (r.user_id == user_id) && (is_same r.project_id project_id && is_same r.session_id session_id)

module _ {T : Type 0} (sql : Sql T RawSession) (texts : IngestTexts) (lib : Library)
    (max_pending : ℕ) where
  open texts use {strip, cut, splitlines, loads, dumps}

  -- The row is stored, and the ceiling is enforced if it is queued.
  abbrev pub store_captured : RawSession → Bool → String → ℕ → T → T × ℕ
  store_captured row queued user_id now t =
      if queued
      then (
        (enforce_ceiling_after_ingest sql max_pending (some user_id) now (sql.insert row t)).1,
        (enforce_ceiling_after_ingest sql max_pending (some user_id) now (sql.insert row t)).0,
      )
      else (sql.insert row t, 0)

  -- The state that the prefilter gives a transcript, and the reason.
  abbrev pub initial_state : List Message → State
  initial_state ms = if passes (evaluate lib (messages ms)) then pending else filtered

  abbrev pub reason_of : List Message → Option String
  reason_of ms = elim (evaluate lib (messages ms)).reason [
    | none ↦ none
    | some r ↦ some (reason_text r)
  ]

  abbrev pub row_of : Uploader → IngestBody → List Message → String → ℕ → RawSession
  row_of u b ms ingest_id now =
      captured ingest_id u.user_id (first_given b.project_id u.project_id)
        (cut 50 (or_name (strip (or_empty b.client)) "unknown"))
        (nonempty (cut 200 (or_empty b.session_id))) (dumps ms) now (initial_state ms)
        (reason_of ms)

  -- The body is `none` for no JSON; `is_large` says whether it is over the limit.
  unfoldable pub ingest :
      Option Uploader → Bool → Option IngestBody → String → ℕ → T → T × IngestReply
  ingest none is_large body ingest_id now t = (t, turned_away 401)
  ingest (some u) true body ingest_id now t = (t, turned_away 413)
  ingest (some u) false none ingest_id now t = (t, turned_away 400)
  ingest (some u) false (some b) ingest_id now t = elim b.transcript [
    | none ↦ (t, turned_away 400)
    | some ms ↦
        let project : Option String = first_given b.project_id u.project_id in
        let queued : Bool = passes (evaluate lib (messages ms)) in
        let stored : T × ℕ = store_captured (row_of u b ms ingest_id now) queued u.user_id now t in
        if is_nil ms || ((u.user_id == "") || not (is_given project))
        then (t, turned_away 400)
        else (stored.0, accepted queued stored.1)
  ]

  -- The messages of the lines that are not blank.
  abbrev pub messages_of : List String → Option (List Message)
  messages_of [] = some []
  messages_of (line ∷ lines) =
      let rest = messages_of lines in
      if strip line == "" then rest else elim (loads line) [
        | none ↦ none
        | some m ↦ (elim rest [ none ↦ none | some ms ↦ some (m ∷ ms) ])
      ]

  -- What an item of a batch is worth queueing, by its contents alone.
  abbrev pub worth : BatchItem → Option (List Message)
  worth i =
      if (strip (or_empty i.session_id) == "") || (or_empty i.transcript == "")
      then none
      else elim (messages_of (splitlines (or_empty i.transcript))) [
        | none ↦ none
        | some ms ↦
            if ltb (length ms) 5
            then none
            else if passes (evaluate lib (messages ms))
            then some ms
            else none
      ]

  abbrev pub item_row : String → String → BatchItem → List Message → String → ℕ → RawSession
  item_row user_id project_id i ms ingest_id now =
      captured ingest_id user_id (some project_id)
        (or_name (cut 50 (strip (or_empty i.source))) "session-start-hook")
        (some (cut 200 (strip (or_empty i.session_id)))) (dumps ms) now (initial_state ms)
        (reason_of ms)

  -- One item of a batch: whether it is queued.
  unfoldable pub ingest_item : String → String → BatchItem → String → ℕ → T → T × Bool
  ingest_item user_id project_id i ingest_id now t =
      if not
        (is_nil (sql.select (is_row_of user_id project_id (strip (or_empty i.session_id))) [] t))
      then (t, false)
      else elim (worth i) [
        | none ↦ (t, false)
        | some ms ↦ (
          (store_captured (item_row user_id project_id i ms ingest_id now) true user_id now t).0,
          true,
        )
      ]

  -- The loop over the batch: the numbers of queued and of skipped sessions.
  unfoldable pub ingest_items : String → String → List (BatchItem × String) → ℕ → T → T × (ℕ × ℕ)
  ingest_items user_id project_id [] now t = (t, (0, 0))
  ingest_items user_id project_id ((i, ingest_id) ∷ items) now t =
      let one_done = ingest_item user_id project_id i ingest_id now t in
      let rest = ingest_items user_id project_id items now one_done.0 in
      (rest.0, if one_done.1 then (rest.1.0 + 1, rest.1.1) else (rest.1.0, rest.1.1 + 1))

  -- The batch has at most 50 items.
  unfoldable pub sessions_ingest : String → String → List (BatchItem × String) → ℕ → T → T × (ℕ × ℕ)
  sessions_ingest user_id project_id items now t =
      ingest_items user_id project_id (take 50 items) now t

-- ===== src/Curator/RawSessions.antt =====
-- db/models.py: `RawSession`, the row of a captured session. Times are numbers.
use oc_piloci.Prelude.{ℕ, Option, String, Bool, true, false}

-- The values of the column `distillation_state`.
pub data State : Type 0 where
  pending distilled filtered failed archived : State

pub record RawSession : Type 0 where
  pub ingest_id : String
  pub user_id : String
  pub project_id : Option String
  pub client : String
  pub session_id : Option String
  pub transcript_json : String
  pub created_at : ℕ
  pub processed_at : Option ℕ
  pub error : Option String
  pub memories_extracted : ℕ
  pub instincts_extracted : ℕ
  pub distillation_state : State
  pub archived_at : Option ℕ
  pub processing_path : Option String
  pub priority : ℕ
  pub filter_reason : Option String
  pub last_attempted_at : Option ℕ
  pub attempt_count : ℕ

-- `distillation_state == "pending"`
abbrev pub is_pending : State → Bool
is_pending pending = true
is_pending distilled = false
is_pending filtered = false
is_pending failed = false
is_pending archived = false

-- `distillation_state == "archived"`
abbrev pub is_archived : State → Bool
is_archived archived = true
is_archived pending = false
is_archived distilled = false
is_archived filtered = false
is_archived failed = false

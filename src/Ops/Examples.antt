-- ===== src/Ops/Examples.antt =====
-- Runs of the retention pass.
use oc_piloci.Prelude.{ℕ, ◌≡◌, Option, none, some, List, [], ◌∷◌, ◌&&◌, String}
use oc_piloci.Db.{Sql, count_if}
use oc_piloci.Db.Table.{table, table-IsSql}
use oc_piloci.Curator.RawSessions.{RawSession, State, pending, distilled, filtered}
use oc_piloci.Ops.Maintenance.{
  AuditLog, cleanup_retention, is_none, is_filtered, cleanup_retention-filtered,
}

abbrev sample : String → State → Option ℕ → RawSession
sample k state processed_at = record {
  ingest_id = k;
  user_id = "ann";
  project_id = none;
  client = "claude";
  session_id = none;
  transcript_json = "[]";
  created_at = 10;
  processed_at = processed_at;
  error = none;
  memories_extracted = 0;
  instincts_extracted = 0;
  distillation_state = state;
  archived_at = none;
  processing_path = none;
  priority = 0;
  filter_reason = none;
  last_attempted_at = none;
  attempt_count = 0;
}

abbrev old_rows : List RawSession
old_rows = sample "a" pending none ∷ sample "b" filtered none ∷ sample "c" distilled (some 20) ∷ []

abbrev sessions : Sql (List RawSession) RawSession
sessions = table (λ r. r.ingest_id)

abbrev logs : Sql (List AuditLog) AuditLog
logs = table (λ a. "")

-- Thirty days after the first of January.
abbrev later : ℕ
later = 2_592_000

cleanup_retention-filtered_example :
    count_if
      (λ r. is_filtered r.distillation_state && is_none r.processed_at)
      (cleanup_retention sessions logs 7 7 later old_rows []).2
    ≡ count_if (λ r. is_filtered r.distillation_state && is_none r.processed_at) old_rows
cleanup_retention-filtered_example =
    cleanup_retention-filtered sessions logs (table-IsSql (λ r. r.ingest_id)) 7 7 later old_rows []

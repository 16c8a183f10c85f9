-- ===== src/Curator/Worker/Examples.antt =====
-- Rounds of the worker's loop on an empty table and on one row.
use oc_piloci.Prelude.{ℕ, none, some, List, [], ◌∷◌, true, false, if◌then◌else◌}
use oc_piloci.Db.{Sql}
use oc_piloci.Db.Table.{table}
use oc_piloci.Curator.RawSessions.{RawSession, pending}
use oc_piloci.Curator.Worker.{extraction_raises, returns, World}
use oc_piloci.Curator.Worker.Loop.{Settings, Probe, Meeting}

abbrev settings : Settings ℕ
settings = record {
  distillation_idle_window = none;
  distillation_temp_ceiling_c = 70000;
  distillation_load_ceiling_1m = 3000;
  distillation_overflow_threshold = 50;
  distillation_poll_interval_normal_sec = 60000;
  distillation_poll_interval_idle_sec = 5000;
  distillation_poll_interval_held_sec = 120000;
  distillation_max_chunks = 4;
  distillation_max_attempts = 3;
  external_llm_endpoint = none;
  external_llm_model = none;
  external_llm_api_key = none;
}

abbrev row : RawSession
row = record {
  ingest_id = "a";
  user_id = "ann";
  project_id = none;
  client = "claude";
  session_id = none;
  transcript_json = "[]";
  created_at = 10;
  processed_at = none;
  error = none;
  memories_extracted = 0;
  instincts_extracted = 0;
  distillation_state = pending;
  archived_at = none;
  processing_path = none;
  priority = 0;
  filter_reason = none;
  last_attempted_at = none;
  attempt_count = 0;
}

abbrev sessions : Sql (List RawSession) RawSession
sessions = table (λ r. r.ingest_id)

abbrev world : World (List RawSession)
world = record { sessions = row ∷ []; usage = []; memory_count = λ p. 0; instinct_count = λ p. 0 }

abbrev hot : Probe ℕ
hot = record { now = 0; cpu_temp = some 71000; load_1m = none }

abbrev cool : Probe ℕ
cool = record { now = 0; cpu_temp = some 41000; load_1m = none }

abbrev meeting : RawSession → Meeting
meeting r = record {
  stopped = false;
  budget_exhausted = true;
  started = 20;
  now = 30;
  attempt = λ external chunks.
      if external
      then returns (record { memories = 1; instincts = 0; processing_path = "external" }) 1 0
      else extraction_raises;
}

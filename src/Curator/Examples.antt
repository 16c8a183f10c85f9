-- ===== src/Curator/Examples.antt =====
-- Runs of the backlog and the worker on sample rows.
use oc_piloci.Prelude.{
  ℕ, ◌+◌, ◌≡◌, refl, min, none, some, List, [], ◌∷◌, ◌++◌, map, true, String, length, if◌then◌else◌,
  keep, contains, All, arith, eq_iff,
}
use oc_piloci.Db.{Sql, SameRows, precedes}
use oc_piloci.Db.Counts.{HasKeys}
use oc_piloci.Db.Table.{table, table-IsSql}
use oc_piloci.Curator.RawSessions.{RawSession, pending}
use oc_piloci.Curator.Backlog.{waits, archive_order, archive, count_pending, archive_overflow}
use oc_piloci.Curator.Backlog.Ceiling.{count_pending-archive_overflow, archive_overflow-order}
use oc_piloci.Curator.Worker.{
  unparsable, extraction_raises, cache_raises, Distilled, World, is_ready, handle,
}
use oc_piloci.Curator.Worker.Outcome.{outcome, has_project, handle_get}
use oc_piloci.Curator.Worker.Retries.{Visit, Settled, visits, visits_settle, visits_unparsable}

abbrev sample : String → ℕ → ℕ → ℕ → RawSession
sample k created_at priority attempts = record {
  ingest_id = k;
  user_id = "ann";
  project_id = some "proj";
  client = "claude";
  session_id = none;
  transcript_json = "[]";
  created_at = created_at;
  processed_at = none;
  error = none;
  memories_extracted = 0;
  instincts_extracted = 0;
  distillation_state = pending;
  archived_at = none;
  processing_path = none;
  priority = priority;
  filter_reason = none;
  last_attempted_at = none;
  attempt_count = attempts;
}

abbrev backlog : List RawSession
backlog = sample "a" 10 1 0 ∷ sample "b" 20 0 0 ∷ sample "c" 30 0 0 ∷ []

abbrev sessions : Sql (List RawSession) RawSession
sessions = table (λ r. r.ingest_id)

backlog-HasKeys : HasKeys (λ (r : RawSession). r.ingest_id) backlog
backlog-HasKeys k = ground (
  arith,
  eq_iff "a" k,
  eq_iff "b" k,
  eq_iff "c" k,
  eq_iff "a" "b",
  eq_iff "a" "c",
  eq_iff "b" "c",
)

count_pending-archive_overflow_example :
    (count_pending sessions (some "ann") (archive_overflow sessions 1 (some "ann") 50 backlog).1
      ≡ min (count_pending sessions (some "ann") backlog) 1)
    × ((archive_overflow sessions 1 (some "ann") 50 backlog).0
          + count_pending sessions
              (some "ann")
              (archive_overflow sessions 1 (some "ann") 50 backlog).1
        ≡ count_pending sessions (some "ann") backlog)
count_pending-archive_overflow_example =
    count_pending-archive_overflow sessions (table-IsSql (λ r. r.ingest_id)) (some "ann") backlog
      backlog-HasKeys 1 50

archive_overflow-order_example :
    (front rest : List RawSession) × SameRows (front ++ rest) (keep (waits (some "ann")) backlog)
    × All (λ a. All (λ b. precedes archive_order a b ≡ true) rest) front
    × (length front ≡ (archive_overflow sessions 1 (some "ann") 50 backlog).0)
    × ((archive_overflow sessions 1 (some "ann") 50 backlog).1
        ≡ map
            (λ r.
              if contains r.ingest_id (map (λ (a : RawSession). a.ingest_id) front)
              then archive 50 r
              else r)
            backlog)
archive_overflow-order_example =
    archive_overflow-order sessions (table-IsSql (λ r. r.ingest_id)) (some "ann") backlog
      backlog-HasKeys 1 50

abbrev world : World (List RawSession)
world = record { sessions = backlog; usage = []; memory_count = λ p. 0; instinct_count = λ p. 0 }

handle_get_example :
    sessions.get "b"
      (handle sessions 3 (sample "b" 20 0 0) 60 61 extraction_raises world).1.sessions
    ≡ some (outcome 3 60 61 (has_project (sample "b" 20 0 0)) extraction_raises (sample "b" 20 0 0))
handle_get_example =
    handle_get (table-IsSql (λ r. r.ingest_id)) (λ r. refl) 3 (sample "b" 20 0 0) 60 61
      extraction_raises world (sample "b" 20 0 0) refl

abbrev found : Distilled
found = record { memories = 1; instincts = 0; processing_path = "external" }

abbrev two_failures : List Visit
two_failures =
    record { started = 60; now = 61; attempt = extraction_raises }
    ∷ record { started = 70; now = 71; attempt = cache_raises found 1 0 }
    ∷ []

visits_settle_example :
    (r : RawSession) × (sessions.get "b" (visits sessions 2 "b" two_failures world).sessions
      ≡ some r)
    × Settled 2 r
visits_settle_example =
    visits_settle (table-IsSql (λ r. r.ingest_id)) (λ r. refl) 2 "b" two_failures world
      (sample "b" 20 0 0) refl refl refl (refl, (refl, tt)) (omega arith)

abbrev bad_visit : List Visit
bad_visit = record { started = 60; now = 61; attempt = unparsable } ∷ []

visits_unparsable_example :
    (r : RawSession) × (sessions.get "b" (visits sessions 2 "b" bad_visit world).sessions ≡ some r)
    × (r.attempt_count ≡ 0)
    × (is_ready 2 r ≡ true)
visits_unparsable_example =
    visits_unparsable (table-IsSql (λ r. r.ingest_id)) (λ r. refl) 2 "b" bad_visit world
      (sample "b" 20 0 0) refl refl refl (refl, tt)

-- ===== src/Curator/Backlog.antt =====
-- curator/backlog.py: the ceiling on the rows that wait for distillation. The functions take the
-- statements of the database, the time, and the table, and return their result with the new table.
pub mod Ceiling
use oc_piloci.Prelude.{
  ℕ, ◌-◌, Option, none, some, List, [], ◌∷◌, map, Bool, true, false, ◌&&◌, String, ◌==◌, leb,
  if◌then◌else◌, length, take, is_nil, contains,
}
use oc_piloci.Db.{Key, asc, Sql}
use oc_piloci.Curator.RawSessions.{RawSession, archived, is_pending}

-- The WHERE clause: pending, and of this user if one is given.
abbrev pub waits : Option String → RawSession → Bool
waits none r = is_pending r.distillation_state
waits (some u) r = is_pending r.distillation_state && (r.user_id == u)

-- The first to be archived: least priority, then oldest.
abbrev pub archive_order : List (Key RawSession)
archive_order = asc (λ r. r.priority) ∷ asc (λ r. r.created_at) ∷ []

abbrev pub archive : ℕ → RawSession → RawSession
archive now r = record r {
  distillation_state = archived;
  archived_at = some now;
  filter_reason = some "backlog_overflow";
}

module _ {T : Type 0} (sql : Sql T RawSession) where
  unfoldable pub count_pending : Option String → T → ℕ
  count_pending user_id t = sql.count (waits user_id) t

  -- `candidates_stmt`: the ids of the `excess` rows to archive.
  abbrev pub candidates : ℕ → Option String → T → List String
  candidates excess user_id t =
      map (λ r. r.ingest_id) (take excess (sql.select (waits user_id) archive_order t))

  unfoldable pub archive_overflow : ℕ → Option String → ℕ → T → ℕ × T
  archive_overflow max_pending user_id now t =
      let pending_now = count_pending user_id t in
      let ids = candidates (pending_now - max_pending) user_id t in
      if leb pending_now max_pending
      then (0, t)
      else if is_nil ids
      then (0, t)
      else (length ids, sql.update (λ r. contains r.ingest_id ids) (archive now) t)

  unfoldable pub enforce_ceiling_after_ingest : ℕ → Option String → ℕ → T → ℕ × T
  enforce_ceiling_after_ingest max_pending user_id now t =
      archive_overflow max_pending user_id now t

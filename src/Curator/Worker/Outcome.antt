-- ===== src/Curator/Worker/Outcome.antt =====
-- What the handling of one row makes of that row, and that it leaves the others alone.
use oc_piloci.Prelude.{
  ℕ, ◌+◌, ◌≡◌, refl, ◌∙◌, ap, fun_ext, none, some, List, [], ◌∷◌, map, Bool, false, not, ◌&&◌, ltb,
  String, ◌==◌, ◌=?◌, if◌then◌else◌, arith, eq_iff, eq_refl, Bool-cases, Option-cases, inl, inr,
}
use mathlib.Core.Option
use oc_piloci.Db.{Sql, IsSql, find}
use oc_piloci.Curator.RawSessions.{RawSession, distilled}
use oc_piloci.Curator.Worker.{
  Distilled, Attempt, unparsable, counting_raises, extraction_raises, saving_raises, booking_raises,
  updating_raises, cache_raises, returns, World, state_after, closed_at, process_one, nothing_found,
  book_usage, finish, complete, count_attempt, has_text, project_of, on_crash, handle,
}

-- An update of the row with one id is seen by a lookup of that id, and by no other.
find-update :
    (k j : String) (f : RawSession → RawSession) (rows : List RawSession)
    → ((r : RawSession) → (f r).ingest_id ≡ r.ingest_id)
    → find (λ r. r.ingest_id == j) (map (λ r. if r.ingest_id == k then f r else r) rows) ≡ (
        if k == j
        then Option.map f (find (λ r. r.ingest_id == j) rows)
        else find (λ r. r.ingest_id == j) rows)
find-update k j f [] h = ground arith
find-update k j f (x ∷ rows) h = ground (
  arith,
  h x,
  find-update k j f rows h,
  eq_iff x.ingest_id k,
  eq_iff x.ingest_id j,
  eq_iff (f x).ingest_id j,
  eq_iff k j,
)

abbrev counted : ℕ → RawSession → RawSession
counted started r = record r {
  attempt_count = r.attempt_count + 1;
  last_attempted_at = some started;
}

-- A row that did not succeed, with its attempts counted.
abbrev unsuccessful : ℕ → ℕ → String → RawSession → RawSession
unsuccessful max_attempts now why r = record r {
  processed_at = closed_at max_attempts r.attempt_count now;
  error = some why;
  distillation_state = state_after max_attempts r.attempt_count;
}

abbrev succeeded : ℕ → Distilled → ℕ → ℕ → RawSession → RawSession
succeeded now d m i r = record r {
  processed_at = some now;
  error = none;
  memories_extracted = m;
  instincts_extracted = i;
  distillation_state = distilled;
  processing_path = some d.processing_path;
}

abbrev pub has_project : RawSession → Bool
has_project r = elim r.project_id [ none ↦ false | some p ↦ not (p == "") ]

abbrev pub found_nothing : Distilled → Bool
found_nothing d = (d.memories =? 0) && (d.instincts =? 0)

abbrev emptied : ℕ → ℕ → ℕ → Distilled → RawSession → RawSession
emptied max_attempts started now d r =
    record (unsuccessful max_attempts now "empty_extraction" (counted started r)) {
      processing_path = some d.processing_path;
    }

abbrev crashed : ℕ → ℕ → RawSession → RawSession
crashed max_attempts now r = unsuccessful max_attempts now "worker_exception" r

-- A row whose result was saved, with a project or without one.
abbrev saved : ℕ → ℕ → Bool → Distilled → ℕ → ℕ → RawSession → RawSession
saved started now project d m i r =
    succeeded now d (if project then m else 0) (if project then i else 0) (counted started r)

-- What becomes of a row, by what happened outside: an attempt counts as soon as the transcript is
-- parsed and the count is written; without a result, or where a later step raises, the row stays
-- pending until its attempts are used up, and then fails. So does a row that was already distilled, where
-- the cache raises.
abbrev pub outcome : ℕ → ℕ → ℕ → Bool → Attempt → RawSession → RawSession
outcome max_attempts started now project unparsable r = crashed max_attempts now r
outcome max_attempts started now project counting_raises r = crashed max_attempts now r
outcome max_attempts started now project extraction_raises r =
    crashed max_attempts now (counted started r)
outcome max_attempts started now project (saving_raises d) r =
    if found_nothing d
    then emptied max_attempts started now d r
    else if project
    then crashed max_attempts now (counted started r)
    else saved started now project d 0 0 r
outcome max_attempts started now project (booking_raises d m i) r =
    if found_nothing d
    then emptied max_attempts started now d r
    else if d.processing_path == "external"
    then crashed max_attempts now (counted started r)
    else saved started now project d m i r
outcome max_attempts started now project (updating_raises d m i) r =
    crashed max_attempts now (counted started r)
outcome max_attempts started now project (cache_raises d m i) r =
    if found_nothing d
    then emptied max_attempts started now d r
    else if project && ltb 0 m
    then crashed max_attempts now (saved started now project d m i r)
    else saved started now project d m i r
outcome max_attempts started now project (returns d m i) r =
    if found_nothing d
    then emptied max_attempts started now d r
    else saved started now project d m i r

project_test : (r : RawSession) → has_text (project_of r) ≡ has_project r
project_test r = elim (Option-cases r.project_id) [ inl e ↦ rw e | inr (p, e) ↦ rw e ]

module _ {T : Type 0} {sql : Sql T RawSession} (laws : IsSql sql)
    (by_id : (r : RawSession) → sql.primary_key r ≡ r.ingest_id) where
  get_by_id : (k : String) (t : T) → sql.get k t ≡ find (λ r. r.ingest_id == k) (sql.rows t)
  get_by_id k t =
      laws.get_lem k t
      ∙ ap (λ (key : RawSession → String). find (λ r. key r == k) (sql.rows t)) (fun_ext by_id)

  get-update :
      (k j : String) (f : RawSession → RawSession) (t : T)
      → ((r : RawSession) → (f r).ingest_id ≡ r.ingest_id)
      → sql.get j (sql.update (λ r. r.ingest_id == k) f t)
        ≡ (if k == j then Option.map f (sql.get j t) else sql.get j t)
  get-update k j f t h =
      get_by_id j (sql.update (λ r. r.ingest_id == k) f t)
      ∙ ap (find (λ r. r.ingest_id == j)) (laws.rows-update (λ r. r.ingest_id == k) f t)
      ∙ find-update k j f (sql.rows t) h
      ∙ rw (← get_by_id j t) refl

  get-update_self :
      (k : String) (f : RawSession → RawSession) (t : T) (cur : RawSession)
      → ((r : RawSession) → (f r).ingest_id ≡ r.ingest_id)
      → sql.get k t ≡ some cur
      → sql.get k (sql.update (λ r. r.ingest_id == k) f t) ≡ some (f cur)
  get-update_self k f t cur h e = get-update k k f t h ∙ rw (eq_refl k, e)

  module _ (max_attempts : ℕ) (row : RawSession) (started now : ℕ) where
    on_crash_get :
        (w : World T) (cur : RawSession)
        → sql.get row.ingest_id w.sessions ≡ some cur
        → sql.get row.ingest_id (on_crash sql max_attempts row now w).sessions
          ≡ some (unsuccessful max_attempts now "worker_exception" cur)
    unfolding on_crash
    on_crash_get w cur e =
        rw (e, on_crash)
          (get-update_self row.ingest_id
            (λ r. record r {
              processed_at = closed_at max_attempts cur.attempt_count now;
              error = some "worker_exception";
              distillation_state = state_after max_attempts cur.attempt_count;
            })
            w.sessions cur (λ r. refl) e)

    nothing_found_get :
        (d : Distilled) (w : World T) (cur : RawSession)
        → sql.get row.ingest_id w.sessions ≡ some cur
        → sql.get row.ingest_id (nothing_found sql max_attempts row d now w).sessions
          ≡ some (record (unsuccessful max_attempts now "empty_extraction" cur) {
            processing_path = some d.processing_path;
          })
    nothing_found_get d w cur e =
        rw (e, nothing_found)
          (get-update_self row.ingest_id
            (λ r. record r {
              processed_at = closed_at max_attempts cur.attempt_count now;
              error = some "empty_extraction";
              distillation_state = state_after max_attempts cur.attempt_count;
              processing_path = some d.processing_path;
            })
            w.sessions cur (λ r. refl) e)

    book_usage_sessions :
        (d : Distilled) (w : World T) → (book_usage sql max_attempts row d w).sessions ≡ w.sessions
    book_usage_sessions d w = ground arith

    finish_get :
        (d : Distilled) (m i : ℕ) (w : World T) (cur : RawSession)
        → sql.get row.ingest_id w.sessions ≡ some cur
        → sql.get row.ingest_id
            (finish sql max_attempts row d m i now (book_usage sql max_attempts row d w)).sessions
          ≡ some (succeeded now d m i cur)
    finish_get d m i w cur e =
        rw (book_usage_sessions d w)
          (get-update_self row.ingest_id (succeeded now d m i) w.sessions cur (λ r. refl) e)

    counted_get :
        (w : World T) (cur : RawSession)
        → sql.get row.ingest_id w.sessions ≡ some cur
        → sql.get row.ingest_id (count_attempt sql max_attempts row started w).sessions
          ≡ some (counted started cur)
    counted_get w cur e =
        get-update_self row.ingest_id (counted started) w.sessions cur (λ r. refl) e

    emptied_get :
        (d : Distilled) (w : World T) (cur : RawSession)
        → sql.get row.ingest_id w.sessions ≡ some cur
        → sql.get row.ingest_id
            (nothing_found sql max_attempts row d now
              (count_attempt sql max_attempts row started w)).sessions
          ≡ some (emptied max_attempts started now d cur)
    emptied_get d w cur e = nothing_found_get d _ (counted started cur) (counted_get w cur e)

    complete_get :
        (d : Distilled) (m i : ℕ) (w : World T) (cur : RawSession)
        → sql.get row.ingest_id w.sessions ≡ some cur
        → sql.get row.ingest_id
            (complete sql max_attempts row d m i now
              (count_attempt sql max_attempts row started w)).sessions
          ≡ some (saved started now (has_project row) d m i cur)
    complete_get d m i w cur e =
        rw (project_test row) (finish_get d _ _ _ (counted started cur) (counted_get w cur e))

    crashed_get :
        (w : World T) (cur : RawSession)
        → sql.get row.ingest_id w.sessions ≡ some cur
        → sql.get row.ingest_id
            (on_crash sql max_attempts row now
              (count_attempt sql max_attempts row started w)).sessions
          ≡ some (crashed max_attempts now (counted started cur))
    crashed_get w cur e = on_crash_get _ (counted started cur) (counted_get w cur e)

    -- The row of the table becomes what `outcome` says of it.
    pub handle_get :
        (attempt : Attempt) (w : World T) (cur : RawSession)
        → sql.get row.ingest_id w.sessions ≡ some cur
        → sql.get row.ingest_id (handle sql max_attempts row started now attempt w).1.sessions
          ≡ some (outcome max_attempts started now (has_project row) attempt cur)
    unfolding handle process_one
    handle_get unparsable w cur e = on_crash_get w cur e
    handle_get counting_raises w cur e = on_crash_get w cur e
    handle_get extraction_raises w cur e = crashed_get w cur e
    handle_get (saving_raises d) w cur e = elim (Bool-cases (found_nothing d)) [
      | inl n ↦ rw (n, handle, process_one) (emptied_get d w cur e)
      | inr n ↦ elim (Bool-cases (has_project row)) [
        | inl p ↦ rw (n, project_test row ∙ p, p, handle, process_one) (crashed_get w cur e)
        | inr p ↦
            rw (n, project_test row ∙ p, p, handle, process_one)
              (rw (project_test row ∙ p, p) at (complete_get d 0 0 w cur e))
      ]
    ]
    handle_get (booking_raises d m i) w cur e = elim (Bool-cases (found_nothing d)) [
      | inl n ↦ rw (n, handle, process_one) (emptied_get d w cur e)
      | inr n ↦ elim (Bool-cases (d.processing_path == "external")) [
        | inl p ↦ rw (n, p, handle, process_one) (crashed_get w cur e)
        | inr p ↦ rw (n, p, handle, process_one) (rw p at (complete_get d m i w cur e))
      ]
    ]
    handle_get (updating_raises d m i) w cur e = elim (Bool-cases (found_nothing d)) [
      | inl n ↦ rw (n, handle, process_one) (crashed_get w cur e)
      | inr n ↦
          rw (n, handle, process_one)
            (on_crash_get _ (counted started cur) (
              ap (sql.get row.ingest_id)
                (book_usage_sessions d (count_attempt sql max_attempts row started w))
              ∙ counted_get w cur e))
    ]
    handle_get (cache_raises d m i) w cur e = elim (Bool-cases (found_nothing d)) [
      | inl n ↦ rw (n, handle, process_one) (emptied_get d w cur e)
      | inr n ↦ elim (Bool-cases (has_project row && ltb 0 m)) [
        | inl p ↦
            rw (n, ap (λ b. b && ltb 0 m) (project_test row) ∙ p, p, handle, process_one)
              (on_crash_get _ (saved started now (has_project row) d m i cur)
                (complete_get d m i w cur e))
        | inr p ↦
            rw (n, ap (λ b. b && ltb 0 m) (project_test row) ∙ p, p, handle, process_one)
              (complete_get d m i w cur e)
      ]
    ]
    handle_get (returns d m i) w cur e = elim (Bool-cases (found_nothing d)) [
      | inl n ↦ rw (n, handle, process_one) (emptied_get d w cur e)
      | inr n ↦ rw (n, handle, process_one) (complete_get d m i w cur e)
    ]

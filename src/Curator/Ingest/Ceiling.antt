-- ===== src/Curator/Ingest/Ceiling.antt =====
-- The ceiling on waiting rows, through an ingest.
use oc_piloci.Prelude.{
  ℕ, ◌+◌, ◌≤◌, ◌≡◌, refl, sym, ◌∙◌, ap, min, Option, none, some, List, [], ◌∷◌, Bool, true, false,
  String, ◌==◌, length, take, arith, Bool-cases, inl, inr, eq_iff, length-take,
}
use oc_piloci.Db.{Sql, IsSql, count_if}
use oc_piloci.Db.Counts.{HasKeys, count_if-append}
use oc_piloci.Curator.RawSessions.{RawSession}
use oc_piloci.Curator.Backlog.{count_pending, enforce_ceiling_after_ingest}
use oc_piloci.Curator.Backlog.Ceiling.{count_pending-archive_overflow}
use oc_piloci.Curator.Prefilter.{Message, Library}
use oc_piloci.Curator.Ingest.{
  IngestTexts, Uploader, IngestBody, accepted, store_captured, row_of, ingest, BatchItem,
  ingest_item, ingest_items, sessions_ingest,
}

module _ {T : Type 0} (sql : Sql T RawSession) (laws : IsSql sql) (texts : IngestTexts)
    (lib : Library) (max_pending : ℕ) where
  HasKeys-insert :
      (row : RawSession) (t : T)
      → HasKeys (λ r. r.ingest_id) (sql.rows t)
      → count_if (λ r. r.ingest_id == row.ingest_id) (sql.rows t) ≡ 0
      → HasKeys (λ r. r.ingest_id) (sql.rows (sql.insert row t))
  HasKeys-insert row t h z k =
      let counted : count_if (λ r. r.ingest_id == k) (sql.rows (sql.insert row t))
          ≡ count_if (λ r. r.ingest_id == k) (sql.rows t)
            + count_if (λ r. r.ingest_id == k) (row ∷ []) =
        ap (count_if (λ r. r.ingest_id == k)) (laws.rows-insert row t)
        ∙ count_if-append (λ r. r.ingest_id == k) (sql.rows t) (row ∷ []) in
      elim (Bool-cases (row.ingest_id == k)) [
        | inl e ↦
            let none_yet : count_if (λ r. r.ingest_id == k) (sql.rows t) ≡ 0 =
              ap (λ j. count_if (λ r. r.ingest_id == j) (sql.rows t))
                (sym ((eq_iff row.ingest_id k).0 e))
              ∙ z in
            ground (arith, counted, none_yet)
        | inr e ↦ ground (arith, counted, h k)
      ]

  store-ceiling :
      (row : RawSession) (user_id : String) (now : ℕ) (t : T)
      → HasKeys (λ r. r.ingest_id) (sql.rows t)
      → count_if (λ r. r.ingest_id == row.ingest_id) (sql.rows t) ≡ 0
      → count_pending sql
          (some user_id)
          (store_captured sql texts lib max_pending row true user_id now t).0
        ≤ max_pending
  unfolding enforce_ceiling_after_ingest
  store-ceiling row user_id now t h z = omega (
    arith,
    (count_pending-archive_overflow sql laws (some user_id) (sql.insert row t)
        (HasKeys-insert row t h z) max_pending now).0,
  )

  -- After an ingest that is queued at most as many rows of the user wait as the ceiling, however
  -- many waited before, where the ids of rows are distinct and the new one is unused.
  pub ingest-ceiling :
      (u : Uploader) (is_large : Bool) (body : Option IngestBody) (ingest_id : String) (now n : ℕ)
      (t : T)
      → HasKeys (λ r. r.ingest_id) (sql.rows t)
      → count_if (λ r. r.ingest_id == ingest_id) (sql.rows t) ≡ 0
      → (ingest sql texts lib max_pending (some u) is_large body ingest_id now t).1
        ≡ accepted true n
      → count_pending sql
          (some u.user_id)
          (ingest sql texts lib max_pending (some u) is_large body ingest_id now t).0
        ≤ max_pending
  unfolding ingest
  ingest-ceiling u true body ingest_id now n t h z e = absurd (cc e)
  ingest-ceiling u false none ingest_id now n t h z e = absurd (cc e)
  ingest-ceiling u false (some b) ingest_id now n t h z e = by_transcript b.transcript refl
    where
      by_transcript :
          (o : Option (List Message))
          → b.transcript ≡ o
          → count_pending sql
              (some u.user_id)
              (ingest sql texts lib max_pending (some u) false (some b) ingest_id now t).0
            ≤ max_pending
      by_transcript none f = absurd (ground arith)
      by_transcript (some ms) f = ground (
        arith,
        store-ceiling (row_of sql texts lib max_pending u b ms ingest_id now) u.user_id now t h z,
      )

  -- Every session of a batch, of the first 50, is counted as queued or as skipped.
  pub count-sessions_ingest :
      (user_id project_id : String) (items : List (BatchItem × String)) (now : ℕ) (t : T)
      → (sessions_ingest sql texts lib max_pending user_id project_id items now t).1.0
          + (sessions_ingest sql texts lib max_pending user_id project_id items now t).1.1
        ≡ min 50 (length items)
  unfolding sessions_ingest ingest_items
  count-sessions_ingest user_id project_id items now t =
      counted (take 50 items) t ∙ length-take 50 items
    where
      counted :
          (xs : List (BatchItem × String)) (t' : T)
          → (ingest_items sql texts lib max_pending user_id project_id xs now t').1.0
              + (ingest_items sql texts lib max_pending user_id project_id xs now t').1.1
            ≡ length xs
      counted [] t' = omega arith
      counted ((i, k) ∷ xs) t' = ground (
        arith,
        counted xs (ingest_item sql texts lib max_pending user_id project_id i k now t').0,
      )

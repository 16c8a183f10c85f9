-- ===== src/Ops/Maintenance.antt =====
-- ops/maintenance.py: `cleanup_retention`, which deletes old rows. Times are seconds.
use oc_piloci.Prelude.{
  ℕ, ◌+◌, ◌-◌, ◌*◌, ◌≡◌, refl, ◌∙◌, ap, sym, Option, none, some, List, [], ◌∷◌, Bool, true, false,
  not, ◌&&◌, ◌||◌, ltb, if◌then◌else◌, arith, keep, All, length, leb, Bool-cases, inl, inr,
}
use oc_piloci.Db.{Sql, IsSql, count_if}
use oc_piloci.Curator.RawSessions.{
  RawSession, State, pending, distilled, filtered, failed, archived, is_pending, is_archived,
}

-- `now - timedelta(days=…)`, for a time after the first days.
abbrev pub cutoff : ℕ → ℕ → ℕ
cutoff now days = now - days * 86400

-- `processed_at` is there and before the cutoff.
abbrev processed_filter : ℕ → RawSession → Bool
processed_filter raw_cutoff r = elim r.processed_at [ none ↦ false | some t ↦ ltb t raw_cutoff ]

-- Archived, and `coalesce(archived_at, created_at)` before the cutoff.
abbrev archived_filter : ℕ → RawSession → Bool
archived_filter raw_cutoff r =
    is_archived r.distillation_state
    && (elim r.archived_at [ none ↦ ltb r.created_at raw_cutoff | some t ↦ ltb t raw_cutoff ])

abbrev raw_filter : ℕ → RawSession → Bool
raw_filter raw_cutoff r = processed_filter raw_cutoff r || archived_filter raw_cutoff r

abbrev pub is_none : Option ℕ → Bool
is_none none = true
is_none (some t) = false

abbrev pub is_filtered : State → Bool
is_filtered filtered = true
is_filtered pending = false
is_filtered distilled = false
is_filtered failed = false
is_filtered archived = false

abbrev pub get_or : ℕ → Option ℕ → ℕ
get_or d none = d
get_or d (some t) = t

-- What may stay: by the time of processing, and for an archived row by that of archiving.
abbrev pub IsRecent : ℕ → RawSession → Type 0
IsRecent raw_cutoff r =
    (leb raw_cutoff (get_or raw_cutoff r.processed_at) ≡ true)
    × ((not (is_archived r.distillation_state)
          || leb raw_cutoff (get_or r.created_at r.archived_at))
        ≡ true)

owed_kept :
    (raw_cutoff : ℕ) (r : RawSession)
    → (is_pending r.distillation_state && is_none r.processed_at) ≡ true
    → raw_filter raw_cutoff r ≡ false
owed_kept raw_cutoff r h = ground arith

filtered_kept :
    (raw_cutoff : ℕ) (r : RawSession)
    → (is_filtered r.distillation_state && is_none r.processed_at) ≡ true
    → raw_filter raw_cutoff r ≡ false
filtered_kept raw_cutoff r h = ground arith

recent : (raw_cutoff : ℕ) (r : RawSession) → raw_filter raw_cutoff r ≡ false → IsRecent raw_cutoff r
recent raw_cutoff r h = (ground arith, ground arith)

All-IsRecent :
    (raw_cutoff : ℕ) (xs : List RawSession)
    → All (IsRecent raw_cutoff) (keep (λ r. not (raw_filter raw_cutoff r)) xs)
All-IsRecent raw_cutoff [] = tt
All-IsRecent raw_cutoff (x ∷ xs) = elim (Bool-cases (raw_filter raw_cutoff x)) [
  | inl e ↦ rw e (All-IsRecent raw_cutoff xs)
  | inr e ↦ rw e (recent raw_cutoff x e, All-IsRecent raw_cutoff xs)
]

count_if-partition :
    (p : RawSession → Bool) (xs : List RawSession)
    → count_if p xs + length (keep (λ r. not (p r)) xs) ≡ length xs
count_if-partition p [] = omega arith
count_if-partition p (x ∷ xs) = ground (arith, count_if-partition p xs)

-- An `AuditLog` row, as far as it is read.
pub record AuditLog : Type 0 where
  pub created_at : ℕ

module _ {T L : Type 0} (sql : Sql T RawSession) (audit : Sql L AuditLog) where
  -- The numbers of deleted raw sessions and audit logs, and the two tables.
  pub cleanup_retention : ℕ → ℕ → ℕ → T → L → ℕ × ℕ × T × L
  cleanup_retention raw_session_retention_days audit_log_retention_days now t l =
      let raw_cutoff = cutoff now raw_session_retention_days in
      let audit_cutoff = cutoff now audit_log_retention_days in
      let deleted_raw = sql.count (raw_filter raw_cutoff) t in
      let deleted_audit = audit.count (λ a. ltb a.created_at audit_cutoff) l in
      (
        deleted_raw,
        deleted_audit,
        if ltb 0 deleted_raw then sql.delete (raw_filter raw_cutoff) t else t,
        if ltb 0 deleted_audit then audit.delete (λ a. ltb a.created_at audit_cutoff) l else l,
      )

  module _ (laws : IsSql sql) (raw_days audit_days now : ℕ) (t : T) (l : L) where
    keep_all :
        (p : RawSession → Bool) (xs : List RawSession)
        → count_if p xs ≡ 0
        → keep (λ r. not (p r)) xs ≡ xs
    keep_all p [] h = refl
    keep_all p (x ∷ xs) h = ground (arith, keep_all p xs)

    -- What is left of the raw sessions is what the filter does not hit, also where nothing is
    -- deleted.
    rows_left :
        sql.rows (cleanup_retention raw_days audit_days now t l).2
        ≡ keep (λ r. not (raw_filter (cutoff now raw_days) r)) (sql.rows t)
    unfolding cleanup_retention
    rows_left = elim (Bool-cases (ltb 0 (sql.count (raw_filter (cutoff now raw_days)) t))) [
      | inl h ↦ rw h (laws.rows-delete _ t)
      | inr h ↦ rw h (
          sym (
            keep_all (raw_filter (cutoff now raw_days)) (sql.rows t)
              (ground (arith, laws.count_lem (raw_filter (cutoff now raw_days)) t))))
    ]

    count_if-keep-not :
        (q p : RawSession → Bool) (xs : List RawSession)
        → ((r : RawSession) → q r ≡ true → p r ≡ false)
        → count_if q (keep (λ r. not (p r)) xs) ≡ count_if q xs
    count_if-keep-not q p [] h = refl
    count_if-keep-not q p (x ∷ xs) h = elim (Bool-cases (q x)) [
      | inl e ↦ ground (arith, h x e, count_if-keep-not q p xs h)
      | inr e ↦ ground (arith, count_if-keep-not q p xs h)
    ]

    abbrev after : T
    after = (cleanup_retention raw_days audit_days now t l).2

    -- Pending rows with no `processed_at` are all kept, whatever their age.
    pub cleanup_retention-pending :
        count_if (λ r. is_pending r.distillation_state && is_none r.processed_at) (sql.rows after)
        ≡ count_if (λ r. is_pending r.distillation_state && is_none r.processed_at) (sql.rows t)
    cleanup_retention-pending =
        ap (count_if (λ r. is_pending r.distillation_state && is_none r.processed_at)) rows_left
        ∙ count_if-keep-not (λ r. is_pending r.distillation_state && is_none r.processed_at)
            (raw_filter (cutoff now raw_days)) (sql.rows t) (owed_kept (cutoff now raw_days))

    -- Filtered rows with no `processed_at`, such as an ingest stores, are all kept too, however old
    -- they are and however short the retention is.
    pub cleanup_retention-filtered :
        count_if (λ r. is_filtered r.distillation_state && is_none r.processed_at) (sql.rows after)
        ≡ count_if (λ r. is_filtered r.distillation_state && is_none r.processed_at) (sql.rows t)
    cleanup_retention-filtered =
        ap (count_if (λ r. is_filtered r.distillation_state && is_none r.processed_at)) rows_left
        ∙ count_if-keep-not (λ r. is_filtered r.distillation_state && is_none r.processed_at)
            (raw_filter (cutoff now raw_days)) (sql.rows t) (filtered_kept (cutoff now raw_days))

    -- Afterwards each row that is left was stamped at the cutoff or later, or not at all; and each
    -- archived one was archived at the cutoff or later, or created then if that is not known. The
    -- first number that is returned is that of the rows that are gone.
    pub cleanup_retention-left :
        All (λ r. IsRecent (cutoff now raw_days) r) (sql.rows after)
        × ((cleanup_retention raw_days audit_days now t l).0 + length (sql.rows after)
            ≡ length (sql.rows t))
    unfolding cleanup_retention
    cleanup_retention-left = (
      rw rows_left (All-IsRecent (cutoff now raw_days) (sql.rows t)),
      omega (
        arith,
        ap length rows_left,
        laws.count_lem (raw_filter (cutoff now raw_days)) t,
        count_if-partition (raw_filter (cutoff now raw_days)) (sql.rows t),
      ),
    )

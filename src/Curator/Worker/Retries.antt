-- ===== src/Curator/Worker/Retries.antt =====
-- How often the worker comes back to a row.
use oc_piloci.Prelude.{
  ℕ, ◌+◌, ◌≤◌, ◌≡◌, refl, ◌∙◌, ap, subst, none, some, List, [], ◌∷◌, Bool, true, false, ◌&&◌,
  String, ltb, if◌then◌else◌, arith, Bool-cases, inl, inr, length, All, ◌⊎◌, leb, ◌==◌,
}
use oc_piloci.Db.{Sql, IsSql}
use oc_piloci.Curator.RawSessions.{RawSession, State, pending, distilled, failed}
use oc_piloci.Curator.Worker.{
  Attempt, unparsable, counting_raises, extraction_raises, saving_raises, booking_raises,
  updating_raises, cache_raises, returns, World, handle, is_ready, state_after,
}
use oc_piloci.Curator.Worker.Outcome.{outcome, found_nothing, has_project, handle_get}

-- One visit to a row: the times, and what happens outside.
pub record Visit : Type 0 where
  pub started : ℕ
  pub now : ℕ
  pub attempt : Attempt

-- The transcript can be parsed and the attempt is counted.
abbrev pub is_counted : Attempt → Bool
is_counted unparsable = false
is_counted counting_raises = false
is_counted a = true

module _ {T : Type 0} (sql : Sql T RawSession) (max_attempts : ℕ) where
  -- The row with the id `k` through a sequence of passes: it is handled while it is ready.
  pub visits : String → List Visit → World T → World T
  visits k [] w = w
  visits k (v ∷ vs) w = visits k vs (elim (sql.get k w.sessions) [
    | none ↦ w
    | some row ↦
        if is_ready max_attempts row
        then (handle sql max_attempts row v.started v.now v.attempt w).1
        else w
  ])

-- The row is distilled, or it failed with all attempts used up.
abbrev pub Settled : ℕ → RawSession → Type 0
Settled max_attempts r =
    (r.distillation_state ≡ distilled)
    ⊎ ((r.distillation_state ≡ failed) × (max_attempts ≤ r.attempt_count))

abbrev Progress : ℕ → State → ℕ → Type 0
Progress max_attempts s n =
    ((s ≡ pending) × (ltb n max_attempts ≡ true))
    ⊎ ((s ≡ distilled) ⊎ ((s ≡ failed) × (max_attempts ≤ n)))

state_after-Progress : (max_attempts n : ℕ) → Progress max_attempts (state_after max_attempts n) n
state_after-Progress max_attempts n = elim (Bool-cases (leb max_attempts n)) [
  | inl e ↦ rw e (inr (inr (refl, ground (arith, e))))
  | inr e ↦ rw e (inl (refl, ground (arith, e)))
]

-- An attempt that is counted leaves the row pending only while more remain.
outcome-Progress :
    (max_attempts started now : ℕ) (project : Bool) (a : Attempt) (r : RawSession)
    → is_counted a ≡ true
    → ((outcome max_attempts started now project a r).attempt_count ≡ r.attempt_count + 1)
      × Progress max_attempts
          (outcome max_attempts started now project a r).distillation_state
          (r.attempt_count + 1)
      × ((outcome max_attempts started now project a r).ingest_id ≡ r.ingest_id)
outcome-Progress max_attempts started now project unparsable r h = absurd (cc h)
outcome-Progress max_attempts started now project counting_raises r h = absurd (cc h)
outcome-Progress max_attempts started now project extraction_raises r h =
    (refl, state_after-Progress max_attempts (r.attempt_count + 1), refl)
outcome-Progress max_attempts started now project (saving_raises d) r h =
    elim (Bool-cases (found_nothing d)) [
      | inl e ↦ rw e (refl, state_after-Progress max_attempts (r.attempt_count + 1), refl)
      | inr e ↦ elim (Bool-cases project) [
        | inl f ↦ rw (e, f) (refl, state_after-Progress max_attempts (r.attempt_count + 1), refl)
        | inr f ↦ rw (e, f) (refl, inr (inl refl), refl)
      ]
    ]
outcome-Progress max_attempts started now project (booking_raises d m i) r h =
    elim (Bool-cases (found_nothing d)) [
      | inl e ↦ rw e (refl, state_after-Progress max_attempts (r.attempt_count + 1), refl)
      | inr e ↦ elim (Bool-cases (d.processing_path == "external")) [
        | inl f ↦ rw (e, f) (refl, state_after-Progress max_attempts (r.attempt_count + 1), refl)
        | inr f ↦ rw (e, f) (refl, inr (inl refl), refl)
      ]
    ]
outcome-Progress max_attempts started now project (updating_raises d m i) r h =
    (refl, state_after-Progress max_attempts (r.attempt_count + 1), refl)
outcome-Progress max_attempts started now project (cache_raises d m i) r h =
    elim (Bool-cases (found_nothing d)) [
      | inl e ↦ rw e (refl, state_after-Progress max_attempts (r.attempt_count + 1), refl)
      | inr e ↦ elim (Bool-cases (project && ltb 0 m)) [
        | inl f ↦ rw (e, f) (refl, state_after-Progress max_attempts (r.attempt_count + 1), refl)
        | inr f ↦ rw (e, f) (refl, inr (inl refl), refl)
      ]
    ]
outcome-Progress max_attempts started now project (returns d m i) r h =
    elim (Bool-cases (found_nothing d)) [
      | inl e ↦ rw e (refl, state_after-Progress max_attempts (r.attempt_count + 1), refl)
      | inr e ↦ rw e (refl, inr (inl refl), refl)
    ]

module _ {T : Type 0} {sql : Sql T RawSession} (laws : IsSql sql)
    (by_id : (r : RawSession) → sql.primary_key r ≡ r.ingest_id) (max_attempts : ℕ) where
  visit_ready :
      (k : String) (v : Visit) (vs : List Visit) (w : World T) (cur : RawSession)
      → sql.get k w.sessions ≡ some cur
      → is_ready max_attempts cur ≡ true
      → visits sql max_attempts k (v ∷ vs) w
        ≡ visits sql max_attempts k vs (handle sql max_attempts cur v.started v.now v.attempt w).1
  unfolding visits
  visit_ready k v vs w cur e h = rw e (rw h)

  visits_closed :
      (k : String) (vs : List Visit) (w : World T) (cur : RawSession)
      → sql.get k w.sessions ≡ some cur
      → is_ready max_attempts cur ≡ false
      → visits sql max_attempts k vs w ≡ w
  unfolding visits
  visits_closed k [] w cur e h = refl
  visits_closed k (v ∷ vs) w cur e h = rw e (rw h (visits_closed k vs w cur e h))

  -- The row after a visit that handles it.
  visited :
      (k : String) (v : Visit) (w : World T) (cur : RawSession)
      → sql.get k w.sessions ≡ some cur
      → cur.ingest_id ≡ k
      → sql.get k (handle sql max_attempts cur v.started v.now v.attempt w).1.sessions
        ≡ some (outcome max_attempts v.started v.now (has_project cur) v.attempt cur)
  visited k v w cur e i =
      subst
        (λ j.
          sql.get j w.sessions ≡ some cur
          → sql.get j (handle sql max_attempts cur v.started v.now v.attempt w).1.sessions
            ≡ some (outcome max_attempts v.started v.now (has_project cur) v.attempt cur))
        i (handle_get laws by_id max_attempts cur v.started v.now v.attempt w cur) e

  is_ready-Settled : (r : RawSession) → Settled max_attempts r → is_ready max_attempts r ≡ false
  is_ready-Settled r (inl e) = rw e refl
  is_ready-Settled r (inr e) = rw (e.0) refl

  settle_from :
      (k : String) (vs : List Visit) (w : World T) (cur : RawSession)
      → sql.get k w.sessions ≡ some cur
      → cur.ingest_id ≡ k
      → (is_ready max_attempts cur ≡ true) ⊎ Settled max_attempts cur
      → All (λ v. is_counted v.attempt ≡ true) vs
      → max_attempts ≤ cur.attempt_count + length vs
      → (r : RawSession) × (sql.get k (visits sql max_attempts k vs w).sessions ≡ some r)
        × Settled max_attempts r
  settle_from k [] w cur e i (inl h) a l = absurd (ground (arith, h, l))
  settle_from k [] w cur e i (inr h) a l = unfold visits in (cur, e, h)
  settle_from k (v ∷ vs) w cur e i (inr h) a l =
      rw (visits_closed k (v ∷ vs) w cur e (is_ready-Settled cur h)) (cur, e, h)
  settle_from k (v ∷ vs) w cur e i (inl ready) a l =
      let next : RawSession =
        outcome max_attempts v.started v.now (has_project cur) v.attempt cur in
      let p = outcome-Progress max_attempts v.started v.now (has_project cur) v.attempt cur a.0 in
      rw (visit_ready k v vs w cur e ready) (
        settle_from k vs (handle sql max_attempts cur v.started v.now v.attempt w).1 next
          (visited k v w cur e i) (p.2 ∙ i) (after next p.0 p.1) a.1 (omega (arith, p.0, l)))
    where
      after :
          (r : RawSession)
          → r.attempt_count ≡ cur.attempt_count + 1
          → Progress max_attempts r.distillation_state (cur.attempt_count + 1)
          → (is_ready max_attempts r ≡ true) ⊎ Settled max_attempts r
      after r n (inl s) = inl (rw (s.0, n) s.1)
      after r n (inr (inl s)) = inr (inl s)
      after r n (inr (inr s)) = inr (inr (s.0, rw n s.1))

  -- A row that is ready is distilled, or failed with its attempts used up, after at most as many visits
  -- as attempts are left, if at each its transcript can be parsed and the attempt is counted, whatever
  -- raises after that but for the handler of the exception.
  pub visits_settle :
      (k : String) (vs : List Visit) (w : World T) (cur : RawSession)
      → sql.get k w.sessions ≡ some cur
      → cur.ingest_id ≡ k
      → is_ready max_attempts cur ≡ true
      → All (λ v. is_counted v.attempt ≡ true) vs
      → max_attempts ≤ cur.attempt_count + length vs
      → (r : RawSession) × (sql.get k (visits sql max_attempts k vs w).sessions ≡ some r)
        × Settled max_attempts r
  visits_settle k vs w cur e i h a l = settle_from k vs w cur e i (inl h) a l

  -- A ready row whose transcript cannot be parsed stays ready, with no attempt counted, however
  -- often the worker comes back to it.
  pub visits_unparsable :
      (k : String) (vs : List Visit) (w : World T) (cur : RawSession)
      → sql.get k w.sessions ≡ some cur
      → cur.ingest_id ≡ k
      → is_ready max_attempts cur ≡ true
      → All (λ v. v.attempt ≡ unparsable) vs
      → (r : RawSession) × (sql.get k (visits sql max_attempts k vs w).sessions ≡ some r)
        × (r.attempt_count ≡ cur.attempt_count)
        × (is_ready max_attempts r ≡ true)
  visits_unparsable k [] w cur e i h a = unfold visits in (cur, e, refl, h)
  visits_unparsable k (v ∷ vs) w cur e i h a =
      let next = outcome max_attempts v.started v.now (has_project cur) unparsable cur in
      rw (visit_ready k v vs w cur e h) (
        visits_unparsable k vs (handle sql max_attempts cur v.started v.now v.attempt w).1 next
          (visited k v w cur e i
            ∙ ap
                (λ (b : Attempt).
                  some (outcome max_attempts v.started v.now (has_project cur) b cur))
                a.0)
          i (ground arith) a.1)

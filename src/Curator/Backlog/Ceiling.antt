-- ===== src/Curator/Backlog/Ceiling.antt =====
-- The ceiling holds after `archive_overflow`, and what it archives is chosen by the order.
use oc_piloci.Prelude.{
  ℕ, suc, ◌+◌, ◌-◌, ◌<◌, min, ◌≡◌, refl, ◌∙◌, sym, ap, inl, inr, Option, none, some, List, [], ◌∷◌,
  ◌++◌, map, true, false, ◌&&◌, String, ◌==◌, leb, if◌then◌else◌, length, take, drop, keep, is_nil,
  contains, arith, All, Bool-cases, take-append-drop, length-take, length-map,
}
use oc_piloci.Db.{Sql, IsSql, SameRows, IsOrderedBy, count_if, precedes}
use oc_piloci.Db.Counts.{
  HasKeys, one_of, count_if-keep, count_if-split, count_if-update, count_if-front, Distinct-keys,
  count_if-and-le,
}
use oc_piloci.Curator.RawSessions.{RawSession}
use oc_piloci.Curator.Backlog.{
  waits, archive_order, archive, count_pending, candidates, archive_overflow,
}

abbrev id_of : RawSession → String
id_of r = r.ingest_id

waits-archive :
    (user : Option String) (now : ℕ) (r : RawSession) → waits user (archive now r) ≡ false
waits-archive none now r = refl
waits-archive (some u) now r = refl

length-keep_true : (xs : List RawSession) → count_if (λ r. true) xs ≡ length xs
length-keep_true [] = refl
length-keep_true (x ∷ xs) = ap suc (length-keep_true xs)

not_nil : (xs : List String) → 0 < length xs → is_nil xs ≡ false
not_nil [] h = absurd (omega arith)
not_nil (x ∷ xs) h = refl

-- In an ordered list nothing of the first part comes after the rest.
front_first :
    (front rest : List RawSession)
    → IsOrderedBy archive_order (front ++ rest)
    → All (λ a. All (λ b. precedes archive_order a b ≡ true) rest) front
front_first [] rest o = tt
front_first (x ∷ front) rest o = (part front rest o.0, front_first front rest o.1)
  where
    part :
        (xs ys : List RawSession)
        → All (λ b. precedes archive_order x b ≡ true) (xs ++ ys)
        → All (λ b. precedes archive_order x b ≡ true) ys
    part [] ys a = a
    part (z ∷ xs) ys a = part xs ys a.1

map_never :
    (f : RawSession → RawSession) (xs : List RawSession)
    → map (λ r. if contains r.ingest_id [] then f r else r) xs ≡ xs
unfolding contains
map_never f [] = refl
map_never f (x ∷ xs) = ap (◌∷◌ x) (map_never f xs)

module _ {T : Type 0} (sql : Sql T RawSession) (laws : IsSql sql) (user : Option String)
    (t : T) where
  abbrev selected : List RawSession
  selected = sql.select (waits user) archive_order t

  length-selected : length selected ≡ count_pending sql user t
  unfolding count_pending
  length-selected =
      sym (length-keep_true selected)
      ∙ laws.select-same (waits user) archive_order t (λ r. true)
      ∙ length-keep_true _
      ∙ sym (laws.count_lem (waits user) t)

  module _ (keys : HasKeys id_of (sql.rows t)) where
    selected-keys : HasKeys id_of selected
    selected-keys k = omega (
      arith,
      keys k,
      laws.select-same (waits user) archive_order t (λ r. r.ingest_id == k),
      count_if-keep (waits user) (λ r. r.ingest_id == k) (sql.rows t),
      count_if-and-le (waits user) (λ r. r.ingest_id == k) (sql.rows t),
    )

    -- The waiting rows that the chosen ids name are as many as are chosen.
    chosen :
        (excess : ℕ)
        → count_if (λ r. waits user r && one_of id_of (candidates sql excess user t) r) (sql.rows t)
          ≡ length (take excess selected)
    chosen excess =
        let front : List RawSession = take excess selected in
        let rest : List RawSession = drop excess selected in
        let whole : front ++ rest ≡ selected = take-append-drop excess selected in
        let picked : count_if (one_of id_of (map id_of front)) selected ≡ length front =
          rw whole at (
            count_if-front id_of front rest
              (rw whole (Distinct-keys id_of selected selected-keys))) in
        sym (count_if-keep (waits user) (one_of id_of (map id_of front)) (sql.rows t))
        ∙ sym (laws.select-same (waits user) archive_order t (one_of id_of (map id_of front)))
        ∙ picked

    module _ (max_pending now : ℕ) where
      abbrev before : ℕ
      before = count_pending sql user t

      abbrev ids : List String
      ids = candidates sql (before - max_pending) user t

      abbrev result : ℕ × T
      result = archive_overflow sql max_pending user now t

      within : leb before max_pending ≡ true → result ≡ (0, t)
      unfolding archive_overflow
      within h = rw h

      length-ids : length ids ≡ before - max_pending
      length-ids =
          length-map id_of (take (before - max_pending) selected)
          ∙ length-take (before - max_pending) selected
          ∙ omega (arith, length-selected)

      over :
          leb before max_pending ≡ false
          → result ≡ (length ids, sql.update (one_of id_of ids) (archive now) t)
      unfolding archive_overflow
      over h = rw (h, not_nil ids (ground (arith, length-ids)))

      left_waiting :
          count_pending sql user (sql.update (one_of id_of ids) (archive now) t)
            + (before - max_pending)
          ≡ before
      unfolding count_pending
      left_waiting = omega (
        arith,
        laws.count_lem (waits user) (sql.update (one_of id_of ids) (archive now) t),
        ap (count_if (waits user)) (laws.rows-update (one_of id_of ids) (archive now) t),
        count_if-update (waits user) (one_of id_of ids) (archive now) (sql.rows t)
            (waits-archive user now),
        count_if-split (waits user) (one_of id_of ids) (sql.rows t),
        chosen (before - max_pending),
        length-ids,
        length-map id_of (take (before - max_pending) selected),
        laws.count_lem (waits user) t,
      )

      -- With distinct ids, at most `max_pending` rows of the user (or of all) wait afterwards: as
      -- many as before, up to that number. What is returned is the number that wait no longer.
      pub count_pending-archive_overflow :
          (count_pending sql user result.1 ≡ min (count_pending sql user t) max_pending)
          × (result.0 + count_pending sql user result.1 ≡ count_pending sql user t)
      count_pending-archive_overflow = elim (Bool-cases (leb before max_pending)) [
        | inl h ↦ rw (within h) (ground arith, omega arith)
        | inr h ↦
            rw (over h) (ground (arith, left_waiting), ground (arith, left_waiting, length-ids))
      ]

      -- What was archived is a first part of the waiting rows in the order of priority, then age:
      -- no row of it comes after one that is left; and no other row changes.
      pub archive_overflow-order :
          (front rest : List RawSession) × SameRows (front ++ rest) (keep (waits user) (sql.rows t))
          × All (λ a. All (λ b. precedes archive_order a b ≡ true) rest) front
          × (length front ≡ result.0)
          × (sql.rows result.1
              ≡ map
                  (λ r. if contains r.ingest_id (map id_of front) then archive now r else r)
                  (sql.rows t))
      archive_overflow-order = elim (Bool-cases (leb before max_pending)) [
        | inl h ↦ rw (within h) (
          [],
          selected,
          laws.select-same (waits user) archive_order t,
          tt,
          refl,
          sym (map_never (archive now) (sql.rows t)),
        )
        | inr h ↦ rw (over h) (
          front,
          rest,
          rw whole (laws.select-same (waits user) archive_order t),
          front_first front rest (rw whole (laws.select-ordered (waits user) archive_order t)),
          sym (length-map id_of front),
          laws.rows-update (one_of id_of ids) (archive now) t,
        )
      ]
        where
          front : List RawSession
          front = take (before - max_pending) selected

          rest : List RawSession
          rest = drop (before - max_pending) selected

          whole : front ++ rest ≡ selected
          whole = take-append-drop (before - max_pending) selected

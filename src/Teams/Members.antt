-- ===== src/Teams/Members.antt =====
-- The rows of a team's members, counted.
use oc_piloci.Prelude.{
  ◌+◌, ◌≤◌, ◌≡◌, refl, sym, ◌∙◌, ap, List, [], ◌∷◌, Bool, true, false, not, ◌&&◌, String, ◌==◌,
  keep, arith, eq_iff, Bool-cases, inl, inr,
}
use oc_piloci.Db.{Sql, IsSql, one, count_if}
use oc_piloci.Db.Finding.{found-one}
use oc_piloci.Db.Counts.{count_if-append, count_if-keep}
use oc_piloci.Teams.{TeamMember, is_owner, belongs}

-- The row of an owner of the team.
abbrev pub owns_team : String → TeamMember → Bool
owns_team team_id m = (m.team_id == team_id) && is_owner m.role

-- A caller's row, another's row and the owners of their team, counted.
pub count-apart :
    (t u v : String) (ms : List TeamMember)
    → (u == v) ≡ false
    → count_if (λ m. belongs t u m && is_owner m.role) ms
        + count_if (λ m. owns_team t m && belongs t v m) ms
      ≤ count_if (owns_team t) ms
count-apart t u v [] h = omega arith
count-apart t u v (m ∷ ms) h =
    ground (arith, count-apart t u v ms h, eq_iff m.user_id u, eq_iff m.user_id v, eq_iff u v)

-- Rows that are deleted, by a second test.
pub count-delete :
    (p q : TeamMember → Bool) (ms : List TeamMember)
    → count_if p (keep (λ m. not (q m)) ms) + count_if (λ m. p m && q m) ms ≡ count_if p ms
count-delete p q [] = omega arith
count-delete p q (m ∷ ms) = ground (arith, count-delete p q ms)

pub count-false :
    (p : TeamMember → Bool) (ms : List TeamMember)
    → ((m : TeamMember) → p m ≡ false)
    → count_if p ms ≡ 0
count-false p [] h = refl
count-false p (m ∷ ms) h = ground (arith, h m, count-false p ms h)

module _ {M : Type 0} (members : Sql M TeamMember) (laws : IsSql members) where
  pub owners-insert :
      (t : String) (m : TeamMember) (ms : M)
      → owns_team t m ≡ false
      → count_if (owns_team t) (members.rows (members.insert m ms))
        ≡ count_if (owns_team t) (members.rows ms)
  owners-insert t m ms h =
      ap (count_if (owns_team t)) (laws.rows-insert m ms)
      ∙ count_if-append (owns_team t) (members.rows ms) (m ∷ [])
      ∙ ground arith

  pub owners-delete :
      (t : String) (q : TeamMember → Bool) (ms : M)
      → count_if (λ m. owns_team t m && q m) (members.rows ms) ≡ 0
      → count_if (owns_team t) (members.rows (members.delete q ms))
        ≡ count_if (owns_team t) (members.rows ms)
  owners-delete t q ms h =
      ap (count_if (owns_team t)) (laws.rows-delete q ms)
      ∙ omega (arith, count-delete (owns_team t) q (members.rows ms), h)

  -- The one row of a user who is the owner.
  pub one_owner :
      (t u : String) (m : TeamMember) (ms : M)
      → members.one_or_none (belongs t u) ms ≡ one m
      → is_owner m.role ≡ true
      → count_if (λ r. belongs t u r && is_owner r.role) (members.rows ms) ≡ 1
  one_owner t u m ms e o =
      sym (count_if-keep (belongs t u) (λ r. is_owner r.role) (members.rows ms))
      ∙ ap (count_if (λ r. is_owner r.role)) (
          found-one (keep (belongs t u) (members.rows ms)) m
            (sym (laws.one_or_none_lem (belongs t u) ms) ∙ e))
      ∙ ground arith

  -- No owner row goes when an owner removes someone else.
  pub none_removed :
      (t team_id u target : String) (m : TeamMember) (ms : M)
      → members.one_or_none (belongs team_id u) ms ≡ one m
      → is_owner m.role ≡ true
      → (target == u) ≡ false
      → count_if (owns_team t) (members.rows ms) ≤ 1
      → count_if (λ r. owns_team t r && belongs team_id target r) (members.rows ms) ≡ 0
  none_removed t team_id u target m ms e o n h = elim (Bool-cases (t == team_id)) [
    | inl q ↦
        let p : t ≡ team_id = (eq_iff t team_id).0 q in
        let h' : count_if (owns_team team_id) (members.rows ms) ≤ 1 = rw p at h in
        rw p (
          omega (
            arith,
            h',
            one_owner team_id u m ms e o,
            count-apart team_id u target (members.rows ms)
                (ground (arith, eq_iff u target, eq_iff target u)),
          ))
    | inr q ↦
        count-false (λ r. owns_team t r && belongs team_id target r) (members.rows ms)
          (λ r. ground (arith, eq_iff r.team_id t, eq_iff r.team_id team_id, eq_iff t team_id))
  ]

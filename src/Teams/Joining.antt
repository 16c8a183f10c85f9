-- ===== src/Teams/Joining.antt =====
-- Who becomes a member of a team.
use oc_piloci.Prelude.{
  ℕ, ◌+◌, ◌≤◌, ◌≡◌, refl, sym, ◌∙◌, ap, none, some, List, [], ◌∷◌, Bool, true, false, not, ◌&&◌,
  String, ◌==◌, ltb, if◌then◌else◌, keep, arith, Bool-cases, inl, inr, eq_iff,
}
use oc_piloci.Db.{IsSql, Found, found, nothing, several, one, count_if}
use oc_piloci.Db.Counts.{count_if-append, count_if-keep}
use oc_piloci.Teams.{
  Site, Caller, Texts, Tables, Status, TeamInvite, TeamMember, create_team, patch_team, delete_team,
  create_invite, cancel_invite, handle_invite_response, owner, belongs, respond_invite,
  remove_member, settle, is_pending, is_accepted, email_of, member, new_member,
}
use oc_piloci.Teams.Access.{
  Request, create, patch, delete, invite, cancel, answer, respond, remove, step,
}
use oc_piloci.Teams.Members.{count-delete}
use oc_piloci.Db.Finding.{found-one}

-- The time of an answer.
abbrev pub time : Request → ℕ
time r = elim r [ answer x y now ↦ now | respond x y now ↦ now | _ ↦ 0 ]

-- Whether an invite to the team is open, and is for this address.
abbrev pub open_for : String → String → ℕ → TeamInvite → Bool
open_for t email now i =
    (i.team_id == t)
    && (is_pending i.status && (not (ltb i.expires_at now) && (i.invitee_email == email)))

-- Whether a request accepts this invite: by its token, or by its id.
abbrev pub accepts : Texts → Request → TeamInvite → Bool
accepts texts r i = elim r [
  | answer token st now ↦ is_accepted st && (i.token_hash == texts.token_hash token)
  | respond id body now ↦ (elim body [
    | some (some st) ↦ is_accepted st && (i.id == id)
    | _ ↦ false
  ])
  | _ ↦ false
]

abbrev pub creates : String → Request → Bool
creates t r = elim r [ create body team_id now ↦ team_id == t | _ ↦ false ]

found-count :
    {Row : Type 0} (p q : Row → Bool) (xs : List Row) (r : Row)
    → found (keep p xs) ≡ one r
    → q r ≡ true
    → 1 ≤ count_if q xs
found-count {Row} p q xs r e h =
    let kept : count_if q (keep p xs) ≡ 1 = ap (count_if q) (found-one (keep p xs) r e) ∙ counted in
    omega (arith, count-both xs, count_if-keep p q xs, kept)
  where
    counted : count_if q (r ∷ []) ≡ 1
    counted = ground (arith, h)

    count-both : (ys : List Row) → count_if (λ y. p y && q y) ys ≤ count_if q ys
    count-both [] = omega arith
    count-both (y ∷ ys) = ground (arith, count-both ys)

found-passes :
    {Row : Type 0} (p : Row → Bool) (xs : List Row) (r : Row)
    → found (keep p xs) ≡ one r
    → p r ≡ true
found-passes {Row} p [] r e = absurd (cc e)
found-passes {Row} p (x ∷ xs) r e = elim (Bool-cases (p x)) [
  | inr f ↦ found-passes p xs r (rw f at e)
  | inl f ↦ first (keep p xs) f (rw f at e)
]
  where
    first : (ys : List Row) → p x ≡ true → found (x ∷ ys) ≡ one r → p r ≡ true
    first [] f h = let same : x ≡ r = cc h in ap p (sym same) ∙ f
    first (y ∷ ys) f h = absurd (cc h)

module _ {T M I D B : Type 0} (db : Tables T M I D) where
  -- The number of rows of a user in a team.
  abbrev pub joined : String → String → Site T M I D B → ℕ
  joined t u s = count_if (belongs t u) (db.members.rows s.members)

module _ {T M I D B : Type 0} (db : Tables T M I D) (texts : Texts) (laws : IsSql db.members)
    (ilaws : IsSql db.invites) (c : Caller) (t u : String) (s : Site T M I D B) where
  insert-joined :
      (m : TeamMember)
      → joined {B = B} db t u (record s { members = db.members.insert m s.members })
        ≡ joined db t u s + (if belongs t u m then 1 else 0)
  insert-joined m =
      ap (count_if (belongs t u)) (laws.rows-insert m s.members)
      ∙ count_if-append (belongs t u) (db.members.rows s.members) (m ∷ [])
      ∙ ground arith

  delete-joined :
      (q : TeamMember → Bool)
      → joined {B = B} db t u (record s { members = db.members.delete q s.members })
        ≤ joined db t u s
  delete-joined q = omega (
    arith,
    ap (count_if (belongs t u)) (laws.rows-delete q s.members),
    count-delete (belongs t u) q (db.members.rows s.members),
  )

  settle-joined :
      (i : TeamInvite) (st : Status) (now : ℕ)
      → joined db t u (settle db texts i st c now s).0
        ≤ joined db t u s
          + (if is_accepted st && ((i.team_id == t) && (c.user_id == u)) then 1 else 0)
  settle-joined i Status.pending now = ground arith
  settle-joined i Status.rejected now = ground arith
  settle-joined i Status.accepted now =
      ground (arith, insert-joined (new_member i.team_id c.user_id member now))

  -- What a new member needs.
  abbrev Invited : Request → Type 0
  Invited r =
      (u ≡ c.user_id)
      × (1
          ≤ count_if (λ i. open_for t (email_of texts c) (time r) i && accepts texts r i)
              (db.invites.rows s.invites))

  answer-joined :
      (token : String) (st : Status) (now : ℕ)
      → joined db t u s ≡ 0
      → 1 ≤ joined db t u (handle_invite_response db texts (some c) token st now s).0
      → Invited (answer token st now)
  unfolding handle_invite_response
  answer-joined token st now h k =
      by_invite (db.invites.one_or_none (λ j. j.token_hash == texts.token_hash token) s.invites)
        refl
    where
      by_invite :
          (f : Found TeamInvite)
          → db.invites.one_or_none (λ j. j.token_hash == texts.token_hash token) s.invites ≡ f
          → Invited (answer token st now)
      by_invite nothing e = absurd (ground arith)
      by_invite several e = absurd (ground arith)
      by_invite (one i) e = ground (
        arith,
        settle-joined i st now,
        eq_iff c.user_id u,
        found-count (λ j. j.token_hash == texts.token_hash token)
            (λ k. open_for t (email_of texts c) now k && accepts texts (answer token st now) k)
            (db.invites.rows s.invites) i
            (sym (ilaws.one_or_none_lem (λ j. j.token_hash == texts.token_hash token) s.invites)
              ∙ e),
        found-passes (λ j. j.token_hash == texts.token_hash token) (db.invites.rows s.invites) i
            (sym (ilaws.one_or_none_lem (λ j. j.token_hash == texts.token_hash token) s.invites)
              ∙ e),
      )

  respond-joined :
      (id : String) (st : Status) (now : ℕ)
      → joined db t u s ≡ 0
      → 1 ≤ joined db t u (respond_invite db texts (some c) id (some (some st)) now s).0
      → Invited (respond id (some (some st)) now)
  unfolding respond_invite
  respond-joined id st now h k = by_invite (db.invites.one_or_none (λ j. j.id == id) s.invites) refl
    where
      by_invite :
          (f : Found TeamInvite)
          → db.invites.one_or_none (λ j. j.id == id) s.invites ≡ f
          → Invited (respond id (some (some st)) now)
      by_invite nothing e = absurd (ground arith)
      by_invite several e = absurd (ground arith)
      by_invite (one i) e = ground (
        arith,
        settle-joined i st now,
        eq_iff c.user_id u,
        found-count (λ j. j.id == id)
            (λ k.
              open_for t (email_of texts c) now k
              && accepts texts (respond id (some (some st)) now) k)
            (db.invites.rows s.invites) i
            (sym (ilaws.one_or_none_lem (λ j. j.id == id) s.invites) ∙ e),
        found-passes (λ j. j.id == id) (db.invites.rows s.invites) i
            (sym (ilaws.one_or_none_lem (λ j. j.id == id) s.invites) ∙ e),
      )

  -- Whoever has no row in a team gets one from no other request than the one that makes the team
  -- and one that accepts an invite: the new row is the caller's, and the accepted invite was a pending
  -- one to this team, addressed to the caller's email, whose time was not over.
  pub step-joined :
      (r : Request)
      → joined db t u s ≡ 0
      → creates t r ≡ false
      → 1 ≤ joined db t u (step db texts (some c) r s).0
      → (u ≡ c.user_id)
        × (1
            ≤ count_if
                (λ i. open_for t (email_of texts c) (time r) i && accepts texts r i)
                (db.invites.rows s.invites))
  unfolding step create_team patch_team delete_team create_invite cancel_invite remove_member
      respond_invite
  step-joined (answer token st now) h q k = answer-joined token st now h k
  step-joined (respond id (some (some st)) now) h q k = respond-joined id st now h k
  step-joined (respond id none now) h q k = absurd (ground arith)
  step-joined (respond id (some none) now) h q k = absurd (ground arith)
  step-joined (create none i now) h q k = absurd (ground arith)
  step-joined (create (some b) i now) h q k =
      absurd (ground (arith, insert-joined (new_member i c.user_id owner now)))
  step-joined (patch i none) h q k = absurd (ground arith)
  step-joined (patch i (some b)) h q k = absurd (ground arith)
  step-joined (delete i) h q k = absurd (ground (arith, delete-joined (λ m. m.team_id == i)))
  step-joined (invite i none x y now) h q k = absurd (ground arith)
  step-joined (invite i (some b) x y now) h q k = absurd (ground arith)
  step-joined (cancel i x) h q k = absurd (ground arith)
  step-joined (remove i x) h q k = absurd (ground (arith, delete-joined (belongs i x)))

-- ===== src/Teams/Owners.antt =====
-- A team keeps its one owner.
use oc_piloci.Prelude.{
  ℕ, ◌≤◌, ◌≡◌, refl, Option, none, some, Bool, true, false, ◌&&◌, String, ◌==◌, arith, eq_iff,
  Bool-cases, inl, inr,
}
use oc_piloci.Db.{IsSql, Found, nothing, several, one, count_if}
use oc_piloci.Teams.{
  Site, Reply, failed, done, Caller, Texts, Tables, Patch, owner, member, Status, TeamInvite,
  TeamMember, Handler, is_owner, belongs, get_team_member, create_team, patch_team, delete_team,
  create_invite, cancel_invite, handle_invite_response, respond_invite, remove_member, or_empty,
  settle, new_member, if_owner, cascade,
}
use oc_piloci.Teams.Access.{
  Request, create, patch, delete, invite, cancel, answer, respond, remove, step,
}
use oc_piloci.Teams.Members.{owns_team, count-false, owners-insert, owners-delete, none_removed}

-- A request that makes or deletes the team.
abbrev pub concerns : String → Request → Bool
concerns u r = elim r [
  | create body team_id now ↦ team_id == u
  | delete team_id ↦ team_id == u
  | _ ↦ false
]

module _ {T M I D B : Type 0} (db : Tables T M I D) where
  -- The number of owner rows of a team.
  abbrev pub owners : String → Site T M I D B → ℕ
  owners t s = count_if (owns_team t) (db.members.rows s.members)

module _ {T M I D B : Type 0} (db : Tables T M I D) (texts : Texts) (laws : IsSql db.members)
    (t : String) (s : Site T M I D B) where
  settle-owners :
      (i : TeamInvite) (new_status : Status) (c : Caller) (now : ℕ)
      → owners db t (settle db texts i new_status c now s).0 ≡ owners db t s
  settle-owners i Status.pending c now = refl
  settle-owners i Status.rejected c now = refl
  settle-owners i Status.accepted c now = by_member (get_team_member db i.team_id c.user_id s) refl
    where
      by_member :
          (f : Found TeamMember)
          → get_team_member db i.team_id c.user_id s ≡ f
          → owners db t (settle db texts i Status.accepted c now s).0 ≡ owners db t s
      by_member nothing e =
          rw (e, settle)
            (owners-insert db.members laws t (new_member i.team_id c.user_id member now) s.members
              (ground arith))
      by_member several e = rw (e, settle)
      by_member (one m) e = rw (e, settle)

  remove-owners :
      (team_id target : String) (c : Caller)
      → owners db t s ≤ 1
      → owners db t (remove_member db texts (some c) team_id target s).0 ≡ owners db t s
  unfolding remove_member
  remove-owners team_id target c h = by_caller (get_team_member db team_id c.user_id s) refl
    where
      by_target :
          (m : TeamMember) (f : Found TeamMember)
          → get_team_member db team_id c.user_id s ≡ one m
          → is_owner m.role ≡ true
          → (target == c.user_id) ≡ false
          → get_team_member db team_id target s ≡ f
          → owners db t (remove_member db texts (some c) team_id target s).0 ≡ owners db t s
      by_target m nothing e o n g = rw (e, if_owner, remove_member) (rw (o, n) (rw g))
      by_target m several e o n g = rw (e, if_owner, remove_member) (rw (o, n) (rw g))
      by_target m (one v) e o n g =
          rw (e, if_owner, remove_member)
            (rw (o, n)
              (rw g (
                owners-delete db.members laws t (belongs team_id target) s.members
                  (none_removed db.members laws t team_id c.user_id target m s.members e o n h))))

      by_caller :
          (f : Found TeamMember)
          → get_team_member db team_id c.user_id s ≡ f
          → owners db t (remove_member db texts (some c) team_id target s).0 ≡ owners db t s
      by_caller nothing e = rw (e, if_owner, remove_member)
      by_caller several e = rw (e, if_owner, remove_member)
      by_caller (one m) e = elim (Bool-cases (is_owner m.role)) [
        | inr o ↦ rw (e, if_owner, remove_member) (rw o)
        | inl o ↦ elim (Bool-cases (target == c.user_id)) [
          | inl n ↦ rw (e, if_owner, remove_member) (rw (o, n))
          | inr n ↦ by_target m (get_team_member db team_id target s) e o n refl
        ]
      ]

  -- What holds of a failure and of the action holds of the guarded action.
  if_owner_holds :
      (P : Site T M I D B × Reply → Type 0) (team_id user_id : String) (act : Handler T M I D B)
      → ((code : ℕ) → P (s, failed code))
      → P (act s)
      → P (if_owner db team_id user_id act s)
  if_owner_holds P team_id user_id act h k = by_caller (get_team_member db team_id user_id s) refl
    where
      by_caller :
          (f : Found TeamMember)
          → get_team_member db team_id user_id s ≡ f
          → P (if_owner db team_id user_id act s)
      by_caller nothing e = rw (e, if_owner) (h 404)
      by_caller several e = rw (e, if_owner) (h 500)
      by_caller (one m) e = elim (Bool-cases (is_owner m.role)) [
        | inl o ↦ rw (e, if_owner) (rw o k)
        | inr o ↦ rw (e, if_owner) (rw o (h 403))
      ]

  abbrev Same : Site T M I D B × Reply → Type 0
  Same r = owners db t r.0 ≡ owners db t s

  create-Same :
      (c : Caller) (name : Option String) (team_id : String) (now : ℕ)
      → (team_id == t) ≡ false
      → Same (create_team db texts (some c) (some name) team_id now s)
  unfolding create_team
  create-Same c name team_id now h = elim (Bool-cases (texts.strip (or_empty name) == "")) [
    | inl e ↦ rw e
    | inr e ↦ rw e (
        owners-insert db.members laws t (new_member team_id c.user_id owner now) s.members
          (ground arith))
  ]

  delete-Same :
      (c : Caller) (team_id : String)
      → (team_id == t) ≡ false
      → Same (delete_team db texts (some c) team_id s)
  unfolding delete_team
  delete-Same c team_id h =
      if_owner_holds Same team_id c.user_id (λ s'. (cascade db texts team_id s', done))
        (λ code. refl)
        (owners-delete db.members laws t (λ m. m.team_id == team_id) s.members
          (count-false (λ r. owns_team t r && (r.team_id == team_id)) (db.members.rows s.members)
            (λ r. ground (arith, eq_iff r.team_id t, eq_iff r.team_id team_id, eq_iff team_id t))))

  cancel-Same :
      (c : Caller) (team_id invite_id : String)
      → Same (cancel_invite db texts (some c) team_id invite_id s)
  unfolding cancel_invite
  cancel-Same c team_id invite_id = ground arith

  patch-Same :
      (c : Caller) (team_id : String) (p : Patch)
      → Same (patch_team db texts (some c) team_id (some p) s)
  unfolding patch_team
  patch-Same c team_id p = ground arith

  invite-Same :
      (c : Caller) (team_id : String) (email : Option String) (invite_id token : String) (now : ℕ)
      → Same (create_invite db texts (some c) team_id (some email) invite_id token now s)
  unfolding create_invite
  invite-Same c team_id email invite_id token now =
      elim (Bool-cases (texts.lower (texts.strip (or_empty email)) == "")) [
        | inl e ↦ rw e
        | inr e ↦ rw e (ground arith)
      ]

  answer-Same :
      (c : Caller) (token : String) (new_status : Status) (now : ℕ)
      → Same (handle_invite_response db texts (some c) token new_status now s)
  unfolding handle_invite_response
  answer-Same c token new_status now =
      by_invite (db.invites.one_or_none (λ i. i.token_hash == texts.token_hash token) s.invites)
        refl
    where
      by_invite :
          (f : Found TeamInvite)
          → db.invites.one_or_none (λ i. i.token_hash == texts.token_hash token) s.invites ≡ f
          → Same (handle_invite_response db texts (some c) token new_status now s)
      by_invite nothing e = rw (e, handle_invite_response) (ground arith)
      by_invite several e = rw (e, handle_invite_response) (ground arith)
      by_invite (one i) e =
          rw (e, handle_invite_response) (ground (arith, settle-owners i new_status c now))

  respond-Same :
      (c : Caller) (invite_id : String) (new_status : Status) (now : ℕ)
      → Same (respond_invite db texts (some c) invite_id (some (some new_status)) now s)
  unfolding respond_invite
  respond-Same c invite_id new_status now =
      by_invite (db.invites.one_or_none (λ i. i.id == invite_id) s.invites) refl
    where
      by_invite :
          (f : Found TeamInvite)
          → db.invites.one_or_none (λ i. i.id == invite_id) s.invites ≡ f
          → Same (respond_invite db texts (some c) invite_id (some (some new_status)) now s)
      by_invite nothing e = rw (e, respond_invite)
      by_invite several e = rw (e, respond_invite)
      by_invite (one i) e =
          rw (e, respond_invite) (ground (arith, settle-owners i new_status c now))

  -- While no request makes or deletes a team that has at most one owner row, its owner rows are as
  -- many as before: an owner is neither removed nor doubled, whoever sends what.
  pub step-owners :
      (c : Option Caller) (r : Request)
      → owners db t s ≤ 1
      → concerns t r ≡ false
      → owners db t (step db texts c r s).0 ≡ owners db t s
  unfolding step create_team patch_team delete_team create_invite cancel_invite
      handle_invite_response respond_invite remove_member
  step-owners none (create b i n) h q = refl
  step-owners none (patch i b) h q = refl
  step-owners none (delete i) h q = refl
  step-owners none (invite i b x y n) h q = refl
  step-owners none (cancel i x) h q = refl
  step-owners none (answer x y n) h q = refl
  step-owners none (respond x b n) h q = refl
  step-owners none (remove i x) h q = refl
  step-owners (some c) (create none i n) h q = refl
  step-owners (some c) (create (some name) i n) h q = create-Same c name i n q
  step-owners (some c) (patch i none) h q = refl
  step-owners (some c) (patch i (some p)) h q = patch-Same c i p
  step-owners (some c) (delete i) h q = delete-Same c i q
  step-owners (some c) (invite i none x y n) h q = refl
  step-owners (some c) (invite i (some m) x y n) h q = invite-Same c i m x y n
  step-owners (some c) (cancel i x) h q = cancel-Same c i x
  step-owners (some c) (answer x y n) h q = answer-Same c x y n
  step-owners (some c) (respond x none n) h q = refl
  step-owners (some c) (respond x (some none) n) h q = refl
  step-owners (some c) (respond x (some (some y)) n) h q = respond-Same c x y n
  step-owners (some c) (remove i x) h q = remove-owners i x c h

-- ===== src/Teams/Access.antt =====
-- Requests to the team handlers, and who may change what.
use oc_piloci.Prelude.{ℕ, ◌≡◌, refl, Option, none, some, Bool, true, false, String, arith}
use oc_piloci.Db.{Found, nothing, several, one}
use oc_piloci.Teams.{
  Site, Reply, failed, done, created, answered, Caller, Texts, Tables, Patch, Status, TeamMember,
  Handler, is_owner, get_team_member, create_team, patch_team, delete_team, create_invite,
  cancel_invite, handle_invite_response, respond_invite, remove_member,
}

-- A request to one of the handlers, with the ids, tokens and the time that it meets.
pub data Request : Type 0 where
  create : Option (Option String) → String → ℕ → Request
  patch : String → Option Patch → Request
  delete : String → Request
  invite : String → Option (Option String) → String → String → ℕ → Request
  cancel : String → String → Request
  answer : String → Status → ℕ → Request
  respond : String → Option (Option Status) → ℕ → Request
  remove : String → String → Request

-- The team that only its owner may change so.
abbrev pub owned_by : Request → Option String
owned_by (create body team_id now) = none
owned_by (patch team_id body) = some team_id
owned_by (delete team_id) = some team_id
owned_by (invite team_id body invite_id token now) = some team_id
owned_by (cancel team_id invite_id) = some team_id
owned_by (answer token new_status now) = none
owned_by (respond invite_id body now) = none
owned_by (remove team_id target) = some team_id

abbrev pub is_failed : Reply → Bool
is_failed (failed code) = true
is_failed done = false
is_failed (created id) = false
is_failed (answered status team_id) = false

abbrev pub owns_row : Found TeamMember → Bool
owns_row nothing = false
owns_row several = false
owns_row (one m) = is_owner m.role

module _ {T M I D B : Type 0} (db : Tables T M I D) where
  -- Whether the caller is signed in and is the owner of a team.
  abbrev pub owns : Option Caller → String → Site T M I D B → Bool
  owns none team_id s = false
  owns (some c) team_id s = owns_row (get_team_member db team_id c.user_id s)

module _ {T M I D B : Type 0} (db : Tables T M I D) (texts : Texts) where
  unfoldable pub step : Option Caller → Request → Handler T M I D B
  step c (create body team_id now) s = create_team db texts c body team_id now s
  step c (patch team_id body) s = patch_team db texts c team_id body s
  step c (delete team_id) s = delete_team db texts c team_id s
  step c (invite team_id body invite_id token now) s =
      create_invite db texts c team_id body invite_id token now s
  step c (cancel team_id invite_id) s = cancel_invite db texts c team_id invite_id s
  step c (answer token new_status now) s = handle_invite_response db texts c token new_status now s
  step c (respond invite_id body now) s = respond_invite db texts c invite_id body now s
  step c (remove team_id target) s = remove_member db texts c team_id target s

  -- Changing or deleting a team, inviting, cancelling an invite and removing a member are for the
  -- owner of the team: a request of these from anyone else fails and changes nothing.
  pub step-outsider :
      (c : Option Caller) (r : Request) (team_id : String) (s : Site T M I D B)
      → owned_by r ≡ some team_id
      → owns db c team_id s ≡ false
      → ((step c r s).0 ≡ s) × (is_failed (step c r s).1 ≡ true)
  unfolding step patch_team delete_team create_invite cancel_invite remove_member
  step-outsider c (create body t now) team_id s e h = absurd (cc e)
  step-outsider c (answer token new_status now) team_id s e h = absurd (cc e)
  step-outsider c (respond i body now) team_id s e h = absurd (cc e)
  step-outsider none (patch t body) team_id s e h = (refl, refl)
  step-outsider none (delete t) team_id s e h = (refl, refl)
  step-outsider none (invite t body i token now) team_id s e h = (refl, refl)
  step-outsider none (cancel t i) team_id s e h = (refl, refl)
  step-outsider none (remove t target) team_id s e h = (refl, refl)
  step-outsider (some c) (patch t none) team_id s e h = (refl, refl)
  step-outsider (some c) (patch t (some p)) team_id s e h = ground arith
  step-outsider (some c) (delete t) team_id s e h = ground arith
  step-outsider (some c) (invite t none i token now) team_id s e h = (refl, refl)
  step-outsider (some c) (invite t (some email) i token now) team_id s e h = ground arith
  step-outsider (some c) (cancel t i) team_id s e h = ground arith
  step-outsider (some c) (remove t target) team_id s e h = ground arith

-- ===== src/Teams.antt =====
-- api/team_routes.py: teams, their members and their invites. A handler takes the site, the caller
-- that the session names, and what the request says, and returns the site with the reply; ids,
-- tokens and the time come in. `strip` and `lower` are the methods of Python's texts, `token_hash`
-- is SHA-256. A body is what the JSON object holds under its keys; `none` for a body that is no JSON.
mod Records
pub mod Members
pub mod Owners
pub mod Access
pub mod Answers
pub mod Joining
pub mod Documents
mod Examples
use oc_piloci.Prelude.{
  ℕ, ◌+◌, ◌*◌, Option, none, some, Bool, true, false, not, ◌&&◌, ◌||◌, String, ◌==◌, ltb, leb, ◌=?◌,
  if◌then◌else◌,
}
use oc_piloci.Db.{Sql, Found, nothing, several, one}
pub use Records.*

module _ {T M I D B : Type 0} (db : Tables T M I D) where
  -- `_get_team_member`
  abbrev pub get_team_member : String → String → Site T M I D B → Found TeamMember
  get_team_member team_id user_id s = db.members.one_or_none (belongs team_id user_id) s.members

  -- The guards "is a member" and "is the owner" that most handlers begin with.
  abbrev pub if_member : String → String → (TeamMember → Handler T M I D B) → Handler T M I D B
  if_member team_id user_id act s = elim (get_team_member team_id user_id s) [
    | nothing ↦ (s, failed 404)
    | several ↦ (s, failed 500)
    | one m ↦ act m s
  ]

  abbrev pub if_owner : String → String → Handler T M I D B → Handler T M I D B
  if_owner team_id user_id act s = elim (get_team_member team_id user_id s) [
    | nothing ↦ (s, failed 404)
    | several ↦ (s, failed 500)
    | one m ↦ if is_owner m.role then act s else (s, failed 403)
  ]

module _ {T M I D B : Type 0} (db : Tables T M I D) (texts : Texts) where
  open texts use {strip, lower, token_hash}

  -- The body's `name`.
  pub create_team : Option Caller → Option (Option String) → String → ℕ → Handler T M I D B
  create_team none body team_id now s = (s, failed 401)
  create_team (some c) none team_id now s = (s, failed 400)
  create_team (some c) (some name) team_id now s =
      if strip (or_empty name) == "" then (s, failed 400) else (
        record s {
          teams =
              db.teams.insert
                (record {
                  id = team_id;
                  name = strip (or_empty name);
                  owner_id = c.user_id;
                  created_at = now;
                  description = none;
                  avatar = none;
                  color = none;
                  auto_wiki_enabled = false;
                })
                s.teams;
          members = db.members.insert (new_member team_id c.user_id owner now) s.members;
        },
        created team_id,
      )

  pub patch_team : Option Caller → String → Option Patch → Handler T M I D B
  patch_team none team_id body s = (s, failed 401)
  patch_team (some c) team_id none s = (s, failed 400)
  patch_team (some c) team_id (some p) s =
      if_owner db team_id c.user_id
        (λ s'. elim (db.teams.one_or_none (λ t. t.id == team_id) s'.teams) [
          | nothing ↦ (s', failed 404)
          | several ↦ (s', failed 500)
          | one t ↦ (
            record s' {
              teams =
                  db.teams.update (λ t'. t'.id == team_id)
                    (λ t'. record t' {
                      name = patched_name texts p.name t'.name;
                      description = patched texts p.description t'.description;
                      avatar = patched texts p.avatar t'.avatar;
                      color = patched_color texts p.color t'.color;
                      auto_wiki_enabled = elim p.auto_wiki_enabled [
                        | none ↦ t'.auto_wiki_enabled
                        | some b ↦ b
                      ];
                    })
                    s'.teams;
            },
            done,
          )
        ])
        s

  -- The rows that refer to a team go with it: `ON DELETE CASCADE`.
  abbrev pub cascade : String → Site T M I D B → Site T M I D B
  cascade team_id s = record s {
    teams = db.teams.delete (λ t. t.id == team_id) s.teams;
    members = db.members.delete (λ m. m.team_id == team_id) s.members;
    invites = db.invites.delete (λ i. i.team_id == team_id) s.invites;
    documents = db.documents.delete (λ d. d.team_id == team_id) s.documents;
  }

  pub delete_team : Option Caller → String → Handler T M I D B
  delete_team none team_id s = (s, failed 401)
  delete_team (some c) team_id s =
      if_owner db team_id c.user_id (λ s'. (cascade team_id s', done)) s

  -- The body's `invitee_email`.
  pub create_invite :
      Option Caller → String → Option (Option String) → String → String → ℕ → Handler T M I D B
  create_invite none team_id body invite_id token now s = (s, failed 401)
  create_invite (some c) team_id none invite_id token now s = (s, failed 400)
  create_invite (some c) team_id (some email) invite_id token now s =
      if lower (strip (or_empty email)) == ""
      then (s, failed 400)
      else if_owner db team_id c.user_id
          (λ s'. (
            record s' {
              invites =
                  db.invites.insert
                    (record {
                      id = invite_id;
                      team_id = team_id;
                      inviter_id = c.user_id;
                      invitee_email = lower (strip (or_empty email));
                      token_hash = token_hash token;
                      status = pending;
                      expires_at = now + 7 * 86400;
                      created_at = now;
                    })
                    s'.invites;
            },
            created token,
          ))
          s

  pub cancel_invite : Option Caller → String → String → Handler T M I D B
  cancel_invite none team_id invite_id s = (s, failed 401)
  cancel_invite (some c) team_id invite_id s =
      if_owner db team_id c.user_id
        (λ s'.
          elim (db.invites.one_or_none (λ i. (i.id == invite_id) && (i.team_id == team_id))
            s'.invites) [
              | nothing ↦ (s', failed 404)
              | several ↦ (s', failed 500)
              | one i ↦ (
                record s' { invites = db.invites.delete (λ j. j.id == invite_id) s'.invites },
                done,
              )
            ])
        s

  -- `invite.status = new_status`, and the new member of an accepted invite.
  abbrev pub settle : TeamInvite → Status → Caller → ℕ → Handler T M I D B
  settle invite new_status c now s =
      let s' : Site T M I D B = record s {
        invites =
            db.invites.update (λ i. i.id == invite.id) (λ i. record i { status = new_status })
              s.invites;
      } in
      if is_accepted new_status
      then (elim (get_team_member db invite.team_id c.user_id s') [
        | nothing ↦ (
          record s' {
            members = db.members.insert (new_member invite.team_id c.user_id member now) s'.members;
          },
          answered new_status invite.team_id,
        )
        | several ↦ (s, failed 500)
        | one m ↦ (s', answered new_status invite.team_id)
      ])
      else (s', answered new_status invite.team_id)

  -- `_handle_invite_response`, by the token of the invite.
  pub handle_invite_response : Option Caller → String → Status → ℕ → Handler T M I D B
  handle_invite_response none token new_status now s = (s, failed 401)
  handle_invite_response (some c) token new_status now s =
      if token == ""
      then (s, failed 400)
      else elim (db.invites.one_or_none (λ i. i.token_hash == token_hash token) s.invites) [
        | nothing ↦ (s, failed 404)
        | several ↦ (s, failed 500)
        | one i ↦
            if not (is_pending i.status)
            then (s, failed 409)
            else if ltb i.expires_at now
            then (s, failed 410)
            else if not (i.invitee_email == email_of texts c)
            then (s, failed 403)
            else settle i new_status c now s
      ]

  -- By the id of the invite; the body's `action`, `none` where it is neither of the two.
  pub respond_invite : Option Caller → String → Option (Option Status) → ℕ → Handler T M I D B
  respond_invite none invite_id body now s = (s, failed 401)
  respond_invite (some c) invite_id none now s = (s, failed 400)
  respond_invite (some c) invite_id (some none) now s = (s, failed 400)
  respond_invite (some c) invite_id (some (some new_status)) now s =
      elim (db.invites.one_or_none (λ i. i.id == invite_id) s.invites) [
        | nothing ↦ (s, failed 404)
        | several ↦ (s, failed 500)
        | one i ↦
            if not (i.invitee_email == email_of texts c)
            then (s, failed 403)
            else if not (is_pending i.status)
            then (s, failed 409)
            else if ltb i.expires_at now
            then (s, failed 410)
            else settle i new_status c now s
      ]

  pub remove_member : Option Caller → String → String → Handler T M I D B
  remove_member none team_id target_user_id s = (s, failed 401)
  remove_member (some c) team_id target_user_id s =
      if_owner db team_id c.user_id
        (λ s'.
          if target_user_id == c.user_id
          then (s', failed 422)
          else elim (get_team_member db team_id target_user_id s') [
            | nothing ↦ (s', failed 404)
            | several ↦ (s', failed 500)
            | one m ↦ (
              record s' { members = db.members.delete (belongs team_id target_user_id) s'.members },
              done,
            )
          ])
        s

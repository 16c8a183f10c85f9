-- ===== src/Teams/Records.antt =====
-- db/models.py: the tables of teams, their members, invites and documents; what the handlers of
-- api/team_routes.py take and reply.
use oc_piloci.Prelude.{
  ℕ, Option, none, some, Bool, true, false, not, ◌&&◌, ◌||◌, String, ◌==◌, ◌=?◌, if◌then◌else◌,
}
use oc_piloci.Db.{Sql}

pub data Role : Type 0 where
  owner member : Role

pub data Status : Type 0 where
  pending accepted rejected : Status

pub record Team : Type 0 where
  pub id : String
  pub name : String
  pub owner_id : String
  pub created_at : ℕ
  pub description : Option String
  pub avatar : Option String
  pub color : Option String
  pub auto_wiki_enabled : Bool

pub record TeamMember : Type 0 where
  pub team_id : String
  pub user_id : String
  pub role : Role
  pub joined_at : ℕ

pub record TeamInvite : Type 0 where
  pub id : String
  pub team_id : String
  pub inviter_id : String
  pub invitee_email : String
  pub token_hash : String
  pub status : Status
  pub expires_at : ℕ
  pub created_at : ℕ

pub record TeamDocument : Type 0 where
  pub id : String
  pub team_id : String
  pub author_id : String
  pub uploader_id : Option String
  pub updated_by_id : Option String
  pub path : String
  pub content : String
  pub content_hash : String
  pub size : ℕ
  pub mime : String
  pub is_binary : Bool
  pub storage_key : Option String
  pub version : ℕ
  pub parent_hash : Option String
  pub updated_at : ℕ
  pub created_at : ℕ
  pub is_deleted : Bool

-- The tables that the handlers change, and the store of blobs.
pub record Site (T M I D B : Type 0) : Type 0 where
  pub teams : T
  pub members : M
  pub invites : I
  pub documents : D
  pub blobs : B

-- A reply: an error with its status code, or a success.
pub data Reply : Type 0 where
  failed : ℕ → Reply
  done : Reply
  created : String → Reply
  answered : Status → String → Reply

-- The caller, as the session names it.
pub record Caller : Type 0 where
  pub user_id : String
  pub email : Option String

-- The texts of Python and the hash that the handlers call.
pub record Texts : Type 0 where
  pub strip : String → String
  pub lower : String → String
  pub token_hash : String → String
  pub starts_with : String → String → Bool
  pub len : String → ℕ

-- The tables of the database.
pub record Tables (T M I D : Type 0) : Type 0 where
  pub teams : Sql T Team
  pub members : Sql M TeamMember
  pub invites : Sql I TeamInvite
  pub documents : Sql D TeamDocument

-- The body of a PATCH: the keys that it has, each with its value.
pub record Patch : Type 0 where
  pub name : Option (Option String)
  pub description : Option (Option String)
  pub avatar : Option (Option String)
  pub color : Option (Option String)
  pub auto_wiki_enabled : Option Bool

abbrev pub is_owner : Role → Bool
is_owner owner = true
is_owner member = false

abbrev pub is_pending : Status → Bool
is_pending pending = true
is_pending accepted = false
is_pending rejected = false

abbrev pub is_accepted : Status → Bool
is_accepted accepted = true
is_accepted pending = false
is_accepted rejected = false

-- `(value or "")`
abbrev pub or_empty : Option String → String
or_empty none = ""
or_empty (some s) = s

abbrev pub belongs : String → String → TeamMember → Bool
belongs team_id user_id m = (m.team_id == team_id) && (m.user_id == user_id)

-- What a handler does with the site.
abbrev pub Handler : (T M I D B : Type 0) → Type 0
Handler T M I D B = Site T M I D B → Site T M I D B × Reply

abbrev pub new_member : String → String → Role → ℕ → TeamMember
new_member team_id user_id role now = record {
  team_id = team_id;
  user_id = user_id;
  role = role;
  joined_at = now;
}

module _ (texts : Texts) where
  open texts use {strip, lower, starts_with, len}

  -- `(value or "").strip() or None`, for a key that the body has.
  abbrev pub patched : Option (Option String) → Option String → Option String
  patched none old = old
  patched (some v) old = if strip (or_empty v) == "" then none else some (strip (or_empty v))

  abbrev pub patched_name : Option (Option String) → String → String
  patched_name none old = old
  patched_name (some v) old = if strip (or_empty v) == "" then old else strip (or_empty v)

  -- "#" and three or six digits; other colours are left out, and an empty one clears it.
  abbrev pub patched_color : Option (Option String) → Option String → Option String
  patched_color none old = old
  patched_color (some v) old =
      let color : String = strip (or_empty v) in
      if not (color == "") && starts_with color "#" && ((len color =? 4) || (len color =? 7))
      then some color
      else if color == ""
      then none
      else old

  abbrev pub email_of : Caller → String
  email_of c = lower (strip (or_empty c.email))

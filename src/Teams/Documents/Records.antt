-- ===== src/Teams/Documents/Records.antt =====
-- api/team_routes.py: what the handlers of documents take, reply and write.
use oc_piloci.Prelude.{
  ℕ, ◌+◌, ◌*◌, Option, none, some, Bool, true, false, not, ◌&&◌, String, ◌==◌, if◌then◌else◌,
}
use oc_piloci.Db.{Found, nothing, several, one}
use oc_piloci.Teams.{Site, Caller, TeamDocument}

-- A reply about a document: an error, a conflict with the version that is there, or a success.
pub data DocumentReply : Type 0 where
  refused : ℕ → DocumentReply
  conflict : String → ℕ → DocumentReply
  saved : String → ℕ → DocumentReply
  deleted : DocumentReply

-- What the handlers compute of contents: SHA-256, UTF-8 and the patterns of the store's keys.
pub record Contents (Data : Type 0) : Type 0 where
  pub content_hash : String → String
  pub utf8_size : String → ℕ
  pub sha256 : Data → String
  pub data_size : Data → ℕ
  pub decode : Data → Option String
  pub is_team_id : String → Bool
  pub is_storage_key : String → Bool
  pub join : String → String → String
  pub split : String → String × String

-- The directory of the store. `resolve` is the path under it, `none` where that leaves it.
pub record Files (B Data : Type 0) : Type 0 where
  pub resolve : String → String → Option String
  pub exists : String → B → Bool
  pub write_bytes : String → Data → B → B
  pub unlink : String → B → B

pub record NewDocument : Type 0 where
  pub path : Option String
  -- `some none` where the value is no text.
  pub content : Option (Option String)
  pub parent_hash : Option String

pub record Edit : Type 0 where
  pub content : Option String
  pub parent_hash : Option String

pub record Upload (Data : Type 0) : Type 0 where
  pub file : Option Data
  pub path : Option String
  pub filename : Option String
  pub mime : Option String
  pub content_type : Option String

-- What an upload writes in the row.
pub record Stored : Type 0 where
  pub content : String
  pub content_hash : String
  pub size : ℕ
  pub mime : String
  pub is_binary : Bool
  pub storage_key : Option String

-- `value or None`
abbrev pub or_none : Option String → Option String
or_none none = none
or_none (some s) = if s == "" then none else some s

-- `value or default`
abbrev pub or_default : Option String → String → String
or_default none d = d
or_default (some s) d = if s == "" then d else s

-- `_MAX_UPLOAD_BYTES`
abbrev pub max_upload_bytes : ℕ
max_upload_bytes = 50 * 1024 * 1024

abbrev pub live_at : String → String → TeamDocument → Bool
live_at team_id path d = (d.team_id == team_id) && ((d.path == path) && not d.is_deleted)

abbrev pub live_id : String → String → TeamDocument → Bool
live_id team_id doc_id d = (d.id == doc_id) && ((d.team_id == team_id) && not d.is_deleted)

abbrev pub DocumentHandler : (T M I D B : Type 0) → Type 0
DocumentHandler T M I D B = Site T M I D B → Site T M I D B × DocumentReply

abbrev pub uploader_of : Option String → String → Option String
uploader_of none user_id = some user_id
uploader_of (some u) user_id = some u

-- Whether the version that an edit starts from is not the one that is there.
abbrev pub is_stale : Option String → String → Bool
is_stale none server_hash = false
is_stale (some h) server_hash = not (h == server_hash)

abbrev pub replaced : Caller → Stored → ℕ → TeamDocument → TeamDocument
replaced c f now d = record d {
  content = f.content;
  content_hash = f.content_hash;
  size = f.size;
  mime = f.mime;
  is_binary = f.is_binary;
  storage_key = f.storage_key;
  version = d.version + 1;
  updated_by_id = some c.user_id;
  author_id = c.user_id;
  uploader_id = uploader_of d.uploader_id c.user_id;
  updated_at = now;
}

abbrev pub uploaded : Caller → String → String → String → Stored → ℕ → TeamDocument
uploaded c team_id path doc_id f now = record {
  id = doc_id;
  team_id = team_id;
  author_id = c.user_id;
  uploader_id = some c.user_id;
  updated_by_id = some c.user_id;
  path = path;
  content = f.content;
  content_hash = f.content_hash;
  size = f.size;
  mime = f.mime;
  is_binary = f.is_binary;
  storage_key = f.storage_key;
  version = 1;
  parent_hash = none;
  updated_at = now;
  created_at = now;
  is_deleted = false;
}

abbrev pub next_version : Found TeamDocument → ℕ
next_version (one d) = d.version + 1
next_version nothing = 1
next_version several = 1

abbrev pub is_several : Found TeamDocument → Bool
is_several several = true
is_several nothing = false
is_several (one d) = false

module _ {Data : Type 0} (contents : Contents Data) where
  open contents use {content_hash, utf8_size}

  abbrev pub written : Caller → String → String → String → Option String → String → ℕ → TeamDocument
  written c team_id path content parent_hash doc_id now = record {
    id = doc_id;
    team_id = team_id;
    author_id = c.user_id;
    uploader_id = some c.user_id;
    updated_by_id = some c.user_id;
    path = path;
    content = content;
    content_hash = content_hash content;
    size = utf8_size content;
    mime = "text/markdown";
    is_binary = false;
    storage_key = none;
    version = 1;
    parent_hash = parent_hash;
    updated_at = now;
    created_at = now;
    is_deleted = false;
  }

  abbrev pub edited : Caller → String → ℕ → TeamDocument → TeamDocument
  edited c content now d = record d {
    content = content;
    content_hash = content_hash content;
    size = utf8_size content;
    version = d.version + 1;
    parent_hash = some d.content_hash;
    updated_by_id = some c.user_id;
    author_id = c.user_id;
    uploader_id = uploader_of d.uploader_id c.user_id;
    updated_at = now;
  }

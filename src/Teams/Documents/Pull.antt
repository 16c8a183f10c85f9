-- ===== src/Teams/Documents/Pull.antt =====
-- api/team_routes.py, `route_pull_documents`: what a client's copies and the documents of a team
-- differ in, and the copies that follow from it.
use oc_piloci.Prelude.{
  ℕ, Option, none, some, List, [], ◌∷◌, not, ◌&&◌, String, ◌==◌, if◌then◌else◌, lookup, insert,
  is_some,
}
use oc_piloci.Db.{nothing, several, one}
use oc_piloci.Teams.{Site, Caller, Tables, TeamDocument, get_team_member}

pub record PulledDocument : Type 0 where
  pub id : String
  pub path : String
  pub content : String
  pub content_hash : String
  pub version : ℕ
  pub author_email : String

pub record Diff : Type 0 where
  pub added : List PulledDocument
  pub modified : List PulledDocument
  pub deleted : List String
  pub unchanged : List (String × String)

pub data PullReply : Type 0 where
  unpulled : ℕ → PullReply
  pulled : Diff → PullReply

-- The documents and their authors' emails, as the query joins them: `email` is a user's, by id.
abbrev pub with_emails :
    (String → Option String) → List TeamDocument → List (String × PulledDocument)
with_emails email [] = []
with_emails email (d ∷ docs) =
    let rest = with_emails email docs in
    elim (email d.author_id) [
      | none ↦ rest
      | some e ↦
          (
            d.path,
            record {
              id = d.id;
              path = d.path;
              content = d.content;
              content_hash = d.content_hash;
              version = d.version;
              author_email = e;
            },
          )
          ∷ rest
    ]

-- `server_docs`: by path, a later row in place of an earlier one.
abbrev pub by_path :
    List (String × PulledDocument) → List (String × PulledDocument) → List (String × PulledDocument)
by_path [] docs = docs
by_path ((path, d) ∷ rows) docs = by_path rows (insert path d docs)

-- One document of the server, put where it belongs.
abbrev pub place : List (String × String) → String → PulledDocument → Diff → Diff
place manifest path d diff = elim (lookup path manifest) [
  | none ↦ record diff { added = d ∷ diff.added }
  | some h ↦
      if not (h == d.content_hash)
      then record diff { modified = d ∷ diff.modified }
      else record diff { unchanged = (path, d.content_hash) ∷ diff.unchanged }
]

unfoldable pub sort_out : List (String × String) → List (String × PulledDocument) → Diff
sort_out manifest [] = record { added = []; modified = []; deleted = []; unchanged = [] }
sort_out manifest ((path, d) ∷ docs) = place manifest path d (sort_out manifest docs)

-- `[p for p in manifest if p not in server_docs]`
unfoldable pub gone : List (String × String) → List (String × PulledDocument) → List String
gone [] docs = []
gone ((path, h) ∷ manifest) docs =
    let rest = gone manifest docs in if is_some (lookup path docs) then rest else path ∷ rest

abbrev pub diff_of : List (String × String) → List (String × PulledDocument) → Diff
diff_of manifest docs = record (sort_out manifest docs) { deleted = gone manifest docs }

module _ {T M I D B : Type 0} (db : Tables T M I D) (email : String → Option String) where
  abbrev pub server_docs : String → Site T M I D B → List (String × PulledDocument)
  server_docs team_id s =
      by_path
        (with_emails email
          (db.documents.select (λ d. (d.team_id == team_id) && not d.is_deleted) [] s.documents))
        []

  -- The body's `manifest`.
  unfoldable pub pull_documents :
      Option Caller → String → Option (Option (List (String × String))) → Site T M I D B → PullReply
  pull_documents none team_id body s = unpulled 401
  pull_documents (some c) team_id none s = unpulled 400
  pull_documents (some c) team_id (some manifest) s =
      elim (get_team_member db team_id c.user_id s) [
        | nothing ↦ unpulled 404
        | several ↦ unpulled 500
        | one m ↦
            pulled (
              diff_of (elim manifest [ none ↦ [] | some entries ↦ entries ])
                (server_docs team_id s))
      ]

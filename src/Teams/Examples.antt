-- ===== src/Teams/Examples.antt =====
-- A site with one team, an owner, a guest with an invite, and two documents with the same bytes.
use oc_piloci.Prelude.{
  ◌&&◌, some, ◌≡◌, ◌≤◌, refl, none, some, List, [], ◌∷◌, Bool, true, false, String, ◌==◌, arith,
}
use oc_piloci.Db.{count_if}
use oc_piloci.Db.Table.{table, table-IsSql}
use oc_piloci.Teams.{
  Site, Caller, Texts, Tables, owner, pending, accepted, rejected, Team, TeamMember, TeamInvite,
  TeamDocument, email_of, handle_invite_response,
}
use oc_piloci.Teams.Access.{step, step-outsider, remove, answer, respond, is_failed}
use oc_piloci.Teams.Owners.{owners, step-owners}
use oc_piloci.Teams.Answers.{step-again}
use oc_piloci.Teams.Joining.{accepts, time, open_for, step-joined}

abbrev pub db : Tables (List Team) (List TeamMember) (List TeamInvite) (List TeamDocument)
db = record {
  teams = table (λ t. t.id);
  members = table (λ m. m.user_id);
  invites = table (λ i. i.id);
  documents = table (λ d. d.id);
}

abbrev pub texts : Texts
texts = record {
  strip = λ s. s;
  lower = λ s. s;
  token_hash = λ s. s;
  starts_with = λ s t. false;
  len = λ s. 0;
}

abbrev pub ann : Caller
ann = record { user_id = "ann"; email = some "ann@x" }

abbrev pub bob : Caller
bob = record { user_id = "bob"; email = some "bob@x" }

abbrev pub crew : Team
crew = record {
  id = "crew";
  name = "Crew";
  owner_id = "ann";
  created_at = 0;
  description = none;
  avatar = none;
  color = none;
  auto_wiki_enabled = false;
}

abbrev pub invite_bob : TeamInvite
invite_bob = record {
  id = "i";
  team_id = "crew";
  inviter_id = "ann";
  invitee_email = "bob@x";
  token_hash = "token";
  status = pending;
  expires_at = 900;
  created_at = 0;
}

abbrev pub notes : TeamDocument
notes = record {
  id = "d";
  team_id = "crew";
  author_id = "ann";
  uploader_id = some "ann";
  updated_by_id = some "ann";
  path = "notes.md";
  content = "old";
  content_hash = "old";
  size = 3;
  mime = "text/markdown";
  is_binary = false;
  storage_key = none;
  version = 1;
  parent_hash = none;
  updated_at = 0;
  created_at = 0;
  is_deleted = false;
}

abbrev pub picture : String → TeamDocument
picture id = record notes {
  id = id;
  path = id;
  content = "";
  content_hash = "pixels";
  is_binary = true;
  storage_key = some "crew/pixels";
}

-- The directory of blobs is the list of its files.
abbrev pub site :
    Site (List Team) (List TeamMember) (List TeamInvite) (List TeamDocument) (String → Bool)
site = record {
  teams = crew ∷ [];
  members = record { team_id = "crew"; user_id = "ann"; role = owner; joined_at = 0 } ∷ [];
  invites = invite_bob ∷ [];
  documents = notes ∷ picture "a.png" ∷ picture "b.png" ∷ [];
  blobs = λ p. p == "crew/pixels";
}

step-outsider_example :
    ((step db texts (some bob) (remove "crew" "ann") site).0 ≡ site)
    × (is_failed (step db texts (some bob) (remove "crew" "ann") site).1 ≡ true)
step-outsider_example =
    step-outsider db texts (some bob) (remove "crew" "ann") "crew" site refl refl

step-owners_example :
    owners db "crew" (step db texts (some ann) (remove "crew" "ann") site).0 ≡ owners db "crew" site
step-owners_example =
    step-owners db texts (table-IsSql (λ m. m.user_id)) "crew" site (some ann) (remove "crew" "ann")
      (omega arith) refl

step-again_example :
    let s = (step db texts (some bob) (answer "token" rejected 10) site).0 in
    ((step db texts (some bob) (respond invite_bob.id (some (some accepted)) 20) s).0 ≡ s)
    × (is_failed (step db texts (some bob) (respond invite_bob.id (some (some accepted)) 20) s).1
        ≡ true)
unfolding step handle_invite_response
step-again_example =
    step-again db texts (table-IsSql (λ i. i.id)) (some bob) (some bob) (answer "token" rejected 10)
      (respond invite_bob.id (some (some accepted)) 20) invite_bob rejected "crew" site refl refl
      refl refl

step-joined_example :
    ("bob" ≡ bob.user_id)
    × (1
        ≤ count_if
            (λ i.
              open_for "crew" (email_of texts bob) (time (answer "token" accepted 10)) i
              && accepts texts (answer "token" accepted 10) i)
            (invite_bob ∷ []))
unfolding step handle_invite_response
step-joined_example =
    step-joined db texts (table-IsSql (λ m. m.user_id)) (table-IsSql (λ i. i.id)) bob "crew" "bob"
      site (answer "token" accepted 10) refl refl (omega arith)

-- ===== src/Teams/Documents/Examples.antt =====
-- Documents of one team: two edits of one version, an upload, and two pictures with the same bytes.
use oc_piloci.Prelude.{
  ◌≤◌, ◌&&◌, is_some, ◌≡◌, refl, ap, sym, Option, none, some, List, [], ◌∷◌, Bool, true, false, not,
  String, ◌==◌, arith, if◌then◌else◌, lookup, eq_refl, eq_iff,
}
use oc_piloci.Db.{count_if}
use oc_piloci.Db.Table.{table-IsSql}
use oc_piloci.Teams.{TeamMember, owner}
use oc_piloci.Teams.Examples.{db, texts, ann, notes, picture, site}
use oc_piloci.Teams.Documents.{
  Contents, Files, Edit, Upload, conflict, update_document, delete_document,
}
use oc_piloci.Teams.Documents.Cases.{upload, document_step}
use oc_piloci.Teams.Documents.Edits.{HasPaths, step-HasPaths}
use oc_piloci.Teams.Documents.Conflicts.{update-conflict}
use oc_piloci.Teams.Documents.Blobs.{IsFiles, IsContents, holds, shares, delete-shared}
use oc_piloci.Teams.Documents.Pull.{Diff, pull_documents, diff_of, server_docs}
use oc_piloci.Teams.Documents.Following.{live_at, follow, pull-follow}

-- Bytes are texts, which stand for their own hashes; there is one team.
abbrev contents : Contents String
contents = record {
  content_hash = λ s. s;
  utf8_size = λ s. 0;
  sha256 = λ s. s;
  data_size = λ s. 0;
  decode = λ s. if s == "pixels" then none else some s;
  is_team_id = λ s. s == "crew";
  is_storage_key = λ s. not (s == "");
  join = λ t s. s;
  split = λ k. ("crew", k);
}

abbrev files : Files (String → Bool) String
files = record {
  resolve = λ t p. some p;
  exists = λ p b. b p;
  write_bytes = λ p x b q. if p == q then true else b q;
  unlink = λ p b q. if p == q then false else b q;
}

files-IsFiles : IsFiles files
files-IsFiles = record {
  exists-unlink_same = λ p b. rw (eq_refl p) refl;
  exists-unlink_other = λ p q b n. ground (arith, eq_iff p q);
  exists-write_same = λ p x b. rw (eq_refl p) refl;
  exists-write_other = λ p q x b n. ground (arith, eq_iff p q);
}

contents-IsContents : IsContents contents
contents-IsContents = record {
  split-join = λ t x h. ap (λ y. (y, x)) (sym ((eq_iff t "crew").0 h));
}

abbrev edit_notes : String → Edit
edit_notes s = record { content = some s; parent_hash = some "old" }

abbrev new_notes : Upload String
new_notes = record {
  file = some "text";
  path = some "notes.md";
  filename = none;
  mime = none;
  content_type = none;
}

apart : (x y p : String) → (x == y) ≡ false → (x == p) ≡ true → (y == p) ≡ false
apart x y p h e = ground (arith, (eq_iff x p).0 e, eq_iff x y, eq_iff y p)

site-HasPaths : HasPaths db site
site-HasPaths t p = ground (
  arith,
  apart "notes.md" "a.png" p refl,
  apart "notes.md" "b.png" p refl,
  apart "a.png" "b.png" p refl,
)

step-HasPaths_example :
    HasPaths db
      (document_step db texts contents files
        (some ann)
        (upload "crew" (some new_notes) "e" 5)
        site).0
step-HasPaths_example =
    step-HasPaths db texts contents files (table-IsSql (λ d. d.id)) site (some ann)
      (upload "crew" (some new_notes) "e" 5) site-HasPaths

update-conflict_example :
    let s =
      (update_document db texts contents
        (some ann)
        "crew"
        "d"
        (some (edit_notes "mine"))
        5
        site).0 in
    update_document db texts contents (some ann) "crew" "d" (some (edit_notes "yours")) 6 s
    ≡ (s, conflict "mine" 2)
unfolding update_document
update-conflict_example =
    update-conflict db texts contents (table-IsSql (λ d. d.id)) ann ann
      (record { team_id = "crew"; user_id = "ann"; role = owner; joined_at = 0 }) "crew" "d" "mine"
      "yours" notes (edit_notes "mine") (edit_notes "yours") 5 6 2 "mine" site refl refl refl refl
      refl refl (λ e. absurd (cc e))

abbrev ann_owner : TeamMember
ann_owner = record { team_id = "crew"; user_id = "ann"; role = owner; joined_at = 0 }

delete-shared_example :
    (holds contents files "crew/pixels"
        (delete_document db texts contents files (some ann) "crew" "a.png" 9 site).0.blobs
      ≡ false)
    × (count_if (shares "crew/pixels" "a.png") (
          db.documents.rows
            (delete_document db texts contents files (some ann) "crew" "a.png" 9 site).0.documents)
        ≡ count_if (shares "crew/pixels" "a.png") (db.documents.rows site.documents))
delete-shared_example =
    delete-shared db texts contents files files-IsFiles (table-IsSql (λ d. d.id)) ann ann_owner
      "crew" "a.png" "crew/pixels" (picture "a.png") 9 site refl refl refl refl refl

abbrev email : String → Option String
email u = some u

abbrev copies : List (String × String)
copies = ("notes.md", "older") ∷ ("left.md", "left") ∷ []

abbrev sent : Diff
sent = diff_of copies (server_docs db email "crew" site)

pull-follow_example :
    ((h : String)
      → lookup "notes.md" (follow sent copies) ≡ some h
      → 1 ≤ count_if (λ d. live_at "crew" "notes.md" d && (d.content_hash == h)) site.documents)
    × (lookup "notes.md" (follow sent copies) ≡ none
        → count_if (λ d. live_at "crew" "notes.md" d && is_some (email d.author_id)) site.documents
          ≡ 0)
unfolding pull_documents
pull-follow_example =
    pull-follow db email (table-IsSql (λ d. d.id)) ann "crew" copies site sent "notes.md" refl

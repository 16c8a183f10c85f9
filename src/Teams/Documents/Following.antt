-- ===== src/Teams/Documents/Following.antt =====
-- The copies of a client that follows what `route_pull_documents` sends.
use oc_piloci.Prelude.{
  ◌≤◌, ◌≢◌, ◌⊎◌, fun_ext, Bool, Option-cases, ◌≡◌, refl, sym, ◌∙◌, ap, ap₂, Option, none, some,
  List, [], ◌∷◌, true, false, not, ◌&&◌, String, ◌==◌, if◌then◌else◌, arith, eq_iff, Bool-cases,
  inl, inr, lookup, insert, erase, lookup-insert, lookup-erase, contains, is_some,
}
use oc_piloci.Db.{IsSql, Found, nothing, several, one, count_if}
use oc_piloci.Db.Counts.{count_if-keep}
use oc_piloci.Teams.{Site, Caller, Tables, TeamDocument, TeamMember, get_team_member}
use oc_piloci.Teams.Documents.Pull.{
  PulledDocument, Diff, pulled, with_emails, by_path, sort_out, gone, diff_of, server_docs,
  pull_documents,
}

-- What a client does with a diff: the deleted paths go, and the documents that are new or changed
-- are kept with their hashes.
unfoldable pub keep_documents :
    List PulledDocument → List (String × String) → List (String × String)
keep_documents [] copies = copies
keep_documents (d ∷ docs) copies = insert d.path d.content_hash (keep_documents docs copies)

unfoldable pub drop_paths : List String → List (String × String) → List (String × String)
drop_paths [] copies = copies
drop_paths (p ∷ ps) copies = erase p (drop_paths ps copies)

abbrev pub follow : Diff → List (String × String) → List (String × String)
follow diff copies =
    keep_documents diff.added (keep_documents diff.modified (drop_paths diff.deleted copies))

abbrev pub hash_of : Option PulledDocument → Option String
hash_of none = none
hash_of (some d) = some d.content_hash

-- The hash of the document at a path.
abbrev pub hash_at : String → List (String × PulledDocument) → Option String
hash_at p docs = hash_of (lookup p docs)

-- Every document stands under its own path, and no path twice.
abbrev pub IsByPath : List (String × PulledDocument) → Type 0
IsByPath [] = Unit
IsByPath ((path, d) ∷ docs) = (path ≡ d.path) × ((lookup path docs ≡ none) × IsByPath docs)

lookup-drop_paths :
    (p : String) (ps : List String) (copies : List (String × String))
    → lookup p (drop_paths ps copies) ≡ (if contains p ps then none else lookup p copies)
unfolding drop_paths contains
lookup-drop_paths p [] copies = refl
lookup-drop_paths p (q ∷ ps) copies =
    lookup-erase q p (drop_paths ps copies) ∙ ground (arith, lookup-drop_paths p ps copies)

contains-gone :
    (p : String) (manifest : List (String × String)) (docs : List (String × PulledDocument))
    → contains p (gone manifest docs)
      ≡ (is_some (lookup p manifest) && not (is_some (lookup p docs)))
unfolding gone contains lookup
contains-gone p [] docs = refl
contains-gone p ((path, h) ∷ manifest) docs = elim (Bool-cases (path == p)) [
  | inl e ↦
      let q : path ≡ p = (eq_iff path p).0 e in
      let same : is_some (lookup path docs) ≡ is_some (lookup p docs) =
        ap (λ x. is_some (lookup x docs)) q in
      ground (arith, same, contains-gone p manifest docs)
  | inr e ↦ ground (arith, contains-gone p manifest docs)
]

-- The hash of the first document in a list that has a path.
abbrev hash_in : String → List PulledDocument → Option String
hash_in p [] = none
hash_in p (d ∷ docs) =
    let rest = hash_in p docs in if d.path == p then some d.content_hash else rest

or_else : Option String → Option String → Option String
or_else none b = b
or_else (some a) b = some a

lookup-keep_documents :
    (p : String) (docs : List PulledDocument) (copies : List (String × String))
    → lookup p (keep_documents docs copies) ≡ or_else (hash_in p docs) (lookup p copies)
unfolding keep_documents or_else
lookup-keep_documents p [] copies = refl
lookup-keep_documents p (d ∷ docs) copies =
    lookup-insert d.path p d.content_hash (keep_documents docs copies)
    ∙ ground (arith, lookup-keep_documents p docs copies)

hash_in-added :
    (p : String) (manifest : List (String × String)) (docs : List (String × PulledDocument))
    → IsByPath docs
    → hash_in p (sort_out manifest docs).added
      ≡ (if is_some (lookup p manifest) then none else hash_at p docs)
unfolding sort_out lookup
hash_in-added p manifest [] k = ground arith
hash_in-added p manifest ((path, d) ∷ docs) k = elim (Bool-cases (path == p)) [
  | inl e ↦
      let q : path ≡ p = (eq_iff path p).0 e in
      let held : lookup path manifest ≡ lookup p manifest = ap (λ x. lookup x manifest) q in
      let here : (d.path == p) ≡ true = ap (λ x. x == p) (sym k.0) ∙ e in
      ground (arith, held, here, hash_in-added p manifest docs k.1.1)
  | inr e ↦
      let there : (d.path == p) ≡ false = ap (λ x. x == p) (sym k.0) ∙ e in
      ground (arith, there, hash_in-added p manifest docs k.1.1)
]

-- A hash of the server's that is not the client's.
abbrev renewed : Option String → Option String → Option String
renewed none g = none
renewed (some h) none = none
renewed (some h) (some g) = if not (h == g) then some g else none

hash_in-modified :
    (p : String) (manifest : List (String × String)) (docs : List (String × PulledDocument))
    → IsByPath docs
    → hash_in p (sort_out manifest docs).modified ≡ renewed (lookup p manifest) (hash_at p docs)
unfolding sort_out lookup
hash_in-modified p manifest [] k = ground arith
hash_in-modified p manifest ((path, d) ∷ docs) k = elim (Bool-cases (path == p)) [
  | inl e ↦
      let q : path ≡ p = (eq_iff path p).0 e in
      let held : lookup path manifest ≡ lookup p manifest = ap (λ x. lookup x manifest) q in
      let here : (d.path == p) ≡ true = ap (λ x. x == p) (sym k.0) ∙ e in
      let alone : lookup p docs ≡ none = ap (λ x. lookup x docs) (sym q) ∙ k.1.0 in
      ground (arith, held, here, alone, hash_in-modified p manifest docs k.1.1)
  | inr e ↦
      let there : (d.path == p) ≡ false = ap (λ x. x == p) (sym k.0) ∙ e in
      ground (arith, there, hash_in-modified p manifest docs k.1.1)
]

-- The hash that a client ends up with, from its own and the server's.
merged :
    (o : Option String) (o' : Option PulledDocument)
    → or_else
        (if is_some o then none else hash_of o')
        (or_else (renewed o (hash_of o')) (if is_some o && not (is_some o') then none else o))
      ≡ hash_of o'
unfolding or_else
merged none none = refl
merged none (some d) = refl
merged (some h) none = refl
merged (some h) (some d) = ground (arith, eq_iff h d.content_hash)

-- The copies of a client that follows the difference.
lookup-follow :
    (manifest : List (String × String)) (docs : List (String × PulledDocument)) (p : String)
    → IsByPath docs
    → lookup p (follow (diff_of manifest docs) manifest) ≡ hash_at p docs
lookup-follow manifest docs p k =
    lookup-keep_documents p (sort_out manifest docs).added
      (keep_documents (sort_out manifest docs).modified (drop_paths (gone manifest docs) manifest))
    ∙ ap₂ or_else (hash_in-added p manifest docs k) (
        lookup-keep_documents p (sort_out manifest docs).modified
          (drop_paths (gone manifest docs) manifest)
        ∙ ap₂ or_else (hash_in-modified p manifest docs k) (
            lookup-drop_paths p (gone manifest docs) manifest
            ∙ ap (λ b. if b then none else lookup p manifest) (contains-gone p manifest docs)))
    ∙ merged (lookup p manifest) (lookup p docs)

IsByPath-insert :
    (path : String) (d : PulledDocument) (docs : List (String × PulledDocument))
    → path ≡ d.path
    → IsByPath docs
    → IsByPath (insert path d docs)
unfolding insert lookup
IsByPath-insert path d [] e k = (e, (refl, tt))
IsByPath-insert path d ((q, x) ∷ docs) e k = elim (Bool-cases (q == path)) [
  | inl f ↦
      let same : q ≡ path = (eq_iff q path).0 f in
      rw f ((e, (ap (λ y. lookup y docs) (sym same) ∙ k.1.0, k.1.1)))
  | inr f ↦ rw f (
      (
        k.0,
        (
          lookup-insert path q d docs ∙ ground (arith, k.1.0, eq_iff path q, eq_iff q path),
          IsByPath-insert path d docs e k.1.1,
        ),
      ))
]

-- Every row stands under its own path.
abbrev PathsMatch : List (String × PulledDocument) → Type 0
PathsMatch [] = Unit
PathsMatch ((path, d) ∷ rows) = (path ≡ d.path) × PathsMatch rows

IsByPath-by_path :
    (rows docs : List (String × PulledDocument))
    → PathsMatch rows
    → IsByPath docs
    → IsByPath (by_path rows docs)
IsByPath-by_path [] docs m k = k
IsByPath-by_path ((path, d) ∷ rows) docs m k =
    IsByPath-by_path rows (insert path d docs) m.1 (IsByPath-insert path d docs m.0 k)

PathsMatch-with_emails :
    (email : String → Option String) (docs : List TeamDocument)
    → PathsMatch (with_emails email docs)
PathsMatch-with_emails email [] = tt
PathsMatch-with_emails email (d ∷ docs) =
    by_email (email d.author_id) refl (PathsMatch-with_emails email docs)
  where
    by_email :
        (o : Option String)
        → email d.author_id ≡ o
        → PathsMatch (with_emails email docs)
        → PathsMatch (with_emails email (d ∷ docs))
    by_email none e rest = rw (e, PathsMatch) rest
    by_email (some a) e rest = rw (e, PathsMatch) ((refl, rest))

-- A document as it is sent, with its author's address.
abbrev as_pulled : TeamDocument → String → PulledDocument
as_pulled d e = record {
  id = d.id;
  path = d.path;
  content = d.content;
  content_hash = d.content_hash;
  version = d.version;
  author_email = e;
}

with_none :
    (email : String → Option String) (d : TeamDocument) (docs : List TeamDocument)
    → email d.author_id ≡ none
    → with_emails email (d ∷ docs) ≡ with_emails email docs
with_none email d docs q = rw (q, with_emails) refl

with_some :
    (email : String → Option String) (d : TeamDocument) (docs : List TeamDocument) (e : String)
    → email d.author_id ≡ some e
    → with_emails email (d ∷ docs) ≡ (d.path, as_pulled d e) ∷ with_emails email docs
with_some email d docs e q = rw (q, with_emails) refl

-- A path that has a hash has it from one of the documents.
found-docs :
    (email : String → Option String) (docs : List TeamDocument)
    (acc : List (String × PulledDocument)) (p h : String)
    → hash_at p (by_path (with_emails email docs) acc) ≡ some h
    → (1 ≤ count_if (λ d. (d.path == p) && (d.content_hash == h)) docs) ⊎ (hash_at p acc ≡ some h)
found-docs email [] acc p h e = inr e
found-docs email (d ∷ docs) acc p h e = elim (Option-cases (email d.author_id)) [
  | inl q ↦
      (elim (found-docs email docs acc p h
        (sym (ap (λ l. hash_at p (by_path l acc)) (with_none email d docs q)) ∙ e)) [
          | inl m ↦ inl (more m)
          | inr f ↦ inr f
        ])
  | inr (a, q) ↦
      (elim (found-docs email docs (insert d.path (as_pulled d a) acc) p h
        (sym (ap (λ l. hash_at p (by_path l acc)) (with_some email d docs a q)) ∙ e)) [
          | inl m ↦ inl (more m)
          | inr f ↦ here (as_pulled d a) refl f
        ])
]
  where
    more :
        1 ≤ count_if (λ x. (x.path == p) && (x.content_hash == h)) docs
        → 1 ≤ count_if (λ x. (x.path == p) && (x.content_hash == h)) (d ∷ docs)
    more m = ground (arith, m)

    here :
        (x : PulledDocument)
        → x.content_hash ≡ d.content_hash
        → hash_at p (insert d.path x acc) ≡ some h
        → (1 ≤ count_if (λ x. (x.path == p) && (x.content_hash == h)) (d ∷ docs))
          ⊎ (hash_at p acc ≡ some h)
    here x q f = elim (Bool-cases (d.path == p)) [
      | inl g ↦
          let at_path : lookup p (insert d.path x acc) ≡ some x =
            lookup-insert d.path p x acc ∙ rw g refl in
          let same : some x.content_hash ≡ some h = sym (ap hash_of at_path) ∙ f in
          let eq : d.content_hash ≡ h = sym q ∙ cc same in
          inl (ground (arith, g, eq, eq_iff d.content_hash h))
      | inr g ↦
          let at_path : lookup p (insert d.path x acc) ≡ lookup p acc =
            lookup-insert d.path p x acc ∙ rw g refl in
          inr (sym (ap hash_of at_path) ∙ f)
    ]

-- A path without a hash has no document whose author is known.
missed-docs :
    (email : String → Option String) (docs : List TeamDocument)
    (acc : List (String × PulledDocument)) (p : String)
    → hash_at p (by_path (with_emails email docs) acc) ≡ none
    → (count_if (λ d. (d.path == p) && is_some (email d.author_id)) docs ≡ 0)
      × (hash_at p acc ≡ none)
missed-docs email [] acc p e = (refl, e)
missed-docs email (d ∷ docs) acc p e = elim (Option-cases (email d.author_id)) [
  | inl q ↦
      let rest =
        missed-docs email docs acc p
          (sym (ap (λ l. hash_at p (by_path l acc)) (with_none email d docs q)) ∙ e) in
      (ground (arith, q, rest.0), rest.1)
  | inr (a, q) ↦
      let rest =
        missed-docs email docs (insert d.path (as_pulled d a) acc) p
          (sym (ap (λ l. hash_at p (by_path l acc)) (with_some email d docs a q)) ∙ e) in
      let apart = here (as_pulled d a) rest.1 in (ground (arith, q, rest.0, apart.0), apart.1)
]
  where
    here :
        (x : PulledDocument)
        → hash_at p (insert d.path x acc) ≡ none
        → ((d.path == p) ≡ false) × (hash_at p acc ≡ none)
    here x f = elim (Bool-cases (d.path == p)) [
      | inl g ↦
          let at_path : lookup p (insert d.path x acc) ≡ some x =
            lookup-insert d.path p x acc ∙ rw g refl in
          let clash : some x.content_hash ≡ none = sym (ap hash_of at_path) ∙ f in absurd (cc clash)
      | inr g ↦
          let at_path : lookup p (insert d.path x acc) ≡ lookup p acc =
            lookup-insert d.path p x acc ∙ rw g refl in
          (g, sym (ap hash_of at_path) ∙ f)
    ]

-- The documents of a team that are not deleted, at a path.
abbrev pub live_at : String → String → TeamDocument → Bool
live_at t p d = (d.team_id == t) && (not d.is_deleted && (d.path == p))

module _ {T M I D B : Type 0} (db : Tables T M I D) (email : String → Option String) where
  follow-docs :
      (c : Caller) (t : String) (manifest : List (String × String)) (s : Site T M I D B)
      (diff : Diff) (p : String)
      → pull_documents db email (some c) t (some (some manifest)) s ≡ pulled diff
      → lookup p (follow diff manifest) ≡ hash_at p (server_docs db email t s)
  unfolding pull_documents
  follow-docs c t manifest s diff p e = by_member (get_team_member db t c.user_id s) refl
    where
      by_member :
          (f : Found TeamMember)
          → get_team_member db t c.user_id s ≡ f
          → lookup p (follow diff manifest) ≡ hash_at p (server_docs db email t s)
      by_member nothing g = absurd (ground arith)
      by_member several g = absurd (ground arith)
      by_member (one m) g =
          let same : diff_of manifest (server_docs db email t s) ≡ diff = ground arith in
          ap (λ x. lookup p (follow x manifest)) (sym same)
          ∙ lookup-follow manifest (server_docs db email t s) p (
              IsByPath-by_path
                (with_emails email
                  (db.documents.select (λ d. (d.team_id == t) && not d.is_deleted) [] s.documents))
                []
                (PathsMatch-with_emails email
                  (db.documents.select (λ d. (d.team_id == t) && not d.is_deleted) [] s.documents))
                tt)

  -- A client that follows the diff it is sent has at a path only the hash of a document of the team
  -- there that is not deleted, and where it has nothing there is none whose author has an address.
  pub pull-follow :
      (laws : IsSql db.documents) (c : Caller) (t : String) (manifest : List (String × String))
      (s : Site T M I D B) (diff : Diff) (p : String)
      → pull_documents db email (some c) t (some (some manifest)) s ≡ pulled diff
      → ((h : String)
          → lookup p (follow diff manifest) ≡ some h
          → 1
            ≤ count_if
                (λ d. live_at t p d && (d.content_hash == h))
                (db.documents.rows s.documents))
        × (lookup p (follow diff manifest) ≡ none
            → count_if
                (λ d. live_at t p d && is_some (email d.author_id))
                (db.documents.rows s.documents)
              ≡ 0)
  unfolding lookup
  pull-follow laws c t manifest s diff p e =
      let followed = follow-docs c t manifest s diff p e in
      (
        λ h f. elim (found-docs email chosen [] p h (sym followed ∙ f)) [
          | inr g ↦ absurd (nowhere h g)
          | inl m ↦ omega (
            arith,
            m,
            among (λ d. (d.path == p) && (d.content_hash == h))
                (λ d. live_at t p d && (d.content_hash == h)) (λ d. ground arith),
          )
        ],
        λ f.
            sym (
              among (λ d. (d.path == p) && is_some (email d.author_id))
                (λ d. live_at t p d && is_some (email d.author_id)) (λ d. ground arith))
            ∙ (missed-docs email chosen [] p (sym followed ∙ f)).0,
      )
    where
      chosen : List TeamDocument
      chosen = db.documents.select (λ d. (d.team_id == t) && not d.is_deleted) [] s.documents

      nowhere : (h : String) → hash_at p [] ≢ some h
      nowhere h e = cc e

      among :
          (q r : TeamDocument → Bool)
          → ((d : TeamDocument) → ((d.team_id == t) && not d.is_deleted) && q d ≡ r d)
          → count_if q chosen ≡ count_if r (db.documents.rows s.documents)
      among q r h =
          laws.select-same (λ d. (d.team_id == t) && not d.is_deleted) [] s.documents q
          ∙ count_if-keep (λ d. (d.team_id == t) && not d.is_deleted) q
              (db.documents.rows s.documents)
          ∙ ap (λ (x : TeamDocument → Bool). count_if x (db.documents.rows s.documents)) (fun_ext h)

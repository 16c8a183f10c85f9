-- ===== src/Teams/Documents/Conflicts.antt =====
-- Two edits that start from one version of a document.
use oc_piloci.Prelude.{
  ℕ, ◌+◌, ◌≡◌, ◌≢◌, refl, ◌∙◌, sym, subst, ap₂, some, String, ◌==◌, arith, eq_iff,
}
use oc_piloci.Db.{IsSql, one}
use oc_piloci.Db.Finding.{one-update}
use oc_piloci.Teams.{Site, Caller, Texts, Tables, TeamDocument, TeamMember, get_team_member}
use oc_piloci.Teams.Documents.{
  conflict, saved, Contents, Edit, or_none, live_id, edited, update_document,
}

module _ {T M I D B Data : Type 0} (db : Tables T M I D) (texts : Texts)
    (contents : Contents Data) where
  -- What an edit that is saved leaves.
  update-saved :
      (c : Caller) (t id content : String) (d : TeamDocument) (b : Edit) (now v : ℕ) (h : String)
      (s : Site T M I D B)
      → b.content ≡ some content
      → db.documents.one_or_none (live_id t id) s.documents ≡ one d
      → (update_document db texts contents (some c) t id (some b) now s).1 ≡ saved h v
      → ((update_document db texts contents (some c) t id (some b) now s).0 ≡ record s {
        documents =
            db.documents.update (λ e. e.id == d.id) (edited contents c content now) s.documents;
      })
        × ((contents.content_hash content ≡ h) × (d.version + 1 ≡ v))
  unfolding update_document
  update-saved c t id content d b now v h s g f e = ground arith

  -- An edit that starts from another version.
  update-stale :
      (c : Caller) (m : TeamMember) (t id content p : String) (d : TeamDocument) (b : Edit)
      (now : ℕ) (s : Site T M I D B)
      → b.content ≡ some content
      → get_team_member db t c.user_id s ≡ one m
      → db.documents.one_or_none (live_id t id) s.documents ≡ one d
      → or_none b.parent_hash ≡ some p
      → p ≢ d.content_hash
      → update_document db texts contents (some c) t id (some b) now s
        ≡ (s, conflict d.content_hash d.version)
  unfolding update_document
  update-stale c m t id content p d b now s g k f e n = ground (arith, eq_iff p d.content_hash)

  -- Of two edits of a document that start from one version of it, the first wins: when it is saved
  -- with another content hash, the second, whoever sends it, changes nothing and is told the hash
  -- and the version that the first one made.
  pub update-conflict :
      (laws : IsSql db.documents) (c c' : Caller) (m : TeamMember) (t id content content' : String)
      (d : TeamDocument) (b b' : Edit) (now now' v : ℕ) (h : String) (s : Site T M I D B)
      → b.content ≡ some content
      → b'.content ≡ some content'
      → db.documents.one_or_none (live_id t id) s.documents ≡ one d
      → or_none b'.parent_hash ≡ some d.content_hash
      → get_team_member db t c'.user_id s ≡ one m
      → (update_document db texts contents (some c) t id (some b) now s).1 ≡ saved h v
      → d.content_hash ≢ h
      → update_document db texts contents
          (some c')
          t
          id
          (some b')
          now'
          (update_document db texts contents (some c) t id (some b) now s).0
        ≡ ((update_document db texts contents (some c) t id (some b) now s).0, conflict h v)
  update-conflict laws c c' m t id content content' d b b' now now' v h s g g' f p k e n =
      let after = update-saved c t id content d b now v h s g f e in
      let s' : Site T M I D B = record s {
        documents =
            db.documents.update (λ x. x.id == d.id) (edited contents c content now) s.documents;
      } in
      let stale : update_document db texts contents (some c') t id (some b') now' s'
          ≡ (s', conflict (contents.content_hash content) (d.version + 1)) =
        update-stale c' m t id content' d.content_hash (edited contents c content now d) b' now' s'
          g' k
          (one-update db.documents laws (λ x. x.id) (live_id t id) d (edited contents c content now)
            s.documents (λ x. refl) f)
          p (λ q. n (q ∙ after.1.0)) in
      subst
        (λ x. update_document db texts contents (some c') t id (some b') now' x ≡ (x, conflict h v))
        (sym after.0) (stale ∙ ap₂ (λ x y. (s', conflict x y)) after.1.0 after.1.1)

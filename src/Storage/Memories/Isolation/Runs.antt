-- ===== src/Storage/Memories/Isolation/Runs.antt =====
-- Sequences of writes: the ids stay unique, and no scope is touched by the writes of others.
use oc_piloci.Prelude.{
  ℕ, ◌≡◌, refl, ◌∙◌, Option, none, some, List, [], ◌∷◌, Bool, true, false, not, ◌&&◌, String, ◌==◌,
  arith, eq_iff, eq_refl,
}
use oc_piloci.Db.{count_if}
use oc_piloci.Db.Counts.{HasKeys}
use oc_piloci.Storage.Lance.{Lance, IsLance}
use oc_piloci.Storage.Lance.Frames.{delete-frame}
use oc_piloci.Storage.Memories.Records.{
  Row, Memory, Patch, Codec, safe_id, is_personal, of_team, has_id, personal,
}
use oc_piloci.Storage.Memories.Isolation.Keys.{after-HasKeys}
use oc_piloci.Storage.Memories.{
  delete, clear_project, must_filter, memory_filter, memory_of, patched, replaced,
}
use oc_piloci.Storage.Memories.Team.{
  team_update, team_update_found, team_update_read, team_delete, team_delete_read, team_filter,
  team_get,
}
use oc_piloci.Storage.Memories.Isolation.Documents.{indexes-frame, removes-frame}
use oc_piloci.Storage.Memories.Isolation.{
  Scope, project, team, owns, Write, saves, updates, deletes, clears, team_saves, team_updates,
  team_deletes, indexes, removes, scope_of, after, IsFresh, saves-frame, team_saves-frame,
  replace-frame, patch-frame, drop-frame, updates-frame,
}

-- No row belongs to both.
abbrev pub is_apart : Scope → Scope → Bool
is_apart (project u p) (project v r) = not ((u == v) && (p == r))
is_apart (project u p) (team tid) = not (tid == personal)
is_apart (team tid) (project u p) = not (tid == personal)
is_apart (team tid) (team other) = not (tid == other)

team-apart :
    (a b : String) (o : Option String)
    → (a == b) ≡ false
    → (elim o [ none ↦ false | some t ↦ t == a ]) ≡ true
    → (elim o [ none ↦ false | some t ↦ t == b ]) ≡ false
team-apart a b none h e = refl
team-apart a b (some t) h e = ground (arith, eq_iff t a, eq_iff t b, eq_iff a b)

apart-owns :
    {V : Type 0} (s w : Scope) (q : Row V → Bool)
    → is_apart s w ≡ true
    → (x : Row V) → owns w x ≡ true
    → (owns s x && q x) ≡ false
apart-owns (project u p) (project v r) q h x own = ground (
  arith,
  eq_iff x.user_id u,
  eq_iff x.user_id v,
  eq_iff u v,
  eq_iff x.project_id p,
  eq_iff x.project_id r,
  eq_iff p r,
)
apart-owns (project u p) (team tid) q h x own =
    ground (arith, team-apart tid personal x.team_id (ground arith) own)
apart-owns (team tid) (project u p) q h x own = ground (
  arith,
  team-apart personal tid x.team_id (ground (arith, eq_iff personal tid, eq_iff tid personal))
      (ground arith),
)
apart-owns (team tid) (team other) q h x own =
    ground (
      arith,
      team-apart other tid x.team_id (ground (arith, eq_iff other tid, eq_iff tid other)) own,
    )

module _ {T V J : Type 0} (lance : Lance T (Row V)) (codec : Codec J) where
  unfoldable pub run : List (Write V J × ℕ) → T → T
  run [] t = t
  run ((w, now) ∷ ws) t = run ws (after lance codec w now t)

  -- No write is by the scope, and each draws fresh ids.
  abbrev pub ByOthers : Scope → List (Write V J × ℕ) → T → Type 0
  ByOthers s [] t = Unit
  ByOthers s ((w, now) ∷ ws) t =
      (is_apart s (scope_of w) ≡ true)
      × IsFresh lance codec w t
      × ByOthers s ws (after lance codec w now t)

module _ {T V J : Type 0} (lance : Lance T (Row V)) (codec : Codec J) (laws : IsLance lance)
    (keyed : (r : Row V) → lance.key r ≡ r.memory_id) where
  module _ (q : Row V → Bool) where
    deletes-frame :
        (u p id : String) (now : ℕ) (t : T)
        → ((x : Row V) → is_personal u p x ≡ true → q x ≡ false)
        → count_if q (lance.rows (after lance codec (deletes u p id) now t))
          ≡ count_if q (lance.rows t)
    unfolding after delete memory_filter must_filter safe_id
    deletes-frame u p id now t apart =
        ground (arith, drop-frame lance codec laws keyed (project u p) q apart id t)

    clears-frame :
        (u p : String) (now : ℕ) (t : T)
        → ((x : Row V) → is_personal u p x ≡ true → q x ≡ false)
        → count_if q (lance.rows (after lance codec (clears u p) now t)) ≡ count_if q (lance.rows t)
    unfolding after clear_project must_filter safe_id
    clears-frame u p now t apart =
        ground (arith, delete-frame lance laws (is_personal u p) q t apart)

    team_found-frame :
        (tid id : String) (patch : Patch V J) (now : ℕ) (t : T) (r : Row V) (rest : List (Row V))
        (o : Option V)
        → ((x : Row V) → of_team tid x ≡ true → q x ≡ false)
        → HasKeys (λ (x : Row V). x.memory_id) (lance.rows t)
        → lance.query (λ x. of_team tid x && has_id id x) 1 0 t ≡ r ∷ rest
        → count_if q (
            lance.rows (
              team_update_found lance codec tid id
                (λ x. of_team tid x && has_id id x)
                patch
                now
                (memory_of lance codec r)
                o
                t))
          ≡ count_if q (lance.rows t)
    team_found-frame tid id patch now t r rest none apart keys e =
        patch-frame lance codec laws keyed (team tid) q apart id
          (patched lance codec patch (some (memory_of lance codec r)) now) t (λ x. refl)
    team_found-frame tid id patch now t r rest (some v) apart keys e =
        replace-frame lance codec laws keyed (team tid) q apart id
          (replaced lance codec (memory_of lance codec r) patch v now id r.user_id r.project_id
            (some tid))
          r rest t keys e refl (eq_refl tid)

    team_read-frame :
        (tid id requester : String) (patch : Patch V J) (allow : Bool) (now : ℕ) (t : T)
        (found : List (Row V))
        → ((x : Row V) → of_team tid x ≡ true → q x ≡ false)
        → HasKeys (λ (x : Row V). x.memory_id) (lance.rows t)
        → lance.query (λ x. of_team tid x && has_id id x) 1 0 t ≡ found
        → count_if q (
            lance.rows
              (team_update_read lance codec tid id requester
                (λ x. of_team tid x && has_id id x)
                patch
                allow
                now
                (elim found [ [] ↦ none | r ∷ rest ↦ some (memory_of lance codec r) ])
                t).0)
          ≡ count_if q (lance.rows t)
    team_read-frame tid id requester patch allow now t [] apart keys e = refl
    team_read-frame tid id requester patch allow now t (r ∷ rest) apart keys e =
        ground (arith, team_found-frame tid id patch now t r rest patch.new_vector apart keys e)

    team_updates-frame :
        (tid id requester : String) (patch : Patch V J) (allow : Bool) (now : ℕ) (t : T)
        → ((x : Row V) → of_team tid x ≡ true → q x ≡ false)
        → HasKeys (λ (x : Row V). x.memory_id) (lance.rows t)
        → count_if q
            (lance.rows (after lance codec (team_updates tid id requester patch allow) now t))
          ≡ count_if q (lance.rows t)
    unfolding after team_update team_get team_filter safe_id
    team_updates-frame tid id requester patch allow now t apart keys = ground (
      arith,
      team_read-frame tid id requester patch allow now t
          (lance.query (λ x. of_team tid x && has_id id x) 1 0 t) apart keys refl,
    )

    team_drop-frame :
        (tid id requester : String) (allow : Bool) (t : T) (o : Option (Memory J))
        → ((x : Row V) → of_team tid x ≡ true → q x ≡ false)
        → count_if q (
            lance.rows
              (team_delete_read lance codec requester
                (λ x. of_team tid x && has_id id x)
                allow
                o
                t).0)
          ≡ count_if q (lance.rows t)
    team_drop-frame tid id requester allow t none apart = refl
    team_drop-frame tid id requester allow t (some e) apart =
        ground (arith, drop-frame lance codec laws keyed (team tid) q apart id t)

    team_deletes-frame :
        (tid id requester : String) (allow : Bool) (now : ℕ) (t : T)
        → ((x : Row V) → of_team tid x ≡ true → q x ≡ false)
        → count_if q (lance.rows (after lance codec (team_deletes tid id requester allow) now t))
          ≡ count_if q (lance.rows t)
    unfolding after team_delete team_get team_filter safe_id
    team_deletes-frame tid id requester allow now t apart = ground (
      arith,
      team_drop-frame tid id requester allow t
          (elim (lance.query (λ x. of_team tid x && has_id id x) 1 0 t) [
            | [] ↦ none
            | r ∷ rest ↦ some (memory_of lance codec r)
          ])
          apart,
    )

    -- A write changes no row but those of its scope.
    pub after-frame :
        (w : Write V J) (now : ℕ) (t : T)
        → ((x : Row V) → owns (scope_of w) x ≡ true → q x ≡ false)
        → HasKeys (λ (x : Row V). x.memory_id) (lance.rows t)
        → IsFresh lance codec w t
        → count_if q (lance.rows (after lance codec w now t)) ≡ count_if q (lance.rows t)
    after-frame (saves u p ms) now t apart keys fresh =
        saves-frame lance codec laws keyed (project u p) q apart u p ms now t refl fresh.1
    after-frame (updates u p id patch) now t apart keys fresh =
        updates-frame lance codec laws keyed q u p id patch now t apart keys
    after-frame (deletes u p id) now t apart keys fresh = deletes-frame u p id now t apart
    after-frame (clears u p) now t apart keys fresh = clears-frame u p now t apart
    after-frame (team_saves tid author ms) now t apart keys fresh =
        team_saves-frame lance codec laws keyed (team tid) q apart tid author ms now t refl fresh.1
    after-frame (team_updates tid id requester patch allow) now t apart keys fresh =
        team_updates-frame tid id requester patch allow now t apart keys
    after-frame (team_deletes tid id requester allow) now t apart keys fresh =
        team_deletes-frame tid id requester allow now t apart
    after-frame (indexes str tid doc chunks) now t apart keys fresh =
        indexes-frame lance codec laws keyed str tid doc q chunks now t apart fresh
    after-frame (removes str tid doc) now t apart keys fresh =
        removes-frame lance codec laws keyed str tid doc q now t apart

  -- Where the ids are unique, whatever the others write in any order leaves a scope its rows, if the ids of
  -- saved memories are fresh, and those of a document's chunks distinct and of no row but the document's
  -- own: as many rows pass any test, and the ids stay unique. A user's project is such a scope, and so
  -- is a team.
  pub run_isolated :
      (s : Scope) (ws : List (Write V J × ℕ)) (t : T)
      → HasKeys (λ (x : Row V). x.memory_id) (lance.rows t)
      → ByOthers lance codec s ws t
      → ((q : Row V → Bool)
          → count_if (λ x. owns s x && q x) (lance.rows (run lance codec ws t))
            ≡ count_if (λ x. owns s x && q x) (lance.rows t))
        × HasKeys (λ (x : Row V). x.memory_id) (lance.rows (run lance codec ws t))
  unfolding run
  run_isolated s [] t keys others = (λ q. refl, keys)
  run_isolated s ((w, now) ∷ ws) t keys others =
      let rest =
        run_isolated s ws (after lance codec w now t)
          (after-HasKeys lance codec laws keyed w now t others.1 keys) others.2 in
      (
        λ q.
            rest.0 q
            ∙ after-frame (λ x. owns s x && q x) w now t (apart-owns s (scope_of w) q others.0) keys
                others.1,
        rest.1,
      )

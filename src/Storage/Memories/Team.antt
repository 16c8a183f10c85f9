-- ===== src/Storage/Memories/Team.antt =====
-- storage/lancedb_store.py: the `team_*` methods, over the same table.
use oc_piloci.Prelude.{
  ℕ, ltb, Option, none, some, List, [], ◌∷◌, map, Bool, true, false, not, ◌&&◌, ◌||◌, String, ◌=?◌,
  if◌then◌else◌, is_nil, Result, ok, ◌>>=◌, lookup,
}
use oc_piloci.Storage.Lance.{Lance}
use oc_piloci.Storage.Memories.Records.{
  Row, Memory, MemoryWrite, Patch, Codec, StoreError, safe_id, of_team, has_id, has_tags, safe_tags,
  setdefault, ids_of, is_text,
}
use oc_piloci.Storage.Memories.{memory_of, replaced, patched}

-- SQL's LIKE with `_` for any character, and `%` behind the pattern.
unfoldable pub is_like : List ℕ → List ℕ → Bool
is_like [] s = true
is_like (p ∷ ps) [] = false
is_like (p ∷ ps) (c ∷ s) = ((p =? b'_') || (p =? c)) && is_like ps s

module _ {T V J : Type 0} (lance : Lance T (Row V)) (codec : Codec J) where
  open codec use {dumps, text, is_truthy}

  -- `_team_memory_filter_sql`
  unfoldable pub team_filter : String → String → Result StoreError (Row V → Bool)
  team_filter team_id memory_id = do
    tid ← safe_id team_id
    mid ← safe_id memory_id
    ok (λ r. of_team tid r && has_id mid r)

  -- `_team_build_where`
  unfoldable pub team_where : String → List String → Result StoreError (Row V → Bool)
  team_where team_id tags = do
    tid ← safe_id team_id
    safe ← safe_tags tags
    ok (λ r. of_team tid r && has_tags safe r)

  -- The rows of `team_save_many`, with their ids.
  abbrev pub team_row : String → String → String → MemoryWrite V J → ℕ → Row V
  team_row team_id author_id memory_id m now = record {
    memory_id = memory_id;
    user_id = author_id;
    project_id = team_id;
    scope = "team";
    team_id = some team_id;
    content = m.content;
    tags = m.tags;
    metadata = dumps (setdefault "author_id" (text author_id) m.metadata);
    created_at = now;
    updated_at = now;
    vector = m.vector;
  }

  abbrev pub team_rows : String → String → List (String × MemoryWrite V J) → ℕ → List (Row V)
  team_rows team_id author_id [] now = []
  team_rows team_id author_id ((memory_id, m) ∷ memories) now =
      team_row team_id author_id memory_id m now ∷ team_rows team_id author_id memories now

  unfoldable pub team_save_many :
      String
      → String
      → List (String × MemoryWrite V J)
      → ℕ
      → T
      → Result StoreError (T × List String)
  team_save_many team_id author_id memories now t = if is_nil memories then ok (t, []) else (do
    tid ← safe_id team_id
    author ← safe_id author_id
    ok (lance.merge_insert (team_rows tid author memories now) t, ids_of memories))

  unfoldable pub team_get : String → String → T → Result StoreError (Option (Memory J))
  unfolding team_filter
  team_get team_id memory_id t = do
    where_ ← team_filter team_id memory_id
    ok (elim (lance.query where_ 1 0 t) [ [] ↦ none | r ∷ rest ↦ some (memory_of lance codec r) ])

  unfoldable pub team_list : String → List String → ℕ → ℕ → T → Result StoreError (List (Memory J))
  unfolding team_where
  team_list team_id tags limit offset t = do
    where_ ← team_where team_id tags
    ok (map (memory_of lance codec) (lance.query where_ limit offset t))

  unfoldable pub team_count : String → List String → T → Result StoreError ℕ
  unfolding team_where
  team_count team_id tags t = do where_ ← team_where team_id tags; ok (lance.count_rows where_ t)

  -- Another author is named, and the requester is not the owner.
  abbrev pub is_denied : String → Bool → Memory J → Bool
  is_denied requester_id allow_owner e = not allow_owner && (elim (lookup "author_id" e.metadata) [
    | none ↦ false
    | some j ↦ is_truthy j && not (is_text codec requester_id j)
  ])

  abbrev pub team_update_found :
      String → String → (Row V → Bool) → Patch V J → ℕ → Memory J → Option V → T → T
  team_update_found team_id memory_id where_ p now e none t =
      (lance.update where_ (patched lance codec p (some e) now) t).0
  team_update_found team_id memory_id where_ p now e (some v) t =
      lance.merge_insert
        (replaced lance codec e p v now memory_id e.user_id e.project_id (some team_id) ∷ []) t

  abbrev pub team_update_read :
      String
      → String
      → String
      → (Row V → Bool)
      → Patch V J
      → Bool
      → ℕ
      → Option (Memory J)
      → T
      → T × Bool
  team_update_read team_id memory_id requester_id where_ p allow_owner now none t = (t, false)
  team_update_read team_id memory_id requester_id where_ p allow_owner now (some e) t =
      if is_denied requester_id allow_owner e
      then (t, false)
      else (team_update_found team_id memory_id where_ p now e p.new_vector t, true)

  unfoldable pub team_update :
      String → String → String → Patch V J → Bool → ℕ → T → Result StoreError (T × Bool)
  unfolding team_filter team_get
  team_update team_id memory_id requester_id p allow_owner now t = do
    existing ← team_get team_id memory_id t
    where_ ← team_filter team_id memory_id
    ok (team_update_read team_id memory_id requester_id where_ p allow_owner now existing t)

  abbrev pub team_delete_read : String → (Row V → Bool) → Bool → Option (Memory J) → T → T × Bool
  team_delete_read requester_id where_ allow_owner none t = (t, false)
  team_delete_read requester_id where_ allow_owner (some e) t =
      if is_denied requester_id allow_owner e
      then (t, false)
      else ((lance.delete where_ t).0, ltb 0 (lance.delete where_ t).1)

  unfoldable pub team_delete : String → String → String → Bool → T → Result StoreError (T × Bool)
  unfolding team_filter team_get
  team_delete team_id memory_id requester_id allow_owner t = do
    existing ← team_get team_id memory_id t
    where_ ← team_filter team_id memory_id
    ok (team_delete_read requester_id where_ allow_owner existing t)

-- ===== src/Storage/Memories.antt =====
-- storage/lancedb_store.py: the table of memories, personal ones and those of teams. The random ids
-- and the time come in, and the JSON codec is a parameter.
pub mod Records
pub mod Team
pub mod Isolation
pub mod Reading
pub mod Search
pub mod Chunks
mod Examples
use oc_piloci.Prelude.{
  ℕ, ltb, Option, none, some, List, [], ◌∷◌, map, Bool, true, false, not, ◌&&◌, ◌||◌, String, ◌==◌,
  if◌then◌else◌, is_nil, Result, ok, ◌>>=◌,
}
use oc_piloci.Storage.Lance.{Lance}
use oc_piloci.Storage.Memories.Records.{
  Row, Memory, MemoryWrite, Patch, Codec, Meta, StoreError, safe_id, personal, is_personal, of_team,
  has_id, has_tags, merged, given, safe_tags, ids_of, is_none,
}

module _ {T V J : Type 0} (lance : Lance T (Row V)) (codec : Codec J) where
  open codec use {loads, dumps}

  -- `_row_to_dict`
  abbrev pub memory_of : Row V → Memory J
  memory_of r = record {
    id = r.memory_id;
    user_id = r.user_id;
    project_id = r.project_id;
    scope = r.scope;
    team_id = elim r.team_id [
      | none ↦ none
      | some t ↦ if t == personal || t == "" then none else some t
    ];
    content = r.content;
    tags = r.tags;
    metadata = elim (loads (if r.metadata == "" then "{}" else r.metadata)) [
      | none ↦ []
      | some m ↦ m
    ];
    created_at = r.created_at;
    updated_at = r.updated_at;
  }

  -- `_must_filter_sql`
  unfoldable pub must_filter : String → String → Result StoreError (Row V → Bool)
  must_filter user_id project_id = do
    uid ← safe_id user_id
    pid ← safe_id project_id
    ok (is_personal uid pid)

  -- `_memory_filter_sql`
  unfoldable pub memory_filter : String → String → String → Result StoreError (Row V → Bool)
  unfolding must_filter
  memory_filter user_id project_id memory_id = do
    scope ← must_filter user_id project_id
    mid ← safe_id memory_id
    ok (λ r. scope r && has_id mid r)

  -- `_build_where`
  unfoldable pub build_where : String → String → List String → Result StoreError (Row V → Bool)
  unfolding must_filter
  build_where user_id project_id tags = do
    scope ← must_filter user_id project_id
    safe ← safe_tags tags
    ok (λ r. scope r && has_tags safe r)

  -- The rows of `save_many`, with their ids.
  abbrev pub new_row : String → String → String → MemoryWrite V J → ℕ → Row V
  new_row user_id project_id memory_id m now = record {
    memory_id = memory_id;
    user_id = user_id;
    project_id = project_id;
    scope = "personal";
    team_id = some personal;
    content = m.content;
    tags = m.tags;
    metadata = dumps m.metadata;
    created_at = now;
    updated_at = now;
    vector = m.vector;
  }

  abbrev pub new_rows : String → String → List (String × MemoryWrite V J) → ℕ → List (Row V)
  new_rows user_id project_id [] now = []
  new_rows user_id project_id ((memory_id, m) ∷ memories) now =
      new_row user_id project_id memory_id m now ∷ new_rows user_id project_id memories now

  unfoldable pub save_many :
      String
      → String
      → List (String × MemoryWrite V J)
      → ℕ
      → T
      → Result StoreError (T × List String)
  save_many user_id project_id memories now t = if is_nil memories then ok (t, []) else (do
    uid ← safe_id user_id
    pid ← safe_id project_id
    ok (lance.merge_insert (new_rows uid pid memories now) t, ids_of memories))

  unfoldable pub get : String → String → String → T → Result StoreError (Option (Memory J))
  unfolding memory_filter must_filter
  get user_id project_id memory_id t = do
    where_ ← memory_filter user_id project_id memory_id
    ok (elim (lance.query where_ 1 0 t) [ [] ↦ none | r ∷ rest ↦ some (memory_of r) ])

  unfoldable pub count : String → String → List String → T → Result StoreError ℕ
  unfolding build_where must_filter
  count user_id project_id tags t = do
    where_ ← build_where user_id project_id tags
    ok (lance.count_rows where_ t)

  unfoldable pub list :
      String → String → List String → ℕ → ℕ → T → Result StoreError (List (Memory J))
  unfolding build_where must_filter
  list user_id project_id tags limit offset t = do
    where_ ← build_where user_id project_id tags
    ok (map memory_of (lance.query where_ limit offset t))

  -- The columns that an update in place sets; the metadata is merged with what was read.
  abbrev pub patched : Patch V J → Option (Memory J) → ℕ → Row V → Row V
  patched p existing now r = record r {
    updated_at = now;
    content = given r.content p.content;
    tags = given r.tags p.tags;
    metadata = elim p.metadata [
      | none ↦ r.metadata
      | some m ↦ elim existing [ none ↦ r.metadata | some e ↦ dumps (merged e.metadata m) ]
    ];
  }

  -- The row that takes the place of one whose text is embedded anew.
  abbrev pub replaced :
      Memory J → Patch V J → V → ℕ → String → String → String → Option String → Row V
  replaced e p vector now memory_id user_id project_id team_id = record {
    memory_id = memory_id;
    user_id = user_id;
    project_id = project_id;
    scope = e.scope;
    team_id = team_id;
    content = given e.content p.content;
    tags = given e.tags p.tags;
    metadata = dumps (merged e.metadata (given [] p.metadata));
    created_at = e.created_at;
    updated_at = now;
    vector = vector;
  }

  -- An update of a row that was read: in place, or by a row with the new vector.
  abbrev pub update_found :
      String → String → String → (Row V → Bool) → Patch V J → ℕ → Memory J → Option V → T → T
  update_found user_id project_id memory_id where_ p now e none t =
      (lance.update where_ (patched p (some e) now) t).0
  update_found user_id project_id memory_id where_ p now e (some v) t =
      lance.merge_insert (replaced e p v now memory_id user_id project_id (some personal) ∷ []) t

  abbrev pub update_read :
      String → String → String → (Row V → Bool) → Patch V J → ℕ → List (Row V) → T → T × Bool
  update_read user_id project_id memory_id where_ p now [] t = (t, false)
  update_read user_id project_id memory_id where_ p now (r ∷ rest) t =
      (update_found user_id project_id memory_id where_ p now (memory_of r) p.new_vector t, true)

  unfoldable pub update :
      String → String → String → Patch V J → ℕ → T → Result StoreError (T × Bool)
  unfolding memory_filter must_filter
  update user_id project_id memory_id p now t = do
    where_ ← memory_filter user_id project_id memory_id
    ok (
        if is_none p.new_vector && is_none p.metadata
        then (
          (lance.update where_ (patched p none now) t).0,
          ltb 0 (lance.update where_ (patched p none now) t).1,
        )
        else update_read user_id project_id memory_id where_ p now (lance.query where_ 1 0 t) t)

  unfoldable pub delete : String → String → String → T → Result StoreError (T × Bool)
  unfolding memory_filter must_filter
  delete user_id project_id memory_id t = do
    where_ ← memory_filter user_id project_id memory_id
    ok ((lance.delete where_ t).0, ltb 0 (lance.delete where_ t).1)

  unfoldable pub clear_project : String → String → T → Result StoreError (T × ℕ)
  unfolding must_filter
  clear_project user_id project_id t = do
    where_ ← must_filter user_id project_id
    ok (lance.delete where_ t)

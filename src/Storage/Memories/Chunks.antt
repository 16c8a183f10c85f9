-- ===== src/Storage/Memories/Chunks.antt =====
-- storage/lancedb_store.py: the chunks of a team's documents, which are rows of the table of memories
-- under ids that the document and the position give.
pub mod Reindex
use oc_piloci.Prelude.{
  ℕ, ◌+◌, ◌≡◌, refl, ◌∙◌, ap, none, some, List, [], ◌∷◌, ◌++◌, map, Bool, true, false, not, ◌&&◌,
  ◌||◌, String, ◌==◌, ◌=?◌, if◌then◌else◌, is_nil, keep, contains, Result, ok, err, ◌>>=◌, arith,
  eq_refl,
}
use Prim.Native.String.{◌++◌ as str_append}
use Prim.Native.Char.{code}
use oc_piloci.Storage.Lance.{Lance, IsLance}
use oc_piloci.Storage.Memories.Records.{
  Row, MemoryWrite, Codec, Meta, StoreError, invalid_id, safe_id, is_safe_id, codes, of_team,
  has_id, setdefault, is_id_char, id_rest,
}
use oc_piloci.Storage.Memories.Team.{is_like, team_filter, team_get}

-- `doc::<doc_id>::`, before the position.
abbrev pub chunk_prefix : String → String
chunk_prefix doc_id = str_append "doc::" (str_append doc_id "::")

-- `_doc_chunk_id`; `str` writes a number.
abbrev pub doc_chunk_id : (ℕ → String) → String → ℕ → String
doc_chunk_id str doc_id idx = str_append (chunk_prefix doc_id) (str idx)

module _ {T V J : Type 0} (lance : Lance T (Row V)) (codec : Codec J) (str : ℕ → String) where
  open codec use {dumps, text}

  abbrev pub of_doc : String → String → Row V → Bool
  of_doc team_id doc_id r =
      of_team team_id r && is_like (codes (chunk_prefix doc_id)) (codes r.memory_id)

  unfoldable pub team_remove_doc_chunks : String → String → T → Result StoreError (T × ℕ)
  unfolding is_like
  team_remove_doc_chunks team_id doc_id t = do
    safe_team ← safe_id team_id
    safe_doc ← safe_id doc_id
    ok (lance.delete (of_doc safe_team safe_doc) t)

  abbrev pub chunk_row : String → String → ℕ → MemoryWrite V J → ℕ → Row V
  chunk_row team_id doc_id idx m now = record {
    memory_id = doc_chunk_id str doc_id idx;
    user_id = team_id;
    project_id = team_id;
    scope = "team";
    team_id = some team_id;
    content = m.content;
    tags = m.tags;
    metadata =
        dumps (setdefault "doc_id" (text doc_id) (setdefault "kind" (text "doc_chunk") m.metadata));
    created_at = now;
    updated_at = now;
    vector = m.vector;
  }

  abbrev pub chunk_rows : String → String → ℕ → List (MemoryWrite V J) → ℕ → List (Row V)
  chunk_rows team_id doc_id idx [] now = []
  chunk_rows team_id doc_id idx (m ∷ chunks) now =
      chunk_row team_id doc_id idx m now ∷ chunk_rows team_id doc_id (idx + 1) chunks now

  unfoldable pub team_index_doc_chunks :
      String → String → List (MemoryWrite V J) → ℕ → T → Result StoreError (T × List String)
  unfolding team_remove_doc_chunks is_like
  team_index_doc_chunks team_id doc_id chunks now t = do
    safe_team ← safe_id team_id
    safe_doc ← safe_id doc_id
    removed ← team_remove_doc_chunks team_id doc_id t
    ok (
        if is_nil chunks then (removed.0, []) else (
          lance.merge_insert (chunk_rows safe_team safe_doc 0 chunks now) removed.0,
          map (λ r. r.memory_id) (chunk_rows safe_team safe_doc 0 chunks now),
        ))

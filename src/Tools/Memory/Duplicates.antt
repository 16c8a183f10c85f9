-- ===== src/Tools/Memory/Duplicates.antt =====
-- Saving what is there already.
use oc_piloci.Prelude.{
  ℕ, ◌≡◌, refl, ap, Option, none, some, [], ◌∷◌, true, false, ◌&&◌, String, ◌==◌, if◌then◌else◌,
  Result, ok, arith, eq_refl,
}
use oc_piloci.Storage.Lance.{Lance, Engine, IsLance}
use oc_piloci.Storage.Memories.Records.{
  Row, Memory, Codec, StoreError, is_personal, has_id, is_safe_id, codes, safe_id, safe_tags, Patch,
  personal, given, has_tags, merged, Meta,
}
use oc_piloci.Storage.Memories.{
  memory_of, get, update, replaced, memory_filter, must_filter, build_where,
}
use oc_piloci.Storage.Memories.Reading.{IsCodec, query-merged}
use oc_piloci.Storage.Memories.Search.{
  Arithmetic, search, vector_hits, scored, similarity, recency_boost, boosted, sort, place,
}
use oc_piloci.Tools.Memory.{MemoryInput, save, act_in_project, save_or_refresh, updated}

module _ {X V J F : Type 0} (lance : Lance X (Row V)) (laws : IsLance lance)
    (keyed : (r : Row V) → lance.key r ≡ r.memory_id) (engine : Engine X (Row V) V F)
    (codec : Codec J) (json : IsCodec codec) (fl : Arithmetic F) (embed : String → V) where
  abbrev pub refreshed : Row V → String → String → MemoryInput → ℕ → Meta J → Memory J
  refreshed r user_id project_id args now m = record {
    id = r.memory_id;
    user_id = user_id;
    project_id = project_id;
    scope = r.scope;
    team_id = none;
    content = args.content;
    tags = given r.tags args.tags;
    metadata = m;
    created_at = r.created_at;
    updated_at = now;
  }

  -- The text of a metadata column, read again.
  stored :
      (m : Meta J)
      → (elim (codec.loads (if codec.dumps m == "" then "{}" else codec.dumps m)) [
        | none ↦ []
        | some n ↦ n
      ])
        ≡ m
  stored m = rw (json.dumps_nonempty m, json.loads-dumps m) refl

  near-hits :
      (user_id project_id : String) (v : V) (clock : F) (x : X) (r : Row V) (distance : F)
      → is_safe_id (codes user_id) ≡ true
      → is_safe_id (codes project_id) ≡ true
      → engine.vector_search v (λ y. is_personal user_id project_id y && has_tags [] y) 1 x
        ≡ (r, distance) ∷ []
      → fl.lt (similarity fl distance) (fl.milli 950) ≡ false
      → search fl lance engine codec user_id project_id v 1 [] (some (fl.milli 950)) clock x
        ≡ ok
            ((memory_of lance codec r, boosted fl clock r.created_at (similarity fl distance)) ∷ [])
  unfolding search build_where must_filter safe_id safe_tags vector_hits recency_boost sort place
  near-hits user_id project_id v clock x r distance safe_user safe_project near close =
      rw (safe_user, safe_project, near, scored, close) refl

  -- A near-identical memory of the project, found by its vector, is refreshed where a text is saved: it
  -- keeps its id, its metadata and its time of creation, and has the new text; its tags stay
  -- unless new ones are given.
  pub save-near :
      (args : MemoryInput) (user_id project_id new_id : String) (now : ℕ) (clock : F) (x : X)
      (r : Row V) (distance : F)
      → is_safe_id (codes user_id) ≡ true
      → is_safe_id (codes project_id) ≡ true
      → is_safe_id (codes r.memory_id) ≡ true
      → engine.vector_search
          (embed args.content)
          (λ y. is_personal user_id project_id y && has_tags [] y)
          1
          x
        ≡ (r, distance) ∷ []
      → lance.query (λ y. is_personal user_id project_id y && has_id r.memory_id y) 1 0 x ≡ r ∷ []
      → fl.lt (similarity fl distance) (fl.milli 950) ≡ false
      → (x' : X) × (act_in_project lance engine codec fl embed args save user_id project_id new_id
            now clock x
          ≡ (x', updated r.memory_id))
        × (get lance codec user_id project_id r.memory_id x'
            ≡ ok
                (some (refreshed r user_id project_id args now (memory_of lance codec r).metadata)))
  unfolding update get memory_filter must_filter safe_id merged
  save-near args user_id project_id new_id now clock x r distance safe_user safe_project safe_memory
        near found close =
      let p : Patch V J = record {
        content = some args.content;
        new_vector = some (embed args.content);
        tags = some (given r.tags args.tags);
        metadata = none;
      } in
      let row : Row V =
        replaced lance codec (memory_of lance codec r) p (embed args.content) now r.memory_id
          user_id project_id (some personal) in
      let wrap : Meta J → Result StoreError (Option (Memory J)) =
        λ m. ok (some (refreshed r user_id project_id args now m)) in
      (
        lance.merge_insert (row ∷ []) x,
        rw
            (near-hits user_id project_id (embed args.content) clock x r distance safe_user
              safe_project near close)
            (rw (save_or_refresh, safe_user, safe_project, safe_memory, found) refl),
        rw
            (
              safe_user,
              safe_project,
              safe_memory,
              query-merged lance laws keyed codec json (is_personal user_id project_id) row x
                  (ground (arith, eq_refl user_id, eq_refl project_id, eq_refl r.memory_id)),
            )
            (ap wrap (stored (memory_of lance codec r).metadata)),
      )

-- ===== src/Storage/Memories/Examples.antt =====
-- Runs of the store of memories.
use oc_piloci.Prelude.{
  ℕ, ◌≡◌, refl, none, some, List, [], ◌∷◌, map, Bool, true, ◌&&◌, String, arith, All, Returns, ok,
  contains, keep, err, ◌=?◌, if◌then◌else◌,
}
use oc_piloci.Db.{count_if}
use oc_piloci.Db.Counts.{HasKeys}
use oc_piloci.Storage.Lance.Table.{table-IsLance, scan-IsEngine}
use oc_piloci.Storage.Memories.Records.{
  Row, Memory, is_personal, safe_id, is_safe_id, codes, of_team, has_tags, safe_tags, invalid_id,
}
use oc_piloci.Storage.Memories.{save_many, get, memory_of, clear_project, must_filter}
use oc_piloci.Storage.Memories.Team.{team_save_many, team_get}
use oc_piloci.Storage.Memories.Isolation.{
  project, saves, clears, indexes, team_saves, after, Write, owns,
}
use oc_piloci.Storage.Memories.Isolation.Runs.{run, ByOthers, run_isolated}
use oc_piloci.Storage.Memories.Reading.{get-save_many}
use oc_piloci.Storage.Memories.Chunks.{team_index_doc_chunks, chunk_rows, of_doc, doc_chunk_id}
use oc_piloci.Storage.Memories.Chunks.Reindex.{index_doc_chunks_lem}
use oc_piloci.Storage.Memories.Search.{hybrid_search, team_hybrid_search}
use oc_piloci.Storage.Memories.Search.Visible.{Bounded, hybrid_search_visible}
use oc_piloci.Tools.Texts.{text_codec, text_codec-IsCodec}
use oc_piloci.Tools.Sample.{
  store, keyed, engine, floats, note, first, bob_safe, web_safe, m2_safe, ann_safe, crew_safe,
}

abbrev digit : ℕ → String
digit n = if n =? 0 then "0" else "1"

abbrev writes : List (Write ℕ String × ℕ)
writes =
    (saves "bob" "web" (("m2", first) ∷ []), 9)
    ∷ (team_saves "crew" "bob" (("m3", first) ∷ []), 10)
    ∷ (clears "bob" "web", 11)
    ∷ (indexes digit "crew" "plan" (first ∷ []), 12)
    ∷ []

one_row : HasKeys (λ (x : Row ℕ). x.memory_id) (note ∷ [])
one_row k = ground arith

by_others : ByOthers store text_codec (project "ann" "web") writes (note ∷ [])
unfolding contains after save_many team_save_many clear_project safe_id must_filter is_safe_id
by_others = (
  refl,
  ((refl, tt), refl),
  (refl, ((refl, tt), refl), (refl, tt, (refl, ((refl, tt), refl), tt))),
)

run_isolated_example :
    ((q : Row ℕ → Bool)
      → count_if
          (λ x. owns (project "ann" "web") x && q x)
          (run store text_codec writes (note ∷ []))
        ≡ count_if (λ x. owns (project "ann" "web") x && q x) (note ∷ []))
    × HasKeys (λ (x : Row ℕ). x.memory_id) (run store text_codec writes (note ∷ []))
run_isolated_example =
    run_isolated store text_codec (table-IsLance (λ r. r.memory_id)) keyed (project "ann" "web")
      writes (note ∷ []) one_row by_others

get-save_many_example :
    (save_many store text_codec "bob" "web" (("m2", first) ∷ []) 9 (note ∷ [])
      ≡ ok (
        after store text_codec (saves "bob" "web" (("m2", first) ∷ [])) 9 (note ∷ []),
        "m2" ∷ [],
      ))
    × (get store text_codec "bob" "web" "m2"
          (after store text_codec (saves "bob" "web" (("m2", first) ∷ [])) 9 (note ∷ []))
        ≡ ok (
            some (record {
              id = "m2";
              user_id = "bob";
              project_id = "web";
              scope = "personal";
              team_id = none;
              content = "use spaces";
              tags = [];
              metadata = ("source", "manual") ∷ [];
              created_at = 9;
              updated_at = 9;
            })))
get-save_many_example =
    get-save_many store (table-IsLance (λ r. r.memory_id)) keyed text_codec text_codec-IsCodec "bob"
      "web" "m2" first 9 (note ∷ []) bob_safe web_safe m2_safe

no_tags : safe_tags [] ≡ ok []
unfolding safe_tags
no_tags = refl

hybrid_search_visible_example :
    (All
        (λ (r : Row ℕ).
          (is_personal "ann" "web" r && has_tags [] r) ≡ true
          → (memory_of store text_codec r).user_id ≡ "ann")
        (note ∷ [])
      → Returns
          (Bounded floats store engine text_codec (λ (m : Memory String). m.user_id ≡ "ann") 5)
          (hybrid_search floats store engine text_codec "ann" "web" "tabs" 7 5 [] none 100
            (note ∷ [])))
    × (All
          (λ (r : Row ℕ).
            (of_team "crew" r && has_tags [] r) ≡ true
            → (memory_of store text_codec r).user_id ≡ "ann")
          (note ∷ [])
        → Returns
            (Bounded floats store engine text_codec (λ (m : Memory String). m.user_id ≡ "ann") 5)
            (team_hybrid_search floats store engine text_codec "crew" "tabs" 7 5 [] none 100
              (note ∷ [])))
hybrid_search_visible_example =
    hybrid_search_visible floats store engine text_codec (λ (m : Memory String). m.user_id ≡ "ann")
      (scan-IsEngine (λ r. r.memory_id) (λ v r. 0) (λ s r. true)) "ann" "web" "crew" "tabs" 7 5 []
      none 100 (note ∷ []) ann_safe web_safe crew_safe no_tags

plan_safe : is_safe_id (codes "plan") ≡ true
unfolding is_safe_id
plan_safe = refl

index_doc_chunks_lem_example :
    (t' : List (Row ℕ)) × (team_index_doc_chunks store text_codec digit "crew" "plan"
        (first ∷ first ∷ [])
        9
        (note ∷ [])
      ≡ ok (
        t',
        map
            (λ r. r.memory_id)
            (chunk_rows store text_codec digit "crew" "plan" 0 (first ∷ first ∷ []) 9),
      ))
    × (keep (of_doc store text_codec digit "crew" "plan") (store.rows t')
        ≡ chunk_rows store text_codec digit "crew" "plan" 0 (first ∷ first ∷ []) 9)
    × ((idx : ℕ)
        → team_get store text_codec "crew" (doc_chunk_id digit "plan" idx) t' ≡ err invalid_id)
index_doc_chunks_lem_example =
    index_doc_chunks_lem store text_codec digit (table-IsLance (λ r. r.memory_id)) "crew" "plan"
      (first ∷ first ∷ []) 9 (note ∷ []) crew_safe plan_safe

-- ===== src/Storage/Memories/Search.antt =====
-- storage/lancedb_store.py: the searches, by a vector alone or fused with one by words, and the boost
-- of recent memories. Floats are a parameter.
pub mod Ranking
pub mod Visible
use oc_piloci.Prelude.{
  ℕ, ◌+◌, ◌*◌, max, Option, none, some, List, [], ◌∷◌, map, Bool, true, false, ◌&&◌, String, ◌==◌,
  if◌then◌else◌, take, Result, ok, ◌>>=◌, lookup, insert,
}
use oc_piloci.Storage.Lance.{Lance, Engine}
use oc_piloci.Storage.Memories.Records.{Row, Memory, Codec, StoreError}
use oc_piloci.Storage.Memories.{memory_of, build_where}
use oc_piloci.Storage.Memories.Team.{team_where}

-- Python's floats and its module `math`.
pub record Arithmetic (F : Type 0) : Type 0 where
  pub num : ℕ → F
  -- The float that is written as so many thousandths.
  pub milli : ℕ → F
  pub neg : F → F
  pub exp : F → F
  pub log : F → F
  pub plus : F → F → F
  pub minus : F → F → F
  pub times : F → F → F
  pub over : F → F → F
  -- `a < b`
  pub lt : F → F → Bool

module _ {F : Type 0} (fl : Arithmetic F) where
  -- `min(a, b)` and `max(a, b)`, which keep `a` in doubt.
  abbrev pub min_of : F → F → F
  min_of a b = if fl.lt b a then b else a

  abbrev pub max_of : F → F → F
  max_of a b = if fl.lt a b then b else a

  -- `sorted(…, key=score, reverse=True)`, which is stable.
  unfoldable pub place {ℓ} : {A : Type ℓ} → A × F → List (A × F) → List (A × F)
  place x [] = x ∷ []
  place x (y ∷ ys) = if fl.lt x.1 y.1 then y ∷ place x ys else x ∷ y ∷ ys

  unfoldable pub sort {ℓ} : {A : Type ℓ} → List (A × F) → List (A × F)
  unfolding place
  sort [] = []
  sort (x ∷ xs) = place x (sort xs)

  -- `min_score is not None and score < min_score`
  abbrev pub is_below : Option F → F → Bool
  is_below none score = false
  is_below (some least) score = fl.lt score least

  abbrev pub similarity : F → F
  similarity distance = min_of (fl.num 1) (max_of (fl.num 0) (fl.minus (fl.num 1) distance))

  -- The score of a result, blended with its age: half of the recency is lost in 30 days.
  abbrev pub boosted : F → ℕ → F → F
  boosted now created_at score =
      let age_days : F =
        max_of (fl.num 0) (fl.over (fl.minus now (fl.num created_at)) (fl.num 86400)) in
      let recency : F =
        fl.exp (fl.over (fl.times (fl.neg age_days) (fl.log (fl.num 2))) (fl.num 30)) in
      min_of (fl.num 1) (
        fl.plus (fl.times (fl.minus (fl.num 1) (fl.milli 150)) score)
          (fl.times (fl.milli 150) recency))

  module _ {J : Type 0} where
    abbrev pub boost_each : F → List (Memory J × F) → List (Memory J × F)
    boost_each now [] = []
    boost_each now ((m, score) ∷ hits) = (m, boosted now m.created_at score) ∷ boost_each now hits

    -- `_recency_boost`
    unfoldable pub recency_boost : F → List (Memory J × F) → List (Memory J × F)
    unfolding sort place
    recency_boost now hits = sort (boost_each now hits)

  module _ {T V J : Type 0} (lance : Lance T (Row V)) (engine : Engine T (Row V) V F)
      (codec : Codec J) where
    abbrev pub scored : Option F → List (Row V × F) → List (Memory J × F)
    scored min_score [] = []
    scored min_score ((r, distance) ∷ rows) =
        let rest = scored min_score rows in
        if is_below min_score (similarity distance)
        then rest
        else (memory_of lance codec r, similarity distance) ∷ rest

    unfoldable pub vector_hits : (Row V → Bool) → V → ℕ → Option F → F → T → List (Memory J × F)
    unfolding recency_boost
    vector_hits where_ query_vector top_k min_score now t =
        recency_boost now (scored min_score (engine.vector_search query_vector where_ top_k t))

    -- The dicts `rrf_scores` and `memory_map`, which have the same keys.
    abbrev pub Fused : Type 0
    Fused = List (String × (Row V × F))

    abbrev pub share : ℕ → F
    share rank = fl.over (fl.num 1) (fl.num (60 + rank))

    -- The entry of a row of this rank, from the one it had.
    abbrev pub add_share : ℕ → Row V → Option (Row V × F) → Row V × F
    add_share rank row none = (row, fl.plus (fl.num 0) (share rank))
    add_share rank row (some (first, score)) = (first, fl.plus score (share rank))

    -- One round of the loop over ranked rows.
    abbrev pub add_rank : ℕ → Row V → Fused → Fused
    add_rank rank row fused =
        insert row.memory_id (add_share rank row (lookup row.memory_id fused)) fused

    unfoldable pub add_ranks : ℕ → List (Row V) → Fused → Fused
    add_ranks rank [] fused = fused
    add_ranks rank (row ∷ rows) fused = add_ranks (rank + 1) rows (add_rank rank row fused)

    abbrev pub rows_of : List (Row V × F) → List (Row V)
    rows_of [] = []
    rows_of ((r, distance) ∷ rows) = r ∷ rows_of rows

    abbrev pub values_of : Fused → List (Row V × F)
    values_of [] = []
    values_of ((k, v) ∷ fused) = v ∷ values_of fused

    abbrev pub normalized : Option F → List (Row V × F) → List (Memory J × F)
    normalized min_score [] = []
    normalized min_score ((r, rrf) ∷ rows) =
        let score : F = min_of (fl.num 1) (fl.over rrf (fl.over (fl.num 2) (fl.num 61))) in
        let rest = normalized min_score rows in
        if is_below min_score score then rest else (memory_of lance codec r, score) ∷ rest

    -- Reciprocal rank fusion; a search by words that raises finds nothing.
    unfoldable pub hybrid_hits :
        (Row V → Bool) → String → V → ℕ → Option F → F → T → List (Memory J × F)
    unfolding recency_boost sort add_ranks
    hybrid_hits where_ query_text query_vector top_k min_score now t =
        let fetch_n : ℕ = max (top_k * 3) 20 in
        let by_vector : List (Row V) =
          rows_of (engine.vector_search query_vector where_ fetch_n t) in
        let by_words : List (Row V) = elim (engine.text_search query_text where_ fetch_n t) [
          | none ↦ []
          | some rows ↦ rows
        ] in
        recency_boost now (
          normalized min_score
            (take top_k (sort (values_of (add_ranks 1 by_words (add_ranks 1 by_vector []))))))

    unfoldable pub search :
        String
        → String
        → V
        → ℕ
        → List String
        → Option F
        → F
        → T
        → Result StoreError (List (Memory J × F))
    search user_id project_id query_vector top_k tags min_score now t = do
      where_ ← build_where lance codec user_id project_id tags
      ok (vector_hits where_ query_vector top_k min_score now t)

    unfoldable pub hybrid_search :
        String
        → String
        → String
        → V
        → ℕ
        → List String
        → Option F
        → F
        → T
        → Result StoreError (List (Memory J × F))
    hybrid_search user_id project_id query_text query_vector top_k tags min_score now t = do
      where_ ← build_where lance codec user_id project_id tags
      ok (hybrid_hits where_ query_text query_vector top_k min_score now t)

    unfoldable pub team_search :
        String → V → ℕ → List String → Option F → F → T → Result StoreError (List (Memory J × F))
    team_search team_id query_vector top_k tags min_score now t = do
      where_ ← team_where lance codec team_id tags
      ok (vector_hits where_ query_vector top_k min_score now t)

    unfoldable pub team_hybrid_search :
        String
        → String
        → V
        → ℕ
        → List String
        → Option F
        → F
        → T
        → Result StoreError (List (Memory J × F))
    team_hybrid_search team_id query_text query_vector top_k tags min_score now t = do
      where_ ← team_where lance codec team_id tags
      ok (hybrid_hits where_ query_text query_vector top_k min_score now t)

-- ===== src/Storage/Memories/Search/Visible.antt =====
-- What a search may find: rows that pass its filter, at most as many as asked for, each once.
use oc_piloci.Prelude.{
  ℕ, ◌*◌, ◌≤◌, ◌≡◌, refl, ap₂, max, Option, none, some, List, [], ◌∷◌, map, Bool, true, ◌&&◌,
  String, take, length, All, ok, arith, Returns, keys_of, Distinct, length-take,
}
use oc_piloci.Db.{count_if}
use oc_piloci.Storage.Lance.Keys.{Distinct-HasKeys}
use oc_piloci.Storage.Lance.{Lance, Engine, IsEngine}
use oc_piloci.Storage.Memories.Records.{
  Row, Memory, Codec, is_safe_id, codes, safe_id, safe_tags, is_personal, of_team, has_tags,
}
use oc_piloci.Storage.Memories.{memory_of, build_where, must_filter}
use oc_piloci.Storage.Memories.Team.{team_where}
use oc_piloci.Storage.Memories.Search.Ranking.{
  count-sort, All-sort, length-sort, All-take, count-take-le, All-boost, count-boost, length-boost,
  All-normalized, length-normalized, count-normalized, add_ranks-Sound, Good, hit_id, row_id, Sound,
}
use oc_piloci.Storage.Memories.Search.{
  Arithmetic, sort, boost_each, recency_boost, Fused, add_ranks, rows_of, values_of, normalized,
  hybrid_hits, hybrid_search, team_hybrid_search,
}

module _ {F : Type 0} (fl : Arithmetic F) {T V J : Type 0} (lance : Lance T (Row V))
    (engine : Engine T (Row V) V F) (codec : Codec J) (P : Memory J → Type 0) where
  All-values :
      (fused : Fused fl lance engine codec)
      → Sound fl lance engine codec P fused
      → All (λ x. Good fl lance engine codec P x.0) (values_of fl lance engine codec fused)
  All-values [] a = tt
  All-values ((k, v) ∷ fused) a = (a.0.1, All-values fused a.1)

  values-keys :
      (fused : Fused fl lance engine codec)
      → Sound fl lance engine codec P fused
      → map (λ (x : Row V × F). x.0.memory_id) (values_of fl lance engine codec fused)
        ≡ keys_of fused
  values-keys [] a = refl
  values-keys ((k, v) ∷ fused) a =
      ap₂ (λ (x : String) (ys : List String). x ∷ ys) a.0.0 (values-keys fused a.1)

  All-rows :
      (rows : List (Row V × F))
      → All (λ x. Good fl lance engine codec P x.0) rows
      → All (Good fl lance engine codec P) (rows_of fl lance engine codec rows)
  All-rows [] a = tt
  All-rows ((r, d) ∷ rows) a = (a.0, All-rows rows a.1)

  -- What a search may return: memories that meet `P`, at most `n`, each id once.
  abbrev pub Bounded : ℕ → List (Memory J × F) → Type 0
  Bounded n hits =
      All (λ h. P h.0) hits
      × (length hits ≤ n)
      × ((k : String) → count_if (hit_id fl lance engine codec P k) hits ≤ 1)

  -- The best of the fused rows.
  best-Bounded :
      (top_k : ℕ) (least : Option F) (now : F) (fused : Fused fl lance engine codec)
      → Sound fl lance engine codec P fused × Distinct (keys_of fused)
      → Bounded top_k (
          recency_boost fl now (
            normalized fl lance engine codec least
              (take top_k (sort fl (values_of fl lance engine codec fused)))))
  unfolding recency_boost
  best-Bounded top_k least now fused h =
      let values : List (Row V × F) = values_of fl lance engine codec fused in
      let best : List (Row V × F) = take top_k (sort fl values) in
      let hits : List (Memory J × F) = normalized fl lance engine codec least best in
      (
        All-sort fl (λ x. P x.0) (boost_each fl now hits)
            (All-boost fl lance engine codec P now hits (
              All-normalized fl lance engine codec P least best (
                All-take fl (λ x. Good fl lance engine codec P x.0) top_k (sort fl values)
                  (All-sort fl (λ x. Good fl lance engine codec P x.0) values
                    (All-values fused h.0))))),
        omega (
          arith,
          length-sort fl (boost_each fl now hits),
          length-boost fl lance engine codec P now hits,
          length-normalized fl lance engine codec P least best,
          length-take top_k (sort fl values),
        ),
        λ k. omega (
          arith,
          count-sort fl (hit_id fl lance engine codec P k) (boost_each fl now hits),
          count-boost fl lance engine codec P k now hits,
          count-normalized fl lance engine codec P k least best,
          count-take-le fl (row_id fl lance engine codec P k) top_k (sort fl values),
          count-sort fl (row_id fl lance engine codec P k) values,
          Distinct-HasKeys (λ (x : Row V × F). x.0.memory_id) values
              (rw (values-keys fused h.0) h.1) k,
        ),
      )

  module _ (laws : IsEngine lance engine) where
    fused-Sound :
        (where_ : Row V → Bool) (n : ℕ) (query_text : String) (query_vector : V) (t : T)
        (o : Option (List (Row V)))
        → engine.text_search query_text where_ n t ≡ o
        → All (λ r. where_ r ≡ true → Good fl lance engine codec P r) (lance.rows t)
        → All (Good fl lance engine codec P) (elim o [ none ↦ [] | some rows ↦ rows ])
    fused-Sound where_ n query_text query_vector t none e a = tt
    fused-Sound where_ n query_text query_vector t (some rows) e a =
        laws.text_search-All (Good fl lance engine codec P) query_text where_ n t rows a e

    hybrid_hits-Bounded :
        (where_ : Row V → Bool) (query_text : String) (query_vector : V) (top_k : ℕ)
        (least : Option F) (now : F) (t : T)
        → All (λ r. where_ r ≡ true → Good fl lance engine codec P r) (lance.rows t)
        → Bounded top_k
            (hybrid_hits fl lance engine codec where_ query_text query_vector top_k least now t)
    unfolding hybrid_hits
    hybrid_hits-Bounded where_ query_text query_vector top_k least now t a =
        let n : ℕ = max (top_k * 3) 20 in
        let by_vector : List (Row V) =
          rows_of fl lance engine codec (engine.vector_search query_vector where_ n t) in
        let by_words : List (Row V) = elim (engine.text_search query_text where_ n t) [
          | none ↦ []
          | some rows ↦ rows
        ] in
        best-Bounded top_k least now
          (add_ranks fl lance engine codec 1 by_words
            (add_ranks fl lance engine codec 1 by_vector []))
          (add_ranks-Sound fl lance engine codec P 1 by_words
            (add_ranks fl lance engine codec 1 by_vector [])
            (fused-Sound where_ n query_text query_vector t
              (engine.text_search query_text where_ n t) refl a)
            (add_ranks-Sound fl lance engine codec P 1 by_vector []
              (All-rows (engine.vector_search query_vector where_ n t)
                (laws.vector_search-All (Good fl lance engine codec P) query_vector where_ n t a))
              (tt, tt)))

    -- What holds of every memory of the project with the tags holds of what a hybrid search of it returns,
    -- and what holds of every such memory of the team, of a search of the team. They
    -- return at most `top_k` memories, none twice.
    pub hybrid_search_visible :
        (user_id project_id team_id query_text : String) (query_vector : V) (top_k : ℕ)
        (tags : List String) (least : Option F) (now : F) (t : T)
        → is_safe_id (codes user_id) ≡ true
        → is_safe_id (codes project_id) ≡ true
        → is_safe_id (codes team_id) ≡ true
        → safe_tags tags ≡ ok tags
        → (All
              (λ r.
                (is_personal user_id project_id r && has_tags tags r) ≡ true
                → P (memory_of lance codec r))
              (lance.rows t)
            → Returns (Bounded top_k) (
                hybrid_search fl lance engine codec user_id project_id query_text query_vector top_k
                  tags least now t))
          × (All
                (λ r. (of_team team_id r && has_tags tags r) ≡ true → P (memory_of lance codec r))
                (lance.rows t)
              → Returns (Bounded top_k) (
                  team_hybrid_search fl lance engine codec team_id query_text query_vector top_k
                    tags least now t))
    unfolding hybrid_search team_hybrid_search build_where must_filter team_where safe_id
    hybrid_search_visible user_id project_id team_id query_text query_vector top_k tags least now t
          safe_user safe_project safe_team safe_all =
        rw (safe_user, safe_project, safe_team, safe_all)
          (
            λ a.
                hybrid_hits-Bounded (λ r. is_personal user_id project_id r && has_tags tags r)
                  query_text query_vector top_k least now t a,
            λ a.
                hybrid_hits-Bounded (λ r. of_team team_id r && has_tags tags r) query_text
                  query_vector top_k least now t a,
          )

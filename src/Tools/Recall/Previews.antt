-- ===== src/Tools/Recall/Previews.antt =====
-- What a recall shows.
use oc_piloci.Prelude.{
  ℕ, ◌+◌, ◌≤◌, ◌≡◌, ◌⊎◌, inl, inr, refl, ap, Option, none, some, List, [], ◌∷◌, map, Bool, true,
  false, not, ◌&&◌, String, Result, ok, err, length, All, arith, ltb, leb, take, Bool-cases, is_nil,
}
use oc_piloci.Storage.Lance.{Lance, Engine}
use oc_piloci.Storage.Memories.Records.{Row, Memory, Codec, StoreError, is_safe_id, safe_id}
use oc_piloci.Storage.Memories.{get, must_filter, memory_filter}
use oc_piloci.Storage.Memories.Team.{team_get, team_filter}
use oc_piloci.Storage.Memories.Search.{Arithmetic, hybrid_search, team_hybrid_search}
use oc_piloci.Tools.Recall
use oc_piloci.Tools.Recall.{
  PreviewTexts, Preview, memory, doc, file, RecallInput, RecallReply, full, previews, preview,
  team_preview, charged, build_previews, build_team_previews, without_feedback, hits_shown,
  is_feedback, is_text_at, full_reply, project_reply, team_reply, fetched, recall_in_project,
  recall_in_team, search_project, search_team, excerpt, handle_recall, handle_team_recall,
}

module _ {J F : Type 0} (codec : Codec J) (texts : PreviewTexts) where
  abbrev pub total_charged : List (Preview F) → ℕ
  total_charged [] = 0
  total_charged (p ∷ ps) = charged codec texts p + total_charged ps

  later-cap :
      (used : ℕ) (hits : List (Memory J × F))
      → used ≤ 6000
      → used + total_charged (build_previews codec texts used false hits).0 ≤ 6000
  unfolding build_previews
  later-cap used [] h = omega arith
  later-cap used (hit ∷ hits) h =
      ground (arith, later-cap (used + charged codec texts (team_preview codec texts hit)) hits)

  dropped-le :
      (used : ℕ) (first : Bool) (hits : List (Memory J × F))
      → (length (build_previews codec texts used first hits).0 ≤ length hits)
        × ((build_previews codec texts used first hits).1
            ≡ not (leb (length hits) (length (build_previews codec texts used first hits).0)))
  unfolding build_previews
  dropped-le used first [] = (omega arith, refl)
  dropped-le used first (hit ∷ hits) =
      ground
        (arith, dropped-le (used + charged codec texts (team_preview codec texts hit)) false hits)

  past-cap :
      (used : ℕ) (hits : List (Memory J × F))
      → ltb 6000 used ≡ true
      → (build_previews codec texts used false hits).0 ≡ []
  unfolding build_previews
  past-cap used [] h = refl
  past-cap used (hit ∷ hits) h = ground arith

  prefix :
      (used : ℕ) (first : Bool) (hits : List (Memory J × F))
      → (build_previews codec texts used first hits).0
        ≡ map
            (team_preview codec texts)
            (take (length (build_previews codec texts used first hits).0) hits)
  unfolding build_previews
  prefix used first [] = refl
  prefix used first (hit ∷ hits) =
      let rest = prefix (used + charged codec texts (team_preview codec texts hit)) false hits in
      elim (Bool-cases
        (ltb 6000 (used + charged codec texts (team_preview codec texts hit)) && not first)) [
          | inl e ↦ rw e refl
          | inr e ↦ rw e (ap (◌∷◌ (team_preview codec texts hit)) rest)
        ]

  first-cap :
      (hits : List (Memory J × F))
      → (total_charged (build_previews codec texts 0 true hits).0 ≤ 6000)
        ⊎ (length (build_previews codec texts 0 true hits).0 ≡ 1)
  unfolding build_previews
  first-cap [] = inl (omega arith)
  first-cap (hit ∷ hits) =
      let n : ℕ = charged codec texts (team_preview codec texts hit) in
      elim (Bool-cases (ltb 6000 (0 + n))) [
        | inl e ↦ inr (rw (past-cap (0 + n) hits e) (ground arith))
        | inr e ↦ inl (ground (arith, later-cap (0 + n) hits))
      ]

  -- The previews of a team recall are those of a first part of the results, in their order, with at most
  -- 6000 characters of text between them, or a single longer one; they are marked as truncated
  -- exactly if results are missing.
  pub build_team_previews-cap :
      (hits : List (Memory J × F))
      → ((build_team_previews codec texts hits).0
          ≡ map
              (team_preview codec texts)
              (take (length (build_team_previews codec texts hits).0) hits))
        × ((total_charged (build_team_previews codec texts hits).0 ≤ 6000)
            ⊎ (length (build_team_previews codec texts hits).0 ≡ 1))
        × ((build_team_previews codec texts hits).1
            ≡ not (leb (length hits) (length (build_team_previews codec texts hits).0)))
  unfolding build_team_previews
  build_team_previews-cap hits = (prefix 0 true hits, first-cap hits, (dropped-le 0 true hits).1)

-- The id that a preview names.
abbrev pub id_of : {F : Type 0} → Preview F → Option String
id_of (memory id score tags text n) = some id
id_of (doc path score text) = none
id_of (file path score text) = none

abbrev pub shown : {J F : Type 0} → RecallReply J F → List (Preview F)
shown (previews ps n truncated) = ps
shown _ = []

module _ {X V J F : Type 0} (lance : Lance X (Row V)) (engine : Engine X (Row V) V F)
    (codec : Codec J) (fl : Arithmetic F) (texts : PreviewTexts) (embed : String → V) where
  -- Fetching these ids raises, in any project and team.
  abbrev pub Unfetchable : X → Preview F → Type 0
  Unfetchable x p =
      (id : String) (ids : List String) (again : RecallInput) (user_id project_id team_id : String)
      (clock : F)
      → id_of p ≡ some id
      → again.fetch_ids ≡ id ∷ ids
      → (recall_in_project lance engine codec fl texts embed again user_id project_id clock x
          ≡ Recall.raised)
        × (recall_in_team lance engine codec fl texts embed again team_id clock x ≡ Recall.raised)

  empty-Unfetchable :
      (x : X) (score : F) (tags : List String) (text : String) (n : ℕ)
      → Unfetchable x (memory "" score tags text n)
  unfolding fetched get team_get memory_filter must_filter team_filter safe_id is_safe_id
  empty-Unfetchable x score tags text n id ids again user_id project_id team_id clock e h =
      let named : id ≡ "" = cc e in rw (h, named) (ground arith, ground arith)

  each-Unfetchable :
      (x : X) (hits : List (Memory J × F)) → All (Unfetchable x) (map (preview codec texts) hits)
  each-Unfetchable x [] = tt
  each-Unfetchable x ((m, score) ∷ hits) = (
    empty-Unfetchable x score m.tags (excerpt texts 80 m.content) (texts.len m.content),
    each-Unfetchable x hits,
  )

  kind-Unfetchable : (x : X) (hit : Memory J × F) → Unfetchable x (team_preview codec texts hit)
  kind-Unfetchable x (m, score) = elim (Bool-cases (is_text_at codec "kind" "doc_file" m)) [
    | inl e ↦
        rw e (λ id ids again user_id project_id team_id clock none_named h. absurd (cc none_named))
    | inr e ↦ rw e (elim (Bool-cases (is_text_at codec "kind" "doc_chunk" m)) [
      | inl f ↦
          rw f
            (λ id ids again user_id project_id team_id clock none_named h. absurd (cc none_named))
      | inr f ↦
          rw f (empty-Unfetchable x score m.tags (excerpt texts 80 m.content) (texts.len m.content))
    ])
  ]

  built-Unfetchable :
      (x : X) (used : ℕ) (first : Bool) (hits : List (Memory J × F))
      → All (Unfetchable x) (build_previews codec texts used first hits).0
  unfolding build_previews
  built-Unfetchable x used first [] = tt
  built-Unfetchable x used first (hit ∷ hits) =
      elim (Bool-cases
        (ltb 6000 (used + charged codec texts (team_preview codec texts hit)) && not first)) [
          | inl e ↦ rw e tt
          | inr e ↦ rw e (
            kind-Unfetchable x hit,
            built-Unfetchable x (used + charged codec texts (team_preview codec texts hit)) false
                hits,
          )
        ]

  project-Unfetchable :
      (x : X) (feedback : Bool) (r : Result StoreError (List (Memory J × F)))
      → All (Unfetchable x) (shown (project_reply lance engine codec fl texts embed feedback r))
  project-Unfetchable x feedback (err e) = tt
  project-Unfetchable x feedback (ok hits) = each-Unfetchable x (hits_shown codec feedback hits)

  team-Unfetchable :
      (x : X) (feedback : Bool) (r : Result StoreError (List (Memory J × F)))
      → All (Unfetchable x) (shown (team_reply lance engine codec fl texts embed feedback r))
  unfolding build_team_previews
  team-Unfetchable x feedback (err e) = tt
  team-Unfetchable x feedback (ok hits) =
      built-Unfetchable x 0 true (hits_shown codec feedback hits)

  full_shows :
      (x : X) (feedback : Bool) (r : Result StoreError (List (Memory J)))
      → All (Unfetchable x) (shown (full_reply lance engine codec fl texts embed feedback r))
  full_shows x feedback (err e) = tt
  full_shows x feedback (ok ms) = tt

  search-Unfetchable :
      (x : X) (args : RecallInput) (user_id project_id : String) (clock : F) (o : Option String)
      → All (Unfetchable x) (
          shown
            (search_project lance engine codec fl texts embed args user_id project_id clock x o))
  search-Unfetchable x args user_id project_id clock none = tt
  search-Unfetchable x args user_id project_id clock (some text) =
      project-Unfetchable x args.include_feedback (
        hybrid_search fl lance engine codec user_id project_id text (embed text) args.limit
          args.tags none clock x)

  team_search-Unfetchable :
      (x : X) (args : RecallInput) (team_id : String) (clock : F) (o : Option String)
      → All
          (Unfetchable x)
          (shown (search_team lance engine codec fl texts embed args team_id clock x o))
  team_search-Unfetchable x args team_id clock none = tt
  team_search-Unfetchable x args team_id clock (some text) =
      team-Unfetchable x args.include_feedback (
        team_hybrid_search fl lance engine codec team_id text (embed text) args.limit args.tags none
          clock x)

  -- No id that a recall shows in a preview can be fetched: a second recall that asks for it raises, in
  -- every project and team.
  pub recall-Unfetchable :
      (args : RecallInput) (user_id project_id team_id : String) (clock : F) (x : X)
      → All (Unfetchable x) (
          shown
            (recall_in_project lance engine codec fl texts embed args user_id project_id clock x))
        × All
            (Unfetchable x)
            (shown (recall_in_team lance engine codec fl texts embed args team_id clock x))
  recall-Unfetchable args user_id project_id team_id clock x =
      elim (Bool-cases (is_nil args.fetch_ids)) [
        | inl e ↦ rw e (
          search-Unfetchable x args user_id project_id clock args.query,
          team_search-Unfetchable x args team_id clock args.query,
        )
        | inr e ↦ rw e (
          full_shows x args.include_feedback (
              fetched lance engine codec fl texts embed
                (λ id. get lance codec user_id project_id id x) args.fetch_ids),
          full_shows x args.include_feedback (
              fetched lance engine codec fl texts embed (λ id. team_get lance codec team_id id x)
                args.fetch_ids),
        )
      ]

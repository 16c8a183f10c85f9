-- ===== src/Tools/Recall.antt =====
-- tools/memory_tools.py: `handle_recall` and `_handle_team_recall` without the export to a file and the
-- profile, which only add to a reply, and the previews that they return.
pub mod Previews
use oc_piloci.Prelude.{
  ℕ, ◌+◌, ltb, Option, none, some, List, [], ◌∷◌, map, Bool, true, false, not, ◌&&◌, String, ◌==◌,
  if◌then◌else◌, is_nil, Result, ok, err, ◌>>=◌, lookup, length, keep,
}
use oc_piloci.Db.{nothing, several, one}
use oc_piloci.Teams.{Site, Tables, get_team_member}
use oc_piloci.Storage.Lance.{Lance, Engine}
use oc_piloci.Storage.Memories.Records.{Row, Memory, Codec, StoreError, is_text}
use oc_piloci.Storage.Memories.{get}
use oc_piloci.Storage.Memories.Team.{team_get}
use oc_piloci.Storage.Memories.Search.{Arithmetic, hybrid_search, team_hybrid_search}
use oc_piloci.Tools.Memory.{truthy}

pub record RecallInput : Type 0 where
  pub query : Option String
  pub fetch_ids : List String
  pub tags : List String
  pub limit : ℕ
  pub include_feedback : Bool
  pub team_id : Option String

pub record PreviewTexts : Type 0 where
  pub len : String → ℕ
  -- `text[:n]`, and the text with "..." behind it
  pub cut : ℕ → String → String
  pub dotted : String → String
  -- The hint of a file at this path.
  pub hint : String → String

pub data Preview (F : Type 0) : Type 0 where
  -- id, score, tags, excerpt, length
  memory : String → F → List String → String → ℕ → Preview F
  -- path, score, excerpt
  doc : String → F → String → Preview F
  -- path, score, hint
  file : String → F → String → Preview F

pub data RecallReply (J F : Type 0) : Type 0 where
  not_member no_project no_query raised : RecallReply J F
  full : List (Memory J) → RecallReply J F
  -- The previews, the number of results, and whether some were dropped.
  previews : List (Preview F) → ℕ → Bool → RecallReply J F

-- The excerpt of a preview.
abbrev pub excerpt : PreviewTexts → ℕ → String → String
excerpt texts n content =
    if ltb n (texts.len content) then texts.dotted (texts.cut n content) else texts.cut n content

module _ {J : Type 0} (codec : Codec J) where
  -- `meta.get(k) == s`
  abbrev pub is_text_at : String → String → Memory J → Bool
  is_text_at k s m = elim (lookup k m.metadata) [ none ↦ false | some j ↦ is_text codec s j ]

  -- The category is one of `PRIVATE_MEMORY_CATEGORIES`.
  abbrev pub is_feedback : Memory J → Bool
  is_feedback m = is_text_at "category" "feedback" m

  -- `_filter_feedback_out`, unless feedback is asked for.
  abbrev pub without_feedback : Bool → List (Memory J) → List (Memory J)
  without_feedback include_feedback ms =
      if include_feedback then ms else keep (λ m. not (is_feedback m)) ms

  abbrev pub hits_shown : {F : Type 0} → Bool → List (Memory J × F) → List (Memory J × F)
  hits_shown include_feedback hits =
      if include_feedback then hits else keep (λ h. not (is_feedback h.0)) hits

  abbrev pub path_of : Memory J → String
  path_of m = elim (lookup "path" m.metadata) [
    | none ↦ ""
    | some j ↦ (elim (codec.text_of j) [ none ↦ "" | some s ↦ s ])
  ]

  module _ {F : Type 0} (texts : PreviewTexts) where
    open texts use {len, hint}

    -- `_preview`: what the store returns has its id under "id", and nothing under "memory_id".
    abbrev pub preview : Memory J × F → Preview F
    preview (m, score) = memory "" score m.tags (excerpt texts 80 m.content) (len m.content)

    -- `_file_preview`, `_doc_preview` or `_preview`, by the kind of the row.
    abbrev pub team_preview : Memory J × F → Preview F
    team_preview (m, score) =
        if is_text_at "kind" "doc_file" m
        then file (path_of m) score (hint (path_of m))
        else if is_text_at "kind" "doc_chunk" m
        then doc (path_of m) score (excerpt texts 240 m.content)
        else preview (m, score)

    -- The characters that count against the cap.
    abbrev pub charged : Preview F → ℕ
    charged (memory id score tags text n) = len text
    charged (doc path score text) = len text
    charged (file path score text) = len text

    -- The loop of `_build_team_previews`: `used` characters so far, `is_first` before the first preview.
    unfoldable pub build_previews : ℕ → Bool → List (Memory J × F) → List (Preview F) × Bool
    build_previews used is_first [] = ([], false)
    build_previews used is_first (hit ∷ hits) =
        let item : Preview F = team_preview hit in
        let rest = build_previews (used + charged item) false hits in
        if ltb 6000 (used + charged item) && not is_first
        then ([], true)
        else (item ∷ rest.0, rest.1)

    -- `_build_team_previews`
    unfoldable pub build_team_previews : List (Memory J × F) → List (Preview F) × Bool
    unfolding build_previews
    build_team_previews hits = build_previews 0 true hits

module _ {X V J F : Type 0} (lance : Lance X (Row V)) (engine : Engine X (Row V) V F)
    (codec : Codec J) (fl : Arithmetic F) (texts : PreviewTexts) (embed : String → V) where
  -- The rows of the ids that are found; an id that is no id raises.
  unfoldable pub fetched :
      (String → Result StoreError (Option (Memory J)))
      → List String
      → Result StoreError (List (Memory J))
  fetched read [] = ok []
  fetched read (id ∷ ids) = do
    found ← read id
    rest ← fetched read ids
    ok (elim found [ none ↦ rest | some m ↦ m ∷ rest ])

  abbrev pub full_reply : Bool → Result StoreError (List (Memory J)) → RecallReply J F
  full_reply include_feedback (err e) = raised
  full_reply include_feedback (ok ms) = full (without_feedback codec include_feedback ms)

  abbrev pub project_reply : Bool → Result StoreError (List (Memory J × F)) → RecallReply J F
  project_reply include_feedback (err e) = raised
  project_reply include_feedback (ok hits) =
      let shown : List (Memory J × F) = hits_shown codec include_feedback hits in
      previews (map (preview codec texts) shown) (length shown) false

  abbrev pub team_reply : Bool → Result StoreError (List (Memory J × F)) → RecallReply J F
  team_reply include_feedback (err e) = raised
  team_reply include_feedback (ok hits) =
      let shown : List (Memory J × F) = hits_shown codec include_feedback hits in
      let built : List (Preview F) × Bool = build_team_previews codec texts shown in
      previews built.0 (length shown) built.1

  abbrev pub search_project :
      RecallInput → String → String → F → X → Option String → RecallReply J F
  search_project args user_id project_id clock x none = no_query
  search_project args user_id project_id clock x (some text) = project_reply args.include_feedback (
      hybrid_search fl lance engine codec user_id project_id text (embed text) args.limit args.tags
        none clock x)

  abbrev pub recall_in_project : RecallInput → String → String → F → X → RecallReply J F
  recall_in_project args user_id project_id clock x =
      if not (is_nil args.fetch_ids)
      then full_reply args.include_feedback
          (fetched (λ id. get lance codec user_id project_id id x) args.fetch_ids)
      else search_project args user_id project_id clock x args.query

  abbrev pub search_team : RecallInput → String → F → X → Option String → RecallReply J F
  search_team args team_id clock x none = no_query
  search_team args team_id clock x (some text) = team_reply args.include_feedback (
      team_hybrid_search fl lance engine codec team_id text (embed text) args.limit args.tags none
        clock x)

  abbrev pub recall_in_team : RecallInput → String → F → X → RecallReply J F
  recall_in_team args team_id clock x =
      if not (is_nil args.fetch_ids)
      then full_reply args.include_feedback
          (fetched (λ id. team_get lance codec team_id id x) args.fetch_ids)
      else search_team args team_id clock x args.query

module _ {T M I D B X V J F : Type 0} (db : Tables T M I D) (lance : Lance X (Row V))
    (engine : Engine X (Row V) V F) (codec : Codec J) (fl : Arithmetic F) (texts : PreviewTexts)
    (embed : String → V) where
  -- `_handle_team_recall`
  unfoldable pub handle_team_recall :
      RecallInput → String → String → F → Site T M I D B → X → RecallReply J F
  unfolding build_team_previews build_previews fetched
  handle_team_recall args user_id team_id clock s x = elim (get_team_member db team_id user_id s) [
    | nothing ↦ not_member
    | several ↦ raised
    | one m ↦ recall_in_team lance engine codec fl texts embed args team_id clock x
  ]

  unfoldable pub handle_recall :
      RecallInput → String → Option String → F → Site T M I D B → X → RecallReply J F
  unfolding handle_team_recall fetched
  handle_recall args user_id project_id clock s x = elim (truthy args.team_id) [
    | some team_id ↦ handle_team_recall args user_id team_id clock s x
    | none ↦ (elim (truthy project_id) [
      | none ↦ no_project
      | some p ↦ recall_in_project lance engine codec fl texts embed args user_id p clock x
    ])
  ]

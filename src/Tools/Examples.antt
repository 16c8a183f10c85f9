-- ===== src/Tools/Examples.antt =====
-- Runs of the tools over the store of memories.
use oc_piloci.Prelude.{
  ℕ, ◌≡◌, ◌≢◌, ◌⊎◌, ◌≤◌, refl, none, some, List, [], ◌∷◌, map, true, false, not, String, ◌==◌, leb,
  All, ok, take, length, lookup, eq_iff,
}
use oc_piloci.Db.Table
use oc_piloci.Teams.{Site, Tables, Team, TeamMember, TeamInvite, TeamDocument}
use oc_piloci.Storage.Lance.Table.{table-IsLance}
use oc_piloci.Storage.Memories.Records.{Row, Memory, Patch}
use oc_piloci.Storage.Memories.{get, memory_of}
use oc_piloci.Storage.Memories.Team.{team_save_many, team_delete, team_update}
use oc_piloci.Tools.Memory.{MemoryInput, save, act_in_project, updated}
use oc_piloci.Tools.Memory.Refusals.{team_save_denied}
use oc_piloci.Tools.Memory.Duplicates.{refreshed, save-near}
use oc_piloci.Tools.Recall.{
  RecallInput, PreviewTexts, recall_in_project, recall_in_team, build_team_previews, team_preview,
}
use oc_piloci.Tools.Recall.Previews.{
  Unfetchable, shown, recall-Unfetchable, total_charged, build_team_previews-cap,
}
use oc_piloci.Tools.Texts.{text_codec, text_codec-IsCodec, text_codec-IsText}
use oc_piloci.Tools.Sample.{
  store, keyed, engine, floats, note, first, web_safe, m1_safe, m2_safe, ann_safe, crew_safe,
}

no_author : lookup "author_id" first.metadata ≡ none
unfolding lookup
no_author = refl

ann_is_not_bob : ◌≢◌ {A = String} "ann" "bob"
ann_is_not_bob e = let same : ("ann" == "bob") ≡ true = (eq_iff "ann" "bob").1 e in cc

abbrev by_hand : Patch ℕ String
by_hand = record { content = some "mine"; new_vector = none; tags = none; metadata = none }

team_save_denied_example :
    (x' : List (Row ℕ)) × (team_save_many store text_codec "crew" "ann"
        (("m2", first) ∷ [])
        9
        (note ∷ [])
      ≡ ok (x', "m2" ∷ []))
    × (team_delete store text_codec "crew" "m2" "bob" false x' ≡ ok (x', false))
    × (team_update store text_codec "crew" "m2" "bob" by_hand false 12 x' ≡ ok (x', false))
team_save_denied_example =
    team_save_denied store (table-IsLance (λ r. r.memory_id)) keyed text_codec text_codec-IsCodec
      text_codec-IsText "crew" "m2" "ann" "bob" first by_hand 9 12 (note ∷ []) crew_safe m2_safe
      ann_safe no_author ann_is_not_bob

abbrev db : Tables (List Team) (List TeamMember) (List TeamInvite) (List TeamDocument)
db = record {
  teams = Table.table (λ t. t.id);
  members = Table.table (λ m. m.user_id);
  invites = Table.table (λ i. i.id);
  documents = Table.table (λ d. d.id);
}

abbrev site : Site (List Team) (List TeamMember) (List TeamInvite) (List TeamDocument) ℕ
site = record { teams = []; members = []; invites = []; documents = []; blobs = 0 }

abbrev to_save : MemoryInput
to_save = record {
  content = "use spaces";
  action = save;
  tags = none;
  memory_id = none;
  team_id = some "crew";
}

abbrev to_recall : RecallInput
to_recall = record {
  query = some "tabs";
  fetch_ids = [];
  tags = [];
  limit = 5;
  include_feedback = false;
  team_id = some "crew";
}

abbrev preview_texts : PreviewTexts
preview_texts = record { len = λ s. 10; cut = λ n s. s; dotted = λ s. s; hint = λ s. s }

abbrev embed : String → ℕ
embed s = 7

save-near_example :
    (x' : List (Row ℕ)) × (act_in_project store engine text_codec floats embed to_save save "ann"
        "web" "m2" 9 100
        (note ∷ [])
      ≡ (x', updated "m1"))
    × (get store text_codec "ann" "web" "m1" x'
        ≡ ok (
            some (
              refreshed store
                (table-IsLance (λ r. r.memory_id))
                keyed
                engine
                text_codec
                text_codec-IsCodec
                floats
                embed
                note
                "ann"
                "web"
                to_save
                9
                (memory_of store text_codec note).metadata)))
save-near_example =
    save-near store (table-IsLance (λ r. r.memory_id)) keyed engine text_codec text_codec-IsCodec
      floats embed to_save "ann" "web" "m2" 9 100 (note ∷ []) note 0 ann_safe web_safe m1_safe refl
      refl refl

recall-Unfetchable_example :
    All (Unfetchable store engine text_codec floats preview_texts embed (note ∷ [])) (
      shown (
        recall_in_project store engine text_codec floats preview_texts embed to_recall "ann" "web"
          100
          (note ∷ [])))
    × All (Unfetchable store engine text_codec floats preview_texts embed (note ∷ [])) (
        shown (
          recall_in_team store engine text_codec floats preview_texts embed to_recall "crew" 100
            (note ∷ [])))
recall-Unfetchable_example =
    recall-Unfetchable store engine text_codec floats preview_texts embed to_recall "ann" "web"
      "crew" 100 (note ∷ [])

abbrev hits : List (Memory String × ℕ)
hits = (memory_of store text_codec note, 900) ∷ []

build_team_previews-cap_example :
    ((build_team_previews text_codec preview_texts hits).0
      ≡ map
          (team_preview text_codec preview_texts)
          (take (length (build_team_previews text_codec preview_texts hits).0) hits))
    × ((total_charged text_codec preview_texts (build_team_previews text_codec preview_texts hits).0
          ≤ 6000)
        ⊎ (length (build_team_previews text_codec preview_texts hits).0 ≡ 1))
    × ((build_team_previews text_codec preview_texts hits).1
        ≡ not (leb (length hits) (length (build_team_previews text_codec preview_texts hits).0)))
build_team_previews-cap_example = build_team_previews-cap text_codec preview_texts hits

-- ===== src/Tools/Memory.antt =====
-- tools/memory_tools.py: `handle_memory` and `_handle_team_memory`, over the store of memories and the
-- tables of teams. The text's vector and the random id come in.
pub mod Refusals
pub mod Duplicates
use oc_piloci.Prelude.{
  ℕ, Option, none, some, List, [], ◌∷◌, Bool, true, false, String, ◌==◌, if◌then◌else◌, Result, ok,
  err,
}
use oc_piloci.Db.{nothing, several, one}
use oc_piloci.Teams.{Site, Tables, Team, get_team_member}
use oc_piloci.Storage.Lance.{Lance, Engine}
use oc_piloci.Storage.Memories.Records.{
  Row, Memory, MemoryWrite, Patch, Codec, Meta, StoreError, given,
}
use oc_piloci.Storage.Memories.{save_many, update, delete}
use oc_piloci.Storage.Memories.Team.{team_save_many, team_delete}
use oc_piloci.Storage.Memories.Search.{Arithmetic, search}

pub data Action : Type 0 where
  save forget : Action

pub record MemoryInput : Type 0 where
  pub content : String
  pub action : Action
  pub tags : Option (List String)
  pub memory_id : Option String
  pub team_id : Option String

-- A reply, or an exception that the server reports.
pub data MemoryReply : Type 0 where
  not_member no_project no_memory_id raised : MemoryReply
  not_found forgotten saved updated : String → MemoryReply

-- An optional text that counts as true.
abbrev pub truthy : Option String → Option String
truthy none = none
truthy (some s) = if s == "" then none else some s

abbrev pub manual : {J : Type 0} → Codec J → Meta J
manual codec = ("source", codec.text "manual") ∷ []

-- What a forget makes of the store's answer.
abbrev pub forgot : {X : Type 0} → X → String → Result StoreError (X × Bool) → X × MemoryReply
forgot x id (err e) = (x, raised)
forgot x id (ok (x', true)) = (x', forgotten id)
forgot x id (ok (x', false)) = (x', not_found id)

abbrev pub kept : {X : Type 0} → X → String → Result StoreError (X × List String) → X × MemoryReply
kept x id (err e) = (x, raised)
kept x id (ok (x', ids)) = (x', saved id)

module _ {X V J F : Type 0} (lance : Lance X (Row V)) (engine : Engine X (Row V) V F)
    (codec : Codec J) (fl : Arithmetic F) (embed : String → V) where
  -- A near-identical memory is refreshed; without one the memory is new.
  abbrev pub save_or_refresh :
      MemoryInput
      → String
      → String
      → String
      → ℕ
      → X
      → Result StoreError (List (Memory J × F))
      → X × MemoryReply
  save_or_refresh args user_id project_id new_id now x (err e) = (x, raised)
  save_or_refresh args user_id project_id new_id now x (ok []) =
      let m : MemoryWrite V J = record {
        content = args.content;
        vector = embed args.content;
        tags = given [] args.tags;
        metadata = manual codec;
      } in
      kept x new_id (save_many lance codec user_id project_id ((new_id, m) ∷ []) now x)
  save_or_refresh args user_id project_id new_id now x (ok ((existing, score) ∷ more)) =
      let p : Patch V J = record {
        content = some args.content;
        new_vector = some (embed args.content);
        tags = some (given existing.tags args.tags);
        metadata = none;
      } in
      elim (update lance codec user_id project_id existing.id p now x) [
        | err e ↦ (x, raised)
        | ok r ↦ (r.0, updated existing.id)
      ]

  abbrev pub act_in_project :
      MemoryInput → Action → String → String → String → ℕ → F → X → X × MemoryReply
  act_in_project args forget user_id project_id new_id now clock x = elim (truthy args.memory_id) [
    | none ↦ (x, no_memory_id)
    | some id ↦ forgot x id (delete lance codec user_id project_id id x)
  ]
  act_in_project args save user_id project_id new_id now clock x =
      save_or_refresh args user_id project_id new_id now x (
        search fl lance engine codec user_id project_id (embed args.content) 1 []
          (some (fl.milli 950)) clock x)

module _ {T M I D B : Type 0} (db : Tables T M I D) where
  -- The owner of the team, as far as the query finds one.
  abbrev pub owns_team : String → String → Site T M I D B → Bool
  owns_team team_id user_id s =
      elim (db.teams.one_or_none (λ (r : Team). r.id == team_id) s.teams) [
        | nothing ↦ false
        | several ↦ false
        | one r ↦ r.owner_id == user_id
      ]

module _ {T M I D B X V J : Type 0} (db : Tables T M I D) (lance : Lance X (Row V))
    (codec : Codec J) (embed : String → V) where
  abbrev pub act_in_team :
      MemoryInput → Action → String → String → String → ℕ → Site T M I D B → X → X × MemoryReply
  act_in_team args forget user_id team_id new_id now s x = elim (truthy args.memory_id) [
    | none ↦ (x, no_memory_id)
    | some id ↦
        forgot x id (team_delete lance codec team_id id user_id (owns_team db team_id user_id s) x)
  ]
  act_in_team args save user_id team_id new_id now s x =
      let m : MemoryWrite V J = record {
        content = args.content;
        vector = embed args.content;
        tags = given [] args.tags;
        metadata = manual codec;
      } in
      kept x new_id (team_save_many lance codec team_id user_id ((new_id, m) ∷ []) now x)

  -- `_handle_team_memory`, behind `_ensure_team_member`
  unfoldable pub handle_team_memory :
      MemoryInput → String → String → String → ℕ → Site T M I D B → X → X × MemoryReply
  handle_team_memory args user_id team_id new_id now s x =
      elim (get_team_member db team_id user_id s) [
        | nothing ↦ (x, not_member)
        | several ↦ (x, raised)
        | one m ↦ act_in_team args args.action user_id team_id new_id now s x
      ]

module _ {T M I D B X V J F : Type 0} (db : Tables T M I D) (lance : Lance X (Row V))
    (engine : Engine X (Row V) V F) (codec : Codec J) (fl : Arithmetic F) (embed : String → V) where
  unfoldable pub handle_memory :
      MemoryInput → String → Option String → String → ℕ → F → Site T M I D B → X → X × MemoryReply
  unfolding handle_team_memory
  handle_memory args user_id project_id new_id now clock s x = elim (truthy args.team_id) [
    | some team_id ↦ handle_team_memory db lance codec embed args user_id team_id new_id now s x
    | none ↦ (elim (truthy project_id) [
      | none ↦ (x, no_project)
      | some p ↦
          act_in_project lance engine codec fl embed args args.action user_id p new_id now clock x
    ])
  ]

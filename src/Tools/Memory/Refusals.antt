-- ===== src/Tools/Memory/Refusals.antt =====
-- Who is turned away by the memory tools.
use oc_piloci.Prelude.{
  ℕ, ◌≡◌, refl, Option, none, some, [], ◌∷◌, true, false, not, ◌&&◌, String, ◌==◌, ok, arith,
  lookup, lookup-insert, eq_refl, eq_iff, ◌≢◌, subst, Bool-cases, inl, inr,
}
use oc_piloci.Db.{nothing}
use oc_piloci.Teams.{Site, Tables, get_team_member}
use oc_piloci.Storage.Lance.{Lance, Engine, IsLance}
use oc_piloci.Storage.Memories.Records.{
  Row, Codec, Meta, of_team, has_id, is_safe_id, codes, safe_id, setdefault, is_text, Patch,
  MemoryWrite,
}
use oc_piloci.Storage.Memories.{memory_of}
use oc_piloci.Storage.Memories.Team.{
  team_get, team_filter, team_delete, team_update, team_row, team_save_many, is_denied,
}
use oc_piloci.Storage.Memories.Reading.{IsCodec, query-merged}
use oc_piloci.Storage.Memories.Search.{Arithmetic}
use oc_piloci.Tools.Memory.{
  MemoryInput, forget, save, handle_memory, handle_team_memory, truthy, owns_team, not_found,
  act_in_team, raised, no_memory_id,
}
use oc_piloci.Tools.Memory
use oc_piloci.Tools.Recall.{RecallInput, handle_recall, handle_team_recall, PreviewTexts}
use oc_piloci.Tools.Recall

empty_unsafe : is_safe_id (codes "") ≡ true → ⊥
unfolding is_safe_id
empty_unsafe h = cc

module _ {T M I D B X V J F : Type 0} (db : Tables T M I D) (lance : Lance X (Row V))
    (engine : Engine X (Row V) V F) (codec : Codec J) (fl : Arithmetic F) (texts : PreviewTexts)
    (embed : String → V) where
  -- The memory tools show nothing of a team to a user who has no row in it, and change nothing for one.
  pub handle_outsider :
      (args : MemoryInput) (recall : RecallInput) (user_id team_id new_id : String)
      (project_id : Option String) (now : ℕ) (clock : F) (s : Site T M I D B) (x : X)
      → get_team_member db team_id user_id s ≡ nothing
      → truthy args.team_id ≡ some team_id
      → truthy recall.team_id ≡ some team_id
      → (handle_memory db lance engine codec fl embed args user_id project_id new_id now clock s x
          ≡ (x, Memory.not_member))
        × (handle_recall db lance engine codec fl texts embed recall user_id project_id clock s x
            ≡ Recall.not_member)
  unfolding handle_memory handle_team_memory handle_recall handle_team_recall
  handle_outsider args recall user_id team_id new_id project_id now clock s x e h k =
      (ground arith, ground arith)

-- What JSON promises of a text: it is itself again, and true unless it is empty.
pub record IsText {J : Type 0} (codec : Codec J) : Type 0 where
  pub text_of-text : (s : String) → codec.text_of (codec.text s) ≡ some s
  pub is_truthy-text : (s : String) → codec.is_truthy (codec.text s) ≡ not (s == "")

module _ {X V J : Type 0} (lance : Lance X (Row V)) (laws : IsLance lance)
    (keyed : (r : Row V) → lance.key r ≡ r.memory_id) (codec : Codec J) (json : IsCodec codec)
    (texts : IsText codec) where
  -- Metadata that names no author gets one.
  author_of :
      (author : String) (m : Meta J)
      → lookup "author_id" m ≡ none
      → lookup "author_id" (setdefault "author_id" (codec.text author) m) ≡ some (codec.text author)
  author_of author m h =
      ground
        (arith, lookup-insert "author_id" "author_id" (codec.text author) m, eq_refl "author_id")

  saved-denied :
      (team_id author requester_id id : String) (m : MemoryWrite V J) (now : ℕ)
      → lookup "author_id" m.metadata ≡ none
      → (author == "") ≡ false
      → author ≢ requester_id
      → is_denied lance codec requester_id false
          (memory_of lance codec (team_row lance codec team_id author id m now))
        ≡ true
  saved-denied team_id author requester_id id m now h some_author other =
      rw
        (
          json.dumps_nonempty (setdefault "author_id" (codec.text author) m.metadata),
          json.loads-dumps (setdefault "author_id" (codec.text author) m.metadata),
          author_of author m.metadata h,
          texts.is_truthy-text author,
          is_text,
          texts.text_of-text author,
        )
        (ground (arith, eq_iff author requester_id))

  -- What a member writes in a team is for others, who do not own the team, neither to edit nor to
  -- delete: the store reports that nothing was done, and is as before.
  pub team_save_denied :
      (team_id id author requester_id : String) (m : MemoryWrite V J) (p : Patch V J)
      (saved_at now : ℕ) (x : X)
      → is_safe_id (codes team_id) ≡ true
      → is_safe_id (codes id) ≡ true
      → is_safe_id (codes author) ≡ true
      → lookup "author_id" m.metadata ≡ none
      → author ≢ requester_id
      → (x' : X) × (team_save_many lance codec team_id author ((id, m) ∷ []) saved_at x
          ≡ ok (x', id ∷ []))
        × (team_delete lance codec team_id id requester_id false x' ≡ ok (x', false))
        × (team_update lance codec team_id id requester_id p false now x' ≡ ok (x', false))
  unfolding team_save_many team_delete team_update team_get team_filter safe_id
  team_save_denied team_id id author requester_id m p saved_at now x safe_team safe_memory
        safe_author h other =
      let row : Row V = team_row lance codec team_id author id m saved_at in
      let found : lance.query (λ r. of_team team_id r && has_id id r) 1 0
            (lance.merge_insert (row ∷ []) x)
          ≡ row ∷ [] =
        query-merged lance laws keyed codec json (of_team team_id) row x
          (ground (arith, eq_refl team_id, eq_refl id)) in
      let denied =
        saved-denied team_id author requester_id id m saved_at h (nonempty author safe_author)
          other in
      (
        lance.merge_insert (row ∷ []) x,
        rw (safe_team, safe_author) refl,
        rw (safe_team, safe_memory, found, denied) refl,
        rw (safe_team, safe_memory, found, denied) refl,
      )
    where
      nonempty : (s : String) → is_safe_id (codes s) ≡ true → (s == "") ≡ false
      nonempty s safe = elim (Bool-cases (s == "")) [
        | inl e ↦ absurd (
            empty_unsafe
              (subst (λ (k : String). is_safe_id (codes k) ≡ true) ((eq_iff s "").0 e) safe))
        | inr e ↦ e
      ]

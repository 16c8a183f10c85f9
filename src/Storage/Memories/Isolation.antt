-- ===== src/Storage/Memories/Isolation.antt =====
-- Who is touched by a write: the project of a user, or a team, and nobody else.
pub mod Documents
pub mod Keys
pub mod Runs
use oc_piloci.Prelude.{
  ℕ, ◌+◌, ◌≤◌, ◌≡◌, ◌≢◌, refl, sym, ◌∙◌, ap, Option, none, some, List, [], ◌∷◌, ◌++◌, map, Bool,
  true, false, not, ◌&&◌, ◌||◌, String, ◌==◌, if◌then◌else◌, is_nil, ltb, Result, ok, err, ◌>>=◌,
  contains, All, arith, eq_iff, eq_refl, Bool-cases, inl, inr, Distinct, keep,
}
use oc_piloci.Db.{count_if}
use oc_piloci.Db.Counts.{HasKeys, count_if-append}
use oc_piloci.Storage.Lance.{Lance, IsLance}
use oc_piloci.Storage.Lance.Frames.{
  update-frame, delete-frame, merge-frame, count-query, count-owned,
}
use oc_piloci.Storage.Memories.Records.{
  Row, Memory, MemoryWrite, Patch, Codec, StoreError, safe_id, personal, is_personal, of_team,
  has_id, ids_of, is_none,
}
use oc_piloci.Storage.Memories.{
  save_many, update, update_found, update_read, delete, clear_project, new_row, new_rows,
  must_filter, memory_filter, memory_of, patched, replaced,
}
use oc_piloci.Storage.Memories.Team.{
  team_save_many, team_update, team_update_read, team_delete, team_delete_read, team_filter,
  team_get, team_row, team_rows, is_denied,
}
use oc_piloci.Storage.Memories.Chunks.{
  doc_chunk_id, of_doc, team_remove_doc_chunks, team_index_doc_chunks,
}

-- The ids of the chunks of a document, from a position on.
abbrev pub chunk_ids :
    {V J : Type 0} → (ℕ → String) → String → ℕ → List (MemoryWrite V J) → List String
chunk_ids str doc idx [] = []
chunk_ids str doc idx (m ∷ chunks) = doc_chunk_id str doc idx ∷ chunk_ids str doc (idx + 1) chunks

-- What a project of a user, or a team, may read.
pub data Scope : Type 0 where
  project : String → String → Scope
  team : String → Scope

abbrev pub owns : {V : Type 0} → Scope → Row V → Bool
owns (project user_id project_id) r = is_personal user_id project_id r
owns (team team_id) r = of_team team_id r

-- The writes of the store. What writes a number comes with the writes of a document's chunks.
pub data Write (V J : Type 0) : Type 0 where
  saves : String → String → List (String × MemoryWrite V J) → Write V J
  updates : String → String → String → Patch V J → Write V J
  deletes : String → String → String → Write V J
  clears : String → String → Write V J
  team_saves : String → String → List (String × MemoryWrite V J) → Write V J
  team_updates : String → String → String → Patch V J → Bool → Write V J
  team_deletes : String → String → String → Bool → Write V J
  indexes : (ℕ → String) → String → String → List (MemoryWrite V J) → Write V J
  removes : (ℕ → String) → String → String → Write V J

abbrev pub scope_of : {V J : Type 0} → Write V J → Scope
scope_of (saves u p ms) = project u p
scope_of (updates u p id patch) = project u p
scope_of (deletes u p id) = project u p
scope_of (clears u p) = project u p
scope_of (team_saves tid author ms) = team tid
scope_of (team_updates tid id requester patch allow_owner) = team tid
scope_of (team_deletes tid id requester allow_owner) = team tid
scope_of (indexes str tid doc chunks) = team tid
scope_of (removes str tid doc) = team tid

abbrev pub state_of : {T A : Type 0} → T → Result StoreError (T × A) → T
state_of t (ok r) = r.0
state_of t (err e) = t

module _ {T V J : Type 0} (lance : Lance T (Row V)) (codec : Codec J) where
  -- The table after a write; one that raises has written nothing.
  unfoldable pub after : Write V J → ℕ → T → T
  after (saves u p ms) now t = state_of t (save_many lance codec u p ms now t)
  after (updates u p id patch) now t = state_of t (update lance codec u p id patch now t)
  after (deletes u p id) now t = state_of t (delete lance codec u p id t)
  after (clears u p) now t = state_of t (clear_project lance codec u p t)
  after (team_saves tid author ms) now t =
      state_of t (team_save_many lance codec tid author ms now t)
  after (team_updates tid id requester patch allow_owner) now t =
      state_of t (team_update lance codec tid id requester patch allow_owner now t)
  after (team_deletes tid id requester allow_owner) now t =
      state_of t (team_delete lance codec tid id requester allow_owner t)
  after (indexes str tid doc chunks) now t =
      state_of t (team_index_doc_chunks lance codec str tid doc chunks now t)
  after (removes str tid doc) now t = state_of t (team_remove_doc_chunks lance codec str tid doc t)

  -- The ids that a save draws are distinct, and no row has one. Those of the chunks of a document are
  -- distinct, and no row has one that is none of the document's.
  abbrev pub IsFresh : Write V J → T → Type 0
  IsFresh (saves u p ms) t =
      Distinct (ids_of ms) × (count_if (λ r. contains r.memory_id (ids_of ms)) (lance.rows t) ≡ 0)
  IsFresh (team_saves tid author ms) t =
      Distinct (ids_of ms) × (count_if (λ r. contains r.memory_id (ids_of ms)) (lance.rows t) ≡ 0)
  IsFresh (indexes str tid doc chunks) t =
      Distinct (chunk_ids str doc 0 chunks)
      × (count_if
            (λ r.
              contains r.memory_id (chunk_ids str doc 0 chunks)
              && not (of_doc lance codec str tid doc r))
            (lance.rows t)
          ≡ 0)
  IsFresh _ t = Unit

  module _ (laws : IsLance lance) (keyed : (r : Row V) → lance.key r ≡ r.memory_id) (s : Scope)
      (q : Row V → Bool) (apart : (r : Row V) → owns s r ≡ true → q r ≡ false) where
    new_rows-apart :
        (u p : String) (ms : List (String × MemoryWrite V J)) (now : ℕ)
        → s ≡ project u p
        → count_if q (new_rows lance codec u p ms now) ≡ 0
    new_rows-apart u p [] now e = refl
    new_rows-apart u p ((id, m) ∷ ms) now e = ground (
      arith,
      apart (new_row lance codec u p id m now) (
          ap (λ o. owns o (new_row lance codec u p id m now)) e
          ∙ ground (arith, eq_refl u, eq_refl p)),
      new_rows-apart u p ms now,
    )

    pub new_rows-keys :
        (u p : String) (ms : List (String × MemoryWrite V J)) (now : ℕ)
        → map lance.key (new_rows lance codec u p ms now) ≡ ids_of ms
    new_rows-keys u p [] now = refl
    new_rows-keys u p ((id, m) ∷ ms) now = cc (keyed _, new_rows-keys u p ms now)

    fresh-apart :
        (ids : List String) (xs : List (Row V))
        → count_if (λ r. contains r.memory_id ids) xs ≡ 0
        → count_if (λ r. contains (lance.key r) ids && q r) xs ≡ 0
    fresh-apart ids [] h = refl
    fresh-apart ids (x ∷ xs) h = rw (keyed x) (ground (arith, fresh-apart ids xs))

    pub saves-frame :
        (u p : String) (ms : List (String × MemoryWrite V J)) (now : ℕ) (t : T)
        → s ≡ project u p
        → count_if (λ r. contains r.memory_id (ids_of ms)) (lance.rows t) ≡ 0
        → count_if q (lance.rows (after (saves u p ms) now t)) ≡ count_if q (lance.rows t)
    unfolding after save_many safe_id
    saves-frame u p ms now t e fresh = ground (
      arith,
      merge-frame lance laws (new_rows lance codec u p ms now) q t (new_rows-apart u p ms now e)
          (rw (new_rows-keys u p ms now) (fresh-apart (ids_of ms) (lance.rows t) fresh)),
    )

    team_rows-apart :
        (tid author : String) (ms : List (String × MemoryWrite V J)) (now : ℕ)
        → s ≡ team tid
        → count_if q (team_rows lance codec tid author ms now) ≡ 0
    team_rows-apart tid author [] now e = refl
    team_rows-apart tid author ((id, m) ∷ ms) now e = ground (
      arith,
      apart (team_row lance codec tid author id m now)
          (ap (λ o. owns o (team_row lance codec tid author id m now)) e ∙ eq_refl tid),
      team_rows-apart tid author ms now,
    )

    pub team_rows-keys :
        (tid author : String) (ms : List (String × MemoryWrite V J)) (now : ℕ)
        → map lance.key (team_rows lance codec tid author ms now) ≡ ids_of ms
    team_rows-keys tid author [] now = refl
    team_rows-keys tid author ((id, m) ∷ ms) now = cc (keyed _, team_rows-keys tid author ms now)

    pub team_saves-frame :
        (tid author : String) (ms : List (String × MemoryWrite V J)) (now : ℕ) (t : T)
        → s ≡ team tid
        → count_if (λ r. contains r.memory_id (ids_of ms)) (lance.rows t) ≡ 0
        → count_if q (lance.rows (after (team_saves tid author ms) now t))
          ≡ count_if q (lance.rows t)
    unfolding after team_save_many safe_id
    team_saves-frame tid author ms now t e fresh = ground (
      arith,
      merge-frame lance laws (team_rows lance codec tid author ms now) q t
          (team_rows-apart tid author ms now e)
          (rw (team_rows-keys tid author ms now) (fresh-apart (ids_of ms) (lance.rows t) fresh)),
    )

    one-key :
        (id : String) (xs : List (Row V))
        → count_if (λ r. has_id id r && q r) xs ≡ 0
        → count_if (λ r. contains (lance.key r) (id ∷ []) && q r) xs ≡ 0
    unfolding contains
    one-key id [] h = refl
    one-key id (x ∷ xs) h =
        rw (keyed x) (ground (arith, one-key id xs, eq_iff id x.memory_id, eq_iff x.memory_id id))

    -- A row of the scope gives way to one with its id.
    pub replace-frame :
        (id : String) (new r : Row V) (rest : List (Row V)) (t : T)
        → HasKeys (λ (x : Row V). x.memory_id) (lance.rows t)
        → lance.query (λ x. owns s x && has_id id x) 1 0 t ≡ r ∷ rest
        → new.memory_id ≡ id
        → owns s new ≡ true
        → count_if q (lance.rows (lance.merge_insert (new ∷ []) t)) ≡ count_if q (lance.rows t)
    replace-frame id new r rest t keys found same own =
        merge-frame lance laws (new ∷ []) q t (ground (arith, apart new own)) (
          rw (keyed new, same)
            (one-key id (lance.rows t) (
              count-owned (has_id id) q (owns s) (lance.rows t) (keys id)
                (count-query lance laws (λ x. owns s x && has_id id x) r rest 1 t found) apart)))

    -- An update in place of rows of the scope, which stay in it.
    pub patch-frame :
        (id : String) (f : Row V → Row V) (t : T)
        → ((r : Row V) → owns s (f r) ≡ owns s r)
        → count_if q (lance.rows (lance.update (λ x. owns s x && has_id id x) f t).0)
          ≡ count_if q (lance.rows t)
    patch-frame id f t stays =
        update-frame lance laws (λ x. owns s x && has_id id x) q f t (λ r h. apart r (ground arith))
          (λ r h. apart (f r) (stays r ∙ ground arith))

    pub drop-frame :
        (id : String) (t : T)
        → count_if q (lance.rows (lance.delete (λ x. owns s x && has_id id x) t).0)
          ≡ count_if q (lance.rows t)
    drop-frame id t =
        delete-frame lance laws (λ x. owns s x && has_id id x) q t (λ r h. apart r (ground arith))

  module _ (laws : IsLance lance) (keyed : (r : Row V) → lance.key r ≡ r.memory_id)
      (q : Row V → Bool) where
    update_found-frame :
        (u p id : String) (patch : Patch V J) (now : ℕ) (t : T) (r : Row V) (rest : List (Row V))
        (o : Option V)
        → ((x : Row V) → is_personal u p x ≡ true → q x ≡ false)
        → HasKeys (λ (x : Row V). x.memory_id) (lance.rows t)
        → lance.query (λ x. is_personal u p x && has_id id x) 1 0 t ≡ r ∷ rest
        → count_if q (
            lance.rows (
              update_found lance codec u p id
                (λ x. is_personal u p x && has_id id x)
                patch
                now
                (memory_of lance codec r)
                o
                t))
          ≡ count_if q (lance.rows t)
    update_found-frame u p id patch now t r rest none apart keys e =
        patch-frame laws keyed (project u p) q apart id
          (patched lance codec patch (some (memory_of lance codec r)) now) t (λ x. refl)
    update_found-frame u p id patch now t r rest (some v) apart keys e =
        replace-frame laws keyed (project u p) q apart id
          (replaced lance codec (memory_of lance codec r) patch v now id u p (some personal)) r rest
          t keys e refl (ground (arith, eq_refl u, eq_refl p))

    update_read-frame :
        (u p id : String) (patch : Patch V J) (now : ℕ) (t : T) (found : List (Row V))
        → ((x : Row V) → is_personal u p x ≡ true → q x ≡ false)
        → HasKeys (λ (x : Row V). x.memory_id) (lance.rows t)
        → lance.query (λ x. is_personal u p x && has_id id x) 1 0 t ≡ found
        → count_if q (
            lance.rows
              (update_read lance codec u p id
                (λ x. is_personal u p x && has_id id x)
                patch
                now
                found
                t).0)
          ≡ count_if q (lance.rows t)
    update_read-frame u p id patch now t [] apart keys e = refl
    update_read-frame u p id patch now t (r ∷ rest) apart keys e =
        update_found-frame u p id patch now t r rest patch.new_vector apart keys e

    pub updates-frame :
        (u p id : String) (patch : Patch V J) (now : ℕ) (t : T)
        → ((x : Row V) → is_personal u p x ≡ true → q x ≡ false)
        → HasKeys (λ (x : Row V). x.memory_id) (lance.rows t)
        → count_if q (lance.rows (after (updates u p id patch) now t)) ≡ count_if q (lance.rows t)
    unfolding after update memory_filter must_filter safe_id
    updates-frame u p id patch now t apart keys = ground (
      arith,
      patch-frame laws keyed (project u p) q apart id (patched lance codec patch none now) t
          (λ x. refl),
      update_read-frame u p id patch now t
          (lance.query (λ x. is_personal u p x && has_id id x) 1 0 t) apart keys refl,
    )

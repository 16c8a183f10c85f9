-- ===== src/Storage/Memories/Isolation/Keys.antt =====
-- The ids of rows stay unique.
use oc_piloci.Prelude.{
  ℕ, ◌≡◌, refl, Option, none, some, List, [], ◌∷◌, map, Bool, ◌&&◌, String, contains, arith,
  Distinct,
}
use oc_piloci.Db.Counts.{HasKeys}
use oc_piloci.Storage.Lance.{Lance, IsLance}
use oc_piloci.Storage.Memories.Records.{
  Row, Memory, MemoryWrite, Patch, Codec, safe_id, is_personal, of_team, has_id, ids_of, personal,
}
use oc_piloci.Storage.Lance.Keys.{update-HasKeys, delete-HasKeys, merge-HasKeys}
use oc_piloci.Storage.Memories.{
  save_many, new_rows, update, update_found, update_read, delete, clear_project, must_filter,
  memory_filter, memory_of, patched, replaced,
}
use oc_piloci.Storage.Memories.Team.{
  team_save_many, team_rows, team_update, team_update_found, team_update_read, team_delete,
  team_delete_read, team_filter, team_get,
}
use oc_piloci.Storage.Memories.Isolation.Documents.{indexes-HasKeys, removes-HasKeys}
use oc_piloci.Storage.Memories.Isolation.{
  Write, saves, updates, deletes, clears, team_saves, team_updates, team_deletes, indexes, removes,
  after, IsFresh,
}

module _ {T V J : Type 0} (lance : Lance T (Row V)) (codec : Codec J) (laws : IsLance lance)
    (keyed : (r : Row V) → lance.key r ≡ r.memory_id) where
  abbrev by_id : Row V → String
  by_id r = r.memory_id

  new_rows-ids :
      (u p : String) (ms : List (String × MemoryWrite V J)) (now : ℕ)
      → map by_id (new_rows lance codec u p ms now) ≡ ids_of ms
  new_rows-ids u p [] now = refl
  new_rows-ids u p ((id, m) ∷ ms) now = cc (new_rows-ids u p ms now)

  team_rows-ids :
      (tid author : String) (ms : List (String × MemoryWrite V J)) (now : ℕ)
      → map by_id (team_rows lance codec tid author ms now) ≡ ids_of ms
  team_rows-ids tid author [] now = refl
  team_rows-ids tid author ((id, m) ∷ ms) now = cc (team_rows-ids tid author ms now)

  saves-HasKeys :
      (u p : String) (ms : List (String × MemoryWrite V J)) (now : ℕ) (t : T)
      → Distinct (ids_of ms)
      → HasKeys by_id (lance.rows t)
      → HasKeys by_id (lance.rows (after lance codec (saves u p ms) now t))
  unfolding after save_many safe_id
  saves-HasKeys u p ms now t d keys k = ground (
    arith,
    merge-HasKeys lance laws by_id keyed (new_rows lance codec u p ms now) t
        (rw (new_rows-ids u p ms now) d) keys k,
    keys k,
  )

  team_saves-HasKeys :
      (tid author : String) (ms : List (String × MemoryWrite V J)) (now : ℕ) (t : T)
      → Distinct (ids_of ms)
      → HasKeys by_id (lance.rows t)
      → HasKeys by_id (lance.rows (after lance codec (team_saves tid author ms) now t))
  unfolding after team_save_many safe_id
  team_saves-HasKeys tid author ms now t d keys k = ground (
    arith,
    merge-HasKeys lance laws by_id keyed (team_rows lance codec tid author ms now) t
        (rw (team_rows-ids tid author ms now) d) keys k,
    keys k,
  )

  update_found-HasKeys :
      (u p id : String) (where_ : Row V → Bool) (patch : Patch V J) (now : ℕ) (t : T) (e : Memory J)
      (o : Option V)
      → HasKeys by_id (lance.rows t)
      → HasKeys by_id (lance.rows (update_found lance codec u p id where_ patch now e o t))
  unfolding contains
  update_found-HasKeys u p id where_ patch now t e none keys =
      update-HasKeys lance laws by_id where_ (patched lance codec patch (some e) now) t (λ r. refl)
        keys
  update_found-HasKeys u p id where_ patch now t e (some v) keys =
      merge-HasKeys lance laws by_id keyed
        (replaced lance codec e patch v now id u p (some personal) ∷ []) t (refl, tt) keys

  update_read-HasKeys :
      (u p id : String) (where_ : Row V → Bool) (patch : Patch V J) (now : ℕ) (t : T)
      (found : List (Row V))
      → HasKeys by_id (lance.rows t)
      → HasKeys by_id (lance.rows (update_read lance codec u p id where_ patch now found t).0)
  update_read-HasKeys u p id where_ patch now t [] keys = keys
  update_read-HasKeys u p id where_ patch now t (r ∷ rest) keys =
      update_found-HasKeys u p id where_ patch now t (memory_of lance codec r) patch.new_vector keys

  updates-HasKeys :
      (u p id : String) (patch : Patch V J) (now : ℕ) (t : T)
      → HasKeys by_id (lance.rows t)
      → HasKeys by_id (lance.rows (after lance codec (updates u p id patch) now t))
  unfolding after update memory_filter must_filter safe_id
  updates-HasKeys u p id patch now t keys k = ground (
    arith,
    keys k,
    update-HasKeys lance laws by_id (λ x. is_personal u p x && has_id id x)
        (patched lance codec patch none now) t (λ r. refl) keys k,
    update_read-HasKeys u p id (λ x. is_personal u p x && has_id id x) patch now t
        (lance.query (λ x. is_personal u p x && has_id id x) 1 0 t) keys k,
  )

  team_found-HasKeys :
      (tid id : String) (where_ : Row V → Bool) (patch : Patch V J) (now : ℕ) (t : T) (e : Memory J)
      (o : Option V)
      → HasKeys by_id (lance.rows t)
      → HasKeys by_id (lance.rows (team_update_found lance codec tid id where_ patch now e o t))
  unfolding contains
  team_found-HasKeys tid id where_ patch now t e none keys =
      update-HasKeys lance laws by_id where_ (patched lance codec patch (some e) now) t (λ r. refl)
        keys
  team_found-HasKeys tid id where_ patch now t e (some v) keys =
      merge-HasKeys lance laws by_id keyed
        (replaced lance codec e patch v now id e.user_id e.project_id (some tid) ∷ []) t (refl, tt)
        keys

  team_read-HasKeys :
      (tid id requester : String) (where_ : Row V → Bool) (patch : Patch V J) (allow : Bool)
      (now : ℕ) (t : T) (o : Option (Memory J))
      → HasKeys by_id (lance.rows t)
      → HasKeys by_id
          (lance.rows (team_update_read lance codec tid id requester where_ patch allow now o t).0)
  team_read-HasKeys tid id requester where_ patch allow now t none keys k = keys k
  team_read-HasKeys tid id requester where_ patch allow now t (some e) keys k =
      ground (arith, keys k, team_found-HasKeys tid id where_ patch now t e patch.new_vector keys k)

  drop-HasKeys :
      (requester : String) (where_ : Row V → Bool) (allow : Bool) (t : T) (o : Option (Memory J))
      → HasKeys by_id (lance.rows t)
      → HasKeys by_id (lance.rows (team_delete_read lance codec requester where_ allow o t).0)
  drop-HasKeys requester where_ allow t none keys k = keys k
  drop-HasKeys requester where_ allow t (some e) keys k =
      ground (arith, keys k, delete-HasKeys lance laws by_id where_ t keys k)

  -- No write gives two rows one id.
  pub after-HasKeys :
      (w : Write V J) (now : ℕ) (t : T)
      → IsFresh lance codec w t
      → HasKeys by_id (lance.rows t)
      → HasKeys by_id (lance.rows (after lance codec w now t))
  unfolding after delete clear_project must_filter memory_filter team_update team_delete team_get
      team_filter safe_id
  after-HasKeys (saves u p ms) now t fresh keys k = saves-HasKeys u p ms now t fresh.0 keys k
  after-HasKeys (updates u p id patch) now t fresh keys k =
      updates-HasKeys u p id patch now t keys k
  after-HasKeys (deletes u p id) now t fresh keys k = ground (
    arith,
    keys k,
    delete-HasKeys lance laws by_id (λ x. is_personal u p x && has_id id x) t keys k,
  )
  after-HasKeys (clears u p) now t fresh keys k =
      ground (arith, keys k, delete-HasKeys lance laws by_id (is_personal u p) t keys k)
  after-HasKeys (team_saves tid author ms) now t fresh keys k =
      team_saves-HasKeys tid author ms now t fresh.0 keys k
  after-HasKeys (team_updates tid id requester patch allow) now t fresh keys k = ground (
    arith,
    keys k,
    team_read-HasKeys tid id requester (λ x. of_team tid x && has_id id x) patch allow now t
        (elim (lance.query (λ x. of_team tid x && has_id id x) 1 0 t) [
          | [] ↦ none
          | r ∷ rest ↦ some (memory_of lance codec r)
        ])
        keys k,
  )
  after-HasKeys (team_deletes tid id requester allow) now t fresh keys k = ground (
    arith,
    keys k,
    drop-HasKeys requester (λ x. of_team tid x && has_id id x) allow t
        (elim (lance.query (λ x. of_team tid x && has_id id x) 1 0 t) [
          | [] ↦ none
          | r ∷ rest ↦ some (memory_of lance codec r)
        ])
        keys k,
  )
  after-HasKeys (indexes str tid doc chunks) now t fresh keys k =
      indexes-HasKeys lance codec laws keyed str tid doc chunks now t fresh keys k
  after-HasKeys (removes str tid doc) now t fresh keys k =
      removes-HasKeys lance codec laws keyed str tid doc now t keys k

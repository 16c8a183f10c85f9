-- ===== src/Storage/Memories/Isolation/Documents.antt =====
-- The writes of a document's chunks touch their team and leave the ids unique.
use oc_piloci.Prelude.{
  ℕ, ◌+◌, ◌≡◌, refl, ◌∙◌, List, [], ◌∷◌, map, Bool, true, false, not, ◌&&◌, String, if◌then◌else◌,
  is_nil, contains, arith, eq_refl, Bool-cases, inl, inr,
}
use oc_piloci.Db.{count_if}
use oc_piloci.Db.Counts.{HasKeys, count_if-keep}
use oc_piloci.Storage.Lance.{Lance, IsLance}
use oc_piloci.Storage.Lance.Frames.{delete-frame, merge-frame}
use oc_piloci.Storage.Lance.Keys.{delete-HasKeys, merge-HasKeys}
use oc_piloci.Storage.Memories.Records.{
  Row, MemoryWrite, Codec, safe_id, is_safe_id, codes, of_team,
}
use oc_piloci.Storage.Memories.Chunks.{
  of_doc, chunk_row, chunk_rows, team_remove_doc_chunks, team_index_doc_chunks,
}
use oc_piloci.Storage.Memories.Isolation.{indexes, removes, after, IsFresh, chunk_ids}

module _ {T V J : Type 0} (lance : Lance T (Row V)) (codec : Codec J) (laws : IsLance lance)
    (keyed : (r : Row V) → lance.key r ≡ r.memory_id) (str : ℕ → String) (tid doc : String) where
  abbrev ids : ℕ → List (MemoryWrite V J) → List String
  ids idx chunks = chunk_ids str doc idx chunks

  abbrev rows : ℕ → List (MemoryWrite V J) → ℕ → List (Row V)
  rows idx chunks now = chunk_rows lance codec str tid doc idx chunks now

  abbrev mine : Row V → Bool
  mine = of_doc lance codec str tid doc

  rows-ids :
      (idx : ℕ) (chunks : List (MemoryWrite V J)) (now : ℕ)
      → map (λ r. r.memory_id) (rows idx chunks now) ≡ ids idx chunks
  rows-ids idx [] now = refl
  rows-ids idx (m ∷ chunks) now = cc (rows-ids (idx + 1) chunks now)

  rows-keys :
      (idx : ℕ) (chunks : List (MemoryWrite V J)) (now : ℕ)
      → map lance.key (rows idx chunks now) ≡ ids idx chunks
  rows-keys idx [] now = refl
  rows-keys idx (m ∷ chunks) now = cc (keyed _, rows-keys (idx + 1) chunks now)

  rows-apart :
      (q : Row V → Bool) (idx : ℕ) (chunks : List (MemoryWrite V J)) (now : ℕ)
      → ((x : Row V) → of_team tid x ≡ true → q x ≡ false)
      → count_if q (rows idx chunks now) ≡ 0
  rows-apart q idx [] now apart = refl
  rows-apart q idx (m ∷ chunks) now apart = ground (
    arith,
    apart (chunk_row lance codec str tid doc idx m now) (eq_refl tid),
    rows-apart q (idx + 1) chunks now apart,
  )

  others :
      (q : Row V → Bool) (is : List String) (xs : List (Row V))
      → count_if (λ r. contains r.memory_id is && not (mine r)) xs ≡ 0
      → count_if (λ r. not (mine r) && (contains (lance.key r) is && q r)) xs ≡ 0
  others q is [] h = refl
  others q is (x ∷ xs) h = rw (keyed x) (ground (arith, h, others q is xs))

  removed-frame :
      (q : Row V → Bool) (t : T)
      → ((x : Row V) → of_team tid x ≡ true → q x ≡ false)
      → count_if q (lance.rows (lance.delete mine t).0) ≡ count_if q (lance.rows t)
  removed-frame q t apart = delete-frame lance laws mine q t (λ r h. apart r (ground arith))

  indexed-frame :
      (q : Row V → Bool) (chunks : List (MemoryWrite V J)) (now : ℕ) (t : T)
      → ((x : Row V) → of_team tid x ≡ true → q x ≡ false)
      → count_if (λ r. contains r.memory_id (ids 0 chunks) && not (mine r)) (lance.rows t) ≡ 0
      → count_if q (lance.rows (lance.merge_insert (rows 0 chunks now) (lance.delete mine t).0))
        ≡ count_if q (lance.rows t)
  indexed-frame q chunks now t apart h =
      merge-frame lance laws (rows 0 chunks now) q (lance.delete mine t).0
        (rows-apart q 0 chunks now apart)
        (rw (rows-keys 0 chunks now, laws.rows-delete mine t)
          (count_if-keep (λ r. not (mine r)) (λ r. contains (lance.key r) (ids 0 chunks) && q r)
              (lance.rows t)
            ∙ others q (ids 0 chunks) (lance.rows t) h))
      ∙ removed-frame q t apart

  pub removes-frame :
      (q : Row V → Bool) (now : ℕ) (t : T)
      → ((x : Row V) → of_team tid x ≡ true → q x ≡ false)
      → count_if q (lance.rows (after lance codec (removes str tid doc) now t))
        ≡ count_if q (lance.rows t)
  unfolding after team_remove_doc_chunks safe_id
  removes-frame q now t apart = ground (arith, removed-frame q t apart)

  pub removes-HasKeys :
      (now : ℕ) (t : T)
      → HasKeys (λ (x : Row V). x.memory_id) (lance.rows t)
      → HasKeys
          (λ (x : Row V). x.memory_id)
          (lance.rows (after lance codec (removes str tid doc) now t))
  unfolding after team_remove_doc_chunks safe_id
  removes-HasKeys now t keys k =
      ground (arith, keys k, delete-HasKeys lance laws (λ x. x.memory_id) mine t keys k)

  -- The table after an index, by whether the ids are safe and there are chunks.
  after-indexes :
      (P : T → Type 0) (chunks : List (MemoryWrite V J)) (now : ℕ) (t : T)
      → P t
      → P (lance.delete mine t).0
      → P (lance.merge_insert (rows 0 chunks now) (lance.delete mine t).0)
      → P (after lance codec (indexes str tid doc chunks) now t)
  unfolding after team_index_doc_chunks team_remove_doc_chunks safe_id
  after-indexes P chunks now t a b c = elim (Bool-cases (is_safe_id (codes tid))) [
    | inr e ↦ rw e a
    | inl e ↦ rw e (elim (Bool-cases (is_safe_id (codes doc))) [
      | inr f ↦ rw f a
      | inl f ↦ rw f (by_chunks chunks c)
    ])
  ]
    where
      by_chunks :
          (cs : List (MemoryWrite V J))
          → P (lance.merge_insert (rows 0 cs now) (lance.delete mine t).0)
          → (λ (r : T × List String). P r.0)
              (if is_nil cs then ((lance.delete mine t).0, []) else (
                lance.merge_insert (rows 0 cs now) (lance.delete mine t).0,
                map (λ r. r.memory_id) (rows 0 cs now),
              ))
      by_chunks [] d = b
      by_chunks (m ∷ cs) d = d

  pub indexes-frame :
      (q : Row V → Bool) (chunks : List (MemoryWrite V J)) (now : ℕ) (t : T)
      → ((x : Row V) → of_team tid x ≡ true → q x ≡ false)
      → IsFresh lance codec (indexes str tid doc chunks) t
      → count_if q (lance.rows (after lance codec (indexes str tid doc chunks) now t))
        ≡ count_if q (lance.rows t)
  indexes-frame q chunks now t apart fresh =
      after-indexes (λ x. count_if q (lance.rows x) ≡ count_if q (lance.rows t)) chunks now t refl
        (removed-frame q t apart) (indexed-frame q chunks now t apart fresh.1)

  pub indexes-HasKeys :
      (chunks : List (MemoryWrite V J)) (now : ℕ) (t : T)
      → IsFresh lance codec (indexes str tid doc chunks) t
      → HasKeys (λ (x : Row V). x.memory_id) (lance.rows t)
      → HasKeys
          (λ (x : Row V). x.memory_id)
          (lance.rows (after lance codec (indexes str tid doc chunks) now t))
  indexes-HasKeys chunks now t fresh keys =
      let cut : HasKeys (λ (x : Row V). x.memory_id) (lance.rows (lance.delete mine t).0) =
        delete-HasKeys lance laws (λ x. x.memory_id) mine t keys in
      after-indexes (λ x. HasKeys (λ (r : Row V). r.memory_id) (lance.rows x)) chunks now t keys cut
        (merge-HasKeys lance laws (λ x. x.memory_id) keyed (rows 0 chunks now)
          (lance.delete mine t).0 (rw (rows-ids 0 chunks now) fresh.0) cut)

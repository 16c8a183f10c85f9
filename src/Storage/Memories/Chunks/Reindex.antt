-- ===== src/Storage/Memories/Chunks/Reindex.antt =====
-- What the table holds of a document once it is indexed.
use oc_piloci.Prelude.{
  ℕ, ◌+◌, ◌≡◌, refl, ◌∙◌, ap, List, [], ◌∷◌, ◌++◌, map, Bool, true, false, not, String,
  if◌then◌else◌, is_nil, keep, keep-append, contains, ok, err, arith, eq_refl, Bool-cases, inl, inr,
}
use Prim.Native.String.{◌++◌ as str_append}
use Prim.Native.Char.{code}
use text.Mathlib.TextLemmas.{nil-append, cons-append}
use oc_piloci.Storage.Lance.{Lance, IsLance}
use oc_piloci.Storage.Memories.Records.{
  Row, MemoryWrite, Codec, invalid_id, safe_id, is_safe_id, codes,
}
use oc_piloci.Storage.Memories.Team.{is_like, team_filter, team_get}
use oc_piloci.Storage.Memories.Chunks.{
  chunk_prefix, doc_chunk_id, of_doc, team_remove_doc_chunks, chunk_row, chunk_rows,
  team_index_doc_chunks,
}

codes-append : (s t : String) → codes (str_append s t) ≡ codes s ++ codes t
codes-append String.[] t = ap codes (nil-append t)
codes-append (String.◌∷◌ c s) t =
    ap codes (cons-append c s t) ∙ ap (◌∷◌ (code c)) (codes-append s t)

like-append : (p rest : List ℕ) → is_like p (p ++ rest) ≡ true
unfolding is_like
like-append [] rest = refl
like-append (c ∷ p) rest = ground (arith, like-append p rest)

module _ {T V J : Type 0} (lance : Lance T (Row V)) (codec : Codec J) (str : ℕ → String) where
  -- The id of a chunk has colons.
  chunk_unsafe :
      (doc_id : String) (idx : ℕ) → is_safe_id (codes (doc_chunk_id str doc_id idx)) ≡ false
  unfolding is_safe_id
  chunk_unsafe doc_id idx =
      rw
        (
          codes-append (chunk_prefix doc_id) (str idx),
          codes-append "doc::" (str_append doc_id "::"),
        )
        refl

  chunk-of_doc :
      (team_id doc_id : String) (idx : ℕ) (m : MemoryWrite V J) (now : ℕ)
      → of_doc lance codec str team_id doc_id (chunk_row lance codec str team_id doc_id idx m now)
        ≡ true
  chunk-of_doc team_id doc_id idx m now =
      let like : is_like (codes (chunk_prefix doc_id)) (codes (doc_chunk_id str doc_id idx))
          ≡ true =
        rw (codes-append (chunk_prefix doc_id) (str idx))
          (like-append (codes (chunk_prefix doc_id)) (codes (str idx))) in
      ground (arith, eq_refl team_id, like)

  keep-chunk_rows :
      (team_id doc_id : String) (idx : ℕ) (chunks : List (MemoryWrite V J)) (now : ℕ)
      → keep
          (of_doc lance codec str team_id doc_id)
          (chunk_rows lance codec str team_id doc_id idx chunks now)
        ≡ chunk_rows lance codec str team_id doc_id idx chunks now
  keep-chunk_rows team_id doc_id idx [] now = refl
  keep-chunk_rows team_id doc_id idx (m ∷ chunks) now = rw (chunk-of_doc team_id doc_id idx m now) (
      ap (◌∷◌ (chunk_row lance codec str team_id doc_id idx m now))
        (keep-chunk_rows team_id doc_id (idx + 1) chunks now))

  keep_none :
      (p q : Row V → Bool) (xs : List (Row V)) → keep p (keep q (keep (λ r. not (p r)) xs)) ≡ []
  keep_none p q [] = refl
  keep_none p q (x ∷ xs) = elim (Bool-cases (p x)) [
    | inl e ↦ rw e (keep_none p q xs)
    | inr e ↦ rw e (elim (Bool-cases (q x)) [
      | inl f ↦ rw (f, e) (keep_none p q xs)
      | inr f ↦ rw f (keep_none p q xs)
    ])
  ]

  keep_dropped : (p : Row V → Bool) (xs : List (Row V)) → keep p (keep (λ r. not (p r)) xs) ≡ []
  keep_dropped p [] = refl
  keep_dropped p (x ∷ xs) = elim (Bool-cases (p x)) [
    | inl e ↦ rw e (keep_dropped p xs)
    | inr e ↦ rw (e, e) (keep_dropped p xs)
  ]

  module _ (laws : IsLance lance) where
    merged-chunks :
        (team_id doc_id : String) (chunks : List (MemoryWrite V J)) (now : ℕ) (t : T)
        → keep (of_doc lance codec str team_id doc_id) (
            lance.rows (
              lance.merge_insert
                (chunk_rows lance codec str team_id doc_id 0 chunks now)
                (lance.delete (of_doc lance codec str team_id doc_id) t).0))
          ≡ chunk_rows lance codec str team_id doc_id 0 chunks now
    merged-chunks team_id doc_id chunks now t =
        let p : Row V → Bool = of_doc lance codec str team_id doc_id in
        let new : List (Row V) = chunk_rows lance codec str team_id doc_id 0 chunks now in
        let q : Row V → Bool = λ r. not (contains (lance.key r) (map lance.key new)) in
        rw
          (
            laws.rows-merge_insert new (lance.delete p t).0,
            laws.rows-delete p t,
            keep-append p (keep q (keep (λ r. not (p r)) (lance.rows t))) new,
            keep_none p q (lance.rows t),
          )
          (keep-chunk_rows team_id doc_id 0 chunks now)

    by_chunks :
        (team_id doc_id : String) (chunks : List (MemoryWrite V J)) (now : ℕ) (t : T)
        → keep (of_doc lance codec str team_id doc_id) (
            lance.rows (
              if is_nil chunks
              then (lance.delete (of_doc lance codec str team_id doc_id) t).0
              else lance.merge_insert
                  (chunk_rows lance codec str team_id doc_id 0 chunks now)
                  (lance.delete (of_doc lance codec str team_id doc_id) t).0))
          ≡ chunk_rows lance codec str team_id doc_id 0 chunks now
    by_chunks team_id doc_id [] now t =
        rw (laws.rows-delete (of_doc lance codec str team_id doc_id) t)
          (keep_dropped (of_doc lance codec str team_id doc_id) (lance.rows t))
    by_chunks team_id doc_id (m ∷ chunks) now t = merged-chunks team_id doc_id (m ∷ chunks) now t

    -- Indexing a document of a team anew, where both ids are safe, leaves of it exactly the rows of its present chunks, in their order; none of
    -- them can be got by its id, which the store refuses as an id.
    pub index_doc_chunks_lem :
        (team_id doc_id : String) (chunks : List (MemoryWrite V J)) (now : ℕ) (t : T)
        → is_safe_id (codes team_id) ≡ true
        → is_safe_id (codes doc_id) ≡ true
        → (t' : T) × (team_index_doc_chunks lance codec str team_id doc_id chunks now t
            ≡ ok (
              t',
              map (λ r. r.memory_id) (chunk_rows lance codec str team_id doc_id 0 chunks now),
            ))
          × (keep (of_doc lance codec str team_id doc_id) (lance.rows t')
              ≡ chunk_rows lance codec str team_id doc_id 0 chunks now)
          × ((idx : ℕ)
              → team_get lance codec team_id (doc_chunk_id str doc_id idx) t' ≡ err invalid_id)
    unfolding team_index_doc_chunks team_remove_doc_chunks team_get team_filter safe_id
    index_doc_chunks_lem team_id doc_id chunks now t safe_team safe_doc = (
      if is_nil chunks
          then (lance.delete (of_doc lance codec str team_id doc_id) t).0
          else lance.merge_insert (chunk_rows lance codec str team_id doc_id 0 chunks now)
              (lance.delete (of_doc lance codec str team_id doc_id) t).0,
      rw (safe_team, safe_doc) (ap (λ r. ok r) (replied chunks)),
      by_chunks team_id doc_id chunks now t,
      λ idx. rw (safe_team, chunk_unsafe doc_id idx) refl,
    )
      where
        replied :
            (cs : List (MemoryWrite V J))
            → ◌≡◌ {A = T × List String}
                (if is_nil cs
                  then ((lance.delete (of_doc lance codec str team_id doc_id) t).0, [])
                  else (
                    lance.merge_insert
                        (chunk_rows lance codec str team_id doc_id 0 cs now)
                        (lance.delete (of_doc lance codec str team_id doc_id) t).0,
                    map (λ r. r.memory_id) (chunk_rows lance codec str team_id doc_id 0 cs now),
                  ))
                (
                  (if is_nil cs
                      then (lance.delete (of_doc lance codec str team_id doc_id) t).0
                      else lance.merge_insert
                          (chunk_rows lance codec str team_id doc_id 0 cs now)
                          (lance.delete (of_doc lance codec str team_id doc_id) t).0),
                  map (λ r. r.memory_id) (chunk_rows lance codec str team_id doc_id 0 cs now),
                )
        replied [] = refl
        replied (m ∷ cs) = refl

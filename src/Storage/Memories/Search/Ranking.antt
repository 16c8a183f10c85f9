-- ===== src/Storage/Memories/Search/Ranking.antt =====
-- The ranking of rows: what sorting, fusing and scoring keep.
use oc_piloci.Prelude.{
  ℕ, zero, suc, ◌+◌, ◌≤◌, ◌≡◌, refl, ◌∙◌, ap, Option, none, some, List, [], ◌∷◌, Bool, String, ◌==◌,
  take, length, All, lookup, insert, arith, eq_iff, Bool-cases, inl, inr, keys_of, keys_of-insert,
  Distinct, append-Distinct, contains, subst,
}
use oc_piloci.Db.{count_if}
use oc_piloci.Storage.Lance.{Lance, Engine}
use oc_piloci.Storage.Memories.Records.{Row, Memory, Codec}
use oc_piloci.Storage.Memories.{memory_of}
use oc_piloci.Storage.Memories.Search.{
  Arithmetic, place, sort, min_of, similarity, is_below, boost_each, scored, Fused, add_share,
  add_rank, add_ranks, normalized,
}

module _ {F : Type 0} (fl : Arithmetic F) where
  module _ {A : Type 0} where
    count-place :
        (p : A × F → Bool) (x : A × F) (ys : List (A × F))
        → count_if p (place fl x ys) ≡ count_if p (x ∷ ys)
    unfolding place
    count-place p x [] = refl
    count-place p x (y ∷ ys) = ground (arith, count-place p x ys)

    pub count-sort :
        (p : A × F → Bool) (xs : List (A × F)) → count_if p (sort fl xs) ≡ count_if p xs
    unfolding sort
    count-sort p [] = refl
    count-sort p (x ∷ xs) = count-place p x (sort fl xs) ∙ ground (arith, count-sort p xs)

    All-place :
        (P : A × F → Type 0) (x : A × F) (ys : List (A × F))
        → P x
        → All P ys
        → All P (place fl x ys)
    unfolding place
    All-place P x [] h a = (h, tt)
    All-place P x (y ∷ ys) h a = elim (Bool-cases (fl.lt x.1 y.1)) [
      | inl e ↦ rw e (a.0, All-place P x ys h a.1)
      | inr e ↦ rw e (h, a)
    ]

    pub All-sort : (P : A × F → Type 0) (xs : List (A × F)) → All P xs → All P (sort fl xs)
    unfolding sort
    All-sort P [] a = tt
    All-sort P (x ∷ xs) a = All-place P x (sort fl xs) a.0 (All-sort P xs a.1)

    pub length-sort : (xs : List (A × F)) → length (sort fl xs) ≡ length xs
    unfolding sort
    length-sort [] = refl
    length-sort (x ∷ xs) = length-place x (sort fl xs) ∙ ap suc (length-sort xs)
      where
        length-place : (x : A × F) (ys : List (A × F)) → length (place fl x ys) ≡ suc (length ys)
        length-place x [] = refl
        length-place x (y ∷ ys) = ground (arith, length-place x ys)

    pub All-take : (P : A → Type 0) (n : ℕ) (xs : List A) → All P xs → All P (take n xs)
    All-take P zero xs a = tt
    All-take P (suc n) [] a = tt
    All-take P (suc n) (x ∷ xs) a = (a.0, All-take P n xs a.1)

    pub count-take-le :
        (p : A → Bool) (n : ℕ) (xs : List A) → count_if p (take n xs) ≤ count_if p xs
    count-take-le p zero xs = omega arith
    count-take-le p (suc n) [] = omega arith
    count-take-le p (suc n) (x ∷ xs) = ground (arith, count-take-le p n xs)

  module _ {T V J : Type 0} (lance : Lance T (Row V)) (engine : Engine T (Row V) V F)
      (codec : Codec J) (P : Memory J → Type 0) where
    abbrev pub Good : Row V → Type 0
    Good r = P (memory_of lance codec r)

    abbrev pub hit_id : String → Memory J × F → Bool
    hit_id k h = h.0.id == k

    pub All-boost :
        (now : F) (hits : List (Memory J × F))
        → All (λ h. P h.0) hits
        → All (λ h. P h.0) (boost_each fl now hits)
    All-boost now [] a = tt
    All-boost now ((m, score) ∷ hits) a = (a.0, All-boost now hits a.1)

    pub count-boost :
        (k : String) (now : F) (hits : List (Memory J × F))
        → count_if (hit_id k) (boost_each fl now hits) ≡ count_if (hit_id k) hits
    count-boost k now [] = refl
    count-boost k now ((m, score) ∷ hits) = ground (arith, count-boost k now hits)

    pub length-boost :
        (now : F) (hits : List (Memory J × F)) → length (boost_each fl now hits) ≡ length hits
    length-boost now [] = refl
    length-boost now ((m, score) ∷ hits) = ap suc (length-boost now hits)

    pub All-scored :
        (least : Option F) (rows : List (Row V × F))
        → All (λ x. Good x.0) rows
        → All (λ h. P h.0) (scored fl lance engine codec least rows)
    All-scored least [] a = tt
    All-scored least ((r, d) ∷ rows) a = elim (Bool-cases (is_below fl least (similarity fl d))) [
      | inl e ↦ rw e (All-scored least rows a.1)
      | inr e ↦ rw e (a.0, All-scored least rows a.1)
    ]

    pub length-scored :
        (least : Option F) (rows : List (Row V × F))
        → length (scored fl lance engine codec least rows) ≤ length rows
    length-scored least [] = omega arith
    length-scored least ((r, d) ∷ rows) = ground (arith, length-scored least rows)

    pub All-normalized :
        (least : Option F) (rows : List (Row V × F))
        → All (λ x. Good x.0) rows
        → All (λ h. P h.0) (normalized fl lance engine codec least rows)
    All-normalized least [] a = tt
    All-normalized least ((r, s) ∷ rows) a =
        elim (Bool-cases
          (is_below fl least (min_of fl (fl.num 1) (fl.over s (fl.over (fl.num 2) (fl.num 61)))))) [
            | inl e ↦ rw e (All-normalized least rows a.1)
            | inr e ↦ rw e (a.0, All-normalized least rows a.1)
          ]

    pub length-normalized :
        (least : Option F) (rows : List (Row V × F))
        → length (normalized fl lance engine codec least rows) ≤ length rows
    length-normalized least [] = omega arith
    length-normalized least ((r, s) ∷ rows) = ground (arith, length-normalized least rows)

    abbrev pub row_id : String → Row V × F → Bool
    row_id k x = x.0.memory_id == k

    pub count-normalized :
        (k : String) (least : Option F) (rows : List (Row V × F))
        → count_if (hit_id k) (normalized fl lance engine codec least rows)
          ≤ count_if (row_id k) rows
    count-normalized k least [] = omega arith
    count-normalized k least ((r, s) ∷ rows) = ground (arith, count-normalized k least rows)

    -- Each key of the fused dict is the id of a row that the filter lets pass.
    abbrev pub Sound : Fused fl lance engine codec → Type 0
    Sound fused = All (λ (e : String × (Row V × F)). (e.1.0.memory_id ≡ e.0) × Good e.1.0) fused

    lookup-Sound :
        (k : String) (fused : Fused fl lance engine codec) (v : Row V × F)
        → Sound fused
        → lookup k fused ≡ some v
        → (v.0.memory_id ≡ k) × Good v.0
    unfolding lookup
    lookup-Sound k [] v a e = absurd (ground arith)
    lookup-Sound k ((j, w) ∷ fused) v a e = elim (Bool-cases (j == k)) [
      | inl same ↦
          let found : w ≡ v = ground arith in
          subst (λ (u : Row V × F). (u.0.memory_id ≡ k) × Good u.0) found
            (a.0.0 ∙ (eq_iff j k).0 same, a.0.1)
      | inr other ↦ lookup-Sound k fused v a.1 (ground arith)
    ]

    insert-Sound :
        (k : String) (v : Row V × F) (fused : Fused fl lance engine codec)
        → (v.0.memory_id ≡ k) × Good v.0
        → Sound fused
        → Sound (insert k v fused)
    unfolding insert
    insert-Sound k v [] h a = (h, tt)
    insert-Sound k v ((j, w) ∷ fused) h a = elim (Bool-cases (j == k)) [
      | inl e ↦ rw e (h, a.1)
      | inr e ↦ rw e (a.0, insert-Sound k v fused h a.1)
    ]

    insert-Distinct :
        (k : String) (v : Row V × F) (fused : Fused fl lance engine codec)
        → Distinct (keys_of fused)
        → Distinct (keys_of (insert k v fused))
    insert-Distinct k v fused d = elim (Bool-cases (contains k (keys_of fused))) [
      | inl e ↦ rw (keys_of-insert k v fused, e) d
      | inr e ↦ rw (keys_of-insert k v fused, e) (append-Distinct k (keys_of fused) d e)
    ]

    add_rank-Sound :
        (rank : ℕ) (row : Row V) (fused : Fused fl lance engine codec)
        → Good row
        → Sound fused × Distinct (keys_of fused)
        → Sound (add_rank fl lance engine codec rank row fused)
          × Distinct (keys_of (add_rank fl lance engine codec rank row fused))
    add_rank-Sound rank row fused good h = (
      insert-Sound row.memory_id
          (add_share fl lance engine codec rank row (lookup row.memory_id fused)) fused
          (shared (lookup row.memory_id fused) refl) h.0,
      insert-Distinct row.memory_id
          (add_share fl lance engine codec rank row (lookup row.memory_id fused)) fused h.1,
    )
      where
        shared :
            (o : Option (Row V × F))
            → lookup row.memory_id fused ≡ o
            → ((add_share fl lance engine codec rank row o).0.memory_id ≡ row.memory_id)
              × Good (add_share fl lance engine codec rank row o).0
        shared none e = (refl, good)
        shared (some (first, score)) e = lookup-Sound row.memory_id fused (first, score) h.0 e

    pub add_ranks-Sound :
        (rank : ℕ) (rows : List (Row V)) (fused : Fused fl lance engine codec)
        → All Good rows
        → Sound fused × Distinct (keys_of fused)
        → Sound (add_ranks fl lance engine codec rank rows fused)
          × Distinct (keys_of (add_ranks fl lance engine codec rank rows fused))
    unfolding add_ranks
    add_ranks-Sound rank [] fused a h = h
    add_ranks-Sound rank (row ∷ rows) fused a h =
        add_ranks-Sound (rank + 1) rows (add_rank fl lance engine codec rank row fused) a.1
          (add_rank-Sound rank row fused a.0 h)

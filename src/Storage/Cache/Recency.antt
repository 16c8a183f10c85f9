-- ===== src/Storage/Cache/Recency.antt =====
-- The cache against its specification: one list of entries, least recently used first.
use oc_piloci.Prelude.{
  ℕ, ◌+◌, ◌≤◌, ◌<◌, ◌≡◌, refl, sym, ◌∙◌, inl, inr, String, none, some, List, [], ◌∷◌, ◌++◌, true,
  false, arith, eq_iff, eq_refl, length, lookup, insert, erase, contains, remove, leb,
  if◌then◌else◌, ◌==◌, Returns, Distinct, contains-remove, remove-Distinct, append-Distinct,
  length-remove, length-append, lookup-insert, lookup-erase, Option-cases, Bool-cases, ap,
  lookup-append, keys_of, keys_of-append, contains-keys_of, keys_of-erase, keys_of-insert,
  length-keys_of, is_some,
}
use oc_piloci.Storage.Cache.{EmbeddingCache, init, get, set, make_room, store, evict}

module _ {V : Type 0} where
  -- What a use of `k` makes of the list.
  abbrev pub touch : String → List (String × V) → List (String × V)
  touch k l = elim (lookup k l) [ none ↦ l | some v ↦ erase k l ++ (k, v) ∷ [] ]

  abbrev pub drop_oldest : List (String × V) → List (String × V)
  drop_oldest [] = []
  drop_oldest (e ∷ l) = l

  -- What a write makes of it: the entry of `k`, or else the oldest of a full list, gives way.
  abbrev pub write : ℕ → String → V → List (String × V) → List (String × V)
  write n k v l =
      (elim (lookup k l) [
        | some old ↦ erase k l
        | none ↦ if leb n (length l) then drop_oldest l else l
      ])
      ++ (k, v) ∷ []

  pub record Refines (c : EmbeddingCache V) (l : List (String × V)) : Type 0 where
    pub room : 0 < c.maxsize
    pub order : c.keys ≡ keys_of l
    pub values : (k : String) → lookup k c.cache ≡ lookup k l
    pub distinct : Distinct (keys_of l)
    pub dict : Distinct (keys_of c.cache)
    pub count : length c.cache ≡ length l
    pub bounded : length l ≤ c.maxsize

  pub init-Refines : (n : ℕ) → 0 < n → Refines (init n) []
  unfolding init lookup
  init-Refines n h = record {
    room = h;
    order = refl;
    values = λ k. refl;
    distinct = tt;
    dict = tt;
    count = refl;
    bounded = omega arith;
  }

  lookup-cons :
      (k i : String) (w : V) (l : List (String × V))
      → lookup k ((i, w) ∷ l) ≡ (if i == k then some w else lookup k l)
  unfolding lookup
  lookup-cons k i w l = refl

  length-erase :
      (k : String) (m : List (String × V)) (v : V)
      → Distinct (keys_of m)
      → lookup k m ≡ some v
      → length (erase k m) + 1 ≡ length m
  length-erase k m v d e = ground (
    arith,
    length-remove k (keys_of m),
    contains-keys_of k m,
    length-keys_of m,
    length-keys_of (erase k m),
    keys_of-erase k m d,
  )

  lookup-touch :
      (k j : String) (v : V) (l : List (String × V))
      → lookup j (erase k l ++ (k, v) ∷ []) ≡ (if k == j then some v else lookup j l)
  unfolding lookup
  lookup-touch k j v l =
      ground (arith, lookup-append j (erase k l) ((k, v) ∷ []), lookup-erase k j l)

  -- The entry of `k`, taken out and put at the end with the value `v`.
  moved :
      (c : EmbeddingCache V) (l : List (String × V)) (k : String) (old v : V)
      (m : List (String × V))
      → Refines c l
      → lookup k l ≡ some old
      → ((j : String) → lookup j m ≡ (if k == j then some v else lookup j l))
      → Distinct (keys_of m)
      → length m ≡ length l
      → Refines
          (record c { cache = m; keys = remove k c.keys ++ k ∷ [] })
          (erase k l ++ (k, v) ∷ [])
  moved c l k old v m r e look dict len = record {
    room = r.room;
    order = rw (keys_of-append, keys_of-erase k l r.distinct, r.order) refl;
    values = λ j. look j ∙ sym (lookup-touch k j v l);
    distinct =
        rw (keys_of-append, keys_of-erase k l r.distinct)
          (append-Distinct k _ (remove-Distinct k _ r.distinct)
            (contains-remove k k _ r.distinct ∙ rw (eq_refl k)));
    dict = dict;
    count =
        omega (arith, length-append (erase k l) ((k, v) ∷ []), length-erase k l old r.distinct e);
    bounded =
        omega (arith, length-append (erase k l) ((k, v) ∷ []), length-erase k l old r.distinct e);
  }

  holds :
      (c : EmbeddingCache V) (l : List (String × V)) (k : String) (v : V)
      → Refines c l
      → lookup k l ≡ some v
      → contains k c.keys ≡ true
  holds c l k v r e = rw (r.order, contains-keys_of k l, e)

  -- `get` returns the entry of its key and makes it the most recent; it never raises.
  pub get-Refines :
      (c : EmbeddingCache V) (l : List (String × V)) (k : String)
      → Refines c l
      → Returns
          (λ r. (r.0 ≡ lookup k l) × (r.1.maxsize ≡ c.maxsize) × Refines r.1 (touch k l))
          (get c k)
  unfolding get
  get-Refines c l k r = elim (Option-cases (lookup k l)) [
    | inl e ↦ rw (r.values k ∙ e, e, get, touch) (refl, refl, r)
    | inr (v, e) ↦
        rw (r.values k ∙ e, e, holds c l k v r e, get, touch)
          (
            refl,
            refl,
            moved c l k v v c.cache r e (λ j. ground (arith, r.values j, eq_iff k j)) r.dict
                r.count,
          )
  ]

  length-insert :
      (k : String) (v : V) (m : List (String × V))
      → length (insert k v m) ≡ (if is_some (lookup k m) then length m else length m + 1)
  length-insert k v m = ground (
    arith,
    keys_of-insert k v m,
    length-keys_of m,
    length-keys_of (insert k v m),
    contains-keys_of k m,
    length-append (keys_of m) (k ∷ []),
  )

  insert-Distinct :
      (k : String) (v : V) (m : List (String × V))
      → Distinct (keys_of m)
      → Distinct (keys_of (insert k v m))
  insert-Distinct k v m d = rw (keys_of-insert k v m) (elim (Bool-cases (contains k (keys_of m))) [
    | inl h ↦ rw h d
    | inr h ↦ rw h (append-Distinct k (keys_of m) d h)
  ])

  -- A new key at the end of a list with room for it.
  added :
      (c : EmbeddingCache V) (l : List (String × V)) (k : String) (v : V)
      → Refines c l
      → lookup k l ≡ none
      → length l < c.maxsize
      → Refines (store c k v) (l ++ (k, v) ∷ [])
  unfolding lookup
  added c l k v r e h = record {
    room = r.room;
    order = rw (keys_of-append, r.order) refl;
    values = λ j. ground (
      arith,
      lookup-insert k j v c.cache,
      lookup-append j l ((k, v) ∷ []),
      r.values j,
      eq_iff k j,
    );
    distinct =
        rw keys_of-append (append-Distinct k _ r.distinct (contains-keys_of k l ∙ ap is_some e));
    dict = insert-Distinct k v c.cache r.dict;
    count =
        ground
          (arith, length-insert k v c.cache, length-append l ((k, v) ∷ []), r.values k, r.count);
    bounded = omega (arith, length-append l ((k, v) ∷ []));
  }

  -- The oldest entry leaves both containers.
  evicted :
      (c : EmbeddingCache V) (k : String) (v : V) (l : List (String × V))
      → Refines c ((k, v) ∷ l)
      → Refines (record c { cache = erase k c.cache; keys = keys_of l }) l
  unfolding lookup contains
  evicted c k v l r = record {
    room = r.room;
    order = refl;
    values =
        λ j. ground (arith, lookup-erase k j c.cache, r.values j, contains-keys_of j l, eq_iff k j);
    distinct = r.distinct.1;
    dict = rw (keys_of-erase k c.cache r.dict) (remove-Distinct k _ r.dict);
    count = ground (arith, length-erase k c.cache v r.dict, r.values k, r.count, eq_refl k);
    bounded = omega (arith, r.bounded);
  }

  length-keys :
      (c : EmbeddingCache V) (l : List (String × V)) → Refines c l → length c.keys ≡ length l
  length-keys c l r = rw r.order (length-keys_of l)

  with_room :
      (c : EmbeddingCache V) (l : List (String × V)) (k : String) (v : V)
      → Refines c l
      → lookup k l ≡ none
      → leb c.maxsize (length l) ≡ false
      → Returns (λ c'. (c'.maxsize ≡ c.maxsize) × Refines c' (write c.maxsize k v l)) (set c k v)
  unfolding set
  with_room c l k v r e free =
      rw (r.values k ∙ e, e, length-keys c l r, free, set, make_room, write)
        (refl, added c l k v r e (ground arith))

  when_full :
      (c : EmbeddingCache V) (l : List (String × V)) (k : String) (v : V)
      → Refines c l
      → lookup k l ≡ none
      → leb c.maxsize (length l) ≡ true
      → Returns (λ c'. (c'.maxsize ≡ c.maxsize) × Refines c' (write c.maxsize k v l)) (set c k v)
  unfolding set
  when_full c [] k v r e full = absurd (ground (arith, r.room))
  when_full c ((i, w) ∷ l) k v r e full =
      rw
        (
          r.values k ∙ e,
          e,
          r.order,
          length-keys_of l,
          full,
          r.values i ∙ found,
          set,
          make_room,
          write,
          evict,
        )
        (refl, added _ l k v (evicted c i w l r) rest (omega (arith, r.bounded)))
    where
      found : lookup i ((i, w) ∷ l) ≡ some w
      found = unfold lookup in rw (eq_refl i)

      rest : lookup k l ≡ none
      rest = ground (arith, lookup-cons k i w l)

  -- `set` makes its entry the most recent, and drops the oldest of a full cache only for a new
  -- key; it never raises.
  pub set-Refines :
      (c : EmbeddingCache V) (l : List (String × V)) (k : String) (v : V)
      → Refines c l
      → Returns (λ c'. (c'.maxsize ≡ c.maxsize) × Refines c' (write c.maxsize k v l)) (set c k v)
  unfolding set
  set-Refines c l k v r = elim (Option-cases (lookup k l)) [
    | inl e ↦ elim (Bool-cases (leb c.maxsize (length l))) [
      | inl full ↦ when_full c l k v r e full
      | inr free ↦ with_room c l k v r e free
    ]
    | inr (old, e) ↦
        rw (r.values k ∙ e, e, holds c l k old r e, set, make_room, write)
          (
            refl,
            moved c l k old v (insert k v c.cache) r e
                (λ j. ground (arith, lookup-insert k j v c.cache, r.values j))
                (insert-Distinct k v c.cache r.dict)
                (ground (arith, length-insert k v c.cache, r.values k, r.count)),
          )
  ]

-- ===== src/Curator/Ingest/Again.antt =====
-- A batch that is sent again.
use oc_piloci.Prelude.{
  ℕ, zero, suc, ◌+◌, ◌-◌, ◌≤◌, ◌≡◌, refl, sym, ◌∙◌, ap, Option, none, some, List, [], ◌∷◌, Bool,
  true, false, not, String, ◌==◌, leb, length, take, is_nil, is_some, keep, contains, All, arith,
  eq_refl,
}
use oc_piloci.Db.{Sql, IsSql, count_if}
use oc_piloci.Db.Counts.{count_if-append, count-grows}
use oc_piloci.Curator.RawSessions.{RawSession}
use oc_piloci.Curator.Backlog.{
  archive, archive_overflow, enforce_ceiling_after_ingest, candidates, count_pending,
}
use oc_piloci.Curator.Prefilter.{Message, Library}
use oc_piloci.Curator.Ingest.{
  IngestTexts, store_captured, BatchItem, ingest_item, ingest_items, sessions_ingest, is_row_of,
  item_row, worth, or_empty,
}

count-true : {Row : Type 0} (xs : List Row) → count_if (λ r. true) xs ≡ length xs
count-true {Row} [] = refl
count-true {Row} (x ∷ xs) = ap suc (count-true xs)

is_nil-length : {Row : Type 0} (xs : List Row) → is_nil xs ≡ not (leb 1 (length xs))
is_nil-length {Row} [] = refl
is_nil-length {Row} (x ∷ xs) = ground arith

module _ {T : Type 0} (sql : Sql T RawSession) (laws : IsSql sql) (texts : IngestTexts)
    (lib : Library) (max_pending : ℕ) (user_id project_id : String) (now : ℕ) where
  -- The number of rows of an item's session.
  abbrev rows_of : BatchItem → T → ℕ
  rows_of i t =
      count_if (is_row_of user_id project_id (texts.strip (or_empty i.session_id))) (sql.rows t)

  is_nil-select :
      (q : RawSession → Bool) (t : T)
      → is_nil (sql.select q [] t) ≡ not (leb 1 (count_if q (sql.rows t)))
  is_nil-select q t =
      is_nil-length (sql.select q [] t)
      ∙ ap (λ n. not (leb 1 n))
          (sym (count-true (sql.select q [] t))
            ∙ laws.select-same q [] t (λ r. true)
            ∙ count-true (keep q (sql.rows t)))

  overflow-grows :
      (q : RawSession → Bool) (t : T)
      → ((r : RawSession) → q (archive now r) ≡ q r)
      → count_if q (sql.rows t)
        ≤ count_if q (sql.rows (archive_overflow sql max_pending (some user_id) now t).1)
  unfolding archive_overflow
  overflow-grows q t h =
      let ids : List String =
        candidates sql (count_pending sql (some user_id) t - max_pending) (some user_id) t in
      ground (
        arith,
        ap (count_if q) (laws.rows-update (λ r. contains r.ingest_id ids) (archive now) t),
        count-grows q (λ r. contains r.ingest_id ids) (archive now) (sql.rows t) (λ r e. h r ∙ e),
      )

  store-grows :
      (i : BatchItem) (row : RawSession) (t : T)
      → rows_of i t
          + count_if (is_row_of user_id project_id (texts.strip (or_empty i.session_id))) (row ∷ [])
        ≤ rows_of i (store_captured sql texts lib max_pending row true user_id now t).0
  unfolding enforce_ceiling_after_ingest
  store-grows i row t =
      let q : RawSession → Bool =
        is_row_of user_id project_id (texts.strip (or_empty i.session_id)) in
      omega (
        arith,
        ap (count_if q) (laws.rows-insert row t),
        count_if-append q (sql.rows t) (row ∷ []),
        overflow-grows q (sql.insert row t) (λ r. refl),
      )

  item-grows :
      (i j : BatchItem) (k : String) (t : T)
      → rows_of i t
        ≤ rows_of i (ingest_item sql texts lib max_pending user_id project_id j k now t).0
  unfolding ingest_item
  item-grows i j k t = by_worth (worth sql texts lib max_pending j) refl
    where
      by_worth :
          (o : Option (List Message))
          → worth sql texts lib max_pending j ≡ o
          → rows_of i t
            ≤ rows_of i (ingest_item sql texts lib max_pending user_id project_id j k now t).0
      by_worth none e = ground (arith, e)
      by_worth (some ms) e = ground (
        arith,
        e,
        store-grows i (item_row sql texts lib max_pending user_id project_id j ms k now) t,
      )

  -- An item that is worth queueing has a row.
  abbrev Settled : T → BatchItem → Type 0
  Settled t i = is_some (worth sql texts lib max_pending i) ≡ true → 1 ≤ rows_of i t

  abbrev IsShort : BatchItem → Type 0
  IsShort i =
      texts.cut 200 (texts.strip (or_empty i.session_id)) ≡ texts.strip (or_empty i.session_id)

  own_row :
      (i : BatchItem) (ms : List Message) (k : String)
      → IsShort i
      → count_if
          (is_row_of user_id project_id (texts.strip (or_empty i.session_id)))
          (item_row sql texts lib max_pending user_id project_id i ms k now ∷ [])
        ≡ 1
  own_row i ms k h =
      let own : (texts.cut 200 (texts.strip (or_empty i.session_id))
            == texts.strip (or_empty i.session_id))
          ≡ true =
        ap (λ x. x == texts.strip (or_empty i.session_id)) h
        ∙ eq_refl (texts.strip (or_empty i.session_id)) in
      ground (arith, eq_refl user_id, eq_refl project_id, own)

  item-Settled :
      (i : BatchItem) (k : String) (t : T)
      → IsShort i
      → Settled (ingest_item sql texts lib max_pending user_id project_id i k now t).0 i
  unfolding ingest_item
  item-Settled i k t h w = by_worth (worth sql texts lib max_pending i) refl
    where
      by_worth :
          (o : Option (List Message))
          → worth sql texts lib max_pending i ≡ o
          → 1 ≤ rows_of i (ingest_item sql texts lib max_pending user_id project_id i k now t).0
      by_worth none e = absurd (ground (arith, ap is_some e, w))
      by_worth (some ms) e = ground (
        arith,
        e,
        is_nil-select (is_row_of user_id project_id (texts.strip (or_empty i.session_id))) t,
        own_row i ms k h,
        store-grows i (item_row sql texts lib max_pending user_id project_id i ms k now) t,
      )

  items-grow :
      (i : BatchItem) (items : List (BatchItem × String)) (t : T)
      → rows_of i t
        ≤ rows_of i (ingest_items sql texts lib max_pending user_id project_id items now t).0
  unfolding ingest_items
  items-grow i [] t = omega arith
  items-grow i ((j, k) ∷ items) t =
      let t' = (ingest_item sql texts lib max_pending user_id project_id j k now t).0 in
      omega (arith, item-grows i j k t, items-grow i items t')

  items-Settled :
      (items : List (BatchItem × String)) (t : T)
      → All (λ x. IsShort x.0) items
      → All
          (λ x.
            Settled (ingest_items sql texts lib max_pending user_id project_id items now t).0 x.0)
          items
  unfolding ingest_items
  items-Settled [] t h = tt
  items-Settled ((i, k) ∷ items) t h =
      let t' = (ingest_item sql texts lib max_pending user_id project_id i k now t).0 in
      (
        λ w. omega (arith, item-Settled i k t h.0 w, items-grow i items t'),
        items-Settled items t' h.1,
      )

  item-idle :
      (i : BatchItem) (k : String) (t : T)
      → Settled t i
      → ingest_item sql texts lib max_pending user_id project_id i k now t ≡ (t, false)
  unfolding ingest_item
  item-idle i k t h = by_worth (worth sql texts lib max_pending i) refl
    where
      by_worth :
          (o : Option (List Message))
          → worth sql texts lib max_pending i ≡ o
          → ingest_item sql texts lib max_pending user_id project_id i k now t ≡ (t, false)
      by_worth none e = ground (arith, e)
      by_worth (some ms) e = ground (
        arith,
        h (ap is_some e),
        is_nil-select (is_row_of user_id project_id (texts.strip (or_empty i.session_id))) t,
      )

-- The same items, with other ids for their rows.
abbrev pub renamed : (String → String) → List (BatchItem × String) → List (BatchItem × String)
renamed f [] = []
renamed f ((i, k) ∷ items) = (i, f k) ∷ renamed f items

take-renamed :
    (f : String → String) (n : ℕ) (items : List (BatchItem × String))
    → take n (renamed f items) ≡ renamed f (take n items)
take-renamed f zero items = refl
take-renamed f (suc n) [] = refl
take-renamed f (suc n) ((i, k) ∷ items) = ap (◌∷◌ (i, f k)) (take-renamed f n items)

All-take : {A : Type 0} (P : A → Type 0) (n : ℕ) (xs : List A) → All P xs → All P (take n xs)
All-take {A} P zero xs h = tt
All-take {A} P (suc n) [] h = tt
All-take {A} P (suc n) (x ∷ xs) h = (h.0, All-take P n xs h.1)

module _ {T : Type 0} (sql : Sql T RawSession) (laws : IsSql sql) (texts : IngestTexts)
    (lib : Library) (max_pending : ℕ) (user_id project_id : String) where
  -- No session id of the batch is cut when it is stored.
  abbrev pub AreShort : List (BatchItem × String) → Type 0
  AreShort items =
      All
        (λ x.
          texts.cut 200 (texts.strip (or_empty x.0.session_id))
          ≡ texts.strip (or_empty x.0.session_id))
        items

  items-idle :
      (f : String → String) (items : List (BatchItem × String)) (now now' : ℕ) (t : T)
      → All (λ x. Settled sql laws texts lib max_pending user_id project_id now t x.0) items
      → ingest_items sql texts lib max_pending user_id project_id (renamed f items) now' t
        ≡ (t, (0, length items))
  unfolding ingest_items
  items-idle f [] now now' t h = refl
  items-idle f ((i, k) ∷ items) now now' t h =
      let idle = item-idle sql laws texts lib max_pending user_id project_id now' i (f k) t h.0 in
      rw idle (ground (arith, items-idle f items now now' t h.1))

  -- Sending a batch again queues nothing and changes nothing, whenever it is sent, where no session
  -- id is longer than the 200 characters that are stored: every session of it is skipped.
  pub sessions_ingest-again :
      (f : String → String) (items : List (BatchItem × String)) (now now' : ℕ) (t : T)
      → AreShort items
      → sessions_ingest sql texts lib max_pending user_id project_id
          (renamed f items)
          now'
          (sessions_ingest sql texts lib max_pending user_id project_id items now t).0
        ≡ (
          (sessions_ingest sql texts lib max_pending user_id project_id items now t).0,
          (0, length (take 50 items)),
        )
  unfolding sessions_ingest
  sessions_ingest-again f items now now' t h =
      ap
        (λ x.
          ingest_items sql texts lib max_pending user_id project_id x now'
            (ingest_items sql texts lib max_pending user_id project_id (take 50 items) now t).0)
        (take-renamed f 50 items)
      ∙ items-idle f (take 50 items) now now'
          (ingest_items sql texts lib max_pending user_id project_id (take 50 items) now t).0
          (items-Settled sql laws texts lib max_pending user_id project_id now (take 50 items) t (
            All-take
              (λ x.
                texts.cut 200 (texts.strip (or_empty x.0.session_id))
                ≡ texts.strip (or_empty x.0.session_id))
              50 items h))

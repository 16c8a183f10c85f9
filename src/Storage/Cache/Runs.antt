-- ===== src/Storage/Cache/Runs.antt =====
-- The cache over any sequence of calls.
use oc_piloci.Prelude.{
  ℕ, ◌≤◌, ◌<◌, ◌≡◌, refl, String, Option, none, List, [], ◌∷◌, arith, length, lookup, Result, ok,
  err, ◌>>=◌, Returns, Returns-bind, ap₂, ◌∙◌,
}
use oc_piloci.Storage.Cache.{EmbeddingCache, Fault, init, get, set, clear, size}
use oc_piloci.Storage.Cache.Recency.{Refines, touch, write, init-Refines, get-Refines, set-Refines}

pub data Call (V : Type 0) : Type 0 where
  gets : String → Call V
  sets : String → V → Call V
  clears : Call V

module _ {V : Type 0} where
  -- One call; only `get` has a reply.
  step : EmbeddingCache V → Call V → Result Fault (Option V × EmbeddingCache V)
  step c (gets k) = get c k
  step c (sets k v) = do c' ← set c k v; ok (none, c')
  step c clears = ok (none, clear c)

  pub run : EmbeddingCache V → List (Call V) → Result Fault (List (Option V) × EmbeddingCache V)
  run c [] = ok ([], c)
  run c (o ∷ os) = do r ← step c o; rest ← run r.1 os; ok (r.0 ∷ rest.0, rest.1)

  -- The same on the list of entries, least recently used first.
  abbrev spec_step : ℕ → List (String × V) → Call V → Option V × List (String × V)
  spec_step n l (gets k) = (lookup k l, touch k l)
  spec_step n l (sets k v) = (none, write n k v l)
  spec_step n l clears = (none, [])

  abbrev pub spec_run : ℕ → List (String × V) → List (Call V) → List (Option V) × List (String × V)
  spec_run n l [] = ([], l)
  spec_run n l (o ∷ os) =
      let r = spec_step n l o in let rest = spec_run n r.1 os in (r.0 ∷ rest.0, rest.1)

  clear-Refines :
      (c : EmbeddingCache V) (l : List (String × V)) → Refines c l → Refines (clear c) []
  unfolding clear
  clear-Refines c l r = record {
    room = r.room;
    order = refl;
    values = λ k. unfold lookup in refl;
    distinct = tt;
    dict = tt;
    count = refl;
    bounded = omega arith;
  }

  -- What a call must return, for a cache that stands for `l`.
  abbrev Matches :
      EmbeddingCache V → Option V × List (String × V) → Option V × EmbeddingCache V → Type 0
  Matches c want r = (r.0 ≡ want.0) × (r.1.maxsize ≡ c.maxsize) × Refines r.1 want.1

  step-Refines :
      (c : EmbeddingCache V) (l : List (String × V)) (o : Call V)
      → Refines c l
      → Returns (Matches c (spec_step c.maxsize l o)) (step c o)
  unfolding step
  step-Refines c l (gets k) r = get-Refines c l k r
  step-Refines c l (sets k v) r = from_set (set c k v) (set-Refines c l k v r)
    where
      from_set :
          (m : Result Fault (EmbeddingCache V))
          → Returns (λ c'. (c'.maxsize ≡ c.maxsize) × Refines c' (write c.maxsize k v l)) m
          → Returns (Matches c (none, write c.maxsize k v l)) (m >>= λ c'. ok (none, c'))
      from_set (ok c') h = (refl, h.0, h.1)
      from_set (err e) h = h
  step-Refines c l clears r = (refl, unfold clear in refl, clear-Refines c l r)

  run_after :
      (n : ℕ) (c : EmbeddingCache V) (l : List (String × V)) (os : List (Call V))
      → Refines c l
      → c.maxsize ≡ n
      → Returns
          (λ r. (r.0 ≡ (spec_run n l os).0) × Refines r.1 (spec_run n l os).1 × (r.1.maxsize ≡ n))
          (run c os)
  unfolding run
  run_after n c l [] r e = (refl, r, e)
  run_after n c l (o ∷ os) r e =
      Returns-bind (Matches c (spec_step c.maxsize l o)) _ (step c o) _ (step-Refines c l o r)
        λ a h.
          Returns-bind _ _ (run a.1 os) _
            (run_after n a.1 (spec_step n l o).1 os (rw e at h.2) (h.1 ∙ e))
            λ b k. (ap₂ ◌∷◌ (rw e at h.0) k.0, k.1, k.2)

  -- From an empty cache with room for at least one entry, any sequence of `get`, `set` and `clear`
  -- runs without an exception, returns what the specification returns, and ends in a cache that
  -- stands for the specification's list and has the same bound.
  pub run-Refines :
      (n : ℕ) (os : List (Call V))
      → 0 < n
      → Returns
          (λ r. (r.0 ≡ (spec_run n [] os).0) × Refines r.1 (spec_run n [] os).1 × (r.1.maxsize ≡ n))
          (run (init n) os)
  run-Refines n os h = run_after n (init n) [] os (init-Refines n h) (unfold init in refl)

  -- After any such sequence the dict holds at most `n` entries.
  pub size-run :
      (n : ℕ) (os : List (Call V)) → 0 < n → Returns (λ r. size r.1 ≤ n) (run (init n) os)
  unfolding size
  size-run n os h = weaken (run (init n) os) (run-Refines n os h)
    where
      weaken :
          (m : Result Fault (List (Option V) × EmbeddingCache V))
          → Returns
              (λ r.
                (r.0 ≡ (spec_run n [] os).0) × Refines r.1 (spec_run n [] os).1 × (r.1.maxsize ≡ n))
              m
          → Returns (λ r. length r.1.cache ≤ n) m
      weaken (ok r) k = omega (arith, k.1.count, k.1.bounded, k.2)
      weaken (err e) k = k

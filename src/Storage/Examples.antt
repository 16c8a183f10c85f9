-- ===== src/Storage/Examples.antt =====
-- Runs of the cache.
use oc_piloci.Prelude.{ℕ, ◌≡◌, List, [], ◌∷◌, arith, Returns}
use oc_piloci.Storage.Cache.{init}
use oc_piloci.Storage.Cache.Recency.{Refines}
use oc_piloci.Storage.Cache.Runs.{Call, gets, sets, run, spec_run, run-Refines}

-- The third entry drops the second, as the first was read in between.
abbrev calls : List (Call ℕ)
calls = sets "a" 1 ∷ sets "b" 2 ∷ gets "a" ∷ sets "c" 3 ∷ gets "b" ∷ []

run-Refines_example :
    Returns
      (λ r.
        (r.0 ≡ (spec_run 2 [] calls).0) × Refines r.1 (spec_run 2 [] calls).1 × (r.1.maxsize ≡ 2))
      (run (init 2) calls)
run-Refines_example = run-Refines 2 calls (omega arith)

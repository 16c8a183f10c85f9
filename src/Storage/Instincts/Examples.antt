-- ===== src/Storage/Instincts/Examples.antt =====
-- A run of the instinct store: an instinct is seen, contradicted, and seen again.
use oc_piloci.Prelude.{
  ℕ, ◌*◌, ◌≤◌, ◌≡◌, refl, none, List, [], ◌∷◌, map, take, true, All, ok, thousandths, arith,
}
use oc_piloci.Storage.Lance.{Lance, Engine}
use oc_piloci.Storage.Lance.Table.{table, table-IsLance, scan, scan-IsEngine}
use oc_piloci.Storage.Memories.Records.{is_safe_id, codes}
use oc_piloci.Storage.Instincts.Confidence.{promote_confidence}
use oc_piloci.Storage.Instincts.{Instinct, list_instincts, with_skills, get_recommendations}
use oc_piloci.Storage.Instincts.Bounds.{IsSound}
use oc_piloci.Storage.Instincts.Promotion.{Call, observes, contradicts, run, IsValid, run-IsValid}
use oc_piloci.Storage.Instincts.Recommended.{get_recommendations-list}

abbrev store : Lance (List (Instinct ℕ)) (Instinct ℕ)
store = table (λ r. r.instinct_id)

abbrev engine : Engine (List (Instinct ℕ)) (Instinct ℕ) ℕ ℕ
engine = scan (λ r. r.instinct_id) (λ v r. 0) (λ s r. true)

keyed : (r : Instinct ℕ) → store.key r ≡ r.instinct_id
keyed r = refl

abbrev calls : List (Call ℕ × ℕ)
calls =
    (observes "ann" "web" "a test fails" "read it first" "testing" "seen" 7 "i1", 5)
    ∷ (contradicts "ann" "web" "i1", 6)
    ∷ (observes "ann" "web" "a test fails" "read it first" "testing" "" 7 "i2", 7)
    ∷ []

run-IsValid_example :
    IsValid store engine thousandths
      (table-IsLance (λ r. r.instinct_id))
      (scan-IsEngine (λ r. r.instinct_id) (λ v r. 0) (λ s r. true))
      (run store engine thousandths calls [])
run-IsValid_example =
    run-IsValid store engine thousandths (table-IsLance (λ r. r.instinct_id))
      (scan-IsEngine (λ r. r.instinct_id) (λ v r. 0) (λ s r. true)) keyed calls []
      (tt, λ k. omega arith)

abbrev trusted : Instinct ℕ
trusted = record {
  instinct_id = "i1";
  user_id = "ann";
  project_id = "web";
  trigger = "a test fails";
  action = "read it first";
  domain = "testing";
  confidence = promote_confidence;
  instinct_count = 4;
  evidence = [];
  created_at = 1;
  updated_at = 9;
  vector = 7;
}

trusted-IsSound : IsSound trusted
trusted-IsSound = record {
  least = omega arith;
  most = omega arith;
  seen = omega arith;
  earned = omega arith;
  noted = omega arith;
}

ann_safe : is_safe_id (codes "ann") ≡ true
unfolding is_safe_id
ann_safe = refl

web_safe : is_safe_id (codes "web") ≡ true
unfolding is_safe_id
web_safe = refl

get_recommendations-list_example :
    (listed : List (Instinct ℕ)) × (list_instincts store "ann" "web" none promote_confidence
        (2 * 3)
        (trusted ∷ [])
      ≡ ok listed)
    × (get_recommendations store "ann" "web" 2 (trusted ∷ [])
        ≡ ok (map (with_skills store) (take 2 listed)))
    × All (λ (r : Instinct ℕ). 4 ≤ r.instinct_count) listed
get_recommendations-list_example =
    get_recommendations-list store (table-IsLance (λ r. r.instinct_id)) "ann" "web" 2 (trusted ∷ [])
      (trusted-IsSound, tt) ann_safe web_safe

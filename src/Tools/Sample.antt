-- ===== src/Tools/Sample.antt =====
-- A store of memories with one row, for the runs of the store and of the tools.
use oc_piloci.Prelude.{ℕ, ◌+◌, ◌≡◌, refl, some, List, [], ◌∷◌, true, String, ltb, ◌*◌, ◌-◌, ◌/◌}
use oc_piloci.Storage.Lance.{Lance, Engine}
use oc_piloci.Storage.Lance.Table.{table, scan}
use oc_piloci.Storage.Memories.Records.{Row, MemoryWrite, is_safe_id, codes}
use oc_piloci.Storage.Memories.Search.{Arithmetic}

abbrev pub store : Lance (List (Row ℕ)) (Row ℕ)
store = table (λ r. r.memory_id)

pub keyed : (r : Row ℕ) → store.key r ≡ r.memory_id
keyed r = refl

-- Every text is found, and at no distance.
abbrev pub engine : Engine (List (Row ℕ)) (Row ℕ) ℕ ℕ
engine = scan (λ r. r.memory_id) (λ v r. 0) (λ s r. true)

-- Thousandths for floats.
abbrev pub floats : Arithmetic ℕ
floats = record {
  num = λ n. n * 1000;
  milli = λ n. n;
  neg = λ n. n;
  exp = λ n. 1000;
  log = λ n. 693;
  plus = λ a b. a + b;
  minus = λ a b. a - b;
  times = λ a b. a * b / 1000;
  over = λ a b. a * 1000 / b;
  lt = ltb;
}

abbrev pub note : Row ℕ
note = record {
  memory_id = "m1";
  user_id = "ann";
  project_id = "web";
  scope = "personal";
  team_id = some "__personal__";
  content = "use tabs";
  tags = "style" ∷ [];
  metadata = "";
  created_at = 5;
  updated_at = 5;
  vector = 7;
}

abbrev pub first : MemoryWrite ℕ String
first = record {
  content = "use spaces";
  vector = 3;
  tags = [];
  metadata = ("source", "manual") ∷ [];
}

pub bob_safe : is_safe_id (codes "bob") ≡ true
unfolding is_safe_id
bob_safe = refl

pub web_safe : is_safe_id (codes "web") ≡ true
unfolding is_safe_id
web_safe = refl

pub m1_safe : is_safe_id (codes "m1") ≡ true
unfolding is_safe_id
m1_safe = refl

pub m2_safe : is_safe_id (codes "m2") ≡ true
unfolding is_safe_id
m2_safe = refl

pub ann_safe : is_safe_id (codes "ann") ≡ true
unfolding is_safe_id
ann_safe = refl

pub crew_safe : is_safe_id (codes "crew") ≡ true
unfolding is_safe_id
crew_safe = refl

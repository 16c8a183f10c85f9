-- ===== src/Storage/Instincts.antt =====
-- storage/instincts_store.py: the table of instincts. A confidence is counted
-- in units of 2^-56, as Confidence says; the evidence is a list of notes. The id of a new row and the time come in.
pub mod Confidence
pub mod Bounds
pub mod Promotion
pub mod Recommended
mod Examples
use oc_piloci.Prelude.{
  ℕ, ◌+◌, ◌-◌, ◌*◌, ◌≤◌, max, min, ltb, leb, Option, none, some, List, [], ◌∷◌, ◌++◌, map, Bool,
  true, false, not, ◌&&◌, String, ◌==◌, if◌then◌else◌, is_nil, length, keep, take, contains, ◌||◌,
  Floats, Result, ok, ◌>>=◌,
}
use oc_piloci.Storage.Instincts.Confidence.{
  confidence_init, confidence_boost, confidence_decay, confidence_max, confidence_min,
  promote_confidence, float32, float64,
}
use oc_piloci.Storage.Lance.{Lance, Engine}
use oc_piloci.Storage.Memories.Records.{StoreError, safe_id}

pub record Instinct (V : Type 0) : Type 0 where
  pub instinct_id : String
  pub user_id : String
  pub project_id : String
  pub trigger : String
  pub action : String
  pub domain : String
  pub confidence : ℕ
  pub instinct_count : ℕ
  pub evidence : List String
  pub created_at : ℕ
  pub updated_at : ℕ
  pub vector : V

-- `DOMAINS`
abbrev pub domains : List String
domains =
    "code-style" ∷ "testing" ∷ "git" ∷ "debugging" ∷ "workflow" ∷ "architecture" ∷ "performance"
    ∷ "security" ∷ "api" ∷ "frontend" ∷ "reaction" ∷ "other" ∷ []

abbrev pub belongs : {V : Type 0} → String → String → Instinct V → Bool
belongs user_id project_id r = (r.user_id == user_id) && (r.project_id == project_id)

-- `_filter`
unfoldable pub project_filter :
    {V : Type 0} → String → String → Result StoreError (Instinct V → Bool)
project_filter user_id project_id = do
  uid ← safe_id user_id
  pid ← safe_id project_id
  ok (belongs uid pid)

unfoldable pub instinct_filter :
    {V : Type 0} → String → String → String → Result StoreError (Instinct V → Bool)
unfolding project_filter
instinct_filter user_id project_id instinct_id = do
  where_ ← project_filter user_id project_id
  iid ← safe_id instinct_id
  ok (λ r. where_ r && (r.instinct_id == iid))

-- The instinct seen once more.
abbrev pub boosted : {V : Type 0} → String → ℕ → Instinct V → Instinct V
boosted note now r = record r {
  confidence = min confidence_max (float64 (r.confidence + confidence_boost));
  instinct_count = r.instinct_count + 1;
  evidence =
      if not (note == "") && ltb (length r.evidence) 10
      then r.evidence ++ note ∷ []
      else r.evidence;
  updated_at = now;
}

abbrev pub decayed : {V : Type 0} → ℕ → Instinct V → Instinct V
decayed now r = record r {
  confidence = max confidence_min (float64 (r.confidence - confidence_decay));
  updated_at = now;
}

-- A row as the table keeps it.
abbrev pub as_stored : {V : Type 0} → Instinct V → Instinct V
as_stored r = record r { confidence = float32 r.confidence }

module _ {T V : Type 0} (lance : Lance T (Instinct V)) where
  abbrev pub fresh :
      String → String → String → String → String → String → String → V → ℕ → Instinct V
  fresh instinct_id user_id project_id trigger action domain note vector now = record {
    instinct_id = instinct_id;
    user_id = user_id;
    project_id = project_id;
    trigger = trigger;
    action = action;
    domain = if contains domain domains then domain else "other";
    confidence = confidence_init;
    instinct_count = 1;
    evidence = if note == "" then [] else note ∷ [];
    created_at = now;
    updated_at = now;
    vector = vector;
  }

  -- The columns that an observation sets, from the row that the search found.
  abbrev pub set_observed : Instinct V → Instinct V → Instinct V
  set_observed seen r = record r {
    confidence = float32 seen.confidence;
    instinct_count = seen.instinct_count;
    evidence = seen.evidence;
    updated_at = seen.updated_at;
  }

  -- The nearest instinct is seen again if it is near enough, or else the new row comes in.
  abbrev pub observe_nearest :
      {F : Type 0}
      → Floats F
      → (Instinct V → Bool)
      → Instinct V
      → String
      → ℕ
      → List (Instinct V × F)
      → T
      → T × Instinct V
  observe_nearest fl where_ new note now [] t = (lance.merge_insert (as_stored new ∷ []) t, new)
  observe_nearest fl where_ new note now ((r, distance) ∷ more) t =
      if fl.ge (fl.minus (fl.milli 1000) distance) (fl.milli 850)
      then (
        (lance.update (λ x. where_ x && (x.instinct_id == r.instinct_id))
            (set_observed (boosted note now r)) t).0,
        boosted note now r,
      )
      else (lance.merge_insert (as_stored new ∷ []) t, new)

  module _ {F : Type 0} (engine : Engine T (Instinct V) V F) (fl : Floats F) where
    unfoldable pub observe :
        String
        → String
        → String
        → String
        → String
        → String
        → V
        → String
        → ℕ
        → T
        → Result StoreError (T × Instinct V)
    unfolding project_filter
    observe user_id project_id trigger action domain note vector new_id now t = do
      where_ ← project_filter user_id project_id
      ok (
          observe_nearest fl where_
            (fresh new_id user_id project_id trigger action domain note vector now) note now
            (engine.vector_search vector where_ 1 t) t)

  abbrev pub contradict_found : (Instinct V → Bool) → ℕ → List (Instinct V) → T → T × Bool
  contradict_found where_ now [] t = (t, false)
  contradict_found where_ now (r ∷ rest) t = (
    (lance.update where_
        (λ x. record x { confidence = float32 (decayed now r).confidence; updated_at = now }) t).0,
    true,
  )

  unfoldable pub contradict : String → String → String → ℕ → T → Result StoreError (T × Bool)
  unfolding instinct_filter project_filter
  contradict user_id project_id instinct_id now t = do
    where_ ← instinct_filter user_id project_id instinct_id
    ok (contradict_found where_ now (lance.query where_ 1 0 t) t)

  -- `results.sort(key=confidence * count, reverse=True)`, which is stable.
  abbrev pub weight : Instinct V → ℕ
  weight r = r.confidence * r.instinct_count

  unfoldable pub place : Instinct V → List (Instinct V) → List (Instinct V)
  place r [] = r ∷ []
  place r (x ∷ xs) = if ltb (weight r) (weight x) then x ∷ place r xs else r ∷ x ∷ xs

  unfoldable pub sort : List (Instinct V) → List (Instinct V)
  unfolding place
  sort [] = []
  sort (r ∷ rs) = place r (sort rs)

  abbrev pub is_listed : Option String → ℕ → Instinct V → Bool
  is_listed domain min_confidence r =
      (elim domain [ none ↦ true | some d ↦ (d == "") || (r.domain == d) ])
      && leb min_confidence r.confidence

  unfoldable pub list_instincts :
      String → String → Option String → ℕ → ℕ → T → Result StoreError (List (Instinct V))
  unfolding project_filter sort place
  list_instincts user_id project_id domain min_confidence limit t = do
    where_ ← project_filter user_id project_id
    ok (sort (lance.query (λ r. where_ r && is_listed domain min_confidence r) limit 0 t))

  -- `_PROMOTE_COUNT` and `_PROMOTE_CONFIDENCE`
  abbrev pub is_promoted : Instinct V → Bool
  is_promoted r = leb 3 r.instinct_count && leb promote_confidence r.confidence

  -- `DOMAIN_SKILL_MAP`
  unfoldable pub skills_of : String → List String
  skills_of d =
      if d == "git"
      then "git-workflow" ∷ "github-ops" ∷ []
      else if d == "testing"
      then "tdd-workflow" ∷ "python-testing" ∷ "verification-loop" ∷ []
      else if d == "code-style"
      then "coding-standards" ∷ "python-patterns" ∷ []
      else if d == "debugging"
      then "verification-loop" ∷ "agent-introspection-debugging" ∷ []
      else if d == "architecture"
      then "architecture-decision-records" ∷ "hexagonal-architecture" ∷ []
      else if d == "performance"
      then "python-patterns" ∷ "backend-patterns" ∷ []
      else if d == "security"
      then "security-review" ∷ "security-scan" ∷ []
      else if d == "workflow"
      then "autonomous-loops" ∷ "continuous-agent-loop" ∷ []
      else if d == "api"
      then "api-design" ∷ "api-connector-builder" ∷ []
      else if d == "frontend"
      then "frontend-patterns" ∷ "nextjs-turbopack" ∷ []
      else []

  abbrev pub with_skills : Instinct V → Instinct V × List String
  with_skills r = (r, skills_of r.domain)

  unfoldable pub get_recommendations :
      String → String → ℕ → T → Result StoreError (List (Instinct V × List String))
  unfolding list_instincts skills_of project_filter sort place
  get_recommendations user_id project_id limit t = do
    instincts ← list_instincts user_id project_id none promote_confidence (limit * 3) t
    ok (map with_skills (take limit (keep is_promoted instincts)))

  unfoldable pub delete_instinct : String → String → String → T → Result StoreError (T × Bool)
  unfolding instinct_filter project_filter
  delete_instinct user_id project_id instinct_id t = do
    where_ ← instinct_filter user_id project_id instinct_id
    ok ((lance.delete where_ t).0, ltb 0 (lance.delete where_ t).1)

  unfoldable pub clear_project : String → String → T → Result StoreError (T × ℕ)
  unfolding project_filter
  clear_project user_id project_id t = do
    where_ ← project_filter user_id project_id
    ok (lance.delete where_ t)

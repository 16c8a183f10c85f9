-- ===== src/Auth/Redis/Memory.antt =====
-- A Redis that is a function from keys to values with the time when they end.
use oc_piloci.Prelude.{
  ℕ, ◌+◌, ◌≡◌, refl, Option, none, some, true, false, String, ltb, if◌then◌else◌, ◌==◌, arith,
}
use oc_piloci.Auth.Redis.{Redis, IsRedis}

module _ {V : Type 0} where
  abbrev pub alive : ℕ → Option (V × ℕ) → Option V
  alive now none = none
  alive now (some (v, end)) = if ltb now end then some v else none

  abbrev pub memory : Redis (String → Option (V × ℕ)) V
  memory = record {
    get = λ r now k. alive now (r k);
    set = λ r now k v ttl j. if k == j then some (v, now + ttl) else r j;
    set_nx = λ r now k v ttl. elim (alive now (r k)) [
      | none ↦ (λ j. if k == j then some (v, now + ttl) else r j, true)
      | some w ↦ (r, false)
    ];
    delete = λ r k j. if k == j then none else r j;
  }

  alive_set :
      (r : String → Option (V × ℕ)) (now later : ℕ) (k j : String) (v : V) (ttl : ℕ)
      → alive later (if k == j then some (v, now + ttl) else r j)
        ≡ (if k == j then (if ltb later (now + ttl) then some v else none) else alive later (r j))
  alive_set r now later k j v ttl = ground arith

  alive_delete :
      (r : String → Option (V × ℕ)) (now : ℕ) (k j : String)
      → alive now (if k == j then none else r j) ≡ (if k == j then none else alive now (r j))
  alive_delete r now k j = ground arith

  pub memory-IsRedis : IsRedis memory
  memory-IsRedis = record {
    get-set = λ r now later k j v ttl h. alive_set r now later k j v ttl;
    get-delete = alive_delete;
    set_nx_lem = λ r now k v ttl. refl;
  }

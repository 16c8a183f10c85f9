-- ===== src/Auth/LoginFails/Store.antt =====
-- A Redis that keeps counters: each key has its entry.
use oc_piloci.Prelude.{ℕ, ◌+◌, refl, none, some, String, if◌then◌else◌, ◌==◌}
use oc_piloci.Auth.LoginFails.{Entry, value, end_of, Counters, IsCounters}

abbrev pub Store : Type 0
Store = String → Entry

-- The entry that INCR leaves.
abbrev stepped : ℕ → Entry → Entry
stepped now e = elim (value now e) [ none ↦ some (1, none) | some n ↦ some (n + 1, end_of e) ]

-- The entry that EXPIRE leaves.
abbrev ending : ℕ → ℕ → Entry → Entry
ending now ttl e = elim (value now e) [ none ↦ e | some n ↦ some (n, some (now + ttl)) ]

abbrev pub counters : Counters Store
counters = record {
  entry = λ r k. r k;
  get = λ r now k. value now (r k);
  incr = λ r now k. (
    λ j. if k == j then stepped now (r k) else r j,
    elim (value now (r k)) [ none ↦ 1 | some n ↦ n + 1 ],
  );
  expire = λ r now k ttl j. if k == j then ending now ttl (r k) else r j;
  delete = λ r k j. if k == j then none else r j;
}

pub counters-IsCounters : IsCounters counters
counters-IsCounters = record {
  get_lem = λ r now k. refl;
  incr_result = λ r now k. refl;
  entry-incr = λ r now k j. refl;
  entry-expire = λ r now k j ttl. refl;
  entry-delete = λ r k j. refl;
}

abbrev pub no_failures : Store
no_failures k = none

-- ===== src/Notify/Monitor/Digest.antt =====
-- notify/health.py: `_format_consolidated`, the lines of the message that sums up the quiet hours.
use mathlib.Core.List.{append-nil, append_assoc}
use oc_piloci.Prelude.{
  ℕ, ◌≡◌, refl, sym, ap, ◌∙◌, List, [], ◌∷◌, ◌++◌, Bool, true, false, if◌then◌else◌, arith, map,
  Option, none, some, String, Bool-cases, inl, inr, ◌||◌, ◌==◌, eq_iff, lookup, insert,
  lookup-insert, contains, Distinct, keep, length, ltb, append-Distinct, contains-append, is_some,
  is_nil, not, fun_ext,
}
use oc_piloci.Notify.Alerts.{FiredAlert}

-- One line: the latest message of a kind, with the number of its alerts if there are several.
pub data Line (M : Type 0) : Type 0 where
  repeated : String → ℕ → M → Line M
  once : M → Line M

contains_one : (j k : String) → contains k (j ∷ []) ≡ (j == k)
unfolding contains
contains_one j k = ground arith

module _ {M : Type 0} where
  -- `by_kind.get(kind, [])`
  abbrev items : String → List (String × List (FiredAlert M)) → List (FiredAlert M)
  items kind by_kind = elim (lookup kind by_kind) [ none ↦ [] | some l ↦ l ]

  -- The loop that fills `by_kind` and `order`.
  unfoldable pub group :
      List (String × List (FiredAlert M))
      → List String
      → List (FiredAlert M)
      → List (String × List (FiredAlert M)) × List String
  group by_kind order [] = (by_kind, order)
  group by_kind order (a ∷ queue) =
      group (insert a.kind (items a.kind by_kind ++ a ∷ []) by_kind)
        (if is_some (lookup a.kind by_kind) then order else order ++ a.kind ∷ []) queue

  -- `items[-1].message`
  abbrev latest : List (FiredAlert M) → Option M
  latest [] = none
  latest (a ∷ as') = elim (latest as') [ none ↦ some a.message | some m ↦ some m ]

  -- The line of a kind; a kind of the list `order` has at least one alert.
  abbrev pub line : String → List (FiredAlert M) → Option (Line M)
  line kind alerts = elim (latest alerts) [
    | none ↦ none
    | some m ↦
        if ltb 1 (length alerts) then some (repeated kind (length alerts) m) else some (once m)
  ]

  -- The number of alerts, and the lines.
  pub format_consolidated : List (FiredAlert M) → ℕ × List (Option (Line M))
  format_consolidated queue =
      let r = group [] [] queue in (length queue, map (λ kind. line kind (items kind r.0)) r.1)

  abbrev pub of_kind : String → List (FiredAlert M) → List (FiredAlert M)
  of_kind k = keep (λ a. a.kind == k)

  items-insert :
      (m : List (String × List (FiredAlert M))) (a : FiredAlert M) (k : String)
      → items k (insert a.kind (items a.kind m ++ a ∷ []) m)
        ≡ items k m ++ (if a.kind == k then a ∷ [] else [])
  items-insert m a k = elim (Bool-cases (a.kind == k)) [
    | inl e ↦ ground (arith, lookup-insert a.kind k (items a.kind m ++ a ∷ []) m, eq_iff a.kind k)
    | inr e ↦
        ground (arith, lookup-insert a.kind k (items a.kind m ++ a ∷ []) m, append-nil (items k m))
  ]

  of_kind-cons :
      (a : FiredAlert M) (q : List (FiredAlert M)) (k : String)
      → of_kind k (a ∷ q) ≡ (if a.kind == k then a ∷ [] else []) ++ of_kind k q
  of_kind-cons a q k = ground arith

  items-group :
      (m : List (String × List (FiredAlert M))) (o : List String) (q : List (FiredAlert M))
      (k : String)
      → items k (group m o q).0 ≡ items k m ++ of_kind k q
  unfolding group
  items-group m o [] k = sym (append-nil (items k m))
  items-group m o (a ∷ q) k =
      items-group (insert a.kind (items a.kind m ++ a ∷ []) m)
        (if is_some (lookup a.kind m) then o else o ++ a.kind ∷ []) q k
      ∙ ap (λ (l : List (FiredAlert M)). l ++ of_kind k q) (items-insert m a k)
      ∙ append_assoc (items k m) _ (of_kind k q)
      ∙ ap (◌++◌ (items k m)) (sym (of_kind-cons a q k))

  abbrev grown :
      List (String × List (FiredAlert M)) → FiredAlert M → List (String × List (FiredAlert M))
  grown m a = insert a.kind (items a.kind m ++ a ∷ []) m

  looks :
      (m : List (String × List (FiredAlert M))) (a : FiredAlert M) (k : String)
      → is_some (lookup k (grown m a)) ≡ (if a.kind == k then true else is_some (lookup k m))
  looks m a k = ground (arith, lookup-insert a.kind k (items a.kind m ++ a ∷ []) m)

  group-cons :
      (m : List (String × List (FiredAlert M))) (o : List String) (a : FiredAlert M)
      (q : List (FiredAlert M)) (known : Bool)
      → is_some (lookup a.kind m) ≡ known
      → group m o (a ∷ q) ≡ group (grown m a) (if known then o else o ++ a.kind ∷ []) q
  unfolding group
  group-cons m o a q known e = rw (← e)

  -- The list `order` holds the keys of `by_kind`, each once.
  group_kinds :
      (m : List (String × List (FiredAlert M))) (o : List String) (q : List (FiredAlert M))
      → Distinct o
      → ((k : String) → contains k o ≡ is_some (lookup k m))
      → (Distinct (group m o q).1)
        × ((k : String) → contains k (group m o q).1 ≡ (contains k o || not (is_nil (of_kind k q))))
  group_kinds m o [] d h = unfold group in (d, λ k. ground arith)
  group_kinds m o (a ∷ q) d h = elim (Bool-cases (contains a.kind o)) [
    | inl old ↦
        let g =
          group_kinds (grown m a) o q d (λ k. ground (arith, h k, looks m a k, eq_iff a.kind k)) in
        rw (group-cons m o a q true (sym (h a.kind) ∙ old))
          (g.0, λ k. g.1 k ∙ ground (arith, eq_iff a.kind k))
    | inr new ↦
        let g = group_kinds (grown m a) (o ++ a.kind ∷ []) q (append-Distinct a.kind o d new) (λ k.
          contains-append k o (a.kind ∷ [])
          ∙ ground (arith, h k, looks m a k, contains_one a.kind k)) in
        rw (group-cons m o a q false (sym (h a.kind) ∙ new)) (
          g.0,
          λ k. g.1 k ∙ ground (arith, contains-append k o (a.kind ∷ []), contains_one a.kind k),
        )
  ]

  -- Each kind of the queue has one line, in the order of its first alert, made from exactly its
  -- alerts in their order.
  pub format_consolidated_lem :
      (queue : List (FiredAlert M))
      → let kinds = (group [] [] queue).1 in
        (Distinct kinds)
        × ((k : String) → contains k kinds ≡ not (is_nil (of_kind k queue)))
        × ((format_consolidated queue).1 ≡ map (λ k. line k (of_kind k queue)) kinds)
  unfolding format_consolidated contains lookup
  format_consolidated_lem queue =
      let g = group_kinds [] [] queue tt (λ k. refl) in
      (
        g.0,
        λ k. g.1 k,
        ap (λ (f : String → Option (Line M)). map f (group [] [] queue).1)
            (fun_ext (λ k. ap (line k) (items-group [] [] queue k))),
      )

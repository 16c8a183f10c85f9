-- ===== src/Db/Finding.antt =====
-- The one row that a test finds.
use oc_piloci.Prelude.{
  ◌≡◌, refl, sym, ◌∙◌, ap, List, [], ◌∷◌, map, Bool, if◌then◌else◌, String, ◌==◌, keep, arith,
  eq_refl,
}
use oc_piloci.Db.{Sql, IsSql, found, nothing, one}

pub found-one : {Row : Type 0} (xs : List Row) (r : Row) → found xs ≡ one r → xs ≡ r ∷ []
found-one {Row} [] r e = absurd (cc e)
found-one {Row} (x ∷ []) r e = let q : x ≡ r = cc e in ap (λ (y : Row). y ∷ []) q
found-one {Row} (x ∷ y ∷ xs) r e = absurd (cc e)

pub found-nothing : {Row : Type 0} (xs : List Row) → found xs ≡ nothing → xs ≡ []
found-nothing {Row} [] e = refl
found-nothing {Row} (x ∷ []) e = absurd (cc e)
found-nothing {Row} (x ∷ y ∷ xs) e = absurd (cc e)

-- An update that a test does not see.
pub keep-update :
    {Row : Type 0} (p q : Row → Bool) (f : Row → Row) (xs : List Row)
    → ((r : Row) → p (f r) ≡ p r)
    → keep p (map (λ r. if q r then f r else r) xs) ≡ map (λ r. if q r then f r else r) (keep p xs)
keep-update {Row} p q f [] h = refl
keep-update {Row} p q f (x ∷ xs) h = ground (arith, h x, keep-update p q f xs h)

module _ {T Row : Type 0} (sql : Sql T Row) (laws : IsSql sql) (key : Row → String) where
  -- The row that a test finds, once it is updated.
  pub one-update :
      (p : Row → Bool) (r : Row) (f : Row → Row) (t : T)
      → ((x : Row) → p (f x) ≡ p x)
      → sql.one_or_none p t ≡ one r
      → sql.one_or_none p (sql.update (λ x. key x == key r) f t) ≡ one (f r)
  one-update p r f t h e =
      laws.one_or_none_lem p (sql.update (λ x. key x == key r) f t)
      ∙ ap (λ rows. found (keep p rows)) (laws.rows-update (λ x. key x == key r) f t)
      ∙ ap found (keep-update p (λ x. key x == key r) f (sql.rows t) h)
      ∙ ap (λ rows. found (map (λ x. if key x == key r then f x else x) rows))
          (found-one (keep p (sql.rows t)) r (sym (laws.one_or_none_lem p t) ∙ e))
      ∙ rw (eq_refl (key r)) refl

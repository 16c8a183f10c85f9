-- ===== src/Text.antt =====
-- The `str` methods and the `int` that the code calls, on lists of code points. `int` reads the
-- ASCII digits only.
use oc_piloci.Prelude.{
  ℕ, ◌+◌, ◌-◌, ◌*◌, ◌<◌, ◌≡◌, ◌⊎◌, Option, none, some, List, [], ◌∷◌, Bool, true, false, ◌&&◌, ◌||◌,
  arith, leb, ◌=?◌, if◌then◌else◌,
}
use mathlib.Core.List.{reverse}

infixl 5 ◌>>=◌
abbrev pub ◌>>=◌ {ℓ κ} : {A : Type ℓ} {B : Type κ} → Option A → (A → Option B) → Option B
none >>= f = none
some a >>= f = f a

-- `str.isspace`, for the characters that `strip` and `int` take off.
unfoldable pub is_space : ℕ → Bool
is_space c =
    (leb 9 c && leb c 13)
    || (leb 28 c && leb c 32)
    || (c =? 0x85)
    || (c =? 0xa0)
    || (c =? 0x1680)
    || (leb 0x2000 c && leb c 0x200a)
    || (c =? 0x2028)
    || (c =? 0x2029)
    || (c =? 0x202f)
    || (c =? 0x205f)
    || (c =? 0x3000)

unfoldable pub lstrip : List ℕ → List ℕ
lstrip [] = []
lstrip (c ∷ s) = if is_space c then lstrip s else c ∷ s

unfoldable pub strip : List ℕ → List ℕ
unfolding lstrip is_space
strip s = reverse (lstrip (reverse (lstrip s)))

-- `a, b = s.split(sep, 1)`, which raises without a separator.
unfoldable pub split_once : ℕ → List ℕ → Option (List ℕ × List ℕ)
split_once sep [] = none
split_once sep (c ∷ s) =
    let rest = split_once sep s in
    if c =? sep then some ([], s) else (do r ← rest; some (c ∷ r.0, r.1))

unfoldable pub is_digit : ℕ → Bool
is_digit c = leb b'0' c && leb c b'9'

-- The digits of an `int`, with single underscores between them.
unfoldable pub digits : ℕ → Bool → List ℕ → Option ℕ
digits acc after_digit [] = if after_digit then some acc else none
digits acc after_digit (c ∷ s) =
    let rest = digits (if is_digit c then acc * 10 + (c - b'0') else acc) (is_digit c) s in
    if is_digit c || ((c =? b'_') && after_digit) then rest else none

-- `int(s)`: whether it is negative, and its size.
unfoldable pub int_of : List ℕ → Option (Bool × ℕ)
int_of [] = none
int_of (c ∷ s) =
    if c =? b'-'
    then (do n ← digits 0 false s; some (true, n))
    else if c =? b'+'
    then (do n ← digits 0 false s; some (false, n))
    else (do n ← digits 0 false (c ∷ s); some (false, n))

-- What a decimal digit is not.
digit_facts : (a : ℕ) → a < 10 → (is_space (b'0' + a) ≡ false) × (is_digit (b'0' + a) ≡ true)
unfolding is_space is_digit
digit_facts a h = (ground arith, ground arith)

lstrip_digit : (a : ℕ) (s : List ℕ) → a < 10 → lstrip ((b'0' + a) ∷ s) ≡ (b'0' + a) ∷ s
unfolding lstrip
lstrip_digit a s h = rw ((digit_facts a h).0)

-- A text that begins and ends with a digit has no space to take off.
pub strip_digits :
    (a b : ℕ) (s t : List ℕ)
    → a < 10
    → b < 10
    → reverse ((b'0' + a) ∷ s) ≡ (b'0' + b) ∷ t
    → reverse ((b'0' + b) ∷ t) ≡ (b'0' + a) ∷ s
    → strip ((b'0' + a) ∷ s) ≡ (b'0' + a) ∷ s
unfolding strip
strip_digits a b s t ha hb e f = rw (lstrip_digit a s ha, e, lstrip_digit b t hb) f

pub int_two :
    (a b : ℕ) → a < 10 → b < 10 → int_of ((b'0' + a) ∷ (b'0' + b) ∷ []) ≡ some (false, a * 10 + b)
unfolding int_of digits is_digit
int_two a b ha hb = ground arith

pub split_once_after_two :
    (a b sep : ℕ) (s : List ℕ)
    → a < 10
    → b < 10
    → (sep < b'0') ⊎ (b'9' < sep)
    → split_once sep ((b'0' + a) ∷ (b'0' + b) ∷ sep ∷ s) ≡ some ((b'0' + a) ∷ (b'0' + b) ∷ [], s)
unfolding split_once
split_once_after_two a b sep s ha hb h = ground arith

-- ===== src/Storage/Instincts/Confidence.antt =====
-- The floats of a confidence. Values from 1/16 to 2 are counted in units of 2^-56, of which every such
-- double is a whole number; the column of the table is a float32, which is a multiple of more of them.
use native.Mathlib.Nat.{div-add-mod, mod-lt, mul-add}
use oc_piloci.Prelude.{
  ℕ, ◌+◌, ◌*◌, ◌/◌, ◌%◌, ◌≤◌, ◌<◌, ◌≡◌, refl, ◌⊎◌, inl, inr, ltb, if◌then◌else◌, arith, Bool-cases,
}

-- `_CONFIDENCE_INIT`, `_CONFIDENCE_BOOST`, `_CONFIDENCE_DECAY`, `_CONFIDENCE_MAX`, `_CONFIDENCE_MIN` and
-- `_PROMOTE_CONFIDENCE`: 0.3, 0.1, 0.15, 0.9, 0.1 and 0.6.
abbrev pub confidence_init : ℕ
confidence_init = 21617278211378380

abbrev pub confidence_boost : ℕ
confidence_boost = 7205759403792794

abbrev pub confidence_decay : ℕ
confidence_decay = 10808639105689190

abbrev pub confidence_max : ℕ
confidence_max = 64851834634135144

abbrev pub confidence_min : ℕ
confidence_min = 7205759403792794

abbrev pub promote_confidence : ℕ
promote_confidence = 43234556422756760

-- A quotient and its rest, rounded to the nearest number and, in the middle, to the even one.
abbrev half_even : ℕ → ℕ → ℕ → ℕ
half_even q r g = if ltb (2 * r) g then q else (if ltb g (2 * r) then q + 1 else q + q % 2)

-- The nearest multiple of `g`.
unfoldable to_grain : ℕ → ℕ → ℕ
to_grain g n = g * half_even (n / g) (n % g) g

-- What a float32 keeps: 24 bits.
unfoldable pub float32 : ℕ → ℕ
unfolding to_grain
float32 n =
    if ltb n 9007199254740992
    then to_grain 536870912 n
    else if ltb n 18014398509481984
    then to_grain 1073741824 n
    else if ltb n 36028797018963968
    then to_grain 2147483648 n
    else if ltb n 72057594037927936
    then to_grain 4294967296 n
    else to_grain 8589934592 n

-- What a double keeps: 53 bits.
unfoldable pub float64 : ℕ → ℕ
unfolding to_grain
float64 n =
    if ltb n 9007199254740992
    then n
    else if ltb n 18014398509481984
    then to_grain 2 n
    else if ltb n 36028797018963968
    then to_grain 4 n
    else if ltb n 72057594037927936
    then to_grain 8 n
    else to_grain 16 n

half_even_cases : (q r g : ℕ) → (half_even q r g ≡ q) ⊎ (half_even q r g ≡ q + 1)
half_even_cases q r g = elim (Bool-cases (ltb (2 * r) g)) [
  | inl e ↦ inl (rw e refl)
  | inr e ↦ elim (Bool-cases (ltb g (2 * r))) [
    | inl f ↦ inr (rw (e, f) refl)
    | inr f ↦ rw (e, f) (parity (q % 2) (mod-lt q (omega arith)))
  ]
]
  where
    parity : (p : ℕ) → p < 2 → (q + p ≡ q) ⊎ (q + p ≡ q + 1)
    parity p h = ground (arith, h)

abbrev pub IsNear : ℕ → ℕ → ℕ → Type 0
IsNear d m n = (m ≤ n + d) × (n ≤ m + d)

to_grain-IsNear : (g n : ℕ) → 1 ≤ g → IsNear g (to_grain g n) n
unfolding to_grain
to_grain-IsNear g n h =
    let whole : g * (n / g) + n % g ≡ n = div-add-mod n g in
    let part : n % g < g = mod-lt n (omega (arith, h)) in
    elim (half_even_cases (n / g) (n % g) g) [
      | inl e ↦ rw e ((omega (arith, whole, part), omega (arith, whole, part)))
      | inr e ↦
          rw (e, mul-add g (n / g) 1) ((omega (arith, whole, part), omega (arith, whole, part)))
    ]

widen : (d e m n : ℕ) → d ≤ e → IsNear d m n → IsNear e m n
widen d e m n h k = (omega (arith, h, k.0), omega (arith, h, k.1))

pub float32-IsNear : (n : ℕ) → IsNear 8589934592 (float32 n) n
unfolding float32
float32-IsNear n = elim (Bool-cases (ltb n 9007199254740992)) [
  | inl e ↦
      rw e
        (widen 536870912 8589934592 _ n (omega arith) (to_grain-IsNear 536870912 n (omega arith)))
  | inr e ↦ elim (Bool-cases (ltb n 18014398509481984)) [
    | inl f ↦
        rw (e, f)
          (widen 1073741824 8589934592 _ n (omega arith)
            (to_grain-IsNear 1073741824 n (omega arith)))
    | inr f ↦ elim (Bool-cases (ltb n 36028797018963968)) [
      | inl g ↦
          rw (e, f, g)
            (widen 2147483648 8589934592 _ n (omega arith)
              (to_grain-IsNear 2147483648 n (omega arith)))
      | inr g ↦ elim (Bool-cases (ltb n 72057594037927936)) [
        | inl h ↦
            rw (e, f, g, h)
              (widen 4294967296 8589934592 _ n (omega arith)
                (to_grain-IsNear 4294967296 n (omega arith)))
        | inr h ↦ rw (e, f, g, h) (to_grain-IsNear 8589934592 n (omega arith))
      ]
    ]
  ]
]

pub float64-IsNear : (n : ℕ) → IsNear 16 (float64 n) n
unfolding float64
float64-IsNear n = elim (Bool-cases (ltb n 9007199254740992)) [
  | inl e ↦ rw e ((omega arith, omega arith))
  | inr e ↦ elim (Bool-cases (ltb n 18014398509481984)) [
    | inl f ↦ rw (e, f) (widen 2 16 _ n (omega arith) (to_grain-IsNear 2 n (omega arith)))
    | inr f ↦ elim (Bool-cases (ltb n 36028797018963968)) [
      | inl g ↦ rw (e, f, g) (widen 4 16 _ n (omega arith) (to_grain-IsNear 4 n (omega arith)))
      | inr g ↦ elim (Bool-cases (ltb n 72057594037927936)) [
        | inl h ↦ rw (e, f, g, h) (widen 8 16 _ n (omega arith) (to_grain-IsNear 8 n (omega arith)))
        | inr h ↦ rw (e, f, g, h) (to_grain-IsNear 16 n (omega arith))
      ]
    ]
  ]
]

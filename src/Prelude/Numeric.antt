-- ===== src/Prelude/Numeric.antt =====
-- Python's floats, which the code compares, subtracts and multiplies. The type is a parameter.
use Prim.Native.Nat.{ℕ, ◌-◌, ◌*◌, ◌/◌}
use mathlib.Core.Path.{◌≡◌}
use mathlib.Core.Bool.{Bool, true}
use native.Mathlib.Omega.{arith}
use oc_piloci.Prelude.Tests.{leb}

pub record Floats (F : Type 0) : Type 0 where
  -- `a >= b`
  pub ge : F → F → Bool
  pub minus : F → F → F
  pub times : F → F → F
  -- The float that is written as so many thousandths: 0.7 is `milli 700`.
  pub milli : ℕ → F

-- What every comparison of floats meets, NaN included.
pub record IsOrdered {F : Type 0} (fl : Floats F) : Type 0 where
  pub trans : (a b c : F) → fl.ge a b ≡ true → fl.ge b c ≡ true → fl.ge a c ≡ true

-- Thousandths in place of floats, for runs.
abbrev pub thousandths : Floats ℕ
thousandths = record {
  ge = λ a b. leb b a;
  minus = λ a b. a - b;
  times = λ a b. a * b / 1000;
  milli = λ n. n;
}

leb_trans : (a b c : ℕ) → leb b a ≡ true → leb c b ≡ true → leb c a ≡ true
leb_trans a b c h k = ground arith

pub thousandths-IsOrdered : IsOrdered thousandths
thousandths-IsOrdered = record { trans = leb_trans }

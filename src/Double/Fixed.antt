-- ===== src/Double/Fixed.antt =====
-- Decimal fractions with four places, as integers: numbers that meet the laws of the interface, on
-- which the witnesses and the tests run.
use marketblocks.Prelude.{
  ℕ, ℤ, pos, pos_part, ◌+ℤ◌, ◌-ℤ◌, ◌*ℤ◌, ◌/ℤ◌, ltb_ℤ, leb_ℤ, eqb_ℤ, ◌^◌, ◌/◌, false, arith,
  if◌then◌else◌,
}
use marketblocks.Double.{Double, IsOrdered}

abbrev pub Fixed : Type 0
Fixed = ℤ

abbrev unit : ℤ
unit = pos 10_000

-- m * 10^-k
unfoldable pub fixed : ℤ → ℕ → Fixed
unfolding ◌*ℤ◌ ◌/ℤ◌
fixed m k = m *ℤ unit /ℤ pos (10 ^ k)

unfoldable pub fixed_mul : Fixed → Fixed → Fixed
unfolding ◌*ℤ◌ ◌/ℤ◌
fixed_mul a b = a *ℤ b /ℤ unit

unfoldable pub fixed_div : Fixed → Fixed → Fixed
unfolding ◌*ℤ◌ ◌/ℤ◌
fixed_div a b = a *ℤ unit /ℤ b

unfoldable pub fixed_abs : Fixed → Fixed
unfolding ◌-ℤ◌
fixed_abs a = if ltb_ℤ a (pos 0) then pos 0 -ℤ a else a

-- The operations that a test on numbers runs.
unfoldable pub runs_fixed : ℕ
unfolding fixed fixed_mul fixed_div fixed_abs ◌+ℤ◌ ◌-ℤ◌
runs_fixed = 0

instance abbrev pub fixed_double : Double Fixed
fixed_double = record {
  literal = fixed;
  add = ◌+ℤ◌;
  sub = ◌-ℤ◌;
  mul = fixed_mul;
  div = fixed_div;
  abs = fixed_abs;
  lt = ltb_ℤ;
  le = leb_ℤ;
  eq = eqb_ℤ;
  is_nan = λ a. false;
  epsilon = pos 0;
  to_u64 = λ a. pos_part a / 10_000;
}

pub Fixed-IsOrdered : IsOrdered Fixed
Fixed-IsOrdered = ground arith

-- ===== src/Double.antt =====
-- What the code does with a `double`. The type and its operations are an interface, since the
-- arithmetic of doubles is the machine's: a model is generic in it, and a theorem that needs the
-- order of doubles takes `IsOrdered` as a hypothesis. `Double.Fixed` meets it.
pub mod Fixed
use marketblocks.Prelude.{ℕ, ℤ, pos, ◌≡◌, ◌⊎◌, Bool, true, not, arith, if◌then◌else◌}

pub record Double (W : Type 0) : Type 0 where
  -- `literal m k` is the literal m * 10^-k.
  pub literal : ℤ → ℕ → W
  pub add : W → W → W
  pub sub : W → W → W
  pub mul : W → W → W
  pub div : W → W → W
  pub abs : W → W
  pub lt : W → W → Bool
  pub le : W → W → Bool
  pub eq : W → W → Bool
  pub is_nan : W → Bool
  -- `std::numeric_limits<double>::epsilon()`
  pub epsilon : W
  -- `static_cast<unsigned long long>`, which C++ leaves undefined out of the range of the type; here it
  -- has some value there
  pub to_u64 : W → ℕ

module _ {W : Type 0} ⦃d : Double W⦄ where
  abbrev pub zero_double : W
  zero_double = d.literal (pos 0) 0

  -- `std::max` and `std::min`, as the standard library defines them.
  unfoldable pub max_double : W → W → W
  max_double a b = if d.lt a b then b else a

  unfoldable pub min_double : W → W → W
  min_double a b = if d.lt b a then b else a

module _ {W : Type 0} ⦃d : Double W⦄ where
  infix 4 ◌≼◌
  abbrev pub ◌≼◌ : W → W → Type 0
  x ≼ y = d.le x y ≡ true

  -- NaN is the value that is not `<=` itself.
  abbrev pub IsNumber : W → Type 0
  IsNumber x = x ≼ x

-- The comparisons are a total order of the values that are numbers.
pub record IsOrdered (W : Type 0) ⦃d : Double W⦄ : Type 0 where
  pub le_total : {x y : W} → IsNumber x → IsNumber y → (x ≼ y) ⊎ (y ≼ x)
  pub lt-eq-not-le : {x y : W} → IsNumber x → IsNumber y → d.lt x y ≡ not (d.le y x)
  pub numbers_of_le : {x y : W} → x ≼ y → IsNumber x × IsNumber y
  pub le_trans : {x y z : W} → x ≼ y → y ≼ z → x ≼ z

-- The bounds that a running maximum and minimum keep.
module _ {W : Type 0} ⦃d : Double W⦄ (laws : IsOrdered W) where
  open laws use {le_total, lt-eq-not-le}

  pub le-max_double :
      (a b : W) → IsNumber a → IsNumber b → (a ≼ max_double a b) × (b ≼ max_double a b)
  unfolding max_double
  le-max_double a b p q = ground (arith, lt-eq-not-le p q, le_total p q)

  pub min_double-le :
      (a b : W) → IsNumber a → IsNumber b → (min_double a b ≼ a) × (min_double a b ≼ b)
  unfolding min_double
  min_double-le a b p q = ground (arith, lt-eq-not-le q p, le_total p q)

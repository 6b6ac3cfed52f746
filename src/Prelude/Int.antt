-- ===== src/Prelude/Int.antt =====
-- Signed integers over the native numbers, under the library's names (its ℤ stands on the unary ℕ).
-- Sums and orders go through the two parts of an integer, which are numbers that `omega` reads.
use Prim.Native.Nat.{ℕ, suc, ◌+◌, ◌-◌, ◌*◌, ◌/◌, ◌≤◌, ◌<◌}
use mathlib.Core.Path.{◌≡◌}
use mathlib.Core.Logic.{◌↔◌}
use mathlib.Core.Bool.{Bool, true}
use native.Mathlib.Omega.{arith}
use native.Mathlib.Nat.{add-mul, div-add-mod, mod-lt}
use marketblocks.Prelude.Tests.{ltb, leb, eqb, if◌then◌else◌}
use marketblocks.Prelude.Eq.{Equality}

-- `negsuc n` is -(n + 1).
pub data ℤ : Type 0 where
  pos : ℕ → ℤ
  negsuc : ℕ → ℤ

abbrev pub pos_part : ℤ → ℕ
pos_part (pos n) = n
pos_part (negsuc n) = 0

abbrev pub neg_part : ℤ → ℕ
neg_part (pos n) = 0
neg_part (negsuc n) = suc n

abbrev pub sub_ℕ : ℕ → ℕ → ℤ
sub_ℕ a b = if leb b a then pos (a - b) else negsuc (b - a - 1)

infixl 65 ◌+ℤ◌ ◌-ℤ◌
infixl 70 ◌*ℤ◌ ◌/ℤ◌
infix 50 ◌≤ℤ◌ ◌<ℤ◌
unfoldable pub ◌+ℤ◌ : ℤ → ℤ → ℤ
a +ℤ b = sub_ℕ (pos_part a + pos_part b) (neg_part a + neg_part b)

unfoldable pub ◌-ℤ◌ : ℤ → ℤ → ℤ
a -ℤ b = sub_ℕ (pos_part a + neg_part b) (neg_part a + pos_part b)

unfoldable pub ◌*ℤ◌ : ℤ → ℤ → ℤ
a *ℤ b =
    sub_ℕ (pos_part a * pos_part b + neg_part a * neg_part b)
      (pos_part a * neg_part b + neg_part a * pos_part b)

-- Division of C++: towards zero. A division by zero, undefined there, gives zero here.
unfoldable pub ◌/ℤ◌ : ℤ → ℤ → ℤ
a /ℤ b =
    sub_ℕ (pos_part a / pos_part b + neg_part a / neg_part b)
      (pos_part a / neg_part b + neg_part a / pos_part b)

abbrev pub ◌≤ℤ◌ : ℤ → ℤ → Type 0
a ≤ℤ b = pos_part a + neg_part b ≤ pos_part b + neg_part a

abbrev pub ◌<ℤ◌ : ℤ → ℤ → Type 0
a <ℤ b = pos_part a + neg_part b < pos_part b + neg_part a

abbrev pub ltb_ℤ : ℤ → ℤ → Bool
ltb_ℤ a b = ltb (pos_part a + neg_part b) (pos_part b + neg_part a)

abbrev pub leb_ℤ : ℤ → ℤ → Bool
leb_ℤ a b = leb (pos_part a + neg_part b) (pos_part b + neg_part a)

-- `std::max`
abbrev pub max_ℤ : ℤ → ℤ → ℤ
max_ℤ a b = if ltb_ℤ a b then b else a

abbrev pub eqb_ℤ : ℤ → ℤ → Bool
eqb_ℤ a b = eqb (pos_part a + neg_part b) (pos_part b + neg_part a)

-- One lemma for each operation lets the tactics work with the operations shut, at any depth.
pub +ℤ_parts :
    (a b : ℤ)
    → pos_part (a +ℤ b) + neg_part a + neg_part b ≡ neg_part (a +ℤ b) + pos_part a + pos_part b
unfolding ◌+ℤ◌
+ℤ_parts a b = ground arith

pub -ℤ_parts :
    (a b : ℤ)
    → pos_part (a -ℤ b) + neg_part a + pos_part b ≡ neg_part (a -ℤ b) + pos_part a + neg_part b
unfolding ◌-ℤ◌
-ℤ_parts a b = ground arith

pub eq_of_parts : (a b : ℤ) → pos_part a + neg_part b ≡ pos_part b + neg_part a → a ≡ b
eq_of_parts a b h = ground arith

pub eqb_ℤ_iff : (a b : ℤ) → (eqb_ℤ a b ≡ true) ↔ (a ≡ b)
eqb_ℤ_iff a b = ground arith

instance abbrev pub int_equality : Equality ℤ
int_equality = record { beq = eqb_ℤ; beq_iff = eqb_ℤ_iff }

pub ruleset int_laws = (arith, +ℤ_parts, -ℤ_parts, eq_of_parts)

-- Of a number that is not negative, division and multiplication take off less than the divisor.
pub floor_multiple :
    (a b : ℤ)
    → pos 0 ≤ℤ a
    → pos 0 <ℤ b
    → (a /ℤ b *ℤ b ≤ℤ a) × (a <ℤ a /ℤ b *ℤ b +ℤ b) × (pos 0 ≤ℤ a /ℤ b)
unfolding ◌+ℤ◌ ◌*ℤ◌ ◌/ℤ◌
floor_multiple (pos a) (pos b) h k = grind (arith, div-add-mod a b, mod-lt a {m = b} (omega arith))
floor_multiple (pos a) (negsuc b) h k = absurd (omega arith)
floor_multiple (negsuc a) b h k = absurd (omega arith)

pub zero-*ℤ : (a : ℤ) → pos 0 *ℤ a ≡ pos 0
unfolding ◌*ℤ◌
zero-*ℤ a = ground arith

-- Two numbers of steps, one after the other.
add-*ℤ : (k l i : ℤ) → pos 0 ≤ℤ k → pos 0 ≤ℤ l → pos 0 <ℤ i → k *ℤ i +ℤ l *ℤ i ≡ (k +ℤ l) *ℤ i
unfolding ◌+ℤ◌ ◌*ℤ◌
add-*ℤ (pos k) (pos l) (pos i) h h' p = ground (arith, add-mul k l i)
add-*ℤ (pos k) (pos l) (negsuc i) h h' p = absurd (omega arith)
add-*ℤ (pos k) (negsuc l) i h h' p = absurd (omega arith)
add-*ℤ (negsuc k) l i h h' p = absurd (omega arith)

pub add_steps :
    (a k l i : ℤ)
    → pos 0 ≤ℤ k
    → pos 0 ≤ℤ l
    → pos 0 <ℤ i
    → a +ℤ k *ℤ i +ℤ l *ℤ i ≡ a +ℤ (k +ℤ l) *ℤ i
add_steps a k l i h h' p = rw (← add-*ℤ k l i h h' p) (omega int_laws)

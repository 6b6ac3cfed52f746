-- ===== src/Prelude/Eq.antt =====
-- `operator==` as an interface, for keys of maps; `std::string` as its list of bytes.
use Prim.Native.Nat.{ℕ}
use mathlib.Core.Path.{◌≡◌, refl}
use mathlib.Core.Logic.{◌↔◌, inl, inr}
use mathlib.Core.Bool.{Bool, true, false, ◌&&◌}
use mathlib.Core.List.{List, [], ◌∷◌}
use native.Mathlib.Omega.{arith}
use marketblocks.Prelude.Tests.{eqb, eqb_iff, Bool-cases}

pub record Equality {ℓ} (A : Type ℓ) : Type ℓ where
  pub beq : A → A → Bool
  pub beq_iff : (a b : A) → (beq a b ≡ true) ↔ (a ≡ b)

instance abbrev pub nat_equality : Equality ℕ
nat_equality = record { beq = eqb; beq_iff = eqb_iff }

module _ {ℓ} {A : Type ℓ} ⦃e : Equality A⦄ where
  infix 50 ◌==◌
  abbrev pub ◌==◌ : A → A → Bool
  a == b = e.beq a b

  pub beq_refl : (a : A) → (a == a) ≡ true
  beq_refl a = (e.beq_iff a a).1 refl

  pub beq_sym : (a b : A) → (a == b) ≡ (b == a)
  beq_sym a b = elim (Bool-cases (a == b)) [
    | inl p ↦ ground (arith, e.beq_iff a b, e.beq_iff b a)
    | inr p ↦ ground (arith, e.beq_iff a b, e.beq_iff b a)
  ]

  abbrev pub list_beq : List A → List A → Bool
  list_beq [] [] = true
  list_beq [] (y ∷ ys) = false
  list_beq (x ∷ xs) [] = false
  list_beq (x ∷ xs) (y ∷ ys) = x == y && list_beq xs ys

  pub list_beq_iff : (xs ys : List A) → (list_beq xs ys ≡ true) ↔ (xs ≡ ys)
  list_beq_iff [] [] = (λ _. refl, λ _. refl)
  list_beq_iff [] (y ∷ ys) = ground arith
  list_beq_iff (x ∷ xs) [] = ground arith
  list_beq_iff (x ∷ xs) (y ∷ ys) = ground (arith, e.beq_iff x y, list_beq_iff xs ys)

  instance abbrev pub list_equality : Equality (List A)
  list_equality = record { beq = list_beq; beq_iff = list_beq_iff }

abbrev pub Bytes : Type 0
Bytes = List ℕ

instance abbrev pub bytes_equality : Equality Bytes
bytes_equality = list_equality

-- ===== src/Common/Text.antt =====
-- Text as bytes: `std::to_string` of a number that is not negative, as a decimal numeral.
use Prim.Native.Char.{code}
use Prim.Native.String.{String}
use marketblocks.Prelude.{
  ℕ, zero, suc, ◌+◌, ◌-◌, ◌*◌, ◌/◌, ◌%◌, ◌<◌, ◌≡◌, sym, ap, ◌∙◌, [], ◌∷◌, ◌++◌, foldl, Bytes, arith,
  ltb, if◌then◌else◌,
}

-- The bytes of an ASCII text.
abbrev pub codes : String → Bytes
codes String.[] = []
codes (String.◌∷◌ c s) = code c ∷ codes s

digits : ℕ → ℕ → Bytes
digits zero n = []
digits (suc fuel) n =
    let front = digits fuel (n / 10) in
    if ltb n 10 then (48 + n) ∷ [] else front ++ (48 + n % 10) ∷ []

unfoldable pub to_string : ℕ → Bytes
unfolding digits
to_string n = digits (suc n) n

-- The number that a numeral stands for.
value : Bytes → ℕ
value = foldl (λ n c. n * 10 + (c - 48)) 0

foldl-append-last :
    (xs : Bytes) (c n : ℕ)
    → foldl (λ n c. n * 10 + (c - 48)) n (xs ++ c ∷ [])
      ≡ foldl (λ n c. n * 10 + (c - 48)) n xs * 10 + (c - 48)
foldl-append-last [] c n = omega arith
foldl-append-last (x ∷ xs) c n = foldl-append-last xs c (n * 10 + (x - 48))

value-digits : (fuel n : ℕ) → n < fuel → value (digits fuel n) ≡ n
unfolding value digits
value-digits zero n h = elim h [ ]
value-digits (suc fuel) n h =
    ground
      (arith, foldl-append-last (digits fuel (n / 10)) (48 + n % 10) 0, value-digits fuel (n / 10))

value-to_string : (n : ℕ) → value (to_string n) ≡ n
unfolding to_string
value-to_string n = value-digits (suc n) n (omega arith)

-- Two numbers with one numeral are equal.
pub to_string_inj : (m n : ℕ) → to_string m ≡ to_string n → m ≡ n
to_string_inj m n e = sym (value-to_string m) ∙ ap value e ∙ value-to_string n

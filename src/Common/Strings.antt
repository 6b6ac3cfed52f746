-- ===== src/Common/Strings.antt =====
-- common/utils/stringutils.h and .cpp: tests on texts, and texts in parts. A text is its bytes, and the
-- locale is that of C.
use marketblocks.Prelude.{
  ℕ, ◌+◌, ◌-◌, ℤ, pos, negsuc, Bool, true, false, ◌&&◌, ◌||◌, List, [], ◌∷◌, ◌++◌, map, Bytes, ◌==◌,
  nat_equality, leb, if◌then◌else◌,
}
use marketblocks.Common.Text.{to_string}

-- `starts_with`
unfoldable pub starts_with : Bytes → Bytes → Bool
starts_with source [] = true
starts_with [] (c ∷ what) = false
starts_with (b ∷ source) (c ∷ what) = b == c && starts_with source what

-- `contains` of a text: `find` gives a position.
unfoldable pub contains : Bytes → Bytes → Bool
unfolding starts_with
contains [] what = starts_with [] what
contains (b ∷ source) what = starts_with (b ∷ source) what || contains source what

-- The text that a pointer to its bytes gives: up to the first NUL.
unfoldable pub c_string : Bytes → Bytes
c_string [] = []
c_string (b ∷ bs) = if b == 0 then [] else b ∷ c_string bs

add_segment : Bytes → List Bytes → List Bytes
add_segment [] segments = segments
add_segment (b ∷ bs) segments = (b ∷ bs) ∷ segments

-- The segments of a text, where `segment` has been read of the first of them.
split_from : ℕ → Bytes → Bytes → List Bytes
unfolding add_segment
split_from delimiter segment [] = add_segment segment []
split_from delimiter segment (b ∷ bs) =
    if b == delimiter
    then add_segment segment (split_from delimiter [] bs)
    else split_from delimiter (segment ++ b ∷ []) bs

unfoldable pub split : Bytes → ℕ → List Bytes
unfolding split_from
split source delimiter = split_from delimiter [] (c_string source)

unfoldable pub to_upper : Bytes → Bytes
to_upper = map (λ b. if leb 97 b && leb b 122 then b - 32 else b)

unfoldable pub to_lower : Bytes → Bytes
to_lower = map (λ b. if leb 65 b && leb b 90 then b + 32 else b)

-- `std::to_string` of an integer
unfoldable pub int_to_string : ℤ → Bytes
int_to_string (pos n) = to_string n
int_to_string (negsuc n) = 45 ∷ to_string (n + 1)

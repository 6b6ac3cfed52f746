-- ===== src/Common/Math.antt =====
-- common/utils/mathutils.h and .cpp: comparisons of doubles with a tolerance.
use marketblocks.Prelude.{pos, Bool, false, ◌&&◌, ◌||◌, not, if◌then◌else◌}
use marketblocks.Double.{Double}

module _ {W : Type 0} ⦃d : Double W⦄ where
  unfoldable pub double_equal : W → W → Bool
  double_equal a b =
      if d.is_nan a || d.is_nan b
      then false
      else let diff = d.abs (d.sub a b) in
        let largest = if d.lt (d.abs a) (d.abs b) then d.abs b else d.abs a in
        d.le diff (d.mul (d.literal (pos 4) 0) d.epsilon) || d.le diff (d.mul largest d.epsilon)

  unfoldable pub double_less_than : W → W → Bool
  unfolding double_equal
  double_less_than a b = not (double_equal a b) && d.lt a b

  unfoldable pub double_greater_than : W → W → Bool
  unfolding double_equal
  double_greater_than a b = not (double_equal a b) && d.lt b a

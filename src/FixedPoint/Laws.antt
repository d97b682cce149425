-- ===== src/FixedPoint/Laws.antt =====
-- Project 1: Threads/src/threads/fixedpoint.c: what the numbers keep when they are converted and
-- calculated with.
use cs140_operating_systems.Base.{
  ◌-◌, ◌^◌, ◌≤◌, ◌<◌, ◌≡◌, arith, ℤ, pos, negsuc, pos_part, neg_part, ◌≤ℤ◌, ◌+ℤ◌, ◌-ℤ◌, ◌*ℤ◌, ◌/ℤ◌,
  wrap32, IsInt32, wrap32_small,
}
use cs140_operating_systems.FixedPoint.{
  fp, int_to_float, float_to_int, float_to_int_nearest, sum_floats, subtract_floats,
}

-- The integers that a number of this kind can be.
abbrev pub IsWhole : ℤ → Type 0
IsWhole n = (pos_part n < 2 ^ 17) × (neg_part n ≤ 2 ^ 17)

int_to_float_lem : (n : ℤ) → IsWhole n → int_to_float n ≡ n *ℤ fp
unfolding int_to_float ◌*ℤ◌
int_to_float_lem (pos n) h = wrap32_small _ (ground arith)
int_to_float_lem (negsuc n) h = wrap32_small _ (ground arith)

whole : (n : ℤ) → n *ℤ fp /ℤ fp ≡ n
unfolding ◌*ℤ◌ ◌/ℤ◌
whole (pos n) = ground arith
whole (negsuc n) = ground arith

pub float_to_int-int_to_float : (n : ℤ) → IsWhole n → float_to_int (int_to_float n) ≡ n
unfolding float_to_int
float_to_int-int_to_float n h = rw (int_to_float_lem n h, whole n)

-- For all int32_t x and y, taking y from the sum of x and y gives x, with overflow too.
pub subtract_floats-sum_floats :
    (x y : ℤ) → IsInt32 x → IsInt32 y → subtract_floats (sum_floats x y) y ≡ x
unfolding subtract_floats sum_floats wrap32 ◌+ℤ◌ ◌-ℤ◌
subtract_floats-sum_floats (pos a) (pos b) h k = ground arith
subtract_floats-sum_floats (pos a) (negsuc b) h k = ground arith
subtract_floats-sum_floats (negsuc a) (pos b) h k = ground arith
subtract_floats-sum_floats (negsuc a) (negsuc b) h k = ground arith

-- The integer lies at most half a unit from the number.
pub record IsNearest (x r : ℤ) : Type 0 where
  pub below : r *ℤ pos 32768 ≤ℤ x *ℤ pos 2 +ℤ fp
  pub above : x *ℤ pos 2 ≤ℤ r *ℤ pos 32768 +ℤ fp

-- For a number that is half a unit or more away from the ends of int32_t, floatToIntNearest
-- gives an integer at most half a unit from it.
pub float_to_int_nearest-IsNearest :
    (x : ℤ)
    → pos_part x < 2 ^ 31 - 8192
    → neg_part x ≤ 2 ^ 31 - 8192
    → IsNearest x (float_to_int_nearest x)
unfolding float_to_int_nearest wrap32 ◌+ℤ◌ ◌-ℤ◌ ◌*ℤ◌ ◌/ℤ◌
float_to_int_nearest-IsNearest (pos a) h k = record { below = ground arith; above = ground arith }
float_to_int_nearest-IsNearest (negsuc a) h k = record {
  below = ground arith;
  above = ground arith;
}

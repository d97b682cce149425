-- ===== src/FixedPoint.antt =====
-- Project 1: Threads/src/threads/fixedpoint.c: real numbers as 32-bit integers counting steps of
-- 1 / 16384. The machine's wrap-around stands where an int32_t overflows and where an int64_t is cut to
-- one; a product or quotient of two int32_t fits an int64_t. A result `none` is a division that traps.
pub mod Laws
use cs140_operating_systems.Base.{
  ℕ, suc, ◌^◌, Bool, true, false, ◌&&◌, not, Option, none, some, ◌==◌, if◌then◌else◌, ◌>>◌, assert,
  ℤ, pos, negsuc, ltb_ℤ, ◌+ℤ◌, ◌-ℤ◌, ◌*ℤ◌, ◌/ℤ◌, wrap32,
}

abbrev pub fp : ℤ
fp = pos 16384

unfoldable pub int_to_float : ℤ → ℤ
int_to_float n = wrap32 (n *ℤ fp)

unfoldable pub float_to_int : ℤ → ℤ
float_to_int x = x /ℤ fp

unfoldable pub float_to_int_nearest : ℤ → ℤ
float_to_int_nearest x =
    if ltb_ℤ (pos 0) x then wrap32 (x +ℤ fp /ℤ pos 2) /ℤ fp else wrap32 (x -ℤ fp /ℤ pos 2) /ℤ fp

unfoldable pub sum_floats : ℤ → ℤ → ℤ
sum_floats x y = wrap32 (x +ℤ y)

unfoldable pub subtract_floats : ℤ → ℤ → ℤ
subtract_floats x y = wrap32 (x -ℤ y)

unfoldable pub multiply_floats : ℤ → ℤ → ℤ
multiply_floats x y = wrap32 (x *ℤ y /ℤ fp)

abbrev pub is_zero : ℤ → Bool
is_zero (pos n) = n == 0
is_zero (negsuc n) = false

unfoldable pub divide_floats : ℤ → ℤ → Option ℤ
divide_floats x y = do assert (not (is_zero y)); some (wrap32 (x *ℤ fp /ℤ y))

unfoldable pub sum_floats_and_ints : ℤ → ℤ → ℤ
sum_floats_and_ints x n = wrap32 (x +ℤ wrap32 (n *ℤ fp))

unfoldable pub subtract_floats_and_ints : ℤ → ℤ → ℤ
subtract_floats_and_ints x n = wrap32 (x -ℤ wrap32 (n *ℤ fp))

unfoldable pub multiply_floats_and_ints : ℤ → ℤ → ℤ
multiply_floats_and_ints x n = wrap32 (x *ℤ n)

-- The least int32_t over -1 traps.
abbrev pub overflows : ℤ → ℤ → Bool
overflows (negsuc x) (negsuc n) = (suc x == 2 ^ 31) && (n == 0)
overflows _ _ = false

unfoldable pub divide_floats_and_ints : ℤ → ℤ → Option ℤ
divide_floats_and_ints x n = do
  assert (not (is_zero n))
  assert (not (overflows x n))
  some (x /ℤ n)

-- ===== src/Bitmap.antt =====
-- Project 4: File System/src/lib/kernel/bitmap.c: an array of bits in 32-bit words.
-- A word is a number below 2 ^ 32; `size_t` arithmetic keeps its wrap at 2 ^ 32.
-- A result `none` is a failed ASSERT or an access outside the words.
pub mod Words
pub mod Ranges
pub mod Scan
use Prim.Native.Nat.{bit_and, bit_or, bit_xor}
use cs140_operating_systems.Base.{
  ℕ, zero, suc, ◌+◌, ◌-◌, ◌*◌, ◌/◌, ◌%◌, ◌^◌, Bool, true, false, not, ◌&&◌, Option, none, some,
  List, [], ◌==◌, ltb, leb, same, if◌then◌else◌, get_elem?, set, replicate, ◌>>=◌, ◌>>◌, assert,
}

pub record Bitmap : Type 0 where
  pub bit_cnt : ℕ
  pub bits : List ℕ

-- 2 ^ 32 values of `size_t` and of `unsigned long`.
abbrev pub word : ℕ
word = 2 ^ 32

abbrev pub elem_bits : ℕ
elem_bits = 32

-- SIZE_MAX
abbrev pub bitmap_error : ℕ
bitmap_error = 2 ^ 32 - 1

abbrev pub elem_idx : ℕ → ℕ
elem_idx bit_idx = bit_idx / elem_bits

-- The shift is below the width, so no digit is lost.
abbrev pub bit_mask : ℕ → ℕ
bit_mask bit_idx = 2 ^ (bit_idx % elem_bits)

abbrev pub elem_cnt : ℕ → ℕ
elem_cnt bit_cnt = (bit_cnt + elem_bits - 1) % word / elem_bits

abbrev pub byte_cnt : ℕ → ℕ
byte_cnt bit_cnt = 4 * elem_cnt bit_cnt % word

pub last_mask : Bitmap → ℕ
last_mask b =
    let last_bits = b.bit_cnt % elem_bits in if last_bits == 0 then word - 1 else 2 ^ last_bits - 1

-- `b->bits[elem_idx (bit_idx)] = f (…)`
unfoldable pub change_elem : Bitmap → ℕ → (ℕ → ℕ) → Option Bitmap
change_elem b bit_idx f = do
  w ← get_elem? b.bits (elem_idx bit_idx)
  some (record b { bits = set b.bits (elem_idx bit_idx) (f w) })

unfoldable pub bitmap_mark : Bitmap → ℕ → Option Bitmap
bitmap_mark b bit_idx = change_elem b bit_idx (λ w. bit_or w (bit_mask bit_idx))

-- `~mask` in 32 bits
unfoldable pub bitmap_reset : Bitmap → ℕ → Option Bitmap
bitmap_reset b bit_idx = change_elem b bit_idx (λ w. bit_and w (word - 1 - bit_mask bit_idx))

unfoldable pub bitmap_flip : Bitmap → ℕ → Option Bitmap
bitmap_flip b bit_idx = change_elem b bit_idx (λ w. bit_xor w (bit_mask bit_idx))

unfoldable pub bitmap_set : Bitmap → ℕ → Bool → Option Bitmap
bitmap_set b idx value = do
  assert (ltb idx b.bit_cnt)
  if value then bitmap_mark b idx else bitmap_reset b idx

unfoldable pub bitmap_test : Bitmap → ℕ → Option Bool
bitmap_test b idx = do
  assert (ltb idx b.bit_cnt)
  w ← get_elem? b.bits (elem_idx idx)
  some (not (bit_and w (bit_mask idx) == 0))

-- The two ASSERTs on a range; the sum wraps.
abbrev pub assert_range : Bitmap → ℕ → ℕ → Option (Unit {0})
assert_range b start cnt = do
  assert (leb start b.bit_cnt)
  assert (leb ((start + cnt) % word) b.bit_cnt)

-- The rounds left, from index i on.
unfoldable pub set_loop : ℕ → Bitmap → ℕ → ℕ → Bool → Option Bitmap
set_loop zero b start i value = some b
set_loop (suc n) b start i value =
    bitmap_set b ((start + i) % word) value >>= λ b'. set_loop n b' start (i + 1) value

unfoldable pub bitmap_set_multiple : Bitmap → ℕ → ℕ → Bool → Option Bitmap
bitmap_set_multiple b start cnt value = do assert_range b start cnt; set_loop cnt b start 0 value

unfoldable pub bitmap_set_all : Bitmap → Bool → Option Bitmap
bitmap_set_all b value = bitmap_set_multiple b 0 b.bit_cnt value

unfoldable pub count_loop : ℕ → Bitmap → ℕ → ℕ → Bool → ℕ → Option ℕ
count_loop zero b start i value value_cnt = some value_cnt
count_loop (suc n) b start i value value_cnt = bitmap_test b ((start + i) % word) >>= λ v.
    count_loop n b start (i + 1) value (if same v value then value_cnt + 1 else value_cnt)

unfoldable pub bitmap_count : Bitmap → ℕ → ℕ → Bool → Option ℕ
bitmap_count b start cnt value = do assert_range b start cnt; count_loop cnt b start 0 value 0

unfoldable pub contains_loop : ℕ → Bitmap → ℕ → ℕ → Bool → Option Bool
contains_loop zero b start i value = some false
contains_loop (suc n) b start i value =
    let rest = contains_loop n b start (i + 1) value in
    bitmap_test b ((start + i) % word) >>= λ v. if same v value then some true else rest

unfoldable pub bitmap_contains : Bitmap → ℕ → ℕ → Bool → Option Bool
bitmap_contains b start cnt value = do assert_range b start cnt; contains_loop cnt b start 0 value

pub bitmap_any : Bitmap → ℕ → ℕ → Option Bool
bitmap_any b start cnt = bitmap_contains b start cnt true

pub bitmap_none : Bitmap → ℕ → ℕ → Option Bool
bitmap_none b start cnt = do c ← bitmap_contains b start cnt true; some (not c)

unfoldable pub bitmap_all : Bitmap → ℕ → ℕ → Option Bool
bitmap_all b start cnt = do c ← bitmap_contains b start cnt false; some (not c)

-- `for (i = start; i <= last; i++)`, with `last + 1 - i` rounds left.
unfoldable pub scan_loop : ℕ → Bitmap → ℕ → ℕ → Bool → Option ℕ
scan_loop zero b i cnt value = some bitmap_error
scan_loop (suc n) b i cnt value =
    let rest = scan_loop n b (i + 1) cnt value in
    bitmap_contains b i cnt (not value) >>= λ c. if c then rest else some i

unfoldable pub bitmap_scan : Bitmap → ℕ → ℕ → Bool → Option ℕ
bitmap_scan b start cnt value = do
  assert (leb start b.bit_cnt)
  if leb cnt b.bit_cnt
      then scan_loop (b.bit_cnt - cnt + 1 - start) b start cnt value
      else some bitmap_error

unfoldable pub bitmap_scan_and_flip : Bitmap → ℕ → ℕ → Bool → Option (ℕ × Bitmap)
bitmap_scan_and_flip b start cnt value = do
  idx ← bitmap_scan b start cnt value
  if idx == bitmap_error
      then some (idx, b)
      else do b' ← bitmap_set_multiple b idx cnt (not value); some (idx, b')

-- `malloc` decides the first two arguments: whether the header was allocated, and the words, with
-- whatever they held, or `none` for a null pointer. The inner `none` is the null pointer returned.
unfoldable pub bitmap_create : Bool → Option (List ℕ) → ℕ → Option (Option Bitmap)
bitmap_create false words bit_cnt = some none
bitmap_create true (some words) bit_cnt = do
  b ← bitmap_set_all (record { bit_cnt = bit_cnt; bits = words }) false
  some (some b)
bitmap_create true none bit_cnt =
    if bit_cnt == 0
    then (do b ← bitmap_set_all (record { bit_cnt = bit_cnt; bits = [] }) false; some (some b))
    else some none

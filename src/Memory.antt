-- ===== src/Memory.antt =====
-- Project 4: File System/src/lib/string.c, the functions on blocks of bytes. Memory is a function from
-- addresses to bytes, address 0 is the null pointer, and a block does not run past the last address.
-- A result `none` is a failed ASSERT.
pub mod Copy
pub mod Atomic
pub mod Compare
use cs140_operating_systems.Base.{
  ℕ, zero, suc, ◌+◌, ◌-◌, ◌%◌, ◌^◌, Bool, true, false, not, ◌||◌, ◌&&◌, Option, none, some, ◌==◌,
  ltb, leb, if◌then◌else◌, update, ◌>>◌, ◌>>=◌, assert, ℤ, pos, negsuc,
}

abbrev pub Mem : Type 0
Mem = ℕ → ℕ

-- `ASSERT (p != NULL || size == 0)`
abbrev pub assert_block : ℕ → ℕ → Option (Unit {0})
assert_block p size = assert (not (p == 0) || (size == 0))

-- `while (size-- > 0) *dst++ = *src++;` with dst after the loop.
unfoldable pub copy_up : ℕ → Mem → ℕ → ℕ → Mem × ℕ
copy_up zero m dst src = (m, dst)
copy_up (suc size) m dst src = copy_up size (update m dst (m src)) (dst + 1) (src + 1)

-- `while (size-- > 0) *--dst = *--src;`
unfoldable pub copy_down : ℕ → Mem → ℕ → ℕ → Mem × ℕ
copy_down zero m dst src = (m, dst)
copy_down (suc size) m dst src =
    copy_down size (update m (dst - 1) (m (src - 1))) (dst - 1) (src - 1)

unfoldable pub memcpy : Mem → ℕ → ℕ → ℕ → Option (Mem × ℕ)
memcpy m dst src size = do
  assert_block dst size
  assert_block src size
  let (m', _) = copy_up size m dst src
  some (m', dst)

-- The result is dst as the loop left it.
unfoldable pub memmove : Mem → ℕ → ℕ → ℕ → Option (Mem × ℕ)
memmove m dst src size = do
  assert_block dst size
  assert_block src size
  some (if ltb dst src then copy_up size m dst src else copy_down size m (dst + size) (src + size))

-- One exchange of a word of k bytes: all of it is read before any of it is written.
unfoldable pub copy_word : ℕ → Mem → ℕ → ℕ → Mem
copy_word k m dst src j = if leb dst j && ltb j (dst + k) then m (src + (j - dst)) else m j

-- `while (size >= k)` with words of k bytes. The first argument is fuel, of which size is enough.
unfoldable pub copy_words : ℕ → ℕ → Mem → ℕ → ℕ → ℕ → Mem × ℕ × ℕ × ℕ
copy_words zero k m dst src size = (m, dst, src, size)
copy_words (suc fuel) k m dst src size =
    let rest = copy_words fuel k (copy_word k m dst src) (dst + k) (src + k) (size - k) in
    if leb k size then rest else (m, dst, src, size)

unfoldable pub atomic_gio_memcpy : Mem → ℕ → ℕ → ℕ → Option (Mem × ℕ)
atomic_gio_memcpy m dst src size =
    let (m64, dst32, src32, size32) = copy_words size 8 m dst src size in
    let (m32, dst16, src16, size16) = copy_words size32 4 m64 dst32 src32 size32 in
    let (m16, dst8, src8, size8) = copy_words size16 2 m32 dst16 src16 size16 in
    let (m8, _, _, left) = copy_words size8 1 m16 dst8 src8 size8 in
    assert (left == 0) >> some (m8, dst)

unfoldable pub compare_loop : ℕ → Mem → ℕ → ℕ → ℤ
compare_loop zero m a b = pos 0
compare_loop (suc size) m a b =
    let rest = compare_loop size m (a + 1) (b + 1) in
    if not (m a == m b) then (if ltb (m b) (m a) then pos 1 else negsuc 0) else rest

unfoldable pub memcmp : Mem → ℕ → ℕ → ℕ → Option ℤ
memcmp m a b size = do assert_block a size; assert_block b size; some (compare_loop size m a b)

-- The result 0 is a null pointer.
unfoldable pub chr_loop : ℕ → Mem → ℕ → ℕ → ℕ
chr_loop zero m block ch = 0
chr_loop (suc size) m block ch =
    let rest = chr_loop size m (block + 1) ch in if m block == ch then block else rest

unfoldable pub memchr : Mem → ℕ → ℕ → ℕ → Option ℕ
memchr m block ch size = do assert_block block size; some (chr_loop size m block (ch % 2 ^ 8))

unfoldable pub set_bytes : ℕ → Mem → ℕ → ℕ → Mem
set_bytes zero m dst value = m
set_bytes (suc size) m dst value = set_bytes size (update m dst (value % 2 ^ 8)) (dst + 1) value

unfoldable pub memset : Mem → ℕ → ℕ → ℕ → Option (Mem × ℕ)
memset m dst value size = do assert_block dst size; some (set_bytes size m dst value, dst)

-- ===== src/CString.antt =====
-- Project 4: File System/src/lib/string.c, the functions on strings that end in a null byte. The first
-- argument, fuel, bounds the bytes that a loop visits. A result `none` is a failed ASSERT, or too little
-- fuel; a result 0 that is a pointer is the null pointer.
pub mod Find
pub mod Order
pub mod Span
pub mod Last
pub mod Token
pub mod Copies
pub mod Search
use cs140_operating_systems.Base.{
  ℕ, zero, suc, ◌+◌, ◌-◌, ◌%◌, ◌^◌, Bool, true, false, not, ◌&&◌, Option, none, some, ◌==◌, ltb,
  leb, if◌then◌else◌, update, ◌>>◌, ◌>>=◌, assert, ℤ, pos, negsuc,
}
use cs140_operating_systems.Memory.{Mem, memcmp, memcpy}

unfoldable pub strlen_loop : ℕ → Mem → ℕ → Option ℕ
strlen_loop zero m p = none
strlen_loop (suc fuel) m p =
    let rest = strlen_loop fuel m (p + 1) in if m p == 0 then some p else rest

unfoldable pub strlen : ℕ → Mem → ℕ → Option ℕ
strlen fuel m string = do
  assert (not (string == 0))
  p ← strlen_loop fuel m string
  some (p - string)

unfoldable pub strnlen_loop : ℕ → Mem → ℕ → ℕ → ℕ → Option ℕ
strnlen_loop zero m string maxlen length = none
strnlen_loop (suc fuel) m string maxlen length =
    let rest = strnlen_loop fuel m string maxlen (length + 1) in
    if not (m (string + length) == 0) && ltb length maxlen then rest else some length

unfoldable pub strnlen : ℕ → Mem → ℕ → ℕ → Option ℕ
strnlen fuel m string maxlen = strnlen_loop fuel m string maxlen 0

unfoldable pub strcmp_loop : ℕ → Mem → ℕ → ℕ → Option ℤ
strcmp_loop zero m a b = none
strcmp_loop (suc fuel) m a b =
    let rest = strcmp_loop fuel m (a + 1) (b + 1) in
    if not (m a == 0) && (m a == m b)
    then rest
    else some (if ltb (m a) (m b) then negsuc 0 else if ltb (m b) (m a) then pos 1 else pos 0)

unfoldable pub strcmp : ℕ → Mem → ℕ → ℕ → Option ℤ
strcmp fuel m a b = do assert (not (a == 0)); assert (not (b == 0)); strcmp_loop fuel m a b

unfoldable pub strchr_loop : ℕ → Mem → ℕ → ℕ → Option ℕ
strchr_loop zero m string c = none
strchr_loop (suc fuel) m string c =
    let rest = strchr_loop fuel m (string + 1) c in
    if m string == c then some string else if m string == 0 then some 0 else rest

unfoldable pub strchr : ℕ → Mem → ℕ → ℕ → Option ℕ
strchr fuel m string c = do assert (not (string == 0)); strchr_loop fuel m string (c % 2 ^ 8)

unfoldable pub strrchr_loop : ℕ → Mem → ℕ → ℕ → ℕ → Option ℕ
strrchr_loop zero m string c p = none
strrchr_loop (suc fuel) m string c p =
    let rest = strrchr_loop fuel m (string + 1) c (if m string == c then string else p) in
    if m string == 0 then some p else rest

unfoldable pub strrchr : ℕ → Mem → ℕ → ℕ → Option ℕ
strrchr fuel m string c = strrchr_loop fuel m string (c % 2 ^ 8) 0

-- `strchr (set, c) != NULL`
unfoldable pub is_in : ℕ → Mem → ℕ → ℕ → Option Bool
is_in fuel m set c = strchr fuel m set c >>= λ q. some (not (q == 0))

-- The loop of strcspn (break_at true) and of strspn (break_at false).
unfoldable pub span_loop : Bool → ℕ → ℕ → Mem → ℕ → ℕ → ℕ → Option ℕ
span_loop break_at zero fuel m string set length = none
span_loop break_at (suc n) fuel m string set length =
    let rest = span_loop break_at n fuel m string set (length + 1) in
    if m (string + length) == 0
    then some length
    else (is_in fuel m set (m (string + length)) >>= λ found.
        if (if break_at then found else not found) then some length else rest)

unfoldable pub strcspn : ℕ → Mem → ℕ → ℕ → Option ℕ
strcspn fuel m string stop = span_loop true fuel fuel m string stop 0

unfoldable pub strspn : ℕ → Mem → ℕ → ℕ → Option ℕ
strspn fuel m string skip = span_loop false fuel fuel m string skip 0

unfoldable pub strpbrk_loop : ℕ → ℕ → Mem → ℕ → ℕ → Option ℕ
strpbrk_loop zero fuel m string stop = none
strpbrk_loop (suc n) fuel m string stop =
    let rest = strpbrk_loop n fuel m (string + 1) stop in
    if m string == 0
    then some 0
    else (is_in fuel m stop (m string) >>= λ found. if found then some string else rest)

unfoldable pub strpbrk : ℕ → Mem → ℕ → ℕ → Option ℕ
strpbrk fuel m string stop = strpbrk_loop fuel fuel m string stop

unfoldable pub is_zero : ℤ → Bool
is_zero (pos n) = n == 0
is_zero (negsuc n) = false

-- The loop of strstr, with k places left to try from i on.
unfoldable pub strstr_loop : ℕ → Mem → ℕ → ℕ → ℕ → ℕ → Option ℕ
strstr_loop zero m haystack needle needle_len i = some 0
strstr_loop (suc k) m haystack needle needle_len i =
    let rest = strstr_loop k m haystack needle needle_len (i + 1) in
    memcmp m (haystack + i) needle needle_len >>= λ r.
    if is_zero r then some (haystack + i) else rest

unfoldable pub strstr : ℕ → Mem → ℕ → ℕ → Option ℕ
strstr fuel m haystack needle = do
  haystack_len ← strlen fuel m haystack
  needle_len ← strlen fuel m needle
  if leb needle_len haystack_len
      then strstr_loop (haystack_len - needle_len + 1) m haystack needle needle_len 0
      else some 0

-- Where the skipping of delimiters ends, and whether at the end of the string.
unfoldable pub skip_loop : ℕ → ℕ → Mem → ℕ → ℕ → Option (ℕ × Bool)
skip_loop zero fuel m delimiters s = none
skip_loop (suc n) fuel m delimiters s =
    let rest = skip_loop n fuel m delimiters (s + 1) in
    is_in fuel m delimiters (m s) >>= λ found.
    if found then (if m s == 0 then some (s, true) else rest) else some (s, false)

unfoldable pub token_loop : ℕ → ℕ → Mem → ℕ → ℕ → Option ℕ
token_loop zero fuel m delimiters s = none
token_loop (suc n) fuel m delimiters s =
    let rest = token_loop n fuel m delimiters (s + 1) in
    is_in fuel m delimiters (m s) >>= λ found. if found then some s else rest

-- The rest of strtok_r, after the delimiters at s were skipped: memory, *save_ptr and the result.
unfoldable pub cut_token : ℕ → Mem → ℕ → ℕ × Bool → Option (Mem × ℕ × ℕ)
cut_token fuel m delimiters (s, true) = some (m, s, 0)
cut_token fuel m delimiters (token, false) = do
  s ← token_loop fuel fuel m delimiters token
  some (if not (m s == 0) then (update m s 0, s + 1, token) else (m, s, token))

-- save is *save_ptr, which is no byte of the strings.
unfoldable pub strtok_r : ℕ → Mem → ℕ → ℕ → ℕ → Option (Mem × ℕ × ℕ)
strtok_r fuel m s delimiters save = do
  assert (not (delimiters == 0))
  let start = if s == 0 then save else s
  assert (not (start == 0))
  skipped ← skip_loop fuel fuel m delimiters start
  cut_token fuel m delimiters skipped

-- `memcpy (dst, src, len); dst[len] = '\0';`
unfoldable pub put_string : Mem → ℕ → ℕ → ℕ → Option Mem
put_string m dst src len = do (m', _) ← memcpy m dst src len; some (update m' (dst + len) 0)

unfoldable pub strlcpy : ℕ → Mem → ℕ → ℕ → ℕ → Option (Mem × ℕ)
strlcpy fuel m dst src size = do
  assert (not (dst == 0))
  assert (not (src == 0))
  src_len ← strlen fuel m src
  m' ←
      (if ltb 0 size
        then put_string m dst src (if ltb src_len (size - 1) then src_len else size - 1)
        else some m)
  some (m', src_len)

unfoldable pub strlcat : ℕ → Mem → ℕ → ℕ → ℕ → Option (Mem × ℕ)
strlcat fuel m dst src size = do
  assert (not (dst == 0))
  assert (not (src == 0))
  src_len ← strlen fuel m src
  dst_len ← strlen fuel m dst
  m' ←
      (if ltb 0 size && ltb dst_len size
        then put_string m (dst + dst_len) src
            (if ltb src_len (size - dst_len - 1) then src_len else size - dst_len - 1)
        else some m)
  some (m', src_len + dst_len)

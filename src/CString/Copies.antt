-- ===== src/CString/Copies.antt =====
-- What strlcpy and strlcat leave in memory.
use cs140_operating_systems.Base.{
  ℕ, zero, suc, ◌+◌, ◌-◌, ◌≤◌, ◌<◌, min, ◌≡◌, ◌≢◌, refl, ◌∙◌, true, false, ◌&&◌, some, ltb,
  if◌then◌else◌, update, arith, inl, inr, ◌⊎◌, Bool-cases, ==-eq_false, lt→ltb, update_self,
  update_ne,
}
use cs140_operating_systems.Memory.{Mem}
use cs140_operating_systems.Memory.Copy.{memcpy-Copied}
use cs140_operating_systems.CString.{strlen, put_string, strlcpy, strlcat}
use cs140_operating_systems.CString.Find.{Str, strlen-Str}

-- A string of len bytes stands at dst that is the first len bytes at src; only those and its null byte
-- were written.
pub record Put (m : Mem) (dst src len : ℕ) (m' : Mem) : Type 0 where
  pub copied : (i : ℕ) → i < len → m' (dst + i) ≡ m (src + i)
  pub ends : m' (dst + len) ≡ 0
  pub outside : (j : ℕ) → (j < dst) ⊎ (dst + len < j) → m' j ≡ m j

put_string-Put :
    (m : Mem) (dst src len : ℕ)
    → dst ≢ 0
    → src ≢ 0
    → (dst + len ≤ src) ⊎ (src + len ≤ dst)
    → (m' : Mem) × (put_string m dst src len ≡ some m') × Put m dst src len m'
unfolding put_string
put_string-Put m dst src len hd hs apart =
    let (m1, run, c) = memcpy-Copied m dst src len hd hs apart in
    (
      update m1 (dst + len) 0,
      rw run,
      record {
        copied = λ i lt. update_ne m1 (dst + len) 0 (dst + i) (omega arith) ∙ c.inside i lt;
        ends = update_self m1 (dst + len) 0;
        outside = λ j h.
            update_ne m1 (dst + len) 0 j (elim h [ inl a ↦ omega arith | inr b ↦ omega arith ])
            ∙ c.outside j (elim h [ inl a ↦ inl a | inr b ↦ inr (omega arith) ]);
      },
    )

-- The source a string of n bytes, a buffer of size bytes that does not overlap it and fuel above n:
-- strlcpy fails no ASSERT and returns n. It leaves in the buffer the first bytes of the source, at most
-- size - 1, and a null byte, and if size is 0, it changes nothing.
pub strlcpy-Put :
    (fuel : ℕ) (m : Mem) (dst src size n : ℕ)
    → dst ≢ 0
    → src ≢ 0
    → Str m src n
    → n < fuel
    → (dst + size ≤ src) ⊎ (src + n ≤ dst)
    → (m' : Mem) × (strlcpy fuel m dst src size ≡ some (m', n))
      × (size ≡ 0 → m' ≡ m)
      × (0 < size → Put m dst src (min n (size - 1)) m')
unfolding strlcpy
strlcpy-Put fuel m dst src zero n hd hs s h apart = (
  m,
  rw (==-eq_false dst 0 hd, ==-eq_false src 0 hs, strlen-Str fuel m src n hs s h),
  λ e. refl,
  λ lt. elim lt [ ],
)
strlcpy-Put fuel m dst src (suc size) n hd hs s h apart =
    let some_room : ltb 0 (suc size) ≡ true = lt→ltb 0 (suc size) (omega arith) in
    let len : (if ltb n (suc size - 1) then n else suc size - 1) ≡ min n (suc size - 1) =
      ground arith in
    let (m', run, put) =
      put_string-Put m dst src (min n (suc size - 1)) hd hs
        (elim apart [ inl a ↦ inl (omega arith) | inr b ↦ inr (omega arith) ]) in
    (
      m',
      rw (
        ==-eq_false dst 0 hd,
        ==-eq_false src 0 hs,
        strlen-Str fuel m src n hs s h,
        some_room,
        len,
        run,
      ),
      λ e. absurd (omega (arith, e)),
      λ lt. put,
    )

strlcat_run :
    (fuel : ℕ) (m : Mem) {m' : Mem} {dst src size n k : ℕ}
    → dst ≢ 0
    → src ≢ 0
    → strlen fuel m src ≡ some n
    → strlen fuel m dst ≡ some k
    → k < size
    → put_string m (dst + k) src (min n (size - k - 1)) ≡ some m'
    → strlcat fuel m dst src size ≡ some (m', n + k)
unfolding strlcat
strlcat_run fuel m {m'} {dst} {src} {size} {n} {k} hd hs rn rk fits run =
    let room : ltb k size ≡ true = ground arith in
    let some_room : ltb 0 size ≡ true = lt→ltb 0 size (omega arith) in
    let len : (if ltb n (size - k - 1) then n else size - k - 1) ≡ min n (size - k - 1) =
      ground arith in
    rw (==-eq_false dst 0 hd, ==-eq_false src 0 hs, rn, rk, some_room, room, len, run)

-- The source a string of n bytes, the destination one of k bytes in a buffer of size bytes that does not
-- overlap the source, and fuel above both: strlcat fails no ASSERT and returns k + n. If k is less than
-- size, it puts at the end of the destination the first bytes of the source, so that at most size - 1
-- are there, and a null byte; else it changes nothing.
pub strlcat-Put :
    (fuel : ℕ) (m : Mem) (dst src size n k : ℕ)
    → dst ≢ 0
    → src ≢ 0
    → Str m src n
    → Str m dst k
    → n < fuel
    → k < fuel
    → (dst + size ≤ src) ⊎ (src + n ≤ dst)
    → (m' : Mem) × (strlcat fuel m dst src size ≡ some (m', n + k))
      × (size ≤ k → m' ≡ m)
      × (k < size → Put m (dst + k) src (min n (size - k - 1)) m')
unfolding strlcat
strlcat-Put fuel m dst src size n k hd hs s t hn hk apart = elim (Bool-cases (ltb k size)) [
  | inl room ↦
      let fits : k < size = ground arith in
      let (m', run, put) =
        put_string-Put m (dst + k) src (min n (size - k - 1)) (omega arith) hs
          (elim apart [ inl a ↦ inl (omega arith) | inr b ↦ inr (omega arith) ]) in
      (
        m',
        strlcat_run fuel m hd hs (strlen-Str fuel m src n hs s hn) (strlen-Str fuel m dst k hd t hk)
            fits run,
        λ le. absurd (omega (arith, fits, le)),
        λ lt. put,
      )
  | inr full ↦
      let over : size ≤ k = ground arith in
      let off : (ltb 0 size && false) ≡ false = ground arith in
      (
        m,
        rw (
          ==-eq_false dst 0 hd,
          ==-eq_false src 0 hs,
          strlen-Str fuel m src n hs s hn,
          strlen-Str fuel m dst k hd t hk,
          full,
          off,
        ),
        λ le. refl,
        λ lt. absurd (omega (arith, over, lt)),
      )
]

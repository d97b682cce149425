-- ===== src/Memory/Atomic.antt =====
-- atomic_gio_memcpy is memcpy, done in the largest words that fit.
use mathlib.Core.Path.{fun_ext, subst}
use cs140_operating_systems.Base.{
  ℕ, zero, suc, ◌+◌, ◌-◌, ◌≤◌, ◌<◌, ◌≡◌, ◌≢◌, sym, ap, ◌∙◌, true, false, some, ltb, leb, arith, inl,
  inr, ◌⊎◌, Bool-cases,
}
use cs140_operating_systems.Memory.{Mem, copy_word, copy_words, memcpy, atomic_gio_memcpy}
use cs140_operating_systems.Memory.Copy.{Copied, Copied-nothing, memcpy-Copied}

copy_word-Copied : (k : ℕ) (m : Mem) (dst src : ℕ) → Copied m dst src k (copy_word k m dst src)
unfolding copy_word
copy_word-Copied k m dst src = record {
  inside = λ i h.
      let above : leb dst (dst + i) ≡ true = ground arith in
      let below : ltb (dst + i) (dst + k) ≡ true = ground arith in
      rw (above, below) (ap m (omega arith));
  outside = λ j h. elim h [
    | inl a ↦ let out : leb dst j ≡ false = ground arith in rw out
    | inr b ↦
        let above : leb dst j ≡ true = ground arith in
        let out : ltb j (dst + k) ≡ false = ground arith in rw (above, out)
  ];
}

-- Two blocks copied one after the other are one block.
Copied-append :
    (m m1 m2 : Mem) (dst src a b : ℕ)
    → (dst + (a + b) ≤ src) ⊎ (src + (a + b) ≤ dst)
    → Copied m dst src a m1
    → Copied m1 (dst + a) (src + a) b m2
    → Copied m dst src (a + b) m2
Copied-append m m1 m2 dst src a b apart c d = record {
  inside = λ i h. elim (Bool-cases (ltb i a)) [
    | inl lt ↦
        let less : i < a = ground arith in d.outside (dst + i) (inl (omega arith)) ∙ c.inside i less
    | inr ge ↦
        let more : a ≤ i = ground arith in
        ap m2 (omega arith)
        ∙ d.inside (i - a) (omega arith)
        ∙ c.outside (src + a + (i - a))
            (elim apart [ inl l ↦ inr (omega arith) | inr r ↦ inl (omega arith) ])
        ∙ ap m (omega arith)
  ];
  outside = λ j h.
      d.outside j (elim h [ inl l ↦ inl (omega arith) | inr r ↦ inr (omega arith) ])
      ∙ c.outside j (elim h [ inl l ↦ inl l | inr r ↦ inr (omega arith) ]);
}

moved :
    {m : Mem} {d d' s s' left : ℕ}
    → d ≡ d'
    → s ≡ s'
    → ◌≡◌ {A = Mem × ℕ × ℕ × ℕ} (m, d, s, left) (m, d', s', left)
moved p q = rw (p, q)

apart_part :
    {dst src n : ℕ} (off k : ℕ)
    → off + k ≤ n
    → (dst + n ≤ src) ⊎ (src + n ≤ dst)
    → (dst + off + k ≤ src + off) ⊎ (src + off + k ≤ dst + off)
apart_part off k h (inl l) = inl (omega arith)
apart_part off k h (inr r) = inr (omega arith)

-- Where the loop over words of k bytes is after n bytes.
copy_words-Copied :
    (fuel k : ℕ) (m : Mem) (dst src size : ℕ)
    → 0 < k
    → size ≤ fuel
    → (dst + size ≤ src) ⊎ (src + size ≤ dst)
    → (n left : ℕ) × (m' : Mem) × (copy_words fuel k m dst src size ≡ (m', dst + n, src + n, left))
      × (n + left ≡ size)
      × (left < k)
      × Copied m dst src n m'
unfolding copy_words
copy_words-Copied zero k m dst src size hk hf apart = (
  0,
  size,
  m,
  moved (omega arith) (omega arith),
  omega arith,
  omega arith,
  Copied-nothing m dst src,
)
copy_words-Copied (suc fuel) k m dst src size hk hf apart = elim (Bool-cases (leb k size)) [
  | inl le ↦
      let fits : k ≤ size = ground arith in
      let (n, left, m', run, sum, small, copied) =
        copy_words-Copied fuel k (copy_word k m dst src) (dst + k) (src + k) (size - k) hk
          (omega arith) (apart_part k (size - k) (omega arith) apart) in
      (
        k + n,
        left,
        m',
        rw le (run ∙ moved (omega arith) (omega arith)),
        omega (arith, sum),
        small,
        Copied-append m (copy_word k m dst src) m' dst src k n
            (elim apart [ inl l ↦ inl (omega arith) | inr r ↦ inr (omega arith) ])
            (copy_word-Copied k m dst src) copied,
      )
  | inr gt ↦ (
    0,
    size,
    m,
    rw gt (moved (omega arith) (omega arith)),
    omega arith,
    ground arith,
    Copied-nothing m dst src,
  )
]

Copied-unique :
    (m m1 m2 : Mem) (dst src n : ℕ) → Copied m dst src n m1 → Copied m dst src n m2 → m1 ≡ m2
Copied-unique m m1 m2 dst src n c d = fun_ext λ j. elim (Bool-cases (ltb j dst)) [
  | inl lt ↦ let l : j < dst = ground arith in c.outside j (inl l) ∙ sym (d.outside j (inl l))
  | inr ge ↦ elim (Bool-cases (ltb j (dst + n))) [
    | inl lt ↦
        let i : j ≡ dst + (j - dst) = ground arith in
        let h : j - dst < n = ground arith in
        ap m1 i ∙ c.inside (j - dst) h ∙ sym (d.inside (j - dst) h) ∙ sym (ap m2 i)
    | inr out ↦
        let r : dst + n ≤ j = ground arith in c.outside j (inr r) ∙ sym (d.outside j (inr r))
  ]
]

module _ (m : Mem) (dst src n : ℕ) (apart : (dst + n ≤ src) ⊎ (src + n ≤ dst)) where
  -- The loop over words of k bytes, after other loops have copied the first bytes.
  copy_words-rest :
      (k off left : ℕ) (m1 : Mem)
      → 0 < k
      → off + left ≡ n
      → Copied m dst src off m1
      → (off' left' : ℕ) × (m2 : Mem) × (copy_words left k m1 (dst + off) (src + off) left
          ≡ (m2, dst + off', src + off', left'))
        × (off' + left' ≡ n)
        × (left' < k)
        × Copied m dst src off' m2
  copy_words-rest k off left m1 hk sum copied =
      let (n', left', m2, run, sum', small, more) =
        copy_words-Copied left k m1 (dst + off) (src + off) left hk (omega arith)
          (apart_part off left (omega (arith, sum)) apart) in
      (
        off + n',
        left',
        m2,
        run ∙ moved (omega arith) (omega arith),
        omega (arith, sum, sum'),
        small,
        Copied-append m m1 m2 dst src off n' (within (omega (arith, sum, sum'))) copied more,
      )
    where
      within : {k : ℕ} → k ≤ n → (dst + k ≤ src) ⊎ (src + k ≤ dst)
      within h = elim apart [ inl l ↦ inl (omega arith) | inr r ↦ inr (omega arith) ]

  atomic_run :
      {m1 m2 m3 m4 : Mem} {d1 d2 d3 d4 s1 s2 s3 s4 l1 l2 l3 l4 : ℕ}
      → copy_words n 8 m dst src n ≡ (m1, d1, s1, l1)
      → copy_words l1 4 m1 d1 s1 l1 ≡ (m2, d2, s2, l2)
      → copy_words l2 2 m2 d2 s2 l2 ≡ (m3, d3, s3, l3)
      → copy_words l3 1 m3 d3 s3 l3 ≡ (m4, d4, s4, l4)
      → l4 ≡ 0
      → atomic_gio_memcpy m dst src n ≡ some (m4, dst)
  unfolding atomic_gio_memcpy
  atomic_run r1 r2 r3 r4 e = rw (r1, r2, r3, r4, e)

  -- atomic_gio_memcpy on blocks that do not overlap copies the block.
  atomic_gio_memcpy-Copied :
      (m' : Mem) × (atomic_gio_memcpy m dst src n ≡ some (m', dst)) × Copied m dst src n m'
  atomic_gio_memcpy-Copied =
      let (o1, l1, m1, r1, s1, _, c1) =
        copy_words-Copied n 8 m dst src n (omega arith) (omega arith) apart in
      let (o2, l2, m2, r2, s2, _, c2) = copy_words-rest 4 o1 l1 m1 (omega arith) s1 c1 in
      let (o3, l3, m3, r3, s3, _, c3) = copy_words-rest 2 o2 l2 m2 (omega arith) s2 c2 in
      let (o4, l4, m4, r4, s4, small, c4) = copy_words-rest 1 o3 l3 m3 (omega arith) s3 c3 in
      (
        m4,
        atomic_run r1 r2 r3 r4 (omega (arith, small)),
        subst (λ k. Copied m dst src k m4) (omega (arith, small, s4)) c4,
      )

-- Blocks at non-null addresses that do not overlap: atomic_gio_memcpy fails no ASSERT and does what
-- memcpy does, with the same result.
pub atomic_gio_memcpy-memcpy :
    (m : Mem) (dst src n : ℕ)
    → dst ≢ 0
    → src ≢ 0
    → (dst + n ≤ src) ⊎ (src + n ≤ dst)
    → (m' : Mem) × (atomic_gio_memcpy m dst src n ≡ some (m', dst))
      × (memcpy m dst src n ≡ some (m', dst))
atomic_gio_memcpy-memcpy m dst src n hd hs apart =
    let (m1, run1, c1) = atomic_gio_memcpy-Copied m dst src n apart in
    let (m2, run2, c2) = memcpy-Copied m dst src n hd hs apart in
    (m1, run1, run2 ∙ ap (λ k. some (k, dst)) (Copied-unique m m2 m1 dst src n c2 c1))

-- ===== src/Memory/Copy.antt =====
-- What memcpy, memmove and memset leave in memory.
use cs140_operating_systems.Base.{
  ℕ, zero, suc, ◌+◌, ◌-◌, ◌%◌, ◌^◌, ◌≤◌, ◌<◌, ◌≡◌, ◌≢◌, refl, ap, ◌∙◌, some, ◌==◌, ltb,
  if◌then◌else◌, update, arith, inl, inr, ◌⊎◌, Bool-cases, ==-eq_false, update_self, update_ne,
}
use cs140_operating_systems.Memory.{
  Mem, assert_block, copy_up, copy_down, memcpy, memmove, set_bytes, memset,
}

-- The block of n bytes at dst is what the block at src was, and no other byte changed.
pub record Copied (m : Mem) (dst src n : ℕ) (m' : Mem) : Type 0 where
  pub inside : (i : ℕ) → i < n → m' (dst + i) ≡ m (src + i)
  pub outside : (j : ℕ) → (j < dst) ⊎ (dst + n ≤ j) → m' j ≡ m j

pub assert_block-tt : (p n : ℕ) → p ≢ 0 → assert_block p n ≡ some tt
assert_block-tt p n h = rw (==-eq_false p 0 h)

pub Copied-nothing : (m : Mem) (dst src : ℕ) → Copied m dst src 0 m
Copied-nothing m dst src = record { inside = λ i h. elim h [ ]; outside = λ j h. refl }

-- A block that is copied after its first byte was.
Copied-suc :
    (n : ℕ) (m m' : Mem) (dst src : ℕ)
    → (dst ≤ src) ⊎ (src + suc n ≤ dst)
    → Copied (update m dst (m src)) (dst + 1) (src + 1) n m'
    → Copied m dst src (suc n) m'
Copied-suc n m m' dst src apart c = record {
  inside = inside;
  outside = λ j h.
      c.outside j (elim h [ inl a ↦ inl (omega arith) | inr b ↦ inr (omega arith) ])
      ∙ update_ne m dst (m src) j (elim h [ inl a ↦ omega arith | inr b ↦ omega arith ]);
}
  where
    inside : (i : ℕ) → i < suc n → m' (dst + i) ≡ m (src + i)
    inside zero h =
        ap m' (omega arith)
        ∙ c.outside dst (inl (omega arith))
        ∙ update_self m dst (m src)
        ∙ ap m (omega arith)
    inside (suc i) h =
        ap m' (omega arith)
        ∙ c.inside i (omega arith)
        ∙ update_ne m dst (m src) (src + 1 + i)
            (elim apart [ inl a ↦ omega arith | inr b ↦ omega arith ])
        ∙ ap m (omega arith)

-- A block that is copied after its last byte was.
Copied-last :
    (n : ℕ) (m m' : Mem) (dst src : ℕ)
    → src ≤ dst
    → Copied (update m (dst + n) (m (src + n))) dst src n m'
    → Copied m dst src (suc n) m'
Copied-last n m m' dst src le c = record {
  inside = λ i h. elim (Bool-cases (i == n)) [
    | inl e ↦
        let same : i ≡ n = ground arith in
        ap m' (omega arith)
        ∙ c.outside (dst + n) (inr (omega arith))
        ∙ update_self m (dst + n) (m (src + n))
        ∙ ap m (omega arith)
    | inr e ↦
        let less : i < n = ground arith in
        c.inside i less ∙ update_ne m (dst + n) (m (src + n)) (src + i) (omega arith)
  ];
  outside = λ j h.
      c.outside j (elim h [ inl a ↦ inl a | inr b ↦ inr (omega arith) ])
      ∙ update_ne m (dst + n) (m (src + n)) j
          (elim h [ inl a ↦ omega arith | inr b ↦ omega arith ]);
}

pub copy_up-Copied :
    (n : ℕ) (m : Mem) (dst src : ℕ)
    → (dst ≤ src) ⊎ (src + n ≤ dst)
    → (m' : Mem) × (copy_up n m dst src ≡ (m', dst + n)) × Copied m dst src n m'
unfolding copy_up
copy_up-Copied zero m dst src h = (m, ap (λ p. (m, p)) (omega arith), Copied-nothing m dst src)
copy_up-Copied (suc n) m dst src h =
    let (m', run, copied) =
      copy_up-Copied n (update m dst (m src)) (dst + 1) (src + 1)
        (elim h [ inl a ↦ inl (omega arith) | inr b ↦ inr (omega arith) ]) in
    (m', run ∙ ap (λ p. (m', p)) (omega arith), Copied-suc n m m' dst src h copied)

copy_down-Copied :
    (n : ℕ) (m : Mem) (dst src : ℕ)
    → src ≤ dst
    → (m' : Mem) × (copy_down n m (dst + n) (src + n) ≡ (m', dst)) × Copied m dst src n m'
unfolding copy_down
copy_down-Copied zero m dst src h = (m, ap (λ p. (m, p)) (omega arith), Copied-nothing m dst src)
copy_down-Copied (suc n) m dst src h =
    let (m', run, copied) = copy_down-Copied n (update m (dst + n) (m (src + n))) dst src h in
    let d : dst + suc n - 1 ≡ dst + n = omega arith in
    let s : src + suc n - 1 ≡ src + n = omega arith in
    (m', rw (d, s) run, Copied-last n m m' dst src h copied)

-- Blocks at non-null addresses that do not overlap: memcpy fails no ASSERT, copies the block, changes
-- no other byte and returns dst.
pub memcpy-Copied :
    (m : Mem) (dst src n : ℕ)
    → dst ≢ 0
    → src ≢ 0
    → (dst + n ≤ src) ⊎ (src + n ≤ dst)
    → (m' : Mem) × (memcpy m dst src n ≡ some (m', dst)) × Copied m dst src n m'
unfolding memcpy
memcpy-Copied m dst src n hd hs apart =
    let (m', run, copied) =
      copy_up-Copied n m dst src (elim apart [ inl a ↦ inl (omega arith) | inr b ↦ inr b ]) in
    (m', rw (assert_block-tt dst n hd, assert_block-tt src n hs, run), copied)

-- Blocks at non-null addresses, overlapping or not: memmove fails no ASSERT, leaves at dst what the block
-- at src was, and changes no other byte. It returns dst if dst is not below src, and else dst + n, the end
-- of the copied block.
pub memmove-Copied :
    (m : Mem) (dst src n : ℕ)
    → dst ≢ 0
    → src ≢ 0
    → (m' : Mem) × (memmove m dst src n ≡ some (m', if ltb dst src then dst + n else dst))
      × Copied m dst src n m'
unfolding memmove
memmove-Copied m dst src n hd hs = elim (Bool-cases (ltb dst src)) [
  | inl lt ↦
      let (m', run, copied) = copy_up-Copied n m dst src (inl (ground arith)) in
      (m', rw (assert_block-tt dst n hd, assert_block-tt src n hs, lt, run), copied)
  | inr ge ↦
      let (m', run, copied) = copy_down-Copied n m dst src (ground arith) in
      (m', rw (assert_block-tt dst n hd, assert_block-tt src n hs, ge, run), copied)
]

-- The n bytes at dst are the byte v, and no other byte changed.
pub record Wiped (m : Mem) (dst n v : ℕ) (m' : Mem) : Type 0 where
  pub inside : (i : ℕ) → i < n → m' (dst + i) ≡ v
  pub outside : (j : ℕ) → (j < dst) ⊎ (dst + n ≤ j) → m' j ≡ m j

Wiped-suc :
    (n : ℕ) (m m' : Mem) (dst v : ℕ)
    → Wiped (update m dst v) (dst + 1) n v m'
    → Wiped m dst (suc n) v m'
Wiped-suc n m m' dst v w = record {
  inside = inside;
  outside = λ j h.
      w.outside j (elim h [ inl a ↦ inl (omega arith) | inr b ↦ inr (omega arith) ])
      ∙ update_ne m dst v j (elim h [ inl a ↦ omega arith | inr b ↦ omega arith ]);
}
  where
    inside : (i : ℕ) → i < suc n → m' (dst + i) ≡ v
    inside zero h = ap m' (omega arith) ∙ w.outside dst (inl (omega arith)) ∙ update_self m dst v
    inside (suc i) h = ap m' (omega arith) ∙ w.inside i (omega arith)

set_bytes-Wiped :
    (n : ℕ) (m : Mem) (dst value : ℕ) → Wiped m dst n (value % 2 ^ 8) (set_bytes n m dst value)
unfolding set_bytes
set_bytes-Wiped zero m dst value = record { inside = λ i h. elim h [ ]; outside = λ j h. refl }
set_bytes-Wiped (suc n) m dst value =
    Wiped-suc n m _ dst (value % 2 ^ 8)
      (set_bytes-Wiped n (update m dst (value % 2 ^ 8)) (dst + 1) value)

-- On a block at a non-null address, memset fails no ASSERT, sets each byte to value as an unsigned char,
-- changes no other byte and returns dst.
pub memset-Wiped :
    (m : Mem) (dst value n : ℕ)
    → dst ≢ 0
    → (m' : Mem) × (memset m dst value n ≡ some (m', dst)) × Wiped m dst n (value % 2 ^ 8) m'
unfolding memset
memset-Wiped m dst value n hd =
    (set_bytes n m dst value, rw (assert_block-tt dst n hd), set_bytes-Wiped n m dst value)

-- ===== src/Memory/Compare.antt =====
-- What memcmp, memchr and memset find and leave.
use mathlib.Core.Path.{subst}
use cs140_operating_systems.Base.{
  ℕ, zero, suc, ◌+◌, ◌%◌, ◌^◌, ◌<◌, ◌≡◌, ◌≢◌, ap, ◌∙◌, some, ◌==◌, ltb, arith, inl, inr, Bool-cases,
  ℤ, pos, negsuc,
}
use cs140_operating_systems.Memory.{Mem, memcmp, compare_loop, chr_loop, memchr}
use cs140_operating_systems.Memory.Copy.{assert_block-tt}

-- The n bytes at a and at b are the same.
pub Alike : Mem → ℕ → ℕ → ℕ → Type 0
Alike m a b n = (i : ℕ) → i < n → m (a + i) ≡ m (b + i)

-- r is 0 for equal blocks, and else 1 or -1 as the first byte that differs is the greater at a or at b.
pub data Compared (m : Mem) (a b n : ℕ) : ℤ → Type 0 where
  equal : Alike m a b n → Compared m a b n (pos 0)
  greater : (i : ℕ) → i < n → Alike m a b i → m (b + i) < m (a + i) → Compared m a b n (pos 1)
  less : (i : ℕ) → i < n → Alike m a b i → m (a + i) < m (b + i) → Compared m a b n (negsuc 0)

Alike-suc : (m : Mem) (a b n : ℕ) → m a ≡ m b → Alike m (a + 1) (b + 1) n → Alike m a b (suc n)
unfolding Alike
Alike-suc m a b n e h zero lt = ap m (omega arith) ∙ e ∙ ap m (omega arith)
Alike-suc m a b n e h (suc i) lt = ap m (omega arith) ∙ h i (omega arith) ∙ ap m (omega arith)

shift_lt : (m : Mem) (a b i : ℕ) → m (a + 1 + i) < m (b + 1 + i) → m (a + suc i) < m (b + suc i)
shift_lt m a b i h =
    let p : m (a + 1 + i) ≡ m (a + suc i) = ap m (omega arith) in
    let q : m (b + 1 + i) ≡ m (b + suc i) = ap m (omega arith) in omega (arith, p, q)

pub Compared-suc :
    (m : Mem) (a b n : ℕ) (r : ℤ)
    → m a ≡ m b
    → Compared m (a + 1) (b + 1) n r
    → Compared m a b (suc n) r
Compared-suc m a b n _ e (equal h) = equal (Alike-suc m a b n e h)
Compared-suc m a b n _ e (greater i lt h g) =
    greater (suc i) (omega arith) (Alike-suc m a b i e h) (shift_lt m b a i g)
Compared-suc m a b n _ e (less i lt h g) =
    less (suc i) (omega arith) (Alike-suc m a b i e h) (shift_lt m a b i g)

pub Compared-greater : (m : Mem) (a b n : ℕ) → m b < m a → Compared m a b (suc n) (pos 1)
unfolding Alike
Compared-greater m a b n h =
    let p : m (a + 0) ≡ m a = ap m (omega arith) in
    let q : m (b + 0) ≡ m b = ap m (omega arith) in
    greater 0 (omega arith) (λ i h. elim h [ ]) (omega (arith, p, q))

pub Compared-less : (m : Mem) (a b n : ℕ) → m a < m b → Compared m a b (suc n) (negsuc 0)
unfolding Alike
Compared-less m a b n h =
    let p : m (a + 0) ≡ m a = ap m (omega arith) in
    let q : m (b + 0) ≡ m b = ap m (omega arith) in
    less 0 (omega arith) (λ i h. elim h [ ]) (omega (arith, p, q))

pub Compared-one : (m : Mem) (a b : ℕ) → m a ≡ m b → Compared m a b 1 (pos 0)
unfolding Alike
Compared-one m a b e = equal (Alike-suc m a b 0 e (λ i h. elim h [ ]))

pub compare_loop-Compared : (n : ℕ) (m : Mem) (a b : ℕ) → Compared m a b n (compare_loop n m a b)
unfolding compare_loop Alike
compare_loop-Compared zero m a b = equal (λ i h. elim h [ ])
compare_loop-Compared (suc n) m a b = elim (Bool-cases (m a == m b)) [
  | inl e ↦ rw e (Compared-suc m a b n _ (ground arith) (compare_loop-Compared n m (a + 1) (b + 1)))
  | inr ne ↦ elim (Bool-cases (ltb (m b) (m a))) [
    | inl gt ↦ rw (ne, gt) (Compared-greater m a b n (ground arith))
    | inr le ↦ rw (ne, le) (Compared-less m a b n (ground arith))
  ]
]

-- On blocks at non-null addresses, memcmp fails no ASSERT and orders the blocks by the first byte that
-- differs.
pub memcmp-Compared :
    (m : Mem) (a b n : ℕ) → a ≢ 0 → b ≢ 0 → (r : ℤ) × (memcmp m a b n ≡ some r) × Compared m a b n r
unfolding memcmp
memcmp-Compared m a b n ha hb = (
  compare_loop n m a b,
  rw (assert_block-tt a n ha, assert_block-tt b n hb),
  compare_loop-Compared n m a b,
)

-- p is the first of the n places from start on with a byte c, or null if there is none.
pub data Found (m : Mem) (start n c : ℕ) : ℕ → Type 0 where
  here :
      (i : ℕ)
      → i < n
      → m (start + i) ≡ c
      → ((j : ℕ) → j < i → m (start + j) ≢ c)
      → Found m start n c (start + i)
  nowhere : ((j : ℕ) → j < n → m (start + j) ≢ c) → Found m start n c 0

pub absent_suc :
    (m : Mem) (start n c : ℕ)
    → m start ≢ c
    → ((j : ℕ) → j < n → m (start + 1 + j) ≢ c)
    → (j : ℕ) → j < suc n
    → m (start + j) ≢ c
absent_suc m start n c ne h zero lt e = ne (ap m (omega arith) ∙ e)
absent_suc m start n c ne h (suc j) lt e = h j (omega arith) (ap m (omega arith) ∙ e)

Found-suc :
    (m : Mem) (start n c : ℕ) {r : ℕ}
    → m start ≢ c
    → Found m (start + 1) n c r
    → Found m start (suc n) c r
Found-suc m start n c ne (here i lt at before) =
    subst (Found m start (suc n) c) (omega arith)
      (here (suc i) (omega arith) (ap m (omega arith) ∙ at) (absent_suc m start i c ne before))
Found-suc m start n c ne (nowhere before) = nowhere (absent_suc m start n c ne before)

Found-first : (m : Mem) (start n c : ℕ) → m start ≡ c → Found m start (suc n) c start
Found-first m start n c e =
    let same : start + 0 ≡ start = omega arith in
    subst (Found m start (suc n) c) same (here 0 (omega arith) (ap m same ∙ e) (λ j h. elim h [ ]))

chr_loop-Found : (n : ℕ) (m : Mem) (block c : ℕ) → Found m block n c (chr_loop n m block c)
unfolding chr_loop
chr_loop-Found zero m block c = nowhere (λ j h. elim h [ ])
chr_loop-Found (suc n) m block c = elim (Bool-cases (m block == c)) [
  | inl e ↦ rw e (Found-first m block n c (ground arith))
  | inr ne ↦ rw ne (Found-suc m block n c (ground arith) (chr_loop-Found n m (block + 1) c))
]

-- On a block at a non-null address, memchr fails no ASSERT and finds the first byte that is ch as an
-- unsigned char.
pub memchr-Found :
    (m : Mem) (block ch n : ℕ)
    → block ≢ 0
    → (p : ℕ) × (memchr m block ch n ≡ some p) × Found m block n (ch % 2 ^ 8) p
unfolding memchr
memchr-Found m block ch n hb = (
  chr_loop n m block (ch % 2 ^ 8),
  rw (assert_block-tt block n hb),
  chr_loop-Found n m block (ch % 2 ^ 8),
)

pub Alike-at : (m : Mem) (a b : ℕ) {n : ℕ} → Alike m a b n → (i : ℕ) → i < n → m (a + i) ≡ m (b + i)
unfolding Alike
Alike-at m a b h = h

-- ===== src/CString/Order.antt =====
-- How strcmp orders strings.
use cs140_operating_systems.Base.{
  ℕ, zero, suc, ◌+◌, ◌<◌, ◌≡◌, ◌≢◌, sym, ap, ◌∙◌, true, false, not, ◌&&◌, some, ◌==◌, ltb, arith,
  inl, inr, Bool-cases, ==-eq_false, ℤ, pos, negsuc,
}
use cs140_operating_systems.Memory.{Mem}
use cs140_operating_systems.Memory.Compare.{
  Compared, Compared-suc, Compared-greater, Compared-less, Compared-one,
}
use cs140_operating_systems.CString.{strcmp_loop, strcmp}
use cs140_operating_systems.CString.Find.{Str, Str-suc}

strcmp_loop-less :
    (fuel : ℕ) (m : Mem) (a b : ℕ) → m a < m b → strcmp_loop (suc fuel) m a b ≡ some (negsuc 0)
unfolding strcmp_loop
strcmp_loop-less fuel m a b h =
    let ne : (m a == m b) ≡ false = ground arith in
    let lt : ltb (m a) (m b) ≡ true = ground arith in
    let off : (not (m a == 0) && false) ≡ false = ground arith in rw (ne, lt, off)

strcmp_loop-greater :
    (fuel : ℕ) (m : Mem) (a b : ℕ) → m b < m a → strcmp_loop (suc fuel) m a b ≡ some (pos 1)
unfolding strcmp_loop
strcmp_loop-greater fuel m a b h =
    let ne : (m a == m b) ≡ false = ground arith in
    let ge : ltb (m a) (m b) ≡ false = ground arith in
    let gt : ltb (m b) (m a) ≡ true = ground arith in
    let off : (not (m a == 0) && false) ≡ false = ground arith in rw (ne, ge, gt, off)

strcmp_loop-ends :
    (fuel : ℕ) (m : Mem) (a b : ℕ)
    → m a ≡ m b
    → m a ≡ 0
    → strcmp_loop (suc fuel) m a b ≡ some (pos 0)
unfolding strcmp_loop
strcmp_loop-ends fuel m a b e z = let z' : m b ≡ 0 = sym e ∙ z in rw (z, z')

strcmp_loop-suc :
    (fuel : ℕ) (m : Mem) (a b : ℕ)
    → m a ≡ m b
    → m a ≢ 0
    → strcmp_loop (suc fuel) m a b ≡ strcmp_loop fuel m (a + 1) (b + 1)
unfolding strcmp_loop
strcmp_loop-suc fuel m a b e nz =
    let t : (m a == m b) ≡ true = ground arith in rw (t, ==-eq_false (m a) 0 nz)

strcmp_loop-Compared :
    (n fuel : ℕ) (m : Mem) (a b : ℕ)
    → Str m a n
    → n < fuel
    → (r : ℤ) × (strcmp_loop fuel m a b ≡ some r) × Compared m a b (suc n) r
strcmp_loop-Compared n zero m a b s h = elim h [ ]
strcmp_loop-Compared zero (suc fuel) m a b s h =
    let z : m a ≡ 0 = ap m (omega arith) ∙ s.ends in
    elim (Bool-cases (m b == 0)) [
      | inl e ↦
          let same : m a ≡ m b = ground arith in
          (pos 0, strcmp_loop-ends fuel m a b same z, Compared-one m a b same)
      | inr ne ↦
          let lt : m a < m b = ground arith in
          (negsuc 0, strcmp_loop-less fuel m a b lt, Compared-less m a b 0 lt)
    ]
strcmp_loop-Compared (suc n) (suc fuel) m a b s h =
    let nz : m a ≢ 0 = λ e. s.before 0 (omega arith) (ap m (omega arith) ∙ e) in
    elim (Bool-cases (m a == m b)) [
      | inl e ↦
          let same : m a ≡ m b = ground arith in
          let (r, run, c) =
            strcmp_loop-Compared n fuel m (a + 1) (b + 1) (Str-suc s) (omega arith) in
          (r, strcmp_loop-suc fuel m a b same nz ∙ run, Compared-suc m a b (suc n) r same c)
      | inr ne ↦ elim (Bool-cases (ltb (m a) (m b))) [
        | inl l ↦
            let lt : m a < m b = ground arith in
            (negsuc 0, strcmp_loop-less fuel m a b lt, Compared-less m a b (suc n) lt)
        | inr g ↦
            let gt : m b < m a = ground arith in
            (pos 1, strcmp_loop-greater fuel m a b gt, Compared-greater m a b (suc n) gt)
      ]
    ]

-- Where a is a string of n bytes, with fuel above n, strcmp fails no ASSERT, and orders a and b by the
-- first byte that differs, up to the null byte of a.
pub strcmp-Compared :
    (fuel : ℕ) (m : Mem) (a b n : ℕ)
    → a ≢ 0
    → b ≢ 0
    → Str m a n
    → n < fuel
    → (r : ℤ) × (strcmp fuel m a b ≡ some r) × Compared m a b (suc n) r
unfolding strcmp
strcmp-Compared fuel m a b n ha hb s h =
    let (r, run, c) = strcmp_loop-Compared n fuel m a b s h in
    (r, rw (==-eq_false a 0 ha, ==-eq_false b 0 hb) run, c)

-- ===== src/Hash/Counts.antt =====
-- Project 4: File System/src/lib/kernel/hash.c: how often an element is in which bucket, and what moving
-- the elements to new buckets does to that.
use cs140_operating_systems.Base.{
  ℕ, zero, suc, ◌+◌, ◌-◌, ◌≤◌, ◌<◌, ◌≡◌, sym, ap, ◌∙◌, ◌⊎◌, inl, inr, Bool, true, false, some, List,
  [], ◌∷◌, arith, ◌==◌, ==_iff, ==-refl, ltb, lt→ltb, if◌then◌else◌, Bool-cases, update,
  occurrences,
}
use cs140_operating_systems.Bits.{bit_and-right}
use cs140_operating_systems.Hash.{
  index, turn_off_least_1bit, is_power_of_2, fit_loop, move_bucket, move_loop,
}

module _ (hash : ℕ → ℕ) (less : ℕ → ℕ → Bool) where
  pub index-lt : (cnt x : ℕ) → 0 < cnt → index hash less cnt x < cnt
  index-lt cnt x h = omega (arith, bit_and-right (hash x) (cnt - 1))

  -- One element has come to the front of bucket b.
  pub front-occurrences :
      (y x b i : ℕ) (new : ℕ → List ℕ)
      → occurrences x (update new b (y ∷ new b) i)
        ≡ occurrences x (new i) + (if b == i then (if y == x then 1 else 0) else 0)
  front-occurrences y x b i new = elim (Bool-cases (b == i)) [
    | inl e ↦ let here : i ≡ b = sym ((==_iff b i).0 e) in rw (here, ==-refl b) (ground arith)
    | inr e ↦ let e' : (i == b) ≡ false = ground arith in rw (e, e') (omega arith)
  ]

  -- The elements of a bucket come into the buckets of their own.
  move_bucket-occurrences :
      (cnt : ℕ) (xs : List ℕ) (new : ℕ → List ℕ) (x i : ℕ)
      → occurrences x (move_bucket hash less cnt xs new i)
        ≡ occurrences x (new i) + (if index hash less cnt x == i then occurrences x xs else 0)
  unfolding move_bucket
  move_bucket-occurrences cnt [] new x i = ground arith
  move_bucket-occurrences cnt (y ∷ ys) new x i =
      let b : ℕ = index hash less cnt y in
      move_bucket-occurrences cnt ys (update new b (y ∷ new b)) x i
      ∙ rw (front-occurrences y x b i new) (one_more (Bool-cases (y == x)))
    where
      one_more :
          ((y == x) ≡ true) ⊎ ((y == x) ≡ false)
          → occurrences x (new i)
              + (if index hash less cnt y == i then (if y == x then 1 else 0) else 0)
              + (if index hash less cnt x == i then occurrences x ys else 0)
            ≡ occurrences x (new i)
              + (if index hash less cnt x == i then occurrences x (y ∷ ys) else 0)
      one_more (inl e) = let same : y ≡ x = (==_iff y x).0 e in rw (same, ==-refl x) (ground arith)
      one_more (inr e) = rw e (ground arith)

  -- How often x is in the buckets below k.
  abbrev total : ℕ → (ℕ → List ℕ) → ℕ → ℕ
  total zero old x = 0
  total (suc k) old x = total k old x + occurrences x (old k)

  move_loop-occurrences :
      (cnt k : ℕ) (old : ℕ → List ℕ) (x i : ℕ)
      → occurrences x (move_loop hash less cnt k old i)
        ≡ (if index hash less cnt x == i then total k old x else 0)
  unfolding move_loop
  move_loop-occurrences cnt zero old x i = ground arith
  move_loop-occurrences cnt (suc k) old x i = ground (
    arith,
    move_bucket-occurrences cnt (old k) (move_loop hash less cnt k old) x i,
    move_loop-occurrences cnt k old x i,
  )

  -- With each element in the bucket b x at most.
  total-one :
      (k : ℕ) (old : ℕ → List ℕ) (x b : ℕ)
      → ((i : ℕ) → (b == i) ≡ false → occurrences x (old i) ≡ 0)
      → total k old x ≡ (if ltb b k then occurrences x (old b) else 0)
  total-one zero old x b h = ground arith
  total-one (suc k) old x b h = elim (Bool-cases (b == k)) [
    | inl e ↦
        let here : k ≡ b = sym ((==_iff b k).0 e) in
        let same : occurrences x (old k) ≡ occurrences x (old b) =
          ap (λ j. occurrences x (old j)) here in
        ground (arith, total-one k old x b h)
    | inr e ↦ ground (arith, h k e, total-one k old x b h)
  ]

  -- Moving takes each element to the bucket of its own, as often as it was there before.
  pub move_loop-moved :
      (cnt k : ℕ) (old : ℕ → List ℕ) (x b i : ℕ)
      → b < k
      → ((j : ℕ) → (b == j) ≡ false → occurrences x (old j) ≡ 0)
      → occurrences x (move_loop hash less cnt k old i)
        ≡ (if index hash less cnt x == i then occurrences x (old b) else 0)
  move_loop-moved cnt k old x b i l h =
      move_loop-occurrences cnt k old x i ∙ (rw (total-one k old x b h, lt→ltb b k l))

-- The loop of rehash finds a power of 2 that is not 0.
turn_off-lt : (x : ℕ) → 0 < x → turn_off_least_1bit x < x
unfolding turn_off_least_1bit
turn_off-lt x h = omega (arith, bit_and-right x (x - 1))

turned : (k : ℕ) → 0 < k → is_power_of_2 k ≡ false → 0 < turn_off_least_1bit k
unfolding is_power_of_2
turned k l e = ground arith

pub fit_loop-fits :
    (fuel n : ℕ)
    → n ≤ fuel
    → 0 < n
    → (m : ℕ) × (fit_loop fuel n ≡ some m) × (0 < m) × (m ≤ n) × (is_power_of_2 m ≡ true)
unfolding fit_loop
fit_loop-fits zero n h p = absurd (omega arith)
fit_loop-fits (suc fuel) n h p = elim (Bool-cases (is_power_of_2 n)) [
  | inl e ↦ (n, rw e, p, omega arith, e)
  | inr e ↦
      let (m, run, q, l, two) =
        fit_loop-fits fuel (turn_off_least_1bit n) (omega (arith, turn_off-lt n p))
          (turned n p e) in
      (m, rw e run, q, omega (arith, turn_off-lt n p), two)
]

-- ===== src/CString/Find.antt =====
-- Where strlen, strnlen, strchr and strcmp end.
use cs140_operating_systems.Base.{
  ℕ, zero, suc, ◌+◌, ◌%◌, ◌^◌, ◌≤◌, ◌<◌, min, ◌≡◌, ◌≢◌, refl, sym, ap, ◌∙◌, Bool, true, false, not,
  ◌||◌, ◌&&◌, Option, none, some, ◌==◌, ltb, leb, if◌then◌else◌, ◌>>=◌, arith, inl, inr, Bool-cases,
  ==-eq_false, lt→ltb,
}
use cs140_operating_systems.Memory.{Mem}
use cs140_operating_systems.Memory.Compare.{Found, here, nowhere}
use cs140_operating_systems.CString.{
  strlen_loop, strlen, strnlen_loop, strnlen, strchr_loop, strchr,
}

-- The n bytes at p are not null, and the next is.
pub record Str (m : Mem) (p n : ℕ) : Type 0 where
  pub ends : m (p + n) ≡ 0
  pub before : (i : ℕ) → i < n → m (p + i) ≢ 0

-- The first place from p on where the test holds.
abbrev pub scan : ℕ → (ℕ → Bool) → ℕ → Option ℕ
scan zero test p = none
scan (suc fuel) test p = let rest = scan fuel test (p + 1) in if test p then some p else rest

pub record First (test : ℕ → Bool) (p k : ℕ) : Type 0 where
  pub holds : test (p + k) ≡ true
  pub fails : (i : ℕ) → i < k → test (p + i) ≡ false

First-suc :
    (test : ℕ → Bool) (p k : ℕ) → test p ≡ false → First test (p + 1) k → First test p (suc k)
First-suc test p k e f = record { holds = ap test (omega arith) ∙ f.holds; fails = fails }
  where
    fails : (i : ℕ) → i < suc k → test (p + i) ≡ false
    fails zero h = ap test (omega arith) ∙ e
    fails (suc i) h = ap test (omega arith) ∙ f.fails i (omega arith)

First-here :
    (fuel : ℕ) (test : ℕ → Bool) (p : ℕ)
    → test p ≡ true
    → (k : ℕ) × (k ≤ 0) × (scan (suc fuel) test p ≡ some (p + k)) × First test p k
First-here fuel test p y = (
  0,
  omega arith,
  rw y (ap some (omega arith)),
  record { holds = ap test (omega arith) ∙ y; fails = λ i lt. elim lt [ ] },
)

-- With fuel for a place where the test holds, a first one is found.
pub scan-First :
    (n fuel : ℕ) (test : ℕ → Bool) (p : ℕ)
    → n < fuel
    → test (p + n) ≡ true
    → (k : ℕ) × (k ≤ n) × (scan fuel test p ≡ some (p + k)) × First test p k
scan-First n zero test p h e = elim h [ ]
scan-First zero (suc fuel) test p h e = First-here fuel test p (ap test (omega arith) ∙ e)
scan-First (suc n) (suc fuel) test p h e = elim (Bool-cases (test p)) [
  | inl y ↦ let (k, le, run, first) = First-here fuel test p y in (k, omega arith, run, first)
  | inr n' ↦
      let (k, le, run, first) =
        scan-First n fuel test (p + 1) (omega arith) (ap test (omega arith) ∙ e) in
      (suc k, omega arith, rw n' (run ∙ ap some (omega arith)), First-suc test p k n' first)
]

pub First-unique : (test : ℕ → Bool) (p k n : ℕ) → First test p k → First test p n → k ≡ n
First-unique test p k n f g = elim (Bool-cases (ltb k n)) [
  | inl lt ↦ let h : k < n = ground arith in let a = f.holds in let b = g.fails k h in cc
  | inr ge ↦ elim (Bool-cases (ltb n k)) [
    | inl lt ↦ let h : n < k = ground arith in let a = g.holds in let b = f.fails n h in cc
    | inr le ↦ ground arith
  ]
]

abbrev pub is_end : Mem → ℕ → Bool
is_end m p = m p == 0

pub Str-First : {m : Mem} {p n : ℕ} → Str m p n → First (is_end m) p n
Str-First {m} {p} s = record {
  holds = rw s.ends;
  fails = λ i h. ==-eq_false (m (p + i)) 0 (s.before i h);
}

strlen_loop-scan : (fuel : ℕ) (m : Mem) (p : ℕ) → strlen_loop fuel m p ≡ scan fuel (is_end m) p
unfolding strlen_loop
strlen_loop-scan zero m p = refl
strlen_loop-scan (suc fuel) m p = rw (strlen_loop-scan fuel m (p + 1))

-- On a string of n bytes, with fuel above n, strlen fails no ASSERT and returns n.
pub strlen-Str :
    (fuel : ℕ) (m : Mem) (string n : ℕ)
    → string ≢ 0
    → Str m string n
    → n < fuel
    → strlen fuel m string ≡ some n
unfolding strlen
strlen-Str fuel m string n hs s h =
    let (k, le, run, first) = scan-First n fuel (is_end m) string h (Str-First s).holds in
    let same = First-unique (is_end m) string k n first (Str-First s) in
    rw (==-eq_false string 0 hs, strlen_loop-scan fuel m string, run)
      (ap some (omega (arith, same)))

strnlen_loop-scan :
    (fuel : ℕ) (m : Mem) (string maxlen l : ℕ)
    → strnlen_loop fuel m string maxlen l
      ≡ scan fuel (λ j. not (not (m (string + j) == 0) && ltb j maxlen)) l
unfolding strnlen_loop
strnlen_loop-scan zero m string maxlen l = refl
strnlen_loop-scan (suc fuel) m string maxlen l =
    elim (Bool-cases (not (m (string + l) == 0) && ltb l maxlen)) [
      | inl go ↦ rw go (strnlen_loop-scan fuel m string maxlen (l + 1))
      | inr stop ↦ rw stop
    ]

-- On a string of n bytes, with fuel above n, strnlen returns n or maxlen, whichever is less.
pub strnlen-min :
    (fuel : ℕ) (m : Mem) (string maxlen n : ℕ)
    → Str m string n
    → n < fuel
    → strnlen fuel m string maxlen ≡ some (min n maxlen)
unfolding strnlen
strnlen-min fuel m string maxlen n s h =
    let (k, le, run, first) = scan-First n fuel test 0 h ends in
    let same : k ≡ min n maxlen = First-unique test 0 k (min n maxlen) first least in
    strnlen_loop-scan fuel m string maxlen 0 ∙ run ∙ ap some (omega (arith, same))
  where
    test : ℕ → Bool
    test j = not (not (m (string + j) == 0) && ltb j maxlen)

    ends : test (0 + n) ≡ true
    ends =
        let z : m (string + (0 + n)) ≡ 0 = ap (λ k. m (string + k)) (omega arith) ∙ s.ends in rw z

    least : First test 0 (min n maxlen)
    least = record {
      holds = elim (Bool-cases (leb n maxlen)) [
        | inl le ↦
            let h' : n ≤ maxlen = ground arith in
            let z : m (string + (0 + min n maxlen)) ≡ 0 =
              ap (λ k. m (string + k)) (omega arith) ∙ s.ends in
            rw z
        | inr gt ↦
            let h' : maxlen < n = ground arith in
            let over : ltb (0 + min n maxlen) maxlen ≡ false = ground arith in
            rw over (ground arith)
      ];
      fails = λ i lt.
          let nz : (m (string + (0 + i)) == 0) ≡ false =
            ==-eq_false _ 0
              (λ e. s.before i (omega arith) (ap (λ k. m (string + k)) (omega arith) ∙ e)) in
          let under : ltb (0 + i) maxlen ≡ true = lt→ltb (0 + i) maxlen (omega arith) in
          rw (nz, under);
    }

strchr_loop-scan :
    (fuel : ℕ) (m : Mem) (string c : ℕ)
    → strchr_loop fuel m string c
      ≡ (scan fuel (λ q. (m q == c) || (m q == 0)) string >>= λ q. some (if m q == c then q else 0))
unfolding strchr_loop
strchr_loop-scan zero m string c = refl
strchr_loop-scan (suc fuel) m string c = elim (Bool-cases (m string == c)) [
  | inl e ↦ rw (e, e)
  | inr ne ↦ elim (Bool-cases (m string == 0)) [
    | inl z ↦ rw (ne, z, ne)
    | inr nz ↦ rw (ne, nz) (strchr_loop-scan fuel m (string + 1) c)
  ]
]

pub Str-end : {m : Mem} {p n : ℕ} → Str m p n → (k : ℕ) → k ≤ n → m (p + k) ≡ 0 → k ≡ n
Str-end {m} {p} {n} s k le e = elim (Bool-cases (k == n)) [
  | inl same ↦ ground arith
  | inr ne ↦ absurd (s.before k (ground arith) e)
]

Found-of_First :
    (m : Mem) (string c n k : ℕ)
    → Str m string n
    → k ≤ n
    → First (λ q. (m q == c) || (m q == 0)) string k
    → Found m string (suc n) c (if m (string + k) == c then string + k else 0)
Found-of_First m string c n k s le first = elim (Bool-cases (m (string + k) == c)) [
  | inl e ↦ rw e (here k (omega arith) (ground arith) (λ j h. other j h))
  | inr ne ↦
      let stop : m (string + k) ≡ 0 = ground (arith, first.holds) in
      let same : k ≡ n = Str-end s k le stop in rw ne (nowhere (last ne same))
]
  where
    other : (j : ℕ) → j < k → m (string + j) ≢ c
    other j h = let f = first.fails j h in ground arith

    last : (m (string + k) == c) ≡ false → k ≡ n → (j : ℕ) → j < suc n → m (string + j) ≢ c
    last ne same j h = elim (Bool-cases (ltb j k)) [
      | inl lt ↦ other j (ground arith)
      | inr ge ↦ λ e.
          let at : j ≡ k = ground (arith, same) in
          let here' : m (string + k) ≡ c = ap (λ i. m (string + i)) (sym at) ∙ e in ground arith
    ]

-- On a string of n bytes, with fuel above n, strchr fails no ASSERT and finds the first byte that is c as
-- a char, the null byte at the end included.
pub strchr-Found :
    (fuel : ℕ) (m : Mem) (string c n : ℕ)
    → string ≢ 0
    → Str m string n
    → n < fuel
    → (q : ℕ) × (strchr fuel m string c ≡ some q) × Found m string (suc n) (c % 2 ^ 8) q
unfolding strchr
strchr-Found fuel m string c n hs s h =
    let (k, le, run, first) =
      scan-First n fuel (λ q. (m q == c % 2 ^ 8) || (m q == 0)) string h
        (rw s.ends (ground arith)) in
    (
      _,
      rw (==-eq_false string 0 hs, strchr_loop-scan fuel m string (c % 2 ^ 8), run),
      Found-of_First m string (c % 2 ^ 8) n k s le first,
    )

pub Str-suc : {m : Mem} {p n : ℕ} → Str m p (suc n) → Str m (p + 1) n
Str-suc {m} s = record {
  ends = ap m (omega arith) ∙ s.ends;
  before = λ i h e. s.before (suc i) (omega arith) (ap m (omega arith) ∙ e);
}

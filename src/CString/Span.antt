-- ===== src/CString/Span.antt =====
-- Where strcspn, strspn and strpbrk end.
use cs140_operating_systems.Base.{
  ℕ, zero, suc, ◌+◌, ◌%◌, ◌^◌, ◌≤◌, ◌<◌, ◌≡◌, ◌≢◌, refl, sym, ap, ◌∙◌, Bool, true, false, not, ◌||◌,
  some, ◌==◌, if◌then◌else◌, ◌>>=◌, arith, inl, inr, ◌⊎◌, Bool-cases, ==-eq_false, ==-refl,
}
use cs140_operating_systems.Memory.{Mem}
use cs140_operating_systems.Memory.Compare.{Found, here, nowhere}
use cs140_operating_systems.CString.{is_in, span_loop, strcspn, strspn, strpbrk_loop, strpbrk}
use cs140_operating_systems.CString.Find.{Str, scan, scan-First, is_end, strchr-Found}

-- One of the n bytes at p is c.
unfoldable pub occurs : Mem → ℕ → ℕ → ℕ → Bool
occurs m p zero c = false
occurs m p (suc n) c = occurs m p n c || (m (p + n) == c)

pub occurs-true : (m : Mem) (p n c i : ℕ) → i < n → m (p + i) ≡ c → occurs m p n c ≡ true
unfolding occurs
occurs-true m p zero c i lt e = elim lt [ ]
occurs-true m p (suc n) c i lt e = elim (Bool-cases (i == n)) [
  | inl last ↦
      let at : (m (p + n) == c) ≡ true =
        let same : i ≡ n = ground arith in rw (sym same, e) (==-refl c) in
      rw at (ground arith)
  | inr ne ↦ rw (occurs-true m p n c i (ground arith) e)
]

occurs-false : (m : Mem) (p n c : ℕ) → ((j : ℕ) → j < n → m (p + j) ≢ c) → occurs m p n c ≡ false
unfolding occurs
occurs-false m p zero c h = refl
occurs-false m p (suc n) c h = rw (
  occurs-false m p n c (λ j lt. h j (omega arith)),
  ==-eq_false (m (p + n)) c (h n (omega arith)),
)

Found-occurs : (m : Mem) (p n c q : ℕ) → p ≢ 0 → Found m p n c q → not (q == 0) ≡ occurs m p n c
Found-occurs m p n c _ hp (here i lt e before) =
    rw (occurs-true m p n c i lt e, ==-eq_false (p + i) 0 (omega arith))
Found-occurs m p n c _ hp (nowhere before) = rw (occurs-false m p n c before)

-- The byte c, as a char, is among the k bytes of the string at set or is its null byte.
abbrev pub among : Mem → ℕ → ℕ → ℕ → Bool
among m set k c = occurs m set (suc k) (c % 2 ^ 8)

pub is_in-among :
    (fuel : ℕ) (m : Mem) (set c k : ℕ)
    → set ≢ 0
    → Str m set k
    → k < fuel
    → is_in fuel m set c ≡ some (among m set k c)
unfolding is_in
is_in-among fuel m set c k hs s h =
    let (q, run, found) = strchr-Found fuel m set c k hs s h in
    rw run (ap some (Found-occurs m set (suc k) (c % 2 ^ 8) q hs found))

-- The loops end at the null byte, or at a byte that is among those of a second string, or is not.
module _ (fuel : ℕ) (m : Mem) (set k : ℕ) (hs : set ≢ 0) (s : Str m set k) (hk : k < fuel) where
  abbrev span_end : Bool → ℕ → ℕ → Bool
  span_end break_at string l =
      is_end m (string + l)
      || (if break_at then among m set k (m (string + l)) else not (among m set k (m (string + l))))

  span_loop-scan :
      (n : ℕ) (break_at : Bool) (string l : ℕ)
      → span_loop break_at n fuel m string set l ≡ scan n (span_end break_at string) l
  unfolding span_loop
  span_loop-scan zero break_at string l = refl
  span_loop-scan (suc n) break_at string l = elim (Bool-cases (m (string + l) == 0)) [
    | inl z ↦ rw z
    | inr nz ↦ elim (Bool-cases (among m set k (m (string + l)))) [
      | inl y ↦ rw (
        nz,
        is_in-among fuel m set (m (string + l)) k hs s hk,
        y,
        span_loop-scan n break_at string (l + 1),
      )
      | inr y ↦ rw (
        nz,
        is_in-among fuel m set (m (string + l)) k hs s hk,
        y,
        span_loop-scan n break_at string (l + 1),
      )
    ]
  ]

  strpbrk_loop-scan :
      (n string : ℕ)
      → strpbrk_loop n fuel m string set ≡ (
          scan n (λ q. is_end m q || among m set k (m q)) string >>= λ q.
          some (if is_end m q then 0 else q))
  unfolding strpbrk_loop
  strpbrk_loop-scan zero string = refl
  strpbrk_loop-scan (suc n) string = elim (Bool-cases (m string == 0)) [
    | inl z ↦ rw (z, z)
    | inr nz ↦ elim (Bool-cases (among m set k (m string))) [
      | inl y ↦ rw (nz, is_in-among fuel m set (m string) k hs s hk, y, nz)
      | inr y ↦
          rw (nz, is_in-among fuel m set (m string) k hs s hk, y) (strpbrk_loop-scan n (string + 1))
    ]
  ]

-- The first l of the n bytes of a string are not those that the loop breaks at, and it ends at such a
-- byte or at the null byte.
pub record Span (stops : ℕ → Bool) (n l : ℕ) : Type 0 where
  pub bound : l ≤ n
  pub within : (i : ℕ) → i < l → stops i ≡ false
  pub ends : (l ≡ n) ⊎ ((l < n) × (stops l ≡ true))

pub First-Span :
    (m : Mem) (string n l : ℕ) (stops : ℕ → Bool)
    → Str m string n
    → l ≤ n
    → (is_end m (string + l) || stops l) ≡ true
    → ((i : ℕ) → i < l → (is_end m (string + i) || stops i) ≡ false)
    → Span stops n l
First-Span m string n l stops s le holds fails = record {
  bound = le;
  within = λ i lt. let f = fails i lt in ground (arith, f);
  ends = elim (Bool-cases (l == n)) [
    | inl e ↦ inl (ground arith)
    | inr ne ↦
        let lt : l < n = ground arith in
        let nz : is_end m (string + l) ≡ false = ==-eq_false (m (string + l)) 0 (s.before l lt) in
        inr (lt, ground (arith, holds, nz))
  ];
}

scan-Span :
    (fuel : ℕ) (m : Mem) (string n : ℕ) (stops : ℕ → Bool)
    → Str m string n
    → n < fuel
    → (l : ℕ) × (scan fuel (λ j. is_end m (string + j) || stops j) 0 ≡ some l) × Span stops n l
scan-Span fuel m string n stops s h =
    let z : m (string + (0 + n)) ≡ 0 = ap (λ j. m (string + j)) (omega arith) ∙ s.ends in
    let (l, le, run, first) =
      scan-First n fuel (λ j. is_end m (string + j) || stops j) 0 h (rw z) in
    let test : ℕ → Bool = λ j. is_end m (string + j) || stops j in
    (
      l,
      run ∙ ap some (omega arith),
      First-Span m string n l stops s le (ap test (omega arith) ∙ first.holds)
          (λ i lt. ap test (omega arith) ∙ first.fails i lt),
    )

-- On strings with fuel above their lengths, strcspn fails no ASSERT and returns the length of the longest
-- start of string with no byte of stop.
pub strcspn-Span :
    (fuel : ℕ) (m : Mem) (string stop n k : ℕ)
    → stop ≢ 0
    → Str m string n
    → Str m stop k
    → n < fuel
    → k < fuel
    → (l : ℕ) × (strcspn fuel m string stop ≡ some l)
      × Span (λ i. among m stop k (m (string + i))) n l
unfolding strcspn
strcspn-Span fuel m string stop n k hs s t hn hk =
    let (l, run, span) = scan-Span fuel m string n (λ i. among m stop k (m (string + i))) s hn in
    (l, span_loop-scan fuel m stop k hs t hk fuel true string 0 ∙ run, span)

-- On strings with fuel above their lengths, strspn fails no ASSERT and returns the length of the longest
-- start of string with only bytes of skip.
pub strspn-Span :
    (fuel : ℕ) (m : Mem) (string skip n k : ℕ)
    → skip ≢ 0
    → Str m string n
    → Str m skip k
    → n < fuel
    → k < fuel
    → (l : ℕ) × (strspn fuel m string skip ≡ some l)
      × Span (λ i. not (among m skip k (m (string + i)))) n l
unfolding strspn
strspn-Span fuel m string skip n k hs s t hn hk =
    let (l, run, span) =
      scan-Span fuel m string n (λ i. not (among m skip k (m (string + i)))) s hn in
    (l, span_loop-scan fuel m skip k hs t hk fuel false string 0 ∙ run, span)

-- The null pointer if the first l bytes are the whole string, else the place of the byte after them.
abbrev pub place : ℕ → ℕ → ℕ → ℕ
place string n l = if l == n then 0 else string + l

end-place :
    (m : Mem) (string n l : ℕ)
    → Str m string n
    → l ≤ n
    → (if is_end m (string + l) then 0 else string + l) ≡ place string n l
end-place m string n l s le = elim (Bool-cases (l == n)) [
  | inl e ↦
      let z : m (string + l) ≡ 0 =
        let same : l ≡ n = ground arith in ap (λ j. m (string + j)) same ∙ s.ends in
      rw (z, e)
  | inr ne ↦ rw (==-eq_false (m (string + l)) 0 (s.before l (ground arith)), ne)
]

-- On strings with fuel above their lengths, strpbrk fails no ASSERT and finds the first byte of string
-- that is one of stop, if there is any.
pub strpbrk-Span :
    (fuel : ℕ) (m : Mem) (string stop n k : ℕ)
    → stop ≢ 0
    → Str m string n
    → Str m stop k
    → n < fuel
    → k < fuel
    → (l : ℕ) × (strpbrk fuel m string stop ≡ some (place string n l))
      × Span (λ i. among m stop k (m (string + i))) n l
unfolding strpbrk
strpbrk-Span fuel m string stop n k hs s t hn hk =
    let (l, le, run, first) =
      scan-First n fuel (λ q. is_end m q || among m stop k (m q)) string hn (rw s.ends) in
    (
      l,
      strpbrk_loop-scan fuel m stop k hs t hk fuel string
          ∙ (rw run (ap some (end-place m string n l s le))),
      First-Span m string n l (λ i. among m stop k (m (string + i))) s le first.holds first.fails,
    )

-- ===== src/Bitmap/Scan.antt =====
-- bitmap_scan and bitmap_scan_and_flip: the first group of bits that all have a value.
use cs140_operating_systems.Base.{
  ℕ, zero, suc, ◌+◌, ◌-◌, ◌≤◌, ◌<◌, ◌≡◌, ◌≢◌, refl, Bool, not, ◌⊎◌, some, ◌==◌, leb, le→leb,
  Bool-cases, inl, inr, arith, ==-eq_false,
}
use cs140_operating_systems.Bitmap.{
  Bitmap, bitmap_error, scan_loop, bitmap_scan, bitmap_scan_and_flip,
}
use cs140_operating_systems.Bitmap.Words.{IsValid, bit}
use cs140_operating_systems.Bitmap.Ranges.{contains-Answers, Filled, set_multiple-Filled}

-- The cnt bits from i on all have the value.
abbrev pub Group : Bitmap → ℕ → ℕ → Bool → Type 0
Group b cnt i value = (j : ℕ) → i ≤ j → j < i + cnt → bit b j ≡ value

-- Some bit among the cnt from i on has the other value.
abbrev pub Broken : Bitmap → ℕ → ℕ → Bool → Type 0
Broken b cnt i value = (j : ℕ) × (i ≤ j) × (j < i + cnt) × (bit b j ≡ not value)

-- No group begins at or after `start` and before `end`.
abbrev pub NoGroup : Bitmap → ℕ → Bool → ℕ → ℕ → Type 0
NoGroup b cnt value start end = (i : ℕ) → start ≤ i → i < end → Broken b cnt i value

-- What a scan from `start` found.
pub data Scanned (b : Bitmap) (start cnt : ℕ) (value : Bool) : ℕ → Type 0 where
  at :
      (idx : ℕ)
      → start ≤ idx
      → idx + cnt ≤ b.bit_cnt
      → Group b cnt idx value
      → NoGroup b cnt value start idx
      → Scanned b start cnt value idx
  nowhere :
      {idx : ℕ}
      → idx ≡ bitmap_error
      → NoGroup b cnt value start (b.bit_cnt + 1 - cnt)
      → Scanned b start cnt value idx

module _ {b : Bitmap} (cnt : ℕ) (value : Bool) (v : IsValid b) where
  later :
      {i idx : ℕ}
      → Broken b cnt i value
      → Scanned b (i + 1) cnt value idx
      → Scanned b i cnt value idx
  later {i} broken (at idx lo hi group before) = at idx (omega arith) hi group λ k ge lt.
      elim (Bool-cases (k == i)) [
        | inl e ↦ let same : k ≡ i = ground arith in rw same broken
        | inr e ↦ before k (ground arith) lt
      ]
  later {i} broken (nowhere e before) = nowhere e λ k ge lt. elim (Bool-cases (k == i)) [
    | inl e ↦ let same : k ≡ i = ground arith in rw same broken
    | inr e ↦ before k (ground arith) lt
  ]

  scan_loop-Scanned :
      (n i : ℕ)
      → n ≡ b.bit_cnt + 1 - cnt - i
      → (idx : ℕ) × (scan_loop n b i cnt value ≡ some idx) × Scanned b i cnt value idx
  unfolding scan_loop
  scan_loop-Scanned zero i h = (bitmap_error, refl, nowhere refl (λ k lo hi. absurd (omega arith)))
  scan_loop-Scanned (suc n) i h =
      let (r, run, is) = contains-Answers i cnt (not value) v (omega arith) in
      let (idx, runs, rest) = scan_loop-Scanned n (i + 1) (omega arith) in
      elim (Bool-cases r) [
        | inl hit ↦ (idx, rw (run, hit) runs, later (is.found hit) rest)
        | inr miss ↦ (
          i,
          rw (run, miss),
          at i (omega arith) (omega arith) (λ j lo hi. ground (arith, is.clear miss j lo hi))
              (λ k lo hi. absurd (omega arith)),
        )
      ]

-- From a start within the bitmap, bitmap_scan fails no ASSERT. It returns the first index at or after
-- `start` where cnt bits in a row all have the value, or SIZE_MAX if there is no such index.
pub scan-Scanned :
    {b : Bitmap} (start cnt : ℕ) (value : Bool)
    → IsValid b
    → start ≤ b.bit_cnt
    → (idx : ℕ) × (bitmap_scan b start cnt value ≡ some idx) × Scanned b start cnt value idx
unfolding bitmap_scan
scan-Scanned {b} start cnt value v h = elim (Bool-cases (leb cnt b.bit_cnt)) [
  | inl fits ↦
      let (idx, run, is) =
        scan_loop-Scanned cnt value v (b.bit_cnt - cnt + 1 - start) start (ground arith) in
      (idx, rw (le→leb start b.bit_cnt h, fits) run, is)
  | inr big ↦ (
    bitmap_error,
    rw (le→leb start b.bit_cnt h, big),
    nowhere refl (λ k lo hi. absurd (ground arith)),
  )
]

-- What a scan and flip leaves: a group at `idx` has turned to the other value and nothing else
-- changed, or there is no group and nothing changed.
abbrev pub Flipped : Bitmap → ℕ → ℕ → Bool → ℕ → Bitmap → Type 0
Flipped b start cnt value idx c =
    Scanned b start cnt value idx
    × (((idx ≢ bitmap_error) × Filled b idx cnt (not value) c) ⊎ ((idx ≡ bitmap_error) × (c ≡ b)))

-- From a start within the bitmap, bitmap_scan_and_flip fails no ASSERT. It finds what bitmap_scan
-- finds, turns the bits of the group to the other value and changes no other bit; if there is no
-- group, it changes nothing.
pub scan_and_flip-Flipped :
    {b : Bitmap} (start cnt : ℕ) (value : Bool)
    → IsValid b
    → start ≤ b.bit_cnt
    → (idx : ℕ) × (c : Bitmap) × (bitmap_scan_and_flip b start cnt value ≡ some (idx, c))
      × Flipped b start cnt value idx c
unfolding bitmap_scan_and_flip
scan_and_flip-Flipped {b} start cnt value v h =
    let (idx, run, is) = scan-Scanned start cnt value v h in go idx run is
  where
    go :
        (idx : ℕ)
        → bitmap_scan b start cnt value ≡ some idx
        → Scanned b start cnt value idx
        → (idx : ℕ) × (c : Bitmap) × (bitmap_scan_and_flip b start cnt value ≡ some (idx, c))
          × Flipped b start cnt value idx c
    go idx run (nowhere e none_found) = (idx, b, rw (run, e), (nowhere e none_found, inr (e, refl)))
    go idx run (at _ lo hi group before) =
        let ne : idx ≢ bitmap_error = omega (arith, v.small) in
        let (c, runs, filled) = set_multiple-Filled idx cnt (not value) v hi in
        (idx, c, rw (run, ==-eq_false _ _ ne, runs), (at idx lo hi group before, inl (ne, filled)))

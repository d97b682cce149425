-- ===== src/Bitmap/Ranges.antt =====
-- bitmap_set_multiple, bitmap_count, bitmap_contains and bitmap_all over a range of bits.
use native.Mathlib.Nat.{add-zero}
use cs140_operating_systems.Base.{
  ℕ, zero, suc, ◌+◌, ◌%◌, ◌≤◌, ◌<◌, ◌≡◌, refl, ap, Bool, true, false, not, ◌&&◌, none, some, ◌==◌,
  ltb, leb, same, le→leb, Bool-cases, if◌then◌else◌, inl, inr, arith, ◌∙◌, ◌↔◌, List, length,
}
use cs140_operating_systems.Bitmap.{
  Bitmap, word, elem_bits, set_loop, bitmap_set_multiple, bitmap_set_all, count_loop, bitmap_count,
  contains_loop, bitmap_contains, bitmap_all, assert_range, elem_cnt, bitmap_create,
}
use cs140_operating_systems.Bitmap.Words.{IsValid, bit, Wrote-IsValid, set-Wrote, test-bit}

-- j lies among the n places from lo on.
abbrev pub in_range : ℕ → ℕ → ℕ → Bool
in_range lo n j = leb lo j && ltb j (lo + n)

-- `c` is `b` but for the n bits from lo on, which are v.
pub record Filled (b : Bitmap) (lo n : ℕ) (v : Bool) (c : Bitmap) : Type 0 where
  pub valid : IsValid c
  pub cnt : c.bit_cnt ≡ b.bit_cnt
  pub bits : (j : ℕ) → bit c j ≡ (if in_range lo n j then v else bit b j)

set_loop-Filled :
    (n : ℕ) {b : Bitmap} (start i : ℕ) (value : Bool)
    → IsValid b
    → start + i + n ≤ b.bit_cnt
    → (c : Bitmap) × (set_loop n b start i value ≡ some c) × Filled b (start + i) n value c
unfolding set_loop
set_loop-Filled zero {b} start i value v h =
    (b, refl, record { valid = v; cnt = refl; bits = λ j. ground arith })
set_loop-Filled (suc n) {b} start i value v h =
    let here : (start + i) % word ≡ start + i = omega (arith, v.small) in
    let (c, run, wrote) = set-Wrote ((start + i) % word) v (omega arith) value in
    let (d, runs, filled) =
      set_loop-Filled n start (i + 1) value (Wrote-IsValid wrote v) (omega (arith, wrote.cnt)) in
    (
      d,
      rw run runs,
      record {
        valid = filled.valid;
        cnt = omega (arith, filled.cnt, wrote.cnt);
        bits = λ j. ground (arith, filled.bits j, wrote.bits j);
      },
    )

assert_range-some :
    (b : Bitmap) (start cnt : ℕ)
    → IsValid b
    → start + cnt ≤ b.bit_cnt
    → assert_range b start cnt ≡ some tt
assert_range-some b start cnt v h =
    let flat : (start + cnt) % word ≡ start + cnt = omega (arith, v.small) in
    rw (le→leb start b.bit_cnt (omega arith), flat, le→leb (start + cnt) b.bit_cnt h)

module _ {b : Bitmap} (start cnt : ℕ) (value : Bool) (v : IsValid b)
    (h : start + cnt ≤ b.bit_cnt) where
  -- On a range of the bitmap, bitmap_set_multiple fails no ASSERT, gives every bit of the range the
  -- value and leaves every other bit and the size alone.
  pub set_multiple-Filled :
      (c : Bitmap) × (bitmap_set_multiple b start cnt value ≡ some c) × Filled b start cnt value c
  unfolding bitmap_set_multiple
  set_multiple-Filled =
      let (c, run, filled) = set_loop-Filled cnt start 0 value v (omega arith) in
      (
        c,
        rw (assert_range-some b start cnt v h) run,
        record {
          valid = filled.valid;
          cnt = filled.cnt;
          bits = λ j. ground (arith, filled.bits j);
        },
      )

-- How many of the n places from lo on hold the value.
pub occurrences : (ℕ → Bool) → ℕ → ℕ → Bool → ℕ
occurrences f lo zero value = 0
occurrences f lo (suc n) value =
    (if same (f lo) value then 1 else 0) + occurrences f (lo + 1) n value

count_loop-occurrences :
    (n : ℕ) {b : Bitmap} (start i : ℕ) (value : Bool) (acc : ℕ)
    → IsValid b
    → start + i + n ≤ b.bit_cnt
    → count_loop n b start i value acc ≡ some (acc + occurrences (bit b) (start + i) n value)
unfolding count_loop occurrences
count_loop-occurrences zero start i value acc v h = ap some (omega arith)
count_loop-occurrences (suc n) {b} start i value acc v h =
    let here : (start + i) % word ≡ start + i = omega (arith, v.small) in
    let next : start + (i + 1) ≡ start + i + 1 = omega arith in
    rw (here, test-bit (start + i) v (omega arith))
      (count_loop-occurrences n start (i + 1) value _ v (omega arith)
        ∙ ap some (rw next (ground arith)))

same-eq : (x y : Bool) → same x y ≡ true → x ≡ y
same-eq x y h = ground arith

same-ne : (x y : Bool) → same x y ≡ false → x ≡ not y
same-ne x y h = ground arith

-- What bitmap_contains says of the n bits from lo on.
pub record Answers (b : Bitmap) (lo n : ℕ) (value : Bool) (r : Bool) : Type 0 where
  pub found : r ≡ true → (j : ℕ) × (lo ≤ j) × (j < lo + n) × (bit b j ≡ value)
  pub clear : r ≡ false → (j : ℕ) → lo ≤ j → j < lo + n → bit b j ≡ not value

contains_loop-Answers :
    (n : ℕ) {b : Bitmap} (start i : ℕ) (value : Bool)
    → IsValid b
    → start + i + n ≤ b.bit_cnt
    → (r : Bool) × (contains_loop n b start i value ≡ some r) × Answers b (start + i) n value r
unfolding contains_loop
contains_loop-Answers zero start i value v h =
    (false, refl, record { found = λ e. cc; clear = λ _ j lo hi. absurd (omega arith) })
contains_loop-Answers (suc n) {b} start i value v h =
    let here : (start + i) % word ≡ start + i = omega (arith, v.small) in
    let test = test-bit ((start + i) % word) v (omega arith) in
    let (r, run, rest) = contains_loop-Answers n start (i + 1) value v (omega arith) in
    elim (Bool-cases (same (bit b ((start + i) % word)) value)) [
      | inl hit ↦ (
        true,
        rw (test, hit),
        record {
          found = λ _. ((start + i) % word, omega arith, omega arith, same-eq _ _ hit);
          clear = λ e. cc;
        },
      )
      | inr miss ↦ (
        r,
        rw (test, miss) run,
        record {
          found = λ e. let (j, lo, hi, is) = rest.found e in (j, omega arith, omega arith, is);
          clear = λ e j lo hi. elim (Bool-cases (j == (start + i) % word)) [
            | inl at ↦ ground (arith, same-ne (bit b j) value)
            | inr off ↦ rest.clear e j (ground arith) (omega arith)
          ];
        },
      )
    ]

module _ {b : Bitmap} (start cnt : ℕ) (value : Bool) (v : IsValid b)
    (h : start + cnt ≤ b.bit_cnt) where
  -- On a range of the bitmap, bitmap_count fails no ASSERT and returns the number of its bits that
  -- have the value.
  pub count-occurrences :
      bitmap_count b start cnt value ≡ some (occurrences (bit b) start cnt value)
  unfolding bitmap_count
  count-occurrences = rw (assert_range-some b start cnt v h) (
      count_loop-occurrences cnt start 0 value 0 v (omega arith)
      ∙ ap some (rw (add-zero start) (omega arith)))

  -- On a range of the bitmap, bitmap_contains fails no ASSERT. If it returns true, some bit of the
  -- range has the value; if it returns false, none has.
  pub contains-Answers :
      (r : Bool) × (bitmap_contains b start cnt value ≡ some r) × Answers b start cnt value r
  unfolding bitmap_contains
  contains-Answers =
      let (r, run, is) = contains_loop-Answers cnt start 0 value v (omega arith) in
      (r, rw (assert_range-some b start cnt v h) run, rw (add-zero start) at is)

-- The ASSERTs refuse a range that begins past the end.
pub contains-panic :
    (b : Bitmap) (start cnt : ℕ) (value : Bool)
    → b.bit_cnt < start
    → bitmap_contains b start cnt value ≡ none
unfolding bitmap_contains
contains-panic b start cnt value h = ground arith

-- bitmap_all is true exactly if each bit of the range is set.
pub all_iff :
    {b : Bitmap} (start cnt : ℕ)
    → IsValid b
    → start + cnt ≤ b.bit_cnt
    → (r : Bool) × (bitmap_all b start cnt ≡ some r)
      × ((r ≡ true) ↔ ((j : ℕ) → start ≤ j → j < start + cnt → bit b j ≡ true))
unfolding bitmap_all
all_iff {b} start cnt v h =
    let (r, run, is) = contains-Answers start cnt false v h in
    (
      not r,
      rw run,
      (
        λ e j lo hi. is.clear (ground arith) j lo hi,
        λ all. elim (Bool-cases r) [
          | inl e ↦ let (j, lo, hi, no_bit) = is.found e in ground (arith, all j lo hi)
          | inr e ↦ rw e
        ],
      ),
    )

-- A new bitmap of bit_cnt bits is valid and clear, whatever its words held.
pub create-clear :
    (words : List ℕ) (bit_cnt : ℕ)
    → bit_cnt + elem_bits ≤ word
    → length words ≡ elem_cnt bit_cnt
    → (b : Bitmap) × (bitmap_create true (some words) bit_cnt ≡ some (some b))
      × IsValid b
      × (b.bit_cnt ≡ bit_cnt)
      × ((j : ℕ) → j < bit_cnt → bit b j ≡ false)
unfolding bitmap_create bitmap_set_all
create-clear words bit_cnt small room =
    let fresh : Bitmap = record { bit_cnt = bit_cnt; bits = words } in
    let v : IsValid fresh = record { small = small; room = room } in
    let (c, run, filled) = set_multiple-Filled {b = fresh} 0 bit_cnt false v (omega arith) in
    (c, rw run, filled.valid, filled.cnt, λ j h. ground (arith, filled.bits j))

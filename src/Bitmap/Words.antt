-- ===== src/Bitmap/Words.antt =====
-- bitmap.c as an array of bits: what one write changes, through the words and their masks.
use Prim.Native.Nat.{bit_and, differ}
use mathlib.Core.Path.{subst}
use cs140_operating_systems.Base.{
  ℕ, zero, suc, ◌+◌, ◌-◌, ◌%◌, ◌^◌, ◌≤◌, ◌<◌, ◌≡◌, refl, Bool, true, false, not, Option, none, some,
  ◌==◌, inl, inr, ==_iff, Bool-cases, if◌then◌else◌, get_elem?, set, length, arith, get_elem?-some,
  get_elem?-set_self, get_elem?-set_ne, length-set, lt→ltb,
}
use cs140_operating_systems.Bits.{
  digit, digit-lt_two, digit-bit_and, digit-bit_or, digit-bit_xor, digit-pow, digit-complement,
  bit_and-pow-eq_zero, pow_lt_pow,
}
use cs140_operating_systems.Bitmap.{
  Bitmap, elem_bits, elem_cnt, elem_idx, bit_mask, word, change_elem, bitmap_mark, bitmap_reset,
  bitmap_flip, bitmap_set, bitmap_test,
}

-- The words hold every bit, and rounding up does not wrap.
pub record IsValid (b : Bitmap) : Type 0 where
  pub small : b.bit_cnt + elem_bits ≤ word
  pub room : length b.bits ≡ elem_cnt b.bit_cnt

unfoldable pub word_bit : Option ℕ → ℕ → Bool
word_bit none k = false
word_bit (some w) k = not (digit k w == 0)

-- Bit i of the array that a bitmap stands for; false outside the words.
unfoldable pub bit : Bitmap → ℕ → Bool
bit b i = word_bit (get_elem? b.bits (elem_idx i)) (i % elem_bits)

-- `c` is `b` but for bit i, which is v.
pub record Wrote (b : Bitmap) (i : ℕ) (v : Bool) (c : Bitmap) : Type 0 where
  pub cnt : c.bit_cnt ≡ b.bit_cnt
  pub words : length c.bits ≡ length b.bits
  pub bits : (j : ℕ) → bit c j ≡ (if j == i then v else bit b j)

pub Wrote-IsValid : {b c : Bitmap} {i : ℕ} {v : Bool} → Wrote b i v c → IsValid b → IsValid c
Wrote-IsValid {b} {c} w v = record {
  small = omega (arith, v.small, w.cnt);
  room = ground (arith, v.room, w.cnt, w.words);
}

in_words : {b : Bitmap} (i : ℕ) → IsValid b → i < b.bit_cnt → elem_idx i < length b.bits
in_words i v h = omega (arith, v.room, v.small)

differ-zero : (p : ℕ) → differ p 0 ≡ p
differ-zero zero = refl
differ-zero (suc p) = refl

differ-one : (p : ℕ) → p < 2 → differ p 1 ≡ 1 - p
differ-one zero h = refl
differ-one (suc zero) h = refl
differ-one (suc (suc p)) h = absurd (omega arith)

change_elem-Wrote :
    {b : Bitmap} (i : ℕ) (f : ℕ → ℕ) (v : ℕ → Bool)
    → elem_idx i < length b.bits
    → ((w k : ℕ)
        → k < elem_bits
        → not (digit k (f w) == 0) ≡ (if k == i % elem_bits then v w else not (digit k w == 0)))
    → (w : ℕ) × (c : Bitmap) × (get_elem? b.bits (elem_idx i) ≡ some w)
      × (change_elem b i f ≡ some c)
      × Wrote b i (v w) c
unfolding change_elem bit word_bit
change_elem-Wrote {b} i f v room law =
    let (w, got) = get_elem?-some b.bits (elem_idx i) room in
    (
      w,
      record b { bits = set b.bits (elem_idx i) (f w) },
      got,
      rw got,
      record {
        cnt = refl;
        words = length-set b.bits (elem_idx i) (f w);
        bits = λ j. elim (Bool-cases (elem_idx j == elem_idx i)) [
          | inl e ↦
              let same : elem_idx j ≡ elem_idx i = (==_iff _ _).0 e in
              rw (same, get_elem?-set_self b.bits (elem_idx i) (f w) room, got)
                (ground (arith, law w (j % 32)))
          | inr e ↦ ground (arith, get_elem?-set_ne b.bits (elem_idx i) (elem_idx j) (f w))
        ];
      },
    )

mask_test : (k w : ℕ) → (bit_and w (2 ^ k) == 0) ≡ (digit k w == 0)
mask_test k w = ground (arith, (bit_and-pow-eq_zero k w).0, (bit_and-pow-eq_zero k w).1)

mask-lt : (i : ℕ) → bit_mask i < 2 ^ 32
mask-lt i = pow_lt_pow (i % 32) 32 (omega arith)

module _ {b : Bitmap} (i : ℕ) (v : IsValid b) (h : i < b.bit_cnt) where
  pub mark-Wrote : (c : Bitmap) × (bitmap_mark b i ≡ some c) × Wrote b i true c
  unfolding bitmap_mark
  mark-Wrote =
      let (w, c, got, run, wrote) =
        change_elem-Wrote i _ (λ _. true) (in_words i v h)
          λ w k lt.
            ground (arith, digit-bit_or k w (bit_mask i), digit-pow k (i % 32), digit-lt_two k w) in
      (c, run, wrote)

  pub reset-Wrote : (c : Bitmap) × (bitmap_reset b i ≡ some c) × Wrote b i false c
  unfolding bitmap_reset
  reset-Wrote =
      let (w, c, got, run, wrote) =
        change_elem-Wrote i _ (λ _. false) (in_words i v h)
          λ w k lt. ground (
            arith,
            digit-bit_and k w (word - 1 - bit_mask i),
            digit-pow k (i % 32),
            digit-lt_two k w,
            digit-complement 32 k (bit_mask i) (mask-lt i) lt,
          ) in
      (c, run, wrote)

  -- Within a valid bitmap, bitmap_flip finds the word, turns that bit to its other value and changes no
  -- other bit.
  pub flip-Wrote : (c : Bitmap) × (bitmap_flip b i ≡ some c) × Wrote b i (not (bit b i)) c
  unfolding bitmap_flip bit word_bit
  flip-Wrote =
      let (w, c, got, run, wrote) =
        change_elem-Wrote i _ (λ w. digit (i % elem_bits) w == 0) (in_words i v h)
          λ w k lt. ground (
            arith,
            digit-bit_xor k w (bit_mask i),
            digit-pow k (i % 32),
            digit-lt_two k w,
            differ-zero (digit k w),
            differ-one (digit k w),
          ) in
      let flipped : (digit (i % elem_bits) w == 0) ≡ not (bit b i) = rw got (ground arith) in
      (c, run, subst (λ x. Wrote b i x c) flipped wrote)

  pub set-Wrote :
      (value : Bool) → (c : Bitmap) × (bitmap_set b i value ≡ some c) × Wrote b i value c
  unfolding bitmap_set
  set-Wrote true = let (c, run, wrote) = mark-Wrote in (c, rw (lt→ltb i b.bit_cnt h) run, wrote)
  set-Wrote false = let (c, run, wrote) = reset-Wrote in (c, rw (lt→ltb i b.bit_cnt h) run, wrote)

  -- `bitmap_test` reads the bit.
  pub test-bit : bitmap_test b i ≡ some (bit b i)
  unfolding bitmap_test bit word_bit
  test-bit =
      let (w, got) = get_elem?-some b.bits (elem_idx i) (in_words i v h) in
      rw (lt→ltb i b.bit_cnt h, got, mask_test (i % elem_bits) w)

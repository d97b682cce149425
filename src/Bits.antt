-- ===== src/Bits.antt =====
-- The binary digits of a number, and the digits of `&`, `|` and `^`, for words of every width.
-- Nothing here models code: C's bit operators are the native ones, and these are their laws.
use Prim.Native.Nat.{bit_and, bit_or, bit_xor, digits, differ}
use Prim.Native.Nat.{bit_and-bitwise, bit_or-bitwise, bit_xor-bitwise}
use native.Mathlib.Nat.{pow-suc}
use cs140_operating_systems.Base.{
  ℕ, zero, suc, ◌+◌, ◌-◌, ◌*◌, ◌/◌, ◌%◌, ◌^◌, ◌≤◌, ◌<◌, min, max, ◌≡◌, refl, arith, ◌∙◌, ap, ◌==◌,
  ◌↔◌, if◌then◌else◌,
}

-- Digit k of a.
unfoldable pub digit : ℕ → ℕ → ℕ
digit zero a = a % 2
digit (suc k) a = digit k (a / 2)

pub digit-lt_two : (k a : ℕ) → digit k a < 2
unfolding digit
digit-lt_two zero a = omega arith
digit-lt_two (suc k) a = digit-lt_two k (a / 2)

digit-zero : (k : ℕ) → digit k 0 ≡ 0
unfolding digit
digit-zero zero = refl
digit-zero (suc k) = digit-zero k

module _ (z : ℕ → ℕ) (f : ℕ → ℕ → ℕ) (small : (p q : ℕ) → p < 2 → q < 2 → f p q < 2)
    (end : (k b : ℕ) → digit k (z b) ≡ f 0 (digit k b)) where
  digit-digits : (n k a b : ℕ) → a ≤ n → digit k (digits z f n a b) ≡ f (digit k a) (digit k b)
  unfolding digit
  digit-digits zero k zero b h = rw (digit-zero k) (end k b)
  digit-digits zero k (suc a) b h = absurd (omega arith)
  digit-digits (suc n) k zero b h = rw (digit-zero k) (end k b)
  digit-digits (suc n) zero (suc a) b h =
      omega (arith, small (suc a % 2) (b % 2) (omega arith) (omega arith))
  digit-digits (suc n) (suc k) (suc a) b h =
      let fits = small (suc a % 2) (b % 2) (omega arith) (omega arith) in
      let high : ◌≡◌ {A = ℕ} ((digits z f n (suc a / 2) (b / 2) * 2 + f (suc a % 2) (b % 2)) / 2)
          (digits z f n (suc a / 2) (b / 2)) =
        omega arith in
      rw high (digit-digits n k (suc a / 2) (b / 2) (omega arith))

pub digit-bit_and : (k a b : ℕ) → digit k (bit_and a b) ≡ min (digit k a) (digit k b)
digit-bit_and k a b = rw bit_and-bitwise (
    digit-digits (λ b. 0) min (λ p q hp hq. omega arith) (λ k b. digit-zero k ∙ omega arith) a k a b
      (omega arith))

pub digit-bit_or : (k a b : ℕ) → digit k (bit_or a b) ≡ max (digit k a) (digit k b)
digit-bit_or k a b = rw bit_or-bitwise (
    digit-digits (λ b. b) max (λ p q hp hq. omega arith) (λ k b. omega arith) a k a b (omega arith))

differ-lt_two : (p q : ℕ) → p < 2 → q < 2 → differ p q < 2
differ-lt_two zero q hp hq = hq
differ-lt_two (suc zero) zero hp hq = omega arith
differ-lt_two (suc zero) (suc q) hp hq = omega arith
differ-lt_two (suc (suc p)) q hp hq = absurd (omega arith)

pub digit-bit_xor : (k a b : ℕ) → digit k (bit_xor a b) ≡ differ (digit k a) (digit k b)
digit-bit_xor k a b =
    rw bit_xor-bitwise
      (digit-digits (λ b. b) differ differ-lt_two (λ k b. refl) a k a b (omega arith))

-- A power of two has one digit.
pub digit-pow : (k i : ℕ) → digit k (2 ^ i) ≡ (if k == i then 1 else 0)
unfolding digit
digit-pow zero zero = refl
digit-pow zero (suc i) = rw pow-suc (ground arith)
digit-pow (suc k) zero = rw digit-zero (ground arith)
digit-pow (suc k) (suc i) =
    let half : ◌≡◌ {A = ℕ} (2 ^ suc i / 2) (2 ^ i) = rw pow-suc (omega arith) in
    rw half (digit-pow k i ∙ ground arith)

-- The complement within w digits.
pub digit-complement : (w k m : ℕ) → m < 2 ^ w → k < w → digit k (2 ^ w - 1 - m) ≡ 1 - digit k m
unfolding digit
digit-complement zero k m h lt = absurd (omega arith)
digit-complement (suc w) zero m h lt = omega (arith, pow-suc 2 w)
digit-complement (suc w) (suc k) m h lt =
    let half : ◌≡◌ {A = ℕ} ((2 ^ suc w - 1 - m) / 2) (2 ^ w - 1 - m / 2) =
      omega (arith, pow-suc 2 w) in
    rw half (digit-complement w k (m / 2) (omega (arith, pow-suc 2 w)) (omega arith))

eq_zero_of_digits : (n a : ℕ) → a ≤ n → ((k : ℕ) → digit k a ≡ 0) → a ≡ 0
unfolding digit
eq_zero_of_digits n zero h all = refl
eq_zero_of_digits zero (suc a) h all = absurd (omega arith)
eq_zero_of_digits (suc n) (suc a) h all =
    let half = eq_zero_of_digits n (suc a / 2) (omega arith) (λ k. all (suc k)) in
    omega (arith, half, all 0)

-- `a & (1 << k)` is zero exactly if digit k of a is.
pub bit_and-pow-eq_zero : (k a : ℕ) → (bit_and a (2 ^ k) ≡ 0) ↔ (digit k a ≡ 0)
bit_and-pow-eq_zero k a = (to, from)
  where
    to : bit_and a (2 ^ k) ≡ 0 → digit k a ≡ 0
    to e = ground (
      arith,
      digit-bit_and k a (2 ^ k),
      digit-pow k k,
      digit-zero k,
      ap (digit k) e,
      digit-lt_two k a,
    )

    from : digit k a ≡ 0 → bit_and a (2 ^ k) ≡ 0
    from e =
        eq_zero_of_digits (bit_and a (2 ^ k)) (bit_and a (2 ^ k)) (omega arith)
          λ j. ground (arith, digit-bit_and j a (2 ^ k), digit-pow j k)

pub pow-pos : (n : ℕ) → 0 < 2 ^ n
pow-pos zero = omega arith
pow-pos (suc n) = omega (arith, pow-suc 2 n, pow-pos n)

pub pow_lt_pow : (a b : ℕ) → a < b → 2 ^ a < 2 ^ b
pow_lt_pow a zero h = elim h [ ]
pow_lt_pow zero (suc b) h = omega (arith, pow-suc 2 b, pow-pos b)
pow_lt_pow (suc a) (suc b) h = omega (arith, pow-suc 2 a, pow-suc 2 b, pow_lt_pow a b (omega arith))

and_digits-right : (n a b : ℕ) → digits (λ c. 0) min n a b ≤ b
and_digits-right zero a b = omega arith
and_digits-right (suc n) zero b = omega arith
and_digits-right (suc n) (suc a) b = omega (arith, and_digits-right n (suc a / 2) (b / 2))

pub bit_and-right : (a b : ℕ) → bit_and a b ≤ b
bit_and-right a b = rw bit_and-bitwise (and_digits-right a a b)

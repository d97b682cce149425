-- ===== src/Thread/Formula.antt =====
-- Project 1: Threads/src/threads/thread.c: the priority of a thread under the multi-level feedback queue
-- scheduler.
use cs140_operating_systems.Base.{
  ◌*◌, ◌^◌, ◌<◌, ◌≡◌, refl, ap, ◌∙◌, inl, inr, some, arith, ltb, Bool-cases, ℤ, pos, negsuc, ◌≤ℤ◌,
  pos_part, neg_part, ◌-ℤ◌, ◌*ℤ◌, ◌/ℤ◌, wrap32, wrap32_small, int_laws,
}
use cs140_operating_systems.FixedPoint.{
  fp, int_to_float, float_to_int, subtract_floats, subtract_floats_and_ints, divide_floats_and_ints,
}
use cs140_operating_systems.Thread.Mlfqs.{clamp_priority, raw_priority, new_priority}
use cs140_operating_systems.Thread.Sound.{InRange}

-- 63 - recent_cpu / 4 - nice * 2, cut to an integer and to the range of the priorities.
abbrev pub formula : ℤ → ℤ → ℤ
formula recent_cpu nice =
    clamp_priority ((pos (63 * 16384) -ℤ recent_cpu /ℤ pos 4 -ℤ nice *ℤ pos 32768) /ℤ pos 16384)

-- A use of the CPU below 2 ^ 17 ticks either way, and a niceness below 2 ^ 13.
abbrev pub IsModest : ℤ → ℤ → Type 0
IsModest recent_cpu nice =
    (pos_part recent_cpu < 2 ^ 31)
    × (neg_part recent_cpu < 2 ^ 31)
    × (pos_part nice < 2 ^ 13)
    × (neg_part nice < 2 ^ 13)

div_4_mono : (a b : ℤ) → a ≤ℤ b → a /ℤ pos 4 ≤ℤ b /ℤ pos 4
unfolding ◌/ℤ◌
div_4_mono (pos a) (pos b) h = ground arith
div_4_mono (pos a) (negsuc b) h = ground arith
div_4_mono (negsuc a) (pos b) h = ground arith
div_4_mono (negsuc a) (negsuc b) h = ground arith

div_fp_mono : (a b : ℤ) → a ≤ℤ b → a /ℤ pos 16384 ≤ℤ b /ℤ pos 16384
unfolding ◌/ℤ◌
div_fp_mono (pos a) (pos b) h = ground arith
div_fp_mono (pos a) (negsuc b) h = ground arith
div_fp_mono (negsuc a) (pos b) h = ground arith
div_fp_mono (negsuc a) (negsuc b) h = ground arith

scale_mono : (a b : ℤ) → a ≤ℤ b → a *ℤ pos 32768 ≤ℤ b *ℤ pos 32768
unfolding ◌*ℤ◌
scale_mono a b h = ground arith

clamp_mono : (a b : ℤ) → a ≤ℤ b → clamp_priority a ≤ℤ clamp_priority b
clamp_mono a b h = ground arith

formula-antitone : (c c' n n' : ℤ) → c ≤ℤ c' → n ≤ℤ n' → formula c' n' ≤ℤ formula c n
formula-antitone c c' n n' h k =
    let quarter : c /ℤ pos 4 ≤ℤ c' /ℤ pos 4 = div_4_mono c c' h in
    let twice : n *ℤ pos 32768 ≤ℤ n' *ℤ pos 32768 = scale_mono n n' k in
    clamp_mono ((pos (63 * 16384) -ℤ c' /ℤ pos 4 -ℤ n' *ℤ pos 32768) /ℤ pos 16384)
      ((pos (63 * 16384) -ℤ c /ℤ pos 4 -ℤ n *ℤ pos 32768) /ℤ pos 16384)
      (div_fp_mono (pos (63 * 16384) -ℤ c' /ℤ pos 4 -ℤ n' *ℤ pos 32768)
        (pos (63 * 16384) -ℤ c /ℤ pos 4 -ℤ n *ℤ pos 32768) (omega int_laws))

doubled_small :
    (n : ℤ) → pos_part n < 2 ^ 13 → neg_part n < 2 ^ 13 → wrap32 (n *ℤ pos 2) ≡ n *ℤ pos 2
unfolding ◌*ℤ◌
doubled_small n h k = wrap32_small (n *ℤ pos 2) (ground arith)

double_fp : (n : ℤ) → n *ℤ pos 2 *ℤ fp ≡ n *ℤ pos 32768
unfolding ◌*ℤ◌
double_fp n = ground arith

scaled_small :
    (n : ℤ) → pos_part n < 2 ^ 13 → neg_part n < 2 ^ 13 → wrap32 (n *ℤ pos 32768) ≡ n *ℤ pos 32768
unfolding ◌*ℤ◌
scaled_small n h k = wrap32_small (n *ℤ pos 32768) (ground arith)

quarter_bounds :
    (c : ℤ)
    → pos_part c < 2 ^ 31
    → neg_part c < 2 ^ 31
    → (pos_part (c /ℤ pos 4) < 2 ^ 29) × (neg_part (c /ℤ pos 4) < 2 ^ 29)
unfolding ◌/ℤ◌
quarter_bounds (pos c) h k = ground arith
quarter_bounds (negsuc c) h k = ground arith

scaled_bounds :
    (n : ℤ)
    → pos_part n < 2 ^ 13
    → neg_part n < 2 ^ 13
    → (pos_part (n *ℤ pos 32768) < 2 ^ 28) × (neg_part (n *ℤ pos 32768) < 2 ^ 28)
unfolding ◌*ℤ◌
scaled_bounds n h k = ground arith

difference_small :
    (a b : ℤ)
    → pos_part a < 2 ^ 30
    → neg_part a < 2 ^ 30
    → pos_part b < 2 ^ 30
    → neg_part b < 2 ^ 30
    → wrap32 (a -ℤ b) ≡ a -ℤ b
unfolding ◌-ℤ◌
difference_small a b h k i j = wrap32_small (a -ℤ b) (ground arith)

difference_bounds :
    (a b : ℤ)
    → pos_part a < 2 ^ 29
    → neg_part a < 2 ^ 29
    → pos_part b < 2 ^ 29
    → neg_part b < 2 ^ 29
    → (pos_part (a -ℤ b) < 2 ^ 30) × (neg_part (a -ℤ b) < 2 ^ 30)
unfolding ◌-ℤ◌
difference_bounds a b h k i j = ground arith

quarter_run : (c : ℤ) → divide_floats_and_ints c (pos 4) ≡ some (c /ℤ pos 4)
unfolding divide_floats_and_ints
quarter_run (pos c) = refl
quarter_run (negsuc c) = refl

new_priority_run :
    (c n : ℤ) → new_priority c n ≡ some (clamp_priority (raw_priority (c /ℤ pos 4) n))
unfolding new_priority
new_priority_run c n = rw (quarter_run c)

top_float : int_to_float (pos 63) ≡ pos 1032192
unfolding int_to_float wrap32 ◌*ℤ◌
top_float = refl

-- Nothing overflows.
raw_priority_lem :
    (c n : ℤ)
    → IsModest c n
    → raw_priority (c /ℤ pos 4) n ≡ (pos (63 * 16384) -ℤ c /ℤ pos 4 -ℤ n *ℤ pos 32768) /ℤ pos 16384
unfolding raw_priority subtract_floats subtract_floats_and_ints float_to_int
raw_priority_lem c n h =
    let q = quarter_bounds c h.0 h.1 in
    let s = scaled_bounds n h.2 h.3 in
    let d = difference_bounds (pos (63 * 16384)) (c /ℤ pos 4) (omega arith) (omega arith) q.0 q.1 in
    let first : wrap32 (pos (63 * 16384) -ℤ c /ℤ pos 4) ≡ pos (63 * 16384) -ℤ c /ℤ pos 4 =
      difference_small (pos (63 * 16384)) (c /ℤ pos 4) (omega arith) (omega arith) (omega arith)
        (omega arith) in
    let second : wrap32 (pos (63 * 16384) -ℤ c /ℤ pos 4 -ℤ n *ℤ pos 32768)
        ≡ pos (63 * 16384) -ℤ c /ℤ pos 4 -ℤ n *ℤ pos 32768 =
      difference_small (pos (63 * 16384) -ℤ c /ℤ pos 4) (n *ℤ pos 32768) d.0 d.1 (omega arith)
        (omega arith) in
    rw (top_float, doubled_small n h.2 h.3, double_fp n, scaled_small n h.2 h.3, first, second)

-- For a recent_cpu of less than 2 ^ 17 ticks and a niceness of less than 2 ^ 13 either way,
-- nothing overflows in the new priority: it is 63 - recent_cpu / 4 - nice * 2 in the numbers of
-- fixedpoint.c, cut towards 0 to an integer and brought into the range from 0 to 63.
pub new_priority-formula :
    (recent_cpu nice : ℤ)
    → IsModest recent_cpu nice
    → new_priority recent_cpu nice ≡ some (formula recent_cpu nice)
new_priority-formula c n h =
    new_priority_run c n ∙ ap (λ p. some (clamp_priority p)) (raw_priority_lem c n h)

clamp_priority-InRange : (p : ℤ) → InRange (clamp_priority p)
clamp_priority-InRange (negsuc n) = (0, ground arith, omega arith)
clamp_priority-InRange (pos n) = elim (Bool-cases (ltb 63 n)) [
  | inl h ↦ (63, ground arith, omega arith)
  | inr h ↦ (n, ground arith, ground arith)
]

-- The priority that new_priority computes; it divides by 4, so there is always one.
pub new_priority_total : (c n : ℤ) → (p : ℤ) × (new_priority c n ≡ some p) × InRange p
new_priority_total c n =
    let raw : ℤ = raw_priority (c /ℤ pos 4) n in
    (clamp_priority raw, new_priority_run c n, clamp_priority-InRange raw)

-- For a recent_cpu of less than 2 ^ 17 ticks and a niceness of less than 2 ^ 13 either way,
-- there is a new priority, and a thread that has used the CPU no less and is no less nice than
-- another gets none that is higher.
pub new_priority-antitone :
    (c c' n n' : ℤ)
    → IsModest c n
    → IsModest c' n'
    → c ≤ℤ c'
    → n ≤ℤ n'
    → (p : ℤ) × (p' : ℤ) × (new_priority c n ≡ some p) × (new_priority c' n' ≡ some p') × (p' ≤ℤ p)
new_priority-antitone c c' n n' m m' h k = (
  formula c n,
  formula c' n',
  new_priority-formula c n m,
  new_priority-formula c' n' m',
  formula-antitone c c' n n' h k,
)

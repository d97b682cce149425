-- ===== src/Thread/Load.antt =====
-- Project 1: Threads/src/threads/thread.c: the load average stays in bounds, so that the recent use of
-- the CPU can be recomputed.
use cs140_operating_systems.Base.{
  ℕ, ◌+◌, ◌-◌, ◌*◌, ◌/◌, ◌^◌, ◌≤◌, ◌<◌, ◌≡◌, refl, ◌∙◌, inl, inr, some, List, [], ◌∷◌, arith,
  if◌then◌else◌, update_map, Bool-cases, ℤ, pos, ◌+ℤ◌, ◌*ℤ◌, ◌/ℤ◌, wrap32,
}
use cs140_operating_systems.FixedPoint.{
  fp, int_to_float, sum_floats, multiply_floats, divide_floats, sum_floats_and_ints,
  multiply_floats_and_ints,
}
use cs140_operating_systems.Thread.{Thread, Kernel, is_thread, points_to, set_thread, pri_size}
use cs140_operating_systems.Thread.Mlfqs.{
  thread_function_recompute_recent_cpu, foreach_from, thread_foreach, recompute_recent_cpu,
  recompute_load_average, ready_count,
}
use cs140_operating_systems.Thread.Sound.{IsGood, IsSound, is_live, rest-IsSound}
use cs140_operating_systems.Thread.Calls.{CanRun, stays-CanRun, thread_current_lem}

-- A load average of at most n threads, none negative.
abbrev pub IsLoad : ℕ → ℤ → Type 0
IsLoad n z = (a : ℕ) × (z ≡ pos a) × (a ≤ n * 16384)

-- The threads that are ready or run, the idle thread apart.
abbrev pub active : Kernel → ℕ
active k = (if points_to k.idle_thread k.current then 0 else 1) + ready_count pri_size k.ready_list

decay_lem : divide_floats (int_to_float (pos 59)) (int_to_float (pos 60)) ≡ some (pos 16110)
unfolding divide_floats int_to_float wrap32 ◌*ℤ◌ ◌/ℤ◌
decay_lem = refl

decayed_lem :
    (a n : ℕ)
    → a ≤ n * 16384
    → n < 2 ^ 16
    → multiply_floats (pos a) (pos 16110) ≡ pos (a * 16110 / 16384)
unfolding multiply_floats wrap32 ◌*ℤ◌ ◌/ℤ◌
decayed_lem a n h k = ground arith

share_lem :
    (r : ℕ)
    → r < 2 ^ 16
    → divide_floats (int_to_float (pos r)) (int_to_float (pos 60))
      ≡ some (pos (r * 16384 * 16384 / 983040))
unfolding divide_floats int_to_float wrap32 ◌*ℤ◌ ◌/ℤ◌
share_lem r h = ground arith

sum_lem : (a b : ℕ) → a + b < 2 ^ 31 → sum_floats (pos a) (pos b) ≡ pos (a + b)
unfolding sum_floats wrap32 ◌+ℤ◌
sum_lem a b h = ground arith

-- In a sound state where one thread runs: at most n threads are ready or run, n is below 2 ^ 16,
-- and the load average is between 0 and n. Then recompute_load_average fails no ASSERT, changes
-- nothing but the load average, and that is between 0 and n again.
pub recompute_load_average-IsLoad :
    (k : Kernel) (n : ℕ)
    → CanRun k
    → n < 2 ^ 16
    → active k ≤ n
    → IsLoad n k.load_average
    → (z : ℤ) × (recompute_load_average k ≡ some (record k { load_average = z })) × IsLoad n z
unfolding recompute_load_average
recompute_load_average-IsLoad k n c b h (a, e, l) =
    let r : ℕ = active k in
    let share : ℕ = r * 16384 * 16384 / 983040 in
    let z : ℕ = a * 16110 / 16384 + share in
    let low : z ≤ n * 16384 = omega arith in
    let share_run = share_lem r (omega arith) in
    let sum_run = sum_lem (a * 16110 / 16384) share (omega arith) in
    (
      pos z,
      rw (decay_lem, thread_current_lem k c, share_run, e, decayed_lem a n l b, sum_run),
      (z, refl, low),
    )

doubled_lem :
    (a n : ℕ) → a ≤ n * 16384 → n < 2 ^ 16 → multiply_floats_and_ints (pos a) (pos 2) ≡ pos (a * 2)
unfolding multiply_floats_and_ints wrap32 ◌*ℤ◌
doubled_lem a n h k = ground arith

above_one :
    (a n : ℕ)
    → a ≤ n * 16384
    → n < 2 ^ 16 - 1
    → sum_floats_and_ints (pos (a * 2)) (pos 1) ≡ pos (a * 2 + 16384)
unfolding sum_floats_and_ints wrap32 ◌+ℤ◌ ◌*ℤ◌
above_one a n h k = ground arith

quotient_lem :
    (x y : ℕ)
    → divide_floats (pos x) (pos (y + 16384)) ≡ some (wrap32 (pos x *ℤ fp /ℤ pos (y + 16384)))
unfolding divide_floats
quotient_lem x y = ground arith

-- The factor by which the recent use of the CPU is multiplied.
coef_run :
    (z : ℤ) (n : ℕ)
    → n < 2 ^ 16 - 1
    → IsLoad n z
    → (coef : ℤ) × (divide_floats
          (multiply_floats_and_ints z (pos 2))
          (sum_floats_and_ints (multiply_floats_and_ints z (pos 2)) (pos 1))
        ≡ some coef)
coef_run z n b (a, e, l) =
    let twice = doubled_lem a n l (omega arith) in
    (
      wrap32 (pos (a * 2) *ℤ fp /ℤ pos (a * 2 + 16384)),
      rw (e, twice, above_one a n l b) (quotient_lem (a * 2) (a * 2)),
    )

-- What recomputing the recent use of the CPU leaves alone.
pub record Aged (k k' : Kernel) : Type 0 where
  pub can : CanRun k'
  pub queues : k'.ready_list ≡ k.ready_list
  pub load : k'.load_average ≡ k.load_average
  pub idle : k'.idle_thread ≡ k.idle_thread
  pub all : k'.all_list ≡ k.all_list
  pub cpu : k'.current ≡ k.current
  pub priorities : (u : ℕ) → (k'.thread u).priority ≡ (k.thread u).priority
  pub statuses : (u : ℕ) → (k'.thread u).status ≡ (k.thread u).status
  pub lives : (u : ℕ) → is_thread k' u ≡ is_thread k u
  pub mlfqs : k'.thread_mlfqs ≡ k.thread_mlfqs

Aged-refl : (k : Kernel) → CanRun k → Aged k k
Aged-refl k c = record {
  can = c;
  queues = refl;
  load = refl;
  idle = refl;
  all = refl;
  cpu = refl;
  priorities = λ u. refl;
  statuses = λ u. refl;
  lives = λ u. refl;
  mlfqs = refl;
}

Aged-trans : (k k1 k2 : Kernel) → Aged k k1 → Aged k1 k2 → Aged k k2
Aged-trans k k1 k2 f g = record {
  can = g.can;
  queues = g.queues ∙ f.queues;
  load = g.load ∙ f.load;
  idle = g.idle ∙ f.idle;
  all = g.all ∙ f.all;
  cpu = g.cpu ∙ f.cpu;
  priorities = λ u. g.priorities u ∙ f.priorities u;
  statuses = λ u. g.statuses u ∙ f.statuses u;
  lives = λ u. g.lives u ∙ f.lives u;
  mlfqs = g.mlfqs ∙ f.mlfqs;
}

age_one :
    (k : Kernel) (n t : ℕ)
    → CanRun k
    → n < 2 ^ 16 - 1
    → IsLoad n k.load_average
    → (k' : Kernel) × (thread_function_recompute_recent_cpu t k ≡ some k') × Aged k k'
unfolding thread_function_recompute_recent_cpu
age_one k n t c b l = elim (Bool-cases (points_to k.idle_thread t)) [
  | inl e ↦ (k, rw e, Aged-refl k c)
  | inr e ↦
      let (coef, run) = coef_run k.load_average n b l in
      let cpu : ℤ =
        sum_floats_and_ints (multiply_floats (k.thread t).recent_cpu coef) (k.thread t).nice in
      let x : Thread = record (k.thread t) { recent_cpu = cpu } in
      let good : IsGood x = record {
        live = (c.sound.good t).live;
        ranged = (c.sound.good t).ranged;
        based = (c.sound.good t).based;
      } in
      let s : IsSound (set_thread k t x) =
        rest-IsSound k t x (set_thread k t x) c.sound refl refl refl refl good (λ h. h) in
      (
        set_thread k t x,
        rw (e, run),
        record {
          can = stays-CanRun k t x (set_thread k t x) c s refl refl refl (λ h. h) refl;
          queues = refl;
          load = refl;
          idle = refl;
          all = refl;
          cpu = refl;
          priorities = update_map (λ y. y.priority) k.thread t x refl;
          statuses = update_map (λ y. y.status) k.thread t x refl;
          lives = update_map is_live k.thread t x refl;
          mlfqs = refl;
        },
      )
]

age_from :
    (ts : List ℕ) (k : Kernel) (n : ℕ)
    → CanRun k
    → n < 2 ^ 16 - 1
    → IsLoad n k.load_average
    → (k' : Kernel) × (foreach_from thread_function_recompute_recent_cpu ts k ≡ some k') × Aged k k'
unfolding foreach_from
age_from [] k n c b l = (k, refl, Aged-refl k c)
age_from (t ∷ ts) k n c b l =
    let (k1, run, f) = age_one k n t c b l in
    let (k2, runs, g) = age_from ts k1 n f.can b (rw f.load l) in
    (k2, rw run runs, Aged-trans k k1 k2 f g)

pub recompute_recent_cpu-Aged :
    (k : Kernel) (n : ℕ)
    → CanRun k
    → n < 2 ^ 16 - 1
    → IsLoad n k.load_average
    → (k' : Kernel) × (recompute_recent_cpu k ≡ some k') × Aged k k'
unfolding recompute_recent_cpu thread_foreach
recompute_recent_cpu-Aged k n c b l = age_from k.all_list k n c b l

-- ===== src/Timer/Calm.antt =====
-- Project 1: Threads/src/devices/timer.c: the steps of the timer interrupt in which no thread starts, stops
-- or wakes.
use cs140_operating_systems.Base.{
  ℕ, ◌+◌, ◌-◌, ◌%◌, ◌^◌, ◌≤◌, ◌<◌, ◌≡◌, refl, ap, ◌∙◌, inl, inr, Bool, true, false, Option, some,
  List, arith, ◌==◌, ltb, Bool-cases, update_map, pos,
}
use cs140_operating_systems.FixedPoint.{sum_floats_and_ints}
use cs140_operating_systems.Thread.{Thread, Kernel, is_thread, is_blocked, points_to, set_thread}
use cs140_operating_systems.Thread.Mlfqs.{
  thread_tick, count_tick, time_slice, recompute_load_average, recompute_recent_cpu,
  recompute_priority,
}
use cs140_operating_systems.Thread.Sound.{IsGood, IsSound, is_live, rest-IsSound}
use cs140_operating_systems.Thread.Calls.{
  CanRun, Alike, Alike-CanRun, stays-CanRun, thread_current_lem,
}
use cs140_operating_systems.Thread.Recompute.{recompute_priority-Recomputed, Recomputed-map}
use cs140_operating_systems.Thread.Load.{
  IsLoad, active, recompute_load_average-IsLoad, recompute_recent_cpu-Aged,
}
use cs140_operating_systems.Synch.Wake.{Asleep}
use cs140_operating_systems.Timer.{timer_freq, when, mlfqs_tick}

-- A state from which the timer can go on, for at most n threads that are ready or run.
pub record IsTicking (n : ℕ) (k : Kernel) : Type 0 where
  pub can : CanRun k
  pub load : IsLoad n k.load_average

-- Nobody starts, stops or wakes.
pub record Calm (n : ℕ) (k k' : Kernel) : Type 0 where
  pub ticking : IsTicking n k'
  pub idle : k'.idle_thread ≡ k.idle_thread
  pub cpu : k'.current ≡ k.current
  pub statuses : (u : ℕ) → (k'.thread u).status ≡ (k.thread u).status
  pub lives : (u : ℕ) → is_thread k' u ≡ is_thread k u

Calm-refl : (n : ℕ) (k : Kernel) → IsTicking n k → Calm n k k
Calm-refl n k t = record {
  ticking = t;
  idle = refl;
  cpu = refl;
  statuses = λ u. refl;
  lives = λ u. refl;
}

pub Calm-trans : (n : ℕ) (k k1 k2 : Kernel) → Calm n k k1 → Calm n k1 k2 → Calm n k k2
Calm-trans n k k1 k2 f g = record {
  ticking = g.ticking;
  idle = g.idle ∙ f.idle;
  cpu = g.cpu ∙ f.cpu;
  statuses = λ u. g.statuses u ∙ f.statuses u;
  lives = λ u. g.lives u ∙ f.lives u;
}

pub Calm-Asleep : (n : ℕ) (k k' : Kernel) (ws : List ℕ) → Calm n k k' → Asleep k ws → Asleep k' ws
Calm-Asleep n k k' ws c a = record {
  live = λ w h. c.lives w ∙ a.live w h;
  blocked = λ w h. ap is_blocked (c.statuses w) ∙ a.blocked w h;
  no_idle = λ w h. ap (λ i. points_to i w) c.idle ∙ a.no_idle w h;
}

-- The steps of the interrupt before the threads wake.
module _ (n : ℕ) (small : n < 2 ^ 16 - 1) where
  ages :
      (k : Kernel)
      → IsTicking n k
      → (k' : Kernel) × (recompute_recent_cpu k ≡ some k') × Calm n k k'
  ages k t =
      let (k', run, a) = recompute_recent_cpu-Aged k n t.can small t.load in
      (
        k',
        run,
        record {
          ticking = record { can = a.can; load = rw a.load t.load };
          idle = a.idle;
          cpu = a.cpu;
          statuses = a.statuses;
          lives = a.lives;
        },
      )

  prioritises :
      (k : Kernel) → IsTicking n k → (k' : Kernel) × (recompute_priority k ≡ some k') × Calm n k k'
  prioritises k t =
      let (k', run, r) = recompute_priority-Recomputed k t.can in
      (
        k',
        run,
        record {
          ticking = record { can = r.can; load = rw r.load t.load };
          idle = r.idle;
          cpu = r.cpu;
          statuses = Recomputed-map (λ x. x.status) k k.all_list k' (λ x. refl) r;
          lives = Recomputed-map is_live k k.all_list k' (λ x. refl) r;
        },
      )

  averages :
      (k : Kernel)
      → IsTicking n k
      → active k ≤ n
      → (k' : Kernel) × (recompute_load_average k ≡ some k') × Calm n k k'
  averages k t a =
      let (z, run, l) = recompute_load_average-IsLoad k n t.can (omega arith) a t.load in
      let k' : Kernel = record k { load_average = z } in
      (
        k',
        run,
        record {
          ticking = record {
            can =
                Alike-CanRun k k'
                  (record { queues = refl; threads = refl; idle = refl; cpu = refl }) t.can;
            load = l;
          };
          idle = refl;
          cpu = refl;
          statuses = λ u. refl;
          lives = λ u. refl;
        },
      )

  pub maybe :
      (b : Bool) (f : Kernel → Option Kernel) (k : Kernel)
      → IsTicking n k
      → ((k' : Kernel) × (f k ≡ some k') × Calm n k k')
      → (k' : Kernel) × (when b f k ≡ some k') × Calm n k k'
  maybe true f k t h = h
  maybe false f k t h = (k, refl, Calm-refl n k t)

  pub mlfqs_tick-Calm :
      (ticks : ℕ) (k : Kernel)
      → IsTicking n k
      → active k ≤ n
      → (k' : Kernel) × (mlfqs_tick ticks k ≡ some k') × Calm n k k'
  unfolding mlfqs_tick
  mlfqs_tick-Calm ticks k t a =
      let (k1, r1, c1) =
        maybe (ticks % timer_freq == 0) recompute_load_average k t (averages k t a) in
      let (k2, r2, c2) =
        maybe (ticks % timer_freq == 0) recompute_recent_cpu k1 c1.ticking (ages k1 c1.ticking) in
      let (k3, r3, c3) =
        maybe (ticks % 4 == 0) recompute_priority k2 c2.ticking (prioritises k2 c2.ticking) in
      (k3, rw (r1, r2) r3, Calm-trans n k k1 k3 c1 (Calm-trans n k1 k2 k3 c2 c3))

-- thread_tick changes counters, and how much the current thread has used the CPU.
counted : (k : Kernel) → Alike k (count_tick k) × ((count_tick k).load_average ≡ k.load_average)
unfolding count_tick
counted k = elim (Bool-cases (ltb ((k.thread_ticks + 1) % 2 ^ 32) time_slice)) [
  | inl e ↦ (rw e (record { queues = refl; threads = refl; idle = refl; cpu = refl }), rw e)
  | inr e ↦ (rw e (record { queues = refl; threads = refl; idle = refl; cpu = refl }), rw e)
]

Alike-Calm :
    (n : ℕ) (k k' : Kernel)
    → IsTicking n k
    → Alike k k'
    → k'.load_average ≡ k.load_average
    → Calm n k k'
Alike-Calm n k k' t a l = record {
  ticking = record { can = Alike-CanRun k k' a t.can; load = rw l t.load };
  idle = a.idle;
  cpu = a.cpu;
  statuses = λ u. ap (λ f. (f u).status) a.threads;
  lives = λ u. ap (λ f. is_live (f u)) a.threads;
}

pub thread_tick-Calm :
    (n : ℕ) (k : Kernel)
    → IsTicking n k
    → (k' : Kernel) × (thread_tick k ≡ some k') × Calm n k k' × (k'.ready_list ≡ k.ready_list)
unfolding thread_tick
thread_tick-Calm n k t = elim (Bool-cases (points_to k.idle_thread k.current)) [
  | inl e ↦
      let j : Kernel = record k { idle_ticks = k.idle_ticks + 1 } in
      let calm : Calm n k j =
        Alike-Calm n k j t (record { queues = refl; threads = refl; idle = refl; cpu = refl })
          refl in
      (
        count_tick j,
        rw (thread_current_lem k t.can, e),
        Calm-trans n k j (count_tick j) calm
            (Alike-Calm n j (count_tick j) calm.ticking (counted j).0 (counted j).1),
        (counted j).0.queues,
      )
  | inr e ↦
      let c : CanRun k = t.can in
      let u : ℕ = k.current in
      let x : Thread = record (k.thread u) {
        recent_cpu = sum_floats_and_ints (k.thread u).recent_cpu (pos 1);
      } in
      let j : Kernel = set_thread (record k { kernel_ticks = k.kernel_ticks + 1 }) u x in
      let good : IsGood x = record {
        live = (c.sound.good u).live;
        ranged = (c.sound.good u).ranged;
        based = (c.sound.good u).based;
      } in
      let s : IsSound j = rest-IsSound k u x j c.sound refl refl refl refl good (λ h. h) in
      let calm : Calm n k j = record {
        ticking = record {
          can = stays-CanRun k u x j c s refl refl refl (λ h. h) refl;
          load = t.load;
        };
        idle = refl;
        cpu = refl;
        statuses = update_map (λ y. y.status) k.thread u x refl;
        lives = update_map is_live k.thread u x refl;
      } in
      (
        count_tick j,
        rw (thread_current_lem k c, e),
        Calm-trans n k j (count_tick j) calm
            (Alike-Calm n j (count_tick j) calm.ticking (counted j).0 (counted j).1),
        (counted j).0.queues,
      )
]

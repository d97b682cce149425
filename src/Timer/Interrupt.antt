-- ===== src/Timer/Interrupt.antt =====
-- Project 1: Threads/src/devices/timer.c: a whole timer interrupt, from thread_tick over the values of
-- the multi-level feedback queue scheduler to the threads that wake.
use cs140_operating_systems.Base.{
  ℕ, ◌+◌, ◌-◌, ◌^◌, ◌≤◌, ◌<◌, ◌≡◌, refl, ap, ◌∙◌, Bool, true, false, some, List, if◌then◌else◌,
}
use cs140_operating_systems.Thread.{Thread, Kernel, is_blocked, points_to, thread_ready, has}
use cs140_operating_systems.Thread.Mlfqs.{thread_tick}
use cs140_operating_systems.Thread.Sound.{is_live}
use cs140_operating_systems.Thread.Load.{active}
use cs140_operating_systems.Synch.Wake.{Asleep}
use cs140_operating_systems.Timer.{
  SleepingThread, Timer, when, mlfqs_tick, timer_interrupt, wake_up_threads,
}
use cs140_operating_systems.Timer.Sorted.{threads_of, IsSorted}
use cs140_operating_systems.Timer.Cut.{
  Distinct, Cut, Cut-apart, Cut-IsSorted, Cut-Distinct, Cut-Asleep,
}
use cs140_operating_systems.Timer.Wake.{Woke, wake_up_threads-Woke}
use cs140_operating_systems.Timer.Calm.{
  IsTicking, Calm, Calm-trans, Calm-Asleep, maybe, mlfqs_tick-Calm, thread_tick-Calm,
}

Asleep-still :
    (k : Kernel) (xs ys : List SleepingThread) (now : ℕ) (ts : List ℕ) (k' : Kernel)
    → Cut now xs ts ys
    → Distinct xs
    → Woke k ts k'
    → Asleep k (threads_of xs)
    → Asleep k' (threads_of ys)
Asleep-still k xs ys now ts k' cut d woke a = record {
  live = λ w h. ap is_live (same w h) ∙ b.live w h;
  blocked = λ w h. ap (λ x. is_blocked x.status) (same w h) ∙ b.blocked w h;
  no_idle = λ w h. ap (λ i. points_to i w) woke.idle ∙ b.no_idle w h;
}
  where
    b : Asleep k (threads_of ys)
    b = Cut-Asleep now k xs ts ys cut a

    same : (w : ℕ) → has w (threads_of ys) ≡ true → k'.thread w ≡ k.thread w
    same w h =
        let apart : has w ts ≡ false = Cut-apart now xs ts ys w cut d h in woke.threads w ∙ rw apart

-- The sleeping threads of a timer.
pub record IsTimer (xs : List SleepingThread) (k : Kernel) : Type 0 where
  pub sorted : IsSorted xs
  pub distinct : Distinct xs
  pub asleep : Asleep k (threads_of xs)

-- What an interrupt has done.
pub record Ticked (n : ℕ) (tm : Timer) (k : Kernel) (ts : List ℕ) (tm' : Timer) (k' : Kernel)
    : Type 0 where
  pub ticking : IsTicking n k'
  pub timer : IsTimer tm'.sleeping_threads_list k'
  pub ticks : tm'.ticks ≡ tm.ticks + 1
  pub cut : Cut (tm.ticks + 1) tm.sleeping_threads_list ts tm'.sleeping_threads_list
  pub cpu : k'.current ≡ k.current
  pub statuses :
      (u : ℕ) → (k'.thread u).status ≡ (if has u ts then thread_ready else (k.thread u).status)

interrupt_run :
    (tm : Timer) (k k1 k2 : Kernel) (r : Timer × Kernel)
    → thread_tick k ≡ some k1
    → when k1.thread_mlfqs (mlfqs_tick (tm.ticks + 1)) k1 ≡ some k2
    → wake_up_threads (record tm { ticks = tm.ticks + 1 }) k2 ≡ some r
    → timer_interrupt tm k ≡ some r
unfolding timer_interrupt
interrupt_run tm k k1 k2 r e f g = rw (e, f, g)

-- In a sound state where one thread runs: at most n threads are ready or run, n is below 2 ^ 16
-- - 1, the load average is between 0 and n, and the list of sleepers is sorted, has no thread
-- twice and only blocked threads. Then the timer interrupt fails no ASSERT and divides by
-- nothing that is 0. It makes the sleepers ready whose time has come, and only those, changes
-- the status of no other thread, and leaves all these conditions but the number of threads as
-- they were.
pub timer_interrupt-Ticked :
    (n : ℕ) (tm : Timer) (k : Kernel)
    → n < 2 ^ 16 - 1
    → active k ≤ n
    → IsTicking n k
    → IsTimer tm.sleeping_threads_list k
    → (ts : List ℕ) × (tm' : Timer) × (k' : Kernel) × (timer_interrupt tm k ≡ some (tm', k'))
      × Ticked n tm k ts tm' k'
timer_interrupt-Ticked n tm k small a t i =
    let xs : List SleepingThread = tm.sleeping_threads_list in
    let (k1, r1, c1, q1) = thread_tick-Calm n k t in
    let a1 : active k1 ≤ n = rw (q1, c1.idle, c1.cpu) a in
    let (k2, r2, c2) =
      maybe n small k1.thread_mlfqs (mlfqs_tick (tm.ticks + 1)) k1 c1.ticking
        (mlfqs_tick-Calm n small (tm.ticks + 1) k1 c1.ticking a1) in
    let calm : Calm n k k2 = Calm-trans n k k1 k2 c1 c2 in
    let asleep : Asleep k2 (threads_of xs) = Calm-Asleep n k k2 (threads_of xs) calm i.asleep in
    let tm1 : Timer = record tm { ticks = tm.ticks + 1 } in
    let (ts, ys, k3, r3, cut, woke) =
      wake_up_threads-Woke tm1 k2 calm.ticking.can i.sorted i.distinct asleep in
    let tm2 : Timer = record tm1 { sleeping_threads_list = ys } in
    (
      ts,
      tm2,
      k3,
      interrupt_run tm k k1 k2 (tm2, k3) r1 r2 r3,
      record {
        ticking = record { can = woke.can; load = rw woke.load calm.ticking.load };
        timer = record {
          sorted = Cut-IsSorted (tm.ticks + 1) xs ts ys cut i.sorted;
          distinct = Cut-Distinct (tm.ticks + 1) xs ts ys cut i.distinct;
          asleep = Asleep-still k2 xs ys (tm.ticks + 1) ts k3 cut i.distinct woke asleep;
        };
        ticks = refl;
        cut = cut;
        cpu = woke.cpu ∙ calm.cpu;
        statuses = λ u.
            ap (λ x. x.status) (woke.threads u)
            ∙ status_of (has u ts) (k2.thread u)
            ∙ ap (λ s. if has u ts then thread_ready else s) (calm.statuses u);
      },
    )
  where
    status_of :
        (b : Bool) (x : Thread)
        → (if b then record x { status = thread_ready } else x).status
          ≡ (if b then thread_ready else x.status)
    status_of true x = refl
    status_of false x = refl

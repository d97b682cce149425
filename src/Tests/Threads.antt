-- ===== src/Tests/Threads.antt =====
-- A small kernel: thread 1 runs and holds lock 7, for which thread 4 waits; 2 is the idle thread; 3 is
-- ready; 5 and 6 each hold a lock that the other waits for; 10 sleeps. The theorems on scheduling at it.
use mathlib.Core.Path.{subst}
use cs140_operating_systems.Base.{
  ℕ, ◌<◌, ◌≡◌, refl, sym, true, false, Option, none, some, List, [], ◌∷◌, arith, ◌==◌, update, ℤ,
  pos, negsuc, ◌≤ℤ◌, ◌-ℤ◌, ◌*ℤ◌, ◌/ℤ◌,
}
use cs140_operating_systems.Thread.{
  Status, Thread, Semaphore, Lock, Kernel, thread_running, thread_ready, thread_blocked,
  thread_magic, is_thread, is_running, is_blocked, points_to, has, thread_yield,
}
use cs140_operating_systems.Thread.Queues.{IsFit-ext, push-IsFit}
use cs140_operating_systems.Thread.Sound.{IsGood, IsSound, slots, slot_of, if_ind}
use cs140_operating_systems.Thread.Schedule.{Chosen}
use cs140_operating_systems.Thread.Calls.{CanRun}
use cs140_operating_systems.Thread.Yield.{Yields, thread_yield-Chosen}
use cs140_operating_systems.Thread.Mlfqs.{
  new_priority, recompute_priority, recompute_load_average, ready_count,
}
use cs140_operating_systems.Thread.Formula.{new_priority-formula, new_priority-antitone}
use cs140_operating_systems.Thread.Recompute.{Recomputed, recompute_priority-Recomputed}
use cs140_operating_systems.Thread.Load.{IsLoad, recompute_load_average-IsLoad}
use cs140_operating_systems.Thread.Donate.{propagate_priorities, donated}
use cs140_operating_systems.Thread.Donate.Chain.{
  Chain, stops, leads, IsLinked, Donated, propagate_priorities-Donated,
}
use cs140_operating_systems.Thread.Donate.Greatest.{IsGreatest, donated-IsGreatest}
use cs140_operating_systems.Synch.{sema_up, lock_try_acquire, lock_release}
use cs140_operating_systems.Synch.Wake.{Asleep, Woken, sema_up-Woken}
use cs140_operating_systems.Synch.Locks.{lock_try_acquire-lock_release}
use cs140_operating_systems.Synch.Release.{Released, lock_release-Released}
use cs140_operating_systems.Timer.{Timer, timer_interrupt}
use cs140_operating_systems.Timer.Sorted.{NotBefore, IsSorted}
use cs140_operating_systems.Timer.Cut.{Distinct}
use cs140_operating_systems.Timer.Interrupt.{IsTimer, Ticked, timer_interrupt-Ticked}

abbrev person : Status → ℕ → List ℕ → Option ℕ → Thread
person status priority locks waiting = record {
  tid = 1;
  status = status;
  waiting_lock = waiting;
  priority = pos priority;
  old_priority = pos priority;
  acquired_locks_list = locks;
  recent_cpu = pos 0;
  nice = pos 0;
  magic = thread_magic;
  is_list = true;
}

abbrev nobody_there : Thread
nobody_there = record (person thread_blocked 0 [] none) { magic = 0 }

abbrev people : ℕ → Thread
people =
    update
      (update
        (update
          (update
            (update
              (update (update (λ t. nobody_there) 1 (person thread_running 31 (7 ∷ []) none)) 2
                (person thread_blocked 0 [] none))
              3 (person thread_ready 40 [] none))
            4 (person thread_blocked 50 [] (some 7)))
          5 (person thread_blocked 20 (9 ∷ []) (some 8)))
        6 (person thread_blocked 20 (8 ∷ []) (some 9)))
      10 (person thread_blocked 20 [] none)

abbrev held_lock : ℕ → ℕ → Lock
held_lock holder waiter = record {
  holder = some holder;
  semaphore = record { value = 0; waiters = waiter ∷ [] };
}

abbrev locks : ℕ → Lock
locks =
    update
      (update
        (update (λ l. record { holder = none; semaphore = record { value = 1; waiters = [] } }) 7
          (held_lock 1 4))
        8 (held_lock 6 5))
      9 (held_lock 5 6)

abbrev kernel : Kernel
kernel = record {
  ready_list = update (λ i. []) 40 (3 ∷ []);
  all_list = 1 ∷ 3 ∷ 4 ∷ 5 ∷ 6 ∷ 10 ∷ [];
  idle_thread = some 2;
  initial_thread = 1;
  current = 1;
  thread = people;
  lock = locks;
  load_average = pos 0;
  thread_ticks = 0;
  idle_ticks = 0;
  kernel_ticks = 0;
  yield_on_return = false;
  next_tid = 11;
  freed = [];
  thread_mlfqs = false;
}

person-IsGood :
    (s : Status) (p : ℕ) (ls : List ℕ) (w : Option ℕ) → p < 64 → IsGood (person s p ls w)
person-IsGood s p ls w h = record {
  live = λ e. refl;
  ranged = λ e. (p, refl, h);
  based = λ e. (p, refl, h);
}

nobody_there-IsGood : IsGood nobody_there
nobody_there-IsGood = record {
  live = λ e. absurd (cc);
  ranged = λ e. absurd (cc);
  based = λ e. absurd (cc);
}

people-IsGood : (t : ℕ) → IsGood (people t)
people-IsGood t =
    if_ind IsGood (t == 10) _ _ (person-IsGood thread_blocked 20 [] none (omega arith)) (
      if_ind IsGood (t == 6) _ _ (person-IsGood thread_blocked 20 (8 ∷ []) (some 9) (omega arith)) (
        if_ind IsGood (t == 5) _ _ (person-IsGood thread_blocked 20 (9 ∷ []) (some 8) (omega arith))
          (if_ind IsGood (t == 4) _ _ (person-IsGood thread_blocked 50 [] (some 7) (omega arith)) (
            if_ind IsGood (t == 3) _ _ (person-IsGood thread_ready 40 [] none (omega arith)) (
              if_ind IsGood (t == 2) _ _ (person-IsGood thread_blocked 0 [] none (omega arith)) (
                if_ind IsGood (t == 1) _ _
                  (person-IsGood thread_running 31 (7 ∷ []) none (omega arith))
                  nobody_there-IsGood))))))

kernel_slots : (t : ℕ) → slot_of (some 2) t (people t) ≡ update (λ u. none) 3 (some 40) t
kernel_slots t = ground arith

only : (w v : ℕ) → has w (v ∷ []) ≡ true → w ≡ v
only w v h = ground arith

kernel-IsSound : IsSound kernel
kernel-IsSound = record {
  fits =
      IsFit-ext (update (λ i. []) 40 (3 ∷ [])) (update (λ u. none) 3 (some 40)) (slots kernel)
        kernel_slots (push-IsFit (λ i. []) (λ u. none) (λ t i. refl) 3 40 refl);
  good = people-IsGood;
  idles =
      λ t e. let same : ◌≡◌ {A = ℕ} 2 t = cc in subst (λ u. is_thread kernel u ≡ true) same refl;
}

only_main : (t : ℕ) → is_running (people t).status ≡ true → t ≡ 1
only_main t h = ground arith

kernel-CanRun : CanRun kernel
kernel-CanRun = record {
  sound = kernel-IsSound;
  is_current = refl;
  runs = refl;
  only = only_main;
  idle = 2;
  has_idle = refl;
}

abbrev WaiterLives : ℕ → Lock → Type 0
WaiterLives v l = has v l.semaphore.waiters ≡ true → is_thread kernel v ≡ true

held-WaiterLives :
    (v holder waiter : ℕ) → is_thread kernel waiter ≡ true → WaiterLives v (held_lock holder waiter)
held-WaiterLives v holder waiter l h =
    subst (λ u. is_thread kernel u ≡ true) (sym (only v waiter h)) l

waiter_lives : (v l : ℕ) → WaiterLives v (locks l)
waiter_lives v l = if_ind (WaiterLives v) (l == 9) _ _ (held-WaiterLives v 5 6 refl) (
    if_ind (WaiterLives v) (l == 8) _ _ (held-WaiterLives v 6 5 refl)
      (if_ind (WaiterLives v) (l == 7) _ _ (held-WaiterLives v 1 4 refl) (λ h. absurd (cc))))

kernel-IsLinked : IsLinked kernel
kernel-IsLinked t w h = waiter_lives w h.lock_of h.waits

Asleep-one :
    (v : ℕ)
    → is_thread kernel v ≡ true
    → is_blocked (people v).status ≡ true
    → points_to (some 2) v ≡ false
    → Asleep kernel (v ∷ [])
Asleep-one v l b n = record {
  live = λ w h. subst (λ u. is_thread kernel u ≡ true) (sym (only w v h)) l;
  blocked = λ w h. subst (λ u. is_blocked (people u).status ≡ true) (sym (only w v h)) b;
  no_idle = λ w h. subst (λ u. points_to (some 2) u ≡ false) (sym (only w v h)) n;
}

thread_yield-Chosen_example :
    (k1 : Kernel) × (k' : Kernel) × (thread_yield kernel ≡ some k')
    × Yields kernel k1
    × Chosen k1 k'
    × CanRun k'
thread_yield-Chosen_example = thread_yield-Chosen kernel kernel-CanRun

new_priority-formula_example : new_priority (pos 163840) (pos 5) ≡ some (pos 50)
unfolding ◌-ℤ◌ ◌*ℤ◌ ◌/ℤ◌
new_priority-formula_example = new_priority-formula (pos 163840) (pos 5) (omega arith)

new_priority-antitone_example :
    (p : ℤ) × (p' : ℤ) × (new_priority (pos 0) (pos 0) ≡ some p)
    × (new_priority (pos 163840) (pos 5) ≡ some p')
    × (p' ≤ℤ p)
new_priority-antitone_example =
    new_priority-antitone (pos 0) (pos 163840) (pos 0) (pos 5) (omega arith) (omega arith)
      (omega arith) (omega arith)

recompute_priority-Recomputed_example :
    (k' : Kernel) × (recompute_priority kernel ≡ some k')
    × Recomputed kernel (1 ∷ 3 ∷ 4 ∷ 5 ∷ 6 ∷ 10 ∷ []) k'
recompute_priority-Recomputed_example = recompute_priority-Recomputed kernel kernel-CanRun

recompute_load_average-IsLoad_example :
    (z : ℤ) × (recompute_load_average kernel ≡ some (record kernel { load_average = z }))
    × IsLoad 10 z
unfolding ready_count
recompute_load_average-IsLoad_example =
    recompute_load_average-IsLoad kernel 10 kernel-CanRun (omega arith) (omega arith)
      (0, refl, omega arith)

chain : Chain kernel (some 4) (4 ∷ 1 ∷ [])
chain = leads 4 (1 ∷ []) refl refl (leads 1 [] refl refl stops)

propagate_priorities-Donated_example :
    (k' : Kernel) × (propagate_priorities 2 (some 4) (pos 55) kernel ≡ some k')
    × Donated kernel (4 ∷ 1 ∷ []) (pos 55) k'
propagate_priorities-Donated_example =
    propagate_priorities-Donated (4 ∷ 1 ∷ []) 2 kernel (some 4) (pos 55) kernel-CanRun
      kernel-IsLinked refl chain (omega arith) (omega arith)

donated-IsGreatest_example : IsGreatest kernel 1 (negsuc 0) (donated kernel 1 (negsuc 0))
donated-IsGreatest_example = donated-IsGreatest kernel 1 (negsuc 0)

abbrev semaphore : Semaphore
semaphore = record { value = 0; waiters = 4 ∷ [] }

sema_up-Woken_example :
    (rs : List ℕ) × (k' : Kernel) × (sema_up semaphore kernel
      ≡ some (record { value = 1; waiters = rs }, k'))
    × Woken kernel (4 ∷ []) rs k'
    × IsSound k'
sema_up-Woken_example = sema_up-Woken semaphore kernel kernel-IsSound (Asleep-one 4 refl refl refl)

lock_try_acquire-lock_release_example :
    (k' : Kernel) × (lock_try_acquire 11 kernel ≡ some (k', true))
    × ((k'.lock 11).holder ≡ some 1)
    × (lock_release 5 11 k' ≡ none)
lock_try_acquire-lock_release_example =
    lock_try_acquire-lock_release 5 11 kernel kernel-CanRun refl refl refl

lock_release-Released_example :
    (k' : Kernel) × (lock_release 1 7 kernel ≡ some k') × Released kernel 7 k'
lock_release-Released_example =
    lock_release-Released 0 7 kernel kernel-CanRun kernel-IsLinked refl refl refl refl refl
      (Asleep-one 4 refl refl refl)

abbrev timer : Timer
timer = record {
  ticks = 99;
  sleeping_threads_list = record { thread = 10; wake_up_time = pos 100 } ∷ [];
}

timer-IsTimer : IsTimer timer.sleeping_threads_list kernel
timer-IsTimer = record {
  sorted =
      IsSorted.cons (record { thread = 10; wake_up_time = pos 100 }) [] NotBefore.nil IsSorted.nil;
  distinct = Distinct.cons (record { thread = 10; wake_up_time = pos 100 }) [] refl Distinct.nil;
  asleep = Asleep-one 10 refl refl refl;
}

timer_interrupt-Ticked_example :
    (ts : List ℕ) × (tm' : Timer) × (k' : Kernel) × (timer_interrupt timer kernel ≡ some (tm', k'))
    × Ticked 10 timer kernel ts tm' k'
unfolding ready_count
timer_interrupt-Ticked_example =
    timer_interrupt-Ticked 10 timer kernel (omega arith) (omega arith)
      (record { can = kernel-CanRun; load = (0, refl, omega arith) }) timer-IsTimer

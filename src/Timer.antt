-- ===== src/Timer.antt =====
-- Project 1: Threads/src/devices/timer.c: sleeping threads and the timer interrupt. The structure of a
-- sleeping thread is its thread and the time it wakes; MAGIC is the value that init_sleeping_thread
-- gives it. The times are those of a machine that runs for less than 2 ^ 63 ticks.
pub mod Sorted
pub mod Cut
pub mod Wake
pub mod Calm
pub mod Interrupt
use cs140_operating_systems.Base.{
  ℕ, zero, suc, ◌+◌, ◌%◌, Bool, true, false, not, Option, none, some, List, [], ◌∷◌, ◌==◌,
  if◌then◌else◌, ◌>>=◌, ◌>>◌, ℤ, pos, ltb_ℤ, ◌+ℤ◌, ◌-ℤ◌,
}
use cs140_operating_systems.Thread.{Kernel, thread_current, thread_block, thread_unblock}
use cs140_operating_systems.Thread.Mlfqs.{
  thread_tick, recompute_load_average, recompute_recent_cpu, recompute_priority,
}

pub record SleepingThread : Type 0 where
  pub thread : ℕ
  pub wake_up_time : ℤ

pub record Timer : Type 0 where
  pub ticks : ℕ
  pub sleeping_threads_list : List SleepingThread

abbrev pub timer_freq : ℕ
timer_freq = 100

unfoldable pub timer_init : ℕ → Timer
timer_init ticks = record { ticks = ticks; sleeping_threads_list = [] }

unfoldable pub timer_ticks : Timer → ℤ
timer_ticks tm = pos tm.ticks

unfoldable pub timer_elapsed : Timer → ℤ → ℤ
timer_elapsed tm since = timer_ticks tm -ℤ since

abbrev pub sleeping_thread_less_func : SleepingThread → SleepingThread → Bool
sleeping_thread_less_func a b = ltb_ℤ a.wake_up_time b.wake_up_time

-- list_insert_ordered: before the first that wakes later.
unfoldable pub list_insert_ordered : SleepingThread → List SleepingThread → List SleepingThread
list_insert_ordered x [] = x ∷ []
list_insert_ordered x (y ∷ ys) =
    let rest = list_insert_ordered x ys in
    if sleeping_thread_less_func x y then x ∷ y ∷ ys else y ∷ rest

-- Up to the switch to another thread.
unfoldable pub timer_sleep : ℤ → Timer → Kernel → Option (Timer × Kernel)
timer_sleep n tm k = do
  t ← thread_current k
  let x : SleepingThread = record { thread = t; wake_up_time = timer_ticks tm +ℤ n }
  k1 ← thread_block k
  some (record tm { sleeping_threads_list = list_insert_ordered x tm.sleeping_threads_list }, k1)

-- The loop of wake_up_threads, over the list.
unfoldable pub wake_loop : ℕ → List SleepingThread → Kernel → Option (List SleepingThread × Kernel)
wake_loop ticks [] k = some ([], k)
wake_loop ticks (x ∷ xs) k =
    let rest = thread_unblock x.thread k >>= wake_loop ticks xs in
    if ltb_ℤ (pos ticks) x.wake_up_time then some (x ∷ xs, k) else rest

unfoldable pub wake_up_threads : Timer → Kernel → Option (Timer × Kernel)
wake_up_threads tm k = do
  r ← wake_loop tm.ticks tm.sleeping_threads_list k
  some (record tm { sleeping_threads_list = r.0 }, r.1)

-- `if (b) f ();`
abbrev pub when : Bool → (Kernel → Option Kernel) → Kernel → Option Kernel
when true f k = f k
when false f k = some k

-- What the interrupt does for the multi-level feedback queue scheduler.
unfoldable pub mlfqs_tick : ℕ → Kernel → Option Kernel
mlfqs_tick ticks k = do
  k1 ← when (ticks % timer_freq == 0) recompute_load_average k
  k2 ← when (ticks % timer_freq == 0) recompute_recent_cpu k1
  when (ticks % 4 == 0) recompute_priority k2

unfoldable pub timer_interrupt : Timer → Kernel → Option (Timer × Kernel)
timer_interrupt tm k = do
  let tm1 = record tm { ticks = tm.ticks + 1 }
  k1 ← thread_tick k
  k2 ← when k1.thread_mlfqs (mlfqs_tick tm1.ticks) k1
  wake_up_threads tm1 k2

-- ===== src/Thread/Mlfqs.antt =====
-- Project 1: Threads/src/threads/thread.c: the values that the multi-level feedback queue scheduler
-- keeps (load average, recent CPU use, niceness, priority) and the tick of the timer.
use cs140_operating_systems.Base.{
  ℕ, zero, suc, ◌+◌, ◌%◌, ◌^◌, true, Option, some, List, [], ◌∷◌, ltb, if◌then◌else◌, ◌>>=◌, ℤ, pos,
  ltb_ℤ, ◌*ℤ◌, wrap32, length,
}
use cs140_operating_systems.FixedPoint.{
  int_to_float, float_to_int, float_to_int_nearest, sum_floats, subtract_floats, multiply_floats,
  divide_floats, sum_floats_and_ints, subtract_floats_and_ints, multiply_floats_and_ints,
  divide_floats_and_ints,
}
use cs140_operating_systems.Thread.{
  Kernel, pri_size, points_to, set_thread, thread_current, requeue,
}

unfoldable pub thread_set_quite_priority : ℕ → ℤ → Kernel → Option Kernel
thread_set_quite_priority t new_priority k =
    requeue t (
      set_thread k t (record (k.thread t) { priority = new_priority; old_priority = new_priority }))

abbrev pub clamp_priority : ℤ → ℤ
clamp_priority p = if ltb_ℤ p (pos 0) then pos 0 else if ltb_ℤ (pos 63) p then pos 63 else p

-- The priority before it is brought into the range, for a quarter of recent_cpu.
unfoldable pub raw_priority : ℤ → ℤ → ℤ
raw_priority quarter nice = float_to_int (
    subtract_floats_and_ints (subtract_floats (int_to_float (pos 63)) quarter)
      (wrap32 (nice *ℤ pos 2)))

unfoldable pub new_priority : ℤ → ℤ → Option ℤ
new_priority recent_cpu nice = do
  quarter ← divide_floats_and_ints recent_cpu (pos 4)
  some (clamp_priority (raw_priority quarter nice))

unfoldable pub thread_function_recompute_priority : ℕ → Kernel → Option Kernel
thread_function_recompute_priority t k =
    if points_to k.idle_thread t
    then some k
    else new_priority (k.thread t).recent_cpu (k.thread t).nice >>= λ p.
        thread_set_quite_priority t p k

unfoldable pub thread_function_recompute_recent_cpu : ℕ → Kernel → Option Kernel
thread_function_recompute_recent_cpu t k = if points_to k.idle_thread t then some k else (do
  let load2x = multiply_floats_and_ints k.load_average (pos 2)
  coef ← divide_floats load2x (sum_floats_and_ints load2x (pos 1))
  let cpu = sum_floats_and_ints (multiply_floats (k.thread t).recent_cpu coef) (k.thread t).nice
  some (set_thread k t (record (k.thread t) { recent_cpu = cpu })))

-- The loop of thread_foreach over the rest of all_list.
unfoldable pub foreach_from : (ℕ → Kernel → Option Kernel) → List ℕ → Kernel → Option Kernel
foreach_from func [] k = some k
foreach_from func (t ∷ ts) k = func t k >>= foreach_from func ts

unfoldable pub thread_foreach : (ℕ → Kernel → Option Kernel) → Kernel → Option Kernel
thread_foreach func k = foreach_from func k.all_list k

unfoldable pub recompute_priority : Kernel → Option Kernel
recompute_priority = thread_foreach thread_function_recompute_priority

unfoldable pub recompute_recent_cpu : Kernel → Option Kernel
recompute_recent_cpu = thread_foreach thread_function_recompute_recent_cpu

-- The number of threads in the queues below i.
unfoldable pub ready_count : ℕ → (ℕ → List ℕ) → ℕ
ready_count zero q = 0
ready_count (suc i) q = length (q i) + ready_count i q

unfoldable pub recompute_load_average : Kernel → Option Kernel
recompute_load_average k = do
  decay ← divide_floats (int_to_float (pos 59)) (int_to_float (pos 60))
  let decayed = multiply_floats k.load_average decay
  cur ← thread_current k
  let ready_num = (if points_to k.idle_thread cur then 0 else 1) + ready_count pri_size k.ready_list
  share ← divide_floats (int_to_float (pos ready_num)) (int_to_float (pos 60))
  some (record k { load_average = sum_floats decayed share })

unfoldable pub thread_set_nice : ℤ → Kernel → Option Kernel
thread_set_nice nice k = do
  cur ← thread_current k
  thread_function_recompute_priority cur (set_thread k cur (record (k.thread cur) { nice = nice }))

unfoldable pub thread_get_nice : Kernel → Option ℤ
thread_get_nice k = do cur ← thread_current k; some (k.thread cur).nice

unfoldable pub thread_get_load_avg : Kernel → ℤ
thread_get_load_avg k = float_to_int_nearest (multiply_floats_and_ints k.load_average (pos 100))

unfoldable pub thread_get_recent_cpu : Kernel → Option ℤ
thread_get_recent_cpu k = do
  cur ← thread_current k
  some (float_to_int_nearest (multiply_floats_and_ints (k.thread cur).recent_cpu (pos 100)))

abbrev pub time_slice : ℕ
time_slice = 4

-- thread_ticks is an `unsigned`.
unfoldable pub count_tick : Kernel → Kernel
count_tick k =
    let n = (k.thread_ticks + 1) % 2 ^ 32 in
    if ltb n time_slice
    then record k { thread_ticks = n }
    else record k { thread_ticks = n; yield_on_return = true }

unfoldable pub thread_tick : Kernel → Option Kernel
thread_tick k = do
  t ← thread_current k
  some (
      count_tick (
        if points_to k.idle_thread t
        then record k { idle_ticks = k.idle_ticks + 1 }
        else set_thread (record k { kernel_ticks = k.kernel_ticks + 1 }) t
            (record (k.thread t) {
              recent_cpu = sum_floats_and_ints (k.thread t).recent_cpu (pos 1);
            })))

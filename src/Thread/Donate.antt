-- ===== src/Thread/Donate.antt =====
-- Project 1: Threads/src/threads/thread.c: the donation of priorities to the holder of a lock, along
-- the chain of locks and holders. The recursion runs on fuel, which an unending chain uses up.
pub mod Greatest
pub mod Chain
pub mod Ends
use cs140_operating_systems.Base.{
  ℕ, zero, suc, Bool, true, false, Option, none, some, List, [], ◌∷◌, if◌then◌else◌, ◌>>=◌, ℤ,
  ltb_ℤ, negsuc,
}
use cs140_operating_systems.Thread.{
  Thread, Semaphore, Lock, Kernel, is_thread, set_thread, thread_current, requeue, thread_yield,
}

-- `a > b ? a : b`
abbrev pub max_ℤ : ℤ → ℤ → ℤ
max_ℤ a b = if ltb_ℤ b a then a else b

unfoldable pub thread_set_quite_priority_donation : ℕ → ℤ → Kernel → Option Kernel
thread_set_quite_priority_donation t new_priority k =
    requeue t (set_thread k t (record (k.thread t) { priority = new_priority }))

-- The loop over the waiters of a lock.
unfoldable pub greatest_waiter : (ℕ → Thread) → List ℕ → ℤ → ℤ
greatest_waiter thread [] priority = priority
greatest_waiter thread (w ∷ ws) priority =
    greatest_waiter thread ws (max_ℤ priority (thread w).priority)

-- The loop over the locks that the thread has acquired.
unfoldable pub greatest_donor : Kernel → List ℕ → ℤ → ℤ
greatest_donor k [] priority = priority
greatest_donor k (l ∷ ls) priority =
    greatest_donor k ls (greatest_waiter k.thread (k.lock l).semaphore.waiters priority)

-- The priority that thread t gets when it is given one.
unfoldable pub donated : Kernel → ℕ → ℤ → ℤ
donated k t priority =
    max_ℤ (greatest_donor k (k.thread t).acquired_locks_list priority) (k.thread t).old_priority

-- `t->waiting_lock->holder`, if there are both.
abbrev pub holder_of : (ℕ → Lock) → Option ℕ → Option ℕ
holder_of lock none = none
holder_of lock (some l) = (lock l).holder

abbrev pub blocker : Kernel → ℕ → Option ℕ
blocker k t = holder_of k.lock (k.thread t).waiting_lock

unfoldable pub propagate_priorities : ℕ → Option ℕ → ℤ → Kernel → Option Kernel
propagate_priorities fuel none priority k = some k
propagate_priorities zero (some t) priority k = none
propagate_priorities (suc fuel) (some t) priority k =
    let p = donated k t priority in
    let rest = thread_set_quite_priority_donation t p k >>= λ k1.
    propagate_priorities fuel (blocker k1 t) p k1 in
    if k.thread_mlfqs then some k else if is_thread k t then rest else some k

unfoldable pub thread_get_priority : Kernel → Option ℤ
thread_get_priority k = do cur ← thread_current k; some (k.thread cur).priority

unfoldable pub thread_set_priority : ℕ → ℤ → Kernel → Option Kernel
thread_set_priority fuel new_priority k = do
  t ← thread_current k
  k1 ← requeue t (
      set_thread k t (record (k.thread t) { priority = new_priority; old_priority = new_priority }))
  k2 ← propagate_priorities fuel (some t) (negsuc 0) k1
  if ltb_ℤ (k2.thread t).priority (k.thread t).priority then thread_yield k2 else some k2

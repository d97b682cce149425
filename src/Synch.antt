-- ===== src/Synch.antt =====
-- Project 1: Threads/src/threads/synch.c: semaphores, locks and condition variables. Each function runs
-- with interrupts off up to a call that switches threads, so one that may sleep is cut there: what it
-- does after it has been woken is a function of its own. A result `none` is a failed ASSERT, or the
-- removal of an element that is in no list.
pub mod Wake
pub mod Locks
pub mod Release
use cs140_operating_systems.Base.{
  ℕ, zero, suc, ◌+◌, ◌-◌, ◌%◌, ◌^◌, Bool, true, false, not, Option, none, some, List, [], ◌∷◌, ◌++◌,
  ◌==◌, if◌then◌else◌, update, ◌>>=◌, ◌>>◌, assert, ℤ, negsuc, ltb_ℤ,
}
use cs140_operating_systems.RwLock.{Wait, got, sleep}
use cs140_operating_systems.Thread.{
  Thread, Semaphore, Lock, Kernel, has, erase, points_to, set_thread, thread_current,
  thread_unblock, thread_block, thread_yield,
}
use cs140_operating_systems.Thread.Donate.{propagate_priorities}

unfoldable pub sema_init : ℕ → Semaphore
sema_init value = record { value = value; waiters = [] }

-- One pass of the loop of sema_down.
unfoldable pub sema_down : Semaphore → Kernel → Option (Semaphore × Kernel × Wait)
sema_down s k = do
  t ← thread_current k
  if s.value == 0
      then (do k1 ← thread_block k; some (record s { waiters = s.waiters ++ (t ∷ []) }, k1, sleep))
      else some (record s { value = s.value - 1 }, k, got)

unfoldable pub sema_try_down : Semaphore → Semaphore × Bool
sema_try_down s = if s.value == 0 then (s, false) else (record s { value = s.value - 1 }, true)

-- list_max under comparator_synch, from the element that is the greatest so far.
unfoldable pub list_max : (ℕ → Thread) → ℕ → List ℕ → ℕ
list_max thread max [] = max
list_max thread max (e ∷ es) =
    let rest = list_max thread e es in
    let rest' = list_max thread max es in
    if ltb_ℤ (thread max).priority (thread e).priority then rest else rest'

abbrev pub add_value : Semaphore → Semaphore
add_value s = record s { value = (s.value + 1) % 2 ^ 32 }

-- sema_up for the list of waiters that the semaphore has.
unfoldable pub up_first : Semaphore → List ℕ → Kernel → Option (Semaphore × Kernel)
up_first s [] k = some (add_value s, k)
up_first s (w ∷ ws) k = do
  let el = list_max k.thread w ws
  k1 ← thread_unblock el k
  some (add_value (record s { waiters = erase el (w ∷ ws) }), k1)

unfoldable pub sema_up : Semaphore → Kernel → Option (Semaphore × Kernel)
sema_up s k = up_first s s.waiters k

abbrev pub set_lock : Kernel → ℕ → Lock → Kernel
set_lock k l x = record k { lock = update k.lock l x }

unfoldable pub lock_init : ℕ → Kernel → Kernel
lock_init l k = set_lock k l (record { holder = none; semaphore = sema_init 1 })

unfoldable pub lock_held_by_current_thread : ℕ → Kernel → Option Bool
lock_held_by_current_thread l k = do cur ← thread_current k; some (points_to (k.lock l).holder cur)

-- lock_acquire up to the return of thread_yield, with its variable `holder`.
unfoldable pub lock_acquire_begin : ℕ → ℕ → Kernel → Option (Kernel × Option ℕ)
lock_acquire_begin fuel l k = do
  held ← lock_held_by_current_thread l k
  assert (not held)
  t ← thread_current k
  let k1 = set_thread k t (record (k.thread t) { waiting_lock = some l })
  let holder = (k1.lock l).holder
  k2 ← propagate_priorities fuel holder (k1.thread t).priority k1
  k3 ← thread_yield k2
  some (k3, holder)

-- One pass of its sema_down.
unfoldable pub lock_acquire_down : ℕ → Kernel → Option (Kernel × Wait)
lock_acquire_down l k = do
  r ← sema_down (k.lock l).semaphore k
  some (set_lock r.1 l (record (r.1.lock l) { semaphore = r.0 }), r.2)

-- What thread t does after it.
unfoldable pub lock_acquire_end : ℕ → ℕ → ℕ → Option ℕ → Kernel → Option Kernel
lock_acquire_end fuel l t holder k = do
  k1 ← propagate_priorities fuel holder (negsuc 0) k
  let k2 = set_thread k1 t (record (k1.thread t) {
    acquired_locks_list = (k1.thread t).acquired_locks_list ++ (l ∷ []);
    waiting_lock = none;
  })
  some (set_lock k2 l (record (k2.lock l) { holder = some t }))

unfoldable pub lock_try_acquire : ℕ → Kernel → Option (Kernel × Bool)
lock_try_acquire l k = do
  held ← lock_held_by_current_thread l k
  assert (not held)
  let r = sema_try_down (k.lock l).semaphore
  let k1 = set_lock k l (record (k.lock l) { semaphore = r.0 })
  if r.1
      then (do
        cur ← thread_current k1
        some (set_lock k1 l (record (k1.lock l) { holder = some cur }), true))
      else some (k1, false)

-- The list that acquired_thread_elem can be in is that of the holder.
unfoldable pub lock_release : ℕ → ℕ → Kernel → Option Kernel
lock_release fuel l k = do
  held ← lock_held_by_current_thread l k
  assert held
  t ← thread_current k
  let k1 = set_lock k l (record (k.lock l) { holder = none })
  assert (has l (k1.thread t).acquired_locks_list)
  let k2 =
      set_thread k1 t
        (record (k1.thread t) { acquired_locks_list = erase l (k1.thread t).acquired_locks_list })
  k3 ← propagate_priorities fuel (some t) (negsuc 0) k2
  r ← sema_up (k3.lock l).semaphore k3
  some (set_lock r.1 l (record (r.1.lock l) { semaphore = r.0 }))

-- `struct condition`. A waiter is the number of the thread whose stack its semaphore_elem is on.
pub record Condition : Type 0 where
  pub waiters : List ℕ
  pub semaphore : ℕ → Semaphore

unfoldable pub cond_init : (ℕ → Semaphore) → Condition
cond_init semaphore = record { waiters = []; semaphore = semaphore }

-- cond_wait up to the return of lock_release; sema_down of the waiter's semaphore and lock_acquire
-- follow.
unfoldable pub cond_wait_begin : ℕ → ℕ → Condition → Kernel → Option (Condition × Kernel)
cond_wait_begin fuel l c k = do
  held ← lock_held_by_current_thread l k
  assert held
  t ← thread_current k
  k1 ← lock_release fuel l k
  some (
    record { waiters = c.waiters ++ (t ∷ []); semaphore = update c.semaphore t (sema_init 0) },
    k1,
  )

unfoldable pub cond_wait_down : ℕ → Condition → Kernel → Option (Condition × Kernel × Wait)
cond_wait_down t c k = do
  r ← sema_down (c.semaphore t) k
  some (record c { semaphore = update c.semaphore t r.0 }, r.1, r.2)

-- The priority that cond_waiters_comparator reads. In an empty list it is not that of a thread.
abbrev pub top_priority : (ℕ → Thread) → List ℕ → Option ℤ
top_priority thread [] = none
top_priority thread (w ∷ ws) = some (thread (list_max thread w ws)).priority

-- list_max under cond_waiters_comparator.
unfoldable pub max_waiter : (ℕ → Thread) → (ℕ → Semaphore) → ℕ → List ℕ → Option ℕ
max_waiter thread semaphore max [] = some max
max_waiter thread semaphore max (e ∷ es) =
    let rest = max_waiter thread semaphore e es in
    let rest' = max_waiter thread semaphore max es in
    top_priority thread (semaphore max).waiters >>= λ p.
    top_priority thread (semaphore e).waiters >>= λ q. if ltb_ℤ p q then rest else rest'

unfoldable pub signal_first : Condition → List ℕ → Kernel → Option (Condition × Kernel)
signal_first c [] k = some (c, k)
signal_first c (w ∷ ws) k = do
  el ← max_waiter k.thread c.semaphore w ws
  r ← sema_up (c.semaphore el) k
  some (record { waiters = erase el (w ∷ ws); semaphore = update c.semaphore el r.0 }, r.1)

unfoldable pub cond_signal : ℕ → Condition → Kernel → Option (Condition × Kernel)
cond_signal l c k = do
  held ← lock_held_by_current_thread l k
  assert held
  signal_first c c.waiters k

abbrev pub is_empty : List ℕ → Bool
is_empty [] = true
is_empty (_ ∷ _) = false

-- The loop, on fuel: the number of waiters is enough.
unfoldable pub cond_broadcast : ℕ → ℕ → Condition → Kernel → Option (Condition × Kernel)
cond_broadcast zero l c k = if is_empty c.waiters then some (c, k) else none
cond_broadcast (suc fuel) l c k =
    let rest = cond_signal l c k >>= λ r. cond_broadcast fuel l r.0 r.1 in
    if is_empty c.waiters then some (c, k) else rest

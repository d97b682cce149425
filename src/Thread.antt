-- ===== src/Thread.antt =====
-- Project 1: Threads/src/threads/thread.c: the threads, the queues of ready threads and the choice of
-- the next thread to run. A thread, and a lock, is a number for the address of its structure. Each
-- function runs with interrupts off. A result `none` is a failed ASSERT, an index outside ready_list,
-- or the removal of an element that is in no list.
pub mod Mlfqs
pub mod Donate
pub mod Life
pub mod Queues
pub mod Sound
pub mod Next
pub mod Schedule
pub mod Calls
pub mod Yield
pub mod Formula
pub mod Recompute
pub mod Load
pub use cs140_operating_systems.Base.{has, erase}
use cs140_operating_systems.Base.{
  ℕ, zero, suc, Bool, true, false, ◌&&◌, not, Option, none, some, List, [], ◌∷◌, ◌++◌, ◌==◌, ltb,
  leb, if◌then◌else◌, update, ◌>>=◌, ◌>>◌, assert, ℤ, pos, negsuc,
}

pub data Status : Type 0 where
  thread_running thread_ready thread_blocked thread_dying : Status

-- `struct thread` without name, stack and page directory. `is_list` is is_list of acquired_locks_list:
-- whether list_init made it.
pub record Thread : Type 0 where
  pub tid : ℕ
  pub status : Status
  pub waiting_lock : Option ℕ
  pub priority : ℤ
  pub old_priority : ℤ
  pub acquired_locks_list : List ℕ
  pub recent_cpu : ℤ
  pub nice : ℤ
  pub magic : ℕ
  pub is_list : Bool

pub record Semaphore : Type 0 where
  pub value : ℕ
  pub waiters : List ℕ

pub record Lock : Type 0 where
  pub holder : Option ℕ
  pub semaphore : Semaphore

-- The variables of thread.c and the structures that it reaches. `current` is the thread whose stack
-- the CPU uses, `freed` the pages given back, and `yield_on_return` the request of
-- intr_yield_on_return.
pub record Kernel : Type 0 where
  pub ready_list : ℕ → List ℕ
  pub all_list : List ℕ
  pub idle_thread : Option ℕ
  pub initial_thread : ℕ
  pub current : ℕ
  pub thread : ℕ → Thread
  pub lock : ℕ → Lock
  pub load_average : ℤ
  pub thread_ticks : ℕ
  pub idle_ticks : ℕ
  pub kernel_ticks : ℕ
  pub yield_on_return : Bool
  pub next_tid : ℕ
  pub freed : List ℕ
  pub thread_mlfqs : Bool

-- PRI_MIN is 0 and PRI_MAX 63.
abbrev pub pri_size : ℕ
pri_size = 64

abbrev pub thread_magic : ℕ
thread_magic = 3446325067

abbrev pub is_thread : Kernel → ℕ → Bool
is_thread k t = ((k.thread t).magic == thread_magic) && (k.thread t).is_list

abbrev pub is_ready : Status → Bool
is_ready thread_ready = true
is_ready _ = false

abbrev pub is_blocked : Status → Bool
is_blocked thread_blocked = true
is_blocked _ = false

abbrev pub is_running : Status → Bool
is_running thread_running = true
is_running _ = false

abbrev pub is_dying : Status → Bool
is_dying thread_dying = true
is_dying _ = false

abbrev pub points_to : Option ℕ → ℕ → Bool
points_to none t = false
points_to (some i) t = t == i

abbrev pub set_thread : Kernel → ℕ → Thread → Kernel
set_thread k t x = record k { thread = update k.thread t x }

abbrev pub set_status : Kernel → ℕ → Status → Kernel
set_status k t s = set_thread k t (record (k.thread t) { status = s })

unfoldable pub thread_current : Kernel → Option ℕ
thread_current k = do
  assert (is_thread k k.current)
  assert (is_running (k.thread k.current).status)
  some k.current

-- The queue of a priority, which must be one of the array.
abbrev pub queue_index : ℤ → Option ℕ
queue_index (pos p) = if ltb p pri_size then some p else none
queue_index (negsuc p) = none

unfoldable pub add_ready_thread : ℕ → Kernel → Option Kernel
add_ready_thread t k = do
  i ← queue_index (k.thread t).priority
  some (record k { ready_list = update k.ready_list i (k.ready_list i ++ (t ∷ [])) })

-- The queue that the element of the thread is in.
abbrev pub queue_of : ℕ → ℕ → (ℕ → List ℕ) → Option ℕ
queue_of zero t q = none
queue_of (suc i) t q = if has t (q i) then some i else queue_of i t q

unfoldable pub remove_ready_thread : ℕ → Kernel → Option Kernel
remove_ready_thread t k = do
  i ← queue_of pri_size t k.ready_list
  some (record k { ready_list = update k.ready_list i (erase t (k.ready_list i)) })

-- `if(t->status == THREAD_READY) { remove_ready_thread(t); add_ready_thread(t); }`
unfoldable pub requeue : ℕ → Kernel → Option Kernel
requeue t k =
    if is_ready (k.thread t).status then remove_ready_thread t k >>= add_ready_thread t else some k

unfoldable pub thread_unblock : ℕ → Kernel → Option Kernel
thread_unblock t k = do
  assert (is_thread k t)
  assert (is_blocked (k.thread t).status)
  add_ready_thread t (set_status k t thread_ready)

unfoldable pub try_thread_unblock : ℕ → Kernel → Option Kernel
try_thread_unblock t k = do
  assert (is_thread k t)
  if is_blocked (k.thread t).status
      then add_ready_thread t (set_status k t thread_ready)
      else some k

-- The loop of next_thread_to_run over the queues below i.
unfoldable pub next_from : ℕ → Kernel → Option ℕ × Kernel
next_from zero k = (k.idle_thread, k)
next_from (suc i) k = elim (k.ready_list i) [
  | [] ↦ next_from i k
  | t ∷ ts ↦ (some t, record k { ready_list = update k.ready_list i ts })
]

unfoldable pub next_thread_to_run : Kernel → Option ℕ × Kernel
next_thread_to_run = next_from pri_size

-- palloc_free_page for the structure of a thread that has died.
unfoldable pub reap : Option ℕ → Kernel → Option Kernel
reap none k = some k
reap (some prev) k =
    if is_dying (k.thread prev).status && not (prev == k.initial_thread)
    then assert (not (prev == k.current)) >> some (record k { freed = prev ∷ k.freed })
    else some k

unfoldable pub thread_schedule_tail : Option ℕ → Kernel → Option Kernel
thread_schedule_tail prev k =
    reap prev (record (set_status k k.current thread_running) { thread_ticks = 0 })

-- switch_threads makes `next` the thread whose stack the CPU uses.
unfoldable pub switch_to : Option ℕ → Kernel → Option Kernel
switch_to none k = none
switch_to (some next) k = do
  assert (is_thread k next)
  thread_schedule_tail (if k.current == next then none else some k.current)
      (record k { current = next })

unfoldable pub schedule : Kernel → Option Kernel
schedule k = do
  assert (not (is_running (k.thread k.current).status))
  switch_to (next_thread_to_run k).0 (next_thread_to_run k).1

unfoldable pub thread_block : Kernel → Option Kernel
thread_block k = do cur ← thread_current k; schedule (set_status k cur thread_blocked)

unfoldable pub thread_yield : Kernel → Option Kernel
thread_yield k = do
  cur ← thread_current k
  let k1 = set_status k cur thread_ready
  k2 ← if points_to k.idle_thread cur then some k1 else add_ready_thread cur k1
  schedule k2

unfoldable pub thread_exit : Kernel → Option Kernel
thread_exit k = do
  cur ← thread_current k
  schedule (set_status (record k { all_list = erase cur k.all_list }) cur thread_dying)

-- ===== src/Thread/Life.antt =====
-- Project 1: Threads/src/threads/thread.c: the start of the thread system and of a thread.
-- thread_create is two functions, between which it calls allocate_tid, which takes a lock.
use cs140_operating_systems.Base.{
  ℕ, ◌+◌, ◌%◌, ◌^◌, true, false, ◌&&◌, Option, none, some, [], ◌∷◌, ◌++◌, if◌then◌else◌, ◌>>=◌,
  ◌>>◌, assert, ℤ, pos, ltb_ℤ, not,
}
use cs140_operating_systems.Thread.{
  Thread, Kernel, thread_running, thread_blocked, thread_magic, is_thread, set_thread, set_status,
  thread_current, thread_unblock, thread_yield,
}
use cs140_operating_systems.Thread.Mlfqs.{thread_function_recompute_priority}
use cs140_operating_systems.Synch.{lock_init, lock_release}

abbrev pub pri_default : ℤ
pri_default = pos 31

-- What a thread inherits from the running one, if that is a thread already.
unfoldable pub inherited : Kernel → (Thread → ℤ) → Option ℤ
inherited k field =
    if is_thread k k.current
    then (do cur ← thread_current k; some (field (k.thread cur)))
    else some (pos 0)

-- The structure after memset and the assignments up to `magic`.
abbrev pub blank_thread : ℤ → Thread
blank_thread priority = record {
  tid = 0;
  status = thread_blocked;
  waiting_lock = none;
  priority = priority;
  old_priority = priority;
  acquired_locks_list = [];
  recent_cpu = pos 0;
  nice = pos 0;
  magic = thread_magic;
  is_list = false;
}

unfoldable pub init_thread : ℕ → ℤ → Kernel → Option Kernel
init_thread t priority k = do
  assert (not (ltb_ℤ priority (pos 0)) && not (ltb_ℤ (pos 63) priority))
  let k1 = set_thread k t (blank_thread priority)
  nice ← inherited k1 λ x. x.nice
  let k2 = set_thread k1 t (record (k1.thread t) { nice = nice })
  recent_cpu ← inherited k2 λ x. x.recent_cpu
  let k3 = set_thread k2 t (record (k2.thread t) { recent_cpu = recent_cpu; is_list = true })
  let k4 = record k3 { all_list = k3.all_list ++ (t ∷ []) }
  if k4.thread_mlfqs
      then thread_function_recompute_priority t
          (set_thread k4 t (record (k4.thread t) { priority = pos 0 }))
      else some k4

-- Up to the call of allocate_tid; tid_lock is the lock of that name.
unfoldable pub thread_init : ℕ → Kernel → Option Kernel
thread_init tid_lock k = do
  let k1 = record (lock_init tid_lock k) {
    ready_list = λ i. [];
    all_list = [];
    load_average = pos 0;
    initial_thread = k.current;
  }
  k2 ← init_thread k.current pri_default k1
  some (set_status k2 k.current thread_running)

-- page: what palloc_get_page returned. The result none of the inner Option is TID_ERROR; else the
-- thread is initialised, up to the call of allocate_tid.
unfoldable pub thread_create_begin : Option ℕ → ℤ → Kernel → Option (Kernel × Option ℕ)
thread_create_begin none priority k = some (k, none)
thread_create_begin (some t) priority k = do k1 ← init_thread t priority k; some (k1, some t)

-- From the return of allocate_tid on.
unfoldable pub thread_create_end : ℕ → ℕ → Kernel → Option Kernel
thread_create_end t tid k = do
  k1 ← thread_unblock t (set_thread k t (record (k.thread t) { tid = tid }))
  cur ← thread_current k1
  if ltb_ℤ (k1.thread cur).priority (k1.thread t).priority then thread_yield k1 else some k1

-- allocate_tid once lock_acquire has returned. A tid_t is 32 bits wide.
unfoldable pub allocate_tid : ℕ → ℕ → Kernel → Option (Kernel × ℕ)
allocate_tid fuel tid_lock k = do
  k1 ← lock_release fuel tid_lock (record k { next_tid = (k.next_tid + 1) % 2 ^ 32 })
  some (k1, k.next_tid)

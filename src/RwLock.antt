-- ===== src/RwLock.antt =====
-- Project 4: File System/src/threads/gio_synch.c: read-write locks. Each function runs with interrupts
-- off, so the text between two calls of thread_block is one step: a call that blocks ends in `sleep`,
-- and its loop goes on in the function ending in _wake once the thread has been unblocked.
-- A result `none` is a failed ASSERT.
pub mod System
mod Effect
mod Calls
pub mod Exclusion
pub mod Wakeup
use cs140_operating_systems.Base.{
  ℕ, zero, suc, ◌+◌, ◌-◌, ◌%◌, ◌^◌, Bool, true, false, not, Option, none, some, List, [], ◌∷◌, ◌++◌,
  ◌==◌, ltb, if◌then◌else◌, update, ◌>>=◌, ◌>>◌, assert,
}

-- `struct rw_lock`, with the two members of `struct thread` that it works on: waits_write, and whether
-- the status is THREAD_BLOCKED. A thread is a number.
pub record RwLock : Type 0 where
  pub w_holder : Option ℕ
  pub level : ℕ
  pub waiters : List ℕ
  pub waits_write : ℕ → Bool
  pub asleep : ℕ → Bool

-- How a call that may block ended, or went to sleep.
pub data Wait : Type 0 where
  got sleep : Wait

abbrev pub is_null : Option ℕ → Bool
is_null none = true
is_null (some _) = false

abbrev pub is_thread : ℕ → Option ℕ → Bool
is_thread t none = false
is_thread t (some h) = h == t

abbrev pub wants_write : RwLock → ℕ → Bool → RwLock
wants_write l t b = record l { waits_write = update l.waits_write t b }

-- list_push_back or list_push_front of the current thread, and thread_block.
abbrev pub block_back : RwLock → ℕ → RwLock
block_back l t = record l { waiters = l.waiters ++ (t ∷ []); asleep = update l.asleep t true }

abbrev pub block_front : RwLock → ℕ → RwLock
block_front l t = record l { waiters = t ∷ l.waiters; asleep = update l.asleep t true }

-- thread_unblock asserts that the thread is blocked.
unfoldable pub thread_unblock : RwLock → ℕ → Option RwLock
thread_unblock l t = do assert (l.asleep t); some (record l { asleep = update l.asleep t false })

unfoldable pub rw_lock_init : (ℕ → Bool) → (ℕ → Bool) → RwLock
rw_lock_init waits_write asleep = record {
  w_holder = none;
  level = 0;
  waiters = [];
  waits_write = waits_write;
  asleep = asleep;
}

-- The first argument is thread_current ().
unfoldable pub r_try_lock_acquire : ℕ → RwLock → Option (RwLock × Bool)
r_try_lock_acquire t l = do
  assert (not (is_thread t l.w_holder))
  let l1 = wants_write l t false
  some (
    if is_null l1.w_holder then record l1 { level = (l1.level + 1) % 2 ^ 16 } else l1,
    is_null l1.w_holder,
  )

-- One test of the loop of r_lock_acquire.
unfoldable pub r_attempt : ℕ → RwLock → RwLock × Wait
r_attempt t l =
    if is_null l.w_holder
    then (record l { level = (l.level + 1) % 2 ^ 16 }, got)
    else (block_back l t, sleep)

unfoldable pub r_lock_acquire : ℕ → RwLock → Option (RwLock × Wait)
r_lock_acquire t l = do
  assert (not (is_thread t l.w_holder))
  some (r_attempt t (wants_write l t false))

-- After the thread woke in round i.
unfoldable pub r_lock_wake : ℕ → ℕ → RwLock → Option (RwLock × Wait)
r_lock_wake i t l = do assert (ltb i 100); some (r_attempt t l)

-- `if (--l->level == 0 && !list_empty (&l->waiters))`
unfoldable pub wake_first : RwLock → ℕ → List ℕ → Option RwLock
wake_first l zero (t ∷ ts) = do
  assert (is_null l.w_holder)
  assert (l.waits_write t)
  thread_unblock (record l { waiters = ts }) t
wake_first l _ _ = some l

unfoldable pub r_lock_release : RwLock → Option RwLock
r_lock_release l = do
  assert (is_null l.w_holder)
  assert (not (l.level == 0))
  wake_first (record l { level = l.level - 1 }) (l.level - 1) l.waiters

-- `l->w_holder || l->level`
abbrev pub is_taken : RwLock → Bool
is_taken l = if is_null l.w_holder then not (l.level == 0) else true

unfoldable pub upgrade_attempt : ℕ → RwLock → RwLock × Wait
upgrade_attempt t l =
    if is_taken l then (block_front l t, sleep) else (record l { w_holder = some t }, got)

unfoldable pub r_lock_upgrade_to_w : ℕ → RwLock → Option (RwLock × Wait)
r_lock_upgrade_to_w t l = do
  assert (not (l.level == 0))
  some (upgrade_attempt t (wants_write (record l { level = l.level - 1 }) t true))

unfoldable pub upgrade_wake : ℕ → ℕ → RwLock → Option (RwLock × Wait)
upgrade_wake i t l = do assert (ltb i 100); some (upgrade_attempt t l)

unfoldable pub w_try_lock_acquire : ℕ → RwLock → RwLock × Bool
w_try_lock_acquire t l =
    let l1 = wants_write l t true in
    if is_taken l1 then (l1, false) else (record l1 { w_holder = some t }, true)

unfoldable pub w_attempt : ℕ → RwLock → RwLock × Wait
w_attempt t l =
    if is_taken l then (block_back l t, sleep) else (record l { w_holder = some t }, got)

unfoldable pub w_lock_acquire : ℕ → RwLock → RwLock × Wait
w_lock_acquire t l = w_attempt t (wants_write l t true)

unfoldable pub w_lock_wake : ℕ → ℕ → RwLock → Option (RwLock × Wait)
w_lock_wake i t l = do assert (ltb i 100); some (w_attempt t l)

-- The loop over the waiters; the flag is did_one.
unfoldable pub wake_loop : List ℕ → Bool → RwLock → Option RwLock
wake_loop [] did_one l = some l
wake_loop (t ∷ ts) did_one l =
    let popped = thread_unblock (record l { waiters = ts }) t in
    let rest = popped >>= wake_loop ts true in
    if l.waits_write t then (if did_one then some l else popped) else rest

unfoldable pub w_lock_release : ℕ → RwLock → Option RwLock
w_lock_release t l = do
  assert (is_thread t l.w_holder)
  wake_loop l.waiters false (record l { w_holder = none })

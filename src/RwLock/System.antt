-- ===== src/RwLock/System.antt =====
-- Threads that use one read-write lock of gio_synch.c, in any interleaving.
use cs140_operating_systems.Base.{
  ℕ, ◌+◌, ◌<◌, ◌≡◌, Bool, false, Option, none, some, if◌then◌else◌, update, ◌>>=◌,
}
use cs140_operating_systems.RwLock.{
  RwLock, Wait, got, sleep, rw_lock_init, r_try_lock_acquire, r_lock_acquire, r_lock_wake,
  r_lock_release, r_lock_upgrade_to_w, upgrade_wake, w_try_lock_acquire, w_lock_acquire,
  w_lock_wake, w_lock_release,
}

-- Where a thread is: outside, in a critical section, or asleep or woken in round i of a loop.
pub data Pc : Type 0 where
  idle reading writing : Pc
  in_read in_upgrade in_write : ℕ → Pc

pub data Call : Type 0 where
  try_read acquire_read release_read upgrade try_write acquire_write release_write wake : Call

abbrev pub after : Pc → Pc → Wait → Pc
after done looping got = done
after done looping sleep = looping

-- The call that thread t makes, by where it is; `none` for a panic, and for a call that a thread at
-- that place does not make.
unfoldable pub perform : ℕ → Call → Pc → RwLock → Option (RwLock × Pc)
perform t try_read idle l =
    r_try_lock_acquire t l >>= λ (l', ok). some (l', if ok then reading else idle)
perform t acquire_read idle l =
    r_lock_acquire t l >>= λ (l', w). some (l', after reading (in_read 0) w)
perform t wake (in_read i) l =
    r_lock_wake i t l >>= λ (l', w). some (l', after reading (in_read (i + 1)) w)
perform t release_read reading l = r_lock_release l >>= λ l'. some (l', idle)
perform t upgrade reading l =
    r_lock_upgrade_to_w t l >>= λ (l', w). some (l', after writing (in_upgrade 0) w)
perform t wake (in_upgrade i) l =
    upgrade_wake i t l >>= λ (l', w). some (l', after writing (in_upgrade (i + 1)) w)
perform t try_write idle l =
    let (l', ok) = w_try_lock_acquire t l in some (l', if ok then writing else idle)
perform t acquire_write idle l =
    let (l', w) = w_lock_acquire t l in some (l', after writing (in_write 0) w)
perform t wake (in_write i) l =
    w_lock_wake i t l >>= λ (l', w). some (l', after writing (in_write (i + 1)) w)
perform t release_write writing l = w_lock_release t l >>= λ l'. some (l', idle)
perform t _ _ l = none

pub record System : Type 0 where
  pub lock : RwLock
  pub pc : ℕ → Pc

-- Some thread below n makes a call. A thread that sleeps makes none.
pub data Step (n : ℕ) : System → System → Type 0 where
  step :
      {s : System} (t : ℕ) (c : Call) {l' : RwLock} {p' : Pc}
      → t < n
      → (c ≡ wake → s.lock.asleep t ≡ false)
      → perform t c (s.pc t) s.lock ≡ some (l', p')
      → Step n s (record { lock = l'; pc = update s.pc t p' })

pub data Reach (n : ℕ) (waits asleep : ℕ → Bool) : System → Type 0 where
  start : Reach n waits asleep (record { lock = rw_lock_init waits asleep; pc = λ _. idle })
  next : {s s' : System} → Reach n waits asleep s → Step n s s' → Reach n waits asleep s'

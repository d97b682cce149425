-- ===== src/Tests/RwLocks.antt =====
-- Tests of gio_synch.c.
use cs140_operating_systems.Base.{
  ℕ, ◌<◌, ◌≡◌, ◌≢◌, refl, Bool, true, false, none, some, [], ◌∷◌, arith, update, ◌==◌, ◌||◌,
}
use cs140_operating_systems.RwLock.{
  RwLock, got, rw_lock_init, r_lock_acquire, r_attempt, w_lock_acquire, w_attempt, w_lock_release,
  r_lock_release,
}
use cs140_operating_systems.RwLock.System.{
  idle, reading, writing, in_write, acquire_read, acquire_write, perform, System, step, Reach,
  start, next,
}
use cs140_operating_systems.RwLock.Exclusion.{readers, mutual_exclusion}
use cs140_operating_systems.RwLock.Wakeup.{
  Woke, w_lock_release-Woke, front_group, r_lock_release-panics,
}

abbrev nobody : ℕ → Bool
nobody j = false

abbrev no_wish : ℕ → Bool
no_wish j = j == 1

-- Thread 0 writes, thread 1 sleeps until it may write, thread 2 behind it until it may read.
abbrev queued : RwLock
queued = record {
  w_holder = some 0;
  level = 0;
  waiters = 1 ∷ 2 ∷ [];
  waits_write = no_wish;
  asleep = λ j. (j == 1) || (j == 2);
}

w_lock_release-Woke_example :
    (l' : RwLock) × (w_lock_release 0 queued ≡ some l')
    × Woke (record queued { w_holder = none }) l' (front_group no_wish (1 ∷ 2 ∷ []))
w_lock_release-Woke_example = w_lock_release-Woke 0 queued refl (refl, refl, (refl, refl, tt))

r_lock_release-panics_example :
    (l1 l2 : RwLock) × (w_lock_release 0 queued ≡ some l1)
    × (l1.asleep 1 ≡ false)
    × (r_lock_acquire 0 l1 ≡ some (l2, got))
    × (r_lock_release l2 ≡ none)
r_lock_release-panics_example =
    r_lock_release-panics 0 1 2 [] queued refl refl refl (refl, refl, (refl, refl, tt)) refl refl

-- Thread 1 reads, and thread 0 waits for it to write.
abbrev busy : System
busy = record {
  lock = record {
    w_holder = none;
    level = 1;
    waiters = 0 ∷ [];
    waits_write = update (update nobody 1 false) 0 true;
    asleep = update nobody 0 true;
  };
  pc = update (update (λ _. idle) 1 reading) 0 (in_write 0);
}

busy-Reach : Reach 2 nobody nobody busy
unfolding rw_lock_init perform r_lock_acquire r_attempt w_lock_acquire w_attempt
busy-Reach =
    next (next start (step 1 acquire_read (omega arith) (λ e. absurd (cc)) refl))
      (step 0 acquire_write (omega arith) (λ e. absurd (cc)) refl)

mutual_exclusion_example :
    (1 ≡ readers 2 busy.pc)
    × ((i j : ℕ)
        → j < 2
        → busy.pc i ≡ writing
        → (busy.pc j ≢ reading) × (busy.pc j ≡ writing → i ≡ j))
mutual_exclusion_example = mutual_exclusion {n = 2} {s = busy} (omega arith) busy-Reach

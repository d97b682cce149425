-- ===== src/Synch/Locks.antt =====
-- Project 1: Threads/src/threads/synch.c: giving a lock back.
use mathlib.Core.Path.{subst}
use cs140_operating_systems.Base.{
  ℕ, ◌-◌, ◌≡◌, refl, sym, ◌∙◌, ◌⊎◌, inl, inr, true, false, none, some, List, [], ◌∷◌, arith, ◌==◌,
  ==_iff, ==-refl, if◌then◌else◌, Bool-cases, update, update_map,
}
use cs140_operating_systems.Thread.{
  Thread, Semaphore, Lock, Kernel, is_thread, points_to, has, erase, set_thread, thread_current,
}
use cs140_operating_systems.Thread.Sound.{IsGood, IsSound, is_live, rest-IsSound}
use cs140_operating_systems.Thread.Calls.{CanRun, stays-CanRun}
use cs140_operating_systems.Thread.Donate.Chain.{IsLinked}
use cs140_operating_systems.Synch.{
  set_lock, sema_try_down, lock_held_by_current_thread, lock_try_acquire, lock_release,
}

-- In a sound state where one thread runs, a lock that it does not hold, with a value other than
-- 0 and not on its list of locks: lock_try_acquire takes the lock for the current thread, and
-- lock_release by it then fails.
pub lock_try_acquire-lock_release :
    (fuel l : ℕ) (k : Kernel)
    → CanRun k
    → points_to (k.lock l).holder k.current ≡ false
    → ((k.lock l).semaphore.value == 0) ≡ false
    → has l (k.thread k.current).acquired_locks_list ≡ false
    → (k' : Kernel) × (lock_try_acquire l k ≡ some (k', true))
      × ((k'.lock l).holder ≡ some k.current)
      × (lock_release fuel l k' ≡ none)
unfolding lock_try_acquire lock_release lock_held_by_current_thread sema_try_down thread_current
lock_try_acquire-lock_release fuel l k c free v h =
    let s : Semaphore = record (k.lock l).semaphore { value = (k.lock l).semaphore.value - 1 } in
    let k1 : Kernel = set_lock k l (record (k.lock l) { semaphore = s }) in
    let k2 : Kernel = set_lock k1 l (record (k1.lock l) { holder = some k.current }) in
    (
      k2,
      rw (c.is_current, c.runs, free, v),
      rw (==-refl l),
      rw (c.is_current, c.runs, ==-refl l, ==-refl k.current, h),
    )

has-erase : (t u : ℕ) (xs : List ℕ) → has u (erase t xs) ≡ true → has u xs ≡ true
has-erase t u [] h = absurd (cc)
has-erase t u (x ∷ xs) h = ground (arith, has-erase t u xs)

-- The state once the current thread t has given the lock up, before priorities are recomputed.
abbrev pub unheld : Kernel → ℕ → Lock
unheld k l = record (k.lock l) { holder = none }

abbrev pub without_lock : Kernel → ℕ → Thread
without_lock k l = record (k.thread k.current) {
  acquired_locks_list = erase l (k.thread k.current).acquired_locks_list;
}

abbrev pub given_up : Kernel → ℕ → Kernel
given_up k l = set_thread (set_lock k l (unheld k l)) k.current (without_lock k l)

module _ (k : Kernel) (l : ℕ) (c : CanRun k) where
  pub given_up-CanRun : CanRun (given_up k l)
  given_up-CanRun =
      let t : ℕ = k.current in
      let good : IsGood (without_lock k l) = record {
        live = (c.sound.good t).live;
        ranged = (c.sound.good t).ranged;
        based = (c.sound.good t).based;
      } in
      let s : IsSound (given_up k l) =
        rest-IsSound k t (without_lock k l) (given_up k l) c.sound refl refl refl refl good
          (λ h. h) in
      stays-CanRun k t (without_lock k l) (given_up k l) c s refl refl refl (λ h. h) refl

  pub given_up-live : (u : ℕ) → is_thread (given_up k l) u ≡ is_thread k u
  given_up-live = update_map is_live k.thread k.current (without_lock k l) refl

  pub given_up-waiters : (m : ℕ) → ((given_up k l).lock m).semaphore ≡ (k.lock m).semaphore
  given_up-waiters = update_map (λ x. x.semaphore) k.lock l (unheld k l) refl

  pub given_up-IsLinked : IsLinked k → IsLinked (given_up k l)
  given_up-IsLinked linked u w h =
      given_up-live w
      ∙ linked u w (record {
        lock_of = h.lock_of;
        held = still_held u h.lock_of (Bool-cases (u == k.current)) h.held;
        waits = subst (λ s. has w s.waiters ≡ true) (given_up-waiters h.lock_of) h.waits;
      })
    where
      still_held :
          (u m : ℕ)
          → ((u == k.current) ≡ true) ⊎ ((u == k.current) ≡ false)
          → has m (update k.thread k.current (without_lock k l) u).acquired_locks_list ≡ true
          → has m (k.thread u).acquired_locks_list ≡ true
      still_held u m (inl e) i =
          let here : u ≡ k.current = (==_iff u k.current).0 e in
          let j : has m (erase l (k.thread k.current).acquired_locks_list) ≡ true =
            subst
              (λ b. has m (if b then without_lock k l else k.thread u).acquired_locks_list ≡ true) e
              i in
          subst (λ v. has m (k.thread v).acquired_locks_list ≡ true) (sym here)
            (has-erase l m (k.thread k.current).acquired_locks_list j)
      still_held u m (inr e) i =
          subst (λ b. has m (if b then without_lock k l else k.thread u).acquired_locks_list ≡ true)
            e i

-- ===== src/Synch/Release.antt =====
-- Project 1: Threads/src/threads/synch.c: lock_release, with the priorities and the thread it wakes.
use mathlib.Core.Path.{subst}
use cs140_operating_systems.Base.{
  ℕ, suc, ◌+◌, ◌%◌, ◌^◌, ◌≡◌, refl, sym, ap, ◌∙◌, true, false, none, some, List, arith, ==-refl,
  update, update_self, update_map, ◌>>=◌, ℤ, negsuc,
}
use cs140_operating_systems.Thread.{
  Thread, Semaphore, Lock, Kernel, is_blocked, points_to, has, erase,
}
use cs140_operating_systems.Thread.Sound.{is_live}
use cs140_operating_systems.Thread.Calls.{CanRun, thread_current_lem}
use cs140_operating_systems.Thread.Donate.{donated, blocker, holder_of, propagate_priorities}
use cs140_operating_systems.Thread.Donate.Greatest.{IsGreatest, donated-IsGreatest}
use cs140_operating_systems.Thread.Donate.Chain.{IsLinked, raised_at, at_priority}
use cs140_operating_systems.Thread.Donate.Ends.{donate_single}
use cs140_operating_systems.Synch.{set_lock, sema_up, lock_held_by_current_thread, lock_release}
use cs140_operating_systems.Synch.Wake.{
  Asleep, Woken, sema_up-Woken, Woken-map, Woken-CanRun, Woken-lock, Woken-current,
}
use cs140_operating_systems.Synch.Locks.{
  given_up, without_lock, unheld, given_up-CanRun, given_up-live, given_up-waiters,
  given_up-IsLinked,
}

-- After the priorities are recomputed.
module _ (k : Kernel) (l : ℕ) (z : ℤ) (q : ℕ → List ℕ) where
  abbrev lowered : Kernel
  lowered = raised_at (given_up k l) k.current z q

-- What lock_release by the current thread leaves.
pub record Released (k : Kernel) (l : ℕ) (k' : Kernel) : Type 0 where
  pub can : CanRun k'
  pub cpu : k'.current ≡ k.current
  pub holder : (k'.lock l).holder ≡ none
  pub value : (k'.lock l).semaphore.value ≡ ((k.lock l).semaphore.value + 1) % 2 ^ 32
  pub acquired :
      (k'.thread k.current).acquired_locks_list ≡ erase l (k.thread k.current).acquired_locks_list
  -- The caller keeps what the waiters for its other locks gave it.
  pub priority : IsGreatest (given_up k l) k.current (negsuc 0) (k'.thread k.current).priority
  -- The best of the waiters for this lock, if there are any, is ready and no waiter any more.
  pub woken :
      (q : ℕ → List ℕ) × (after : Kernel) × Woken
        (lowered k l (k'.thread k.current).priority q)
        (k.lock l).semaphore.waiters
        (k'.lock l).semaphore.waiters
        after
      × (after.thread ≡ k'.thread)

sema_up_in :
    (l : ℕ) (k : Kernel) (s : Semaphore) (k' : Kernel)
    → sema_up (k.lock l).semaphore k ≡ some (s, k')
    → (sema_up (k.lock l).semaphore k >>= λ r.
        some (set_lock r.1 l (record (r.1.lock l) { semaphore = r.0 })))
      ≡ some (set_lock k' l (record (k'.lock l) { semaphore = s }))
sema_up_in l k s k' e = rw e

lock_release_run :
    (fuel l : ℕ) (k k3 : Kernel)
    → CanRun k
    → (k.lock l).holder ≡ some k.current
    → has l (k.thread k.current).acquired_locks_list ≡ true
    → propagate_priorities fuel (some k.current) (negsuc 0) (given_up k l) ≡ some k3
    → lock_release fuel l k ≡ (
        sema_up (k3.lock l).semaphore k3 >>= λ r.
        some (set_lock r.1 l (record (r.1.lock l) { semaphore = r.0 })))
unfolding lock_release lock_held_by_current_thread
lock_release_run fuel l k k3 c h a e = rw (thread_current_lem k c, h, ==-refl k.current, a, e)

CanRun-lock : (k : Kernel) (f : ℕ → Lock) → CanRun k → CanRun (record k { lock = f })
CanRun-lock k f c = record {
  sound = record { fits = c.sound.fits; good = c.sound.good; idles = c.sound.idles };
  is_current = c.is_current;
  runs = c.runs;
  only = c.only;
  idle = c.idle;
  has_idle = c.has_idle;
}

module _ (k : Kernel) (l : ℕ) (z : ℤ) (q : ℕ → List ℕ) where
  lowered_same :
      {B : Type 0} (g : Thread → B)
      → ((x : Thread) → g (at_priority x z) ≡ g x)
      → g (without_lock k l) ≡ g (k.thread k.current)
      → (u : ℕ) → g ((lowered k l z q).thread u) ≡ g (k.thread u)
  lowered_same g e f u =
      let g1 : ℕ → Thread = (given_up k l).thread in
      update_map g g1 k.current (at_priority (g1 k.current) z) (e (g1 k.current)) u
      ∙ update_map g k.thread k.current (without_lock k l) f u

  lowered-Asleep : (ws : List ℕ) → Asleep k ws → Asleep (lowered k l z q) ws
  lowered-Asleep ws a = record {
    live = λ w h. lowered_same is_live (λ x. refl) refl w ∙ a.live w h;
    blocked = λ w h. lowered_same (λ x. is_blocked x.status) (λ x. refl) refl w ∙ a.blocked w h;
    no_idle = a.no_idle;
  }

  lowered_current : (lowered k l z q).thread k.current ≡ at_priority (without_lock k l) z
  lowered_current =
      let g1 : ℕ → Thread = (given_up k l).thread in
      update_self g1 k.current (at_priority (g1 k.current) z)
      ∙ ap (λ x. at_priority x z) (update_self k.thread k.current (without_lock k l))

-- Not under mlfqs, in a sound state where one thread runs and those who wait for a lock are
-- threads: the current thread, not the idle one, holds the lock, has it on its list and waits
-- for no lock; the waiters of the lock are blocked threads. Then lock_release fails no ASSERT.
-- The lock has no holder, its value is one more, and it is off the list of the caller, whose
-- priority is the greatest of its own and those of the waiters for its other locks. If the lock
-- has waiters, the first of those with the highest priority is ready and waits no longer.
pub lock_release-Released :
    (fuel l : ℕ) (k : Kernel)
    → CanRun k
    → IsLinked k
    → k.thread_mlfqs ≡ false
    → points_to k.idle_thread k.current ≡ false
    → (k.lock l).holder ≡ some k.current
    → has l (k.thread k.current).acquired_locks_list ≡ true
    → (k.thread k.current).waiting_lock ≡ none
    → Asleep k (k.lock l).semaphore.waiters
    → (k' : Kernel) × (lock_release (suc fuel) l k ≡ some k') × Released k l k'
lock_release-Released fuel l k c linked m n h a w asleep =
    let t : ℕ = k.current in
    let g : Kernel = given_up k l in
    let z : ℤ = donated g t (negsuc 0) in
    let free : blocker g t ≡ none =
      ap (holder_of g.lock)
        (ap (λ x. x.waiting_lock) (update_self k.thread t (without_lock k l)) ∙ w) in
    let (q, run, can) =
      donate_single fuel g t (negsuc 0) (given_up-CanRun k l c) (given_up-IsLinked k l c linked) m
        (given_up-live k l c t ∙ c.is_current) n free (omega arith) in
    let k3 : Kernel = lowered k l z q in
    let same : (k3.lock l).semaphore ≡ (k.lock l).semaphore = given_up-waiters k l c l in
    let asleep3 : Asleep k3 (k3.lock l).semaphore.waiters =
      subst (λ s. Asleep k3 s.waiters) (sym same)
        (lowered-Asleep k l z q (k.lock l).semaphore.waiters asleep) in
    let (rs, k4, up, woken, sound) = sema_up-Woken (k3.lock l).semaphore k3 can.sound asleep3 in
    let s : Semaphore = record {
      value = ((k3.lock l).semaphore.value + 1) % 2 ^ 32;
      waiters = rs;
    } in
    let x : Lock = record (k4.lock l) { semaphore = s } in
    let last : update k4.lock l x l ≡ x = update_self k4.lock l x in
    let ws : List ℕ = (k3.lock l).semaphore.waiters in
    let now : (k4.thread t).priority ≡ z =
      Woken-map (λ y. y.priority) k3 ws rs k4 (λ y. refl) woken t
      ∙ ap (λ y. y.priority) (lowered_current k l z q) in
    (
      set_lock k4 l x,
      lock_release_run (suc fuel) l k k3 c h a run ∙ sema_up_in l k3 s k4 up,
      record {
        can = CanRun-lock k4 (update k4.lock l x) (Woken-CanRun k3 ws rs k4 can sound woken);
        cpu = Woken-current k3 ws rs k4 woken;
        holder =
            ap (λ y. y.holder) last
            ∙ ap (λ f. (f l).holder) (Woken-lock k3 ws rs k4 woken)
            ∙ ap (λ y. y.holder) (update_self k.lock l (unheld k l));
        value = ap (λ y. y.semaphore.value) last ∙ ap (λ y. (y.value + 1) % 2 ^ 32) same;
        acquired =
            Woken-map (λ y. y.acquired_locks_list) k3 ws rs k4 (λ y. refl) woken t
            ∙ ap (λ y. y.acquired_locks_list) (lowered_current k l z q);
        priority = subst (IsGreatest g t (negsuc 0)) (sym now) (donated-IsGreatest g t (negsuc 0));
        woken = (
          q,
          k4,
          subst
              (λ y.
                Woken (lowered k l y q) (k.lock l).semaphore.waiters
                  (update k4.lock l x l).semaphore.waiters k4)
              (sym now)
              (subst (λ y. Woken k3 (k.lock l).semaphore.waiters y.semaphore.waiters k4) (sym last)
                (subst (λ y. Woken k3 y.waiters rs k4) same woken)),
          refl,
        );
      },
    )

-- ===== src/Timer/Wake.antt =====
-- Project 1: Threads/src/devices/timer.c: wake_up_threads wakes the threads whose time has come.
use mathlib.Core.Path.{subst}
use cs140_operating_systems.Base.{
  ℕ, suc, ◌≡◌, refl, sym, ap, ◌∙◌, ◌≢◌, inl, inr, Bool, true, false, some, List, [], ◌∷◌, arith,
  ◌==◌, ==_iff, ==-refl, if◌then◌else◌, Bool-cases, update_ne, update_map, pos, ◌≤ℤ◌, ltb_ℤ,
}
use cs140_operating_systems.Thread.{
  Thread, Kernel, is_blocked, thread_ready, has, thread_blocked, Status, thread_running,
  thread_dying, is_running,
}
use cs140_operating_systems.Thread.Sound.{moved, is_live}
use cs140_operating_systems.Thread.Calls.{CanRun, stays-CanRun, thread_unblock-IsSound}
use cs140_operating_systems.Synch.Wake.{Asleep, awake}
use cs140_operating_systems.Timer.{SleepingThread, Timer, wake_loop, wake_up_threads}
use cs140_operating_systems.Timer.Sorted.{threads_of, NotBefore, NotBefore-trans, IsSorted}
use cs140_operating_systems.Timer.Cut.{Distinct, Cut, rest, due}

-- The threads ts are ready, and no other changed.
pub record Woke (k : Kernel) (ts : List ℕ) (k' : Kernel) : Type 0 where
  pub can : CanRun k'
  pub threads : (u : ℕ) → k'.thread u ≡ (if has u ts then awake k u else k.thread u)
  pub idle : k'.idle_thread ≡ k.idle_thread
  pub cpu : k'.current ≡ k.current
  pub load : k'.load_average ≡ k.load_average
  pub all : k'.all_list ≡ k.all_list

Woke-refl : (k : Kernel) → CanRun k → Woke k [] k
Woke-refl k c = record {
  can = c;
  threads = λ u. refl;
  idle = refl;
  cpu = refl;
  load = refl;
  all = refl;
}

ready_twice :
    (b : Bool) (x : Thread)
    → (if b then record x { status = thread_ready } else record x { status = thread_ready })
      ≡ record x { status = thread_ready }
ready_twice true x = refl
ready_twice false x = refl

blocked_quiet : (x : Status) → is_blocked x ≡ true → false ≡ is_running x
blocked_quiet thread_blocked e = refl
blocked_quiet thread_ready e = absurd (cc)
blocked_quiet thread_running e = absurd (cc)
blocked_quiet thread_dying e = absurd (cc)

-- Thread t has been woken.
module _ (k : Kernel) (t : ℕ) (q : ℕ → List ℕ) where
  abbrev woken : Kernel
  woken = moved k t (awake k t) q

  woken_threads :
      (ts : List ℕ) (u : ℕ)
      → (if has u ts then awake woken u else woken.thread u)
        ≡ (if has u (t ∷ ts) then awake k u else k.thread u)
  woken_threads ts u = elim (Bool-cases (t == u)) [
    | inl e ↦
        let here : u ≡ t = sym ((==_iff t u).0 e) in
        rw (here, ==-refl t) (ready_twice (has t ts) (k.thread t))
    | inr e ↦ let e' : (u == t) ≡ false = ground arith in rw (e, e')
  ]

  woken-Asleep : (xs : List ℕ) → has t xs ≡ false → Asleep k (t ∷ xs) → Asleep woken xs
  woken-Asleep xs h a = record {
    live = λ w i. update_map is_live k.thread t (awake k t) refl w ∙ a.live w (deeper w i);
    blocked = λ w i.
        ap (λ y. is_blocked y.status) (update_ne k.thread t (awake k t) w (apart w i))
        ∙ a.blocked w (deeper w i);
    no_idle = λ w i. a.no_idle w (deeper w i);
  }
    where
      deeper : (w : ℕ) → has w xs ≡ true → has w (t ∷ xs) ≡ true
      deeper w i = elim (Bool-cases (t == w)) [ inl e ↦ rw e | inr e ↦ rw e i ]

      apart : (w : ℕ) → has w xs ≡ true → w ≢ t
      apart w i s = absurd (let j : has t xs ≡ true = subst (λ v. has v xs ≡ true) s i in cc)

wake_loop-Woke :
    (now : ℕ) (xs : List SleepingThread) (k : Kernel)
    → CanRun k
    → IsSorted xs
    → Distinct xs
    → Asleep k (threads_of xs)
    → (ts : List ℕ) × (ys : List SleepingThread) × (k' : Kernel) × (wake_loop now xs k
        ≡ some (ys, k'))
      × Cut now xs ts ys
      × Woke k ts k'
unfolding wake_loop
wake_loop-Woke now _ k c IsSorted.nil d a = ([], [], k, refl, rest [] NotBefore.nil, Woke-refl k c)
wake_loop-Woke now _ k c (IsSorted.cons x xs n s) (Distinct.cons _ _ h d) a =
    elim (Bool-cases (ltb_ℤ (pos now) x.wake_up_time)) [
      | inl e ↦
          let l : pos (suc now) ≤ℤ x.wake_up_time = ground arith in
          (
            [],
            x ∷ xs,
            k,
            rw e,
            rest (x ∷ xs)
                (NotBefore.cons x xs l (NotBefore-trans (pos (suc now)) x.wake_up_time xs l n)),
            Woke-refl k c,
          )
      | inr e ↦
          let t : ℕ = x.thread in
          let first : has t (t ∷ threads_of xs) ≡ true = rw (==-refl t) in
          let (q, run, sound) =
            thread_unblock-IsSound k t c.sound (a.live t first) (a.blocked t first)
              (a.no_idle t first) in
          let can : CanRun (woken k t q) =
            stays-CanRun k t (awake k t) (woken k t q) c sound refl refl refl (λ l. l)
              (blocked_quiet (k.thread t).status (a.blocked t first)) in
          let (ts, ys, k', runs, cut, woke) =
            wake_loop-Woke now xs (woken k t q) can s d (woken-Asleep k t q (threads_of xs) h a) in
          (
            t ∷ ts,
            ys,
            k',
            rw (e, run) runs,
            due x xs ts ys (ground arith) cut,
            record {
              can = woke.can;
              threads = λ u. woke.threads u ∙ woken_threads k t q ts u;
              idle = woke.idle;
              cpu = woke.cpu;
              load = woke.load;
              all = woke.all;
            },
          )
    ]

pub wake_up_threads-Woke :
    (tm : Timer) (k : Kernel)
    → CanRun k
    → IsSorted tm.sleeping_threads_list
    → Distinct tm.sleeping_threads_list
    → Asleep k (threads_of tm.sleeping_threads_list)
    → (ts : List ℕ) × (ys : List SleepingThread) × (k' : Kernel) × (wake_up_threads tm k
        ≡ some (record tm { sleeping_threads_list = ys }, k'))
      × Cut tm.ticks tm.sleeping_threads_list ts ys
      × Woke k ts k'
unfolding wake_up_threads
wake_up_threads-Woke tm k c s d a =
    let (ts, ys, k', run, cut, woke) = wake_loop-Woke tm.ticks tm.sleeping_threads_list k c s d a in
    (ts, ys, k', rw run, cut, woke)

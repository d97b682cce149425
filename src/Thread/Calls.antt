-- ===== src/Thread/Calls.antt =====
-- Project 1: Threads/src/threads/thread.c: the calls that take a thread from one status to another, on
-- a sound state.
use mathlib.Core.Path.{subst}
use cs140_operating_systems.Base.{
  ℕ, ◌≡◌, refl, sym, ap, ◌∙◌, ◌⊎◌, inl, inr, true, false, none, some, List, arith, ◌==◌, update,
  update_self, update_map, ==_iff, Bool-cases,
}
use cs140_operating_systems.Thread.{
  Status, Thread, Kernel, thread_running, thread_ready, thread_blocked, thread_dying, is_thread,
  is_ready, is_blocked, is_running, points_to, set_status, erase, thread_current, thread_unblock,
  schedule, thread_exit,
}
use cs140_operating_systems.Thread.Sound.{
  IsGood, IsSound, slots, is_live, moved, rest-IsSound, add-IsSound, lives_after,
}
use cs140_operating_systems.Thread.Schedule.{Chosen, schedule-Chosen}

-- A sound state in which the current thread runs, no other does, and the idle thread has started.
pub record CanRun (k : Kernel) : Type 0 where
  pub sound : IsSound k
  pub is_current : is_thread k k.current ≡ true
  pub runs : is_running (k.thread k.current).status ≡ true
  pub only : (t : ℕ) → is_running (k.thread t).status ≡ true → t ≡ k.current
  pub idle : ℕ
  pub has_idle : k.idle_thread ≡ some idle

pub thread_current_lem : (k : Kernel) → CanRun k → thread_current k ≡ some k.current
unfolding thread_current
thread_current_lem k c = rw (c.is_current, c.runs)

pub status_IsGood :
    (k : Kernel) (t : ℕ) (s : Status)
    → IsSound k
    → (is_ready s ≡ true → is_thread k t ≡ true)
    → IsGood (record (k.thread t) { status = s })
status_IsGood k t s sound h = record {
  live = h;
  ranged = (sound.good t).ranged;
  based = (sound.good t).based;
}

-- No queue should hold a thread that is not ready.
unready_slot : (k : Kernel) (t : ℕ) → is_ready (k.thread t).status ≡ false → slots k t ≡ none
unready_slot k t h = rw h

Chosen-CanRun :
    (k k' : Kernel) (d : ℕ)
    → k.idle_thread ≡ some d
    → ((t : ℕ) → is_running (k.thread t).status ≡ false)
    → Chosen k k'
    → CanRun k'
Chosen-CanRun k k' d e none_runs c = record {
  sound = c.sound;
  is_current = ap is_live now ∙ c.live;
  runs = ap (λ x. is_running x.status) now;
  only = one_runs;
  idle = d;
  has_idle = c.idle ∙ e;
}
  where
    now : k'.thread k'.current ≡ record (k.thread k'.current) { status = thread_running }
    now =
        ap (λ f. f k'.current) c.threads
        ∙ update_self k.thread k'.current (record (k.thread k'.current) { status = thread_running })

    one_runs : (t : ℕ) → is_running (k'.thread t).status ≡ true → t ≡ k'.current
    one_runs t r = elim (Bool-cases (t == k'.current)) [
      | inl h ↦ (==_iff t k'.current).0 h
      | inr h ↦
          let same : k'.thread t ≡ k.thread t = ap (λ f. f t) c.threads ∙ (rw h) in
          let quiet : is_running (k.thread t).status ≡ false = none_runs t in
          let loud : is_running (k.thread t).status ≡ true =
            subst (λ x. is_running x.status ≡ true) same r in
          absurd (cc)
    ]

-- A change of a thread that leaves the same one running.
pub stays-CanRun :
    (k : Kernel) (t : ℕ) (x : Thread) (k' : Kernel)
    → CanRun k
    → IsSound k'
    → k'.current ≡ k.current
    → k'.idle_thread ≡ k.idle_thread
    → k'.thread ≡ update k.thread t x
    → (is_thread k t ≡ true → is_live x ≡ true)
    → is_running x.status ≡ is_running (k.thread t).status
    → CanRun k'
stays-CanRun k t x k' c s ec ei et l r = record {
  sound = s;
  is_current = rw (ec, et) (lives_after k.thread t x k.current c.is_current l);
  runs = rw ec (runs_same k.current ∙ c.runs);
  only = λ u h. c.only u (sym (runs_same u) ∙ h) ∙ sym ec;
  idle = c.idle;
  has_idle = ei ∙ c.has_idle;
}
  where
    runs_same : (u : ℕ) → is_running (k'.thread u).status ≡ is_running (k.thread u).status
    runs_same u =
        ap (λ f. is_running (f u).status) et
        ∙ update_map (λ y. is_running y.status) k.thread t x r u

-- A state with the same queues and threads.
pub record Alike (k k' : Kernel) : Type 0 where
  pub queues : k'.ready_list ≡ k.ready_list
  pub threads : k'.thread ≡ k.thread
  pub idle : k'.idle_thread ≡ k.idle_thread
  pub cpu : k'.current ≡ k.current

pub Alike-CanRun : (k k' : Kernel) → Alike k k' → CanRun k → CanRun k'
Alike-CanRun k k' a c = record {
  sound = record {
    fits = rw (a.queues, a.idle, a.threads) c.sound.fits;
    good = rw a.threads c.sound.good;
    idles = rw (a.idle, a.threads) c.sound.idles;
  };
  is_current = rw (a.cpu, a.threads) c.is_current;
  runs = rw (a.cpu, a.threads) c.runs;
  only = rw (a.cpu, a.threads) c.only;
  idle = c.idle;
  has_idle = a.idle ∙ c.has_idle;
}

pub thread_unblock-IsSound :
    (k : Kernel) (t : ℕ)
    → IsSound k
    → is_thread k t ≡ true
    → is_blocked (k.thread t).status ≡ true
    → points_to k.idle_thread t ≡ false
    → let x = record (k.thread t) { status = thread_ready } in
      (q : ℕ → List ℕ) × (thread_unblock t k ≡ some (moved k t x q)) × IsSound (moved k t x q)
unfolding thread_unblock
thread_unblock-IsSound k t s l b n =
    rw (l, b)
      (add-IsSound k t (record (k.thread t) { status = thread_ready }) s
        (unready_slot k t (blocked_unready (k.thread t).status b))
        (status_IsGood k t thread_ready s (λ _. l)) l refl n)
  where
    blocked_unready : (x : Status) → is_blocked x ≡ true → is_ready x ≡ false
    blocked_unready thread_blocked e = refl
    blocked_unready thread_ready e = absurd (cc)
    blocked_unready thread_running e = absurd (cc)
    blocked_unready thread_dying e = absurd (cc)

-- The caller of a call gives up the CPU with a status, in no queue.
module _ (k : Kernel) (c : CanRun k) (s : Status) (unready : is_ready s ≡ false)
    (all : List ℕ) where
  gives_up : Kernel
  gives_up = set_status (record k { all_list = all }) k.current s

-- What a call that gives up the CPU leaves to schedule: the caller with its new status.
module _ (k : Kernel) (c : CanRun k) (k1 : Kernel) (x : Thread)
    (et : k1.thread ≡ update k.thread k.current x) (quiet : is_running x.status ≡ false) where
  nobody_runs : (t : ℕ) → is_running (k1.thread t).status ≡ false
  nobody_runs t = rw et (quiet_after t (Bool-cases (t == k.current)))
    where
      quiet_after :
          (t : ℕ)
          → ((t == k.current) ≡ true) ⊎ ((t == k.current) ≡ false)
          → is_running (update k.thread k.current x t).status ≡ false
      quiet_after t (inl e) = rw e quiet
      quiet_after t (inr e) = rw e (elim (Bool-cases (is_running (k.thread t).status)) [
        | inl r ↦ let here : t ≡ k.current = c.only t r in absurd (ground arith)
        | inr r ↦ r
      ])

  pub give_up-Chosen :
      IsSound k1
      → k1.current ≡ k.current
      → k1.idle_thread ≡ k.idle_thread
      → (k' : Kernel) × (schedule k1 ≡ some k') × Chosen k1 k' × CanRun k'
  give_up-Chosen s ec ei =
      let (k', run, chosen) =
        schedule-Chosen k1 s c.idle (ei ∙ c.has_idle) (nobody_runs k1.current) in
      (k', run, chosen, Chosen-CanRun k1 k' c.idle (ei ∙ c.has_idle) nobody_runs chosen)

pub running_slot : (k : Kernel) → CanRun k → slots k k.current ≡ none
running_slot k c = unready_slot k k.current (running_unready (k.thread k.current).status c.runs)
  where
    running_unready : (x : Status) → is_running x ≡ true → is_ready x ≡ false
    running_unready thread_running e = refl
    running_unready thread_ready e = absurd (cc)
    running_unready thread_blocked e = absurd (cc)
    running_unready thread_dying e = absurd (cc)

-- The caller with a status under which no queue should hold it.
module _ (k : Kernel) (c : CanRun k) (s : Status) (all : List ℕ) (unready : is_ready s ≡ false)
    (quiet : is_running s ≡ false) where
  abbrev caller : Thread
  caller = record (k.thread k.current) { status = s }

  abbrev left : Kernel
  left = set_status (record k { all_list = all }) k.current s

  leaves-Chosen : (k' : Kernel) × (schedule left ≡ some k') × Chosen left k' × CanRun k'
  leaves-Chosen =
      give_up-Chosen k c left caller refl quiet
        (rest-IsSound k k.current caller left c.sound refl refl refl
          (rw unready (sym (running_slot k c)))
          (status_IsGood k k.current s c.sound (λ e. absurd (cc))) (λ l. l))
        refl refl

pub thread_exit-Chosen :
    (k : Kernel)
    → CanRun k
    → (k' : Kernel) × (thread_exit k ≡ some k')
      × Chosen
          (set_status (record k { all_list = erase k.current k.all_list }) k.current thread_dying)
          k'
      × CanRun k'
unfolding thread_exit
thread_exit-Chosen k c =
    rw (thread_current_lem k c)
      (leaves-Chosen k c thread_dying (erase k.current k.all_list) refl refl)

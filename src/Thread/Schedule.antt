-- ===== src/Thread/Schedule.antt =====
-- Project 1: Threads/src/threads/thread.c: what schedule, and the calls that end in it, do to a sound
-- state.
use mathlib.Core.Path.{subst}
use cs140_operating_systems.Base.{
  ℕ, ◌+◌, ◌≤◌, ◌<◌, ◌≡◌, refl, sym, ap, ◌∙◌, inl, inr, Bool, true, false, ◌&&◌, not, Option, none,
  some, List, [], ◌∷◌, arith, ltb, if◌then◌else◌, update, ==-refl, Bool-cases, ℤ, pos, negsuc, ◌≤ℤ◌,
}
use cs140_operating_systems.Thread.{
  Kernel, thread_running, is_thread, is_ready, is_running, points_to, queue_index,
  next_thread_to_run, switch_to, schedule,
}
use cs140_operating_systems.Thread.Queues.{IsFit, pop-IsFit, slot_of_first, occurrences}
use cs140_operating_systems.Thread.Sound.{
  InRange, IsGood, IsSound, slots, moved-IsSound, rest-IsSound, queue_index-InRange,
}
use cs140_operating_systems.Thread.Next.{
  Picks, idles, first, next_thread_to_run-Picks, Switched, switch_to_lem,
}

abbrev pub WaitsToRun : Kernel → ℕ → Type 0
WaitsToRun k u = (is_ready (k.thread u).status ≡ true) × (points_to k.idle_thread u ≡ false)

pub record Chosen (k k' : Kernel) : Type 0 where
  pub sound : IsSound k'
  -- The thread that runs is marked so, and no other changed.
  pub threads :
      k'.thread
      ≡ update k.thread k'.current (record (k.thread k'.current) { status = thread_running })
  -- The idle thread runs only if no other is ready, and none has a higher priority than the one that
  -- runs.
  pub top :
      (u : ℕ)
      → WaitsToRun k u
      → (points_to k.idle_thread k'.current ≡ false)
        × ((k.thread u).priority ≤ℤ (k.thread k'.current).priority)
  -- Of its priority, it was the first in the queue.
  pub head :
      points_to k.idle_thread k'.current ≡ false
      → (p : ℕ) × ((k.thread k'.current).priority ≡ pos p)
        × (k.ready_list p ≡ k'.current ∷ k'.ready_list p)
  pub live : is_thread k k'.current ≡ true
  pub locks : k'.lock ≡ k.lock
  pub idle : k'.idle_thread ≡ k.idle_thread
  pub slice : k'.thread_ticks ≡ 0

queue_index_inv : (z : ℤ) (p : ℕ) → queue_index z ≡ some p → z ≡ pos p
queue_index_inv (pos n) p e = ground arith
queue_index_inv (negsuc n) p e = cc

slot_inv :
    (ready idle : Bool) (index : Option ℕ) (p : ℕ)
    → (if ready && not idle then index else none) ≡ some p
    → (ready ≡ true) × (idle ≡ false) × (index ≡ some p)
slot_inv true true index p e = absurd (cc)
slot_inv true false index p e = (refl, refl, e)
slot_inv false idle index p e = absurd (cc)

module _ (k : Kernel) (s : IsSound k) where
  -- A thread that waits to run is in the queue of its priority.
  queued_at :
      (u : ℕ)
      → WaitsToRun k u
      → (p : ℕ) × ((k.thread u).priority ≡ pos p) × (p < 64) × (occurrences u (k.ready_list p) ≡ 1)
  queued_at u (r, n) =
      let own : InRange (k.thread u).priority = (s.good u).ranged ((s.good u).live r) in
      let slot : slots k u ≡ some own.0 =
        rw (r, n) (queue_index-InRange (k.thread u).priority own) in
      (own.0, own.1, own.2, s.fits u own.0 ∙ (rw (slot, ==-refl own.0)))

  -- The first of a queue waits to run, with the priority of the queue.
  first_of_queue :
      (t p : ℕ) (ts : List ℕ)
      → k.ready_list p ≡ t ∷ ts
      → WaitsToRun k t × ((k.thread t).priority ≡ pos p)
  first_of_queue t p ts e =
      let parts : (is_ready (k.thread t).status ≡ true)
          × (points_to k.idle_thread t ≡ false)
          × (queue_index (k.thread t).priority ≡ some p) =
        slot_inv _ _ _ p (slot_of_first k.ready_list (slots k) s.fits t p ts e) in
      ((parts.0, parts.1), queue_index_inv (k.thread t).priority p parts.2)

  -- Running is no change to what a queue should hold of the idle thread.
  idle_slot : (t : ℕ) → points_to k.idle_thread t ≡ true → slots k t ≡ none
  idle_slot t e = idle_slot_of (is_ready (k.thread t).status) (points_to k.idle_thread t) e
    where
      idle_slot_of :
          (r i : Bool)
          → i ≡ true
          → (if r && not i then queue_index (k.thread t).priority else none) ≡ none
      idle_slot_of true true e = refl
      idle_slot_of false i e = refl
      idle_slot_of true false e = absurd (cc)

  running_IsGood : (t : ℕ) → IsGood (record (k.thread t) { status = thread_running })
  running_IsGood t = record {
    live = λ e. absurd (cc);
    ranged = (s.good t).ranged;
    based = (s.good t).based;
  }

  Chosen-idle :
      (d : ℕ) (k' : Kernel)
      → k.idle_thread ≡ some d
      → ((j : ℕ) → j < 64 → k.ready_list j ≡ [])
      → Switched k d k'
      → Chosen k k'
  Chosen-idle d k' e h w = record {
    sound =
        rest-IsSound k d (record (k.thread d) { status = thread_running }) k' s w.idle w.threads
          w.queues (sym (idle_slot d (rw (e, ==-refl d)))) (running_IsGood d) (λ l. l);
    threads = rw w.runs w.threads;
    top = λ u wants. absurd (none_waits u wants);
    head = λ n.
        absurd
          (let here : points_to k.idle_thread k'.current ≡ true = rw (w.runs, e) (==-refl d) in cc);
    live = rw w.runs (s.idles d e);
    locks = w.locks;
    idle = w.idle;
    slice = w.slice;
  }
    where
      none_waits : (u : ℕ) → ¬ WaitsToRun k u
      none_waits u wants =
          let (p, _, b, once) = queued_at u wants in
          let zero_times : occurrences u (k.ready_list p) ≡ 0 = ap (occurrences u) (h p b) in
          omega arith

  Chosen-first :
      (p t : ℕ) (ts : List ℕ) (k' : Kernel)
      → k.ready_list p ≡ t ∷ ts
      → ((j : ℕ) → p < j → j < 64 → k.ready_list j ≡ [])
      → Switched (record k { ready_list = update k.ready_list p ts }) t k'
      → Chosen k k'
  Chosen-first p t ts k' e above w = record {
    sound =
        moved-IsSound k t (record (k.thread t) { status = thread_running }) k' s w.idle w.threads
          (subst (λ q. IsFit q (update (slots k) t none)) (sym w.queues)
            (pop-IsFit k.ready_list (slots k) s.fits t p ts e))
          (running_IsGood t) (λ l. l);
    threads = rw w.runs w.threads;
    top = λ u wants. rw w.runs (wants_t.0.1, not_above u wants);
    head = λ _. (p, rw w.runs wants_t.1, rw (w.runs, w.queues) (rw (==-refl p) e));
    live = rw w.runs ((s.good t).live wants_t.0.0);
    locks = w.locks;
    idle = w.idle;
    slice = w.slice;
  }
    where
      wants_t : WaitsToRun k t × ((k.thread t).priority ≡ pos p)
      wants_t = first_of_queue t p ts e

      not_above : (u : ℕ) → WaitsToRun k u → (k.thread u).priority ≤ℤ (k.thread t).priority
      not_above u wants =
          let (q, at, b, once) = queued_at u wants in
          rw (at, wants_t.1) (not_above_queue u q b once)
        where
          not_above_queue : (u q : ℕ) → q < 64 → occurrences u (k.ready_list q) ≡ 1 → q + 0 ≤ p + 0
          not_above_queue u q b once = elim (Bool-cases (ltb p q)) [
            | inl l ↦
                let higher : p < q = ground arith in
                let zero_times : occurrences u (k.ready_list q) ≡ 0 =
                  ap (occurrences u) (above q higher b) in
                absurd (omega arith)
            | inr l ↦ ground arith
          ]

  Picks-Chosen :
      (r : Option ℕ × Kernel) (d : ℕ)
      → k.idle_thread ≡ some d
      → Picks k 64 r
      → (k' : Kernel) × (switch_to r.0 r.1 ≡ some k') × Chosen k k'
  Picks-Chosen (_, _) d e (idles h) =
      let (k', run, w) = switch_to_lem k d (s.idles d e) in
      (k', ap (λ o. switch_to o k) e ∙ run, Chosen-idle d k' e h w)
  Picks-Chosen (_, _) d e (first p t ts b q above) =
      let live : is_thread k t ≡ true = (s.good t).live (first_of_queue t p ts q).0.0 in
      let (k', run, w) =
        switch_to_lem (record k { ready_list = update k.ready_list p ts }) t live in
      (k', run, Chosen-first p t ts k' q above w)

  -- C
  pub schedule-Chosen :
      (d : ℕ)
      → k.idle_thread ≡ some d
      → is_running (k.thread k.current).status ≡ false
      → (k' : Kernel) × (schedule k ≡ some k') × Chosen k k'
  unfolding schedule
  schedule-Chosen d e n =
      rw n (Picks-Chosen (next_thread_to_run k) d e (next_thread_to_run-Picks k))

-- ===== src/Thread/Donate/Chain.antt =====
-- Project 1: Threads/src/threads/thread.c: propagate_priorities along a chain of threads, each waiting
-- for a lock that the next one holds.
use mathlib.Core.Path.{subst}
use cs140_operating_systems.Base.{
  ℕ, zero, suc, ◌≤◌, ◌≡◌, refl, sym, ap, ◌∙◌, inl, inr, true, false, Option, none, some, List, [],
  ◌∷◌, arith, ◌==◌, ==_iff, Bool-cases, update_self, update_ne, update_map, ℤ, pos, negsuc, ◌≤ℤ◌,
  length,
}
use cs140_operating_systems.Thread.{Thread, Kernel, is_thread, points_to, has}
use cs140_operating_systems.Thread.Sound.{InRange, IsGood, IsSound, is_live, moved, requeue-IsSound}
use cs140_operating_systems.Thread.Calls.{CanRun, stays-CanRun}
use cs140_operating_systems.Thread.Donate.{
  thread_set_quite_priority_donation, donated, holder_of, blocker, propagate_priorities,
}
use cs140_operating_systems.Thread.Donate.Greatest.{
  Waits, IsGreatest, donated-IsGreatest, ≤ℤ-trans, has_inv, not-has_inv,
}

-- The threads that the recursion comes to, none of them the idle thread.
pub data Chain (k : Kernel) : Option ℕ → List ℕ → Type 0 where
  stops : Chain k none []
  leads :
      (t : ℕ) (ts : List ℕ)
      → is_thread k t ≡ true
      → points_to k.idle_thread t ≡ false
      → Chain k (blocker k t) ts
      → Chain k (some t) (t ∷ ts)

-- Who waits for a lock is a thread.
abbrev pub IsLinked : Kernel → Type 0
IsLinked k = (t w : ℕ) → Waits k (k.thread t).acquired_locks_list w → is_thread k w ≡ true

-- The same thread but for its priority.
abbrev pub at_priority : Thread → ℤ → Thread
at_priority x p = record x { priority = p }

-- Only ready queues and priorities changed, and only the priorities of the threads ts: each is at
-- least p now.
pub record Donated (k : Kernel) (ts : List ℕ) (p : ℤ) (k' : Kernel) : Type 0 where
  pub can : CanRun k'
  pub threads : (u : ℕ) → k'.thread u ≡ at_priority (k.thread u) (k'.thread u).priority
  pub others : (u : ℕ) → has u ts ≡ false → (k'.thread u).priority ≡ (k.thread u).priority
  pub raised : (u : ℕ) → has u ts ≡ true → p ≤ℤ (k'.thread u).priority
  pub rest : k' ≡ record k { thread = k'.thread; ready_list = k'.ready_list }

-- A priority up to PRI_MAX, which may be the -1 that stands for none.
abbrev pub IsOffer : ℤ → Type 0
IsOffer p = p ≤ℤ pos 63

in_range : (z : ℤ) → pos 0 ≤ℤ z → z ≤ℤ pos 63 → InRange z
in_range (pos n) h k = (n, refl, omega arith)
in_range (negsuc n) h k = absurd (omega arith)

range_low : (z : ℤ) → InRange z → pos 0 ≤ℤ z
range_low z (p, e, h) = rw e (omega arith)

pub range_high : (z : ℤ) → InRange z → z ≤ℤ pos 63
range_high z (p, e, h) = rw e (omega arith)

pub donated-InRange :
    (k : Kernel) (t : ℕ) (p : ℤ)
    → IsSound k
    → IsLinked k
    → is_thread k t ≡ true
    → IsOffer p
    → InRange (donated k t p)
donated-InRange k t p s linked l o =
    let g : IsGreatest k t p (donated k t p) = donated-IsGreatest k t p in
    let old : InRange (k.thread t).old_priority = (s.good t).based l in
    in_range (donated k t p)
      (≤ℤ-trans (pos 0) (k.thread t).old_priority (donated k t p)
        (range_low (k.thread t).old_priority old) g.own)
      (elim g.reached [
        | inl e ↦ rw e o
        | inr (inl e) ↦ rw e (range_high (k.thread t).old_priority old)
        | inr (inr (w, h, e)) ↦
            rw e (range_high (k.thread w).priority ((s.good w).ranged (linked t w h)))
      ])

-- What another priority of thread t leaves of chains and links.
module _ (k : Kernel) (t : ℕ) (p : ℤ) (q : ℕ → List ℕ) where
  abbrev pub raised_at : Kernel
  raised_at = moved k t (at_priority (k.thread t) p) q

  pub live_same : (u : ℕ) → is_thread raised_at u ≡ is_thread k u
  live_same = update_map is_live k.thread t (at_priority (k.thread t) p) refl

  pub blocker_same : (u : ℕ) → blocker raised_at u ≡ blocker k u
  blocker_same u =
      ap (holder_of k.lock)
        (update_map (λ x. x.waiting_lock) k.thread t (at_priority (k.thread t) p) refl u)

  Chain-same : (o : Option ℕ) (ts : List ℕ) → Chain k o ts → Chain raised_at o ts
  Chain-same _ _ stops = stops
  Chain-same _ _ (leads u ts l n c) =
      let same : blocker raised_at u ≡ blocker k u = blocker_same u in
      leads u ts (live_same u ∙ l) n
        (subst (λ o. Chain raised_at o ts) (sym same) (Chain-same (blocker k u) ts c))

  pub IsLinked-same : IsLinked k → IsLinked raised_at
  IsLinked-same h u w waits =
      let locks : (raised_at.thread u).acquired_locks_list ≡ (k.thread u).acquired_locks_list =
        update_map (λ x. x.acquired_locks_list) k.thread t (at_priority (k.thread t) p) refl u in
      live_same w
      ∙ h u w (record {
        lock_of = waits.lock_of;
        held = subst (λ ls. has waits.lock_of ls ≡ true) locks waits.held;
        waits = waits.waits;
      })

  Donated-head :
      (ts : List ℕ) (o : ℤ) (k' : Kernel)
      → o ≤ℤ p
      → Donated raised_at ts p k'
      → Donated k (t ∷ ts) o k'
  Donated-head ts o k' h d = record {
    can = d.can;
    threads = λ u.
        d.threads u
        ∙ update_map (λ x. at_priority x (k'.thread u).priority) k.thread t
            (at_priority (k.thread t) p) refl u;
    others = not_t;
    raised = on_chain;
    rest = d.rest;
  }
    where
      not_t : (u : ℕ) → has u (t ∷ ts) ≡ false → (k'.thread u).priority ≡ (k.thread u).priority
      not_t u n =
          let (e, tail) = not-has_inv t u ts n in
          d.others u tail
          ∙ ap (λ x. x.priority)
              (update_ne k.thread t (at_priority (k.thread t) p) u (λ s. absurd (ground arith)))

      on_chain : (u : ℕ) → has u (t ∷ ts) ≡ true → o ≤ℤ (k'.thread u).priority
      on_chain u n = elim (Bool-cases (has u ts)) [
        | inl i ↦ ≤ℤ-trans o p (k'.thread u).priority h (d.raised u i)
        | inr i ↦ elim (Bool-cases (t == u)) [
          | inl e ↦
              let here : t ≡ u = (==_iff t u).0 e in
              let now : (k'.thread t).priority ≡ p =
                d.others t (subst (λ v. has v ts ≡ false) (sym here) i)
                ∙ ap (λ x. x.priority) (update_self k.thread t (at_priority (k.thread t) p)) in
              subst (λ v. o ≤ℤ (k'.thread v).priority) here (rw now h)
          | inr e ↦ absurd (let tail = has_inv t u ts e n in cc)
        ]
      ]

Donated-refl : (k : Kernel) (p : ℤ) → CanRun k → Donated k [] p k
Donated-refl k p c = record {
  can = c;
  threads = λ u. refl;
  others = λ u n. refl;
  raised = λ u n. absurd (cc);
  rest = refl;
}

pub donation_run :
    (k : Kernel) (t : ℕ) (p : ℤ)
    → CanRun k
    → InRange p
    → points_to k.idle_thread t ≡ false
    → (q : ℕ → List ℕ) × (thread_set_quite_priority_donation t p k ≡ some (raised_at k t p q))
      × CanRun (raised_at k t p q)
unfolding thread_set_quite_priority_donation
donation_run k t p c r n =
    let x : Thread = at_priority (k.thread t) p in
    let good : IsGood x = record {
      live = (c.sound.good t).live;
      ranged = λ _. r;
      based = (c.sound.good t).based;
    } in
    let (q, run, s) = requeue-IsSound k t x c.sound good (λ l. l) refl (λ _. n) in
    (q, run, stays-CanRun k t x (raised_at k t p q) c s refl refl refl (λ l. l) refl)

pub propagate_run :
    (fuel : ℕ) (k k1 : Kernel) (t : ℕ) (p : ℤ)
    → k.thread_mlfqs ≡ false
    → is_thread k t ≡ true
    → thread_set_quite_priority_donation t (donated k t p) k ≡ some k1
    → propagate_priorities (suc fuel) (some t) p k
      ≡ propagate_priorities fuel (blocker k1 t) (donated k t p) k1
unfolding propagate_priorities
propagate_run fuel k k1 t p m live run = rw (live, run, m)

-- Not under mlfqs, in a sound state where one thread runs and those who wait for a lock are threads: a
-- chain of threads, each waiting for a lock that the next one holds and none of them the idle thread,
-- fuel for its length, and a priority up to 63 to give. Then propagate_priorities comes to an end and
-- fails no ASSERT. It changes nothing but ready queues and priorities, and priorities only on the chain,
-- where each is at least the priority given. The state is sound, so that each ready thread but the idle
-- one is once in the queue of its priority now.
pub propagate_priorities-Donated :
    (ts : List ℕ) (fuel : ℕ) (k : Kernel) (o : Option ℕ) (p : ℤ)
    → CanRun k
    → IsLinked k
    → k.thread_mlfqs ≡ false
    → Chain k o ts
    → length ts ≤ fuel
    → IsOffer p
    → (k' : Kernel) × (propagate_priorities fuel o p k ≡ some k') × Donated k ts p k'
unfolding propagate_priorities
propagate_priorities-Donated _ zero k _ p c l m stops f h = (k, refl, Donated-refl k p c)
propagate_priorities-Donated _ (suc fuel) k _ p c l m stops f h = (k, refl, Donated-refl k p c)
propagate_priorities-Donated _ zero k _ p c l m (leads t ts live n ch) f h = absurd (omega arith)
propagate_priorities-Donated _ (suc fuel) k _ p c l m (leads t ts live n ch) f h =
    let z : ℤ = donated k t p in
    let r : InRange z = donated-InRange k t p c.sound l live h in
    let (q, run, can) = donation_run k t z c r n in
    let same : blocker (raised_at k t z q) t ≡ blocker k t = blocker_same k t z q t in
    let chain : Chain (raised_at k t z q) (blocker (raised_at k t z q) t) ts =
      subst (λ o. Chain (raised_at k t z q) o ts) (sym same)
        (Chain-same k t z q (blocker k t) ts ch) in
    let (k', runs, d) =
      propagate_priorities-Donated ts fuel (raised_at k t z q) (blocker (raised_at k t z q) t) z can
        (IsLinked-same k t z q l) m chain (omega arith) (range_high z r) in
    (
      k',
      propagate_run fuel k (raised_at k t z q) t p m live run ∙ runs,
      Donated-head k t z q ts p k' (donated-IsGreatest k t p).given d,
    )

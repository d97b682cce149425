-- ===== src/Thread/Next.antt =====
-- Project 1: Threads/src/threads/thread.c: which thread runs next.
use cs140_operating_systems.Base.{
  ℕ, zero, suc, ◌<◌, ◌≡◌, refl, ap, ◌∙◌, inl, inr, Bool, true, false, ◌&&◌, not, Option, none, some,
  List, [], ◌∷◌, arith, ◌==◌, if◌then◌else◌, update, ==_iff, Bool-cases,
}
use cs140_operating_systems.Thread.{
  Kernel, thread_running, is_thread, is_dying, points_to, set_status, next_from, next_thread_to_run,
  reap, thread_schedule_tail, switch_to,
}

-- The first thread of the highest queue below n that holds one, taken out; the idle thread if all are
-- empty.
pub data Picks (k : Kernel) (n : ℕ) : Option ℕ × Kernel → Type 0 where
  idles : ((j : ℕ) → j < n → k.ready_list j ≡ []) → Picks k n (k.idle_thread, k)
  first :
      (p t : ℕ) (ts : List ℕ)
      → p < n
      → k.ready_list p ≡ t ∷ ts
      → ((j : ℕ) → p < j → j < n → k.ready_list j ≡ [])
      → Picks k n (some t, record k { ready_list = update k.ready_list p ts })

-- An empty queue above those that were looked at.
Picks-suc :
    (k : Kernel) (n : ℕ) (r : Option ℕ × Kernel)
    → k.ready_list n ≡ []
    → Picks k n r
    → Picks k (suc n) r
Picks-suc k n (_, _) e (idles h) = idles (λ j b. below j b)
  where
    below : (j : ℕ) → j < suc n → k.ready_list j ≡ []
    below j b = elim (Bool-cases (j == n)) [
      | inl s ↦ ap k.ready_list ((==_iff j n).0 s) ∙ e
      | inr s ↦ h j (ground arith)
    ]
Picks-suc k n (_, _) e (first p t ts b q h) = first p t ts (omega arith) q above
  where
    above : (j : ℕ) → p < j → j < suc n → k.ready_list j ≡ []
    above j l b' = elim (Bool-cases (j == n)) [
      | inl s ↦ ap k.ready_list ((==_iff j n).0 s) ∙ e
      | inr s ↦ h j l (ground arith)
    ]

next_from_run :
    (k : Kernel) (n : ℕ) (q : List ℕ)
    → k.ready_list n ≡ q
    → Picks k n (next_from n k)
    → Picks k (suc n) (next_from (suc n) k)
unfolding next_from
next_from_run k n [] e h = rw (e, next_from) (Picks-suc k n (next_from n k) e h)
next_from_run k n (t ∷ ts) e h =
    rw (e, next_from) (first n t ts (omega arith) e (λ j a b. absurd (omega arith)))

next_from-Picks : (k : Kernel) (n : ℕ) → Picks k n (next_from n k)
unfolding next_from
next_from-Picks k zero = idles (λ j b. absurd (omega arith))
next_from-Picks k (suc n) = next_from_run k n (k.ready_list n) refl (next_from-Picks k n)

-- next_thread_to_run takes out the first thread of the highest of the 64 queues that holds one,
-- and returns idle_thread if all are empty.
pub next_thread_to_run-Picks : (k : Kernel) → Picks k 64 (next_thread_to_run k)
unfolding next_thread_to_run
next_thread_to_run-Picks k = next_from-Picks k 64

-- What a switch to thread t changes of the threads.
pub record Switched (k : Kernel) (t : ℕ) (k' : Kernel) : Type 0 where
  pub runs : k'.current ≡ t
  pub threads : k'.thread ≡ update k.thread t (record (k.thread t) { status = thread_running })
  pub queues : k'.ready_list ≡ k.ready_list
  pub idle : k'.idle_thread ≡ k.idle_thread
  pub locks : k'.lock ≡ k.lock
  pub all : k'.all_list ≡ k.all_list
  pub slice : k'.thread_ticks ≡ 0

reap_lem :
    (prev : Option ℕ) (k : Kernel)
    → points_to prev k.current ≡ false
    → (l : List ℕ) × (reap prev k ≡ some (record k { freed = l }))
unfolding reap
reap_lem none k h = (k.freed, refl)
reap_lem (some p) k h =
    elim (Bool-cases (is_dying (k.thread p).status && not (p == k.initial_thread))) [
      | inl e ↦ let other : (p == k.current) ≡ false = ground arith in (p ∷ k.freed, rw (e, other))
      | inr e ↦ (k.freed, rw e)
    ]

pub switch_to_lem :
    (k : Kernel) (t : ℕ)
    → is_thread k t ≡ true
    → (k' : Kernel) × (switch_to (some t) k ≡ some k') × Switched k t k'
unfolding switch_to thread_schedule_tail
switch_to_lem k t h =
    let k1 : Kernel = record (set_status (record k { current = t }) t thread_running) {
      thread_ticks = 0;
    } in
    let prev : Option ℕ = if k.current == t then none else some k.current in
    let apart : points_to prev t ≡ false =
      prev_apart (k.current == t) k.current t (λ e. ground arith) in
    let r : (l : List ℕ) × (reap prev k1 ≡ some (record k1 { freed = l })) =
      reap_lem prev k1 apart in
    (
      record k1 { freed = r.0 },
      rw h r.1,
      record {
        runs = refl;
        threads = refl;
        queues = refl;
        idle = refl;
        locks = refl;
        all = refl;
        slice = refl;
      },
    )
  where
    prev_apart :
        (b : Bool) (c u : ℕ)
        → (b ≡ false → (u == c) ≡ false)
        → points_to (if b then none else some c) u ≡ false
    prev_apart true c u e = refl
    prev_apart false c u e = e refl

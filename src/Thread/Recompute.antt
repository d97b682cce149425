-- ===== src/Thread/Recompute.antt =====
-- Project 1: Threads/src/threads/thread.c: recompute_priority, on all threads.
use mathlib.Core.Path.{subst}
use cs140_operating_systems.Base.{
  ℕ, ◌≡◌, refl, sym, ap, ◌∙◌, inl, inr, Bool, true, false, Option, some, List, [], ◌∷◌, arith, ◌==◌,
  if◌then◌else◌, update, ==-refl, ==_iff, Bool-cases, ℤ,
}
use cs140_operating_systems.Thread.{Thread, Kernel, points_to, has}
use cs140_operating_systems.Thread.Mlfqs.{
  thread_set_quite_priority, thread_function_recompute_priority, foreach_from, thread_foreach,
  recompute_priority,
}
use cs140_operating_systems.Thread.Sound.{IsGood, moved, requeue-IsSound}
use cs140_operating_systems.Thread.Calls.{CanRun, stays-CanRun}
use cs140_operating_systems.Thread.Formula.{new_priority_total}

-- The priority that a thread's use of the CPU and niceness give it.
abbrev pub own_priority : Thread → ℤ
own_priority x = (new_priority_total x.recent_cpu x.nice).0

abbrev pub reprioritised : Thread → Thread
reprioritised x = record x { priority = own_priority x; old_priority = own_priority x }

reprioritised-IsGood : (x : Thread) → IsGood x → IsGood (reprioritised x)
reprioritised-IsGood x g = record {
  live = g.live;
  ranged = λ _. (new_priority_total x.recent_cpu x.nice).2;
  based = λ _. (new_priority_total x.recent_cpu x.nice).2;
}

-- The thread with its new priority, unless it is the idle thread.
abbrev pub updated : Option ℕ → ℕ → Thread → Thread
updated idle t x = if points_to idle t then x else reprioritised x

-- The threads that were recomputed, and no other, have their new priorities.
pub record Recomputed (k : Kernel) (targets : List ℕ) (k' : Kernel) : Type 0 where
  pub can : CanRun k'
  pub idle : k'.idle_thread ≡ k.idle_thread
  pub all : k'.all_list ≡ k.all_list
  pub cpu : k'.current ≡ k.current
  pub load : k'.load_average ≡ k.load_average
  pub threads :
      (u : ℕ)
      → k'.thread u ≡ (if has u targets then updated k.idle_thread u (k.thread u) else k.thread u)

idle_updated :
    (idle : Option ℕ) (t u : ℕ) (x : Thread)
    → points_to idle t ≡ true
    → (if has u (t ∷ []) then updated idle u x else x) ≡ x
idle_updated idle t u x e = elim (Bool-cases (t == u)) [
  | inl h ↦
      let here : t ≡ u = (==_iff t u).0 h in
      let e' : points_to idle u ≡ true = subst (λ v. points_to idle v ≡ true) here e in rw (h, e')
  | inr h ↦ rw h
]

updated_one :
    (k : Kernel) (t u : ℕ)
    → points_to k.idle_thread t ≡ false
    → update k.thread t (reprioritised (k.thread t)) u
      ≡ (if has u (t ∷ []) then updated k.idle_thread u (k.thread u) else k.thread u)
updated_one k t u e = elim (Bool-cases (u == t)) [
  | inl h ↦ let here : u ≡ t = (==_iff u t).0 h in rw (here, ==-refl t, e)
  | inr h ↦ let other : (t == u) ≡ false = ground arith in rw (h, other)
]

recompute_one :
    (k : Kernel) (t : ℕ)
    → CanRun k
    → (k' : Kernel) × (thread_function_recompute_priority t k ≡ some k') × Recomputed k (t ∷ []) k'
unfolding thread_function_recompute_priority thread_set_quite_priority
recompute_one k t c = elim (Bool-cases (points_to k.idle_thread t)) [
  | inl e ↦ (
    k,
    rw e,
    record {
      can = c;
      idle = refl;
      all = refl;
      cpu = refl;
      load = refl;
      threads = λ u. sym (idle_updated k.idle_thread t u (k.thread u) e);
    },
  )
  | inr e ↦
      let x : Thread = reprioritised (k.thread t) in
      let (q, run, s) =
        requeue-IsSound k t x c.sound (reprioritised-IsGood (k.thread t) (c.sound.good t)) (λ l. l)
          refl (λ _. e) in
      (
        moved k t x q,
        rw (e, (new_priority_total (k.thread t).recent_cpu (k.thread t).nice).1) run,
        record {
          can = stays-CanRun k t x (moved k t x q) c s refl refl refl (λ l. l) refl;
          idle = refl;
          all = refl;
          cpu = refl;
          load = refl;
          threads = λ u. updated_one k t u e;
        },
      )
]

-- Recomputing again changes nothing.
abbrev updated_if : Bool → Bool → Thread → Thread
updated_if b idle x = if b then (if idle then x else reprioritised x) else x

updated_twice :
    (a b idle : Bool) (x : Thread)
    → updated_if b idle (updated_if (if a then true else false) idle x)
      ≡ updated_if (if a then true else b) idle x
updated_twice true true true x = refl
updated_twice true true false x = refl
updated_twice true false idle x = refl
updated_twice false true true x = refl
updated_twice false true false x = refl
updated_twice false false idle x = refl

Recomputed-trans :
    (k k1 k2 : Kernel) (t : ℕ) (ts : List ℕ)
    → Recomputed k (t ∷ []) k1
    → Recomputed k1 ts k2
    → Recomputed k (t ∷ ts) k2
Recomputed-trans k k1 k2 t ts f g = record {
  can = g.can;
  idle = g.idle ∙ f.idle;
  all = g.all ∙ f.all;
  cpu = g.cpu ∙ f.cpu;
  load = g.load ∙ f.load;
  threads = λ u.
      g.threads u
      ∙ rw (f.threads u, f.idle)
          (updated_twice (t == u) (has u ts) (points_to k.idle_thread u) (k.thread u));
}

recompute_from :
    (ts : List ℕ) (k : Kernel)
    → CanRun k
    → (k' : Kernel) × (foreach_from thread_function_recompute_priority ts k ≡ some k')
      × Recomputed k ts k'
unfolding foreach_from
recompute_from [] k c = (
  k,
  refl,
  record { can = c; idle = refl; all = refl; cpu = refl; load = refl; threads = λ u. refl },
)
recompute_from (t ∷ ts) k c =
    let (k1, run, f) = recompute_one k t c in
    let (k2, runs, g) = recompute_from ts k1 f.can in
    (k2, rw run runs, Recomputed-trans k k1 k2 t ts f g)

-- In a sound state where one thread runs, recompute_priority fails no ASSERT. Each thread of
-- all_list but the idle one has the priority for its recent_cpu and niceness as its priority and
-- old_priority; nothing else of a thread changed, and the state is sound.
pub recompute_priority-Recomputed :
    (k : Kernel)
    → CanRun k
    → (k' : Kernel) × (recompute_priority k ≡ some k') × Recomputed k k.all_list k'
unfolding recompute_priority thread_foreach
recompute_priority-Recomputed k c = recompute_from k.all_list k c

-- What the new priorities leave alone.
pub Recomputed-map :
    {B : Type 0} (g : Thread → B) (k : Kernel) (ts : List ℕ) (k' : Kernel)
    → ((x : Thread) → g (reprioritised x) ≡ g x)
    → Recomputed k ts k'
    → (u : ℕ) → g (k'.thread u) ≡ g (k.thread u)
Recomputed-map g k ts k' h r u =
    ap g (r.threads u) ∙ alike (has u ts) (points_to k.idle_thread u) (k.thread u)
  where
    alike : (b i : Bool) (x : Thread) → g (updated_if b i x) ≡ g x
    alike true true x = refl
    alike true false x = h x
    alike false i x = refl

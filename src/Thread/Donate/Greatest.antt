-- ===== src/Thread/Donate/Greatest.antt =====
-- Project 1: Threads/src/threads/thread.c: the priority that propagate_priorities gives a thread is the
-- greatest of those it looks at.
use cs140_operating_systems.Base.{
  ℕ, ◌≡◌, refl, sym, ◌∙◌, ◌⊎◌, inl, inr, Bool, true, false, List, [], ◌∷◌, arith, ◌==◌, ==_iff,
  ==-refl, if◌then◌else◌, Bool-cases, ℤ, ◌≤ℤ◌, ltb_ℤ,
}
use mathlib.Core.Path.{subst}
use cs140_operating_systems.Thread.{Thread, Kernel, has}
use cs140_operating_systems.Thread.Donate.{max_ℤ, greatest_waiter, greatest_donor, donated}

pub max-left : (a b : ℤ) → a ≤ℤ max_ℤ a b
max-left a b = ground arith

pub max-right : (a b : ℤ) → b ≤ℤ max_ℤ a b
max-right a b = ground arith

pub max-one : (a b : ℤ) → (max_ℤ a b ≡ a) ⊎ (max_ℤ a b ≡ b)
max-one a b = elim (Bool-cases (ltb_ℤ b a)) [ inl e ↦ inl (rw e) | inr e ↦ inr (rw e) ]

pub ≤ℤ-trans : (a b c : ℤ) → a ≤ℤ b → b ≤ℤ c → a ≤ℤ c
≤ℤ-trans a b c h k = omega arith

has_tail : (v w : ℕ) (ws : List ℕ) → has w ws ≡ true → has w (v ∷ ws) ≡ true
has_tail v w ws h = elim (Bool-cases (v == w)) [ inl e ↦ rw e | inr e ↦ rw e h ]

has_head : (v : ℕ) (ws : List ℕ) → has v (v ∷ ws) ≡ true
has_head v ws = rw (==-refl v)

pub has_inv : (v w : ℕ) (ws : List ℕ) → (v == w) ≡ false → has w (v ∷ ws) ≡ true → has w ws ≡ true
has_inv v w ws e h = subst (λ b. (if b then true else has w ws) ≡ true) e h

pub not-has_inv :
    (v w : ℕ) (ws : List ℕ) → has w (v ∷ ws) ≡ false → ((v == w) ≡ false) × (has w ws ≡ false)
not-has_inv v w ws h = not-if (v == w) (has w ws) h
  where
    not-if : (b c : Bool) → (if b then true else c) ≡ false → (b ≡ false) × (c ≡ false)
    not-if true c e = absurd (cc)
    not-if false c e = (refl, e)

-- Thread w waits for a lock of the list.
pub record Waits (k : Kernel) (ls : List ℕ) (w : ℕ) : Type 0 where
  pub lock_of : ℕ
  pub held : has lock_of ls ≡ true
  pub waits : has w (k.lock lock_of).semaphore.waiters ≡ true

module _ (thread : ℕ → Thread) where
  waiter-above : (ws : List ℕ) (p : ℤ) → p ≤ℤ greatest_waiter thread ws p
  unfolding greatest_waiter
  waiter-above [] p = omega arith
  waiter-above (w ∷ ws) p =
      ≤ℤ-trans p (max_ℤ p (thread w).priority) _ (max-left p (thread w).priority)
        (waiter-above ws (max_ℤ p (thread w).priority))

  waiter-each :
      (ws : List ℕ) (p : ℤ) (w : ℕ)
      → has w ws ≡ true
      → (thread w).priority ≤ℤ greatest_waiter thread ws p
  unfolding greatest_waiter
  waiter-each [] p w h = absurd (cc)
  waiter-each (v ∷ ws) p w h = elim (Bool-cases (v == w)) [
    | inl e ↦
        let here : v ≡ w = (==_iff v w).0 e in
        subst (λ u. (thread u).priority ≤ℤ greatest_waiter thread (v ∷ ws) p) here
          (≤ℤ-trans (thread v).priority (max_ℤ p (thread v).priority) _
            (max-right p (thread v).priority) (waiter-above ws (max_ℤ p (thread v).priority)))
    | inr e ↦ waiter-each ws (max_ℤ p (thread v).priority) w (has_inv v w ws e h)
  ]

  waiter-one :
      (ws : List ℕ) (p : ℤ)
      → (greatest_waiter thread ws p ≡ p)
        ⊎ ((w : ℕ) × (has w ws ≡ true) × (greatest_waiter thread ws p ≡ (thread w).priority))
  unfolding greatest_waiter
  waiter-one [] p = inl refl
  waiter-one (v ∷ ws) p = elim (waiter-one ws (max_ℤ p (thread v).priority)) [
    | inl e ↦ elim (max-one p (thread v).priority) [
      | inl m ↦ inl (e ∙ m)
      | inr m ↦ inr (v, has_head v ws, e ∙ m)
    ]
    | inr (w, h, e) ↦ inr (w, has_tail v w ws h, e)
  ]

module _ (k : Kernel) where
  abbrev waiters_of : ℕ → List ℕ
  waiters_of l = (k.lock l).semaphore.waiters

  donor-above : (ls : List ℕ) (p : ℤ) → p ≤ℤ greatest_donor k ls p
  unfolding greatest_donor
  donor-above [] p = omega arith
  donor-above (l ∷ ls) p =
      ≤ℤ-trans p (greatest_waiter k.thread (waiters_of l) p) _
        (waiter-above k.thread (waiters_of l) p)
        (donor-above ls (greatest_waiter k.thread (waiters_of l) p))

  donor-each :
      (ls : List ℕ) (p : ℤ) (l w : ℕ)
      → has l ls ≡ true
      → has w (waiters_of l) ≡ true
      → (k.thread w).priority ≤ℤ greatest_donor k ls p
  unfolding greatest_donor
  donor-each [] p l w h i = absurd (cc)
  donor-each (m ∷ ls) p l w h i = elim (Bool-cases (m == l)) [
    | inl e ↦
        let here : l ≡ m = sym ((==_iff m l).0 e) in
        let i' : has w (waiters_of m) ≡ true = subst (λ n. has w (waiters_of n) ≡ true) here i in
        ≤ℤ-trans (k.thread w).priority (greatest_waiter k.thread (waiters_of m) p) _
          (waiter-each k.thread (waiters_of m) p w i')
          (donor-above ls (greatest_waiter k.thread (waiters_of m) p))
    | inr e ↦ donor-each ls (greatest_waiter k.thread (waiters_of m) p) l w (has_inv m l ls e h) i
  ]

  donor-one :
      (ls : List ℕ) (p : ℤ)
      → (greatest_donor k ls p ≡ p)
        ⊎ ((w : ℕ) × Waits k ls w × (greatest_donor k ls p ≡ (k.thread w).priority))
  unfolding greatest_donor
  donor-one [] p = inl refl
  donor-one (l ∷ ls) p = elim (donor-one ls (greatest_waiter k.thread (waiters_of l) p)) [
    | inl e ↦ elim (waiter-one k.thread (waiters_of l) p) [
      | inl m ↦ inl (e ∙ m)
      | inr (w, h, m) ↦ inr (w, record { lock_of = l; held = has_head l ls; waits = h }, e ∙ m)
    ]
    | inr (w, h, e) ↦ inr (
      w,
      record { lock_of = h.lock_of; held = has_tail l h.lock_of ls h.held; waits = h.waits },
      e,
    )
  ]

-- The greatest of the priority given, the thread's own and those of the waiters for its locks.
pub record IsGreatest (k : Kernel) (t : ℕ) (p z : ℤ) : Type 0 where
  pub given : p ≤ℤ z
  pub own : (k.thread t).old_priority ≤ℤ z
  pub waiting : (w : ℕ) → Waits k (k.thread t).acquired_locks_list w → (k.thread w).priority ≤ℤ z
  pub reached :
      (z ≡ p)
      ⊎ (z ≡ (k.thread t).old_priority)
      ⊎ ((w : ℕ) × Waits k (k.thread t).acquired_locks_list w × (z ≡ (k.thread w).priority))

-- The priority that propagate_priorities gives a thread is the greatest of the one it was given,
-- the old_priority of the thread, and those of the waiters for the locks that the thread has
-- acquired.
pub donated-IsGreatest : (k : Kernel) (t : ℕ) (p : ℤ) → IsGreatest k t p (donated k t p)
unfolding donated
donated-IsGreatest k t p =
    let ls : List ℕ = (k.thread t).acquired_locks_list in
    let old : ℤ = (k.thread t).old_priority in
    let g : ℤ = greatest_donor k ls p in
    record {
      given = ≤ℤ-trans p g (max_ℤ g old) (donor-above k ls p) (max-left g old);
      own = max-right g old;
      waiting = λ w h.
          ≤ℤ-trans (k.thread w).priority g (max_ℤ g old)
            (donor-each k ls p h.lock_of w h.held h.waits) (max-left g old);
      reached = elim (max-one g old) [
        | inl m ↦ elim (donor-one k ls p) [
          | inl e ↦ inl (m ∙ e)
          | inr (w, h, e) ↦ inr (inr (w, h, m ∙ e))
        ]
        | inr m ↦ inr (inl m)
      ];
    }

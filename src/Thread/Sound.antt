-- ===== src/Thread/Sound.antt =====
-- Project 1: Threads/src/threads/thread.c: the queues agree with the threads, and how each call that
-- moves a thread keeps that.
use mathlib.Core.Path.{subst}
use cs140_operating_systems.Base.{
  ap, ◌∙◌, ℕ, ◌<◌, ◌≡◌, refl, sym, inl, inr, Bool, true, false, ◌&&◌, not, Option, none, some, List,
  [], ◌∷◌, ◌++◌, ◌==◌, if◌then◌else◌, update, update_self, update_same, update_twice, ==-refl,
  ==_iff, Bool-cases, ℤ, pos, lt→ltb,
}
use cs140_operating_systems.Thread.{
  Thread, Kernel, pri_size, thread_magic, is_thread, is_ready, points_to, set_thread, queue_index,
  add_ready_thread, erase, queue_of, remove_ready_thread, requeue,
}
use cs140_operating_systems.Thread.Queues.{IsFit, IsFit-ext, push-IsFit, queue_of_lem, erase-IsFit}

-- A priority from PRI_MIN to PRI_MAX.
abbrev pub InRange : ℤ → Type 0
InRange z = (p : ℕ) × (z ≡ pos p) × (p < 64)

abbrev pub is_live : Thread → Bool
is_live x = (x.magic == thread_magic) && x.is_list

pub record IsGood (x : Thread) : Type 0 where
  pub live : is_ready x.status ≡ true → is_live x ≡ true
  pub ranged : is_live x ≡ true → InRange x.priority
  pub based : is_live x ≡ true → InRange x.old_priority

-- The queue that a thread belongs in: that of its priority, if it is ready and not the idle thread.
abbrev pub slot_of : Option ℕ → ℕ → Thread → Option ℕ
slot_of idle t x =
    if is_ready x.status && not (points_to idle t) then queue_index x.priority else none

-- Each ready thread but the idle one is once in the queue of its priority, no queue holds another
-- thread, and the structures that are in use are threads with priorities in range.
pub record IsSound (k : Kernel) : Type 0 where
  pub fits : IsFit k.ready_list (λ t. slot_of k.idle_thread t (k.thread t))
  pub good : (t : ℕ) → IsGood (k.thread t)
  pub idles : (t : ℕ) → k.idle_thread ≡ some t → is_thread k t ≡ true

pub queue_index-InRange : (z : ℤ) → (r : InRange z) → queue_index z ≡ some r.0
queue_index-InRange z (p, e, h) = rw (e, lt→ltb p 64 h)

pub if_ind {ℓ κ} :
    {A : Type ℓ} (P : A → Type κ) (b : Bool) (x y : A) → P x → P y → P (if b then x else y)
if_ind P true x y p q = p
if_ind P false x y p q = q

-- The slots after thread t has become x.
slots_after :
    (k : Kernel) (t : ℕ) (x : Thread) (u : ℕ)
    → slot_of k.idle_thread u (update k.thread t x u)
      ≡ update (λ v. slot_of k.idle_thread v (k.thread v)) t (slot_of k.idle_thread t x) u
slots_after k t x u = elim (Bool-cases (u == t)) [
  | inl h ↦ let here : u ≡ t = (==_iff u t).0 h in rw (here, ==-refl t)
  | inr h ↦ rw h
]

pub lives_after :
    (thread : ℕ → Thread) (t : ℕ) (x : Thread) (u : ℕ)
    → is_live (thread u) ≡ true
    → (is_live (thread t) ≡ true → is_live x ≡ true)
    → is_live (update thread t x u) ≡ true
lives_after thread t x u h l = elim (Bool-cases (u == t)) [
  | inl e ↦
      let here : u ≡ t = (==_iff u t).0 e in
      rw e (l (subst (λ v. is_live (thread v) ≡ true) here h))
  | inr e ↦ rw e h
]

-- Thread t becomes x, and the queues q.
abbrev pub moved : Kernel → ℕ → Thread → (ℕ → List ℕ) → Kernel
moved k t x q = record (set_thread k t x) { ready_list = q }

-- A state in which thread t is x, with queues that fit it, and no other thread changed.
pub moved-IsSound :
    (k : Kernel) (t : ℕ) (x : Thread) (k' : Kernel)
    → IsSound k
    → k'.idle_thread ≡ k.idle_thread
    → k'.thread ≡ update k.thread t x
    → IsFit k'.ready_list
        (update (λ v. slot_of k.idle_thread v (k.thread v)) t (slot_of k.idle_thread t x))
    → IsGood x
    → (is_thread k t ≡ true → is_live x ≡ true)
    → IsSound k'
moved-IsSound k t x k' s ei et f g l = record {
  fits =
      rw (ei, et)
        (IsFit-ext k'.ready_list
          (update (λ v. slot_of k.idle_thread v (k.thread v)) t (slot_of k.idle_thread t x))
          (λ u. slot_of k.idle_thread u (update k.thread t x u)) (slots_after k t x) f);
  good = rw et (λ u. if_ind IsGood (u == t) x (k.thread u) g (s.good u));
  idles = rw (ei, et) (λ u h. lives_after k.thread t x u (s.idles u h) l);
}

abbrev pub slots : Kernel → ℕ → Option ℕ
slots k t = slot_of k.idle_thread t (k.thread t)

slot_of_ready :
    (idle : Option ℕ) (t : ℕ) (x : Thread) (r : InRange x.priority)
    → is_ready x.status ≡ true
    → points_to idle t ≡ false
    → slot_of idle t x ≡ some r.0
slot_of_ready idle t x r h n = rw (h, n) (queue_index-InRange x.priority r)

add_ready_thread_run :
    (t p : ℕ) (k : Kernel)
    → queue_index (k.thread t).priority ≡ some p
    → add_ready_thread t k
      ≡ some (record k { ready_list = update k.ready_list p (k.ready_list p ++ (t ∷ [])) })
unfolding add_ready_thread
add_ready_thread_run t p k e = rw e

remove_ready_thread_run :
    (t p : ℕ) (k : Kernel)
    → queue_of pri_size t k.ready_list ≡ some p
    → remove_ready_thread t k
      ≡ some (record k { ready_list = update k.ready_list p (erase t (k.ready_list p)) })
unfolding remove_ready_thread
remove_ready_thread_run t p k e = rw e

-- A thread that no queue holds becomes ready and is put into its queue.
pub add-IsSound :
    (k : Kernel) (t : ℕ) (x : Thread)
    → IsSound k
    → slots k t ≡ none
    → IsGood x
    → is_live x ≡ true
    → is_ready x.status ≡ true
    → points_to k.idle_thread t ≡ false
    → (q : ℕ → List ℕ) × (add_ready_thread t (set_thread k t x) ≡ some (moved k t x q))
      × IsSound (moved k t x q)
add-IsSound k t x s e g l r n =
    let k1 : Kernel = set_thread k t x in
    let own : InRange x.priority = g.ranged l in
    let p : ℕ = own.0 in
    let q : ℕ → List ℕ = update k.ready_list p (k.ready_list p ++ (t ∷ [])) in
    let at : queue_index (k1.thread t).priority ≡ some p =
      rw (==-refl t) (queue_index-InRange x.priority own) in
    let fit : IsFit q (update (slots k) t (slot_of k.idle_thread t x)) =
      subst (λ z. IsFit q (update (slots k) t z)) (sym (slot_of_ready k.idle_thread t x own r n))
        (push-IsFit k.ready_list (slots k) s.fits t p e) in
    (
      q,
      add_ready_thread_run t p k1 at,
      moved-IsSound k t x (moved k t x q) s refl refl fit g (λ _. l),
    )

-- It went to the end of the queue of its priority.
pub add_ready_thread_queued :
    (k : Kernel) (t : ℕ) (x : Thread) (q : ℕ → List ℕ)
    → is_live x ≡ true
    → IsGood x
    → add_ready_thread t (set_thread k t x) ≡ some (moved k t x q)
    → (p : ℕ) × (x.priority ≡ pos p) × (q ≡ update k.ready_list p (k.ready_list p ++ (t ∷ [])))
add_ready_thread_queued k t x q l g run =
    let own : InRange x.priority = g.ranged l in
    let k1 : Kernel = set_thread k t x in
    let end : ℕ → List ℕ = update k.ready_list own.0 (k.ready_list own.0 ++ (t ∷ [])) in
    let at : queue_index (k1.thread t).priority ≡ some own.0 =
      rw (==-refl t) (queue_index-InRange x.priority own) in
    let run2 : add_ready_thread t k1 ≡ some (moved k t x end) =
      add_ready_thread_run t own.0 k1 at in
    (own.0, own.1, ap (λ j. j.ready_list) (same (moved k t x q) (moved k t x end) (sym run ∙ run2)))
  where
    same : (a b : Kernel) → some a ≡ some b → a ≡ b
    same a b e = cc

-- A thread that no queue holds becomes one that none should hold.
pub rest-IsSound :
    (k : Kernel) (t : ℕ) (x : Thread) (k' : Kernel)
    → IsSound k
    → k'.idle_thread ≡ k.idle_thread
    → k'.thread ≡ update k.thread t x
    → k'.ready_list ≡ k.ready_list
    → slot_of k.idle_thread t x ≡ slots k t
    → IsGood x
    → (is_thread k t ≡ true → is_live x ≡ true)
    → IsSound k'
rest-IsSound k t x k' s ei et eq e g l =
    moved-IsSound k t x k' s ei et
      (subst (λ q. IsFit q (update (slots k) t (slot_of k.idle_thread t x))) (sym eq)
        (IsFit-ext k.ready_list (slots k) (update (slots k) t (slot_of k.idle_thread t x))
          (update_same (slots k) t (slot_of k.idle_thread t x) e) s.fits))
      g l

requeue_ready :
    (k : Kernel) (t : ℕ) (x : Thread)
    → IsSound k
    → IsGood x
    → is_live x ≡ true
    → is_ready x.status ≡ true
    → is_ready (k.thread t).status ≡ true
    → points_to k.idle_thread t ≡ false
    → (q : ℕ → List ℕ) × (requeue t (set_thread k t x) ≡ some (moved k t x q))
      × IsSound (moved k t x q)
unfolding requeue
requeue_ready k t x s g l r r0 n =
    let k1 : Kernel = set_thread k t x in
    let old : InRange (k.thread t).priority = (s.good t).ranged ((s.good t).live r0) in
    let own : InRange x.priority = g.ranged l in
    let slot : slots k t ≡ some old.0 = slot_of_ready k.idle_thread t (k.thread t) old r0 n in
    let q1 : ℕ → List ℕ = update k.ready_list old.0 (erase t (k.ready_list old.0)) in
    let k2 : Kernel = record k1 { ready_list = q1 } in
    let q2 : ℕ → List ℕ = update q1 own.0 (q1 own.0 ++ (t ∷ [])) in
    let at : queue_index (k2.thread t).priority ≡ some own.0 =
      rw (==-refl t) (queue_index-InRange x.priority own) in
    let empty : IsFit q1 (update (slots k) t none) =
      erase-IsFit k.ready_list (slots k) s.fits t old.0 slot in
    let full : IsFit q2 (update (update (slots k) t none) t (some own.0)) =
      push-IsFit q1 (update (slots k) t none) empty t own.0 (update_self (slots k) t none) in
    let fit : IsFit q2 (update (slots k) t (slot_of k.idle_thread t x)) =
      subst (λ z. IsFit q2 (update (slots k) t z)) (sym (slot_of_ready k.idle_thread t x own r n))
        (IsFit-ext q2 (update (update (slots k) t none) t (some own.0))
          (update (slots k) t (some own.0)) (update_twice (slots k) t none (some own.0)) full) in
    let gone : remove_ready_thread t k1 ≡ some k2 =
      remove_ready_thread_run t old.0 k1
        (queue_of_lem k.ready_list (slots k) s.fits t old.0 pri_size slot old.2) in
    (
      q2,
      rw (==-refl t, r, gone) (add_ready_thread_run t own.0 k2 at),
      moved-IsSound k t x (moved k t x q2) s refl refl fit g (λ _. l),
    )

-- A thread that changes its priority, and not its status, moves to the queue of the new one.
pub requeue-IsSound :
    (k : Kernel) (t : ℕ) (x : Thread)
    → IsSound k
    → IsGood x
    → (is_thread k t ≡ true → is_live x ≡ true)
    → x.status ≡ (k.thread t).status
    → (is_ready (k.thread t).status ≡ true → points_to k.idle_thread t ≡ false)
    → (q : ℕ → List ℕ) × (requeue t (set_thread k t x) ≡ some (moved k t x q))
      × IsSound (moved k t x q)
unfolding requeue
requeue-IsSound k t x s g l e n = elim (Bool-cases (is_ready (k.thread t).status)) [
  | inl h ↦
      let h' : is_ready x.status ≡ true = rw e h in requeue_ready k t x s g (g.live h') h' h (n h)
  | inr h ↦
      let h' : is_ready x.status ≡ false = rw e h in
      (
        k.ready_list,
        rw (==-refl t, h'),
        rest-IsSound k t x (set_thread k t x) s refl refl refl (rw (h, h')) g l,
      )
]

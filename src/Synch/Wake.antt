-- ===== src/Synch/Wake.antt =====
-- Project 1: Threads/src/threads/synch.c: whom sema_up wakes.
use mathlib.Core.Path.{subst}
use cs140_operating_systems.Base.{
  ℕ, ◌+◌, ◌%◌, ◌^◌, ◌<◌, ◌≡◌, refl, ap, inl, inr, true, false, some, List, [], ◌∷◌, arith, ◌==◌,
  ==_iff, ==-refl, Bool-cases, update_map, ℤ, ◌≤ℤ◌, ltb_ℤ, pos_part, neg_part,
}
use cs140_operating_systems.Thread.{
  Status, thread_running, thread_blocked, thread_dying, is_running, Thread, Semaphore, Kernel,
  thread_ready, is_thread, is_blocked, points_to, has, erase,
}
use cs140_operating_systems.Thread.Sound.{IsSound, moved}
use cs140_operating_systems.Thread.Calls.{CanRun, stays-CanRun, thread_unblock-IsSound}
use cs140_operating_systems.Thread.Donate.Greatest.{has_inv}
use cs140_operating_systems.Synch.{list_max, up_first, sema_up}

infix 50 ◌<ℤ◌
abbrev pub ◌<ℤ◌ : ℤ → ℤ → Type 0
a <ℤ b = pos_part a + neg_part b < pos_part b + neg_part a

-- The first of those with the highest priority is m; without it, the list is the second one.
pub data Best (thread : ℕ → Thread) (m : ℕ) : List ℕ → List ℕ → Type 0 where
  here :
      (ws : List ℕ)
      → ((w : ℕ) → has w ws ≡ true → (thread w).priority ≤ℤ (thread m).priority)
      → Best thread m (m ∷ ws) ws
  later :
      (v : ℕ) (ws rs : List ℕ)
      → (thread v).priority <ℤ (thread m).priority
      → Best thread m ws rs
      → Best thread m (v ∷ ws) (v ∷ rs)

module _ (thread : ℕ → Thread) where
  -- One more that is no better than the first.
  insert-Best :
      (x e m : ℕ) (es rs : List ℕ)
      → Best thread m (x ∷ es) rs
      → (thread e).priority ≤ℤ (thread x).priority
      → (rs' : List ℕ) × Best thread m (x ∷ e ∷ es) rs'
  insert-Best x e _ es _ (here _ h) l = (e ∷ es, here (e ∷ es) (λ w i. no_better w i))
    where
      no_better : (w : ℕ) → has w (e ∷ es) ≡ true → (thread w).priority ≤ℤ (thread x).priority
      no_better w i = elim (Bool-cases (e == w)) [
        | inl s ↦ subst (λ u. (thread u).priority ≤ℤ (thread x).priority) ((==_iff e w).0 s) l
        | inr s ↦ h w (has_inv e w es s i)
      ]
  insert-Best x e m es _ (later _ _ rs p b) l =
      (x ∷ e ∷ rs, later x (e ∷ es) (e ∷ rs) p (later e es rs (omega arith) b))

  list_max-Best :
      (x : ℕ) (es : List ℕ)
      → ((rs : List ℕ) × Best thread (list_max thread x es) (x ∷ es) rs)
        × ((thread x).priority ≤ℤ (thread (list_max thread x es)).priority)
  unfolding list_max
  list_max-Best x [] = (([], here [] (λ w i. absurd (cc))), omega arith)
  list_max-Best x (e ∷ es) = elim (Bool-cases (ltb_ℤ (thread x).priority (thread e).priority)) [
    | inl h ↦
        let ((rs, b), le) = list_max-Best e es in
        let better : (thread x).priority <ℤ (thread e).priority = ground arith in
        rw h ((x ∷ rs, later x (e ∷ es) rs (omega arith) b), omega arith)
    | inr h ↦
        let ((rs, b), le) = list_max-Best x es in
        let (rs', b') = insert-Best x e (list_max thread x es) es rs b (ground arith) in
        rw h ((rs', b'), le)
  ]

  erase-Best : (m : ℕ) (ws rs : List ℕ) → Best thread m ws rs → erase m ws ≡ rs
  erase-Best m _ _ (here ws h) = rw (==-refl m)
  erase-Best m _ _ (later v ws rs p b) = elim (Bool-cases (v == m)) [
    | inl e ↦
        let same : v ≡ m = (==_iff v m).0 e in
        absurd (
          let q : (thread m).priority <ℤ (thread m).priority =
            subst (λ u. (thread u).priority <ℤ (thread m).priority) same p in
          omega arith)
    | inr e ↦ rw (e, erase-Best m ws rs b)
  ]

  has-Best : (m : ℕ) (ws rs : List ℕ) → Best thread m ws rs → has m ws ≡ true
  has-Best m _ _ (here ws h) = rw (==-refl m)
  has-Best m _ _ (later v ws rs p b) = elim (Bool-cases (v == m)) [
    | inl e ↦ rw e
    | inr e ↦ rw e (has-Best m ws rs b)
  ]

-- Who waits is a blocked thread.
pub record Asleep (k : Kernel) (ws : List ℕ) : Type 0 where
  pub live : (w : ℕ) → has w ws ≡ true → is_thread k w ≡ true
  pub blocked : (w : ℕ) → has w ws ≡ true → is_blocked (k.thread w).status ≡ true
  pub no_idle : (w : ℕ) → has w ws ≡ true → points_to k.idle_thread w ≡ false

abbrev pub awake : Kernel → ℕ → Thread
awake k w = record (k.thread w) { status = thread_ready }

-- A list of waiters before and after: nobody was there, or the best one is ready now.
pub data Woken (k : Kernel) : List ℕ → List ℕ → Kernel → Type 0 where
  nobody : Woken k [] [] k
  somebody :
      (m : ℕ) (ws rs : List ℕ) (q : ℕ → List ℕ)
      → is_blocked (k.thread m).status ≡ true
      → Best k.thread m ws rs
      → Woken k ws rs (moved k m (awake k m) q)

up_first-Woken :
    (s : Semaphore) (k : Kernel) (ws : List ℕ)
    → s.waiters ≡ ws
    → IsSound k
    → Asleep k ws
    → (rs : List ℕ) × (k' : Kernel) × (up_first s ws k
        ≡ some (record { value = (s.value + 1) % 2 ^ 32; waiters = rs }, k'))
      × Woken k ws rs k'
      × IsSound k'
unfolding up_first
up_first-Woken s k [] e sound a = (
  [],
  k,
  ap (λ ws. some (record { value = (s.value + 1) % 2 ^ 32; waiters = ws }, k)) e,
  nobody,
  sound,
)
up_first-Woken s k (w ∷ ws) e sound a =
    let m : ℕ = list_max k.thread w ws in
    let ((rs, b), _) = list_max-Best k.thread w ws in
    let h : has m (w ∷ ws) ≡ true = has-Best k.thread m (w ∷ ws) rs b in
    let (q, run, sound') =
      thread_unblock-IsSound k m sound (a.live m h) (a.blocked m h) (a.no_idle m h) in
    (
      rs,
      moved k m (awake k m) q,
      rw (run, erase-Best k.thread m (w ∷ ws) rs b),
      somebody m (w ∷ ws) rs q (a.blocked m h) b,
      sound',
    )

-- In a sound state, where those who wait for the semaphore are blocked threads and none is the
-- idle one, sema_up fails no ASSERT and adds one to the value. If there are waiters, the first
-- of those with the highest priority is made ready and taken from the list, the others keep
-- their order, and no other thread changes. The state is sound.
pub sema_up-Woken :
    (s : Semaphore) (k : Kernel)
    → IsSound k
    → Asleep k s.waiters
    → (rs : List ℕ) × (k' : Kernel) × (sema_up s k
        ≡ some (record { value = (s.value + 1) % 2 ^ 32; waiters = rs }, k'))
      × Woken k s.waiters rs k'
      × IsSound k'
unfolding sema_up
sema_up-Woken s k sound a = up_first-Woken s k s.waiters refl sound a

-- Waking changes the status of one thread, and the queues.
pub Woken-map {ℓ} :
    {B : Type ℓ} (g : Thread → B) (k : Kernel) (ws rs : List ℕ) (k' : Kernel)
    → ((x : Thread) → g (record x { status = thread_ready }) ≡ g x)
    → Woken k ws rs k'
    → (u : ℕ) → g (k'.thread u) ≡ g (k.thread u)
Woken-map g k _ _ _ h nobody u = refl
Woken-map g k _ _ _ h (somebody m ws rs q s b) u =
    update_map g k.thread m (awake k m) (h (k.thread m)) u

pub Woken-CanRun :
    (k : Kernel) (ws rs : List ℕ) (k' : Kernel)
    → CanRun k
    → IsSound k'
    → Woken k ws rs k'
    → CanRun k'
Woken-CanRun k _ _ _ c s nobody = c
Woken-CanRun k _ _ _ c s (somebody m ws rs q b best) =
    stays-CanRun k m (awake k m) (moved k m (awake k m) q) c s refl refl refl (λ l. l)
      (quiet (k.thread m).status b)
  where
    quiet : (x : Status) → is_blocked x ≡ true → false ≡ is_running x
    quiet thread_blocked e = refl
    quiet thread_ready e = absurd (cc)
    quiet thread_running e = absurd (cc)
    quiet thread_dying e = absurd (cc)

pub Woken-lock : (k : Kernel) (ws rs : List ℕ) (k' : Kernel) → Woken k ws rs k' → k'.lock ≡ k.lock
Woken-lock k _ _ _ nobody = refl
Woken-lock k _ _ _ (somebody m ws rs q b best) = refl

pub Woken-current :
    (k : Kernel) (ws rs : List ℕ) (k' : Kernel) → Woken k ws rs k' → k'.current ≡ k.current
Woken-current k _ _ _ nobody = refl
Woken-current k _ _ _ (somebody m ws rs q b best) = refl

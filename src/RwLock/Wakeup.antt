-- ===== src/RwLock/Wakeup.antt =====
-- Who is woken when a lock of gio_synch.c is released.
use mathlib.Core.Path.{subst}
use cs140_operating_systems.Base.{
  ℕ, ◌≡◌, refl, ap, ◌∙◌, Bool, true, false, Option, none, some, List, [], ◌∷◌, ◌==◌, inl, inr,
  Bool-cases, if◌then◌else◌, arith, update, ==-refl, ◌||◌, drop, length,
}
use cs140_operating_systems.RwLock.{
  RwLock, got, r_attempt, r_lock_acquire, r_lock_release, w_lock_release, wake_first, wake_loop,
  thread_unblock, wants_write, is_null, is_thread,
}

abbrev pub mem : ℕ → List ℕ → Bool
mem j [] = false
mem j (t ∷ ts) = (j == t) || mem j ts

-- The waiters at the front that wait to read.
pub front_readers : (ℕ → Bool) → List ℕ → List ℕ
front_readers waits [] = []
front_readers waits (t ∷ ts) = if waits t then [] else t ∷ front_readers waits ts

-- The waiter at the front if it waits to write, or else all readers at the front.
unfoldable pub front_group : (ℕ → Bool) → List ℕ → List ℕ
front_group waits [] = []
front_group waits (t ∷ ts) = if waits t then t ∷ [] else t ∷ front_readers waits ts

-- Each of the threads sleeps, and is there once.
abbrev pub Sleepers : (ℕ → Bool) → List ℕ → Type 0
Sleepers asleep [] = Unit {0}
Sleepers asleep (t ∷ ts) = (asleep t ≡ true) × (mem t ts ≡ false) × Sleepers asleep ts

-- `l'` is `l` after the threads of `ws` were taken from the queue and woken.
pub record Woke (l l' : RwLock) (ws : List ℕ) : Type 0 where
  pub holder : l'.w_holder ≡ l.w_holder
  pub level : l'.level ≡ l.level
  pub waits : (j : ℕ) → l'.waits_write j ≡ l.waits_write j
  pub waiters : l'.waiters ≡ drop (length ws) l.waiters
  pub asleep : (j : ℕ) → l'.asleep j ≡ (if mem j ws then false else l.asleep j)

Sleepers-update :
    (asleep : ℕ → Bool) (t : ℕ) (ts : List ℕ)
    → mem t ts ≡ false
    → Sleepers asleep ts
    → Sleepers (update asleep t false) ts
Sleepers-update asleep t [] out s = tt
Sleepers-update asleep t (u ∷ us) out (a, m, s) =
    let ne : (u == t) ≡ false = ground arith in
    (rw ne a, m, Sleepers-update asleep t us (ground arith) s)

is_thread_of_eq : (t : ℕ) (o : Option ℕ) → o ≡ some t → is_thread t o ≡ true
is_thread_of_eq t o e = rw e (==-refl t)

-- The waiters that wake_loop pops after it has popped a reader.
wake_loop-Woke :
    (ts : List ℕ) (l : RwLock)
    → l.waiters ≡ ts
    → Sleepers l.asleep ts
    → (l' : RwLock) × (wake_loop ts true l ≡ some l') × Woke l l' (front_readers l.waits_write ts)
unfolding wake_loop front_readers thread_unblock
wake_loop-Woke [] l e s = (
  l,
  refl,
  record { holder = refl; level = refl; waits = λ j. refl; waiters = refl; asleep = λ j. refl },
)
wake_loop-Woke (t ∷ ts) l e (a, m, s) = elim (Bool-cases (l.waits_write t)) [
  | inl w ↦ (
    l,
    rw w,
    rw w (record {
      holder = refl;
      level = refl;
      waits = λ j. refl;
      waiters = refl;
      asleep = λ j. refl;
    }),
  )
  | inr r ↦
      let l1 : RwLock = record l { waiters = ts; asleep = update l.asleep t false } in
      let (l', run, woke) = wake_loop-Woke ts l1 refl (Sleepers-update l.asleep t ts m s) in
      (
        l',
        rw (r, a) run,
        rw r (record {
          holder = woke.holder;
          level = woke.level;
          waits = woke.waits;
          waiters = rw e woke.waiters;
          asleep = λ j. ground (arith, woke.asleep j);
        }),
      )
]

release_loop-Woke :
    (ws : List ℕ) (l : RwLock)
    → l.waiters ≡ ws
    → Sleepers l.asleep ws
    → (l' : RwLock) × (wake_loop ws false l ≡ some l') × Woke l l' (front_group l.waits_write ws)
unfolding wake_loop front_group thread_unblock
release_loop-Woke [] l e s = (
  l,
  refl,
  record { holder = refl; level = refl; waits = λ j. refl; waiters = refl; asleep = λ j. refl },
)
release_loop-Woke (t ∷ ts) l e (a, m, s) = elim (Bool-cases (l.waits_write t)) [
  | inl w ↦ (
    record l { waiters = ts; asleep = update l.asleep t false },
    rw (w, a),
    rw w (record {
      holder = refl;
      level = refl;
      waits = λ j. refl;
      waiters = rw e;
      asleep = λ j. ground arith;
    }),
  )
  | inr r ↦
      let l1 : RwLock = record l { waiters = ts; asleep = update l.asleep t false } in
      let (l', run, woke) = wake_loop-Woke ts l1 refl (Sleepers-update l.asleep t ts m s) in
      (
        l',
        rw (r, a) run,
        rw r (record {
          holder = woke.holder;
          level = woke.level;
          waits = woke.waits;
          waiters = rw e woke.waiters;
          asleep = λ j. ground (arith, woke.asleep j);
        }),
      )
]

-- If every waiter sleeps and is queued once, w_lock_release by the holder fails no ASSERT, frees the
-- lock, and takes from the queue and wakes either the one writer at its front, or all the readers before
-- its first writer. It changes no other thread and not the level.
pub w_lock_release-Woke :
    (t : ℕ) (l : RwLock)
    → l.w_holder ≡ some t
    → Sleepers l.asleep l.waiters
    → (l' : RwLock) × (w_lock_release t l ≡ some l')
      × Woke (record l { w_holder = none }) l' (front_group l.waits_write l.waiters)
unfolding w_lock_release
w_lock_release-Woke t l h s =
    let (l', run, woke) = release_loop-Woke l.waiters (record l { w_holder = none }) refl s in
    (l', released run, woke)
  where
    released :
        {l' : RwLock}
        → wake_loop l.waiters false (record l { w_holder = none }) ≡ some l'
        → w_lock_release t l ≡ some l'
    released run = rw (is_thread_of_eq t l.w_holder h) run

-- The only reader's release fails an ASSERT if the waiter at the front waits to read.
r_lock_release-none :
    (l : RwLock) (t : ℕ) (ts : List ℕ)
    → l.level ≡ 1
    → l.waiters ≡ t ∷ ts
    → l.waits_write t ≡ false
    → r_lock_release l ≡ none
unfolding r_lock_release wake_first
r_lock_release-none l t ts one ws w = elim (Bool-cases (is_null l.w_holder)) [
  | inl e ↦ rw (e, one, ws, w, e)
  | inr e ↦ rw e
]

r_lock_acquire-got :
    (t : ℕ) (l : RwLock)
    → l.w_holder ≡ none
    → l.level ≡ 0
    → r_lock_acquire t l ≡ some (record (wants_write l t false) { level = 1 }, got)
unfolding r_lock_acquire r_attempt
r_lock_acquire-got t l free zeros = rw (free, zeros)

-- Where a writer sleeps at the front and a reader right behind it, the holder's w_lock_release wakes the
-- writer and takes it from the queue. If the thread that released then takes the lock to read before the
-- writer runs, it gets it, and its r_lock_release fails an ASSERT.
pub r_lock_release-panics :
    (t w r : ℕ) (ts : List ℕ) (l : RwLock)
    → l.w_holder ≡ some t
    → l.level ≡ 0
    → l.waiters ≡ w ∷ r ∷ ts
    → Sleepers l.asleep l.waiters
    → l.waits_write w ≡ true
    → l.waits_write r ≡ false
    → (l1 l2 : RwLock) × (w_lock_release t l ≡ some l1)
      × (l1.asleep w ≡ false)
      × (r_lock_acquire t l1 ≡ some (l2, got))
      × (r_lock_release l2 ≡ none)
unfolding front_group
r_lock_release-panics t w r ts l h zeros ws s hw hr =
    let (l1, run, woke0) = w_lock_release-Woke t l h s in
    let group : front_group l.waits_write l.waiters ≡ w ∷ [] = rw (ws, hw) in
    let woke : Woke (record l { w_holder = none }) l1 (w ∷ []) =
      subst (λ g. Woke (record l { w_holder = none }) l1 g) group woke0 in
    (
      l1,
      record (wants_write l1 t false) { level = 1 },
      run,
      woke.asleep w ∙ rw (==-refl w),
      r_lock_acquire-got t l1 woke.holder (woke.level ∙ zeros),
      r_lock_release-none _ r ts refl (woke.waiters ∙ ap (drop 1) ws) (reads woke),
    )
  where
    reads :
        {l1 : RwLock}
        → Woke (record l { w_holder = none }) l1 (w ∷ [])
        → update l1.waits_write t false r ≡ false
    reads {l1} woke = elim (Bool-cases (r == t)) [ inl e ↦ rw e | inr e ↦ rw e (woke.waits r ∙ hr) ]

-- ===== src/RwLock/Effect.antt =====
-- What each call of gio_synch.c does to the holder and the level of a lock.
use mathlib.Core.Path.{subst}
use cs140_operating_systems.Base.{
  ℕ, zero, suc, ◌+◌, ◌%◌, ◌^◌, ◌≡◌, refl, ap, ◌∙◌, Bool, true, false, Option, none, some, List, [],
  ◌∷◌, ==_iff, inl, inr, Bool-cases, arith, ◌>>=◌, >>=-eq-some, assert, ◌>>◌,
}
use cs140_operating_systems.RwLock.{
  RwLock, wake_first, wake_loop, thread_unblock, is_null, is_taken, is_thread,
}
use cs140_operating_systems.RwLock.System.{Pc, idle, reading, writing}

-- Neither reading nor writing.
abbrev pub outside : Pc → Bool
outside reading = false
outside writing = false
outside _ = true

-- What a call of thread t does to the holder and the level.
pub data Effect (t : ℕ) (p : Pc) (l l' : RwLock) : Pc → Type 0 where
  stays :
      {p' : Pc}
      → outside p ≡ true
      → outside p' ≡ true
      → l'.w_holder ≡ l.w_holder
      → l'.level ≡ l.level
      → Effect t p l l' p'
  enters_read :
      outside p ≡ true
      → l.w_holder ≡ none
      → l'.w_holder ≡ none
      → l'.level ≡ (l.level + 1) % 2 ^ 16
      → Effect t p l l' reading
  leaves_read :
      {p' : Pc}
      → p ≡ reading
      → outside p' ≡ true
      → l'.w_holder ≡ l.w_holder
      → l'.level + 1 ≡ l.level
      → Effect t p l l' p'
  enters_write :
      outside p ≡ true
      → l.w_holder ≡ none
      → l.level ≡ 0
      → l'.w_holder ≡ some t
      → l'.level ≡ 0
      → Effect t p l l' writing
  upgrades :
      p ≡ reading
      → l.w_holder ≡ none
      → l.level ≡ 1
      → l'.w_holder ≡ some t
      → l'.level ≡ 0
      → Effect t p l l' writing
  leaves_write :
      p ≡ writing
      → l.w_holder ≡ some t
      → l'.w_holder ≡ none
      → l'.level ≡ l.level
      → Effect t p l l' idle

-- Waking threads leaves the holder and the level alone.
pub record Same (l l' : RwLock) : Type 0 where
  pub holder : l'.w_holder ≡ l.w_holder
  pub level : l'.level ≡ l.level

thread_unblock-Same : (l : RwLock) (t : ℕ) {l' : RwLock} → thread_unblock l t ≡ some l' → Same l l'
unfolding thread_unblock
thread_unblock-Same l t h = ground arith

pub wake_first-Same :
    (l : RwLock) (n : ℕ) (ws : List ℕ) {l' : RwLock} → wake_first l n ws ≡ some l' → Same l l'
unfolding wake_first thread_unblock
wake_first-Same l zero [] h = ground arith
wake_first-Same l zero (t ∷ ts) h = ground arith
wake_first-Same l (suc n) ws h = ground arith

pub wake_loop-Same :
    (ws : List ℕ) (did_one : Bool) (l : RwLock) {l' : RwLock}
    → wake_loop ws did_one l ≡ some l'
    → Same l l'
unfolding wake_loop
wake_loop-Same [] did_one l h = ground arith
wake_loop-Same (t ∷ ts) did_one l {l'} h = elim (Bool-cases (l.waits_write t)) [
  | inl w ↦ elim (Bool-cases did_one) [
    | inl d ↦ ground arith
    | inr d ↦
        let run : thread_unblock (record l { waiters = ts }) t ≡ some l' = ground arith in
        let s = thread_unblock-Same (record l { waiters = ts }) t run in
        record { holder = s.holder; level = s.level }
  ]
  | inr r ↦
      let run : (thread_unblock (record l { waiters = ts }) t >>= wake_loop ts true) ≡ some l' =
        rw r at h in
      let (l1, one, rest) =
        >>=-eq-some (thread_unblock (record l { waiters = ts }) t) (wake_loop ts true) run in
      let s = thread_unblock-Same (record l { waiters = ts }) t one in
      let s' = wake_loop-Same ts true l1 rest in
      record { holder = s'.holder ∙ s.holder; level = s'.level ∙ s.level }
]

pub of_some :
    {t : ℕ} {p : Pc} {l : RwLock} {x y : RwLock × Pc}
    → some x ≡ some y
    → Effect t p l x.0 x.1
    → Effect t p l y.0 y.1
of_some {t} {p} {l} {x} {y} e h =
    let same : x ≡ y = cc in subst (λ (z : RwLock × Pc). Effect t p l z.0 z.1) same h

pub assert_bind :
    (b : Bool) {A B : Type 0} (m : Option A) (f : A → Option B) {x : B}
    → ((assert b >> m) >>= f) ≡ some x
    → (b ≡ true) × ((m >>= f) ≡ some x)
assert_bind true m f h = (refl, h)
assert_bind false m f h = absurd (cc)

pub assert-some :
    (b : Bool) {A : Type 0} (m : Option A) {x : A}
    → (assert b >> m) ≡ some x
    → (b ≡ true) × (m ≡ some x)
assert-some true m h = (refl, h)
assert-some false m h = absurd (cc)

pub none_of_null : (o : Option ℕ) → is_null o ≡ true → o ≡ none
none_of_null none h = refl
none_of_null (some x) h = absurd (cc)

pub free_of_taken : (l : RwLock) → is_taken l ≡ false → (l.w_holder ≡ none) × (l.level ≡ 0)
free_of_taken l h = elim (Bool-cases (is_null l.w_holder)) [
  | inl e ↦ (none_of_null l.w_holder e, ground arith)
  | inr e ↦ let taken : true ≡ false = rw e at h in absurd (cc)
]

pub eq_of_is_thread : (t : ℕ) (o : Option ℕ) → is_thread t o ≡ true → o ≡ some t
eq_of_is_thread t none h = absurd (cc)
eq_of_is_thread t (some x) h = ap some ((==_iff x t).0 h)

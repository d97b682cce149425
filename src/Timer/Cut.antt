-- ===== src/Timer/Cut.antt =====
-- Project 1: Threads/src/devices/timer.c: the list of sleeping threads before and after wake_up_threads.
use mathlib.Core.Path.{subst}
use cs140_operating_systems.Base.{
  ℕ, suc, ◌≡◌, refl, sym, inl, inr, true, false, List, [], ◌∷◌, ◌==◌, ==_iff, Bool-cases, pos, ◌≤ℤ◌,
}
use cs140_operating_systems.Thread.{Kernel, has}
use cs140_operating_systems.Synch.Wake.{Asleep}
use cs140_operating_systems.Timer.{SleepingThread}
use cs140_operating_systems.Timer.Sorted.{threads_of, NotBefore, IsSorted}

-- No thread sleeps twice.
pub data Distinct : List SleepingThread → Type 0 where
  nil : Distinct []
  cons :
      (x : SleepingThread) (xs : List SleepingThread)
      → has x.thread (threads_of xs) ≡ false
      → Distinct xs
      → Distinct (x ∷ xs)

-- The list is cut into the threads that are due and the others.
pub data Cut (now : ℕ) : List SleepingThread → List ℕ → List SleepingThread → Type 0 where
  rest : (xs : List SleepingThread) → NotBefore (pos (suc now)) xs → Cut now xs [] xs
  due :
      (x : SleepingThread) (xs : List SleepingThread) (ts : List ℕ) (ys : List SleepingThread)
      → x.wake_up_time ≤ℤ pos now
      → Cut now xs ts ys
      → Cut now (x ∷ xs) (x.thread ∷ ts) ys

module _ (now : ℕ) where
  Cut-has :
      (xs : List SleepingThread) (ts : List ℕ) (ys : List SleepingThread) (w : ℕ)
      → Cut now xs ts ys
      → has w (threads_of ys) ≡ true
      → has w (threads_of xs) ≡ true
  Cut-has _ _ _ w (rest xs n) h = h
  Cut-has _ _ _ w (due x xs ts ys l c) h = elim (Bool-cases (x.thread == w)) [
    | inl e ↦ rw e
    | inr e ↦ rw e (Cut-has xs ts ys w c h)
  ]

  pub Cut-apart :
      (xs : List SleepingThread) (ts : List ℕ) (ys : List SleepingThread) (w : ℕ)
      → Cut now xs ts ys
      → Distinct xs
      → has w (threads_of ys) ≡ true
      → has w ts ≡ false
  Cut-apart _ _ _ w (rest xs n) d h = refl
  Cut-apart _ _ _ w (due x xs ts ys l c) (Distinct.cons _ _ n d) h =
      elim (Bool-cases (x.thread == w)) [
        | inl e ↦
            let here : w ≡ x.thread = sym ((==_iff x.thread w).0 e) in
            let j : has x.thread (threads_of xs) ≡ true =
              subst (λ v. has v (threads_of xs) ≡ true) here (Cut-has xs ts ys w c h) in
            absurd (cc)
        | inr e ↦ rw e (Cut-apart xs ts ys w c d h)
      ]

  pub Cut-IsSorted :
      (xs : List SleepingThread) (ts : List ℕ) (ys : List SleepingThread)
      → Cut now xs ts ys
      → IsSorted xs
      → IsSorted ys
  Cut-IsSorted _ _ _ (rest xs n) s = s
  Cut-IsSorted _ _ _ (due x xs ts ys l c) (IsSorted.cons _ _ n s) = Cut-IsSorted xs ts ys c s

  pub Cut-Distinct :
      (xs : List SleepingThread) (ts : List ℕ) (ys : List SleepingThread)
      → Cut now xs ts ys
      → Distinct xs
      → Distinct ys
  Cut-Distinct _ _ _ (rest xs n) d = d
  Cut-Distinct _ _ _ (due x xs ts ys l c) (Distinct.cons _ _ n d) = Cut-Distinct xs ts ys c d

  pub Cut-Asleep :
      (k : Kernel) (xs : List SleepingThread) (ts : List ℕ) (ys : List SleepingThread)
      → Cut now xs ts ys
      → Asleep k (threads_of xs)
      → Asleep k (threads_of ys)
  Cut-Asleep k xs ts ys c a = record {
    live = λ w h. a.live w (Cut-has xs ts ys w c h);
    blocked = λ w h. a.blocked w (Cut-has xs ts ys w c h);
    no_idle = λ w h. a.no_idle w (Cut-has xs ts ys w c h);
  }

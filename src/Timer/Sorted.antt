-- ===== src/Timer/Sorted.antt =====
-- Project 1: Threads/src/devices/timer.c: the list of sleeping threads is sorted by the time they wake.
use cs140_operating_systems.Base.{
  ℕ, inl, inr, List, [], ◌∷◌, map, arith, Bool-cases, ℤ, ◌≤ℤ◌, ltb_ℤ,
}
use cs140_operating_systems.Timer.{SleepingThread, list_insert_ordered}

abbrev pub threads_of : List SleepingThread → List ℕ
threads_of xs = map (λ x. x.thread) xs

-- None of the list wakes before time z.
pub data NotBefore (z : ℤ) : List SleepingThread → Type 0 where
  nil : NotBefore z []
  cons :
      (x : SleepingThread) (xs : List SleepingThread)
      → z ≤ℤ x.wake_up_time
      → NotBefore z xs
      → NotBefore z (x ∷ xs)

pub data IsSorted : List SleepingThread → Type 0 where
  nil : IsSorted []
  cons :
      (x : SleepingThread) (xs : List SleepingThread)
      → NotBefore x.wake_up_time xs
      → IsSorted xs
      → IsSorted (x ∷ xs)

pub NotBefore-trans :
    (a b : ℤ) (xs : List SleepingThread) → a ≤ℤ b → NotBefore b xs → NotBefore a xs
NotBefore-trans a b _ l NotBefore.nil = NotBefore.nil
NotBefore-trans a b _ l (NotBefore.cons x xs m n) =
    NotBefore.cons x xs (omega arith) (NotBefore-trans a b xs l n)

insert-NotBefore :
    (z : ℤ) (x : SleepingThread) (xs : List SleepingThread)
    → z ≤ℤ x.wake_up_time
    → NotBefore z xs
    → NotBefore z (list_insert_ordered x xs)
unfolding list_insert_ordered
insert-NotBefore z x _ l NotBefore.nil = NotBefore.cons x [] l NotBefore.nil
insert-NotBefore z x _ l (NotBefore.cons y ys m n) =
    elim (Bool-cases (ltb_ℤ x.wake_up_time y.wake_up_time)) [
      | inl e ↦ rw e (NotBefore.cons x (y ∷ ys) l (NotBefore.cons y ys m n))
      | inr e ↦ rw e (NotBefore.cons y (list_insert_ordered x ys) m (insert-NotBefore z x ys l n))
    ]

pub list_insert_ordered-IsSorted :
    (x : SleepingThread) (xs : List SleepingThread)
    → IsSorted xs
    → IsSorted (list_insert_ordered x xs)
unfolding list_insert_ordered
list_insert_ordered-IsSorted x _ IsSorted.nil = IsSorted.cons x [] NotBefore.nil IsSorted.nil
list_insert_ordered-IsSorted x _ (IsSorted.cons y ys n s) =
    elim (Bool-cases (ltb_ℤ x.wake_up_time y.wake_up_time)) [
      | inl e ↦
          let l : x.wake_up_time ≤ℤ y.wake_up_time = ground arith in
          rw e (
            IsSorted.cons x (y ∷ ys)
              (NotBefore.cons y ys l (NotBefore-trans x.wake_up_time y.wake_up_time ys l n))
              (IsSorted.cons y ys n s))
      | inr e ↦
          let l : y.wake_up_time ≤ℤ x.wake_up_time = ground arith in
          rw e (
            IsSorted.cons y (list_insert_ordered x ys) (insert-NotBefore y.wake_up_time x ys l n)
              (list_insert_ordered-IsSorted x ys s))
    ]

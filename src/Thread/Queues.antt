-- ===== src/Thread/Queues.antt =====
-- Project 1: Threads/src/threads/thread.c: what the array of queues holds, against a map that says in
-- which queue each thread should be.
pub use cs140_operating_systems.Base.{occurrences}
use cs140_operating_systems.Base.{
  ℕ, zero, suc, ◌+◌, ◌<◌, ◌≡◌, refl, ap, ◌≢◌, Bool, true, false, Option, none, some, List, [], ◌∷◌,
  ◌++◌, arith, update,
}
use mathlib.Core.Path.{subst}
use cs140_operating_systems.Thread.{points_to, has, erase, queue_of}

abbrev pub count : Bool → ℕ
count true = 1
count false = 0

-- Each thread is once in the queue of its slot and in no other.
abbrev pub IsFit : (ℕ → List ℕ) → (ℕ → Option ℕ) → Type 0
IsFit q slot = (t i : ℕ) → occurrences t (q i) ≡ count (points_to (slot t) i)

pub IsFit-ext :
    (q : ℕ → List ℕ) (slot slot' : ℕ → Option ℕ)
    → ((t : ℕ) → slot' t ≡ slot t)
    → IsFit q slot
    → IsFit q slot'
IsFit-ext q slot slot' e f t i = rw (e t, f t i)

occurrences-append :
    (t : ℕ) (xs ys : List ℕ) → occurrences t (xs ++ ys) ≡ occurrences t xs + occurrences t ys
occurrences-append t [] ys = omega arith
occurrences-append t (x ∷ xs) ys = ground (arith, occurrences-append t xs ys)

occurrences-erase_ne :
    (t u : ℕ) (xs : List ℕ) → u ≢ t → occurrences u (erase t xs) ≡ occurrences u xs
occurrences-erase_ne t u [] n = refl
occurrences-erase_ne t u (x ∷ xs) n = ground (arith, occurrences-erase_ne t u xs n)

occurrences-erase :
    (t : ℕ) (xs : List ℕ) → has t xs ≡ true → occurrences t xs ≡ suc (occurrences t (erase t xs))
occurrences-erase t [] h = cc
occurrences-erase t (x ∷ xs) h = ground (arith, occurrences-erase t xs)

has_iff : (t : ℕ) (xs : List ℕ) (n : ℕ) → occurrences t xs ≡ suc n → has t xs ≡ true
has_iff t [] n e = absurd (omega arith)
has_iff t (x ∷ xs) n e = ground (arith, has_iff t xs n)

has_not : (t : ℕ) (xs : List ℕ) → occurrences t xs ≡ 0 → has t xs ≡ false
has_not t [] e = refl
has_not t (x ∷ xs) e = ground (arith, has_not t xs)

slot_of_count : (t p n : ℕ) (s : Option ℕ) → suc n ≡ count (points_to s p) → s ≡ some p
slot_of_count t p n none e = absurd (omega arith)
slot_of_count t p n (some i) e = ground arith

module _ (q : ℕ → List ℕ) (slot : ℕ → Option ℕ) (f : IsFit q slot) where
  pub push-IsFit :
      (t p : ℕ) → slot t ≡ none → IsFit (update q p (q p ++ (t ∷ []))) (update slot t (some p))
  push-IsFit t p e u i = ground (arith, occurrences-append u (q p) (t ∷ []), f u i, f t i)

  pub queue_of_lem : (t p n : ℕ) → slot t ≡ some p → p < n → queue_of n t q ≡ some p
  queue_of_lem t p zero e h = absurd (omega arith)
  queue_of_lem t p (suc n) e h =
      ground (arith, f t n, has_iff t (q n) 0, has_not t (q n), queue_of_lem t p n e)

  pub erase-IsFit :
      (t p : ℕ) → slot t ≡ some p → IsFit (update q p (erase t (q p))) (update slot t none)
  erase-IsFit t p e u i = ground (
    arith,
    f u i,
    f t p,
    has_iff t (q p) 0,
    occurrences-erase t (q p),
    occurrences-erase_ne t u (q p),
  )

  -- A thread in a queue has it as its slot.
  pub slot_of_first : (t p : ℕ) (ts : List ℕ) → q p ≡ t ∷ ts → slot t ≡ some p
  slot_of_first t p ts e =
      let at : occurrences t (t ∷ ts) ≡ count (points_to (slot t) p) =
        subst (λ xs. occurrences t xs ≡ count (points_to (slot t) p)) e (f t p) in
      slot_of_count t p (occurrences t ts) (slot t) (ground arith)

  pub pop-IsFit :
      (t p : ℕ) (ts : List ℕ) → q p ≡ t ∷ ts → IsFit (update q p ts) (update slot t none)
  pop-IsFit t p ts e u i =
      let own : slot t ≡ some p = slot_of_first t p ts e in
      let head : occurrences u (q p) ≡ occurrences u (t ∷ ts) = ap (occurrences u) e in
      ground (arith, f u i, f t i, f u p)

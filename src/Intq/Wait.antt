-- ===== src/Intq/Wait.antt =====
-- Project 4: File System/src/devices/intq.c: two readers of one queue.
use cs140_operating_systems.Base.{ℕ, ◌≡◌, refl, Bool, true, false, none, some, arith}
use cs140_operating_systems.Intq.{
  Intq, Attempt, can_wake, holds_none, holds_all, intq_empty, intq_full, intq_getc, intq_putc,
  wait_not_empty,
}
use cs140_operating_systems.Intq.Fifo.{IsIntq, with_byte, put_byte_run, without_byte, take_byte_run}

putc_run :
    (blocked : ℕ → Bool) (q : Intq) (i : IsIntq q) (context : Bool) (byte : ℕ)
    → can_wake blocked q.not_empty ≡ true
    → holds_all q ≡ false
    → intq_putc blocked true context q byte
      ≡ some (with_byte blocked q i byte, Attempt.passed byte q.not_empty)
unfolding intq_putc intq_full
putc_run blocked q i context byte w f = rw f (put_byte_run blocked q i byte w f)

getc_run :
    (blocked : ℕ → Bool) (q : Intq) (i : IsIntq q) (context : Bool)
    → can_wake blocked q.not_full ≡ true
    → holds_none q ≡ false
    → intq_getc blocked true context q
      ≡ some (without_byte blocked q i, Attempt.passed (q.buf q.tail) q.not_full)
unfolding intq_getc intq_empty
getc_run blocked q i context w f = rw f (take_byte_run blocked q i w f)

wait_run : (q : Intq) (t : ℕ) → holds_none q ≡ false → wait_not_empty true false t q ≡ none
unfolding wait_not_empty intq_empty
wait_run q t f = rw f refl

-- With interrupts off: a blocked thread waits for a byte on an empty queue, and holds the lock of the
-- queue; who waits for room, if anyone, is blocked when it is woken. Two bytes put in by handlers wake
-- the first thread once, and it reads a byte. A second reader that found the queue empty before, and
-- gets the lock only then, fails the ASSERT of wait.
pub wait_not_empty-panics :
    (blocked later : ℕ → Bool) (q : Intq) (a b x y : ℕ)
    → IsIntq q
    → holds_none q ≡ true
    → q.not_empty ≡ some a
    → blocked a ≡ true
    → can_wake later q.not_full ≡ true
    → (q1 q2 q3 : Intq) × (byte : ℕ) × (intq_putc blocked true true q x
        ≡ some (q1, Attempt.passed x (some a)))
      × (intq_putc later true true q1 y ≡ some (q2, Attempt.passed y none))
      × (intq_getc later true false q2 ≡ some (q3, Attempt.passed byte q.not_full))
      × (wait_not_empty true false b q3 ≡ none)
wait_not_empty-panics blocked later q a b x y i e w wb wf =
    let q1 : Intq = with_byte blocked q i x in
    let i1 : IsIntq q1 = record { head = omega arith; tail = i.tail } in
    let q2 : Intq = with_byte later q1 i1 y in
    let i2 : IsIntq q2 = record { head = omega arith; tail = i.tail } in
    let q3 : Intq = without_byte later q2 i2 in
    let wakes : can_wake blocked q.not_empty ≡ true = rw w wb in
    (
      q1,
      q2,
      q3,
      q2.buf q2.tail,
      rw⁻¹ w (putc_run blocked q i true x wakes (ground (arith, i.head, i.tail))),
      putc_run later q1 i1 true y refl (ground (arith, i.head, i.tail)),
      getc_run later q2 i2 false wf (ground (arith, i.head, i.tail)),
      wait_run q3 b (ground (arith, i.head, i.tail)),
    )

-- ===== src/Intq/Fifo.antt =====
-- Project 4: File System/src/devices/intq.c: the bytes of a queue, first in, first out.
use cs140_operating_systems.Base.{
  ℕ, zero, suc, ◌+◌, ◌-◌, ◌%◌, ◌<◌, ◌≡◌, refl, ap, inl, inr, Bool, true, false, Option, none, some,
  List, [], ◌∷◌, ◌++◌, length, arith, ◌==◌, if◌then◌else◌, Bool-cases, update, update_self,
  update_ne,
}
use cs140_operating_systems.Intq.{
  Intq, Attempt, can_wake, next, holds_none, holds_all, intq_empty, intq_full, signal_not_full,
  signal_not_empty, take_byte, put_byte, sleep_first, intq_getc, intq_putc,
}

-- n bytes from position pos on.
abbrev pub bytes_from : ℕ → (ℕ → ℕ) → ℕ → List ℕ
bytes_from zero buf pos = []
bytes_from (suc n) buf pos = buf pos ∷ bytes_from n buf (next pos)

abbrev pub count : Intq → ℕ
count q = (q.head + 64 - q.tail) % 64

-- The bytes in the queue, the oldest first.
abbrev pub contents : Intq → List ℕ
contents q = bytes_from (count q) q.buf q.tail

pub record IsIntq (q : Intq) : Type 0 where
  pub head : q.head < 64
  pub tail : q.tail < 64

-- A byte at the place behind the last.
bytes_from-update :
    (n : ℕ) (buf : ℕ → ℕ) (pos head byte : ℕ)
    → n < 64
    → pos < 64
    → head ≡ (pos + n) % 64
    → bytes_from (suc n) (update buf head byte) pos ≡ bytes_from n buf pos ++ (byte ∷ [])
bytes_from-update zero buf pos head byte l p e =
    let here : pos ≡ head = omega arith in rw (here, update_self buf head byte) refl
bytes_from-update (suc n) buf pos head byte l p e =
    let other : update buf head byte pos ≡ buf pos =
      update_ne buf head byte pos (λ same. omega (arith, same)) in
    rw
      (
        other,
        bytes_from-update n buf (next pos) head byte (omega arith) (omega arith) (omega arith),
      )
      refl

length-bytes_from : (n : ℕ) (buf : ℕ → ℕ) (pos : ℕ) → length (bytes_from n buf pos) ≡ n
length-bytes_from zero buf pos = refl
length-bytes_from (suc n) buf pos = ap suc (length-bytes_from n buf (next pos))

-- What an attempt to add a byte ends with: there were 63 bytes, or the byte is behind the others.
pub data Put (q : Intq) (context : Bool) (byte : ℕ) : Option (Intq × Attempt) → Type 0 where
  full :
      length (contents q) ≡ 63
      → Put q context byte (if context then none else some (q, Attempt.must_wait))
  put :
      (q' : Intq)
      → length (contents q) < 63
      → IsIntq q'
      → contents q' ≡ contents q ++ (byte ∷ [])
      → (q'.not_empty ≡ none) × (q'.not_full ≡ q.not_full)
      → Put q context byte (some (q', Attempt.passed byte q.not_empty))

-- What an attempt to read ends with: there was no byte, or the oldest is gone.
pub data Got (q : Intq) (context : Bool) : Option (Intq × Attempt) → Type 0 where
  empty : contents q ≡ [] → Got q context (if context then none else some (q, Attempt.must_wait))
  got :
      (q' : Intq) (byte : ℕ)
      → contents q ≡ byte ∷ contents q'
      → IsIntq q'
      → (q'.not_full ≡ none) × (q'.not_empty ≡ q.not_empty)
      → Got q context (some (q', Attempt.passed byte q.not_full))

waits :
    (context : Bool) (q : Intq)
    → sleep_first context q ≡ (if context then none else some (q, Attempt.must_wait))
unfolding sleep_first
waits true q = refl
waits false q = refl

module _ (blocked : ℕ → Bool) (q : Intq) (i : IsIntq q) where
  abbrev pub with_byte : ℕ → Intq
  with_byte byte = record q { buf = update q.buf q.head byte; head = next q.head; not_empty = none }

  with_byte-contents :
      (byte : ℕ) → holds_all q ≡ false → contents (with_byte byte) ≡ contents q ++ (byte ∷ [])
  with_byte-contents byte f =
      let more : count (with_byte byte) ≡ suc (count q) = ground (arith, i.head, i.tail) in
      rw
        (
          more,
          bytes_from-update (count q) q.buf q.tail q.head byte (omega arith) i.tail
              (omega (arith, i.head, i.tail)),
        )
        refl

  pub put_byte_run :
      (byte : ℕ)
      → can_wake blocked q.not_empty ≡ true
      → holds_all q ≡ false
      → put_byte blocked true q byte ≡ some (with_byte byte, Attempt.passed byte q.not_empty)
  unfolding put_byte signal_not_empty intq_empty
  put_byte_run byte w f = let more : (next q.head == q.tail) ≡ false = f in rw (more, w) refl

  -- With interrupts off, both positions below 64 and who waits for a byte, if anyone, a blocked thread:
  -- an attempt of intq_putc fails no ASSERT, but when a handler makes it on a full queue. With 63 bytes
  -- in the queue a thread has to wait and nothing changes. With fewer, the byte is behind all others
  -- then, the positions are below 64 again, and the thread that waited for a byte is the one woken, and
  -- waits no more.
  pub intq_putc-Put :
      (context : Bool) (byte : ℕ)
      → can_wake blocked q.not_empty ≡ true
      → Put q context byte (intq_putc blocked true context q byte)
  unfolding intq_putc intq_full
  intq_putc-Put context byte w = elim (Bool-cases (holds_all q)) [
    | inl f ↦
        rw (f, waits context q)
          (Put.full
            (let n = length-bytes_from (count q) q.buf q.tail in ground (arith, i.head, i.tail)))
    | inr f ↦
        rw (f, put_byte_run byte w f)
          (Put.put (with_byte byte)
            (let n = length-bytes_from (count q) q.buf q.tail in ground (arith, i.head, i.tail))
            (record { head = omega arith; tail = i.tail }) (with_byte-contents byte f) (refl, refl))
  ]

  abbrev pub without_byte : Intq
  without_byte = record q { tail = next q.tail; not_full = none }

  without_byte-contents : holds_none q ≡ false → contents q ≡ q.buf q.tail ∷ contents without_byte
  without_byte-contents f =
      let more : count q ≡ suc (count without_byte) = ground (arith, i.head, i.tail) in rw more refl

  pub take_byte_run :
      can_wake blocked q.not_full ≡ true
      → holds_none q ≡ false
      → take_byte blocked true q ≡ some (without_byte, Attempt.passed (q.buf q.tail) q.not_full)
  unfolding take_byte signal_not_full intq_full
  take_byte_run w f =
      let room : (next q.head == next q.tail) ≡ false = ground (arith, i.head, i.tail) in
      rw (room, w) refl

  -- With interrupts off, both positions below 64 and who waits for room, if anyone, a blocked thread: an
  -- attempt of intq_getc fails no ASSERT, but when a handler makes it on an empty queue. With no byte in
  -- the queue a thread has to wait and nothing changes. Else it returns the oldest byte and leaves the
  -- others in order, the positions are below 64 again, and the thread that waited for room is the one
  -- woken, and waits no more.
  pub intq_getc-Got :
      (context : Bool)
      → can_wake blocked q.not_full ≡ true
      → Got q context (intq_getc blocked true context q)
  unfolding intq_getc intq_empty
  intq_getc-Got context w = elim (Bool-cases (holds_none q)) [
    | inl f ↦
        rw (f, waits context q)
          (Got.empty (let n : count q ≡ 0 = ground (arith, i.head, i.tail) in rw n refl))
    | inr f ↦
        rw (f, take_byte_run w f)
          (Got.got without_byte (q.buf q.tail) (without_byte-contents f)
            (record { head = i.head; tail = omega arith }) (refl, refl))
  ]

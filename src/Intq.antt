-- ===== src/Intq.antt =====
-- Project 4: File System/src/devices/intq.c: queues of bytes between interrupt handlers and threads. That
-- interrupts are off, that a handler runs, and which addresses are those of blocked threads, are arguments. A call that has to sleep is cut: an attempt
-- finds that it must wait, and the thread then acquires the lock, waits, releases it and tries again.
pub mod Fifo
pub mod Wait
use cs140_operating_systems.Base.{
  ℕ, ◌+◌, ◌%◌, Bool, true, false, not, Option, none, some, ◌==◌, if◌then◌else◌, update, ◌>>=◌, ◌>>◌,
  assert,
}

abbrev pub intq_bufsize : ℕ
intq_bufsize = 64

-- The lock is taken before a wait and released after it, by the functions of synch.c.
pub record Intq : Type 0 where
  pub not_full : Option ℕ
  pub not_empty : Option ℕ
  pub buf : ℕ → ℕ
  pub head : ℕ
  pub tail : ℕ

-- The byte read or written and the thread woken, or that the caller has to wait.
pub data Attempt : Type 0 where
  must_wait : Attempt
  passed : ℕ → Option ℕ → Attempt

abbrev pub next : ℕ → ℕ
next pos = (pos + 1) % intq_bufsize

unfoldable pub intq_init : (ℕ → ℕ) → Intq
intq_init buf = record { not_full = none; not_empty = none; buf = buf; head = 0; tail = 0 }

abbrev pub holds_none : Intq → Bool
holds_none q = q.head == q.tail

abbrev pub holds_all : Intq → Bool
holds_all q = next q.head == q.tail

unfoldable pub intq_empty : Bool → Intq → Option Bool
intq_empty off q = do assert off; some (holds_none q)

unfoldable pub intq_full : Bool → Intq → Option Bool
intq_full off q = do assert off; some (holds_all q)

-- The assertions of thread_unblock on the waiter, if there is one: it is a thread, and blocked.
abbrev pub can_wake : (ℕ → Bool) → Option ℕ → Bool
can_wake blocked none = true
can_wake blocked (some t) = blocked t

-- signal (q, &q->not_full), with the thread that it wakes.
unfoldable pub signal_not_full : (ℕ → Bool) → Bool → Intq → Option (Intq × Option ℕ)
signal_not_full blocked off q = do
  full ← intq_full off q
  assert (not full)
  assert (can_wake blocked q.not_full)
  some (record q { not_full = none }, q.not_full)

unfoldable pub signal_not_empty : (ℕ → Bool) → Bool → Intq → Option (Intq × Option ℕ)
signal_not_empty blocked off q = do
  empty ← intq_empty off q
  assert (not empty)
  assert (can_wake blocked q.not_empty)
  some (record q { not_empty = none }, q.not_empty)

-- wait (q, &q->not_full) by thread t, up to thread_block.
unfoldable pub wait_not_full : Bool → Bool → ℕ → Intq → Option Intq
wait_not_full off context t q = do
  assert (not context)
  full ← intq_full off q
  assert full
  some (record q { not_full = some t })

unfoldable pub wait_not_empty : Bool → Bool → ℕ → Intq → Option Intq
wait_not_empty off context t q = do
  assert (not context)
  empty ← intq_empty off q
  assert empty
  some (record q { not_empty = some t })

-- What intq_getc does once the queue is not empty.
unfoldable pub take_byte : (ℕ → Bool) → Bool → Intq → Option (Intq × Attempt)
take_byte blocked off q = do
  (q', woken) ← signal_not_full blocked off (record q { tail = next q.tail })
  some (q', Attempt.passed (q.buf q.tail) woken)

unfoldable pub put_byte : (ℕ → Bool) → Bool → Intq → ℕ → Option (Intq × Attempt)
put_byte blocked off q byte = do
  (q', woken) ←
      signal_not_empty blocked off (record q { buf = update q.buf q.head byte; head = next q.head })
  some (q', Attempt.passed byte woken)

-- A wait is for threads only.
unfoldable pub sleep_first : Bool → Intq → Option (Intq × Attempt)
sleep_first context q = do assert (not context); some (q, Attempt.must_wait)

unfoldable pub intq_getc : (ℕ → Bool) → Bool → Bool → Intq → Option (Intq × Attempt)
intq_getc blocked off context q = do
  empty ← intq_empty off q
  if empty then sleep_first context q else take_byte blocked off q

unfoldable pub intq_putc : (ℕ → Bool) → Bool → Bool → Intq → ℕ → Option (Intq × Attempt)
intq_putc blocked off context q byte = do
  full ← intq_full off q
  if full then sleep_first context q else put_byte blocked off q byte

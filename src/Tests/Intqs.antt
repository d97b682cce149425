-- ===== src/Tests/Intqs.antt =====
-- Queues of bytes: one with two bytes at the end of the buffer, and one that thread 3 waits for.
use cs140_operating_systems.Base.{
  ◌==◌, if◌then◌else◌, Bool, ℕ, ◌≡◌, refl, true, false, none, some, arith,
}
use cs140_operating_systems.Intq.{Intq, Attempt, intq_getc, intq_putc, wait_not_empty}
use cs140_operating_systems.Intq.Fifo.{IsIntq, Put, Got, intq_putc-Put, intq_getc-Got}
use cs140_operating_systems.Intq.Wait.{wait_not_empty-panics}

abbrev two_bytes : Intq
two_bytes = record { not_full = some 5; not_empty = none; buf = λ i. i; head = 1; tail = 63 }

two_bytes-IsIntq : IsIntq two_bytes
two_bytes-IsIntq = record { head = omega arith; tail = omega arith }

abbrev waited : Intq
waited = record { not_full = none; not_empty = some 3; buf = λ i. 0; head = 63; tail = 63 }

waited-IsIntq : IsIntq waited
waited-IsIntq = record { head = omega arith; tail = omega arith }

-- Threads 3 and 5 are blocked.
abbrev blocked : ℕ → Bool
blocked t = if t == 3 then true else t == 5

intq_putc-Put_example : Put two_bytes true 9 (intq_putc blocked true true two_bytes 9)
intq_putc-Put_example = intq_putc-Put blocked two_bytes two_bytes-IsIntq true 9 refl

intq_getc-Got_example : Got two_bytes false (intq_getc blocked true false two_bytes)
intq_getc-Got_example = intq_getc-Got blocked two_bytes two_bytes-IsIntq false refl

wait_not_empty-panics_example :
    (q1 q2 q3 : Intq) × (byte : ℕ) × (intq_putc blocked true true waited 65
      ≡ some (q1, Attempt.passed 65 (some 3)))
    × (intq_putc blocked true true q1 66 ≡ some (q2, Attempt.passed 66 none))
    × (intq_getc blocked true false q2 ≡ some (q3, Attempt.passed byte none))
    × (wait_not_empty true false 4 q3 ≡ none)
wait_not_empty-panics_example =
    wait_not_empty-panics blocked blocked waited 3 4 65 66 waited-IsIntq refl refl refl refl

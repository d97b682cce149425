-- ===== src/RwLock/Exclusion.antt =====
-- No reachable state of threads that use a lock of gio_synch.c has a writer beside another thread in
-- its critical section, and the level counts the readers.
use mathlib.Core.Path.{subst}
use cs140_operating_systems.Base.{
  ℕ, zero, suc, ◌+◌, ◌^◌, ◌≤◌, ◌<◌, ◌≡◌, ◌≢◌, refl, sym, ap, ◌∙◌, Bool, true, false, none, some,
  ◌==◌, ==_iff, inl, inr, Bool-cases, arith, update, ==-refl, ==-eq_false,
}
use cs140_operating_systems.RwLock.{RwLock, rw_lock_init}
use cs140_operating_systems.RwLock.System.{
  Pc, idle, reading, writing, in_read, in_upgrade, in_write, System, step, Reach, start, next,
}
use cs140_operating_systems.RwLock.Effect.{
  outside, Effect, stays, enters_read, leaves_read, enters_write, upgrades, leaves_write,
}
use cs140_operating_systems.RwLock.Calls.{perform-Effect}

abbrev is_reading : Pc → ℕ
is_reading reading = 1
is_reading _ = 0

is_reading-le : (p : Pc) → is_reading p ≤ 1
is_reading-le reading = omega arith
is_reading-le _ = omega arith

-- How many of the first n threads read.
pub readers : ℕ → (ℕ → Pc) → ℕ
readers zero pc = 0
readers (suc n) pc = readers n pc + is_reading (pc n)

-- What holds while fewer than 2 ^ 16 threads use the lock.
pub record Inv (n : ℕ) (s : System) : Type 0 where
  pub counted : s.lock.level ≡ readers n s.pc
  pub held : (t : ℕ) → s.lock.w_holder ≡ some t → s.pc t ≡ writing
  pub writes : (t : ℕ) → s.pc t ≡ writing → s.lock.w_holder ≡ some t
  pub alone : s.lock.w_holder ≢ none → s.lock.level ≡ 0

readers-update_of_le :
    (n : ℕ) (pc : ℕ → Pc) (i : ℕ) (p : Pc) → n ≤ i → readers n (update pc i p) ≡ readers n pc
unfolding readers
readers-update_of_le zero pc i p h = refl
readers-update_of_le (suc n) pc i p h =
    let ne : (n == i) ≡ false = ground arith in
    rw ne (ap (λ k. k + is_reading (pc n)) (readers-update_of_le n pc i p (omega arith)))

readers-update :
    (n : ℕ) (pc : ℕ → Pc) (i : ℕ) (p : Pc)
    → i < n
    → readers n (update pc i p) + is_reading (pc i) ≡ readers n pc + is_reading p
unfolding readers
readers-update zero pc i p h = elim h [ ]
readers-update (suc n) pc i p h = elim (Bool-cases (n == i)) [
  | inl e ↦
      let ni : n ≡ i = (==_iff n i).0 e in
      let below = readers-update_of_le n pc i p (omega arith) in
      let here : is_reading (pc n) ≡ is_reading (pc i) = ap (λ k. is_reading (pc k)) ni in
      rw e (omega (arith, below, here))
  | inr ne ↦ let below = readers-update n pc i p (ground arith) in rw ne (omega (arith, below))
]

readers-le : (n : ℕ) (pc : ℕ → Pc) → readers n pc ≤ n
unfolding readers
readers-le zero pc = omega arith
readers-le (suc n) pc = omega (arith, readers-le n pc, is_reading-le (pc n))

module _ (n : ℕ) (s : System) (t : ℕ) (few : n < 2 ^ 16) (lt : t < n) (inv : Inv n s) where
  -- The readers after thread t moved.
  moved-counted :
      (l' : RwLock) (p' : Pc)
      → l'.level + is_reading (s.pc t) ≡ s.lock.level + is_reading p'
      → l'.level ≡ readers n (update s.pc t p')
  moved-counted l' p' e =
      omega (
        arith,
        readers-update n s.pc t p' lt,
        inv.counted,
        is_reading-le (s.pc t),
        is_reading-le p',
      )

  -- The holder stays, and the thread neither was nor is the writer.
  kept-Inv :
      (l' : RwLock) (p' : Pc)
      → s.pc t ≢ writing
      → p' ≢ writing
      → l'.w_holder ≡ s.lock.w_holder
      → l'.level + is_reading (s.pc t) ≡ s.lock.level + is_reading p'
      → (l'.w_holder ≢ none → l'.level ≡ 0)
      → Inv n (record { lock = l'; pc = update s.pc t p' })
  kept-Inv l' p' was is h v alone = record {
    counted = moved-counted l' p' v;
    held = λ j e.
        let holder : s.lock.w_holder ≡ some j = sym h ∙ e in
        let ne : j ≢ t = λ jt. was (subst (λ k. s.pc k ≡ writing) jt (inv.held j holder)) in
        rw (==-eq_false j t ne) (inv.held j holder);
    writes = λ j e. elim (Bool-cases (j == t)) [
      | inl here ↦ absurd (is (rw here at e))
      | inr off ↦ h ∙ inv.writes j (rw off at e)
    ];
    alone = alone;
  }

  -- The thread becomes the writer.
  entered-Inv :
      (l' : RwLock)
      → s.lock.w_holder ≡ none
      → l'.w_holder ≡ some t
      → l'.level ≡ 0
      → l'.level + is_reading (s.pc t) ≡ s.lock.level
      → Inv n (record { lock = l'; pc = update s.pc t writing })
  entered-Inv l' free h low v = record {
    counted = moved-counted l' writing (omega arith);
    held = λ j e. let jt : j ≡ t = cc in rw (jt, ==-refl t);
    writes = λ j e. elim (Bool-cases (j == t)) [
      | inl here ↦ let jt : j ≡ t = (==_iff j t).0 here in h ∙ ap some (sym jt)
      | inr off ↦
          let w : s.pc j ≡ writing = rw off at e in
          let holder = inv.writes j w in
          let clash : none ≡ some j = sym free ∙ holder in absurd (cc)
    ];
    alone = λ _. low;
  }

  outside_ne : (p : Pc) → outside p ≡ true → (p ≢ writing) × (is_reading p ≡ 0)
  outside_ne reading h = absurd (cc)
  outside_ne writing h = absurd (cc)
  outside_ne idle h = (λ e. cc, refl)
  outside_ne (in_read i) h = (λ e. cc, refl)
  outside_ne (in_upgrade i) h = (λ e. cc, refl)
  outside_ne (in_write i) h = (λ e. cc, refl)

  Effect-Inv :
      {l' : RwLock} (p p' : Pc)
      → s.pc t ≡ p
      → Effect t p s.lock l' p'
      → Inv n (record { lock = l'; pc = update s.pc t p' })
  Effect-Inv {l'} p p' at (stays out out' h v) =
      let (ne, zero_p) = outside_ne p out in
      let (ne', zero_p') = outside_ne p' out' in
      let was = ap is_reading at ∙ zero_p in
      kept-Inv l' p' (λ e. ne (sym at ∙ e)) ne' h (omega arith)
        (λ hn. v ∙ inv.alone (λ z. hn (h ∙ z)))
  Effect-Inv {l'} p _ at (enters_read out free h v) =
      let (ne, zero_p) = outside_ne p out in
      let was = ap is_reading at ∙ zero_p in
      let more = readers-update n s.pc t reading lt in
      let below = readers-le n (update s.pc t reading) in
      let room : s.lock.level + 1 < 2 ^ 16 = omega (arith, inv.counted) in
      kept-Inv l' reading (λ e. ne (sym at ∙ e)) (λ e. cc) (h ∙ sym free) (omega arith)
        (λ hn. absurd (hn h))
  Effect-Inv {l'} p p' at (leaves_read r out' h v) =
      let (ne', zero_p') = outside_ne p' out' in
      let was = ap is_reading (at ∙ r) in
      kept-Inv l' p' (λ e. let both : reading ≡ writing = sym r ∙ sym at ∙ e in cc) ne' h
        (omega arith) (λ hn. let zero_level = inv.alone (λ z. hn (h ∙ z)) in absurd (omega arith))
  Effect-Inv {l'} p _ at (enters_write out free low h v) =
      let (ne, zero_p) = outside_ne p out in
      let was = ap is_reading at ∙ zero_p in entered-Inv l' free h v (omega arith)
  Effect-Inv {l'} p _ at (upgrades r free one h v) =
      let was = ap is_reading (at ∙ r) in entered-Inv l' free h v (omega arith)
  Effect-Inv {l'} p _ at (leaves_write w held h v) =
      let was = ap is_reading (at ∙ w) in
      record {
        counted = moved-counted l' idle (omega arith);
        held = λ j e. let clash : none ≡ some j = sym h ∙ e in absurd (cc);
        writes = λ j e. elim (Bool-cases (j == t)) [
          | inl here ↦ let clash : idle ≡ writing = rw here at e in absurd (cc)
          | inr off ↦
              let holder = inv.writes j (rw off at e) in
              let both : some t ≡ some j = sym held ∙ holder in
              let tj : t ≡ j = cc in absurd (ground arith)
        ];
        alone = λ hn. absurd (hn h);
      }

readers-zero : (n : ℕ) → readers n (λ _. idle) ≡ 0
unfolding readers
readers-zero zero = refl
readers-zero (suc n) = omega (arith, readers-zero n)

Reach-Inv :
    {n : ℕ} {waits asleep : ℕ → Bool} {s : System} → n < 2 ^ 16 → Reach n waits asleep s → Inv n s
unfolding rw_lock_init
Reach-Inv {n} few start = record {
  counted = sym (readers-zero n);
  held = λ t e. absurd (cc);
  writes = λ t e. absurd (cc);
  alone = λ h. refl;
}
Reach-Inv {n} few (next {s} r (step t c lt awake run)) =
    Effect-Inv n s t few lt (Reach-Inv few r) (s.pc t) _ refl
      (perform-Effect t c (s.pc t) s.lock run)

is_reading-pos : (n : ℕ) (pc : ℕ → Pc) (i : ℕ) → i < n → pc i ≡ reading → 0 < readers n pc
unfolding readers
is_reading-pos zero pc i lt e = elim lt [ ]
is_reading-pos (suc n) pc i lt e = elim (Bool-cases (n == i)) [
  | inl here ↦
      let ni : n ≡ i = (==_iff n i).0 here in
      let one : is_reading (pc n) ≡ 1 = ap is_reading (ap pc ni ∙ e) in omega arith
  | inr off ↦ omega (arith, is_reading-pos n pc i (ground arith) e)
]

-- With fewer than 65,536 threads, in every interleaving: while thread i writes, no other thread writes
-- and no thread reads; and the level is the number of threads that read.
pub mutual_exclusion :
    {n : ℕ} {waits asleep : ℕ → Bool} {s : System}
    → n < 2 ^ 16
    → Reach n waits asleep s
    → (s.lock.level ≡ readers n s.pc)
      × ((i j : ℕ) → j < n → s.pc i ≡ writing → (s.pc j ≢ reading) × (s.pc j ≡ writing → i ≡ j))
mutual_exclusion {n} {s} few r =
    let inv = Reach-Inv few r in
    (
      inv.counted,
      λ i j lt wi.
          let holder = inv.writes i wi in
          (
            λ rj.
                let low = inv.alone (λ z. let clash : none ≡ some i = sym z ∙ holder in cc) in
                let high = is_reading-pos n s.pc j lt rj in absurd (omega (arith, inv.counted)),
            λ wj. let hj = inv.writes j wj in cc,
          ),
    )

-- ===== src/RwLock/Calls.antt =====
-- What each call of a thread does to the lock and to where the thread is.
use cs140_operating_systems.Base.{
  ℕ, ◌+◌, ◌-◌, ◌%◌, ◌^◌, ◌≡◌, refl, sym, ap, ◌∙◌, true, false, none, some, ◌==◌, inl, inr,
  Bool-cases, if◌then◌else◌, arith, >>=-eq-some, not, ltb,
}
use cs140_operating_systems.RwLock.{
  RwLock, r_try_lock_acquire, r_attempt, r_lock_acquire, r_lock_wake, r_lock_release,
  upgrade_attempt, r_lock_upgrade_to_w, upgrade_wake, w_try_lock_acquire, w_attempt, w_lock_acquire,
  w_lock_wake, w_lock_release, is_null, is_taken, is_thread, wants_write,
}
use cs140_operating_systems.RwLock.System.{
  Pc, idle, reading, writing, in_read, in_upgrade, in_write, Call, try_read, acquire_read,
  release_read, upgrade, try_write, acquire_write, release_write, wake, after, perform,
}
use cs140_operating_systems.RwLock.Effect.{
  Effect, stays, enters_read, leaves_read, enters_write, upgrades, leaves_write, assert-some,
  assert_bind, eq_of_is_thread, free_of_taken, none_of_null, of_some, outside, wake_first-Same,
  wake_loop-Same,
}

module _ (t : ℕ) (p : Pc) (l : RwLock) where
  r_attempt-Effect :
      (i : ℕ) (k : RwLock)
      → outside p ≡ true
      → k.w_holder ≡ l.w_holder
      → k.level ≡ l.level
      → Effect t p l (r_attempt t k).0 (after reading (in_read i) (r_attempt t k).1)
  unfolding r_attempt
  r_attempt-Effect i k out h v = elim (Bool-cases (is_null k.w_holder)) [
    | inl e ↦
        let free = none_of_null k.w_holder e in
        rw e (enters_read out (sym h ∙ free) free (ap (λ n. (n + 1) % 2 ^ 16) v))
    | inr e ↦ rw e (stays out refl h v)
  ]

  w_attempt-Effect :
      (i : ℕ) (k : RwLock)
      → outside p ≡ true
      → k.w_holder ≡ l.w_holder
      → k.level ≡ l.level
      → Effect t p l (w_attempt t k).0 (after writing (in_write i) (w_attempt t k).1)
  unfolding w_attempt
  w_attempt-Effect i k out h v = elim (Bool-cases (is_taken k)) [
    | inl e ↦ rw e (stays out refl h v)
    | inr e ↦
        let (free, low) = free_of_taken k e in
        rw e (enters_write out (sym h ∙ free) (sym v ∙ low) refl low)
  ]

  w_try-Effect :
      outside p ≡ true
      → Effect t p l
          (w_try_lock_acquire t l).0
          (if (w_try_lock_acquire t l).1 then writing else idle)
  unfolding w_try_lock_acquire
  w_try-Effect out = elim (Bool-cases (is_taken l)) [
    | inl e ↦ rw e (stays out refl refl refl)
    | inr e ↦ let (free, low) = free_of_taken l e in rw e (enters_write out free low refl low)
  ]

  again-Effect :
      (i : ℕ)
      → outside p ≡ true
      → Effect t p l (upgrade_attempt t l).0 (after writing (in_upgrade i) (upgrade_attempt t l).1)
  unfolding upgrade_attempt
  again-Effect i out = elim (Bool-cases (is_taken l)) [
    | inl e ↦ rw e (stays out refl refl refl)
    | inr e ↦ let (free, low) = free_of_taken l e in rw e (enters_write out free low refl low)
  ]

  upgrade-Effect :
      (i : ℕ) (k : RwLock)
      → p ≡ reading
      → k.w_holder ≡ l.w_holder
      → k.level + 1 ≡ l.level
      → Effect t p l (upgrade_attempt t k).0 (after writing (in_upgrade i) (upgrade_attempt t k).1)
  unfolding upgrade_attempt
  upgrade-Effect i k r h v = elim (Bool-cases (is_taken k)) [
    | inl e ↦ rw e (leaves_read r refl h v)
    | inr e ↦
        let (free, low) = free_of_taken k e in
        rw e (upgrades r (sym h ∙ free) (omega arith) refl low)
  ]

release_read-Effect :
    (t : ℕ) (l : RwLock) {l' : RwLock} → r_lock_release l ≡ some l' → Effect t reading l l' idle
unfolding r_lock_release
release_read-Effect t l h =
    let (_, rest) = assert-some (is_null l.w_holder) _ h in
    let (low, run) = assert-some (not (l.level == 0)) _ rest in
    let same = wake_first-Same (record l { level = l.level - 1 }) (l.level - 1) l.waiters run in
    leaves_read refl refl same.holder (let v = same.level in ground arith)

release_write-Effect :
    (t : ℕ) (l : RwLock) {l' : RwLock} → w_lock_release t l ≡ some l' → Effect t writing l l' idle
unfolding w_lock_release
release_write-Effect t l h =
    let (mine, run) = assert-some (is_thread t l.w_holder) _ h in
    let same = wake_loop-Same l.waiters false (record l { w_holder = none }) run in
    leaves_write refl (eq_of_is_thread t l.w_holder mine) same.holder same.level

try_read-Effect :
    (t : ℕ) (l : RwLock)
    → let l1 = wants_write l t false in
      Effect t idle l
        (if is_null l1.w_holder then record l1 { level = (l1.level + 1) % 2 ^ 16 } else l1)
        (if is_null l1.w_holder then reading else idle)
try_read-Effect t l = elim (Bool-cases (is_null l.w_holder)) [
  | inl e ↦ let free = none_of_null l.w_holder e in rw e (enters_read refl free free refl)
  | inr e ↦ rw e (stays refl refl refl refl)
]

pub perform-Effect :
    (t : ℕ) (c : Call) (p : Pc) (l : RwLock) {l' : RwLock} {p' : Pc}
    → perform t c p l ≡ some (l', p')
    → Effect t p l l' p'
unfolding perform r_try_lock_acquire r_lock_acquire r_lock_wake r_lock_release r_lock_upgrade_to_w
    upgrade_wake w_lock_acquire w_lock_wake w_lock_release
perform-Effect t try_read idle l h =
    of_some (assert_bind (not (is_thread t l.w_holder)) _ _ h).1 (try_read-Effect t l)
perform-Effect t acquire_read idle l h =
    of_some (assert_bind (not (is_thread t l.w_holder)) _ _ h).1
      (r_attempt-Effect t idle l 0 (wants_write l t false) refl refl refl)
perform-Effect t wake (in_read i) l h =
    of_some (assert_bind (ltb i 100) _ _ h).1
      (r_attempt-Effect t (in_read i) l (i + 1) l refl refl refl)
perform-Effect t release_read reading l h =
    let (l1, run, e) = >>=-eq-some (r_lock_release l) _ h in of_some e (release_read-Effect t l run)
perform-Effect t upgrade reading l h =
    let (some_level, run) = assert_bind (not (l.level == 0)) _ _ h in
    of_some run (
      upgrade-Effect t reading l 0 (wants_write (record l { level = l.level - 1 }) t true) refl refl
        (ground arith))
perform-Effect t wake (in_upgrade i) l h =
    of_some (assert_bind (ltb i 100) _ _ h).1 (again-Effect t (in_upgrade i) l (i + 1) refl)
perform-Effect t try_write idle l h = of_some h (w_try-Effect t idle l refl)
perform-Effect t acquire_write idle l h =
    of_some h (w_attempt-Effect t idle l 0 (wants_write l t true) refl refl refl)
perform-Effect t wake (in_write i) l h =
    of_some (assert_bind (ltb i 100) _ _ h).1
      (w_attempt-Effect t (in_write i) l (i + 1) l refl refl refl)
perform-Effect t release_write writing l h =
    let (l1, run, e) = >>=-eq-some (w_lock_release t l) _ h in
    of_some e (release_write-Effect t l run)
perform-Effect t _ _ l h = absurd (cc)

-- ===== src/Thread/Donate/Ends.antt =====
-- Project 1: Threads/src/threads/thread.c: propagate_priorities where the chain of locks and holders
-- ends at once, and where it never ends.
use cs140_operating_systems.Base.{
  ◌+◌, ℕ, zero, suc, ◌≡◌, refl, ap, ◌∙◌, true, false, none, some, List, ℤ,
}
use cs140_operating_systems.Thread.{Kernel, is_thread, points_to}
use cs140_operating_systems.Thread.Calls.{CanRun}
use cs140_operating_systems.Thread.Donate.{donated, blocker, propagate_priorities}
use cs140_operating_systems.Thread.Donate.Chain.{
  IsLinked, IsOffer, raised_at, blocker_same, donation_run, donated-InRange, propagate_run,
}

-- A thread that waits for no lock gets its priority, and nothing else happens.
pub donate_single :
    (fuel : ℕ) (k : Kernel) (t : ℕ) (p : ℤ)
    → CanRun k
    → IsLinked k
    → k.thread_mlfqs ≡ false
    → is_thread k t ≡ true
    → points_to k.idle_thread t ≡ false
    → blocker k t ≡ none
    → IsOffer p
    → (q : ℕ → List ℕ) × (propagate_priorities (suc fuel) (some t) p k
        ≡ some (raised_at k t (donated k t p) q))
      × CanRun (raised_at k t (donated k t p) q)
unfolding propagate_priorities
donate_single fuel k t p c l m live n b h =
    let z : ℤ = donated k t p in
    let (q, run, can) = donation_run k t z c (donated-InRange k t p c.sound l live h) n in
    let free : blocker (raised_at k t z q) t ≡ none = blocker_same k t z q t ∙ b in
    let ends : propagate_priorities fuel (blocker (raised_at k t z q) t) z (raised_at k t z q)
        ≡ some (raised_at k t z q) =
      ap (λ o. propagate_priorities fuel o z (raised_at k t z q)) free
      ∙ ended fuel z (raised_at k t z q) in
    (q, propagate_run fuel k (raised_at k t z q) t p m live run ∙ ends, can)
  where
    ended : (f : ℕ) (y : ℤ) (j : Kernel) → propagate_priorities f none y j ≡ some j
    ended zero y j = refl
    ended (suc f) y j = refl

-- After n calls the recursion has come to one more: thread v, which waits for a lock that w holds, while
-- w waits for one that v holds.
pub record Recurs (k : Kernel) (t : ℕ) (p : ℤ) (n : ℕ) (k' : Kernel) (v w : ℕ) (p' : ℤ)
    : Type 0 where
  pub can : CanRun k'
  pub live : is_thread k' v ≡ true
  pub waits : blocker k' v ≡ some w
  pub back : blocker k' w ≡ some v
  pub offer : IsOffer p'
  pub calls :
      (fuel m : ℕ)
      → m ≡ n + fuel
      → propagate_priorities m (some t) p k ≡ propagate_priorities fuel (some v) p' k'

-- ===== src/Thread/Yield.antt =====
-- Project 1: Threads/src/threads/thread.c: thread_yield, on a sound state.
use cs140_operating_systems.Base.{
  ℕ, ◌≡◌, refl, sym, ◌∙◌, inl, inr, true, false, none, some, update, Bool-cases, pos, ◌∷◌, [], ◌++◌,
}
use cs140_operating_systems.Thread.{
  Thread, Kernel, thread_ready, points_to, set_thread, thread_yield,
}
use cs140_operating_systems.Thread.Sound.{
  IsGood, IsSound, slot_of, moved, rest-IsSound, add-IsSound, add_ready_thread_queued,
}
use cs140_operating_systems.Thread.Schedule.{Chosen}
use cs140_operating_systems.Thread.Calls.{
  CanRun, thread_current_lem, status_IsGood, running_slot, give_up-Chosen,
}

-- The caller is ready, at the end of the queue of its priority; the idle thread is in no queue.
pub record Yields (k k1 : Kernel) : Type 0 where
  pub rest : k1 ≡ record k { thread = k1.thread; ready_list = k1.ready_list }
  pub threads :
      k1.thread ≡ update k.thread k.current (record (k.thread k.current) { status = thread_ready })
  pub stays : points_to k.idle_thread k.current ≡ true → k1.ready_list ≡ k.ready_list
  pub queued :
      points_to k.idle_thread k.current ≡ false
      → (p : ℕ) × ((k.thread k.current).priority ≡ pos p)
        × (k1.ready_list ≡ update k.ready_list p (k.ready_list p ++ (k.current ∷ [])))

-- In a sound state where one thread runs, thread_yield fails no ASSERT. When the next thread is chosen,
-- the caller is ready, behind all others in the queue of its priority, or in no queue if it is the idle
-- thread, and nothing else has changed. Of the ready threads but the idle one, none has a higher
-- priority than the one that runs next, which was the first in the queue of its priority; the idle
-- thread runs only if no other is ready. The state is sound again, and just that thread runs.
pub thread_yield-Chosen :
    (k : Kernel)
    → CanRun k
    → (k1 : Kernel) × (k' : Kernel) × (thread_yield k ≡ some k')
      × Yields k k1
      × Chosen k1 k'
      × CanRun k'
unfolding thread_yield
thread_yield-Chosen k c =
    let x : Thread = record (k.thread k.current) { status = thread_ready } in
    let good : IsGood x = status_IsGood k k.current thread_ready c.sound (λ _. c.is_current) in
    elim (Bool-cases (points_to k.idle_thread k.current)) [
      | inl e ↦
          let k1 : Kernel = set_thread k k.current x in
          let slot : slot_of k.idle_thread k.current x ≡ none = rw e in
          let s : IsSound k1 =
            rest-IsSound k k.current x k1 c.sound refl refl refl (slot ∙ sym (running_slot k c))
              good (λ l. l) in
          let (k', run, chosen, can) = give_up-Chosen k c k1 x refl refl s refl refl in
          (
            k1,
            k',
            rw (thread_current_lem k c, e) run,
            record { rest = refl; threads = refl; stays = λ _. refl; queued = λ n. absurd (cc) },
            chosen,
            can,
          )
      | inr e ↦
          let (q, add, s) =
            add-IsSound k k.current x c.sound (running_slot k c) good c.is_current refl e in
          let (k', run, chosen, can) =
            give_up-Chosen k c (moved k k.current x q) x refl refl s refl refl in
          (
            moved k k.current x q,
            k',
            rw (thread_current_lem k c, e, add) run,
            record {
              rest = refl;
              threads = refl;
              stays = λ i. absurd (cc);
              queued = λ _. add_ready_thread_queued k k.current x q c.is_current good add;
            },
            chosen,
            can,
          )
    ]

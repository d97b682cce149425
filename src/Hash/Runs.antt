-- ===== src/Hash/Runs.antt =====
-- Project 4: File System/src/lib/kernel/hash.c: a table under any calls, next to a map.
use mathlib.Core.Path.{fun_ext}
use cs140_operating_systems.Base.{
  ℕ, ◌≡◌, refl, ap, ◌∙◌, Bool, true, Option, none, some, if◌then◌else◌, List, [], ◌∷◌, ◌>>=◌,
}
use cs140_operating_systems.Hash.{
  Hash, equal, hash_init, hash_find, hash_insert, hash_replace, hash_delete, hash_clear,
}
use cs140_operating_systems.Hash.Seek.{IsOrder, IsTable}
use cs140_operating_systems.Hash.Empty.{hash_init-IsTable, hash_clear-IsTable}
use cs140_operating_systems.Hash.Calls.{
  after_insert, after_delete, hash_insert-Looks, hash_replace-Looks, hash_delete-Looks,
}

-- A call, and whether malloc has memory for new buckets in it.
pub data Call : Type 0 where
  insert : Bool → ℕ → Call
  replace : Bool → ℕ → Call
  delete : Bool → ℕ → Call
  clear : Call

module _ (hash : ℕ → ℕ) (less : ℕ → ℕ → Bool) where
  abbrev call : Hash → Call → Option Hash
  call h (Call.insert memory e) = do (h', _) ← hash_insert hash less memory h e; some h'
  call h (Call.replace memory e) = do (h', _) ← hash_replace hash less memory h e; some h'
  call h (Call.delete memory e) = do (h', _) ← hash_delete hash less memory h e; some h'
  call h Call.clear = some ((hash_clear h).0)

  abbrev pub calls : Hash → List Call → Option Hash
  calls h [] = some h
  calls h (c ∷ cs) = do h' ← call h c; calls h' cs

  -- What the table stands for: at each element, the element of the table that equals it.
  abbrev map_call : (ℕ → Option ℕ) → Call → ℕ → Option ℕ
  map_call f (Call.insert memory new) e = after_insert (equal hash less) new e (f new) (f e)
  map_call f (Call.replace memory new) e = if equal hash less new e then some new else f e
  map_call f (Call.delete memory d) e = after_delete (equal hash less) e (f d) (f e)
  map_call f Call.clear e = none

  abbrev pub map_calls : (ℕ → Option ℕ) → List Call → ℕ → Option ℕ
  map_calls f [] e = f e
  map_calls f (c ∷ cs) e = map_calls (map_call f c) cs e

  module _ (o : IsOrder hash less) where
    call-map_call :
        (c : Call) (h : Hash)
        → IsTable hash less h
        → (h' : Hash) × (call h c ≡ some h')
          × IsTable hash less h'
          × ((e : ℕ) → hash_find hash less h' e ≡ map_call (hash_find hash less h) c e)
    call-map_call (Call.insert memory e) h t =
        let (h', run, t', s) = hash_insert-Looks hash less o memory h e t in
        (h', rw run refl, t', s)
    call-map_call (Call.replace memory e) h t =
        let (h', run, t', s) = hash_replace-Looks hash less o memory h e t in
        (h', rw run refl, t', s)
    call-map_call (Call.delete memory e) h t =
        let (h', run, t', s) = hash_delete-Looks hash less o memory h e t in
        (h', rw run refl, t', s)
    call-map_call Call.clear h t =
        let (t', s, _) = hash_clear-IsTable hash less h t in ((hash_clear h).0, refl, t', s)

    calls-map_calls :
        (cs : List Call) (h : Hash) (f : ℕ → Option ℕ)
        → IsTable hash less h
        → ((e : ℕ) → hash_find hash less h e ≡ f e)
        → (h' : Hash) × (calls h cs ≡ some h')
          × IsTable hash less h'
          × ((e : ℕ) → hash_find hash less h' e ≡ map_calls f cs e)
    calls-map_calls [] h f t s = (h, refl, t, s)
    calls-map_calls (c ∷ cs) h f t s =
        let (h1, run1, t1, s1) = call-map_call c h t in
        let (h2, run2, t2, s2) =
          calls-map_calls cs h1 (map_call f c) t1
            (λ e. s1 e ∙ ap (λ g. map_call g c e) (fun_ext s)) in
        (h2, rw run1 run2, t2, s2)

    -- If comparing equal is reflexive and transitive and equal elements have one hash: after hash_init
    -- with memory for its buckets, any sequence of hash_insert, hash_replace, hash_delete and hash_clear
    -- fails no ASSERT, whether malloc has memory in a rehash or not. The table then holds each element
    -- once, in its own bucket, and no two equal ones, and hash_find returns for each element what the same
    -- calls leave in a map from elements to the equal element held.
    pub hash_init-calls :
        (cs : List Call)
        → (h h' : Hash) × (hash_init true ≡ some h)
          × (calls h cs ≡ some h')
          × IsTable hash less h'
          × ((e : ℕ) → hash_find hash less h' e ≡ map_calls (λ d. none) cs e)
    hash_init-calls cs =
        let (h, run, t, s) = hash_init-IsTable hash less in
        let (h', run', t', s') = calls-map_calls cs h (λ d. none) t s in (h, h', run, run', t', s')

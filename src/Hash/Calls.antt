-- ===== src/Hash/Calls.antt =====
-- Project 4: File System/src/lib/kernel/hash.c: hash_insert, hash_replace and hash_delete.
use mathlib.Core.Path.{subst}
use cs140_operating_systems.Base.{
  ℕ, ◌≡◌, refl, inl, inr, Bool, true, Option, none, some, if◌then◌else◌, Bool-cases,
}
use cs140_operating_systems.Hash.{
  Hash, equal, find_bucket, insert_elem, remove_elem, rehash, hash_find, insert_new, hash_insert,
  remove_old, hash_replace, delete_found, hash_delete,
}
use cs140_operating_systems.Hash.Seek.{
  IsOrder, IsTable, Seeks, equal_comm, hash_find-Seeks, Seeks-unique, Seeks-same,
}
use cs140_operating_systems.Hash.Resize.{rehash-Resized}
use cs140_operating_systems.Hash.Add.{insert_elem-Seeks}
use cs140_operating_systems.Hash.Remove.{remove_elem-Seeks}

-- A lookup after an insertion, from the lookup of new before it.
abbrev pub after_insert : (ℕ → ℕ → Bool) → ℕ → ℕ → Option ℕ → Option ℕ → Option ℕ
after_insert eq new e none before = if eq new e then some new else before
after_insert eq new e (some old) before = before

-- A lookup after a deletion.
abbrev pub after_delete : (ℕ → ℕ → Bool) → ℕ → Option ℕ → Option ℕ → Option ℕ
after_delete eq e none before = before
after_delete eq e (some found) before = if eq found e then none else before

module _ (hash : ℕ → ℕ) (less : ℕ → ℕ → Bool) (o : IsOrder hash less) where
  -- A table with the lookups that `look` tells, from those of h.
  abbrev Looks : Hash → Hash → (ℕ → Option ℕ → Option ℕ) → Type 0
  Looks h h' look =
      IsTable hash less h'
      × ((e : ℕ) (b : Option ℕ) → Seeks hash less h e b → Seeks hash less h' e (look e b))

  insert_new-Looks :
      (h : Hash) (new : ℕ) (a : Option ℕ)
      → IsTable hash less h
      → Seeks hash less h new a
      → Looks h (insert_new hash less h new a) (λ e b. after_insert (equal hash less) new e a b)
  insert_new-Looks h new none t s = insert_elem-Seeks hash less o h new t s
  insert_new-Looks h new (some old) t s = (t, λ e b r. r)

  remove_old-Looks :
      (h : Hash) (new : ℕ) (a : Option ℕ)
      → IsTable hash less h
      → Seeks hash less h new a
      → Looks h (remove_old hash less h new a) (λ e b. after_delete (equal hash less) e a b)
  remove_old-Looks h new none t s = (t, λ e b r. r)
  remove_old-Looks h new (some old) t s = remove_elem-Seeks hash less o h new old t s

  -- The same after a rehash.
  rehash-Looks :
      (memory : Bool) (h h1 : Hash) (look : ℕ → Option ℕ → Option ℕ)
      → Looks h h1 look
      → (h' : Hash) × (rehash hash less memory h1 ≡ some h')
        × IsTable hash less h'
        × ((e : ℕ) → hash_find hash less h' e ≡ look e (hash_find hash less h e))
  rehash-Looks memory h h1 look (t, s) =
      let (h', run, r) = rehash-Resized hash less memory h1 t in
      (
        h',
        run,
        r.table,
        λ e.
            Seeks-unique hash less h' e (hash_find hash less h' e)
              (look e (hash_find hash less h e)) o r.table (hash_find-Seeks hash less h' e o)
              (Seeks-same hash less h1 h' e (look e (hash_find hash less h e)) r.numbers
                (s e (hash_find hash less h e) (hash_find-Seeks hash less h e o))),
      )

  pub hash_insert-Looks :
      (memory : Bool) (h : Hash) (new : ℕ)
      → IsTable hash less h
      → (h' : Hash) × (hash_insert hash less memory h new ≡ some (h', hash_find hash less h new))
        × IsTable hash less h'
        × ((e : ℕ)
            → hash_find hash less h' e
              ≡ after_insert
                  (equal hash less)
                  new
                  e
                  (hash_find hash less h new)
                  (hash_find hash less h e))
  unfolding hash_insert
  hash_insert-Looks memory h new t =
      let old : Option ℕ = hash_find hash less h new in
      let (h', run, t', looks) =
        rehash-Looks memory h (insert_new hash less h new old)
          (λ e b. after_insert (equal hash less) new e old b)
          (insert_new-Looks h new old t (hash_find-Seeks hash less h new o)) in
      (h', rw run refl, t', looks)

  delete_found-Looks :
      (memory : Bool) (h : Hash) (e : ℕ) (a : Option ℕ)
      → IsTable hash less h
      → Seeks hash less h e a
      → (h' : Hash) × (delete_found hash less memory h e a ≡ some h')
        × IsTable hash less h'
        × ((d : ℕ)
            → hash_find hash less h' d
              ≡ after_delete (equal hash less) d a (hash_find hash less h d))
  delete_found-Looks memory h e none t s = (h, refl, t, λ d. refl)
  delete_found-Looks memory h e (some x) t s =
      rehash-Looks memory h (remove_elem hash less h (find_bucket hash less h e) x)
        (λ d b. after_delete (equal hash less) d (some x) b)
        (remove_elem-Seeks hash less o h e x t s)

  pub hash_delete-Looks :
      (memory : Bool) (h : Hash) (e : ℕ)
      → IsTable hash less h
      → (h' : Hash) × (hash_delete hash less memory h e ≡ some (h', hash_find hash less h e))
        × IsTable hash less h'
        × ((d : ℕ)
            → hash_find hash less h' d
              ≡ after_delete
                  (equal hash less)
                  d
                  (hash_find hash less h e)
                  (hash_find hash less h d))
  unfolding hash_delete
  hash_delete-Looks memory h e t =
      let (h', run, t', looks) =
        delete_found-Looks memory h e (hash_find hash less h e) t
          (hash_find-Seeks hash less h e o) in
      (h', rw run refl, t', looks)

  -- What is equal to new is equal to the old one.
  same_lookup :
      (new old e : ℕ) (b : Option ℕ)
      → equal hash less old new ≡ true
      → (if equal hash less new e then some new else (if equal hash less old e then none else b))
        ≡ (if equal hash less new e then some new else b)
  same_lookup new old e b q = elim (Bool-cases (equal hash less new e)) [
    | inl r ↦ rw r refl
    | inr r ↦ elim (Bool-cases (equal hash less old e)) [
      | inl v ↦ absurd (let w = o.trans new old e (equal_comm hash less old new q) v in cc)
      | inr v ↦ rw (r, v) refl
    ]
  ]

  -- With what is equal to new gone, new is found where it was, and no other lookup changes.
  replaced :
      (h : Hash) (new : ℕ) (a : Option ℕ)
      → IsTable hash less h
      → Seeks hash less h new a
      → Looks h
          (insert_elem hash less (remove_old hash less h new a) (find_bucket hash less h new) new)
          (λ e b. if equal hash less new e then some new else b)
  unfolding find_bucket remove_elem
  replaced h new none t s = insert_elem-Seeks hash less o h new t s
  replaced h new (some old) t (Seeks.found _ l q) =
      let s : Seeks hash less h new (some old) = Seeks.found old l q in
      let h1 : Hash = remove_elem hash less h (find_bucket hash less h new) old in
      let (t1, s1) = remove_elem-Seeks hash less o h new old t s in
      let gone : Seeks hash less h1 new none =
        subst (λ c. Seeks hash less h1 new (if c then none else some old)) q
          (s1 new (some old) s) in
      let (t2, s2) = insert_elem-Seeks hash less o h1 new t1 gone in
      (
        t2,
        λ e b r.
            subst
              (λ v.
                Seeks hash less (insert_elem hash less h1 (find_bucket hash less h1 new) new) e v)
              (same_lookup new old e b q)
              (s2 e (if equal hash less old e then none else b) (s1 e b r)),
      )

  pub hash_replace-Looks :
      (memory : Bool) (h : Hash) (new : ℕ)
      → IsTable hash less h
      → (h' : Hash) × (hash_replace hash less memory h new ≡ some (h', hash_find hash less h new))
        × IsTable hash less h'
        × ((e : ℕ)
            → hash_find hash less h' e
              ≡ (if equal hash less new e then some new else hash_find hash less h e))
  unfolding hash_replace
  hash_replace-Looks memory h new t =
      let old : Option ℕ = hash_find hash less h new in
      let (h', run, t', looks) =
        rehash-Looks memory h
          (insert_elem hash less (remove_old hash less h new old) (find_bucket hash less h new) new)
          (λ e b. if equal hash less new e then some new else b)
          (replaced h new old t (hash_find-Seeks hash less h new o)) in
      (h', rw run refl, t', looks)

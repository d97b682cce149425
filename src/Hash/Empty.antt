-- ===== src/Hash/Empty.antt =====
-- Project 4: File System/src/lib/kernel/hash.c: hash_init and hash_clear leave nothing to be found.
use cs140_operating_systems.Base.{ℕ, ◌<◌, ◌≡◌, refl, Bool, true, none, some, arith, lt→ltb, ltb, []}
use cs140_operating_systems.Hash.{
  Hash, index, hash_init, hash_find, find_bucket, find_elem, hash_clear, hash_apply,
}
use cs140_operating_systems.Hash.Counts.{index-lt}
use cs140_operating_systems.Hash.Seek.{number, IsTable}

module _ (hash : ℕ → ℕ) (less : ℕ → ℕ → Bool) where
  -- A table whose buckets are empty.
  empty-IsTable :
      (n cnt : ℕ)
      → 0 < cnt
      → IsTable hash less (record { elem_cnt = n; bucket_cnt = cnt; buckets = λ i. [] })
  empty-IsTable n cnt p = record {
    buckets = p;
    placed = λ x i m. refl;
    once = λ x. omega arith;
    alone = λ x y l m q. absurd (omega arith);
  }

  pub hash_init-IsTable :
      (h : Hash) × (hash_init true ≡ some h)
      × IsTable hash less h
      × ((e : ℕ) → hash_find hash less h e ≡ none)
  unfolding hash_init hash_find find_elem
  hash_init-IsTable = (
    record { elem_cnt = 0; bucket_cnt = 4; buckets = λ i. [] },
    refl,
    empty-IsTable 0 4 (omega arith),
    λ e. refl,
  )

  pub hash_clear-IsTable :
      (h : Hash)
      → IsTable hash less h
      → IsTable hash less ((hash_clear h).0)
        × ((e : ℕ) → hash_find hash less ((hash_clear h).0) e ≡ none)
        × ((hash_clear h).1 ≡ hash_apply h)
  unfolding hash_clear hash_apply hash_find find_elem find_bucket
  hash_clear-IsTable h t = (
    record {
      buckets = t.buckets;
      placed = λ x i n. ground (arith, t.placed x i n);
      once = λ x. (let none_left = emptied x in omega arith);
      alone = λ x y l m q. absurd (let none_left = emptied x in omega arith);
    },
    λ e. rw (inside e) refl,
    refl,
  )
    where
      inside : (x : ℕ) → ltb (index hash less h.bucket_cnt x) h.bucket_cnt ≡ true
      inside x =
          lt→ltb (index hash less h.bucket_cnt x) h.bucket_cnt
            (index-lt hash less h.bucket_cnt x t.buckets)

      emptied : (x : ℕ) → number hash less ((hash_clear h).0) x ≡ 0
      emptied x = rw (inside x) refl

-- ===== src/Hash/Resize.antt =====
-- Project 4: File System/src/lib/kernel/hash.c: rehash keeps what the table holds.
use cs140_operating_systems.Base.{
  ℕ, ◌/◌, ◌<◌, ◌≡◌, refl, ◌∙◌, inl, inr, Bool, true, false, some, arith, ◌==◌, ==-refl,
  if◌then◌else◌, Bool-cases, occurrences,
}
use cs140_operating_systems.Hash.{Hash, index, at_least_four, move_loop, rehash}
use cs140_operating_systems.Hash.Counts.{index-lt, move_loop-moved, fit_loop-fits}
use cs140_operating_systems.Hash.Seek.{number, IsTable}

module _ (hash : ℕ → ℕ) (less : ℕ → ℕ → Bool) where
  -- A table that holds the same elements.
  pub record Resized (h h' : Hash) : Type 0 where
    pub table : IsTable hash less h'
    pub numbers : (x : ℕ) → number hash less h' x ≡ number hash less h x
    pub size : h'.elem_cnt ≡ h.elem_cnt

  Resized-refl : (h : Hash) → IsTable hash less h → Resized h h
  Resized-refl h t = record { table = t; numbers = λ x. refl; size = refl }

  abbrev moved_to : Hash → ℕ → Hash
  moved_to h cnt = record h {
    bucket_cnt = cnt;
    buckets = move_loop hash less cnt h.bucket_cnt h.buckets;
  }

  module _ (h : Hash) (t : IsTable hash less h) (cnt : ℕ) (positive : 0 < cnt) where
    moved_occurrences :
        (x i : ℕ)
        → occurrences x ((moved_to h cnt).buckets i)
          ≡ (if index hash less cnt x == i then number hash less h x else 0)
    moved_occurrences x i =
        move_loop-moved hash less cnt h.bucket_cnt h.buckets x (index hash less h.bucket_cnt x) i
          (index-lt hash less h.bucket_cnt x t.buckets) (t.placed x)

    moved_number : (x : ℕ) → number hash less (moved_to h cnt) x ≡ number hash less h x
    moved_number x =
        moved_occurrences x (index hash less cnt x) ∙ rw (==-refl (index hash less cnt x))

    moved-Resized : Resized h (moved_to h cnt)
    moved-Resized = record {
      table = record {
        buckets = positive;
        placed = λ x i n. moved_occurrences x i ∙ rw n;
        once = λ x. rw (moved_number x) (t.once x);
        alone = λ x y l m q. t.alone x y (rw⁻¹ (moved_number x) l) (rw⁻¹ (moved_number y) m) q;
      };
      numbers = moved_number;
      size = refl;
    }

  -- What rehash does with the number of buckets that it has chosen.
  abbrev resized : Bool → Hash → ℕ → Hash
  resized memory h cnt =
      if cnt == h.bucket_cnt
      then h
      else if memory
      then record h { bucket_cnt = cnt; buckets = move_loop hash less cnt h.bucket_cnt h.buckets }
      else h

  resized-Resized :
      (memory : Bool) (h : Hash) (cnt : ℕ)
      → IsTable hash less h
      → 0 < cnt
      → Resized h (resized memory h cnt)
  resized-Resized memory h cnt t p = elim (Bool-cases (cnt == h.bucket_cnt)) [
    | inl e ↦ rw e (Resized-refl h t)
    | inr e ↦ rw e (by_memory memory)
  ]
    where
      by_memory : (b : Bool) → Resized h (if b then moved_to h cnt else h)
      by_memory true = moved-Resized h t cnt p
      by_memory false = Resized-refl h t

  pub rehash-Resized :
      (memory : Bool) (h : Hash)
      → IsTable hash less h
      → (h' : Hash) × (rehash hash less memory h ≡ some h') × Resized h h'
  unfolding rehash
  rehash-Resized memory h t =
      let n : ℕ = at_least_four (h.elem_cnt / 2) in
      let (cnt, run, positive, _, _) = fit_loop-fits n n (omega arith) (ground arith) in
      (resized memory h cnt, rw run refl, resized-Resized memory h cnt t positive)

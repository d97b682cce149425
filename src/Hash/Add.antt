-- ===== src/Hash/Add.antt =====
-- Project 4: File System/src/lib/kernel/hash.c: what insert_elem does to the table.
use mathlib.Core.Path.{subst}
use cs140_operating_systems.Base.{
  ℕ, ◌+◌, ◌<◌, ◌≡◌, refl, sym, ap, ◌∙◌, ◌⊎◌, inl, inr, Bool, true, false, Option, none, some, arith,
  ◌==◌, ==_iff, ==-refl, ltb, if◌then◌else◌, Bool-cases, occurrences,
}
use cs140_operating_systems.Hash.{Hash, index, equal, find_bucket, insert_elem}
use cs140_operating_systems.Hash.Counts.{front-occurrences}
use cs140_operating_systems.Hash.Seek.{IsOrder, number, IsTable, Seeks, equal_comm}

module _ (hash : ℕ → ℕ) (less : ℕ → ℕ → Bool) (o : IsOrder hash less) where
  module _ (h : Hash) (t : IsTable hash less h) (new : ℕ)
      (a : (x : ℕ) → 0 < number hash less h x → equal hash less x new ≡ false) where
    abbrev added : Hash
    added = insert_elem hash less h (find_bucket hash less h new) new

    added_occurrences :
        (x i : ℕ)
        → occurrences x (added.buckets i)
          ≡ occurrences x (h.buckets i)
            + (if index hash less h.bucket_cnt new == i then (if new == x then 1 else 0) else 0)
    unfolding insert_elem find_bucket
    added_occurrences x i =
        front-occurrences hash less new x (index hash less h.bucket_cnt new) i h.buckets

    added-number :
        (x : ℕ) → number hash less added x ≡ number hash less h x + (if new == x then 1 else 0)
    unfolding insert_elem
    added-number x =
        added_occurrences x (index hash less h.bucket_cnt x) ∙ elim (Bool-cases (new == x)) [
          | inl e ↦
              let same : index hash less h.bucket_cnt new ≡ index hash less h.bucket_cnt x =
                ap (λ y. index hash less h.bucket_cnt y) ((==_iff new x).0 e) in
              rw (same, ==-refl (index hash less h.bucket_cnt x)) refl
          | inr e ↦ rw e (ground arith)
        ]

    not_there : number hash less h new ≡ 0
    not_there = elim (Bool-cases (ltb 0 (number hash less h new))) [
      | inl e ↦ absurd (let p = a new (ground arith) in let q = o.reflexive new in cc)
      | inr e ↦ ground arith
    ]

    added_placed :
        (x i : ℕ)
        → (index hash less h.bucket_cnt x == i) ≡ false
        → occurrences x (added.buckets i) ≡ 0
    added_placed x i n = added_occurrences x i ∙ elim (Bool-cases (new == x)) [
      | inl e ↦
          let same : index hash less h.bucket_cnt new ≡ index hash less h.bucket_cnt x =
            ap (λ y. index hash less h.bucket_cnt y) ((==_iff new x).0 e) in
          rw (same, n) (ground (arith, t.placed x i n))
      | inr e ↦ rw e (ground (arith, t.placed x i n))
    ]

    -- Every element of the new table is the new one or an old one.
    old_or_new : (x : ℕ) → 0 < number hash less added x → (new ≡ x) ⊎ (0 < number hash less h x)
    old_or_new x l = elim (Bool-cases (new == x)) [
      | inl e ↦ inl ((==_iff new x).0 e)
      | inr e ↦ inr (ground (arith, added-number x))
    ]

    added_alone :
        (x y : ℕ)
        → (new ≡ x) ⊎ (0 < number hash less h x)
        → (new ≡ y) ⊎ (0 < number hash less h y)
        → equal hash less x y ≡ true
        → x ≡ y
    added_alone x y (inl e) (inl f) q = sym e ∙ f
    added_alone x y (inl e) (inr m) q = absurd (
        let p = a y m in
        let r = equal_comm hash less new y (subst (λ z. equal hash less z y ≡ true) (sym e) q) in
        cc)
    added_alone x y (inr l) (inl f) q =
        absurd (let p = a x l in let r = subst (λ z. equal hash less x z ≡ true) (sym f) q in cc)
    added_alone x y (inr l) (inr m) q = t.alone x y l m q

    added-IsTable : IsTable hash less added
    unfolding insert_elem
    added-IsTable = record {
      buckets = t.buckets;
      placed = added_placed;
      once = λ x. elim (Bool-cases (new == x)) [
        | inl e ↦
            let none_yet : number hash less h x ≡ 0 =
              subst (λ z. number hash less h z ≡ 0) ((==_iff new x).0 e) not_there in
            ground (arith, added-number x)
        | inr e ↦ ground (arith, added-number x, t.once x)
      ];
      alone = λ x y l m q. added_alone x y (old_or_new x l) (old_or_new y m) q;
    }

    added-Seeks :
        (e : ℕ) (b : Option ℕ)
        → Seeks hash less h e b
        → Seeks hash less added e (if equal hash less new e then some new else b)
    added-Seeks e b s = elim (Bool-cases (equal hash less new e)) [
      | inl q ↦ rw q (Seeks.found new (rw (added-number new, ==-refl new) (omega arith)) q)
      | inr q ↦ rw q (others b q s)
    ]
      where
        others :
            (b : Option ℕ)
            → equal hash less new e ≡ false
            → Seeks hash less h e b
            → Seeks hash less added e b
        others _ q (Seeks.absent f) = Seeks.absent (λ x l. elim (old_or_new x l) [
          | inl r ↦ subst (λ z. equal hash less z e ≡ false) r q
          | inr m ↦ f x m
        ])
        others _ q (Seeks.found x l r) = Seeks.found x (omega (arith, added-number x)) r

  -- Adding an element that none is equal to: searching finds it, and all else as before.
  pub insert_elem-Seeks :
      (h : Hash) (new : ℕ)
      → IsTable hash less h
      → Seeks hash less h new none
      → IsTable hash less (insert_elem hash less h (find_bucket hash less h new) new)
        × ((e : ℕ) (b : Option ℕ)
            → Seeks hash less h e b
            → Seeks hash less
                (insert_elem hash less h (find_bucket hash less h new) new)
                e
                (if equal hash less new e then some new else b))
  insert_elem-Seeks h new t (Seeks.absent a) = (added-IsTable h t new a, added-Seeks h t new a)

-- ===== src/Hash/Remove.antt =====
-- Project 4: File System/src/lib/kernel/hash.c: what remove_elem does to the table.
use mathlib.Core.Path.{subst}
use Prim.Native.Nat.{bit_and}
use cs140_operating_systems.Base.{
  ℕ, ◌-◌, ◌<◌, ◌≡◌, refl, sym, ap, ◌∙◌, inl, inr, Bool, true, false, ◌&&◌, Option, none, some, List,
  [], ◌∷◌, arith, ◌==◌, ==_iff, ==-refl, if◌then◌else◌, Bool-cases, update, occurrences, erase,
}
use cs140_operating_systems.Hash.{Hash, index, equal, find_bucket, remove_elem}
use cs140_operating_systems.Hash.Seek.{IsOrder, number, IsTable, Seeks, equal_comm}

erase-occurrences :
    (y z : ℕ) (xs : List ℕ)
    → occurrences y (erase z xs) ≡ (if z == y then occurrences y xs - 1 else occurrences y xs)
erase-occurrences y z [] = ground arith
erase-occurrences y z (w ∷ ws) = elim (Bool-cases (w == z)) [
  | inl e ↦ let same : w ≡ z = (==_iff w z).0 e in rw (same, ==-refl z) (ground arith)
  | inr e ↦ rw e (ground (arith, erase-occurrences y z ws))
]

-- Bucket b has lost x.
erased-occurrences :
    (x y b i : ℕ) (old : ℕ → List ℕ)
    → occurrences y (update old b (erase x (old b)) i)
      ≡ (if (b == i) && (x == y) then occurrences y (old i) - 1 else occurrences y (old i))
erased-occurrences x y b i old = elim (Bool-cases (b == i)) [
  | inl e ↦
      let here : i ≡ b = sym ((==_iff b i).0 e) in
      rw (here, ==-refl b) (erase-occurrences y x (old b))
  | inr e ↦ let e' : (i == b) ≡ false = ground arith in rw (e, e') refl
]

module _ (hash : ℕ → ℕ) (less : ℕ → ℕ → Bool) (o : IsOrder hash less) where
  module _ (h : Hash) (t : IsTable hash less h) (e x : ℕ) (l : 0 < number hash less h x)
      (q : equal hash less x e ≡ true) where
    abbrev removed : Hash
    removed = remove_elem hash less h (find_bucket hash less h e) x

    same_bucket : index hash less h.bucket_cnt e ≡ index hash less h.bucket_cnt x
    same_bucket = ap (λ v. bit_and v (h.bucket_cnt - 1)) (sym (o.hashes x e q))

    removed_occurrences :
        (y i : ℕ)
        → occurrences y (removed.buckets i) ≡ (
            if (index hash less h.bucket_cnt x == i) && (x == y)
            then occurrences y (h.buckets i) - 1
            else occurrences y (h.buckets i))
    unfolding remove_elem find_bucket
    removed_occurrences y i =
        rw same_bucket (erased-occurrences x y (index hash less h.bucket_cnt x) i h.buckets)

    removed-number :
        (y : ℕ) → number hash less removed y ≡ (if x == y then 0 else number hash less h y)
    unfolding remove_elem
    removed-number y =
        removed_occurrences y (index hash less h.bucket_cnt y) ∙ elim (Bool-cases (x == y)) [
          | inl r ↦
              let same : index hash less h.bucket_cnt x ≡ index hash less h.bucket_cnt y =
                ap (λ z. index hash less h.bucket_cnt z) ((==_iff x y).0 r) in
              rw (same, ==-refl (index hash less h.bucket_cnt y), r) (ground (arith, t.once y))
          | inr r ↦ rw r (ground arith)
        ]

    -- Every element of the new table is an old one that is not x.
    not_removed :
        (y : ℕ) → 0 < number hash less removed y → ((x == y) ≡ false) × (0 < number hash less h y)
    not_removed y m = ground (arith, removed-number y)

    removed-IsTable : IsTable hash less removed
    unfolding remove_elem
    removed-IsTable = record {
      buckets = t.buckets;
      placed = λ y i n. ground (arith, removed_occurrences y i, t.placed y i n);
      once = λ y. ground (arith, removed-number y, t.once y);
      alone = λ y z m n r. t.alone y z ((not_removed y m).1) ((not_removed z n).1) r;
    }

    removed-Seeks :
        (d : ℕ) (b : Option ℕ)
        → Seeks hash less h d b
        → Seeks hash less removed d (if equal hash less x d then none else b)
    removed-Seeks d b s = elim (Bool-cases (equal hash less x d)) [
      | inl r ↦ rw r (
          Seeks.absent (λ y m. elim (Bool-cases (equal hash less y d)) [
            | inl f ↦
                let back = equal_comm hash less y d f in
                let same = t.alone x y l ((not_removed y m).1) (o.trans x d y r back) in
                absurd (let p = (not_removed y m).0 in ground arith)
            | inr f ↦ f
          ]))
      | inr r ↦ rw r (others b r s)
    ]
      where
        others :
            (b : Option ℕ)
            → equal hash less x d ≡ false
            → Seeks hash less h d b
            → Seeks hash less removed d b
        others _ r (Seeks.absent f) = Seeks.absent (λ y m. f y ((not_removed y m).1))
        others _ r (Seeks.found y m f) = elim (Bool-cases (x == y)) [
          | inl p ↦
              absurd
                (let f' = subst (λ z. equal hash less z d ≡ true) (sym ((==_iff x y).0 p)) f in cc)
          | inr p ↦ Seeks.found y (ground (arith, removed-number y)) f
        ]

  -- Removing the element that a search for e has found: all else is found as before.
  pub remove_elem-Seeks :
      (h : Hash) (e x : ℕ)
      → IsTable hash less h
      → Seeks hash less h e (some x)
      → IsTable hash less (remove_elem hash less h (find_bucket hash less h e) x)
        × ((d : ℕ) (b : Option ℕ)
            → Seeks hash less h d b
            → Seeks hash less
                (remove_elem hash less h (find_bucket hash less h e) x)
                d
                (if equal hash less x d then none else b))
  remove_elem-Seeks h e x t (Seeks.found _ l q) =
      (removed-IsTable h t e x l q, removed-Seeks h t e x l q)

-- ===== src/Hash/Seek.antt =====
-- Project 4: File System/src/lib/kernel/hash.c: what a table holds, and what searching finds in it.
use mathlib.Core.Path.{subst}
use cs140_operating_systems.Base.{
  ℕ, ◌-◌, ◌≤◌, ◌<◌, ◌≡◌, refl, ap, inl, inr, Bool, true, false, Option, none, some, List, [], ◌∷◌,
  arith, ◌==◌, ==_iff, Bool-cases, occurrences,
}
use Prim.Native.Nat.{bit_and}
use cs140_operating_systems.Hash.{Hash, index, equal, find_elem, find_bucket, hash_find}

-- Comparing equal is reflexive and transitive, and equal elements have one hash.
pub record IsOrder (hash : ℕ → ℕ) (less : ℕ → ℕ → Bool) : Type 0 where
  pub reflexive : (a : ℕ) → equal hash less a a ≡ true
  pub trans :
      (a b c : ℕ)
      → equal hash less a b ≡ true
      → equal hash less b c ≡ true
      → equal hash less a c ≡ true
  pub hashes : (a b : ℕ) → equal hash less a b ≡ true → hash a ≡ hash b

module _ (hash : ℕ → ℕ) (less : ℕ → ℕ → Bool) where
  -- How often the table holds x in the bucket where x belongs.
  abbrev pub number : Hash → ℕ → ℕ
  number h x = occurrences x (h.buckets (index hash less h.bucket_cnt x))

  -- Each element is in its own bucket only, once, and no two are equal.
  pub record IsTable (h : Hash) : Type 0 where
    pub buckets : 0 < h.bucket_cnt
    pub placed :
        (x i : ℕ) → (index hash less h.bucket_cnt x == i) ≡ false → occurrences x (h.buckets i) ≡ 0
    pub once : (x : ℕ) → number h x ≤ 1
    pub alone : (x y : ℕ) → 0 < number h x → 0 < number h y → equal hash less x y ≡ true → x ≡ y

  pub equal_comm : (a b : ℕ) → equal hash less a b ≡ true → equal hash less b a ≡ true
  equal_comm a b e = ground arith

  -- What a search for e ends with.
  pub data Seeks (h : Hash) (e : ℕ) : Option ℕ → Type 0 where
    absent : ((x : ℕ) → 0 < number h x → equal hash less x e ≡ false) → Seeks h e none
    found : (x : ℕ) → 0 < number h x → equal hash less x e ≡ true → Seeks h e (some x)

  data InBucket (xs : List ℕ) (e : ℕ) : Option ℕ → Type 0 where
    absent : ((x : ℕ) → 0 < occurrences x xs → equal hash less x e ≡ false) → InBucket xs e none
    found : (x : ℕ) → 0 < occurrences x xs → equal hash less x e ≡ true → InBucket xs e (some x)

  find_elem-InBucket : (xs : List ℕ) (e : ℕ) → InBucket xs e (find_elem hash less xs e)
  unfolding find_elem
  find_elem-InBucket [] e = InBucket.absent (λ x h. absurd (omega arith))
  find_elem-InBucket (x ∷ xs) e = elim (Bool-cases (equal hash less x e)) [
    | inl q ↦ rw q (InBucket.found x (ground arith) q)
    | inr q ↦ rw q (deeper (find_elem hash less xs e) q (find_elem-InBucket xs e))
  ]
    where
      deeper :
          (o : Option ℕ) → equal hash less x e ≡ false → InBucket xs e o → InBucket (x ∷ xs) e o
      deeper _ q (InBucket.absent h) = InBucket.absent (λ y l. elim (Bool-cases (x == y)) [
        | inl s ↦ subst (λ z. equal hash less z e ≡ false) ((==_iff x y).0 s) q
        | inr s ↦ h y (ground arith)
      ])
      deeper _ q (InBucket.found y l r) = InBucket.found y (ground arith) r

  pub hash_find-Seeks : (h : Hash) (e : ℕ) → IsOrder hash less → Seeks h e (hash_find hash less h e)
  unfolding hash_find find_bucket
  hash_find-Seeks h e o = of_bucket (find_elem hash less bucket e) (find_elem-InBucket bucket e)
    where
      bucket : List ℕ
      bucket = h.buckets (index hash less h.bucket_cnt e)

      same_bucket : (x : ℕ) → equal hash less x e ≡ true → number h x ≡ occurrences x bucket
      same_bucket x q =
          ap (λ v. occurrences x (h.buckets (bit_and v (h.bucket_cnt - 1)))) (o.hashes x e q)

      of_bucket : (a : Option ℕ) → InBucket bucket e a → Seeks h e a
      of_bucket _ (InBucket.absent f) = Seeks.absent (λ x l.
          elim (Bool-cases (equal hash less x e)) [
            | inl q ↦ let m = same_bucket x q in f x (omega arith)
            | inr q ↦ q
          ])
      of_bucket _ (InBucket.found x l q) = Seeks.found x (let m = same_bucket x q in omega arith) q

  pub Seeks-unique :
      (h : Hash) (e : ℕ) (a b : Option ℕ)
      → IsOrder hash less
      → IsTable h
      → Seeks h e a
      → Seeks h e b
      → a ≡ b
  Seeks-unique h e _ _ o t (Seeks.absent f) (Seeks.absent g) = refl
  Seeks-unique h e _ _ o t (Seeks.absent f) (Seeks.found x l q) = absurd (let no_x = f x l in cc)
  Seeks-unique h e _ _ o t (Seeks.found x l q) (Seeks.absent f) = absurd (let no_x = f x l in cc)
  Seeks-unique h e _ _ o t (Seeks.found x l q) (Seeks.found y k r) =
      ap some (t.alone x y l k (o.trans x e y q (equal_comm y e r)))

  pub Seeks-same :
      (h h' : Hash) (e : ℕ) (a : Option ℕ)
      → ((x : ℕ) → number h' x ≡ number h x)
      → Seeks h e a
      → Seeks h' e a
  Seeks-same h h' e _ n (Seeks.absent f) = Seeks.absent (λ x l. f x (let m = n x in omega arith))
  Seeks-same h h' e _ n (Seeks.found x l q) = Seeks.found x (let m = n x in omega arith) q

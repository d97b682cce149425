-- ===== src/Hash/Iterator.antt =====
-- Project 4: File System/src/lib/kernel/hash.c: iterators, which visit what hash_apply visits.
use mathlib.Core.List.{append-nil, append_assoc}
use native.Mathlib.Numerals.{unary_clauses}
use cs140_operating_systems.Base.{
  ℕ, zero, suc, ◌+◌, ◌-◌, ◌≤◌, ◌<◌, ◌≡◌, refl, sym, ap, ◌∙◌, true, false, Option, none, some, arith,
  ltb, if◌then◌else◌, List, [], ◌∷◌, ◌++◌, ◌>>=◌, length,
}
use cs140_operating_systems.Hash.{Hash, apply_loop, hash_apply}

-- Where the iterator is: before the first element of a bucket, at an element, or at the null pointer.
pub data Place : Type 0 where
  head : Place
  at : ℕ → Place
  ended : Place

-- `rest` is what follows in the list of the bucket.
pub record HashIterator : Type 0 where
  pub bucket : ℕ
  pub elem : Place
  pub rest : List ℕ

unfoldable pub hash_first : Hash → HashIterator
hash_first h = record { bucket = 0; elem = Place.head; rest = h.buckets 0 }

-- The loop of hash_next, from the first of `rest` on, or from the end of the bucket.
unfoldable pub next_loop : ℕ → Hash → ℕ → List ℕ → Option HashIterator
next_loop fuel h bucket (x ∷ xs) = some (record { bucket = bucket; elem = Place.at x; rest = xs })
next_loop zero h bucket [] = none
next_loop (suc fuel) h bucket [] =
    let beyond = next_loop fuel h (bucket + 1) (h.buckets (bucket + 1)) in
    if ltb (bucket + 1) h.bucket_cnt
    then beyond
    else some (record { bucket = bucket + 1; elem = Place.ended; rest = [] })

-- list_next asserts that its element is in a list, which the null pointer is not.
abbrev pub next_at : Hash → HashIterator → Place → Option HashIterator
next_at h i Place.ended = none
next_at h i Place.head = next_loop h.bucket_cnt h i.bucket i.rest
next_at h i (Place.at x) = next_loop h.bucket_cnt h i.bucket i.rest

unfoldable pub hash_next : Hash → HashIterator → Option HashIterator
hash_next h i = next_at h i i.elem

abbrev pub hash_cur : HashIterator → Place
hash_cur i = i.elem

-- `while (hash_next (&i)) visit (hash_cur (&i));`: the elements visited.
abbrev pub visit : Option (List ℕ) → Place → Option (List ℕ)
visit rest Place.head = none
visit rest Place.ended = some []
visit rest (Place.at x) = do xs ← rest; some (x ∷ xs)

abbrev pub walk : ℕ → Hash → HashIterator → Option (List ℕ)
walk zero h i = none
walk (suc fuel) h i = do i' ← hash_next h i; visit (walk fuel h i') (hash_cur i')

-- The elements of the d buckets behind bucket b.
abbrev later : ℕ → Hash → ℕ → List ℕ
later zero h b = []
later (suc d) h b = h.buckets (b + 1) ++ later d h (b + 1)

apply_loop_next : (c : ℕ) (bs : ℕ → List ℕ) → apply_loop (c + 1) bs ≡ apply_loop c bs ++ bs c
unfolding apply_loop
apply_loop_next c bs = simp unary_clauses refl

apply_loop-later :
    (d : ℕ) (h : Hash) (b n : ℕ)
    → b + 1 + d ≡ n
    → apply_loop (b + 1) h.buckets ++ later d h b ≡ apply_loop n h.buckets
unfolding apply_loop
apply_loop-later zero h b n e =
    append-nil (apply_loop (b + 1) h.buckets)
    ∙ (let last : b + 1 ≡ n = omega arith in ap (λ k. apply_loop k h.buckets) last)
apply_loop-later (suc d) h b n e =
    sym (append_assoc (apply_loop (b + 1) h.buckets) (h.buckets (b + 1)) (later d h (b + 1)))
    ∙ (rw⁻¹ (apply_loop_next (b + 1) h.buckets) (apply_loop-later d h (b + 1) n (omega arith)))

-- Where the iterator stands after hash_next, with the elements xs ahead of it before.
data Moved (h : Hash) : List ℕ → HashIterator → Type 0 where
  ended : (b : ℕ) → Moved h [] (record { bucket = b; elem = Place.ended; rest = [] })
  at :
      (b d x : ℕ) (xs : List ℕ)
      → b + 1 + d ≡ h.bucket_cnt
      → Moved h (x ∷ (xs ++ later d h b)) (record { bucket = b; elem = Place.at x; rest = xs })

next_loop-Moved :
    (d fuel : ℕ) (h : Hash) (b : ℕ) (xs : List ℕ)
    → b + 1 + d ≡ h.bucket_cnt
    → d < fuel
    → (i : HashIterator) × (next_loop fuel h b xs ≡ some i) × Moved h (xs ++ later d h b) i
unfolding next_loop
next_loop-Moved d fuel h b (x ∷ xs) e l =
    (record { bucket = b; elem = Place.at x; rest = xs }, refl, Moved.at b d x xs e)
next_loop-Moved d zero h b [] e l = absurd (omega arith)
next_loop-Moved zero (suc fuel) h b [] e l =
    let last : ltb (b + 1) h.bucket_cnt ≡ false = ground arith in
    (record { bucket = b + 1; elem = Place.ended; rest = [] }, rw last refl, Moved.ended (b + 1))
next_loop-Moved (suc d) (suc fuel) h b [] e l =
    let more : ltb (b + 1) h.bucket_cnt ≡ true = ground arith in
    let (i, run, m) =
      next_loop-Moved d fuel h (b + 1) (h.buckets (b + 1)) (omega arith) (omega arith) in
    (i, rw more run, m)

visit-Moved :
    (fuel : ℕ) (h : Hash) (xs : List ℕ) (i : HashIterator)
    → Moved h xs i
    → length xs ≤ fuel
    → visit (walk fuel h i) i.elem ≡ some xs
unfolding hash_next
visit-Moved fuel h _ _ (Moved.ended b) l = refl
visit-Moved zero h _ _ (Moved.at b d x xs e) l = absurd (omega arith)
visit-Moved (suc fuel) h _ _ (Moved.at b d x xs e) l =
    let (i, run, m) = next_loop-Moved d h.bucket_cnt h b xs e (omega arith) in
    rw run (rw (visit-Moved fuel h (xs ++ later d h b) i m (omega arith)) refl)

-- On a table with a bucket, calling hash_next after hash_first until it returns the null pointer fails no
-- ASSERT and visits the elements that hash_apply visits, in its order; more rounds than there are elements
-- are enough.
pub walk-hash_apply :
    (h : Hash) (fuel : ℕ)
    → 0 < h.bucket_cnt
    → length (hash_apply h) < fuel
    → walk fuel h (hash_first h) ≡ some (hash_apply h)
unfolding hash_first hash_next hash_apply apply_loop
walk-hash_apply h zero p l = absurd (omega arith)
walk-hash_apply h (suc fuel) p l =
    let d : ℕ = h.bucket_cnt - 1 in
    let all : h.buckets 0 ++ later d h 0 ≡ apply_loop h.bucket_cnt h.buckets =
      apply_loop-later d h 0 h.bucket_cnt (omega arith) in
    let (i, run, m) =
      next_loop-Moved d h.bucket_cnt h 0 (h.buckets 0) (omega arith) (omega arith) in
    let same : length (h.buckets 0 ++ later d h 0) ≡ length (apply_loop h.bucket_cnt h.buckets) =
      ap length all in
    rw run (visit-Moved fuel h (h.buckets 0 ++ later d h 0) i m (omega arith) ∙ ap some all)

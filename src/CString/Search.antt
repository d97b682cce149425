-- ===== src/CString/Search.antt =====
-- The place that strstr finds.
use cs140_operating_systems.Base.{
  ℕ, zero, suc, ◌+◌, ◌-◌, ◌≤◌, ◌<◌, ◌≡◌, ◌≢◌, refl, sym, true, false, some, ◌==◌, leb, arith, inl,
  inr, ◌⊎◌, Bool-cases, ℤ,
}
use mathlib.Core.Path.{subst}
use cs140_operating_systems.Memory.{Mem}
use cs140_operating_systems.Memory.Compare.{
  Alike, Compared, equal, greater, less, memcmp-Compared, Alike-at,
}
use cs140_operating_systems.CString.{is_zero, strstr_loop, strstr}
use cs140_operating_systems.CString.Find.{Str, strlen-Str}

-- p is the first place in a string of n bytes where the k bytes at needle stand, or null if there is none.
pub data Occurrence (m : Mem) (haystack needle n k : ℕ) : ℕ → Type 0 where
  first_at :
      (i : ℕ)
      → i + k ≤ n
      → Alike m (haystack + i) needle k
      → ((j : ℕ) → j < i → ¬ Alike m (haystack + j) needle k)
      → Occurrence m haystack needle n k (haystack + i)
  not_there :
      ((j : ℕ) → j + k ≤ n → ¬ Alike m (haystack + j) needle k) → Occurrence m haystack needle n k 0

is_zero-Compared :
    (m : Mem) (a b n : ℕ) (r : ℤ)
    → Compared m a b n r
    → ((is_zero r ≡ true) × Alike m a b n) ⊎ ((is_zero r ≡ false) × (¬ Alike m a b n))
unfolding is_zero
is_zero-Compared m a b n _ (equal h) = inl (refl, h)
is_zero-Compared m a b n _ (greater i lt h g) =
    inr (refl, λ alike. let e = Alike-at m a b alike i lt in omega (arith, e, g))
is_zero-Compared m a b n _ (less i lt h g) =
    inr (refl, λ alike. let e = Alike-at m a b alike i lt in omega (arith, e, g))

extend : {P : ℕ → Type 0} (i : ℕ) → ((j : ℕ) → j < i → ¬ P j) → ¬ P i → (j : ℕ) → j < i + 1 → ¬ P j
extend {P} i before here j lt = elim (Bool-cases (j == i)) [
  | inl e ↦ let same : j ≡ i = ground arith in subst (λ j. ¬ P j) (sym same) here
  | inr ne ↦ before j (ground arith)
]

module _ (m : Mem) (haystack needle n k : ℕ) (hh : haystack ≢ 0) (hn : needle ≢ 0)
    (fits : k ≤ n) where
  strstr_loop-Occurrence :
      (rounds i : ℕ)
      → i + rounds ≡ n - k + 1
      → ((j : ℕ) → j < i → ¬ Alike m (haystack + j) needle k)
      → (p : ℕ) × (strstr_loop rounds m haystack needle k i ≡ some p)
        × Occurrence m haystack needle n k p
  unfolding strstr_loop
  strstr_loop-Occurrence zero i sum before =
      (0, refl, not_there (λ j le. before j (omega (arith, sum, fits, le))))
  strstr_loop-Occurrence (suc rounds) i sum before =
      let (r, run, c) = memcmp-Compared m (haystack + i) needle k (omega arith) hn in
      elim (is_zero-Compared m (haystack + i) needle k r c) [
        | inl (y, alike) ↦
            (haystack + i, rw (run, y), first_at i (omega (arith, sum, fits)) alike before)
        | inr (y, differ) ↦
            let (p, more, occ) =
              strstr_loop-Occurrence rounds (i + 1) (omega (arith, sum))
                (extend {P = λ j. Alike m (haystack + j) needle k} i before differ) in
            (p, rw (run, y) more, occ)
      ]

-- On strings with fuel above their lengths, strstr fails no ASSERT and finds the first place in haystack
-- where the bytes of needle stand, if there is any.
pub strstr-Occurrence :
    (fuel : ℕ) (m : Mem) (haystack needle n k : ℕ)
    → haystack ≢ 0
    → needle ≢ 0
    → Str m haystack n
    → Str m needle k
    → n < fuel
    → k < fuel
    → (p : ℕ) × (strstr fuel m haystack needle ≡ some p) × Occurrence m haystack needle n k p
unfolding strstr
strstr-Occurrence fuel m haystack needle n k hh hn s t hs ht = elim (Bool-cases (leb k n)) [
  | inl le ↦
      let fits : k ≤ n = ground arith in
      let (p, run, occ) =
        strstr_loop-Occurrence m haystack needle n k hh hn fits (n - k + 1) 0 (omega arith)
          (λ j lt. elim lt [ ]) in
      (
        p,
        rw (strlen-Str fuel m haystack n hh s hs, strlen-Str fuel m needle k hn t ht, le) run,
        occ,
      )
  | inr gt ↦
      let over : n < k = ground arith in
      (
        0,
        rw (strlen-Str fuel m haystack n hh s hs, strlen-Str fuel m needle k hn t ht, gt),
        not_there (λ j le. absurd (omega (arith, over, le))),
      )
]

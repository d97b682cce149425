-- ===== src/CString/Last.antt =====
-- The last byte that strrchr finds.
use mathlib.Core.Path.{subst}
use cs140_operating_systems.Base.{
  ℕ, zero, suc, ◌+◌, ◌-◌, ◌%◌, ◌^◌, ◌<◌, ◌≡◌, ◌≢◌, ap, ◌∙◌, some, ◌==◌, if◌then◌else◌, arith, inl,
  inr, Bool-cases, ==-eq_false,
}
use cs140_operating_systems.Memory.{Mem}
use cs140_operating_systems.Memory.Compare.{absent_suc}
use cs140_operating_systems.CString.{strrchr_loop, strrchr}
use cs140_operating_systems.CString.Find.{Str, Str-suc}

-- p is the last of the n places from start on with a byte c, or the fallback if there is none.
pub data Last (m : Mem) (start n c fallback : ℕ) : ℕ → Type 0 where
  here_last :
      (i : ℕ)
      → i < n
      → m (start + i) ≡ c
      → ((j : ℕ) → i < j → j < n → m (start + j) ≢ c)
      → Last m start n c fallback (start + i)
  none_last : ((j : ℕ) → j < n → m (start + j) ≢ c) → Last m start n c fallback fallback

Last-suc :
    (m : Mem) (start n c fallback : ℕ) {r : ℕ}
    → Last m (start + 1) n c (if m start == c then start else fallback) r
    → Last m start (suc n) c fallback r
Last-suc m start n c fallback (here_last i lt e after) =
    subst (Last m start (suc n) c fallback) (omega arith) (
      here_last (suc i) (omega arith) (ap m (omega arith) ∙ e)
        (λ j lo hi e'. after (j - 1) (omega arith) (omega arith) (ap m (omega arith) ∙ e')))
Last-suc m start n c fallback (none_last other) = elim (Bool-cases (m start == c)) [
  | inl e ↦
      let first : m start ≡ c = ground arith in
      let at : m (start + 0) ≡ c = ap m (omega arith) ∙ first in
      rw e (
        subst (Last m start (suc n) c fallback) (omega arith) (
          here_last 0 (omega arith) at
            (λ j lo hi e'. other (j - 1) (omega arith) (ap m (omega arith) ∙ e'))))
  | inr ne ↦ rw ne (none_last (absent_suc m start n c (ground arith) other))
]

strrchr_loop-Last :
    (n fuel : ℕ) (m : Mem) (string c p : ℕ)
    → Str m string n
    → n < fuel
    → (r : ℕ) × (strrchr_loop fuel m string c p ≡ some r) × Last m string n c p r
unfolding strrchr_loop
strrchr_loop-Last n zero m string c p s h = elim h [ ]
strrchr_loop-Last zero (suc fuel) m string c p s h =
    let z : m string ≡ 0 = ap m (omega arith) ∙ s.ends in (p, rw z, none_last (λ j lt. elim lt [ ]))
strrchr_loop-Last (suc n) (suc fuel) m string c p s h =
    let nz : m string ≢ 0 = λ e. s.before 0 (omega arith) (ap m (omega arith) ∙ e) in
    let (r, run, last) =
      strrchr_loop-Last n fuel m (string + 1) c (if m string == c then string else p) (Str-suc s)
        (omega arith) in
    (r, rw (==-eq_false (m string) 0 nz) run, Last-suc m string n c p last)

-- On a string with fuel above its length, strrchr finds the last byte before the null byte that is c as a
-- char, or returns the null pointer if there is none.
pub strrchr-Last :
    (fuel : ℕ) (m : Mem) (string c n : ℕ)
    → Str m string n
    → n < fuel
    → (r : ℕ) × (strrchr fuel m string c ≡ some r) × Last m string n (c % 2 ^ 8) 0 r
unfolding strrchr
strrchr-Last fuel m string c n s h = strrchr_loop-Last n fuel m string (c % 2 ^ 8) 0 s h

-- ===== src/Tests/Strings.antt =====
-- Tests of string.c.
use cs140_operating_systems.Base.{
  ℕ, zero, suc, ◌+◌, ◌-◌, ◌≤◌, ◌<◌, min, ◌≡◌, ◌≢◌, refl, true, some, List, [], ◌∷◌, arith, inr, ◌⊎◌,
  if◌then◌else◌, ltb, ◌==◌,
}
use cs140_operating_systems.Memory.{Mem, memmove, atomic_gio_memcpy, memcpy}
use cs140_operating_systems.Memory.Copy.{Copied, memmove-Copied}
use cs140_operating_systems.Memory.Atomic.{atomic_gio_memcpy-memcpy}
use cs140_operating_systems.CString.{strstr, strtok_r, strlcat}
use cs140_operating_systems.CString.Find.{Str}
use cs140_operating_systems.CString.Span.{among}
use cs140_operating_systems.CString.Search.{Occurrence, strstr-Occurrence}
use cs140_operating_systems.CString.Token.{Tokenized, strtok_r-Tokenized}
use cs140_operating_systems.CString.Copies.{Put, strlcat-Put}

abbrev bytes_from : ℕ → List ℕ → Mem
bytes_from p [] a = 0
bytes_from p (b ∷ bs) a = if a == p then b else bytes_from (p + 1) bs a

-- The string " a,b" at 1, the string ", " at 6, and then null bytes.
abbrev text : Mem
text = bytes_from 1 (32 ∷ 97 ∷ 44 ∷ 98 ∷ 0 ∷ 44 ∷ 32 ∷ [])

text_before : (i : ℕ) → i < 4 → text (1 + i) ≢ 0
text_before zero lt e = omega (arith, e)
text_before (suc zero) lt e = omega (arith, e)
text_before (suc (suc zero)) lt e = omega (arith, e)
text_before (suc (suc (suc zero))) lt e = omega (arith, e)
text_before (suc (suc (suc (suc i)))) lt e = omega arith

text-Str : Str text 1 4
text-Str = record { ends = refl; before = text_before }

delimiters_before : (i : ℕ) → i < 2 → text (6 + i) ≢ 0
delimiters_before zero lt e = omega (arith, e)
delimiters_before (suc zero) lt e = omega (arith, e)
delimiters_before (suc (suc i)) lt e = omega arith

delimiters-Str : Str text 6 2
delimiters-Str = record { ends = refl; before = delimiters_before }

memmove-Copied_example :
    (m' : Mem) × (memmove text 3 1 4 ≡ some (m', if ltb 3 1 then 3 + 4 else 3))
    × Copied text 3 1 4 m'
memmove-Copied_example = memmove-Copied text 3 1 4 (omega arith) (omega arith)

atomic_gio_memcpy-memcpy_example :
    (m' : Mem) × (atomic_gio_memcpy text 20 1 15 ≡ some (m', 20))
    × (memcpy text 20 1 15 ≡ some (m', 20))
atomic_gio_memcpy-memcpy_example =
    atomic_gio_memcpy-memcpy text 20 1 15 (omega arith) (omega arith) (inr (omega arith))

strstr-Occurrence_example : (p : ℕ) × (strstr 9 text 1 6 ≡ some p) × Occurrence text 1 6 4 2 p
strstr-Occurrence_example =
    strstr-Occurrence 9 text 1 6 4 2 (omega arith) (omega arith) text-Str delimiters-Str
      (omega arith) (omega arith)

strtok_r-Tokenized_example :
    (((j : ℕ) → j < 4 → among text 6 2 (text (1 + j)) ≡ true)
      × (strtok_r 9 text 1 6 0 ≡ some (text, 1 + 4, 0)))
    ⊎ ((i l : ℕ) × (m' : Mem) × (save' : ℕ) × (strtok_r 9 text 1 6 0 ≡ some (m', save', 1 + i))
        × Tokenized (λ j. among text 6 2 (text (1 + j))) text 1 4 i l m' save')
strtok_r-Tokenized_example =
    strtok_r-Tokenized 9 text 1 6 0 4 2 (omega arith) (omega arith) text-Str delimiters-Str
      (omega arith) (omega arith)

strlcat-Put_example :
    (m' : Mem) × (strlcat 9 text 6 1 5 ≡ some (m', 4 + 2))
    × (5 ≤ 2 → m' ≡ text)
    × (2 < 5 → Put text (6 + 2) 1 (min 4 (5 - 2 - 1)) m')
strlcat-Put_example =
    strlcat-Put 9 text 6 1 5 4 2 (omega arith) (omega arith) text-Str delimiters-Str (omega arith)
      (omega arith) (inr (omega arith))

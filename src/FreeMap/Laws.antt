-- ===== src/FreeMap/Laws.antt =====
-- free-map.c: no sector is handed out twice, and what a call changes on each branch.
use mathlib.Core.Path.{subst}
use cs140_operating_systems.Base.{
  ℕ, ◌+◌, ◌≤◌, ◌<◌, ◌≡◌, ◌≢◌, refl, Bool, true, false, ◌⊎◌, Option, none, some, ◌==◌, if◌then◌else◌,
  inl, inr, arith, ==-eq_false, List, ◌∙◌,
}
use cs140_operating_systems.Bitmap.{Bitmap, bitmap_error}
use cs140_operating_systems.Bitmap.Words.{IsValid, bit}
use cs140_operating_systems.Bitmap.Ranges.{Filled, set_multiple-Filled}
use cs140_operating_systems.Bitmap.Scan.{Scanned, at, nowhere, scan_and_flip-Flipped}
use cs140_operating_systems.FreeMap.{FreeMap, Written, whole, short, write_back, free_map_allocate}

-- Sector s is in use.
abbrev pub used : FreeMap → ℕ → Bool
used fm s = bit fm.free_map s

abbrev pub size : FreeMap → ℕ
size fm = fm.free_map.bit_cnt

-- The sectors in use are the same.
abbrev pub SameUse : FreeMap → FreeMap → Type 0
SameUse fm fm' = (size fm' ≡ size fm) × ((j : ℕ) → used fm' j ≡ used fm j)

-- Sector s was the first free one, is in use now, and no other sector changed.
pub record Took (fm : FreeMap) (s : ℕ) (fm' : FreeMap) : Type 0 where
  pub inside : s < size fm
  pub was_free : used fm s ≡ false
  pub first : (j : ℕ) → j < s → used fm j ≡ true
  pub now : (j : ℕ) → used fm' j ≡ (if j == s then true else used fm j)
  pub same_size : size fm' ≡ size fm

-- The ways in which a call of free_map_allocate may end.
pub data Outcome (fm fm' : FreeMap) (w : Written) : Option ℕ → Type 0 where
  got : (s : ℕ) → Took fm s fm' → Outcome fm fm' w (some s)
  full : ((j : ℕ) → j < size fm → used fm j ≡ true) → fm' ≡ fm → Outcome fm fm' w none
  undone : w ≢ whole → fm.free_map_file ≢ none → SameUse fm fm' → Outcome fm fm' w none

-- The free sector that a scan found, and the map with its bit set.
record Found (fm : FreeMap) (s : ℕ) (c : Bitmap) : Type 0 where
  filled : Filled fm.free_map s 1 true c
  inside : s < size fm
  was_free : used fm s ≡ false
  first : (j : ℕ) → j < s → used fm j ≡ true

abbrev pub map_file : Bitmap → Option (List ℕ) → FreeMap
map_file c f = record { free_map = c; free_map_file = f }

Found-Took :
    {fm : FreeMap} {s : ℕ} {c : Bitmap} (f : Option (List ℕ))
    → Found fm s c
    → Took fm s (map_file c f)
Found-Took {s} f found = record {
  inside = found.inside;
  was_free = found.was_free;
  first = found.first;
  now = λ j. ground (arith, found.filled.bits j);
  same_size = found.filled.cnt;
}

abbrev Ends : FreeMap → Written → Option (FreeMap × ℕ) → Type 0
Ends fm w r =
    (fm' : FreeMap) × (s' : ℕ) × (r ≡ some (fm', s'))
    × IsValid fm'.free_map
    × Outcome fm fm' w (if s' == bitmap_error then none else some s')

module _ (fm : FreeMap) (w : Written) (v : IsValid fm.free_map) where
  Found-Ends :
      (s : ℕ) (c : Bitmap) (f : Option (List ℕ)) → Found fm s c → Ends fm w (some (map_file c f, s))
  Found-Ends s c f found =
      let ne : s ≢ bitmap_error = omega (arith, found.inside, v.small) in
      (
        map_file c f,
        s,
        refl,
        found.filled.valid,
        rw (==-eq_false s bitmap_error ne) (got s (Found-Took f found)),
      )

  write_back-Ends :
      (s : ℕ) (c : Bitmap) (f : Option (List ℕ)) (w' : Written)
      → w ≡ w'
      → fm.free_map_file ≡ f
      → Found fm s c
      → Ends fm w (write_back w' s c f)
  write_back-Ends s c none w' we fe found = Found-Ends s c none found
  write_back-Ends s c (some old) whole we fe found = Found-Ends s c (some c.bits) found
  write_back-Ends s c (some old) (short words) we fe found =
      let open_range : s + 1 ≤ c.bit_cnt = omega (arith, found.inside, found.filled.cnt) in
      let (d, run, cleared) = set_multiple-Filled {b = c} s 1 false found.filled.valid open_range in
      (
        map_file d (some words),
        bitmap_error,
        rw run,
        cleared.valid,
        undone (λ e. cc) (λ e. cc)
            (
              cleared.cnt ∙ found.filled.cnt,
              λ j. ground (arith, cleared.bits j, found.filled.bits j, found.was_free),
            ),
      )

  Scanned-Ends :
      (idx : ℕ) (c : Bitmap)
      → Scanned fm.free_map 0 1 false idx
      → ((idx ≢ bitmap_error) × Filled fm.free_map idx 1 true c)
        ⊎ ((idx ≡ bitmap_error) × (c ≡ fm.free_map))
      → Ends fm w (
          if idx == bitmap_error
          then some (map_file c fm.free_map_file, idx)
          else write_back w idx c fm.free_map_file)
  Scanned-Ends idx c (at _ lo hi group before) (inl (ne, filled)) =
      rw (==-eq_false idx bitmap_error ne) (
        write_back-Ends idx c fm.free_map_file w refl refl (record {
          filled = filled;
          inside = omega arith;
          was_free = group idx (omega arith) (omega arith);
          first = λ j h.
              let (k, lo, hi, is) = before j (omega arith) h in
              let same : k ≡ j = omega arith in rw same at is;
        }))
  Scanned-Ends idx c (nowhere e before) (inl (ne, filled)) = absurd (ne e)
  Scanned-Ends idx c (at _ lo hi group before) (inr (e, same)) = absurd (omega (arith, v.small))
  Scanned-Ends idx c (nowhere _ before) (inr (e, same)) =
      rw (e, same)
        (
          fm,
          bitmap_error,
          refl,
          v,
          full
              (λ j h.
                let (k, lo, hi, is) = before j (omega arith) (omega arith) in
                let same : k ≡ j = omega arith in rw same at is)
              refl,
        )

-- On a valid map a call of free_map_allocate fails no ASSERT and keeps the map valid. It hands out the
-- first free sector and marks just that one; or no sector is free and nothing changes; or the map
-- file is open and could not be written in full, and the same sectors are in use as before.
pub allocate-Outcome :
    (fm : FreeMap) (w : Written)
    → IsValid fm.free_map
    → (fm' : FreeMap) × (r : Option ℕ) × (free_map_allocate w fm ≡ some (fm', r))
      × IsValid fm'.free_map
      × Outcome fm fm' w r
unfolding free_map_allocate
allocate-Outcome fm w v =
    let (idx, c, run, found) = scan_and_flip-Flipped 0 1 false v (omega arith) in
    let (fm', s', runs, valid, is) = Scanned-Ends fm w v idx c found.0 found.1 in
    (fm', (if s' == bitmap_error then none else some s'), rw (run, runs), valid, is)

Outcome-Took :
    {fm fm' : FreeMap} {w : Written} {r : Option ℕ} (s : ℕ)
    → Outcome fm fm' w r
    → r ≡ some s
    → Took fm s fm'
Outcome-Took {fm} {fm'} s (got s' t) e = let same : s' ≡ s = cc in subst (λ x. Took fm x fm') same t
Outcome-Took s (full all same) e = absurd (cc)
Outcome-Took s (undone _ _ _) e = absurd (cc)

allocate-Took :
    (fm fm' : FreeMap) (w : Written) (s : ℕ)
    → IsValid fm.free_map
    → free_map_allocate w fm ≡ some (fm', some s)
    → IsValid fm'.free_map × Took fm s fm'
allocate-Took fm fm' w s v h =
    let (gm, r, run, valid, is) = allocate-Outcome fm w v in
    let e : gm ≡ fm' = cc in
    let got_s : r ≡ some s = cc in
    let both : IsValid gm.free_map × Took fm s gm = (valid, Outcome-Took s is got_s) in
    subst (λ x. IsValid x.free_map × Took fm s x) e both

-- Two calls in a row never hand out the same sector.
pub allocate-allocate_ne :
    (fm fm1 fm2 : FreeMap) (w1 w2 : Written) (s1 s2 : ℕ)
    → IsValid fm.free_map
    → free_map_allocate w1 fm ≡ some (fm1, some s1)
    → free_map_allocate w2 fm1 ≡ some (fm2, some s2)
    → s1 ≢ s2
allocate-allocate_ne fm fm1 fm2 w1 w2 s1 s2 v h1 h2 e =
    let (v1, t1) = allocate-Took fm fm1 w1 s1 v h1 in
    let (v2, t2) = allocate-Took fm1 fm2 w2 s2 v1 h2 in ground (arith, t2.was_free, t1.now s2)

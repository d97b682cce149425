-- ===== src/FreeMap/Release.antt =====
-- What free_map_release and free_map_init do to the sectors in use.
use cs140_operating_systems.Base.{
  ℕ, ◌+◌, ◌≤◌, ◌<◌, ◌≡◌, ◌≢◌, true, false, ◌⊎◌, none, some, ◌==◌, ltb, Bool-cases, if◌then◌else◌,
  inl, inr, arith, ==-eq_false, List, length,
}
use cs140_operating_systems.Bitmap.{word, elem_bits, elem_cnt}
use cs140_operating_systems.Bitmap.Words.{IsValid, Wrote-IsValid, flip-Wrote, mark-Wrote}
use cs140_operating_systems.Bitmap.Ranges.{all_iff, create-clear}
use cs140_operating_systems.FreeMap.{
  FreeMap, Written, free_map_init, free_map_release, bitmap_write,
}
use cs140_operating_systems.FreeMap.Laws.{map_file, size, used}

-- On a valid map, given a sector other than 0 that is in use and an open map file, free_map_release
-- fails no ASSERT, frees the sector and changes no other.
pub release-frees :
    {fm : FreeMap} (w : Written) (s : ℕ) {old : List ℕ}
    → IsValid fm.free_map
    → fm.free_map_file ≡ some old
    → s ≢ 0
    → s < size fm
    → used fm s ≡ true
    → (fm' : FreeMap) × (free_map_release w fm s ≡ some fm')
      × IsValid fm'.free_map
      × (size fm' ≡ size fm)
      × ((j : ℕ) → used fm' j ≡ (if j == s then false else used fm j))
unfolding free_map_release
release-frees {fm} w s v open_file ne inside in_use =
    let (r, run, is) = all_iff s 1 v (omega arith) in
    let (c, flip, wrote) = flip-Wrote s v inside in
    let all_set : r ≡ true = is.1 (λ j lo hi. let same : j ≡ s = omega arith in rw same in_use) in
    (
      record { free_map = c; free_map_file = some (bitmap_write c w).0 },
      rw (==-eq_false s 0 ne, run, all_set, flip, open_file),
      Wrote-IsValid wrote v,
      wrote.cnt,
      λ j. ground (arith, wrote.bits j),
    )

-- A sector that is free cannot be released, and sector 0 never: the ASSERTs fail.
pub release-panics :
    (fm : FreeMap) (w : Written) (s : ℕ)
    → IsValid fm.free_map
    → s < size fm
    → (s ≡ 0) ⊎ (used fm s ≡ false)
    → free_map_release w fm s ≡ none
unfolding free_map_release
release-panics fm w s v inside h =
    let (r, run, is) = all_iff s 1 v (omega arith) in
    elim h [
      | inl e ↦ rw e
      | inr free ↦
          let unset : r ≡ false = elim (Bool-cases r) [
            | inl e ↦ let in_use = is.0 e s (omega arith) (omega arith) in cc
            | inr e ↦ e
          ] in
          ground arith
    ]

-- A new map of at least two sectors is valid; sectors 0 and 1 are in use and all others free.
pub init-used :
    (words : List ℕ) (n : ℕ)
    → 2 ≤ n
    → n + elem_bits ≤ word
    → length words ≡ elem_cnt n
    → (fm : FreeMap) × (free_map_init true (some words) n ≡ some fm)
      × IsValid fm.free_map
      × (size fm ≡ n)
      × ((j : ℕ) → j < n → used fm j ≡ ltb j 2)
unfolding free_map_init
init-used words n h small room =
    let (b, made, v, cnt, clear) = create-clear words n small room in
    let (b1, mark0, wrote0) = mark-Wrote 0 v (omega arith) in
    let v1 = Wrote-IsValid wrote0 v in
    let (b2, mark1, wrote1) = mark-Wrote 1 v1 (omega (arith, wrote0.cnt)) in
    (
      map_file b2 none,
      rw (made, mark0, mark1),
      Wrote-IsValid wrote1 v1,
      omega (arith, wrote0.cnt, wrote1.cnt),
      λ j lt. ground (arith, wrote1.bits j, wrote0.bits j, clear j lt),
    )

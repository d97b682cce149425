-- ===== src/Tests/Bitmaps.antt =====
-- Tests of bitmap.c and free-map.c.
use cs140_operating_systems.Base.{
  ℕ, ◌≡◌, refl, true, false, Option, some, [], ◌∷◌, arith, if◌then◌else◌, ◌==◌,
}
use cs140_operating_systems.Bitmap.{
  Bitmap, bitmap_mark, bitmap_set, bitmap_test, bitmap_set_multiple, bitmap_contains, bitmap_scan,
  bitmap_scan_and_flip, change_elem, set_loop, contains_loop, scan_loop,
}
use cs140_operating_systems.Bits.{digit}
use cs140_operating_systems.Bitmap.Words.{IsValid, bit, word_bit}
use cs140_operating_systems.Bitmap.Scan.{Flipped, scan_and_flip-Flipped}
use cs140_operating_systems.FreeMap.{FreeMap, whole, free_map_allocate, free_map_release}
use cs140_operating_systems.FreeMap.Laws.{Outcome, allocate-Outcome, used, size}
use cs140_operating_systems.FreeMap.Release.{release-frees}

-- Forty bits in two words: bits 0, 1, 2 and 33 are set.
abbrev forty : Bitmap
forty = record { bit_cnt = 40; bits = 7 ∷ 2 ∷ [] }

forty-IsValid : IsValid forty
forty-IsValid = omega arith

mark_second_word : bitmap_mark forty 32 ≡ some (record forty { bits = 7 ∷ 3 ∷ [] })
unfolding bitmap_mark change_elem
mark_second_word = refl

scan_past_word : bitmap_scan forty 31 3 false ≡ some 34
unfolding bitmap_scan scan_loop bitmap_contains contains_loop bitmap_test
scan_past_word = refl

scan_and_flip-Flipped_example :
    (idx : ℕ) × (c : Bitmap) × (bitmap_scan_and_flip forty 0 2 false ≡ some (idx, c))
    × Flipped forty 0 2 false idx c
scan_and_flip-Flipped_example = scan_and_flip-Flipped 0 2 false forty-IsValid (omega arith)

abbrev map_of_forty : FreeMap
map_of_forty = record { free_map = forty; free_map_file = some (7 ∷ 2 ∷ []) }

abbrev after_one : FreeMap
after_one = record {
  free_map = record forty { bits = 15 ∷ 2 ∷ [] };
  free_map_file = some (15 ∷ 2 ∷ []);
}

abbrev after_two : FreeMap
after_two = record {
  free_map = record forty { bits = 31 ∷ 2 ∷ [] };
  free_map_file = some (31 ∷ 2 ∷ []);
}

one_allocated : free_map_allocate whole map_of_forty ≡ some (after_one, some 3)
unfolding free_map_allocate bitmap_scan_and_flip bitmap_scan scan_loop bitmap_contains contains_loop
    bitmap_test bitmap_set_multiple set_loop bitmap_set bitmap_mark change_elem
one_allocated = refl

two_allocated : free_map_allocate whole after_one ≡ some (after_two, some 4)
unfolding free_map_allocate bitmap_scan_and_flip bitmap_scan scan_loop bitmap_contains contains_loop
    bitmap_test bitmap_set_multiple set_loop bitmap_set bitmap_mark change_elem
two_allocated = refl

allocate-Outcome_example :
    (fm' : FreeMap) × (r : Option ℕ) × (free_map_allocate whole map_of_forty ≡ some (fm', r))
    × IsValid fm'.free_map
    × Outcome map_of_forty fm' whole r
allocate-Outcome_example = allocate-Outcome map_of_forty whole forty-IsValid

bit_33 : used map_of_forty 33 ≡ true
unfolding bit word_bit digit
bit_33 = refl

bit_5 : used map_of_forty 5 ≡ false
unfolding bit word_bit digit
bit_5 = refl

release-frees_example :
    (fm' : FreeMap) × (free_map_release whole map_of_forty 33 ≡ some fm')
    × IsValid fm'.free_map
    × (size fm' ≡ 40)
    × ((j : ℕ) → used fm' j ≡ (if j == 33 then false else used map_of_forty j))
release-frees_example = release-frees whole 33 forty-IsValid refl (omega arith) (omega arith) bit_33

-- ===== src/FreeMap.antt =====
-- Project 4: File System/src/filesys/free-map.c: which sectors of the file system are in use, one bit
-- to a sector. The lock is taken and given back within free_map_allocate, so a call is one step.
-- What file_write_at did is an argument: it wrote the whole map, or fewer bytes, which leaves some
-- words in the file. What malloc did is an argument too.
pub mod Laws
pub mod Release
use cs140_operating_systems.Base.{
  ℕ, Bool, true, false, Option, none, some, List, ◌==◌, not, if◌then◌else◌, ◌>>=◌, ◌>>◌, assert,
}
use cs140_operating_systems.Bitmap.{
  Bitmap, bitmap_error, bitmap_create, bitmap_mark, bitmap_scan_and_flip, bitmap_set_multiple,
  bitmap_all, bitmap_flip,
}

-- The bitmap in memory, and the words of the free map file if it is open (not a null pointer).
pub record FreeMap : Type 0 where
  pub free_map : Bitmap
  pub free_map_file : Option (List ℕ)

abbrev pub free_map_sector : ℕ
free_map_sector = 0

abbrev pub root_dir_sector : ℕ
root_dir_sector = 1

-- What file_write_at wrote of the map.
pub data Written : Type 0 where
  whole : Written
  short : List ℕ → Written

-- bitmap_write: the new words of the file, and whether all bytes were written.
abbrev pub bitmap_write : Bitmap → Written → List ℕ × Bool
bitmap_write b whole = (b.bits, true)
bitmap_write b (short words) = (words, false)

unfoldable pub free_map_init : Bool → Option (List ℕ) → ℕ → Option FreeMap
free_map_init header words size = do
  r ← bitmap_create header words size
  b ← r
  b1 ← bitmap_mark b free_map_sector
  b2 ← bitmap_mark b1 root_dir_sector
  some (record { free_map = b2; free_map_file = none })

-- `if (sector != BITMAP_ERROR && free_map_file != NULL && !bitmap_write (…)) …`
abbrev pub write_back : Written → ℕ → Bitmap → Option (List ℕ) → Option (FreeMap × ℕ)
write_back w sector b none = some (record { free_map = b; free_map_file = none }, sector)
write_back whole sector b (some old) =
    some (record { free_map = b; free_map_file = some b.bits }, sector)
write_back (short words) sector b (some old) = do
  b' ← bitmap_set_multiple b sector 1 false
  some (record { free_map = b'; free_map_file = some words }, bitmap_error)

-- The sector stored through `sectorp`; `none` in its place is the result false.
unfoldable pub free_map_allocate : Written → FreeMap → Option (FreeMap × Option ℕ)
free_map_allocate w fm = do
  (sector, b) ← bitmap_scan_and_flip fm.free_map 0 1 false
  (fm', sector') ←
      if sector == bitmap_error
      then some (record fm { free_map = b }, sector)
      else write_back w sector b fm.free_map_file
  some (fm', if sector' == bitmap_error then none else some sector')

-- Without an open file the last call goes through a null pointer.
unfoldable pub free_map_release : Written → FreeMap → ℕ → Option FreeMap
free_map_release w fm sector = do
  assert (not (sector == 0))
  used ← bitmap_all fm.free_map sector 1
  assert used
  b ← bitmap_flip fm.free_map sector
  old ← fm.free_map_file
  some (record { free_map = b; free_map_file = some (bitmap_write b w).0 })

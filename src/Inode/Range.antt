-- ===== src/Inode/Range.antt =====
-- Project 4: File System/src/filesys/inode.c: creating, reading, writing and freeing the sectors of an
-- inode. Reading and writing loops take the size as fuel: each round moves at least one byte.
use cs140_operating_systems.Base.{
  ℕ, zero, suc, ◌+◌, ◌-◌, ◌*◌, ◌/◌, ◌%◌, ◌^◌, min, max, Bool, true, false, not, Option, none, some,
  List, [], ◌++◌, ◌==◌, ltb, if◌then◌else◌, ◌>>=◌, ◌>>◌, assert, set, take, drop,
}
use cs140_operating_systems.FreeMap.{Written}
use cs140_operating_systems.Cache.{
  Block, Locks, block_sector_size, sector_num, cached_block_read_segment,
  cached_block_write_segment,
}
use cs140_operating_systems.Inode.{
  Fs, byte_at, entry, no_sector, blank_lvl, zeros, read_block, write_block, allocate, release,
  lookup,
}

-- A four-byte number of `struct inode_disk`: lvl1 at byte 0, length at byte 4, magic at byte 8.
abbrev pub word_at : Block → ℕ → ℕ
word_at b i =
    byte_at b i
    + 2 ^ 8 * byte_at b (i + 1)
    + 2 ^ 16 * byte_at b (i + 2)
    + 2 ^ 24 * byte_at b (i + 3)

abbrev pub set_word : Block → ℕ → ℕ → Block
set_word b i v =
    set (set (set (set b i (v % 2 ^ 8)) (i + 1) (v / 2 ^ 8 % 2 ^ 8)) (i + 2) (v / 2 ^ 16 % 2 ^ 8))
      (i + 3) (v / 2 ^ 24 % 2 ^ 8)

abbrev pub inode_magic : ℕ
inode_magic = 1229868868

abbrev pub inode_disk_lvl_n : ℕ
inode_disk_lvl_n = block_sector_size / 2

-- `(size + BLOCK_SECTOR_SIZE - 1) / BLOCK_SECTOR_SIZE`
abbrev pub round_up : ℕ → ℕ
round_up size = (size + block_sector_size - 1) / block_sector_size

-- How a write ended: asleep in a lock, or with the bytes written.
pub data Wrote : Type 0 where
  blocked : Wrote
  wrote : ℕ → Wrote

module _ (locks : Locks) (written : Written) where
  unfoldable pub create_loop : ℕ → Bool → Fs → ℕ → ℕ → Option Fs
  create_loop zero memory fs lvl1 i = some fs
  create_loop (suc n) memory fs lvl1 i =
      lookup locks written memory fs lvl1 i true >>= λ (fs', _, _).
      create_loop n memory fs' lvl1 (i + 1)

  -- memory, memory1: malloc gives the block of the inode, and of its first level; memory2: those of lookup.
  unfoldable pub inode_create : Bool → Bool → Bool → Fs → ℕ → ℕ → Option (Fs × Bool)
  inode_create memory memory1 memory2 fs sector length = allocate locks written fs >>= λ (fs1, r).
      elim r [
        | none ↦ some (fs1, false)
        | some pointer ↦
            assert (ltb sector sector_num)
            >> (if not memory
                then (release locks written fs1 pointer >>= λ fs2. some (fs2, false))
                else (write_block locks written fs1 sector
                      (set_word (set_word (set_word zeros 0 pointer) 4 length) 8 inode_magic)
                    >>= λ fs2.
                        if not memory1
                        then (release locks written fs2 pointer >>= λ fs3. some (fs3, false))
                        else (write_block locks written fs2 pointer blank_lvl >>= λ fs3.
                            create_loop (round_up length + 1) memory2 fs3 pointer 0 >>= λ fs4.
                            some (fs4, true))))
      ]

  -- The loops of inode_close over the n entries of a level from i on.
  unfoldable pub free_lvl3 : ℕ → Fs → Block → ℕ → Option Fs
  free_lvl3 zero fs lvl3 k = some fs
  free_lvl3 (suc n) fs lvl3 k =
      (if entry lvl3 k == no_sector then some fs else release locks written fs (entry lvl3 k))
      >>= λ fs'. free_lvl3 n fs' lvl3 (k + 1)

  unfoldable pub free_lvl2 : ℕ → Fs → Block → ℕ → Option Fs
  free_lvl2 zero fs lvl2 j = some fs
  free_lvl2 (suc n) fs lvl2 j =
      (if entry lvl2 j == no_sector
        then some fs
        else (read_block locks written fs (entry lvl2 j) >>= λ (fs1, lvl3).
            free_lvl3 inode_disk_lvl_n fs1 lvl3 0 >>= λ fs2.
            release locks written fs2 (entry lvl2 j)))
      >>= λ fs'. free_lvl2 n fs' lvl2 (j + 1)

  unfoldable pub free_lvl1 : ℕ → Fs → Block → ℕ → Option Fs
  free_lvl1 zero fs lvl1 i = some fs
  free_lvl1 (suc n) fs lvl1 i =
      (if entry lvl1 i == no_sector
        then some fs
        else (read_block locks written fs (entry lvl1 i) >>= λ (fs1, lvl2).
            free_lvl2 inode_disk_lvl_n fs1 lvl2 0 >>= λ fs2.
            release locks written fs2 (entry lvl1 i)))
      >>= λ fs'. free_lvl1 n fs' lvl1 (i + 1)

  unfoldable pub free_sectors : Fs → ℕ → Option Fs
  free_sectors fs sector = do
    (fs1, meta) ← read_block locks written fs sector
    (fs2, lvl1) ← read_block locks written fs1 (word_at meta 0)
    fs3 ← free_lvl1 inode_disk_lvl_n fs2 lvl1 0
    fs4 ← release locks written fs3 (word_at meta 0)
    release locks written fs4 sector

  -- `size < min_left ? size : min_left`; past the end of the file the code's number is not positive.
  abbrev pub chunk : ℕ → ℕ → ℕ → ℕ
  chunk length size offset =
      min size (min (length - offset) (block_sector_size - offset % block_sector_size))

  unfoldable pub read_loop : ℕ → Bool → Fs → ℕ → ℕ → ℕ → ℕ → Option (Fs × List ℕ)
  read_loop zero memory fs lvl1 length size offset = some (fs, [])
  read_loop (suc fuel) memory fs lvl1 length size offset =
      let n = chunk length size offset in
      let ofs = offset % block_sector_size in
      if size == 0
      then some (fs, [])
      else (lookup locks written memory fs lvl1 (offset / block_sector_size) false
          >>= λ (fs1, _, sector).
              if sector == no_sector
              then some (fs1, [])
              else if n == 0
              then some (fs1, [])
              else (cached_block_read_segment locks fs1.device sector ofs (ofs + n)
                  >>= λ (c, bytes).
                      read_loop fuel memory (record fs1 { device = c }) lvl1 length (size - n)
                        (offset + n)
                      >>= λ (fs2, more). some (fs2, bytes ++ more)))

  -- The text between the two calls on the lock. The bytes read are the buffer's.
  unfoldable pub read_body : Bool → Fs → ℕ → ℕ → ℕ → Option (Fs × List ℕ)
  read_body memory fs sector size offset = read_block locks written fs sector >>= λ (fs1, meta).
      read_loop size memory fs1 (word_at meta 0) (word_at meta 4) size offset

  unfoldable pub write_loop : ℕ → Bool → Fs → ℕ → ℕ → List ℕ → ℕ → ℕ → Option (Fs × ℕ)
  write_loop zero memory fs lvl1 length buffer size offset = some (fs, 0)
  write_loop (suc fuel) memory fs lvl1 length buffer size offset =
      let n = chunk length size offset in
      let ofs = offset % block_sector_size in
      if size == 0
      then some (fs, 0)
      else (lookup locks written memory fs lvl1 (offset / block_sector_size) false
          >>= λ (fs1, _, sector).
              if sector == no_sector
              then some (fs1, 0)
              else if n == 0
              then some (fs1, 0)
              else assert (not (sector == 0))
                >> (cached_block_write_segment locks fs1.device sector ofs (ofs + n) (take n buffer)
                      none
                    >>= λ c.
                        write_loop fuel memory (record fs1 { device = c }) lvl1 length
                          (drop n buffer) (size - n) (offset + n)
                        >>= λ (fs2, more). some (fs2, n + more)))

  -- From page i down to 0, until a page is there.
  unfoldable pub grow_loop : ℕ → Bool → Fs → ℕ → Option Fs
  grow_loop zero memory fs lvl1 =
      lookup locks written memory fs lvl1 0 true >>= λ (fs', _, _). some fs'
  grow_loop (suc i) memory fs lvl1 =
      lookup locks written memory fs lvl1 (suc i) true >>= λ (fs', created, _).
      let rest = grow_loop i memory fs' lvl1 in if created then rest else some fs'

  -- From `meta_data->length = MAX (…)` up to the lock's release.
  unfoldable pub write_body : Bool → Fs → ℕ → Block → List ℕ → ℕ → ℕ → Option (Fs × ℕ)
  write_body memory fs sector meta buffer size offset =
      let length = max (word_at meta 4) (offset + size) in
      write_loop size memory fs (word_at meta 0) length buffer size offset >>= λ (fs1, n).
      write_block locks written fs1 sector (set_word meta 4 length) >>= λ fs2. some (fs2, n)

-- ===== src/Inode.antt =====
-- Project 4: File System/src/filesys/inode.c, inodes on disk: the index of sectors in three levels, over
-- the buffer cache and the free map. Which locks of the cache other threads hold, whether the map file is
-- written in full, and whether malloc has memory are arguments. Offsets and sizes are not negative.
pub mod Range
pub mod Index
pub mod Open
use cs140_operating_systems.Base.{
  ℕ, zero, suc, ◌+◌, ◌-◌, ◌*◌, ◌/◌, ◌%◌, ◌^◌, Bool, true, false, not, ◌||◌, Option, none, some,
  List, [], ◌∷◌, ◌++◌, ◌==◌, ltb, leb, if◌then◌else◌, ◌>>=◌, ◌>>◌, assert, get_elem?, set, take,
  drop, replicate,
}
use cs140_operating_systems.FreeMap.{FreeMap, Written, free_map_allocate, free_map_release}
use cs140_operating_systems.Cache.{
  Cache, Block, Locks, block_sector_size, sector_num, cached_block_read, cached_block_write,
  cached_block_read_segment,
}

-- The file system's device, behind its cache, and the free map.
pub record Fs : Type 0 where
  pub device : Cache
  pub map : FreeMap

-- A two-byte number at entry i of a block, the low byte first, and (uint16_t) -1.
abbrev pub byte_at : Block → ℕ → ℕ
byte_at b i = elim (get_elem? b i) [ none ↦ 0 | some x ↦ x ]

abbrev pub entry : Block → ℕ → ℕ
entry b i = byte_at b (2 * i) + 256 * byte_at b (2 * i + 1)

abbrev pub set_entry : Block → ℕ → ℕ → Block
set_entry b i v = set (set b (2 * i) (v % 256)) (2 * i + 1) (v / 256 % 256)

abbrev pub no_sector : ℕ
no_sector = 2 ^ 16 - 1

-- memset (lvl, -1, sizeof (struct inode_disk_lvl)), and the block `zeros`.
abbrev pub blank_lvl : Block
blank_lvl = replicate block_sector_size 255

abbrev pub zeros : Block
zeros = replicate block_sector_size 0

module _ (locks : Locks) (written : Written) where
  unfoldable pub read_block : Fs → ℕ → Option (Fs × Block)
  read_block fs sector =
      cached_block_read locks fs.device sector >>= λ (c, b). some (record fs { device = c }, b)

  unfoldable pub write_block : Fs → ℕ → Block → Option Fs
  write_block fs sector b =
      cached_block_write locks fs.device sector b >>= λ c. some (record fs { device = c })

  unfoldable pub allocate : Fs → Option (Fs × Option ℕ)
  allocate fs = free_map_allocate written fs.map >>= λ (m, r). some (record fs { map = m }, r)

  unfoldable pub release : Fs → ℕ → Option Fs
  release fs sector = free_map_release written fs.map sector >>= λ m. some (record fs { map = m })

  -- `if (pointer != -1) free_map_release (pointer);`
  unfoldable pub release_pointer : Fs → Option ℕ → Option Fs
  release_pointer fs none = some fs
  release_pointer fs (some pointer) = release fs pointer

  -- Entry i of a level's block: the block with it, and the sector that was allocated for it, if one was;
  -- `none` if it is missing and none can be had.
  unfoldable pub slot : Fs → Block → ℕ → Bool → Option (Fs × Option (Block × Option ℕ))
  slot fs lvl i create =
      if not (entry lvl i == no_sector)
      then some (fs, some (lvl, none))
      else if create
      then (allocate fs >>= λ (fs', r). elim r [
        | none ↦ some (fs', none)
        | some p ↦ some (fs', some (set_entry lvl i p, some p))
      ])
      else some (fs, none)

  -- The block of the next level: blank where its sector is new, else read.
  unfoldable pub next_lvl : Fs → Block → ℕ → Option ℕ → Option (Fs × Block)
  next_lvl fs lvl i (some p) = some (fs, blank_lvl)
  next_lvl fs lvl i none = read_block fs (entry lvl i)

  -- `if (pointer != -1) cached_block_write (…)`
  unfoldable pub write_new : Fs → Option ℕ → ℕ → Block → Option Fs
  write_new fs none sector b = some fs
  write_new fs (some p) sector b = write_block fs sector b

  abbrev pub is_new : Option ℕ → Bool
  is_new none = false
  is_new (some p) = true

  -- The result of a lookup that fails: the new sectors are given back, and *res is -1.
  unfoldable pub lookup_fails : Fs → Option ℕ → Option ℕ → Option (Fs × Bool × ℕ)
  lookup_fails fs pointer1 pointer2 = do
    fs1 ← release_pointer fs pointer1
    fs2 ← release_pointer fs1 pointer2
    some (fs2, false, no_sector)

  unfoldable pub lookup_writes :
      Fs
      → ℕ
      → ℕ
      → ℕ
      → ℕ
      → Block
      → Block
      → Block
      → Option ℕ
      → Option ℕ
      → Option ℕ
      → Option (Fs × Bool × ℕ)
  lookup_writes fs lvl1_sector a b c lvl1 lvl2 lvl3 pointer1 pointer2 pointer3 = do
    fs1 ← write_new fs pointer3 (entry lvl3 c) zeros
    fs2 ← write_new fs1 pointer3 (entry lvl2 b) lvl3
    fs3 ← write_new fs2 pointer2 (entry lvl1 a) lvl2
    fs4 ← write_new fs3 pointer1 lvl1_sector lvl1
    some (fs4, is_new pointer1 || is_new pointer2 || is_new pointer3, entry lvl3 c)

  unfoldable pub lookup3 :
      Fs → ℕ → ℕ → ℕ → ℕ → Bool → Block → Block → Option ℕ → Option ℕ → Option (Fs × Bool × ℕ)
  lookup3 fs lvl1_sector a b c create lvl1 lvl2 pointer1 pointer2 =
      next_lvl fs lvl2 b pointer2 >>= λ (fs1, lvl3). slot fs1 lvl3 c create >>= λ (fs2, r). elim r [
        | none ↦ lookup_fails fs2 pointer1 pointer2
        | some (lvl3', pointer3) ↦
            lookup_writes fs2 lvl1_sector a b c lvl1 lvl2 lvl3' pointer1 pointer2 pointer3
      ]

  unfoldable pub lookup2 : Fs → ℕ → ℕ → ℕ → ℕ → Bool → Block → Option ℕ → Option (Fs × Bool × ℕ)
  lookup2 fs lvl1_sector a b c create lvl1 pointer1 = next_lvl fs lvl1 a pointer1 >>= λ (fs1, lvl2).
      slot fs1 lvl2 b create >>= λ (fs2, r). elim r [
        | none ↦ lookup_fails fs2 pointer1 none
        | some (lvl2', pointer2) ↦ lookup3 fs2 lvl1_sector a b c create lvl1 lvl2' pointer1 pointer2
      ]

  -- Whether a sector was allocated, and *res. memory: malloc gives the three blocks.
  unfoldable pub lookup : Bool → Fs → ℕ → ℕ → Bool → Option (Fs × Bool × ℕ)
  lookup memory fs lvl1_sector upage create = do
    let page = upage % 2 ^ 16
    assert (ltb (page / 1024) 32)
    if memory
        then (read_block fs lvl1_sector >>= λ (fs1, lvl1).
            slot fs1 lvl1 (page / 1024) create >>= λ (fs2, r). elim r [
              | none ↦ lookup_fails fs2 none none
              | some (lvl1', pointer1) ↦
                  lookup2 fs2 lvl1_sector (page / 1024) (page / 32 % 32) (page % 32) create lvl1'
                    pointer1
            ])
        else some (fs, false, no_sector)

-- ===== src/Cache.antt =====
-- Project 4: File System/src/filesys/cached_block.c: the buffer cache between the file system and its
-- disk. A call is one step: the locks that other threads hold while it runs are an argument, which
-- decides what lock_try_acquire and w_try_lock_acquire return; the caller's own locks are not kept.
-- A result `none` is a failed ASSERT, a transfer of sector -1, or an access outside an array.
pub mod Inv
pub mod Link
pub mod Single
pub mod Evict
pub mod Read
pub mod Write
pub mod Wraps
pub mod Flush
use cs140_operating_systems.Base.{
  ℕ, zero, suc, ◌+◌, ◌-◌, ◌*◌, ◌/◌, ◌%◌, ◌^◌, Bool, true, false, ◌&&◌, Option, none, some, List, [],
  ◌++◌, ◌==◌, ltb, leb, if◌then◌else◌, get_elem?, set, take, drop, replicate, length, update, ◌>>=◌,
  ◌>>◌, assert,
}

abbrev pub block_sector_size : ℕ
block_sector_size = 512

-- The number of places of `addr` and of `locks`.
abbrev pub sector_num : ℕ
sector_num = 8 * 1024 * 1024 / block_sector_size

abbrev pub queue_n : ℕ
queue_n = 20

abbrev pub Block : Type 0
Block = List ℕ

-- `holder` is `none` for -1. The counters are 16 bits wide.
pub record Entry : Type 0 where
  pub bytes : Block
  pub holder : Option ℕ
  pub dirty : ℕ
  pub accessed : ℕ

-- `disk` and `size` are the block device. `addr` is `none` for -1; only its places below sector_num
-- exist, and every access of one asserts that. `evict_i` is an int, as 32 bits.
pub record Cache : Type 0 where
  pub disk : ℕ → Block
  pub size : ℕ
  pub entries : List Entry
  pub addr : ℕ → Option ℕ
  pub queue_e : ℕ
  pub queue_s : ℕ
  pub queue : List ℕ
  pub evict_i : ℕ

-- What other threads hold: the lock of an entry, the lock of a sector.
pub record Locks : Type 0 where
  pub entry_held : ℕ → Bool
  pub sector_held : ℕ → Bool

abbrev pub incr16 : ℕ → ℕ
incr16 n = (n + 1) % 2 ^ 16

-- (int8_t) i, as `addr` stores it: `none` is -1. Another negative value is below every array, and stands
-- for the index that it is as 32 bits without sign, which is above every array.
abbrev pub as_int8 : ℕ → Option ℕ
as_int8 i =
    if ltb (i % 256) 128
    then some (i % 256)
    else if i % 256 == 255
    then none
    else some (2 ^ 32 - 256 + i % 256)

-- The bytes from s up to e lie in a block, and a buffer has room for as many.
abbrev pub in_block : ℕ → ℕ → Bool
in_block s e = leb s e && leb e block_sector_size

abbrev pub has_bytes : ℕ → ℕ → Block → Bool
has_bytes s e buffer = leb (e - s) (length buffer)

-- The bytes from s up to e.
abbrev pub slice : ℕ → ℕ → Block → Block
slice s e b = take (e - s) (drop s b)

-- `memcpy (b + s, buffer, e - s)`
abbrev pub splice : ℕ → ℕ → Block → Block → Block
splice s e buffer b = take s b ++ (take (e - s) buffer ++ drop e b)

abbrev pub put_entry : Cache → ℕ → Entry → Cache
put_entry c i e = record c { entries = set c.entries i e }

-- devices/block.c: a sector past the end of the device is a panic.
unfoldable pub block_read : Cache → ℕ → Option Block
block_read c sector = do assert (ltb sector c.size); some (c.disk sector)

unfoldable pub block_write : Cache → ℕ → Block → Option Cache
block_write c sector b = do
  assert (ltb sector c.size)
  some (record c { disk = update c.disk sector b })

-- The queue's storage is not initialised.
unfoldable pub cached_block_init : (ℕ → Block) → ℕ → List ℕ → ℕ → Cache
cached_block_init disk size queue buffer_elem = record {
  disk = disk;
  size = size;
  entries =
      replicate buffer_elem
        (record { bytes = replicate block_sector_size 0; holder = none; dirty = 0; accessed = 0 });
  addr = λ _. none;
  queue_e = 0;
  queue_s = 0;
  queue = queue;
  evict_i = 0;
}

-- The dirty count is exchanged for 0; after a write it is set to true.
unfoldable pub fflush_single : Cache → ℕ → Option Cache
fflush_single c in_ram_index = do
  e ← get_elem? c.entries in_ram_index
  if e.dirty == 0 then some (put_entry c in_ram_index (record e { dirty = 0 })) else (do
    h ← e.holder
    c' ← block_write c h e.bytes
    some (put_entry c' in_ram_index (record e { dirty = 1 })))

-- `evict_I % buffer_len`, made nonnegative: the int is negative from 2 ^ 31 on.
unfoldable pub evict_pick : ℕ → ℕ → ℕ
evict_pick i len =
    if ltb i (2 ^ 31)
    then i % len
    else (let r = (2 ^ 32 - i) % len in if r == 0 then 0 else len - r)

-- The entry that holds sector `holder`, with both locks taken.
unfoldable pub evict_held : Cache → ℕ → Entry → ℕ → Option (Cache × Option ℕ)
evict_held c rnd e holder =
    if e.accessed == 0
    then (do
      c' ← fflush_single c rnd
      e' ← get_elem? c'.entries rnd
      some (
        record (put_entry c' rnd (record e' { holder = none })) {
          addr = update c'.addr holder none;
        },
        some rnd,
      ))
    else some (put_entry c rnd (record e { accessed = 0 }), none)

-- The entry is locked; by its holder.
unfoldable pub evict_locked : Locks → Cache → ℕ → Entry → Option ℕ → Option (Cache × Option ℕ)
evict_locked l c rnd e none = some (c, some rnd)
evict_locked l c rnd e (some holder) =
    assert (ltb holder sector_num)
    >> (if l.sector_held holder then some (c, none) else evict_held c rnd e holder)

-- One round of the loops: the entry taken, if any.
unfoldable pub evict_round : Locks → Cache → Option (Cache × Option ℕ)
evict_round l c = do
  let rnd = evict_pick c.evict_i (length c.entries)
  let c' = record c { evict_i = (c.evict_i + 1) % 2 ^ 32 }
  if l.entry_held rnd
      then some (c', none)
      else (do e ← get_elem? c'.entries rnd; evict_locked l c' rnd e e.holder)

unfoldable pub evict_loop : ℕ → Locks → Cache → Option (Cache × Option ℕ)
evict_loop zero l c = some (c, none)
evict_loop (suc n) l c =
    evict_round l c >>= λ (c', r). elim r [ some i ↦ some (c', some i) | none ↦ evict_loop n l c' ]

-- Two passes over the entries.
unfoldable pub evict : Locks → Cache → Option (Cache × Option ℕ)
evict l c = evict_loop (2 * length c.entries) l c

-- What read_ahead and the segment calls do on a miss: the sector moves into the entry that was evicted.
unfoldable pub load_evicted : Cache → ℕ → ℕ → Option Cache
load_evicted c sector in_ram = do
  assert (elim (c.addr sector) [ none ↦ true | some _ ↦ false ])
  e ← get_elem? c.entries in_ram
  assert (elim e.holder [ none ↦ true | some _ ↦ false ])
  bytes ← block_read c sector
  some (record (put_entry c in_ram (record e { holder = some sector; bytes = bytes })) {
    addr = update c.addr sector (as_int8 in_ram);
  })

unfoldable pub load_into : Cache → ℕ → Option ℕ → Option (Cache × Option ℕ)
load_into c sector none = some (c, none)
load_into c sector (some in_ram) = do c' ← load_evicted c sector in_ram; some (c', some in_ram)

-- By what `addr` says of the sector.
unfoldable pub find_from : Locks → Cache → ℕ → Option ℕ → Option (Cache × Option ℕ)
find_from l c sector (some in_ram) = some (c, some in_ram)
find_from l c sector none = do (c', r) ← evict l c; load_into c' sector r

-- The entry that holds the sector, after loading it if need be; `none` if no entry could be evicted.
unfoldable pub find_entry : Locks → Cache → ℕ → Option (Cache × Option ℕ)
find_entry l c sector = do assert (ltb sector sector_num); find_from l c sector (c.addr sector)

unfoldable pub read_ahead : Locks → Cache → ℕ → Option Cache
read_ahead l c sector = find_entry l c sector >>= λ (c', r). some c'

-- `atomic_gio_memcpy (buffer, …)` and the count of accesses, or a transfer that bypasses the cache.
unfoldable pub read_from : Cache → Option ℕ → ℕ → ℕ → ℕ → Option (Cache × Block)
read_from c (some in_ram) sector s e = do
  assert (in_block s e)
  x ← get_elem? c.entries in_ram
  some (put_entry c in_ram (record x { accessed = incr16 x.accessed }), slice s e x.bytes)
read_from c none sector s e = do
  assert (in_block s e)
  b ← block_read c sector
  some (c, if s == 0 && e == block_sector_size then b else slice s e b)

-- The next sector is queued for the flusher thread.
unfoldable pub queue_next : Cache → ℕ → Cache
queue_next c sector =
    if ltb (sector + 1) c.size
    then record c {
      queue = set c.queue (c.queue_e % queue_n) ((sector + 1) % 2 ^ 16);
      queue_e = (c.queue_e + 1) % 2 ^ 64;
    }
    else c

unfoldable pub cached_block_read_segment : Locks → Cache → ℕ → ℕ → ℕ → Option (Cache × Block)
cached_block_read_segment l c sector s e = do
  assert (ltb s e)
  (c', in_ram) ← find_entry l c sector
  (c'', bytes) ← read_from c' in_ram sector s e
  some (queue_next c'' sector, bytes)

unfoldable pub cached_block_read : Locks → Cache → ℕ → Option (Cache × Block)
cached_block_read l c sector = do
  assert (ltb sector sector_num)
  cached_block_read_segment l c sector 0 block_sector_size

-- Bytes are copied within the block of an entry or of a temporary buffer, or a whole block is written.
unfoldable pub write_to : Cache → Option ℕ → ℕ → ℕ → ℕ → Block → Option Block → Option Cache
write_to c (some in_ram) sector s e buffer full_buffer = do
  assert (in_block s e)
  assert (has_bytes s e buffer)
  x ← get_elem? c.entries in_ram
  some (
      put_entry c in_ram (record x {
        bytes = splice s e buffer x.bytes;
        dirty = incr16 x.dirty;
        accessed = incr16 x.accessed;
      }))
write_to c none sector s e buffer (some full) = do
  assert (leb block_sector_size (length full))
  block_write c sector (take block_sector_size full)
write_to c none sector s e buffer none = do
  assert (in_block s e)
  assert (has_bytes s e buffer)
  b ← block_read c sector
  block_write c sector (splice s e buffer b)

unfoldable pub cached_block_write_segment :
    Locks → Cache → ℕ → ℕ → ℕ → Block → Option Block → Option Cache
cached_block_write_segment l c sector s e buffer full_buffer = do
  (c', in_ram) ← find_entry l c sector
  write_to c' in_ram sector s e buffer
      (if s == 0 && e == block_sector_size then some buffer else full_buffer)

unfoldable pub cached_block_write : Locks → Cache → ℕ → Block → Option Cache
cached_block_write l c sector buffer = do
  assert (ltb sector sector_num)
  cached_block_write_segment l c sector 0 block_sector_size buffer none

-- `if (cache->entries[i].holder != -1) fflush_single (cache, i)`
unfoldable pub fflush_holder : Cache → ℕ → Option ℕ → Option Cache
fflush_holder c i none = some c
fflush_holder c i (some _) = fflush_single c i

-- The n entries from index i on.
unfoldable pub fflush_loop : ℕ → Cache → ℕ → Option Cache
fflush_loop zero c i = some c
fflush_loop (suc n) c i =
    get_elem? c.entries i >>= λ e. fflush_holder c i e.holder >>= λ c'. fflush_loop n c' (i + 1)

unfoldable pub fflush_all : Cache → Option Cache
fflush_all c = fflush_loop (length c.entries) c 0

-- What the flusher thread does with the queue in each second: `queue_s` is not reduced by QUEUE_N.
unfoldable pub fflusher_poll : Locks → Cache → Option Cache
fflusher_poll l c =
    if ltb c.queue_s c.queue_e
    then (do
      get ← get_elem? c.queue c.queue_s
      let c' = record c { queue_s = (c.queue_s + 1) % 2 ^ 64 }
      if ltb get c'.size
          then (do
            c'' ← read_ahead l c' (get % queue_n)
            some (record c'' { queue_s = (c''.queue_s + 1) % 2 ^ 64 }))
          else some c')
    else some c

unfoldable pub cached_block_size : Cache → ℕ
cached_block_size c = c.size

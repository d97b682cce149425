-- ===== src/Cache/Wraps.antt =====
-- The count of unsaved writes wraps around.
use cs140_operating_systems.Base.{
  ℕ, ◌-◌, ◌^◌, ◌≡◌, refl, true, none, some, ◌==◌, get_elem?, set, get_elem?-set_self,
  lt-length_of_some, ◌<◌, ◌≤◌, length, arith, lt→ltb,
}
use cs140_operating_systems.Cache.{
  Block, Entry, Cache, Locks, put_entry, splice, find_entry, find_from, write_to, incr16,
  cached_block_write_segment, fflush_single, sector_num, block_sector_size, in_block, has_bytes,
}

-- A write to a cached sector with a place in addr, of a byte range within the sector from a buffer of
-- just those bytes, where the entry counts 65,535 unsaved writes: the count wraps to 0. The entry has
-- the new bytes, and flushing it leaves the disk as it was.
pub write-wraps :
    (c : Cache) (l : Locks) (s i from to : ℕ) (e : Entry) (buffer : Block)
    → s < sector_num
    → from ≤ to
    → to ≤ block_sector_size
    → length buffer ≡ to - from
    → c.addr s ≡ some i
    → get_elem? c.entries i ≡ some e
    → e.dirty ≡ 2 ^ 16 - 1
    → (c1 : Cache) × (c2 : Cache) × (e1 : Entry) × (cached_block_write_segment l c s from to buffer
          none
        ≡ some c1)
      × (get_elem? c1.entries i ≡ some e1)
      × (e1.bytes ≡ splice from to buffer e.bytes)
      × (fflush_single c1 i ≡ some c2)
      × (c2.disk ≡ c.disk)
unfolding cached_block_write_segment write_to find_entry find_from fflush_single
write-wraps c l s i from to e buffer placed lo hi room a got full = (
  put_entry c i e1,
  put_entry (put_entry c i e1) i (record e1 { dirty = 0 }),
  e1,
  rw (lt→ltb s sector_num placed, a, whole_part, bytes, got),
  self,
  refl,
  rw (self, zero_dirty),
  refl,
)
  where
    e1 : Entry
    e1 = record e {
      bytes = splice from to buffer e.bytes;
      dirty = incr16 e.dirty;
      accessed = incr16 e.accessed;
    }

    whole_part : in_block from to ≡ true
    whole_part = ground arith

    bytes : has_bytes from to buffer ≡ true
    bytes = ground arith

    self : get_elem? (set c.entries i e1) i ≡ some e1
    self = get_elem?-set_self c.entries i e1 (lt-length_of_some c.entries i got)

    zero_dirty : (incr16 e.dirty == 0) ≡ true
    zero_dirty = rw full

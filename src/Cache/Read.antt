-- ===== src/Cache/Read.antt =====
-- The read side of cached_block.c: a read returns what the disk that the cache stands for holds, and
-- does not change it.
use mathlib.Core.Path.{subst}
use cs140_operating_systems.Base.{
  ℕ, ◌+◌, ◌≤◌, ◌<◌, ◌≡◌, refl, sym, ap, ◌∙◌, Option, none, some, List, ◌==◌, inl, inr, Bool-cases,
  if◌then◌else◌, true, get_elem?, set, length, arith, lt-length_of_some, ltb, lt→ltb, ◌&&◌,
  take_all, get_elem?-replicate, replicate, length-replicate,
}
use cs140_operating_systems.Cache.{
  Block, Entry, Cache, Locks, block_sector_size, put_entry, block_read, slice, load_evicted,
  find_entry, find_from, load_into, read_from, incr16, queue_next, cached_block_read_segment,
  cached_block_init, read_ahead, as_int8, in_block, sector_num,
}
use cs140_operating_systems.Cache.Inv.{
  IsValid, Holds, Keeps, Keeps-refl, Keeps-trans, view, view_at, touched-Keeps, queue-Keeps,
  view_held, DirtyAtMost, DirtyAtMost-set,
}
use cs140_operating_systems.Cache.Link.{linked_in, linked_in-Keeps, linked_in_self}
use cs140_operating_systems.Cache.Evict.{Evicted, evict-Evicted}

-- A new cache is empty: it stands for the disk as it is.
pub init-IsValid :
    (disk : ℕ → Block) (size : ℕ) (queue : List ℕ) (n : ℕ)
    → ((s : ℕ) → length (disk s) ≡ block_sector_size)
    → IsValid (cached_block_init disk size queue n)
      × ((s : ℕ) → view (cached_block_init disk size queue n) s ≡ disk s)
unfolding cached_block_init view_at
init-IsValid disk size queue n sized =
    (record { linked = λ s i a. absurd (cc); held = held; sized = sized }, λ s. refl)
  where
    c : Cache
    c = cached_block_init disk size queue n

    empty : Entry
    empty = record { bytes = replicate block_sector_size 0; holder = none; dirty = 0; accessed = 0 }

    some_eq : {e : Entry} → some empty ≡ some e → empty ≡ e
    some_eq p = cc

    held :
        (i : ℕ) (e : Entry) (s : ℕ)
        → get_elem? (replicate n empty) i ≡ some e
        → e.holder ≡ some s
        → Holds c i e s
    held i e s got he =
        let small = lt-length_of_some (replicate n empty) i got in
        let same = get_elem?-replicate n empty i (omega (arith, length-replicate n empty)) in
        let both : some empty ≡ some e = sym same ∙ got in
        let none_some : none ≡ some s = ap (λ (x : Entry). x.holder) (some_eq both) ∙ he in
        absurd (cc)

-- Where a search for a sector ended: in the entry that holds it, or nowhere, and then the sector is on
-- the disk only.
pub record Located (c : Cache) (s : ℕ) (c' : Cache) (r : Option ℕ) : Type 0 where
  pub keeps : Keeps c c'
  pub here :
      (i : ℕ) → r ≡ some i → (e : Entry) × (get_elem? c'.entries i ≡ some e) × (e.holder ≡ some s)
  pub nowhere : r ≡ none → c'.addr s ≡ none
  pub calm : (n : ℕ) → 1 ≤ n → DirtyAtMost n c.entries → DirtyAtMost n c'.entries

-- An index below 128 is what addr stores for it.
as_int8_small : (i : ℕ) → i < 128 → as_int8 i ≡ some i
as_int8_small i h = ground arith

module _ {c : Cache} (l : Locks) (s : ℕ) (v : IsValid c) (some_entry : 0 < length c.entries)
    (few : length c.entries ≤ 128) (inside : s < c.size) (placed : s < sector_num) where
  load_evicted-Located :
      {c1 : Cache} (i : ℕ)
      → c.addr s ≡ none
      → Evicted c c1 (some i)
      → (c' : Cache) × (load_evicted c1 s i ≡ some c') × Located c s c' (some i)
  unfolding load_evicted block_read
  load_evicted-Located {c1} i out ev =
      let (e, got, free) = ev.free i refl in
      let out1 = ev.missing s out in
      let inside1 : s < c1.size = omega (arith, ev.keeps.size) in
      let index : as_int8 i ≡ some i =
        as_int8_small i (omega (arith, lt-length_of_some c1.entries i got, ev.keeps.count)) in
      (
        linked_in i e s ev.keeps.valid got free out1 inside1 placed,
        rw (out1, got, free, lt→ltb s c1.size inside1, index),
        record {
          keeps =
              Keeps-trans ev.keeps
                (linked_in-Keeps i e s ev.keeps.valid got free out1 inside1 placed);
          here = λ j ij.
              let same : i ≡ j = cc in
              let full : Entry = record e { holder = some s; bytes = c1.disk s } in
              let self = linked_in_self i e s ev.keeps.valid got free out1 inside1 placed in
              (full, subst (λ k. get_elem? (set c1.entries i full) k ≡ some full) same self, refl);
          nowhere = λ e'. absurd (cc);
          calm = λ n pos all.
              DirtyAtMost-set n c1.entries i _ (ev.calm n pos all) (ev.calm n pos all i e got);
        },
      )

  load_into-Located :
      {c1 : Cache} (r : Option ℕ)
      → c.addr s ≡ none
      → Evicted c c1 r
      → (c' : Cache) × (load_into c1 s r ≡ some (c', r)) × Located c s c' r
  unfolding load_into
  load_into-Located {c1} none out ev = (
    c1,
    refl,
    record {
      keeps = ev.keeps;
      here = λ j e. absurd (cc);
      nowhere = λ _. ev.missing s out;
      calm = ev.calm;
    },
  )
  load_into-Located (some i) out ev =
      let (c2, run, is) = load_evicted-Located i out ev in (c2, rw run, is)

  find_from-Located :
      (o : Option ℕ)
      → c.addr s ≡ o
      → (c' : Cache) × (r : Option ℕ) × (find_from l c s o ≡ some (c', r)) × Located c s c' r
  unfolding find_from
  find_from-Located (some i) a = (
    c,
    some i,
    refl,
    record {
      keeps = Keeps-refl v;
      here = λ j e. v.linked s j (a ∙ e);
      nowhere = λ e. absurd (cc);
      calm = λ n pos all. all;
    },
  )
  find_from-Located none out =
      let (c1, r, run, ev) = evict-Evicted l v some_entry in
      let (c2, runs, is) = load_into-Located r out ev in (c2, r, rw (run, runs), is)

  -- On a valid cache with entries, the search for a sector of the device fails no ASSERT and leaves a
  -- cache for the same disk. It ends at the entry that holds the sector, or the sector is not cached.
  pub find_entry-Located :
      (c' : Cache) × (r : Option ℕ) × (find_entry l c s ≡ some (c', r)) × Located c s c' r
  unfolding find_entry
  find_entry-Located = rw (lt→ltb s sector_num placed) (find_from-Located (c.addr s) refl)

pub slice_whole : (b : Block) → length b ≡ block_sector_size → slice 0 block_sector_size b ≡ b
slice_whole b h = rw (← h) (take_all b)

bypass_slice :
    (from to : ℕ) (b : Block)
    → length b ≡ block_sector_size
    → (if from == 0 && to == block_sector_size then b else slice from to b) ≡ slice from to b
bypass_slice from to b h = elim (Bool-cases (from == 0 && to == block_sector_size)) [
  | inl whole ↦
      let from_0 : from ≡ 0 = ground arith in
      let to_end : to ≡ block_sector_size = ground arith in
      rw (whole, from_0, to_end) (sym (slice_whole b h))
  | inr part ↦ rw part
]

pub view_missing : (c : Cache) (s : ℕ) → c.addr s ≡ none → view c s ≡ c.disk s
unfolding view_at
view_missing c s out = rw out

pub block_read-some : (c : Cache) (s : ℕ) → s < c.size → block_read c s ≡ some (c.disk s)
unfolding block_read
block_read-some c s h = rw (lt→ltb s c.size h)

module _ {c : Cache} (s from to : ℕ) (part : in_block from to ≡ true) where
  read_from-view :
      {c' : Cache} (r : Option ℕ)
      → s < c'.size
      → Located c s c' r
      → (c'' : Cache) × (read_from c' r s from to ≡ some (c'', slice from to (view c s)))
        × Keeps c c''
  unfolding read_from
  read_from-view {c'} (some i) inside is =
      let (e, got, he) = is.here i refl in
      let same : view c s ≡ e.bytes =
        sym (is.keeps.views s) ∙ view_held is.keeps.valid i e s got he in
      (
        put_entry c' i (record e { accessed = incr16 e.accessed }),
        rw (part, got, same),
        Keeps-trans is.keeps (
            touched-Keeps i e (record e { accessed = incr16 e.accessed }) is.keeps.valid got refl
              refl refl),
      )
  read_from-view {c'} none inside is =
      let same : view c s ≡ c'.disk s =
        sym (is.keeps.views s) ∙ view_missing c' s (is.nowhere refl) in
      (
        c',
        rw (part, block_read-some c' s inside, same)
            (ap (λ b. some (c', b)) (bypass_slice from to (c'.disk s) (is.keeps.valid.sized s))),
        is.keeps,
      )

queue_next-Keeps : {c : Cache} (s : ℕ) → IsValid c → Keeps c (queue_next c s)
unfolding queue_next
queue_next-Keeps {c} s v = elim (Bool-cases (ltb (s + 1) c.size)) [
  | inl more ↦ rw more (queue-Keeps _ _ c.queue_s c.evict_i v)
  | inr last ↦ rw last (Keeps-refl v)
]

module _ {c : Cache} (l : Locks) (s : ℕ) (v : IsValid c) (some_entry : 0 < length c.entries)
    (few : length c.entries ≤ 128) (inside : s < c.size) (placed : s < sector_num) where
  -- On a valid cache of 1 to 128 entries, a read of the bytes `from` up to `to` of a sector of the
  -- device that has a place in addr, with `from` before `to` and `to` within the sector, fails no ASSERT
  -- and reads outside no array. It returns those bytes of the disk that the cache stands for, and that
  -- disk stays the same, whatever locks other threads hold.
  pub read_segment-view :
      (from to : ℕ)
      → from < to
      → to ≤ block_sector_size
      → (c' : Cache) × (cached_block_read_segment l c s from to
          ≡ some (c', slice from to (view c s)))
        × Keeps c c'
  unfolding cached_block_read_segment
  read_segment-view from to lt hi =
      let (c1, r, run, is) = find_entry-Located l s v some_entry few inside placed in
      let (c2, runs, keeps) =
        read_from-view s from to (ground arith) r (omega (arith, is.keeps.size)) is in
      (
        queue_next c2 s,
        rw (lt→ltb from to lt, run, runs),
        Keeps-trans keeps (queue_next-Keeps s keeps.valid),
      )

  -- Reading ahead changes what is cached, and not the disk that the cache stands for.
  pub read_ahead-Keeps : (c' : Cache) × (read_ahead l c s ≡ some c') × Keeps c c'
  unfolding read_ahead
  read_ahead-Keeps =
      let (c1, r, run, is) = find_entry-Located l s v some_entry few inside placed in
      (c1, rw run, is.keeps)

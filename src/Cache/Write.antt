-- ===== src/Cache/Write.antt =====
-- The write side of cached_block.c: a write changes the bytes of one sector of the disk that the cache
-- stands for, as long as no 16-bit count of unsaved writes wraps.
use mathlib.Core.Path.{subst}
use mathlib.Core.List.{append-nil}
use cs140_operating_systems.Base.{
  ℕ, ◌-◌, ◌^◌, ◌≤◌, ◌<◌, ◌≡◌, ◌≢◌, refl, sym, ap, ◌∙◌, Option, none, some, [], ◌++◌, ◌==◌, ==_iff,
  inl, inr, Bool-cases, if◌then◌else◌, get_elem?, length, arith, length-set, Option-cases, update,
  ==-refl, ==-eq_false, lt→ltb, ◌&&◌, true, leb, take_all, take, drop, length-append, length-take,
  length-drop, drop_all,
}
use cs140_operating_systems.Cache.{
  Block, Entry, Cache, Locks, block_sector_size, put_entry, block_write, splice, write_to, incr16,
  in_block, has_bytes, sector_num, cached_block_write_segment,
}
use cs140_operating_systems.Cache.Inv.{
  IsValid, Holds, Keeps, view, view_at, view_held, DirtyAtMost, replaced-IsValid,
  view-replaced_self, view-replaced_other,
}
use cs140_operating_systems.Cache.Read.{Located, find_entry-Located, view_missing, block_read-some}

-- `c'` stands for the disk of `c` with sector s rewritten to b.
pub record Rewrote (c : Cache) (s : ℕ) (b : Block) (c' : Cache) : Type 0 where
  pub valid : IsValid c'
  pub views : (t : ℕ) → view c' t ≡ (if t == s then b else view c t)
  pub size : c'.size ≡ c.size
  pub count : length c'.entries ≡ length c.entries

Keeps-Rewrote :
    {a c c' : Cache} {s : ℕ} {b : Block} → Keeps a c → Rewrote c s b c' → Rewrote a s b c'
Keeps-Rewrote {a} {c} {c'} {s} {b} k r = record {
  valid = r.valid;
  views = λ t. r.views t ∙ ap (λ x. if t == s then b else x) (k.views t);
  size = r.size ∙ k.size;
  count = r.count ∙ k.count;
}

length-splice :
    (from to : ℕ) (buffer b : Block)
    → from ≤ to
    → to ≤ block_sector_size
    → length buffer ≡ to - from
    → length b ≡ block_sector_size
    → length (splice from to buffer b) ≡ block_sector_size
length-splice from to buffer b lo hi lbuf lb = omega (
  arith,
  length-append (take from b) (take (to - from) buffer ++ drop to b),
  length-append (take (to - from) buffer) (drop to b),
  length-take from b,
  length-take (to - from) buffer,
  length-drop to b,
)

splice_whole :
    (buffer b : Block)
    → length buffer ≡ block_sector_size
    → length b ≡ block_sector_size
    → splice 0 block_sector_size buffer b ≡ buffer
splice_whole buffer b lbuf lb =
    let rest : drop block_sector_size b ≡ [] = drop_all b block_sector_size (omega arith) in
    let all : take block_sector_size buffer ≡ buffer =
      subst (λ n. take n buffer ≡ buffer) lbuf (take_all buffer) in
    rw (rest, append-nil) all

-- A sector that is not cached is written on the disk itself.
disk_write-Rewrote :
    {c : Cache} (s : ℕ) (b : Block)
    → IsValid c
    → c.addr s ≡ none
    → length b ≡ block_sector_size
    → Rewrote c s b (record c { disk = update c.disk s b })
unfolding view_at
disk_write-Rewrote {c} s b v out full = record {
  valid = record { linked = v.linked; held = held; sized = sized };
  views = views;
  size = refl;
  count = refl;
}
  where
    cached_ne : (t i : ℕ) → c.addr t ≡ some i → t ≢ s
    cached_ne t i a ts = cc

    held :
        (i : ℕ) (e : Entry) (t : ℕ)
        → get_elem? c.entries i ≡ some e
        → e.holder ≡ some t
        → Holds (record c { disk = update c.disk s b }) i e t
    held i e t got he =
        let old = v.held i e t got he in
        record {
          back = old.back;
          inside = old.inside;
          placed = old.placed;
          full = old.full;
          clean = λ d. rw (==-eq_false t s (cached_ne t i old.back)) (old.clean d);
        }

    sized : (t : ℕ) → length (update c.disk s b t) ≡ block_sector_size
    sized t = elim (Bool-cases (t == s)) [ inl here ↦ rw here full | inr off ↦ rw off (v.sized t) ]

    views :
        (t : ℕ) → view (record c { disk = update c.disk s b }) t ≡ (if t == s then b else view c t)
    views t = elim (Bool-cases (t == s)) [
      | inl here ↦ let ts : t ≡ s = (==_iff t s).0 here in rw (ts, out, ==-refl s)
      | inr off ↦ elim (Option-cases (c.addr t)) [
        | inl miss ↦ rw (miss, off)
        | inr (i, a) ↦ rw (a, off)
      ]
    ]

-- The entry that holds the sector takes the bytes, and counts an unsaved write.
entry_write-Rewrote :
    {c : Cache} (s i : ℕ) (e e' : Entry)
    → IsValid c
    → get_elem? c.entries i ≡ some e
    → e.holder ≡ some s
    → e'.holder ≡ e.holder
    → length e'.bytes ≡ block_sector_size
    → e'.dirty ≢ 0
    → Rewrote c s e'.bytes (put_entry c i e')
entry_write-Rewrote {c} s i e e' v got he same full dirty = record {
  valid = replaced-IsValid i e e' c.disk v got same fits (λ t ne. refl) v.sized;
  views = views;
  size = refl;
  count = length-set c.entries i e';
}
  where
    fits :
        (t : ℕ)
        → e.holder ≡ some t
        → (length e'.bytes ≡ block_sector_size) × (e'.dirty ≡ 0 → e'.bytes ≡ c.disk t)
    fits t ht = (full, λ d. absurd (dirty d))

    views : (t : ℕ) → view (put_entry c i e') t ≡ (if t == s then e'.bytes else view c t)
    views t = elim (Bool-cases (t == s)) [
      | inl here ↦
          let ts : t ≡ s = (==_iff t s).0 here in
          rw here (
            view-replaced_self i e e' c.disk v got same fits (λ t ne. refl) v.sized t
              (he ∙ ap some (sym ts)))
      | inr off ↦ rw off (
          view-replaced_other i e e' c.disk v got same fits (λ t ne. refl) v.sized t
            (λ ht. let st : s ≡ t = cc in ground arith))
    ]

full_buffer :
    (from to : ℕ) (buffer : Block) {whole : Block}
    → some whole ≡ (if from == 0 && to == block_sector_size then some buffer else none)
    → (from ≡ 0) × (to ≡ block_sector_size) × (whole ≡ buffer)
full_buffer from to buffer e = ground arith

module _ {c : Cache} (s from to : ℕ) (buffer : Block) (inside : s < c.size) (lo : from ≤ to)
    (hi : to ≤ block_sector_size) (fits : length buffer ≡ to - from) where
  bypass_view : {c' : Cache} → Located c s c' none → view c s ≡ c'.disk s
  bypass_view {c'} is = sym (is.keeps.views s) ∙ view_missing c' s (is.nowhere refl)

  bypass :
      {c' : Cache}
      → Located c s c' none
      → (b : Block) → b ≡ splice from to buffer (view c s)
      → length b ≡ block_sector_size
      → (c'' : Cache) × (block_write c' s b ≡ some c'')
        × Rewrote c s (splice from to buffer (view c s)) c''
  unfolding block_write
  bypass {c'} is b same full = (
    record c' { disk = update c'.disk s b },
    rw (lt→ltb s c'.size (omega (arith, is.keeps.size))),
    subst (λ x. Rewrote c s x (record c' { disk = update c'.disk s b })) same
        (Keeps-Rewrote is.keeps (disk_write-Rewrote s b is.keeps.valid (is.nowhere refl) full)),
  )

  write_to-Rewrote :
      {c' : Cache} (r : Option ℕ) (full : Option Block)
      → DirtyAtMost (2 ^ 16 - 2) c'.entries
      → Located c s c' r
      → full ≡ (if from == 0 && to == block_sector_size then some buffer else none)
      → (c'' : Cache) × (write_to c' r s from to buffer full ≡ some c'')
        × Rewrote c s (splice from to buffer (view c s)) c''
  unfolding write_to
  write_to-Rewrote {c'} (some i) full small is e =
      let (x, got, hx) = is.here i refl in
      let same : x.bytes ≡ view c s =
        sym (view_held is.keeps.valid i x s got hx) ∙ is.keeps.views s in
      let bound = small i x got in
      let whole_part : in_block from to ≡ true = ground arith in
      let room : has_bytes from to buffer ≡ true = ground arith in
      let x' : Entry = record x {
        bytes = splice from to buffer x.bytes;
        dirty = incr16 x.dirty;
        accessed = incr16 x.accessed;
      } in
      let sized =
        length-splice from to buffer x.bytes lo hi fits (is.keeps.valid.held i x s got hx).full in
      (
        put_entry c' i x',
        rw (whole_part, room, got),
        Keeps-Rewrote is.keeps (
            subst (λ b. Rewrote c' s (splice from to buffer b) (put_entry c' i x')) same
              (entry_write-Rewrote s i x x' is.keeps.valid got hx refl sized (omega arith))),
      )
  write_to-Rewrote {c'} none (some whole) small is e =
      let (from_0, to_end, same) = full_buffer from to buffer e in
      let on_disk = bypass_view is in
      let sized : length buffer ≡ block_sector_size = omega arith in
      let lview : length (view c s) ≡ block_sector_size = rw on_disk (is.keeps.valid.sized s) in
      let spliced : whole ≡ splice from to buffer (view c s) =
        rw (same, from_0, to_end) (sym (splice_whole buffer (view c s) sized lview)) in
      let long : length whole ≡ block_sector_size = ap length same ∙ sized in
      let enough : leb block_sector_size (length whole) ≡ true = ground arith in
      let all : take block_sector_size whole ≡ whole =
        subst (λ n. take n whole ≡ whole) long (take_all whole) in
      rw (enough, all) (bypass is whole spliced long)
  write_to-Rewrote {c'} none none small is e =
      let on_disk = bypass_view is in
      let sized = length-splice from to buffer (c'.disk s) lo hi fits (is.keeps.valid.sized s) in
      let whole_part : in_block from to ≡ true = ground arith in
      let room : has_bytes from to buffer ≡ true = ground arith in
      rw (whole_part, room, block_read-some c' s (omega (arith, is.keeps.size)))
        (bypass is (splice from to buffer (c'.disk s)) (rw on_disk) sized)

module _ {c : Cache} (l : Locks) (s : ℕ) (v : IsValid c) (some_entry : 0 < length c.entries)
    (few : length c.entries ≤ 128) (inside : s < c.size) (placed : s < sector_num)
    (small : DirtyAtMost (2 ^ 16 - 2) c.entries) where
  -- On a valid cache of 1 to 128 entries, a write of the bytes `from` up to `to` of a sector of the
  -- device that has a place in addr, with `from` not after `to`, `to` within the sector, a buffer of
  -- just those bytes and no full buffer, fails no ASSERT and writes outside no array. The cache is valid
  -- then and stands for the same disk, with those bytes of that sector replaced, if no entry counts
  -- 65,535 unsaved writes.
  pub write_segment-Rewrote :
      (from to : ℕ) (buffer : Block)
      → from ≤ to
      → to ≤ block_sector_size
      → length buffer ≡ to - from
      → (c' : Cache) × (cached_block_write_segment l c s from to buffer none ≡ some c')
        × Rewrote c s (splice from to buffer (view c s)) c'
  unfolding cached_block_write_segment
  write_segment-Rewrote from to buffer lo hi fits =
      let (c1, r, run, is) = find_entry-Located l s v some_entry few inside placed in
      let (c2, runs, rewrote) =
        write_to-Rewrote s from to buffer inside lo hi fits r _
          (is.calm (2 ^ 16 - 2) (omega arith) small) is refl in
      (c2, rw run runs, rewrote)

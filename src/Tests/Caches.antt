-- ===== src/Tests/Caches.antt =====
-- Tests of cached_block.c: a cache of two entries over a disk of zeros, with sector 3 cached and not
-- saved yet.
use mathlib.Core.Path.{subst}
use cs140_operating_systems.Base.{
  ℕ, zero, suc, ◌-◌, ◌^◌, ◌≤◌, ◌≡◌, ◌≢◌, refl, sym, ap, ◌∙◌, false, Option, none, some, List, [],
  ◌∷◌, arith, length, ◌==◌, ==_iff, replicate, length-replicate, update, Bool-cases, inl, inr,
  get_elem?,
}
use cs140_operating_systems.Cache.{
  Block, Entry, Cache, Locks, block_sector_size, evict, evict_loop, evict_round, evict_pick,
  evict_locked, evict_held, fflush_single, block_write, cached_block_read_segment,
  cached_block_write_segment, fflush_all, slice, splice,
}
use cs140_operating_systems.Cache.Inv.{IsValid, Holds, Keeps, view, DirtyAtMost}
use cs140_operating_systems.Cache.Single.{Flushed, fflush_single-Flushed}
use cs140_operating_systems.Cache.Evict.{Evicted, evict-Evicted}
use cs140_operating_systems.Cache.Read.{read_segment-view}
use cs140_operating_systems.Cache.Write.{Rewrote, write_segment-Rewrote}
use cs140_operating_systems.Cache.Wraps.{write-wraps}
use cs140_operating_systems.Cache.Flush.{fflush_all-disk}

abbrev filled : ℕ → Block
filled b = replicate block_sector_size b

abbrev empty : Entry
empty = record { bytes = filled 0; holder = none; dirty = 0; accessed = 0 }

abbrev unsaved : ℕ → Entry
unsaved n = record { bytes = filled 7; holder = some 3; dirty = n; accessed = 1 }

abbrev queue : List ℕ
queue = replicate 20 0

abbrev two : ℕ → Cache
two n = record {
  disk = λ _. filled 0;
  size = 16;
  entries = unsaved n ∷ empty ∷ [];
  addr = update (λ _. none) 3 (some 0);
  queue_e = 21;
  queue_s = 20;
  queue = queue;
  evict_i = 2 ^ 32 - 1;
}

-- Another thread has entry 1 locked.
abbrev locks : Locks
locks = record { entry_held = λ i. i == 1; sector_held = λ _. false }

filled_length : (b : ℕ) → length (filled b) ≡ block_sector_size
filled_length b = length-replicate block_sector_size b

two-linked :
    (n s i : ℕ)
    → (two n).addr s ≡ some i
    → (e : Entry) × (get_elem? (two n).entries i ≡ some e) × (e.holder ≡ some s)
two-linked n s i a = elim (Bool-cases (s == 3)) [
  | inl here ↦
      let s3 : s ≡ 3 = (==_iff s 3).0 here in
      let i0 : i ≡ 0 = ground arith in (unsaved n, rw i0, ap some (sym s3))
  | inr off ↦ let none_some : none ≡ some i = rw off at a in absurd (cc)
]

two-held :
    (n : ℕ)
    → n ≢ 0
    → (i : ℕ) (e : Entry) (s : ℕ) → get_elem? (two n).entries i ≡ some e
    → e.holder ≡ some s
    → Holds (two n) i e s
two-held n ne zero e s got he =
    let same : unsaved n ≡ e = cc in
    let s3 : 3 ≡ s = (let h : some 3 ≡ some s = ap (λ (x : Entry). x.holder) same ∙ he in cc) in
    subst (λ t. Holds (two n) 0 e t) s3
      (subst (λ x. Holds (two n) 0 x 3) same
        (record {
          back = refl;
          inside = omega arith;
          placed = omega arith;
          full = filled_length 7;
          clean = λ d. absurd (ne d);
        }))
two-held n ne (suc zero) e s got he =
    let same : empty ≡ e = cc in
    let none_some : none ≡ some s = ap (λ (x : Entry). x.holder) same ∙ he in absurd (cc)
two-held n ne (suc (suc i)) e s got he = absurd (cc)

two-IsValid : (n : ℕ) → n ≢ 0 → IsValid (two n)
two-IsValid n ne = record {
  linked = two-linked n;
  held = two-held n ne;
  sized = λ s. filled_length 0;
}

two-DirtyAtMost : DirtyAtMost (2 ^ 16 - 2) (two 5).entries
two-DirtyAtMost zero e got =
    let same : unsaved 5 ≡ e = cc in subst (λ (x : Entry). x.dirty ≤ 2 ^ 16 - 2) same (omega arith)
two-DirtyAtMost (suc zero) e got =
    let same : empty ≡ e = cc in subst (λ (x : Entry). x.dirty ≤ 2 ^ 16 - 2) same (omega arith)
two-DirtyAtMost (suc (suc i)) e got = absurd (cc)

-- The hand is at 2 ^ 32 - 1, which is -1 as an int: entry 1, which is locked; then entry 0, which was
-- read lately; then entry 1 again; then entry 0 goes.
evict_second_pass : Option ℕ
evict_second_pass = elim (evict locks (two 5)) [ none ↦ none | some (c, r) ↦ r ]

evict_takes_0 : evict_second_pass ≡ some 0
unfolding evict_second_pass evict evict_loop evict_round evict_pick evict_locked evict_held
    fflush_single block_write
evict_takes_0 = refl

evict-Evicted_example :
    (c' : Cache) × (r : Option ℕ) × (evict locks (two 5) ≡ some (c', r)) × Evicted (two 5) c' r
evict-Evicted_example = evict-Evicted locks (two-IsValid 5 (omega arith)) (omega arith)

fflush_single-Flushed_example :
    (c' : Cache) × (e' : Entry) × (fflush_single (two 5) 0 ≡ some c')
    × Flushed (two 5) 0 (unsaved 5) 3 c' e'
fflush_single-Flushed_example =
    fflush_single-Flushed 0 (unsaved 5) 3 (two-IsValid 5 (omega arith)) refl refl

read_segment-view_example :
    (c' : Cache) × (cached_block_read_segment locks (two 5) 3 10 20
      ≡ some (c', slice 10 20 (view (two 5) 3)))
    × Keeps (two 5) c'
read_segment-view_example =
    read_segment-view locks 3 (two-IsValid 5 (omega arith)) (omega arith) (omega arith)
      (omega arith) (omega arith) 10 20 (omega arith) (omega arith)

write_segment-Rewrote_example :
    (c' : Cache) × (cached_block_write_segment locks (two 5) 4 1 3 (8 ∷ 9 ∷ []) none ≡ some c')
    × Rewrote (two 5) 4 (splice 1 3 (8 ∷ 9 ∷ []) (view (two 5) 4)) c'
write_segment-Rewrote_example =
    write_segment-Rewrote locks 4 (two-IsValid 5 (omega arith)) (omega arith) (omega arith)
      (omega arith) (omega arith) two-DirtyAtMost 1 3 (8 ∷ 9 ∷ []) (omega arith) (omega arith)
      (omega arith)

write-wraps_example :
    (c1 : Cache) × (c2 : Cache) × (e1 : Entry) × (cached_block_write_segment locks
        (two (2 ^ 16 - 1))
        3
        1
        3
        (8 ∷ 9 ∷ [])
        none
      ≡ some c1)
    × (get_elem? c1.entries 0 ≡ some e1)
    × (e1.bytes ≡ splice 1 3 (8 ∷ 9 ∷ []) (filled 7))
    × (fflush_single c1 0 ≡ some c2)
    × (c2.disk ≡ (two (2 ^ 16 - 1)).disk)
write-wraps_example =
    write-wraps (two (2 ^ 16 - 1)) locks 3 0 1 3 (unsaved (2 ^ 16 - 1)) (8 ∷ 9 ∷ []) (omega arith)
      (omega arith) (omega arith) refl refl refl refl

fflush_all-disk_example :
    (c' : Cache) × (fflush_all (two 5) ≡ some c')
    × Keeps (two 5) c'
    × ((s : ℕ) → c'.disk s ≡ view (two 5) s)
fflush_all-disk_example = fflush_all-disk (two-IsValid 5 (omega arith))

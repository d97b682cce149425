-- ===== src/Inode/Index.antt =====
-- lookup in inode.c where it creates nothing: it follows the index on the disk that the cache stands for.
use mathlib.Core.Path.{subst, fun_ext}
use cs140_operating_systems.Base.{
  ℕ, ◌/◌, ◌%◌, ◌^◌, ◌≤◌, ◌<◌, ◌≡◌, ◌≢◌, refl, ap, ◌∙◌, true, false, none, some, ◌==◌, ltb,
  if◌then◌else◌, arith, inl, inr, Bool-cases, lt→ltb, length,
}
use cs140_operating_systems.FreeMap.{Written}
use cs140_operating_systems.Cache.{Block, Locks, sector_num, block_sector_size, cached_block_read}
use cs140_operating_systems.Cache.Inv.{IsValid, Keeps, Keeps-trans, view, length-view}
use cs140_operating_systems.Cache.Read.{read_segment-view, slice_whole}
use cs140_operating_systems.Inode.{
  Fs, entry, no_sector, read_block, slot, next_lvl, write_new, release_pointer, lookup_fails,
  lookup_writes, lookup3, lookup2, lookup,
}

-- A device that can be read: its cache is valid and has up to 128 entries, and addr has a place for each
-- sector.
pub record Ready (fs : Fs) : Type 0 where
  pub valid : IsValid fs.device
  pub entries : 0 < length fs.device.entries
  pub few : length fs.device.entries ≤ 128
  pub small : fs.device.size ≤ sector_num

-- The same disk and the same free map.
pub record Stands (fs fs' : Fs) : Type 0 where
  pub keeps : Keeps fs.device fs'.device
  pub map : fs'.map ≡ fs.map

Stands-trans : {a b c : Fs} → Stands a b → Stands b c → Stands a c
Stands-trans s t = record { keeps = Keeps-trans s.keeps t.keeps; map = t.map ∙ s.map }

Stands-Ready : {fs fs' : Fs} → Ready fs → Stands fs fs' → Ready fs'
Stands-Ready r s = record {
  valid = s.keeps.valid;
  entries = omega (arith, r.entries, s.keeps.count);
  few = omega (arith, r.few, s.keeps.count);
  small = omega (arith, r.small, s.keeps.size);
}

-- Where a page of the file is, by the three levels from sector lvl1 on; no_sector if it is missing.
unfoldable pub resolve : (ℕ → Block) → ℕ → ℕ → ℕ
resolve v lvl1 page =
    if entry (v lvl1) (page / 1024) == no_sector
    then no_sector
    else if entry (v (entry (v lvl1) (page / 1024))) (page / 32 % 32) == no_sector
    then no_sector
    else entry (v (entry (v (entry (v lvl1) (page / 1024))) (page / 32 % 32))) (page % 32)

module _ (locks : Locks) (written : Written) where
  read_block-view :
      (fs : Fs) (sector : ℕ)
      → Ready fs
      → sector < fs.device.size
      → (fs' : Fs) × (read_block locks written fs sector ≡ some (fs', view fs.device sector))
        × Stands fs fs'
  unfolding read_block cached_block_read
  read_block-view fs sector r inside =
      let (c, run, keeps) =
        read_segment-view locks sector r.valid r.entries r.few inside (omega (arith, r.small)) 0
          block_sector_size (omega arith) (omega arith) in
      (
        record fs { device = c },
        rw (lt→ltb sector sector_num (omega (arith, r.small)), run)
            (ap (λ b. some (record fs { device = c }, b))
              (slice_whole (view fs.device sector) (length-view r.valid sector))),
        record { keeps = keeps; map = refl },
      )

  -- The last level: its entry is the result, missing or not.
  step3 :
      (fs : Fs) (lvl1_sector a b c : ℕ) (lvl1 lvl2 : Block)
      → Ready fs
      → entry lvl2 b < fs.device.size
      → (fs' : Fs) × (lookup3 locks written fs lvl1_sector a b c false lvl1 lvl2 none none
          ≡ some (fs', false, entry (view fs.device (entry lvl2 b)) c))
        × Stands fs fs'
  unfolding lookup3 next_lvl slot lookup_fails lookup_writes write_new release_pointer
  step3 fs lvl1_sector a b c lvl1 lvl2 r inside =
      let (fs', run, stands) = read_block-view fs (entry lvl2 b) r inside in
      elim (Bool-cases (entry (view fs.device (entry lvl2 b)) c == no_sector)) [
        | inl e ↦
            let same : no_sector ≡ entry (view fs.device (entry lvl2 b)) c = ground arith in
            (fs', rw (run, e) (ap (λ s. some (fs', false, s)) same), stands)
        | inr ne ↦ (fs', rw (run, ne), stands)
      ]

  step2 :
      (fs : Fs) (lvl1_sector a b c : ℕ) (lvl1 : Block)
      → Ready fs
      → entry lvl1 a < fs.device.size
      → (entry (view fs.device (entry lvl1 a)) b ≢ no_sector
          → entry (view fs.device (entry lvl1 a)) b < fs.device.size)
      → (fs' : Fs) × (lookup2 locks written fs lvl1_sector a b c false lvl1 none
          ≡ some (
            fs',
            false,
            if entry (view fs.device (entry lvl1 a)) b == no_sector
                then no_sector
                else entry (view fs.device (entry (view fs.device (entry lvl1 a)) b)) c,
          ))
        × Stands fs fs'
  unfolding lookup2 next_lvl slot lookup_fails release_pointer
  step2 fs lvl1_sector a b c lvl1 r inside inside2 =
      let (fs1, run, stands) = read_block-view fs (entry lvl1 a) r inside in
      elim (Bool-cases (entry (view fs.device (entry lvl1 a)) b == no_sector)) [
        | inl e ↦ (fs1, rw (run, e), stands)
        | inr ne ↦
            let there = inside2 (λ s.
              let hit : (entry (view fs.device (entry lvl1 a)) b == no_sector) ≡ true =
                ground arith in
              cc) in
            let (fs2, run2, stands2) =
              step3 fs1 lvl1_sector a b c lvl1 (view fs.device (entry lvl1 a))
                (Stands-Ready r stands) (omega (arith, there, stands.keeps.size)) in
            (
              fs2,
              rw (run, ne)
                  (run2
                    ∙ ap (λ b. some (fs2, false, entry b c))
                        (stands.keeps.views (entry (view fs.device (entry lvl1 a)) b))),
              Stands-trans stands stands2,
            )
      ]

  -- The second level on, on a disk that is known to be v.
  step2-known :
      (v : ℕ → Block) (fs : Fs) (lvl1_sector a b c : ℕ) (lvl1 : Block)
      → view fs.device ≡ v
      → Ready fs
      → entry lvl1 a < fs.device.size
      → (entry (v (entry lvl1 a)) b ≢ no_sector → entry (v (entry lvl1 a)) b < fs.device.size)
      → (fs' : Fs) × (lookup2 locks written fs lvl1_sector a b c false lvl1 none
          ≡ some (
            fs',
            false,
            if entry (v (entry lvl1 a)) b == no_sector
                then no_sector
                else entry (v (entry (v (entry lvl1 a)) b)) c,
          ))
        × Stands fs fs'
  step2-known v fs lvl1_sector a b c lvl1 known r inside =
      subst
        (λ v.
          (entry (v (entry lvl1 a)) b ≢ no_sector → entry (v (entry lvl1 a)) b < fs.device.size)
          → (fs' : Fs) × (lookup2 locks written fs lvl1_sector a b c false lvl1 none
              ≡ some (
                fs',
                false,
                if entry (v (entry lvl1 a)) b == no_sector
                    then no_sector
                    else entry (v (entry (v (entry lvl1 a)) b)) c,
              ))
            × Stands fs fs')
        known (step2 fs lvl1_sector a b c lvl1 r inside)

-- On a device that can be read, behind a valid cache of 1 to 128 entries and with a place in addr for
-- each sector, with malloc's memory, a page within the index, and the sectors that the index names on
-- the way to it on the device: lookup without creating fails no ASSERT, allocates nothing, keeps the
-- free map and the disk that the cache stands for, and gives the sector where the index on that disk
-- says the page is.
pub lookup-resolve :
    (locks : Locks) (written : Written) (fs : Fs) (lvl1 page : ℕ)
    → Ready fs
    → page < 2 ^ 15
    → lvl1 < fs.device.size
    → (entry (view fs.device lvl1) (page / 1024) ≢ no_sector
        → entry (view fs.device lvl1) (page / 1024) < fs.device.size)
    → (entry (view fs.device (entry (view fs.device lvl1) (page / 1024))) (page / 32 % 32)
          ≢ no_sector
        → entry (view fs.device (entry (view fs.device lvl1) (page / 1024))) (page / 32 % 32)
          < fs.device.size)
    → (fs' : Fs) × (lookup locks written true fs lvl1 page false
        ≡ some (fs', false, resolve (view fs.device) lvl1 page))
      × Stands fs fs'
unfolding lookup slot lookup_fails release_pointer resolve
lookup-resolve locks written fs lvl1 page r hp h1 h2 h3 =
    let (fs1, run, stands) = read_block-view locks written fs lvl1 r h1 in
    let small : page % 2 ^ 16 ≡ page = omega arith in
    let within : ltb (page / 1024) 32 ≡ true = lt→ltb (page / 1024) 32 (omega arith) in
    elim (Bool-cases (entry (view fs.device lvl1) (page / 1024) == no_sector)) [
      | inl e ↦ (fs1, rw (small, within, run, e), stands)
      | inr ne ↦
          let there = h2 (λ s.
            let hit : (entry (view fs.device lvl1) (page / 1024) == no_sector) ≡ true =
              ground arith in
            cc) in
          let (fs2, run2, stands2) =
            step2-known locks written (view fs.device) fs1 lvl1 (page / 1024) (page / 32 % 32)
              (page % 32) (view fs.device lvl1) (fun_ext stands.keeps.views) (Stands-Ready r stands)
              (omega (arith, there, stands.keeps.size))
              (λ n. let in_old = h3 n in omega (arith, in_old, stands.keeps.size)) in
          (fs2, rw (small, within, run, ne, small) run2, Stands-trans stands stands2)
    ]

-- ===== src/Cache/Single.antt =====
-- fflush_single in cached_block.c.
use mathlib.Core.Path.{subst}
use cs140_operating_systems.Base.{
  ℕ, ◌≤◌, ◌≡◌, ◌≢◌, refl, sym, ap, ◌∙◌, some, ◌==◌, ==_iff, inl, inr, Bool-cases, if◌then◌else◌,
  get_elem?, length, arith, get_elem?-set_self, get_elem?-set_ne, lt-length_of_some, length-set,
  update, ==-refl, ==-eq_false, lt→ltb,
}
use cs140_operating_systems.Cache.{
  Block, Entry, Cache, block_sector_size, put_entry, block_write, fflush_single,
}
use cs140_operating_systems.Cache.Inv.{
  IsValid, Keeps, view, replaced-IsValid, view-replaced_self, view-replaced_other, view_held,
  DirtyAtMost, DirtyAtMost-set,
}

-- What fflush_single leaves of the entry i that holds sector h.
pub record Flushed (c : Cache) (i : ℕ) (e : Entry) (h : ℕ) (c' : Cache) (e' : Entry) : Type 0 where
  pub keeps : Keeps c c'
  pub got : get_elem? c'.entries i ≡ some e'
  pub holder : e'.holder ≡ some h
  pub on_disk : e'.bytes ≡ c'.disk h
  pub addr : (s : ℕ) → c'.addr s ≡ c.addr s
  pub others : (j : ℕ) → i ≢ j → get_elem? c'.entries j ≡ get_elem? c.entries j
  pub disk : (s : ℕ) → s ≢ h → c'.disk s ≡ c.disk s
  pub dirty : e'.dirty ≡ (if e.dirty == 0 then 0 else 1)
  pub calm : (n : ℕ) → 1 ≤ n → DirtyAtMost n c.entries → DirtyAtMost n c'.entries

module _ {c : Cache} (i : ℕ) (e : Entry) (h : ℕ) (v : IsValid c)
    (got : get_elem? c.entries i ≡ some e) (he : e.holder ≡ some h) where
  -- Only the dirty count changes, and the disk at h becomes the entry's bytes.
  synced-Flushed :
      (d : ℕ) (disk' : ℕ → Block)
      → d ≡ (if e.dirty == 0 then 0 else 1)
      → e.bytes ≡ disk' h
      → ((s : ℕ) → s ≢ h → disk' s ≡ c.disk s)
      → Flushed c i e h
          (record (put_entry c i (record e { dirty = d })) { disk = disk' })
          (record e { dirty = d })
  synced-Flushed d disk' de at_h off_h = record {
    keeps = record {
      valid = replaced-IsValid i e e' disk' v got refl fits others sized;
      views = views;
      size = refl;
      count = length-set c.entries i e';
    };
    got = get_elem?-set_self c.entries i e' (lt-length_of_some c.entries i got);
    holder = he;
    on_disk = at_h;
    addr = λ s. refl;
    others = λ j ij. get_elem?-set_ne c.entries i j e' ij;
    disk = off_h;
    dirty = de;
    calm = λ n pos all. DirtyAtMost-set n c.entries i e' all (ground arith);
  }
    where
      e' : Entry
      e' = record e { dirty = d }

      is_h : (s : ℕ) → e.holder ≡ some s → h ≡ s
      is_h s hs = cc

      fits :
          (s : ℕ)
          → e.holder ≡ some s
          → (length e.bytes ≡ block_sector_size) × (d ≡ 0 → e.bytes ≡ disk' s)
      fits s hs = ((v.held i e s got hs).full, λ _. subst (λ t. e.bytes ≡ disk' t) (is_h s hs) at_h)

      others : (s : ℕ) → e.holder ≢ some s → disk' s ≡ c.disk s
      others s ne = off_h s (λ sh. ne (he ∙ ap some (sym sh)))

      sized : (s : ℕ) → length (disk' s) ≡ block_sector_size
      sized s = elim (Bool-cases (s == h)) [
        | inl e' ↦ let sh : s ≡ h = (==_iff s h).0 e' in rw (sh, ← at_h) (v.held i e h got he).full
        | inr off ↦ rw (off_h s (λ sh. ground arith)) (v.sized s)
      ]

      views : (s : ℕ) → view (record (put_entry c i e') { disk = disk' }) s ≡ view c s
      views s = elim (Bool-cases (s == h)) [
        | inl e'' ↦
            let sh : s ≡ h = (==_iff s h).0 e'' in
            rw sh (
              view-replaced_self i e e' disk' v got refl fits others sized h he
              ∙ sym (view_held v i e h got he))
        | inr off ↦
            view-replaced_other i e e' disk' v got refl fits others sized s
              (λ hs. let p = is_h s hs in ground arith)
      ]

  -- fflush_single on an entry of a valid cache that holds a sector fails no ASSERT, puts its bytes on the
  -- disk, changes no other sector or entry, and leaves the dirty count at 1 if it was not 0.
  pub fflush_single-Flushed :
      (c' : Cache) × (e' : Entry) × (fflush_single c i ≡ some c') × Flushed c i e h c' e'
  unfolding fflush_single block_write
  fflush_single-Flushed = elim (Bool-cases (e.dirty == 0)) [
    | inl clean ↦
        let same = (v.held i e h got he).clean (ground arith) in
        (
          put_entry c i (record e { dirty = 0 }),
          record e { dirty = 0 },
          rw (got, clean),
          synced-Flushed 0 c.disk (rw clean) same (λ s ne. refl),
        )
    | inr dirty ↦ (
      record (put_entry c i (record e { dirty = 1 })) { disk = update c.disk h e.bytes },
      record e { dirty = 1 },
      rw (got, dirty, he, lt→ltb h c.size (v.held i e h got he).inside),
      synced-Flushed 1 (update c.disk h e.bytes) (rw dirty) (rw (==-refl h))
          (λ s ne. rw (==-eq_false s h ne)),
    )
  ]

-- ===== src/Cache/Link.antt =====
-- Moving a sector out of an entry and into an entry, as cached_block.c does under its locks.
use mathlib.Core.Path.{subst}
use cs140_operating_systems.Base.{
  ℕ, ◌<◌, ◌≡◌, ◌≢◌, refl, sym, ap, ◌∙◌, false, none, some, ◌==◌, ==_iff, inl, inr, Bool-cases,
  get_elem?, set, arith, get_elem?-set_self, get_elem?-set_ne, lt-length_of_some, length-set,
  Option-cases, update, ==-refl, ==-eq_false,
}
use cs140_operating_systems.Cache.{Entry, Cache, put_entry, sector_num}
use cs140_operating_systems.Cache.Inv.{IsValid, Holds, Keeps, view, view_at, holder_unique}

module _ {c : Cache} (i : ℕ) (e : Entry) (h : ℕ) (v : IsValid c)
    (got : get_elem? c.entries i ≡ some e) (he : e.holder ≡ some h)
    (clean : e.bytes ≡ c.disk h) where
  abbrev pub unlinked : Cache
  unlinked = record (put_entry c i (record e { holder = none })) { addr = update c.addr h none }

  pub unlinked_self :
      get_elem? (set c.entries i (record e { holder = none })) i ≡ some (record e { holder = none })
  unlinked_self = get_elem?-set_self c.entries i _ (lt-length_of_some c.entries i got)

  unlinked_apart :
      (s j : ℕ) {x : Entry} → s ≢ h → get_elem? c.entries j ≡ some x → x.holder ≡ some s → i ≢ j
  unlinked_apart s j {x} ne gx hx ij =
      let same : x ≡ e = cc in
      let both : some s ≡ some h = sym hx ∙ ap (λ (y : Entry). y.holder) same ∙ he in ne (cc)

  unlinked-linked :
      (s j : ℕ)
      → update c.addr h none s ≡ some j
      → (x : Entry) × (get_elem? unlinked.entries j ≡ some x) × (x.holder ≡ some s)
  unlinked-linked s j a =
      let ne : s ≢ h = λ sh. ground arith in
      let old : c.addr s ≡ some j = ground arith in
      let (x, gx, hx) = v.linked s j old in
      (x, get_elem?-set_ne c.entries i j _ (unlinked_apart s j ne gx hx) ∙ gx, hx)

  unlinked-held :
      (j : ℕ) (x : Entry) (s : ℕ)
      → get_elem? unlinked.entries j ≡ some x
      → x.holder ≡ some s
      → Holds unlinked j x s
  unlinked-held j x s gx hx = elim (Bool-cases (j == i)) [
    | inl here ↦
        let ji : j ≡ i = (==_iff j i).0 here in
        let gi : get_elem? unlinked.entries i ≡ some x =
          subst (λ k. get_elem? unlinked.entries k ≡ some x) ji gx in
        let xe : some (record e { holder = none }) ≡ some x = sym unlinked_self ∙ gi in absurd (cc)
    | inr off ↦
        let ij : i ≢ j = ground arith in
        let gx' : get_elem? c.entries j ≡ some x = sym (get_elem?-set_ne c.entries i j _ ij) ∙ gx in
        let old = v.held j x s gx' hx in
        let ne : (s == h) ≡ false =
          ==-eq_false s h (λ sh. ij (holder_unique v i j s got (he ∙ ap some (sym sh)) gx' hx)) in
        record {
          back = rw ne old.back;
          inside = old.inside;
          placed = old.placed;
          full = old.full;
          clean = old.clean;
        }
  ]

  view-unlinked : (s : ℕ) → view unlinked s ≡ view c s
  unfolding view_at
  view-unlinked s = elim (Bool-cases (s == h)) [
    | inl here ↦
        let sh : s ≡ h = (==_iff s h).0 here in
        rw (sh, ==-refl h, (v.held i e h got he).back, got) (sym clean)
    | inr off ↦ rw off (elim (Option-cases (c.addr s)) [
      | inl out ↦ rw out
      | inr (j, a) ↦
          let (x, gx, hx) = v.linked s j a in
          rw (a, get_elem?-set_ne c.entries i j _ (unlinked_apart s j (λ sh. ground arith) gx hx))
    ])
  ]

  pub unlinked-Keeps : Keeps c unlinked
  unlinked-Keeps = record {
    valid = record { linked = unlinked-linked; held = unlinked-held; sized = v.sized };
    views = view-unlinked;
    size = refl;
    count = length-set c.entries i _;
  }

module _ {c : Cache} (i : ℕ) (e : Entry) (s : ℕ) (v : IsValid c)
    (got : get_elem? c.entries i ≡ some e) (free : e.holder ≡ none) (out : c.addr s ≡ none)
    (inside : s < c.size) (placed : s < sector_num) where
  abbrev filled : Entry
  filled = record e { holder = some s; bytes = c.disk s }

  abbrev pub linked_in : Cache
  linked_in = record (put_entry c i filled) { addr = update c.addr s (some i) }

  pub linked_in_self : get_elem? (set c.entries i filled) i ≡ some filled
  linked_in_self = get_elem?-set_self c.entries i _ (lt-length_of_some c.entries i got)

  linked_in_apart :
      (t j : ℕ) {x : Entry} → get_elem? c.entries j ≡ some x → x.holder ≡ some t → i ≢ j
  linked_in_apart t j {x} gx hx ij =
      let same : x ≡ e = cc in
      let both : some t ≡ none = sym hx ∙ ap (λ (y : Entry). y.holder) same ∙ free in absurd (cc)

  linked_in-linked :
      (t j : ℕ)
      → update c.addr s (some i) t ≡ some j
      → (x : Entry) × (get_elem? linked_in.entries j ≡ some x) × (x.holder ≡ some t)
  linked_in-linked t j a = elim (Bool-cases (t == s)) [
    | inl here ↦
        let ts : t ≡ s = (==_iff t s).0 here in
        let ij : i ≡ j = ground arith in
        (
          filled,
          subst (λ k. get_elem? linked_in.entries k ≡ some filled) ij linked_in_self,
          ap some (sym ts),
        )
    | inr off ↦
        let old : c.addr t ≡ some j = ground arith in
        let (x, gx, hx) = v.linked t j old in
        (x, get_elem?-set_ne c.entries i j _ (linked_in_apart t j gx hx) ∙ gx, hx)
  ]

  linked_in-held :
      (j : ℕ) (x : Entry) (t : ℕ)
      → get_elem? linked_in.entries j ≡ some x
      → x.holder ≡ some t
      → Holds linked_in j x t
  linked_in-held j x t gx hx = elim (Bool-cases (j == i)) [
    | inl here ↦
        let ji : j ≡ i = (==_iff j i).0 here in
        let gi : get_elem? linked_in.entries i ≡ some x =
          subst (λ k. get_elem? linked_in.entries k ≡ some x) ji gx in
        let xe : some filled ≡ some x = sym linked_in_self ∙ gi in
        let xf : filled ≡ x = cc in
        let st : s ≡ t = cc in
        subst (λ u. Holds linked_in j x u) st
          (subst (λ y. Holds linked_in j y s) xf
            (record {
              back = rw (==-refl s) (ap some (sym ji));
              inside = inside;
              placed = placed;
              full = v.sized s;
              clean = λ d. refl;
            }))
    | inr off ↦
        let gx' : get_elem? c.entries j ≡ some x =
          sym (get_elem?-set_ne c.entries i j _ (ground arith)) ∙ gx in
        let old = v.held j x t gx' hx in
        let back = old.back in
        let ne : (t == s) ≡ false = ==-eq_false t s (λ ts. absurd (absent t j back ts)) in
        record {
          back = rw ne back;
          inside = old.inside;
          placed = old.placed;
          full = old.full;
          clean = old.clean;
        }
  ]
    where
      absent : (t j : ℕ) → c.addr t ≡ some j → t ≡ s → ⊥
      absent t j a ts = cc

  view-linked_in : (t : ℕ) → view linked_in t ≡ view c t
  unfolding view_at
  view-linked_in t = elim (Bool-cases (t == s)) [
    | inl here ↦ let ts : t ≡ s = (==_iff t s).0 here in rw (ts, ==-refl s, linked_in_self, out)
    | inr off ↦ rw off (elim (Option-cases (c.addr t)) [
      | inl miss ↦ rw miss
      | inr (j, a) ↦
          let (x, gx, hx) = v.linked t j a in
          rw (a, get_elem?-set_ne c.entries i j _ (linked_in_apart t j gx hx))
    ])
  ]

  pub linked_in-Keeps : Keeps c linked_in
  linked_in-Keeps = record {
    valid = record { linked = linked_in-linked; held = linked_in-held; sized = v.sized };
    views = view-linked_in;
    size = refl;
    count = length-set c.entries i _;
  }

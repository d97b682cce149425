-- ===== src/Cache/Inv.antt =====
-- The invariant of cached_block.c, and what the cache stands for: the sectors of a disk.
use mathlib.Core.Path.{subst}
use cs140_operating_systems.Base.{
  ℕ, ◌<◌, ◌≤◌, ◌≡◌, ◌≢◌, refl, sym, ap, ◌∙◌, Option, none, some, List, [], ◌==◌, ==_iff, inl, inr,
  ◌⊎◌, Bool-cases, get_elem?, set, length, arith, get_elem?-set_self, get_elem?-set_ne,
  lt-length_of_some, length-set, Option-cases,
}
use cs140_operating_systems.Cache.{Block, Entry, Cache, block_sector_size, sector_num, put_entry}

pub held_bytes : Option Entry → Block
held_bytes none = []
held_bytes (some e) = e.bytes

unfoldable pub view_at : Cache → ℕ → Option ℕ → Block
unfolding held_bytes
view_at c s none = c.disk s
view_at c s (some i) = held_bytes (get_elem? c.entries i)

-- The content of a sector: in the entry that holds it, or on the disk.
abbrev pub view : Cache → ℕ → Block
view c s = view_at c s (c.addr s)

-- What an entry that holds sector s guarantees.
pub record Holds (c : Cache) (i : ℕ) (e : Entry) (s : ℕ) : Type 0 where
  pub back : c.addr s ≡ some i
  pub inside : s < c.size
  pub placed : s < sector_num
  pub full : length e.bytes ≡ block_sector_size
  pub clean : e.dirty ≡ 0 → e.bytes ≡ c.disk s

-- `addr` and the holders agree, and an entry that is not dirty is a copy of its sector.
pub record IsValid (c : Cache) : Type 0 where
  pub linked :
      (s i : ℕ)
      → c.addr s ≡ some i
      → (e : Entry) × (get_elem? c.entries i ≡ some e) × (e.holder ≡ some s)
  pub held :
      (i : ℕ) (e : Entry) (s : ℕ)
      → get_elem? c.entries i ≡ some e
      → e.holder ≡ some s
      → Holds c i e s
  pub sized : (s : ℕ) → length (c.disk s) ≡ block_sector_size

-- No entry counts more than n unsaved writes.
abbrev pub DirtyAtMost : ℕ → List Entry → Type 0
DirtyAtMost n entries = (i : ℕ) (e : Entry) → get_elem? entries i ≡ some e → e.dirty ≤ n

pub DirtyAtMost-set :
    (n : ℕ) (entries : List Entry) (i : ℕ) (e' : Entry)
    → DirtyAtMost n entries
    → e'.dirty ≤ n
    → DirtyAtMost n (set entries i e')
DirtyAtMost-set n entries i e' all le j e got = elim (Bool-cases (i == j)) [
  | inl here ↦
      let ij : i ≡ j = (==_iff i j).0 here in
      let in_old = subst (λ l. j < l) (length-set entries i e') (lt-length_of_some _ j got) in
      let self : get_elem? (set entries i e') j ≡ some e' =
        subst (λ k. get_elem? (set entries i e') k ≡ some e') ij
          (get_elem?-set_self entries i e' (omega arith)) in
      let same : e' ≡ e = cc in subst (λ (x : Entry). x.dirty ≤ n) same le
  | inr off ↦ all j e (sym (get_elem?-set_ne entries i j e' (ground arith)) ∙ got)
]

-- A cache that stands for the same disk.
pub record Keeps (c c' : Cache) : Type 0 where
  pub valid : IsValid c'
  pub views : (s : ℕ) → view c' s ≡ view c s
  pub size : c'.size ≡ c.size
  pub count : length c'.entries ≡ length c.entries

pub Keeps-refl : {c : Cache} → IsValid c → Keeps c c
Keeps-refl v = record { valid = v; views = λ s. refl; size = refl; count = refl }

pub Keeps-trans : {a b c : Cache} → Keeps a b → Keeps b c → Keeps a c
Keeps-trans k l = record {
  valid = l.valid;
  views = λ s. l.views s ∙ k.views s;
  size = l.size ∙ k.size;
  count = l.count ∙ k.count;
}

module _ {c : Cache} (v : IsValid c) where
  -- The entry that `addr` names holds the sector.
  pub holder_at :
      (s i : ℕ) {e : Entry} → c.addr s ≡ some i → get_elem? c.entries i ≡ some e → e.holder ≡ some s
  holder_at s i {e} a got =
      let (x, gx, hx) = v.linked s i a in
      let same : x ≡ e = cc in subst (λ y. y.holder ≡ some s) same hx

  -- A sector is in one entry only.
  pub holder_unique :
      (i j s : ℕ) {e x : Entry}
      → get_elem? c.entries i ≡ some e
      → e.holder ≡ some s
      → get_elem? c.entries j ≡ some x
      → x.holder ≡ some s
      → i ≡ j
  holder_unique i j s ge he gx hx =
      let p = (v.held i _ s ge he).back in let q = (v.held j _ s gx hx).back in cc

  pub view_held :
      (i : ℕ) (e : Entry) (s : ℕ)
      → get_elem? c.entries i ≡ some e
      → e.holder ≡ some s
      → view c s ≡ e.bytes
  unfolding view_at
  view_held i e s got he = rw ((v.held i e s got he).back, got)

length-view_at :
    {c : Cache} (v : IsValid c) (s : ℕ) (o : Option ℕ)
    → c.addr s ≡ o
    → length (view_at c s o) ≡ block_sector_size
unfolding view_at held_bytes
length-view_at v s none a = v.sized s
length-view_at v s (some i) a =
    let (e, got, he) = v.linked s i a in rw got (v.held i e s got he).full

pub length-view : {c : Cache} (v : IsValid c) (s : ℕ) → length (view c s) ≡ block_sector_size
length-view {c} v s = length-view_at v s (c.addr s) refl

pub holder-cases : (o : Option ℕ) (s : ℕ) → (o ≡ some s) ⊎ (o ≢ some s)
holder-cases none s = inr (λ e. cc)
holder-cases (some t) s = elim (Bool-cases (t == s)) [
  | inl e ↦ inl (ap some ((==_iff t s).0 e))
  | inr e ↦ inr (λ p. let ts : t ≡ s = cc in ground arith)
]

-- Entry i is replaced by one with the same holder, and the disk changes at the holder's sector only.
module _ {c : Cache} (i : ℕ) (e e' : Entry) (disk' : ℕ → Block) (v : IsValid c)
    (got : get_elem? c.entries i ≡ some e) (same : e'.holder ≡ e.holder)
    (fits : (s : ℕ)
      → e.holder ≡ some s
      → (length e'.bytes ≡ block_sector_size) × (e'.dirty ≡ 0 → e'.bytes ≡ disk' s))
    (others : (s : ℕ) → e.holder ≢ some s → disk' s ≡ c.disk s)
    (sized' : (s : ℕ) → length (disk' s) ≡ block_sector_size) where
  abbrev replaced : Cache
  replaced = record (put_entry c i e') { disk = disk' }

  at_self : get_elem? (set c.entries i e') i ≡ some e'
  at_self = get_elem?-set_self c.entries i e' (lt-length_of_some c.entries i got)

  replaced-linked :
      (s j : ℕ)
      → c.addr s ≡ some j
      → (x : Entry) × (get_elem? (set c.entries i e') j ≡ some x) × (x.holder ≡ some s)
  replaced-linked s j a = elim (Bool-cases (j == i)) [
    | inl here ↦
        let ji : j ≡ i = (==_iff j i).0 here in
        (e', rw ji at_self, same ∙ holder_at v s i (a ∙ ap some ji) got)
    | inr off ↦
        let (x, gx, hx) = v.linked s j a in
        (x, get_elem?-set_ne c.entries i j e' (ground arith) ∙ gx, hx)
  ]

  replaced-held :
      (j : ℕ) (x : Entry) (s : ℕ)
      → get_elem? (set c.entries i e') j ≡ some x
      → x.holder ≡ some s
      → Holds replaced j x s
  replaced-held j x s gx hx = elim (Bool-cases (j == i)) [
    | inl here ↦
        let ji : j ≡ i = (==_iff j i).0 here in
        let xe : e' ≡ x = let self = at_self in cc in
        let he : e.holder ≡ some s = cc in
        let old = v.held i e s got he in
        let (full, clean) = fits s he in
        subst (λ y. Holds replaced j y s) xe
          (record {
            back = old.back ∙ ap some (sym ji);
            inside = old.inside;
            placed = old.placed;
            full = full;
            clean = clean;
          })
    | inr off ↦
        let gx' : get_elem? c.entries j ≡ some x =
          sym (get_elem?-set_ne c.entries i j e' (ground arith)) ∙ gx in
        let old = v.held j x s gx' hx in
        let apart : e.holder ≢ some s =
          λ he. let ij = holder_unique v i j s got he gx' hx in ground arith in
        record {
          back = old.back;
          inside = old.inside;
          placed = old.placed;
          full = old.full;
          clean = λ d. old.clean d ∙ sym (others s apart);
        }
  ]

  pub replaced-IsValid : IsValid replaced
  replaced-IsValid = record { linked = replaced-linked; held = replaced-held; sized = sized' }

  pub view-replaced_self : (s : ℕ) → e.holder ≡ some s → view replaced s ≡ e'.bytes
  unfolding view_at
  view-replaced_self s h = rw ((v.held i e s got h).back, at_self)

  same_entry : {j : ℕ} (x : Entry) → get_elem? c.entries j ≡ some x → i ≡ j → x ≡ e
  same_entry x gx ij = cc

  pub view-replaced_other : (s : ℕ) → e.holder ≢ some s → view replaced s ≡ view c s
  unfolding view_at
  view-replaced_other s h = elim (Option-cases (c.addr s)) [
    | inl out ↦ rw out (others s h)
    | inr (j, a) ↦
        let (x, gx, hx) = v.linked s j a in
        let apart : i ≢ j = λ ij. h (subst (λ y. y.holder ≡ some s) (same_entry x gx ij) hx) in
        rw (a, get_elem?-set_ne c.entries i j e' apart)
  ]

-- An entry whose holder, bytes and dirty count stay.
pub touched-Keeps :
    {c : Cache} (i : ℕ) (e e' : Entry)
    → IsValid c
    → get_elem? c.entries i ≡ some e
    → e'.holder ≡ e.holder
    → e'.bytes ≡ e.bytes
    → e'.dirty ≡ e.dirty
    → Keeps c (put_entry c i e')
touched-Keeps {c} i e e' v got same bytes dirty = record {
  valid = replaced-IsValid i e e' c.disk v got same fits (λ s ne. refl) v.sized;
  views = views;
  size = refl;
  count = length-set c.entries i e';
}
  where
    fits :
        (s : ℕ)
        → e.holder ≡ some s
        → (length e'.bytes ≡ block_sector_size) × (e'.dirty ≡ 0 → e'.bytes ≡ c.disk s)
    fits s hs =
        let old = v.held i e s got hs in
        (ap length bytes ∙ old.full, λ d. bytes ∙ old.clean (sym dirty ∙ d))

    views : (s : ℕ) → view (put_entry c i e') s ≡ view c s
    views s = elim (holder-cases e.holder s) [
      | inl hs ↦
          view-replaced_self i e e' c.disk v got same fits (λ s ne. refl) v.sized s hs
          ∙ bytes
          ∙ sym (view_held v i e s got hs)
      | inr ne ↦ view-replaced_other i e e' c.disk v got same fits (λ s ne. refl) v.sized s ne
    ]

-- The queue and the clock hand do not matter.
pub queue-Keeps :
    {c : Cache} (queue : List ℕ) (queue_e queue_s evict_i : ℕ)
    → IsValid c
    → Keeps c (record c { queue = queue; queue_e = queue_e; queue_s = queue_s; evict_i = evict_i })
unfolding view_at
queue-Keeps {c} queue queue_e queue_s evict_i v = record {
  valid = record {
    linked = v.linked;
    held = λ i e s got he.
        let h = v.held i e s got he in
        record {
          back = h.back;
          inside = h.inside;
          placed = h.placed;
          full = h.full;
          clean = h.clean;
        };
    sized = v.sized;
  };
  views = λ s. elim (Option-cases (c.addr s)) [ inl out ↦ rw out | inr (j, a) ↦ rw a ];
  size = refl;
  count = refl;
}

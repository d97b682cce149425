-- ===== src/Cache/Evict.antt =====
-- What eviction does to the disk that a cache stands for.
use mathlib.Core.Path.{subst}
use native.Mathlib.Nat.{mod-lt}
use cs140_operating_systems.Base.{
  ℕ, zero, suc, ◌+◌, ◌-◌, ◌*◌, ◌^◌, ◌%◌, ◌≤◌, ◌<◌, ◌≡◌, refl, ◌∙◌, Option, none, some, ◌==◌, inl,
  inr, Bool-cases, get_elem?, get_elem?-some, set, length, arith, Option-cases, lt→ltb,
}
use cs140_operating_systems.Cache.{
  Entry, Cache, Locks, put_entry, evict_pick, evict_held, evict_round, evict_loop, evict,
  evict_locked, sector_num,
}
use cs140_operating_systems.Cache.Inv.{
  IsValid, Keeps, Keeps-refl, Keeps-trans, touched-Keeps, queue-Keeps, DirtyAtMost, DirtyAtMost-set,
}
use cs140_operating_systems.Cache.Link.{unlinked, unlinked-Keeps, unlinked_self}
use cs140_operating_systems.Cache.Single.{fflush_single-Flushed}

-- What a round of evict, or all of evict, leaves: a cache for the same disk, no new sector in it, and
-- an entry that holds none if one was taken.
pub record Evicted (c c' : Cache) (r : Option ℕ) : Type 0 where
  pub keeps : Keeps c c'
  pub missing : (s : ℕ) → c.addr s ≡ none → c'.addr s ≡ none
  pub free :
      (i : ℕ) → r ≡ some i → (e : Entry) × (get_elem? c'.entries i ≡ some e) × (e.holder ≡ none)
  pub calm : (n : ℕ) → 1 ≤ n → DirtyAtMost n c.entries → DirtyAtMost n c'.entries

stays : {c : Cache} → IsValid c → Evicted c c none
stays v = record {
  keeps = Keeps-refl v;
  missing = λ s a. a;
  free = λ i e. absurd (cc);
  calm = λ n pos all. all;
}

evict_held-Evicted :
    {c : Cache} (i : ℕ) (e : Entry) (h : ℕ)
    → IsValid c
    → get_elem? c.entries i ≡ some e
    → e.holder ≡ some h
    → (c' : Cache) × (r : Option ℕ) × (evict_held c i e h ≡ some (c', r)) × Evicted c c' r
unfolding evict_held
evict_held-Evicted {c} i e h v got he = elim (Bool-cases (e.accessed == 0)) [
  | inl idle ↦
      let (c1, e1, run, f) = fflush_single-Flushed i e h v got he in
      let unlink = unlinked-Keeps i e1 h f.keeps.valid f.got f.holder f.on_disk in
      (
        unlinked i e1 h f.keeps.valid f.got f.holder f.on_disk,
        some i,
        rw (idle, run, f.got),
        record {
          keeps = Keeps-trans f.keeps unlink;
          missing = λ s a. let a1 = f.addr s in ground arith;
          free = λ j ij.
              let same : i ≡ j = cc in
              let empty : Entry = record e1 { holder = none } in
              let self = unlinked_self i e1 h f.keeps.valid f.got f.holder f.on_disk in
              (
                empty,
                subst (λ k. get_elem? (set c1.entries i empty) k ≡ some empty) same self,
                refl,
              );
          calm = λ n pos all.
              DirtyAtMost-set n c1.entries i _ (f.calm n pos all) (f.calm n pos all i e1 f.got);
        },
      )
  | inr busy ↦ (
    put_entry c i (record e { accessed = 0 }),
    none,
    rw busy,
    record {
      keeps = touched-Keeps i e (record e { accessed = 0 }) v got refl refl refl;
      missing = λ s a. a;
      free = λ j e. absurd (cc);
      calm = λ n pos all. DirtyAtMost-set n c.entries i _ all (all i e got);
    },
  )
]

pub evict_pick-lt : (i len : ℕ) → 0 < len → evict_pick i len < len
unfolding evict_pick
evict_pick-lt i len h = ground (arith, mod-lt (2 ^ 32 - i) h, mod-lt i h)

evict_locked-Evicted :
    {c : Cache} (l : Locks) (i : ℕ) (e : Entry) (o : Option ℕ)
    → IsValid c
    → get_elem? c.entries i ≡ some e
    → e.holder ≡ o
    → (c' : Cache) × (r : Option ℕ) × (evict_locked l c i e o ≡ some (c', r)) × Evicted c c' r
unfolding evict_locked
evict_locked-Evicted {c} l i e none v got he = (
  c,
  some i,
  refl,
  record {
    keeps = Keeps-refl v;
    missing = λ s a. a;
    free =
        λ j ij. let ji : i ≡ j = cc in (e, subst (λ k. get_elem? c.entries k ≡ some e) ji got, he);
    calm = λ n pos all. all;
  },
)
evict_locked-Evicted {c} l i e (some h) v got he =
    let placed : h < sector_num = (v.held i e h got he).placed in
    elim (Bool-cases (l.sector_held h)) [
      | inl held ↦ (c, none, rw (lt→ltb h sector_num placed, held), stays v)
      | inr not_held ↦
          let (c', r, run, is) = evict_held-Evicted i e h v got he in
          (c', r, rw (lt→ltb h sector_num placed, not_held) run, is)
    ]

evict_round-Evicted :
    {c : Cache} (l : Locks)
    → IsValid c
    → 0 < length c.entries
    → (c' : Cache) × (r : Option ℕ) × (evict_round l c ≡ some (c', r)) × Evicted c c' r
unfolding evict_round
evict_round-Evicted {c} l v some_entry =
    let i : ℕ = evict_pick c.evict_i (length c.entries) in
    let c0 : Cache = record c { evict_i = (c.evict_i + 1) % 2 ^ 32 } in
    let k0 = queue-Keeps c.queue c.queue_e c.queue_s ((c.evict_i + 1) % 2 ^ 32) v in
    elim (Bool-cases (l.entry_held i)) [
      | inl held ↦ (c0, none, rw held, moved k0 (stays k0.valid))
      | inr free ↦
          let (e, got) =
            get_elem?-some c.entries i (evict_pick-lt c.evict_i (length c.entries) some_entry) in
          let (c', r, run, is) = evict_locked-Evicted {c = c0} l i e e.holder k0.valid got refl in
          (c', r, rw (free, got) run, moved k0 is)
    ]
  where
    moved :
        {c' : Cache} {r : Option ℕ} {n : ℕ}
        → Keeps c (record c { evict_i = n })
        → Evicted (record c { evict_i = n }) c' r
        → Evicted c c' r
    moved k is = record {
      keeps = Keeps-trans k is.keeps;
      missing = is.missing;
      free = is.free;
      calm = is.calm;
    }

evict_loop-Evicted :
    (n : ℕ) {c : Cache} (l : Locks)
    → IsValid c
    → 0 < length c.entries
    → (c' : Cache) × (r : Option ℕ) × (evict_loop n l c ≡ some (c', r)) × Evicted c c' r
unfolding evict_loop
evict_loop-Evicted zero {c} l v h = (c, none, refl, stays v)
evict_loop-Evicted (suc n) {c} l v h =
    let (c1, r1, run, first) = evict_round-Evicted l v h in
    elim (Option-cases r1) [
      | inl miss ↦
          let (c2, r2, runs, rest) =
            evict_loop-Evicted n l first.keeps.valid (omega (arith, first.keeps.count)) in
          (
            c2,
            r2,
            rw (run, miss) runs,
            record {
              keeps = Keeps-trans first.keeps rest.keeps;
              missing = λ s a. rest.missing s (first.missing s a);
              free = rest.free;
              calm = λ n pos all. rest.calm n pos (first.calm n pos all);
            },
          )
      | inr (i, hit) ↦ (
        c1,
        some i,
        rw (run, hit),
        record {
          keeps = first.keeps;
          missing = first.missing;
          free = λ j e. first.free j (hit ∙ e);
          calm = first.calm;
        },
      )
    ]

-- On a valid cache with entries, evict fails no ASSERT, stands for the same disk afterwards, brings no
-- sector in, and an entry that it returns exists and holds no sector, whatever locks are held.
pub evict-Evicted :
    {c : Cache} (l : Locks)
    → IsValid c
    → 0 < length c.entries
    → (c' : Cache) × (r : Option ℕ) × (evict l c ≡ some (c', r)) × Evicted c c' r
unfolding evict
evict-Evicted {c} l v h = evict_loop-Evicted (2 * length c.entries) l v h

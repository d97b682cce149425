-- ===== src/Cache/Flush.antt =====
-- fflush_all and the flusher thread of cached_block.c.
use mathlib.Core.Path.{subst}
use cs140_operating_systems.Base.{
  ℕ, zero, suc, ◌+◌, ◌<◌, ◌≡◌, ◌≢◌, refl, sym, ap, ◌∙◌, Option, none, some, ◌==◌, ==_iff, inl, inr,
  Bool-cases, get_elem?, get_elem?-some, length, arith, lt-length_of_some, Option-cases,
}
use cs140_operating_systems.Cache.{Entry, Cache, fflush_holder, fflush_loop, fflush_all}
use cs140_operating_systems.Cache.Inv.{
  IsValid, Keeps, Keeps-refl, Keeps-trans, view, view_held, holder_unique,
}
use cs140_operating_systems.Cache.Single.{fflush_single-Flushed}
use cs140_operating_systems.Cache.Read.{view_missing}

-- The sectors in the entries below n are on the disk.
Saved : ℕ → Cache → Type 0
Saved n c =
    (j : ℕ) (e : Entry) (s : ℕ)
    → j < n
    → get_elem? c.entries j ≡ some e
    → e.holder ≡ some s
    → e.bytes ≡ c.disk s

fflush_holder-Saved :
    {c : Cache} (i : ℕ) (e : Entry) (o : Option ℕ)
    → IsValid c
    → Saved i c
    → get_elem? c.entries i ≡ some e
    → e.holder ≡ o
    → (c' : Cache) × (fflush_holder c i o ≡ some c') × Keeps c c' × Saved (suc i) c'
unfolding fflush_holder Saved
fflush_holder-Saved {c} i e none v saved got he = (
  c,
  refl,
  Keeps-refl v,
  λ j x s lt gx hx. elim (Bool-cases (j == i)) [
    | inl here ↦
        let ji : j ≡ i = (==_iff j i).0 here in
        let gi : get_elem? c.entries i ≡ some x =
          subst (λ k. get_elem? c.entries k ≡ some x) ji gx in
        let ex : x ≡ e = cc in
        let both : none ≡ some s = sym he ∙ ap (λ (y : Entry). y.holder) (sym ex) ∙ hx in
        absurd (cc)
    | inr off ↦ saved j x s (ground arith) gx hx
  ],
)
fflush_holder-Saved {c} i e (some h) v saved got he =
    let (c', e', run, f) = fflush_single-Flushed i e h v got he in
    (
      c',
      run,
      f.keeps,
      λ j x s lt gx hx. elim (Bool-cases (j == i)) [
        | inl here ↦
            let ji : j ≡ i = (==_iff j i).0 here in
            let gi : get_elem? c'.entries i ≡ some x =
              subst (λ k. get_elem? c'.entries k ≡ some x) ji gx in
            let got' = f.got in
            let ex : x ≡ e' = cc in
            let hs : some s ≡ some h = sym hx ∙ ap (λ (y : Entry). y.holder) ex ∙ f.holder in
            let sh : s ≡ h = cc in ap (λ (y : Entry). y.bytes) ex ∙ f.on_disk ∙ ap c'.disk (sym sh)
        | inr off ↦
            let gx0 : get_elem? c.entries j ≡ some x = sym (f.others j (ground arith)) ∙ gx in
            let ne : s ≢ h = λ sh.
              let ij = holder_unique v i j s got (he ∙ ap some (sym sh)) gx0 hx in ground arith in
            saved j x s (ground arith) gx0 hx ∙ sym (f.disk s ne)
      ],
    )

fflush_loop-Saved :
    (n i : ℕ) {c : Cache}
    → IsValid c
    → Saved i c
    → i + n ≡ length c.entries
    → (c' : Cache) × (fflush_loop n c i ≡ some c') × Keeps c c' × Saved (i + n) c'
unfolding fflush_loop
fflush_loop-Saved zero i {c} v saved h =
    (c, refl, Keeps-refl v, subst (λ k. Saved k c) (omega arith) saved)
fflush_loop-Saved (suc n) i {c} v saved h =
    let (e, got) = get_elem?-some c.entries i (omega arith) in
    let (c1, run, keeps, saved1) = fflush_holder-Saved i e e.holder v saved got refl in
    let saved1' : Saved (i + 1) c1 = subst (λ k. Saved k c1) (omega arith) saved1 in
    let (c2, runs, keeps2, saved2) =
      fflush_loop-Saved n (i + 1) keeps.valid saved1' (omega (arith, keeps.count)) in
    (c2, rw (got, run) runs, Keeps-trans keeps keeps2, subst (λ k. Saved k c2) (omega arith) saved2)

-- On a valid cache fflush_all fails no ASSERT and leaves a valid cache that stands for the same disk,
-- and then the disk holds that content at every sector.
pub fflush_all-disk :
    {c : Cache}
    → IsValid c
    → (c' : Cache) × (fflush_all c ≡ some c') × Keeps c c' × ((s : ℕ) → c'.disk s ≡ view c s)
unfolding fflush_all Saved
fflush_all-disk {c} v =
    let (c', run, keeps, saved) =
      fflush_loop-Saved (length c.entries) 0 v (λ j e s lt. absurd (omega arith)) (omega arith) in
    (
      c',
      run,
      keeps,
      λ s. elim (Option-cases (c'.addr s)) [
        | inl out ↦ sym (view_missing c' s out) ∙ keeps.views s
        | inr (j, a) ↦
            let (x, gx, hx) = keeps.valid.linked s j a in
            let room = lt-length_of_some c'.entries j gx in
            sym (saved j x s (omega (arith, keeps.count)) gx hx)
            ∙ sym (view_held keeps.valid j x s gx hx)
            ∙ keeps.views s
      ],
    )

-- ===== src/LinkedList/Insert.antt =====
-- What insertion does to the elements of a list.
use cs140_operating_systems.Base.{
  ℕ, ◌≡◌, ◌≢◌, sym, ◌∙◌, true, ◌||◌, some, List, [], ◌∷◌, ◌++◌, update, update_ne, update_self,
  ==-eq_false,
}
use cs140_operating_systems.LinkedList.{
  Links, Sentinels, set_next, set_prev, is_interior, is_tail, list_insert, list_push_back,
  list_push_front,
}
use cs140_operating_systems.LinkedList.Chain.{
  Chain, Apart, Distinct, Holds, Chain-set_next, Chain-set_prev, Apart-append, Distinct-append,
  next_ne, last_of, prev_last, last_ne, last_of-Apart, interior, first_of, next_first, first_back,
  first_of-Apart,
}

-- The pointers after e was put between z and b.
between : Links → ℕ → ℕ → ℕ → Links
between h z b e = set_prev (set_next (set_next (set_prev h e z) e b) z e) b e

list_insert-between :
    (h : Links) (b e z : ℕ)
    → (is_interior h b || is_tail h b) ≡ true
    → e ≢ 0
    → b ≢ e
    → h.prev b ≡ z
    → list_insert h b e ≡ some (between h z b e)
unfolding list_insert between
list_insert-between h b e z ok ne be pz =
    let pz' : update h.prev e (h.prev b) b ≡ z = update_ne h.prev e (h.prev b) b be ∙ pz in
    rw (ok, ==-eq_false e 0 ne, pz', pz)

-- A chain that does not run through z or e stays, behind b.
between-behind :
    (xs : List ℕ) (h : Links) (z b e q : ℕ)
    → z ≢ b
    → e ≢ b
    → Apart z xs
    → Apart e xs
    → Apart b xs
    → e ≢ q
    → b ≢ q
    → Chain h b xs q
    → Chain (between h z b e) b xs q
unfolding between
between-behind xs h z b e q zb eb az ae ab eq bq c =
    Chain-set_prev xs (set_next (set_next (set_prev h e z) e b) z e) b q b e bq ab (
      Chain-set_next xs (set_next (set_prev h e z) e b) b q z e zb az
        (Chain-set_next xs (set_prev h e z) b q e b eb ae (Chain-set_prev xs h b q e z eq ae c)))

-- The two new links.
between-links :
    (h : Links) (z b e : ℕ)
    → z ≢ e
    → e ≢ b
    → ((between h z b e).next z ≡ e)
      × ((between h z b e).prev e ≡ z)
      × ((between h z b e).next e ≡ b)
      × ((between h z b e).prev b ≡ e)
unfolding between
between-links h z b e ze eb = (
  update_self (update h.next e b) z e,
  update_ne (update h.prev e z) b e e eb ∙ update_self h.prev e z,
  update_ne (update h.next e b) z e e (λ s. ze (sym s)) ∙ update_self h.next e b,
  update_self (update h.prev e z) b e,
)

between-other :
    (h : Links) (z b e j : ℕ)
    → j ≢ e
    → (j ≢ z → (between h z b e).next j ≡ h.next j) × (j ≢ b → (between h z b e).prev j ≡ h.prev j)
unfolding between
between-other h z b e j je = (
  λ jz. update_ne (update h.next e b) z e j jz ∙ update_ne h.next e b j je,
  λ jb. update_ne (update h.prev e z) b e j jb ∙ update_ne h.prev e z j je,
)

-- e is put behind a chain, before b.
between-append :
    (xs : List ℕ) (h : Links) (p b e : ℕ)
    → p ≢ e
    → e ≢ 0
    → e ≢ b
    → Apart e xs
    → Apart b xs
    → Distinct (p ∷ xs)
    → Chain h p xs b
    → Chain (between h (last_of p xs) b e) p (xs ++ e ∷ []) b
between-append [] h p b e pe ne eb ae ab d c =
    let (zn, ep, en, bp) = between-links h p b e pe eb in (zn, ep, ne, (en, bp))
between-append (x ∷ xs) h p b e pe ne eb (ex, ae) (bx, ab) ((px, ap'), d) (f, back, nz, c) =
    let (next, _) = between-other h (last_of x xs) b e p pe in
    let (_, prev) = between-other h (last_of x xs) b e x (λ s. ex (sym s)) in
    (
      next (last_of-Apart xs p x px ap') ∙ f,
      prev (λ s. bx (sym s)) ∙ back,
      nz,
      between-append xs h x b e (λ z. ex (sym z)) ne eb ae ab d c,
    )

-- A non-null element that is no part of the list: list_push_back fails no ASSERT and puts it behind the
-- others.
pub list_push_back-Holds :
    (h : Links) (l : Sentinels) (xs : List ℕ) (elem : ℕ)
    → Holds h l xs
    → elem ≢ 0
    → Apart elem (l.head ∷ l.tail ∷ xs)
    → (h' : Links) × (list_push_back h l elem ≡ some h') × Holds h' l (xs ++ elem ∷ [])
unfolding list_push_back
list_push_back-Holds h l xs elem v ne (eh, (et, ae)) =
    let ((ht, ah), (at, dx)) = v.distinct in
    let z = last_of l.head xs in
    let pz = prev_last xs h l.head l.tail v.chain in
    let ok : (is_interior h l.tail || is_tail h l.tail) ≡ true = rw (
      ==-eq_false l.tail 0 v.tail,
      ==-eq_false (h.prev l.tail) 0 (λ s. last_ne xs h l.head l.tail v.head v.chain (sym pz ∙ s)),
      v.last,
    ) in
    let (_, prev) = between-other h z l.tail elem l.head (λ s. eh (sym s)) in
    let (next, _) = between-other h z l.tail elem l.tail (λ s. et (sym s)) in
    (
      between h z l.tail elem,
      list_insert-between h l.tail elem z ok ne (λ s. et (sym s)) pz,
      record {
        chain =
            between-append xs h l.head l.tail elem (λ s. eh (sym s)) ne et ae at (ah, dx) v.chain;
        first = prev ht ∙ v.first;
        last = next (last_of-Apart xs l.tail l.head (λ s. ht (sym s)) at) ∙ v.last;
        head = v.head;
        tail = v.tail;
        distinct = (
          (ht, Apart-append l.head elem xs ah (λ s. eh (sym s))),
          (Apart-append l.tail elem xs at (λ s. et (sym s)), Distinct-append elem xs dx ae),
        );
      },
    )

front-inside :
    (xs : List ℕ) (h : Links) (p q : ℕ)
    → p ≢ 0
    → q ≢ 0
    → h.next q ≡ 0
    → Chain h p xs q
    → (is_interior h (first_of xs q) || is_tail h (first_of xs q)) ≡ true
front-inside [] h p q hp hq z (f, b) =
    rw (==-eq_false q 0 hq, ==-eq_false (h.prev q) 0 (λ s. hp (sym b ∙ s)), z)
front-inside (x ∷ xs) h p q hp hq z (f, b, nz, c) =
    let inside = interior h x nz (λ s. hp (sym b ∙ s)) (next_ne xs h x q hq c) in rw inside

between-front :
    (xs : List ℕ) (h : Links) (p q e : ℕ)
    → p ≢ e
    → e ≢ 0
    → e ≢ q
    → Apart e xs
    → Apart p xs
    → Apart q xs
    → Distinct xs
    → Chain h p xs q
    → Chain (between h p (first_of xs q) e) p (e ∷ xs) q
between-front [] h p q e pe ne eq ae ap' aq d c =
    let (zn, ep, en, bp) = between-links h p q e pe eq in (zn, ep, ne, (en, bp))
between-front (x ∷ xs) h p q e pe ne eq (ex, ae) (px, ap') (qx, aq) (ax, d) (f, b, nz, c) =
    let (zn, ep, en, bp) = between-links h p x e pe ex in
    (zn, ep, ne, (en, bp, nz, between-behind xs h p x e q px ex ap' ae ax eq (λ s. qx (sym s)) c))

-- A non-null element that is no part of the list: list_push_front fails no ASSERT and puts it before the
-- others.
pub list_push_front-Holds :
    (h : Links) (l : Sentinels) (xs : List ℕ) (elem : ℕ)
    → Holds h l xs
    → elem ≢ 0
    → Apart elem (l.head ∷ l.tail ∷ xs)
    → (h' : Links) × (list_push_front h l elem ≡ some h') × Holds h' l (elem ∷ xs)
unfolding list_push_front
list_push_front-Holds h l xs elem v ne (eh, (et, ae)) =
    let ((ht, ah), (at, dx)) = v.distinct in
    let b = first_of xs l.tail in
    let (_, prev) = between-other h l.head b elem l.head (λ s. eh (sym s)) in
    let (next, _) = between-other h l.head b elem l.tail (λ s. et (sym s)) in
    (
      between h l.head b elem,
      rw (next_first xs h l.head l.tail v.chain) (
          list_insert-between h b elem l.head
            (front-inside xs h l.head l.tail v.head v.tail v.last v.chain) ne
            (λ s. first_of-Apart xs elem l.tail et ae (sym s))
            (first_back xs h l.head l.tail v.chain)),
      record {
        chain = between-front xs h l.head l.tail elem (λ s. eh (sym s)) ne et ae ah at dx v.chain;
        first = prev (first_of-Apart xs l.head l.tail ht ah) ∙ v.first;
        last = next (λ s. ht (sym s)) ∙ v.last;
        head = v.head;
        tail = v.tail;
        distinct = ((ht, ((λ s. eh (sym s)), ah)), (((λ s. et (sym s)), at), (ae, dx)));
      },
    )

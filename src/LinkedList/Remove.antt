-- ===== src/LinkedList/Remove.antt =====
-- What removal does to the elements of a list.
use cs140_operating_systems.Base.{
  ℕ, ◌≡◌, ◌≢◌, sym, ◌∙◌, true, some, List, [], ◌∷◌, update_ne, update_self, ==-eq_false,
}
use cs140_operating_systems.LinkedList.{
  Links, Sentinels, set_next, set_prev, is_interior, list_remove, list_front, list_pop_front,
}
use cs140_operating_systems.LinkedList.Chain.{
  Chain, Apart, Distinct, Holds, Chain-set_next, Chain-set_prev, next_ne, interior, first_of,
  next_first, first_of-Apart,
}

-- The pointers after x was taken from between p and n.
without : Links → ℕ → ℕ → Links
without h p n = set_prev (set_next h p n) n p

list_remove-without :
    (h : Links) (x p n : ℕ)
    → is_interior h x ≡ true
    → p ≢ x
    → h.prev x ≡ p
    → h.next x ≡ n
    → list_remove h x ≡ some (without h p n, n)
unfolding list_remove without
list_remove-without h x p n ok px pe ne = rw (ok, pe, ==-eq_false x p (λ s. px (sym s)), ne)

without-rest :
    (xs : List ℕ) (h : Links) (p x q : ℕ)
    → p ≢ q
    → Apart p xs
    → Apart q xs
    → Distinct xs
    → Chain h x xs q
    → Chain (without h p (first_of xs q)) p xs q
unfolding without
without-rest [] h p x q pq ap' aq d c = (update_self h.next p q, update_self h.prev q p)
without-rest (y ∷ ys) h p x q pq (py, ap') (qy, aq) (ay, d) (f, b, nz, c) = (
  update_self h.next p y,
  update_self h.prev y p,
  nz,
  Chain-set_prev ys (set_next h p y) y q y p (λ s. qy (sym s)) ay
      (Chain-set_next ys h y q p y py ap' c),
)

list_pop_front-run :
    (h : Links) (l : Sentinels) (x p n : ℕ)
    → h.next l.head ≡ x
    → x ≢ l.tail
    → is_interior h x ≡ true
    → p ≢ x
    → h.prev x ≡ p
    → h.next x ≡ n
    → list_pop_front h l ≡ some (without h p n, x)
unfolding list_pop_front list_front
list_pop_front-run h l x p n f xt ok px pe ne =
    rw (f, ==-eq_false x l.tail xt, list_remove-without h x p n ok px pe ne)

-- A list that is not empty: list_pop_front fails no ASSERT, returns the first element and leaves the others
-- in order.
pub list_pop_front-Holds :
    (h : Links) (l : Sentinels) (x : ℕ) (xs : List ℕ)
    → Holds h l (x ∷ xs)
    → (h' : Links) × (list_pop_front h l ≡ some (h', x)) × Holds h' l xs
unfolding without
list_pop_front-Holds h l x xs v =
    let (f, b, nz, c) = v.chain in
    let ((ht, (hx, ah)), ((tx, at), (ax, dx))) = v.distinct in
    let inside = interior h x nz (λ s. v.head (sym b ∙ s)) (next_ne xs h x l.tail v.tail c) in
    let n = first_of xs l.tail in
    (
      without h l.head n,
      list_pop_front-run h l x l.head n f (λ s. tx (sym s)) inside hx b
          (next_first xs h x l.tail c),
      record {
        chain = without-rest xs h l.head x l.tail ht ah at dx c;
        first = update_ne h.prev n l.head l.head (first_of-Apart xs l.head l.tail ht ah) ∙ v.first;
        last = update_ne h.next l.head n l.tail (λ s. ht (sym s)) ∙ v.last;
        head = v.head;
        tail = v.tail;
        distinct = ((ht, ah), (at, dx));
      },
    )

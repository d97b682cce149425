-- ===== src/LinkedList/Chain.antt =====
-- Which elements a linked list holds, and that the pointers of other elements do not matter to it.
use cs140_operating_systems.Base.{
  ℕ, zero, suc, ◌+◌, ◌<◌, ◌≡◌, ◌≢◌, sym, ap, ◌∙◌, true, ◌||◌, some, List, [], ◌∷◌, ◌++◌, update,
  update_ne, update_self, arith, ==-eq_false, ==-refl, length,
}
use cs140_operating_systems.LinkedList.{
  Links, Sentinels, set_next, set_prev, list_init, list_next, size_loop, list_size, is_head,
  is_interior,
}

-- The next pointers lead from p through xs to q, and the prev pointers back.
abbrev pub Chain : Links → ℕ → List ℕ → ℕ → Type 0
Chain h p [] q = (h.next p ≡ q) × (h.prev q ≡ p)
Chain h p (x ∷ xs) q = (h.next p ≡ x) × (h.prev x ≡ p) × (x ≢ 0) × Chain h x xs q

-- Different addresses.
abbrev pub Apart : ℕ → List ℕ → Type 0
Apart p [] = Unit {0}
Apart p (x ∷ xs) = (p ≢ x) × Apart p xs

abbrev pub Distinct : List ℕ → Type 0
Distinct [] = Unit {0}
Distinct (x ∷ xs) = Apart x xs × Distinct xs

-- The list of the sentinels l holds the elements xs, in this order.
pub record Holds (h : Links) (l : Sentinels) (xs : List ℕ) : Type 0 where
  pub chain : Chain h l.head xs l.tail
  pub first : h.prev l.head ≡ 0
  pub last : h.next l.tail ≡ 0
  pub head : l.head ≢ 0
  pub tail : l.tail ≢ 0
  pub distinct : Distinct (l.head ∷ l.tail ∷ xs)

-- list_init on two different non-null sentinels leaves an empty list, whatever the pointers held.
pub list_init-Holds :
    (h : Links) (l : Sentinels)
    → l.head ≢ 0
    → l.tail ≢ 0
    → l.head ≢ l.tail
    → Holds (list_init h l) l []
unfolding list_init
list_init-Holds h l hh ht ne = record {
  chain = (
    update_ne (update h.next l.head l.tail) l.tail 0 l.head ne ∙ update_self h.next l.head l.tail,
    update_self (update h.prev l.head 0) l.tail l.head,
  );
  first = update_ne (update h.prev l.head 0) l.tail l.head l.head ne ∙ update_self h.prev l.head 0;
  last = update_self (update h.next l.head l.tail) l.tail 0;
  head = hh;
  tail = ht;
  distinct = ((ne, tt), (tt, tt));
}

-- A chain is kept where a pointer changes that is not on it.
pub Chain-set_next :
    (xs : List ℕ) (h : Links) (p q e n : ℕ)
    → e ≢ p
    → Apart e xs
    → Chain h p xs q
    → Chain (set_next h e n) p xs q
Chain-set_next [] h p q e n ne a (f, b) = (update_ne h.next e n p (λ z. ne (sym z)) ∙ f, b)
Chain-set_next (x ∷ xs) h p q e n ne (nx, a) (f, b, nz, c) =
    (update_ne h.next e n p (λ z. ne (sym z)) ∙ f, b, nz, Chain-set_next xs h x q e n nx a c)

pub Chain-set_prev :
    (xs : List ℕ) (h : Links) (p q e n : ℕ)
    → e ≢ q
    → Apart e xs
    → Chain h p xs q
    → Chain (set_prev h e n) p xs q
Chain-set_prev [] h p q e n ne a (f, b) = (f, update_ne h.prev e n q (λ z. ne (sym z)) ∙ b)
Chain-set_prev (x ∷ xs) h p q e n ne (nx, a) (f, b, nz, c) =
    (f, update_ne h.prev e n x (λ z. nx (sym z)) ∙ b, nz, Chain-set_prev xs h x q e n ne a c)

pub Apart-append : (p e : ℕ) (xs : List ℕ) → Apart p xs → p ≢ e → Apart p (xs ++ e ∷ [])
Apart-append p e [] a ne = (ne, tt)
Apart-append p e (x ∷ xs) (nx, a) ne = (nx, Apart-append p e xs a ne)

pub Distinct-append : (e : ℕ) (xs : List ℕ) → Distinct xs → Apart e xs → Distinct (xs ++ e ∷ [])
Distinct-append e [] d a = (tt, tt)
Distinct-append e (x ∷ xs) (ax, d) (ne, a) =
    (Apart-append x e xs ax (λ z. ne (sym z)), Distinct-append e xs d a)

-- The element after p is not null.
pub next_ne : (xs : List ℕ) (h : Links) (p q : ℕ) → q ≢ 0 → Chain h p xs q → h.next p ≢ 0
next_ne [] h p q hq (f, b) z = hq (sym f ∙ z)
next_ne (x ∷ xs) h p q hq (f, b, nz, c) z = nz (sym f ∙ z)

-- The element before q.
abbrev pub last_of : ℕ → List ℕ → ℕ
last_of p [] = p
last_of p (x ∷ xs) = last_of x xs

pub prev_last : (xs : List ℕ) (h : Links) (p q : ℕ) → Chain h p xs q → h.prev q ≡ last_of p xs
prev_last [] h p q (f, b) = b
prev_last (x ∷ xs) h p q (f, b, nz, c) = prev_last xs h x q c

pub last_ne : (xs : List ℕ) (h : Links) (p q : ℕ) → p ≢ 0 → Chain h p xs q → last_of p xs ≢ 0
last_ne [] h p q hp c = hp
last_ne (x ∷ xs) h p q hp (f, b, nz, c) = last_ne xs h x q nz c

pub last_of-Apart : (xs : List ℕ) (e x : ℕ) → e ≢ x → Apart e xs → e ≢ last_of x xs
last_of-Apart [] e x ne a = ne
last_of-Apart (y ∷ ys) e x ne (ny, a) = last_of-Apart ys e y ny a

-- The element behind a place with xs and then q behind it.
abbrev pub first_of : List ℕ → ℕ → ℕ
first_of [] q = q
first_of (x ∷ xs) q = x

pub next_first : (xs : List ℕ) (h : Links) (p q : ℕ) → Chain h p xs q → h.next p ≡ first_of xs q
next_first [] h p q (f, b) = f
next_first (x ∷ xs) h p q (f, b, nz, c) = f

pub first_back : (xs : List ℕ) (h : Links) (p q : ℕ) → Chain h p xs q → h.prev (first_of xs q) ≡ p
first_back [] h p q (f, b) = b
first_back (x ∷ xs) h p q (f, b, nz, c) = b

pub first_of-Apart : (xs : List ℕ) (p q : ℕ) → p ≢ q → Apart p xs → p ≢ first_of xs q
first_of-Apart [] p q pq a = pq
first_of-Apart (x ∷ xs) p q pq (px, a) = px

pub interior : (h : Links) (e : ℕ) → e ≢ 0 → h.prev e ≢ 0 → h.next e ≢ 0 → is_interior h e ≡ true
interior h e a b c = rw (==-eq_false e 0 a, ==-eq_false (h.prev e) 0 b, ==-eq_false (h.next e) 0 c)

size_loop-length :
    (xs : List ℕ) (fuel : ℕ) (h : Links) (l : Sentinels) (p cnt : ℕ)
    → length xs < fuel
    → p ≢ 0
    → l.tail ≢ 0
    → Apart l.tail xs
    → Chain h p xs l.tail
    → size_loop fuel h l (h.next p) cnt ≡ some (cnt + length xs)
unfolding size_loop list_next
size_loop-length xs zero h l p cnt lt hp ht a c = elim lt [ ]
size_loop-length [] (suc fuel) h l p cnt lt hp ht a (f, b) =
    rw (f, ==-refl l.tail) (ap some (omega arith))
size_loop-length (x ∷ xs) (suc fuel) h l p cnt lt hp ht (nx, a) (f, b, nz, c) =
    let inside : is_interior h x ≡ true =
      interior h x nz (λ z. hp (sym b ∙ z)) (next_ne xs h x l.tail ht c) in
    let ok : (is_head h x || is_interior h x) ≡ true = ground (arith, inside) in
    rw (f, ==-eq_false x l.tail (λ z. nx (sym z)), ok)
      (size_loop-length xs fuel h l x (cnt + 1) (omega arith) nz ht a c ∙ ap some (omega arith))

-- With fuel above the number of elements, list_size fails no ASSERT and returns it.
pub list_size-length :
    (fuel : ℕ) (h : Links) (l : Sentinels) (xs : List ℕ)
    → Holds h l xs
    → length xs < fuel
    → list_size fuel h l ≡ some (length xs)
unfolding list_size
list_size-length fuel h l xs v lt =
    let (_, (a, _)) = v.distinct in
    size_loop-length xs fuel h l l.head 0 lt v.head v.tail a v.chain ∙ ap some (omega arith)

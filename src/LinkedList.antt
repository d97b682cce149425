-- ===== src/LinkedList.antt =====
-- Project 4: File System/src/lib/kernel/list.c. An element is an address, 0 the null pointer; Links holds
-- the two pointers of each element, and a list is the addresses of its two sentinels. Loops take fuel.
-- A result `none` is a failed ASSERT, or too little fuel.
pub mod Ordered
pub mod Chain
pub mod Insert
pub mod Remove
use cs140_operating_systems.Base.{
  ℕ, zero, suc, ◌+◌, Bool, true, false, not, ◌||◌, ◌&&◌, Option, none, some, ◌==◌, if◌then◌else◌,
  update, ◌>>◌, ◌>>=◌, assert, ltb,
}

-- `struct list_elem` of every element.
pub record Links : Type 0 where
  pub prev : ℕ → ℕ
  pub next : ℕ → ℕ

-- `struct list`
pub record Sentinels : Type 0 where
  pub head : ℕ
  pub tail : ℕ

abbrev pub set_next : Links → ℕ → ℕ → Links
set_next h e n = record h { next = update h.next e n }

abbrev pub set_prev : Links → ℕ → ℕ → Links
set_prev h e p = record h { prev = update h.prev e p }

abbrev pub is_head : Links → ℕ → Bool
is_head h e = not (e == 0) && (h.prev e == 0) && not (h.next e == 0)

abbrev pub is_interior : Links → ℕ → Bool
is_interior h e = not (e == 0) && not (h.prev e == 0) && not (h.next e == 0)

abbrev pub is_tail : Links → ℕ → Bool
is_tail h e = not (e == 0) && not (h.prev e == 0) && (h.next e == 0)

unfoldable pub list_init : Links → Sentinels → Links
list_init h l =
    set_next (set_prev (set_next (set_prev h l.head 0) l.head l.tail) l.tail l.head) l.tail 0

abbrev pub list_begin : Links → Sentinels → ℕ
list_begin h l = h.next l.head

abbrev pub list_end : Sentinels → ℕ
list_end l = l.tail

abbrev pub list_rbegin : Links → Sentinels → ℕ
list_rbegin h l = h.prev l.tail

abbrev pub list_rend : Sentinels → ℕ
list_rend l = l.head

unfoldable pub list_next : Links → ℕ → Option ℕ
list_next h e = do assert (is_head h e || is_interior h e); some (h.next e)

unfoldable pub list_prev : Links → ℕ → Option ℕ
list_prev h e = do assert (is_interior h e || is_tail h e); some (h.prev e)

unfoldable pub list_insert : Links → ℕ → ℕ → Option Links
list_insert h before elem = do
  assert (is_interior h before || is_tail h before)
  assert (not (elem == 0))
  let h1 = set_prev h elem (h.prev before)
  let h2 = set_next h1 elem before
  let h3 = set_next h2 (h2.prev before) elem
  some (set_prev h3 before elem)

-- The argument last is exclusive; the element before it is the last to move.
unfoldable pub splice_range : Links → ℕ → ℕ → ℕ → Option Links
splice_range h before first last = do
  assert (is_interior h first)
  assert (is_interior h last)
  let h1 = set_next h (h.prev first) (h.next last)
  let h2 = set_prev h1 (h1.next last) (h1.prev first)
  let h3 = set_prev h2 first (h2.prev before)
  let h4 = set_next h3 last before
  let h5 = set_next h4 (h4.prev before) first
  some (set_prev h5 before last)

unfoldable pub list_splice : Links → ℕ → ℕ → ℕ → Option Links
list_splice h before first last = do
  assert (is_interior h before || is_tail h before)
  if first == last
      then some h
      else (list_prev h last >>= λ last'. splice_range h before first last')

unfoldable pub list_push_front : Links → Sentinels → ℕ → Option Links
list_push_front h l elem = list_insert h (list_begin h l) elem

unfoldable pub list_push_back : Links → Sentinels → ℕ → Option Links
list_push_back h l elem = list_insert h (list_end l) elem

unfoldable pub list_remove : Links → ℕ → Option (Links × ℕ)
list_remove h elem = do
  assert (is_interior h elem)
  let h1 = set_next h (h.prev elem) (h.next elem)
  let h2 = set_prev h1 (h1.next elem) (h1.prev elem)
  some (h2, h2.next elem)

abbrev pub list_empty : Links → Sentinels → Bool
list_empty h l = list_begin h l == list_end l

unfoldable pub list_front : Links → Sentinels → Option ℕ
list_front h l = do assert (not (list_empty h l)); some (h.next l.head)

unfoldable pub list_back : Links → Sentinels → Option ℕ
list_back h l = do assert (not (list_empty h l)); some (h.prev l.tail)

unfoldable pub list_pop_front : Links → Sentinels → Option (Links × ℕ)
list_pop_front h l = do front ← list_front h l; (h', _) ← list_remove h front; some (h', front)

unfoldable pub list_pop_back : Links → Sentinels → Option (Links × ℕ)
list_pop_back h l = do back ← list_back h l; (h', _) ← list_remove h back; some (h', back)

unfoldable pub size_loop : ℕ → Links → Sentinels → ℕ → ℕ → Option ℕ
size_loop zero h l e cnt = none
size_loop (suc fuel) h l e cnt =
    let rest = list_next h e >>= λ n. size_loop fuel h l n (cnt + 1) in
    if e == list_end l then some cnt else rest

unfoldable pub list_size : ℕ → Links → Sentinels → Option ℕ
list_size fuel h l = size_loop fuel h l (list_begin h l) 0

-- swap (&e->prev, &e->next), and on to the old next element.
unfoldable pub reverse_loop : ℕ → Links → Sentinels → ℕ → Option Links
reverse_loop zero h l e = none
reverse_loop (suc fuel) h l e =
    let h' : Links = set_next (set_prev h e (h.next e)) e (h.prev e) in
    let rest = reverse_loop fuel h' l (h'.prev e) in if e == list_end l then some h else rest

unfoldable pub list_reverse : ℕ → Links → Sentinels → Option Links
list_reverse fuel h l =
    if list_empty h l
    then some h
    else (reverse_loop fuel h l (list_begin h l) >>= λ h1.
        let h2 : Links = set_prev (set_next h1 l.head (h1.prev l.tail)) l.tail (h1.next l.head) in
        let first = h2.next l.head in
        let last = h2.prev l.tail in
        let p = h2.prev first in some (set_next (set_prev h2 first (h2.next last)) last p))

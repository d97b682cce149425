-- ===== src/LinkedList/Ordered.antt =====
-- Project 4: File System/src/lib/kernel/list.c, the operations that compare elements. The caller's order
-- `less` and its test `equals` are arguments, with aux applied. Loops take fuel.
use cs140_operating_systems.Base.{
  ℕ, zero, suc, ◌+◌, Bool, true, false, not, ◌&&◌, Option, none, some, ◌==◌, if◌then◌else◌, ◌>>◌,
  ◌>>=◌, assert, ltb,
}
use cs140_operating_systems.LinkedList.{
  Links, Sentinels, list_begin, list_end, list_next, list_prev, list_insert, list_splice,
  list_remove, list_push_back, list_empty,
}

-- less is the caller's order on elements.
module _ (less : ℕ → ℕ → Bool) where
  unfoldable pub sorted_loop : ℕ → Links → ℕ → ℕ → Option Bool
  sorted_loop zero h a b = none
  sorted_loop (suc fuel) h a b = list_next h a >>= λ a'.
      let rest = sorted_loop fuel h a' b in
      if a' == b
      then some true
      else (list_prev h a' >>= λ p. if less a' p then some false else rest)

  unfoldable pub is_sorted : ℕ → Links → ℕ → ℕ → Option Bool
  is_sorted fuel h a b = if a == b then some true else sorted_loop fuel h a b

  unfoldable pub run_loop : ℕ → Links → ℕ → ℕ → Option ℕ
  run_loop zero h a b = none
  run_loop (suc fuel) h a b = list_next h a >>= λ a'.
      let rest = run_loop fuel h a' b in
      if a' == b then some a' else (list_prev h a' >>= λ p. if less a' p then some a' else rest)

  unfoldable pub find_end_of_run : ℕ → Links → ℕ → ℕ → Option ℕ
  find_end_of_run fuel h a b = do
    assert (not (a == 0))
    assert (not (b == 0))
    assert (not (a == b))
    run_loop fuel h a b

  unfoldable pub merge_loop : ℕ → Links → ℕ → ℕ → ℕ → Option Links
  merge_loop zero h a0 a1b0 b1 = none
  merge_loop (suc fuel) h a0 a1b0 b1 =
      let keep = list_next h a0 >>= λ a0'. merge_loop fuel h a0' a1b0 b1 in
      let move = list_next h a1b0 >>= λ n.
      list_prev h n >>= λ p. list_splice h a0 p n >>= λ h'. merge_loop fuel h' a0 n b1 in
      if not (a0 == a1b0) && not (a1b0 == b1)
      then (if not (less a1b0 a0) then keep else move)
      else some h

  unfoldable pub inplace_merge : ℕ → Links → ℕ → ℕ → ℕ → Option Links
  inplace_merge fuel h a0 a1b0 b1 = do
    assert (not (a0 == 0))
    assert (not (a1b0 == 0))
    assert (not (b1 == 0))
    s ← is_sorted fuel h a0 a1b0
    assert s
    t ← is_sorted fuel h a1b0 b1
    assert t
    merge_loop fuel h a0 a1b0 b1

  -- One pass over the list, and how many runs it put out.
  unfoldable pub pass_loop : ℕ → ℕ → Links → Sentinels → ℕ → ℕ → Option (Links × ℕ)
  pass_loop zero fuel h l a0 cnt = none
  pass_loop (suc n) fuel h l a0 cnt =
      let two = λ (a1b0 : ℕ). find_end_of_run fuel h a1b0 (list_end l) >>= λ b1.
      inplace_merge fuel h a0 a1b0 b1 >>= λ h'. pass_loop n fuel h' l b1 (cnt + 1) in
      let run = find_end_of_run fuel h a0 (list_end l) >>= λ a1b0.
      if a1b0 == list_end l then some (h, cnt + 1) else two a1b0 in
      if a0 == list_end l then some (h, cnt) else run

  unfoldable pub sort_loop : ℕ → ℕ → Links → Sentinels → Option Links
  sort_loop zero fuel h l = none
  sort_loop (suc n) fuel h l = pass_loop fuel fuel h l (list_begin h l) 0 >>= λ (h', cnt).
      let rest = sort_loop n fuel h' l in if ltb 1 cnt then rest else some h'

  unfoldable pub list_sort : ℕ → Links → Sentinels → Option Links
  list_sort fuel h l = do
    h' ← sort_loop fuel fuel h l
    s ← is_sorted fuel h' (list_begin h' l) (list_end l)
    assert s
    some h'

  unfoldable pub place_loop : ℕ → Links → Sentinels → ℕ → ℕ → Option ℕ
  place_loop zero h l elem e = none
  place_loop (suc fuel) h l elem e =
      let rest = list_next h e >>= place_loop fuel h l elem in
      if e == list_end l then some e else if less elem e then some e else rest

  unfoldable pub list_insert_ordered : ℕ → Links → Sentinels → ℕ → Option Links
  list_insert_ordered fuel h l elem = do
    assert (not (elem == 0))
    e ← place_loop fuel h l elem (list_begin h l)
    list_insert h e elem

  -- duplicates is a list, or null.
  unfoldable pub drop_duplicate : Links → Option Sentinels → ℕ → Option Links
  drop_duplicate h none e = list_remove h e >>= λ (h', _). some h'
  drop_duplicate h (some d) e = list_remove h e >>= λ (h', _). list_push_back h' d e

  unfoldable pub unique_loop : ℕ → Links → Sentinels → Option Sentinels → ℕ → Option Links
  unique_loop zero h l duplicates elem = none
  unique_loop (suc fuel) h l duplicates elem = list_next h elem >>= λ n.
      let same = drop_duplicate h duplicates n >>= λ h'. unique_loop fuel h' l duplicates elem in
      let other = unique_loop fuel h l duplicates n in
      if n == list_end l
      then some h
      else if not (less elem n) && not (less n elem)
      then same
      else other

  unfoldable pub list_unique : ℕ → Links → Sentinels → Option Sentinels → Option Links
  list_unique fuel h l duplicates =
      if list_empty h l then some h else unique_loop fuel h l duplicates (list_begin h l)

  unfoldable pub max_loop : ℕ → Links → Sentinels → ℕ → ℕ → Option ℕ
  max_loop zero h l max e = none
  max_loop (suc fuel) h l max e =
      let rest = list_next h e >>= max_loop fuel h l (if less max e then e else max) in
      if e == list_end l then some max else rest

  unfoldable pub list_max : ℕ → Links → Sentinels → Option ℕ
  list_max fuel h l =
      let first = list_begin h l in
      if first == list_end l then some first else (list_next h first >>= max_loop fuel h l first)

  unfoldable pub min_loop : ℕ → Links → Sentinels → ℕ → ℕ → Option ℕ
  min_loop zero h l min e = none
  min_loop (suc fuel) h l min e =
      let rest = list_next h e >>= min_loop fuel h l (if less e min then e else min) in
      if e == list_end l then some min else rest

  unfoldable pub list_min : ℕ → Links → Sentinels → Option ℕ
  list_min fuel h l =
      let first = list_begin h l in
      if first == list_end l then some first else (list_next h first >>= min_loop fuel h l first)

unfoldable pub find_loop : (ℕ → Bool) → ℕ → Links → Sentinels → ℕ → Option ℕ
find_loop equals zero h l e = none
find_loop equals (suc fuel) h l e =
    let rest = list_next h e >>= find_loop equals fuel h l in
    if e == list_end l then some 0 else if equals e then some e else rest

unfoldable pub list_find : (ℕ → Bool) → ℕ → Links → Sentinels → Option ℕ
list_find equals fuel h l = find_loop equals fuel h l (list_begin h l)

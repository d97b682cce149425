-- ===== src/Hash.antt =====
-- Project 4: File System/src/lib/kernel/hash.c: hash tables with chains. An element is its address, and
-- a bucket the sequence of its elements. The hash and the comparison are arguments, `memory` says
-- whether malloc gives a new array. A result `none` is a failed ASSERT, or too little fuel.
pub mod Counts
pub mod Seek
pub mod Resize
pub mod Add
pub mod Remove
pub mod Empty
pub mod Runs
pub mod Iterator
pub mod Calls
use Prim.Native.Nat.{bit_and, bit_xor}
use cs140_operating_systems.Base.{
  ℕ, zero, suc, ◌+◌, ◌-◌, ◌*◌, ◌/◌, ◌%◌, ◌^◌, Bool, true, false, not, ◌&&◌, Option, none, some,
  List, [], ◌∷◌, ◌++◌, ◌==◌, ltb, if◌then◌else◌, update, ◌>>=◌, ◌>>◌, assert, erase,
}
use cs140_operating_systems.Memory.{Mem}

pub record Hash : Type 0 where
  pub elem_cnt : ℕ
  pub bucket_cnt : ℕ
  pub buckets : ℕ → List ℕ

unfoldable pub turn_off_least_1bit : ℕ → ℕ
turn_off_least_1bit x = bit_and x (x - 1)

unfoldable pub is_power_of_2 : ℕ → Bool
is_power_of_2 x = not (x == 0) && (turn_off_least_1bit x == 0)

-- `while (!is_power_of_2 (n)) n = turn_off_least_1bit (n);`
unfoldable pub fit_loop : ℕ → ℕ → Option ℕ
fit_loop zero n = if is_power_of_2 n then some n else none
fit_loop (suc fuel) n =
    let rest = fit_loop fuel (turn_off_least_1bit n) in if is_power_of_2 n then some n else rest

abbrev pub at_least_four : ℕ → ℕ
at_least_four n = if ltb n 4 then 4 else n

unfoldable pub hash_init : Bool → Option Hash
hash_init memory =
    if memory then some (record { elem_cnt = 0; bucket_cnt = 4; buckets = λ i. [] }) else none

-- With the elements that the destructor is called for, in order, in the buckets below i.
unfoldable pub apply_loop : ℕ → (ℕ → List ℕ) → List ℕ
apply_loop zero buckets = []
apply_loop (suc i) buckets = apply_loop i buckets ++ buckets i

unfoldable pub hash_apply : Hash → List ℕ
hash_apply h = apply_loop h.bucket_cnt h.buckets

unfoldable pub hash_clear : Hash → Hash × List ℕ
hash_clear h = (
  record h { elem_cnt = 0; buckets = λ i. if ltb i h.bucket_cnt then [] else h.buckets i },
  apply_loop h.bucket_cnt h.buckets,
)

-- The elements that the destructor is called for, if there is one.
unfoldable pub hash_destroy : Bool → Hash → List ℕ
hash_destroy destructor h = if destructor then (hash_clear h).1 else []

unfoldable pub hash_size : Hash → ℕ
hash_size h = h.elem_cnt

unfoldable pub hash_empty : Hash → Bool
hash_empty h = h.elem_cnt == 0

abbrev pub fnv_32_prime : ℕ
fnv_32_prime = 16777619

abbrev pub fnv_32_basis : ℕ
fnv_32_basis = 2166136261

-- The loop of hash_bytes.
unfoldable pub fnv_loop : Mem → ℕ → ℕ → ℕ → ℕ
fnv_loop m buf zero hash = hash
fnv_loop m buf (suc size) hash =
    fnv_loop m (buf + 1) size (bit_xor (hash * fnv_32_prime % 2 ^ 32) (m buf))

unfoldable pub hash_bytes : Mem → ℕ → ℕ → Option ℕ
hash_bytes m buf size = do assert (not (buf == 0)); some (fnv_loop m buf size fnv_32_basis)

unfoldable pub string_loop : ℕ → Mem → ℕ → ℕ → Option ℕ
string_loop zero m s hash = none
string_loop (suc fuel) m s hash =
    let rest = string_loop fuel m (s + 1) (bit_xor (hash * fnv_32_prime % 2 ^ 32) (m s)) in
    if m s == 0 then some hash else rest

unfoldable pub hash_string : ℕ → Mem → ℕ → Option ℕ
hash_string fuel m s = do assert (not (s == 0)); string_loop fuel m s fnv_32_basis

module _ (hash : ℕ → ℕ) (less : ℕ → ℕ → Bool) where
  abbrev pub index : ℕ → ℕ → ℕ
  index bucket_cnt e = bit_and (hash e) (bucket_cnt - 1)

  unfoldable pub find_bucket : Hash → ℕ → ℕ
  find_bucket h e = index h.bucket_cnt e

  abbrev pub equal : ℕ → ℕ → Bool
  equal a b = not (less a b) && not (less b a)

  unfoldable pub find_elem : List ℕ → ℕ → Option ℕ
  find_elem [] e = none
  find_elem (x ∷ xs) e = let rest = find_elem xs e in if equal x e then some x else rest

  unfoldable pub insert_elem : Hash → ℕ → ℕ → Hash
  insert_elem h bucket e = record h {
    elem_cnt = (h.elem_cnt + 1) % 2 ^ 32;
    buckets = update h.buckets bucket (e ∷ h.buckets bucket);
  }

  -- `bucket` is the one that the element was found in.
  unfoldable pub remove_elem : Hash → ℕ → ℕ → Hash
  remove_elem h bucket e = record h {
    elem_cnt = (h.elem_cnt + (2 ^ 32 - 1)) % 2 ^ 32;
    buckets = update h.buckets bucket (erase e (h.buckets bucket));
  }

  -- The inner loop of rehash.
  unfoldable pub move_bucket : ℕ → List ℕ → (ℕ → List ℕ) → ℕ → List ℕ
  move_bucket cnt [] new = new
  move_bucket cnt (x ∷ xs) new =
      move_bucket cnt xs (update new (index cnt x) (x ∷ new (index cnt x)))

  -- The outer loop, over the old buckets below i.
  unfoldable pub move_loop : ℕ → ℕ → (ℕ → List ℕ) → ℕ → List ℕ
  move_loop cnt zero old = λ i. []
  move_loop cnt (suc i) old = move_bucket cnt (old i) (move_loop cnt i old)

  unfoldable pub rehash : Bool → Hash → Option Hash
  rehash memory h = do
    let n = at_least_four (h.elem_cnt / 2)
    cnt ← fit_loop n n
    some (
        if cnt == h.bucket_cnt
        then h
        else if memory
        then record h { bucket_cnt = cnt; buckets = move_loop cnt h.bucket_cnt h.buckets }
        else h)

  unfoldable pub hash_find : Hash → ℕ → Option ℕ
  hash_find h e = find_elem (h.buckets (find_bucket h e)) e

  abbrev pub insert_new : Hash → ℕ → Option ℕ → Hash
  insert_new h new none = insert_elem h (find_bucket h new) new
  insert_new h new (some old) = h

  unfoldable pub hash_insert : Bool → Hash → ℕ → Option (Hash × Option ℕ)
  hash_insert memory h new = do
    let old = hash_find h new
    h1 ← rehash memory (insert_new h new old)
    some (h1, old)

  abbrev pub remove_old : Hash → ℕ → Option ℕ → Hash
  remove_old h e none = h
  remove_old h e (some old) = remove_elem h (find_bucket h e) old

  unfoldable pub hash_replace : Bool → Hash → ℕ → Option (Hash × Option ℕ)
  hash_replace memory h new = do
    let old = hash_find h new
    h1 ← rehash memory (insert_elem (remove_old h new old) (find_bucket h new) new)
    some (h1, old)

  abbrev pub delete_found : Bool → Hash → ℕ → Option ℕ → Option Hash
  delete_found memory h e none = some h
  delete_found memory h e (some found) = rehash memory (remove_elem h (find_bucket h e) found)

  unfoldable pub hash_delete : Bool → Hash → ℕ → Option (Hash × Option ℕ)
  hash_delete memory h e = do
    let found = hash_find h e
    h1 ← delete_found memory h e found
    some (h1, found)

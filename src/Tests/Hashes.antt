-- ===== src/Tests/Hashes.antt =====
-- Hash tables whose elements are equal when they are in the same ten. The theorems on tables at them.
use mathlib.Core.Path.{subst}
use cs140_operating_systems.Base.{
  ℕ, ◌<◌, length, ◌/◌, ◌==◌, ==_iff, sym, inl, inr, Bool-cases, ◌≡◌, refl, Bool, true, false, none,
  some, List, [], ◌∷◌, arith, ltb, if◌then◌else◌,
}
use cs140_operating_systems.Hash.{
  Hash, hash_apply, apply_loop, index, find_bucket, find_elem, hash_init, hash_find,
}
use cs140_operating_systems.Hash.Seek.{IsOrder, IsTable}
use cs140_operating_systems.Hash.Iterator.{hash_first, walk, walk-hash_apply}
use cs140_operating_systems.Hash.Runs.{Call, calls, map_calls, hash_init-calls}

abbrev ten : ℕ → ℕ
ten e = e / 10

abbrev ten_less : ℕ → ℕ → Bool
ten_less a b = ltb (a / 10) (b / 10)

ten-IsOrder : IsOrder ten ten_less
ten-IsOrder = record {
  reflexive = λ a. ground arith;
  trans = λ a b c p q. ground arith;
  hashes = λ a b p. ground arith;
}

abbrev table_17 : Hash
table_17 = record { elem_cnt = 1; bucket_cnt = 4; buckets = λ i. if i == 1 then 17 ∷ [] else [] }

table_17-IsTable : IsTable ten ten_less table_17
table_17-IsTable = record {
  buckets = omega arith;
  placed = λ x i n. elim (Bool-cases (17 == x)) [
    | inl e ↦
        let n' : (1 == i) ≡ false =
          subst (λ z. (index ten ten_less 4 z == i) ≡ false) (sym ((==_iff 17 x).0 e)) n in
        ground arith
    | inr e ↦ ground arith
  ];
  once = λ x. ground arith;
  alone = λ x y l m q. ground arith;
}

abbrev three_calls : List Call
three_calls = Call.insert true 17 ∷ Call.replace false 12 ∷ Call.delete true 23 ∷ []

hash_init-calls_example :
    (h h' : Hash) × (hash_init true ≡ some h)
    × (calls ten ten_less h three_calls ≡ some h')
    × IsTable ten ten_less h'
    × ((e : ℕ) → hash_find ten ten_less h' e ≡ map_calls ten ten_less (λ d. none) three_calls e)
hash_init-calls_example = hash_init-calls ten ten_less ten-IsOrder three_calls

-- An equal element is found, and what is removed is that element.
find_12 : hash_find ten ten_less table_17 12 ≡ some 17
unfolding hash_find find_bucket find_elem
find_12 = refl

two_rounds : length (hash_apply table_17) < 3
unfolding hash_apply apply_loop
two_rounds = omega arith

walk-hash_apply_example : walk 3 table_17 (hash_first table_17) ≡ some (hash_apply table_17)
walk-hash_apply_example = walk-hash_apply table_17 3 (omega arith) two_rounds

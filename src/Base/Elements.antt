-- ===== src/Base/Elements.antt =====
-- Lists of addresses: whether one is there, how often, and without its first place.
use Prim.Native.Nat.{ℕ, suc}
use mathlib.Core.Bool.{Bool, true, false}
use mathlib.Core.List.{List, [], ◌∷◌}
use cs140_operating_systems.Base.Tests.{◌==◌, if◌then◌else◌}

abbrev pub has : ℕ → List ℕ → Bool
has t [] = false
has t (x ∷ xs) = if x == t then true else has t xs

abbrev pub erase : ℕ → List ℕ → List ℕ
erase t [] = []
erase t (x ∷ xs) = if x == t then xs else x ∷ erase t xs

abbrev pub occurrences : ℕ → List ℕ → ℕ
occurrences t [] = 0
occurrences t (x ∷ xs) = let rest = occurrences t xs in if x == t then suc rest else rest

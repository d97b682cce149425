-- ===== src/Base/Tests.antt =====
-- Boolean tests on the native numbers, the conditional, and splits that keep an equation.
use Prim.Native.Nat.{ℕ, ◌≤◌, ◌<◌, compare, Ordering}
use mathlib.Core.Path.{◌≡◌, refl}
use mathlib.Core.Logic.{◌↔◌, ◌⊎◌, ◌≢◌, inl, inr}
use mathlib.Core.Bool.{Bool, true, false}
use mathlib.Core.Option.{Option, none, some}
use native.Mathlib.Omega.{arith}

abbrev pub ltb : ℕ → ℕ → Bool
ltb a b = elim (compare a b) [ Ordering.lt ↦ true | _ ↦ false ]

abbrev pub leb : ℕ → ℕ → Bool
leb a b = elim (compare a b) [ Ordering.gt ↦ false | _ ↦ true ]

infix 50 ◌==◌
abbrev pub ◌==◌ : ℕ → ℕ → Bool
a == b = elim (compare a b) [ Ordering.eq ↦ true | _ ↦ false ]

infix 1 if◌then◌else◌
abbrev pub if◌then◌else◌ {ℓ} : {A : Type ℓ} → Bool → A → A → A
if true then x else y = x
if false then x else y = y

pub ==_iff : (a b : ℕ) → ((a == b) ≡ true) ↔ (a ≡ b)
==_iff a b = ground arith

pub ==-refl : (a : ℕ) → (a == a) ≡ true
==-refl a = ground arith

pub ==-eq_false : (a b : ℕ) → a ≢ b → (a == b) ≡ false
==-eq_false a b h = ground arith

pub lt→ltb : (a b : ℕ) → a < b → ltb a b ≡ true
lt→ltb a b h = ground arith

pub le→leb : (a b : ℕ) → a ≤ b → leb a b ≡ true
le→leb a b h = ground arith

pub Bool-cases : (b : Bool) → (b ≡ true) ⊎ (b ≡ false)
Bool-cases true = inl refl
Bool-cases false = inr refl

pub Option-cases {ℓ} : {A : Type ℓ} (o : Option A) → (o ≡ none) ⊎ ((a : A) × (o ≡ some a))
Option-cases none = inl refl
Option-cases (some a) = inr (a, refl)

-- A value holds or not, as a Boolean equality of Booleans.
abbrev pub same : Bool → Bool → Bool
same true b = b
same false true = false
same false false = true

-- A map that differs from `f` at one place.
abbrev pub update {ℓ} : {A : Type ℓ} → (ℕ → A) → ℕ → A → ℕ → A
update f i a j = if j == i then a else f j

pub update_self {ℓ} : {A : Type ℓ} (f : ℕ → A) (i : ℕ) (a : A) → update f i a i ≡ a
update_self f i a = rw (==-refl i)

pub update_ne {ℓ} : {A : Type ℓ} (f : ℕ → A) (i : ℕ) (a : A) (j : ℕ) → j ≢ i → update f i a j ≡ f j
update_ne f i a j h = rw (==-eq_false j i h)

pub update_same {ℓ} :
    {A : Type ℓ} (f : ℕ → A) (i : ℕ) (a : A) → a ≡ f i → (j : ℕ) → update f i a j ≡ f j
update_same f i a h j = elim (Bool-cases (j == i)) [
  | inl e ↦ let here : j ≡ i = (==_iff j i).0 e in rw (here, ==-refl i) h
  | inr e ↦ rw e
]

-- What a function cannot tell apart from the old value.
pub update_map {ℓ κ} :
    {A : Type ℓ} {B : Type κ} (g : A → B) (f : ℕ → A) (i : ℕ) (a : A)
    → g a ≡ g (f i)
    → (j : ℕ) → g (update f i a j) ≡ g (f j)
update_map g f i a h j = elim (Bool-cases (j == i)) [
  | inl e ↦ let here : j ≡ i = (==_iff j i).0 e in rw (here, ==-refl i) h
  | inr e ↦ rw e
]

pub update_twice {ℓ} :
    {A : Type ℓ} (f : ℕ → A) (i : ℕ) (a b : A) (j : ℕ)
    → update f i b j ≡ update (update f i a) i b j
update_twice f i a b j = elim (Bool-cases (j == i)) [ inl e ↦ rw e | inr e ↦ rw e ]

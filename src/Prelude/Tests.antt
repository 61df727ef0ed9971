-- ===== src/Prelude/Tests.antt =====
-- Boolean tests on native numbers and texts, the conditional, and case lemmas.
use Prim.Native.Nat.{ℕ, compare, Ordering}
use Prim.Native.String.{String}
use mathlib.Core.Path.{◌≡◌, refl}
use mathlib.Core.Logic.{◌⊎◌, inl, inr}
use mathlib.Core.Bool.{Bool, true, false, ◌&&◌, ◌||◌}
use mathlib.Core.Option.{Option, none, some}
use mathlib.Core.List.{List, [], ◌∷◌}
use native.Mathlib.Omega.{arith}
use text.Mathlib.Text.{◌==◌ as text_eq}
use text.Mathlib.TextEquality.{eq_iff}

abbrev pub ltb : ℕ → ℕ → Bool
ltb a b = elim (compare a b) [ Ordering.lt ↦ true | _ ↦ false ]

abbrev pub leb : ℕ → ℕ → Bool
leb a b = elim (compare a b) [ Ordering.gt ↦ false | _ ↦ true ]

abbrev pub nat_eq : ℕ → ℕ → Bool
nat_eq a b = elim (compare a b) [ Ordering.eq ↦ true | _ ↦ false ]

infix 1 if◌then◌else◌
abbrev pub if◌then◌else◌ {ℓ} : {A : Type ℓ} → Bool → A → A → A
if true then x else y = x
if false then x else y = y

abbrev pub not : Bool → Bool
not true = false
not false = true

-- The comparison of two texts, `==` in the source.
infix 50 ◌==◌
abbrev pub ◌==◌ : String → String → Bool
a == b = text_eq a b

-- `==` on values that may be `None`.
abbrev pub opt_eq : Option String → Option String → Bool
opt_eq none none = true
opt_eq (some a) (some b) = a == b
opt_eq _ _ = false

-- `value in {…}` for a set of texts.
abbrev pub elem : String → List String → Bool
elem a [] = false
elem a (b ∷ l) = a == b || elem a l

-- The truth value of a text, and of a text or `None`.
abbrev pub filled : String → Bool
filled s = not (s == "")

abbrev pub present : Option String → Bool
present none = false
present (some s) = filled s

-- `value in (None, "")`.
abbrev pub blank : Option String → Bool
blank o = not (present o)

pub Bool-cases : (b : Bool) → (b ≡ true) ⊎ (b ≡ false)
Bool-cases true = inl refl
Bool-cases false = inr refl

pub Option-cases {ℓ} : {A : Type ℓ} (o : Option A) → (o ≡ none) ⊎ ((a : A) × (o ≡ some a))
Option-cases none = inl refl
Option-cases (some a) = inr (a, refl)

pub ==-eq_self : (s : String) → (s == s) ≡ true
==-eq_self s = (eq_iff s s).1 refl

pub eq_of_== : (a b : String) → (a == b) ≡ true → a ≡ b
eq_of_== a b h = (eq_iff a b).0 h

pub opt_eq-eq : (a b : Option String) → opt_eq a b ≡ true → a ≡ b
opt_eq-eq none none h = refl
opt_eq-eq none (some b) h = absurd (ground arith)
opt_eq-eq (some a) none h = absurd (ground arith)
opt_eq-eq (some a) (some b) h = ground (arith, eq_iff a b)

pub opt_eq_self : (o : Option String) → opt_eq o o ≡ true
opt_eq_self none = refl
opt_eq_self (some a) = ==-eq_self a

pub and_both : (a b : Bool) → (a && b) ≡ true → (a ≡ true) × (b ≡ true)
and_both a b h = ground arith

pub not-false : (b : Bool) → not b ≡ true → b ≡ false
not-false b h = ground arith

pub blank-cases : (o : Option String) → blank o ≡ true → (o ≡ none) ⊎ (o ≡ some "")
blank-cases none h = inl refl
blank-cases (some t) h = inr (ground (arith, eq_iff t ""))

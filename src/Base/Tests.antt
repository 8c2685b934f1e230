-- ===== src/Base/Tests.antt =====
-- Boolean tests, and branching on them.
use Prim.Native.Nat.{ℕ, compare, Ordering}
use Prim.Native.String.{String}
use mathlib.Core.Path.{◌≡◌, refl}
use mathlib.Core.Logic.{◌↔◌, ◌⊎◌, inl, inr}
use mathlib.Core.Bool.{Bool, true, false}
use native.Mathlib.Omega.{arith}
use text.Mathlib.Text.{◌==◌ as str_eq}
use text.Mathlib.TextEquality.{eq_iff}

abbrev pub nat_eq : ℕ → ℕ → Bool
nat_eq a b = elim (compare a b) [ Ordering.eq ↦ true | _ ↦ false ]

pub nat_eq_iff : (a b : ℕ) → (nat_eq a b ≡ true) ↔ (a ≡ b)
nat_eq_iff a b = (λ h. ground arith, λ h. ground arith)

abbrev pub ltb : ℕ → ℕ → Bool
ltb a b = elim (compare a b) [ Ordering.lt ↦ true | _ ↦ false ]

infix 1 if◌then◌else◌
abbrev pub if◌then◌else◌ {ℓ} : {A : Type ℓ} → Bool → A → A → A
if true then x else y = x
if false then x else y = y

infix 50 ◌==◌
-- A type whose values the program compares, with what the comparison decides.
pub record Comparable {ℓ} (A : Type ℓ) : Type ℓ where
  pub compared : A → A → Bool
  pub decides : (x y : A) → (compared x y ≡ true) ↔ (x ≡ y)

instance abbrev pub String_eq : Comparable String
String_eq = record { decides = eq_iff; compared = str_eq }

instance abbrev pub ℕ_eq : Comparable ℕ
ℕ_eq = record { decides = nat_eq_iff; compared = nat_eq }

abbrev pub ◌==◌ {ℓ} : {A : Type ℓ} ⦃e : Comparable A⦄ (x y : A) → Bool
◌==◌ ⦃e⦄ x y = e.compared x y

-- To split on a computed test and keep the equation.
pub Bool-cases : (b : Bool) → (b ≡ true) ⊎ (b ≡ false)
Bool-cases true = inl refl
Bool-cases false = inr refl

pub ne_sym : (j k : String) → (j == k) ≡ false → (k == j) ≡ false
ne_sym j k h = ground (arith, eq_iff j k, eq_iff k j)

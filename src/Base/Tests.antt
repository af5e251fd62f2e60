-- ===== src/Base/Tests.antt =====
-- Boolean tests on native numbers and texts, and the conditional.
use Prim.Native.Nat.{ℕ, compare, Ordering}
use Prim.Native.String.{String}
use mathlib.Core.Path.{◌≡◌, refl}
use mathlib.Core.Logic.{◌⊎◌, inl, inr}
use mathlib.Core.Bool.{Bool, true, false}
use mathlib.Core.Option.{Option, none, some}
use native.Mathlib.Omega.{arith}
use text.Mathlib.Text.{◌==◌ as str_eq}
use text.Mathlib.TextEquality.{eq_iff}

-- Numbers are compared through `compare`, which the tactics read.
abbrev pub ltb : ℕ → ℕ → Bool
ltb a b = elim (compare a b) [ Ordering.lt ↦ true | _ ↦ false ]

abbrev pub leb : ℕ → ℕ → Bool
leb a b = elim (compare a b) [ Ordering.gt ↦ false | _ ↦ true ]

abbrev pub nat_eq : ℕ → ℕ → Bool
nat_eq a b = elim (compare a b) [ Ordering.eq ↦ true | _ ↦ false ]

infix 1 if◌then◌else◌
abbrev pub if◌then◌else◌ {ℓ} : {A : Type ℓ} → Bool → A → A → A
if true then x else y = x
if false then x else y = y

-- What a type whose values are compared with `==` provides: the test, which holds of equal values
-- and of no others.
pub record Eq {ℓ} (T : Type ℓ) : Type ℓ where
  pub same : T → T → Bool
  pub same_sound : (x y : T) → same x y ≡ true → x ≡ y
  pub same_self : (x : T) → same x x ≡ true

infix 50 ◌==◌
abbrev pub ◌==◌ {ℓ} : {T : Type ℓ} ⦃known : Eq T⦄ → T → T → Bool
◌==◌ ⦃known⦄ x y = known.same x y

pub nat_eq_sound : (m n : ℕ) → nat_eq m n ≡ true → m ≡ n
nat_eq_sound m n t = ground arith

pub nat_eq_self : (n : ℕ) → nat_eq n n ≡ true
nat_eq_self n = ground arith

instance abbrev pub ℕ_eq : Eq ℕ
ℕ_eq = record { same = nat_eq; same_sound = nat_eq_sound; same_self = nat_eq_self }

instance abbrev pub String_eq : Eq String
String_eq = record {
  same = str_eq;
  same_sound = λ s t. (eq_iff s t).0;
  same_self = λ s. (eq_iff s s).1 refl;
}

pub Bool-cases : (b : Bool) → (b ≡ true) ⊎ (b ≡ false)
Bool-cases true = inl refl
Bool-cases false = inr refl

pub Option-cases {ℓ} : {A : Type ℓ} (o : Option A) → (o ≡ none) ⊎ ((a : A) × (o ≡ some a))
Option-cases none = inl refl
Option-cases (some a) = inr (a, refl)

abbrev pub is_some {ℓ} : {A : Type ℓ} → Option A → Bool
is_some none = false
is_some (some a) = true

module _ {ℓ} {A : Type ℓ} ⦃e : Eq A⦄ where
  pub ==_self : (a : A) → (a == a) ≡ true
  ==_self a = e.same_self a

  pub ==_sound : (a b : A) → (a == b) ≡ true → a ≡ b
  ==_sound a b = e.same_sound a b

  pub ==_ne : (a b : A) → ¬ (a ≡ b) → (a == b) ≡ false
  ==_ne a b h = elim (Bool-cases (a == b)) [ inl t ↦ absurd (h (e.same_sound a b t)) | inr f ↦ f ]

-- ===== src/Base/Integers.antt =====
-- Go's signed integers, for the tests that the code makes of them.
use Prim.Native.Nat.{ℕ}
use mathlib.Core.Bool.{Bool, true, false}
use mathlib.Core.Path.{◌≡◌}
use fire.Base.Tests.{ltb, Eq, nat_eq, nat_eq_sound, nat_eq_self}

-- `negsuc n` is - (n + 1).
pub data ℤ : Type 0 where
  pos : ℕ → ℤ
  negsuc : ℕ → ℤ

-- a < b
abbrev pub less : ℤ → ℤ → Bool
less (pos a) (pos b) = ltb a b
less (pos a) (negsuc b) = false
less (negsuc a) (pos b) = true
less (negsuc a) (negsuc b) = ltb b a

abbrev pub int_eq : ℤ → ℤ → Bool
int_eq (pos a) (pos b) = nat_eq a b
int_eq (negsuc a) (negsuc b) = nat_eq a b
int_eq _ _ = false

pub int_eq_sound : (a b : ℤ) → int_eq a b ≡ true → a ≡ b
int_eq_sound (pos a) (pos b) h = let e = nat_eq_sound a b h in cc
int_eq_sound (pos a) (negsuc b) h = cc
int_eq_sound (negsuc a) (pos b) h = cc
int_eq_sound (negsuc a) (negsuc b) h = let e = nat_eq_sound a b h in cc

pub int_eq_self : (a : ℤ) → int_eq a a ≡ true
int_eq_self (pos a) = nat_eq_self a
int_eq_self (negsuc a) = nat_eq_self a

instance abbrev pub ℤ_eq : Eq ℤ
ℤ_eq = record { same = int_eq; same_sound = int_eq_sound; same_self = int_eq_self }

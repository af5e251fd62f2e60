-- ===== src/Base/Maps.antt =====
-- A Go map as an association list: the first entry of a key counts.
use mathlib.Core.Path.{◌≡◌, refl}
use mathlib.Core.Logic.{inl, inr}
use mathlib.Core.Bool.{false}
use mathlib.Core.List.{List, [], ◌∷◌}
use mathlib.Core.Option.{Option, none, some}
use native.Mathlib.Omega.{arith}
use fire.Base.Tests.{if◌then◌else◌, Eq, ◌==◌, Bool-cases, ==_self}

module _ {ℓ κ} {K : Type ℓ} {V : Type κ} ⦃e : Eq K⦄ where
  abbrev pub lookup : K → List (K × V) → Option V
  lookup k [] = none
  lookup k ((j, v) ∷ m) = if j == k then some v else lookup k m

  abbrev pub insert : K → V → List (K × V) → List (K × V)
  insert k v [] = (k, v) ∷ []
  insert k v ((j, w) ∷ m) = if j == k then (k, v) ∷ m else (j, w) ∷ insert k v m

  abbrev pub remove : K → List (K × V) → List (K × V)
  remove k [] = []
  remove k ((j, w) ∷ m) = if j == k then remove k m else (j, w) ∷ remove k m

  pub lookup-insert_self : (k : K) (v : V) (m : List (K × V)) → lookup k (insert k v m) ≡ some v
  lookup-insert_self k v [] = rw (==_self k)
  lookup-insert_self k v ((j, w) ∷ m) = elim (Bool-cases (j == k)) [
    | inl h ↦ rw h (rw (==_self k))
    | inr h ↦ rw h (rw h (lookup-insert_self k v m))
  ]

  pub lookup-insert_ne :
      (k i : K) (v : V) (m : List (K × V)) → (k == i) ≡ false → lookup i (insert k v m) ≡ lookup i m
  lookup-insert_ne k i v [] h = rw h
  lookup-insert_ne k i v ((j, w) ∷ m) h = elim (Bool-cases (j == k)) [
    | inl g ↦ let apart : (j == i) ≡ false = rw (e.same_sound j k g) h in rw (g, apart) (rw h)
    | inr g ↦ rw g (ground (arith, lookup-insert_ne k i v m h))
  ]

  pub lookup-remove_self : (k : K) (m : List (K × V)) → lookup k (remove k m) ≡ none
  lookup-remove_self k [] = refl
  lookup-remove_self k ((j, w) ∷ m) = elim (Bool-cases (j == k)) [
    | inl h ↦ rw h (lookup-remove_self k m)
    | inr h ↦ rw h (rw h (lookup-remove_self k m))
  ]

  pub lookup-remove_ne :
      (k i : K) (m : List (K × V)) → (k == i) ≡ false → lookup i (remove k m) ≡ lookup i m
  lookup-remove_ne k i [] h = refl
  lookup-remove_ne k i ((j, w) ∷ m) h = elim (Bool-cases (j == k)) [
    | inl g ↦
        let apart : (j == i) ≡ false = rw (e.same_sound j k g) h in
        rw (g, apart) (lookup-remove_ne k i m h)
    | inr g ↦ rw g (ground (arith, lookup-remove_ne k i m h))
  ]

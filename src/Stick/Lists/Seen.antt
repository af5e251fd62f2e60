-- ===== src/Stick/Lists/Seen.antt =====
-- A map of the items that a loop has seen, as in stick/lists.go and in loops like it.
use fire.Base.{
  Eq, ℕ_eq, String_eq, ◌==◌, Bool-cases, ℤ_eq, is_some, ==_self, ==_sound, lookup, insert,
  lookup-insert_self, lookup-insert_ne, ◌≡◌, refl, ◌↔◌, inl, inr, Bool, true, false, some, List, [],
  ◌∷◌, arith,
}
use fire.Base.{insert}
use mathlib.Core.Path.{subst}
use fire.Stick.Lists.Defs.{contains}
use fire.Stick.Lists.Unique.{Distinct}

module _ {ℓ} {T : Type ℓ} ⦃e : Eq T⦄ where
  -- No item is in the map, nor among the items before it.
  abbrev pub Unseen : List (T × Bool) → List T → Type 0
  Unseen table [] = Unit {0}
  Unseen table (x ∷ xs) = (is_some (lookup x table) ≡ false) × Unseen (insert x true table) xs

  -- No item of the list is in the map.
  abbrev pub Apart : List (T × Bool) → List T → Type ℓ
  Apart table xs = (x : T) → contains xs x ≡ true → is_some (lookup x table) ≡ false

  Apart-insert :
      (x : T) (table : List (T × Bool)) (xs : List T)
      → contains xs x ≡ false
      → Apart table xs
      → Apart (insert x true table) xs
  Apart-insert x table xs f a y h = elim (Bool-cases (x == y)) [
    | inl t ↦
        let clash : contains xs y ≡ false = subst (λ z. contains xs z ≡ false) (==_sound x y t) f in
        cc
    | inr g ↦ rw (lookup-insert_ne x y true table g) (a y h)
  ]

  unseen_behind :
      (x : T) (table : List (T × Bool)) (xs : List T)
      → Apart (insert x true table) xs
      → contains xs x ≡ false
  unseen_behind x table xs a = elim (Bool-cases (contains xs x)) [
    | inl t ↦
        let clash : is_some (some true) ≡ false = rw (lookup-insert_self x true table) at (a x t) in
        cc
    | inr f ↦ f
  ]

  Apart-cons :
      (x : T) (table : List (T × Bool)) (xs : List T)
      → is_some (lookup x table) ≡ false
      → Apart (insert x true table) xs
      → Apart table (x ∷ xs)
  unfolding contains
  Apart-cons x table xs f a y h = elim (Bool-cases (x == y)) [
    | inl t ↦ subst (λ z. is_some (lookup z table) ≡ false) (==_sound x y t) f
    | inr g ↦ rw (lookup-insert_ne x y true table g) at (a y (rw g at h))
  ]

  Unseen-Apart :
      (table : List (T × Bool)) (xs : List T) → Unseen table xs → Apart table xs × Distinct xs
  unfolding contains
  Unseen-Apart table [] u = ((λ x h. cc), tt)
  Unseen-Apart table (x ∷ xs) (f, u) =
      let (a, d) = Unseen-Apart (insert x true table) xs u in
      (Apart-cons x table xs f a, (unseen_behind x table xs a, d))

  Apart-Unseen :
      (table : List (T × Bool)) (xs : List T) → Apart table xs → Distinct xs → Unseen table xs
  unfolding contains
  Apart-Unseen table [] a d = tt
  Apart-Unseen table (x ∷ xs) a (f, d) = (
    a x (rw (==_self x) refl),
    Apart-Unseen (insert x true table) xs (Apart-insert x table xs f (λ y h. a y (ground arith))) d,
  )

  -- Over an empty map, no item is seen exactly where the items are distinct.
  pub Unseen-Distinct : (xs : List T) → Unseen [] xs ↔ Distinct xs
  Unseen-Distinct xs = ((λ u. (Unseen-Apart [] xs u).1), λ d. Apart-Unseen [] xs (λ x h. refl) d)

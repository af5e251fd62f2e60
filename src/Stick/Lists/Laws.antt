-- ===== src/Stick/Lists/Laws.antt =====
-- stick/lists.go: the lists as sets.
use fire.Base.{
  Eq, ℕ_eq, String_eq, ◌==◌, Bool-cases, ==_self, ==_sound, select, ◌≡◌, refl, ap, ◌↔◌, inl, inr,
  Bool, true, not, ◌&&◌, ◌||◌, none, some, List, [], ◌∷◌, ◌++◌, arith,
}
use fire.Stick.Lists.Defs.{Slice, items, contains, includes, subtract, intersect}

module _ {ℓ} {T : Type ℓ} ⦃e : Eq T⦄ where
  pub contains-append :
      (xs ys : List T) (x : T) → contains (xs ++ ys) x ≡ (contains xs x || contains ys x)
  unfolding contains
  contains-append [] ys x = refl
  contains-append (y ∷ xs) ys x = ground (arith, contains-append xs ys x)

  pub contains-select :
      (p : T → Bool) (xs : List T) (x : T) → contains (select p xs) x ≡ (contains xs x && p x)
  unfolding contains
  contains-select p [] x = refl
  contains-select p (y ∷ xs) x = elim (Bool-cases (y == x)) [
    | inl t ↦ ground (arith, contains-select p xs x, ap p (==_sound y x t))
    | inr f ↦ ground (arith, contains-select p xs x)
  ]

  -- Intersect holds the items of both lists, and no others; a nil list has no items.
  pub contains-intersect :
      (a b : Slice T) (x : T)
      → contains (items (intersect a b)) x ≡ (contains (items a) x && contains (items b) x)
  unfolding intersect
  contains-intersect none b x = refl
  contains-intersect (some a) none x = ground arith
  contains-intersect (some a) (some b) x = contains-select (contains b) a x

  -- Subtract holds the items of the first list that are not in the second.
  pub contains-subtract :
      (a b : Slice T) (x : T)
      → contains (items (subtract a b)) x ≡ (contains (items a) x && not (contains (items b) x))
  unfolding subtract
  contains-subtract none b x = refl
  contains-subtract (some a) b x = contains-select (λ item. not (contains (items b) item)) a x

  -- Includes holds where every item of the second list is an item of the first, and only there.
  pub includes_iff :
      (all subset : List T)
      → (includes all subset ≡ true) ↔ ((x : T) → contains subset x ≡ true → contains all x ≡ true)
  unfolding includes contains
  includes_iff all [] = (λ h x k. cc, λ k. refl)
  includes_iff all (item ∷ subset) = (
    λ h x k. elim (Bool-cases (item == x)) [
      | inl t ↦ let same : item ≡ x = ==_sound item x t in ground (arith, ap (contains all) same)
      | inr f ↦ (includes_iff all subset).0 (ground arith) x (ground arith)
    ],
    λ k.
        let head : contains all item ≡ true = k item (rw (==_self item)) in
        let rest : includes all subset ≡ true =
          (includes_iff all subset).1
            (λ x m. k x (elim (Bool-cases (item == x)) [ inl t ↦ rw t | inr f ↦ rw (f, m) ])) in
        rw (head, rest),
  )

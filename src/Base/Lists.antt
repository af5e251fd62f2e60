-- ===== src/Base/Lists.antt =====
-- Lists over native numbers, and predicates on lists by recursion.
use Prim.Native.Nat.{ℕ, suc, ◌+◌, ◌≤◌}
use mathlib.Core.Path.{◌≡◌, refl, sym, ap, subst, ◌∙◌}
use mathlib.Core.Bool.{Bool, true, false}
use mathlib.Core.Logic.{inl, inr}
use mathlib.Core.List.{List, [], ◌∷◌, ◌++◌}
use mathlib.Core.Option.{Option, none, some}
use native.Mathlib.Omega.{arith}
use fire.Base.Tests.{if◌then◌else◌, Bool-cases, is_some}

module _ {ℓ} {A : Type ℓ} where
  abbrev pub length : List A → ℕ
  length [] = 0
  length (x ∷ xs) = suc (length xs)

  pub length-append : (xs ys : List A) → length (xs ++ ys) ≡ length xs + length ys
  length-append [] ys = omega arith
  length-append (x ∷ xs) ys = omega (arith, length-append xs ys)

  -- Every element satisfies the predicate.
  abbrev pub All {κ} : (A → Type κ) → List A → Type κ
  All P [] = Unit
  All P (x ∷ xs) = P x × All P xs

  -- The elements that pass the test, in order.
  abbrev pub select : (A → Bool) → List A → List A
  select p [] = []
  select p (x ∷ xs) = if p x then x ∷ select p xs else select p xs

  -- The first element that passes the test.
  abbrev pub first : (A → Bool) → List A → Option A
  first p [] = none
  first p (x ∷ xs) = if p x then some x else first p xs

  -- The list with its first element that passes the test replaced.
  abbrev pub update_first : (A → Bool) → (A → A) → List A → List A
  update_first p f [] = []
  update_first p f (x ∷ xs) = if p x then f x ∷ xs else x ∷ update_first p f xs

  -- The list without its first element that passes the test.
  abbrev pub delete_first : (A → Bool) → List A → List A
  delete_first p [] = []
  delete_first p (x ∷ xs) = if p x then xs else x ∷ delete_first p xs

  pub All-append {κ} : (P : A → Type κ) (xs ys : List A) → All P xs → All P ys → All P (xs ++ ys)
  All-append P [] ys hx hy = hy
  All-append P (x ∷ xs) ys hx hy = (hx.0, All-append P xs ys hx.1 hy)

  pub All-left {κ} : (P : A → Type κ) (xs ys : List A) → All P (xs ++ ys) → All P xs
  All-left P [] ys h = tt
  All-left P (x ∷ xs) ys h = (h.0, All-left P xs ys h.1)

  pub All-first {κ} :
      (P : A → Type κ) (p : A → Bool) (xs : List A) {x : A} → All P xs → first p xs ≡ some x → P x
  All-first P p [] h e = cc
  All-first P p (y ∷ xs) {x = x} h e = elim (Bool-cases (p y)) [
    | inl t ↦ let same : some y ≡ some x = rw t at e in let eq : y ≡ x = cc in subst P eq h.0
    | inr t ↦ All-first P p xs h.1 (rw t at e)
  ]

  pub first_passes : (p : A → Bool) (xs : List A) {x : A} → first p xs ≡ some x → p x ≡ true
  first_passes p [] e = cc
  first_passes p (y ∷ xs) {x = x} e = elim (Bool-cases (p y)) [
    | inl t ↦ let same : some y ≡ some x = rw t at e in let eq : y ≡ x = cc in rw (← eq) t
    | inr t ↦ first_passes p xs (rw t at e)
  ]

  pub update_first-none :
      (p : A → Bool) (f : A → A) (xs : List A) → first p xs ≡ none → update_first p f xs ≡ xs
  update_first-none p f [] e = refl
  update_first-none p f (y ∷ xs) e = elim (Bool-cases (p y)) [
    | inl t ↦ let clash : some y ≡ none = rw t at e in cc
    | inr t ↦ rw t (ap (◌∷◌ y) (update_first-none p f xs (rw t at e)))
  ]

  pub update_first_id : (p : A → Bool) (xs : List A) → update_first p (λ x. x) xs ≡ xs
  update_first_id p [] = refl
  update_first_id p (y ∷ xs) = elim (Bool-cases (p y)) [
    | inl t ↦ rw t
    | inr t ↦ rw t (ap (◌∷◌ y) (update_first_id p xs))
  ]

  pub All-update_first {κ} :
      (P : A → Type κ) (p : A → Bool) (f : A → A) (xs : List A)
      → ((x : A) → P x → p x ≡ true → P (f x))
      → All P xs
      → All P (update_first p f xs)
  All-update_first P p f [] k h = tt
  All-update_first P p f (y ∷ xs) k h = elim (Bool-cases (p y)) [
    | inl t ↦ rw t (k y h.0 t, h.1)
    | inr t ↦ rw t (h.0, All-update_first P p f xs k h.1)
  ]

  pub All-delete_first {κ} :
      (P : A → Type κ) (p : A → Bool) (xs : List A) → All P xs → All P (delete_first p xs)
  All-delete_first P p [] h = tt
  All-delete_first P p (y ∷ xs) h = elim (Bool-cases (p y)) [
    | inl t ↦ rw t h.1
    | inr t ↦ rw t (h.0, All-delete_first P p xs h.1)
  ]

  -- A search that an update, a deletion or an insertion does not disturb.
  pub first-update_first :
      (q p : A → Bool) (f : A → A) (xs : List A)
      → ((x : A) → q (f x) ≡ q x)
      → is_some (first q (update_first p f xs)) ≡ is_some (first q xs)
  first-update_first q p f [] k = refl
  first-update_first q p f (y ∷ xs) k = elim (Bool-cases (p y)) [
    | inl t ↦ rw (t, k y) (ground arith)
    | inr t ↦ rw t (ground (arith, first-update_first q p f xs k))
  ]

  pub first-delete_first {κ} :
      (P : A → Type κ) (q p : A → Bool) (xs : List A)
      → ((x : A) → P x → p x ≡ true → q x ≡ false)
      → All P xs
      → first q (delete_first p xs) ≡ first q xs
  first-delete_first P q p [] k h = refl
  first-delete_first P q p (y ∷ xs) k h = elim (Bool-cases (p y)) [
    | inl t ↦ rw (t, k y h.0 t)
    | inr t ↦ rw t (ground (arith, first-delete_first P q p xs k h.1))
  ]

  pub first-append :
      (q : A → Bool) (xs ys : List A)
      → is_some (first q xs) ≡ true
      → is_some (first q (xs ++ ys)) ≡ true
  first-append q [] ys h = cc
  first-append q (y ∷ xs) ys h = elim (Bool-cases (q y)) [
    | inl t ↦ rw t
    | inr t ↦ rw t (first-append q xs ys (rw t at h))
  ]

  pub All-map {κ ι} :
      (P : A → Type κ) (Q : A → Type ι) (xs : List A) → ((x : A) → P x → Q x) → All P xs → All Q xs
  All-map P Q [] k h = tt
  All-map P Q (x ∷ xs) k h = (k x h.0, All-map P Q xs k h.1)

  -- How many elements pass a test, after an update and after an insertion.
  pub select-update_first :
      (q p : A → Bool) (f : A → A) (xs : List A)
      → ((x : A) → p x ≡ true → q (f x) ≡ true → q x ≡ true)
      → length (select q (update_first p f xs)) ≤ length (select q xs)
  select-update_first q p f [] k = omega arith
  select-update_first q p f (y ∷ xs) k = elim (Bool-cases (p y)) [
    | inl t ↦ rw t (ground (arith, k y t))
    | inr t ↦ rw t (ground (arith, select-update_first q p f xs k))
  ]

  pub select-append :
      (q : A → Bool) (xs ys : List A) → select q (xs ++ ys) ≡ select q xs ++ select q ys
  select-append q [] ys = refl
  select-append q (y ∷ xs) ys = elim (Bool-cases (q y)) [
    | inl t ↦ rw t (ap (◌∷◌ y) (select-append q xs ys))
    | inr t ↦ rw t (select-append q xs ys)
  ]

  pub select-none {κ} :
      (P : A → Type κ) (q r : A → Bool) (xs : List A)
      → ((x : A) → P x → q x ≡ true → r x ≡ true)
      → All P xs
      → first r xs ≡ none
      → select q xs ≡ []
  select-none P q r [] k h n = refl
  select-none P q r (y ∷ xs) k h n = elim (Bool-cases (r y)) [
    | inl t ↦ let clash : some y ≡ none = rw t at n in cc
    | inr t ↦ elim (Bool-cases (q y)) [
      | inl v ↦ let clash : true ≡ false = sym (k y h.0 v) ∙ t in cc
      | inr v ↦ rw v (select-none P q r xs k h.1 (rw t at n))
    ]
  ]

  none_select-All :
      (q : A → Bool) (xs : List A) → length (select q xs) ≤ 0 → All (λ x. q x ≡ false) xs
  none_select-All q [] h = tt
  none_select-All q (y ∷ xs) h = elim (Bool-cases (q y)) [
    | inl t ↦ let more : suc (length (select q xs)) ≤ 0 = rw t at h in absurd (omega arith)
    | inr t ↦ (t, none_select-All q xs (rw t at h))
  ]

  -- Where one element at most passes a test that the updated one passes, the update's result is
  -- the only one to pass it.
  pub update_first-sole :
      (q p : A → Bool) (f : A → A) (xs : List A) (d : A)
      → ((x : A) → p x ≡ true → q x ≡ true)
      → length (select q xs) ≤ 1
      → first p xs ≡ some d
      → All (λ x. q x ≡ true → x ≡ f d) (update_first p f xs)
  update_first-sole q p f [] d k h e = cc
  update_first-sole q p f (y ∷ xs) d k h e = elim (Bool-cases (p y)) [
    | inl t ↦
        let same : some y ≡ some d = rw t at e in
        let eq : y ≡ d = cc in
        let one : suc (length (select q xs)) ≤ 1 = rw (k y t) at h in
        rw t (
          (λ _. ap f eq),
          All-map (λ x. q x ≡ false) (λ x. q x ≡ true → x ≡ f d) xs (λ x a b. cc)
              (none_select-All q xs (omega arith)),
        )
    | inr t ↦
        let found : first p xs ≡ some d = rw t at e in
        rw t (elim (Bool-cases (q y)) [
          | inl v ↦
              let one : suc (length (select q xs)) ≤ 1 = rw v at h in
              let passed =
                All-first (λ x. q x ≡ false) p xs (none_select-All q xs (omega arith)) found in
              let clash : true ≡ false = sym (k d (first_passes p xs found)) ∙ passed in cc
          | inr v ↦ (
            (λ b. let clash : true ≡ false = sym b ∙ v in cc),
            update_first-sole q p f xs d k (rw v at h) found,
          )
        ])
  ]

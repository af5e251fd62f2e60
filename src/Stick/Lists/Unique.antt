-- ===== src/Stick/Lists/Unique.antt =====
-- stick/lists.go, Unique and Union.
use fire.Base.{
  Eq, ℕ_eq, String_eq, ◌==◌, Bool-cases, is_some, ==_self, ==_sound, lookup, insert,
  lookup-insert_self, lookup-insert_ne, ◌≡◌, refl, sym, ap, ◌∙◌, inl, inr, Bool, true, false, ◌||◌,
  none, some, List, [], ◌∷◌, ◌++◌, arith,
}
use mathlib.Core.Path.{subst}
use fire.Stick.Lists.Defs.{
  Slice, items, contains, add_missing, unique, add_lists, any_non_nil, union,
}
use fire.Stick.Lists.Laws.{contains-append}

module _ {ℓ} {T : Type ℓ} ⦃e : Eq T⦄ where
  -- No item stands twice.
  abbrev pub Distinct : List T → Type 0
  Distinct [] = Unit {0}
  Distinct (x ∷ xs) = (contains xs x ≡ false) × Distinct xs

  ==_sym : (x y : T) → (x == y) ≡ false → (y == x) ≡ false
  ==_sym x y f = elim (Bool-cases (y == x)) [
    | inl t ↦ let loop : (x == y) ≡ true = rw (==_sound y x t) (==_self x) in cc
    | inr g ↦ g
  ]

  contains-snoc : (xs : List T) (x y : T) → contains (xs ++ x ∷ []) y ≡ (contains xs y || x == y)
  unfolding contains
  contains-snoc xs x y = ground (arith, contains-append xs (x ∷ []) y)

  Distinct-snoc :
      (xs : List T) (x : T) → Distinct xs → contains xs x ≡ false → Distinct (xs ++ x ∷ [])
  unfolding contains
  Distinct-snoc [] x d h = (refl, tt)
  Distinct-snoc (y ∷ xs) x d h = elim (Bool-cases (y == x)) [
    | inl t ↦ let clash : true ≡ false = rw t at h in cc
    | inr f ↦
        (contains-snoc xs x y ∙ rw (d.0, ==_sym y x f) refl, Distinct-snoc xs x d.1 (rw f at h))
  ]

  -- The table holds the items of the result, which are distinct.
  record Added (table : List (T × Bool)) (res : List T) : Type ℓ where
    same : (x : T) → is_some (lookup x table) ≡ contains res x
    distinct : Distinct res

  Added-one :
      (table : List (T × Bool)) (res : List T) (item : T)
      → Added table res
      → is_some (lookup item table) ≡ false
      → Added (insert item true table) (res ++ item ∷ [])
  Added-one table res item a h = record {
    same = λ x. elim (Bool-cases (item == x)) [
      | inl t ↦
          subst (λ z. is_some (lookup z (insert item true table)) ≡ contains (res ++ item ∷ []) z)
            (==_sound item x t)
            (rw (lookup-insert_self item true table, contains-snoc res item item, ==_self item)
              (ground arith))
      | inr f ↦
          ap is_some (lookup-insert_ne item x true table f)
          ∙ a.same x
          ∙ sym (contains-snoc res item x ∙ rw f (ground arith))
    ];
    distinct = Distinct-snoc res item a.distinct (sym (a.same item) ∙ h);
  }

  -- What the loop makes of the list.
  record ResultOf (res list : List T) (w : List (T × Bool) × List T) : Type ℓ where
    added : Added w.0 w.1
    contained : (x : T) → contains w.1 x ≡ (contains res x || contains list x)

  step_lem :
      (table : List (T × Bool)) (res : List T) (item : T) (list : List T)
      → Added table res
      → ((table : List (T × Bool)) (res : List T)
          → Added table res
          → ResultOf res list (add_missing table res list))
      → (b : Bool) → is_some (lookup item table) ≡ b
      → ResultOf res (item ∷ list) (elim b [
        | true ↦ add_missing table res list
        | false ↦ add_missing (insert item true table) (res ++ item ∷ []) list
      ])
  unfolding contains
  step_lem table res item list a rest true h =
      let r = rest table res a in
      record {
        added = r.added;
        contained = λ x. elim (Bool-cases (item == x)) [
          | inl t ↦
              let known : contains res x ≡ true =
                ap (contains res) (sym (==_sound item x t)) ∙ sym (a.same item) ∙ h in
              ground (arith, r.contained x)
          | inr f ↦ ground (arith, r.contained x)
        ];
      }
  step_lem table res item list a rest false h =
      let r = rest (insert item true table) (res ++ item ∷ []) (Added-one table res item a h) in
      record {
        added = r.added;
        contained = λ x. ground (arith, r.contained x, contains-snoc res item x);
      }

  add_missing_lem :
      (table : List (T × Bool)) (res list : List T)
      → Added table res
      → ResultOf res list (add_missing table res list)
  unfolding add_missing contains
  add_missing_lem table res [] a = record { added = a; contained = λ x. ground arith }
  add_missing_lem table res (item ∷ list) a =
      step_lem table res item list a (λ table res. add_missing_lem table res list)
        (is_some (lookup item table)) refl

  empty : Added [] []
  unfolding contains
  empty = record { same = λ x. refl; distinct = tt }

  -- Unique answers the same items as the list, each once.
  pub unique_lem :
      (list : List T)
      → (res : List T) × (unique (some list) ≡ some res)
        × Distinct res
        × ((x : T) → contains res x ≡ contains list x)
  unfolding unique contains
  unique_lem list =
      let r = add_missing_lem [] [] list empty in
      ((add_missing [] [] list).1, refl, r.added.distinct, λ x. r.contained x)

  -- The item is in one of the lists.
  abbrev pub any_contains : List (Slice T) → T → Bool
  any_contains [] x = false
  any_contains (l ∷ ls) x = contains (items l) x || any_contains ls x

  add_lists_lem :
      (table : List (T × Bool)) (res : List T) (ls : List (Slice T))
      → Added table res
      → Distinct (add_lists table res ls)
        × ((x : T) → contains (add_lists table res ls) x ≡ (contains res x || any_contains ls x))
  unfolding add_lists
  add_lists_lem table res [] a = (a.distinct, λ x. ground arith)
  add_lists_lem table res (l ∷ ls) a =
      let r = add_missing_lem table res (items l) a in
      let w = add_missing table res (items l) in
      let q = add_lists_lem w.0 w.1 ls r.added in (q.0, λ x. ground (arith, q.1 x, r.contained x))

  nil_contains : (ls : List (Slice T)) (x : T) → any_non_nil ls ≡ false → any_contains ls x ≡ false
  unfolding contains
  nil_contains [] x h = refl
  nil_contains (none ∷ ls) x h = nil_contains ls x h
  nil_contains (some l ∷ ls) x h = cc

  -- Union answers the items that one of the lists contains, each once; nil lists have no items.
  pub union_lem :
      (ls : List (Slice T))
      → Distinct (items (union ls)) × ((x : T) → contains (items (union ls)) x ≡ any_contains ls x)
  unfolding union contains
  union_lem [] = (tt, λ x. refl)
  union_lem (l ∷ ls) = elim (Bool-cases (any_non_nil (l ∷ ls))) [
    | inl t ↦ rw (t) (add_lists_lem [] [] (l ∷ ls) empty)
    | inr f ↦ rw f (tt, λ x. sym (nil_contains (l ∷ ls) x f))
  ]

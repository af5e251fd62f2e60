-- ===== src/Stick/Lists/Defs.antt =====
-- stick/lists.go. A Go slice is an option, `none` being nil; the table of the items that were
-- added is a map.
use fire.Base.{
  Eq, ℕ_eq, String_eq, ◌==◌, if◌then◌else◌, is_some, select, lookup, insert, Bool, true, false, not,
  ◌||◌, Option, none, some, List, [], ◌∷◌, ◌++◌,
}

abbrev pub Slice {ℓ} : Type ℓ → Type ℓ
Slice T = Option (List T)

-- What a loop over a slice visits.
abbrev pub items {ℓ} : {T : Type ℓ} → Slice T → List T
items none = []
items (some xs) = xs

module _ {ℓ} {T : Type ℓ} ⦃e : Eq T⦄ where
  unfoldable pub contains : List T → T → Bool
  contains [] str = false
  contains (item ∷ list) str = let rest = contains list str in if item == str then true else rest

  unfoldable pub includes : List T → List T → Bool
  includes all [] = true
  includes all (item ∷ subset) =
      let rest = includes all subset in if not (contains all item) then false else rest

  -- The loop that Unique and Union share: add the items that are not in the table.
  unfoldable pub add_missing : List (T × Bool) → List T → List T → List (T × Bool) × List T
  add_missing table res [] = (table, res)
  add_missing table res (item ∷ list) = elim (is_some (lookup item table)) [
    | true ↦ add_missing table res list
    | false ↦ add_missing (insert item true table) (res ++ item ∷ []) list
  ]

  unfoldable pub unique : Slice T → Slice T
  unfolding add_missing
  unique none = none
  unique (some list) = some (add_missing [] [] list).1

  -- The loop over the lists of Union.
  unfoldable pub add_lists : List (T × Bool) → List T → List (Slice T) → List T
  unfolding add_missing
  add_lists table res [] = res
  add_lists table res (l ∷ lists) =
      let (table', res') = add_missing table res (items l) in add_lists table' res' lists

  abbrev pub any_non_nil : List (Slice T) → Bool
  any_non_nil [] = false
  any_non_nil (l ∷ lists) = is_some l || any_non_nil lists

  unfoldable pub union : List (Slice T) → Slice T
  unfolding add_lists
  union [] = none
  union (l ∷ lists) =
      if not (any_non_nil (l ∷ lists)) then none else some (add_lists [] [] (l ∷ lists))

  unfoldable pub subtract : Slice T → Slice T → Slice T
  unfolding contains
  subtract none b = none
  subtract (some a) b = some (select (λ item. not (contains (items b) item)) a)

  unfoldable pub intersect : Slice T → Slice T → Slice T
  unfolding contains
  intersect none b = none
  intersect (some a) none = none
  intersect (some a) (some b) = some (select (contains b) a)

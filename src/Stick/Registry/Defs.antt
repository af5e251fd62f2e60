-- ===== src/Stick/Registry/Defs.antt =====
-- stick/registry.go: values under several keys. Each index stands beside the function that gives
-- its keys; a panic, also one in such a function, is an error.
use fire.Base.{
  ℕ_eq, String_eq, ◌==◌, if◌then◌else◌, ℤ_eq, try, is_some, Error, panics, Result, ok, err, lookup,
  insert, ℕ, zero, suc, String, Option, none, some, List, [], ◌∷◌, ◌++◌,
}

pub record Index (T : Type 0) : Type 0 where
  pub key_of : T → Result String
  pub values : List (String × T)

pub record Registry (T : Type 0) : Type 0 where
  pub validator : T → Option Error
  pub indexes : List (Index T)
  pub list : List T

abbrev pub nth : {A : Type 0} → ℕ → List A → Option A
nth n [] = none
nth zero (x ∷ xs) = some x
nth (suc n) (x ∷ xs) = nth n xs

module _ {T : Type 0} where
  -- The loop of Add over the indexes.
  unfoldable pub add_index : T → Index T → Result (Index T)
  add_index value i = try (i.key_of value) λ key.
      if key == ""
      then err (panics "stick: missing key")
      else if is_some (lookup key i.values)
      then err (panics "stick: value already added")
      else ok (record i { values = insert key value i.values })

  unfoldable pub add_indexes : T → List (Index T) → Result (List (Index T))
  unfolding add_index
  add_indexes value [] = ok []
  add_indexes value (i ∷ is) =
      try (add_index value i) λ i'. try (add_indexes value is) λ is'. ok (i' ∷ is')

  -- One round of Add's loop over the values.
  unfoldable pub add_value : Registry T → T → Result (Registry T)
  unfolding add_indexes
  add_value r value =
      if is_some (r.validator value)
      then err (panics "stick: invalid value")
      else try (add_indexes value r.indexes)
          λ is. ok (record r { indexes = is; list = r.list ++ value ∷ [] })

  unfoldable pub add : Registry T → List T → Result (Registry T)
  unfolding add_value
  add r [] = ok r
  add r (value ∷ values) = try (add_value r value) λ r'. add r' values

  abbrev pub empty_indexes : List (T → Result String) → List (Index T)
  empty_indexes [] = []
  empty_indexes (f ∷ fs) = record { key_of = f; values = [] } ∷ empty_indexes fs

  unfoldable pub new_registry :
      List T → (T → Option Error) → List (T → Result String) → Result (Registry T)
  unfolding add
  new_registry values validator indexer =
      add (record { validator = validator; indexes = empty_indexes indexer; list = [] }) values

  -- The loop of Get.
  unfoldable pub find_value : List (Index T) → T → Result (Option T)
  find_value [] predicate = ok none
  find_value (i ∷ is) predicate = try (i.key_of predicate) λ key. elim (lookup key i.values) [
    | none ↦ find_value is predicate
    | some value ↦ ok (some value)
  ]

  unfoldable pub get : Registry T → T → Result (Option T)
  unfolding find_value
  get r predicate = find_value r.indexes predicate

  unfoldable pub must_get : Registry T → T → Result T
  unfolding get
  must_get r predicate =
      try (get r predicate)
        λ o. elim o [ none ↦ err (panics "stick: missing value") | some value ↦ ok value ]

  -- All
  abbrev pub all : Registry T → List T
  all r = r.list

  -- Lookup; the index is one of the registry's.
  unfoldable pub lookup_value : Registry T → ℕ → String → Result (Option T)
  lookup_value r index key = elim (nth index r.indexes) [
    | none ↦ err (panics "index out of range")
    | some i ↦ ok (lookup key i.values)
  ]

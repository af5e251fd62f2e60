-- ===== src/Stick/Tests.antt =====
-- Runs of stick/lists.go, with the theorems at these runs.
use fire.Base.{
  ℕ_eq, String_eq, ◌==◌, if◌then◌else◌, ℤ_eq, All, Result, ok, String, ◌≡◌, refl, ◌↔◌, true, not,
  ◌&&◌, none, some, List, [], ◌∷◌,
}
use fire.Stick.Lists.Defs.{Slice, items, contains, includes, unique, union, subtract, intersect}
use fire.Stick.Lists.Unique.{Distinct, any_contains, unique_lem, union_lem}
use fire.Stick.Registry.Defs.{
  Registry, add_index, add_indexes, add_value, add, new_registry, get, all,
}
use fire.Stick.Registry.Laws.{new_registry-get}
use fire.Stick.Lists.Laws.{contains-intersect, contains-subtract, includes_iff}

abbrev ab : Slice String
ab = some ("a" ∷ "b" ∷ [])

abbrev bc : Slice String
bc = some ("b" ∷ "c" ∷ [])

contains-intersect_example :
    contains (items (intersect ab bc)) "b" ≡ (contains (items ab) "b" && contains (items bc) "b")
contains-intersect_example = contains-intersect ab bc "b"

contains-subtract_example :
    contains (items (subtract ab bc)) "a"
    ≡ (contains (items ab) "a" && not (contains (items bc) "a"))
contains-subtract_example = contains-subtract ab bc "a"

includes_iff_example :
    (includes (items ab) (items bc) ≡ true)
    ↔ ((x : String) → contains (items bc) x ≡ true → contains (items ab) x ≡ true)
includes_iff_example = includes_iff (items ab) (items bc)

abbrev abac : Slice String
abac = some ("a" ∷ "b" ∷ "a" ∷ "c" ∷ [])

abbrev abc : Slice String
abc = some ("a" ∷ "b" ∷ "c" ∷ [])

once : unique abac ≡ abc
unfolding unique
once = refl

united : union (ab ∷ none ∷ bc ∷ []) ≡ abc
unfolding union
united = refl

unique_lem_example :
    (res : List String) × (unique (some (items abac)) ≡ some res)
    × Distinct res
    × ((x : String) → contains res x ≡ contains (items abac) x)
unique_lem_example = unique_lem (items abac)

union_lem_example :
    Distinct (items (union (ab ∷ none ∷ bc ∷ [])))
    × ((x : String)
        → contains (items (union (ab ∷ none ∷ bc ∷ []))) x ≡ any_contains (ab ∷ none ∷ bc ∷ []) x)
union_lem_example = union_lem (ab ∷ none ∷ bc ∷ [])

-- Numbers of one digit under their name and their parity.
abbrev parity : String → Result String
parity s = ok (if s == "two" then "even" else "odd")

abbrev numbers : Registry String
numbers = record {
  validator = λ v. none;
  indexes =
      record { key_of = λ v. ok v; values = ("one", "one") ∷ ("two", "two") ∷ [] }
      ∷ record { key_of = parity; values = ("odd", "one") ∷ ("even", "two") ∷ [] }
      ∷ [];
  list = "one" ∷ "two" ∷ [];
}

numbers_lem : new_registry ("one" ∷ "two" ∷ []) (λ v. none) ((λ v. ok v) ∷ parity ∷ []) ≡ ok numbers
unfolding new_registry add add_value add_indexes add_index
numbers_lem = refl

new_registry-get_example :
    (all numbers ≡ "one" ∷ "two" ∷ []) × All (λ v. get numbers v ≡ ok (some v)) ("one" ∷ "two" ∷ [])
new_registry-get_example =
    new_registry-get ("one" ∷ "two" ∷ []) (λ v. none) (λ v. ok v) (parity ∷ []) numbers numbers_lem

-- ===== src/Ash/Access.antt =====
-- ash/access.go: access levels, tables and matrices. The sorting of texts, which the standard
-- library does, is a parameter.
use fire.Base.{
  ℕ_eq, String_eq, ◌==◌, if◌then◌else◌, ℤ_eq, try, panics, Result, ok, err, lookup, insert, ℕ, suc,
  String, not, none, some, List, [], ◌∷◌,
}
use fire.Base.{insert}
use Prim.Native.Char.{code}
use Prim.Native.Nat.{bit_and, bit_or}
use fire.Stick.Registry.Defs.{nth}

-- The access levels.
abbrev pub list_access : ℕ
list_access = 2

abbrev pub find_access : ℕ
find_access = 4

abbrev pub create_access : ℕ
create_access = 8

abbrev pub update_access : ℕ
update_access = 16

abbrev pub delete_access : ℕ
delete_access = 32

abbrev pub read_access : ℕ
read_access = bit_or list_access find_access

abbrev pub write_access : ℕ
write_access = bit_or (bit_or create_access update_access) delete_access

abbrev pub full_access : ℕ
full_access = bit_or read_access write_access

-- accessTags: L, F, C, U, D, R, W and *, and 0 for every other character.
abbrev pub access_tags : List (ℕ × ℕ)
access_tags =
    (76, list_access)
    ∷ (70, find_access)
    ∷ (67, create_access)
    ∷ (85, update_access)
    ∷ (68, delete_access)
    ∷ (82, read_access)
    ∷ (87, write_access)
    ∷ (42, full_access)
    ∷ []

abbrev pub level : List (String × ℕ) → String → ℕ
level table key = elim (lookup key table) [ none ↦ 0 | some n ↦ n ]

abbrev pub tag_level : ℕ → ℕ
tag_level char = elim (lookup char access_tags) [ none ↦ 0 | some n ↦ n ]

-- Collect
abbrev pub matching : ℕ → List (String × ℕ) → List String
matching match_level [] = []
matching match_level ((item, access) ∷ table) =
    let rest = matching match_level table in
    if not (bit_and access match_level == 0) then item ∷ rest else rest

abbrev pub collect : (List String → List String) → ℕ → List (String × ℕ) → List String
collect sort match_level table = sort (matching match_level table)

-- The loops of Compile, from the inside: over the characters of a cell, the columns and the rows.
-- A column that a row does not have is a panic.
abbrev pub add_tags : String → String → List (String × ℕ) → List (String × ℕ)
add_tags key String.[] table = table
add_tags key (String.◌∷◌ c cell) table =
    add_tags key cell (insert key (bit_or (level table key) (tag_level (code c))) table)

abbrev pub add_columns :
    String → List String → List ℕ → List (String × ℕ) → Result (List (String × ℕ))
add_columns key row [] table = ok table
add_columns key row (column ∷ columns) table = elim (nth column row) [
  | none ↦ err (panics "index out of range")
  | some cell ↦ add_columns key row columns (add_tags key cell table)
]

abbrev pub add_rows :
    List (String × List String) → List ℕ → List (String × ℕ) → Result (List (String × ℕ))
add_rows [] columns table = ok table
add_rows ((key, row) ∷ rows) columns table =
    try (add_columns key row columns table) λ more. add_rows rows columns more

-- Compile, of a matrix and of one with named columns.
abbrev pub compile : List (String × List String) → List ℕ → Result (List (String × ℕ))
compile matrix columns = add_rows matrix columns []

abbrev pub index_of : ℕ → String → List String → Result ℕ
index_of i column [] = err (panics "ash: column not found")
index_of i column (key ∷ keys) = if key == column then ok i else index_of (suc i) column keys

abbrev pub indexes : List String → List String → Result (List ℕ)
indexes keys [] = ok []
indexes keys (column ∷ columns) =
    try (index_of 0 column keys) λ i. try (indexes keys columns) λ more. ok (i ∷ more)

abbrev pub compile_named :
    List String → List (String × List String) → List String → Result (List (String × ℕ))
compile_named keys matrix columns = try (indexes keys columns) λ is. compile matrix is

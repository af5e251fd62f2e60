-- ===== src/Ash/AccessTests.antt =====
-- Runs of ash/access.go: those of ash/access_test.go.
use fire.Base.{ℕ_eq, String_eq, ℤ_eq, panics, ok, err, ℕ, String, ◌≡◌, refl, List, [], ◌∷◌}
use fire.Ash.Access.{read_access, write_access, full_access, collect, compile, compile_named}

abbrev table : List (String × ℕ)
table = ("Foo", 44) ∷ ("Bar", read_access) ∷ []

-- A sorting of these two texts.
abbrev swap : List String → List String
swap (a ∷ b ∷ []) = b ∷ a ∷ []
swap xs = xs

readable : collect swap read_access table ≡ "Bar" ∷ "Foo" ∷ []
readable = refl

writable : collect swap write_access table ≡ "Foo" ∷ []
writable = refl

abbrev matrix : List (String × List String)
matrix = ("Foo", "FCD" ∷ "*" ∷ []) ∷ ("Bar", "R  " ∷ "W" ∷ []) ∷ []

first_column : compile matrix (0 ∷ []) ≡ ok table
first_column = refl

second_column : compile matrix (1 ∷ []) ≡ ok (("Foo", full_access) ∷ ("Bar", write_access) ∷ [])
second_column = refl

both_columns :
    compile_named ("foo" ∷ "bar" ∷ []) matrix ("foo" ∷ "bar" ∷ [])
    ≡ ok (("Foo", full_access) ∷ ("Bar", full_access) ∷ [])
both_columns = refl

missing_column :
    compile_named ("foo" ∷ "bar" ∷ []) matrix ("baz" ∷ []) ≡ err (panics "ash: column not found")
missing_column = refl

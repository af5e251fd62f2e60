-- ===== src/Blaze/Ambiguities.antt =====
-- blaze/models.go, Links.Validate: which lists of links are valid.
use fire.Base.{
  ℕ_eq, String_eq, ℤ_eq, is_some, lookup, insert, ℕ, suc, String, ◌≡◌, Bool, true, false, ◌&&◌,
  none, List, [], ◌∷◌, map,
}
use fire.Stick.Lists.Unique.{Distinct}
use fire.Stick.Lists.Seen.{Unseen}
use fire.Blaze.Model.{Formats, Link, validate_link}
use fire.Blaze.LinkLists.{Seen}

-- The items are distinct where that is asked for.
abbrev pub DistinctIf : Bool → List String → Type 0
DistinctIf false xs = Unit {0}
DistinctIf true xs = Distinct xs

-- No item is in the map, nor among the items before it, where that is asked for.
abbrev UnseenIf : Bool → List (String × Bool) → List String → Type 0
UnseenIf asked table [] = Unit {0}
UnseenIf asked table (x ∷ xs) =
    ((asked && is_some (lookup x table)) ≡ false) × UnseenIf asked (insert x true table) xs

-- The three checks of a link.
abbrev Unambiguous : Bool → Seen → Link → Type 0
Unambiguous asked s l =
    (is_some (lookup l.ref s.refs) ≡ false)
    × (is_some (lookup l.file s.files) ≡ false)
    × ((asked && is_some (lookup l.file_name s.names)) ≡ false)

module _ {Handle : Type 0} (fmt : Formats Handle) where
  abbrev pub copy_of : (ℕ → String) → ℕ → Link → Link
  copy_of new i l = (validate_link fmt (new i) false [] l).0

  -- The copies that the loop validates, and that each one is valid by itself.
  abbrev pub copies : (ℕ → String) → ℕ → List Link → List Link
  copies new i [] = []
  copies new i (l ∷ links) = copy_of new i l ∷ copies new (suc i) links

  abbrev pub EachValid : (ℕ → String) → ℕ → Bool → List String → List Link → Type 0
  EachValid new i unique_filenames whitelist [] = Unit {0}
  EachValid new i unique_filenames whitelist (l ∷ links) =
      ((validate_link fmt (new i) unique_filenames whitelist l).1 ≡ none)
      × EachValid new (suc i) unique_filenames whitelist links

  -- What the loop finds of the rest of the list.
  record Accepts (new : ℕ → String) (i : ℕ) (unique_filenames : Bool) (whitelist : List String)
      (s : Seen) (links : List Link) : Type 0 where
    valid : EachValid new i unique_filenames whitelist links
    refs : Unseen s.refs (map (λ l. l.ref) (copies new i links))
    files : Unseen s.files (map (λ l. l.file) (copies new i links))
    names : UnseenIf unique_filenames s.names (map (λ l. l.file_name) (copies new i links))

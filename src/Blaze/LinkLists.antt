-- ===== src/Blaze/LinkLists.antt =====
-- blaze/models.go, Links.Validate: the validation of a list of links.
use fire.Base.{
  ℕ_eq, String_eq, if◌then◌else◌, ℤ_eq, is_some, Error, message, lookup, insert, ℕ, suc, String,
  Bool, true, ◌&&◌, Option, none, some, List, [], ◌∷◌,
}
use fire.Base.{insert}
use fire.Blaze.Model.{Formats, Link, validate_link}

-- The maps of the loop; the keys of a map are those that it has with true.
pub record Seen : Type 0 where
  pub refs : List (String × Bool)
  pub files : List (ℕ × Bool)
  pub names : List (String × Bool)

abbrev pub nothing : Seen
nothing = record { refs = []; files = []; names = [] }

abbrev pub see : Link → Seen → Seen
see l s = record {
  refs = insert l.ref true s.refs;
  files = insert l.file true s.files;
  names = insert l.file_name true s.names;
}

-- The checks of a link's uniqueness.
unfoldable pub ambiguity : Bool → Seen → Link → Option Error
ambiguity unique_filenames s l =
    if is_some (lookup l.ref s.refs)
    then some (message "ambiguous reference")
    else if is_some (lookup l.file s.files)
    then some (message "ambiguous file")
    else if unique_filenames && is_some (lookup l.file_name s.names)
    then some (message "ambiguous filename")
    else none

abbrev pub or_then : Option Error → Option Error → Option Error
or_then none e = e
or_then (some x) e = some x

module _ {Handle : Type 0} (fmt : Formats Handle) where
  -- The loop from the link at an index on. It validates a copy of a link, which gets the ID of its
  -- index where it has no reference; the list keeps its links.
  unfoldable pub validate_from :
      (ℕ → String) → ℕ → Bool → List String → Seen → List Link → Option Error
  validate_from new i unique_filenames whitelist s [] = none
  validate_from new i unique_filenames whitelist s (link ∷ links) =
      let (l, invalid_link) = validate_link fmt (new i) unique_filenames whitelist link in
      or_then invalid_link (
        or_then (ambiguity unique_filenames s l)
          (validate_from new (suc i) unique_filenames whitelist (see l s) links))

  abbrev pub validate_links : (ℕ → String) → Bool → List String → List Link → Option Error
  validate_links new unique_filenames whitelist links =
      validate_from new 0 unique_filenames whitelist nothing links

-- ===== src/Blaze/LinkTests.antt =====
-- Runs of blaze/models.go's Links.Validate, with the theorem at such a run.
use fire.Base.{
  ℕ_eq, String_eq, ◌==◌, if◌then◌else◌, pos, ℤ_eq, message, ℕ, String, ◌≡◌, refl, true, false, none,
  some, List, [], ◌∷◌,
}
use fire.Stick.Lists.Defs.{contains}
use fire.Blaze.Model.{Formats, Link}
use fire.Blaze.LinkLists.{ambiguity, validate_from, validate_links}

abbrev formats : Formats ℕ
formats = record {
  parse_media_type = λ s. some s;
  is_empty = λ n. n == 0;
  same_handle = λ m n. m == n;
}

abbrev linked : String → ℕ → String → Link
linked ref file name = record {
  ref = ref;
  name = "";
  type = "";
  size = pos 0;
  claim_key = "";
  view_key = "";
  file = file;
  file_name = name;
  file_type = "image/png";
  file_size = pos 10;
}

abbrev new_id : ℕ → String
new_id i = if i == 0 then "id-0" else "id-1"

-- The second link has no reference.
abbrev gallery : List Link
gallery = linked "a" 1 "front.png" ∷ linked "" 2 "back.png" ∷ []

accepted : validate_links formats new_id true ("image/png" ∷ []) gallery ≡ none
unfolding validate_from ambiguity contains
accepted = refl

same_file :
    validate_links formats new_id true [] (linked "a" 1 "x" ∷ linked "b" 1 "y" ∷ [])
    ≡ some (message "ambiguous file")
unfolding validate_from ambiguity contains
same_file = refl

same_name :
    validate_links formats new_id true [] (linked "a" 1 "x" ∷ linked "b" 2 "x" ∷ [])
    ≡ some (message "ambiguous filename")
unfolding validate_from ambiguity contains
same_name = refl

same_name_allowed :
    validate_links formats new_id false [] (linked "a" 1 "x" ∷ linked "b" 2 "x" ∷ []) ≡ none
unfolding validate_from ambiguity contains
same_name_allowed = refl

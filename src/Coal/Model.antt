-- ===== src/Coal/Model.antt =====
-- coal/model.go: the base of every document, its tags and their expiry.
-- A time is a number and 0 is Go's zero time; an ID is a number and 0 is the zero ID.
-- The score, a number that the server writes in a text search, is left out.
use Prim.Native.Char.{code}
use fire.Base.{
  ℕ_eq, String_eq, ltb, ◌==◌, if◌then◌else◌, panics, Result, ok, err, lookup, insert, remove, ℕ,
  String, Bool, false, not, ◌&&◌, ◌||◌, none, some, List, [], ◌∷◌,
}

-- A tag's `interface{}`; `null` is Go's nil.
pub data Value : Type 0 where
  null : Value
  boolean : Bool → Value
  number : ℕ → Value
  text : String → Value

pub record Tag : Type 0 where
  pub value : Value
  pub expiry : ℕ

pub record Base : Type 0 where
  pub doc_id : ℕ
  pub lock : ℕ
  pub token : ℕ
  pub tags : List (String × Tag)

-- `B` with the provided ID.
abbrev pub b : ℕ → Base
b id = record { doc_id = id; lock = 0; token = 0; tags = [] }

-- strings.Contains(name, ".")
abbrev pub has_dot : String → Bool
has_dot String.[] = false
has_dot (String.◌∷◌ c s) = code c == b'.' || has_dot s

unfoldable pub tag_live : ℕ → Tag → Bool
tag_live now t = t.expiry == 0 || ltb now t.expiry

-- GetTag; `err` stands for the panic.
unfoldable pub get_tag : ℕ → Base → String → Result Value
unfolding tag_live
get_tag now m name =
    if has_dot name
    then err (panics "coal: nested tags are not supported")
    else ok (elim (lookup name m.tags) [
      | none ↦ null
      | some t ↦ if tag_live now t then t.value else null
    ])

unfoldable pub put_tag : Base → String → Value → ℕ → Base
put_tag m name null expiry = record m { tags = remove name m.tags }
put_tag m name v expiry = record m {
  tags = insert name (record { value = v; expiry = expiry }) m.tags;
}

-- SetTag; `err` stands for the panic.
unfoldable pub set_tag : Base → String → Value → ℕ → Result Base
unfolding put_tag
set_tag m name value expiry =
    if has_dot name
    then err (panics "coal: nested tags are not supported")
    else ok (put_tag m name value expiry)

-- A tag that Clean deletes.
abbrev pub stale : ℕ → Tag → Bool
stale now t = not (t.expiry == 0) && ltb t.expiry now

abbrev pub clean_tags : ℕ → List (String × Tag) → List (String × Tag)
clean_tags now [] = []
clean_tags now ((name, t) ∷ m) =
    if stale now t then clean_tags now m else (name, t) ∷ clean_tags now m

-- Clean, on the base of a document.
abbrev pub clean : ℕ → Base → Base
clean now m = record m { tags = clean_tags now m.tags }

-- ===== src/Coal/Tags.antt =====
-- coal/model.go: SetTag and GetTag together.
use fire.Base.{
  ℕ_eq, String_eq, ◌==◌, if◌then◌else◌, ok, lookup, lookup-insert_self, lookup-insert_ne,
  lookup-remove_self, lookup-remove_ne, ℕ, ◌<◌, String, ◌≡◌, refl, ap, ◌⊎◌, false, none, some,
  arith,
}
use fire.Coal.Model.{
  Value, null, boolean, number, text, Base, has_dot, get_tag, set_tag, put_tag, tag_live,
}

-- A tag without an expiry or with a later one.
abbrev pub IsLive : ℕ → ℕ → Type 0
IsLive now expiry = (expiry ≡ 0) ⊎ (now < expiry)

put-lookup :
    (m : Base) (name : String) (v : Value) (now expiry : ℕ)
    → IsLive now expiry
    → elim (lookup name (put_tag m name v expiry).tags) [
      | none ↦ null
      | some t ↦ if tag_live now t then t.value else null
    ]
      ≡ v
unfolding put_tag tag_live
put-lookup m name null now expiry live = rw (lookup-remove_self name m.tags)
put-lookup m name (boolean x) now expiry live =
    rw (lookup-insert_self name (record { value = boolean x; expiry = expiry }) m.tags)
      (ground arith)
put-lookup m name (number x) now expiry live =
    rw (lookup-insert_self name (record { value = number x; expiry = expiry }) m.tags)
      (ground arith)
put-lookup m name (text x) now expiry live =
    rw (lookup-insert_self name (record { value = text x; expiry = expiry }) m.tags) (ground arith)

put-lookup_ne :
    (m : Base) (name other : String) (v : Value) (expiry : ℕ)
    → (name == other) ≡ false
    → lookup other (put_tag m name v expiry).tags ≡ lookup other m.tags
unfolding put_tag
put-lookup_ne m name other null expiry h = lookup-remove_ne name other m.tags h
put-lookup_ne m name other (boolean x) expiry h = lookup-insert_ne name other _ m.tags h
put-lookup_ne m name other (number x) expiry h = lookup-insert_ne name other _ m.tags h
put-lookup_ne m name other (text x) expiry h = lookup-insert_ne name other _ m.tags h

-- For a name without a dot SetTag succeeds; GetTag then answers the value under the name as long
-- as the tag has not expired, and under every other name what it answered before.
pub get-set_tag :
    (m : Base) (name : String) (v : Value) (now expiry : ℕ)
    → has_dot name ≡ false
    → IsLive now expiry
    → (m' : Base) × (set_tag m name v expiry ≡ ok m')
      × (get_tag now m' name ≡ ok v)
      × ((other : String) → (name == other) ≡ false → get_tag now m' other ≡ get_tag now m other)
unfolding get_tag set_tag
get-set_tag m name v now expiry h live = (
  put_tag m name v expiry,
  rw h refl,
  rw h (ap ok (put-lookup m name v now expiry live)),
  λ other ne. rw (put-lookup_ne m name other v expiry ne) refl,
)

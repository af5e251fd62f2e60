-- ===== src/Ash/Whitelisted.antt =====
-- ash/whitelist.go: what a request may see and change after the whitelists.
use fire.Base.{
  ℕ_eq, String_eq, ℤ_eq, ok, bind, String, ◌≡◌, refl, ap, ◌∙◌, Bool, true, false, ◌&&◌, ◌||◌, none,
  some, [], ◌∷◌, ◌++◌, arith,
}
use fire.Stick.Lists.Defs.{Slice, items, contains, intersect}
use fire.Stick.Lists.Laws.{contains-intersect}
use fire.Stick.Lists.Unique.{union_lem}
use fire.Ash.Context.{
  Operation, list, find, create, update, delete, collection_action, resource_action, Context,
}
use fire.Ash.Strategy.{enforce}
use fire.Ash.Enforcers.{grant_access, whitelist_readable_fields, whitelist_writable_fields}
use fire.Ash.Whitelist.{Fields, merge, readable_enforcers, writable_enforcers, whitelist_fields}

-- A field may be read unless the operation has a response of fields and the list is without it.
abbrev pub may_read : Slice String → Operation → String → Bool
may_read readable list x = contains (items readable) x
may_read readable find x = contains (items readable) x
may_read readable create x = contains (items readable) x
may_read readable update x = contains (items readable) x
may_read readable delete x = true
may_read readable collection_action x = true
may_read readable resource_action x = true

abbrev pub may_write : Fields → Operation → String → Bool
may_write fields create x =
    contains (items fields.writable) x || contains (items fields.creatable) x
may_write fields update x =
    contains (items fields.writable) x || contains (items fields.updatable) x
may_write fields _ x = true

contains-merge :
    (a b : Slice String) (x : String)
    → contains (items (merge a b)) x ≡ (contains (items a) x || contains (items b) x)
unfolding contains
contains-merge a none x = ground arith
contains-merge a (some []) x = ground arith
contains-merge a (some (y ∷ ys)) x = ground (arith, (union_lem (a ∷ some (y ∷ ys) ∷ [])).1 x)

-- The same with true on the right.
unlimited : (b : Bool) → b ≡ (b && true)
unlimited true = refl
unlimited false = refl

module _ {Filter Getter Rest : Type 0} where
  -- What is left of the readable and writable fields and of the readable properties, where only
  -- these change.
  pub record Limited (c d : Context Filter Getter Rest) (r w p : String → Bool) : Type 0 where
    pub same : d ≡ record c {
      readable_fields = d.readable_fields;
      writable_fields = d.writable_fields;
      readable_properties = d.readable_properties;
    }
    pub readable :
        (x : String)
        → contains (items d.readable_fields) x ≡ (contains (items c.readable_fields) x && r x)
    pub writable :
        (x : String)
        → contains (items d.writable_fields) x ≡ (contains (items c.writable_fields) x && w x)
    pub properties :
        (x : String)
        → contains (items d.readable_properties) x
          ≡ (contains (items c.readable_properties) x && p x)

  untouched : (c : Context Filter Getter Rest) → Limited c c (λ x. true) (λ x. true) (λ x. true)
  untouched c = record {
    same = refl;
    readable = λ x. unlimited (contains (items c.readable_fields) x);
    writable = λ x. unlimited (contains (items c.writable_fields) x);
    properties = λ x. unlimited (contains (items c.readable_properties) x);
  }

  read-Limited :
      (r : Slice String) (c : Context Filter Getter Rest)
      → Limited c
          (record c { readable_fields = intersect c.readable_fields r })
          (contains (items r))
          (λ x. true)
          (λ x. true)
  read-Limited r c = record {
    same = refl;
    readable = contains-intersect c.readable_fields r;
    writable = (untouched c).writable;
    properties = (untouched c).properties;
  }

  -- A merged list of writable fields.
  saved-Limited :
      (r w extra : Slice String) (c : Context Filter Getter Rest)
      → Limited c
          (record c {
            readable_fields = intersect c.readable_fields r;
            writable_fields = intersect c.writable_fields (merge w extra);
          })
          (contains (items r))
          (λ x. contains (items w) x || contains (items extra) x)
          (λ x. true)
  saved-Limited r w extra c = record {
    same = refl;
    readable = contains-intersect c.readable_fields r;
    writable = λ x.
        contains-intersect c.writable_fields (merge w extra) x
        ∙ ap (λ b. contains (items c.writable_fields) x && b) (contains-merge w extra x);
    properties = (untouched c).properties;
  }

  fields-Limited :
      (fields : Fields) (c : Context Filter Getter Rest) (op : Operation)
      → c.operation ≡ op
      → (d : Context Filter Getter Rest) × (enforce
            (readable_enforcers fields op ++ writable_enforcers fields op)
            c
          ≡ (d, ok tt))
        × Limited c d (may_read fields.readable op) (may_write fields op) (λ x. true)
  unfolding enforce whitelist_readable_fields whitelist_writable_fields
  fields-Limited fields c list e = (_, rw e refl, read-Limited fields.readable c)
  fields-Limited fields c find e = (_, rw e refl, read-Limited fields.readable c)
  fields-Limited fields c create e =
      (_, rw e refl, saved-Limited fields.readable fields.writable fields.creatable c)
  fields-Limited fields c update e =
      (_, rw e refl, saved-Limited fields.readable fields.writable fields.updatable c)
  fields-Limited fields c delete e = (c, refl, untouched c)
  fields-Limited fields c collection_action e = (c, refl, untouched c)
  fields-Limited fields c resource_action e = (c, refl, untouched c)

  -- The enforcers that WhitelistFields answers never fail: a field stays readable or writable
  -- exactly where it was and the whitelist allows it for the operation, and all else stays.
  pub whitelist_fields_lem :
      (fields : Fields) (c : Context Filter Getter Rest)
      → (d : Context Filter Getter Rest) × (bind ((whitelist_fields fields).handler c) enforce
          ≡ (d, ok tt))
        × Limited c d
            (may_read fields.readable c.operation)
            (may_write fields c.operation)
            (λ x. true)
  unfolding whitelist_fields enforce grant_access
  whitelist_fields_lem fields c = fields-Limited fields c c.operation refl

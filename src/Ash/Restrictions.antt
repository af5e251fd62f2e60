-- ===== src/Ash/Restrictions.antt =====
-- ash/enforcer.go: what enforcers do to what a request may see and change.
use fire.Base.{ℕ_eq, String_eq, String, ◌≡◌, true, Option, some, List, ◌++◌}
use fire.Stick.Lists.Defs.{Slice, items, contains}
use fire.Ash.Context.{Context, Callback}
use fire.Ash.Enforcers.{
  grant_access, deny_access, add_filter, whitelist_readable_fields, set_readable_fields_getter,
  whitelist_writable_fields, set_writable_fields_getter, whitelist_readable_properties,
  set_readable_properties_getter, add_relationship_filter, filters_of,
}

-- Every item of the second slice is one of the first.
abbrev pub Reduced : Slice String → Slice String → Type 0
Reduced a b = (x : String) → contains (items b) x ≡ true → contains (items a) x ≡ true

-- The second list is the first one with more at its end.
abbrev pub Extended : {A : Type 0} → List A → List A → Type 0
Extended {A} xs ys = (more : List A) × (ys ≡ xs ++ more)

-- A getter that is set stays.
abbrev pub Kept : {A : Type 0} → Option A → Option A → Type 0
Kept {A} o p = (a : A) → o ≡ some a → p ≡ some a

module _ {Filter Getter Rest : Type 0} where
  -- From the first context to the second: filters are only added, fields and properties only taken
  -- away, getters only set where there was none, and the operation and the rest of the context
  -- stay.
  pub record Restricted (c d : Context Filter Getter Rest) : Type 0 where
    pub filters : Extended c.filters d.filters
    pub relationships :
        (rel : String)
        → Extended (filters_of rel c.relationship_filters) (filters_of rel d.relationship_filters)
    pub readable : Reduced c.readable_fields d.readable_fields
    pub writable : Reduced c.writable_fields d.writable_fields
    pub properties : Reduced c.readable_properties d.readable_properties
    pub readable_getter : Kept c.get_readable_fields d.get_readable_fields
    pub writable_getter : Kept c.get_writable_fields d.get_writable_fields
    pub properties_getter : Kept c.get_readable_properties d.get_readable_properties
    pub same_operation : d.operation ≡ c.operation
    pub same_rest : d.rest ≡ c.rest

  -- The enforcers of the package.
  pub data Builtin : Callback (Context Filter Getter Rest) → Type 0 where
    grants : Builtin grant_access
    denies : Builtin deny_access
    filters : (filter : Filter) → Builtin (add_filter filter)
    limits_readable : (fields : Slice String) → Builtin (whitelist_readable_fields fields)
    gets_readable : (fn : Getter) → Builtin (set_readable_fields_getter fn)
    limits_writable : (fields : Slice String) → Builtin (whitelist_writable_fields fields)
    gets_writable : (fn : Getter) → Builtin (set_writable_fields_getter fn)
    limits_properties : (fields : Slice String) → Builtin (whitelist_readable_properties fields)
    gets_properties : (fn : Getter) → Builtin (set_readable_properties_getter fn)
    filters_relationship :
        (rel : String) (filter : Filter) → Builtin (add_relationship_filter rel filter)

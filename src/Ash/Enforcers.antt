-- ===== src/Ash/Enforcers.antt =====
-- ash/enforcer.go: the enforcers.
use fire.Base.{
  ℕ_eq, String_eq, if◌then◌else◌, is_some, access_denied, message, ok, err, lookup, ℕ, String, none,
  some, List, [], ◌∷◌, ◌++◌,
}
use fire.Base.{insert}
use Prim.Native.Nat.{bit_or}
use fire.Stick.Lists.Defs.{Slice, intersect}
use fire.Ash.Context.{
  create, update, delete, collection_action, resource_action, flag, Context, Callback, any, only,
  except,
}

-- The operations that a matcher names.
abbrev not_selecting : ℕ
not_selecting = bit_or (flag create) (flag collection_action)

abbrev not_reading : ℕ
not_reading = bit_or (bit_or (flag delete) (flag resource_action)) (flag collection_action)

abbrev saving : ℕ
saving = bit_or (flag create) (flag update)

-- The filters of a relationship; a missing key is an empty list.
abbrev pub filters_of : {Filter : Type 0} → String → List (String × List Filter) → List Filter
filters_of rel table = elim (lookup rel table) [ none ↦ [] | some filters ↦ filters ]

module _ {Filter Getter Rest : Type 0} where
  unfoldable pub grant_access : Callback (Context Filter Getter Rest)
  grant_access = record { matcher = any; handler = λ ctx. (ctx, ok tt) }

  unfoldable pub deny_access : Callback (Context Filter Getter Rest)
  deny_access = record { matcher = any; handler = λ ctx. (ctx, err access_denied) }

  unfoldable pub add_filter : Filter → Callback (Context Filter Getter Rest)
  add_filter filter = record {
    matcher = except not_selecting;
    handler = λ ctx. (record ctx { filters = ctx.filters ++ filter ∷ [] }, ok tt);
  }

  unfoldable pub whitelist_readable_fields : Slice String → Callback (Context Filter Getter Rest)
  whitelist_readable_fields fields = record {
    matcher = except not_reading;
    handler = λ ctx. (record ctx { readable_fields = intersect ctx.readable_fields fields }, ok tt);
  }

  unfoldable pub set_readable_fields_getter : Getter → Callback (Context Filter Getter Rest)
  set_readable_fields_getter fn = record {
    matcher = except not_reading;
    handler = λ ctx.
        if is_some ctx.get_readable_fields
        then (ctx, err (message "existing readable fields getter"))
        else (record ctx { get_readable_fields = some fn }, ok tt);
  }

  unfoldable pub whitelist_writable_fields : Slice String → Callback (Context Filter Getter Rest)
  whitelist_writable_fields fields = record {
    matcher = only saving;
    handler = λ ctx. (record ctx { writable_fields = intersect ctx.writable_fields fields }, ok tt);
  }

  unfoldable pub set_writable_fields_getter : Getter → Callback (Context Filter Getter Rest)
  set_writable_fields_getter fn = record {
    matcher = only saving;
    handler = λ ctx.
        if is_some ctx.get_writable_fields
        then (ctx, err (message "existing writable fields getter"))
        else (record ctx { get_writable_fields = some fn }, ok tt);
  }

  unfoldable pub whitelist_readable_properties :
      Slice String → Callback (Context Filter Getter Rest)
  whitelist_readable_properties fields = record {
    matcher = except not_reading;
    handler = λ ctx.
        (record ctx { readable_properties = intersect ctx.readable_properties fields }, ok tt);
  }

  unfoldable pub set_readable_properties_getter : Getter → Callback (Context Filter Getter Rest)
  set_readable_properties_getter fn = record {
    matcher = except not_reading;
    handler = λ ctx.
        if is_some ctx.get_readable_properties
        then (ctx, err (message "existing readable properties getter"))
        else (record ctx { get_readable_properties = some fn }, ok tt);
  }

  unfoldable pub add_relationship_filter : String → Filter → Callback (Context Filter Getter Rest)
  add_relationship_filter rel filter = record {
    matcher = except not_selecting;
    handler = λ ctx. (
      record ctx {
        relationship_filters =
            insert rel (filters_of rel ctx.relationship_filters ++ filter ∷ [])
              ctx.relationship_filters;
      },
      ok tt,
    );
  }

-- ===== src/Ash/Whitelist.antt =====
-- ash/whitelist.go and ash/basic.go: the authorizers that the package brings along. The check for
-- an authenticated user and for a token's scope is a parameter.
use fire.Base.{
  ℕ_eq, String_eq, if◌then◌else◌, ℤ_eq, is_some, ok, String, Bool, true, false, Option, none, some,
  List, [], ◌∷◌, ◌++◌,
}
use Prim.Native.Nat.{bit_or}
use fire.Stick.Lists.Defs.{Slice, items, union}
use fire.Ash.Context.{
  Operation, create, update, delete, collection_action, resource_action, flag, Context, Callback,
  any, except,
}
use fire.Ash.Strategy.{Authorizer}
use fire.Ash.Enforcers.{
  grant_access, add_filter, whitelist_readable_fields, whitelist_writable_fields,
  whitelist_readable_properties,
}

pub record Fields : Type 0 where
  pub readable : Slice String
  pub writable : Slice String
  pub creatable : Slice String
  pub updatable : Slice String

-- The operations with a response of fields and properties.
abbrev pub responds : Operation → Bool
responds delete = false
responds resource_action = false
responds collection_action = false
responds _ = true

-- A list joined with another one that is not empty.
abbrev pub merge : Slice String → Slice String → Slice String
merge writable extra = elim (items extra) [ [] ↦ writable | x ∷ xs ↦ union (writable ∷ extra ∷ []) ]

-- The fields that an operation may write, where it writes any.
abbrev pub writable_for : Fields → Operation → Option (Slice String)
writable_for fields create = some (merge fields.writable fields.creatable)
writable_for fields update = some (merge fields.writable fields.updatable)
writable_for fields _ = none

module _ {Filter Getter Rest : Type 0} where
  abbrev pub readable_enforcers : Fields → Operation → List (Callback (Context Filter Getter Rest))
  readable_enforcers fields op =
      if responds op then whitelist_readable_fields fields.readable ∷ [] else []

  abbrev pub writable_enforcers : Fields → Operation → List (Callback (Context Filter Getter Rest))
  writable_enforcers fields op = elim (writable_for fields op) [
    | none ↦ []
    | some writable ↦ whitelist_writable_fields writable ∷ []
  ]

  -- WhitelistFields
  unfoldable pub whitelist_fields : Fields → Authorizer (Context Filter Getter Rest)
  whitelist_fields fields = record {
    matcher = any;
    handler = λ ctx. (
      ctx,
      ok (
          grant_access
          ∷ (readable_enforcers fields ctx.operation ++ writable_enforcers fields ctx.operation)),
    );
  }

  -- WhitelistProperties
  unfoldable pub whitelist_properties : Slice String → Authorizer (Context Filter Getter Rest)
  whitelist_properties readable = record {
    matcher = any;
    handler = λ ctx. (
      ctx,
      ok (
          grant_access
          ∷ (if responds ctx.operation then whitelist_readable_properties readable ∷ [] else [])),
    );
  }

  -- Filter
  unfoldable pub filter : Filter → Authorizer (Context Filter Getter Rest)
  filter doc = record {
    matcher = except (bit_or (flag create) (flag collection_action));
    handler = λ ctx. (ctx, ok (add_filter doc ∷ []));
  }

  -- Who is authenticated, which another package puts into a context.
  module _ {Info : Type 0} (info : Context Filter Getter Rest → Option Info) where
    -- Public
    unfoldable pub public : Authorizer (Context Filter Getter Rest)
    public = record {
      matcher = any;
      handler = λ ctx. (ctx, ok (if is_some (info ctx) then [] else grant_access ∷ []));
    }

    -- The access token, and whether its scope includes another one.
    module _ {Token Scope : Type 0} (access_token : Info → Option Token)
        (includes : Token → Scope → Bool) where
      abbrev pub scoped : Scope → Option Token → List (Callback (Context Filter Getter Rest))
      scoped scope none = []
      scoped scope (some held) = if includes held scope then grant_access ∷ [] else []

      abbrev pub token_of : Scope → Option Info → List (Callback (Context Filter Getter Rest))
      token_of scope none = []
      token_of scope (some user) = scoped scope (access_token user)

      -- Token
      unfoldable pub token : Scope → Authorizer (Context Filter Getter Rest)
      token scope = record { matcher = any; handler = λ ctx. (ctx, ok (token_of scope (info ctx))) }

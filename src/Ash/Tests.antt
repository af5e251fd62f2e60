-- ===== src/Ash/Tests.antt =====
-- Runs of ash/strategy.go, ash/authorizer.go and ash/enforcer.go, with the theorems at these runs.
use fire.Base.{
  ℕ_eq, String_eq, leb, if◌then◌else◌, ℤ_eq, access_denied, ok, err, bind, ℕ, ◌≡◌, refl, ◌↔◌, ◌⊎◌,
  Bool, true, false, Option, none, some, List, [], ◌∷◌, ◌++◌,
}
use fire.Stick.Lists.Defs.{intersect, union}
use fire.Ash.Context.{Operation, list, create, Context, Callback, any}
use fire.Ash.Strategy.{Authorizer, Strategy, enforce, call, and, or, callback, selected}
use fire.Ash.Grants.{Grants, abstained, ends, concat, callback_iff, call_denied}
use fire.Ash.Combinations.{BothAnswer, Answers, Abstains, and_iff, or_iff}
use fire.Ash.Enforcers.{
  grant_access, add_filter, whitelist_readable_fields, whitelist_writable_fields,
}
use fire.Ash.Whitelist.{
  Fields, whitelist_fields, readable_enforcers, writable_enforcers, public, token,
}
use fire.Ash.Whitelisted.{Limited, may_read, may_write, whitelist_fields_lem}
use fire.Ash.Restrictions.{filters}

-- Filters and getters are numbers; the rest is whether somebody is authenticated.
abbrev Ctx : Type 0
Ctx = Context ℕ ℕ Bool

abbrev request : Operation → Bool → Ctx
request operation known = record {
  operation = operation;
  filters = 1 ∷ [];
  readable_fields = some ("Title" ∷ "Secret" ∷ []);
  get_readable_fields = none;
  writable_fields = some ("Title" ∷ []);
  get_writable_fields = none;
  readable_properties = none;
  get_readable_properties = none;
  relationship_filters = [];
  collection_name = "";
  resource_name = "";
  rest = known;
}

-- What remains of a request by somebody unknown.
abbrev limited : Ctx
limited = record (request list false) {
  filters = 1 ∷ 7 ∷ [];
  readable_fields = some ("Title" ∷ []);
}

abbrev limits : List (Callback Ctx)
limits = add_filter 7 ∷ whitelist_readable_fields (some ("Title" ∷ [])) ∷ []

-- Nobody is authenticated: the request is limited.
abbrev unknown : Authorizer Ctx
unknown = record { matcher = any; handler = λ ctx. (ctx, ok (if ctx.rest then [] else limits)) }

abbrev known : Authorizer Ctx
known = record { matcher = λ ctx. ctx.rest; handler = λ ctx. (ctx, ok (grant_access ∷ [])) }

abbrev strategy : Strategy Ctx
strategy = record {
  lists = [];
  finds = [];
  creates = [];
  updates = [];
  deletes = [];
  collection_action_of = [];
  resource_action_of = [];
  collection_actions = [];
  resource_actions = [];
  reads = unknown ∷ [];
  writes = known ∷ [];
  actions = [];
  alls = [];
}

callback_iff_example :
    (callback strategy (request list false) ≡ (limited, ok tt))
    ↔ Grants (concat (selected strategy (request list false))) (request list false) limited
callback_iff_example = callback_iff strategy (request list false) limited

listed : callback strategy (request list false) ≡ (limited, ok tt)
unfolding callback add_filter whitelist_readable_fields intersect
listed = refl

refused : callback strategy (request create false) ≡ (request create false, err access_denied)
unfolding callback
refused = refl

call_denied_example :
    call ((unknown ∷ []) ∷ [] ∷ []) (request list true) ≡ (request list true, err access_denied)
call_denied_example =
    call_denied ((unknown ∷ []) ∷ [] ∷ []) (request list true) (request list true)
      (abstained refl refl (ends refl))

and_iff_example :
    ((and known known).handler (request list true)
      ≡ (request list true, ok (grant_access ∷ grant_access ∷ [])))
    ↔ BothAnswer known known
        (request list true)
        (request list true)
        grant_access
        (grant_access ∷ [])
and_iff_example =
    and_iff known known (request list true) (request list true) grant_access (grant_access ∷ [])

or_iff_example :
    ((or known unknown).handler (request list false) ≡ (request list false, ok limits)) ↔ (
      Answers known (request list false) (request list false) limits
      ⊎ ((c' : Ctx) × Abstains known (request list false) c'
          × Answers unknown c' (request list false) limits))
or_iff_example =
    or_iff known unknown (request list false) (request list false) (add_filter 7)
      (whitelist_readable_fields (some ("Title" ∷ [])) ∷ [])

abbrev published : Fields
published = record {
  readable = some ("Title" ∷ []);
  writable = none;
  creatable = some ("Title" ∷ []);
  updatable = none;
}

whitelist_fields_example :
    (d : Ctx) × (bind ((whitelist_fields published).handler (request create true)) enforce
      ≡ (d, ok tt))
    × Limited
        (request create true)
        d
        (may_read published.readable create)
        (may_write published create)
        (λ x. true)
whitelist_fields_example = whitelist_fields_lem published (request create true)

created :
    enforce
      ((readable_enforcers published create) ++ (writable_enforcers published create))
      (request create true)
    ≡ (
      record (request create true) {
        readable_fields = some ("Title" ∷ []);
        writable_fields = some ("Title" ∷ []);
      },
      ok tt,
    )
unfolding enforce whitelist_readable_fields whitelist_writable_fields intersect union
created = refl

abbrev authenticated : Ctx → Option (Unit {0})
authenticated ctx = if ctx.rest then some tt else none

public_refuses : (public authenticated).handler (request list true) ≡ (request list true, ok [])
unfolding public
public_refuses = refl

-- The token's scope has one more item.
token_grants :
    (token authenticated (λ user. some 2) (λ held scope. leb scope held) 1).handler
      (request list true)
    ≡ (request list true, ok (grant_access ∷ []))
unfolding token
token_grants = refl

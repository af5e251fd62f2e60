-- ===== src/Controller/Model.antt =====
-- controller.go and context.go: what a controller is made of, and the context of a request. The
-- state is the database with the context. A callback that may be deferred is known by its number
-- in the controller's table, and a selector or filter document is the predicate that it denotes.
use fire.Base.{
  ℕ_eq, String_eq, ℤ_eq, Error, Result, M, ℕ, String, Bool, true, ◌&&◌, Option, some, List, [], ◌∷◌,
}
use fire.Coal.Manager.Defs.{Doc}
use fire.Stick.Lists.Defs.{Slice}
use fire.Ash.Context.{Context}

-- The stages.
abbrev pub authorizer : ℕ
authorizer = 1

abbrev pub verifier : ℕ
verifier = 2

abbrev pub modifier : ℕ
modifier = 4

abbrev pub validator : ℕ
validator = 8

abbrev pub decorator : ℕ
decorator = 16

abbrev pub notifier : ℕ
notifier = 32

abbrev pub all_stages : List ℕ
all_stages = authorizer ∷ verifier ∷ modifier ∷ validator ∷ decorator ∷ notifier ∷ []

-- The document of a request: whether there is one, and its type and ID.
pub record Input : Type 0 where
  pub is_given : Bool
  pub type : String
  pub id : String

-- The parts of a context that the authorization does not touch.
pub record Request (D : Type 0) : Type 0 where
  pub stage : ℕ
  pub defers : List (ℕ × List ℕ)
  pub selector : List (D → Bool)
  pub model : Option D
  pub original : Option D
  pub input : Input
  pub resource_type : String
  pub resource_id : String

abbrev pub Ctx : Type 0 → Type 0
Ctx D = Context (D → Bool) (D → Slice String) (Request D)

-- A callback; its stage is 0 where it supports all of them.
pub record Callback (Db D : Type 0) : Type 0 where
  pub stage : ℕ
  pub matcher : Ctx D → Bool
  pub handler : M (Db × Ctx D) (Unit {0})

-- A text field of the model, reached through its flag.
pub record Field (D : Type 0) : Type 0 where
  pub get : D → String
  pub set : String → D → D

pub record SoftDelete (D : Type 0) : Type 0 where
  pub is_deleted : D → Bool
  pub mark : ℕ → D → D

-- `assign` is assignData, which fills the attributes and relationships of the input in; `make` is a
-- new model.
pub record Controller (Db D : Type 0) : Type 0 where
  pub doc : Doc D
  pub make : D
  pub authorizers : List (Callback Db D)
  pub verifiers : List (Callback Db D)
  pub modifiers : List (Callback Db D)
  pub validators : List (Callback Db D)
  pub decorators : List (Callback Db D)
  pub notifiers : List (Callback Db D)
  pub deferred : ℕ → Callback Db D
  pub soft_delete : Option (SoftDelete D)
  pub consistent_update : Option (Field D)
  pub idempotent_create : Option (Field D)
  pub assign : Ctx D → D → Result D
  pub from_hex : String → ℕ
  pub is_duplicate : Error → Bool

module _ {D : Type 0} where
  abbrev pub with_stage : ℕ → Ctx D → Ctx D
  with_stage stage ctx = record ctx { rest = record rest { stage = stage } }
    where
      rest : Request D
      rest = ctx.rest

  abbrev pub with_model : D → Ctx D → Ctx D
  with_model m ctx = record ctx { rest = record rest { model = some m } }
    where
      rest : Request D
      rest = ctx.rest

  abbrev pub with_original : D → Ctx D → Ctx D
  with_original m ctx = record ctx { rest = record rest { original = some m } }
    where
      rest : Request D
      rest = ctx.rest

  abbrev pub with_defers : List (ℕ × List ℕ) → Ctx D → Ctx D
  with_defers defers ctx = record ctx { rest = record rest { defers = defers } }
    where
      rest : Request D
      rest = ctx.rest

  abbrev pub select_by : (D → Bool) → Ctx D → Ctx D
  select_by p ctx = record ctx { rest = record rest { selector = p ∷ rest.selector } }
    where
      rest : Request D
      rest = ctx.rest

  abbrev pub passes : List (D → Bool) → D → Bool
  passes [] d = true
  passes (p ∷ ps) d = p d && passes ps d

  -- Query
  abbrev pub query : Ctx D → D → Bool
  query ctx d = passes ctx.rest.selector d && passes ctx.filters d

-- ===== src/Ash/Context.antt =====
-- context.go and handler.go of the root package: the operations, the parts of the context that the
-- authorization reads and changes, and the matchers. A filter document is of any type, and so are
-- the getters and the rest of the context.
use fire.Base.{ℕ_eq, String_eq, ◌==◌, M, ℕ, String, Bool, true, not, Option, List}
use Prim.Native.Nat.{bit_and}
use fire.Stick.Lists.Defs.{Slice}

pub data Operation : Type 0 where
  list find create update delete collection_action resource_action : Operation

-- The constant of an operation.
abbrev pub flag : Operation → ℕ
flag list = 1
flag find = 2
flag create = 4
flag update = 8
flag delete = 16
flag collection_action = 32
flag resource_action = 64

-- A getter of fields is a function that the controller calls; here it is only kept.
pub record Context (Filter Getter Rest : Type 0) : Type 0 where
  pub operation : Operation
  pub filters : List Filter
  pub readable_fields : Slice String
  pub get_readable_fields : Option Getter
  pub writable_fields : Slice String
  pub get_writable_fields : Option Getter
  pub readable_properties : Slice String
  pub get_readable_properties : Option Getter
  pub relationship_filters : List (String × List Filter)
  -- the action's name in the JSON-API request
  pub collection_name : String
  pub resource_name : String
  pub rest : Rest

-- A callback over a type of contexts, without its name and its stage: a handler changes the
-- context that it is given, and may fail.
pub record Callback (Ctx : Type 0) : Type 0 where
  pub matcher : Ctx → Bool
  pub handler : M Ctx (Unit {0})

module _ {Filter Getter Rest : Type 0} where
  abbrev pub any : Context Filter Getter Rest → Bool
  any ctx = true

  abbrev pub only : ℕ → Context Filter Getter Rest → Bool
  only op ctx = not (bit_and (flag ctx.operation) op == 0)

  abbrev pub except : ℕ → Context Filter Getter Rest → Bool
  except op ctx = bit_and (flag ctx.operation) op == 0

-- ===== src/Controller/Tests.antt =====
-- Runs of a controller on a collection in memory, with the theorems at these runs.
use Prim.Native.Nat.{bit_and}
use fire.Base.{◌==◌, not, ◌&&◌}
use fire.Base.{
  ℕ_eq, String_eq, ℤ_eq, Error, access_denied, ok, err, ℕ, String, ◌≡◌, refl, ◌≢◌, true, false,
  none, some, List, [], ◌∷◌, ◌++◌, arith,
}
use text.Mathlib.TextEquality.{eq_iff}
use fire.Coal.Model.{Base, b}
use fire.Coal.Memory.{memory, memory-IsDriver}
use fire.Coal.Driver.{Driver}
use fire.Coal.Manager.Defs.{Context as Tx, Doc, find_first, validate_all}
use fire.Coal.Manager.Mutations.{replace_first, insert_all}
use fire.Coal.Transactions.{done, transact}
use fire.Ash.Context.{Operation, create, update}
use fire.Controller.Model.{Ctx, Callback, Field, Controller, authorizer}
use fire.Controller.Callbacks.{deferred_at, defer, run_callbacks, run_callback_list}
use fire.Controller.Resources.{
  on_db, get_ctx, change_ctx, unique, replace_by, replace_model, handle, create_resource,
  update_resource, load_model, check_input, assign_data, validate_model, insert_model,
}
use fire.Controller.Denials.{Denies, updates, creates, operate, handle_denied}
use fire.Controller.Updates.{IsField, lost_update}
use fire.Controller.Defers.{once_if, is_stage, defer_lem}

-- A document with an update token.
abbrev Post : Type 0
Post = Base × String

abbrev drv : Driver Post
drv = memory Post

abbrev doc : Doc Post
doc = record { base = λ d. d.0; with_base = λ base d. (base, d.1); validate = λ d. none }

abbrev token : Field Post
token = record { get = λ d. d.1; set = λ t d. (d.0, t) }

token-IsField : IsField doc token
token-IsField = record { get_set = λ t d. refl; base_apart = λ d now. refl }

abbrev deny : Callback (List Post) Post
deny = record { stage = authorizer; matcher = λ ctx. true; handler = λ s. (s, err access_denied) }

-- A callback for the last two kinds of stages that a write runs.
abbrev later : Callback (List Post) Post
later = record { stage = 40; matcher = λ ctx. true; handler = λ s. (s, ok tt) }

abbrev open_controller : Controller (List Post) Post
open_controller = record {
  doc = doc;
  make = (b 0, "");
  authorizers = [];
  verifiers = [];
  modifiers = [];
  validators = [];
  decorators = [];
  notifiers = [];
  deferred = λ n. later;
  soft_delete = none;
  consistent_update = some token;
  idempotent_create = none;
  assign = λ ctx d. ok d;
  from_hex = λ s. 5;
  is_duplicate = λ e. false;
}

abbrev closed_controller : Controller (List Post) Post
closed_controller = record open_controller { authorizers = deny ∷ [] }

-- The input has the token.
abbrev sure_controller : Controller (List Post) Post
sure_controller = record open_controller { assign = λ ctx d. ok (d.0, "t0") }

abbrev context : Operation → String → Ctx Post
context op id = record {
  operation = op;
  filters = [];
  readable_fields = none;
  get_readable_fields = none;
  writable_fields = none;
  get_writable_fields = none;
  readable_properties = none;
  get_readable_properties = none;
  relationship_filters = [];
  collection_name = "";
  resource_name = "";
  rest = record {
    stage = 1;
    defers = [];
    selector = [];
    model = none;
    original = none;
    input = record { is_given = true; type = "posts"; id = id };
    resource_type = "posts";
    resource_id = id;
  };
}

abbrev posts : List Post
posts = (b 5, "t0") ∷ []

abbrev alone : Tx
alone = record { transaction = none }

-- A new post, with its first update token.
creates_one :
    (handle drv 1 alone none done none
      (operate drv open_controller create creates 6 "t1" 9 10)
      (posts, context create "")).0.0
    ≡ (b 5, "t0") ∷ (b 6, "t1") ∷ []
unfolding handle transact create_resource on_db get_ctx change_ctx unique check_input assign_data
    validate_model insert_model run_callbacks run_callback_list insert_all validate_all
creates_one = refl

-- The base after the lock that a write takes when it loads the model.
abbrev locked : Base
locked = record { doc_id = 5; lock = 1; token = 0; tags = [] }

-- An update through the whole operation, with the token that it was read with.
updates_one :
    (handle drv 1 alone none done none
      (operate drv sure_controller update updates 6 "t1" 9 10)
      (posts, context update "05")).0.0
    ≡ (locked, "t1") ∷ []
unfolding handle transact update_resource load_model find_first on_db get_ctx change_ctx unique
    check_input assign_data validate_model replace_by replace_first run_callbacks run_callback_list
updates_one = refl

denies : Denies drv closed_controller update
unfolding run_callbacks run_callback_list
denies = record { fails = λ s e. (access_denied, refl) }

handle_denied_example :
    ((handle drv 1 alone none done none
        (operate drv closed_controller update updates 6 "t1" 9 10)
        (posts, context update "05")).0.0
      ≡ posts)
    × ((e : Error) × ((handle drv 1 alone none done none
            (operate drv closed_controller update updates 6 "t1" 9 10)
            (posts, context update "05")).1
          ≡ err e))
handle_denied_example =
    handle_denied drv closed_controller update updates 6 "t1" 9 10 1 alone none done none posts
      (context update "05") denies refl refl

abbrev new_token : String
new_token = "t1"

apart : new_token ≢ "t0"
apart e = let clash : false ≡ true = (eq_iff new_token "t0").1 e in cc

abbrev mine : Post
mine = (b 5, "t0")

first_wins : (replace_model drv open_controller alone "t0" "t1" mine 9 posts).1 ≡ ok (b 5, "t1")
unfolding replace_by unique replace_first
first_wins = refl

lost_update_example :
    (replace_model drv open_controller alone "t0" "t2" mine 9
      (replace_model drv open_controller alone "t0" "t1" mine 9 posts).0).1
    ≢ ok (b 5, "t2")
lost_update_example =
    lost_update drv (memory-IsDriver Post) open_controller token token-IsField alone alone "t0" "t1"
      "t2" mine mine 9 9 posts (b 5, "t1") (b 5, "t2") refl refl apart (omega arith) first_wins

defer_lem_example :
    (ctx : Ctx Post) × (defer open_controller 3 (context create "") ≡ ok ctx)
    × ((stage : ℕ)
        → deferred_at ctx stage
          ≡ deferred_at (context create "") stage
            ++ once_if (is_stage stage && not (bit_and 40 stage == 0)) 3)
defer_lem_example = defer_lem open_controller 3 (context create "") (omega arith)

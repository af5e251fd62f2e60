-- ===== src/Controller/Resources.antt =====
-- controller.go: the operations on a resource, in a transaction. The response and its links, which
-- are made from the context at the end, the time limits and the tracing are left out.
use fire.Base.{
  ℕ_eq, String_eq, ◌==◌, if◌then◌else◌, ℤ_eq, is_some, Error, panics, message, Result, ok, err,
  check, M, ◌>>=◌, ◌>>◌, pure, lift, fail_if, ℕ, String, Bool, true, false, not, ◌&&◌, Option, none,
  some, [], ◌∷◌,
}
use fire.Coal.Driver.{Driver}
use fire.Coal.Manager.Defs.{Context as Tx, find_first}
use fire.Coal.Manager.Defs
use fire.Coal.Manager.Mutations.{insert_all, insert_if_missing, replace, replace_first, delete}
use fire.Coal.Manager.Mutations
use fire.Coal.Transactions.{inside, Commit, transact}
use fire.Ash.Context.{
  Context, Operation, list, find, create, update, collection_action, resource_action,
}
use fire.Ash.Context
use fire.Controller.Model.{
  authorizer, verifier, modifier, validator, decorator, notifier, Ctx, Field, SoftDelete,
  Controller, with_model, with_original, select_by, query,
}
use fire.Controller.Callbacks.{run_callbacks}

-- Whether the operation writes, and whether it only reads.
abbrev pub is_write : Operation → Bool
is_write create = true
is_write update = true
is_write Context.delete = true
is_write _ = false

abbrev pub is_read : Operation → Bool
is_read list = true
is_read find = true
is_read _ = false

module _ {Db D : Type 0} where
  unfoldable pub get_ctx : M (Db × Ctx D) (Ctx D)
  get_ctx s = (s, ok s.1)

  unfoldable pub change_ctx : (Ctx D → Ctx D) → M (Db × Ctx D) (Unit {0})
  change_ctx f (db, ctx) = ((db, f ctx), ok tt)

module _ {D : Type 0} where
  -- `if c.SoftDelete { ctx.Selector[softDeleteField] = nil }`
  abbrev pub skip_deleted : Option (SoftDelete D) → Ctx D → Ctx D
  skip_deleted none ctx = ctx
  skip_deleted (some f) ctx = select_by (λ d. not (f.is_deleted d)) ctx

  abbrev pub keep_original : D → Ctx D → Ctx D
  keep_original m ctx = elim ctx.operation [
    | update ↦ with_original m (with_model m ctx)
    | _ ↦ with_model m ctx
  ]

module _ {D : Type 0} (drv : Driver D) (c : Controller drv.Db D) where
  open drv use {Db}

  -- A call of the database in the state with the context.
  unfoldable pub on_db : {A : Type 0} → M Db A → M (Db × Ctx D) A
  on_db m (db, ctx) = pair ctx (m db)
    where
      pair : {A : Type 0} → Ctx D → Db × Result A → (Db × Ctx D) × Result A
      pair ctx (db, r) = ((db, ctx), r)

  -- A duplicate key is reported by an error of its own.
  unfoldable pub unique : {A : Type 0} → M Db A → M Db A
  unique m s = renamed (m s)
    where
      renamed : {A : Type 0} → Db × Result A → Db × Result A
      renamed (db, ok a) = (db, ok a)
      renamed (db, err e) =
          (db, err (if c.is_duplicate e then message "document is not unique" else e))

  abbrev pub the_model : Ctx D → Result D
  the_model ctx = elim ctx.rest.model [
    | none ↦ err (panics "nil pointer dereference")
    | some m ↦ ok m
  ]

  -- Validate, and the validators behind it.
  unfoldable pub validate_model : M (Db × Ctx D) (Unit {0})
  validate_model = do
    ctx ← get_ctx
    m ← lift (the_model ctx)
    lift (check (c.doc.validate m))
    run_callbacks c validator c.validators

  unfoldable pub assign_data : M (Db × Ctx D) (Unit {0})
  assign_data = do
    ctx ← get_ctx
    m ← lift (the_model ctx)
    assigned ← lift (c.assign ctx m)
    change_ctx (with_model assigned)

  -- The checks of the input, with the ID that it is to have.
  unfoldable pub check_input : String → String → Ctx D → Result (Unit {0})
  check_input id text ctx =
      if not ctx.rest.input.is_given
      then err (message "missing document")
      else if not (ctx.rest.input.type == ctx.rest.resource_type)
      then err (message "resource type mismatch")
      else if not (ctx.rest.input.id == id)
      then err (message text)
      else ok tt

  -- loadModel
  unfoldable pub load_model : Tx → ℕ → M (Db × Ctx D) (Unit {0})
  load_model tx now = do
    start ← get_ctx
    change_ctx (λ ctx.
        skip_deleted c.soft_delete
          (select_by (Defs.has_id c.doc (c.from_hex start.rest.resource_id)) ctx))
    run_callbacks c authorizer c.authorizers
    ctx ← get_ctx
    found ← on_db (
        find_first drv c.doc (λ sort. ok sort) tx (ok (query ctx)) [] 0 (is_write ctx.operation) []
          now)
    m ← lift (elim found [ none ↦ err (message "resource not found") | some m ↦ ok m ])
    change_ctx (keep_original m)
    run_callbacks c verifier c.verifiers

  abbrev pub set_token : Option (Field D) → String → D → D
  set_token none token m = m
  set_token (some f) token m = f.set token m

  -- The insert of a new model.
  unfoldable pub insert_model : Tx → D → ℕ → ℕ → M Db (Unit {0})
  insert_model tx m now fresh = elim c.idempotent_create [
    | none ↦ unique (insert_all drv c.doc (m ∷ []) [] now (λ _. fresh))
    | some f ↦ (do
      fail_if (f.get m == "") (message "missing idempotent create token")
      inserted ← unique (
          insert_if_missing drv c.doc tx (ok (λ d. f.get d == f.get m)) (λ d. d) m false [] now
            fresh)
      fail_if (not inserted) (message "existing document with same idempotent create token"))
  ]

  -- createResource; `id` is the new ID and `token` the new update token.
  unfoldable pub create_resource : Tx → ℕ → String → ℕ → M (Db × Ctx D) (Unit {0})
  create_resource tx id token now = do
    start ← get_ctx
    lift (check_input "" "unnecessary resource ID" start)
    run_callbacks c authorizer c.authorizers
    change_ctx (with_model (c.doc.with_base (record (c.doc.base c.make) { doc_id = id }) c.make))
    run_callbacks c verifier c.verifiers
    assign_data
    run_callbacks c modifier c.modifiers
    validate_model
    ctx ← get_ctx
    m ← lift (the_model ctx)
    change_ctx (with_model (set_token c.consistent_update token m))
    on_db (insert_model tx (set_token c.consistent_update token m) now id)
    run_callbacks c decorator c.decorators
    run_callbacks c notifier c.notifiers

  -- The replacement of a model, where it was read with the given update token.
  unfoldable pub replace_by : Option (Field D) → Tx → String → String → D → ℕ → M Db D
  replace_by none tx stored token m now = do
    found ← unique (replace drv c.doc tx m false [] now)
    fail_if (not found) (message "resource not found")
    pure m
  replace_by (some f) tx stored token m now = do
    fail_if (not (f.get m == stored)) (message "invalid consistent update token")
    found ← unique (
        replace_first drv c.doc tx
          (ok (λ d. Defs.has_id c.doc (c.doc.base m).doc_id d && f.get d == f.get m))
          (f.set token m) false [] now)
    fail_if (not found) (message "existing document with different consistent update token")
    pure (f.set token m)

  abbrev pub replace_model : Tx → String → String → D → ℕ → M Db D
  replace_model = replace_by c.consistent_update

  abbrev pub token_of : Option (Field D) → D → String
  token_of none m = ""
  token_of (some f) m = f.get m

  -- updateResource
  unfoldable pub update_resource : Tx → String → ℕ → ℕ → M (Db × Ctx D) (Unit {0})
  update_resource tx token now then' = do
    start ← get_ctx
    lift (check_input start.rest.resource_id "resource ID mismatch" start)
    load_model tx now
    loaded ← get_ctx
    old ← lift (the_model loaded)
    change_ctx (with_model (set_token c.consistent_update "" old))
    assign_data
    run_callbacks c modifier c.modifiers
    validate_model
    ctx ← get_ctx
    m ← lift (the_model ctx)
    fail_if (not (token_of c.idempotent_create old == token_of c.idempotent_create m))
        (message "idempotent create token cannot be changed")
    stored ← on_db (replace_model tx (token_of c.consistent_update old) token m then')
    change_ctx (with_model stored)
    run_callbacks c decorator c.decorators
    run_callbacks c notifier c.notifiers

  unfoldable pub delete_model : Tx → ℕ → ℕ → M Db (Unit {0})
  delete_model tx id now = elim c.soft_delete [
    | none ↦ (do
      found ← delete drv c.doc false id
      fail_if (not found) (message "resource not found"))
    | some f ↦ (do
      found ← Mutations.update drv c.doc tx id (ok (f.mark now)) false [] now
      fail_if (not (is_some found)) (message "resource not found"))
  ]

  -- deleteResource
  unfoldable pub delete_resource : Tx → ℕ → ℕ → M (Db × Ctx D) (Unit {0})
  delete_resource tx now then' = do
    load_model tx now
    run_callbacks c modifier c.modifiers
    validate_model
    ctx ← get_ctx
    m ← lift (the_model ctx)
    on_db (delete_model tx (c.doc.base m).doc_id then')
    run_callbacks c notifier c.notifiers

  -- findResource
  unfoldable pub find_resource : Tx → ℕ → M (Db × Ctx D) (Unit {0})
  find_resource tx now = do
    load_model tx now
    run_callbacks c decorator c.decorators
    run_callbacks c notifier c.notifiers

-- An operation of handle: in a transaction of the controller's store, which a read aborts. The
-- transaction is about the database; what the operation did to the request's context stays.
module _ {D : Type 0} (drv : Driver D) where
  -- The operation as a function on the database, in a given context of the request.
  abbrev pub on_data : Ctx D → (Tx → M (drv.Db × Ctx D) (Unit {0})) → Tx → M drv.Db (Unit {0})
  on_data ctx run tx db = let (s, r) = run tx (db, ctx) in (s.0, r)

  -- The request's context behind the transaction: the operation's, where it was called.
  abbrev pub left_ctx :
      ℕ → Tx → Option Error → (Tx → M (drv.Db × Ctx D) (Unit {0})) → drv.Db → Ctx D → Ctx D
  left_ctx store tx start run db ctx = elim tx.transaction [
    | some other ↦ if other == store then (run tx (db, ctx)).0.1 else ctx
    | none ↦ elim start [ some e ↦ ctx | none ↦ (run (inside store) (db, ctx)).0.1 ]
  ]

  unfoldable pub handle :
      ℕ
      → Tx
      → Option Error
      → Commit
      → Option Error
      → (Tx → M (drv.Db × Ctx D) (Unit {0}))
      → M (drv.Db × Ctx D) (Unit {0})
  handle store tx start commit abort run (db, ctx) =
      let (db', r) =
        transact store (is_read ctx.operation) tx start commit abort (on_data ctx run) db in
      ((db', left_ctx store tx start run db ctx), r)

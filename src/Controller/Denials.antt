-- ===== src/Controller/Denials.antt =====
-- A request that the authorizers of a controller deny has no effect (controller.go).
use fire.Base.{
  ℕ_eq, String_eq, ℤ_eq, Error, Result, ok, err, M, ◌>>=◌, bind, lift, ℕ, String, ◌≡◌, refl, sym,
  ◌∙◌, inl, inr, Bool, Option, none, some,
}
use fire.Coal.Driver.{Driver}
use fire.Coal.Manager.Defs.{Context as Tx}
use fire.Coal.Transactions.{Commit, inside}
use fire.Coal.Retries.{AllOrNothing, transact_lem}
use fire.Ash.Context.{Operation}
use fire.Controller.Model.{authorizer, Ctx, SoftDelete, Controller, select_by}
use fire.Controller.Callbacks.{run_callbacks}
use fire.Controller.Resources.{
  get_ctx, change_ctx, check_input, skip_deleted, load_model, create_resource, update_resource,
  delete_resource, find_resource, is_read, handle, on_data,
}

module _ {Db D : Type 0} (op : Operation) where
  -- In the requests of an operation the code fails.
  pub record Fails {A : Type 0} (m : M (Db × Ctx D) A) : Type 0 where
    pub fails : (s : Db × Ctx D) → s.1.operation ≡ op → (e : Error) × ((m s).1 ≡ err e)

  -- A request of the operation stays one.
  record Stays {A : Type 0} (m : M (Db × Ctx D) A) : Type 0 where
    stays : (s : Db × Ctx D) → s.1.operation ≡ op → (m s).0.1.operation ≡ op

module _ {Db D : Type 0} where
  Fails-here :
      {A B : Type 0} (f : A → M (Db × Ctx D) B) (w : (Db × Ctx D) × Result A) (e : Error)
      → w.1 ≡ err e
      → (e : Error) × ((bind w f).1 ≡ err e)
  Fails-here f (s, ok a) e h = cc
  Fails-here f (s, err x) e h = (x, refl)

module _ {Db D : Type 0} {op : Operation} where
  Fails-first :
      {A B : Type 0} {m : M (Db × Ctx D) A} (f : A → M (Db × Ctx D) B)
      → Fails op m
      → Fails op (m >>= f)
  Fails-first {m = m} f h = record {
    fails = λ s e. let (x, k) = h.fails s e in Fails-here f (m s) x k;
  }

  Fails-there :
      {A B : Type 0} (f : A → M (Db × Ctx D) B) (w : (Db × Ctx D) × Result A)
      → w.0.1.operation ≡ op
      → ((a : A) → Fails op (f a))
      → (e : Error) × ((bind w f).1 ≡ err e)
  Fails-there f (s, ok a) g h = (h a).fails s g
  Fails-there f (s, err x) g h = (x, refl)

  Fails-then :
      {A B : Type 0} {m : M (Db × Ctx D) A} {f : A → M (Db × Ctx D) B}
      → Stays op m
      → ((a : A) → Fails op (f a))
      → Fails op (m >>= f)
  Fails-then {m = m} {f = f} g h = record { fails = λ s e. Fails-there f (m s) (g.stays s e) h }

  lift-Stays : {A : Type 0} (r : Result A) → Stays op (lift {S = Db × Ctx D} r)
  lift-Stays r = record { stays = λ s e. e }

  get_ctx-Stays : Stays op (get_ctx {Db = Db} {D = D})
  unfolding get_ctx
  get_ctx-Stays = record { stays = λ s e. e }

  select-Stays :
      (deleted : Option (SoftDelete D)) (p : D → Bool)
      → Stays op (change_ctx {Db = Db} {D = D} (λ ctx. skip_deleted deleted (select_by p ctx)))
  unfolding change_ctx
  select-Stays none p = record { stays = λ s e. e }
  select-Stays (some f) p = record { stays = λ s e. e }

module _ {D : Type 0} (drv : Driver D) (c : Controller drv.Db D) (op : Operation) where
  -- The authorizers fail in every request of the operation.
  abbrev pub Denies : Type 0
  Denies = Fails op (run_callbacks c authorizer c.authorizers)

  load_model-Fails : (tx : Tx) (now : ℕ) → Denies → Fails op (load_model drv c tx now)
  unfolding load_model
  load_model-Fails tx now h =
      Fails-then get_ctx-Stays
        λ start. Fails-then (select-Stays c.soft_delete _) λ _. Fails-first _ h

  create_resource-Fails :
      (tx : Tx) (id : ℕ) (token : String) (now : ℕ)
      → Denies
      → Fails op (create_resource drv c tx id token now)
  unfolding create_resource
  create_resource-Fails tx id token now h = Fails-then get_ctx-Stays λ start.
      Fails-then (lift-Stays (check_input drv c "" "unnecessary resource ID" start))
        λ _. Fails-first _ h

  update_resource-Fails :
      (tx : Tx) (token : String) (now then' : ℕ)
      → Denies
      → Fails op (update_resource drv c tx token now then')
  unfolding update_resource
  update_resource-Fails tx token now then' h = Fails-then get_ctx-Stays λ start.
      Fails-then
        (lift-Stays (check_input drv c start.rest.resource_id "resource ID mismatch" start))
        λ _. Fails-first _ (load_model-Fails tx now h)

  -- The operations on a resource.
  pub data Kind : Type 0 where
    finds creates updates deletes : Kind

  abbrev pub operate : Kind → ℕ → String → ℕ → ℕ → Tx → M (drv.Db × Ctx D) (Unit {0})
  operate finds id token now then' tx = find_resource drv c tx now
  operate creates id token now then' tx = create_resource drv c tx id token now
  operate updates id token now then' tx = update_resource drv c tx token now then'
  operate deletes id token now then' tx = delete_resource drv c tx now then'

  operate-Fails :
      (k : Kind) (id : ℕ) (token : String) (now then' : ℕ) (tx : Tx)
      → Denies
      → Fails op (operate k id token now then' tx)
  unfolding find_resource delete_resource
  operate-Fails finds id token now then' tx h = Fails-first _ (load_model-Fails tx now h)
  operate-Fails creates id token now then' tx h = create_resource-Fails tx id token now h
  operate-Fails updates id token now then' tx h = update_resource-Fails tx token now then' h
  operate-Fails deletes id token now then' tx h = Fails-first _ (load_model-Fails tx now h)

  denied :
      (read_only : Bool) (db : drv.Db) (called ended : drv.Db × Result (Unit {0})) (e : Error)
      → called.1 ≡ err e
      → AllOrNothing read_only db called ended
      → (ended.0 ≡ db) × ((e : Error) × (ended.1 ≡ err e))
  denied read_only db called ended e h (inl k, inl g) = (k, (e, g ∙ h))
  denied read_only db called ended e h (inl k, inr g) = (k, g)
  denied read_only db called ended e h (inr (x, y, (a, g)), answer) =
      let clash : err e ≡ ok a = sym h ∙ g in absurd (cc)

  -- A request for a resource that the authorizers deny, for its operation and whatever else its
  -- context holds, leaves the database as it was and is answered with an error, also where an
  -- authorizer has written to the database before.
  pub handle_denied :
      (k : Kind) (id : ℕ) (token : String) (now then' store : ℕ) (tx : Tx) (start : Option Error)
      (commit : Commit) (abort : Option Error) (db : drv.Db) (ctx : Ctx D)
      → Denies
      → tx.transaction ≡ none
      → ctx.operation ≡ op
      → ((handle drv store tx start commit abort (operate k id token now then') (db, ctx)).0.0 ≡ db)
        × ((e : Error) × ((handle drv store tx start commit abort
                (operate k id token now then')
                (db, ctx)).1
              ≡ err e))
  unfolding handle
  handle_denied k id token now then' store tx start commit abort db ctx h none_open e =
      let (x, f) = (operate-Fails k id token now then' (inside store) h).fails (db, ctx) e in
      denied (is_read ctx.operation) db _ _ x f (
        transact_lem (is_read ctx.operation) db store tx start commit abort
          (on_data drv ctx (operate k id token now then')) none_open)

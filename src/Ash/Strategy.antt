-- ===== src/Ash/Strategy.antt =====
-- ash/strategy.go and ash/authorizer.go: which authorizers are asked for an operation, and what
-- they answer.
use fire.Base.{
  ℕ_eq, String_eq, if◌then◌else◌, access_denied, panics, ok, err, M, ◌>>=◌, ◌>>◌, bind, pure, fail,
  lookup, String, Bool, true, false, ◌&&◌, ◌||◌, none, some, List, [], ◌∷◌, ◌++◌,
}
use fire.Ash.Context.{
  list, find, create, update, delete, collection_action, resource_action, Context, Callback,
}

-- An authorizer answers the enforcers that must succeed; no enforcers leave the decision to
-- others.
pub record Authorizer (Ctx : Type 0) : Type 0 where
  pub matcher : Ctx → Bool
  pub handler : M Ctx (List (Callback Ctx))

pub record Strategy (Ctx : Type 0) : Type 0 where
  pub lists : List (Authorizer Ctx)
  pub finds : List (Authorizer Ctx)
  pub creates : List (Authorizer Ctx)
  pub updates : List (Authorizer Ctx)
  pub deletes : List (Authorizer Ctx)
  pub collection_action_of : List (String × List (Authorizer Ctx))
  pub resource_action_of : List (String × List (Authorizer Ctx))
  pub collection_actions : List (Authorizer Ctx)
  pub resource_actions : List (Authorizer Ctx)
  pub reads : List (Authorizer Ctx)
  pub writes : List (Authorizer Ctx)
  pub actions : List (Authorizer Ctx)
  pub alls : List (Authorizer Ctx)

module _ {Ctx : Type 0} where
  -- The handler of `And`.
  abbrev pub both :
      M Ctx (List (Callback Ctx)) → M Ctx (List (Callback Ctx)) → M Ctx (List (Callback Ctx))
  both a b = do
    first_set ← a
    elim first_set [
      | [] ↦ pure []
      | e ∷ es ↦ (do
        second_set ← b
        elim second_set [ [] ↦ pure [] | f ∷ fs ↦ pure ((e ∷ es) ++ (f ∷ fs)) ])
    ]

  unfoldable pub and : Authorizer Ctx → Authorizer Ctx → Authorizer Ctx
  and a b = record {
    matcher = λ ctx. a.matcher ctx && b.matcher ctx;
    handler = both a.handler b.handler;
  }

  -- One of the two checks of `Or`: no enforcers where the authorizer does not match.
  abbrev pub ask : Authorizer Ctx → M Ctx (List (Callback Ctx))
  ask a ctx = if a.matcher ctx then a.handler ctx else (ctx, ok [])

  unfoldable pub or : Authorizer Ctx → Authorizer Ctx → Authorizer Ctx
  or a b = record {
    matcher = λ ctx. a.matcher ctx || b.matcher ctx;
    handler = (do enforcers ← ask a; elim enforcers [ [] ↦ ask b | e ∷ es ↦ pure (e ∷ es) ]);
  }

  -- The loop over the enforcers; one that does not match is a panic.
  unfoldable pub enforce : List (Callback Ctx) → M Ctx (Unit {0})
  enforce [] ctx = (ctx, ok tt)
  enforce (e ∷ es) ctx = elim (e.matcher ctx) [
    | false ↦ (ctx, err (panics "ash: invalid enforcer"))
    | true ↦ bind (e.handler ctx) (λ _. enforce es)
  ]

  -- What follows an authorizer's answer: its enforcers decide, or the others do.
  unfoldable pub decide : List (Callback Ctx) → M Ctx Bool → M Ctx Bool
  unfolding enforce
  decide [] others = others
  decide (e ∷ es) others = enforce (e ∷ es) >> pure true

  -- The loop over one list, answering whether the operation was granted.
  unfoldable pub call_list : List (Authorizer Ctx) → M Ctx Bool
  unfolding decide
  call_list [] ctx = (ctx, ok false)
  call_list (a ∷ others) ctx = elim (a.matcher ctx) [
    | false ↦ call_list others ctx
    | true ↦ bind (a.handler ctx) (λ enforcers. decide enforcers (λ d. call_list others d))
  ]

  unfoldable pub call : List (List (Authorizer Ctx)) → M Ctx (Unit {0})
  unfolding call_list
  call [] = fail access_denied
  call (l ∷ ls) = call_list l >>= λ granted. elim granted [ true ↦ pure tt | false ↦ call ls ]

module _ {Filter Getter Rest : Type 0} where
  abbrev by_name :
      String
      → List (String × List (Authorizer (Context Filter Getter Rest)))
      → List (Authorizer (Context Filter Getter Rest))
  by_name name table = elim (lookup name table) [ none ↦ [] | some l ↦ l ]

  abbrev pub selected :
      Strategy (Context Filter Getter Rest)
      → (Context Filter Getter Rest)
      → List (List (Authorizer (Context Filter Getter Rest)))
  selected s ctx = elim ctx.operation [
    | list ↦ s.lists ∷ s.reads ∷ s.alls ∷ []
    | find ↦ s.finds ∷ s.reads ∷ s.alls ∷ []
    | create ↦ s.creates ∷ s.writes ∷ s.alls ∷ []
    | update ↦ s.updates ∷ s.writes ∷ s.alls ∷ []
    | delete ↦ s.deletes ∷ s.writes ∷ s.alls ∷ []
    | collection_action ↦
        by_name ctx.collection_name s.collection_action_of
        ∷ s.collection_actions
        ∷ s.actions
        ∷ s.alls
        ∷ []
    | resource_action ↦
        by_name ctx.resource_name s.resource_action_of
        ∷ s.resource_actions
        ∷ s.actions
        ∷ s.alls
        ∷ []
  ]

  -- The handler of the strategy's callback.
  unfoldable pub callback :
      Strategy (Context Filter Getter Rest) → M (Context Filter Getter Rest) (Unit {0})
  unfolding call
  callback s ctx = call (selected s ctx) ctx

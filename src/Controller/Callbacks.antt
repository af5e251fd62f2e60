-- ===== src/Controller/Callbacks.antt =====
-- controller.go, context.go and handler.go: stages, the run of callbacks, and callbacks that are
-- deferred or combined.
use Prim.Native.Nat.{bit_and}
use fire.Base.{
  ℕ_eq, String_eq, leb, ◌==◌, if◌then◌else◌, ℤ_eq, select, panics, message, Result, ok, err, M,
  bind, lookup, ℕ, Bool, true, false, not, ◌&&◌, ◌||◌, Option, none, some, List, [], ◌∷◌, ◌++◌, map,
}
use fire.Base.{insert}
use fire.Controller.Model.{all_stages, Ctx, Callback, Controller, with_stage, with_defers}

-- Split
abbrev pub split : ℕ → List ℕ
split s = select (λ stage. not (bit_and s stage == 0)) all_stages

-- What a map of lists has for a key.
abbrev pub listed : Option (List ℕ) → List ℕ
listed none = []
listed (some l) = l

module _ {D : Type 0} where
  abbrev pub deferred_at : Ctx D → ℕ → List ℕ
  deferred_at ctx stage = listed (lookup stage ctx.rest.defers)

  -- The callback is added for all of its stages.
  abbrev pub defer_all : ℕ → List ℕ → Ctx D → Ctx D
  defer_all n [] ctx = ctx
  defer_all n (stage ∷ stages) ctx =
      defer_all n stages
        (with_defers (insert stage (deferred_at ctx stage ++ n ∷ []) ctx.rest.defers) ctx)

module _ {Db D : Type 0} where
  abbrev pub is_supported : ℕ → Callback Db D → Bool
  is_supported stage cb = cb.stage == 0 || not (bit_and cb.stage stage == 0)

  -- runCallbackList
  unfoldable pub run_callback_list : ℕ → List (Callback Db D) → M (Db × Ctx D) (Unit {0})
  run_callback_list stage [] s = (s, ok tt)
  run_callback_list stage (cb ∷ list) (db, ctx) = elim (is_supported stage cb) [
    | false ↦ ((db, ctx), err (message "callback does not support stage"))
    | true ↦ elim (cb.matcher ctx) [
      | false ↦ run_callback_list stage list (db, ctx)
      | true ↦ bind (cb.handler (db, with_stage stage ctx)) (λ _. run_callback_list stage list)
    ]
  ]

  -- runCallbacks; the deferred callbacks are those after the run of the list.
  unfoldable pub run_callbacks :
      Controller Db D → ℕ → List (Callback Db D) → M (Db × Ctx D) (Unit {0})
  run_callbacks c stage list s =
      bind (run_callback_list stage list s)
        (λ _ s. run_callback_list stage (map c.deferred (deferred_at s.1 stage)) s)

  -- Defer, of the callback of a number; `err` stands for the panic.
  unfoldable pub defer : Controller Db D → ℕ → Ctx D → Result (Ctx D)
  defer c n ctx =
      if leb (c.deferred n).stage ctx.rest.stage
      then err (panics "fire: invalid stage")
      else ok (defer_all n (split (c.deferred n).stage) ctx)

  -- Combine
  abbrev pub any_matches : List (Callback Db D) → Ctx D → Bool
  any_matches [] ctx = false
  any_matches (cb ∷ cbs) ctx = cb.matcher ctx || any_matches cbs ctx

  unfoldable pub run_matching : List (Callback Db D) → M (Db × Ctx D) (Unit {0})
  run_matching [] s = (s, ok tt)
  run_matching (cb ∷ cbs) (db, ctx) =
      elim (not (bit_and ctx.rest.stage cb.stage == 0) && cb.matcher ctx) [
        | false ↦ run_matching cbs (db, ctx)
        | true ↦ bind (cb.handler (db, ctx)) (λ _. run_matching cbs)
      ]

  abbrev pub all_support : ℕ → List (Callback Db D) → Bool
  all_support stage [] = true
  all_support stage (cb ∷ cbs) = not (bit_and cb.stage stage == 0) && all_support stage cbs

  unfoldable pub combine : ℕ → List (Callback Db D) → Result (Callback Db D)
  unfolding run_matching
  combine stage cbs =
      if not (stage == 0) && not (all_support stage cbs)
      then err (panics "fire: callback does not support stage")
      else ok (record { stage = stage; matcher = any_matches cbs; handler = run_matching cbs })

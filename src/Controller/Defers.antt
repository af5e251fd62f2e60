-- ===== src/Controller/Defers.antt =====
-- Defer of context.go: at which stages a deferred callback is run.
use mathlib.Core.Path.{subst}
use fire.Base.{
  ℕ_eq, String_eq, leb, ◌==◌, Bool-cases, ℤ_eq, ==_sound, select, ok, lookup, lookup-insert_self,
  lookup-insert_ne, ℕ, ◌<◌, ◌≡◌, sym, ap, ◌∙◌, inl, inr, false, List, [], ◌∷◌, ◌++◌, map,
  append-nil, append_assoc, arith,
}
use fire.Base.{insert}
use Prim.Native.Nat.{bit_and}
use fire.Base.{if◌then◌else◌, Bool, true, not, ◌&&◌, ◌||◌, ==_self, refl}
use fire.Stick.Lists.Defs.{contains}
use fire.Stick.Lists.Unique.{Distinct}
use fire.Controller.Model.{
  authorizer, verifier, modifier, validator, decorator, notifier, all_stages, Ctx, Controller,
  with_defers,
}
use fire.Controller.Callbacks.{split, listed, deferred_at, defer_all, defer}

-- The callback once for each stage that is the given one.
abbrev pub copies : ℕ → ℕ → List ℕ → List ℕ
copies n stage stages = map (λ _. n) (select (λ x. x == stage) stages)

copies-cons :
    (n stage x : ℕ) (xs : List ℕ)
    → copies n stage (x ∷ []) ++ copies n stage xs ≡ copies n stage (x ∷ xs)
copies-cons n stage x xs = elim (Bool-cases (x == stage)) [ inl t ↦ rw t | inr f ↦ rw f ]

module _ {D : Type 0} where
  added :
      (n x stage : ℕ) (ctx : Ctx D)
      → deferred_at (with_defers (insert x (deferred_at ctx x ++ n ∷ []) ctx.rest.defers) ctx) stage
        ≡ deferred_at ctx stage ++ copies n stage (x ∷ [])
  added n x stage ctx = elim (Bool-cases (x == stage)) [
    | inl t ↦
        let same : x ≡ stage = ==_sound x stage t in
        rw t (
          subst
            (λ y.
              listed (lookup stage (insert y (deferred_at ctx y ++ n ∷ []) ctx.rest.defers))
              ≡ deferred_at ctx stage ++ n ∷ [])
            (sym same)
            (ap listed
              (lookup-insert_self stage (deferred_at ctx stage ++ n ∷ []) ctx.rest.defers)))
    | inr f ↦ rw f (
        ap listed (lookup-insert_ne x stage (deferred_at ctx x ++ n ∷ []) ctx.rest.defers f)
        ∙ sym (append-nil (deferred_at ctx stage)))
  ]

  defer_all_lem :
      (n stage : ℕ) (stages : List ℕ) (ctx : Ctx D)
      → deferred_at (defer_all n stages ctx) stage ≡ deferred_at ctx stage ++ copies n stage stages
  defer_all_lem n stage [] ctx = sym (append-nil (deferred_at ctx stage))
  defer_all_lem n stage (x ∷ xs) ctx =
      defer_all_lem n stage xs
        (with_defers (insert x (deferred_at ctx x ++ n ∷ []) ctx.rest.defers) ctx)
      ∙ ap (λ l. l ++ copies n stage xs) (added n x stage ctx)
      ∙ append_assoc (deferred_at ctx stage) (copies n stage (x ∷ [])) (copies n stage xs)
      ∙ ap (λ l. deferred_at ctx stage ++ l) (copies-cons n stage x xs)

-- The callback once, or not at all.
abbrev pub once_if : Bool → ℕ → List ℕ
once_if true n = n ∷ []
once_if false n = []

copies-none :
    (n stage : ℕ) (p : ℕ → Bool) (xs : List ℕ)
    → contains xs stage ≡ false
    → copies n stage (select p xs) ≡ []
unfolding contains
copies-none n stage p [] f = refl
copies-none n stage p (x ∷ xs) f = elim (Bool-cases (x == stage)) [
  | inl t ↦ let clash : true ≡ false = rw t at f in cc
  | inr g ↦ elim (Bool-cases (p x)) [
    | inl t ↦ rw (t, g) (copies-none n stage p xs (rw g at f))
    | inr k ↦ rw k (copies-none n stage p xs (rw g at f))
  ]
]

copies-select :
    (n stage : ℕ) (p : ℕ → Bool) (xs : List ℕ)
    → Distinct xs
    → copies n stage (select p xs) ≡ once_if (contains xs stage && p stage) n
unfolding contains
copies-select n stage p [] d = refl
copies-select n stage p (x ∷ xs) d = elim (Bool-cases (x == stage)) [
  | inl t ↦
      let same : x ≡ stage = ==_sound x stage t in
      rw t (
        subst
          (λ y. copies n stage (if p y then y ∷ select p xs else select p xs) ≡ once_if (p stage) n)
          (sym same)
          (at_stage (p stage) refl
            (copies-none n stage p xs (subst (λ y. contains xs y ≡ false) same d.0))))
  | inr f ↦ elim (Bool-cases (p x)) [
    | inl t ↦ rw (t, f) (copies-select n stage p xs d.1)
    | inr k ↦ rw (k, f) (copies-select n stage p xs d.1)
  ]
]
  where
    at_stage :
        (b : Bool)
        → p stage ≡ b
        → copies n stage (select p xs) ≡ []
        → copies n stage (if p stage then stage ∷ select p xs else select p xs)
          ≡ once_if (p stage) n
    at_stage true e h = rw (e, ==_self stage) (rw h)
    at_stage false e h = rw e h

-- The six stages that there are.
abbrev pub is_stage : ℕ → Bool
is_stage s =
    authorizer == s
    || verifier == s
    || modifier == s
    || validator == s
    || decorator == s
    || notifier == s

stages-contain : (s : ℕ) → contains all_stages s ≡ is_stage s
unfolding contains
stages-contain s = ground arith

stages-Distinct : Distinct all_stages
unfolding contains
stages-Distinct = (refl, (refl, (refl, (refl, (refl, (refl, tt))))))

-- Defer at a stage before the callback's succeeds: at each of the six stages whose bit the
-- callback's stages have, the callback is listed once behind the ones deferred so far, and at every
-- other stage nothing is added.
pub defer_lem :
    {Db D : Type 0} (c : Controller Db D) (n : ℕ) (ctx : Ctx D)
    → ctx.rest.stage < (c.deferred n).stage
    → (ctx' : Ctx D) × (defer c n ctx ≡ ok ctx')
      × ((stage : ℕ)
          → deferred_at ctx' stage
            ≡ deferred_at ctx stage
              ++ once_if (is_stage stage && not (bit_and (c.deferred n).stage stage == 0)) n)
unfolding defer
defer_lem c n ctx lt = (
  defer_all n (split (c.deferred n).stage) ctx,
  rw (later (c.deferred n).stage ctx.rest.stage lt),
  λ stage.
      defer_all_lem n stage (split (c.deferred n).stage) ctx
      ∙ ap (λ l. deferred_at ctx stage ++ l)
          (copies-select n stage (λ s. not (bit_and (c.deferred n).stage s == 0)) all_stages
              stages-Distinct
            ∙ ap (λ b. once_if (b && not (bit_and (c.deferred n).stage stage == 0)) n)
                (stages-contain stage)),
)
  where
    later : (a b : ℕ) → b < a → leb a b ≡ false
    later a b t = ground arith

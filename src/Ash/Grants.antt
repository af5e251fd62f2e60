-- ===== src/Ash/Grants.antt =====
-- ash/strategy.go: who grants an operation. A description of the authorization by relations,
-- against `call`.
use fire.Base.{
  ℕ_eq, String_eq, Bool-cases, Error, access_denied, Result, ok, err, bind, pure, ◌≡◌, refl, ap,
  ◌↔◌, inl, inr, Bool, true, false, List, [], ◌∷◌, ◌++◌,
}
use fire.Ash.Context.{Context, Callback}
use fire.Ash.Strategy.{Authorizer, enforce, decide, call_list, call, Strategy, selected, callback}

module _ {Ctx : Type 0} where
  -- All enforcers match and succeed, one after the other.
  pub data Enforced : List (Callback Ctx) → Ctx → Ctx → Type 0 where
    enforced : {c d : Ctx} → c ≡ d → Enforced [] c d
    enforces :
        {e : Callback Ctx} {es : List (Callback Ctx)} {c c' d : Ctx}
        → e.matcher c ≡ true
        → e.handler c ≡ (c', ok tt)
        → Enforced es c' d
        → Enforced (e ∷ es) c d

  -- An authorizer that matches answers enforcers, at least one, and all of them succeed; those
  -- before it do not match or answer none.
  pub data Grants : List (Authorizer Ctx) → Ctx → Ctx → Type 0 where
    skips :
        {a : Authorizer Ctx} {rest : List (Authorizer Ctx)} {c d : Ctx}
        → a.matcher c ≡ false
        → Grants rest c d
        → Grants (a ∷ rest) c d
    abstains :
        {a : Authorizer Ctx} {rest : List (Authorizer Ctx)} {c c' d : Ctx}
        → a.matcher c ≡ true
        → a.handler c ≡ (c', ok [])
        → Grants rest c' d
        → Grants (a ∷ rest) c d
    grants :
        {a : Authorizer Ctx} {rest : List (Authorizer Ctx)} {e : Callback Ctx}
        {es : List (Callback Ctx)} {c c' d : Ctx}
        → a.matcher c ≡ true
        → a.handler c ≡ (c', ok (e ∷ es))
        → Enforced (e ∷ es) c' d
        → Grants (a ∷ rest) c d

  abbrev pub concat : List (List (Authorizer Ctx)) → List (Authorizer Ctx)
  concat [] = []
  concat (l ∷ ls) = l ++ concat ls

  Enforced-first :
      (e : Callback Ctx) (es : List (Callback Ctx)) (c d : Ctx) (w : Ctx × Result (Unit {0}))
      → ((c d : Ctx) → enforce es c ≡ (d, ok tt) → Enforced es c d)
      → e.matcher c ≡ true
      → e.handler c ≡ w
      → bind w (λ _. enforce es) ≡ (d, ok tt)
      → Enforced (e ∷ es) c d
  Enforced-first e es c d (c', ok tt) rest t h r = enforces t h (rest c' d r)
  Enforced-first e es c d (c', err x) rest t h r = cc

  clash :
      {c d : Ctx} {x : Error} {Q : Type 0}
      → ◌≡◌ {A = Ctx × Result (Unit {0})} (c, err x) (d, ok tt)
      → Q
  clash h = cc

  pub enforce-Enforced :
      (es : List (Callback Ctx)) (c d : Ctx) → enforce es c ≡ (d, ok tt) → Enforced es c d
  unfolding enforce
  enforce-Enforced [] c d h = enforced (ap (λ w. w.0) h)
  enforce-Enforced (e ∷ es) c d h = elim (Bool-cases (e.matcher c)) [
    | inl t ↦ Enforced-first e es c d (e.handler c) (enforce-Enforced es) t refl (rw t at h)
    | inr f ↦ clash (rw f at h)
  ]

  Enforced-enforce :
      (es : List (Callback Ctx)) (c d : Ctx) → Enforced es c d → enforce es c ≡ (d, ok tt)
  unfolding enforce
  Enforced-enforce [] c d (enforced h) = rw h
  Enforced-enforce (e ∷ es) c d (enforces m h r) = rw (m, h) (Enforced-enforce es _ d r)

  -- Answers of `call_list` followed by the other lists.
  abbrev follow : List (List (Authorizer Ctx)) → Ctx × Result Bool → Ctx × Result (Unit {0})
  follow ls w = bind w (λ granted. elim granted [ true ↦ pure tt | false ↦ call ls ])

  -- What the enforcers of a granting authorizer come to.
  passed :
      (ls : List (List (Authorizer Ctx))) (d : Ctx) (w : Ctx × Result (Unit {0}))
      → follow ls (bind w (λ _. pure true)) ≡ (d, ok tt)
      → w ≡ (d, ok tt)
  passed ls d (c, ok tt) h = h
  passed ls d (c, err x) h = cc

  decided :
      (a : Authorizer Ctx) (rest : List (Authorizer Ctx)) (ls : List (List (Authorizer Ctx)))
      (c d : Ctx) (w : Ctx × Result (List (Callback Ctx)))
      → ((c : Ctx) → follow ls (call_list rest c) ≡ (d, ok tt) → Grants (rest ++ concat ls) c d)
      → a.matcher c ≡ true
      → a.handler c ≡ w
      → follow ls (bind w (λ es. decide es (λ c. call_list rest c))) ≡ (d, ok tt)
      → Grants (a ∷ (rest ++ concat ls)) c d
  unfolding decide
  decided a rest ls c d (c', ok []) ih t h r = abstains t h (ih c' r)
  decided a rest ls c d (c', ok (e ∷ es)) ih t h r =
      grants t h (enforce-Enforced (e ∷ es) c' d (passed ls d (enforce (e ∷ es) c') r))
  decided a rest ls c d (c', err x) ih t h r = cc

  -- Where the operation is granted, an authorizer grants it.
  listed :
      (l : List (Authorizer Ctx)) (ls : List (List (Authorizer Ctx))) (c d : Ctx)
      → ((c d : Ctx) → call ls c ≡ (d, ok tt) → Grants (concat ls) c d)
      → follow ls (call_list l c) ≡ (d, ok tt)
      → Grants (l ++ concat ls) c d
  unfolding call_list
  listed [] ls c d others h = others c d h
  listed (a ∷ rest) ls c d others h = elim (Bool-cases (a.matcher c)) [
    | inl t ↦
        decided a rest ls c d (a.handler c) (λ c. listed rest ls c d others) t refl (rw t at h)
    | inr f ↦ skips f (listed rest ls c d others (rw f at h))
  ]

  granted :
      (ls : List (List (Authorizer Ctx))) (c d : Ctx)
      → call ls c ≡ (d, ok tt)
      → Grants (concat ls) c d
  unfolding call
  granted [] c d h = clash h
  granted (l ∷ ls) c d h = listed l ls c d (granted ls) h

  relisted :
      (l : List (Authorizer Ctx)) (ls : List (List (Authorizer Ctx))) (c d : Ctx)
      → ((c d : Ctx) → Grants (concat ls) c d → call ls c ≡ (d, ok tt))
      → Grants (l ++ concat ls) c d
      → follow ls (call_list l c) ≡ (d, ok tt)
  unfolding call_list
  relisted [] ls c d others g = others c d g
  relisted (a ∷ rest) ls c d others (skips f g) = rw f (relisted rest ls c d others g)
  relisted (a ∷ rest) ls c d others (abstains t h g) = rw (t, h) (relisted rest ls _ d others g)
  relisted (a ∷ rest) ls c d others (grants t h g) = rw (t, h, Enforced-enforce _ _ d g) refl

  regranted :
      (ls : List (List (Authorizer Ctx))) (c d : Ctx)
      → Grants (concat ls) c d
      → call ls c ≡ (d, ok tt)
  unfolding call
  regranted [] c d g = elim g [ ]
  regranted (l ∷ ls) c d g = relisted l ls c d (regranted ls) g

  -- No authorizer decides: each one does not match or answers no enforcers.
  pub data Abstained : List (Authorizer Ctx) → Ctx → Ctx → Type 0 where
    ends : {c d : Ctx} → c ≡ d → Abstained [] c d
    skipped :
        {a : Authorizer Ctx} {rest : List (Authorizer Ctx)} {c d : Ctx}
        → a.matcher c ≡ false
        → Abstained rest c d
        → Abstained (a ∷ rest) c d
    abstained :
        {a : Authorizer Ctx} {rest : List (Authorizer Ctx)} {c c' d : Ctx}
        → a.matcher c ≡ true
        → a.handler c ≡ (c', ok [])
        → Abstained rest c' d
        → Abstained (a ∷ rest) c d

  list_denied :
      (l : List (Authorizer Ctx)) (ls : List (List (Authorizer Ctx))) (c d : Ctx)
      → ((c d : Ctx) → Abstained (concat ls) c d → call ls c ≡ (d, err access_denied))
      → Abstained (l ++ concat ls) c d
      → follow ls (call_list l c) ≡ (d, err access_denied)
  unfolding call_list
  list_denied [] ls c d others g = others c d g
  list_denied (a ∷ rest) ls c d others (skipped f g) = rw f (list_denied rest ls c d others g)
  list_denied (a ∷ rest) ls c d others (abstained t h g) =
      rw (t, h) (list_denied rest ls _ d others g)

  -- Where no authorizer of the lists decides, access is denied.
  pub call_denied :
      (ls : List (List (Authorizer Ctx))) (c d : Ctx)
      → Abstained (concat ls) c d
      → call ls c ≡ (d, err access_denied)
  unfolding call
  call_denied [] c d (ends h) = rw h
  call_denied (l ∷ ls) c d g = list_denied l ls c d (call_denied ls) g

module _ {Filter Getter Rest : Type 0} where
  -- A strategy grants an operation exactly where one of the authorizers for the operation does: it
  -- matches, it answers enforcers, at least one, that all match and succeed, and the authorizers
  -- before it do not match or answer no enforcers. The context is then the one that these leave.
  pub callback_iff :
      (s : Strategy (Context Filter Getter Rest)) (c d : Context Filter Getter Rest)
      → (callback s c ≡ (d, ok tt)) ↔ Grants (concat (selected s c)) c d
  unfolding callback
  callback_iff s c d = (granted (selected s c) c d, regranted (selected s c) c d)

-- ===== src/Ash/Combinations.antt =====
-- ash/authorizer.go: what And and Or answer.
use fire.Base.{
  ℕ_eq, String_eq, Result, ok, err, bind, pure, ◌≡◌, refl, ap, sym, Bool-cases, ◌∙◌, ◌↔◌, ◌⊎◌, inl,
  inr, true, false, List, [], ◌∷◌, ◌++◌,
}
use mathlib.Core.Bool.{false≢true}
use fire.Ash.Context.{Callback}
use fire.Ash.Strategy.{Authorizer, and, ask, or}

module _ {Ctx : Type 0} where
  -- The outcomes that make `And` answer enforcers.
  abbrev pub BothAnswer :
      Authorizer Ctx → Authorizer Ctx → Ctx → Ctx → Callback Ctx → List (Callback Ctx) → Type 0
  BothAnswer a b c d f fs =
      (c' : Ctx) × (es : List (Callback Ctx)) × (g : Callback Ctx) × (gs : List (Callback Ctx))
      × (a.handler c ≡ (c', ok (f ∷ es)))
      × (b.handler c' ≡ (d, ok (g ∷ gs)))
      × (fs ≡ es ++ (g ∷ gs))

  abbrev append_answer :
      Callback Ctx
      → List (Callback Ctx)
      → Ctx × Result (List (Callback Ctx))
      → Ctx × Result (List (Callback Ctx))
  append_answer e es v =
      bind v (λ second_set. elim second_set [ [] ↦ pure [] | g ∷ gs ↦ pure ((e ∷ es) ++ (g ∷ gs)) ])

  second_answers :
      (a b : Authorizer Ctx) (c c' d : Ctx) (e f : Callback Ctx) (es fs : List (Callback Ctx))
      (v : Ctx × Result (List (Callback Ctx)))
      → a.handler c ≡ (c', ok (e ∷ es))
      → b.handler c' ≡ v
      → append_answer e es v ≡ (d, ok (f ∷ fs))
      → BothAnswer a b c d f fs
  second_answers a b c c' d e f es fs (c2, ok []) ha hb h = cc
  second_answers a b c c' d e f es fs (c2, ok (g ∷ gs)) ha hb h = (c', es, g, gs, cc, cc, cc)
  second_answers a b c c' d e f es fs (c2, err x) ha hb h = cc

  first_answers :
      (a b : Authorizer Ctx) (c d : Ctx) (f : Callback Ctx) (fs : List (Callback Ctx))
      (w : Ctx × Result (List (Callback Ctx)))
      → a.handler c ≡ w
      → bind w (λ first_set. elim first_set [
        | [] ↦ pure []
        | e ∷ es ↦ λ c'. append_answer e es (b.handler c')
      ])
        ≡ (d, ok (f ∷ fs))
      → BothAnswer a b c d f fs
  first_answers a b c d f fs (c', ok []) ha h = cc
  first_answers a b c d f fs (c', ok (e ∷ es)) ha h =
      second_answers a b c c' d e f es fs (b.handler c') ha refl h
  first_answers a b c d f fs (c', err x) ha h = cc

  -- And answers enforcers exactly where both authorizers answer some, and they are those of the
  -- first one and then those of the second one.
  pub and_iff :
      (a b : Authorizer Ctx) (c d : Ctx) (f : Callback Ctx) (fs : List (Callback Ctx))
      → ((and a b).handler c ≡ (d, ok (f ∷ fs))) ↔ BothAnswer a b c d f fs
  unfolding and
  and_iff a b c d f fs = (
    first_answers a b c d f fs (a.handler c) refl,
    λ (c', es, g, gs, ha, hb, e). rw (ha, hb, e) refl,
  )

  or_answers :
      (b : Authorizer Ctx) (d : Ctx) (f : Callback Ctx) (fs : List (Callback Ctx))
      (w : Ctx × Result (List (Callback Ctx)))
      → (bind w (λ enforcers. elim enforcers [ [] ↦ ask b | e ∷ es ↦ pure (e ∷ es) ])
          ≡ (d, ok (f ∷ fs)))
        ↔ ((w ≡ (d, ok (f ∷ fs)))
            ⊎ ((c' : Ctx) × (w ≡ (c', ok [])) × (ask b c' ≡ (d, ok (f ∷ fs)))))
  or_answers b d f fs (c, ok []) = (
    λ h. inr (c, refl, h),
    λ q. elim q [ inl h ↦ cc | inr (c', e, h) ↦ ap (ask b) (ap (λ w. w.0) e) ∙ h ],
  )
  or_answers b d f fs (c, ok (e ∷ es)) =
      (λ h. inl h, λ q. elim q [ inl h ↦ h | inr (c', k, h) ↦ cc ])
  or_answers b d f fs (c, err x) = (λ h. cc, λ q. elim q [ inl h ↦ cc | inr (c', k, h) ↦ cc ])

  -- An authorizer that matches answers the enforcers.
  abbrev pub Answers : Authorizer Ctx → Ctx → Ctx → List (Callback Ctx) → Type 0
  Answers a c d es = (a.matcher c ≡ true) × (a.handler c ≡ (d, ok es))

  -- An authorizer that does not match, or that matches and answers no enforcers.
  abbrev pub Abstains : Authorizer Ctx → Ctx → Ctx → Type 0
  Abstains a c d = ((a.matcher c ≡ false) × (d ≡ c)) ⊎ Answers a c d []

  ask-Answers :
      (a : Authorizer Ctx) (c d : Ctx) (f : Callback Ctx) (fs : List (Callback Ctx))
      → (ask a c ≡ (d, ok (f ∷ fs))) ↔ Answers a c d (f ∷ fs)
  ask-Answers a c d f fs = elim (Bool-cases (a.matcher c)) [
    | inl t ↦ ((λ h. (t, rw t at h)), λ (m, h). rw t h)
    | inr n ↦ ((λ h. nothing (rw n at h)), λ (m, h). absurd (false≢true (sym n ∙ m)))
  ]
    where
      nothing :
          {Q : Type 0}
          → ◌≡◌ {A = Ctx × Result (List (Callback Ctx))} (c, ok []) (d, ok (f ∷ fs))
          → Q
      nothing h = cc

  ask-Abstains : (a : Authorizer Ctx) (c d : Ctx) → (ask a c ≡ (d, ok [])) ↔ Abstains a c d
  ask-Abstains a c d = elim (Bool-cases (a.matcher c)) [
    | inl t ↦ (
      (λ h. inr (t, rw t at h)),
      λ q. elim q [ inl (n, e) ↦ absurd (false≢true (sym n ∙ t)) | inr (m, h) ↦ rw t h ],
    )
    | inr n ↦ (
      (λ h. inl (n, sym (ap (λ w. w.0) (rw n at h)))),
      λ q. elim q [ inl (m, e) ↦ rw (n, e) refl | inr (m, h) ↦ absurd (false≢true (sym n ∙ m)) ],
    )
  ]

  -- Or answers enforcers exactly where the first authorizer matches and answers them, or where it
  -- does not match or answers none and the second one matches and answers them.
  pub or_iff :
      (a b : Authorizer Ctx) (c d : Ctx) (f : Callback Ctx) (fs : List (Callback Ctx))
      → ((or a b).handler c ≡ (d, ok (f ∷ fs)))
        ↔ (Answers a c d (f ∷ fs) ⊎ ((c' : Ctx) × Abstains a c c' × Answers b c' d (f ∷ fs)))
  unfolding or
  or_iff a b c d f fs =
      let (to, from) = or_answers b d f fs (ask a c) in
      (
        (λ h. elim (to h) [
          | inl k ↦ inl ((ask-Answers a c d f fs).0 k)
          | inr (c', k, l) ↦ inr (c', (ask-Abstains a c c').0 k, (ask-Answers b c' d f fs).0 l)
        ]),
        λ q. from (elim q [
          | inl k ↦ inl ((ask-Answers a c d f fs).1 k)
          | inr (c', k, l) ↦ inr (c', (ask-Abstains a c c').1 k, (ask-Answers b c' d f fs).1 l)
        ]),
      )

-- ===== src/Coal/Outcomes.antt =====
-- Codes of driver calls: what holds of the answer and of the state where a code answers.
use mathlib.Core.Path.{subst}
use fire.Base.{
  ℕ_eq, String_eq, Error, Result, ok, err, ok_injective, M, ◌>>=◌, bind, pure, lift, fail_if, ◌≡◌,
  refl, Bool, true, false,
}

module _ {S : Type 0} where
  -- Where the code answers from the state, the answer and the new state satisfy the condition.
  pub record Yields {A : Type 0} (m : M S A) (s : S) (P : A → S → Type 0) : Type 0 where
    pub yields : (a : A) → (m s).1 ≡ ok a → P a (m s).0

  yields_then :
      {A B : Type 0} (P : A → S → Type 0) (R : B → S → Type 0) (w : S × Result A) (f : A → M S B)
      → ((a : A) → w.1 ≡ ok a → P a w.0)
      → ((a : A) (t : S) → P a t → Yields (f a) t R)
      → (b : B) → (bind w f).1 ≡ ok b
      → R b (bind w f).0
  yields_then P R (t, ok a) f p next b h = (next a t (p a refl)).yields b h
  yields_then P R (t, err e) f p next b h = cc

  pub yields_bind :
      {A B : Type 0} {P : A → S → Type 0} {R : B → S → Type 0} {m : M S A} {f : A → M S B} {s : S}
      → Yields m s P
      → ((a : A) (t : S) → P a t → Yields (f a) t R)
      → Yields (m >>= f) s R
  yields_bind {P = P} {R = R} {m = m} {f = f} {s = s} p next = record {
    yields = yields_then P R (m s) f p.yields next;
  }

  -- A step that does not touch the state.
  pub yields_lift :
      {A : Type 0} (r : Result A) (s : S) → Yields (lift r) s (λ a t. (t ≡ s) × (r ≡ ok a))
  yields_lift r s = record { yields = λ a h. (refl, h) }

  pub yields_fail_if : (b : Bool) (e : Error) (s : S) → Yields (fail_if b e) s (λ _ t. t ≡ s)
  yields_fail_if true e s = record { yields = λ a h. cc }
  yields_fail_if false e s = record { yields = λ a h. refl }

  pub yields_pure : {A : Type 0} (P : A → S → Type 0) (a : A) (s : S) → P a s → Yields (pure a) s P
  yields_pure P a s p = record { yields = λ b h. subst (λ c. P c s) (ok_injective h) p }

  pub yields_weaken :
      {A : Type 0} {P Q : A → S → Type 0} {m : M S A} {s : S}
      → Yields m s P
      → ((a : A) (t : S) → P a t → Q a t)
      → Yields m s Q
  yields_weaken {m = m} {s = s} y k = record { yields = λ a h. k a (m s).0 (y.yields a h) }

-- ===== src/Coal/Triples.antt =====
-- Statements on code over a collection: an invariant of the documents that the code keeps at every
-- end, and what it answers where it does not fail.
use fire.Base.{
  Option-cases, ℕ, Option, none, some, ◌==◌, Bool-cases, inl, inr, ℕ_eq, String_eq, if◌then◌else◌,
  Error, Result, ok, err, ok_injective, M, ◌>>=◌, bind, pure, fail, lift, fail_if, ◌≡◌, refl, Bool,
  true, false, List,
}
use mathlib.Core.Path.{subst}
use fire.Coal.Driver.{meanwhile, Driver}
use fire.Coal.Manager.Defs.{Context}
use fire.Coal.Transactions.{Commit, done, failed, transact, finish, begin, nested, inside}

module _ {D : Type 0} (drv : Driver D) where
  pub record Ensures {A : Type 0} (Inv : List D → Type 0) (m : M drv.Db A) (Q : A → Type 0)
      : Type 0 where
    pub keeps : (s : drv.Db) → Inv (drv.docs s) → Inv (drv.docs (m s).0)
    pub answers : (s : drv.Db) → Inv (drv.docs s) → (a : A) → (m s).1 ≡ ok a → Q a

module _ {D : Type 0} {drv : Driver D} {Inv : List D → Type 0} where
  bind_keeps :
      {A B : Type 0} {Q : A → Type 0} {R : B → Type 0} (f : A → M drv.Db B) (w : drv.Db × Result A)
      → Inv (drv.docs w.0)
      → ((a : A) → w.1 ≡ ok a → Q a)
      → ((a : A) → Q a → Ensures drv Inv (f a) R)
      → Inv (drv.docs (bind w f).0)
  bind_keeps f (s, ok a) i q k = (k a (q a refl)).keeps s i
  bind_keeps f (s, err e) i q k = i

  bind_answers :
      {A B : Type 0} {Q : A → Type 0} {R : B → Type 0} (f : A → M drv.Db B) (w : drv.Db × Result A)
      → Inv (drv.docs w.0)
      → ((a : A) → w.1 ≡ ok a → Q a)
      → ((a : A) → Q a → Ensures drv Inv (f a) R)
      → (b : B) → (bind w f).1 ≡ ok b
      → R b
  bind_answers f (s, ok a) i q k b h = (k a (q a refl)).answers s i b h
  bind_answers f (s, err e) i q k b h = cc

  -- The rules: sequence, an outcome known beforehand, an answer, a guard, a condition.
  pub ensures_bind :
      {A B : Type 0} {Q : A → Type 0} {R : B → Type 0} {m : M drv.Db A} {f : A → M drv.Db B}
      → Ensures drv Inv m Q
      → ((a : A) → Q a → Ensures drv Inv (f a) R)
      → Ensures drv Inv (m >>= f) R
  ensures_bind {m = m} {f = f} e k = record {
    keeps = λ s i. bind_keeps f (m s) (e.keeps s i) (e.answers s i) k;
    answers = λ s i. bind_answers f (m s) (e.keeps s i) (e.answers s i) k;
  }

  pub ensures_lift : {A : Type 0} (r : Result A) → Ensures drv Inv (lift r) (λ a. r ≡ ok a)
  ensures_lift r = record { keeps = λ s i. i; answers = λ s i a h. h }

  pub ensures_pure : {A : Type 0} (Q : A → Type 0) (a : A) → Q a → Ensures drv Inv (pure a) Q
  ensures_pure Q a q = record { keeps = λ s i. i; answers = λ s i a' h. subst Q (ok_injective h) q }

  pub ensures_fail : {A : Type 0} {Q : A → Type 0} (e : Error) → Ensures drv Inv (fail e) Q
  ensures_fail e = record { keeps = λ s i. i; answers = λ s i a h. cc }

  pub ensures_fail_if : (b : Bool) (e : Error) → Ensures drv Inv (fail_if b e) (λ _. b ≡ false)
  ensures_fail_if true e = record { keeps = λ s i. i; answers = λ s i a h. cc }
  ensures_fail_if false e = record { keeps = λ s i. i; answers = λ s i a h. refl }

  pub ensures_if :
      {A : Type 0} {Q : A → Type 0} (b : Bool) {m n : M drv.Db A}
      → (b ≡ true → Ensures drv Inv m Q)
      → (b ≡ false → Ensures drv Inv n Q)
      → Ensures drv Inv (if b then m else n) Q
  ensures_if true k l = k refl
  ensures_if false k l = l refl

  pub weaken :
      {A : Type 0} {Q R : A → Type 0} {m : M drv.Db A}
      → Ensures drv Inv m Q
      → ((a : A) → Q a → R a)
      → Ensures drv Inv m R
  weaken e k = record { keeps = e.keeps; answers = λ s i a h. k a (e.answers s i a h) }

  -- What others do meanwhile keeps the invariant.
  pub ensures_meanwhile :
      (between : drv.Db → drv.Db)
      → ((s : drv.Db) → Inv (drv.docs s) → Inv (drv.docs (between s)))
      → Ensures drv Inv (meanwhile between) (λ _. Unit {0})
  unfolding meanwhile
  ensures_meanwhile between polite = record { keeps = polite; answers = λ s i a h. tt }

module _ {D : Type 0} (drv : Driver D) (Inv : List D → Type 0) {A : Type 0} where
  finish_keeps :
      (read_only : Bool) (s : drv.Db) (commit : Commit) (abort : Option Error)
      (w : drv.Db × Result A)
      → Inv (drv.docs s)
      → Inv (drv.docs w.0)
      → Inv (drv.docs (finish read_only s commit abort w).0)
  finish_keeps read_only s commit abort (t, err e) i j = i
  finish_keeps true s commit none (t, ok a) i j = i
  finish_keeps true s commit (some e) (t, ok a) i j = i
  finish_keeps false s done abort (t, ok a) i j = j
  finish_keeps false s (failed true x y e) abort (t, ok a) i j = j
  finish_keeps false s (failed false x y e) abort (t, ok a) i j = i

  begin_keeps :
      (read_only : Bool) (s : drv.Db) (start : Option Error) (commit : Commit)
      (abort : Option Error) (w : drv.Db × Result A)
      → Inv (drv.docs s)
      → Inv (drv.docs w.0)
      → Inv (drv.docs (begin read_only s start commit abort w).0)
  begin_keeps read_only s none commit abort w i j = finish_keeps read_only s commit abort w i j
  begin_keeps read_only s (some e) commit abort w i j = i

  nested_keeps :
      (tx store : ℕ) (s : drv.Db) (w : drv.Db × Result A)
      → Inv (drv.docs s)
      → Inv (drv.docs w.0)
      → Inv (drv.docs (nested tx store s w).0)
  nested_keeps tx store s w i j = elim (Bool-cases (tx == store)) [
    | inl t ↦ rw t j
    | inr t ↦ rw t i
  ]

  -- A transaction keeps what the function keeps in each context.
  pub ensures_transact :
      (store : ℕ) (read_only : Bool) (ctx : Context) (start : Option Error) (commit : Commit)
      (abort : Option Error) (fn : Context → M drv.Db A)
      → ((c : Context) → Ensures drv Inv (fn c) (λ _. Unit {0}))
      → Ensures drv Inv (transact store read_only ctx start commit abort fn) (λ _. Unit {0})
  unfolding transact
  ensures_transact store read_only ctx start commit abort fn k = record {
    keeps = λ s i. elim (Option-cases ctx.transaction) [
      | inl e ↦ rw e (
          begin_keeps read_only s start commit abort (fn (inside store) s) i
            ((k (inside store)).keeps s i))
      | inr (tx, e) ↦
          rw e (nested_keeps tx store s (fn (inside tx) s) i ((k (inside tx)).keeps s i))
    ];
    answers = λ s i a h. tt;
  }

-- ===== src/Coal/Moves.antt =====
-- Statements on code over a collection that takes the documents from one condition to another.
use fire.Base.{
  ℕ_eq, String_eq, ◌==◌, if◌then◌else◌, ℤ_eq, Result, ok, err, M, ◌>>=◌, bind, pure, lift, ℕ, ◌≡◌,
  refl, Bool, true, false, none, List,
}
use fire.Base.{delete_first as delete_list}
use fire.Coal.Driver.{Driver, IsDriver}
use fire.Coal.Triples.{Ensures}
use fire.Coal.Manager.Defs.{Doc, has_id}
use fire.Coal.Manager.Mutations.{delete}
use fire.Coal.Manager.Ids.{written_keeps}

module _ {D : Type 0} (drv : Driver D) where
  -- Where the first holds before, the second holds at every end.
  pub record Moves {A : Type 0} (I J : List D → Type 0) (m : M drv.Db A) : Type 0 where
    pub moves : (s : drv.Db) → I (drv.docs s) → J (drv.docs (m s).0)

module _ {D : Type 0} {drv : Driver D} {J : List D → Type 0} where
  rest_keeps :
      {A B : Type 0} {R : B → Type 0} (f : A → M drv.Db B) (w : drv.Db × Result A)
      → J (drv.docs w.0)
      → ((a : A) → Ensures drv J (f a) R)
      → J (drv.docs (bind w f).0)
  rest_keeps f (s, ok a) i k = (k a).keeps s i
  rest_keeps f (s, err e) i k = i

module _ {D : Type 0} {drv : Driver D} {I J : List D → Type 0} where
  bind_moves :
      {A B : Type 0} {Q : A → Type 0} (f : A → M drv.Db B) (w : drv.Db × Result A)
      → ((xs : List D) → I xs → J xs)
      → I (drv.docs w.0)
      → ((a : A) → w.1 ≡ ok a → Q a)
      → ((a : A) → Q a → Moves drv I J (f a))
      → J (drv.docs (bind w f).0)
  bind_moves f (s, ok a) lift i q k = (k a (q a refl)).moves s i
  bind_moves f (s, err e) lift i q k = lift (drv.docs s) i

  -- A step that keeps the first condition, with the rest behind it.
  pub Moves-bind :
      {A B : Type 0} {Q : A → Type 0} {m : M drv.Db A} {f : A → M drv.Db B}
      → ((xs : List D) → I xs → J xs)
      → Ensures drv I m Q
      → ((a : A) → Q a → Moves drv I J (f a))
      → Moves drv I J (m >>= f)
  Moves-bind {m = m} {f = f} lift e k = record {
    moves = λ s i. bind_moves f (m s) lift (e.keeps s i) (e.answers s i) k;
  }

  pub Moves-keep :
      {A : Type 0} {Q : A → Type 0} {m : M drv.Db A}
      → ((xs : List D) → I xs → J xs)
      → Ensures drv J m Q
      → Moves drv I J m
  Moves-keep lift e = record { moves = λ s i. e.keeps s (lift (drv.docs s) i) }

  -- The last step that needs the first condition.
  pub Moves-first :
      {A : Type 0} {Q : A → Type 0} {m : M drv.Db A}
      → ((xs : List D) → I xs → J xs)
      → Ensures drv I m Q
      → Moves drv I J m
  Moves-first {m = m} lift e = record { moves = λ s i. lift (drv.docs (m s).0) (e.keeps s i) }

  -- A move with a rest that keeps the second condition.
  pub Moves-then :
      {A B : Type 0} {R : B → Type 0} {m : M drv.Db A} {f : A → M drv.Db B}
      → Moves drv I J m
      → ((a : A) → Ensures drv J (f a) R)
      → Moves drv I J (m >>= f)
  Moves-then {m = m} {f = f} e k = record { moves = λ s i. rest_keeps f (m s) (e.moves s i) k }

  pub Moves-if :
      {A : Type 0} (b : Bool) {m n : M drv.Db A}
      → (b ≡ true → Moves drv I J m)
      → (b ≡ false → Moves drv I J n)
      → Moves drv I J (if b then m else n)
  Moves-if true k l = k refl
  Moves-if false k l = l refl

module _ {D : Type 0} (drv : Driver D) (law : IsDriver drv) (doc : Doc D)
    (I J : List D → Type 0) where
  pub Moves-delete_id :
      (id : ℕ)
      → ((xs : List D) → I xs → J xs)
      → ((xs : List D) → I xs → J (delete_list (has_id doc id) xs))
      → Moves drv I J (delete drv doc false id)
  unfolding delete
  Moves-delete_id id lift step = record {
    moves = λ s i.
        written_keeps drv law doc (record { transaction = none }) J (drv.docs s) _ _
          (λ n. pure (n == 1)) (drv.delete_one (has_id doc id) s) (λ n s. refl)
          (law.delete_one_lem (has_id doc id) s) (lift (drv.docs s) i) (step (drv.docs s) i);
  }

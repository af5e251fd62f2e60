-- ===== src/Coal/Manager/Inserts.antt =====
-- Insert and InsertAll: what is stored, and the rule for an invariant.
use mathlib.Core.Path.{subst}
use fire.Base.{
  ℕ_eq, String_eq, Result, ok, err, bind, ℕ, ◌≡◌, sym, ap, ◌∙◌, inl, inr, List, [], ◌∷◌, ◌++◌,
  append-nil,
}
use fire.Coal.Driver.{Driver, IsDriver, Inserted, obs}
use fire.Coal.Triples.{Ensures}
use fire.Coal.Manager.Defs.{Doc, clean_doc, ensure_id, validate_all}
use fire.Coal.Manager.Mutations.{insert_all}

module _ {D : Type 0} (drv : Driver D) (law : IsDriver drv) (doc : Doc D) where
  inserted_one :
      (Inv : List D → Type 0) (before : List D) (m : D) (w : drv.Db × Result (Unit {0}))
      → Inserted before (m ∷ []) (obs drv w)
      → Inv before
      → Inv (before ++ m ∷ [])
      → Inv (drv.docs w.0)
  inserted_one Inv before m (s, r) (inl (e, _)) i j = subst Inv (sym e) j
  inserted_one Inv before m (s, r) (inr ([], zs, x, _, e, _)) i j =
      subst Inv (sym (e ∙ append-nil before)) i
  inserted_one Inv before m (s, r) (inr (y ∷ [], zs, x, h, e, _)) i j =
      let same : y ≡ m = cc in subst Inv (sym (e ∙ ap (λ z. before ++ z ∷ []) same)) j
  inserted_one Inv before m (s, r) (inr (y ∷ z ∷ ys, zs, x, h, e, _)) i j = cc

  after_validation :
      (Inv : List D → Type 0) (m : D) (now : ℕ) (v : Result (Unit {0})) (s : drv.Db)
      → Inv (drv.docs s)
      → Inv (drv.docs s ++ clean_doc doc now m ∷ [])
      → Inv (drv.docs (bind (s, v) (λ _. drv.insert_many (clean_doc doc now m ∷ []))).0)
  after_validation Inv m now (ok _) s i j =
      inserted_one Inv (drv.docs s) (clean_doc doc now m)
        (drv.insert_many (clean_doc doc now m ∷ []) s)
        (law.insert_many_lem (clean_doc doc now m ∷ []) s) i j
  after_validation Inv m now (err e) s i j = i

  pub ensures_insert :
      (Inv : List D → Type 0) (m : D) (flags : List ℕ) (now : ℕ) (fresh : ℕ → ℕ)
      → ((xs : List D) → Inv xs → Inv (xs ++ clean_doc doc now (ensure_id doc (fresh 0) m) ∷ []))
      → Ensures drv Inv (insert_all drv doc (m ∷ []) flags now fresh) (λ _. Unit {0})
  unfolding insert_all
  ensures_insert Inv m flags now fresh step = record {
    keeps = λ s i.
        after_validation Inv (ensure_id doc (fresh 0) m) now
          (validate_all drv doc flags (ensure_id doc (fresh 0) m ∷ [])) s i (step (drv.docs s) i);
    answers = λ s i a h. tt;
  }

-- ===== src/Coal/Manager/Ids.antt =====
-- Rules for the manager's operations on a document with an ID: Find, Update and Delete, without
-- locks and flags.
use mathlib.Core.Path.{subst}
use fire.Base.{
  ℕ_eq, String_eq, ◌==◌, ℤ_eq, Result, ok, err, M, bind, pure, ℕ, ◌≡◌, refl, sym, inl, inr, false,
  Option, none, some, List, [], arith,
}
use fire.Base.{first, update_first as update_list, delete_first as delete_list}
use fire.Coal.Driver.{Driver, IsDriver, Wrote, obs}
use fire.Coal.Triples.{Ensures}
use fire.Coal.Manager.Defs.{Context, Doc, has_id, find_id, updated}
use fire.Coal.Manager.Defs
use fire.Coal.Manager.Mutations.{update, delete}
use fire.Coal.Manager.Rules.{loaded_keeps, loaded_answer}

module _ {D : Type 0} (drv : Driver D) (law : IsDriver drv) (doc : Doc D) (ctx : Context)
    (Inv : List D → Type 0) where
  pub ensures_find_id :
      (id now : ℕ) (Q : Option D → Type 0)
      → ((xs : List D) → Inv xs → first (has_id doc id) xs ≡ none → Q none)
      → ((xs : List D) (d : D)
          → Inv xs
          → first (has_id doc id) xs ≡ some d
          → Q (some (Defs.clean_doc doc now d)))
      → Ensures drv Inv (find_id drv doc ctx id false [] now) Q
  unfolding find_id
  ensures_find_id id now Q miss hit = record {
    keeps = λ s i.
        subst Inv
          (sym (
            loaded_keeps drv law doc Inv now (drv.docs s) (first (has_id doc id) (drv.docs s))
              (drv.find_one (has_id doc id) [] 0 s) (law.find_one_lem (has_id doc id) s)))
          i;
    answers = λ s i.
        loaded_answer drv law doc Inv now (drv.docs s) (first (has_id doc id) (drv.docs s))
          (drv.find_one (has_id doc id) [] 0 s) Q (law.find_one_lem (has_id doc id) s)
          (miss (drv.docs s) i) (λ d. hit (drv.docs s) d i);
  }

  -- A write whose answer is worked on by code that leaves the collection alone.
  pub written_keeps :
      {A B : Type 0} (before after : List D) (a : A) (k : A → M drv.Db B) (w : drv.Db × Result A)
      → ((a : A) (s : drv.Db) → (k a s).0 ≡ s)
      → Wrote before after a (obs drv w)
      → Inv before
      → Inv after
      → Inv (drv.docs (bind w k).0)
  written_keeps before after a k (s, ok o) still (inl (e, _)) i j =
      rw (still o s) (subst Inv (sym e) j)
  written_keeps before after a k (s, ok o) still (inr (x, _, h)) i j = cc
  written_keeps before after a k (s, err y) still (inl (_, h)) i j = cc
  written_keeps before after a k (s, err y) still (inr (x, inl e, _)) i j = subst Inv (sym e) i
  written_keeps before after a k (s, err y) still (inr (x, inr e, _)) i j = subst Inv (sym e) j

  updated_still : (now : ℕ) (o : Option D) (s : drv.Db) → (updated doc now [] o s).0 ≡ s
  updated_still now none s = refl
  updated_still now (some d) s = ground arith

  pub ensures_update_id :
      (id : ℕ) (f : D → D) (now : ℕ)
      → ((xs : List D) → Inv xs → Inv (update_list (has_id doc id) f xs))
      → Ensures drv Inv (update drv doc ctx id (ok f) false [] now) (λ _. Unit {0})
  unfolding update
  ensures_update_id id f now step = record {
    keeps = λ s i.
        written_keeps (drv.docs s) _ _ (updated doc now [])
          (drv.find_one_and_update (has_id doc id) f [] s) (updated_still now)
          (law.update_lem (has_id doc id) f s) i (step (drv.docs s) i);
    answers = λ s i a h. tt;
  }

  pub ensures_delete_id :
      (id : ℕ)
      → ((xs : List D) → Inv xs → Inv (delete_list (has_id doc id) xs))
      → Ensures drv Inv (delete drv doc false id) (λ _. Unit {0})
  unfolding delete
  ensures_delete_id id step = record {
    keeps = λ s i.
        written_keeps (drv.docs s) _ _ (λ n. pure (n == 1)) (drv.delete_one (has_id doc id) s)
          (λ n s. refl) (law.delete_one_lem (has_id doc id) s) i (step (drv.docs s) i);
    answers = λ s i a h. tt;
  }

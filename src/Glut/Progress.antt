-- ===== src/Glut/Progress.antt =====
-- glut/locks.go, SetLocked by the holder of a lock, where the driver does not fail.
use text.Mathlib.TextEquality.{eq_iff}
use mathlib.Core.Option
use mathlib.Core.Bool.{false≢true}
use fire.Base.{
  ℕ_eq, String_eq, Option-cases, is_some, ==_ne, Result, ok, err, bind, pure, ℕ, ◌<◌, String, ◌≡◌,
  refl, sym, ap, ◌∙◌, ◌≢◌, inl, inr, Bool, true, false, Option, none, some, List, [], arith,
}
use fire.Base.{first, first_passes}
use fire.Coal.Driver.{Driver, IsDriver, obs, Wrote}
use fire.Coal.Manager.Defs.{Context, clean_doc, updated}
use fire.Coal.Manager.Mutations.{update_first}
use fire.Glut.Model.{Model, model_doc, validate, zero_pointer}
use fire.Glut.Values.{Kind, Handle, get_key, get_deadline}
use fire.Glut.Basic.{write}
use fire.Glut.Locks.{holds, set_locked}
use fire.Glut.Held.{Held, Held-holds}

module _ {V Data : Type 0} (drv : Driver (Model Data)) (law : IsDriver drv)
    (kind : Kind V Data) where
  stored :
      (now : ℕ) (m : Model Data) (w : drv.Db × Result (Option (Model Data)))
      → w.1 ≡ ok (some m)
      → validate (clean_doc model_doc now m) ≡ none
      → (bind (bind w (updated model_doc now [])) (λ found. pure (is_some found))).1 ≡ ok true
  stored now m (s, ok none) h v = cc
  stored now m (s, ok (some m')) h v = let same : m' ≡ m = cc in rw (same, v) refl
  stored now m (s, err e) h v = cc

  found :
      (p : Model Data → Bool) (f : Model Data → Model Data) (docs docs' : List (Model Data))
      (w : drv.Db × Result (Option (Model Data))) (o : Option (Model Data)) (d : Model Data)
      → w.1 ≡ ok o
      → first p docs ≡ some d
      → Wrote docs docs' (Option.map f (first p docs)) (obs drv w)
      → w.1 ≡ ok (some (f d))
  found p f docs docs' (s, r) o d answered hit (inl (_, h)) = h ∙ rw hit refl
  found p f docs docs' (s, r) o d answered hit (inr (e, _, h)) = cc

  written_valid :
      (k : String) (tok now then' : ℕ) (content : Data) (deadline : Option ℕ) (m : Model Data)
      → k ≢ ""
      → tok ≢ 0
      → zero_pointer deadline ≡ false
      → holds k tok then' m ≡ true
      → validate (clean_doc model_doc now (write content deadline m)) ≡ none
  written_valid k tok now then' content deadline m key token d h =
      ground (arith, eq_iff m.key k, eq_iff m.key "")

  -- SetLocked by the holder before the lock's time answers that the value was set, where the
  -- driver's update does not fail, the value is valid, its key and deadline can be determined and
  -- it can be encoded, the deadline is not the zero time, the key is not empty and the token is
  -- not zero.
  pub set_locked_lem :
      (ctx : Context) (k : String) (tok u : ℕ) (C : Data → Type 0) (h : Handle V) (now then' : ℕ)
      (content : Data) (deadline : Option ℕ) (s : drv.Db) (o : Option (Model Data))
      → (drv.find_one_and_update (holds k h.token then') (write content deadline) [] s).1 ≡ ok o
      → Held k tok u C (drv.docs s)
      → get_key kind h.value ≡ ok k
      → get_deadline kind now h.value ≡ ok deadline
      → kind.validate h.value ≡ none
      → kind.marshal h.value ≡ ok content
      → k ≢ ""
      → h.token ≡ tok
      → tok ≢ 0
      → zero_pointer deadline ≡ false
      → then' < u
      → (set_locked drv kind ctx h now then' s).1 ≡ ok true
  unfolding set_locked update_first
  set_locked_lem ctx k tok u C h now then' content deadline s o answers held e d v m key t nz z lt =
      rw (e, d, ==_ne h.token 0 (λ q. nz (sym t ∙ q)), v, m)
        (elim (Option-cases (first (holds k h.token then') (drv.docs s))) [
          | inl n ↦ absurd (
              false≢true
                (sym (ap is_some n) ∙ (rw t (Held-holds k tok u C then' (drv.docs s) held lt))))
          | inr (x, hit) ↦
              stored then' (write content deadline x)
                (drv.find_one_and_update (holds k h.token then') (write content deadline) [] s)
                (found (holds k h.token then') (write content deadline) (drv.docs s) _ _ o x answers
                  hit (law.update_lem (holds k h.token then') (write content deadline) s))
                (written_valid k h.token then' then' content deadline x key (λ q. nz (sym t ∙ q)) z
                  (first_passes (holds k h.token then') (drv.docs s) hit))
        ])

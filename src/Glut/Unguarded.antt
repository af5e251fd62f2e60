-- ===== src/Glut/Unguarded.antt =====
-- glut/basic.go, Set and Delete, which ignore locks: what they leave of a lock.
use fire.Base.{
  ℕ_eq, String_eq, ℤ_eq, Option-cases, is_some, ==_sound, ok, check, ℕ, String, ◌≡◌, refl, sym, ap,
  ◌∙◌, inl, inr, Option, List,
}
use fire.Base.{first}
use fire.Coal.Driver.{Driver, IsDriver, upsert_first}
use fire.Coal.Triples.{ensures_bind, ensures_lift, ensures_pure}
use fire.Coal.Manager.Defs.{Context}
use fire.Coal.Manager.Rules.{ensures_upsert, ensures_delete_first}
use fire.Glut.Model.{Model, model_doc}
use fire.Glut.Values.{Kind, Handle, get_key, get_deadline}
use fire.Glut.Basic.{no_sort, has_key, write, set, delete}
use fire.Glut.Held.{Held, Held-append, Held-ne, Held-update, Held-delete}
use fire.Glut.Exclusion.{Safe, Keyed}

module _ {V Data : Type 0} (drv : Driver (Model Data)) (law : IsDriver drv) (kind : Kind V Data)
    (k : String) (tok u : ℕ) (C : Data → Type 0) where
  -- An upsert of another key, or of any data for the key of the lock.
  upsert-Held :
      (key : String) (content : Data) (deadline : Option ℕ) (seed : Model Data)
      (xs : List (Model Data))
      → (key ≡ k → C content)
      → seed.key ≡ key
      → Held k tok u C xs
      → Held k tok u C (upsert_first (has_key key) (write content deadline) seed xs)
  upsert-Held key content deadline seed xs free e i = elim (Option-cases (first (has_key key) xs)) [
    | inl n ↦
        rw (upsert_first, n)
          (Held-append k tok u C seed xs (λ j. Held-ne k tok u C key xs i n (sym e ∙ j)) i)
    | inr (m, hit) ↦
        rw (upsert_first, hit)
          (Held-update k tok u C (has_key key) (write content deadline) xs
            (λ d own t j. let (a, b, c) = own j in (a, b, free (sym (==_sound d.key key t) ∙ j)))
            (λ d. refl) i)
  ]

  pub set-Safe :
      (ctx : Context) (null_data : Data) (h : Handle V) (now fresh token : ℕ)
      → (Keyed drv law kind k tok u C h → (x : Data) → C x)
      → Safe drv law kind k tok u C (set drv kind ctx null_data h now fresh token) (λ _. Unit {0})
  unfolding set
  set-Safe ctx null_data h now fresh token free =
      ensures_bind (ensures_lift (get_key kind h.value)) λ key e.
        ensures_bind (ensures_lift (get_deadline kind now h.value)) λ deadline _.
          ensures_bind (ensures_lift (check (kind.validate h.value))) λ _ _.
            ensures_bind (ensures_lift (kind.marshal h.value)) λ content _.
              ensures_upsert drv law model_doc (Held k tok u C) ctx no_sort (has_key key)
                (write content deadline) _ now token
                (λ xs i.
                  upsert-Held key content deadline _ xs (λ j. free (e ∙ ap ok j) content) refl i)

  pub delete-Safe :
      (h : Handle V)
      → ¬ Keyed drv law kind k tok u C h
      → Safe drv law kind k tok u C (delete drv kind h) (λ _. Unit {0})
  unfolding delete
  delete-Safe h other = ensures_bind (ensures_lift (get_key kind h.value)) λ key e.
      ensures_bind {Q = λ _. Unit {0}}
        (ensures_delete_first drv law model_doc (Held k tok u C) no_sort (has_key key)
          (λ _. Unit {0})
          (λ xs i.
            Held-delete k tok u C (has_key key) xs
              (λ m own t j. other (e ∙ ap ok (sym (==_sound m.key key t) ∙ j))) i)
          (λ xs i. tt))
        λ o _. ensures_pure _ (is_some o) tt

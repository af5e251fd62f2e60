-- ===== src/Coal/Manager/Writes.antt =====
-- What the writing operations do to the collection, over a driver with its documented behaviour.
use mathlib.Core.Option
use fire.Base.{
  ℕ_eq, String_eq, ◌==◌, Option-cases, is_some, first, update_first, Error, Result, ok, err, check,
  bind, pure, ℕ, String, ◌≡◌, refl, sym, ◌∙◌, ◌⊎◌, inl, inr, Bool, true, false, not, Option, none,
  some, List, [], ◌∷◌, ◌++◌, arith, update_first-none, update_first_id,
}
use fire.Coal.Driver.{Driver, IsDriver, Wrote, count_if, obs}
use fire.Coal.Manager.Defs.{
  Context, Doc, no_validation, has, merge, has_transaction, clean_doc, ensure_id, validated,
  validate_all, has_id,
}
use fire.Coal.Manager.Mutations
use fire.Coal.Manager.Defs
use fire.Coal.Manager.Mutations.{ensure_ids}

module _ {D : Type 0} (drv : Driver D) (law : IsDriver drv) (doc : Doc D) where
  -- The three outcomes of an update of the first match: no match, the match updated and the new
  -- document answered, or an error behind an update that was applied or not.
  abbrev pub Updated : (D → Bool) → (D → D) → ℕ → List D → List D × Result (Option D) → Type 0
  Updated p f now before w =
      ((first p before ≡ none) × (w.0 ≡ before) × (w.1 ≡ ok none))
      ⊎ ((d : D) × (first p before ≡ some d)
          × (w.0 ≡ update_first p f before)
          × (w.1 ≡ ok (some (clean_doc doc now (f d))))
          × (doc.validate (clean_doc doc now (f d)) ≡ none))
      ⊎ ((e : Error) × ((w.0 ≡ before) ⊎ (w.0 ≡ update_first p f before)) × (w.1 ≡ err e))

  finish :
      (p : D → Bool) (f : D → D) (now : ℕ) (before : List D) (s : drv.Db) (o : Option D)
      → drv.docs s ≡ update_first p f before
      → o ≡ first p before
      → Updated p f now before (drv.docs s, (Defs.updated doc now [] (Option.map f o) s).1)
  finish p f now before s none e h = inl (sym h, e ∙ update_first-none p f before (sym h), refl)
  finish p f now before s (some d) e h =
      elim (Option-cases (doc.validate (clean_doc doc now (f d)))) [
        | inl v ↦ rw v (inr (inl (d, sym h, e, refl, v)))
        | inr (x, v) ↦ rw v (inr (inr (x, inr e, refl)))
      ]

  updated_keeps :
      (now : ℕ) (flags : List ℕ) (o : Option D) (s : drv.Db)
      → (Defs.updated doc now flags o s).0 ≡ s
  updated_keeps now flags none s = refl
  updated_keeps now flags (some d) s = ground arith

  after_update :
      (p : D → Bool) (f : D → D) (now : ℕ) (before : List D) (w : drv.Db × Result (Option D))
      → Wrote before (update_first p f before) (Option.map f (first p before)) (obs drv w)
      → Updated p f now before (obs drv (bind w (Defs.updated doc now [])))
  after_update p f now before (s, ok o) (inl (e, h)) =
      let same : o ≡ Option.map f (first p before) = cc in
      rw (updated_keeps now [] o s, same) (finish p f now before s (first p before) e refl)
  after_update p f now before (s, ok o) (inr (x, _, h)) = cc
  after_update p f now before (s, err y) (inl (_, h)) = cc
  after_update p f now before (s, err y) (inr (x, e, h)) = inr (inr (y, e, refl))

  -- The outcome of UpdateFirst without a lock, a sort or flags: no match and nothing changed, the
  -- first match updated and answered as a valid document, or an error behind an update that was
  -- applied or not.
  pub update_first-Updated :
      (trans : List String → Result (List String)) (ctx : Context) (p : D → Bool) (f : D → D)
      (now : ℕ) (s : drv.Db)
      → Updated p f now
          (drv.docs s)
          (obs drv (Mutations.update_first drv doc trans ctx (ok p) (ok f) [] false [] now s))
  unfolding Mutations.update_first
  update_first-Updated trans ctx p f now s =
      after_update p f now (drv.docs s) (drv.find_one_and_update p f [] s) (law.update_lem p f s)

  -- What InsertIfMissing stores.
  abbrev pub placed : (D → D) → D → ℕ → ℕ → D
  placed merged model now fresh = merged (clean_doc doc now (ensure_id doc fresh model))

  -- The three outcomes of InsertIfMissing: a match and no change, no match and the valid document
  -- appended, or an error behind an insert that was applied or not.
  abbrev pub Placed : (D → Bool) → (D → D) → D → ℕ → ℕ → List D → List D × Result Bool → Type 0
  Placed p merged model now fresh before w =
      ((d : D) × (first p before ≡ some d) × (w.0 ≡ before) × (w.1 ≡ ok false))
      ⊎ ((first p before ≡ none)
          × (w.0 ≡ before ++ placed merged model now fresh ∷ [])
          × (doc.validate (ensure_id doc fresh model) ≡ none)
          × (w.1 ≡ ok true))
      ⊎ ((e : Error) × ((w.0 ≡ before)
            ⊎ ((first p before ≡ none) × (w.0 ≡ before ++ placed merged model now fresh ∷ [])))
          × (w.1 ≡ err e))

  after_upsert :
      (p : D → Bool) (merged : D → D) (model : D) (now fresh : ℕ) (before : List D)
      (w : drv.Db × Result ℕ) (o : Option D)
      → doc.validate (ensure_id doc fresh model) ≡ none
      → first p before ≡ o
      → Wrote before
          (elim o [
            | none ↦ before ++ placed merged model now fresh ∷ []
            | some _ ↦ update_first p (λ d. d) before
          ])
          (count_if (not (is_some o)))
          (obs drv w)
      → Placed p merged model now fresh before (obs drv (bind w (λ n. pure (n == 1))))
  after_upsert p merged model now fresh before (s, ok n) none v h (inl (e, k)) =
      let one : n ≡ 1 = cc in rw one (inr (inl (h, e, v, refl)))
  after_upsert p merged model now fresh before (s, ok n) (some d) v h (inl (e, k)) =
      let nothing : n ≡ 0 = cc in rw nothing (inl (d, h, e ∙ update_first_id p before, refl))
  after_upsert p merged model now fresh before (s, ok n) o v h (inr (x, e, k)) = cc
  after_upsert p merged model now fresh before (s, err y) o v h (inl (e, k)) = cc
  after_upsert p merged model now fresh before (s, err y) o v h (inr (x, inl e, k)) =
      inr (inr (y, inl e, refl))
  after_upsert p merged model now fresh before (s, err y) none v h (inr (x, inr e, k)) =
      inr (inr (y, inr (h, e), refl))
  after_upsert p merged model now fresh before (s, err y) (some d) v h (inr (x, inr e, k)) =
      inr (inr (y, inl (e ∙ update_first_id p before), refl))

  validate_then :
      (p : D → Bool) (merged : D → D) (model : D) (now fresh : ℕ) (s : drv.Db) (v : Option Error)
      → doc.validate (ensure_id doc fresh model) ≡ v
      → Placed p merged model now fresh (drv.docs s) (
          obs drv (
            bind
              (s, check v)
              (λ _ s.
                bind
                  (drv.update_one_upsert p (λ d. d) (placed merged model now fresh) s)
                  (λ n. pure (n == 1)))))
  validate_then p merged model now fresh s none v =
      after_upsert p merged model now fresh (drv.docs s)
        (drv.update_one_upsert p (λ d. d) (placed merged model now fresh) s) (first p (drv.docs s))
        v refl (law.update_one_upsert_lem p (λ d. d) (placed merged model now fresh) s)
  validate_then p merged model now fresh s (some x) v = inr (inr (x, inl refl, refl))

  -- The outcome of InsertIfMissing without a lock or flags: a match and no change, no match and the
  -- cleaned document of the valid model appended, with the filter's equations merged into it, or an
  -- error behind an insert that was applied or not.
  pub insert_if_missing-Placed :
      (ctx : Context) (p : D → Bool) (merged : D → D) (model : D) (now fresh : ℕ) (s : drv.Db)
      → Placed p merged model now fresh (drv.docs s) (
          obs drv
            (Mutations.insert_if_missing drv doc ctx (ok p) merged model false [] now fresh s))
  unfolding Mutations.insert_if_missing
  insert_if_missing-Placed ctx p merged model now fresh s =
      validate_then p merged model now fresh s (doc.validate (ensure_id doc fresh model)) refl

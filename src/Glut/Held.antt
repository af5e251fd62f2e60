-- ===== src/Glut/Held.antt =====
-- A lock that is held: what the collection then holds for the key, and what keeps it so.
use mathlib.Core.Path.{subst}
use fire.Base.{
  ℕ_eq, String_eq, ◌==◌, Bool-cases, is_some, ==_sound, ==_ne, All, first, update_first,
  delete_first, ℕ, ◌≤◌, ◌<◌, String, ◌≡◌, ap, ◌∙◌, ◌≢◌, inl, inr, Bool, true, none, some, List, [],
  ◌∷◌, ◌++◌, arith, All-update_first, All-delete_first, first-update_first, first-delete_first,
  first-append, All-append,
}
use text.Mathlib.TextEquality.{eq_iff}
use fire.Glut.Model.{Model}
use fire.Glut.Basic.{has_key}
use fire.Glut.Locks.{lockable, locked_by, holds}

module _ {Data : Type 0} (k : String) (tok u : ℕ) (C : Data → Type 0) where
  -- Every document of the key is locked under the token until the time, and its data is as described.
  abbrev pub Owned : Model Data → Type 0
  Owned m = m.key ≡ k → (m.token ≡ some tok) × (m.locked ≡ some u) × C m.content

  pub record Held (docs : List (Model Data)) : Type 0 where
    pub owned : All Owned docs
    pub present : is_some (first (has_key k) docs) ≡ true

  pub Held-update :
      (p : Model Data → Bool) (f : Model Data → Model Data) (docs : List (Model Data))
      → ((m : Model Data) → Owned m → p m ≡ true → Owned (f m))
      → ((m : Model Data) → (f m).key ≡ m.key)
      → Held docs
      → Held (update_first p f docs)
  Held-update p f docs keep key h = record {
    owned = All-update_first Owned p f docs keep h.owned;
    present = first-update_first (has_key k) p f docs (λ m. ap (λ j. j == k) (key m)) ∙ h.present;
  }

  pub Held-delete :
      (p : Model Data → Bool) (docs : List (Model Data))
      → ((m : Model Data) → Owned m → p m ≡ true → m.key ≢ k)
      → Held docs
      → Held (delete_first p docs)
  Held-delete p docs other h = record {
    owned = All-delete_first Owned p docs h.owned;
    present =
        ap is_some (
          first-delete_first Owned (has_key k) p docs (λ m own t. ==_ne m.key k (other m own t))
            h.owned)
        ∙ h.present;
  }

  pub Held-append :
      (m : Model Data) (docs : List (Model Data)) → m.key ≢ k → Held docs → Held (docs ++ m ∷ [])
  Held-append m docs ne h = record {
    owned = All-append Owned docs (m ∷ []) h.owned ((λ e. absurd (ne e)), tt);
    present = first-append (has_key k) docs (m ∷ []) h.present;
  }

  -- A key with no document is not the key that is held.
  pub Held-ne :
      (key : String) (docs : List (Model Data))
      → Held docs
      → first (has_key key) docs ≡ none
      → key ≢ k
  Held-ne key docs h n e =
      let clash : first (has_key k) docs ≡ none = subst (λ j. first (has_key j) docs ≡ none) e n in
      ground (arith, h.present)

  pub holds-Owned :
      (now : ℕ) (m : Model Data)
      → Owned m
      → (m.key == k) ≡ true
      → now < u
      → holds k tok now m ≡ true
  holds-Owned now m own e lt = let o = own (==_sound m.key k e) in rw (e, o.0, o.1) (ground arith)

  first-holds :
      (now : ℕ) (docs : List (Model Data))
      → All Owned docs
      → is_some (first (has_key k) docs) ≡ true
      → now < u
      → is_some (first (holds k tok now) docs) ≡ true
  first-holds now [] a p lt = cc
  first-holds now (m ∷ docs) a p lt = elim (Bool-cases (m.key == k)) [
    | inl e ↦ rw (holds-Owned now m a.0 e lt)
    | inr e ↦ rw e (first-holds now docs a.1 (rw e at p) lt)
  ]

  -- The holder finds its document.
  pub Held-holds :
      (now : ℕ) (docs : List (Model Data))
      → Held docs
      → now < u
      → is_some (first (holds k tok now) docs) ≡ true
  Held-holds now docs h lt = first-holds now docs h.owned h.present lt

  -- A filter of another token, or a free lock, does not match a document of the key.
  pub holds_apart :
      (key : String) (token now : ℕ) (m : Model Data)
      → (key ≡ k → token ≢ tok)
      → Owned m
      → holds key token now m ≡ true
      → m.key ≢ k
  holds_apart key token now m rival own t e = ground (arith, eq_iff m.key key, own e, rival)

  pub lockable_apart :
      (key : String) (token now : ℕ) (m : Model Data)
      → (key ≡ k → token ≢ tok)
      → now ≤ u
      → Owned m
      → lockable key token now m ≡ true
      → m.key ≢ k
  lockable_apart key token now m rival le own t e = ground (arith, eq_iff m.key key, own e, rival)

  pub locked_by_apart :
      (key : String) (token : ℕ) (m : Model Data)
      → (key ≡ k → token ≢ tok)
      → Owned m
      → locked_by key token m ≡ true
      → m.key ≢ k
  locked_by_apart key token m rival own t e = ground (arith, eq_iff m.key key, own e, rival)

-- What a filter says of the key.
module _ {Data : Type 0} (key : String) (token now : ℕ) (m : Model Data) where
  pub holds_key : holds key token now m ≡ true → m.key ≡ key
  holds_key t = ground (arith, eq_iff m.key key)

  pub lockable_key : lockable key token now m ≡ true → m.key ≡ key
  lockable_key t = ground (arith, eq_iff m.key key)

pub locked_by_key :
    {Data : Type 0} (key : String) (token : ℕ) (m : Model Data)
    → locked_by key token m ≡ true
    → m.key ≡ key
locked_by_key key token m t = ground (arith, eq_iff m.key key)

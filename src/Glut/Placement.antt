-- ===== src/Glut/Placement.antt =====
-- glut/locks.go, Lock: the document that it inserts or updates.
use mathlib.Core.Path.{subst}
use fire.Base.{first, update_first, All, All-map, All-append, first-update_first, update_first-sole}
use fire.Base.{
  ℕ_eq, String_eq, ◌==◌, Bool-cases, is_some, ==_self, length, All, select, Result, ok, ℕ, ◌≤◌,
  String, ◌≡◌, refl, sym, ap, ◌∙◌, inl, inr, Bool, true, false, Option, none, some, List, [], ◌∷◌,
  ◌++◌, arith,
}
use fire.Coal.Driver.{Driver, IsDriver, obs}
use fire.Coal.Manager.Writes.{Updated, Placed, placed}
use fire.Glut.Model.{Model, model_doc}
use fire.Glut.Basic.{has_key}
use fire.Glut.Locks.{lockable, acquire}
use fire.Glut.Held.{Owned, Held}

module _ {Data : Type 0} where
  -- At most one document of the key.
  abbrev pub Sole : String → List (Model Data) → Type 0
  Sole key docs = length (select (has_key key) docs) ≤ 1

  -- The key is locked under the token until the time, whatever its data.
  abbrev pub Locked : String → ℕ → ℕ → List (Model Data) → Type 0
  Locked key token u docs = Held key token u (λ _. Unit {0}) docs

  none-Owned :
      (key : String) (token u : ℕ) (docs : List (Model Data))
      → first (has_key key) docs ≡ none
      → All (Owned key token u (λ _. Unit {0})) docs
  none-Owned key token u [] n = tt
  none-Owned key token u (x ∷ docs) n = elim (Bool-cases (x.key == key)) [
    | inl t ↦ let found : some x ≡ none = rw t at n in cc
    | inr f ↦ (
      (λ e. let t : (x.key == key) ≡ true = rw e (==_self key) in cc),
      none-Owned key token u docs (rw f at n),
    )
  ]

  last_found :
      (key : String) (m : Model Data) (docs : List (Model Data))
      → (m.key == key) ≡ true
      → is_some (first (has_key key) (docs ++ m ∷ [])) ≡ true
  last_found key m [] t = rw t
  last_found key m (x ∷ docs) t = elim (Bool-cases (x.key == key)) [
    | inl h ↦ rw h
    | inr h ↦ rw h (last_found key m docs t)
  ]

  -- The document that Lock inserts for a key that has none.
  pub new_Locked :
      (key : String) (token u : ℕ) (m : Model Data) (docs : List (Model Data))
      → m.key ≡ key
      → m.token ≡ some token
      → m.locked ≡ some u
      → first (has_key key) docs ≡ none
      → Locked key token u (docs ++ m ∷ [])
  new_Locked key token u m docs k t l n = record {
    owned =
        All-append (Owned key token u (λ _. Unit {0})) docs (m ∷ []) (none-Owned key token u docs n)
          ((λ e. (t, l, tt)), tt);
    present = last_found key m docs (rw k (==_self key));
  }

  -- The document that Lock updates.
  pub update_Locked :
      (key : String) (token now u : ℕ) (deadline : Option ℕ) (d : Model Data)
      (docs : List (Model Data))
      → Sole key docs
      → first (lockable key token now) docs ≡ some d
      → Locked key token u (update_first (lockable key token now) (acquire deadline u token) docs)
  update_Locked key token now u deadline d docs sole hit = record {
    owned =
        All-map (λ x. has_key key x ≡ true → x ≡ acquire deadline u token d)
          (Owned key token u (λ _. Unit {0}))
          (update_first (lockable key token now) (acquire deadline u token) docs)
          (λ x k e.
            let same = k (rw e (==_self key)) in
            (ap (λ z. z.token) same, ap (λ z. z.locked) same, tt))
          (update_first-sole (has_key key) (lockable key token now) (acquire deadline u token) docs
            d (λ x t. ground arith) sole hit);
    present =
        first-update_first (has_key key) (lockable key token now) (acquire deadline u token) docs
          (λ x. refl)
        ∙ found docs hit;
  }
    where
      found :
          (docs : List (Model Data))
          → first (lockable key token now) docs ≡ some d
          → is_some (first (has_key key) docs) ≡ true
      found [] h = cc
      found (x ∷ docs) h = elim (Bool-cases (x.key == key)) [
        | inl t ↦ rw t
        | inr f ↦ rw f (found docs (rw f at h))
      ]

module _ {Data : Type 0} (drv : Driver (Model Data)) (law : IsDriver drv) where
  -- The insert keeps the fields of the document.
  placed_lem :
      (m : Model Data) (now fresh : ℕ)
      → ((placed drv law model_doc (λ d. d) m now fresh).key ≡ m.key)
        × ((placed drv law model_doc (λ d. d) m now fresh).token ≡ m.token)
        × ((placed drv law model_doc (λ d. d) m now fresh).locked ≡ m.locked)
  placed_lem m now fresh = elim (Bool-cases (m.base.doc_id == 0)) [
    | inl t ↦ rw t (refl, refl, refl)
    | inr f ↦ rw f (refl, refl, refl)
  ]

  pub Placed-Locked :
      (key : String) (token u now fresh : ℕ) (m : Model Data) (docs : List (Model Data))
      (w : drv.Db × Result Bool)
      → m.key ≡ key
      → m.token ≡ some token
      → m.locked ≡ some u
      → Placed drv law model_doc (has_key key) (λ d. d) m now fresh docs (obs drv w)
      → (b : Bool) → w.1 ≡ ok b
      → (b ≡ true → Locked key token u (drv.docs w.0)) × (b ≡ false → drv.docs w.0 ≡ docs)
  Placed-Locked key token u now fresh m docs (s, r) k t l (inl (d, _, e, q)) b h =
      ((λ i. cc), λ _. e)
  Placed-Locked key token u now fresh m docs (s, r) k t l (inr (inl (n, e, _, q))) b h =
      let p = placed_lem m now fresh in
      (
        (λ _. subst (Locked key token u) (sym e) (
            new_Locked key token u (placed drv law model_doc (λ d. d) m now fresh) docs (p.0 ∙ k)
              (p.1 ∙ t) (p.2 ∙ l) n)),
        λ i. cc,
      )
  Placed-Locked key token u now fresh m docs (s, r) k t l (inr (inr (x, _, q))) b h = cc

  pub Updated-Locked :
      (key : String) (token now u : ℕ) (deadline : Option ℕ) (docs : List (Model Data))
      (w : drv.Db × Result (Option (Model Data)))
      → Sole key docs
      → Updated drv law model_doc
          (lockable key token now)
          (acquire deadline u token)
          now
          docs
          (obs drv w)
      → (o : Option (Model Data)) → w.1 ≡ ok o
      → is_some o ≡ true
      → Locked key token u (drv.docs w.0)
  Updated-Locked key token now u deadline docs (s, r) sole (inl (_, _, q)) o h i = cc
  Updated-Locked key token now u deadline docs (s, r) sole (inr (inl (d, hit, e, _, _))) o h i =
      subst (Locked key token u) (sym e) (update_Locked key token now u deadline d docs sole hit)
  Updated-Locked key token now u deadline docs (s, r) sole (inr (inr (x, _, q))) o h i = cc

-- ===== src/Blaze/Lifecycle.antt =====
-- The life of a file: the states that it may go through (the comment on State in blaze/models.go),
-- and collections of files that have moved on along it.
use mathlib.Core.Path.{subst}
use fire.Base.{
  ℕ_eq, String_eq, Bool-cases, ℤ_eq, All, ℕ, ◌≡◌, refl, sym, ◌∙◌, inl, inr, Bool, true, false, some,
  List, [], ◌∷◌, ◌++◌,
}
use fire.Base.{first, All}
use fire.Base.{update_first as update_list, delete_first as delete_list}
use fire.Blaze.Model.{State, uploading, uploaded, claimed, released, deleting, File}

-- A step forward, or to the end; a migration releases the new file, which was Never claimed. There
-- is no way from claimed to deleting but through released.
pub data Arrow : State → State → Type 0 where
  store : Arrow uploading uploaded
  claim : Arrow uploaded claimed
  release : Arrow claimed released
  swap : Arrow uploaded released
  drop_uploading : Arrow uploading deleting
  drop_uploaded : Arrow uploaded deleting
  drop_released : Arrow released deleting

pub data Reach (s : State) : State → Type 0 where
  here : Reach s s
  next : {t u : State} → Reach s t → Arrow t u → Reach s u

pub Reach-trans : {s t u : State} → Reach s t → Reach t u → Reach s u
Reach-trans r here = r
Reach-trans r (next q a) = next (Reach-trans r q) a

pub one : {s t : State} → Arrow s t → Reach s t
one a = next here a

-- No way back from the last two states, which a claim could take.
abbrev pub is_retired : State → Bool
is_retired released = true
is_retired deleting = true
is_retired _ = false

Arrow-retired : {s t : State} → Arrow s t → is_retired s ≡ true → is_retired t ≡ true
Arrow-retired store h = cc
Arrow-retired claim h = cc
Arrow-retired release h = refl
Arrow-retired swap h = refl
Arrow-retired drop_uploading h = refl
Arrow-retired drop_uploaded h = refl
Arrow-retired drop_released h = refl

pub Reach-retired : {s t : State} → Reach s t → is_retired s ≡ true → is_retired t ≡ true
Reach-retired here h = h
Reach-retired (next r a) h = Arrow-retired a (Reach-retired r h)

-- No file is gone.
abbrev pub Never : State → Type 0
Never _ = ⊥

module _ {Handle : Type 0} where
  -- The files in their order: each is kept with its ID, its state having moved on, or is gone, where
  -- its state allows that; new files stand behind them, with the IDs that are given.
  pub data Evolves (Ids : ℕ → Type 0) (Gone : State → Type 0)
      : List (File Handle) → List (File Handle) → Type 0 where
    same : Evolves Ids Gone [] []
    grow :
        {ys : List (File Handle)} (y : File Handle)
        → Ids y.base.doc_id
        → Evolves Ids Gone [] ys
        → Evolves Ids Gone [] (y ∷ ys)
    keep :
        {xs ys : List (File Handle)} (x y : File Handle)
        → y.base.doc_id ≡ x.base.doc_id
        → Reach x.state y.state
        → Evolves Ids Gone xs ys
        → Evolves Ids Gone (x ∷ xs) (y ∷ ys)
    drop :
        {xs ys : List (File Handle)} (x : File Handle)
        → Gone x.state
        → Evolves Ids Gone xs ys
        → Evolves Ids Gone (x ∷ xs) ys

  pub Evolves-refl :
      {Ids : ℕ → Type 0} {Gone : State → Type 0} (xs : List (File Handle)) → Evolves Ids Gone xs xs
  Evolves-refl [] = same
  Evolves-refl (x ∷ xs) = keep x x refl here (Evolves-refl xs)

  -- After which no more file is gone.
  pub Evolves-trans :
      {Ids : ℕ → Type 0} {Gone : State → Type 0} {xs ys zs : List (File Handle)}
      → Evolves Ids Gone xs ys
      → Evolves Ids Never ys zs
      → Evolves Ids Gone xs zs
  Evolves-trans same same = same
  Evolves-trans same (grow y i e) = grow y i (Evolves-trans same e)
  Evolves-trans {Ids = Ids} (grow _ i d) (keep y z j q e) =
      grow z (subst Ids (sym j) i) (Evolves-trans d e)
  Evolves-trans (grow _ i d) (drop y q e) = absurd q
  Evolves-trans (keep x _ i r d) (keep y z j q e) =
      keep x z (j ∙ i) (Reach-trans r q) (Evolves-trans d e)
  Evolves-trans (keep x _ i r d) (drop y q e) = absurd q
  Evolves-trans (drop x r d) e = drop x r (Evolves-trans d e)

  pub Evolves-append :
      {Ids : ℕ → Type 0} {Gone : State → Type 0} (xs : List (File Handle)) (y : File Handle)
      → Ids y.base.doc_id
      → Evolves Ids Gone xs (xs ++ y ∷ [])
  Evolves-append [] y e = grow y e same
  Evolves-append (x ∷ xs) y e = keep x x refl here (Evolves-append xs y e)

  pub Evolves-update :
      {Ids : ℕ → Type 0} {Gone : State → Type 0} (P : File Handle → Type 0) (p : File Handle → Bool)
      (f : File Handle → File Handle) (xs : List (File Handle))
      → ((d : File Handle)
          → P d
          → p d ≡ true
          → ((f d).base.doc_id ≡ d.base.doc_id) × Reach d.state (f d).state)
      → All P xs
      → Evolves Ids Gone xs (update_list p f xs)
  Evolves-update P p f [] k a = same
  Evolves-update P p f (x ∷ xs) k a = elim (Bool-cases (p x)) [
    | inl t ↦ rw t (let (i, r) = k x a.0 t in keep x (f x) i r (Evolves-refl xs))
    | inr t ↦ rw t (keep x x refl here (Evolves-update P p f xs k a.1))
  ]

  pub Evolves-delete :
      {Ids : ℕ → Type 0} {Gone : State → Type 0} (p : File Handle → Bool) (xs : List (File Handle))
      → ((d : File Handle) → first p xs ≡ some d → Gone d.state)
      → Evolves Ids Gone xs (delete_list p xs)
  Evolves-delete p [] k = same
  Evolves-delete p (x ∷ xs) k = elim (Bool-cases (p x)) [
    | inl t ↦ rw t (drop x (k x (rw t)) (Evolves-refl xs))
    | inr t ↦ rw t (keep x x refl here (Evolves-delete p xs (λ d h. k d (rw t h))))
  ]

-- ===== src/Blaze/Evolution.antt =====
-- Histories of blaze/bucket.go's operations move files along their life and no other way.
use mathlib.Core.Path.{subst}
use fire.Base.{
  ℕ_eq, String_eq, ℤ_eq, ==_sound, All, ℕ, String, ◌≡◌, refl, sym, ◌∙◌, ◌≢◌, Bool, true, List, [],
  ◌∷◌, ◌++◌, arith,
}
use fire.Base.{All}
use fire.Base.{update_first as update_list, All-append, All-update_first}
use fire.Coal.Manager.Defs.{has_id}
use fire.Blaze.Model.{
  State, uploading, uploaded, claimed, released, deleting, state_eq, Formats, File, file_doc,
}
use fire.Blaze.Files.{file_in, mark_uploaded, mark_claimed, mark_released, mark_deleting}
use fire.Blaze.Migration.{is_still, take_blob, release_blob}
use fire.Blaze.Lifecycle.{
  Reach, here, one, store, claim, release, swap, drop_uploading, drop_uploaded, drop_released,
  Evolves, Evolves-trans, Evolves-append, Evolves-update,
}

state_eq_sound : (s t : State) → state_eq s t ≡ true → s ≡ t
state_eq_sound s t e = ground arith

to_deleting : (s : State) → s ≢ claimed → Reach s deleting
to_deleting uploading n = one drop_uploading
to_deleting uploaded n = one drop_uploaded
to_deleting claimed n = absurd (n refl)
to_deleting released n = one drop_released
to_deleting deleting n = here

-- The IDs that a call may give to new files, and the collection before it.
module _ {Handle : Type 0} (ids : ℕ → Type 0) (before : List (File Handle)) where
  unfoldable pub From : List (File Handle) → Type 0
  From = Evolves ids (λ s. s ≡ deleting) before

  anything : (xs : List (File Handle)) → All (λ _. Unit {0}) xs
  anything [] = tt
  anything (x ∷ xs) = (tt, anything xs)

  -- An update that moves every file that it can match along an arrow.
  update-From :
      (p : File Handle → Bool) (f : File Handle → File Handle) (xs : List (File Handle))
      → ((d : File Handle)
          → p d ≡ true
          → ((f d).base.doc_id ≡ d.base.doc_id) × Reach d.state (f d).state)
      → From xs
      → From (update_list p f xs)
  unfolding From
  update-From p f xs k e =
      Evolves-trans e (Evolves-update (λ _. Unit {0}) p f xs (λ d _. k d) (anything xs))

  -- A step for the files that a filter by ID and state matches.
  along :
      {s t : State} (d : File Handle) (id : ℕ) → Reach s t → file_in id s d ≡ true → Reach d.state t
  along {s = s} {t = t} d id r h =
      subst (λ u. Reach u t) (sym (state_eq_sound d.state s (ground arith))) r

  pub claims-From :
      (id now : ℕ) (b : String) (o : ℕ) (xs : List (File Handle))
      → From xs
      → From (update_list (file_in id uploaded) (mark_claimed now b o) xs)
  claims-From id now b o xs =
      update-From (file_in id uploaded) (mark_claimed now b o) xs
        (λ d h. (refl, along d id (one claim) h))

  pub releases-From :
      (id now : ℕ) (xs : List (File Handle))
      → From xs
      → From (update_list (file_in id claimed) (mark_released now) xs)
  releases-From id now xs =
      update-From (file_in id claimed) (mark_released now) xs
        (λ d h. (refl, along d id (one release) h))

  pub marks-From :
      (id : ℕ) (s : State) (xs : List (File Handle))
      → s ≢ claimed
      → From xs
      → From (update_list (file_in id s) mark_deleting xs)
  marks-From id s xs n =
      update-From (file_in id s) mark_deleting xs (λ d h. (refl, along d id (to_deleting s n) h))

  pub takes-From :
      (fmt : Formats Handle) (now : ℕ) (g h : File Handle) (xs : List (File Handle))
      → From xs
      → From (update_list (is_still fmt g) (take_blob now h) xs)
  takes-From fmt now g h xs =
      update-From (is_still fmt g) (take_blob now h) xs (λ d t. (refl, here))

  pub gives-From :
      (fmt : Formats Handle) (now : ℕ) (g h : File Handle) (xs : List (File Handle))
      → g.state ≡ uploaded
      → From xs
      → From (update_list (is_still fmt g) (release_blob now h) xs)
  gives-From fmt now g h xs u = update-From (is_still fmt g) (release_blob now h) xs (λ d t. (
    refl,
    subst (λ s. Reach s released) (sym (state_eq_sound d.state g.state (ground arith) ∙ u))
        (one swap),
  ))

  -- During an upload: every file of the new ID can still be uploaded.
  unfoldable pub Uploading : ℕ → List (File Handle) → Type 0
  Uploading id xs = From xs × All (λ d. d.base.doc_id ≡ id → Reach d.state uploaded) xs

  pub grows-Uploading :
      (id : ℕ) (y : File Handle) (xs : List (File Handle))
      → ids y.base.doc_id
      → y.state ≡ uploading
      → Uploading id xs
      → Uploading id (xs ++ y ∷ [])
  unfolding From Uploading
  grows-Uploading id y xs i e (h, a) = (
    Evolves-trans h (Evolves-append xs y i),
    All-append _ xs (y ∷ []) a ((λ _. subst (λ s. Reach s uploaded) (sym e) (one store)), tt),
  )

  pub stores-Uploading :
      (fmt : Formats Handle) (id now : ℕ) (xs : List (File Handle))
      → Uploading id xs
      → Uploading id (update_list (has_id (file_doc fmt) id) (mark_uploaded now) xs)
  unfolding From Uploading
  stores-Uploading fmt id now xs (h, a) = (
    Evolves-trans h (
        Evolves-update _ (has_id (file_doc fmt) id) (mark_uploaded now) xs
          (λ d r t. (refl, r (==_sound d.base.doc_id id t))) a),
    All-update_first _ _ (mark_uploaded now) xs (λ d r t _. here) a,
  )

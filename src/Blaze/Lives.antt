-- ===== src/Blaze/Lives.antt =====
-- The collection of files over histories of the operations of blaze/bucket.go.
use mathlib.Core.Path.{subst}
use fire.Base.{update_first as update_list}
use fire.Base.{ℕ_eq, String_eq, ℤ_eq, All, ℕ, ◌≡◌, refl, sym, ◌≢◌, List, [], ◌∷◌}
use fire.Base.{All, All-map}
use fire.Coal.Driver.{Driver, IsDriver}
use fire.Coal.Manager.Defs.{Context}
use fire.Blaze.Model.{File, Link, claimed, deleting}
use fire.Blaze.Files.{Bucket, default_type, new_file, file_in, mark_released}
use fire.Blaze.Lifecycle.{Evolves, Evolves-refl}
use fire.Blaze.Steps.{upload_keeps, claim_file_keeps, release_file_keeps, download_file_keeps}
use fire.Blaze.LinkSteps.{modify_links_keeps}
use fire.Blaze.Evolution.{From, Uploading, stores-Uploading, claims-From, releases-From}
use fire.Blaze.Evolving.{stored-Uploading, migrate_file-From, cleanup_file-From}
use fire.Blaze.History.{
  Call, uploads, claims, releases, downloads, modifies, cleans, migrates, step,
}

module _ {Handle : Type 0} (drv : Driver (File Handle)) where
  abbrev pub IsQuiet : (drv.Db → drv.Db) → Type 0
  IsQuiet between = (s : drv.Db) → drv.docs (between s) ≡ drv.docs s

  abbrev pub IsNew : ℕ → drv.Db → Type 0
  IsNew id s = All (λ d. d.base.doc_id ≢ id) (drv.docs s)

  -- Nobody interferes with the call, and the ID of a new file is new.
  abbrev pub IsLegal : Call drv.Db Handle → drv.Db → Type 0
  IsLegal (uploads between name type size pick a id now then') s = IsQuiet between × IsNew id s
  IsLegal (claims key b o now) s = Unit {0}
  IsLegal (releases file now) s = Unit {0}
  IsLegal (downloads download id now) s = Unit {0}
  IsLegal (modifies new_links old_links b o now then') s = Unit {0}
  IsLegal (cleans between deletion id now) s = IsQuiet between
  IsLegal (migrates between store id m) s = IsQuiet between × IsNew m.fresh s

module _ {Handle : Type 0} (drv : Driver (File Handle)) (law : IsDriver drv)
    (bucket : Bucket Handle) where
  abbrev pub AreLegal : List (Context × Call drv.Db Handle) → drv.Db → Type 0
  AreLegal [] s = Unit {0}
  AreLegal ((ctx, c) ∷ cs) s = IsLegal drv c s × AreLegal cs (step drv bucket ctx c s)

  -- The IDs that a call gives to new files.
  abbrev pub IdsOf : Call drv.Db Handle → ℕ → Type 0
  IdsOf (uploads between name type size pick a id now then') i = i ≡ id
  IdsOf (claims key b o now) i = ⊥
  IdsOf (releases file now) i = ⊥
  IdsOf (downloads download id now) i = ⊥
  IdsOf (modifies new_links old_links b o now then') i = ⊥
  IdsOf (cleans between deletion id now) i = ⊥
  IdsOf (migrates between store id m) i = i ≡ m.fresh

  starts-Uploading :
      (ids : ℕ → Type 0) (id : ℕ) (s : drv.Db)
      → IsNew drv id s
      → Uploading ids (drv.docs s) id (drv.docs s)
  unfolding Uploading From
  starts-Uploading ids id s new =
      (Evolves-refl (drv.docs s), All-map _ _ (drv.docs s) (λ d ne e. absurd (ne e)) new)

  polite_by :
      (P : List (File Handle) → Type 0) (between : drv.Db → drv.Db)
      → IsQuiet drv between
      → (s : drv.Db) → P (drv.docs s)
      → P (drv.docs (between s))
  polite_by P between quiet s p = subst P (sym (quiet s)) p

  all_free :
      (ids : ℕ → Type 0) (docs : List (File Handle)) (links : List Link)
      → All
          (λ l.
            (t : ℕ) (xs : List (File Handle))
            → From ids docs xs
            → From ids docs (update_list (file_in l.file claimed) (mark_released t) xs))
          links
  all_free ids docs [] = tt
  all_free ids docs (l ∷ links) =
      ((λ t xs. releases-From ids docs l.file t xs), all_free ids docs links)

  step-Evolves :
      (ctx : Context) (c : Call drv.Db Handle) (s : drv.Db)
      → IsLegal drv c s
      → Evolves (IdsOf c) (λ t. t ≡ deleting) (drv.docs s) (drv.docs (step drv bucket ctx c s))
  unfolding step From Uploading
  step-Evolves ctx (uploads between name type size pick a id now then') s f =
      ((upload_keeps drv law bucket (Uploading (λ i. i ≡ id) (drv.docs s) id) ctx between name type
          size pick a id now then' (polite_by (Uploading (λ i. i ≡ id) (drv.docs s) id) between f.0)
          (λ service handle xs.
            stored-Uploading drv law bucket (λ i. i ≡ id) (drv.docs s) id now
              (new_file id now name (default_type bucket name type) size service handle) xs refl
              refl refl)
          (λ xs. stores-Uploading (λ i. i ≡ id) (drv.docs s) bucket.formats id then' xs)).keeps
        s (starts-Uploading (λ i. i ≡ id) id s f.1)).0
  step-Evolves ctx (claims key b o now) s f =
      (claim_file_keeps drv law bucket (From (λ _. ⊥) (drv.docs s)) ctx key b o now
          (λ id xs. claims-From (λ _. ⊥) (drv.docs s) id now b o xs)).keeps
        s (Evolves-refl (drv.docs s))
  step-Evolves ctx (releases file now) s f =
      (release_file_keeps drv law bucket (From (λ _. ⊥) (drv.docs s)) ctx file now
          (λ xs. releases-From (λ _. ⊥) (drv.docs s) file now xs)).keeps
        s (Evolves-refl (drv.docs s))
  step-Evolves ctx (downloads download id now) s f =
      (download_file_keeps drv law bucket (From (λ _. ⊥) (drv.docs s)) ctx download id now).keeps s
        (Evolves-refl (drv.docs s))
  step-Evolves ctx (modifies new_links old_links b o now then') s f =
      (modify_links_keeps drv law bucket (From (λ _. ⊥) (drv.docs s)) ctx new_links old_links b o
          now then' (all_free (λ _. ⊥) (drv.docs s) old_links)
          (λ t id xs. claims-From (λ _. ⊥) (drv.docs s) id t b o xs)).keeps
        s (Evolves-refl (drv.docs s))
  step-Evolves ctx (cleans between deletion id now) s f =
      (cleanup_file-From drv law bucket (λ _. ⊥) (drv.docs s) ctx between deletion id now f).moves s
        refl
  step-Evolves ctx (migrates between store id m) s f =
      (migrate_file-From drv law bucket (λ i. i ≡ m.fresh) (drv.docs s) store ctx between id m refl
          (polite_by (Uploading (λ i. i ≡ m.fresh) (drv.docs s) m.fresh) between f.0)).moves
        s (starts-Uploading (λ i. i ≡ m.fresh) m.fresh s f.1)

  -- Every call of the history takes the collection a step further.
  abbrev pub Lives : List (Context × Call drv.Db Handle) → drv.Db → Type 0
  Lives [] s = Unit {0}
  Lives ((ctx, c) ∷ cs) s =
      Evolves (IdsOf c) (λ t. t ≡ deleting) (drv.docs s) (drv.docs (step drv bucket ctx c s))
      × Lives cs (step drv bucket ctx c s)

  -- In every history in which nobody interferes with the steps inside of a call and new files get
  -- new IDs, each call takes the collection a step along the life of its files: every file keeps its
  -- ID and place while its state stays or moves on along the arrows, except that a file may be gone
  -- that was in the deleting state before the call, and new files stand behind with the ID that the
  -- call gives, where it gives one.
  pub run-Evolves :
      (cs : List (Context × Call drv.Db Handle)) (s : drv.Db) → AreLegal cs s → Lives cs s
  run-Evolves [] s f = tt
  run-Evolves ((ctx, c) ∷ cs) s f =
      (step-Evolves ctx c s f.0, run-Evolves cs (step drv bucket ctx c s) f.1)

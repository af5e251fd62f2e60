-- ===== src/Blaze/Bound.antt =====
-- A claimed file stays with its owner: what histories of blaze/bucket.go's operations cannot do.
use fire.Base.{
  ℕ_eq, String_eq, ◌==◌, ℤ_eq, ==_self, ==_sound, ==_ne, All, ℕ, String, ◌≡◌, refl, sym, ◌∙◌, ◌≢◌,
  Bool, true, some, List, [], ◌∷◌, ◌++◌, arith,
}
use fire.Base.{first, All, All-map, All-first}
use fire.Base.{update_first as update_list, delete_first as delete_list}
use fire.Coal.Driver.{Driver, IsDriver}
use fire.Coal.Kept.{Kept, Kept-update, Kept-delete, Kept-append}
use fire.Coal.Manager.Defs.{Context, has_id, clean_doc}
use fire.Blaze.Model.{State, uploaded, claimed, deleting, state_eq, Formats, File, file_doc}
use fire.Blaze.Files.{Bucket, file_in, mark_uploaded, mark_claimed, mark_released, mark_deleting}
use fire.Blaze.Migration.{is_still, take_blob, release_blob}
use fire.Blaze.Steps.{
  Polite, stored, upload_keeps, claim_file_keeps, release_file_keeps, download_file_keeps,
  cleanup_file_keeps, migrate_file_keeps,
}
use fire.Blaze.LinkSteps.{modify_links_keeps}
use fire.Blaze.History.{
  Call, uploads, claims, releases, downloads, modifies, cleans, migrates, step, run,
}

module _ {Handle : Type 0} (i : ℕ) (binding : String) (owner : ℕ) where
  abbrev pub has_file_id : File Handle → Bool
  has_file_id f = f.base.doc_id == i

  abbrev pub IsOwned : File Handle → Type 0
  IsOwned f = (f.state ≡ claimed) × (f.binding ≡ binding) × (f.owner ≡ some owner)

  -- There is a file of the ID, and it is claimed by the owner under the binding.
  abbrev pub Owned : List (File Handle) → Type 0
  Owned = Kept has_file_id IsOwned

  module _ (docs : List (File Handle)) (k : Owned docs) where
    claims-Owned :
        (id now : ℕ) (b : String) (o : ℕ)
        → Owned (update_list (file_in id uploaded) (mark_claimed now b o) docs)
    claims-Owned id now b o =
        Kept-update has_file_id IsOwned _ (mark_claimed now b o) docs (λ d. refl)
          (λ d e own t. absurd (ground (arith, own.0))) k

    releases-Owned :
        (id now : ℕ) → id ≢ i → Owned (update_list (file_in id claimed) (mark_released now) docs)
    releases-Owned id now ne =
        Kept-update has_file_id IsOwned _ (mark_released now) docs (λ d. refl)
          (λ d e own t. absurd (ne (ground arith))) k

    uploads-Owned :
        (fmt : Formats Handle) (id now : ℕ)
        → id ≢ i
        → Owned (update_list (has_id (file_doc fmt) id) (mark_uploaded now) docs)
    uploads-Owned fmt id now ne =
        Kept-update has_file_id IsOwned _ (mark_uploaded now) docs (λ d. refl)
          (λ d e own t. absurd (ne (ground arith))) k

    marks-Owned :
        (id : ℕ) (s : State)
        → (s ≡ claimed → ⊥)
        → Owned (update_list (file_in id s) mark_deleting docs)
    marks-Owned id s ne =
        Kept-update has_file_id IsOwned _ mark_deleting docs (λ d. refl)
          (λ d e own t. absurd (ne (same d.state s own.0 (ground arith)))) k
      where
        same : (r t : State) → r ≡ claimed → state_eq r t ≡ true → t ≡ claimed
        same r t e m = ground arith

    deletes-Owned :
        (fmt : Formats Handle) (id : ℕ)
        → id ≢ i
        → Owned (delete_list (has_id (file_doc fmt) id) docs)
    deletes-Owned fmt id ne =
        Kept-delete has_file_id IsOwned _ docs
          (λ d own t. ==_ne d.base.doc_id i (λ e. ne (sym (==_sound d.base.doc_id id t) ∙ e))) k

    takes-Owned :
        (fmt : Formats Handle) (now : ℕ) (g h : File Handle)
        → Owned (update_list (is_still fmt g) (take_blob now h) docs)
    takes-Owned fmt now g h =
        Kept-update has_file_id IsOwned _ (take_blob now h) docs (λ d. refl) (λ d e own t. own) k

    gives-Owned :
        (fmt : Formats Handle) (now : ℕ) (g h : File Handle)
        → g.state ≡ uploaded
        → Owned (update_list (is_still fmt g) (release_blob now h) docs)
    gives-Owned fmt now g h u =
        Kept-update has_file_id IsOwned _ (release_blob now h) docs (λ d. refl)
          (λ d e own t. absurd (ground (arith, own.0, u))) k

    known-Owned :
        (fmt : Formats Handle) (id now : ℕ) (d : File Handle)
        → first (has_id (file_doc fmt) id) docs ≡ some d
        → (clean_doc (file_doc fmt) now d).state ≡ deleting
        → d.base.doc_id ≢ i
    known-Owned fmt id now d h t e =
        let own : IsOwned d =
          All-first (λ d. has_file_id d ≡ true → IsOwned d) _ docs k.described h
            (rw e (==_self i)) in
        let clash : claimed ≡ deleting = sym own.0 ∙ t in cc

module _ {Handle : Type 0} (drv : Driver (File Handle)) (law : IsDriver drv)
    (bucket : Bucket Handle) (i : ℕ) (binding : String) (owner : ℕ) where
  abbrev pub Keeps : (drv.Db → drv.Db) → Type 0
  Keeps = Polite drv law bucket (Owned i binding owner)

  -- The calls that do not release the file: no release of its ID, no change of a link to it, and no
  -- new file with its ID.
  abbrev pub Foreign : Call drv.Db Handle → Type 0
  Foreign (uploads between name type size pick a id now then') = Keeps between × (id ≢ i)
  Foreign (claims key b o now) = Unit {0}
  Foreign (releases file now) = file ≢ i
  Foreign (downloads download id now) = Unit {0}
  Foreign (modifies new_links old_links b o now then') = All (λ l. l.file ≢ i) old_links
  Foreign (cleans between deletion id now) = Keeps between
  Foreign (migrates between store id m) = Keeps between × (m.fresh ≢ i)

  grows-Owned :
      (id now : ℕ) (f : File Handle) (docs : List (File Handle))
      → f.base.doc_id ≡ id
      → id ≢ i
      → Owned i binding owner docs
      → Owned i binding owner (docs ++ stored drv law bucket (Owned i binding owner) id now f ∷ [])
  grows-Owned id now f docs e ne k =
      Kept-append (has_file_id i binding owner) _ _ docs (==_ne _ i (λ h. ne (ground arith))) k

  step-Owned :
      (ctx : Context) (c : Call drv.Db Handle) (s : drv.Db)
      → Foreign c
      → Owned i binding owner (drv.docs s)
      → Owned i binding owner (drv.docs (step drv bucket ctx c s))
  unfolding step
  step-Owned ctx (uploads between name type size pick a id now then') s f k =
      (upload_keeps drv law bucket (Owned i binding owner) ctx between name type size pick a id now
          then' f.0 (λ service handle xs k. grows-Owned id now _ xs refl f.1 k)
          (λ xs k. uploads-Owned i binding owner xs k bucket.formats id then' f.1)).keeps
        s k
  step-Owned ctx (claims key b o now) s f k =
      (claim_file_keeps drv law bucket (Owned i binding owner) ctx key b o now
          (λ id xs k. claims-Owned i binding owner xs k id now b o)).keeps
        s k
  step-Owned ctx (releases file now) s f k =
      (release_file_keeps drv law bucket (Owned i binding owner) ctx file now
          (λ xs k. releases-Owned i binding owner xs k file now f)).keeps
        s k
  step-Owned ctx (downloads download id now) s f k =
      (download_file_keeps drv law bucket (Owned i binding owner) ctx download id now).keeps s k
  step-Owned ctx (modifies new_links old_links b o now then') s f k =
      (modify_links_keeps drv law bucket (Owned i binding owner) ctx new_links old_links b o now
          then'
          (All-map _ _ old_links (λ l ne t xs k. releases-Owned i binding owner xs k l.file t ne) f)
          (λ t id xs k. claims-Owned i binding owner xs k id t b o)).keeps
        s k
  step-Owned ctx (cleans between deletion id now) s f k =
      (cleanup_file_keeps drv law bucket (Owned i binding owner) ctx between deletion id now
          (λ d. d.state ≡ deleting → d.base.doc_id ≢ i) f
          (λ xs d k h t. known-Owned i binding owner xs k bucket.formats id now d h t)
          (λ d s xs ne k. marks-Owned i binding owner xs k d.base.doc_id s ne)
          (λ d xs known t k.
            deletes-Owned i binding owner xs k bucket.formats d.base.doc_id (known t))).keeps
        s k
  step-Owned ctx (migrates between store id m) s f k =
      (migrate_file_keeps drv law bucket (Owned i binding owner) store ctx between id m f.0
          (λ d xs e u k. grows-Owned m.fresh m.at_insert d xs e f.1 k)
          (λ xs k. uploads-Owned i binding owner xs k bucket.formats m.fresh m.at_update f.1)
          (λ g h xs c k. takes-Owned i binding owner xs k bucket.formats m.at_swap g h)
          (λ g h xs u k. gives-Owned i binding owner xs k bucket.formats m.at_swap g h u)).keeps
        s k

  -- A claimed file is safe: no history of uploads, claims, downloads, migrations and cleanups, and of
  -- releases and changes of links that are about other files, takes the file away, changes its
  -- owner or its binding, or moves it out of the claimed state, where the calls between the steps of
  -- an upload, a migration or a cleanup do not do so either.
  pub run-Owned :
      (cs : List (Context × Call drv.Db Handle)) (s : drv.Db)
      → All (λ c. Foreign c.1) cs
      → Owned i binding owner (drv.docs s)
      → Owned i binding owner (drv.docs (run drv bucket cs s))
  unfolding run
  run-Owned [] s f k = k
  run-Owned ((ctx, c) ∷ cs) s f k =
      run-Owned cs (step drv bucket ctx c s) f.1 (step-Owned ctx c s f.0 k)

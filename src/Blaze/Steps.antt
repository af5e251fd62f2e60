-- ===== src/Blaze/Steps.antt =====
-- What the operations on files in blaze/bucket.go keep of the collection: an invariant that the
-- writes they make keep is kept at every end of theirs.
use mathlib.Core.Path.{subst}
use fire.Coal.Manager.Mutations.{delete}
use fire.Base.{
  ℕ_eq, String_eq, ltb, ◌==◌, ℤ, ℤ_eq, Error, ok, check, ◌>>=◌, pure, fail, ℕ, String, ◌≡◌, refl,
  Bool, true, false, not, ◌||◌, Option, none, some, List, [], ◌∷◌, ◌++◌, arith,
}
use fire.Base.{first}
use fire.Base.{update_first as update_list, delete_first as delete_list}
use fire.Coal.Driver.{Driver, IsDriver}
use fire.Coal.Triples.{
  Ensures, ensures_bind, ensures_lift, ensures_pure, ensures_fail, ensures_fail_if, ensures_if,
  ensures_meanwhile, ensures_transact, weaken,
}
use fire.Coal.Manager.Defs.{Context, has_transaction, clean_doc, ensure_id, has_id}
use fire.Coal.Manager.Inserts.{ensures_insert}
use fire.Coal.Manager.Rules.{ensures_update_first, ensures_find_first}
use fire.Coal.Manager.Ids.{ensures_find_id, ensures_update_id, ensures_delete_id}
use fire.Glut.Basic.{no_sort}
use fire.Stick.Registry.Defs.{get}
use fire.Stick.Lists.Defs.{contains}
use fire.Blaze.Model.{
  State, uploading, uploaded, claimed, released, deleting, state_eq, File, max_file_name_length,
  byte_length, validate, file_doc,
}
use fire.Blaze.Files.{
  Bucket, Answers, Deletion, missing, or_fail, member, file_in, mark_uploaded, mark_claimed,
  mark_released, mark_deleting, default_type, verify_data, new_file, transfer, upload, named,
  allowed, claim_file, release_file, download_file, mark_leftover, remove, cleanup_found,
  cleanup_file,
}
use fire.Blaze.Files
use fire.Blaze.Migration.{Meets, is_still, take_blob, release_blob, swap, migrate_file}

pub or_fail-ok : {A : Type 0} (o : Option A) (e : Error) {a : A} → or_fail o e ≡ ok a → o ≡ some a
or_fail-ok none e h = cc
or_fail-ok (some b) e h = cc

module _ {Handle : Type 0} (drv : Driver (File Handle)) (law : IsDriver drv)
    (bucket : Bucket Handle) (Inv : List (File Handle) → Type 0) where
  -- What others do meanwhile keeps the invariant.
  abbrev pub Polite : (drv.Db → drv.Db) → Type 0
  Polite between = (s : drv.Db) → Inv (drv.docs s) → Inv (drv.docs (between s))

  -- An update of the first match, whatever it answers.
  pub ensures_any_update :
      (ctx : Context) (p : File Handle → Bool) (f : File Handle → File Handle) (now : ℕ)
      → ((xs : List (File Handle)) → Inv xs → Inv (update_list p f xs))
      → Ensures drv Inv
          (fire.Coal.Manager.Mutations.update_first drv
            (file_doc bucket.formats)
            no_sort
            ctx
            (ok p)
            (ok f)
            []
            false
            []
            now)
          (λ _. Unit {0})
  ensures_any_update ctx p f now step =
      ensures_update_first drv law (file_doc bucket.formats) Inv ctx no_sort p f now (λ _. Unit {0})
        step (λ xs i n. tt) (λ xs d i h. tt)

  pub claim_file_keeps :
      (ctx : Context) (claim_key binding : String) (owner now : ℕ)
      → ((id : ℕ) (xs : List (File Handle))
          → Inv xs
          → Inv (update_list (file_in id uploaded) (mark_claimed now binding owner) xs))
      → Ensures drv Inv (claim_file drv bucket ctx claim_key binding owner now) (λ _. Unit {0})
  unfolding claim_file
  claim_file_keeps ctx claim_key binding owner now step =
      ensures_bind (ensures_lift (get bucket.bindings (named drv bucket ctx binding))) λ known _.
        ensures_bind (ensures_lift (or_fail known _)) λ bnd _.
          ensures_bind (ensures_fail_if (owner == 0) _) λ _ _.
            ensures_bind (ensures_lift (bucket.verify claim_key)) λ key _.
              ensures_bind (ensures_lift (allowed drv bucket ctx bnd key)) λ _ _.
                ensures_bind
                  (ensures_any_update ctx (file_in key.file uploaded) _ now (step key.file))
                  λ found _. weaken (ensures_lift (or_fail found _)) (λ _ _. tt)

  pub release_file_keeps :
      (ctx : Context) (file now : ℕ)
      → ((xs : List (File Handle))
          → Inv xs
          → Inv (update_list (file_in file claimed) (mark_released now) xs))
      → Ensures drv Inv (release_file drv bucket ctx file now) (λ _. Unit {0})
  unfolding release_file
  release_file_keeps ctx file now step =
      ensures_bind (ensures_any_update ctx (file_in file claimed) (mark_released now) now step)
        λ found _.
          ensures_bind (ensures_lift (or_fail found _)) λ _ _. ensures_pure (λ _. Unit {0}) tt tt

  pub download_file_keeps :
      (ctx : Context) (download : Option Error) (id now : ℕ)
      → Ensures drv Inv (download_file drv bucket ctx download id now) (λ _. Unit {0})
  unfolding download_file
  download_file_keeps ctx download id now =
      ensures_bind
        (ensures_find_first drv law (file_doc bucket.formats) Inv ctx no_sort (file_in id claimed)
          now (λ _. Unit {0}) (λ xs i n. tt) (λ xs d i h. tt))
        λ found _. ensures_bind (ensures_lift (or_fail found _)) λ file _.
          ensures_bind (ensures_fail_if (not (contains bucket.services file.service)) _) λ _ _.
            ensures_bind (ensures_lift (check download)) λ _ _. ensures_pure (λ _. Unit {0}) file tt

  pub transfer_keeps :
      (ctx : Context) (between : drv.Db → drv.Db) (a : Answers Handle) (file : File Handle)
      (size : ℤ) (now : ℕ)
      → Polite between
      → ((xs : List (File Handle))
          → Inv xs
          → Inv (
              update_list
                (has_id (file_doc bucket.formats) file.base.doc_id)
                (mark_uploaded now)
                xs))
      → Ensures drv Inv (transfer drv bucket ctx between a file size now) (λ _. Unit {0})
  unfolding transfer
  transfer_keeps ctx between a file size now polite step =
      ensures_bind (ensures_lift (check a.upload)) λ _ _.
        ensures_bind (ensures_lift a.callback) λ sent _.
          ensures_bind (ensures_meanwhile between polite) λ _ _.
            ensures_bind (ensures_fail_if (not (sent == size)) _) λ _ _.
              ensures_bind (ensures_lift a.lookup) λ found _.
                ensures_bind (ensures_fail_if (not (found == size)) _) λ _ _.
                  ensures_bind (ensures_lift (check a.download)) λ _ _.
                    ensures_bind (ensures_lift (verify_data a size)) λ _ _.
                      ensures_bind (ensures_lift (check a.close)) λ _ _.
                        ensures_bind (ensures_lift _) λ _ _.
                          ensures_bind
                            (ensures_update_id drv law (file_doc bucket.formats) ctx Inv
                              file.base.doc_id (mark_uploaded now) now step)
                            λ _ _.
                              ensures_bind (ensures_lift a.issue) λ key _.
                                ensures_pure (λ _. Unit {0}) (key, mark_uploaded now file) tt

  -- What Upload stores.
  abbrev pub stored : ℕ → ℕ → File Handle → File Handle
  stored id now f =
      clean_doc (file_doc bucket.formats) now (ensure_id (file_doc bucket.formats) id f)

  pub stored-state : (id now : ℕ) (f : File Handle) → (stored id now f).state ≡ f.state
  stored-state id now f = ground arith

  pub stored-id :
      (id now : ℕ) (f : File Handle) → f.base.doc_id ≡ id → (stored id now f).base.doc_id ≡ id
  stored-id id now f e = ground (arith, e)

  pub upload_keeps :
      (ctx : Context) (between : drv.Db → drv.Db) (name type : String) (size : ℤ) (pick : ℕ)
      (a : Answers Handle) (id now then' : ℕ)
      → Polite between
      → ((service : String) (handle : Handle) (xs : List (File Handle))
          → Inv xs
          → Inv (
              xs
              ++ stored id now
                  (new_file id now name (default_type bucket name type) size service handle)
                ∷ []))
      → ((xs : List (File Handle))
          → Inv xs
          → Inv (update_list (has_id (file_doc bucket.formats) id) (mark_uploaded then') xs))
      → Ensures drv Inv
          (upload drv bucket ctx between name type size pick a id now then')
          (λ _. Unit {0})
  unfolding upload
  upload_keeps ctx between name type size pick a id now then' polite grow step =
      ensures_bind (ensures_fail_if (has_transaction ctx) _) λ _ _.
        ensures_bind (ensures_fail_if (ltb max_file_name_length (byte_length name)) _) λ _ _.
          ensures_bind (ensures_lift (or_fail (member pick bucket.uploader) _)) λ service _.
            ensures_bind (ensures_lift a.prepare) λ handle _.
              ensures_bind
                (ensures_lift (
                  check (
                    validate bucket.formats
                      (new_file id now name (default_type bucket name type) size service handle))))
                λ _ _.
                  ensures_bind
                    (ensures_insert drv law (file_doc bucket.formats) Inv
                      (new_file id now name (default_type bucket name type) size service handle) []
                      now (λ _. id) (grow service handle))
                    λ _ _.
                      transfer_keeps ctx between a
                        (new_file id now name (default_type bucket name type) size service handle)
                        size then' polite step

  cleanup_found_keeps :
      (ctx : Context) (between : drv.Db → drv.Db) (deletion : Deletion) (now : ℕ) (d : File Handle)
      → Polite between
      → ((s : State) (xs : List (File Handle))
          → (s ≡ claimed → ⊥)
          → Inv xs
          → Inv (update_list (file_in d.base.doc_id s) mark_deleting xs))
      → ((xs : List (File Handle))
          → d.state ≡ deleting
          → Inv xs
          → Inv (delete_list (has_id (file_doc bucket.formats) d.base.doc_id) xs))
      → Ensures drv Inv (cleanup_found drv bucket ctx between deletion now d) (λ _. Unit {0})
  unfolding cleanup_found mark_leftover remove
  cleanup_found_keeps ctx between deletion now d polite mark drop =
      ensures_if _
        (λ t. ensures_bind (ensures_meanwhile between polite) λ _ _.
          ensures_bind
            (ensures_any_update ctx (file_in d.base.doc_id d.state) mark_deleting now
              (λ xs. mark d.state xs (not_claimed d.state t)))
            λ found _.
              ensures_bind (ensures_lift (or_fail found _))
                λ _ _. ensures_pure (λ _. Unit {0}) tt tt)
        (λ _. ensures_bind (ensures_fail_if (not (state_eq d.state deleting)) _) λ _ t.
          ensures_bind (ensures_fail_if (not (contains bucket.services d.service)) _) λ _ _.
            ensures_bind (ensures_meanwhile between polite)
              λ _ _. deleted deletion (is_deleting d.state t))
    where
      not_claimed :
          (s : State)
          → (state_eq s uploading || state_eq s uploaded || state_eq s released) ≡ true
          → s ≡ claimed
          → ⊥
      not_claimed s t e = ground arith

      is_deleting : (s : State) → not (state_eq s deleting) ≡ false → s ≡ deleting
      is_deleting s t = ground arith

      deleted :
          (r : Deletion)
          → d.state ≡ deleting
          → Ensures drv Inv
              (elim r [
                | Files.done ↦ pure tt
                | Files.failed e ↦ fail e
                | missing ↦ (do
                  _ ← delete drv (file_doc bucket.formats) false d.base.doc_id
                  pure tt)
              ])
              (λ _. Unit {0})
      deleted Files.done t = ensures_pure (λ _. Unit {0}) tt tt
      deleted (Files.failed e) t = ensures_fail e
      deleted missing t =
          ensures_bind
            (ensures_delete_id drv law (file_doc bucket.formats) ctx Inv d.base.doc_id
              (λ xs. drop xs t))
            λ _ _. ensures_pure (λ _. Unit {0}) tt tt

  pub cleanup_file_keeps :
      (ctx : Context) (between : drv.Db → drv.Db) (deletion : Deletion) (id now : ℕ)
      (Known : File Handle → Type 0)
      → Polite between
      → ((xs : List (File Handle)) (d : File Handle)
          → Inv xs
          → first (has_id (file_doc bucket.formats) id) xs ≡ some d
          → Known (clean_doc (file_doc bucket.formats) now d))
      → ((d : File Handle) (s : State) (xs : List (File Handle))
          → (s ≡ claimed → ⊥)
          → Inv xs
          → Inv (update_list (file_in d.base.doc_id s) mark_deleting xs))
      → ((d : File Handle) (xs : List (File Handle))
          → Known d
          → d.state ≡ deleting
          → Inv xs
          → Inv (delete_list (has_id (file_doc bucket.formats) d.base.doc_id) xs))
      → Ensures drv Inv (cleanup_file drv bucket ctx between deletion id now) (λ _. Unit {0})
  unfolding cleanup_file
  cleanup_file_keeps ctx between deletion id now Known polite known mark drop =
      ensures_bind
        (ensures_find_id drv law (file_doc bucket.formats) ctx Inv id now
          (λ o. (d : File Handle) → o ≡ some d → Known d) (λ xs i n d e. cc)
          (λ xs d i h e' e.
            let same : clean_doc (file_doc bucket.formats) now d ≡ e' = cc in
            subst Known same (known xs d i h)))
        λ found k. ensures_bind (ensures_lift (or_fail found _)) λ file e.
          cleanup_found_keeps ctx between deletion now file polite (λ s xs. mark file s xs)
            (λ xs t i. drop file xs (k file (or_fail-ok found _ e)) t i)

  pub swap_keeps :
      (ctx : Context) (original new_file : File Handle) (now : ℕ)
      → ((xs : List (File Handle))
          → Inv xs
          → Inv (update_list (is_still bucket.formats original) (take_blob now new_file) xs))
      → ((xs : List (File Handle))
          → Inv xs
          → Inv (update_list (is_still bucket.formats new_file) (release_blob now original) xs))
      → Ensures drv Inv (swap drv bucket original new_file now ctx) (λ _. Unit {0})
  unfolding swap
  swap_keeps ctx original new_file now take give =
      ensures_bind (ensures_any_update ctx (is_still bucket.formats original) _ now take) λ found _.
        ensures_bind (ensures_lift (or_fail found _)) λ _ _.
          ensures_bind (ensures_any_update ctx (is_still bucket.formats new_file) _ now give)
            λ found' _.
              ensures_bind (ensures_lift (or_fail found' _))
                λ _ _. ensures_pure (λ _. Unit {0}) tt tt

  pub migrate_file_keeps :
      (store : ℕ) (ctx : Context) (between : drv.Db → drv.Db) (id : ℕ) (m : Meets Handle)
      → Polite between
      → ((f : File Handle) (xs : List (File Handle))
          → f.base.doc_id ≡ m.fresh
          → f.state ≡ uploading
          → Inv xs
          → Inv (xs ++ stored m.fresh m.at_insert f ∷ []))
      → ((xs : List (File Handle))
          → Inv xs
          → Inv (
              update_list
                (has_id (file_doc bucket.formats) m.fresh)
                (mark_uploaded m.at_update)
                xs))
      → ((g h : File Handle) (xs : List (File Handle))
          → g.state ≡ claimed
          → Inv xs
          → Inv (update_list (is_still bucket.formats g) (take_blob m.at_swap h) xs))
      → ((g h : File Handle) (xs : List (File Handle))
          → g.state ≡ uploaded
          → Inv xs
          → Inv (update_list (is_still bucket.formats g) (release_blob m.at_swap h) xs))
      → Ensures drv Inv (migrate_file drv bucket store ctx between id m) (λ _. Unit {0})
  unfolding migrate_file
  migrate_file_keeps store ctx between id m polite grow step take give =
      ensures_bind (download_file_keeps ctx m.download id m.at_download) λ original _.
        ensures_bind (ensures_fail_if (not (state_eq original.state claimed)) _) λ _ c.
          ensures_bind
            (upload_keeps ctx between original.name original.type original.size m.pick m.answers
              m.fresh m.at_insert m.at_update polite (λ service handle xs. grow _ xs refl refl)
              step)
            λ (_, new_file) _.
              ensures_bind (ensures_fail_if (not (state_eq new_file.state uploaded)) _) λ _ u.
                ensures_bind (ensures_fail_if (original.service == new_file.service) _) λ _ _.
                  ensures_transact drv Inv store false ctx m.start m.commit none
                    (swap drv bucket original new_file m.at_swap)
                    λ c'.
                      swap_keeps c' original new_file m.at_swap
                        (λ xs. take original new_file xs (is_claimed original.state c))
                        (λ xs. give new_file original xs (is_uploaded new_file.state u))
    where
      is_claimed : (s : State) → not (state_eq s claimed) ≡ false → s ≡ claimed
      is_claimed s t = ground arith

      is_uploaded : (s : State) → not (state_eq s uploaded) ≡ false → s ≡ uploaded
      is_uploaded s t = ground arith

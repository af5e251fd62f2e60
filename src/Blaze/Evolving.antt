-- ===== src/Blaze/Evolving.antt =====
-- MigrateFile and CleanupFile of blaze/bucket.go, which use what an earlier step of theirs found.
use mathlib.Core.Path.{subst}
use fire.Base.{
  ℕ_eq, String_eq, ◌==◌, ℤ_eq, ==_sound, ◌>>=◌, pure, fail, ℕ, ◌≡◌, refl, sym, ap, ◌∙◌, ◌≢◌, true,
  false, not, ◌||◌, Option, none, some, List, [], ◌∷◌, ◌++◌, arith,
}
use fire.Base.{first, first_passes}
use fire.Base.{delete_first as delete_list}
use fire.Coal.Driver.{meanwhile, Driver, IsDriver}
use fire.Coal.Triples.{
  Ensures, ensures_bind, ensures_lift, ensures_fail_if, ensures_meanwhile, ensures_pure,
  ensures_fail, ensures_transact,
}
use fire.Coal.Moves.{
  Moves, Moves-bind, Moves-keep, Moves-first, Moves-then, Moves-if, Moves-delete_id,
}
use fire.Coal.Manager.Defs.{Context, has_id, clean_doc, find_id}
use fire.Coal.Manager.Ids.{ensures_find_id}
use fire.Coal.Manager.Mutations.{delete}
use fire.Stick.Lists.Defs.{contains}
use fire.Blaze.Model.{
  State, uploading, uploaded, claimed, released, deleting, state_eq, File, file_doc,
}
use fire.Blaze.Files.{
  Bucket, default_type, Deletion, done, missing, failed, or_fail, file_in, mark_deleting, new_file,
  mark_leftover, remove, cleanup_found, cleanup_file,
}
use fire.Blaze.Migration.{Meets, swap, migrate_file}
use fire.Blaze.Lifecycle.{Evolves, Evolves-refl, Evolves-delete}
use fire.Blaze.Steps.{
  Polite, stored, stored-id, stored-state, upload_keeps, download_file_keeps, ensures_any_update,
  swap_keeps, or_fail-ok,
}
use fire.Blaze.Evolution.{
  From, Uploading, grows-Uploading, stores-Uploading, takes-From, gives-From, marks-From,
}

some_injective : {A : Type 0} {a b : A} → some a ≡ some b → a ≡ b
some_injective h = cc

module _ {Handle : Type 0} (drv : Driver (File Handle)) (law : IsDriver drv)
    (bucket : Bucket Handle) (ids : ℕ → Type 0) (docs : List (File Handle)) where
  -- The new file of an upload is stored.
  pub stored-Uploading :
      (id now : ℕ) (f : File Handle) (xs : List (File Handle))
      → ids id
      → f.base.doc_id ≡ id
      → f.state ≡ uploading
      → Uploading ids docs id xs
      → Uploading ids docs id (xs ++ stored drv law bucket (Uploading ids docs id) id now f ∷ [])
  stored-Uploading id now f xs new i e =
      grows-Uploading ids docs id (stored drv law bucket (Uploading ids docs id) id now f) xs
        (subst ids (sym (stored-id drv law bucket (Uploading ids docs id) id now f i)) new)
        (stored-state drv law bucket (Uploading ids docs id) id now f ∙ e)

  pub migrate_file-From :
      (store : ℕ) (ctx : Context) (between : drv.Db → drv.Db) (id : ℕ) (m : Meets Handle)
      → ids m.fresh
      → Polite drv law bucket (Uploading ids docs m.fresh) between
      → Moves drv
          (Uploading ids docs m.fresh)
          (From ids docs)
          (migrate_file drv bucket store ctx between id m)
  unfolding migrate_file Uploading
  migrate_file-From store ctx between id m new polite =
      Moves-bind (λ xs u. u.0)
        (download_file_keeps drv law bucket (Uploading ids docs m.fresh) ctx m.download id
          m.at_download)
        λ original _.
          Moves-bind (λ xs u. u.0) (ensures_fail_if (not (state_eq original.state claimed)) _)
            λ _ c.
              Moves-then
                (Moves-first (λ xs u. u.0)
                  (upload_keeps drv law bucket (Uploading ids docs m.fresh) ctx between
                    original.name original.type original.size m.pick m.answers m.fresh m.at_insert
                    m.at_update polite
                    (λ service handle xs.
                      stored-Uploading m.fresh m.at_insert
                        (new_file m.fresh m.at_insert original.name
                          (default_type bucket original.name original.type) original.size service
                          handle)
                        xs new refl refl)
                    (λ xs. stores-Uploading ids docs bucket.formats m.fresh m.at_update xs)))
                λ (_, new_file).
                  ensures_bind (ensures_fail_if (not (state_eq new_file.state uploaded)) _) λ _ u.
                    ensures_bind (ensures_fail_if (original.service == new_file.service) _) λ _ _.
                      ensures_transact drv (From ids docs) store false ctx m.start m.commit none
                        (swap drv bucket original new_file m.at_swap)
                        λ c'.
                          swap_keeps drv law bucket (From ids docs) c' original new_file m.at_swap
                            (λ xs.
                              takes-From ids docs bucket.formats m.at_swap original new_file xs)
                            (λ xs.
                              gives-From ids docs bucket.formats m.at_swap new_file original xs
                                (is_uploaded new_file.state u))
    where
      is_uploaded : (s : State) → not (state_eq s uploaded) ≡ false → s ≡ uploaded
      is_uploaded s t = ground arith

  -- The collection is as it was when the operation began.
  Still : List (File Handle) → Type 0
  Still xs = xs ≡ docs

  Still-From : (xs : List (File Handle)) → Still xs → From ids docs xs
  unfolding Still From
  Still-From xs e = subst (Evolves ids (λ s. s ≡ deleting) docs) (sym e) (Evolves-refl docs)

  -- What Find tells of the file: it is the first of its ID, cleaned.
  Found : ℕ → ℕ → Option (File Handle) → Type 0
  Found id now o =
      (d : File Handle)
      → o ≡ some d
      → (f : File Handle) × (first (has_id (file_doc bucket.formats) id) docs ≡ some f)
        × (d ≡ clean_doc (file_doc bucket.formats) now f)

  find-Found :
      (ctx : Context) (id now : ℕ)
      → Ensures drv Still (find_id drv (file_doc bucket.formats) ctx id false [] now) (Found id now)
  unfolding Still Found
  find-Found ctx id now =
      ensures_find_id drv law (file_doc bucket.formats) ctx Still id now (Found id now)
        (λ xs i n d e. cc)
        (λ xs f i h d e. (
          f,
          subst (λ ys. first (has_id (file_doc bucket.formats) id) ys ≡ some f) i h,
          let same : clean_doc (file_doc bucket.formats) now f ≡ d = cc in sym same,
        ))

  deleted-From :
      (id now : ℕ) (d : File Handle) (xs : List (File Handle))
      → Found id now (some d)
      → d.state ≡ deleting
      → Still xs
      → From ids docs (delete_list (has_id (file_doc bucket.formats) d.base.doc_id) xs)
  unfolding Still Found From
  deleted-From id now d xs found t e =
      let (f, h, eq) = found d refl in
      let same : f.base.doc_id ≡ id =
        ==_sound f.base.doc_id id (first_passes (has_id (file_doc bucket.formats) id) docs h) in
      let there : d.base.doc_id ≡ id = ap (λ g. g.base.doc_id) eq ∙ same in
      let gone : f.state ≡ deleting = sym (ap (λ g. g.state) eq) ∙ t in
      subst
        (λ j.
          Evolves ids (λ s. s ≡ deleting) docs
            (delete_list (has_id (file_doc bucket.formats) j) xs))
        (sym there)
        (subst
          (λ ys.
            Evolves ids (λ s. s ≡ deleting) docs
              (delete_list (has_id (file_doc bucket.formats) id) ys))
          (sym e)
          (Evolves-delete (has_id (file_doc bucket.formats) id) docs (λ g hg.
            let eq' : f ≡ g = some_injective (sym h ∙ hg) in sym (ap (λ g. g.state) eq') ∙ gone)))

  -- What others do between the steps of the cleanup changes nothing.
  Quiet : (drv.Db → drv.Db) → Type 0
  Quiet between = (s : drv.Db) → drv.docs (between s) ≡ drv.docs s

  quiet_keeps :
      (between : drv.Db → drv.Db) (P : List (File Handle) → Type 0)
      → Quiet between
      → Ensures drv P (meanwhile between) (λ _. Unit {0})
  unfolding Quiet
  quiet_keeps between P quiet = ensures_meanwhile between (λ s p. subst P (sym (quiet s)) p)

  mark_leftover-From :
      (ctx : Context) (between : drv.Db → drv.Db) (now : ℕ) (d : File Handle)
      → Quiet between
      → d.state ≢ claimed
      → Ensures drv (From ids docs) (mark_leftover drv bucket ctx between d now) (λ _. Unit {0})
  unfolding mark_leftover
  mark_leftover-From ctx between now d quiet ne =
      ensures_bind (quiet_keeps between (From ids docs) quiet) λ _ _.
        ensures_bind
          (ensures_any_update drv law bucket (From ids docs) ctx (file_in d.base.doc_id d.state)
            mark_deleting now (λ xs. marks-From ids docs d.base.doc_id d.state xs ne))
          λ found _.
            ensures_bind (ensures_lift (or_fail found _)) λ _ _. ensures_pure (λ _. Unit {0}) tt tt

  blob_removed :
      (deletion : Deletion) (id now : ℕ) (d : File Handle)
      → Found id now (some d)
      → d.state ≡ deleting
      → Moves drv Still (From ids docs) (elim deletion [
        | done ↦ pure tt
        | failed e ↦ fail e
        | missing ↦ (do _ ← delete drv (file_doc bucket.formats) false d.base.doc_id; pure tt)
      ])
  blob_removed done id now d found t = Moves-keep Still-From (ensures_pure (λ _. Unit {0}) tt tt)
  blob_removed (failed e) id now d found t =
      Moves-keep {Q = λ _. Unit {0}} Still-From (ensures_fail e)
  blob_removed missing id now d found t =
      Moves-then
        (Moves-delete_id drv law (file_doc bucket.formats) Still (From ids docs) d.base.doc_id
          Still-From (λ xs. deleted-From id now d xs found t))
        λ _. ensures_pure (λ _. Unit {0}) tt tt

  remove-From :
      (ctx : Context) (between : drv.Db → drv.Db) (deletion : Deletion) (id now : ℕ)
      (d : File Handle)
      → Found id now (some d)
      → Quiet between
      → Moves drv Still (From ids docs) (remove drv bucket ctx between deletion d)
  unfolding remove
  remove-From ctx between deletion id now d found quiet =
      Moves-bind Still-From (ensures_fail_if (not (state_eq d.state deleting)) _) λ _ t.
        Moves-bind Still-From (ensures_fail_if (not (contains bucket.services d.service)) _) λ _ _.
          Moves-bind Still-From (quiet_keeps between Still quiet)
            λ _ _. blob_removed deletion id now d found (is_deleting d.state t)
    where
      is_deleting : (s : State) → not (state_eq s deleting) ≡ false → s ≡ deleting
      is_deleting s t = ground arith

  cleanup_found-From :
      (ctx : Context) (between : drv.Db → drv.Db) (deletion : Deletion) (id now : ℕ)
      (d : File Handle)
      → Found id now (some d)
      → Quiet between
      → Moves drv Still (From ids docs) (cleanup_found drv bucket ctx between deletion now d)
  unfolding cleanup_found
  cleanup_found-From ctx between deletion id now d found quiet =
      Moves-if
        (state_eq d.state uploading || state_eq d.state uploaded || state_eq d.state released)
        (λ t.
          Moves-keep Still-From
            (mark_leftover-From ctx between now d quiet (not_claimed d.state t)))
        (λ _. remove-From ctx between deletion id now d found quiet)
    where
      not_claimed :
          (s : State)
          → (state_eq s uploading || state_eq s uploaded || state_eq s released) ≡ true
          → s ≢ claimed
      not_claimed s t e = ground arith

  pub cleanup_file-From :
      (ctx : Context) (between : drv.Db → drv.Db) (deletion : Deletion) (id now : ℕ)
      → ((s : drv.Db) → drv.docs (between s) ≡ drv.docs s)
      → Moves drv
          (λ xs. xs ≡ docs)
          (From ids docs)
          (cleanup_file drv bucket ctx between deletion id now)
  unfolding cleanup_file Still Found Quiet
  cleanup_file-From ctx between deletion id now quiet =
      Moves-bind Still-From (find-Found ctx id now) λ o found.
        Moves-bind Still-From (ensures_lift (or_fail o _)) λ d e.
          cleanup_found-From ctx between deletion id now d
            (λ d' e'. found d' (or_fail-ok o _ e ∙ e')) quiet

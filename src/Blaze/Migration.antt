-- ===== src/Blaze/Migration.antt =====
-- blaze/bucket.go: MigrateFile, which moves a file's blob to another service.
use fire.Base.{
  ℕ_eq, String_eq, ◌==◌, ℤ_eq, Error, message, ok, M, ◌>>=◌, ◌>>◌, pure, lift, fail_if, ℕ, Bool,
  false, not, ◌&&◌, Option, none, [],
}
use fire.Coal.Driver.{Driver}
use fire.Coal.Manager.Defs.{Context}
use fire.Coal.Manager.Mutations.{update_first}
use fire.Coal.Transactions.{Commit, transact}
use fire.Glut.Basic.{no_sort}
use fire.Blaze.Model.{claimed, uploaded, released, state_eq, File, Formats, file_doc}
use fire.Blaze.Files.{Bucket, Answers, or_fail, download_file, upload}

-- What a migration meets: the answers to Download and to the upload, the random index, the new ID,
-- the clocks, and the session's start and commit.
pub record Meets (Handle : Type 0) : Type 0 where
  pub download : Option Error
  pub answers : Answers Handle
  pub pick : ℕ
  pub fresh : ℕ
  pub at_download : ℕ
  pub at_insert : ℕ
  pub at_update : ℕ
  pub at_swap : ℕ
  pub start : Option Error
  pub commit : Commit

module _ {Handle : Type 0} (fmt : Formats Handle) where
  -- The filter on the ID, the state, the service and the handle of a file.
  abbrev pub is_still : File Handle → File Handle → Bool
  is_still g f =
      f.base.doc_id == g.base.doc_id
      && state_eq f.state g.state
      && f.service == g.service
      && fmt.same_handle f.handle g.handle

module _ {Handle : Type 0} where
  abbrev pub take_blob : ℕ → File Handle → File Handle → File Handle
  take_blob now g f = record f { updated = now; service = g.service; handle = g.handle }

  -- The update of the new file, which is left with the old blob.
  abbrev pub release_blob : ℕ → File Handle → File Handle → File Handle
  release_blob now g f = record f {
    state = released;
    updated = now;
    service = g.service;
    handle = g.handle;
  }

module _ {Handle : Type 0} (drv : Driver (File Handle)) (bucket : Bucket Handle) where
  open drv use {Db}

  unfoldable pub swap : File Handle → File Handle → ℕ → Context → M Db (Unit {0})
  swap original new_file now ctx = do
    found ←
        update_first drv (file_doc bucket.formats) no_sort ctx
          (ok (is_still bucket.formats original)) (ok (take_blob now new_file)) [] false [] now
    _ ← lift (or_fail found (message "file not found"))
    found' ←
        update_first drv (file_doc bucket.formats) no_sort ctx
          (ok (is_still bucket.formats new_file)) (ok (release_blob now original)) [] false [] now
    _ ← lift (or_fail found' (message "file not found"))
    pure tt

  -- MigrateFile; `store` is the bucket's store.
  unfoldable pub migrate_file : ℕ → Context → (Db → Db) → ℕ → Meets Handle → M Db (Unit {0})
  unfolding swap
  migrate_file store ctx between id m = do
    original ← download_file drv bucket ctx m.download id m.at_download
    fail_if (not (state_eq original.state claimed)) (message "unexpected file state")
    (_, new_file) ←
        upload drv bucket ctx between original.name original.type original.size m.pick m.answers
          m.fresh m.at_insert m.at_update
    fail_if (not (state_eq new_file.state uploaded)) (message "unexpected file state")
    fail_if (original.service == new_file.service) (message "unexpected service match")
    transact store false ctx m.start m.commit none (swap original new_file m.at_swap)

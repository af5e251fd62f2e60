-- ===== src/Blaze/History.antt =====
-- Whole histories of the operations of blaze/bucket.go on one collection of files.
use fire.Base.{ℕ_eq, String_eq, ℤ, ℤ_eq, Error, ℕ, String, Option, List, [], ◌∷◌}
use fire.Coal.Driver.{Driver}
use fire.Coal.Manager.Defs.{Context}
use fire.Blaze.Model.{File, Link}
use fire.Blaze.Files.{
  Bucket, Answers, Deletion, upload, claim_file, release_file, download_file, cleanup_file,
}
use fire.Blaze.Links.{modify_links}
use fire.Blaze.Migration.{Meets, migrate_file}

-- A call with what it meets: what others do during it, its answers, its clocks and new IDs.
pub data Call (S Handle : Type 0) : Type 0 where
  uploads : (S → S) → String → String → ℤ → ℕ → Answers Handle → ℕ → ℕ → ℕ → Call S Handle
  claims : String → String → ℕ → ℕ → Call S Handle
  releases : ℕ → ℕ → Call S Handle
  downloads : Option Error → ℕ → ℕ → Call S Handle
  modifies : List Link → List Link → String → ℕ → (ℕ → ℕ) → (ℕ → ℕ) → Call S Handle
  cleans : (S → S) → Deletion → ℕ → ℕ → Call S Handle
  migrates : (S → S) → ℕ → ℕ → Meets Handle → Call S Handle

module _ {Handle : Type 0} (drv : Driver (File Handle)) (bucket : Bucket Handle) where
  unfoldable pub step : Context → Call drv.Db Handle → drv.Db → drv.Db
  step ctx (uploads between name type size pick a id now then') s =
      (upload drv bucket ctx between name type size pick a id now then' s).0
  step ctx (claims key binding owner now) s = (claim_file drv bucket ctx key binding owner now s).0
  step ctx (releases file now) s = (release_file drv bucket ctx file now s).0
  step ctx (downloads download id now) s = (download_file drv bucket ctx download id now s).0
  step ctx (modifies new_links old_links binding owner now then') s =
      (modify_links drv bucket ctx new_links old_links binding owner now then' s).0
  step ctx (cleans between deletion id now) s =
      (cleanup_file drv bucket ctx between deletion id now s).0
  step ctx (migrates between store id m) s = (migrate_file drv bucket store ctx between id m s).0

  unfoldable pub run : List (Context × Call drv.Db Handle) → drv.Db → drv.Db
  unfolding step
  run [] s = s
  run ((ctx, c) ∷ cs) s = run cs (step ctx c s)

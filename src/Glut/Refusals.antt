-- ===== src/Glut/Refusals.antt =====
-- glut/locks.go: what a client that does not hold the lock gets.
use fire.Base.{ℕ_eq, String_eq, ok, ℕ, ◌≤◌, String, ◌≡◌, refl, ◌≢◌, true}
use fire.Coal.Driver.{Driver, IsDriver}
use fire.Coal.Manager.Defs.{Context}
use fire.Glut.Model.{Model}
use fire.Glut.Values.{Kind, Handle, get_key}
use fire.Glut.Locks.{Times, ensure_token, lock, set_locked, get_locked, delete_locked, unlock}
use fire.Glut.Held.{Held}
use fire.Glut.Exclusion.{Polite, set_locked-Safe, get_locked-Safe, delete_locked-Safe, unlock-Safe}
use fire.Glut.Contention.{lock-Safe}

module _ {V Data : Type 0} (drv : Driver (Model Data)) (law : IsDriver drv) (kind : Kind V Data)
    (k : String) (tok u : ℕ) (C : Data → Type 0) (ctx : Context) where
  -- Lock for a key that another token holds, with its filter's time no later than the lock's:
  -- the lock and its data stay, and Lock does not answer that the value was locked. What others
  -- do to the collection between its calls is arbitrary, as long as it keeps the lock.
  pub lock_refused :
      (between : drv.Db → drv.Db) (null_data : Data) (h : Handle V) (timeout : ℕ) (times : Times)
      (fresh fresh_id : ℕ) (s : drv.Db)
      → Polite drv law kind k tok u C between
      → get_key kind h.value ≡ ok k
      → (ensure_token drv kind fresh h).token ≢ tok
      → times.at_filter ≤ u
      → Held k tok u C (drv.docs s)
      → Held k tok u C
          (drv.docs (lock drv kind ctx between null_data h timeout times fresh fresh_id s).0)
        × ((h' : Handle V)
            → (lock drv kind ctx between null_data h timeout times fresh fresh_id s).1
              ≢ ok (h', true))
  lock_refused between null_data h timeout times fresh fresh_id s polite e ne le i =
      let safe =
        lock-Safe drv law kind k tok u C ctx between polite null_data h timeout times fresh fresh_id
          (λ _. ne) le in
      (safe.keeps s i, λ h' r. safe.answers s i (h', true) r refl e)

  -- The operations of a holder, by a client with another token than the lock's: the lock and its
  -- data stay, and no operation answers that it took effect or found the value.
  pub others_refused :
      (h : Handle V) (now then' : ℕ) (s : drv.Db)
      → get_key kind h.value ≡ ok k
      → h.token ≢ tok
      → Held k tok u C (drv.docs s)
      → (Held k tok u C (drv.docs (set_locked drv kind ctx h now then' s).0)
          × ((set_locked drv kind ctx h now then' s).1 ≢ ok true))
        × (Held k tok u C (drv.docs (get_locked drv kind ctx h now s).0)
            × ((h' : Handle V) → (get_locked drv kind ctx h now s).1 ≢ ok (h', true)))
        × (Held k tok u C (drv.docs (delete_locked drv kind h now s).0)
            × ((delete_locked drv kind h now s).1 ≢ ok true))
        × (Held k tok u C (drv.docs (unlock drv kind ctx h now then' s).0)
            × ((unlock drv kind ctx h now then' s).1 ≢ ok true))
  others_refused h now then' s e ne i =
      let sets = set_locked-Safe drv law kind k tok u C ctx h now then' (λ _. ne) in
      let reads = get_locked-Safe drv law kind k tok u C ctx h now (λ _. ne) in
      let deletes = delete_locked-Safe drv law kind k tok u C h now (λ _. ne) in
      let frees = unlock-Safe drv law kind k tok u C ctx h now then' (λ _. ne) in
      (
        (sets.keeps s i, λ r. sets.answers s i true r refl e),
        (reads.keeps s i, λ h' r. reads.answers s i (h', true) r refl e),
        (deletes.keeps s i, λ r. deletes.answers s i true r refl e),
        (frees.keeps s i, λ r. frees.answers s i true r refl e),
      )

-- ===== src/Glut/History.antt =====
-- Whole histories of calls by other clients against one held lock (glut/locks.go, glut/basic.go).
use fire.Base.{
  ℕ_eq, String_eq, ◌==◌, is_some, All, ok, ok_injective, check, ℕ, ◌≤◌, ◌<◌, String, ◌≡◌, refl, sym,
  ap, ◌∙◌, ◌≢◌, true, false, Option, List, [], ◌∷◌,
}
use fire.Base.{All}
use mathlib.Core.Bool.{false≢true}
use fire.Coal.Driver.{Driver, IsDriver}
use fire.Coal.Triples.{ensures_bind, ensures_lift, ensures_pure, ensures_fail_if}
use fire.Coal.Manager.Defs.{Context}
use fire.Coal.Manager.Mutations.{update_first}
use fire.Coal.Manager.Rules.{ensures_insert_if_missing, ensures_find_first, ensures_update_first}
use fire.Glut.Model.{Model, model_doc}
use fire.Glut.Values.{Kind, Handle, get_key, get_deadline}
use fire.Glut.Basic.{no_sort, has_key, write, get, ensure, set, delete}
use fire.Glut.Locks.{
  Times, holds, lock, ensure_token, set_locked, get_locked, delete_locked, unlock,
}
use fire.Glut.Held.{Held, Held-append, Held-ne, Held-holds, Held-update}
use fire.Glut.Exclusion.{
  Safe, Keyed, Other, load_then-Safe, set_locked-Safe, get_locked-Safe, delete_locked-Safe,
  unlock-Safe,
}
use fire.Glut.Contention.{lock-Safe}
use fire.Glut.Unguarded.{set-Safe, delete-Safe}

-- A call that another client makes, with the clocks, new tokens and IDs that it meets.
pub data Call (V : Type 0) : Type 0 where
  locks : Handle V → ℕ → Times → ℕ → ℕ → Call V
  sets_locked gets_locked deletes_locked unlocks : Handle V → ℕ → ℕ → Call V
  gets : Handle V → ℕ → Call V
  ensures : Handle V → ℕ → ℕ → Call V
  sets : Handle V → ℕ → ℕ → ℕ → Call V
  deletes : Handle V → Call V

module _ {V Data : Type 0} (drv : Driver (Model Data)) (kind : Kind V Data) (null_data : Data)
    (ctx : Context) where
  unfoldable pub step : Call V → drv.Db → drv.Db
  step (locks h timeout times fresh id) s =
      (lock drv kind ctx (λ s. s) null_data h timeout times fresh id s).0
  step (sets_locked h now then') s = (set_locked drv kind ctx h now then' s).0
  step (gets_locked h now then') s = (get_locked drv kind ctx h then' s).0
  step (deletes_locked h now then') s = (delete_locked drv kind h then' s).0
  step (unlocks h now then') s = (unlock drv kind ctx h now then' s).0
  step (gets h now) s = (get drv kind ctx h now s).0
  step (ensures h now id) s = (ensure drv kind ctx h now id s).0
  step (sets h now fresh token) s = (set drv kind ctx null_data h now fresh token s).0
  step (deletes h) s = (delete drv kind h s).0

  unfoldable pub run : List (Call V) → drv.Db → drv.Db
  unfolding step
  run [] s = s
  run (c ∷ cs) s = run cs (step c s)

module _ {V Data : Type 0} (drv : Driver (Model Data)) (law : IsDriver drv) (kind : Kind V Data)
    (k : String) (tok u : ℕ) (C : Data → Type 0) where
  -- The calls of others: for the key under another token, and Lock no later than the lock's time. Set
  -- and Delete ignore locks: Set for the key where the data may be any, and Delete for other keys.
  abbrev pub Foreign : Call V → Type 0
  Foreign (locks h timeout times fresh id) =
      (Keyed drv law kind k tok u C h → (ensure_token drv kind fresh h).token ≢ tok)
      × (times.at_filter ≤ u)
  Foreign (sets_locked h now then') = Other drv law kind k tok u C h
  Foreign (gets_locked h now then') = Other drv law kind k tok u C h
  Foreign (deletes_locked h now then') = Other drv law kind k tok u C h
  Foreign (unlocks h now then') = Other drv law kind k tok u C h
  Foreign (gets h now) = Unit {0}
  Foreign (ensures h now id) = Unit {0}
  Foreign (sets h now fresh token) = Keyed drv law kind k tok u C h → (x : Data) → C x
  Foreign (deletes h) = ¬ Keyed drv law kind k tok u C h

  get-Safe :
      (ctx : Context) (h : Handle V) (now : ℕ)
      → Safe drv law kind k tok u C (get drv kind ctx h now) (λ _. Unit {0})
  unfolding get
  get-Safe ctx h now = ensures_bind (ensures_lift (get_key kind h.value)) λ key e.
      ensures_bind
        (ensures_find_first drv law model_doc (Held k tok u C) ctx no_sort (has_key key) now
          (λ _. Unit {0}) (λ xs i n. tt) (λ xs d i hit. tt))
        λ o _. load_then-Safe drv law kind k tok u C h o (λ _. Unit {0}) tt (λ _ h'. tt)

  ensure-Safe :
      (ctx : Context) (h : Handle V) (now id : ℕ)
      → Safe drv law kind k tok u C (ensure drv kind ctx h now id) (λ _. Unit {0})
  unfolding ensure
  ensure-Safe ctx h now id = ensures_bind (ensures_lift (get_key kind h.value)) λ key e.
      ensures_bind (ensures_lift (get_deadline kind now h.value)) λ deadline _.
        ensures_bind (ensures_lift (check (kind.validate h.value))) λ _ _.
          ensures_bind (ensures_lift (kind.marshal h.value)) λ content _.
            ensures_insert_if_missing drv law model_doc (Held k tok u C) ctx (has_key key) _ now id
              (λ _. Unit {0})
              (λ xs i n. Held-append k tok u C _ xs (Held-ne k tok u C key xs i n) i) (λ xs i n. tt)
              (λ xs d i hit. tt)

  module _ (null_data : Data) (ctx : Context) where
    step-Held :
        (c : Call V) (s : drv.Db)
        → Foreign c
        → Held k tok u C (drv.docs s)
        → Held k tok u C (drv.docs (step drv kind null_data ctx c s))
    unfolding step
    step-Held (locks h timeout times fresh id) s f i =
        (lock-Safe drv law kind k tok u C ctx (λ s. s) (λ s i. i) null_data h timeout times fresh id
            f.0 f.1).keeps
          s i
    step-Held (sets_locked h now then') s f i =
        (set_locked-Safe drv law kind k tok u C ctx h now then' f).keeps s i
    step-Held (gets_locked h now then') s f i =
        (get_locked-Safe drv law kind k tok u C ctx h then' f).keeps s i
    step-Held (deletes_locked h now then') s f i =
        (delete_locked-Safe drv law kind k tok u C h then' f).keeps s i
    step-Held (unlocks h now then') s f i =
        (unlock-Safe drv law kind k tok u C ctx h now then' f).keeps s i
    step-Held (gets h now) s f i = (get-Safe ctx h now).keeps s i
    step-Held (ensures h now id) s f i = (ensure-Safe ctx h now id).keeps s i
    step-Held (sets h now fresh token) s f i =
        (set-Safe drv law kind k tok u C ctx null_data h now fresh token f).keeps s i
    step-Held (deletes h) s f i = (delete-Safe drv law kind k tok u C h f).keeps s i

    -- While a lock is held, it and its data stay through every history of these calls: Get and Ensure
    -- for any key, the lock operations for another key or under another token, with Lock no later
    -- than the lock's time, Set for other keys, or also for its own where the data is not asked
    -- about, and Delete for other keys.
    pub run-Held :
        (cs : List (Call V)) (s : drv.Db)
        → All Foreign cs
        → Held k tok u C (drv.docs s)
        → Held k tok u C (drv.docs (run drv kind null_data ctx cs s))
    unfolding run
    run-Held [] s f i = i
    run-Held (c ∷ cs) s f i =
        run-Held cs (step drv kind null_data ctx c s) f.1 (step-Held c s f.0 i)

-- The holder's own calls, whatever the data is.
module _ {V Data : Type 0} (drv : Driver (Model Data)) (law : IsDriver drv) (kind : Kind V Data)
    (k : String) (tok u : ℕ) where
  abbrev Any : Data → Type 0
  Any _ = Unit {0}

  -- A write by the holder in time finds the document and leaves it locked.
  held_write :
      (ctx : Context) (content : Data) (deadline : Option ℕ) (now : ℕ)
      → now < u
      → Safe drv law kind k tok u Any
          (update_first drv model_doc no_sort ctx
            (ok (holds k tok now))
            (ok (write content deadline))
            []
            false
            []
            now)
          (λ o. is_some o ≡ true)
  held_write ctx content deadline now lt =
      ensures_update_first drv law model_doc (Held k tok u Any) ctx no_sort (holds k tok now)
        (write content deadline) now _
        (λ xs h.
          Held-update k tok u Any (holds k tok now) (write content deadline) xs (λ m own t e. own e)
            (λ m. refl) h)
        (λ xs h n. ap is_some (sym n) ∙ Held-holds k tok u Any now xs h lt) (λ xs m h hit. refl)

  held_write_at :
      (ctx : Context) (key : String) (token : ℕ) (content : Data) (deadline : Option ℕ) (now : ℕ)
      → now < u
      → k ≡ key
      → token ≡ tok
      → Safe drv law kind k tok u Any
          (update_first drv model_doc no_sort ctx
            (ok (holds key token now))
            (ok (write content deadline))
            []
            false
            []
            now)
          (λ o. is_some o ≡ true)
  held_write_at ctx key token content deadline now lt e t =
      rw (← e, t) (held_write ctx content deadline now lt)

  set_locked-Held :
      (ctx : Context) (h : Handle V) (now then' : ℕ)
      → Keyed drv law kind k tok u Any h
      → h.token ≡ tok
      → then' < u
      → Safe drv law kind k tok u Any (set_locked drv kind ctx h now then') (λ b. b ≡ true)
  unfolding set_locked
  set_locked-Held ctx h now then' e t lt =
      ensures_bind (ensures_lift (get_key kind h.value)) λ key e'.
        ensures_bind (ensures_lift (get_deadline kind now h.value)) λ deadline _.
          ensures_bind (ensures_fail_if (h.token == 0) _) λ _ _.
            ensures_bind (ensures_lift (check (kind.validate h.value))) λ _ _.
              ensures_bind (ensures_lift (kind.marshal h.value)) λ content _.
                let same : k ≡ key = ok_injective (sym e ∙ e') in
                ensures_bind (held_write_at ctx key h.token content deadline then' lt same t)
                  λ o q. ensures_pure (λ b. b ≡ true) (is_some o) q

module _ {V Data : Type 0} (drv : Driver (Model Data)) (law : IsDriver drv)
    (kind : Kind V Data) where
  -- A client that holds the lock of a key until a time still holds it after any history of these
  -- calls: Get, Ensure and Set for any key, the lock operations for another key or under another
  -- token, with Lock no later than the lock's time, and Delete for other keys. SetLocked under its
  -- token before that time does not answer that the lock was lost: it answers that the value was set,
  -- or fails. A Delete for the key, which ignores the lock, is excluded.
  pub lock_is_kept :
      (null_data : Data) (ctx : Context) (k : String) (tok u : ℕ) (cs : List (Call V))
      (h : Handle V) (now then' : ℕ) (s : drv.Db)
      → Held k tok u (λ _. Unit {0}) (drv.docs s)
      → All (Foreign drv law kind k tok u (λ _. Unit {0})) cs
      → get_key kind h.value ≡ ok k
      → h.token ≡ tok
      → then' < u
      → (set_locked drv kind ctx h now then' (run drv kind null_data ctx cs s)).1 ≢ ok false
  lock_is_kept null_data ctx k tok u cs h now then' s held foreign e t lt r = false≢true (
      (set_locked-Held drv law kind k tok u ctx h now then' e t lt).answers
        (run drv kind null_data ctx cs s)
        (run-Held drv law kind k tok u (λ _. Unit {0}) null_data ctx cs s foreign held) false r)

-- ===== src/Axe/Task.antt =====
-- axe/task.go: the execution of a job by a task. What a handler or a notifier does to the
-- collection is arbitrary; the tracing and the cancellation of contexts are left out.
use fire.Base.{
  ℕ_eq, String_eq, ltb, ◌==◌, ℤ_eq, Error, message, Result, ok, err, M, ℕ, String, Bool, true,
  false, ◌||◌, Option, none, some, List, [], ◌∷◌,
}
use fire.Coal.Driver.{Driver}
use fire.Coal.Manager.Defs.{Context}
use fire.Axe.Model.{Model, Kind, Job}
use fire.Axe.Basic.{dequeue, complete, fail_job, cancel}

-- What a handler returns: nil, an error made by E, or another error.
pub data Outcome : Type 0 where
  succeeds : Outcome
  returns : (reason : String) (retry : Bool) → Outcome
  breaks : Error → Outcome

-- A task. `delay` is the backoff of an attempt between the task's delays, and `text` an error's
-- text.
pub record Task (Db J : Type 0) : Type 0 where
  pub make : J
  pub handler : Job J → ℕ → Db → Db × (Job J × Outcome)
  pub notifier : Option (Job J → Bool → String → M Db (Unit {0}))
  pub max_attempts : ℕ
  pub timeout : ℕ
  pub delay : ℕ → ℕ
  pub text : Error → String

-- The errors of a call; a function that joins errors answers them in order.
abbrev pub errors_of : {Db : Type 0} → Db × Result (Unit {0}) → Db × List Error
errors_of (s, ok tt) = (s, [])
errors_of (s, err x) = (s, x ∷ [])

abbrev pub joined : {Db : Type 0} → Error → Db × List Error → Db × List Error
joined x (s, xs) = (s, x ∷ xs)

module _ {J Data Progress : Type 0} (drv : Driver (Model Data Progress))
    (kind : Kind J Data Progress) (ctx : Context) (task : Task drv.Db J) where
  abbrev pub notify :
      Option (Job J → Bool → String → M drv.Db (Unit {0}))
      → Job J
      → Bool
      → String
      → drv.Db
      → drv.Db × List Error
  notify none job cancelled reason s = (s, [])
  notify (some notifier) job cancelled reason s = errors_of (notifier job cancelled reason s)

  -- The notifier runs after a call that did not fail.
  abbrev pub then_notify : Job J → Bool → String → drv.Db × Result (Unit {0}) → drv.Db × List Error
  then_notify job cancelled reason (s, err x) = (s, x ∷ [])
  then_notify job cancelled reason (s, ok tt) = notify task.notifier job cancelled reason s

  -- Whether a job is retried after an error.
  abbrev pub may_retry : ℕ → Bool
  may_retry attempt = task.max_attempts == 0 || ltb attempt task.max_attempts

  -- What follows an error that was not made by E, where the job is retried or not.
  abbrev pub broken : ℕ → ℕ → Job J → Error → Bool → drv.Db → drv.Db × List Error
  broken attempt now job x true s =
      joined x (errors_of (fail_job drv kind ctx job (task.text x) (task.delay attempt) now s))
  broken attempt now job x false s =
      joined x (then_notify job true (task.text x) (cancel drv kind ctx job (task.text x) now s))

  -- What follows the handler.
  unfoldable pub settle : ℕ → ℕ → Job J → Outcome → drv.Db → drv.Db × List Error
  settle attempt now job succeeds s = then_notify job false "" (complete drv kind ctx job now s)
  settle attempt now job (returns reason true) s =
      errors_of (fail_job drv kind ctx job reason (task.delay attempt) now s)
  settle attempt now job (returns reason false) s =
      then_notify job true reason (cancel drv kind ctx job reason now s)
  settle attempt now job (breaks x) s = broken attempt now job x (may_retry attempt) s

  -- `late` tells whether the handler took longer than the lifetime; the error is here without the
  -- name of the task.
  unfoldable pub handled : Bool → ℕ → ℕ → drv.Db × (Job J × Outcome) → drv.Db × List Error
  handled true attempt now (s, (job, outcome)) =
      (s, message "task ran longer than the specified lifetime" ∷ [])
  handled false attempt now (s, (job, outcome)) = settle attempt now job outcome s

  abbrev pub executed : Bool → ℕ → drv.Db × Result (Job J × Bool × ℕ) → drv.Db × List Error
  executed late now (s, err x) = (s, x ∷ [])
  executed late now (s, ok (job, false, attempt)) = (s, [])
  executed late now (s, ok (job, true, attempt)) =
      handled late attempt now (task.handler job attempt s)

  -- execute, which reads the clock when it dequeues the job and after the handler.
  unfoldable pub execute : Bool → ℕ → ℕ → ℕ → drv.Db → drv.Db × List Error
  execute late id now then' s = executed late then' (
      dequeue drv kind ctx (record { doc_id = id; label = ""; job = task.make }) task.timeout now s)

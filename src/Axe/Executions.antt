-- ===== src/Axe/Executions.antt =====
-- axe/task.go: the execution of a job as a history of the operations of axe/basic.go.
use fire.Base.{
  ℕ_eq, String_eq, ℤ_eq, Error, Result, ok, err, ℕ, String, ◌≡◌, refl, Bool, true, false, List, [],
  ◌∷◌, ◌++◌,
}
use fire.Base.{M}
use fire.Axe.Basic.{dequeue}
use fire.Coal.Driver.{Driver}
use fire.Coal.Manager.Defs.{Context}
use fire.Axe.Model.{Model, Kind, Job}
use fire.Axe.Basic.{complete, cancel}
use fire.Axe.Steps.{Call, completes, fails, cancels, step, run}
use fire.Axe.Task.{
  Outcome, succeeds, returns, breaks, Task, errors_of, notify, then_notify, may_retry, broken,
  settle,
}

errors_of-state : {Db : Type 0} (w : Db × Result (Unit {0})) → (errors_of w).0 ≡ w.0
errors_of-state (s, ok tt) = refl
errors_of-state (s, err x) = refl

module _ {J Data Progress : Type 0} (drv : Driver (Model Data Progress))
    (kind : Kind J Data Progress) (ctx : Context) (task : Task drv.Db J) where
  -- The handler and the notifier make calls of the package.
  pub record Calls : Type 0 where
    pub handles :
        (job : Job J) (attempt : ℕ) (s : drv.Db)
        → (cs : List (Call J Progress)) × ((task.handler job attempt s).0 ≡ run drv kind ctx cs s)
    pub notifies :
        (job : Job J) (cancelled : Bool) (reason : String) (s : drv.Db)
        → (cs : List (Call J Progress)) × ((notify drv kind ctx task task.notifier job cancelled
              reason s).0
            ≡ run drv kind ctx cs s)

  -- The call that ends an execution, where there is one: a job that returned without an error is
  -- completed, one that may not be retried is cancelled, and another one fails.
  pub data Ending (attempt : ℕ) : Outcome → Job J → Call J Progress → Type 0 where
    completed : {job : Job J} {now : ℕ} → Ending attempt succeeds job (completes job now)
    retried :
        {job : Job J} {reason : String} {delay now : ℕ}
        → Ending attempt (returns reason true) job (fails job reason delay now)
    given_up :
        {job : Job J} {reason : String} {now : ℕ}
        → Ending attempt (returns reason false) job (cancels job reason now)
    failed :
        {job : Job J} {x : Error} {delay now : ℕ}
        → may_retry drv kind ctx task attempt ≡ true
        → Ending attempt (breaks x) job (fails job (task.text x) delay now)
    exhausted :
        {job : Job J} {x : Error} {now : ℕ}
        → may_retry drv kind ctx task attempt ≡ false
        → Ending attempt (breaks x) job (cancels job (task.text x) now)

  notified :
      (k : Calls) (job : Job J) (cancelled : Bool) (reason : String)
      (w : drv.Db × Result (Unit {0}))
      → (ns : List (Call J Progress)) × ((then_notify drv kind ctx task job cancelled reason w).0
          ≡ run drv kind ctx ns w.0)
  unfolding run
  notified k job cancelled reason (s, ok tt) = k.notifies job cancelled reason s
  notified k job cancelled reason (s, err x) = ([], refl)

  broken-run :
      (k : Calls) (attempt now : ℕ) (job : Job J) (x : Error) (b : Bool)
      → may_retry drv kind ctx task attempt ≡ b
      → (s : drv.Db)
      → (c : Call J Progress) × (ns : List (Call J Progress)) × Ending attempt (breaks x) job c
        × ((broken drv kind ctx task attempt now job x b s).0 ≡ run drv kind ctx (c ∷ ns) s)
  unfolding run step
  broken-run k attempt now job x true e s =
      (fails job (task.text x) (task.delay attempt) now, [], failed e, errors_of-state _)
  broken-run k attempt now job x false e s =
      let (ns, f) =
        notified k job true (task.text x) (cancel drv kind ctx job (task.text x) now s) in
      (cancels job (task.text x) now, ns, exhausted e, f)

  -- What follows the handler is one ending call, and then what the notifier does.
  pub settle-run :
      (k : Calls) (attempt now : ℕ) (job : Job J) (outcome : Outcome) (s : drv.Db)
      → (c : Call J Progress) × (ns : List (Call J Progress)) × Ending attempt outcome job c
        × ((settle drv kind ctx task attempt now job outcome s).0 ≡ run drv kind ctx (c ∷ ns) s)
  unfolding settle run step
  settle-run k attempt now job succeeds s =
      let (ns, e) = notified k job false "" (complete drv kind ctx job now s) in
      (completes job now, ns, completed, e)
  settle-run k attempt now job (returns reason true) s =
      (fails job reason (task.delay attempt) now, [], retried, errors_of-state _)
  settle-run k attempt now job (returns reason false) s =
      let (ns, e) = notified k job true reason (cancel drv kind ctx job reason now s) in
      (cancels job reason now, ns, given_up, e)
  settle-run k attempt now job (breaks x) s =
      broken-run k attempt now job x (may_retry drv kind ctx task attempt) refl s

  -- The calls that follow the dequeue, by what it answered in the state that it left: none where it
  -- failed or the job was not dequeued, the handler's for the dequeued job where that took longer
  -- than the lifetime, and otherwise the handler's, the ending call of what it returned and the
  -- notifier's.
  pub data Course (s : drv.Db) (r : Result (Job J × Bool × ℕ))
      : Bool → List (Call J Progress) → Type 0 where
    refused : {late : Bool} (e : Error) → r ≡ err e → Course s r late []
    idle :
        {late : Bool} (job : Job J) (attempt : ℕ)
        → r ≡ ok (job, false, attempt)
        → Course s r late []
    overdue :
        (hs : List (Call J Progress)) (job : Job J) (attempt : ℕ)
        → r ≡ ok (job, true, attempt)
        → (task.handler job attempt s).0 ≡ run drv kind ctx hs s
        → Course s r true hs
    ended :
        (hs ns : List (Call J Progress)) (c : Call J Progress) (job : Job J) (attempt : ℕ)
        → r ≡ ok (job, true, attempt)
        → (task.handler job attempt s).0 ≡ run drv kind ctx hs s
        → Ending attempt (task.handler job attempt s).1.1 (task.handler job attempt s).1.0 c
        → Course s r false (hs ++ c ∷ ns)

  -- The dequeue of an execution.
  abbrev pub dequeued : ℕ → ℕ → M drv.Db (Job J × Bool × ℕ)
  dequeued id now =
      dequeue drv kind ctx (record { doc_id = id; label = ""; job = task.make }) task.timeout now

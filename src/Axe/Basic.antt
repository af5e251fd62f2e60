-- ===== src/Axe/Basic.antt =====
-- axe/basic.go: the life of a job. `now` is the clock at the call's reading of it; durations are
-- not negative. A store is known by a number.
use fire.Base.{
  ℕ_eq, String_eq, ltb, leb, ◌==◌, if◌then◌else◌, is_some, message, Result, ok, check, M, ◌>>=◌,
  ◌>>◌, pure, fail, lift, fail_if, ℕ, ◌+◌, String, Bool, true, false, not, ◌&&◌, ◌||◌, Option, none,
  some, List, [], ◌∷◌, ◌++◌,
}
use fire.Coal.Model.{b}
use fire.Coal.Driver.{Driver}
use fire.Coal.Manager.Defs.{Context}
use fire.Coal.Manager.Mutations.{insert_all, insert_if_missing, update_first}
use fire.Axe.Model.{
  State, enqueued, dequeued, completed, failed, cancelled, state_eq, Model, model_doc, Kind, Job,
}

abbrev pub no_sort : List String → Result (List String)
no_sort sort = ok sort

-- {"$in": {Enqueued, Dequeued, Failed}}
abbrev pub is_active : State → Bool
is_active enqueued = true
is_active dequeued = true
is_active failed = true
is_active _ = false

-- {"$in": {Completed, Cancelled}}
abbrev pub is_done : State → Bool
is_done completed = true
is_done cancelled = true
is_done _ = false

-- {"$gt": now - isolation} on a time that may be missing
abbrev pub finished_within : ℕ → ℕ → Option ℕ → Bool
finished_within now isolation none = false
finished_within now isolation (some t) = ltb now (t + isolation)

module _ {Data Progress : Type 0} where
  abbrev pub same_label : String → String → Model Data Progress → Bool
  same_label name label m = m.name == name && m.label == label

  -- The filter of Enqueue without isolation, and with it.
  abbrev pub queued : String → String → Model Data Progress → Bool
  queued name label m = same_label name label m && is_active m.state

  abbrev pub queued_or_recent : String → String → ℕ → ℕ → Model Data Progress → Bool
  queued_or_recent name label now isolation m =
      same_label name label m
      && ((is_active m.state && not (is_some m.finished))
          || (is_done m.state && finished_within now isolation m.finished))

  abbrev pub available_job : ℕ → ℕ → Model Data Progress → Bool
  available_job id now m = m.base.doc_id == id && is_active m.state && leb m.available now

  abbrev pub running_job : ℕ → Model Data Progress → Bool
  running_job id m = m.base.doc_id == id && state_eq m.state dequeued

  -- The updates, in the order of the operations below.
  abbrev pub start : ℕ → ℕ → Model Data Progress → Model Data Progress
  start now timeout m = record m {
    state = dequeued;
    available = now + timeout;
    started = some now;
    ended = none;
    attempts = m.attempts + 1;
    events = m.events ++ record { timestamp = now; state = dequeued; reason = "" } ∷ [];
  }

  abbrev pub prolong : Data → ℕ → Model Data Progress → Model Data Progress
  prolong content available m = record m { content = content; available = available }

  abbrev pub report : Data → String → Progress → Model Data Progress → Model Data Progress
  report content status progress m = record m {
    content = content;
    status = status;
    progress = progress;
  }

  abbrev pub finish : Data → ℕ → Progress → Model Data Progress → Model Data Progress
  finish content now full m = record m {
    state = completed;
    content = content;
    ended = some now;
    finished = some now;
    status = "";
    progress = full;
    events = m.events ++ record { timestamp = now; state = completed; reason = "" } ∷ [];
  }

  abbrev pub postpone : ℕ → String → ℕ → Model Data Progress → Model Data Progress
  postpone now reason delay m = record m {
    state = failed;
    available = now + delay;
    ended = some now;
    events = m.events ++ record { timestamp = now; state = failed; reason = reason } ∷ [];
  }

  abbrev pub abandon : ℕ → String → Model Data Progress → Model Data Progress
  abandon now reason m = record m {
    state = cancelled;
    ended = some now;
    finished = some now;
    events = m.events ++ record { timestamp = now; state = cancelled; reason = reason } ∷ [];
  }

-- `if !found { return xo.F("missing job") }`
abbrev pub found_or_missing : {S A : Type 0} → Option A → M S (Unit {0})
found_or_missing none = fail (message "missing job")
found_or_missing (some a) = pure tt

-- The transaction's store is another one.
abbrev pub foreign_store : Option ℕ → ℕ → Bool
foreign_store none store = false
foreign_store (some s) store = not (s == store)

abbrev pub identified : {J : Type 0} → ℕ → Job J → Job J
identified fresh job = if job.doc_id == 0 then record job { doc_id = fresh } else job

module _ {J Data Progress : Type 0} (kind : Kind J Data Progress) where
  abbrev pub new_model : Job J → Data → ℕ → ℕ → Model Data Progress
  new_model job content now delay = record {
    base = b job.doc_id;
    name = kind.name;
    label = job.label;
    content = content;
    state = enqueued;
    created = now;
    available = now + delay;
    started = none;
    ended = none;
    finished = none;
    attempts = 0;
    status = "";
    progress = kind.no_progress;
    events = record { timestamp = now; state = enqueued; reason = "" } ∷ [];
  }

  -- The choice of Enqueue's filter.
  abbrev pub blocking : String → ℕ → ℕ → Model Data Progress → Bool
  blocking label now isolation m =
      if ltb 0 isolation
      then queued_or_recent kind.name label now isolation m
      else queued kind.name label m

module _ {J Data Progress : Type 0} (drv : Driver (Model Data Progress))
    (kind : Kind J Data Progress) where
  open drv use {Db}

  unfoldable pub enqueue : Context → ℕ → Job J → ℕ → ℕ → ℕ → ℕ → M Db Bool
  enqueue ctx store job delay isolation now fresh = do
    let job' = identified fresh job
    fail_if (foreign_store ctx.transaction store)
        (message "transaction store does not match supplied store")
    lift (check (kind.validate job'.job))
    content ← lift (kind.marshal job'.job)
    let model = new_model kind job' content now delay
    if job'.label == "" && isolation == 0
        then (insert_all drv model_doc (model ∷ []) [] now (λ _. fresh) >>= λ _. pure true)
        else insert_if_missing drv model_doc ctx (ok (blocking kind job'.label now isolation))
            (λ d. d) model false [] now fresh

  unfoldable pub dequeued_job : Job J → Option (Model Data Progress) → M Db (Job J × Bool × ℕ)
  dequeued_job job none = pure (job, false, 0)
  dequeued_job job (some m) = do
    j ← lift (kind.unmarshal m.content job.job)
    lift (check (kind.validate j))
    pure (record { doc_id = job.doc_id; label = m.label; job = j }, true, m.attempts)

  unfoldable pub dequeue : Context → Job J → ℕ → ℕ → M Db (Job J × Bool × ℕ)
  unfolding dequeued_job
  dequeue ctx job timeout now = do
    fail_if (timeout == 0) (message "missing timeout")
    found ←
        update_first drv model_doc no_sort ctx (ok (available_job job.doc_id now))
          (ok (start now timeout)) [] false [] now
    dequeued_job job found

  -- The end that the operations on a running job share.
  unfoldable pub change_running :
      Context → ℕ → (Model Data Progress → Model Data Progress) → ℕ → M Db (Unit {0})
  change_running ctx id f now = do
    found ← update_first drv model_doc no_sort ctx (ok (running_job id)) (ok f) [] false [] now
    found_or_missing found

  unfoldable pub extend : Context → Job J → ℕ → ℕ → M Db (Unit {0})
  unfolding change_running
  extend ctx job timeout now = do
    lift (check (kind.validate job.job))
    content ← lift (kind.marshal job.job)
    change_running ctx job.doc_id (prolong content (now + timeout)) now

  unfoldable pub update : Context → Job J → String → Progress → ℕ → M Db (Unit {0})
  unfolding change_running
  update ctx job status progress now = do
    lift (check (kind.validate job.job))
    content ← lift (kind.marshal job.job)
    change_running ctx job.doc_id (report content status progress) now

  unfoldable pub complete : Context → Job J → ℕ → M Db (Unit {0})
  unfolding change_running
  complete ctx job now = do
    lift (check (kind.validate job.job))
    content ← lift (kind.marshal job.job)
    change_running ctx job.doc_id (finish content now kind.full_progress) now

  unfoldable pub fail_job : Context → Job J → String → ℕ → ℕ → M Db (Unit {0})
  unfolding change_running
  fail_job ctx job reason delay now = change_running ctx job.doc_id (postpone now reason delay) now

  unfoldable pub cancel : Context → Job J → String → ℕ → M Db (Unit {0})
  unfolding change_running
  cancel ctx job reason now = change_running ctx job.doc_id (abandon now reason) now

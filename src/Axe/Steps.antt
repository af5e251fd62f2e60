-- ===== src/Axe/Steps.antt =====
-- Histories of the operations of axe/basic.go, by any number of workers, and the rule for an
-- invariant of the single jobs.
use fire.Base.{
  ℕ_eq, String_eq, ◌==◌, if◌then◌else◌, All, ℕ, ◌≤◌, String, ◌≡◌, ◌⊎◌, true, none, List, [], ◌∷◌,
  ◌++◌, arith,
}
use fire.Base.{first, All}
use fire.Base.{first, update_first, All, All-append, All-update_first}
use fire.Coal.Driver.{Driver}
use fire.Coal.Manager.Defs.{Context}
use fire.Axe.Model.{State, dequeued, Model, Kind, Job, state_eq}
use fire.Axe.Basic.{
  is_active, available_job, running_job, start, prolong, report, finish, postpone, abandon,
  new_model, blocking, enqueue, dequeue, extend, update, complete, fail_job, cancel,
}

-- A call of a client or a worker, with the clock and the new ID that it meets.
pub data Call (J Progress : Type 0) : Type 0 where
  enqueues : Context → ℕ → Job J → ℕ → ℕ → ℕ → ℕ → Call J Progress
  dequeues : Job J → ℕ → ℕ → Call J Progress
  extends : Job J → ℕ → ℕ → Call J Progress
  updates : Job J → String → Progress → ℕ → Call J Progress
  completes : Job J → ℕ → Call J Progress
  fails : Job J → String → ℕ → ℕ → Call J Progress
  cancels : Job J → String → ℕ → Call J Progress

module _ {J Data Progress : Type 0} (drv : Driver (Model Data Progress))
    (kind : Kind J Data Progress) (ctx : Context) where
  unfoldable pub step : Call J Progress → drv.Db → drv.Db
  step (enqueues c store job delay isolation now fresh) s =
      (enqueue drv kind c store job delay isolation now fresh s).0
  step (dequeues job timeout now) s = (dequeue drv kind ctx job timeout now s).0
  step (extends job timeout now) s = (extend drv kind ctx job timeout now s).0
  step (updates job status progress now) s = (update drv kind ctx job status progress now s).0
  step (completes job now) s = (complete drv kind ctx job now s).0
  step (fails job reason delay now) s = (fail_job drv kind ctx job reason delay now s).0
  step (cancels job reason now) s = (cancel drv kind ctx job reason now s).0

  unfoldable pub run : List (Call J Progress) → drv.Db → drv.Db
  unfolding step
  run [] s = s
  run (c ∷ cs) s = run cs (step c s)

-- What the calls of a history may do: the IDs of new jobs, the jobs that are dequeued, with the
-- clock, the running jobs that are changed, and those that fail or are extended, which changes the
-- time at which they are available.
pub record Scope : Type 1 where
  pub ids : ℕ → Type 0
  pub begins : ℕ → ℕ → Type 0
  pub runs : ℕ → Type 0
  pub frees : ℕ → Type 0

abbrev pub anything : Scope
anything = record {
  ids = λ _. Unit {0};
  begins = λ _ _. Unit {0};
  runs = λ _. Unit {0};
  frees = λ _. Unit {0};
}

abbrev pub Within : {J Progress : Type 0} → Scope → Call J Progress → Type 0
Within scope (enqueues c store job delay isolation now fresh) =
    scope.ids (if job.doc_id == 0 then fresh else job.doc_id)
Within scope (dequeues job timeout now) = scope.begins job.doc_id now
Within scope (extends job timeout now) = scope.frees job.doc_id
Within scope (updates job status progress now) = scope.runs job.doc_id
Within scope (completes job now) = scope.runs job.doc_id
Within scope (fails job reason delay now) = scope.frees job.doc_id
Within scope (cancels job reason now) = scope.runs job.doc_id

-- A property of a job that its creation gives and each of its changes keeps.
pub record IsClosed {J Data Progress : Type 0} (kind : Kind J Data Progress) (Ids : ℕ → Type 0)
    (P : Model Data Progress → Type 0) : Type 0 where
  pub created :
      (job : Job J) (content : Data) (now delay : ℕ)
      → Ids job.doc_id
      → P (new_model kind job content now delay)
  pub started :
      (m : Model Data Progress) (now timeout : ℕ)
      → P m
      → is_active m.state ≡ true
      → m.available ≤ now
      → P (start now timeout m)
  pub prolonged :
      (m : Model Data Progress) (content : Data) (available : ℕ)
      → P m
      → m.state ≡ dequeued
      → P (prolong content available m)
  pub reported :
      (m : Model Data Progress) (content : Data) (status : String) (progress : Progress)
      → P m
      → m.state ≡ dequeued
      → P (report content status progress m)
  pub finished :
      (m : Model Data Progress) (content : Data) (now : ℕ) (full : Progress)
      → P m
      → m.state ≡ dequeued
      → P (finish content now full m)
  pub postponed :
      (m : Model Data Progress) (now : ℕ) (reason : String) (delay : ℕ)
      → P m
      → m.state ≡ dequeued
      → P (postpone now reason delay m)
  pub abandoned :
      (m : Model Data Progress) (now : ℕ) (reason : String)
      → P m
      → m.state ≡ dequeued
      → P (abandon now reason m)

pub Within-anything : {J Progress : Type 0} (cs : List (Call J Progress)) → All (Within anything) cs
Within-anything [] = tt
Within-anything (enqueues c store job delay isolation now fresh ∷ cs) = (tt, Within-anything cs)
Within-anything (dequeues job timeout now ∷ cs) = (tt, Within-anything cs)
Within-anything (extends job timeout now ∷ cs) = (tt, Within-anything cs)
Within-anything (updates job status progress now ∷ cs) = (tt, Within-anything cs)
Within-anything (completes job now ∷ cs) = (tt, Within-anything cs)
Within-anything (fails job reason delay now ∷ cs) = (tt, Within-anything cs)
Within-anything (cancels job reason now ∷ cs) = (tt, Within-anything cs)

module _ {Data Progress : Type 0} where
  -- The changes of a running job.
  pub data Change : (Model Data Progress → Model Data Progress) → Type 0 where
    prolongs : (content : Data) (available : ℕ) → Change (prolong content available)
    reports :
        (content : Data) (status : String) (progress : Progress)
        → Change (report content status progress)
    finishes : (content : Data) (now : ℕ) (full : Progress) → Change (finish content now full)
    postpones : (now : ℕ) (reason : String) (delay : ℕ) → Change (postpone now reason delay)
    abandons : (now : ℕ) (reason : String) → Change (abandon now reason)

  -- Whether a scope allows a change of the running job of an ID.
  abbrev pub Allowed :
      Scope → ℕ → {f : Model Data Progress → Model Data Progress} → Change f → Type 0
  Allowed scope id (prolongs content available) = scope.frees id
  Allowed scope id (reports content status progress) = scope.runs id
  Allowed scope id (finishes content now full) = scope.runs id
  Allowed scope id (postpones now reason delay) = scope.frees id
  Allowed scope id (abandons now reason) = scope.runs id

-- A property of the collection that a new job keeps, where Enqueue makes one, and so do the start
-- of a job and the changes of a running one.
pub record IsInvariant {J Data Progress : Type 0} (kind : Kind J Data Progress) (scope : Scope)
    (Inv : List (Model Data Progress) → Type 0) : Type 0 where
  pub inserted :
      (job : Job J) (content : Data) (now delay isolation : ℕ) (xs : List (Model Data Progress))
      → scope.ids job.doc_id
      → (job.label ≡ "") ⊎ (first (blocking kind job.label now isolation) xs ≡ none)
      → Inv xs
      → Inv (xs ++ new_model kind job content now delay ∷ [])
  pub begun :
      (id now timeout : ℕ) (xs : List (Model Data Progress))
      → scope.begins id now
      → Inv xs
      → Inv (update_first (available_job id now) (start now timeout) xs)
  pub changed :
      (id : ℕ) {f : Model Data Progress → Model Data Progress} (xs : List (Model Data Progress))
      → (c : Change f) → Allowed scope id c
      → Inv xs
      → Inv (update_first (running_job id) f xs)

pub state_eq_sound : (s t : State) → state_eq s t ≡ true → s ≡ t
state_eq_sound s t h = ground arith

-- A property of single jobs holds of all of them.
module _ {J Data Progress : Type 0} {kind : Kind J Data Progress} {Ids : ℕ → Type 0}
    {P : Model Data Progress → Type 0} (closed : IsClosed kind Ids P) where
  change-closed :
      {f : Model Data Progress → Model Data Progress} (m : Model Data Progress)
      → Change f
      → P m
      → m.state ≡ dequeued
      → P (f m)
  change-closed m (prolongs content available) p r = closed.prolonged m content available p r
  change-closed m (reports content status progress) p r =
      closed.reported m content status progress p r
  change-closed m (finishes content now full) p r = closed.finished m content now full p r
  change-closed m (postpones now reason delay) p r = closed.postponed m now reason delay p r
  change-closed m (abandons now reason) p r = closed.abandoned m now reason p r

  pub IsClosed-IsInvariant : IsInvariant kind (record anything { ids = Ids }) (All P)
  IsClosed-IsInvariant = record {
    inserted = λ job content now delay isolation xs i free h.
        All-append P xs _ h (closed.created job content now delay i, tt);
    begun = λ id now timeout xs _.
        All-update_first P (available_job id now) (start now timeout) xs
          (λ m p t. closed.started m now timeout p (ground arith) (ground arith));
    changed = λ id {f} xs c _.
        All-update_first P (running_job id) f xs
          (λ m p t. change-closed m c p (ground (arith, state_eq_sound m.state dequeued)));
  }

-- ===== src/Axe/TaskTests.antt =====
-- Runs of axe/task.go on a collection in memory, with the theorem at such a run.
use fire.Base.{
  ℕ_eq, String_eq, ℤ_eq, message, ok, ℕ, ◌*◌, ◌≡◌, refl, false, none, List, [], ◌∷◌, map,
}
use fire.Coal.Driver.{Driver}
use fire.Coal.Memory.{memory}
use fire.Coal.Manager.Defs.{Context}
use fire.Coal.Manager.Mutations.{update_first}
use fire.Axe.Model.{State, failed, cancelled, Model, Kind, Job}
use fire.Axe.Basic.{update, new_model, dequeue, fail_job, cancel, dequeued_job, change_running}
use fire.Axe.Task.{Task, breaks, settle, handled, execute}

abbrev kind : Kind ℕ ℕ ℕ
kind = record {
  name = "count";
  validate = λ j. none;
  marshal = λ j. ok j;
  unmarshal = λ d j. ok d;
  no_progress = 0;
  full_progress = 100;
}

abbrev ctx : Context
ctx = record { transaction = none }

abbrev job : Job ℕ
job = record { doc_id = 1; label = ""; job = 5 }

abbrev Drv : Driver (Model ℕ ℕ)
Drv = memory (Model ℕ ℕ)

-- The handler reports its progress and then breaks.
abbrev task : ℕ → Task Drv.Db ℕ
task attempts = record {
  make = 0;
  handler =
      λ job attempt s. ((update Drv kind ctx job "half" 50 29 s).0, (job, breaks (message "boom")));
  notifier = none;
  max_attempts = attempts;
  timeout = 30;
  delay = λ attempt. attempt * 10;
  text = λ x. "boom";
}

abbrev stored : List (Model ℕ ℕ)
stored = new_model kind job 5 10 0 ∷ []

abbrev states : List (Model ℕ ℕ) → List State
states xs = map (λ m. m.state) xs

-- The first attempt is the last one, or there is a second one.
given_up : states (execute Drv kind ctx (task 1) false 1 20 30 stored).0 ≡ cancelled ∷ []
unfolding execute handled settle dequeue dequeued_job update cancel change_running update_first
given_up = refl

retried : states (execute Drv kind ctx (task 2) false 1 20 30 stored).0 ≡ failed ∷ []
unfolding execute handled settle dequeue dequeued_job update fail_job change_running update_first
retried = refl

-- ===== src/Axe/Model.antt =====
-- axe/model.go and axe/job.go: the states of a job, its stored document and what a type of jobs
-- provides. The encoded data and the progress (a float64) are parameters.
use fire.Base.{
  ℕ_eq, String_eq, ◌==◌, if◌then◌else◌, Error, invalid, Result, ℕ, String, Bool, true, false,
  Option, none, some, List,
}
use fire.Coal.Model.{Base}
use fire.Coal.Manager.Defs.{Doc}
use fire.Glut.Model.{zero_pointer}

pub data State : Type 0 where
  enqueued dequeued completed failed cancelled : State

abbrev pub state_eq : State → State → Bool
state_eq enqueued enqueued = true
state_eq dequeued dequeued = true
state_eq completed completed = true
state_eq failed failed = true
state_eq cancelled cancelled = true
state_eq _ _ = false

pub record Event : Type 0 where
  pub timestamp : ℕ
  pub state : State
  pub reason : String

pub record Model (Data Progress : Type 0) : Type 0 where
  pub base : Base
  pub name : String
  pub label : String
  pub content : Data
  pub state : State
  pub created : ℕ
  pub available : ℕ
  pub started : Option ℕ
  pub ended : Option ℕ
  pub finished : Option ℕ
  pub attempts : ℕ
  pub status : String
  pub progress : Progress
  pub events : List Event

module _ {Data Progress : Type 0} where
  -- Validate. Every value of `State` is a valid state, and every text is valid UTF-8.
  abbrev pub validate : Model Data Progress → Option Error
  validate m =
      if m.name == ""
      then some (invalid "Name")
      else if m.created == 0
      then some (invalid "Created")
      else if m.available == 0
      then some (invalid "Available")
      else if zero_pointer m.started
      then some (invalid "Started")
      else if zero_pointer m.ended
      then some (invalid "Ended")
      else if zero_pointer m.finished
      then some (invalid "Finished")
      else none

  abbrev pub model_doc : Doc (Model Data Progress)
  model_doc = record {
    base = λ m. m.base;
    with_base = λ b m. record m { base = b };
    validate = validate;
  }

-- What a type of jobs provides: its name, its methods and its coding, and the values 0 and 1 of
-- the progress.
pub record Kind (J Data Progress : Type 0) : Type 0 where
  pub name : String
  pub validate : J → Option Error
  pub marshal : J → Result Data
  pub unmarshal : Data → J → Result J
  pub no_progress : Progress
  pub full_progress : Progress

-- A job in the hands of a caller: its base and its content.
pub record Job (J : Type 0) : Type 0 where
  pub doc_id : ℕ
  pub label : String
  pub job : J

-- ===== src/Axe/Lifecycle.antt =====
-- The life of a stored job over whole histories of axe/basic.go's operations.
use mathlib.Core.Path.{subst}
use fire.Base.{
  ℕ_eq, String_eq, ltb, if◌then◌else◌, is_some, All, ℕ, ◌+◌, ◌<◌, ◌≡◌, refl, ◌≢◌, true, none, List,
  [], ◌∷◌, ◌++◌, arith,
}
use fire.Base.{All}
use fire.Base.{All}
use fire.Coal.Driver.{Driver, IsDriver}
use fire.Coal.Manager.Defs.{Context}
use fire.Axe.Model.{State, enqueued, dequeued, state_eq, Event, Model, Kind}
use fire.Axe.Basic.{is_active, is_done}
use fire.Axe.Steps.{Call, run, Within, anything, Within-anything, IsClosed, IsClosed-IsInvariant}
use fire.Axe.Closure.{run-Keeps}

-- The state that the last event reports.
abbrev pub last_state : State → List Event → State
last_state s [] = s
last_state s (e ∷ es) = last_state e.state es

-- How many events report the state.
abbrev pub count_state : State → List Event → ℕ
count_state s [] = 0
count_state s (e ∷ es) = (if state_eq e.state s then 1 else 0) + count_state s es

pub last_state-snoc :
    (s : State) (es : List Event) (e : Event) → last_state s (es ++ e ∷ []) ≡ e.state
last_state-snoc s [] e = refl
last_state-snoc s (d ∷ es) e = last_state-snoc d.state es e

pub count_state-snoc :
    (s : State) (es : List Event) (e : Event)
    → count_state s (es ++ e ∷ []) ≡ count_state s es + (if state_eq e.state s then 1 else 0)
count_state-snoc s [] e = omega arith
count_state-snoc s (d ∷ es) e = omega (arith, count_state-snoc s es e)

module _ {Data Progress : Type 0} where
  -- What holds of every job between two operations.
  pub record Sound (m : Model Data Progress) : Type 0 where
    pub logged : last_state enqueued m.events ≡ m.state
    pub counted : m.attempts ≡ count_state dequeued m.events
    pub started_once : is_some m.started ≡ ltb 0 m.attempts
    pub finished_done : is_some m.finished ≡ is_done m.state
    pub ended_closed : m.state ≡ dequeued → m.ended ≡ none
    pub ended_open : m.state ≢ dequeued → m.state ≢ enqueued → is_some m.ended ≡ true
    pub ran : m.state ≢ enqueued → 0 < m.attempts

module _ {J Data Progress : Type 0} (kind : Kind J Data Progress) where
  pub Sound-closed : IsClosed kind (λ _. Unit {0}) Sound
  Sound-closed = record {
    created = λ job content now delay i. ground arith;
    started = λ m now timeout s a le. grind (arith, last_state-snoc, count_state-snoc);
    prolonged = λ m content available s d. ground arith;
    reported = λ m content status progress s d. ground arith;
    finished = λ m content now full s d. grind (arith, last_state-snoc, count_state-snoc);
    postponed = λ m now reason delay s d. grind (arith, last_state-snoc, count_state-snoc);
    abandoned = λ m now reason s d. grind (arith, last_state-snoc, count_state-snoc);
  }

  -- After any history every job is sound, where all jobs were before: its last event reports its
  -- state, it counts an attempt for each dequeue that was logged, and the times set are those of
  -- its state.
  pub run-Sound :
      (drv : Driver (Model Data Progress)) (law : IsDriver drv) (ctx : Context)
      (cs : List (Call J Progress)) (s : drv.Db)
      → All Sound (drv.docs s)
      → All Sound (drv.docs (run drv kind ctx cs s))
  run-Sound drv law ctx cs s =
      run-Keeps drv law kind anything (All Sound) (IsClosed-IsInvariant Sound-closed) ctx cs s
        (Within-anything cs)

  -- The job with the ID is this one.
  abbrev pub Fixed : ℕ → Model Data Progress → Model Data Progress → Type 0
  Fixed i d m = m.base.doc_id ≡ i → m ≡ d

  module _ (i : ℕ) (d : Model Data Progress) (done : is_done d.state ≡ true) where
    not_active :
        (m : Model Data Progress) → Fixed i d m → is_active m.state ≡ true → m.base.doc_id ≢ i
    not_active m p a e =
        let active : is_active d.state ≡ true = subst (λ n. is_active n.state ≡ true) (p e) a in
        clash d.state done active
      where
        clash : (s : State) → is_done s ≡ true → is_active s ≡ true → ⊥
        clash s x y = ground arith

    not_running : (m : Model Data Progress) → Fixed i d m → m.state ≡ dequeued → m.base.doc_id ≢ i
    not_running m p r = not_active m p (rw r)

    Fixed-closed : IsClosed kind (λ id. id ≢ i) (Fixed i d)
    Fixed-closed = record {
      created = λ job content now delay n e. absurd (n e);
      started = λ m now timeout p a le e. absurd (not_active m p a e);
      prolonged = λ m content available p r e. absurd (not_running m p r e);
      reported = λ m content status progress p r e. absurd (not_running m p r e);
      finished = λ m content now full p r e. absurd (not_running m p r e);
      postponed = λ m now reason delay p r e. absurd (not_running m p r e);
      abandoned = λ m now reason p r e. absurd (not_running m p r e);
    }

  -- Where every stored job with an ID is one given completed or cancelled job, that is still so
  -- after any history in which no new job is given the ID: no operation executes, fails, cancels or
  -- completes it again.
  pub done_is_final :
      (drv : Driver (Model Data Progress)) (law : IsDriver drv) (ctx : Context)
      (cs : List (Call J Progress)) (s : drv.Db) (i : ℕ) (d : Model Data Progress)
      → is_done d.state ≡ true
      → All (Within (record anything { ids = λ id. id ≢ i })) cs
      → All (Fixed i d) (drv.docs s)
      → All (Fixed i d) (drv.docs (run drv kind ctx cs s))
  done_is_final drv law ctx cs s i d done =
      run-Keeps drv law kind (record anything { ids = λ id. id ≢ i }) (All (Fixed i d))
        (IsClosed-IsInvariant (Fixed-closed i d done)) ctx cs s

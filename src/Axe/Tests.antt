-- ===== src/Axe/Tests.antt =====
-- Runs of axe/basic.go on a collection in memory, with the theorems at these runs.
use fire.Base.{
  ℕ_eq, String_eq, ◌==◌, if◌then◌else◌, All, invalid, ok, ℕ, String, ◌≡◌, refl, ◌≢◌, true, none,
  some, List, [], ◌∷◌, arith,
}
use fire.Base.{All}
use text.Mathlib.TextEquality.{eq_iff}
use fire.Coal.Driver.{Driver}
use fire.Coal.Memory.{memory, memory-IsDriver}
use fire.Coal.Manager.Defs.{Context}
use fire.Coal.Manager.Mutations.{update_first}
use fire.Axe.Model.{Model, Kind, Job}
use fire.Axe.Basic.{dequeue, start, finish, new_model}
use fire.Axe.Steps.{
  Call, enqueues, dequeues, extends, updates, completes, fails, cancels, run, Within, anything,
}
use fire.Axe.Lifecycle.{Sound, run-Sound, Fixed, done_is_final}
use fire.Axe.Labels.{Single, label-Single}
use fire.Axe.Leases.{Leased, others, dequeue-Leased, Leased-exclusive}

-- A type of jobs whose data is a number and whose progress is in percent.
abbrev kind : Kind ℕ ℕ ℕ
kind = record {
  name = "count";
  validate = λ j. if j == 99 then some (invalid "Job") else none;
  marshal = λ j. ok j;
  unmarshal = λ d j. ok d;
  no_progress = 0;
  full_progress = 100;
}

abbrev ctx : Context
ctx = record { transaction = none }

abbrev job : ℕ → String → Job ℕ
job id label = record { doc_id = id; label = label; job = 5 }

-- A job that was enqueued at 10, and then dequeued at 20 for 30.
abbrev waiting : ℕ → String → Model ℕ ℕ
waiting id label = new_model kind (job id label) 5 10 0

abbrev running : ℕ → String → Model ℕ ℕ
running id label = start 20 30 (waiting id label)

-- A job that was completed at 22.
abbrev done : Model ℕ ℕ
done = finish 6 22 100 (running 3 "a")

-- Two workers and a client: the first job is running, a second one is enqueued and executed.
abbrev history : List (Call ℕ ℕ)
history =
    enqueues ctx 1 (job 2 "b") 0 0 25 0
    ∷ dequeues (job 1 "a") 30 26
    ∷ dequeues (job 2 "b") 30 27
    ∷ extends (job 2 "b") 40 28
    ∷ updates (job 2 "b") "half" 50 29
    ∷ fails (job 2 "b") "error" 5 30
    ∷ dequeues (job 2 "b") 30 36
    ∷ completes (job 2 "b") 37
    ∷ cancels (job 2 "b") "late" 38
    ∷ []

abbrev Drv : Driver (Model ℕ ℕ)
Drv = memory (Model ℕ ℕ)

two_ne_three : (job 2 "b").doc_id ≢ 3
two_ne_three = ground arith

two_ne_one : (job 2 "b").doc_id ≢ 1
two_ne_one = ground arith

Leased-exclusive_example :
    (dequeue Drv kind ctx (job 1 "a") 30 45 (run Drv kind ctx history (running 1 "a" ∷ []))).1
    ≢ ok (job 1 "a", true, 2)
Leased-exclusive_example =
    Leased-exclusive Drv (memory-IsDriver (Model ℕ ℕ)) kind ctx (job 1 "a") 50 30 45 history
      (running 1 "a" ∷ []) (job 1 "a") 2 ((λ t. (refl, refl)), tt) scope (omega arith)
  where
    scope : All (Within (others Drv (memory-IsDriver (Model ℕ ℕ)) kind 1 50)) history
    scope = (
      two_ne_one,
      (
        (λ e. omega arith),
        (
          (λ e. absurd (two_ne_one e)),
          (two_ne_one, (tt, (two_ne_one, ((λ e. absurd (two_ne_one e)), (tt, (tt, tt)))))),
        ),
      ),
    )

-- Once the lease is over the job is dequeued again.
dequeued_again :
    (dequeue Drv kind ctx (job 1 "a") 30 50 (running 1 "a" ∷ [])).1 ≡ ok (job 1 "a", true, 2)
unfolding dequeue update_first
dequeued_again = refl

answered : (dequeue Drv kind ctx (job 1 "a") 30 20 (waiting 1 "a" ∷ [])).1 ≡ ok (job 1 "a", true, 1)
unfolding dequeue update_first
answered = refl

dequeue-Leased_example :
    All
      (Leased Drv (memory-IsDriver (Model ℕ ℕ)) kind 1 50)
      (dequeue Drv kind ctx (job 1 "a") 30 20 (waiting 1 "a" ∷ [])).0
dequeue-Leased_example =
    dequeue-Leased Drv (memory-IsDriver (Model ℕ ℕ)) kind ctx (job 1 "a") 30 20 (waiting 1 "a" ∷ [])
      (job 1 "a") 1 (omega arith) answered

waiting-Sound : Sound (waiting 1 "a")
waiting-Sound = record {
  logged = refl;
  counted = refl;
  started_once = refl;
  finished_done = refl;
  ended_closed = λ e. refl;
  ended_open = λ n o. absurd (o refl);
  ran = λ o. absurd (o refl);
}

done-Fixed : All (Fixed kind 3 done) (waiting 1 "a" ∷ done ∷ [])
done-Fixed = ((λ e. ground arith), ((λ e. refl), tt))

done_is_final_example :
    All (Fixed kind 3 done) (run Drv kind ctx history (waiting 1 "a" ∷ done ∷ []))
done_is_final_example =
    done_is_final kind Drv (memory-IsDriver (Model ℕ ℕ)) ctx history (waiting 1 "a" ∷ done ∷ []) 3
      done refl scope done-Fixed
  where
    scope : All (Within (record anything { ids = λ id. id ≢ 3 })) history
    scope = (two_ne_three, (tt, (tt, (tt, (tt, (tt, (tt, (tt, (tt, tt)))))))))

run-Sound_example : All Sound (run Drv kind ctx history (waiting 1 "a" ∷ []))
run-Sound_example =
    run-Sound kind Drv (memory-IsDriver (Model ℕ ℕ)) ctx history (waiting 1 "a" ∷ [])
      (waiting-Sound, tt)

labelled : (job 1 "a").label ≢ ""
labelled = ground (arith, eq_iff "a" "")

label-Single_example : Single kind "a" labelled (run Drv kind ctx history (waiting 1 "a" ∷ []))
label-Single_example =
    label-Single kind "a" labelled Drv (memory-IsDriver (Model ℕ ℕ)) ctx history
      (waiting 1 "a" ∷ []) (record { sound = (waiting-Sound, tt); single = omega arith })

-- ===== src/Glut/Tests.antt =====
-- Runs of glut/locks.go on a collection in memory, with the theorems at these runs.
use fire.Base.{
  ℕ_eq, String_eq, ◌==◌, if◌then◌else◌, All, invalid, ok, ℕ, ◌≡◌, refl, ◌≢◌, true, false, none,
  some, List, [], ◌∷◌, arith,
}
use fire.Base.{All}
use text.Mathlib.TextEquality.{eq_iff}
use fire.Coal.Memory.{memory, memory-IsDriver}
use fire.Coal.Manager.Defs.{Context, find_first}
use fire.Coal.Manager.Mutations.{upsert, update_first, insert_if_missing, delete_first}
use fire.Glut.Model.{Model}
use fire.Glut.Values.{Kind, Handle, get_key, get_deadline}
use fire.Glut.Basic.{set, no_base, get, ensure}
use fire.Glut.Locks.{Times, lock, set_locked, get_locked, delete_locked, unlock}
use fire.Glut.Held.{Held}
use fire.Glut.Placement.{Locked}
use fire.Glut.Acquisition.{lock-Held}
use fire.Glut.Progress.{set_locked_lem}
use fire.Glut.Refusals.{lock_refused, others_refused}
use fire.Glut.History.{
  Call, locks, sets_locked, gets_locked, deletes_locked, unlocks, gets, ensures, sets, run, Foreign,
  run-Held, lock_is_kept,
}

-- A type of values whose data is a number; 99 is not valid.
abbrev kind : Kind ℕ ℕ
kind = record {
  key = "counter";
  ttl = 0;
  extension = none;
  restriction = none;
  validate = λ v. if v == 99 then some (invalid "Value") else none;
  marshal = λ v. ok v;
  unmarshal = λ d v. ok d;
}

abbrev ctx : Context
ctx = record { transaction = none }

abbrev mine : Handle ℕ
mine = record { token = 7; value = 6 }

abbrev theirs : Handle ℕ
theirs = record { token = 8; value = 3 }

-- The value 5 is locked under the token 7 until 100.
abbrev held : List (Model ℕ)
held =
    record {
      base = no_base;
      key = "counter";
      content = 5;
      deadline = none;
      locked = some 100;
      token = some 7;
    }
    ∷ []

abbrev at : ℕ → Times
at now = record { at_deadline = now; at_locked = now; at_filter = now }

abbrev history : List (Call ℕ)
history =
    locks theirs 20 (at 50) 9 1
    ∷ sets_locked theirs 51 51
    ∷ gets_locked theirs 52 52
    ∷ deletes_locked theirs 53 53
    ∷ unlocks theirs 54 54
    ∷ gets theirs 55
    ∷ ensures theirs 56 2
    ∷ []

held-Held : Held "counter" 7 100 (λ c. c ≡ 5) held
held-Held = record { owned = ((λ e. (refl, refl, refl)), tt); present = refl }

apart : theirs.token ≢ 7
apart = ground arith

history-Foreign :
    All
      (Foreign (memory (Model ℕ)) (memory-IsDriver (Model ℕ)) kind "counter" 7 100 (λ c. c ≡ 5))
      history
history-Foreign = (
  ((λ _. apart), omega arith),
  ((λ _. apart), ((λ _. apart), ((λ _. apart), ((λ _. apart), (tt, (tt, tt)))))),
)

key_of : (v : ℕ) → get_key kind v ≡ ok "counter"
unfolding get_key
key_of v = refl

deadline_of : get_deadline kind 60 6 ≡ ok none
unfolding get_deadline
deadline_of = refl

-- Somebody sets the value without the lock, too.
abbrev overwriting : List (Call ℕ)
overwriting = sets theirs 49 3 4 ∷ history

held-Any : Held "counter" 7 100 (λ _. Unit {0}) held
held-Any = record { owned = ((λ e. (refl, refl, tt)), tt); present = refl }

overwriting-Foreign :
    All
      (Foreign (memory (Model ℕ)) (memory-IsDriver (Model ℕ)) kind "counter" 7 100 (λ _. Unit {0}))
      overwriting
overwriting-Foreign = (
  (λ _ x. tt),
  (
    ((λ _. apart), omega arith),
    ((λ _. apart), ((λ _. apart), ((λ _. apart), ((λ _. apart), (tt, (tt, tt)))))),
  ),
)

lock_is_kept_example :
    (set_locked
      (memory (Model ℕ))
      kind
      ctx
      mine
      60
      61
      (run (memory (Model ℕ)) kind 0 ctx overwriting held)).1
    ≢ ok false
lock_is_kept_example =
    lock_is_kept (memory (Model ℕ)) (memory-IsDriver (Model ℕ)) kind 0 ctx "counter" 7 100
      overwriting mine 60 61 held held-Any overwriting-Foreign (key_of 6) refl (omega arith)

-- The holder's SetLocked does answer that the value was set.
set_in_time :
    (set_locked
      (memory (Model ℕ))
      kind
      ctx
      mine
      60
      61
      (run (memory (Model ℕ)) kind 0 ctx overwriting held)).1
    ≡ ok true
unfolding set_locked run lock get_locked delete_locked unlock get_key get_deadline update_first
    ensure set upsert insert_if_missing get find_first delete_first
set_in_time = refl

-- The lock that has timed out is gone.
set_too_late : (set_locked (memory (Model ℕ)) kind ctx mine 100 100 held).1 ≡ ok false
unfolding set_locked get_key get_deadline update_first
set_too_late = refl

lock_refused_example :
    Held "counter" 7 100
      (λ c. c ≡ 5)
      (lock (memory (Model ℕ)) kind ctx (λ s. s) 0 theirs 20 (at 50) 9 1 held).0
    × ((h : Handle ℕ)
        → (lock (memory (Model ℕ)) kind ctx (λ s. s) 0 theirs 20 (at 50) 9 1 held).1 ≢ ok (h, true))
lock_refused_example =
    lock_refused (memory (Model ℕ)) (memory-IsDriver (Model ℕ)) kind "counter" 7 100 (λ c. c ≡ 5)
      ctx (λ s. s) 0 theirs 20 (at 50) 9 1 held (λ s i. i) (key_of 3) apart (omega arith) held-Held

others_refused_example :
    (Held "counter" 7 100 (λ c. c ≡ 5) (set_locked (memory (Model ℕ)) kind ctx theirs 50 51 held).0
      × ((set_locked (memory (Model ℕ)) kind ctx theirs 50 51 held).1 ≢ ok true))
    × (Held "counter" 7 100 (λ c. c ≡ 5) (get_locked (memory (Model ℕ)) kind ctx theirs 50 held).0
        × ((h : Handle ℕ)
            → (get_locked (memory (Model ℕ)) kind ctx theirs 50 held).1 ≢ ok (h, true)))
    × (Held "counter" 7 100 (λ c. c ≡ 5) (delete_locked (memory (Model ℕ)) kind theirs 50 held).0
        × ((delete_locked (memory (Model ℕ)) kind theirs 50 held).1 ≢ ok true))
    × (Held "counter" 7 100 (λ c. c ≡ 5) (unlock (memory (Model ℕ)) kind ctx theirs 50 51 held).0
        × ((unlock (memory (Model ℕ)) kind ctx theirs 50 51 held).1 ≢ ok true))
others_refused_example =
    others_refused (memory (Model ℕ)) (memory-IsDriver (Model ℕ)) kind "counter" 7 100 (λ c. c ≡ 5)
      ctx theirs 50 51 held (key_of 3) apart held-Held

run-Held_example :
    Held "counter" 7 100 (λ c. c ≡ 5) (run (memory (Model ℕ)) kind 0 ctx history held)
run-Held_example =
    run-Held (memory (Model ℕ)) (memory-IsDriver (Model ℕ)) kind "counter" 7 100 (λ c. c ≡ 5) 0 ctx
      history held history-Foreign held-Held

locked_anew :
    (lock (memory (Model ℕ)) kind ctx (λ s. s) 0 theirs 20 (at 50) 9 1 []).1 ≡ ok (theirs, true)
unfolding lock get_key get_deadline insert_if_missing
locked_anew = refl

lock-Held_example :
    Locked "counter" 8 70 (lock (memory (Model ℕ)) kind ctx (λ s. s) 0 theirs 20 (at 50) 9 1 []).0
lock-Held_example =
    lock-Held (memory (Model ℕ)) (memory-IsDriver (Model ℕ)) kind ctx (λ s. s) 0 theirs 20 (at 50) 9
      1 [] "counter" theirs (key_of 3) (omega arith) (λ t so. so) locked_anew

set_locked_lem_example : (set_locked (memory (Model ℕ)) kind ctx mine 60 61 held).1 ≡ ok true
set_locked_lem_example =
    set_locked_lem (memory (Model ℕ)) (memory-IsDriver (Model ℕ)) kind ctx "counter" 7 100
      (λ c. c ≡ 5) mine 60 61 6 none held _ refl held-Held (key_of 6) deadline_of refl refl
      (ground (arith, eq_iff "counter" "")) refl (ground arith) refl (omega arith)

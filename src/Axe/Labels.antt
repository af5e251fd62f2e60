-- ===== src/Axe/Labels.antt =====
-- axe/basic.go, Enqueue: the jobs of one label.
use fire.Base.{
  ℕ_eq, String_eq, ◌==◌, Bool-cases, ==_sound, length, length-append, All, select, ℕ, ◌≤◌, String,
  ◌≡◌, sym, ◌∙◌, ◌≢◌, ◌⊎◌, inl, inr, Bool, true, false, none, List, [], ◌∷◌, ◌++◌, arith,
}
use fire.Base.{first, All}
use fire.Base.{All, first, select, length-append, select-update_first, select-append, select-none}
use fire.Coal.Driver.{Driver, IsDriver}
use fire.Coal.Manager.Defs.{Context}
use fire.Axe.Model.{dequeued, Model, Kind, Job}
use fire.Axe.Basic.{queued, blocking, new_model, available_job, running_job, start}
use fire.Axe.Steps.{
  Call, run, Within-anything, anything, Change, prolongs, reports, finishes, postpones, abandons,
  IsInvariant, IsClosed-IsInvariant, state_eq_sound,
}
use fire.Axe.Closure.{run-Keeps}
use fire.Axe.Lifecycle.{Sound, Sound-closed}

module _ {J Data Progress : Type 0} (kind : Kind J Data Progress) (label : String)
    (labelled : label ≢ "") where
  -- At most one job of the label is enqueued, dequeued or failed.
  pub record Single (xs : List (Model Data Progress)) : Type 0 where
    pub sound : All Sound xs
    pub single : length (select (queued kind.name label) xs) ≤ 1

  -- A sound job that is queued under the label blocks another one, whatever the isolation.
  blocking-queued :
      (now isolation : ℕ) (m : Model Data Progress)
      → Sound m
      → queued kind.name label m ≡ true
      → blocking kind label now isolation m ≡ true
  blocking-queued now isolation m s q = ground arith

  new-Single :
      (job : Job J) (content : Data) (now delay isolation : ℕ) (xs : List (Model Data Progress))
      → (job.label ≡ "") ⊎ (first (blocking kind job.label now isolation) xs ≡ none)
      → Single xs
      → length (select (queued kind.name label) (xs ++ new_model kind job content now delay ∷ []))
        ≤ 1
  new-Single job content now delay isolation xs free h =
      rw (select-append q xs (new ∷ []), length-append (select q xs) (select q (new ∷ [])))
        (elim (Bool-cases (job.label == label)) [
          | inl e ↦ rw (blocked e) (omega (arith, one))
          | inr e ↦ rw (other e) (omega (arith, h.single))
        ])
    where
      q : Model Data Progress → Bool
      q = queued kind.name label

      new : Model Data Progress
      new = new_model kind job content now delay

      one : length (select q (new ∷ [])) ≤ 1
      one = ground arith

      other : (job.label == label) ≡ false → select q (new ∷ []) ≡ []
      other e = ground arith

      blocked : (job.label == label) ≡ true → select q xs ≡ []
      blocked e = elim free [
        | inl empty ↦ absurd (labelled (sym (==_sound job.label label e) ∙ empty))
        | inr none_found ↦
            select-none Sound q (blocking kind label now isolation) xs
              (blocking-queued now isolation) h.sound
              (rw (==_sound job.label label e) at none_found)
      ]

  changed-Single :
      {f : Model Data Progress → Model Data Progress} (m : Model Data Progress)
      → Change f
      → m.state ≡ dequeued
      → queued kind.name label (f m) ≡ true
      → queued kind.name label m ≡ true
  changed-Single m (prolongs content available) r q = q
  changed-Single m (reports content status progress) r q = q
  changed-Single m (finishes content now full) r q = ground arith
  changed-Single m (postpones now reason delay) r q = ground arith
  changed-Single m (abandons now reason) r q = ground arith

  Single-IsInvariant : IsInvariant kind anything Single
  Single-IsInvariant =
      let sound = IsClosed-IsInvariant (Sound-closed kind) in
      record {
        inserted = λ job content now delay isolation xs i free h. record {
          sound = sound.inserted job content now delay isolation xs i free h.sound;
          single = new-Single job content now delay isolation xs free h;
        };
        begun = λ id now timeout xs _ h. record {
          sound = sound.begun id now timeout xs tt h.sound;
          single = omega (
            arith,
            h.single,
            select-update_first (queued kind.name label) (available_job id now) (start now timeout)
                xs (λ m t v. ground arith),
          );
        };
        changed = λ id {f} xs c r h. record {
          sound = sound.changed id xs c r h.sound;
          single = omega (
            arith,
            h.single,
            select-update_first (queued kind.name label) (running_job id) f xs
                (λ m t v. changed-Single m c (ground (arith, state_eq_sound m.state dequeued)) v),
          );
        };
      }

  -- After any history of enqueues, with or without isolation, and of all other operations, which run
  -- one after another and never at once, at most one job of a label that is not empty is enqueued,
  -- dequeued or failed, and every job is sound, where that held before. Enqueues that overlap are
  -- not covered: no unique index keeps their upserts from inserting twice.
  pub label-Single :
      (drv : Driver (Model Data Progress)) (law : IsDriver drv) (ctx : Context)
      (cs : List (Call J Progress)) (s : drv.Db)
      → Single (drv.docs s)
      → Single (drv.docs (run drv kind ctx cs s))
  label-Single drv law ctx cs s =
      run-Keeps drv law kind anything Single Single-IsInvariant ctx cs s (Within-anything cs)

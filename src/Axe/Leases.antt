-- ===== src/Axe/Leases.antt =====
-- axe/basic.go, Dequeue: the lease of a job that was dequeued, until its timeout.
use mathlib.Core.Path.{subst}
use mathlib.Core.Bool.{false≢true}
use fire.Base.{
  ℕ_eq, String_eq, ◌==◌, Bool-cases, is_some, ==_sound, length, All, select, Error, Result, ok, err,
  ok_injective, bind, ℕ, ◌+◌, ◌≤◌, ◌<◌, ◌≡◌, refl, sym, ap, ◌∙◌, ◌≢◌, ◌⊎◌, inl, inr, Bool, true,
  false, Option, none, some, List, [], ◌∷◌, arith,
}
use fire.Base.{first, All, All-map}
use fire.Base.{
  All, All-map, first, select, update_first-sole, update_first as update_list, update_first-none,
  All-update_first, All-append,
}
use fire.Coal.Driver.{Driver, IsDriver, obs}
use fire.Coal.Triples.{Ensures, ensures_bind, ensures_fail_if, ensures_pure}
use fire.Coal.Manager.Defs.{Context}
use fire.Coal.Manager.Mutations.{update_first}
use fire.Coal.Manager.Writes.{Updated, update_first-Updated}
use fire.Axe.Model.{State, dequeued, Model, model_doc, Kind, Job}
use fire.Axe.Steps.{
  Call, run, Scope, Within, Change, Allowed, prolongs, reports, finishes, postpones, abandons,
  IsInvariant,
}
use fire.Axe.Closure.{run-Keeps}
use fire.Coal.Manager.Rules.{ensures_update_first}
use fire.Axe.Basic.{
  is_active, is_done, running_job, no_sort, available_job, start, dequeue, dequeued_job,
}

module _ {J Data Progress : Type 0} (drv : Driver (Model Data Progress)) (law : IsDriver drv)
    (kind : Kind J Data Progress) where
  -- The job with the ID is executed and not available before the time.
  abbrev pub Leased : ℕ → ℕ → Model Data Progress → Type 0
  Leased i a m = (m.base.doc_id == i) ≡ true → (m.state ≡ dequeued) × (m.available ≡ a)

  dequeued_job_still :
      (job : Job J) (o : Option (Model Data Progress)) (s : drv.Db)
      → (dequeued_job drv kind job o s).0 ≡ s
  unfolding dequeued_job
  dequeued_job_still job none s = refl
  dequeued_job_still job (some m) s = ground arith

  started-Leased :
      (job : Job J) (timeout now : ℕ) (before : List (Model Data Progress))
      (w : drv.Db × Result (Option (Model Data Progress)))
      → length (select (λ m. m.base.doc_id == job.doc_id) before) ≤ 1
      → Updated drv law model_doc
          (available_job job.doc_id now)
          (start now timeout)
          now
          before
          (obs drv w)
      → (j : Job J) (n : ℕ) → (bind w (dequeued_job drv kind job)).1 ≡ ok (j, true, n)
      → All (Leased job.doc_id (now + timeout)) (drv.docs (bind w (dequeued_job drv kind job)).0)
  unfolding dequeued_job
  started-Leased job timeout now before (s, ok none) sole u j n h =
      absurd (false≢true (ap (λ (r : Job J × Bool × ℕ). r.1) (ok_injective h)))
  started-Leased job timeout now before (s, ok (some m)) sole (inl (_, _, e)) j n h = cc
  started-Leased job timeout now before (s, ok (some m)) sole (inr (inl (d, hit, e, _, _))) j n h =
      subst (λ z. All (Leased job.doc_id (now + timeout)) (drv.docs z))
        (sym (dequeued_job_still job (some m) s))
        (subst (All (Leased job.doc_id (now + timeout))) (sym e) (
          All-map (λ x. (x.base.doc_id == job.doc_id) ≡ true → x ≡ start now timeout d)
            (Leased job.doc_id (now + timeout))
            (update_list (available_job job.doc_id now) (start now timeout) before)
            (λ x k t. (ap (λ z. z.state) (k t), ap (λ z. z.available) (k t)))
            (update_first-sole (λ x. x.base.doc_id == job.doc_id) (available_job job.doc_id now)
              (start now timeout) before d (λ x t. ground arith) sole hit)))
  started-Leased job timeout now before (s, ok (some m)) sole (inr (inr (x, _, e))) j n h = cc
  started-Leased job timeout now before (s, err y) sole u j n h = cc

  -- Dequeue that answers with the job leaves it in the dequeued state and not available before the
  -- clock plus the timeout, where no two documents have its ID.
  pub dequeue-Leased :
      (ctx : Context) (job : Job J) (timeout now : ℕ) (s : drv.Db) (j : Job J) (n : ℕ)
      → length (select (λ m. m.base.doc_id == job.doc_id) (drv.docs s)) ≤ 1
      → (dequeue drv kind ctx job timeout now s).1 ≡ ok (j, true, n)
      → All
          (Leased job.doc_id (now + timeout))
          (drv.docs (dequeue drv kind ctx job timeout now s).0)
  unfolding dequeue
  dequeue-Leased ctx job timeout now s j n sole h = elim (Bool-cases (timeout == 0)) [
    | inl z ↦ absurd (refused (rw z at h))
    | inr z ↦ rw z (
        started-Leased job timeout now (drv.docs s)
          (update_first drv model_doc no_sort ctx (ok (available_job job.doc_id now))
            (ok (start now timeout)) [] false [] now s)
          sole
          (update_first-Updated drv law model_doc no_sort ctx (available_job job.doc_id now)
            (start now timeout) now s)
          j n (rw z at h))
  ]
    where
      refused : {A : Type 0} {a : A} {e : Error} → err e ≡ ok a → ⊥
      refused h = cc

  -- The job with the ID is done, or executed and not available before the time.
  abbrev Taken : ℕ → ℕ → Model Data Progress → Type 0
  Taken i a m =
      (m.base.doc_id == i) ≡ true
      → (is_done m.state ≡ true) ⊎ ((m.state ≡ dequeued) × (m.available ≡ a))

  done_inactive : (s : State) → is_done s ≡ true → is_active s ≡ false
  done_inactive s d = ground arith

  -- The job is not available before its lease ends.
  Taken-unavailable :
      (i a now : ℕ) (m : Model Data Progress)
      → Taken i a m
      → now < a
      → available_job i now m ≡ false
  Taken-unavailable i a now m l lt = elim (Bool-cases (m.base.doc_id == i)) [
    | inl e ↦ elim (l e) [
      | inl d ↦ rw (e, done_inactive m.state d) (ground arith)
      | inr r ↦ rw (e, r.0, r.1) (ground arith)
    ]
    | inr e ↦ rw e
  ]

  Taken-none :
      (i a now : ℕ) (xs : List (Model Data Progress))
      → All (Taken i a) xs
      → now < a
      → first (available_job i now) xs ≡ none
  Taken-none i a now [] l lt = refl
  Taken-none i a now (m ∷ xs) l lt =
      rw (Taken-unavailable i a now m l.0 lt) (Taken-none i a now xs l.1 lt)

  still-Taken :
      (i a now : ℕ) (f : Model Data Progress → Model Data Progress)
      (xs : List (Model Data Progress))
      → now < a
      → All (Taken i a) xs
      → All (Taken i a) (update_list (available_job i now) f xs)
  still-Taken i a now f xs lt l =
      subst (All (Taken i a))
        (sym (update_first-none (available_job i now) f xs (Taken-none i a now xs l lt))) l

  nothing_dequeued :
      (Inv : List (Model Data Progress) → Type 0) (job : Job J) (o : Option (Model Data Progress))
      → is_some o ≡ false
      → Ensures drv Inv (dequeued_job drv kind job o) (λ r. r.1 ≡ false)
  unfolding dequeued_job
  nothing_dequeued Inv job none e = ensures_pure _ _ refl
  nothing_dequeued Inv job (some m) e = cc

  Taken-dequeue :
      (ctx : Context) (job : Job J) (a timeout now : ℕ)
      → now < a
      → Ensures drv
          (All (Taken job.doc_id a))
          (dequeue drv kind ctx job timeout now)
          (λ r. r.1 ≡ false)
  unfolding dequeue
  Taken-dequeue ctx job a timeout now lt = ensures_bind (ensures_fail_if (timeout == 0) _) λ _ _.
      ensures_bind
        (ensures_update_first drv law model_doc (All (Taken job.doc_id a)) ctx no_sort
          (available_job job.doc_id now) (start now timeout) now (λ o. is_some o ≡ false)
          (λ xs. still-Taken job.doc_id a now (start now timeout) xs lt) (λ xs l n. refl)
          (λ xs d l hit. ap is_some (sym hit) ∙ ap is_some (Taken-none job.doc_id a now xs l lt)))
        λ o q. nothing_dequeued (All (Taken job.doc_id a)) job o q

  -- The calls of a history: no other new job has the ID, the job is dequeued only before the
  -- lease's end, and it does not fail and is not extended.
  abbrev pub others : ℕ → ℕ → Scope
  others i a = record {
    ids = λ id. id ≢ i;
    begins = λ id now. id ≡ i → now < a;
    runs = λ id. Unit {0};
    frees = λ id. id ≢ i;
  }

  other_job :
      (id i : ℕ) (m : Model Data Progress)
      → id ≢ i
      → running_job id m ≡ true
      → (m.base.doc_id == i) ≡ false
  other_job id i m n t = ground arith

  Taken-changed :
      (i a id : ℕ) {f : Model Data Progress → Model Data Progress} (m : Model Data Progress)
      (c : Change f)
      → Allowed (others i a) id c
      → Taken i a m
      → running_job id m ≡ true
      → Taken i a (f m)
  Taken-changed i a id m (prolongs content available) n l t e =
      absurd (false≢true (sym (other_job id i m n t) ∙ e))
  Taken-changed i a id m (reports content status progress) n l t e = l e
  Taken-changed i a id m (finishes content now full) n l t e = inl refl
  Taken-changed i a id m (postpones now reason delay) n l t e =
      absurd (false≢true (sym (other_job id i m n t) ∙ e))
  Taken-changed i a id m (abandons now reason) n l t e = inl refl

  others-Taken : (i a : ℕ) → IsInvariant kind (others i a) (All (Taken i a))
  others-Taken i a = record {
    inserted = λ job content now delay isolation xs n free h.
        All-append (Taken i a) xs _ h ((λ t. absurd (n (==_sound job.doc_id i t))), tt);
    begun = λ id now timeout xs b h.
        All-update_first (Taken i a) (available_job id now) (start now timeout) xs
          (λ m l t e. absurd (
            false≢true (
              sym (Taken-unavailable i a now m l (b (same_id id i now m t e)))
              ∙ at_id id i now m t e)))
          h;
    changed = λ id {f} xs c n h.
        All-update_first (Taken i a) (running_job id) f xs (λ m l t. Taken-changed i a id m c n l t)
          h;
  }
    where
      same_id :
          (id i now : ℕ) (m : Model Data Progress)
          → available_job id now m ≡ true
          → (m.base.doc_id == i) ≡ true
          → id ≡ i
      same_id id i now m t e = ground arith

      at_id :
          (id i now : ℕ) (m : Model Data Progress)
          → available_job id now m ≡ true
          → (m.base.doc_id == i) ≡ true
          → available_job i now m ≡ true
      at_id id i now m t e = ground arith

  -- No worker gets a job that another one has dequeued, before the lease's end, where no new job
  -- gets its ID and nobody fails or extends it: after any history of enqueues of other jobs, of
  -- dequeues of the job before the lease's end, of its updates, completions and cancellations, and
  -- of calls for other jobs, Dequeue does not answer that the job was dequeued.
  pub Leased-exclusive :
      (ctx : Context) (job : Job J) (a timeout now : ℕ) (cs : List (Call J Progress)) (s : drv.Db)
      (j : Job J) (n : ℕ)
      → All (Leased job.doc_id a) (drv.docs s)
      → All (Within (others job.doc_id a)) cs
      → now < a
      → (dequeue drv kind ctx job timeout now (run drv kind ctx cs s)).1 ≢ ok (j, true, n)
  Leased-exclusive ctx job a timeout now cs s j n l w lt h = false≢true (
      sym (
        (Taken-dequeue ctx job a timeout now lt).answers (run drv kind ctx cs s)
          (run-Keeps drv law kind (others job.doc_id a) (All (Taken job.doc_id a))
            (others-Taken job.doc_id a) ctx cs s w
            (All-map (Leased job.doc_id a) (Taken job.doc_id a) (drv.docs s) (λ m k e. inr (k e))
              l))
          (j, true, n) h))

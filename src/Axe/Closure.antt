-- ===== src/Axe/Closure.antt =====
-- Invariants of the collection over histories of axe/basic.go's operations.
use mathlib.Core.Path.{subst}
use fire.Base.{
  ℕ_eq, String_eq, ◌==◌, if◌then◌else◌, Bool-cases, ==_sound, All, check, M, ◌>>=◌, lift, ℕ, ◌+◌,
  ◌≡◌, sym, ◌⊎◌, inl, inr, true, ◌&&◌, Option, none, some, List, [], ◌∷◌, ◌++◌, arith,
}
use fire.Base.{first, All}
use fire.Base.{first, All}
use fire.Coal.Driver.{Driver, IsDriver}
use fire.Coal.Triples.{
  Ensures, ensures_bind, ensures_lift, ensures_pure, ensures_fail, ensures_fail_if, ensures_if,
}
use fire.Coal.Manager.Defs.{Context, clean_doc, ensure_id}
use fire.Coal.Manager.Inserts.{ensures_insert}
use fire.Coal.Manager.Rules.{ensures_update_first, ensures_insert_if_missing}
use fire.Axe.Model.{Model, model_doc, Kind, Job}
use fire.Axe.Basic.{
  no_sort, available_job, running_job, start, identified, new_model, blocking, enqueue, dequeue,
  dequeued_job, change_running, extend, update, complete, fail_job, cancel, foreign_store,
  found_or_missing,
}
use fire.Axe.Steps.{
  Call, enqueues, dequeues, extends, updates, completes, fails, cancels, step, run, Scope, Within,
  Change, Allowed, prolongs, reports, finishes, postpones, abandons, IsInvariant,
}

abbrev given_id : {J : Type 0} → ℕ → Job J → Job J
given_id fresh job = record job { doc_id = if job.doc_id == 0 then fresh else job.doc_id }

identified-label : {J : Type 0} (fresh : ℕ) (job : Job J) → (identified fresh job).label ≡ job.label
identified-label fresh job = elim (Bool-cases (job.doc_id == 0)) [ inl e ↦ rw e | inr e ↦ rw e ]

module _ {J Data Progress : Type 0} (kind : Kind J Data Progress) where
  -- The document that Enqueue stores.
  stored-new_model :
      (job : Job J) (content : Data) (now delay fresh : ℕ)
      → clean_doc model_doc now
          (ensure_id model_doc fresh (new_model kind (identified fresh job) content now delay))
        ≡ new_model kind (given_id fresh job) content now delay
  stored-new_model job content now delay fresh = elim (Bool-cases (job.doc_id == 0)) [
    | inl e ↦ rw e (elim (Bool-cases (fresh == 0)) [ inl f ↦ rw f | inr f ↦ rw f ])
    | inr e ↦ rw e (rw e)
  ]

module _ {J Data Progress : Type 0} (drv : Driver (Model Data Progress)) (law : IsDriver drv)
    (kind : Kind J Data Progress) (scope : Scope) (Inv : List (Model Data Progress) → Type 0)
    (inv : IsInvariant kind scope Inv) where
  abbrev Keeps : {A : Type 0} → M drv.Db A → Type 0
  Keeps m = Ensures drv Inv m (λ _. Unit {0})

  stored :
      (job : Job J) (content : Data) (now delay isolation fresh : ℕ)
      (xs : List (Model Data Progress))
      → scope.ids (given_id fresh job).doc_id
      → ((identified fresh job).label ≡ "")
        ⊎ (first (blocking kind (identified fresh job).label now isolation) xs ≡ none)
      → Inv xs
      → Inv (
          xs
          ++ clean_doc model_doc now
              (ensure_id model_doc fresh (new_model kind (identified fresh job) content now delay))
            ∷ [])
  stored job content now delay isolation fresh xs i free h =
      subst (λ m. Inv (xs ++ m ∷ [])) (sym (stored-new_model kind job content now delay fresh))
        (inv.inserted (given_id fresh job) content now delay isolation xs i
          (rw (identified-label fresh job) at free) h)

  enqueue-Keeps :
      (ctx : Context) (store : ℕ) (job : Job J) (delay isolation now fresh : ℕ)
      → scope.ids (given_id fresh job).doc_id
      → Keeps (enqueue drv kind ctx store job delay isolation now fresh)
  unfolding enqueue
  enqueue-Keeps ctx store job delay isolation now fresh i =
      ensures_bind (ensures_fail_if (foreign_store ctx.transaction store) _) λ _ _.
        ensures_bind (ensures_lift (check (kind.validate (identified fresh job).job))) λ _ _.
          ensures_bind (ensures_lift (kind.marshal (identified fresh job).job)) λ content _.
            ensures_if ((identified fresh job).label == "" && isolation == 0)
              (λ t.
                ensures_bind
                  (ensures_insert drv law model_doc Inv
                    (new_model kind (identified fresh job) content now delay) [] now (λ _. fresh)
                    (λ xs.
                      stored job content now delay isolation fresh xs i
                        (inl (==_sound (identified fresh job).label "" (ground arith)))))
                  λ _ _. ensures_pure _ true tt)
              (λ _.
                ensures_insert_if_missing drv law model_doc Inv ctx
                  (blocking kind (identified fresh job).label now isolation)
                  (new_model kind (identified fresh job) content now delay) now fresh
                  (λ _. Unit {0})
                  (λ xs h n. stored job content now delay isolation fresh xs i (inr n) h)
                  (λ xs h n. tt) (λ xs d h n. tt))

  found-Keeps : (o : Option (Model Data Progress)) → Keeps (found_or_missing o)
  found-Keeps none = ensures_fail _
  found-Keeps (some m) = ensures_pure _ tt tt

  change_running-Keeps :
      (ctx : Context) (id : ℕ) {f : Model Data Progress → Model Data Progress} (now : ℕ)
      → (c : Change f) → Allowed scope id c
      → Keeps (change_running drv kind ctx id f now)
  unfolding change_running
  change_running-Keeps ctx id {f} now c r =
      ensures_bind
        (ensures_update_first drv law model_doc Inv ctx no_sort (running_job id) f now
          (λ _. Unit {0}) (λ xs. inv.changed id xs c r) (λ xs h n. tt) (λ xs d h n. tt))
        λ o _. found-Keeps o

  dequeued_job-Keeps :
      (job : Job J) (o : Option (Model Data Progress)) → Keeps (dequeued_job drv kind job o)
  unfolding dequeued_job
  dequeued_job-Keeps job none = ensures_pure _ _ tt
  dequeued_job-Keeps job (some m) =
      ensures_bind (ensures_lift (kind.unmarshal m.content job.job))
        λ j _. ensures_bind (ensures_lift (check (kind.validate j))) λ _ _. ensures_pure _ _ tt

  dequeue-Keeps :
      (ctx : Context) (job : Job J) (timeout now : ℕ)
      → scope.begins job.doc_id now
      → Keeps (dequeue drv kind ctx job timeout now)
  unfolding dequeue
  dequeue-Keeps ctx job timeout now b = ensures_bind (ensures_fail_if (timeout == 0) _) λ _ _.
      ensures_bind
        (ensures_update_first drv law model_doc Inv ctx no_sort (available_job job.doc_id now)
          (start now timeout) now (λ _. Unit {0}) (λ xs. inv.begun job.doc_id now timeout xs b)
          (λ xs h n. tt) (λ xs d h n. tt))
        λ o _. dequeued_job-Keeps job o

  encoded-Keeps :
      {A : Type 0} (job : Job J) (m : Data → M drv.Db A)
      → ((content : Data) → Keeps (m content))
      → Keeps (
          lift (check (kind.validate job.job)) >>= λ _.
          lift (kind.marshal job.job) >>= λ content. m content)
  encoded-Keeps job m k =
      ensures_bind (ensures_lift (check (kind.validate job.job)))
        λ _ _. ensures_bind (ensures_lift (kind.marshal job.job)) λ content _. k content

  step-Keeps :
      (ctx : Context) (c : Call J Progress) (s : drv.Db)
      → Within scope c
      → Inv (drv.docs s)
      → Inv (drv.docs (step drv kind ctx c s))
  unfolding step extend update complete fail_job cancel
  step-Keeps ctx (enqueues c store job delay isolation now fresh) s i h =
      (enqueue-Keeps c store job delay isolation now fresh i).keeps s h
  step-Keeps ctx (dequeues job timeout now) s i h = (dequeue-Keeps ctx job timeout now i).keeps s h
  step-Keeps ctx (extends job timeout now) s i h =
      (encoded-Keeps job _ (λ content.
          change_running-Keeps ctx job.doc_id now (prolongs content (now + timeout)) i)).keeps
        s h
  step-Keeps ctx (updates job status progress now) s i h =
      (encoded-Keeps job _ (λ content.
          change_running-Keeps ctx job.doc_id now (reports content status progress) i)).keeps
        s h
  step-Keeps ctx (completes job now) s i h =
      (encoded-Keeps job _ (λ content.
          change_running-Keeps ctx job.doc_id now (finishes content now kind.full_progress)
            i)).keeps
        s h
  step-Keeps ctx (fails job reason delay now) s i h =
      (change_running-Keeps ctx job.doc_id now (postpones now reason delay) i).keeps s h
  step-Keeps ctx (cancels job reason now) s i h =
      (change_running-Keeps ctx job.doc_id now (abandons now reason) i).keeps s h

  pub run-Keeps :
      (ctx : Context) (cs : List (Call J Progress)) (s : drv.Db)
      → All (Within scope) cs
      → Inv (drv.docs s)
      → Inv (drv.docs (run drv kind ctx cs s))
  unfolding run
  run-Keeps ctx [] s i h = h
  run-Keeps ctx (c ∷ cs) s i h =
      run-Keeps ctx cs (step drv kind ctx c s) i.1 (step-Keeps ctx c s i.0 h)

-- ===== src/Glut/Contention.antt =====
-- glut/locks.go: Lock against a lock that another token holds, with others at work between its
-- calls, and the unconditional operations of glut/basic.go.
use fire.Base.{
  ℕ_eq, String_eq, ◌==◌, is_some, Result, ok, err, ok_injective, check, M, ◌>>=◌, ◌>>◌, pure, ℕ,
  ◌+◌, ◌≤◌, String, ◌≡◌, refl, sym, ap, ◌∙◌, ◌≢◌, Bool, true, false, Option, none, some,
}
use fire.Coal.Driver.{Driver, IsDriver}
use fire.Coal.Triples.{
  ensures_bind, ensures_lift, ensures_pure, ensures_fail, ensures_fail_if, ensures_if, weaken,
}
use fire.Coal.Manager.Defs.{Context}
use fire.Coal.Manager.Rules.{ensures_insert_if_missing}
use fire.Glut.Model.{Model, model_doc}
use fire.Glut.Values.{Kind, Handle, get_key, get_deadline}
use fire.Glut.Basic.{has_key}
use fire.Glut.Locks.{
  Times, lockable, acquire, free, locked_by, release, or_release, ignore, acquired, lock_existing,
  ensure_token, before, lock,
}
use fire.Glut.Held.{
  Held, Held-append, Held-ne, lockable_apart, locked_by_apart, lockable_key, locked_by_key,
}
use fire.Glut.Exclusion.{Safe, Polite, Rival, Keyed, interfere, guarded_update}

module _ {V Data : Type 0} (drv : Driver (Model Data)) (law : IsDriver drv) (kind : Kind V Data)
    (k : String) (tok u : ℕ) (C : Data → Type 0) where
  abbrev Keeps : {A : Type 0} → M drv.Db A → (A → Type 0) → Type 0
  Keeps m Q = Safe drv law kind k tok u C m Q

  ignore-Keeps :
      {A : Type 0} {Q : A → Type 0} (m : M drv.Db A)
      → Keeps m Q
      → Keeps (ignore drv kind m) (λ _. Unit {0})
  ignore-Keeps m e = record { keeps = e.keeps; answers = λ s i a h. tt }

  release-Keeps :
      (ctx : Context) (key : String) (token now : ℕ)
      → Rival drv law kind k tok u C key token
      → Keeps (release drv kind ctx key token now) (λ _. Unit {0})
  unfolding release
  release-Keeps ctx key token now rival = ignore-Keeps _ (
      guarded_update drv law kind k tok u C ctx key (locked_by key token) free now
        (λ m. locked_by_key key token m) (λ m. locked_by_apart k tok u C key token m rival)
        (λ m. refl))

  or_release-Keeps :
      {A : Type 0} (r : Result A) (undo : M drv.Db (Unit {0}))
      → Keeps undo (λ _. Unit {0})
      → Keeps (or_release drv kind r undo) (λ _. Unit {0})
  or_release-Keeps (ok a) undo e = ensures_pure _ a tt
  or_release-Keeps (err y) undo e = ensures_bind e λ _ _. ensures_fail y

  module _ (ctx : Context) (between : drv.Db → drv.Db)
      (polite : Polite drv law kind k tok u C between) where
    undo-Keeps :
        (key : String) (token now : ℕ)
        → Rival drv law kind k tok u C key token
        → Keeps ((λ s. (between s, ok tt)) >> release drv kind ctx key token now) (λ _. Unit {0})
    undo-Keeps key token now rival =
        ensures_bind (interfere drv law kind k tok u C between polite)
          λ _ _. release-Keeps ctx key token now rival

    acquired-Keeps :
        (key : String) (token now : ℕ) (h : Handle V) (content : Data)
        → Rival drv law kind k tok u C key token
        → Keeps (acquired drv kind ctx between key token now h content) (λ _. Unit {0})
    unfolding acquired
    acquired-Keeps key token now h content rival =
        ensures_bind
          (or_release-Keeps (kind.unmarshal content h.value) _ (undo-Keeps key token now rival))
          λ v _.
            ensures_bind
              (or_release-Keeps (check (kind.validate v)) _ (undo-Keeps key token now rival))
              λ _ _. ensures_pure _ (record h { value = v }) tt

    taken-Keeps :
        (key : String) (now : ℕ) (h : Handle V) (o : Option (Model Data))
        (Q : Handle V × Bool → Type 0)
        → Rival drv law kind k tok u C key h.token
        → Q (h, false)
        → (is_some o ≡ true → (h' : Handle V) → Q (h', true))
        → Keeps
            (elim o [
              | none ↦ pure (h, false)
              | some m ↦ acquired drv kind ctx between key h.token now h m.content >>= λ taken.
                  pure (taken, true)
            ])
            Q
    taken-Keeps key now h none Q rival miss hit = ensures_pure Q (h, false) miss
    taken-Keeps key now h (some m) Q rival miss hit =
        ensures_bind (acquired-Keeps key h.token now h m.content rival)
          λ taken _. ensures_pure Q (taken, true) (hit refl taken)

    lock_existing-Keeps :
        (key : String) (deadline : Option ℕ) (locked now : ℕ) (h : Handle V)
        → Rival drv law kind k tok u C key h.token
        → now ≤ u
        → Keeps
            (lock_existing drv kind ctx between key deadline locked now h)
            (λ r. r.1 ≡ true → key ≢ k)
    unfolding lock_existing
    lock_existing-Keeps key deadline locked now h rival le =
        ensures_bind
          (guarded_update drv law kind k tok u C ctx key (lockable key h.token now)
            (acquire deadline locked h.token) now (λ m. lockable_key key h.token now m)
            (λ m. lockable_apart k tok u C key h.token now m rival le) (λ m. refl))
          λ o q. taken-Keeps key now h o (λ r. r.1 ≡ true → key ≢ k) rival (λ t. cc) (λ t h' _. q t)

    -- Lock by another token before the lock times out, or for another key: the lock and its data
    -- stay, and Lock does not answer that the key is locked.
    pub lock-Safe :
        (null_data : Data) (h : Handle V) (timeout : ℕ) (times : Times) (fresh fresh_id : ℕ)
        → (Keyed drv law kind k tok u C h → (ensure_token drv kind fresh h).token ≢ tok)
        → times.at_filter ≤ u
        → Keeps
            (lock drv kind ctx between null_data h timeout times fresh fresh_id)
            (λ r. r.1 ≡ true → ¬ Keyed drv law kind k tok u C h)
    unfolding lock
    lock-Safe null_data h timeout times fresh fresh_id other le =
        ensures_bind (ensures_lift (get_key kind h.value)) λ key e.
          ensures_bind (ensures_lift (get_deadline kind times.at_deadline h.value)) λ deadline _.
            ensures_bind (ensures_fail_if (timeout == 0) _) λ _ _.
              ensures_bind (ensures_fail_if (before deadline (times.at_locked + timeout)) _) λ _ _.
                ensures_bind {Q = λ b. b ≡ true → key ≢ k}
                  (ensures_insert_if_missing drv law model_doc (Held k tok u C) ctx (has_key key) _
                    times.at_locked fresh_id (λ b. b ≡ true → key ≢ k)
                    (λ xs i n. Held-append k tok u C _ xs (Held-ne k tok u C key xs i n) i)
                    (λ xs i n t. Held-ne k tok u C key xs i n) (λ xs d i hit t. cc))
                  λ inserted q.
                    ensures_if inserted
                      (λ t.
                        ensures_pure _ (ensure_token drv kind fresh h, true)
                          (λ _ j. q t (ok_injective (sym e ∙ j))))
                      (λ _. ensures_bind (interfere drv law kind k tok u C between polite) λ _ _.
                        weaken
                          (lock_existing-Keeps key deadline (times.at_locked + timeout)
                            times.at_filter (ensure_token drv kind fresh h)
                            (λ j. other (e ∙ ap ok j)) le)
                          (λ r q' t j. q' t (ok_injective (sym e ∙ j))))

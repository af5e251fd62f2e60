-- ===== src/Glut/Acquisition.antt =====
-- glut/locks.go, Lock: what it leaves where it answers that the value was locked.
use mathlib.Core.Path.{subst}
use fire.Base.{
  ℕ_eq, String_eq, ◌==◌, if◌then◌else◌, is_some, Result, ok, err, ok_injective, check, M, ◌>>=◌,
  ◌>>◌, pure, fail, ℕ, ◌+◌, String, ◌≡◌, refl, sym, ◌∙◌, Bool, true, false, Option, none, some,
  List, [],
}
use fire.Coal.Driver.{Driver, IsDriver}
use fire.Coal.Outcomes.{
  Yields, yields_bind, yields_lift, yields_fail_if, yields_pure, yields_weaken,
}
use fire.Coal.Manager.Defs.{Context}
use fire.Coal.Manager.Mutations.{insert_if_missing, update_first as update_document}
use fire.Coal.Manager.Writes.{update_first-Updated, insert_if_missing-Placed}
use fire.Glut.Model.{Model, model_doc}
use fire.Glut.Values.{Kind, Handle, get_key, get_deadline}
use fire.Glut.Basic.{no_sort, has_key}
use fire.Glut.Locks.{
  Times, before, lockable, acquire, or_release, acquired, lock_existing, ensure_token, lock,
}
use fire.Glut.Placement.{Sole, Locked, Placed-Locked, Updated-Locked}

module _ {V Data : Type 0} (drv : Driver (Model Data)) (law : IsDriver drv)
    (kind : Kind V Data) where
  -- Where the value can be decoded and is valid, nothing more is done.
  or_release-still :
      {A : Type 0} (r : Result A) (undo : M drv.Db (Unit {0})) (s : drv.Db)
      → Yields (or_release drv kind r undo) s (λ _ t. t ≡ s)
  or_release-still (ok a) undo s = record { yields = λ b h. refl }
  or_release-still (err e) undo s =
      yields_bind {P = λ _ _. Unit {0}} {m = undo} {f = λ _. fail e} (record { yields = λ a h. tt })
        (λ _ t _. record { yields = λ a h. cc })

  acquired-still :
      (ctx : Context) (between : drv.Db → drv.Db) (key : String) (token now : ℕ) (h : Handle V)
      (content : Data) (s : drv.Db)
      → Yields (acquired drv kind ctx between key token now h content) s (λ _ t. t ≡ s)
  unfolding acquired
  acquired-still ctx between key token now h content s =
      yields_bind (or_release-still (kind.unmarshal content h.value) _ s) λ v t e.
        yields_bind (or_release-still (check (kind.validate v)) _ t)
          λ _ t' e'. yields_pure _ (record h { value = v }) t' (e' ∙ e)

  update-Locked :
      (ctx : Context) (key : String) (deadline : Option ℕ) (u now token : ℕ) (s : drv.Db)
      → Sole key (drv.docs s)
      → Yields
          (update_document drv model_doc no_sort ctx
            (ok (lockable key token now))
            (ok (acquire deadline u token))
            []
            false
            []
            now)
          s
          (λ o t. is_some o ≡ true → Locked key token u (drv.docs t))
  update-Locked ctx key deadline u now token s sole = record {
    yields =
        Updated-Locked drv law key token now u deadline (drv.docs s)
          (update_document drv model_doc no_sort ctx (ok (lockable key token now))
            (ok (acquire deadline u token)) [] false [] now s)
          sole
          (update_first-Updated drv law model_doc no_sort ctx (lockable key token now)
            (acquire deadline u token) now s);
  }

  insert-Locked :
      (ctx : Context) (key : String) (token u now fresh : ℕ) (m : Model Data) (s : drv.Db)
      → m.key ≡ key
      → m.token ≡ some token
      → m.locked ≡ some u
      → Yields
          (insert_if_missing drv model_doc ctx (ok (has_key key)) (λ d. d) m false [] now fresh)
          s
          (λ b t.
            (b ≡ true → Locked key token u (drv.docs t)) × (b ≡ false → drv.docs t ≡ drv.docs s))
  insert-Locked ctx key token u now fresh m s k t l = record {
    yields =
        Placed-Locked drv law key token u now fresh m (drv.docs s)
          (insert_if_missing drv model_doc ctx (ok (has_key key)) (λ d. d) m false [] now fresh s) k
          t l (insert_if_missing-Placed drv law model_doc ctx (has_key key) (λ d. d) m now fresh s);
  }

  lock_existing-Locked :
      (ctx : Context) (between : drv.Db → drv.Db) (key : String) (deadline : Option ℕ) (u now : ℕ)
      (h : Handle V) (s : drv.Db)
      → Sole key (drv.docs s)
      → Yields
          (lock_existing drv kind ctx between key deadline u now h)
          s
          (λ r t. r.1 ≡ true → Locked key h.token u (drv.docs t))
  unfolding lock_existing
  lock_existing-Locked ctx between key deadline u now h s sole =
      yields_bind (update-Locked ctx key deadline u now h.token s sole) (λ o t p. taken o t p)
    where
      taken :
          (o : Option (Model Data)) (t : drv.Db)
          → (is_some o ≡ true → Locked key h.token u (drv.docs t))
          → Yields {A = Handle V × Bool}
              (elim o [
                | none ↦ pure (h, false)
                | some m ↦ acquired drv kind ctx between key h.token now h m.content >>= λ taken.
                    pure (taken, true)
              ])
              t
              (λ r t. r.1 ≡ true → Locked key h.token u (drv.docs t))
      taken none t p = yields_pure _ (h, false) t (λ i. cc)
      taken (some m) t p =
          yields_bind (acquired-still ctx between key h.token now h m.content t) λ v t' e.
            yields_pure _ (v, true) t'
              (λ _. subst (λ z. Locked key h.token u (drv.docs z)) (sym e) (p refl))

  -- The second half of Lock, behind its insert.
  else_existing :
      (ctx : Context) (between : drv.Db → drv.Db) (key : String) (deadline : Option ℕ) (u now : ℕ)
      (h : Handle V) (docs : List (Model Data)) (b : Bool) (t : drv.Db)
      → Sole key docs
      → ((t : drv.Db) → Sole key (drv.docs t) → Sole key (drv.docs (between t)))
      → (b ≡ true → Locked key h.token u (drv.docs t)) × (b ≡ false → drv.docs t ≡ docs)
      → Yields {A = Handle V × Bool}
          (if b
            then pure (h, true)
            else ((λ s. (between s, ok tt))
                >> lock_existing drv kind ctx between key deadline u now h))
          t
          (λ r t. r.1 ≡ true → Locked key h.token u (drv.docs t))
  else_existing ctx between key deadline u now h docs true t sole polite p =
      yields_pure _ (h, true) t (λ _. p.0 refl)
  else_existing ctx between key deadline u now h docs false t sole polite p =
      yields_bind {P = λ _ t. Sole key (drv.docs t)} {m = λ s. (between s, ok tt)}
        {f = λ _. lock_existing drv kind ctx between key deadline u now h}
        (record { yields = λ _ _. polite t (subst (Sole key) (sym (p.1 refl)) sole) })
        λ _ t2 so. lock_existing-Locked ctx between key deadline u now h t2 so

  lock-Locked :
      (ctx : Context) (between : drv.Db → drv.Db) (null_data : Data) (h : Handle V) (timeout : ℕ)
      (times : Times) (fresh fresh_id : ℕ) (s : drv.Db) (key : String)
      → get_key kind h.value ≡ ok key
      → Sole key (drv.docs s)
      → ((t : drv.Db) → Sole key (drv.docs t) → Sole key (drv.docs (between t)))
      → Yields (lock drv kind ctx between null_data h timeout times fresh fresh_id) s (λ r t.
        r.1 ≡ true
        → Locked key (ensure_token drv kind fresh h).token (times.at_locked + timeout) (drv.docs t))
  unfolding lock
  lock-Locked ctx between null_data h timeout times fresh fresh_id s key e sole polite =
      yields_bind (yields_lift (get_key kind h.value) s) λ key' s1 k.
        yields_bind (yields_lift (get_deadline kind times.at_deadline h.value) s1) λ deadline s2 k2.
          yields_bind (yields_fail_if (timeout == 0) _ s2) λ _ s3 k3.
            yields_bind (yields_fail_if (before deadline (times.at_locked + timeout)) _ s3)
              λ _ s4 k4.
                let same : key ≡ key' = ok_injective (sym e ∙ k.1) in
                let still : s4 ≡ s = k4 ∙ k3 ∙ k2.0 ∙ k.0 in
                let so : Sole key' (drv.docs s4) =
                  subst (λ j. Sole j (drv.docs s4)) same
                    (subst (λ z. Sole key (drv.docs z)) (sym still) sole) in
                let kept =
                  subst (λ j. (t : drv.Db) → Sole j (drv.docs t) → Sole j (drv.docs (between t)))
                    same polite in
                let h' = ensure_token drv kind fresh h in
                let u = times.at_locked + timeout in
                yields_weaken
                  (yields_bind
                    (insert-Locked ctx key' h'.token u times.at_locked fresh_id _ s4 refl refl refl)
                    λ b t p.
                      else_existing ctx between key' deadline u times.at_filter h' (drv.docs s4) b t
                        so kept p)
                  (λ r t q i. subst (λ j. Locked j h'.token u (drv.docs t)) (sym same) (q i))

  -- Lock that answers that the value was locked leaves its key locked under the handle's token,
  -- or the new one, until the clock plus the timeout, where no two documents have the key and
  -- what others do between its calls leaves it so.
  pub lock-Held :
      (ctx : Context) (between : drv.Db → drv.Db) (null_data : Data) (h : Handle V) (timeout : ℕ)
      (times : Times) (fresh fresh_id : ℕ) (s : drv.Db) (key : String) (h' : Handle V)
      → get_key kind h.value ≡ ok key
      → Sole key (drv.docs s)
      → ((t : drv.Db) → Sole key (drv.docs t) → Sole key (drv.docs (between t)))
      → (lock drv kind ctx between null_data h timeout times fresh fresh_id s).1 ≡ ok (h', true)
      → Locked key
          (ensure_token drv kind fresh h).token
          (times.at_locked + timeout)
          (drv.docs (lock drv kind ctx between null_data h timeout times fresh fresh_id s).0)
  lock-Held ctx between null_data h timeout times fresh fresh_id s key h' e sole polite r =
      (lock-Locked ctx between null_data h timeout times fresh fresh_id s key e sole polite).yields
        (h', true) r refl

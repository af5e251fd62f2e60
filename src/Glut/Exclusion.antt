-- ===== src/Glut/Exclusion.antt =====
-- glut/locks.go and glut/basic.go against a lock that another token holds: what
-- the operations do to the lock and the data under it, and what they answer.
use fire.Base.{
  ℕ_eq, String_eq, ◌==◌, Option-cases, is_some, ok, ok_injective, check, M, ◌>>=◌, pure, ℕ, String,
  ◌≡◌, refl, sym, ap, ◌∙◌, ◌≢◌, inl, inr, Bool, true, false, Option, none, some, List, [],
}
use fire.Base.{first, All-first, first_passes}
use fire.Coal.Driver.{Driver, IsDriver}
use fire.Coal.Triples.{Ensures, ensures_bind, ensures_lift, ensures_pure, ensures_fail_if}
use fire.Coal.Manager.Defs.{Context}
use fire.Coal.Manager.Mutations.{update_first}
use fire.Coal.Manager.Rules.{ensures_update_first, ensures_find_first, ensures_delete_first}
use fire.Glut.Model.{Model, model_doc}
use fire.Glut.Values.{Kind, Handle, get_key, get_deadline}
use fire.Glut.Basic.{no_sort, write, load}
use fire.Glut.Locks.{holds, unlocked, set_locked, get_locked, delete_locked, unlock}
use fire.Glut.Held.{Owned, Held, Held-update, Held-delete, holds_apart, holds_key}

module _ {V Data : Type 0} (drv : Driver (Model Data)) (law : IsDriver drv) (kind : Kind V Data)
    (k : String) (tok u : ℕ) (C : Data → Type 0) where
  -- A code of which the lock keeps, with what it answers.
  abbrev pub Safe : {A : Type 0} → M drv.Db A → (A → Type 0) → Type 0
  Safe m Q = Ensures drv (Held k tok u C) m Q

  abbrev pub Rival : String → ℕ → Type 0
  Rival key token = key ≡ k → token ≢ tok

  -- What others do between two calls keeps the lock, too.
  abbrev pub Polite : (drv.Db → drv.Db) → Type 0
  Polite between =
      (s : drv.Db) → Held k tok u C (drv.docs s) → Held k tok u C (drv.docs (between s))

  pub interfere :
      (between : drv.Db → drv.Db) → Polite between → Safe (λ s. (between s, ok tt)) (λ _. Unit {0})
  interfere between polite = record { keeps = polite; answers = λ s i a h. tt }

  -- An update under a filter that matches no document of the key finds none of them.
  pub guarded_update :
      (ctx : Context) (key : String) (p : Model Data → Bool) (f : Model Data → Model Data) (now : ℕ)
      → ((m : Model Data) → p m ≡ true → m.key ≡ key)
      → ((m : Model Data) → Owned k tok u C m → p m ≡ true → m.key ≢ k)
      → ((m : Model Data) → (f m).key ≡ m.key)
      → Safe
          (update_first drv model_doc no_sort ctx (ok p) (ok f) [] false [] now)
          (λ o. is_some o ≡ true → key ≢ k)
  guarded_update ctx key p f now keyed apart same =
      ensures_update_first drv law model_doc (Held k tok u C) ctx no_sort p f now _
        (λ xs h.
          Held-update k tok u C p f xs (λ m own t e. absurd (apart m own t (sym (same m) ∙ e))) same
            h)
        (λ xs h n e. cc)
        (λ xs m h hit t e.
          let passed = first_passes p xs hit in
          let own = All-first (Owned k tok u C) p xs h.owned hit in
          apart m own passed (keyed m passed ∙ e))

  -- The key of a handle, once it is computed.
  abbrev pub Keyed : Handle V → Type 0
  Keyed h = get_key kind h.value ≡ ok k

  -- Not the holder: another key or another token.
  abbrev pub Other : Handle V → Type 0
  Other h = Keyed h → h.token ≢ tok

  pub set_locked-Safe :
      (ctx : Context) (h : Handle V) (now then' : ℕ)
      → Other h
      → Safe (set_locked drv kind ctx h now then') (λ b. b ≡ true → ¬ Keyed h)
  unfolding set_locked
  set_locked-Safe ctx h now then' other =
      ensures_bind (ensures_lift (get_key kind h.value)) λ key e.
        ensures_bind (ensures_lift (get_deadline kind now h.value)) λ deadline _.
          ensures_bind (ensures_fail_if (h.token == 0) _) λ _ _.
            ensures_bind (ensures_lift (check (kind.validate h.value))) λ _ _.
              ensures_bind (ensures_lift (kind.marshal h.value)) λ content _.
                ensures_bind
                  (guarded_update ctx key (holds key h.token then') (write content deadline) then'
                    (λ m. holds_key key h.token then' m)
                    (λ m. holds_apart k tok u C key h.token then' m (λ j. other (e ∙ ap ok j)))
                    (λ m. refl))
                  λ o q. ensures_pure _ (is_some o) (λ t j. q t (ok_injective (sym e ∙ j)))

  pub unlock-Safe :
      (ctx : Context) (h : Handle V) (now then' : ℕ)
      → Other h
      → Safe (unlock drv kind ctx h now then') (λ b. b ≡ true → ¬ Keyed h)
  unfolding unlock
  unlock-Safe ctx h now then' other = ensures_bind (ensures_lift (get_key kind h.value)) λ key e.
      ensures_bind (ensures_lift (get_deadline kind now h.value)) λ deadline _.
        ensures_bind (ensures_fail_if (h.token == 0) _) λ _ _.
          ensures_bind
            (guarded_update ctx key (holds key h.token then') (unlocked deadline) then'
              (λ m. holds_key key h.token then' m)
              (λ m. holds_apart k tok u C key h.token then' m (λ j. other (e ∙ ap ok j)))
              (λ m. refl))
            λ o q. ensures_pure _ (is_some o) (λ t j. q t (ok_injective (sym e ∙ j)))

  -- Reading what is not the lock's changes nothing.
  load-Safe :
      (h : Handle V) (content : Data) (Q : Handle V × Bool → Type 0)
      → ((h' : Handle V) → Q (h', true))
      → Safe (load drv kind h content >>= λ loaded. pure (loaded, true)) Q
  unfolding load
  load-Safe h content Q q =
      ensures_bind
        (ensures_bind (ensures_lift (kind.unmarshal content h.value)) λ v _.
          ensures_bind (ensures_lift (check (kind.validate v)))
            λ _ _. ensures_pure (λ _. Unit {0}) (record h { value = v }) tt)
        λ loaded _. ensures_pure Q (loaded, true) (q loaded)

  pub load_then-Safe :
      (h : Handle V) (o : Option (Model Data)) (Q : Handle V × Bool → Type 0)
      → Q (h, false)
      → (is_some o ≡ true → (h' : Handle V) → Q (h', true))
      → Safe
          (elim o [
            | none ↦ pure (h, false)
            | some m ↦ load drv kind h m.content >>= λ loaded. pure (loaded, true)
          ])
          Q
  load_then-Safe h none Q miss hit = ensures_pure Q (h, false) miss
  load_then-Safe h (some m) Q miss hit = load-Safe h m.content Q (hit refl)

  pub get_locked-Safe :
      (ctx : Context) (h : Handle V) (now : ℕ)
      → Other h
      → Safe (get_locked drv kind ctx h now) (λ r. r.1 ≡ true → ¬ Keyed h)
  unfolding get_locked
  get_locked-Safe ctx h now other = ensures_bind (ensures_lift (get_key kind h.value)) λ key e.
      ensures_bind (ensures_fail_if (h.token == 0) _) λ _ _.
        ensures_bind {Q = λ o. is_some o ≡ true → key ≢ k}
          (ensures_find_first drv law model_doc (Held k tok u C) ctx no_sort (holds key h.token now)
            now (λ o. is_some o ≡ true → key ≢ k) (λ xs i n t. cc)
            (λ xs m i hit t j.
              let passed = first_passes (holds key h.token now) xs hit in
              holds_apart k tok u C key h.token now m (λ j. other (e ∙ ap ok j))
                (All-first (Owned k tok u C) (holds key h.token now) xs i.owned hit) passed
                (holds_key key h.token now m passed ∙ j)))
          λ o q.
            load_then-Safe h o (λ r. r.1 ≡ true → ¬ Keyed h) (λ t. cc)
              (λ t h' _ j. q t (ok_injective (sym e ∙ j)))

  refused :
      (key : String) (p : Model Data → Bool) (xs : List (Model Data))
      → ((m : Model Data) → Owned k tok u C m → p m ≡ true → m.key ≢ k)
      → ((m : Model Data) → p m ≡ true → m.key ≡ key)
      → Held k tok u C xs
      → is_some (first p xs) ≡ true
      → key ≢ k
  refused key p xs apart keyed i t j = elim (Option-cases (first p xs)) [
    | inl n ↦ let clash : is_some (first p xs) ≡ false = rw n in cc
    | inr (m, hit) ↦
        let passed = first_passes p xs hit in
        apart m (All-first (Owned k tok u C) p xs i.owned hit) passed (keyed m passed ∙ j)
  ]

  pub delete_locked-Safe :
      (h : Handle V) (now : ℕ)
      → Other h
      → Safe (delete_locked drv kind h now) (λ b. b ≡ true → ¬ Keyed h)
  unfolding delete_locked
  delete_locked-Safe h now other = ensures_bind (ensures_lift (get_key kind h.value)) λ key e.
      ensures_bind (ensures_fail_if (h.token == 0) _) λ _ _.
        let p = holds key h.token now in
        let apart =
          λ (m : Model Data). holds_apart k tok u C key h.token now m (λ j. other (e ∙ ap ok j)) in
        ensures_bind {Q = λ o. is_some o ≡ true → key ≢ k}
          (ensures_delete_first drv law model_doc (Held k tok u C) no_sort p
            (λ o. is_some o ≡ true → key ≢ k) (λ xs i. Held-delete k tok u C p xs apart i)
            (λ xs i. refused key p xs apart (λ m. holds_key key h.token now m) i))
          λ o q. ensures_pure _ (is_some o) (λ t j. q t (ok_injective (sym e ∙ j)))

-- ===== src/Glut/Locks.antt =====
-- glut/locks.go: locking a value under a token until a time, and the operations of the holder.
-- `now` is the clock at the deadline's computation and `then` at the later reading.
use fire.Base.{
  ℕ_eq, String_eq, ltb, ◌==◌, if◌then◌else◌, is_some, message, Result, ok, err, check, M, ◌>>=◌,
  ◌>>◌, pure, fail, lift, fail_if, ℕ, ◌+◌, String, Bool, true, false, not, ◌&&◌, ◌||◌, Option, none,
  some, [],
}
use fire.Coal.Driver.{Driver}
use fire.Coal.Manager.Defs.{Context, find_first}
use fire.Coal.Manager.Mutations.{insert_if_missing, update_first, delete_first}
use fire.Glut.Model.{Model, model_doc}
use fire.Glut.Values.{Kind, Handle, get_key, get_deadline}
use fire.Glut.Basic.{no_base, no_sort, has_key, write, load}

-- The calls of `time.Now` in Lock, in turn: for the deadline, for `locked`, in the filter.
pub record Times : Type 0 where
  pub at_deadline : ℕ
  pub at_locked : ℕ
  pub at_filter : ℕ

abbrev pub before : Option ℕ → ℕ → Bool
before none t = false
before (some d) t = ltb d t

abbrev pub after : Option ℕ → ℕ → Bool
after none t = false
after (some d) t = ltb t d

abbrev pub is_token : Option ℕ → ℕ → Bool
is_token none token = false
is_token (some t) token = t == token

module _ {Data : Type 0} where
  -- The filter of Lock's update: the key, and unlocked, timed out or locked by us.
  abbrev pub lockable : String → ℕ → ℕ → Model Data → Bool
  lockable key token now m =
      m.key == key && (not (is_some m.token) || before m.locked now || is_token m.token token)

  -- The filter of Lock's release: the key and our token.
  abbrev pub locked_by : String → ℕ → Model Data → Bool
  locked_by key token m = m.key == key && is_token m.token token

  -- The filter of a holder's operations: the key, our token, and not timed out.
  abbrev pub holds : String → ℕ → ℕ → Model Data → Bool
  holds key token now m = m.key == key && is_token m.token token && after m.locked now

  abbrev pub acquire : Option ℕ → ℕ → ℕ → Model Data → Model Data
  acquire deadline locked token m = record m {
    deadline = deadline;
    locked = some locked;
    token = some token;
  }

  abbrev pub free : Model Data → Model Data
  free m = record m { locked = none; token = none }

  abbrev pub unlocked : Option ℕ → Model Data → Model Data
  unlocked deadline m = record m { locked = none; token = none; deadline = deadline }

module _ {V Data : Type 0} (drv : Driver (Model Data)) (kind : Kind V Data) where
  open drv use {Db}

  -- The release of Lock, whose outcome is ignored.
  abbrev pub ignore : {A : Type 0} → M Db A → M Db (Unit {0})
  ignore m s = ((m s).0, ok tt)

  unfoldable pub release : Context → String → ℕ → ℕ → M Db (Unit {0})
  release ctx key token now =
      ignore (
        update_first drv model_doc no_sort ctx (ok (locked_by key token)) (ok free) [] false [] now)

  -- An error of a step behind the lock: release it and answer the error.
  abbrev pub or_release : {A : Type 0} → Result A → M Db (Unit {0}) → M Db A
  or_release (ok a) undo = pure a
  or_release (err e) undo = undo >> fail e

  unfoldable pub acquired : Context → (Db → Db) → String → ℕ → ℕ → Handle V → Data → M Db (Handle V)
  unfolding release
  acquired ctx between key token now h content = do
    v ←
        or_release (kind.unmarshal content h.value)
          ((λ s. (between s, ok tt)) >> release ctx key token now)
    or_release (check (kind.validate v)) ((λ s. (between s, ok tt)) >> release ctx key token now)
    pure (record h { value = v })

  -- The second half of Lock: the value exists, and is locked if its lock is free.
  unfoldable pub lock_existing :
      Context → (Db → Db) → String → Option ℕ → ℕ → ℕ → Handle V → M Db (Handle V × Bool)
  unfolding acquired
  lock_existing ctx between key deadline locked now h = do
    found ←
        update_first drv model_doc no_sort ctx (ok (lockable key h.token now))
          (ok (acquire deadline locked h.token)) [] false [] now
    elim found [
      | none ↦ pure (h, false)
      | some m ↦ (do taken ← acquired ctx between key h.token now h m.content; pure (taken, true))
    ]

  abbrev pub ensure_token : ℕ → Handle V → Handle V
  ensure_token fresh h = if h.token == 0 then record h { token = fresh } else h

  -- Lock. `between` is what others do to the collection between two of its calls, `fresh` the
  -- new token and `fresh_id` the new document's ID.
  unfoldable pub lock :
      Context → (Db → Db) → Data → Handle V → ℕ → Times → ℕ → ℕ → M Db (Handle V × Bool)
  unfolding lock_existing
  lock ctx between null_data h timeout times fresh fresh_id = do
    key ← lift (get_key kind h.value)
    deadline ← lift (get_deadline kind times.at_deadline h.value)
    let h' = ensure_token fresh h
    fail_if (timeout == 0) (message "missing timeout")
    let locked = times.at_locked + timeout
    fail_if (before deadline locked) (message "deadline before timeout")
    inserted ←
        insert_if_missing drv model_doc ctx (ok (has_key key)) (λ d. d)
          (record {
            base = no_base;
            key = key;
            content = null_data;
            deadline = deadline;
            locked = some locked;
            token = some h'.token;
          })
          false [] times.at_locked fresh_id
    if inserted
        then pure (h', true)
        else ((λ s. (between s, ok tt))
            >> lock_existing ctx between key deadline locked times.at_filter h')

  unfoldable pub set_locked : Context → Handle V → ℕ → ℕ → M Db Bool
  set_locked ctx h now then' = do
    key ← lift (get_key kind h.value)
    deadline ← lift (get_deadline kind now h.value)
    fail_if (h.token == 0) (message "missing token")
    lift (check (kind.validate h.value))
    content ← lift (kind.marshal h.value)
    found ←
        update_first drv model_doc no_sort ctx (ok (holds key h.token then'))
          (ok (write content deadline)) [] false [] then'
    pure (is_some found)

  unfoldable pub get_locked : Context → Handle V → ℕ → M Db (Handle V × Bool)
  unfolding load
  get_locked ctx h now = do
    key ← lift (get_key kind h.value)
    fail_if (h.token == 0) (message "missing token")
    found ← find_first drv model_doc no_sort ctx (ok (holds key h.token now)) [] 0 false [] now
    elim found [
      | none ↦ pure (h, false)
      | some m ↦ (do loaded ← load drv kind h m.content; pure (loaded, true))
    ]

  unfoldable pub delete_locked : Handle V → ℕ → M Db Bool
  delete_locked h now = do
    key ← lift (get_key kind h.value)
    fail_if (h.token == 0) (message "missing token")
    deleted ← delete_first drv model_doc no_sort (ok (holds key h.token now)) []
    pure (is_some deleted)

  unfoldable pub unlock : Context → Handle V → ℕ → ℕ → M Db Bool
  unlock ctx h now then' = do
    key ← lift (get_key kind h.value)
    deadline ← lift (get_deadline kind now h.value)
    fail_if (h.token == 0) (message "missing token")
    found ←
        update_first drv model_doc no_sort ctx (ok (holds key h.token then'))
          (ok (unlocked deadline)) [] false [] then'
    pure (is_some found)

  write_back : Context → Handle V → ℕ → ℕ → Bool → M Db (Handle V)
  write_back ctx h now then' false = pure h
  write_back ctx h now then' true = do
    modified ← set_locked ctx h now then'
    fail_if (not modified) (message "lost lock")
    pure h

  -- MutateLocked: the callback changes the value; `between` is what others do meanwhile.
  unfoldable pub mutate_locked :
      Context → (Db → Db) → Handle V → (Bool → V → Result V) → ℕ → ℕ → ℕ → M Db (Handle V)
  unfolding write_back
  mutate_locked ctx between h fn now now' then' = do
    (loaded, exists) ← get_locked ctx h now
    v ← lift (fn exists loaded.value)
    (λ s. (between s, ok tt))
    write_back ctx (record loaded { value = v }) now' then' exists

-- ===== src/Coal/Transactions.antt =====
-- coal/store.go: T and RT. The state is what the transaction is about; what the session answers to
-- the start and to each commit is given. A transaction that is aborted leaves the state alone.
use fire.Base.{
  ℕ_eq, String_eq, ltb, ◌==◌, if◌then◌else◌, ℤ_eq, Error, message, Result, ok, err, M, ℕ, zero, suc,
  ◌+◌, ◌*◌, Bool, true, false, not, ◌&&◌, Option, none, some,
}
use fire.Coal.Manager.Defs.{Context, has_transaction}

-- What a commit answers: done; failed, and applied or not, with the two labels that the driver
-- puts on an error, transient and unknown result.
pub data Commit : Type 0 where
  done : Commit
  failed : (applied transient unknown : Bool) → Error → Commit

abbrev pub inside : ℕ → Context
inside store = record { transaction = some store }

module _ {S A : Type 0} where
  -- The end of a transaction that began in the first state: commit, or abort.
  abbrev pub finish : Bool → S → Commit → Option Error → S × Result A → S × Result A
  finish read_only before commit abort (after, err e) = (before, err e)
  finish true before commit none (after, ok a) = (before, ok a)
  finish true before commit (some e) (after, ok a) = (before, err e)
  finish false before done abort (after, ok a) = (after, ok a)
  finish false before (failed applied transient unknown e) abort (after, ok a) =
      (if applied then after else before, err e)

  abbrev pub begin : Bool → S → Option Error → Commit → Option Error → S × Result A → S × Result A
  begin read_only before none commit abort w = finish read_only before commit abort w
  begin read_only before (some e) commit abort w = (before, err e)

  -- A transaction that the context carries is used, where it is of the same store.
  abbrev pub nested : ℕ → ℕ → S → S × Result A → S × Result A
  nested tx store before w =
      if not (tx == store) then (before, err (message "unexpected transaction store")) else w

  -- T; `start` and `abort` are errors of the session.
  unfoldable pub transact :
      ℕ → Bool → Context → Option Error → Commit → Option Error → (Context → M S A) → M S A
  transact store read_only ctx start commit abort fn s = elim ctx.transaction [
    | some tx ↦ nested tx store s (fn ctx s)
    | none ↦ begin read_only s start commit abort (fn (inside store) s)
  ]

-- What RT meets, by its count of attempts: the start, the commit, and whether the session is alive
-- and an error transient.
pub record Session : Type 0 where
  pub start : ℕ → Option Error
  pub commit : ℕ → Commit
  pub alive : ℕ → Bool
  pub is_transient : Error → Bool

-- Where the loop of RT stands: before a call of the function, or before a commit of what it did.
pub data Phase (S A : Type 0) : Type 0 where
  calling : Phase S A
  committing : S → A → Phase S A

-- Where it goes on, or how it ends.
pub data Next (S A : Type 0) : Type 0 where
  go : Phase S A → Next S A
  stop : S × Result A → Next S A

module _ {S A : Type 0} (max_attempts : ℕ) (session : Session) (before : S) (fn : ℕ → M S A) where
  -- `attempts < maxAttempts && sc.Err() == nil`
  abbrev pub may_retry : ℕ → Bool
  may_retry attempts = ltb attempts max_attempts && session.alive attempts

  abbrev pub after_call : ℕ → S × Result A → Next S A
  after_call attempts (after, ok a) = go (committing after a)
  after_call attempts (after, err e) =
      if may_retry attempts && session.is_transient e then go calling else stop (before, err e)

  -- The start, and the call.
  abbrev pub call : ℕ → Next S A
  call attempts = elim (session.start attempts) [
    | some e ↦ stop (before, err e)
    | none ↦ after_call attempts (fn attempts before)
  ]

  abbrev pub after_commit : ℕ → S → A → Commit → Next S A
  after_commit attempts after a done = stop (after, ok a)
  after_commit attempts after a (failed applied transient unknown e) =
      if may_retry attempts && unknown
      then go (committing after a)
      else if may_retry attempts && transient
      then go calling
      else stop (if applied then after else before, err e)

  -- The loops, with fuel; the answer has the final count of attempts.
  unfoldable pub attempt : ℕ → ℕ → Phase S A → Option (ℕ × (S × Result A))
  attempt zero attempts phase = none
  attempt (suc fuel) attempts calling = elim (call (suc attempts)) [
    | stop r ↦ some (suc attempts, r)
    | go phase ↦ attempt fuel (suc attempts) phase
  ]
  attempt (suc fuel) attempts (committing after a) =
      elim (after_commit attempts after a (session.commit attempts)) [
        | stop r ↦ some (attempts, r)
        | go calling ↦ attempt fuel attempts calling
        | go (committing after' a') ↦ attempt fuel (suc attempts) (committing after' a')
      ]

  -- RT, with the fuel that it needs.
  unfoldable pub retry : Context → Option (ℕ × (S × Result A))
  unfolding attempt
  retry ctx =
      if has_transaction ctx
      then some (0, (before, err (message "nested transaction")))
      else attempt (2 * max_attempts + 2) 0 calling

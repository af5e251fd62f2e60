-- ===== src/Coal/Retries.antt =====
-- T and RT of coal/store.go: all or nothing, and loops that end within the bound on attempts.
use fire.Base.{
  ℕ_eq, String_eq, leb, if◌then◌else◌, Bool-cases, ℤ_eq, Error, message, Result, ok, err, M, ℕ,
  zero, suc, ◌+◌, ◌-◌, ◌*◌, ◌≤◌, ◌<◌, ◌≡◌, refl, ◌⊎◌, inl, inr, Bool, true, false, Option, none,
  some, arith,
}
use fire.Coal.Manager.Defs.{Context, has_transaction}
use fire.Coal.Transactions.{
  Session, Commit, Phase, calling, committing, Next, go, stop, after_call, call, after_commit,
  attempt, retry, done, failed, finish, begin, inside, transact,
}

module _ {S A : Type 0} where
  -- The loop ends with a count that is within the bound.
  abbrev pub Ends : ℕ → Option (ℕ × (S × Result A)) → Type 0
  Ends bound o = (n : ℕ) × (r : S × Result A) × (o ≡ some (n, r)) × (n ≤ bound)

module _ {S A : Type 0} (max : ℕ) (session : Session) (before : S) (fn : ℕ → M S A) where
  -- Where a next phase is allowed: a call only below the bound.
  Allowed : ℕ → Next S A → Type 0
  Allowed n (stop r) = Unit {0}
  Allowed n (go calling) = n < max
  Allowed n (go (committing after a)) = Unit {0}

  after_call-Allowed : (n : ℕ) (w : S × Result A) → Allowed n (after_call max session before fn n w)
  unfolding Allowed
  after_call-Allowed n (after, ok a) = tt
  after_call-Allowed n (after, err e) = ground arith

  call-Allowed : (n : ℕ) → Allowed n (call max session before fn n)
  unfolding Allowed
  call-Allowed n = started (session.start n)
    where
      started :
          (o : Option Error)
          → Allowed n (elim o [
            | some e ↦ stop (before, err e)
            | none ↦ after_call max session before fn n (fn n before)
          ])
      started (some e) = tt
      started none = after_call-Allowed n (fn n before)

  -- After a commit both are allowed only below the bound.
  Retried : ℕ → Next S A → Type 0
  Retried n (stop r) = Unit {0}
  Retried n (go phase) = n < max

  after_commit-Retried :
      (n : ℕ) (after : S) (a : A) (c : Commit)
      → Retried n (after_commit max session before fn n after a c)
  unfolding Retried
  after_commit-Retried n after a done = tt
  after_commit-Retried n after a (failed applied transient unknown e) = ground arith

  module _ (bound : ℕ) (fits : max ≤ bound) where
    -- The fuel that a phase needs, and the room for its count.
    Fits : ℕ → ℕ → Phase S A → Type 0
    Fits fuel n calling = (2 * (max - n) ≤ fuel) × (2 ≤ fuel) × (suc n ≤ bound)
    Fits fuel n (committing after a) = (2 * (max - n) + 1 ≤ fuel) × (n ≤ bound)

    module _ (fuel : ℕ)
        (rest : (n : ℕ) (phase : Phase S A)
          → Fits fuel n phase
          → Ends bound (attempt max session before fn fuel n phase)) where
      called :
          (n : ℕ) (next : Next S A)
          → Allowed (suc n) next
          → Fits (suc fuel) n calling
          → Ends bound (elim next [
            | stop r ↦ some (suc n, r)
            | go phase ↦ attempt max session before fn fuel (suc n) phase
          ])
      unfolding Fits Allowed
      called n (stop r) k f = (suc n, r, refl, f.2)
      called n (go calling) lt f =
          rest (suc n) calling
            (omega (arith, f.0, lt), omega (arith, f.0, lt), omega (arith, fits, lt))
      called n (go (committing after a)) k f =
          rest (suc n) (committing after a) (omega (arith, f.0, f.1), f.2)

      committed :
          (n : ℕ) (after : S) (a : A) (next : Next S A)
          → Retried n next
          → Fits (suc fuel) n (committing after a)
          → Ends bound (elim next [
            | stop r ↦ some (n, r)
            | go calling ↦ attempt max session before fn fuel n calling
            | go (committing after' a') ↦
                attempt max session before fn fuel (suc n) (committing after' a')
          ])
      unfolding Fits Retried
      committed n after a (stop r) k f = (n, r, refl, f.1)
      committed n after a (go calling) lt f =
          rest n calling (omega (arith, f.0, lt), omega (arith, f.0, lt), omega (arith, fits, lt))
      committed n after a (go (committing after' a')) lt f =
          rest (suc n) (committing after' a') (omega (arith, f.0, lt), omega (arith, fits, lt))

    attempt_ends :
        (fuel n : ℕ) (phase : Phase S A)
        → Fits fuel n phase
        → Ends bound (attempt max session before fn fuel n phase)
    unfolding attempt Fits
    attempt_ends zero n calling f = absurd (omega (arith, f.1))
    attempt_ends zero n (committing after a) f = absurd (omega (arith, f.0))
    attempt_ends (suc fuel) n calling f =
        called fuel (attempt_ends fuel) n (call max session before fn (suc n))
          (call-Allowed (suc n)) f
    attempt_ends (suc fuel) n (committing after a) f =
        committed fuel (attempt_ends fuel) n after a
          (after_commit max session before fn n after a (session.commit n))
          (after_commit-Retried n after a (session.commit n)) f

-- RT always ends, whatever the session and the function answer, and it counts at most as many
-- attempts as it may make, one at least.
pub retry_ends :
    {S A : Type 0} (max : ℕ) (session : Session) (before : S) (fn : ℕ → M S A) (ctx : Context)
    → Ends (if leb 1 max then max else 1) (retry max session before fn ctx)
unfolding retry Fits
retry_ends max session before fn ctx = elim (Bool-cases (has_transaction ctx)) [
  | inl t ↦ rw t (0, (before, err (message "nested transaction")), refl, ground arith)
  | inr t ↦ rw t (
      attempt_ends max session before fn (if leb 1 max then max else 1) (ground arith) (2 * max + 2)
        0 calling (omega arith, omega arith, ground arith))
]

module _ {S A : Type 0} (read_only : Bool) (before : S) where
  -- All or nothing: the state is as before, or what the function left where it answered and may
  -- write; and the answer is the function's, or an error.
  abbrev pub AllOrNothing : S × Result A → S × Result A → Type 0
  AllOrNothing called ended =
      ((ended.0 ≡ before)
        ⊎ ((read_only ≡ false) × (ended.0 ≡ called.0) × ((a : A) × (called.1 ≡ ok a))))
      × ((ended.1 ≡ called.1) ⊎ ((e : Error) × (ended.1 ≡ err e)))

  finish_lem :
      (commit : Commit) (abort : Option Error) (called : S × Result A)
      → AllOrNothing called (finish read_only before commit abort called)
  finish_lem commit abort (t, err e) = (inl refl, inl refl)
  finish_lem commit abort (t, ok a) = by_kind read_only refl commit abort
    where
      by_kind :
          (r : Bool)
          → read_only ≡ r
          → (commit : Commit) (abort : Option Error)
          → AllOrNothing (t, ok a) (finish r before commit abort (t, ok a))
      by_kind true e commit none = (inl refl, inl refl)
      by_kind true e commit (some x) = (inl refl, inr (x, refl))
      by_kind false e done abort = (inr (e, refl, (a, refl)), inl refl)
      by_kind false e (failed true x y z) abort = (inr (e, refl, (a, refl)), inr (z, refl))
      by_kind false e (failed false x y z) abort = (inl refl, inr (z, refl))

  -- T in a context without a transaction: the state is as it was before, or it is what the function
  -- left, where the function did not fail and the transaction may write; and the answer is the
  -- function's, or an error.
  pub transact_lem :
      (store : ℕ) (ctx : Context) (start : Option Error) (commit : Commit) (abort : Option Error)
      (fn : Context → M S A)
      → ctx.transaction ≡ none
      → AllOrNothing
          (fn (inside store) before)
          (transact store read_only ctx start commit abort fn before)
  unfolding transact
  transact_lem store ctx start commit abort fn e = rw e (by_start start)
    where
      by_start :
          (o : Option Error)
          → AllOrNothing
              (fn (inside store) before)
              (begin read_only before o commit abort (fn (inside store) before))
      by_start none = finish_lem commit abort (fn (inside store) before)
      by_start (some x) = (inl refl, inr (x, refl))

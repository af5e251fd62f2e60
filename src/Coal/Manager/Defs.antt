-- ===== src/Coal/Manager/Defs.antt =====
-- coal/manager.go: flags, guards and the operations on a collection. A document's type is fixed
-- by typing, so the check for another model (ErrMetaMismatch) cannot fail here.
use Prim.Native.Nat.{bit_and, bit_or}
use fire.Base.{
  ℕ_eq, String_eq, ltb, ◌==◌, if◌then◌else◌, is_some, Error, transaction_required, message, Result,
  ok, err, check, M, ◌>>=◌, ◌>>◌, pure, lift, fail_if, ℕ, ◌+◌, String, Bool, not, ◌&&◌, ◌||◌,
  Option, none, some, List, [], ◌∷◌, map,
}
use fire.Coal.Model.{Base, clean}
use fire.Coal.Driver.{Driver}

-- Flags, merged by bitwise or.
abbrev pub no_transaction : ℕ
no_transaction = 1

abbrev pub no_validation : ℕ
no_validation = 2

abbrev pub text_score_sort : ℕ
text_score_sort = 4

abbrev pub has : ℕ → ℕ → Bool
has f flags = bit_and f flags == flags

abbrev pub merge_from : ℕ → List ℕ → ℕ
merge_from f [] = f
merge_from f (l ∷ flags) = merge_from (bit_or f l) flags

abbrev pub merge : List ℕ → ℕ
merge flags = merge_from 0 flags

-- A context carries the store of its transaction, if it has one.
pub record Context : Type 0 where
  pub transaction : Option ℕ

abbrev pub has_transaction : Context → Bool
has_transaction ctx = is_some ctx.transaction

-- What the manager uses of a document's type: its base and its validation.
pub record Doc (D : Type 0) : Type 0 where
  pub base : D → Base
  pub with_base : Base → D → D
  pub validate : D → Option Error

module _ {D : Type 0} (doc : Doc D) where
  abbrev pub clean_doc : ℕ → D → D
  clean_doc now d = doc.with_base (clean now (doc.base d)) d

  -- The update `{"$inc": {"_lk": 1}}`.
  abbrev pub increment_lock : D → D
  increment_lock d = doc.with_base (record base { lock = base.lock + 1 }) d
    where
      base : Base
      base = doc.base d

  abbrev pub with_lock : Bool → (D → D) → D → D
  with_lock lock f d = if lock then increment_lock (f d) else f d

  -- `model.GetBase().Lock += 1000`
  abbrev pub bump_lock : Bool → D → D
  bump_lock lock d = if lock then doc.with_base (record base { lock = base.lock + 1000 }) d else d
    where
      base : Base
      base = doc.base d

  -- A new ID for a document that has none.
  abbrev pub ensure_id : ℕ → D → D
  ensure_id fresh d =
      if base.doc_id == 0 then doc.with_base (record base { doc_id = fresh }) d else d
    where
      base : Base
      base = doc.base d

  abbrev pub has_id : ℕ → D → Bool
  has_id id d = (doc.base d).doc_id == id

  abbrev pub validated : List ℕ → D → Result (Unit {0})
  validated flags d = if has (merge flags) no_validation then ok tt else check (doc.validate d)

  -- The end of a read: validate, then clean.
  abbrev pub loaded : {S : Type 0} → ℕ → List ℕ → Option D → M S (Option D)
  loaded now flags none = pure none
  loaded now flags (some d) = do lift (validated flags d); pure (some (clean_doc now d))

  -- The end of an update: clean, then validate.
  abbrev pub updated : {S : Type 0} → ℕ → List ℕ → Option D → M S (Option D)
  updated now flags none = pure none
  updated now flags (some d) = do
    lift (validated flags (clean_doc now d))
    pure (some (clean_doc now d))

abbrev pub need_transaction : {S : Type 0} → Context → Bool → M S (Unit {0})
need_transaction ctx lock = fail_if (lock && not (has_transaction ctx)) transaction_required

-- Isolated reads: a lock or the absence of NoTransaction wants a transaction.
abbrev pub need_isolation : {S : Type 0} → Context → Bool → List ℕ → M S (Unit {0})
need_isolation ctx lock flags =
    fail_if ((lock || not (has (merge flags) no_transaction)) && not (has_transaction ctx))
      transaction_required

abbrev pub sorted :
    {S : Type 0} → (List String → Result (List String)) → List String → M S (List String)
sorted trans [] = pure []
sorted trans (s ∷ ss) = lift (trans (s ∷ ss))

-- TextScoreSort prepends the score to the sort.
abbrev pub scored : List ℕ → List String → List String
scored flags order = if has (merge flags) text_score_sort then "_sc" ∷ order else order

module _ {D : Type 0} (drv : Driver D) (doc : Doc D) where
  open drv use {Db}

  -- Find: the answer is the document, if one was found.
  unfoldable pub find_id : Context → ℕ → Bool → List ℕ → ℕ → M Db (Option D)
  find_id ctx id lock flags now = do
    need_transaction ctx lock
    r ←
        if lock
        then drv.find_one_and_update (has_id doc id) (increment_lock doc) []
        else drv.find_one (has_id doc id) [] 0
    loaded doc now flags r

  unfoldable pub find_first :
      (List String → Result (List String))
      → Context
      → Result (D → Bool)
      → List String
      → ℕ
      → Bool
      → List ℕ
      → ℕ
      → M Db (Option D)
  find_first trans ctx filter sort skip lock flags now = do
    need_transaction ctx lock
    fail_if (lock && ltb 0 skip) (message "cannot lock with skip")
    p ← lift filter
    order ← sorted trans sort
    r ←
        if lock
        then drv.find_one_and_update p (increment_lock doc) order
        else drv.find_one p order skip
    loaded doc now flags r

  -- The models of FindAll are validated in turn, then cleaned.
  unfoldable pub validate_all : List ℕ → List D → Result (Unit {0})
  validate_all flags [] = ok tt
  validate_all flags (d ∷ ds) = elim (validated doc flags d) [
    | ok _ ↦ validate_all flags ds
    | err e ↦ err e
  ]

  unfoldable pub find_all :
      (List String → Result (List String))
      → Context
      → Result (D → Bool)
      → List String
      → ℕ
      → ℕ
      → Bool
      → List ℕ
      → ℕ
      → M Db (List D)
  unfolding validate_all
  find_all trans ctx filter sort skip limit lock flags now = do
    need_isolation ctx lock flags
    fail_if (lock && (ltb 0 skip || ltb 0 limit)) (message "cannot lock with skip and limit")
    p ← lift filter
    order ← sorted trans sort
    _ ← if lock then drv.update_many p (increment_lock doc) else pure (0, 0)
    ds ← drv.find p (scored flags order) skip limit
    lift (validate_all flags ds)
    pure (map (clean_doc doc now) ds)

  unfoldable pub count : Context → Result (D → Bool) → ℕ → ℕ → Bool → List ℕ → M Db ℕ
  count ctx filter skip limit lock flags = do
    need_isolation ctx lock flags
    fail_if (lock && (ltb 0 skip || ltb 0 limit)) (message "cannot lock with skip and limit")
    p ← lift filter
    if lock
        then (drv.update_many p (increment_lock doc) >>= λ (matched, modified). pure modified)
        else drv.count p skip limit

-- ===== src/Coal/Manager/Mutations.antt =====
-- coal/manager.go: the operations that insert, update, replace and delete documents.
use fire.Base.{
  ℕ_eq, String_eq, ◌==◌, is_some, message, Result, M, ◌>>=◌, ◌>>◌, pure, lift, fail_if, ℕ, suc,
  String, Bool, true, false, Option, none, some, List, [], ◌∷◌, map,
}
use fire.Coal.Model.{Base}
use fire.Coal.Driver.{Driver}
use fire.Coal.Manager.Defs.{
  Context, Doc, need_transaction, validated, clean_doc, ensure_id, bump_lock, with_lock, updated,
  sorted, has_id, validate_all,
}

module _ {D : Type 0} (drv : Driver D) (doc : Doc D) where
  open drv use {Db}

  -- IDs for the documents that have none; the i-th call of New answers `fresh i`.
  abbrev pub ensure_ids : (ℕ → ℕ) → List D → List D
  ensure_ids fresh [] = []
  ensure_ids fresh (d ∷ ds) = ensure_id doc (fresh 0) d ∷ ensure_ids (λ i. fresh (suc i)) ds

  -- Insert and InsertAll.
  unfoldable pub insert_all : List D → List ℕ → ℕ → (ℕ → ℕ) → M Db (Unit {0})
  unfolding validate_all
  insert_all [] flags now fresh = pure tt
  insert_all (d ∷ ds) flags now fresh = do
    let models = ensure_ids fresh (d ∷ ds)
    lift (validate_all drv doc flags models)
    drv.insert_many (map (clean_doc doc now) models)

  -- InsertIfMissing; `merged` is what the upsert makes of the model's document by merging the
  -- filter's equations into it. Where a field stands in both, the document's value counts, so
  -- nothing changes where the document has all fields of the equations.
  unfoldable pub insert_if_missing :
      Context → Result (D → Bool) → (D → D) → D → Bool → List ℕ → ℕ → ℕ → M Db Bool
  insert_if_missing ctx filter merged model lock flags now fresh = do
    need_transaction ctx lock
    p ← lift filter
    let identified = ensure_id doc fresh model
    lift (validated doc flags identified)
    let cleaned = clean_doc doc now identified
    n ←
        drv.update_one_upsert p (with_lock doc lock (λ d. d))
          (merged (with_lock doc lock (λ d. d) cleaned))
    pure (n == 1)

  unfoldable pub replace : Context → D → Bool → List ℕ → ℕ → M Db Bool
  replace ctx model lock flags now = do
    fail_if ((doc.base model).doc_id == 0) (message "model has a zero ID")
    need_transaction ctx lock
    lift (validated doc flags model)
    n ←
        drv.replace_one (has_id doc (doc.base model).doc_id)
          (bump_lock doc lock (clean_doc doc now model))
    pure (n == 1)

  unfoldable pub replace_first : Context → Result (D → Bool) → D → Bool → List ℕ → ℕ → M Db Bool
  replace_first ctx filter model lock flags now = do
    need_transaction ctx lock
    lift (validated doc flags model)
    p ← lift filter
    n ← drv.replace_one p (bump_lock doc lock (clean_doc doc now model))
    pure (n == 1)

  unfoldable pub update : Context → ℕ → Result (D → D) → Bool → List ℕ → ℕ → M Db (Option D)
  update ctx id change lock flags now = do
    need_transaction ctx lock
    f ← lift change
    r ← drv.find_one_and_update (has_id doc id) (with_lock doc lock f) []
    updated doc now flags r

  unfoldable pub update_first :
      (List String → Result (List String))
      → Context
      → Result (D → Bool)
      → Result (D → D)
      → List String
      → Bool
      → List ℕ
      → ℕ
      → M Db (Option D)
  update_first trans ctx filter change sort lock flags now = do
    need_transaction ctx lock
    p ← lift filter
    f ← lift change
    order ← sorted trans sort
    r ← drv.find_one_and_update p (with_lock doc lock f) order
    updated doc now flags r

  unfoldable pub update_all : Context → Result (D → Bool) → Result (D → D) → Bool → M Db ℕ
  update_all ctx filter change lock = do
    need_transaction ctx lock
    p ← lift filter
    f ← lift change
    (matched, modified) ← drv.update_many p (with_lock doc lock f)
    pure matched

  -- The token that `$setOnInsert` gives to a document that is inserted.
  abbrev pub with_token : ℕ → D → D
  with_token token d = doc.with_base (record base { token = token }) d
    where
      base : Base
      base = doc.base d

  -- Upsert; `seed` is the document of the filter's equations, to which the update is applied
  -- where none matches.
  unfoldable pub upsert :
      (List String → Result (List String))
      → Context
      → Result (D → Bool)
      → Result (D → D)
      → D
      → List String
      → Bool
      → List ℕ
      → ℕ
      → ℕ
      → M Db Bool
  upsert trans ctx filter change seed sort lock flags now token = do
    need_transaction ctx lock
    p ← lift filter
    f ← lift change
    order ← sorted trans sort
    r ←
        drv.find_one_and_upsert p (with_lock doc lock f) order
          (with_token token (with_lock doc lock f seed))
    m ← updated doc now flags r
    pure (elim m [ none ↦ false | some d ↦ (doc.base d).token == token ])

  -- Delete, where the caller passes a model to be filled in or none.
  unfoldable pub delete : Bool → ℕ → M Db Bool
  delete true id = do r ← drv.find_one_and_delete (has_id doc id) []; pure (is_some r)
  delete false id = do n ← drv.delete_one (has_id doc id); pure (n == 1)

  unfoldable pub delete_all : Result (D → Bool) → M Db ℕ
  delete_all filter = do p ← lift filter; drv.delete_many p

  unfoldable pub delete_first :
      (List String → Result (List String)) → Result (D → Bool) → List String → M Db (Option D)
  delete_first trans filter sort = do
    p ← lift filter
    order ← sorted trans sort
    drv.find_one_and_delete p order

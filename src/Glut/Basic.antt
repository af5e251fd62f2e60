-- ===== src/Glut/Basic.antt =====
-- glut/basic.go: reading and writing values, whatever locks are held. The clock is read once for
-- the deadline (`now`); an operation answers the handle with what it loaded into it.
use fire.Base.{
  ℕ_eq, String_eq, ◌==◌, is_some, Result, ok, check, M, ◌>>=◌, ◌>>◌, pure, lift, ℕ, String, Bool,
  true, false, Option, none, some, List, [],
}
use fire.Coal.Model.{Base}
use fire.Coal.Driver.{Driver}
use fire.Coal.Manager.Defs.{Context, find_first}
use fire.Coal.Manager.Mutations.{insert_if_missing, upsert, delete_first}
use fire.Glut.Model.{Model, model_doc}
use fire.Glut.Values.{Kind, Handle, get_key, get_deadline}

-- A document or filter that the source writes with no ID, and no translation error: its fields
-- are known.
abbrev pub no_base : Base
no_base = record { doc_id = 0; lock = 0; token = 0; tags = [] }

abbrev pub no_sort : List String → Result (List String)
no_sort sort = ok sort

module _ {Data : Type 0} where
  abbrev pub has_key : String → Model Data → Bool
  has_key key m = m.key == key

  -- `{"$set": {"Data": data, "Deadline": deadline}}`
  abbrev pub write : Data → Option ℕ → Model Data → Model Data
  write content deadline m = record m { content = content; deadline = deadline }

module _ {V Data : Type 0} (drv : Driver (Model Data)) (kind : Kind V Data) where
  open drv use {Db}

  -- Decode and validate what was found into the value.
  unfoldable pub load : Handle V → Data → M Db (Handle V)
  load h content = do
    v ← lift (kind.unmarshal content h.value)
    lift (check (kind.validate v))
    pure (record h { value = v })

  unfoldable pub get : Context → Handle V → ℕ → M Db (Handle V × Bool)
  unfolding load
  get ctx h now = do
    key ← lift (get_key kind h.value)
    found ← find_first drv model_doc no_sort ctx (ok (has_key key)) [] 0 false [] now
    elim found [
      | none ↦ pure (h, false)
      | some m ↦ (do loaded ← load h m.content; pure (loaded, true))
    ]

  -- `null_data` is the nil map of a document that holds no data yet.
  unfoldable pub ensure : Context → Handle V → ℕ → ℕ → M Db Bool
  ensure ctx h now fresh = do
    key ← lift (get_key kind h.value)
    deadline ← lift (get_deadline kind now h.value)
    lift (check (kind.validate h.value))
    content ← lift (kind.marshal h.value)
    insert_if_missing drv model_doc ctx (ok (has_key key)) (λ d. d)
        (record {
          base = no_base;
          key = key;
          content = content;
          deadline = deadline;
          locked = none;
          token = none;
        })
        false [] now fresh

  unfoldable pub set : Context → Data → Handle V → ℕ → ℕ → ℕ → M Db Bool
  set ctx null_data h now fresh token = do
    key ← lift (get_key kind h.value)
    deadline ← lift (get_deadline kind now h.value)
    lift (check (kind.validate h.value))
    content ← lift (kind.marshal h.value)
    upsert drv model_doc no_sort ctx (ok (has_key key)) (ok (write content deadline))
        (record {
          base = record no_base { doc_id = fresh };
          key = key;
          content = null_data;
          deadline = none;
          locked = none;
          token = none;
        })
        [] false [] now token

  unfoldable pub delete : Handle V → M Db Bool
  delete h = do
    key ← lift (get_key kind h.value)
    deleted ← delete_first drv model_doc no_sort (ok (has_key key)) []
    pure (is_some deleted)

  -- The callback changes the value; `between` is what others do to the collection meanwhile.
  unfoldable pub mutate :
      Context → Data → (Db → Db) → Handle V → (Bool → V → Result V) → ℕ → ℕ → ℕ → M Db (Handle V)
  mutate ctx null_data between h fn now fresh token = do
    (loaded, exists) ← get ctx h now
    v ← lift (fn exists loaded.value)
    (λ s. (between s, ok tt))
    _ ← set ctx null_data (record loaded { value = v }) now fresh token
    pure (record loaded { value = v })

-- ===== src/Coal/Driver.antt =====
-- The MongoDB driver under coal.Collection (coal/collection.go), which is not part of the
-- repository: an interface with the documented behaviour that the manager relies on. A filter
-- document is taken as the predicate that it denotes, an update document as the function that it
-- applies. A call may fail, and a call that fails may yet have been applied.
use mathlib.Core.Option
use fire.Base.{
  ℕ_eq, String_eq, if◌then◌else◌, is_some, select, first, update_first, delete_first, Error, Result,
  ok, err, M, ℕ, String, ◌≡◌, ◌⊎◌, Bool, true, false, not, Option, none, some, List, [], ◌∷◌, ◌++◌,
}

-- What others do to the state meanwhile.
unfoldable pub meanwhile : {S : Type 0} → (S → S) → M S (Unit {0})
meanwhile between s = (between s, ok tt)

-- The driver of a collection that holds documents of one type.
pub record Driver (D : Type 0) : Type 1 where
  pub Db : Type 0
  pub docs : Db → List D
  -- InsertOne and ordered InsertMany
  pub insert_many : List D → M Db (Unit {0})
  -- FindOne with its sort and skip
  pub find_one : (D → Bool) → List String → ℕ → M Db (Option D)
  -- Find with its sort, skip and limit
  pub find : (D → Bool) → List String → ℕ → ℕ → M Db (List D)
  -- CountDocuments with its skip and limit
  pub count : (D → Bool) → ℕ → ℕ → M Db ℕ
  -- FindOneAndUpdate with its sort, answering the document after the update
  pub find_one_and_update : (D → Bool) → (D → D) → List String → M Db (Option D)
  -- the same with upsert: the last document is what is inserted where none matches
  pub find_one_and_upsert : (D → Bool) → (D → D) → List String → D → M Db (Option D)
  -- UpdateMany, answering the numbers of matched and of modified documents
  pub update_many : (D → Bool) → (D → D) → M Db (ℕ × ℕ)
  -- UpdateOne with upsert, answering the number of upserted documents
  pub update_one_upsert : (D → Bool) → (D → D) → D → M Db ℕ
  -- ReplaceOne, answering the number of matched documents
  pub replace_one : (D → Bool) → D → M Db ℕ
  -- FindOneAndDelete with its sort
  pub find_one_and_delete : (D → Bool) → List String → M Db (Option D)
  -- DeleteOne and DeleteMany, answering the number of deleted documents
  pub delete_one : (D → Bool) → M Db ℕ
  pub delete_many : (D → Bool) → M Db ℕ

abbrev pub count_if : Bool → ℕ
count_if true = 1
count_if false = 0

module _ {D : Type 0} where
  -- The outcome of a write that answers with a value: applied with that answer, or failed, and
  -- then applied or not.
  abbrev pub Wrote : {A : Type 0} → List D → List D → A → List D × Result A → Type 0
  Wrote before after a (now, r) =
      ((now ≡ after) × (r ≡ ok a)) ⊎ ((e : Error) × ((now ≡ before) ⊎ (now ≡ after)) × (r ≡ err e))

  -- The outcome of an ordered insert: all of the documents, or an error behind a first part.
  abbrev pub Inserted : List D → List D → List D × Result (Unit {0}) → Type 0
  Inserted before xs (now, r) =
      ((now ≡ before ++ xs) × (r ≡ ok tt))
      ⊎ ((ys : List D) × (zs : List D) × (e : Error) × (xs ≡ ys ++ zs)
          × (now ≡ before ++ ys)
          × (r ≡ err e))

  -- The outcome of a read.
  abbrev pub Read : {A : Type 0} → List D → A → List D × Result A → Type 0
  Read before a (now, r) = (now ≡ before) × ((r ≡ ok a) ⊎ ((e : Error) × (r ≡ err e)))

  -- What a replacement, an upsert and the counts come to.
  abbrev pub update_all : (D → Bool) → (D → D) → List D → List D
  update_all p f [] = []
  update_all p f (x ∷ xs) = (if p x then f x else x) ∷ update_all p f xs

  abbrev pub delete_all : (D → Bool) → List D → List D
  delete_all p = select (λ x. not (p x))

  abbrev pub upsert_first : (D → Bool) → (D → D) → D → List D → List D
  upsert_first p f seed xs = elim (first p xs) [
    | none ↦ xs ++ seed ∷ []
    | some _ ↦ update_first p f xs
  ]

  abbrev pub upsert_answer : (D → Bool) → (D → D) → D → List D → D
  upsert_answer p f seed xs = elim (first p xs) [ none ↦ seed | some d ↦ f d ]

  abbrev pub obs : (drv : Driver D) {A : Type 0} → drv.Db × Result A → List D × Result A
  obs drv (s, r) = (drv.docs s, r)

-- The documented behaviour: without a sort the first match in the collection's order is taken,
-- and an ordered insert stops at its first failure. The calls are made one after another; nothing is
-- said of calls that overlap, such as two upserts whose filter no unique index covers.
pub record IsDriver {D : Type 0} (drv : Driver D) : Type 0 where
  pub insert_many_lem :
      (xs : List D) (s : drv.Db) → Inserted (drv.docs s) xs (obs drv (drv.insert_many xs s))
  pub find_one_lem :
      (p : D → Bool) (s : drv.Db)
      → Read (drv.docs s) (first p (drv.docs s)) (obs drv (drv.find_one p [] 0 s))
  pub update_lem :
      (p : D → Bool) (f : D → D) (s : drv.Db)
      → Wrote
          (drv.docs s)
          (update_first p f (drv.docs s))
          (Option.map f (first p (drv.docs s)))
          (obs drv (drv.find_one_and_update p f [] s))
  pub upsert_lem :
      (p : D → Bool) (f : D → D) (seed : D) (s : drv.Db)
      → Wrote
          (drv.docs s)
          (upsert_first p f seed (drv.docs s))
          (some (upsert_answer p f seed (drv.docs s)))
          (obs drv (drv.find_one_and_upsert p f [] seed s))
  pub update_one_upsert_lem :
      (p : D → Bool) (f : D → D) (seed : D) (s : drv.Db)
      → Wrote
          (drv.docs s)
          (upsert_first p f seed (drv.docs s))
          (count_if (not (is_some (first p (drv.docs s)))))
          (obs drv (drv.update_one_upsert p f seed s))
  pub delete_lem :
      (p : D → Bool) (s : drv.Db)
      → Wrote
          (drv.docs s)
          (delete_first p (drv.docs s))
          (first p (drv.docs s))
          (obs drv (drv.find_one_and_delete p [] s))
  pub delete_one_lem :
      (p : D → Bool) (s : drv.Db)
      → Wrote
          (drv.docs s)
          (delete_first p (drv.docs s))
          (count_if (is_some (first p (drv.docs s))))
          (obs drv (drv.delete_one p s))
  pub replace_one_lem :
      (p : D → Bool) (d : D) (s : drv.Db)
      → Wrote
          (drv.docs s)
          (update_first p (λ _. d) (drv.docs s))
          (count_if (is_some (first p (drv.docs s))))
          (obs drv (drv.replace_one p d s))

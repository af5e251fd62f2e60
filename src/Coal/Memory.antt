-- ===== src/Coal/Memory.antt =====
-- A driver that keeps the collection as a list and never fails: it shows that the documented
-- behaviour can be met, and it runs the tests.
use mathlib.Core.Option
use fire.Base.{
  ℕ_eq, String_eq, is_some, length, select, first, update_first, delete_first, ok, ℕ, zero, suc,
  refl, inl, not, some, List, [], ◌∷◌, ◌++◌,
}
use fire.Coal.Driver.{
  Driver, IsDriver, count_if, update_all, delete_all, upsert_first, upsert_answer,
}

module _ {D : Type 0} where
  abbrev drop : ℕ → List D → List D
  drop zero xs = xs
  drop (suc n) [] = []
  drop (suc n) (x ∷ xs) = drop n xs

  -- A limit of 0 is no limit.
  abbrev take : ℕ → List D → List D
  take zero xs = []
  take (suc n) [] = []
  take (suc n) (x ∷ xs) = x ∷ take n xs

  abbrev limited : ℕ → List D → List D
  limited zero xs = xs
  limited (suc n) xs = take (suc n) xs

abbrev pub memory : (D : Type 0) → Driver D
memory D = record {
  Db = List D;
  docs = λ s. s;
  insert_many = λ xs s. (s ++ xs, ok tt);
  find_one = λ p sort skip s. (s, ok (first p (drop skip s)));
  find = λ p sort skip limit s. (s, ok (limited limit (drop skip (select p s))));
  count = λ p skip limit s. (s, ok (length (limited limit (drop skip (select p s)))));
  find_one_and_update = λ p f sort s. (update_first p f s, ok (Option.map f (first p s)));
  find_one_and_upsert =
      λ p f sort seed s. (upsert_first p f seed s, ok (some (upsert_answer p f seed s)));
  update_many = λ p f s. (update_all p f s, ok (length (select p s), length (select p s)));
  update_one_upsert =
      λ p f seed s. (upsert_first p f seed s, ok (count_if (not (is_some (first p s)))));
  replace_one = λ p d s. (update_first p (λ _. d) s, ok (count_if (is_some (first p s))));
  find_one_and_delete = λ p sort s. (delete_first p s, ok (first p s));
  delete_one = λ p s. (delete_first p s, ok (count_if (is_some (first p s))));
  delete_many = λ p s. (delete_all p s, ok (length (select p s)));
}

pub memory-IsDriver : (D : Type 0) → IsDriver (memory D)
memory-IsDriver D = record {
  insert_many_lem = λ xs s. inl (refl, refl);
  find_one_lem = λ p s. (refl, inl refl);
  update_lem = λ p f s. inl (refl, refl);
  upsert_lem = λ p f seed s. inl (refl, refl);
  update_one_upsert_lem = λ p f seed s. inl (refl, refl);
  delete_lem = λ p s. inl (refl, refl);
  delete_one_lem = λ p s. inl (refl, refl);
  replace_one_lem = λ p d s. inl (refl, refl);
}

-- ===== src/Coal/Manager/Rules.antt =====
-- Rules for the manager's operations, without locks, sorts and flags: what they do to an invariant
-- of the documents and what they answer.
use mathlib.Core.Path.{subst}
use fire.Base.{
  ℕ_eq, String_eq, ◌==◌, Result, ok, err, ok_injective, M, ◌>>=◌, bind, pure, ℕ, String, ◌≡◌, refl,
  sym, ◌∙◌, inl, inr, Bool, true, false, Option, none, some, List, [], ◌∷◌, ◌++◌, arith,
}
use fire.Base.{first, update_first as update_list, delete_first as delete_list}
use fire.Coal.Driver.{Driver, IsDriver, Read, Wrote, obs, upsert_first}
use fire.Coal.Triples.{Ensures}
use fire.Coal.Manager.Defs.{Context, Doc, clean_doc, find_first}
use fire.Coal.Manager.Defs
use fire.Coal.Manager.Mutations.{insert_if_missing, update_first, upsert, delete_first, with_token}
use fire.Coal.Manager.Writes.{
  Updated, Placed, placed, update_first-Updated, insert_if_missing-Placed,
}

module _ {D : Type 0} (drv : Driver D) (law : IsDriver drv) (doc : Doc D)
    (Inv : List D → Type 0) where
  updated_Inv :
      (p : D → Bool) (f : D → D) (now : ℕ) (before : List D) (w : drv.Db × Result (Option D))
      → Updated drv law doc p f now before (obs drv w)
      → ((xs : List D) → Inv xs → Inv (update_list p f xs))
      → Inv before
      → Inv (drv.docs w.0)
  updated_Inv p f now before (s, r) (inl (_, e, _)) step i = subst Inv (sym e) i
  updated_Inv p f now before (s, r) (inr (inl (d, _, e, _, _))) step i =
      subst Inv (sym e) (step before i)
  updated_Inv p f now before (s, r) (inr (inr (x, inl e, _))) step i = subst Inv (sym e) i
  updated_Inv p f now before (s, r) (inr (inr (x, inr e, _))) step i =
      subst Inv (sym e) (step before i)

  updated_answer :
      (p : D → Bool) (f : D → D) (now : ℕ) (before : List D) (w : drv.Db × Result (Option D))
      (Q : Option D → Type 0)
      → Updated drv law doc p f now before (obs drv w)
      → (first p before ≡ none → Q none)
      → ((d : D) → first p before ≡ some d → Q (some (clean_doc doc now (f d))))
      → (o : Option D) → w.1 ≡ ok o
      → Q o
  updated_answer p f now before (s, r) Q (inl (n, _, e)) miss hit o h =
      let same : none ≡ o = cc in subst Q same (miss n)
  updated_answer p f now before (s, r) Q (inr (inl (d, m, _, e, _))) miss hit o h =
      let same : some (clean_doc doc now (f d)) ≡ o = cc in subst Q same (hit d m)
  updated_answer p f now before (s, r) Q (inr (inr (x, _, e))) miss hit o h = cc

  pub ensures_update_first :
      (ctx : Context) (trans : List String → Result (List String)) (p : D → Bool) (f : D → D)
      (now : ℕ) (Q : Option D → Type 0)
      → ((xs : List D) → Inv xs → Inv (update_list p f xs))
      → ((xs : List D) → Inv xs → first p xs ≡ none → Q none)
      → ((xs : List D) (d : D) → Inv xs → first p xs ≡ some d → Q (some (clean_doc doc now (f d))))
      → Ensures drv Inv (update_first drv doc trans ctx (ok p) (ok f) [] false [] now) Q
  ensures_update_first ctx trans p f now Q step miss hit = record {
    keeps = λ s i.
        updated_Inv p f now (drv.docs s) _ (update_first-Updated drv law doc trans ctx p f now s)
          step i;
    answers = λ s i.
        updated_answer p f now (drv.docs s) _ Q
          (update_first-Updated drv law doc trans ctx p f now s) (miss (drv.docs s) i)
          (λ d. hit (drv.docs s) d i);
  }

  placed_Inv :
      (p : D → Bool) (model : D) (now fresh : ℕ) (before : List D) (w : drv.Db × Result Bool)
      → Placed drv law doc p (λ d. d) model now fresh before (obs drv w)
      → ((xs : List D)
          → Inv xs
          → first p xs ≡ none
          → Inv (xs ++ placed drv law doc (λ d. d) model now fresh ∷ []))
      → Inv before
      → Inv (drv.docs w.0)
  placed_Inv p model now fresh before (s, r) (inl (_, _, e, _)) step i = subst Inv (sym e) i
  placed_Inv p model now fresh before (s, r) (inr (inl (n, e, _, _))) step i =
      subst Inv (sym e) (step before i n)
  placed_Inv p model now fresh before (s, r) (inr (inr (x, inl e, _))) step i = subst Inv (sym e) i
  placed_Inv p model now fresh before (s, r) (inr (inr (x, inr (n, e), _))) step i =
      subst Inv (sym e) (step before i n)

  placed_answer :
      (p : D → Bool) (model : D) (now fresh : ℕ) (before : List D) (w : drv.Db × Result Bool)
      (Q : Bool → Type 0)
      → Placed drv law doc p (λ d. d) model now fresh before (obs drv w)
      → (first p before ≡ none → Q true)
      → ((d : D) → first p before ≡ some d → Q false)
      → (b : Bool) → w.1 ≡ ok b
      → Q b
  placed_answer p model now fresh before (s, r) Q (inl (d, m, _, e)) miss hit b h =
      let same : false ≡ b = cc in subst Q same (hit d m)
  placed_answer p model now fresh before (s, r) Q (inr (inl (n, _, _, e))) miss hit b h =
      let same : true ≡ b = cc in subst Q same (miss n)
  placed_answer p model now fresh before (s, r) Q (inr (inr (x, _, e))) miss hit b h = cc

  pub ensures_insert_if_missing :
      (ctx : Context) (p : D → Bool) (model : D) (now fresh : ℕ) (Q : Bool → Type 0)
      → ((xs : List D)
          → Inv xs
          → first p xs ≡ none
          → Inv (xs ++ placed drv law doc (λ d. d) model now fresh ∷ []))
      → ((xs : List D) → Inv xs → first p xs ≡ none → Q true)
      → ((xs : List D) (d : D) → Inv xs → first p xs ≡ some d → Q false)
      → Ensures drv Inv (insert_if_missing drv doc ctx (ok p) (λ d. d) model false [] now fresh) Q
  ensures_insert_if_missing ctx p model now fresh Q step miss hit = record {
    keeps = λ s i.
        placed_Inv p model now fresh (drv.docs s) _
          (insert_if_missing-Placed drv law doc ctx p (λ d. d) model now fresh s) step i;
    answers = λ s i.
        placed_answer p model now fresh (drv.docs s) _ Q
          (insert_if_missing-Placed drv law doc ctx p (λ d. d) model now fresh s)
          (miss (drv.docs s) i) (λ d. hit (drv.docs s) d i);
  }

  pub loaded_keeps :
      (now : ℕ) (before : List D) (r : Option D) (w : drv.Db × Result (Option D))
      → Read before r (obs drv w)
      → drv.docs (bind w (Defs.loaded doc now [])).0 ≡ before
  loaded_keeps now before r (s, ok none) (e, _) = e
  loaded_keeps now before r (s, ok (some d)) (e, _) = ground arith
  loaded_keeps now before r (s, err x) (e, _) = e

  pub loaded_answer :
      (now : ℕ) (before : List D) (r : Option D) (w : drv.Db × Result (Option D))
      (Q : Option D → Type 0)
      → Read before r (obs drv w)
      → (r ≡ none → Q none)
      → ((d : D) → r ≡ some d → Q (some (clean_doc doc now d)))
      → (o : Option D) → (bind w (Defs.loaded doc now [])).1 ≡ ok o
      → Q o
  loaded_answer now before r (s, ok none) Q (_, inl e) miss hit o h =
      let same : none ≡ o = cc in subst Q same (miss (cc))
  loaded_answer now before r (s, ok none) Q (_, inr (x, e)) miss hit o h = cc
  loaded_answer now before r (s, ok (some d)) Q (_, inl e) miss hit o h =
      let same : some (clean_doc doc now d) ≡ o = ground arith in subst Q same (hit d (cc))
  loaded_answer now before r (s, ok (some d)) Q (_, inr (x, e)) miss hit o h = cc
  loaded_answer now before r (s, err y) Q e miss hit o h = cc

  pub ensures_find_first :
      (ctx : Context) (trans : List String → Result (List String)) (p : D → Bool) (now : ℕ)
      (Q : Option D → Type 0)
      → ((xs : List D) → Inv xs → first p xs ≡ none → Q none)
      → ((xs : List D) (d : D) → Inv xs → first p xs ≡ some d → Q (some (clean_doc doc now d)))
      → Ensures drv Inv (find_first drv doc trans ctx (ok p) [] 0 false [] now) Q
  unfolding find_first
  ensures_find_first ctx trans p now Q miss hit = record {
    keeps = λ s i.
        subst Inv
          (sym (
            loaded_keeps now (drv.docs s) (first p (drv.docs s)) (drv.find_one p [] 0 s)
              (law.find_one_lem p s)))
          i;
    answers = λ s i.
        loaded_answer now (drv.docs s) (first p (drv.docs s)) (drv.find_one p [] 0 s) Q
          (law.find_one_lem p s) (miss (drv.docs s) i) (λ d. hit (drv.docs s) d i);
  }

  deleted_keeps :
      (p : D → Bool) (before : List D) (w : drv.Db × Result (Option D))
      → Wrote before (delete_list p before) (first p before) (obs drv w)
      → Inv before
      → Inv (delete_list p before)
      → Inv (drv.docs w.0)
  deleted_keeps p before (s, r) (inl (e, _)) i j = subst Inv (sym e) j
  deleted_keeps p before (s, r) (inr (x, inl e, _)) i j = subst Inv (sym e) i
  deleted_keeps p before (s, r) (inr (x, inr e, _)) i j = subst Inv (sym e) j

  deleted_answer :
      (p : D → Bool) (before : List D) (w : drv.Db × Result (Option D))
      → Wrote before (delete_list p before) (first p before) (obs drv w)
      → (o : Option D) → w.1 ≡ ok o
      → first p before ≡ o
  deleted_answer p before (s, r) (inl (_, e)) o h = ok_injective (sym e ∙ h)
  deleted_answer p before (s, r) (inr (x, _, e)) o h = cc

  pub ensures_delete_first :
      (trans : List String → Result (List String)) (p : D → Bool) (Q : Option D → Type 0)
      → ((xs : List D) → Inv xs → Inv (delete_list p xs))
      → ((xs : List D) → Inv xs → Q (first p xs))
      → Ensures drv Inv (delete_first drv doc trans (ok p) []) Q
  unfolding delete_first
  ensures_delete_first trans p Q step answer = record {
    keeps = λ s i.
        deleted_keeps p (drv.docs s) (drv.find_one_and_delete p [] s) (law.delete_lem p s) i
          (step (drv.docs s) i);
    answers = λ s i o h.
        subst Q
          (deleted_answer p (drv.docs s) (drv.find_one_and_delete p [] s) (law.delete_lem p s) o h)
          (answer (drv.docs s) i);
  }

  upserted_keeps :
      (p : D → Bool) (f : D → D) (seed : D) (now : ℕ) (k : Option D → M drv.Db Bool)
      (before : List D) (a : Option D) (w : drv.Db × Result (Option D))
      → ((o : Option D) (s : drv.Db) → (k o s).0 ≡ s)
      → Wrote before (upsert_first p f seed before) a (obs drv w)
      → Inv before
      → Inv (upsert_first p f seed before)
      → Inv (drv.docs (bind w k).0)
  upserted_keeps p f seed now k before a (s, ok o) still (inl (e, _)) i j =
      rw (still o s) (subst Inv (sym e) j)
  upserted_keeps p f seed now k before a (s, ok o) still (inr (x, _, h)) i j = cc
  upserted_keeps p f seed now k before a (s, err y) still (inl (_, h)) i j = cc
  upserted_keeps p f seed now k before a (s, err y) still (inr (x, inl e, _)) i j =
      subst Inv (sym e) i
  upserted_keeps p f seed now k before a (s, err y) still (inr (x, inr e, _)) i j =
      subst Inv (sym e) j

  token_answer : ℕ → ℕ → Option D → M drv.Db Bool
  token_answer now token r = Defs.updated doc now [] r >>= λ m.
      pure (elim m [ none ↦ false | some d ↦ (doc.base d).token == token ])

  token_answer_still :
      (now token : ℕ) (o : Option D) (s : drv.Db) → (token_answer now token o s).0 ≡ s
  unfolding token_answer
  token_answer_still now token none s = refl
  token_answer_still now token (some d) s = ground arith

  pub ensures_upsert :
      (ctx : Context) (trans : List String → Result (List String)) (p : D → Bool) (f : D → D)
      (seed : D) (now token : ℕ)
      → ((xs : List D) → Inv xs → Inv (upsert_first p f (with_token drv doc token (f seed)) xs))
      → Ensures drv Inv
          (upsert drv doc trans ctx (ok p) (ok f) seed [] false [] now token)
          (λ _. Unit {0})
  unfolding upsert token_answer
  ensures_upsert ctx trans p f seed now token step = record {
    keeps = λ s i.
        upserted_keeps p f (with_token drv doc token (f seed)) now (token_answer now token)
          (drv.docs s) _ (drv.find_one_and_upsert p f [] (with_token drv doc token (f seed)) s)
          (token_answer_still now token) (law.upsert_lem p f (with_token drv doc token (f seed)) s)
          i (step (drv.docs s) i);
    answers = λ s i b h. tt;
  }

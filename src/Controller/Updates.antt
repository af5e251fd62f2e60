-- ===== src/Controller/Updates.antt =====
-- Consistent updates (updateResource of controller.go): an update that was prepared from a state that
-- has been replaced since does not succeed.
use mathlib.Core.Path.{subst}
use fire.Base.{
  ℕ_eq, String_eq, ◌==◌, ℤ_eq, is_some, ==_sound, length, select, Error, transaction_required,
  Result, ok, err, ok_injective, M, ◌>>=◌, pure, fail_if, ℕ, ◌≤◌, String, ◌≡◌, refl, sym, ap, ◌∙◌,
  ◌≢◌, inl, inr, Bool, true, false, not, ◌&&◌, Option, none, some, List, [], arith,
}
use fire.Base.{first, All-first, first_passes}
use fire.Base.{update_first as update_list, update_first-sole}
use fire.Coal.Driver.{Driver, IsDriver, Wrote, count_if, obs}
use fire.Coal.Outcomes.{Yields, yields_bind, yields_lift, yields_fail_if, yields_pure}
use fire.Coal.Manager.Defs.{Context as Tx, Doc, has_id, clean_doc, validated}
use fire.Coal.Manager.Mutations.{replace_first}
use fire.Controller.Model.{Field, Controller}
use fire.Controller.Resources.{unique, replace_by, replace_model}

module _ {D : Type 0} (drv : Driver D) (law : IsDriver drv) (doc : Doc D) where
  -- What a replacement that answers true has found and left.
  abbrev Replaced : (D → Bool) → D → ℕ → List D → Bool → List D → Type 0
  Replaced p m now before b after =
      b ≡ true
      → (is_some (first p before) ≡ true)
        × (after ≡ update_list p (λ _. clean_doc doc now m) before)

  counted :
      (p : D → Bool) (m : D) (now : ℕ) (before : List D) (w : drv.Db × Result ℕ)
      → Wrote before
          (update_list p (λ _. clean_doc doc now m) before)
          (count_if (is_some (first p before)))
          (obs drv w)
      → (n : ℕ) → w.1 ≡ ok n
      → Replaced p m now before (n == 1) (drv.docs w.0)
  counted p m now before (s, r) (inl (e, a)) n h b =
      let one : count_if (is_some (first p before)) ≡ n = ok_injective (sym a ∙ h) in
      (by_count (is_some (first p before)) (one_of n b one), e)
    where
      one_of :
          (n : ℕ)
          → (n == 1) ≡ true
          → count_if (is_some (first p before)) ≡ n
          → count_if (is_some (first p before)) ≡ 1
      one_of n b e = e ∙ ==_sound n 1 b

      by_count : (t : Bool) → count_if t ≡ 1 → t ≡ true
      by_count true e = refl
      by_count false e = ground arith
  counted p m now before (s, r) (inr (x, _, e)) n h b = cc

  replace-Yields :
      (tx : Tx) (p : D → Bool) (m : D) (now : ℕ) (s : drv.Db)
      → Yields
          (replace_first drv doc tx (ok p) m false [] now)
          s
          (λ b t. Replaced p m now (drv.docs s) b (drv.docs t))
  unfolding replace_first
  replace-Yields tx p m now s = yields_bind (yields_fail_if false transaction_required s) λ _ s1 e1.
      yields_bind (yields_lift (validated doc [] m) s1) λ _ s2 e2.
        yields_bind (yields_lift (ok p) s2) λ q s3 e3.
          subst
            (λ z.
              Yields (drv.replace_one q (clean_doc doc now m) >>= λ n. pure (n == 1)) z
                (λ b t. Replaced p m now (drv.docs s) b (drv.docs t)))
            (sym (e3.0 ∙ e2.0 ∙ e1))
            (subst
              (λ f.
                Yields (drv.replace_one f (clean_doc doc now m) >>= λ n. pure (n == 1)) s
                  (λ b t. Replaced p m now (drv.docs s) b (drv.docs t)))
              (ok_injective e3.1)
              (yields_bind {P = λ n t. Replaced p m now (drv.docs s) (n == 1) (drv.docs t)}
                {m = drv.replace_one p (clean_doc doc now m)} {f = λ n. pure (n == 1)}
                (record {
                  yields = λ n h.
                      counted p m now (drv.docs s) (drv.replace_one p (clean_doc doc now m) s)
                        (law.replace_one_lem p (clean_doc doc now m) s) n h;
                })
                λ n t k.
                  yields_pure (λ b t. Replaced p m now (drv.docs s) b (drv.docs t)) (n == 1) t k))

-- What a field gives is what was set, whatever the base of the document is.
pub record IsField {D : Type 0} (doc : Doc D) (f : Field D) : Type 0 where
  pub get_set : (token : String) (d : D) → f.get (f.set token d) ≡ token
  pub base_apart : (d : D) (now : ℕ) → f.get (clean_doc doc now d) ≡ f.get d

module _ {D : Type 0} (drv : Driver D) (law : IsDriver drv) (c : Controller drv.Db D) (f : Field D)
    (laws : IsField c.doc f) where
  -- A document of the ID with the token.
  abbrev pub has_token : ℕ → String → D → Bool
  has_token id token d = has_id c.doc id d && f.get d == token

  renamed-ok :
      {A : Type 0} (P : A → drv.Db → Type 0) (w : drv.Db × Result A)
      → ((a : A) → w.1 ≡ ok a → P a w.0)
      → (a : A) → (unique drv c (λ _. w) w.0).1 ≡ ok a
      → P a (unique drv c (λ _. w) w.0).0
  unfolding unique
  renamed-ok P (t, ok b) k a h = k a h
  renamed-ok P (t, err e) k a h = cc

  unique-Yields :
      {A : Type 0} (P : A → drv.Db → Type 0) (m : M drv.Db A) (s : drv.Db)
      → Yields m s P
      → Yields (unique drv c m) s P
  unfolding unique
  unique-Yields P m s y = record { yields = λ a h. renamed-ok P (m s) y.yields a h }

  -- What a consistent update that succeeds has found and left.
  abbrev Consistent : String → String → D → ℕ → List D → List D → Type 0
  Consistent stored token m now before after =
      (is_some (first (has_token (c.doc.base m).doc_id stored) before) ≡ true)
      × (after
          ≡ update_list (has_token (c.doc.base m).doc_id stored)
              (λ _. clean_doc c.doc now (f.set token m)) before)

  replace-Consistent :
      (tx : Tx) (stored token : String) (m : D) (now : ℕ) (s : drv.Db)
      → Yields
          (replace_by drv c (some f) tx stored token m now)
          s
          (λ g t. Consistent stored token m now (drv.docs s) (drv.docs t))
  unfolding replace_by
  replace-Consistent tx stored token m now s =
      yields_bind (fail_if-Yields (not (f.get m == stored)) _ s) λ _ s1 e1.
        yields_bind
          (subst
            (λ z.
              Yields
                (unique drv c (
                  replace_first drv c.doc tx (ok (has_token (c.doc.base m).doc_id (f.get m)))
                    (f.set token m) false [] now))
                z
                (λ b t.
                  Replaced drv law c.doc (has_token (c.doc.base m).doc_id (f.get m)) (f.set token m)
                    now (drv.docs s) b (drv.docs t)))
            (sym (e1.0))
            (unique-Yields _ _ s (replace-Yields drv law c.doc tx _ (f.set token m) now s)))
          λ b s2 r. yields_bind (fail_if-Yields (not b) _ s2) λ _ s3 e3.
            yields_pure _ (f.set token m) s3 (
              subst (λ z. Consistent stored token m now (drv.docs s) (drv.docs z)) (sym (e3.0))
                (subst
                  (λ t.
                    (is_some (first (has_token (c.doc.base m).doc_id t) (drv.docs s)) ≡ true)
                    × (drv.docs s2
                        ≡ update_list (has_token (c.doc.base m).doc_id t)
                            (λ _. clean_doc c.doc now (f.set token m)) (drv.docs s)))
                  (same_token (f.get m) stored e1.1) (r (is_true b e3.1))))
    where
      fail_if-Yields :
          (b : Bool) (e : Error) (s : drv.Db)
          → Yields (fail_if b e) s (λ _ t. (t ≡ s) × (b ≡ false))
      fail_if-Yields true e s = record { yields = λ a h. cc }
      fail_if-Yields false e s = record { yields = λ a h. (refl, refl) }

      same_token : (a b : String) → not (a == b) ≡ false → a ≡ b
      same_token a b h = ==_sound a b (ground (arith, h))

      is_true : (b : Bool) → not b ≡ false → b ≡ true
      is_true true h = refl
      is_true false h = cc

  found_first : {A : Type 0} (o : Option A) → is_some o ≡ true → (a : A) × (o ≡ some a)
  found_first none h = cc
  found_first (some a) h = (a, refl)

  no_second :
      (stored token : String) (a b : D) (now : ℕ) (before : List D)
      → (c.doc.base b).doc_id ≡ (c.doc.base a).doc_id
      → token ≢ stored
      → length (select (has_id c.doc (c.doc.base a).doc_id) before) ≤ 1
      → (d : D) → first (has_token (c.doc.base a).doc_id stored) before ≡ some d
      → (e : D)
      → first (has_token (c.doc.base b).doc_id stored) (
          update_list
            (has_token (c.doc.base a).doc_id stored)
            (λ _. clean_doc c.doc now (f.set token a))
            before)
        ≡ some e
      → ⊥
  no_second stored token a b now before same ne one d h e g =
      let after =
        update_list (has_token (c.doc.base a).doc_id stored)
          (λ _. clean_doc c.doc now (f.set token a)) before in
      let g' : first (has_token (c.doc.base a).doc_id stored) after ≡ some e =
        subst (λ i. first (has_token i stored) after ≡ some e) same g in
      let hit = first_passes (has_token (c.doc.base a).doc_id stored) after g' in
      let sole =
        update_first-sole (has_id c.doc (c.doc.base a).doc_id)
          (has_token (c.doc.base a).doc_id stored) (λ _. clean_doc c.doc now (f.set token a)) before
          d (λ x t. ground (arith, t)) one h in
      let new : e ≡ clean_doc c.doc now (f.set token a) =
        All-first
          (λ x.
            has_id c.doc (c.doc.base a).doc_id x ≡ true → x ≡ clean_doc c.doc now (f.set token a))
          (has_token (c.doc.base a).doc_id stored) after sole g' (ground (arith, hit)) in
      let tok : f.get e ≡ token =
        ap f.get new ∙ laws.base_apart (f.set token a) now ∙ laws.get_set token a in
      let old : f.get e ≡ stored = ==_sound (f.get e) stored (ground (arith, hit)) in
      ne (sym tok ∙ old)

  -- Of two updates of a document that were prepared from the same stored token, where no other
  -- document has its ID and the first one gives it another token, only one succeeds: after the first
  -- one has, the second one is not answered with success.
  pub lost_update :
      (tx tx' : Tx) (stored token token' : String) (a b : D) (now now' : ℕ) (s : drv.Db) (g h : D)
      → c.consistent_update ≡ some f
      → (c.doc.base b).doc_id ≡ (c.doc.base a).doc_id
      → token ≢ stored
      → length (select (has_id c.doc (c.doc.base a).doc_id) (drv.docs s)) ≤ 1
      → (replace_model drv c tx stored token a now s).1 ≡ ok g
      → (replace_model drv c tx' stored token' b now'
          (replace_model drv c tx stored token a now s).0).1
        ≢ ok h
  lost_update tx tx' stored token token' a b now now' s g h on same ne one first_ok second_ok =
      let m = λ (o : Option (Field D)). replace_by drv c o tx stored token a now s in
      let n = λ (o : Option (Field D)). (replace_by drv c o tx' stored token' b now' (m o).0).1 in
      let won =
        (replace-Consistent tx stored token a now s).yields g
          (subst (λ o. (m o).1 ≡ ok g) on first_ok) in
      let also =
        (replace-Consistent tx' stored token' b now' (m (some f)).0).yields h
          (subst (λ o. n o ≡ ok h) on second_ok) in
      let (d, found) = found_first _ won.0 in
      let (e, found') = found_first _ also.0 in
      no_second stored token a b now (drv.docs s) same ne one d found e
        (subst (λ xs. first (has_token (c.doc.base b).doc_id stored) xs ≡ some e) won.1 found')

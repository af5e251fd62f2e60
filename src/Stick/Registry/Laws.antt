-- ===== src/Stick/Registry/Laws.antt =====
-- What is added to a registry is found again (stick/registry.go).
use fire.Base.{
  ℕ_eq, String_eq, ◌==◌, Bool-cases, ℤ_eq, try, try-ok, guard-ok, is_some, ==_sound, length, All,
  Error, Result, ok, ok_injective, lookup, lookup-insert_self, lookup-insert_ne, suc, ◌<◌, String,
  ◌≡◌, refl, sym, ap, ◌∙◌, inl, inr, false, Option, none, some, List, [], ◌∷◌, ◌++◌, append-nil,
  append_assoc, arith, All-map, All-append,
}
use fire.Base.{lookup, insert}
use fire.Stick.Registry.Defs.{
  Index, Registry, add_index, add_indexes, add_value, add, new_registry, find_value, get, all,
}

is_some-none : {A : Type 0} (o : Option A) → is_some o ≡ false → o ≡ none
is_some-none none h = refl
is_some-none (some a) h = cc

module _ {T : Type 0} where
  -- The index has the value under the key that it gives to it.
  abbrev Indexed : T → Index T → Type 0
  Indexed v i = (key : String) × (i.key_of v ≡ ok key) × (lookup key i.values ≡ some v)

  -- What an addition comes to.
  Added : T → Index T → Index T → Type 0
  Added v i i' =
      (key : String) × (i.key_of v ≡ ok key)
      × (lookup key i.values ≡ none)
      × (i' ≡ record i { values = insert key v i.values })

  add_index_lem : (v : T) (i i' : Index T) → add_index v i ≡ ok i' → Added v i i'
  unfolding add_index Added
  add_index_lem v i i' h =
      let (key, e, g) = try-ok (i.key_of v) h in
      let (_, g') = guard-ok (key == "") _ g in
      let (n, g'') = guard-ok (is_some (lookup key i.values)) _ g' in
      (key, e, is_some-none (lookup key i.values) n, sym (ok_injective g''))

  Added-Indexed : (v : T) (i i' : Index T) → Added v i i' → Indexed v i'
  unfolding Added
  Added-Indexed v i i' (key, e, n, g) = rw g (key, e, lookup-insert_self key v i.values)

  apart :
      (key j : String) (v w : T) (m : List (String × T))
      → lookup key m ≡ none
      → lookup j m ≡ some w
      → lookup j (insert key v m) ≡ some w
  apart key j v w m n f = elim (Bool-cases (key == j)) [
    | inl t ↦ let clash : none ≡ some w = sym n ∙ rw (==_sound key j t) f in cc
    | inr t ↦ lookup-insert_ne key j v m t ∙ f
  ]

  Added-keeps : (v w : T) (i i' : Index T) → Added v i i' → Indexed w i → Indexed w i'
  unfolding Added
  Added-keeps v w i i' (key, e, n, g) (j, f, l) = rw g (j, f, apart key j v w i.values n l)

  add_indexes_lem :
      (v : T) (is is' : List (Index T))
      → add_indexes v is ≡ ok is'
      → All (Indexed v) is'
        × ((w : T) → All (Indexed w) is → All (Indexed w) is')
        × (length is ≡ length is')
  unfolding add_indexes
  add_indexes_lem v [] is' h = let e : [] ≡ is' = ok_injective h in rw (← e) (tt, λ w a. a, refl)
  add_indexes_lem v (i ∷ is) is' h =
      let (i1, f, g) = try-ok (add_index v i) h in
      let (is1, f', g') = try-ok (add_indexes v is) g in
      let e : i1 ∷ is1 ≡ is' = ok_injective g' in
      let a = add_index_lem v i i1 f in
      let rest = add_indexes_lem v is is1 f' in
      rw (← e) (
        (Added-Indexed v i i1 a, rest.0),
        (λ w b. (Added-keeps v w i i1 a b.0, rest.1 w b.1)),
        ap suc rest.2,
      )

  -- Every value of the registry is in all of its indexes.
  Sound : Registry T → Type 0
  Sound r = All (λ v. All (Indexed v) r.indexes) r.list

  -- What Add does to the registry for one value.
  Grown : Registry T → T → Registry T → Type 0
  Grown r v r' = Sound r' × (r'.list ≡ r.list ++ v ∷ []) × (length r'.indexes ≡ length r.indexes)

  indexed :
      (v : T) (r r' : Registry T) (is : List (Index T))
      → add_indexes v r.indexes ≡ ok is
      → record r { indexes = is; list = r.list ++ v ∷ [] } ≡ r'
      → Sound r
      → Grown r v r'
  unfolding Sound Grown
  indexed v r r' is h e s =
      let a = add_indexes_lem v r.indexes is h in
      rw (← e) (
        All-append (λ w. All (Indexed w) is) r.list (v ∷ []) (All-map _ _ r.list (λ w. a.1 w) s)
            (a.0, tt),
        refl,
        sym (a.2),
      )

  add_value_lem : (v : T) (r r' : Registry T) → add_value r v ≡ ok r' → Sound r → Grown r v r'
  unfolding add_value
  add_value_lem v r r' h s =
      let (_, g) = guard-ok (is_some (r.validator v)) _ h in
      let (is, e, g') = try-ok (add_indexes v r.indexes) g in
      indexed v r r' is e (ok_injective g') s

  add_lem :
      (vs : List T) (r r' : Registry T)
      → add r vs ≡ ok r'
      → Sound r
      → Sound r' × (r'.list ≡ r.list ++ vs) × (length r'.indexes ≡ length r.indexes)
  unfolding add Grown
  add_lem [] r r' h s =
      let e : r ≡ r' = ok_injective h in rw (← e) (s, sym (append-nil r.list), refl)
  add_lem (v ∷ vs) r r' h s =
      let (r1, e, g) = try-ok (add_value r v) h in
      let (s1, l1, n1) = add_value_lem v r r1 e s in
      let (s2, l2, n2) = add_lem vs r1 r' g s1 in
      (s2, l2 ∙ ap (λ l. l ++ vs) l1 ∙ append_assoc r.list (v ∷ []) vs, n2 ∙ n1)

  find_value_lem :
      (v : T) (is : List (Index T))
      → All (Indexed v) is
      → 0 < length is
      → find_value is v ≡ ok (some v)
  unfolding find_value
  find_value_lem v [] a h = absurd (omega arith)
  find_value_lem v (i ∷ is) ((key, e, l), a) h = rw (e, try, l)

  -- Every value of a new registry with an index is found by Get, when given the value itself, and
  -- All lists the values in their order.
  pub new_registry-get :
      (values : List T) (validator : T → Option Error) (f : T → Result String)
      (fs : List (T → Result String)) (r : Registry T)
      → new_registry values validator (f ∷ fs) ≡ ok r
      → (all r ≡ values) × All (λ v. get r v ≡ ok (some v)) values
  unfolding new_registry get Sound
  new_registry-get values validator f fs r h =
      let (s, l, n) = add_lem values _ r h tt in
      (
        l,
        rw l at (
            All-map (λ v. All (Indexed v) r.indexes) (λ v. get r v ≡ ok (some v)) r.list
              (λ v a. find_value_lem v r.indexes a (omega (arith, n))) s),
      )

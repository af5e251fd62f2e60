-- ===== src/Blaze/Plans.antt =====
-- modifyLinks of blaze/bucket.go: which links are released and which are claimed.
use fire.Base.{
  ℕ_eq, String_eq, ℤ_eq, ==_self, All, select, ok, ◌>>=◌, ℕ, String, ◌≡◌, refl, ◌∙◌, false, not,
  ◌&&◌, ◌||◌, Option, none, some, List, [], ◌∷◌, arith,
}
use fire.Base.{All}
use fire.Coal.Driver.{Driver}
use fire.Coal.Manager.Defs.{Context}
use fire.Stick.Lists.Defs.{items, contains, subtract, intersect}
use fire.Stick.Lists.Unique.{Distinct, union_lem}
use fire.Stick.Lists.Laws.{contains-select, contains-subtract, contains-intersect}
use fire.Blaze.Model.{File, Link}
use fire.Blaze.Files.{Bucket}
use fire.Blaze.LinkSteps.{link_at-All}
use fire.Blaze.Links.{
  link_at, is_keyed, refs_of, has_missing, link_map, has_claim_key, Plan, plan, release_links,
  claim_links, modify_links,
}

module _ (m : List (String × ℕ)) (new_links old_links : List Link) where
  -- What the two lists of references are to be: each reference once, and no other than these.
  abbrev pub IsPlan : Plan → Type 0
  IsPlan p =
      Distinct p.release
      × Distinct p.claim
      × ((ref : String)
          → contains p.release ref ≡ (
              contains (refs_of old_links) ref
              && (not (contains (refs_of new_links) ref) || has_claim_key m new_links ref)))
      × ((ref : String)
          → contains p.claim ref ≡ (
              contains (refs_of new_links) ref
              && (not (contains (refs_of old_links) ref) || has_claim_key m new_links ref)))

  -- modifyLinks releases a reference once and only where it is in the old list and either not in the
  -- new one or given a new claim key there, and it claims a reference once and only where it is in
  -- the new list and either not in the old one or given a claim key.
  pub plan_lem : IsPlan (plan m new_links old_links)
  plan_lem = (
    (union_lem (some updated ∷ deleted ∷ [])).0,
    (union_lem (added ∷ some updated ∷ [])).0,
    λ ref.
        (union_lem (some updated ∷ deleted ∷ [])).1 ref
        ∙ ground (arith, in_updated ref, contains-subtract (some old_refs) (some new_refs) ref),
    λ ref.
        (union_lem (added ∷ some updated ∷ [])).1 ref
        ∙ ground (arith, in_updated ref, contains-subtract (some new_refs) (some old_refs) ref),
  )
    where
      new_refs : List String
      new_refs = refs_of new_links

      old_refs : List String
      old_refs = refs_of old_links

      added : Option (List String)
      added = subtract (some new_refs) (some old_refs)

      deleted : Option (List String)
      deleted = subtract (some old_refs) (some new_refs)

      updated : List String
      updated =
          select (has_claim_key m new_links) (items (intersect (some new_refs) (some old_refs)))

      in_updated :
          (ref : String)
          → contains updated ref
            ≡ (contains new_refs ref && contains old_refs ref && has_claim_key m new_links ref)
      in_updated ref =
          contains-select (has_claim_key m new_links)
            (items (intersect (some new_refs) (some old_refs))) ref
          ∙ ground (arith, contains-intersect (some new_refs) (some old_refs) ref)

contains_none : (xs : List String) → ((x : String) → contains xs x ≡ false) → xs ≡ []
unfolding contains
contains_none [] h = refl
contains_none (x ∷ xs) h = absurd (ground (arith, h x, ==_self x))

keyless :
    (m : List (String × ℕ)) (links : List Link) (ref : String)
    → All (λ l. l.claim_key ≡ "") links
    → has_claim_key m links ref ≡ false
keyless m links ref a =
    by_link (link_at m links ref) (λ l e. link_at-All (λ l. l.claim_key ≡ "") m links ref l a e)
  where
    by_link : (o : Option Link) → ((l : Link) → o ≡ some l → l.claim_key ≡ "") → is_keyed o ≡ false
    by_link none k = refl
    by_link (some l) k = rw (k l refl)

module _ {Handle : Type 0} (drv : Driver (File Handle)) (bucket : Bucket Handle)
    (ctx : Context) where
  carried_out :
      (old_map new_map : List (String × ℕ)) (old_links new_links : List Link) (r c : List String)
      (binding : String) (owner : ℕ) (now then' : ℕ → ℕ) (s : drv.Db)
      → r ≡ []
      → c ≡ []
      → (release_links drv bucket ctx old_map old_links r now >>= λ _.
            claim_links drv bucket ctx new_map new_links c binding owner then')
          s
        ≡ (s, ok new_links)
  unfolding release_links claim_links
  carried_out old_map new_map old_links new_links r c binding owner now then' s e e' = rw (e, e')

  -- Where the new links have the references of the old ones, none empty, and none has a claim key,
  -- modifyLinks leaves the collection and the links as they are.
  pub modify_links_same :
      (new_links old_links : List Link) (binding : String) (owner : ℕ) (now then' : ℕ → ℕ)
      (s : drv.Db)
      → has_missing new_links ≡ false
      → has_missing old_links ≡ false
      → ((ref : String) → contains (refs_of new_links) ref ≡ contains (refs_of old_links) ref)
      → All (λ l. l.claim_key ≡ "") new_links
      → modify_links drv bucket ctx new_links old_links binding owner now then' s
        ≡ (s, ok new_links)
  unfolding modify_links
  modify_links_same new_links old_links binding owner now then' s mn mo same none_new =
      rw (mn, mo)
        (carried_out (link_map 0 [] old_links) (link_map 0 [] new_links) old_links new_links
          (plan new_map new_links old_links).release (plan new_map new_links old_links).claim
          binding owner now then' s
          (contains_none _
            (λ ref. p.2 ref ∙ ground (arith, same ref, keyless new_map new_links ref none_new)))
          (contains_none _
            (λ ref. p.3 ref ∙ ground (arith, same ref, keyless new_map new_links ref none_new))))
    where
      new_map : List (String × ℕ)
      new_map = link_map 0 [] new_links

      p : IsPlan new_map new_links old_links (plan new_map new_links old_links)
      p = plan_lem new_map new_links old_links

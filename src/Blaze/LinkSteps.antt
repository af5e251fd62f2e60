-- ===== src/Blaze/LinkSteps.antt =====
-- What the operations on links in blaze/bucket.go keep of the collection.
use mathlib.Core.Path.{subst}
use fire.Base.{
  ℕ_eq, String_eq, ◌==◌, ℤ_eq, All, lookup, ℕ, zero, suc, String, ◌≡◌, not, Option, none, some,
  List, [], ◌∷◌,
}
use fire.Base.{All}
use fire.Base.{update_first as update_list}
use fire.Coal.Driver.{Driver, IsDriver}
use fire.Coal.Triples.{Ensures, ensures_bind, ensures_lift, ensures_pure, ensures_fail_if}
use fire.Coal.Manager.Defs.{Context, has_transaction}
use fire.Stick.Registry.Defs.{nth}
use fire.Blaze.Model.{uploaded, claimed, File, Link}
use fire.Blaze.Files.{Bucket, or_fail, file_in, mark_claimed, mark_released}
use fire.Blaze.Links.{
  link_at, put_at, build_map, plan, claim_link, release_link, release_links, claim_links,
  modify_links,
}
use fire.Blaze.Steps.{claim_file_keeps, release_file_keeps, or_fail-ok}

nth-All :
    (P : Link → Type 0) (i : ℕ) (links : List Link) (l : Link)
    → All P links
    → nth i links ≡ some l
    → P l
nth-All P i [] l a h = cc
nth-All P zero (x ∷ links) l a h = let same : x ≡ l = cc in subst P same a.0
nth-All P (suc i) (x ∷ links) l a h = nth-All P i links l a.1 h

pub link_at-All :
    (P : Link → Type 0) (m : List (String × ℕ)) (links : List Link) (ref : String) (l : Link)
    → All P links
    → link_at m links ref ≡ some l
    → P l
link_at-All P m links ref l a h = by_place (lookup ref m) h
  where
    by_place :
        (o : Option ℕ)
        → (elim o as (λ _. Option Link) [ none ↦ none | some i ↦ nth i links ]) ≡ some l
        → P l
    by_place none e = cc
    by_place (some i) e = nth-All P i links l a e

module _ {Handle : Type 0} (drv : Driver (File Handle)) (law : IsDriver drv)
    (bucket : Bucket Handle) (Inv : List (File Handle) → Type 0) (ctx : Context) where
  release_links_keeps :
      (m : List (String × ℕ)) (links : List Link) (refs : List String) (now : ℕ → ℕ)
      → All
          (λ l.
            (t : ℕ) (xs : List (File Handle))
            → Inv xs
            → Inv (update_list (file_in l.file claimed) (mark_released t) xs))
          links
      → Ensures drv Inv (release_links drv bucket ctx m links refs now) (λ _. Unit {0})
  unfolding release_links release_link
  release_links_keeps m links [] now free = ensures_pure (λ _. Unit {0}) tt tt
  release_links_keeps m links (ref ∷ refs) now free =
      ensures_bind (ensures_lift (or_fail (link_at m links ref) _)) λ link e.
        ensures_bind
          (ensures_bind (ensures_fail_if (link.file == 0) _) λ _ _.
            ensures_bind (ensures_fail_if (not (has_transaction ctx)) _) λ _ _.
              release_file_keeps drv law bucket Inv ctx link.file (now 0)
                (link_at-All _ m links ref link free (or_fail-ok _ _ e) (now 0)))
          λ _ _. release_links_keeps m links refs (λ i. now (suc i)) free

  claim_link_keeps :
      (link : Link) (binding : String) (owner now : ℕ)
      → ((id : ℕ) (xs : List (File Handle))
          → Inv xs
          → Inv (update_list (file_in id uploaded) (mark_claimed now binding owner) xs))
      → Ensures drv Inv (claim_link drv bucket ctx link binding owner now) (λ _. Unit {0})
  unfolding claim_link
  claim_link_keeps link binding owner now step =
      ensures_bind (ensures_fail_if (not (has_transaction ctx)) _) λ _ _.
        ensures_bind (ensures_fail_if (not (link.file == 0)) _) λ _ _.
          ensures_bind (ensures_fail_if (link.claim_key == "") _) λ _ _.
            ensures_bind
              (claim_file_keeps drv law bucket Inv ctx link.claim_key binding owner now step)
              λ file _. ensures_pure (λ _. Unit {0}) _ tt

  claim_links_keeps :
      (m : List (String × ℕ)) (links : List Link) (refs : List String) (binding : String)
      (owner : ℕ) (now : ℕ → ℕ)
      → ((t id : ℕ) (xs : List (File Handle))
          → Inv xs
          → Inv (update_list (file_in id uploaded) (mark_claimed t binding owner) xs))
      → Ensures drv Inv (claim_links drv bucket ctx m links refs binding owner now) (λ _. Unit {0})
  unfolding claim_links
  claim_links_keeps m links [] binding owner now step = ensures_pure (λ _. Unit {0}) links tt
  claim_links_keeps m links (ref ∷ refs) binding owner now step =
      ensures_bind (ensures_lift (or_fail (link_at m links ref) _)) λ link e.
        ensures_bind
          (claim_link_keeps (record link { file = 0 }) binding owner (now 0) (step (now 0)))
          λ taken _.
            claim_links_keeps m (put_at m ref taken links) refs binding owner (λ i. now (suc i))
              step

  pub modify_links_keeps :
      (new_links old_links : List Link) (binding : String) (owner : ℕ) (now then' : ℕ → ℕ)
      → All
          (λ l.
            (t : ℕ) (xs : List (File Handle))
            → Inv xs
            → Inv (update_list (file_in l.file claimed) (mark_released t) xs))
          old_links
      → ((t id : ℕ) (xs : List (File Handle))
          → Inv xs
          → Inv (update_list (file_in id uploaded) (mark_claimed t binding owner) xs))
      → Ensures drv Inv
          (modify_links drv bucket ctx new_links old_links binding owner now then')
          (λ _. Unit {0})
  unfolding modify_links
  modify_links_keeps new_links old_links binding owner now then' free step =
      ensures_bind (ensures_lift (build_map new_links)) λ new_map _.
        ensures_bind (ensures_lift (build_map old_links)) λ old_map _.
          ensures_bind
            (release_links_keeps old_map old_links (plan new_map new_links old_links).release now
              free)
            λ _ _.
              claim_links_keeps new_map new_links (plan new_map new_links old_links).claim binding
                owner then' step

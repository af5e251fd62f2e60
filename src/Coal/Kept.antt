-- ===== src/Coal/Kept.antt =====
-- A kind of documents that is kept: there is one, and all of them are as described.
use fire.Base.{
  ℕ_eq, String_eq, ℤ_eq, is_some, All, first, update_first, delete_first, ◌≡◌, sym, ap, ◌∙◌, Bool,
  true, false, List, [], ◌∷◌, ◌++◌, All-update_first, All-delete_first, first-update_first,
  first-delete_first, first-append, All-append,
}

module _ {D : Type 0} (q : D → Bool) (P : D → Type 0) where
  pub record Kept (docs : List D) : Type 0 where
    pub described : All (λ d. q d ≡ true → P d) docs
    pub present : is_some (first q docs) ≡ true

  -- An update that does not move a document into the kind or out of it, and keeps the description.
  pub Kept-update :
      (p : D → Bool) (f : D → D) (docs : List D)
      → ((d : D) → q (f d) ≡ q d)
      → ((d : D) → q d ≡ true → P d → p d ≡ true → P (f d))
      → Kept docs
      → Kept (update_first p f docs)
  Kept-update p f docs same keep k = record {
    described =
        All-update_first (λ d. q d ≡ true → P d) p f docs
          (λ d h t e. let e' : q d ≡ true = sym (same d) ∙ e in keep d e' (h e') t) k.described;
    present = first-update_first q p f docs same ∙ k.present;
  }

  -- A deletion of documents of another kind.
  pub Kept-delete :
      (p : D → Bool) (docs : List D)
      → ((d : D) → (q d ≡ true → P d) → p d ≡ true → q d ≡ false)
      → Kept docs
      → Kept (delete_first p docs)
  Kept-delete p docs apart k = record {
    described = All-delete_first (λ d. q d ≡ true → P d) p docs k.described;
    present =
        ap is_some (first-delete_first (λ d. q d ≡ true → P d) q p docs apart k.described)
        ∙ k.present;
  }

  pub Kept-append : (d : D) (docs : List D) → q d ≡ false → Kept docs → Kept (docs ++ d ∷ [])
  Kept-append d docs e k = record {
    described =
        All-append (λ d. q d ≡ true → P d) docs (d ∷ []) k.described
          ((λ t. absurd (let clash : true ≡ false = sym t ∙ e in cc)), tt);
    present = first-append q docs (d ∷ []) k.present;
  }

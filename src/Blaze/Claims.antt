-- ===== src/Blaze/Claims.antt =====
-- What ClaimFile, ReleaseFile, ClaimLink and GetViewKey of blaze/bucket.go answer.
use fire.Base.{
  ℕ_eq, String_eq, pos, less, ℤ_eq, ok, ℕ, String, ◌≡◌, ◌≢◌, ◌⊎◌, Bool, true, false, none, some,
  List, [], ◌∷◌, ◌++◌,
}
use fire.Base.{first}
use fire.Base.{update_first as update_list}
use fire.Coal.Driver.{Driver, IsDriver}
use fire.Coal.Manager.Defs.{Context, clean_doc}
use fire.Coal.Manager.Mutations.{update_first}
use fire.Stick.Lists.Defs.{contains}
use fire.Stick.Registry.Defs.{get}
use fire.Blaze.Model.{uploaded, claimed, File, ClaimKey, Binding, Formats, validate, file_doc}
use fire.Blaze.Files.{Bucket, file_in, mark_claimed, named, allowed}

module _ {Handle : Type 0} (drv : Driver (File Handle)) (law : IsDriver drv)
    (fmt : Formats Handle) where
  -- The file that an update found, and what it left.
  abbrev pub Changed :
      (File Handle → Bool)
      → (File Handle → File Handle)
      → ℕ
      → List (File Handle)
      → File Handle
      → List (File Handle)
      → Type 0
  Changed p f now before g after =
      (d : File Handle) × (first p before ≡ some d)
      × (after ≡ update_list p f before)
      × (g ≡ clean_doc (file_doc fmt) now (f d))
      × (validate fmt g ≡ none)

module _ {Handle : Type 0} (drv : Driver (File Handle)) (law : IsDriver drv)
    (bucket : Bucket Handle) (ctx : Context) where
  -- A claim: the key is verified and allowed by the binding, and a file of the key that was uploaded
  -- is now claimed under the binding by the owner.
  abbrev pub IsClaim :
      String → String → ℕ → ℕ → List (File Handle) → File Handle → List (File Handle) → Type 0
  IsClaim claim_key binding owner now before g after =
      (bnd : Binding) × (key : ClaimKey) × (get bucket.bindings (named drv bucket ctx binding)
        ≡ ok (some bnd))
      × (bucket.verify claim_key ≡ ok key)
      × (allowed drv bucket ctx bnd key ≡ ok tt)
      × (owner ≢ 0)
      × Changed drv law bucket.formats (file_in key.file uploaded) (mark_claimed now binding owner)
          now before g after

  -- The checks of a key, one by one: the limit, where there is one, is not exceeded, and the type is
  -- one of the binding's, where it has some.
  abbrev pub Fits : Binding → ClaimKey → Type 0
  Fits bnd key =
      ((less (pos 0) bnd.limit ≡ false) ⊎ (less bnd.limit key.size ≡ false))
      × ((bnd.types ≡ []) ⊎ (contains bnd.types key.type ≡ true))

  -- One file of the list has become another one.
  abbrev pub Turned : File Handle → File Handle → List (File Handle) → List (File Handle) → Type 0
  Turned d d' before after =
      (xs : List (File Handle)) × (ys : List (File Handle)) × (before ≡ xs ++ d ∷ ys)
      × (after ≡ xs ++ d' ∷ ys)

  -- The file that is claimed under a binding by an owner.
  abbrev pub claimed_by : ℕ → String → ℕ → File Handle → File Handle
  claimed_by now binding owner d = record {
    base = d.base;
    state = claimed;
    updated = now;
    name = d.name;
    type = d.type;
    size = d.size;
    service = d.service;
    handle = d.handle;
    binding = binding;
    owner = some owner;
  }

  -- A claim: the key is verified and fits the binding that the registry has for the name, and a
  -- file of the key's ID that was uploaded is now claimed under the name by the owner, which is the
  -- only change; the answer is that file, but for its tags.
  abbrev pub Claims :
      String → String → ℕ → ℕ → List (File Handle) → File Handle → List (File Handle) → Type 0
  Claims claim_key binding owner now before g after =
      (bnd : Binding) × (key : ClaimKey) × (d : File Handle) × (get bucket.bindings (record {
        name = binding;
        model = none;
        field = "";
        limit = pos 0;
        types = [];
        file_name = "";
      })
        ≡ ok (some bnd))
      × (bucket.verify claim_key ≡ ok key)
      × Fits bnd key
      × (owner ≢ 0)
      × (d.base.doc_id ≡ key.file)
      × (d.state ≡ uploaded)
      × Turned d (claimed_by now binding owner d) before after
      × (record (claimed_by now binding owner d) { base = g.base } ≡ g)
      × (g.base.doc_id ≡ key.file)
      × (validate bucket.formats g ≡ none)

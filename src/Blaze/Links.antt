-- ===== src/Blaze/Links.antt =====
-- blaze/bucket.go: links to files. A link is claimed, released and decorated; a call that changes a
-- link through its pointer answers the changed link, and the links of a list in their order.
use fire.Base.{
  ℕ_eq, String_eq, ◌==◌, if◌then◌else◌, pos, ℤ_eq, try, select, panics, message, Result, ok, err, M,
  ◌>>=◌, ◌>>◌, pure, lift, fail_if, lookup, ℕ, zero, suc, ◌+◌, ◌-◌, ◌%◌, String, Bool, true, false,
  not, Option, none, some, List, [], ◌∷◌, map,
}
use fire.Base.{insert}
use Prim.Native.Nat.{◌/◌}
use fire.Coal.Driver.{Driver}
use fire.Coal.Manager.Defs.{Context, has_transaction}
use fire.Stick.Lists.Defs.{items, subtract, intersect, union}
use fire.Stick.Registry.Defs.{nth}
use fire.Blaze.Model.{File, Link}
use fire.Blaze.Files.{Bucket, or_fail, claim_file, release_file}

pub record ViewKey : Type 0 where
  pub key_id : ℕ
  pub issued : ℕ
  pub expires : ℕ
  pub file : ℕ

-- The key that GetViewKey issues; Truncate rounds down to a multiple of a positive duration.
abbrev pub truncate : ℕ → ℕ → ℕ
truncate now zero = now
truncate now (suc d) = now - now % suc d

abbrev pub view_key_at : ℕ → ℕ → ℕ → ViewKey
view_key_at expiry file now = record {
  key_id = file;
  issued = truncate now (expiry / 2);
  expires = truncate now (expiry / 2) + expiry;
  file = file;
}

-- `issue` is the notary's Issue.
abbrev pub get_view_key : (ViewKey → Result String) → ℕ → ℕ → ℕ → Result String
get_view_key issue expiry file now = issue (view_key_at expiry file now)

-- Decorate; none is the nil link.
unfoldable pub decorate : (ViewKey → Result String) → ℕ → Option Link → ℕ → Result (Option Link)
decorate issue expiry none now = ok none
decorate issue expiry (some link) now =
    if link.file == 0
    then ok (some link)
    else try (get_view_key issue expiry link.file now) λ key. ok (
        some (record link {
          view_key = key;
          name = link.file_name;
          type = link.file_type;
          size = link.file_size;
        }))

-- The references of links, and where the last link of each reference stands.
abbrev pub refs_of : List Link → List String
refs_of links = map (λ l. l.ref) links

abbrev pub has_missing : List Link → Bool
has_missing [] = false
has_missing (l ∷ links) = if l.ref == "" then true else has_missing links

abbrev pub link_map : ℕ → List (String × ℕ) → List Link → List (String × ℕ)
link_map i m [] = m
link_map i m (l ∷ links) = link_map (suc i) (insert l.ref i m) links

abbrev pub build_map : List Link → Result (List (String × ℕ))
build_map links =
    if has_missing links then err (message "missing reference") else ok (link_map 0 [] links)

-- The link that a map has for a reference; no link stands for the nil pointer.
abbrev pub link_at : List (String × ℕ) → List Link → String → Option Link
link_at m links ref = elim (lookup ref m) [ none ↦ none | some i ↦ nth i links ]

abbrev pub put : ℕ → Link → List Link → List Link
put i l [] = []
put zero l (x ∷ xs) = l ∷ xs
put (suc i) l (x ∷ xs) = x ∷ put i l xs

abbrev pub put_at : List (String × ℕ) → String → Link → List Link → List Link
put_at m ref l links = elim (lookup ref m) [ none ↦ links | some i ↦ put i l links ]

abbrev pub is_keyed : Option Link → Bool
is_keyed none = false
is_keyed (some l) = not (l.claim_key == "")

abbrev pub has_claim_key : List (String × ℕ) → List Link → String → Bool
has_claim_key m links ref = is_keyed (link_at m links ref)

-- Which references to release and which to claim.
pub record Plan : Type 0 where
  pub release : List String
  pub claim : List String

abbrev pub plan : List (String × ℕ) → List Link → List Link → Plan
plan new_map new_links old_links = record {
  release = items (union (some updated ∷ deleted ∷ []));
  claim = items (union (added ∷ some updated ∷ []));
}
  where
    new_refs : Option (List String)
    new_refs = some (refs_of new_links)

    old_refs : Option (List String)
    old_refs = some (refs_of old_links)

    added : Option (List String)
    added = subtract new_refs old_refs

    kept : Option (List String)
    kept = intersect new_refs old_refs

    deleted : Option (List String)
    deleted = subtract old_refs new_refs

    updated : List String
    updated = select (has_claim_key new_map new_links) (items kept)

module _ {Handle : Type 0} (drv : Driver (File Handle)) (bucket : Bucket Handle)
    (ctx : Context) where
  open drv use {Db}

  unfoldable pub claim_link : Link → String → ℕ → ℕ → M Db Link
  claim_link link binding owner now = do
    fail_if (not (has_transaction ctx)) (message "missing transaction for claim")
    fail_if (not (link.file == 0)) (message "existing claimed filed")
    fail_if (link.claim_key == "") (message "missing claim key")
    file ← claim_file drv bucket ctx link.claim_key binding owner now
    pure (record {
      ref = link.ref;
      name = "";
      type = "";
      size = pos 0;
      claim_key = "";
      view_key = "";
      file = file.base.doc_id;
      file_name = file.name;
      file_type = file.type;
      file_size = file.size;
    })

  unfoldable pub release_link : Link → ℕ → M Db (Unit {0})
  release_link link now = do
    fail_if (link.file == 0) (message "invalid file ID")
    fail_if (not (has_transaction ctx)) (message "missing transaction for release")
    release_file drv bucket ctx link.file now

  -- modifyLink, which answers the new link.
  unfoldable pub modify_link : Option Link → Option Link → String → ℕ → ℕ → ℕ → M Db (Option Link)
  modify_link none none binding owner now then' = pure none
  modify_link none (some old) binding owner now then' = do release_link old now; pure none
  modify_link (some new) none binding owner now then' = do
    link ← claim_link (record new { file = 0 }) binding owner then'
    pure (some link)
  modify_link (some new) (some old) binding owner now then' =
      if new.claim_key == "" then pure (some new) else (do
        release_link old now
        link ← claim_link (record new { file = 0 }) binding owner then'
        pure (some link))

  -- The loops of modifyLinks; the i-th call reads the clock at `now i`.
  unfoldable pub release_links :
      List (String × ℕ) → List Link → List String → (ℕ → ℕ) → M Db (Unit {0})
  release_links m links [] now = pure tt
  release_links m links (ref ∷ refs) now = do
    link ← lift (or_fail (link_at m links ref) (panics "nil pointer dereference"))
    release_link link (now 0)
    release_links m links refs (λ i. now (suc i))

  unfoldable pub claim_links :
      List (String × ℕ) → List Link → List String → String → ℕ → (ℕ → ℕ) → M Db (List Link)
  claim_links m links [] binding owner now = pure links
  claim_links m links (ref ∷ refs) binding owner now = do
    link ← lift (or_fail (link_at m links ref) (panics "nil pointer dereference"))
    claimed ← claim_link (record link { file = 0 }) binding owner (now 0)
    claim_links m (put_at m ref claimed links) refs binding owner (λ i. now (suc i))

  -- modifyLinks, which answers the new links.
  unfoldable pub modify_links :
      List Link → List Link → String → ℕ → (ℕ → ℕ) → (ℕ → ℕ) → M Db (List Link)
  unfolding subtract intersect union
  modify_links new_links old_links binding owner now then' = do
    new_map ← lift (build_map new_links)
    old_map ← lift (build_map old_links)
    let p = plan new_map new_links old_links
    release_links old_map old_links p.release now
    claim_links new_map new_links p.claim binding owner then'

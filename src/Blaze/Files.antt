-- ===== src/Blaze/Files.antt =====
-- blaze/bucket.go: the life of a file, from its upload to its deletion. What the storage service,
-- the caller's callback and the notary answer is given to an operation, as are the clocks and new
-- IDs that it meets; an error of theirs ends it.
use fire.Base.{
  ℕ_eq, String_eq, ltb, ◌==◌, if◌then◌else◌, ℤ, pos, less, ℤ_eq, try, Error, message, Result, ok,
  err, check, M, ◌>>=◌, ◌>>◌, pure, fail, lift, fail_if, ℕ, zero, suc, String, Bool, false, not,
  ◌&&◌, ◌||◌, Option, none, some, List, [], ◌∷◌,
}
use fire.Coal.Model.{b}
use fire.Coal.Driver.{meanwhile, Driver}
use fire.Coal.Manager.Defs.{Context, has_transaction, find_id, find_first}
use fire.Coal.Manager.Mutations.{insert_all, update, update_first, delete}
use fire.Glut.Basic.{no_sort}
use fire.Stick.Lists.Defs.{contains}
use fire.Stick.Registry.Defs.{Registry, get}
use fire.Blaze.Model.{
  State, uploading, uploaded, claimed, released, deleting, state_eq, File, ClaimKey, Binding,
  max_file_name_length, byte_length, Formats, is_empty_list, validate, file_doc,
}

-- What a bucket is made of, its store being the driver: the notary's check of claim keys, the
-- bindings, and the names of its services and of those for uploads.
pub record Bucket (Handle : Type 0) : Type 0 where
  pub formats : Formats Handle
  pub verify : String → Result ClaimKey
  pub bindings : Registry Binding
  pub services : List String
  pub uploader : List String
  -- serve.MimeTypeByExtension of the extension of a name, "" for none
  pub type_of_name : String → String

-- The answers that Upload meets, in their order: of Prepare, Upload, the callback, Lookup, Download,
-- Seek, Read, Close and of the notary.
pub record Answers (Handle : Type 0) : Type 0 where
  pub prepare : Result Handle
  pub upload : Option Error
  pub callback : Result ℤ
  pub lookup : Result ℤ
  pub download : Option Error
  pub seek : Option Error
  pub read : Result ℕ
  pub close : Option Error
  pub issue : Result String

-- What a blob's deletion answers: done, not found, or another error.
pub data Deletion : Type 0 where
  done missing : Deletion
  failed : Error → Deletion

abbrev pub member : ℕ → List String → Option String
member n [] = none
member zero (x ∷ xs) = some x
member (suc n) (x ∷ xs) = member n xs

abbrev pub or_fail : {A : Type 0} → Option A → Error → Result A
or_fail none e = err e
or_fail (some a) e = ok a

module _ {Handle : Type 0} where
  -- The filter `{"_id": id, "State": state}`.
  abbrev pub file_in : ℕ → State → File Handle → Bool
  file_in id s f = f.base.doc_id == id && state_eq f.state s

  abbrev pub mark_uploaded : ℕ → File Handle → File Handle
  mark_uploaded now f = record f { state = uploaded; updated = now }

  abbrev pub mark_claimed : ℕ → String → ℕ → File Handle → File Handle
  mark_claimed now binding owner f = record f {
    state = claimed;
    updated = now;
    binding = binding;
    owner = some owner;
  }

  abbrev pub mark_released : ℕ → File Handle → File Handle
  mark_released now f = record f { state = released; updated = now; binding = ""; owner = none }

  abbrev pub mark_deleting : File Handle → File Handle
  mark_deleting f = record f { state = deleting }

  abbrev pub default_type : Bucket Handle → String → String → String
  default_type bucket name type =
      if type == ""
      then (if not (name == "") && not (bucket.type_of_name name == "")
          then bucket.type_of_name name
          else "application/octet-stream")
      else type

  -- The check that the last byte can be read.
  abbrev pub verify_data : Answers Handle → ℤ → Result (Unit {0})
  verify_data a size =
      if less (pos 0) size
      then try (check a.seek) (λ _.
        try a.read (λ n. if n == 1 then ok tt else err (message "upload verification failed")))
      else ok tt

  abbrev pub new_file : ℕ → ℕ → String → String → ℤ → String → Handle → File Handle
  new_file id now name type size service handle = record {
    base = b id;
    state = uploading;
    updated = now;
    name = name;
    type = type;
    size = size;
    service = service;
    handle = handle;
    binding = "";
    owner = none;
  }

module _ {Handle : Type 0} (drv : Driver (File Handle)) (bucket : Bucket Handle)
    (ctx : Context) where
  open drv use {Db}

  -- After the file is stored: the transfer of the blob, its verification, the update and the key.
  -- `between` is what others do to the collection during the transfer.
  unfoldable pub transfer :
      (Db → Db) → Answers Handle → File Handle → ℤ → ℕ → M Db (String × File Handle)
  transfer between a file size now = do
    lift (check a.upload)
    sent ← lift a.callback
    meanwhile between
    fail_if (not (sent == size)) (message "size mismatch")
    found ← lift a.lookup
    fail_if (not (found == size)) (message "upload verification failed")
    lift (check a.download)
    lift (verify_data a size)
    lift (check a.close)
    lift (check (validate bucket.formats (mark_uploaded now file)))
    _ ←
        update drv (file_doc bucket.formats) ctx file.base.doc_id (ok (mark_uploaded now)) false []
          now
    key ← lift a.issue
    pure (key, mark_uploaded now file)

  -- Upload; `pick` is the random index of the uploader, below their number.
  unfoldable pub upload :
      (Db → Db) → String → String → ℤ → ℕ → Answers Handle → ℕ → ℕ → ℕ → M Db (String × File Handle)
  unfolding transfer
  upload between name type size pick a id now then' = do
    fail_if (has_transaction ctx) (message "unexpected transaction for upload")
    fail_if (ltb max_file_name_length (byte_length name)) (message "file name too long")
    service ←
        lift (or_fail (member pick bucket.uploader) (message "no uploader services configured"))
    handle ← lift a.prepare
    let file = new_file id now name (default_type bucket name type) size service handle
    lift (check (validate bucket.formats file))
    insert_all drv (file_doc bucket.formats) (file ∷ []) [] now (λ _. id)
    transfer between a file size then'

  -- The predicate `&Binding{Name: binding}` of a search in the registry.
  abbrev pub named : String → Binding
  named name = record {
    name = name;
    model = none;
    field = "";
    limit = pos 0;
    types = [];
    file_name = "";
  }

  -- The checks of a verified key against the binding.
  abbrev pub allowed : Binding → ClaimKey → Result (Unit {0})
  allowed bnd key =
      if less (pos 0) bnd.limit && less bnd.limit key.size
      then err (message "too big")
      else if not (is_empty_list bnd.types) && not (contains bnd.types key.type)
      then err (message "unsupported type")
      else ok tt

  unfoldable pub claim_file : String → String → ℕ → ℕ → M Db (File Handle)
  claim_file claim_key binding owner now = do
    known ← lift (get bucket.bindings (named binding))
    bnd ← lift (or_fail known (message "unknown binding"))
    fail_if (owner == 0) (message "missing owner")
    key ← lift (bucket.verify claim_key)
    lift (allowed bnd key)
    found ←
        update_first drv (file_doc bucket.formats) no_sort ctx (ok (file_in key.file uploaded))
          (ok (mark_claimed now binding owner)) [] false [] now
    lift (or_fail found (message "unable to claim file"))

  unfoldable pub release_file : ℕ → ℕ → M Db (Unit {0})
  release_file file now = do
    found ←
        update_first drv (file_doc bucket.formats) no_sort ctx (ok (file_in file claimed))
          (ok (mark_released now)) [] false [] now
    _ ← lift (or_fail found (message "unable to release file"))
    pure tt

  -- DownloadFile; `download` is the service's answer.
  unfoldable pub download_file : Option Error → ℕ → ℕ → M Db (File Handle)
  download_file download id now = do
    found ←
        find_first drv (file_doc bucket.formats) no_sort ctx (ok (file_in id claimed)) [] 0 false []
          now
    file ← lift (or_fail found (message "missing file"))
    fail_if (not (contains bucket.services file.service)) (message "unknown service")
    lift (check download)
    pure file

  -- CleanupFile, for the file that was found. `between` is what others do to the collection since.
  unfoldable pub mark_leftover : (Db → Db) → File Handle → ℕ → M Db (Unit {0})
  mark_leftover between file now = do
    meanwhile between
    found ←
        update_first drv (file_doc bucket.formats) no_sort ctx
          (ok (file_in file.base.doc_id file.state)) (ok mark_deleting) [] false [] now
    _ ← lift (or_fail found (message "missing file"))
    pure tt

  unfoldable pub remove : (Db → Db) → Deletion → File Handle → M Db (Unit {0})
  remove between deletion file = do
    fail_if (not (state_eq file.state deleting)) (message "unexpected state")
    fail_if (not (contains bucket.services file.service)) (message "unknown service")
    meanwhile between
    elim deletion [
      | done ↦ pure tt
      | failed e ↦ fail e
      | missing ↦ (do _ ← delete drv (file_doc bucket.formats) false file.base.doc_id; pure tt)
    ]

  unfoldable pub cleanup_found : (Db → Db) → Deletion → ℕ → File Handle → M Db (Unit {0})
  unfolding mark_leftover remove
  cleanup_found between deletion now file =
      if state_eq file.state uploading
        || state_eq file.state uploaded
        || state_eq file.state released
      then mark_leftover between file now
      else remove between deletion file

  unfoldable pub cleanup_file : (Db → Db) → Deletion → ℕ → ℕ → M Db (Unit {0})
  unfolding cleanup_found
  cleanup_file between deletion id now = do
    found ← find_id drv (file_doc bucket.formats) ctx id false [] now
    file ← lift (or_fail found (message "missing file"))
    cleanup_found between deletion now file

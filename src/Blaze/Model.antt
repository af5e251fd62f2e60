-- ===== src/Blaze/Model.antt =====
-- blaze/models.go, blaze/keys.go and blaze/binding.go: files and their states, links, keys and
-- bindings. A handle of a storage service is of any type; the parsing of media types, which the
-- mime package does, is a parameter: the media type of a text, or none where it is malformed.
use Prim.Native.Char.{code}
use fire.Base.{
  ℕ_eq, String_eq, ltb, ◌==◌, if◌then◌else◌, ℤ, pos, less, ℤ_eq, is_some, Error, message, invalid,
  ℕ, ◌+◌, String, Bool, true, false, not, ◌&&◌, ◌||◌, Option, none, some, List, [], ◌∷◌,
}
use fire.Coal.Model.{Base}
use fire.Coal.Manager.Defs.{Doc}
use fire.Stick.Lists.Defs.{contains}

pub data State : Type 0 where
  uploading uploaded claimed released deleting : State

abbrev pub state_eq : State → State → Bool
state_eq uploading uploading = true
state_eq uploaded uploaded = true
state_eq claimed claimed = true
state_eq released released = true
state_eq deleting deleting = true
state_eq _ _ = false

pub record File (Handle : Type 0) : Type 0 where
  pub base : Base
  pub state : State
  pub updated : ℕ
  pub name : String
  pub type : String
  pub size : ℤ
  pub service : String
  pub handle : Handle
  pub binding : String
  pub owner : Option ℕ

-- `file` is the ID of the linked file, 0 where there is none.
pub record Link : Type 0 where
  pub ref : String
  pub name : String
  pub type : String
  pub size : ℤ
  pub claim_key : String
  pub view_key : String
  pub file : ℕ
  pub file_name : String
  pub file_type : String
  pub file_size : ℤ

pub record ClaimKey : Type 0 where
  pub file : ℕ
  pub name : String
  pub size : ℤ
  pub type : String

-- `model` is the name of the model's type, none for a nil model.
pub record Binding : Type 0 where
  pub name : String
  pub model : Option String
  pub field : String
  pub limit : ℤ
  pub types : List String
  pub file_name : String

abbrev pub max_file_name_length : ℕ
max_file_name_length = 256

-- len of a string: the bytes of its UTF-8 encoding.
abbrev pub byte_length : String → ℕ
byte_length String.[] = 0
byte_length (String.◌∷◌ c s) = bytes (code c) + byte_length s
  where
    bytes : ℕ → ℕ
    bytes n = if ltb n 128 then 1 else if ltb n 2048 then 2 else if ltb n 65536 then 3 else 4

-- What the standard library and the services provide.
pub record Formats (Handle : Type 0) : Type 0 where
  pub parse_media_type : String → Option String
  pub is_empty : Handle → Bool
  pub same_handle : Handle → Handle → Bool

abbrev pub is_empty_list : List String → Bool
is_empty_list [] = true
is_empty_list (_ ∷ _) = false

-- stick.IsZero on the owner: nil, or a zero ID.
abbrev pub zero_owner : Option ℕ → Bool
zero_owner none = true
zero_owner (some n) = n == 0

module _ {Handle : Type 0} (fmt : Formats Handle) where
  -- ValidateType
  abbrev pub validate_type : String → List String → Option Error
  validate_type str whitelist = elim (fmt.parse_media_type str) [
    | none ↦ some (message "type invalid")
    | some media_type ↦
        if not (str == media_type)
        then some (message "type ambiguous")
        else if not (is_empty_list whitelist) && not (contains whitelist media_type)
        then some (message "type unallowed")
        else none
  ]

  abbrev pub valid_type : String → List String → Bool
  valid_type str whitelist = not (is_some (validate_type str whitelist))

  -- The smallest size of a file in a state.
  abbrev pub min_size : State → ℕ
  min_size s = if state_eq s uploading || state_eq s deleting then 0 else 1

  -- Whether the binding and the owner are as the state wants them.
  abbrev pub bound_as : State → String → Option ℕ → Option Error
  bound_as s binding owner =
      if state_eq s claimed
      then (if binding == ""
          then some (invalid "Binding")
          else if zero_owner owner
          then some (invalid "Owner")
          else none)
      else if not (binding == "")
      then some (invalid "Binding")
      else if not (zero_owner owner)
      then some (invalid "Owner")
      else none

  -- Validate; every value of `State` is a valid state.
  abbrev pub validate : File Handle → Option Error
  validate f =
      if f.updated == 0
      then some (invalid "Updated")
      else if ltb max_file_name_length (byte_length f.name)
      then some (invalid "Name")
      else if not (valid_type f.type [])
      then some (invalid "Type")
      else if less f.size (pos (min_size f.state))
      then some (invalid "Size")
      else if f.service == ""
      then some (invalid "Service")
      else if fmt.is_empty f.handle
      then some (invalid "Handle")
      else bound_as f.state f.binding f.owner

  abbrev pub file_doc : Doc (File Handle)
  file_doc = record {
    base = λ f. f.base;
    with_base = λ b f. record f { base = b };
    validate = validate;
  }

  -- Link.Validate, whose first step gives a reference to a link that has none.
  abbrev pub validate_link : String → Bool → List String → Link → Link × Option Error
  validate_link fresh require_filename whitelist l = (
    referenced,
    (if referenced.ref == ""
        then some (invalid "Ref")
        else if l.file == 0
        then some (invalid "File")
        else if require_filename && l.file_name == ""
        then some (invalid "FileName")
        else if not (valid_type l.file_type whitelist)
        then some (invalid "FileType")
        else if less l.file_size (pos 1)
        then some (invalid "FileSize")
        else none),
  )
    where
      referenced : Link
      referenced = if l.ref == "" then record l { ref = fresh } else l

  -- ClaimKey.Validate
  abbrev pub validate_key : ClaimKey → Option Error
  validate_key k =
      if k.file == 0
      then some (invalid "File")
      else if less k.size (pos 1)
      then some (invalid "Size")
      else if ltb max_file_name_length (byte_length k.name)
      then some (invalid "Name")
      else if not (valid_type k.type [])
      then some (invalid "Type")
      else none

-- ===== src/Glut/Values.antt =====
-- glut/value.go and glut/utils.go: what a type of values provides, the key and the deadline of a
-- value. The content of a value and its coding (stick.Map and the coding of its type) are
-- parameters.
use Prim.Native.String.{◌++◌ as str_append}
use fire.Base.{
  ℕ_eq, String_eq, ltb, ◌==◌, if◌then◌else◌, Error, message, Result, ok, err, ℕ, ◌+◌, String,
  Option, none, some,
}

-- Meta and the methods of a type of values. `extension` is there for an ExtendedValue, and
-- `restriction` for a RestrictedValue. `unmarshal` answers the value overwritten with what the
-- data holds.
pub record Kind (V Data : Type 0) : Type 0 where
  pub key : String
  pub ttl : ℕ
  pub extension : Option (V → String)
  pub restriction : Option (V → Option ℕ)
  pub validate : V → Option Error
  pub marshal : V → Result Data
  pub unmarshal : Data → V → Result V

-- A value in the hands of a caller: its base holds the token.
pub record Handle (V : Type 0) : Type 0 where
  pub token : ℕ
  pub value : V

module _ {V Data : Type 0} (kind : Kind V Data) where
  extended_key : Option (V → String) → V → Result String
  extended_key none v = ok kind.key
  extended_key (some extension) v = elim (kind.validate v) [
    | some e ↦ err e
    | none ↦
        if extension v == ""
        then err (message "missing extension")
        else ok (str_append kind.key (extension v))
  ]

  -- GetKey
  unfoldable pub get_key : V → Result String
  unfolding extended_key
  get_key v = extended_key kind.extension v

  -- The deadline of the type's time to live.
  abbrev pub ttl_deadline : ℕ → Option ℕ
  ttl_deadline now = if ltb 0 kind.ttl then some (now + kind.ttl) else none

  restricted_deadline : Option (V → Option ℕ) → ℕ → V → Result (Option ℕ)
  restricted_deadline none now v = ok (ttl_deadline now)
  restricted_deadline (some restriction) now v = elim (kind.validate v) [
    | some e ↦ err e
    | none ↦ elim (restriction v) [
      | none ↦ ok (ttl_deadline now)
      | some d ↦ if d == 0 then err (message "zero deadline") else ok (some d)
    ]
  ]

  -- GetDeadline
  unfoldable pub get_deadline : ℕ → V → Result (Option ℕ)
  unfolding restricted_deadline
  get_deadline now v = restricted_deadline kind.restriction now v

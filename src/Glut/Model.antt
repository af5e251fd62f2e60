-- ===== src/Glut/Model.antt =====
-- glut/model.go: the stored document. A time is a number, 0 being the zero time, and a pointer an
-- option.
use fire.Base.{
  ℕ_eq, String_eq, ◌==◌, if◌then◌else◌, Error, invalid, ℕ, String, Bool, false, Option, none, some,
}
use fire.Coal.Model.{Base}
use fire.Coal.Manager.Defs.{Doc}

module _ (Data : Type 0) where
  pub record Model : Type 0 where
    pub base : Base
    pub key : String
    pub content : Data
    pub deadline : Option ℕ
    pub locked : Option ℕ
    pub token : Option ℕ

-- stick.IsNotZero on an optional value.
abbrev pub zero_pointer : Option ℕ → Bool
zero_pointer none = false
zero_pointer (some n) = n == 0

module _ {Data : Type 0} where
  -- Validate: the key is wanted, and what the pointers hold is not zero.
  abbrev pub validate : Model Data → Option Error
  validate m =
      if m.key == ""
      then some (invalid "Key")
      else if zero_pointer m.deadline
      then some (invalid "Deadline")
      else if zero_pointer m.locked
      then some (invalid "Locked")
      else if zero_pointer m.token
      then some (invalid "Token")
      else none

  abbrev pub model_doc : Doc (Model Data)
  model_doc = record {
    base = λ m. m.base;
    with_base = λ b m. record m { base = b };
    validate = validate;
  }

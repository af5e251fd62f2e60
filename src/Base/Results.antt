-- ===== src/Base/Results.antt =====
-- Errors as values. `Error` lists the errors that the modelled code tells apart; a message is
-- kept as the text that the source writes.
use Prim.Native.String.{String}
use mathlib.Core.Path.{◌≡◌, refl}
use mathlib.Core.Bool.{Bool, true, false}
use mathlib.Core.Option.{Option, none, some}
use fire.Base.Tests.{if◌then◌else◌}

pub data Error : Type 0 where
  transaction_required : Error
  access_denied : Error
  panics : String → Error
  message : String → Error
  invalid : String → Error
  driver : String → Error

pub data Result {ℓ} (A : Type ℓ) : Type ℓ where
  ok : A → Result A
  err : Error → Result A

pub ok_injective {ℓ} : {A : Type ℓ} {a b : A} → ok a ≡ ok b → a ≡ b
ok_injective h = cc

-- The Go convention `error` as an option.
abbrev pub check : Option Error → Result (Unit {0})
check none = ok tt
check (some e) = err e

-- The next of two computations, where the first one has a value.
abbrev pub try {ℓ κ} : {A : Type ℓ} {B : Type κ} → Result A → (A → Result B) → Result B
try (ok a) f = f a
try (err e) f = err e

pub try-ok {ℓ κ} :
    {A : Type ℓ} {B : Type κ} (r : Result A) {f : A → Result B} {b : B}
    → try r f ≡ ok b
    → (a : A) × (r ≡ ok a) × (f a ≡ ok b)
try-ok (ok a) h = (a, refl, h)
try-ok (err e) h = cc

-- A guard that was passed.
pub guard-ok {ℓ} :
    {A : Type ℓ} (b : Bool) (e : Error) {r : Result A} {a : A}
    → (if b then err e else r) ≡ ok a
    → (b ≡ false) × (r ≡ ok a)
guard-ok true e h = cc
guard-ok false e h = (refl, h)

-- State passing with failure: the state is kept when a step fails.
abbrev pub M : Type 0 → Type 0 → Type 0
M S A = S → S × Result A

infixl 5 ◌>>=◌ ◌>>◌
abbrev pub bind : {S A B : Type 0} → S × Result A → (A → M S B) → S × Result B
bind (s, ok a) f = f a s
bind (s, err e) f = (s, err e)

abbrev pub ◌>>=◌ : {S A B : Type 0} → M S A → (A → M S B) → M S B
◌>>=◌ m f s = bind (m s) f

abbrev pub ◌>>◌ : {S B : Type 0} → M S (Unit {0}) → M S B → M S B
◌>>◌ m k s = bind (m s) (λ _. k)

abbrev pub pure : {S A : Type 0} → A → M S A
pure a s = (s, ok a)

abbrev pub fail : {S A : Type 0} → Error → M S A
fail e s = (s, err e)

abbrev pub lift : {S A : Type 0} → Result A → M S A
lift r s = (s, r)

-- `if b { return e }`
abbrev pub fail_if : {S : Type 0} → Bool → Error → M S (Unit {0})
fail_if true e s = (s, err e)
fail_if false e s = (s, ok tt)

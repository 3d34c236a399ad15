-- ===== src/Base/Results.antt =====
-- Code that may raise: an exception is a value.
use mathlib.Core.Path.{◌≡◌, refl, ap}
use mathlib.Core.Logic.{◌⊎◌, inl, inr}
use mathlib.Core.Option.{Option, none, some}
use mathlib.Core.Bool.{Bool, true, false}

-- The exception classes of core/errors.py, those of application/errors.py that the store
-- raises, sqlite3.IntegrityError, and what Python or a time zone raises.
pub data Error : Type 0 where
  core_invariant namespace_mismatch revision_mismatch authorization replay lifecycle : Error
  not_found conflict permission_denied persistence integrity language_error : Error

pub data Result {u} (Value : Type u) : Type u where
  err : Error → Result Value
  ok : Value → Result Value

-- `if not test: raise error`
abbrev pub require : Bool → Error → Result (Unit {0})
require false error = err error
require true error = ok tt

-- The statements after one that may raise.
infixl 4 ◌>>=◌ ◌>>◌
abbrev pub ◌>>=◌ {u v} :
    {Value : Type u} {Next : Type v} → Result Value → (Value → Result Next) → Result Next
err error >>= rest = err error
ok value >>= rest = rest value

abbrev pub ◌>>◌ {v} : {Next : Type v} → Result (Unit {0}) → Result Next → Result Next
first >> rest = first >>= λ done. rest

-- The first statement returned a value, with which the rest returned the result.
abbrev pub Returns {u v} :
    {Value : Type u} {Next : Type v} → Result Value → (Value → Result Next) → Next → Type (u ⊔ v)
Returns {Value = Value} first rest result =
    (value : Value) × (first ≡ ok value) × (rest value ≡ ok result)

-- If the whole returns, so did its first statement.
pub >>=-ok_parts {u v} :
    {Value : Type u} {Next : Type v} (first : Result Value) (rest : Value → Result Next)
    {result : Next}
    → (first >>= rest) ≡ ok result
    → Returns first rest result
>>=-ok_parts (err error) rest raised = cc
>>=-ok_parts (ok value) rest returned = (value, refl, returned)

pub ok_same {u} : {Value : Type u} (a b : Value) → ok a ≡ ok b → a ≡ b
ok_same a b same = cc

pub Option-cases {ℓ} :
    {A : Type ℓ} (value : Option A) → (value ≡ none) ⊎ ((a : A) × (value ≡ some a))
Option-cases none = inl refl
Option-cases (some a) = inr (a, refl)

-- The value of an answer that may be missing.
abbrev pub or_raise {ℓ} : {A : Type ℓ} → Error → Option A → Result A
or_raise error none = err error
or_raise error (some value) = ok value

pub or_raise-some {ℓ} :
    {A : Type ℓ} (error : Error) (value : Option A) (a : A)
    → or_raise error value ≡ ok a
    → value ≡ some a
or_raise-some error none a done = cc
or_raise-some error (some b) a done = ap some (ok_same b a done)

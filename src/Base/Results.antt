-- ===== src/Base/Results.antt =====
-- Results of fallible code, for a type of errors; `do` blocks chain them.
use mathlib.Core.Path.{◌≡◌, refl}
use mathlib.Core.Bool.{Bool, true, false}
use mathlib.Core.Option.{Option, none, some}

pub data Result {ℓ κ} (E : Type ℓ) (A : Type κ) : Type (ℓ ⊔ κ) where
  ok : A → Result E A
  err : E → Result E A

infixl 5 ◌>>=◌ ◌>>◌
abbrev pub ◌>>=◌ {ℓ κ ι} :
    {E : Type ℓ} {A : Type κ} {B : Type ι} → Result E A → (A → Result E B) → Result E B
err thrown >>= next = err thrown
ok value >>= next = next value

abbrev pub ◌>>◌ {ℓ κ} : {E : Type ℓ} {B : Type κ} → Result E (Unit {0}) → Result E B → Result E B
first >> next = first >>= λ _. next

-- `if (!test) throw e`.
abbrev pub guard {ℓ} : {E : Type ℓ} → Bool → E → Result E (Unit {0})
guard false thrown = err thrown
guard true thrown = ok tt

-- `if (!value) throw e`, for a value that may be null.
abbrev pub or_throw {ℓ κ} : {E : Type ℓ} {A : Type κ} → Option A → E → Result E A
or_throw none e = err e
or_throw (some a) e = ok a

-- Inversion of a chain that succeeds.
pub >>=-eq-ok {ℓ κ ι} :
    {E : Type ℓ} {A : Type κ} {B : Type ι} (first : Result E A) (next : A → Result E B) {last : B}
    → (first >>= next) ≡ ok last
    → (value : A) × (first ≡ ok value) × (next value ≡ ok last)
>>=-eq-ok (err thrown) next chain = cc
>>=-eq-ok (ok value) next chain = (value, refl, chain)

pub guard-eq-ok {ℓ} :
    {E : Type ℓ} (test : Bool) (thrown : E) {u : Unit {0}} → guard test thrown ≡ ok u → test ≡ true
guard-eq-ok true thrown chain = refl
guard-eq-ok false thrown chain = cc

pub or_throw-eq-ok {ℓ κ} :
    {E : Type ℓ} {A : Type κ} (found : Option A) (thrown : E) {value : A}
    → or_throw found thrown ≡ ok value
    → found ≡ some value
or_throw-eq-ok none thrown chain = cc
or_throw-eq-ok (some a) thrown chain = cc

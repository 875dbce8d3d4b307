-- ===== src/Base/Results.antt =====
-- Code that throws: the error that the source throws, or the value that it returns.
use mathlib.Core.Path.{◌≡◌, refl}
use mathlib.Core.Bool.{Bool, true, false}

pub data Result {κ ℓ} (Error : Type κ) (Value : Type ℓ) : Type (κ ⊔ ℓ) where
  err : Error → Result Error Value
  ok : Value → Result Error Value

-- `if (!condition) throw error`.
abbrev pub guard {κ} : {Error : Type κ} → (condition : Bool) → Error → Result Error (Unit {0})
guard false thrown = err thrown
guard true _ = ok tt

infixl 5 ◌>>=◌ ◌>>◌
abbrev pub ◌>>=◌ {κ ℓ μ} :
    {Error : Type κ} {Value : Type ℓ} {Next : Type μ}
    → Result Error Value
    → (Value → Result Error Next)
    → Result Error Next
err thrown >>= next = err thrown
ok value >>= next = next value

abbrev pub ◌>>◌ {κ μ} :
    {Error : Type κ} {Next : Type μ}
    → Result Error (Unit {0})
    → Result Error Next
    → Result Error Next
err thrown >> next = err thrown
ok _ >> next = next

-- When a chain returns, so did its first call.
pub >>=-eq-ok {κ ℓ μ} :
    {Error : Type κ} {Value : Type ℓ} {Next : Type μ} (first : Result Error Value)
    (next : Value → Result Error Next) {result : Next}
    → (first >>= next) ≡ ok result
    → (value : Value) × (first ≡ ok value) × (next value ≡ ok result)
>>=-eq-ok (err thrown) next returned = cc
>>=-eq-ok (ok value) next returned = (value, refl, returned)

pub >>-eq-ok {κ μ} :
    {Error : Type κ} {Next : Type μ} (first : Result Error (Unit {0})) (next : Result Error Next)
    {result : Next}
    → (first >> next) ≡ ok result
    → (first ≡ ok tt) × (next ≡ ok result)
>>-eq-ok (err thrown) next returned = cc
>>-eq-ok (ok tt) next returned = (refl, returned)

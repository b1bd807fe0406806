-- ===== src/Base/Result.antt =====
-- A call that may throw.
use mathlib.Core.Path.{◌≡◌, refl}
use mathlib.Core.Logic.{◌⊎◌, inl, inr}

-- The error thrown, or the value returned.
pub data Result {ℓ} (Thrown : Type 0) (Value : Type ℓ) : Type ℓ where
  thrown : Thrown → Result Thrown Value
  returned : Value → Result Thrown Value

infixl 5 ◌>>=◌
abbrev pub ◌>>=◌ {ℓ κ} :
    {Thrown : Type 0} {Value : Type ℓ} {Next : Type κ}
    → Result Thrown Value
    → (Value → Result Thrown Next)
    → Result Thrown Next
thrown e >>= next = thrown e
returned v >>= next = next v

pub Result-cases {ℓ} :
    {Thrown : Type 0} {Value : Type ℓ} (r : Result Thrown Value)
    → ((e : Thrown) × (r ≡ thrown e)) ⊎ ((v : Value) × (r ≡ returned v))
Result-cases (thrown e) = inl (e, refl)
Result-cases (returned v) = inr (v, refl)

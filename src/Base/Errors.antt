-- ===== src/Base/Errors.antt =====
-- Go's pair of a value and an error, of which exactly one counts.
use mathlib.Core.Path.{◌≡◌, refl}
use mathlib.Core.Logic.{◌⊎◌, inl, inr}

pub data Result {ℓ} (E : Type 0) (A : Type ℓ) : Type ℓ where
  ok : A → Result E A
  err : E → Result E A

infixl 5 ◌>>=◌
abbrev pub ◌>>=◌ {ℓ κ} :
    {Err : Type 0} {X : Type ℓ} {Y : Type κ} (first : Result Err X) (next : X → Result Err Y)
    → Result Err Y
err failure >>= next = err failure
ok x >>= next = next x

pub Result-cases {ℓ} :
    {E : Type 0} {A : Type ℓ} (m : Result E A) → ((a : A) × (m ≡ ok a)) ⊎ ((e : E) × (m ≡ err e))
Result-cases (ok a) = inl (a, refl)
Result-cases (err e) = inr (e, refl)

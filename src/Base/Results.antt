-- ===== src/Base/Results.antt =====
-- The result of Go code that may not return normally: `panic` is a run-time panic (an index out
-- of range), and `stuck` is no Go value: the fuel of a loop or a recursion ran out.
use mathlib.Core.Path.{◌≡◌, refl}
use mathlib.Core.Option.{Option, none, some}

pub data Outcome {ℓ} (A : Type ℓ) : Type ℓ where
  ok : A → Outcome A
  panic : Outcome A
  stuck : Outcome A

infixl 5 ◌>>=◌
abbrev pub ◌>>=◌ {ℓ κ} :
    {X : Type ℓ} {Y : Type κ} (first : Outcome X) (next : X → Outcome Y) → Outcome Y
panic >>= next = panic
stuck >>= next = stuck
ok x >>= next = next x

abbrev pub or_panic {ℓ} : {A : Type ℓ} → Option A → Outcome A
or_panic none = panic
or_panic (some a) = ok a

-- A chain that ends well began well.
pub >>=-eq-ok {ℓ κ} :
    {X : Type ℓ} {Y : Type κ} (first : Outcome X) (next : X → Outcome Y) {result : Y}
    → (first >>= next) ≡ ok result
    → (x : X) × (first ≡ ok x) × (next x ≡ ok result)
>>=-eq-ok panic next done = cc
>>=-eq-ok stuck next done = cc
>>=-eq-ok (ok x) next done = (x, refl, done)

pub ok-injective {ℓ} : {X : Type ℓ} {x y : X} → ok x ≡ ok y → x ≡ y
ok-injective e = cc

-- The outcome is a result that the predicate holds of.
abbrev pub Returns {ℓ} : {A : Type ℓ} → (A → Type 0) → Outcome A → Type 0
Returns P (ok a) = P a
Returns P panic = ⊥
Returns P stuck = ⊥

pub Returns-bind {ℓ κ} :
    {X : Type ℓ} {Y : Type κ} (P : X → Type 0) (Q : Y → Type 0) (first : Outcome X)
    (next : X → Outcome Y)
    → Returns P first
    → ((x : X) → P x → Returns Q (next x))
    → Returns Q (first >>= next)
Returns-bind P Q (ok x) next h step = step x h
Returns-bind P Q panic next h step = absurd h
Returns-bind P Q stuck next h step = absurd h

pub Returns-ok {ℓ} :
    {X : Type ℓ} (P : X → Type 0) (result : Outcome X)
    → Returns P result
    → (x : X) × (result ≡ ok x) × P x
Returns-ok P (ok x) h = (x, refl, h)
Returns-ok P panic h = absurd h
Returns-ok P stuck h = absurd h

pub Returns-weaken {ℓ} :
    {X : Type ℓ} (P Q : X → Type 0) (result : Outcome X)
    → Returns P result
    → ((x : X) → P x → Q x)
    → Returns Q result
Returns-weaken P Q (ok x) h step = step x h
Returns-weaken P Q panic h step = absurd h
Returns-weaken P Q stuck h step = absurd h

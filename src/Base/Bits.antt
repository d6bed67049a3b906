-- ===== src/Base/Bits.antt =====
-- `|` on numbers with no bit in common is their sum, and the masks of one byte.
use Prim.Native.Nat.{
  ℕ, zero, suc, ◌+◌, ◌*◌, ◌/◌, ◌%◌, ◌^◌, ◌≤◌, ◌<◌, max, bit_and, bit_or, digits, bit_or-bitwise,
}
use mathlib.Core.Path.{◌≡◌, refl, ap, ◌∙◌}
use mathlib.Core.Bool.{Bool, true, ◌&&◌}
use native.Mathlib.Omega.{arith}
use native.Mathlib.Nat.{pow-suc}
use tanzlaurel.Base.Tests.{◌==◌, ==_iff}

-- A test that is evaluated at every number below a bound holds at each of them.
passes : (ℕ → Bool) → ℕ → Bool
passes test zero = true
passes test (suc bound) = passes test bound && test bound

passes-at :
    (test : ℕ → Bool) (bound : ℕ) → passes test bound ≡ true → (v : ℕ) → v < bound → test v ≡ true
unfolding passes
passes-at test zero all v below = absurd (omega arith)
passes-at test (suc bound) all v below =
    ground (arith, λ (q : passes test bound ≡ true). passes-at test bound q v)

module _ (f g : ℕ → ℕ) where
  agree : ℕ → Bool
  agree x = f x == g x

  agree_below : (bound : ℕ) → passes agree bound ≡ true → (x : ℕ) → x < bound → f x ≡ g x
  unfolding agree
  agree_below bound all x below = (==_iff (f x) (g x)).0 (passes-at _ bound all x below)

pub and_0x3f : (b : ℕ) → b < 256 → bit_and b 0x3f ≡ b % 64
unfolding passes agree
and_0x3f = agree_below _ _ 256 refl

pub or_0x40 : (b : ℕ) → b < 64 → bit_or 0x40 b ≡ 64 + b
unfolding passes agree
or_0x40 = agree_below _ _ 64 refl

pub or_0x80 : (b : ℕ) → b < 64 → bit_or 0x80 b ≡ 128 + b
unfolding passes agree
or_0x80 = agree_below _ _ 64 refl

pub or_0xc0 : (b : ℕ) → b < 256 → bit_or 0xc0 b ≡ 192 + b % 64
unfolding passes agree
or_0xc0 = agree_below _ _ 256 refl

-- What `bit_or` computes digit by digit, on fuel that only has to cover its first argument.
abbrev joined : ℕ → ℕ → ℕ → ℕ
joined x y fuel = digits (λ rest. rest) max fuel x y

joined-enough : (x y fuel fuel' : ℕ) → x ≤ fuel → x ≤ fuel' → joined x y fuel ≡ joined x y fuel'
joined-enough zero y zero zero le le' = refl
joined-enough zero y zero (suc k') le le' = refl
joined-enough zero y (suc k) zero le le' = refl
joined-enough zero y (suc k) (suc k') le le' = refl
joined-enough (suc x) y zero fuel' le le' = absurd (omega arith)
joined-enough (suc x) y (suc k) zero le le' = absurd (omega arith)
joined-enough (suc x) y (suc k) (suc k') le le' =
    let halves = joined-enough (suc x / 2) (y / 2) k k' (omega arith) (omega arith) in
    omega (arith, halves)

bit_or_step : (x y : ℕ) → bit_or x y ≡ bit_or (x / 2) (y / 2) * 2 + max (x % 2) (y % 2)
bit_or_step zero y =
    let whole = bit_or-bitwise 0 y in
    let half = bit_or-bitwise 0 (y / 2) in omega (arith, whole, half)
bit_or_step (suc x) y =
    let high = suc x / 2 in
    let refuel = joined-enough high (y / 2) x high (omega arith) (omega arith) in
    omega (arith, refuel, bit_or-bitwise high (y / 2), bit_or-bitwise (suc x) y)

bit_or-zero_fuel : (fuel x : ℕ) → x ≤ fuel → bit_or x 0 ≡ x
bit_or-zero_fuel zero zero le = refl
bit_or-zero_fuel (suc k) zero le = refl
bit_or-zero_fuel zero (suc x) le = absurd (omega arith)
bit_or-zero_fuel (suc k) (suc x) le =
    let half = bit_or-zero_fuel k (suc x / 2) (omega arith) in
    omega (arith, half, bit_or_step (suc x) 0)

-- A number shifted by `k` and one below 2 ^ k have no bit in common.
pub bit_or-add : (k a b : ℕ) → b < 2 ^ k → bit_or (a * 2 ^ k) b ≡ a * 2 ^ k + b
bit_or-add zero a b h =
    let e : b ≡ 0 = omega arith in
    rw e (bit_or-zero_fuel (a * 2 ^ 0) (a * 2 ^ 0) (omega arith) ∙ omega arith)
bit_or-add (suc k) a b h =
    let t = a * 2 ^ k in
    let doubled : a * 2 ^ suc k ≡ t * 2 = omega (arith, ap (λ (x : ℕ). a * x) (pow-suc 2 k)) in
    let half : t * 2 / 2 ≡ t = omega arith in
    let step : bit_or (t * 2) b ≡ bit_or t (b / 2) * 2 + max (t * 2 % 2) (b % 2) =
      rw half at (bit_or_step (t * 2) b) in
    rw doubled (omega (arith, step, bit_or-add k a (b / 2) (omega (arith, pow-suc 2 k))))

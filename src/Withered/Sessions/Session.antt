-- ===== src/Withered/Sessions/Session.antt =====
-- session.go and idle_reason.go. Times are nanoseconds, and `now` is what `time.Now` gives. The
-- identity of a session is a number: its 16 random bytes, which base64 only spells out.
use Prim.Native.Nat.{bit_and, bit_or}
use tanzlaurel.Base.{
  ℕ, suc, zero, ◌-◌, ◌≡◌, refl, Bool, true, false, not, ◌||◌, ltb, ◌==◌, if◌then◌else◌,
}
use tanzlaurel.Base.Int.{ℤ, pos, negsuc}

abbrev pub idle_none : ℕ
idle_none = 0

abbrev pub idle_read : ℕ
idle_read = 1

abbrev pub idle_write : ℕ
idle_write = 2

abbrev pub idle_pong : ℕ
idle_pong = 4

abbrev pub idle_disabled : ℕ
idle_disabled = 128

-- `r&x != 0`
unfoldable pub has : ℕ → ℕ → Bool
has r x = not (bit_and r x == 0)

pub record Session : Type 0 where
  pub id : ℕ
  pub last_read : ℕ
  pub last_write : ℕ
  pub last_pong : ℕ
  pub closed : Bool

unfoldable pub new_session : ℕ → ℕ → Session
new_session id now = record {
  id = id;
  last_read = now;
  last_write = now;
  last_pong = now;
  closed = false;
}

unfoldable pub touch_read : ℕ → Session → Session
touch_read now s = record s { last_read = now }

unfoldable pub touch_write : ℕ → Session → Session
touch_write now s = record s { last_write = now }

unfoldable pub touch_pong : ℕ → Session → Session
touch_pong now s = record s { last_pong = now }

-- `CompareAndSwap(false, true)`: true for the call that closed it.
unfoldable pub close : Session → Session × Bool
close s = if s.closed then (s, false) else (record s { closed = true }, true)

-- `time.Since(last) > timeout`; a time in the future is less than any timeout ago.
abbrev pub is_idle_since : ℕ → ℕ → ℕ → Bool
is_idle_since now last timeout = ltb timeout (now - last)

-- The bits that the three tests set, one after the other.
unfoldable pub idle_bits : Bool → Bool → Bool → ℕ
idle_bits r w p =
    let reason = if r then bit_or idle_none idle_read else idle_none in
    let reason' = if w then bit_or reason idle_write else reason in
    if p then bit_or reason' idle_pong else reason'

unfoldable pub is_idle : ℕ → ℤ → Session → Bool × ℕ
is_idle now (negsuc n) s = (false, idle_disabled)
is_idle now (pos zero) s = (false, idle_disabled)
is_idle now (pos (suc n)) s =
    let reason =
      idle_bits (is_idle_since now s.last_read (suc n)) (is_idle_since now s.last_write (suc n))
        (is_idle_since now s.last_pong (suc n)) in
    (not (reason == idle_none), reason)

idle_bits_lem :
    (r w p : Bool)
    → (not (idle_bits r w p == idle_none) ≡ (r || (w || p)))
      × (has (idle_bits r w p) idle_read ≡ r)
      × (has (idle_bits r w p) idle_write ≡ w)
      × (has (idle_bits r w p) idle_pong ≡ p)
unfolding idle_bits has
idle_bits_lem true true true = (refl, refl, refl, refl)
idle_bits_lem true true false = (refl, refl, refl, refl)
idle_bits_lem true false true = (refl, refl, refl, refl)
idle_bits_lem true false false = (refl, refl, refl, refl)
idle_bits_lem false true true = (refl, refl, refl, refl)
idle_bits_lem false true false = (refl, refl, refl, refl)
idle_bits_lem false false true = (refl, refl, refl, refl)
idle_bits_lem false false false = (refl, refl, refl, refl)

-- With a positive timeout, a session is idle exactly when one of the three activities is longer ago
-- than that, and each bit of the reason tells of its own activity.
pub is_idle_reasons :
    (now timeout : ℕ) (s : Session)
    → let answer = is_idle now (pos (suc timeout)) s in
      (answer.0 ≡ (
        is_idle_since now s.last_read (suc timeout)
        || (is_idle_since now s.last_write (suc timeout)
            || is_idle_since now s.last_pong (suc timeout))))
      × (has answer.1 idle_read ≡ is_idle_since now s.last_read (suc timeout))
      × (has answer.1 idle_write ≡ is_idle_since now s.last_write (suc timeout))
      × (has answer.1 idle_pong ≡ is_idle_since now s.last_pong (suc timeout))
unfolding is_idle
is_idle_reasons now timeout s = idle_bits_lem _ _ _

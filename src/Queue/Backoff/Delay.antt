-- ===== src/Queue/Backoff/Delay.antt =====
-- The delay of src/msgate/queue/backoff.py as a function of the attempts.
use msgate.Prelude.{
  ℕ, zero, suc, ◌-◌, ◌*◌, ◌^◌, ◌≤◌, ◌≡◌, ◌↔◌, min, arith, Bool-cases, inl, inr, ltb, if◌then◌else◌,
  leb, leb→le, leb_false→lt,
}
use msgate.Queue.Backoff.{backoff_seconds, default_backoff}
use native.Mathlib.Nat.{pow-suc, pow-le-pow_right}

clamped : (a : ℕ) → (if ltb a 1 then 1 else a) - 1 ≡ a - 1
clamped a = ground arith

delay_lem : (a base maximum : ℕ) → backoff_seconds a base maximum ≡ min (base * 2 ^ (a - 1)) maximum
unfolding backoff_seconds
delay_lem a base maximum = rw (clamped a)

power_mono : (a b : ℕ) → a ≤ b → 2 ^ (a - 1) ≤ 2 ^ (b - 1)
power_mono a b h = pow-le-pow_right (omega arith) (omega arith)

scaled_mono : (base a b : ℕ) → a ≤ b → base * 2 ^ (a - 1) ≤ base * 2 ^ (b - 1)
scaled_mono base a b h = grind (arith, power_mono a b h)

-- The delay never falls as the attempts grow, and lies between the base and the maximum, provided
-- the base is at most the maximum.
pub backoff_bounds :
    (a b base maximum : ℕ)
    → base ≤ maximum
    → a ≤ b
    → (base ≤ backoff_seconds a base maximum)
      × (backoff_seconds a base maximum ≤ backoff_seconds b base maximum)
      × (backoff_seconds b base maximum ≤ maximum)
backoff_bounds a b base maximum h k =
    rw (delay_lem a base maximum, delay_lem b base maximum)
      (omega
        (arith, scaled_mono base a b k, scaled_mono base zero a (omega arith), zero_power base))
  where
    zero_power : (n : ℕ) → n * 2 ^ (0 - 1) ≡ n
    zero_power n = omega arith

suc_sub : (n : ℕ) → suc n - 1 ≡ n
suc_sub n = omega arith

-- The delay is the base up to the first attempt, and after it twice the delay before, cut off at
-- the maximum.
pub backoff_doubles :
    (a base maximum : ℕ)
    → (backoff_seconds 1 base maximum ≡ min base maximum)
      × (backoff_seconds (suc (suc a)) base maximum
          ≡ min (2 * backoff_seconds (suc a) base maximum) maximum)
backoff_doubles a base maximum = (
  rw (delay_lem 1 base maximum) (omega arith),
  rw (delay_lem (suc (suc a)) base maximum, delay_lem (suc a) base maximum) (step),
)
  where
    twice : base * 2 ^ suc a ≡ 2 * (base * 2 ^ a)
    twice = rw pow-suc (omega arith)

    step :
        min (base * 2 ^ (suc (suc a) - 1)) maximum
        ≡ min (2 * min (base * 2 ^ (suc a - 1)) maximum) maximum
    step = rw (suc_sub (suc a), suc_sub a) (omega (arith, twice))

capped : (a : ℕ) → 7 ≤ a → 64 ≤ 2 ^ (a - 1)
capped a h = power_mono 7 a h

-- With the gateway's numbers the delay reaches its cap of 300 seconds with the seventh attempt, and
-- not before.
pub default_backoff_capped : (a : ℕ) → (default_backoff a ≡ 300) ↔ (7 ≤ a)
unfolding default_backoff
default_backoff_capped a = rw (delay_lem a 5 300) (late, λ h. omega (arith, capped a h))
  where
    late : min (5 * 2 ^ (a - 1)) 300 ≡ 300 → 7 ≤ a
    late e = elim (Bool-cases (leb 7 a)) [
      | inl h ↦ leb→le 7 a h
      | inr h ↦ absurd (omega (arith, power_mono a 6 (omega (arith, leb_false→lt 7 a h))))
    ]

pub default_backoff_bounds : (a : ℕ) → (5 ≤ default_backoff a) × (default_backoff a ≤ 300)
unfolding default_backoff
default_backoff_bounds a =
    let r = backoff_bounds a a 5 300 (omega arith) (omega arith) in (r.0, r.2)

-- ===== src/Configuration/Runtime/Numbers.antt =====
-- The numbers that `positiveInteger` of lib/runtime-config.js lets pass.
use native.Mathlib.Nat.{mod-add-div', zero-mul}
use node_red_contrib_pod_gat.Prelude.{
  ℕ, zero, suc, ◌*◌, ◌/◌, ◌%◌, ◌^◌, ◌≤◌, ◌<◌, ◌≡◌, ◌||◌, not, arith, sym, false,
}
use node_red_contrib_pod_gat.Configuration.Runtime.{Number, is_integer, below_one}

-- The number is one of 1, 2, 3 and so on.
abbrev pub IsPositive : Number → Type 0
IsPositive n = (n.negative ≡ false) × ((k : ℕ) × (n.mantissa ≡ suc k * 2 ^ n.exponent))

power_positive : (k : ℕ) → 0 < 2 ^ k
power_positive zero = omega arith
power_positive (suc k) = omega (arith, power_positive k)

positive_quotient : (m p q : ℕ) → q * p ≡ m → p ≤ m → 0 < p → (k : ℕ) × (m ≡ suc k * p)
positive_quotient m p zero e h pos = absurd (omega (arith, e, zero-mul p))
positive_quotient m p (suc k) e h pos = (k, sym e)

multiple : (m p : ℕ) → m % p ≡ 0 → p ≤ m → 0 < p → (k : ℕ) × (m ≡ suc k * p)
multiple m p e h pos = positive_quotient m p (m / p) (omega (arith, mod-add-div' m p, e)) h pos

-- A number that passes the tests of `positiveInteger`.
pub tested-IsPositive : (n : Number) → (not (is_integer n) || below_one n) ≡ false → IsPositive n
unfolding is_integer below_one
tested-IsPositive n h = (
  ground (arith, h),
  multiple n.mantissa (2 ^ n.exponent) (ground (arith, h)) (ground (arith, h))
      (power_positive n.exponent),
)

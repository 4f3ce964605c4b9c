-- ===== src/Spool/Retry.antt =====
-- The delay before a record is tried again.
use superlily.Base.{ℕ, zero, suc, ◌-◌, ◌*◌, ◌^◌, ◌≤◌, ◌≡◌, ◌⊎◌, inl, inr, min, max, arith}
use native.Mathlib.Nat.{mul-le-mul_left}
use superlily.Spool.Delivery.{retry_delay}

power-positive : (n : ℕ) → 1 ≤ 2 ^ n
power-positive zero = omega arith
power-positive (suc n) = omega (arith, power-positive n)

backoff :
    (n : ℕ) → (min (suc n - 1) 10 ≡ min (n - 1) 10) ⊎ (min (suc n - 1) 10 ≡ suc (min (n - 1) 10))
backoff n = omega arith

power-step : (n : ℕ) → 2 ^ min (n - 1) 10 ≤ 2 ^ min (suc n - 1) 10
power-step n = elim (backoff n) [
  | inl same ↦ rw same (omega arith)
  | inr more ↦ rw more (omega arith)
]

-- The delay is between a tenth of a second and a minute, and it does not shrink with one more attempt.
pub retry_delay-bounds :
    (base attempts : ℕ)
    → (100000 ≤ retry_delay base attempts)
      × (retry_delay base attempts ≤ 60000000)
      × (retry_delay base attempts ≤ retry_delay base (suc attempts))
unfolding retry_delay
retry_delay-bounds base attempts =
    let more : max 100000 base * 1 ≤ max 100000 base * 2 ^ min (attempts - 1) 10 =
      mul-le-mul_left (max 100000 base) (power-positive (min (attempts - 1) 10)) in
    let step : max 100000 base * 2 ^ min (attempts - 1) 10
        ≤ max 100000 base * 2 ^ min (suc attempts - 1) 10 =
      mul-le-mul_left (max 100000 base) (power-step attempts) in
    (omega (arith, more), omega arith, omega (arith, step))

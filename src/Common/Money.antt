-- ===== src/Common/Money.antt =====
-- src/common/money.ts, and the rate of src/fx/fx.service.ts. An amount is an integer of
-- hundredths, a percentage of hundredths of a percent, a rate of millionths.
use laicos_backend.Prelude.{ℕ, ◌+◌, ◌-◌, ◌*◌, ◌/◌, ◌≤◌, ◌<◌, ◌≡◌, List, [], ◌∷◌, arith}
use native.Mathlib.Nat.{
  lt-div-mul-add, div-lt_iff_lt-mul, div-le_of_le-mul, div-mul-le_self, le_of_mul-le-mul_right,
  mul-le-mul_left, mul-le-mul_right,
}
use laicos_backend.Prelude.Table.{sum_by}

-- n / d rounded to the nearest integer, halves up (ROUND_HALF_UP, on what is not negative).
abbrev pub round_half_up : ℕ → ℕ → ℕ
round_half_up n d = (2 * n + d) / (2 * d)

abbrev pub round_up : ℕ → ℕ → ℕ
round_up n d = (n + d - 1) / d

-- `toMinorUnits`: hundredths times 100, over 100.
unfoldable pub to_minor_units : ℕ → ℕ
to_minor_units amount = round_half_up (amount * 100) 100

-- `percentOf`.
unfoldable pub percent_of : ℕ → ℕ → ℕ
percent_of amount percent = round_half_up (amount * percent) 10000

-- `ngnToUsd`.
unfoldable pub ngn_to_usd : ℕ → ℕ → ℕ
ngn_to_usd ngn ngn_per_usd = round_up (ngn * 1000000) ngn_per_usd

-- `proportionalShare`.
unfoldable pub proportional_share : ℕ → ℕ → ℕ → ℕ
proportional_share part whole charged = part * charged / whole

-- `effectiveRate` after its checks: the market rate less the margin, rounded down.
unfoldable pub effective_rate : ℕ → ℕ → ℕ
effective_rate rate margin_percent = rate * (10000 - margin_percent) / 10000

-- Minor units of an amount with two decimals are its hundredths: nothing is rounded away.
pub to_minor_units_exact : (amount : ℕ) → to_minor_units amount ≡ amount
unfolding to_minor_units
to_minor_units_exact amount = omega arith

-- A percentage of an amount is rounded to the nearest hundredth, halves up: it is at most half a
-- hundredth above the exact value and less than half a hundredth below it.
pub percent_of_nearest :
    (amount percent : ℕ)
    → (20000 * percent_of amount percent ≤ 2 * (amount * percent) + 10000)
      × (2 * (amount * percent) < 20000 * percent_of amount percent + 10000)
unfolding percent_of
percent_of_nearest amount percent = omega arith

-- A percentage of at most 100 never exceeds the amount.
pub percent_of-le : (amount percent : ℕ) → percent ≤ 10000 → percent_of amount percent ≤ amount
unfolding percent_of
percent_of-le amount percent h = grind arith

-- At a positive rate, the dollars charged are the least amount worth at least the naira total.
pub ngn_to_usd_least :
    (ngn rate : ℕ)
    → 0 < rate
    → (ngn * 1000000 ≤ ngn_to_usd ngn rate * rate)
      × ((usd : ℕ) → ngn * 1000000 ≤ usd * rate → ngn_to_usd ngn rate ≤ usd)
unfolding ngn_to_usd
ngn_to_usd_least ngn rate h = (
  omega (arith, lt-div-mul-add {a = ngn * 1000000 + rate - 1} {b = rate} h),
  λ usd enough. omega (
    arith,
    (div-lt_iff_lt-mul {k = rate} {x = ngn * 1000000 + rate - 1} {y = usd + 1} h).1 (omega arith),
  ),
)

less-le : (margin : ℕ) → 10000 - margin ≤ 10000
less-le margin = omega arith

-- The rate that buyers pay at is at most the market rate.
pub effective_rate-le : (rate margin : ℕ) → effective_rate rate margin ≤ rate
unfolding effective_rate
effective_rate-le rate margin =
    div-le_of_le-mul 10000 (omega (arith, mul-le-mul_left rate (less-le margin)))

shares_scaled :
    (parts : List ℕ) (whole charged : ℕ)
    → sum_by (λ part. proportional_share part whole charged) parts * whole
      ≤ sum_by (λ part. part) parts * charged
unfolding proportional_share
shares_scaled [] whole charged = omega arith
shares_scaled (part ∷ parts) whole charged =
    omega (arith, shares_scaled parts whole charged, div-mul-le_self (part * charged) whole)

-- Where the whole is positive, shares of parts that add up to at most the whole add up to at most
-- what was charged.
pub proportional_share_sum :
    (parts : List ℕ) (whole charged : ℕ)
    → 0 < whole
    → sum_by (λ part. part) parts ≤ whole
    → sum_by (λ part. proportional_share part whole charged) parts ≤ charged
proportional_share_sum parts whole charged pos h =
    le_of_mul-le-mul_right
      (omega (arith, shares_scaled parts whole charged, mul-le-mul_right charged h)) pos

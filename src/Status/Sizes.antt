-- ===== src/Status/Sizes.antt =====
-- The sizes that formatBytes of cmd/datasaver/main.go prints.
use datasaver.Base.{ℕ, suc, ltb, true, ◌+◌, ◌*◌, ◌^◌, ◌≤◌, ◌<◌, bytes, ◌≡◌, refl, arith}
use datasaver.Base.Decimal.{decimal}
use datasaver.Base.Int.{pos}
use datasaver.Status.{round_half_even, spacing, float64, hundredths, format_bytes}

-- Just under a megabyte is printed as a whole one, in kilobytes.
below_megabyte : format_bytes (pos 1048575) ≡ bytes "1024.00 KB"
unfolding format_bytes decimal
below_megabyte = refl

round_error :
    (n d : ℕ)
    → 0 < d
    → (2 * n ≤ 2 * (d * round_half_even n d) + d) × (2 * (d * round_half_even n d) ≤ 2 * n + d)
unfolding round_half_even
round_error n d h = grind arith

spacing_one : (fuel n : ℕ) → n < 2 ^ 53 → spacing (suc fuel) 1 n ≡ 1
unfolding spacing
spacing_one fuel n h = let small : ltb n (2 ^ 53 * 1) ≡ true = ground (arith, h) in rw small

round_by_one : (n : ℕ) → round_half_even n 1 ≡ n
unfolding round_half_even
round_by_one n = grind arith

float64_exact : (n : ℕ) → n < 2 ^ 53 → float64 n ≡ n
unfolding float64
float64_exact n h = rw (spacing_one 10 n h, round_by_one n) (omega arith)

-- Up to 2^53 bytes the two printed decimals differ from the size by half of a hundredth at most.
pub hundredths_error :
    (n unit : ℕ)
    → n < 2 ^ 53
    → 0 < unit
    → (2 * (100 * n) ≤ 2 * (unit * hundredths n unit) + unit)
      × (2 * (unit * hundredths n unit) ≤ 2 * (100 * n) + unit)
unfolding hundredths
hundredths_error n unit h k = rw (float64_exact n h) (round_error (100 * n) unit k)

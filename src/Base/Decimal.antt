-- ===== src/Base/Decimal.antt =====
-- `Decimal.quantize` on an exact fraction n / d, by the two rounding modes that the program uses.
use mathlib.Core.Path.{◌≡◌, ap}
use native.Mathlib.Omega.{arith}
use Prim.Native.Nat.{ℕ, suc, ◌+◌, ◌*◌, ◌/◌, ◌%◌}
use internet_ms.Base.Tests.{ltb, if◌then◌else◌}
use internet_ms.Base.Int.{ℤ, pos, negsuc, sub_ℕ, ◌*ℤ◌}

-- `ROUND_HALF_UP`: to the nearest, a half away from zero.
unfoldable pub round_half_up : ℤ → ℕ → ℤ
round_half_up (pos n) d = pos ((2 * n + d) / (2 * d))
round_half_up (negsuc n) d = sub_ℕ 0 ((2 * suc n + d) / (2 * d))

abbrev half_even : ℕ → ℕ → ℕ
half_even n d =
    if ltb (2 * (n % d)) d
    then n / d
    else if ltb d (2 * (n % d))
    then n / d + 1
    else n / d + n / d % 2

-- `ROUND_HALF_EVEN`, the mode of a `quantize` that names none.
unfoldable pub round_half_even : ℤ → ℕ → ℤ
round_half_even (pos n) d = pos (half_even n d)
round_half_even (negsuc n) d = sub_ℕ 0 (half_even (suc n) d)

pub mul_zero : (x : ℤ) → x *ℤ pos 0 ≡ pos 0
unfolding ◌*ℤ◌
mul_zero x = ground arith

pub round_zero : (d : ℕ) → round_half_up (pos 0) d ≡ pos 0
unfolding round_half_up
round_zero d = ap pos (grind arith)

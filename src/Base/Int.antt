-- ===== src/Base/Int.antt =====
-- Signed integers over the native numbers, and the clamp that the program uses for percentages.
use Prim.Native.Nat.{ℕ, ◌≤◌}
use mathlib.Core.Path.{◌≡◌}
use native.Mathlib.Omega.{arith}
use telegram_osint.Base.Tests.{ltb, if◌then◌else◌}

-- `negsuc n` is -(n + 1).
pub data ℤ : Type 0 where
  pos : ℕ → ℤ
  negsuc : ℕ → ℤ

abbrev pub pos_part : ℤ → ℕ
pos_part (pos n) = n
pos_part (negsuc n) = 0

-- `max(0, min(100, value))`
unfoldable pub clamp100 : ℤ → ℕ
clamp100 (pos n) = if ltb 100 n then 100 else n
clamp100 (negsuc n) = 0

pub clamp100-le : (z : ℤ) → clamp100 z ≤ 100
unfolding clamp100
clamp100-le (pos n) = ground arith
clamp100-le (negsuc n) = omega arith

-- a value in range is left alone
pub clamp100_in_range : (n : ℕ) → n ≤ 100 → clamp100 (pos n) ≡ n
unfolding clamp100
clamp100_in_range n h = ground arith

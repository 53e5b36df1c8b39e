-- ===== src/Base/Words.antt =====
-- Machine words. A w-bit integer is its bit pattern, a number below 2 ^ w.
use Prim.Native.Nat.{ℕ, ◌+◌, ◌%◌, ◌^◌, ◌<◌}
use mathlib.Core.Path.{◌≡◌}
use mathlib.Core.Bool.{Bool}
use native.Mathlib.Omega.{arith}
use ad_index.Base.Tests.{ltb}

abbrev pub u64_mod : ℕ
u64_mod = 2 ^ 64

abbrev pub u32_mod : ℕ
u32_mod = 2 ^ 32

-- The position of an int64_t in its signed order, counted from the least one, -2 ^ 63.
unfoldable pub rank : ℕ → ℕ
rank x = (x + 2 ^ 63) % 2 ^ 64

-- Signed `a < b`.
abbrev pub lt_i64 : ℕ → ℕ → Bool
lt_i64 a b = ltb (rank a) (rank b)

pub rank-injective : (a b : ℕ) → a < u64_mod → b < u64_mod → rank a ≡ rank b → a ≡ b
unfolding rank
rank-injective a b ha hb e = omega arith

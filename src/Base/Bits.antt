-- ===== src/Base/Bits.antt =====
-- Bounds of the bitwise operations: they leave no more bits than their arguments have.
use Prim.Native.Nat.{
  ℕ, zero, suc, ◌/◌, ◌%◌, ◌^◌, ◌<◌, min, max, ◌≤◌, bit_and, bit_and-bitwise, bit_or, bit_xor,
  digits, differ, bit_or-bitwise, bit_xor-bitwise,
}
use native.Mathlib.Nat.{pow-suc}
use native.Mathlib.Omega.{arith}

module _ (f : ℕ → ℕ → ℕ) (bit : (x y : ℕ) → x < 2 → y < 2 → f x y < 2) where
  digits-lt : (n w a b : ℕ) → a < 2 ^ w → b < 2 ^ w → digits (λ y. y) f n a b < 2 ^ w
  digits-lt zero w a b ha hb = hb
  digits-lt (suc n) w zero b ha hb = hb
  digits-lt (suc n) zero (suc a) b ha hb = absurd (omega arith)
  digits-lt (suc n) (suc w) (suc a) b ha hb = omega (
    arith,
    pow-suc 2 w,
    bit (suc a % 2) (b % 2) (omega arith) (omega arith),
    digits-lt n w (suc a / 2) (b / 2) (omega (arith, pow-suc 2 w)) (omega (arith, pow-suc 2 w)),
  )

max_bit : (x y : ℕ) → x < 2 → y < 2 → max x y < 2
max_bit x y hx hy = omega arith

differ_bit : (x y : ℕ) → x < 2 → y < 2 → differ x y < 2
differ_bit zero y hx hy = hy
differ_bit (suc x) zero hx hy = hx
differ_bit (suc zero) (suc zero) hx hy = omega arith
differ_bit (suc zero) (suc (suc y)) hx hy = absurd (omega arith)
differ_bit (suc (suc x)) (suc y) hx hy = absurd (omega arith)

pub bit_or-lt : (w a b : ℕ) → a < 2 ^ w → b < 2 ^ w → bit_or a b < 2 ^ w
bit_or-lt w a b ha hb = simp bit_or-bitwise (digits-lt max max_bit a w a b ha hb)

pub bit_xor-lt : (w a b : ℕ) → a < 2 ^ w → b < 2 ^ w → bit_xor a b < 2 ^ w
bit_xor-lt w a b ha hb = simp bit_xor-bitwise (digits-lt differ differ_bit a w a b ha hb)

digits-le : (n a b : ℕ) → digits (λ y. 0) min n a b ≤ b
digits-le zero a b = omega arith
digits-le (suc n) zero b = omega arith
digits-le (suc n) (suc a) b = omega (arith, digits-le n (suc a / 2) (b / 2))

pub bit_and-le : (a b : ℕ) → bit_and a b ≤ b
bit_and-le a b = simp bit_and-bitwise (digits-le a a b)

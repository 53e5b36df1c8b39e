-- ===== src/Base/Masks.antt =====
-- A bitwise `and` with a mask of the low bits.
use Prim.Native.Nat.{
  ℕ, zero, suc, ◌+◌, ◌-◌, ◌*◌, ◌/◌, ◌%◌, ◌^◌, ◌<◌, ◌≤◌, min, bit_and, bit_and-bitwise, digits,
}
use mathlib.Core.Path.{◌≡◌, refl, sym, ap, ◌∙◌}
use native.Mathlib.Nat.{
  pow-suc, mul_assoc, mul_left_comm, div-add-mod, mul-add-mod_self_left, mod-eq_of_lt, mod-lt,
  mod-one, zero-mod,
}
use native.Mathlib.Omega.{arith}

pub pow-positive : (w : ℕ) → 0 < 2 ^ w
pow-positive zero = omega arith
pow-positive (suc w) = omega (arith, pow-suc 2 w, pow-positive w)

half_mask : (w : ℕ) → (2 ^ suc w - 1) / 2 ≡ 2 ^ w - 1
half_mask w = omega (arith, pow-suc 2 w, pow-positive w)

low_mask : (w : ℕ) → (2 ^ suc w - 1) % 2 ≡ 1
low_mask w = omega (arith, pow-suc 2 w, pow-positive w)

split_mod : (a m : ℕ) → 0 < m → a % (m * 2) ≡ a / 2 % m * 2 + a % 2
split_mod a m positive =
    let q = a / 2 / m in
    let low = a / 2 % m * 2 + a % 2 in
    let whole : a ≡ m * 2 * q + low =
      omega (arith, div-add-mod (a / 2) m, mul_assoc m 2 q, mul_left_comm m 2 q) in
    ap (λ n. n % (m * 2)) whole
    ∙ (mul-add-mod_self_left (m * 2) q low ∙ mod-eq_of_lt (omega (arith, mod-lt (a / 2) positive)))

digits-none : (n a : ℕ) → digits (λ y. 0) min n a 0 ≡ 0
digits-none zero a = refl
digits-none (suc n) zero = refl
digits-none (suc n) (suc a) = omega (arith, digits-none n (suc a / 2))

digits-mask : (n w a : ℕ) → a ≤ n → digits (λ y. 0) min n a (2 ^ w - 1) ≡ a % 2 ^ w
digits-mask zero w zero h = sym (zero-mod (2 ^ w))
digits-mask zero w (suc a) h = absurd (omega (arith, h))
digits-mask (suc n) w zero h = sym (zero-mod (2 ^ w))
digits-mask (suc n) zero (suc a) h = omega (arith, digits-none n (suc a / 2), mod-one (suc a))
digits-mask (suc n) (suc w) (suc a) h =
    let once : digits (λ y. 0) min n (suc a / 2) (2 ^ w - 1) ≡ suc a / 2 % 2 ^ w =
      digits-mask n w (suc a / 2) (omega (arith, h)) in
    let whole = ap (λ m. suc a % m) (pow-suc 2 w) ∙ split_mod (suc a) (2 ^ w) (pow-positive w) in
    rw (half_mask w, low_mask w, once) (omega (arith, whole))

-- The mask of the low `w` bits.
pub bit_and-mask : (a w : ℕ) → bit_and a (2 ^ w - 1) ≡ a % 2 ^ w
bit_and-mask a w = simp bit_and-bitwise (digits-mask a w a (omega arith))

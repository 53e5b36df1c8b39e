-- ===== src/Utils/Murmur.antt =====
-- `Utils::MurmurHash2` of kernel/common/utils/utils.cc, over the bytes at `key`.

use ad_index.Base.{
  ℕ, ◌+◌, ◌*◌, ◌/◌, ◌%◌, ◌^◌, ◌<◌, List, [], ◌∷◌, bit_xor, length, u32_mod, bit_xor-lt, arith,
}

abbrev pub m : ℕ
m = 0x5bd1e995

-- uint32_t product
abbrev pub mul32 : ℕ → ℕ → ℕ
mul32 a b = (a * b) % u32_mod

-- One round over a little-endian word of four bytes.
mix : ℕ → ℕ → ℕ
mix h w = bit_xor (mul32 h m) (mul32 (bit_xor k (k / 2 ^ 24)) m)
  where
    k : ℕ
    k = mul32 w m

-- `while (len >= 4)`, then the `switch` on what is left, whose cases fall through.
mix_bytes : ℕ → List ℕ → ℕ
mix_bytes h [] = h
mix_bytes h (a ∷ []) = mul32 (bit_xor h a) m
mix_bytes h (a ∷ b ∷ []) = mul32 (bit_xor (bit_xor h (b * 2 ^ 8)) a) m
mix_bytes h (a ∷ b ∷ c ∷ []) = mul32 (bit_xor (bit_xor (bit_xor h (c * 2 ^ 16)) (b * 2 ^ 8)) a) m
mix_bytes h (a ∷ b ∷ c ∷ d ∷ rest) =
    mix_bytes (mix h (a + b * 2 ^ 8 + c * 2 ^ 16 + d * 2 ^ 24)) rest

finish : ℕ → ℕ
finish h = let h' = mul32 (bit_xor h (h / 2 ^ 13)) m in bit_xor h' (h' / 2 ^ 15)

unfoldable pub murmur_hash2 : List ℕ → ℕ → ℕ
unfolding mix mix_bytes finish
murmur_hash2 key seed = finish (mix_bytes (bit_xor seed (length key)) key)

mul32-lt : (a b : ℕ) → mul32 a b < u32_mod
mul32-lt a b = omega arith

finish-lt : (h : ℕ) → finish h < u32_mod
unfolding finish
finish-lt h = bit_xor-lt 32 _ _ (mul32-lt _ m) (omega (arith, mul32-lt (bit_xor h (h / 2 ^ 13)) m))

-- A hash is a uint32_t.
pub murmur_hash2-lt : (key : List ℕ) (seed : ℕ) → murmur_hash2 key seed < u32_mod
unfolding murmur_hash2
murmur_hash2-lt key seed = finish-lt _

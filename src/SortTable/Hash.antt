-- ===== src/SortTable/Hash.antt =====
-- `SortTable::GetHashKey` gives an int64_t.
use ad_index.Base.{
  ℕ, zero, suc, ◌^◌, ◌<◌, ◌≤◌, List, [], ◌∷◌, arith, leb, leb→le, Bool-cases, inl, inr, length,
  bit_or-lt, u64_mod,
}
use native.Mathlib.Nat.{pow-suc}
use ad_index.Index.{IsBytes}
use ad_index.Utils.Murmur.{murmur_hash2-lt}
use ad_index.SortTable.Table.{from_bytes, get_hash_key}

from_bytes-lt : (n : ℕ) (bs : List ℕ) → IsBytes bs → length bs ≤ n → from_bytes bs < 256 ^ n
unfolding from_bytes
from_bytes-lt zero [] h l = omega arith
from_bytes-lt (suc n) [] h l = omega (arith, pow-suc 256 n, from_bytes-lt n [] tt (omega arith))
from_bytes-lt zero (b ∷ bs) h l = absurd (omega arith)
from_bytes-lt (suc n) (b ∷ bs) h l =
    omega (arith, pow-suc 256 n, from_bytes-lt n bs h.1 (omega arith))

pub get_hash_key-lt : (key : List ℕ) → IsBytes key → get_hash_key key < u64_mod
unfolding get_hash_key
get_hash_key-lt key bytes = elim (Bool-cases (leb (length key) 8)) [
  | inl short ↦ rw short (from_bytes-lt 8 key bytes (leb→le _ _ short))
  | inr long ↦
      rw long (bit_or-lt 64 _ _ (omega arith) (omega (arith, murmur_hash2-lt key 0x15118974)))
]

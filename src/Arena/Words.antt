-- ===== src/Arena/Words.antt =====
-- Words in the memory of a table, and its lists as lists.
use mathlib.Core.Path.{subst}
use ad_index.Base.{
  ℕ, zero, suc, ◌+◌, ◌<◌, ◌≤◌, ◌≡◌, ◌⊎◌, inl, inr, refl, ap, ◌∙◌, List, [], ◌∷◌, none, length,
  get_elem?, u64_mod, Bytes, put_bytes, put_outside, get_bytes, get_bytes-same, get_bytes-put_bytes,
  bytes_of, length-bytes_of, number, number-bytes_of_8, arith,
}
use ad_index.Arena.Page.{get_u64, put_u64}

pub get_u64-put_u64 : (m : Bytes) (a n : ℕ) → n < u64_mod → get_u64 (put_u64 m a n) a ≡ n
unfolding get_u64 put_u64
get_u64-put_u64 m a n small =
    ap number (
      subst (λ k. get_bytes (put_bytes m a (bytes_of 8 n)) a k ≡ bytes_of 8 n) (length-bytes_of 8 n)
        (get_bytes-put_bytes m a (bytes_of 8 n)))
    ∙ number-bytes_of_8 n small

-- A word that does not overlap the one written.
pub get_u64-put_apart :
    (m : Bytes) (a b n : ℕ) → (b + 8 ≤ a) ⊎ (a + 8 ≤ b) → get_u64 (put_u64 m a n) b ≡ get_u64 m b
unfolding get_u64 put_u64
get_u64-put_apart m a b n apart = ap number (
    get_bytes-same (put_bytes m a (bytes_of 8 n)) m b 8 (λ j l h. elim apart [
      | inl before ↦ (put_outside m a j (bytes_of 8 n)).0 (omega (arith, before, h))
      | inr behind ↦
          (put_outside m a j (bytes_of 8 n)).1 (rw (length-bytes_of 8 n) (omega (arith, behind, l)))
    ]))

pub get_elem?-none {ℓ} : {A : Type ℓ} (xs : List A) (i : ℕ) → length xs ≤ i → get_elem? xs i ≡ none
get_elem?-none [] i h = refl
get_elem?-none (x ∷ xs) zero h = absurd (omega (arith, h))
get_elem?-none (x ∷ xs) (suc i) h = get_elem?-none xs i (omega (arith, h))

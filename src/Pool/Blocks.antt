-- ===== src/Pool/Blocks.antt =====
-- Blocks of a free list in the bytes of a file.
use mathlib.Core.Path.{subst}
use ad_index.Base.{
  ℕ, ◌+◌, ◌*◌, ◌%◌, ◌<◌, ◌≤◌, ◌≡◌, ◌∙◌, List, [], ◌∷◌, ◌++◌, length, u32_mod, get_bytes,
  get_bytes-same, arith, inl, inr, ◌⊎◌,
}
use ad_index.Store.File.{File, System}
use ad_index.Pool.Saved.{block_bytes, offset_of}

-- The blocks are in the file from an offset on.
module _ (stamp : ℕ → ℕ) (base : ℕ) (os : System) where
  abbrev pub Holds : File → ℕ → List (ℕ × ℕ) → Type 0
  Holds f pos [] = Unit {0}
  Holds f pos ((size, a) ∷ blocks) =
      (get_bytes f.bytes pos 16
        ≡ block_bytes os stamp base (size % u32_mod) (offset_of os stamp base a))
      × (pos + 16 ≤ f.size)
      × Holds f (pos + 16) blocks

  -- A change of the file that leaves the bytes from `low` to `high`.
  abbrev pub Keeps : File → File → ℕ → ℕ → Type 0
  Keeps f f' low high =
      (f.size ≤ f'.size ⊎ high ≤ f'.size)
      × ((j : ℕ) → low ≤ j → j < high → j < f.size → f'.bytes j ≡ f.bytes j)

  pub Holds-long :
      (f : File) (pos : ℕ) (blocks : List (ℕ × ℕ))
      → Holds f pos blocks
      → 0 < length blocks
      → pos + 16 * length blocks ≤ f.size
  Holds-long f pos [] h l = absurd (omega (arith, l))
  Holds-long f pos (b ∷ []) (here, inside, h) l = omega (arith, inside)
  Holds-long f pos (b ∷ c ∷ blocks) (here, inside, h) l =
      omega (arith, Holds-long f (pos + 16) (c ∷ blocks) h (omega arith))

  pub Holds-Keeps :
      (f f' : File) (low high pos : ℕ) (blocks : List (ℕ × ℕ))
      → Keeps f f' low high
      → low ≤ pos
      → pos + 16 * length blocks ≤ high
      → Holds f pos blocks
      → Holds f' pos blocks
  Holds-Keeps f f' low high pos [] k l h holds = holds
  Holds-Keeps f f' low high pos ((size, a) ∷ blocks) (k, same) l h (here, inside, rest) = (
    get_bytes-same f'.bytes f.bytes pos 16
          (λ j m n. same j (omega (arith, l, m)) (omega (arith, n, h)) (omega (arith, n, inside)))
        ∙ here,
    elim k [ inl grows ↦ omega (arith, grows, inside) | inr high_in ↦ omega (arith, high_in, h) ],
    Holds-Keeps f f' low high (pos + 16) blocks (k, same) (omega (arith, l)) (omega (arith, h))
        rest,
  )

  pub Holds-append :
      (f : File) (pos : ℕ) (bs cs : List (ℕ × ℕ))
      → Holds f pos bs
      → Holds f (pos + 16 * length bs) cs
      → Holds f pos (bs ++ cs)
  Holds-append f pos [] cs h k =
      subst (λ k. Holds f k cs) {x = pos + 16 * 0} {y = pos} (omega arith) k
  Holds-append f pos (b ∷ bs) cs (here, inside, h) k = (
    here,
    inside,
    Holds-append f (pos + 16) bs cs h (
        subst (λ k. Holds f k cs) {x = pos + 16 * length (b ∷ bs)} {y = pos + 16 + 16 * length bs}
          (omega arith) k),
  )

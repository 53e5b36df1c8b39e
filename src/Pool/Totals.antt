-- ===== src/Pool/Totals.antt =====
-- Sums over the blocks of a free list.
use ad_index.Base.{
  ℕ, ◌+◌, ◌≡◌, refl, ap, List, [], ◌∷◌, ◌++◌, ltb, ◌==◌, arith, Bool-cases, inl, inr,
}
use ad_index.Pool.FreeList.{FreeList, push_queue, push}

-- The blocks of a queue and of a list, by size and address.
abbrev pub queue_blocks : ℕ → List ℕ → List (ℕ × ℕ)
queue_blocks size [] = []
queue_blocks size (a ∷ queue) = (size, a) ∷ queue_blocks size queue

abbrev pub list_blocks : FreeList → List (ℕ × ℕ)
list_blocks [] = []
list_blocks ((size, queue) ∷ rest) = queue_blocks size queue ++ list_blocks rest

-- A sum over blocks, with any weight.
abbrev pub total : (ℕ → ℕ → ℕ) → List (ℕ × ℕ) → ℕ
total weight [] = 0
total weight ((size, a) ∷ blocks) = weight size a + total weight blocks

pub total-append :
    (weight : ℕ → ℕ → ℕ) (bs cs : List (ℕ × ℕ))
    → total weight (bs ++ cs) ≡ total weight bs + total weight cs
total-append weight [] cs = omega arith
total-append weight ((size, a) ∷ bs) cs = omega (arith, total-append weight bs cs)

total-push_queue :
    (weight : ℕ → ℕ → ℕ) (size a : ℕ) (queue : List ℕ)
    → total weight (queue_blocks size (push_queue a queue))
      ≡ weight size a + total weight (queue_blocks size queue)
unfolding push_queue
total-push_queue weight size a [] = refl
total-push_queue weight size a (b ∷ queue) = ground (arith, total-push_queue weight size a queue)

pub total-push :
    (weight : ℕ → ℕ → ℕ) (size a : ℕ) (fl : FreeList)
    → total weight (list_blocks (push size a fl)) ≡ weight size a + total weight (list_blocks fl)
unfolding push
total-push weight size a [] = refl
total-push weight size a ((k, queue) ∷ rest) = elim (Bool-cases (k == size)) [
  | inl same ↦ rw same (
      rw (total-append weight (queue_blocks k (push_queue a queue)) (list_blocks rest)) (
        rw (total-append weight (queue_blocks k queue) (list_blocks rest)) (
          omega (
            arith,
            total-push_queue weight k a queue,
            ap (λ n. weight n a) {x = k} {y = size} (ground (arith, same)),
          ))))
  | inr other ↦ rw other (elim (Bool-cases (ltb size k)) [
    | inl less ↦ rw less refl
    | inr more ↦ rw more (
        rw (total-append weight (queue_blocks k queue) (list_blocks (push size a rest))) (
          rw (total-append weight (queue_blocks k queue) (list_blocks rest))
            (omega (arith, total-push weight size a rest))))
  ])
]

-- ===== src/Pool/Cover.antt =====
-- How often an address lies in the blocks of a free list, or in blocks given out.
use ad_index.Base.{
  ℕ, ◌+◌, ◌≡◌, refl, false, ◌&&◌, List, [], ◌∷◌, ◌++◌, some, ltb, leb, ◌==◌, if◌then◌else◌, arith,
  Option-cases, Bool-cases, inl, inr,
}
use ad_index.Pool.FreeList.{FreeList, push_queue, push, pop_queue, pop}

unfoldable pub covers : ℕ → ℕ → ℕ → ℕ
covers x addr size = if leb addr x && ltb x (addr + size) then 1 else 0

unfoldable pub cover_queue : ℕ → ℕ → List ℕ → ℕ
cover_queue x size [] = 0
cover_queue x size (a ∷ queue) = covers x a size + cover_queue x size queue

unfoldable pub cover_free : ℕ → FreeList → ℕ
cover_free x [] = 0
cover_free x ((size, queue) ∷ rest) = cover_queue x size queue + cover_free x rest

-- The blocks are given by their address and the size asked for.
unfoldable pub cover_blocks : (ℕ → ℕ) → ℕ → List (ℕ × ℕ) → ℕ
cover_blocks aligned x [] = 0
cover_blocks aligned x ((a, size) ∷ rest) = covers x a (aligned size) + cover_blocks aligned x rest

cover_queue-push :
    (x size addr : ℕ) (queue : List ℕ)
    → cover_queue x size (push_queue addr queue) ≡ covers x addr size + cover_queue x size queue
unfolding cover_queue push_queue
cover_queue-push x size addr [] = refl
cover_queue-push x size addr (a ∷ queue) = ground (arith, cover_queue-push x size addr queue)

pub cover_free-push :
    (x size addr : ℕ) (fl : FreeList)
    → cover_free x (push size addr fl) ≡ covers x addr size + cover_free x fl
unfolding cover_free cover_queue push
cover_free-push x size addr [] = ground arith
cover_free-push x size addr ((k, queue) ∷ rest) =
    ground (arith, cover_queue-push x size addr queue, cover_free-push x size addr rest)

cover_free-pop_queue :
    (x k : ℕ) (queue : List ℕ) (rest : FreeList) (a : ℕ) (fl : FreeList)
    → pop_queue k queue rest ≡ some (a, fl)
    → cover_queue x k queue + cover_free x rest ≡ covers x a k + cover_free x fl
unfolding pop_queue cover_queue cover_free
cover_free-pop_queue x k [] rest a fl e = absurd (cc e)
cover_free-pop_queue x k (b ∷ []) rest a fl e = ground (arith, e)
cover_free-pop_queue x k (b ∷ c ∷ queue) rest a fl e = ground (arith, e)

-- A block of another size comes from further on.
pub pop-further :
    (size k a : ℕ) (queue : List ℕ) (rest fl' : FreeList)
    → (k == size) ≡ false
    → pop size ((k, queue) ∷ rest) ≡ some (a, fl')
    → (rest' : FreeList) × (pop size rest ≡ some (a, rest')) × (fl' ≡ (k, queue) ∷ rest')
unfolding pop
pop-further size k a queue rest fl' other e = elim (Option-cases (pop size rest)) [
  | inl absent ↦ absurd (ground (arith, other, e, absent))
  | inr (r, found) ↦ (r.1, ground (arith, other, e, found), ground (arith, other, e, found))
]

pub cover_free-pop :
    (x size : ℕ) (fl : FreeList) (a : ℕ) (fl' : FreeList)
    → pop size fl ≡ some (a, fl')
    → cover_free x fl ≡ covers x a size + cover_free x fl'
unfolding pop cover_free
cover_free-pop x size [] a fl' e = absurd (cc e)
cover_free-pop x size ((k, queue) ∷ rest) a fl' e = elim (Bool-cases (k == size)) [
  | inl same ↦ ground (arith, same, e, cover_free-pop_queue x k queue rest a fl')
  | inr other ↦
      let (rest', found, left) = pop-further size k a queue rest fl' other e in
      ground (arith, left, cover_free-pop x size rest a rest' found)
]

pub cover_blocks-append :
    (aligned : ℕ → ℕ) (x : ℕ) (bs cs : List (ℕ × ℕ))
    → cover_blocks aligned x (bs ++ cs) ≡ cover_blocks aligned x bs + cover_blocks aligned x cs
unfolding cover_blocks
cover_blocks-append aligned x [] cs = ground arith
cover_blocks-append aligned x ((a, size) ∷ bs) cs =
    ground (arith, cover_blocks-append aligned x bs cs)

-- ===== src/Pool/Accounts.antt =====
-- `free_list_meta_` counts the free blocks and their bytes; a block freed is the next one given.
use ad_index.Base.{
  ℕ, ◌+◌, ◌-◌, ◌%◌, ◌<◌, ◌≡◌, ◌≢◌, refl, ap, Bool, true, false, List, [], ◌∷◌, some, ◌==◌, arith,
  Option-cases, Bool-cases, inl, inr, u64_mod, u32_mod,
}
use ad_index.Pool.FreeList.{FreeList, push_queue, push, pop_queue, pop}
use ad_index.Pool.FilePool.{FilePool, alloc_from_store, do_alloc, do_free}
use ad_index.Pool.Cover.{pop-further}

-- The blocks of a queue, each counted with a weight, and those of the list, with the weight of their
-- size.
unfoldable pub weigh_queue : ℕ → List ℕ → ℕ
weigh_queue w [] = 0
weigh_queue w (a ∷ queue) = w + weigh_queue w queue

unfoldable pub weigh : (ℕ → ℕ) → FreeList → ℕ
unfolding weigh_queue
weigh w [] = 0
weigh w ((size, queue) ∷ rest) = weigh_queue (w size) queue + weigh w rest

abbrev pub bytes : FreeList → ℕ
bytes fl = weigh (λ size. size) fl

abbrev pub blocks : FreeList → ℕ
blocks fl = weigh (λ size. 1) fl

weigh_queue-push :
    (w addr : ℕ) (queue : List ℕ) → weigh_queue w (push_queue addr queue) ≡ w + weigh_queue w queue
unfolding weigh_queue push_queue
weigh_queue-push w addr [] = refl
weigh_queue-push w addr (a ∷ queue) = ground (arith, weigh_queue-push w addr queue)

weigh-push :
    (w : ℕ → ℕ) (size addr : ℕ) (fl : FreeList) → weigh w (push size addr fl) ≡ w size + weigh w fl
unfolding weigh weigh_queue push
weigh-push w size addr [] = ground arith
weigh-push w size addr ((k, queue) ∷ rest) =
    ground (
      arith,
      weigh_queue-push (w k) addr queue,
      weigh-push w size addr rest,
      ap w {x = k} {y = size},
    )

weigh-pop_queue :
    (w : ℕ → ℕ) (k : ℕ) (queue : List ℕ) (rest : FreeList) (a : ℕ) (fl : FreeList)
    → pop_queue k queue rest ≡ some (a, fl)
    → weigh_queue (w k) queue + weigh w rest ≡ w k + weigh w fl
unfolding pop_queue weigh weigh_queue
weigh-pop_queue w k [] rest a fl e = absurd (cc e)
weigh-pop_queue w k (b ∷ []) rest a fl e = ground (arith, e)
weigh-pop_queue w k (b ∷ c ∷ queue) rest a fl e = ground (arith, e)

weigh-pop :
    (w : ℕ → ℕ) (size : ℕ) (fl : FreeList) (a : ℕ) (fl' : FreeList)
    → pop size fl ≡ some (a, fl')
    → weigh w fl ≡ w size + weigh w fl'
unfolding pop weigh
weigh-pop w size [] a fl' e = absurd (cc e)
weigh-pop w size ((k, queue) ∷ rest) a fl' e = elim (Bool-cases (k == size)) [
  | inl same ↦
      ground (arith, same, e, weigh-pop_queue w k queue rest a fl', ap w {x = k} {y = size})
  | inr other ↦
      let (rest', found, left) = pop-further size k a queue rest fl' other e in
      ground (arith, left, weigh-pop w size rest a rest' found)
]

-- Every size in the list has a block.
abbrev pub NonEmpty : FreeList → Type 0
NonEmpty [] = Unit {0}
NonEmpty ((k, queue) ∷ rest) = (queue ≢ []) × NonEmpty rest

abbrev pub IsAccounted : FilePool → Type 0
IsAccounted p =
    (p.user_space_size ≡ bytes p.free_list)
    × (p.block_size ≡ blocks p.free_list)
    × (bytes p.free_list < u64_mod)
    × (blocks p.free_list < u64_mod)

-- Freeing a block of less than 2^32 bytes keeps the accounts right: the bytes and the blocks counted are
-- those of the free list, as long as they fit 64 bits with the new block.
pub do_free-IsAccounted :
    (aligned : ℕ → ℕ) (p : FilePool) (a size : ℕ)
    → IsAccounted p
    → aligned size < u32_mod
    → bytes p.free_list + aligned size < u64_mod
    → blocks p.free_list + 1 < u64_mod
    → IsAccounted (do_free aligned p a size)
unfolding do_free
do_free-IsAccounted aligned p a size v small fits fits' = elim (Bool-cases p.use_free_list) [
  | inl used ↦ simp used (
    omega (arith, v.0, weigh-push (λ s. s) (aligned size) a p.free_list),
    omega (arith, v.1, weigh-push (λ s. 1) (aligned size) a p.free_list),
    omega (arith, weigh-push (λ s. s) (aligned size) a p.free_list),
    omega (arith, weigh-push (λ s. 1) (aligned size) a p.free_list),
  )
  | inr unused ↦ simp unused v
]

module _ (aligned : ℕ → ℕ) (expands : ℕ → ℕ → Bool) where
  alloc_from_store-IsAccounted :
      (p : FilePool) (n : ℕ) → IsAccounted p → IsAccounted (alloc_from_store aligned expands p n).1
  unfolding alloc_from_store
  alloc_from_store-IsAccounted p n v = elim (Option-cases p.store) [
    | inl closed ↦ rw closed v
    | inr (pos, e) ↦
        rw e (elim (Bool-cases (expands pos n)) [ inl grown ↦ rw grown v | inr full ↦ rw full v ])
  ]

  -- An allocation keeps right accounts right, wherever the block comes from, and if none is given.
  pub do_alloc-IsAccounted :
      (p : FilePool) (size : ℕ) → IsAccounted p → IsAccounted (do_alloc aligned expands p size).1
  unfolding do_alloc alloc_from_store
  do_alloc-IsAccounted p size v = elim (Bool-cases p.use_free_list) [
    | inl used ↦ elim (Option-cases (pop (aligned size) p.free_list)) [
      | inl nothing ↦ simp (used, nothing) (alloc_from_store-IsAccounted p (aligned size) v)
      | inr (r, found) ↦
          let user = weigh-pop (λ s. s) (aligned size) p.free_list r.0 r.1 found in
          let count = weigh-pop (λ s. 1) (aligned size) p.free_list r.0 r.1 found in
          let q : FilePool = record p {
            free_list = r.1;
            block_size = (p.block_size + (u64_mod - 1)) % u64_mod;
            user_space_size = (p.user_space_size + (u64_mod - aligned size)) % u64_mod;
          } in
          let v' : IsAccounted q = (
            omega (arith, v.0, v.2, user),
            omega (arith, v.1, v.3, count),
            omega (arith, v.2, user),
            omega (arith, v.3, count),
          ) in
          simp (used, found)
            (elim (Bool-cases (r.0 == 0)) [
              | inl null ↦ simp null (alloc_from_store-IsAccounted q (aligned size) v')
              | inr given ↦ simp given v'
            ])
    ]
    | inr unused ↦ simp unused (alloc_from_store-IsAccounted p (aligned size) v)
  ]

below :
    (size a k : ℕ) (queue : List ℕ) (rest : FreeList)
    → (k == size) ≡ false
    → ((b : ℕ) (r : FreeList) → pop size ((k, queue) ∷ rest) ≡ some (b, r) → b < a)
    → (b : ℕ) (r : FreeList) → pop size rest ≡ some (b, r)
    → b < a
unfolding pop
below size a k queue rest other h b r e = h b ((k, queue) ∷ r) (ground (arith, other, e))

-- The block freed last is the first of its size, if it lies above the others of that size.
pop-push :
    (size a : ℕ) (fl : FreeList)
    → NonEmpty fl
    → ((b : ℕ) (r : FreeList) → pop size fl ≡ some (b, r) → b < a)
    → pop size (push size a fl) ≡ some (a, fl)
unfolding pop push pop_queue push_queue
pop-push size a [] ne h = ground arith
pop-push size a ((k, []) ∷ rest) ne h = absurd (ne.0 refl)
pop-push size a ((k, b ∷ []) ∷ rest) ne h = elim (Bool-cases (k == size)) [
  | inl same ↦ ground (arith, same, h b rest)
  | inr other ↦
      ground (arith, other, pop-push size a rest ne.1 (below size a k (b ∷ []) rest other h))
]
pop-push size a ((k, b ∷ c ∷ queue) ∷ rest) ne h = elim (Bool-cases (k == size)) [
  | inl same ↦ ground (arith, same, h b ((k, c ∷ queue) ∷ rest))
  | inr other ↦
      ground (arith, other, pop-push size a rest ne.1 (below size a k (b ∷ c ∷ queue) rest other h))
]

-- In a pool that uses its free list, with right accounts and no empty queue, a block of less than 2^32
-- bytes, not at 0, that is freed is the next one given for its size, if every free block of that size
-- lies below it and the accounts fit 64 bits with it; the pool is then as it was before.
pub do_alloc-do_free :
    (aligned : ℕ → ℕ) (expands : ℕ → ℕ → Bool) (p : FilePool) (a size : ℕ)
    → p.use_free_list ≡ true
    → 0 < a
    → IsAccounted p
    → aligned size < u32_mod
    → bytes p.free_list + aligned size < u64_mod
    → blocks p.free_list + 1 < u64_mod
    → NonEmpty p.free_list
    → ((b : ℕ) (r : FreeList) → pop (aligned size) p.free_list ≡ some (b, r) → b < a)
    → do_alloc aligned expands (do_free aligned p a size) size ≡ (some a, p)
unfolding do_alloc do_free
do_alloc-do_free aligned expands p a size used pos v small fits fits' ne h =
    let user : ((p.user_space_size + aligned size % u32_mod) % u64_mod + (u64_mod - aligned size))
          % u64_mod
        ≡ p.user_space_size =
      omega (arith, v.0, v.2) in
    let count : ((p.block_size + 1) % u64_mod + (u64_mod - 1)) % u64_mod ≡ p.block_size =
      omega (arith, v.1, v.3) in
    ground (arith, used, pos, user, count, pop-push (aligned size) a p.free_list ne h)

-- ===== src/Arena/Items.antt =====
-- The items of a slab of kernel/pool/arena_buddy_pool/slab_mem_table.h: one after another, and as many as fit.
use native.Mathlib.Nat.{div-mul-le_self, div-le_self, mul-le-mul_right, mod-eq_of_lt}
use ad_index.Base.{
  ℕ, zero, suc, ◌+◌, ◌-◌, ◌*◌, ◌/◌, ◌%◌, ◌<◌, ◌≤◌, ◌≡◌, refl, ap, ◌∙◌, ltb, ltb→lt, if◌then◌else◌,
  Bool-cases, inl, inr, min, arith, u32_mod,
}
use ad_index.Arena.Slab.{SlabHead, head_size, init_slab, alloc_block}

-- A slab after so many requests.
unfoldable pub alloc_blocks : ℕ → SlabHead → SlabHead
alloc_blocks zero s = s
alloc_blocks (suc n) s = (alloc_block (alloc_blocks n s)).1

alloc_block-use :
    (u : ℕ) (s : SlabHead)
    → (alloc_block (record s { use_item = u })).1
      ≡ record s { use_item = if ltb u s.max_item_num then (u + 1) % u32_mod else u }
unfolding alloc_block
alloc_block-use u s = elim (Bool-cases (ltb u s.max_item_num)) [
  | inl below ↦ rw below refl
  | inr full ↦ rw full refl
]

alloc_blocks-use :
    (n : ℕ) (s : SlabHead)
    → s.use_item ≡ 0
    → s.max_item_num < u32_mod
    → alloc_blocks n s ≡ record s { use_item = min n s.max_item_num }
unfolding alloc_blocks
alloc_blocks-use zero s none_used small =
    ap (λ u. record s { use_item = u }) (ground (arith, none_used))
alloc_blocks-use (suc n) s none_used small =
    ap (λ s'. (alloc_block s').1) (alloc_blocks-use n s none_used small)
    ∙ (alloc_block-use (min n s.max_item_num) s
        ∙ ap (λ u. record s { use_item = u }) (ground (arith, small)))

item_fits :
    (n size max : ℕ) → n < max → max * size ≤ 4096 - head_size → size * n + size ≤ 4096 - head_size
item_fits n size max below fits = omega (arith, fits, mul-le-mul_right size below)

-- What a slab gives after so many requests.
item_at :
    (n : ℕ) (s : SlabHead)
    → s.max_item_num * s.item_size ≤ 4096 - head_size
    → (alloc_block (record s { use_item = min n s.max_item_num })).0
      ≡ (if ltb n s.max_item_num then s.begin + head_size + s.item_size * n else 0)
unfolding alloc_block
item_at n s fits = elim (Bool-cases (ltb n s.max_item_num)) [
  | inl below ↦
      let first : min n s.max_item_num ≡ n = ground (arith, below) in
      let room = item_fits n s.item_size s.max_item_num (ltb→lt n s.max_item_num below) fits in
      rw (first, below) (ap (λ o. s.begin + head_size + o) (mod-eq_of_lt (omega (arith, room))))
  | inr full ↦ rw full (ground (arith, full))
]

init_slab-is :
    (addr size : ℕ)
    → size < 4096
    → init_slab addr size ≡ record {
      begin = addr;
      end = addr + 4096;
      current = addr + head_size;
      item_size = size;
      use_item = 0;
      max_item_num = (4096 - head_size) / size;
    }
unfolding init_slab
init_slab-is addr size small =
    rw (mod-eq_of_lt {n = size} {m = u32_mod} (omega (arith, small))) refl

item_inside :
    (n size max addr : ℕ)
    → size < 4096
    → max * size ≤ 4096 - head_size
    → (if ltb n max then addr + head_size + size * n else 0) + size ≤ addr + 4096
item_inside n size max addr small fits = elim (Bool-cases (ltb n max)) [
  | inl below ↦ rw below (omega (arith, item_fits n size max (ltb→lt n max below) fits))
  | inr full ↦ rw full (omega (arith, small))
]

-- The items of some size below 4096 that a slab gives, request by request, are one behind the other, as many as fit
-- behind its head, then none, and each lies inside the slab.
pub alloc_block-alloc_blocks :
    (n addr size : ℕ)
    → 0 < size
    → size < 4096
    → let item = (alloc_block (alloc_blocks n (init_slab addr size))).0 in
      (item ≡ (if ltb n ((4096 - head_size) / size) then addr + head_size + size * n else 0))
      × (item + size ≤ addr + 4096)
alloc_block-alloc_blocks n addr size positive small =
    let max = (4096 - head_size) / size in
    let s : SlabHead = record {
      begin = addr;
      end = addr + 4096;
      current = addr + head_size;
      item_size = size;
      use_item = 0;
      max_item_num = max;
    } in
    let fits = div-mul-le_self (4096 - head_size) size in
    let given =
      ap (λ s'. (alloc_block (alloc_blocks n s')).0) (init_slab-is addr size small)
      ∙ (ap (λ s'. (alloc_block s').0)
            (alloc_blocks-use n s refl (omega (arith, div-le_self (4096 - head_size) size)))
          ∙ item_at n s fits) in
    (given, rw given (item_inside n size max addr small fits))

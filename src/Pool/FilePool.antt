-- ===== src/Pool/FilePool.antt =====
-- `FilePool` of kernel/pool/file_pool.{h,cc}: allocation and release of blocks. An address is an offset
-- into the store, and 0 is nullptr.
use ad_index.Base.{
  ℕ, ◌+◌, ◌-◌, ◌%◌, Bool, not, Option, none, some, ◌==◌, if◌then◌else◌, u64_mod, u32_mod,
}
use ad_index.Pool.FreeList.{FreeList, push, pop}

-- The store is its size, `none` for nullptr.
pub record FilePool : Type 0 where
  pub use_free_list : Bool
  pub user_space_size : ℕ
  pub block_size : ℕ
  pub free_list : FreeList
  pub store : Option ℕ

-- `GetAlignedSize`, which a derived pool may override, and whether the store at a size expands by so
-- much.
module _ (aligned : ℕ → ℕ) (expands : ℕ → ℕ → Bool) where
  unfoldable pub alloc_from_store : FilePool → ℕ → Option ℕ × FilePool
  alloc_from_store p size = elim p.store [
    | none ↦ (none, p)
    | some pos ↦
        if expands pos size then (some pos, record p { store = some (pos + size) }) else (none, p)
  ]

  unfoldable pub do_alloc : FilePool → ℕ → Option ℕ × FilePool
  do_alloc p size =
      if p.use_free_list
      then elim (pop (aligned size) p.free_list) [
        | none ↦ alloc_from_store p (aligned size)
        | some r ↦
            let p' : FilePool = record p {
              free_list = r.1;
              block_size = (p.block_size + (u64_mod - 1)) % u64_mod;
              user_space_size = (p.user_space_size + (u64_mod - aligned size)) % u64_mod;
            } in
            if r.0 == 0 then alloc_from_store p' (aligned size) else (some r.0, p')
      ]
      else alloc_from_store p (aligned size)

module _ (aligned : ℕ → ℕ) where
  -- `Block::size` is a uint32_t.
  unfoldable pub do_free : FilePool → ℕ → ℕ → FilePool
  do_free p addr size = if not p.use_free_list then p else record p {
    free_list = push (aligned size) addr p.free_list;
    user_space_size = (p.user_space_size + aligned size % u32_mod) % u64_mod;
    block_size = (p.block_size + 1) % u64_mod;
  }

-- ===== src/Arena/Headers.antt =====
-- `AreanaBuddyPool` of kernel/pool/arena_buddy_pool/arena_buddy_pool.{h,cc}: four bytes before a block hold its size. The
-- heap is an argument by its operations, and so is the store; addresses are offsets from `GetMMapDataBegin()`. The store
-- is there: the branches for a null pointer are left out.
use ad_index.Base.{
  ℕ, ◌+◌, ◌-◌, ◌%◌, ◌^◌, Bool, false, List, Option, none, some, ltb, if◌then◌else◌, length, u32_mod,
  u64_mod, Bytes, put_bytes, get_bytes, bytes_of, number, Run, done, fault,
}

pub record BuddyPool {ℓ} (H : Type ℓ) : Type ℓ where
  pub heap : H
  pub memory : Bytes

-- `AreanaBuddyDataHeader::size`, an int32_t, by its bits.
unfoldable pub get_header : Bytes → ℕ → ℕ
get_header memory a = number (get_bytes memory a 4)

unfoldable pub put_header : Bytes → ℕ → ℕ → Bytes
put_header memory a size = put_bytes memory a (bytes_of 4 (size % u32_mod))

-- An int32_t as a size_t.
unfoldable pub sign_extended : ℕ → ℕ
sign_extended n = if ltb n (2 ^ 31) then n else n + (u64_mod - u32_mod)

-- Signed `a < b` on int32_t.
unfoldable pub lt_i32 : ℕ → ℕ → Bool
lt_i32 a b = ltb ((a + 2 ^ 31) % u32_mod) ((b + 2 ^ 31) % u32_mod)

-- The size before the block that the heap gave.
abbrev pub put_size {ℓ} : {H : Type ℓ} → ℕ → Bytes → Option ℕ × H → Option ℕ × BuddyPool H
put_size size memory (none, h) = (none, record { heap = h; memory = memory })
put_size size memory (some a, h) =
    (some (a + 4), record { heap = h; memory = put_header memory a size })

module _ {ℓ} {H : Type ℓ} (alloc_data : ℕ → H → Option ℕ × H) where
  -- `none` is nullptr.
  unfoldable pub do_alloc : ℕ → BuddyPool H → Option ℕ × BuddyPool H
  do_alloc size p = put_size size p.memory (alloc_data ((size + 4) % u64_mod) p.heap)

  module _ (store_write : ℕ → List ℕ → Bytes → Bool × Bytes) where
    -- `NewDataLen` writes the header before it looks at what it was given: ERROR_ALLOC_ADDR is no address.
    unfoldable pub new_data_len : List ℕ → BuddyPool H → Run (Option ℕ × BuddyPool H)
    new_data_len bytes p =
        let r = alloc_data ((length bytes + 4) % u64_mod) p.heap in
        elim r.0 [
          | none ↦ fault
          | some a ↦
              let w = store_write (a + 4) bytes (put_header p.memory a (length bytes)) in
              done (if w.0 then some (a + 4) else none, record { heap = r.1; memory = w.1 })
        ]

    -- `NewData`; `none` is -1.
    unfoldable pub new_data : List ℕ → BuddyPool H → Option ℕ × BuddyPool H
    new_data bytes p =
        let r = do_alloc (length bytes) p in
        elim r.0 [
          | none ↦ (none, r.1)
          | some addr ↦
              let w = store_write addr bytes (put_header r.1.memory (addr - 4) (length bytes)) in
              (if w.0 then some addr else none, record r.1 { memory = w.1 })
        ]

module _ {ℓ} {H : Type ℓ} where
  unfoldable pub write :
      (ℕ → List ℕ → Bytes → Bool × Bytes) → ℕ → List ℕ → BuddyPool H → Bool × BuddyPool H
  write store_write addr bytes p =
      if lt_i32 (get_header p.memory (addr - 4)) (length bytes % u32_mod)
      then (false, p)
      else let w = store_write addr bytes (put_header p.memory (addr - 4) (length bytes)) in
        (w.0, record p { memory = w.1 })

  -- What the store reads, at the size in the header; the length asked for is not used.
  unfoldable pub read_data :
      (ℕ → ℕ → Bytes → Option (List ℕ)) → ℕ → ℕ → BuddyPool H → Option (List ℕ)
  read_data store_read addr len p =
      store_read addr (sign_extended (get_header p.memory (addr - 4))) p.memory

  -- The size that is passed to it is not used.
  unfoldable pub do_free : (ℕ → ℕ → H → Bool × H) → ℕ → ℕ → BuddyPool H → Bool × BuddyPool H
  do_free free addr size p =
      let r =
        free (addr - 4) ((sign_extended (get_header p.memory (addr - 4)) + 4) % u64_mod) p.heap in
      (r.0, record p { heap = r.1 })

-- ===== src/Pool/VariableLength.antt =====
-- `VariableLengthPool::Write` and `Read` of kernel/pool/variable_length_pool.cc, on `MMapStore::Write` and
-- `Read` of kernel/store/mmap_store.cc. An address is a number, and 0 is nullptr.
use ad_index.Base.{
  ℕ, ◌+◌, ◌-◌, ◌*◌, ◌/◌, ◌%◌, ◌^◌, Bool, true, false, ◌&&◌, List, [], ◌∷◌, Option, none, some, ltb,
  leb, ◌==◌, if◌then◌else◌, length, min, Bytes, put_bytes, get_bytes, u32_mod, u64_mod,
}

-- A field of four bytes, the lowest first.
unfoldable pub get_u32 : Bytes → ℕ → ℕ
get_u32 memory addr =
    memory addr
    + 2 ^ 8 * memory (addr + 1)
    + 2 ^ 16 * memory (addr + 2)
    + 2 ^ 24 * memory (addr + 3)

unfoldable pub put_u32 : Bytes → ℕ → ℕ → Bytes
put_u32 memory addr n =
    put_bytes memory addr
      (n % 2 ^ 8 ∷ n / 2 ^ 8 % 2 ^ 8 ∷ n / 2 ^ 16 % 2 ^ 8 ∷ n / 2 ^ 24 % 2 ^ 8 ∷ [])

pub record MMapStore : Type 0 where
  pub base : ℕ
  pub mmap_size : ℕ
  pub file_size : ℕ
  pub memory : Bytes

-- `FileStore::Write` at an offset of the file, for what lies beyond the mapping: whether it succeeds.
module _ (file_write : ℕ → List ℕ → Bool) where
  unfoldable pub store_write : MMapStore → ℕ → List ℕ → Bool × MMapStore
  store_write s addr content =
      if s.base == 0
      then (false, s)
      else if ltb addr s.base
      then (false, s)
      else if ltb (s.base + min s.file_size s.mmap_size) (addr + length content)
      then (file_write (addr - s.base) content, s)
      else (true, record s { memory = put_bytes s.memory addr content })

  -- The comparison is of two int32_t.
  unfoldable pub write : Option MMapStore → ℕ → List ℕ → Bool × Option MMapStore
  write none header content = (false, none)
  write (some s) header content =
      if header == 0
      then (false, some s)
      else if ltb ((get_u32 s.memory header + 2 ^ 31) % u32_mod)
          ((length content % u32_mod + 2 ^ 31) % u32_mod)
      then (false, some s)
      else let r =
          store_write (record s { memory = put_u32 s.memory header (length content % u32_mod) })
            (header + 4) content in
        (r.0, some r.1)

unfoldable pub store_read : MMapStore → ℕ → ℕ → Option (List ℕ)
store_read s addr len =
    if s.base == 0
    then none
    else if leb s.base addr && leb (addr + len) (s.base + s.mmap_size)
    then some (get_bytes s.memory addr len)
    else none

-- The size of the header, an int32_t, becomes a size_t.
unfoldable pub read : Option MMapStore → ℕ → Option (List ℕ)
read none header = none
read (some s) header =
    if header == 0
    then none
    else let size = get_u32 s.memory header in
      store_read s (header + 4) (if ltb size (2 ^ 31) then size else size + (u64_mod - u32_mod))

-- ===== src/Pool/Reading.antt =====
-- What was written into a block of a `VariableLengthPool` is what is read.
use ad_index.Base.{
  ℕ, ◌+◌, ◌%◌, ◌^◌, ◌<◌, ◌≤◌, ◌≡◌, ◌∙◌, Bool, true, false, List, some, length, min, Bytes,
  put_bytes, get_bytes-put_bytes, put_outside, u32_mod, arith,
}
use ad_index.Pool.VariableLength.{get_u32, put_u32, MMapStore, store_write, write, store_read, read}

get_u32-put_u32 :
    (memory : Bytes) (addr n : ℕ) → n < u32_mod → get_u32 (put_u32 memory addr n) addr ≡ n
unfolding get_u32 put_u32 put_bytes
get_u32-put_u32 memory addr n h = ground (arith, h)

get_u32-put_behind :
    (memory : Bytes) (addr : ℕ) (content : List ℕ)
    → get_u32 (put_bytes memory (addr + 4) content) addr ≡ get_u32 memory addr
unfolding get_u32 put_bytes
get_u32-put_behind memory addr content = ground arith

module _ (file_write : ℕ → List ℕ → Bool) (s : MMapStore) (header : ℕ) (content : List ℕ)
    (mapped : 0 < s.base) (above : s.base ≤ header) where
  abbrev stored_back : MMapStore
  stored_back = record s {
    memory = put_bytes (put_u32 s.memory header (length content % u32_mod)) (header + 4) content;
  }

  -- Data that fits the block and the mapping is written, and is what is read then; no other byte changes.
  pub write-read :
      length content ≤ get_u32 s.memory header
      → get_u32 s.memory header < 2 ^ 31
      → header + 4 + length content ≤ s.base + min s.file_size s.mmap_size
      → (s' : MMapStore) × (write file_write (some s) header content ≡ (true, some s'))
        × (read (some s') header ≡ some content)
        × ((j : ℕ) → j < header → s'.memory j ≡ s.memory j)
        × ((j : ℕ) → header + 4 + length content ≤ j → s'.memory j ≡ s.memory j)
  unfolding write store_write read store_read put_u32
  write-read fits small room = (
    stored_back,
    ground (arith, fits, small, room, mapped, above),
    reads,
    (λ j l.
        (put_outside _ (header + 4) j content).0 (omega (arith, l))
        ∙ (put_outside s.memory header j _).0 l),
    λ j l.
        (put_outside _ (header + 4) j content).1 l
        ∙ (put_outside s.memory header j _).1 (omega (arith, l)),
  )
    where
      size : get_u32 stored_back.memory header ≡ length content
      size =
          get_u32-put_behind _ header content
          ∙ (get_u32-put_u32 s.memory header (length content % u32_mod) (omega arith)
              ∙ omega (arith, fits, small))

      reads : read (some stored_back) header ≡ some content
      reads = ground (
        arith,
        size,
        fits,
        small,
        room,
        mapped,
        above,
        get_bytes-put_bytes (put_u32 s.memory header (length content % u32_mod)) (header + 4)
            content,
      )

  -- Data that is longer than the block is refused, and nothing changes.
  pub write_refused :
      get_u32 s.memory header < length content
      → length content < 2 ^ 31
      → write file_write (some s) header content ≡ (false, some s)
  unfolding write
  write_refused long small = ground (arith, long, small, mapped, above)

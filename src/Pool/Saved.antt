-- ===== src/Pool/Saved.antt =====
-- `DumpFreeList` and `LoadFreeList` of kernel/pool/file_pool.cc and kernel/pool/mmap_pool.cc, which keep the
-- free list in a file. The two pools differ in `base`: a MMapPool writes addresses from
-- GetMMapDataBegin on, a FilePool from 0 on.
use ad_index.Base.{
  ℕ, zero, suc, ◌+◌, ◌-◌, ◌*◌, ◌%◌, Bool, true, false, not, ◌||◌, List, [], ◌∷◌, ◌++◌, map, ◌==◌,
  if◌then◌else◌, length, take, drop, u32_mod, u64_mod, bytes_of, number, Run, done, out_of_fuel,
  ◌>>=◌,
}
use ad_index.Store.File.{
  operate, Disk, System, FileStore, new_store, open_file, write_file, read_file, truncate_file,
}
use ad_index.Pool.FreeList.{FreeList, push}
use ad_index.Pool.FilePool.{FilePool}

-- The file that is written, how far, and how many blocks were counted.
pub record Writing : Type 0 where
  pub store : FileStore
  pub disk : Disk
  pub pos : ℕ
  pub count : ℕ

-- `data.data` after so many bytes were read into it.
unfoldable pub over : List ℕ → List ℕ → List ℕ
over [] buffer = buffer
over (b ∷ bs) [] = []
over (b ∷ bs) (c ∷ buffer) = b ∷ over bs buffer

-- The members of a `Block` in its bytes.
unfoldable pub block_addr : List ℕ → ℕ
block_addr block = number (take 8 block)

unfoldable pub block_size : List ℕ → ℕ
block_size block = number (take 4 (drop 12 block))

-- The queues after all blocks were taken out.
unfoldable pub emptied : FreeList → FreeList
emptied fl = map (λ entry. (entry.0, [])) fl

-- `Block::timestamp` is never set: `stamp` says what it is in a block.
module _ (os : System) (stamp : ℕ → ℕ) (base : ℕ) where
  unfoldable pub block_bytes : ℕ → ℕ → List ℕ
  block_bytes size addr = bytes_of 8 addr ++ bytes_of 4 (stamp addr) ++ bytes_of 4 size

  abbrev pub offset_of : ℕ → ℕ
  offset_of addr = (addr + (u64_mod - base)) % u64_mod

  abbrev pub addr_of : ℕ → ℕ
  addr_of offset = (base + offset) % u64_mod

  -- One round of the loop over a queue: whether the block is taken out. The count grows anyway.
  unfoldable pub write_block : ℕ → Writing → ℕ → Bool × Writing
  write_block size w addr =
      let r = write_file os w.store w.disk w.pos (block_bytes size (offset_of addr)) in
      let w' : Writing = record w { store = r.1; disk = r.2; count = (w.count + 1) % u64_mod } in
      if operate r.0 then (true, record w' { pos = (w.pos + 16) % u64_mod }) else (false, w')

  -- A block that cannot be written is tried again.
  unfoldable pub write_queue : ℕ → ℕ → Writing → List ℕ → Run Writing
  write_queue fuel size w [] = done w
  write_queue zero size w (a ∷ queue) = out_of_fuel
  write_queue (suc fuel) size w (a ∷ queue) =
      let r = write_block size w a in
      elim r.0 [
        | true ↦ write_queue fuel size r.1 queue
        | false ↦ write_queue fuel size r.1 (a ∷ queue)
      ]

  -- `Block::size` is the size as a uint32_t.
  unfoldable pub write_list : ℕ → Writing → FreeList → Run Writing
  write_list fuel w [] = done w
  write_list fuel w ((size, queue) ∷ rest) =
      write_queue fuel (size % u32_mod) w queue >>= λ w'. write_list fuel w' rest

  -- What follows the loops.
  unfoldable pub finish_dump : FilePool → Writing → Bool × FilePool × Disk
  finish_dump p w =
      let t = write_file os w.store w.disk 0 (bytes_of 8 w.count) in
      if not (operate t.0)
      then (false, record p { free_list = emptied p.free_list }, t.2)
      else let u = truncate_file os t.1 t.2 ((8 + w.count * 16) % u64_mod) in
        (true, record p { free_list = []; user_space_size = 0 }, u.1)

  unfoldable pub dump_free_list : ℕ → FilePool → Bool → Disk → List ℕ → Run (Bool × FilePool × Disk)
  dump_free_list fuel p read_only disk name =
      if read_only || p.user_space_size == 0
      then done (true, p, disk)
      else let r = open_file os new_store disk name false in
        if not (operate r.0)
        then done (false, p, r.2)
        else write_list fuel (record { store = r.1; disk = r.2; pos = 8; count = 0 }) p.free_list
          >>= λ w. done (finish_dump p w)

  unfoldable pub relocated : List ℕ → List ℕ
  relocated block = bytes_of 8 (addr_of (block_addr block)) ++ drop 8 block

  unfoldable pub take_in : List ℕ → FilePool → FilePool
  take_in block p = record p {
    free_list = push (block_size block) (block_addr block) p.free_list;
    user_space_size = (p.user_space_size + block_size block) % u64_mod;
  }

  -- A read of fewer bytes leaves the rest of the block before, and is taken in.
  unfoldable pub load_blocks : ℕ → FileStore → Disk → ℕ → List ℕ → FilePool → FilePool
  load_blocks zero s disk pos block p = p
  load_blocks (suc n) s disk pos block p =
      let r = read_file os s disk pos 16 in
      let block' = relocated (over r.1 block) in
      elim (operate r.0) [
        | true ↦ load_blocks n s disk ((pos + length r.1) % u64_mod) block' (take_in block' p)
        | false ↦ load_blocks n s disk pos (over r.1 block) p
      ]

  -- The buffer for a block starts with bytes that were not set.
  unfoldable pub load_free_list : FilePool → Disk → List ℕ → List ℕ → Bool × FilePool × Disk
  load_free_list p disk name buffer =
      let r = open_file os new_store disk name false in
      if not (operate r.0)
      then (false, p, r.2)
      else let q : FilePool = record p { free_list = [] } in
        let t = read_file os r.1 r.2 0 8 in
        if not (operate t.0) then (false, q, r.2) else (
          true,
          load_blocks (number (over t.1 (bytes_of 8 0))) r.1 r.2 (length t.1) buffer q,
          r.2,
        )

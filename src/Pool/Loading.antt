-- ===== src/Pool/Loading.antt =====
-- What `LoadFreeList` takes in of the blocks in a file.
use ad_index.Base.{
  ℕ, suc, ◌+◌, ◌-◌, ◌*◌, ◌%◌, ◌^◌, ◌<◌, ◌≡◌, refl, sym, ap, ap₂, ◌∙◌, Bool, true, false, List, [],
  ◌∷◌, some, length, take, u32_mod, u64_mod, bytes_of, number, number-bytes_of_8, arith,
}
use ad_index.Store.File.{StatusCode, success, Disk, file_at, System, FileStore, operate, read_file}
use ad_index.Store.Reading.{Works, read_file-all}
use ad_index.Pool.FilePool.{FilePool}
use ad_index.Pool.Saved.{
  over, block_addr, block_size, block_bytes, offset_of, addr_of, relocated, take_in, load_blocks,
}
use ad_index.Pool.Totals.{list_blocks, total, total-push}
use ad_index.Pool.Blocks.{Holds}

pub over_all : (xs buffer : List ℕ) → length xs ≡ length buffer → over xs buffer ≡ xs
unfolding over
over_all [] [] e = refl
over_all [] (c ∷ buffer) e = absurd (omega (arith, e))
over_all (b ∷ bs) [] e = absurd (omega (arith, e))
over_all (b ∷ bs) (c ∷ buffer) e = ap (λ l. b ∷ l) (over_all bs buffer (omega (arith, e)))

-- The address that a block has in a pool whose memory begins at `base'`.
abbrev pub moved : ℕ → ℕ → ℕ → ℕ
moved base base' a = (base' + (a + (u64_mod - base)) % u64_mod) % u64_mod

module _ (base base' : ℕ) where
  -- What was taken in: the blocks at the addresses they have now, each size as a uint32_t.
  pub record Loaded (p q : FilePool) (blocks : List (ℕ × ℕ)) : Type 0 where
    pub list :
        (weight : ℕ → ℕ → ℕ)
        → total weight (list_blocks q.free_list)
          ≡ total (λ size a. weight (size % u32_mod) (moved base base' a)) blocks
            + total weight (list_blocks p.free_list)
    pub sizes :
        q.user_space_size ≡ (p.user_space_size + total (λ size a. size % u32_mod) blocks) % u64_mod

module _ (os : System) (works : Works os) (stamp stamp' : ℕ → ℕ) (base base' : ℕ) where
  abbrev content : ℕ → ℕ → List ℕ
  content size a = block_bytes os stamp base (size % u32_mod) (offset_of os stamp base a)

  length-relocated : (size a : ℕ) → length (relocated os stamp' base' (content size a)) ≡ 16
  unfolding relocated block_bytes bytes_of
  length-relocated size a = refl

  block_addr-relocated :
      (size a : ℕ) → block_addr (relocated os stamp' base' (content size a)) ≡ moved base base' a
  unfolding relocated block_bytes bytes_of block_addr
  block_addr-relocated size a =
      number-bytes_of_8 (addr_of os stamp' base' (number (take 8 (content size a)))) (omega arith)
      ∙ ap (addr_of os stamp' base') (number-bytes_of_8 (offset_of os stamp base a) (omega arith))

  block_size-relocated :
      (size a : ℕ) → block_size (relocated os stamp' base' (content size a)) ≡ size % u32_mod
  unfolding relocated block_bytes bytes_of block_size number
  block_size-relocated size a = omega arith

  load_blocks-step :
      (n : ℕ) (s : FileStore) (disk : Disk) (pos : ℕ) (block bytes : List ℕ) (p : FilePool)
      → read_file os s disk pos 16 ≡ (success, bytes)
      → over bytes block ≡ bytes
      → (pos + length bytes) % u64_mod ≡ pos + 16
      → load_blocks os stamp' base' (suc n) s disk pos block p
        ≡ load_blocks os stamp' base' n s disk
            (pos + 16)
            (relocated os stamp' base' bytes)
            (take_in os stamp' base' (relocated os stamp' base' bytes) p)
  unfolding load_blocks operate
  load_blocks-step n s disk pos block bytes p e over_eq pos_eq =
      ap
        (λ (r : StatusCode × List ℕ). elim (operate r.0) [
          | true ↦
              load_blocks os stamp' base' n s disk ((pos + length r.1) % u64_mod)
                (relocated os stamp' base' (over r.1 block))
                (take_in os stamp' base' (relocated os stamp' base' (over r.1 block)) p)
          | false ↦ load_blocks os stamp' base' n s disk pos (over r.1 block) p
        ])
        e
      ∙ rw over_eq (rw pos_eq refl)

  take_in-small :
      (block : List ℕ) (p : FilePool) → (take_in os stamp' base' block p).user_space_size < u64_mod
  unfolding take_in
  take_in-small block p = omega arith

  length-content : (size a : ℕ) → length (content size a) ≡ 16
  unfolding block_bytes bytes_of
  length-content size a = refl

  Loaded-none :
      (s : FileStore) (disk : Disk) (pos : ℕ) (block : List ℕ) (p : FilePool)
      → p.user_space_size < u64_mod
      → Loaded base base' p (load_blocks os stamp' base' 0 s disk pos block p) []
  unfolding load_blocks
  Loaded-none s disk pos block p small = record {
    list = λ weight. omega arith;
    sizes = omega (arith, small);
  }

  Loaded-step :
      (p q : FilePool) (size a : ℕ) (blocks : List (ℕ × ℕ)) (block : List ℕ)
      → block_addr block ≡ moved base base' a
      → block_size block ≡ size % u32_mod
      → Loaded base base' (take_in os stamp' base' block p) q blocks
      → Loaded base base' p q ((size, a) ∷ blocks)
  unfolding take_in
  Loaded-step p q size a blocks block addr_eq size_eq h = record {
    list = λ weight. omega (
      arith,
      h.list weight,
      total-push weight (block_size block) (block_addr block) p.free_list,
      ap₂ weight size_eq addr_eq,
    );
    sizes = omega (arith, h.sizes, size_eq);
  }

  pub load_blocks-Loaded :
      (blocks : List (ℕ × ℕ)) (s : FileStore) (disk : Disk) (pos : ℕ) (block : List ℕ)
      (p : FilePool) (r : Bool)
      → s.fd ≡ some r
      → Holds stamp base os (file_at disk s.name) pos blocks
      → length block ≡ 16
      → pos + 16 * length blocks < 2 ^ 63
      → p.user_space_size < u64_mod
      → Loaded base base' p (load_blocks os stamp' base' (length blocks) s disk pos block p) blocks
  load_blocks-Loaded [] s disk pos block p r e h full room small =
      Loaded-none s disk pos block p small
  load_blocks-Loaded ((size, a) ∷ blocks) s disk pos block p r e (here, inside, rest) full room
        small =
      let bytes = content size a in
      let block' = relocated os stamp' base' bytes in
      let read =
        read_file-all os works s disk pos 16 r e inside (omega (arith, room))
        ∙ ap (λ c. (success, c)) here in
      let step =
        load_blocks-step (length blocks) s disk pos block bytes p read
          (over_all bytes block (length-content size a ∙ sym full))
          (rw (length-content size a) (omega (arith, room))) in
      rw step (
        Loaded-step p _ size a blocks block' (block_addr-relocated size a)
          (block_size-relocated size a)
          (load_blocks-Loaded blocks s disk (pos + 16) block' (take_in os stamp' base' block' p) r e
            rest (length-relocated size a) (omega (arith, room)) (take_in-small block' p)))

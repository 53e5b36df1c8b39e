-- ===== src/Pool/Mapped.antt =====
-- `AllocFromStore` and `GetUsedSize` of kernel/pool/mmap_pool.{h,cc}. The first eight bytes of the mapped file
-- are the used size.
use ad_index.Base.{
  ℕ, zero, suc, ◌+◌, ◌%◌, Bool, true, false, not, Option, none, some, ltb, ◌==◌, if◌then◌else◌,
  u64_mod, bytes_of, number, put_bytes, get_bytes, Run, done, fault, out_of_fuel, ◌>>=◌,
}
use ad_index.Store.File.{operate, File, Disk, file_at, set_file, System, FileStore, expand_file}

-- `begin_` is a number, 0 for nullptr, and the files of the disk are what is mapped.
pub record MMapPool : Type 0 where
  pub begin : ℕ
  pub min_expand_size : ℕ
  pub store : Option FileStore
  pub disk : Disk

unfoldable pub used_of : File → ℕ
used_of f = number (get_bytes f.bytes 0 8)

unfoldable pub get_used_size : ℕ → FileStore → Disk → ℕ
get_used_size begin s disk = if begin == 0 then 0 else used_of (file_at disk s.name)

-- `*(reinterpret_cast<size_t *>(begin_)) = n`
unfoldable pub set_used : File → ℕ → File
set_used f n = record f { bytes = put_bytes f.bytes 0 (bytes_of 8 n) }

module _ (os : System) where
  -- The loop, and whether the store expanded.
  unfoldable pub grow : ℕ → ℕ → ℕ → ℕ → FileStore → Disk → Run (Bool × FileStore × Disk)
  grow zero begin min_expand_size size s disk = out_of_fuel
  grow (suc fuel) begin min_expand_size size s disk =
      if ltb ((get_used_size begin s disk + size) % u64_mod) s.size
      then done (true, s, disk)
      else let r = expand_file os s disk min_expand_size in
        elim (operate r.0) [
          | true ↦ grow fuel begin min_expand_size size r.1 r.2
          | false ↦ done (false, r.1, r.2)
        ]

  unfoldable pub alloc_mapped : ℕ → MMapPool → ℕ → Run (Option ℕ × MMapPool)
  alloc_mapped fuel p size = elim p.store [
    | none ↦ done (none, p)
    | some s ↦ grow fuel p.begin p.min_expand_size size s p.disk >>= λ r.
        let p' : MMapPool = record p { store = some r.1; disk = r.2 } in
        if not r.0
        then done (none, p')
        else if p.begin == 0
        then fault
        else let f = file_at r.2 r.1.name in
          done (
            some ((p.begin + used_of f) % u64_mod),
            record p' { disk = set_file r.2 r.1.name (set_used f ((used_of f + size) % u64_mod)) },
          )
  ]

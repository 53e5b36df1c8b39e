-- ===== src/Pool/Reloading.antt =====
-- A free list that was dumped is loaded again.
use mathlib.Core.Path.{subst}
use ad_index.Base.{
  ℕ, ◌^◌, ◌<◌, ◌≤◌, ◌≡◌, ◌≢◌, refl, sym, ap, ◌∙◌, true, false, List, [], length, u64_mod, bytes_of,
  number, number-bytes_of_8, length-bytes_of, done, arith,
}
use ad_index.Store.File.{
  success, Disk, file_at, set_file, System, FileStore, open_file, new_store, opened, operate,
  read_file,
}
use ad_index.Store.Reading.{Works, read_file-all, file_at-set_file}
use ad_index.Pool.FilePool.{FilePool}
use ad_index.Pool.Saved.{over, dump_free_list, load_blocks, load_free_list}
use ad_index.Pool.Totals.{list_blocks}
use ad_index.Pool.Dumped.{IsSaved, open_file-opened, dump_free_list-IsSaved}
use ad_index.Pool.Loading.{Loaded, over_all, load_blocks-Loaded}

load_run :
    (os : System) (stamp' : ℕ → ℕ) (base' : ℕ) (p : FilePool) (disk : Disk) (name buffer : List ℕ)
    (s : FileStore) (d : Disk) (bytes : List ℕ) (n : ℕ)
    → open_file os new_store disk name false ≡ (success, s, d)
    → read_file os s d 0 8 ≡ (success, bytes)
    → over bytes (bytes_of 8 0) ≡ bytes
    → number bytes ≡ n
    → length bytes ≡ 8
    → load_free_list os stamp' base' p disk name buffer
      ≡ (true, load_blocks os stamp' base' n s d 8 buffer (record p { free_list = [] }), d)
unfolding load_free_list operate
load_run os stamp' base' p disk name buffer s d bytes n e e' ov num len =
    rw e (rw e' (rw ov (rw num (rw len refl))))

-- With a system that has room, a pool whose free list is not empty, as `user_space_size` says, dumps it in
-- the fuel for its blocks, fewer than 2^58, and a pool that loads the file has exactly these blocks, each
-- moved by as much as the pools' memories are apart, with its size as a uint32_t.
pub dump-load :
    (os : System) (works : Works os) (stamp stamp' : ℕ → ℕ) (base base' : ℕ) (fuel : ℕ)
    (p p' : FilePool) (disk : Disk) (name buffer : List ℕ)
    → p.user_space_size ≢ 0
    → length (list_blocks p.free_list) ≤ fuel
    → length (list_blocks p.free_list) < 2 ^ 58
    → p'.user_space_size < u64_mod
    → length buffer ≡ 16
    → (disk' : Disk) × (dump_free_list os stamp base fuel p false disk name
        ≡ done (true, record p { free_list = []; user_space_size = 0 }, disk'))
      × (q : FilePool) × (disk'' : Disk) × (load_free_list os stamp' base' p' disk' name buffer
          ≡ (true, q, disk''))
      × Loaded base base' (record p' { free_list = [] }) q (list_blocks p.free_list)
unfolding opened
dump-load os works stamp stamp' base base' fuel p p' disk name buffer some_free enough few small
      full =
    let blocks = list_blocks p.free_list in
    let (disk', dumped, saved) =
      dump_free_list-IsSaved os works stamp base fuel p disk name some_free enough few in
    let f = file_at disk' name in
    let s : FileStore = (opened os new_store disk' name false).1 in
    let disk'' = set_file disk' name f in
    let at = file_at-set_file disk' name f in
    let saved' : IsSaved os works stamp base (file_at disk'' name) blocks =
      subst (λ g. IsSaved os works stamp base g blocks) (sym at) saved in
    let read =
      read_file-all os works s disk'' 0 8 false refl (omega (arith, saved'.long)) (omega arith)
      ∙ ap (λ c. (success, c)) saved'.number_first in
    (
      disk',
      dumped,
      load_blocks os stamp' base' (length blocks) s disk'' 8 buffer (record p' { free_list = [] }),
      disk'',
      load_run os stamp' base' p' disk' name buffer s disk'' (bytes_of 8 (length blocks))
          (length blocks) (open_file-opened os works disk' name) read
          (over_all (bytes_of 8 (length blocks)) (bytes_of 8 0)
            (length-bytes_of 8 (length blocks) ∙ sym (length-bytes_of 8 0)))
          (number-bytes_of_8 (length blocks) (omega (arith, few)))
          (length-bytes_of 8 (length blocks)),
      load_blocks-Loaded os works stamp stamp' base base' blocks s disk'' 8 buffer
          (record p' { free_list = [] }) false refl saved'.blocks_behind full (omega (arith, few))
          small,
    )

-- ===== src/Pool/Tests.antt =====
-- The theorems on a pool over a store of 64 bytes that always expands.
use ad_index.Base.{
  ◌+◌, get_bytes, number, none, done, ℕ, ◌≡◌, refl, Bool, true, false, List, [], ◌∷◌, some, arith,
  ◌==◌, if◌then◌else◌, ◌<◌, ◌≤◌,
}
use ad_index.Store.File.{Disk, File, FileStore, System}
use ad_index.Pool.Mapped.{MMapPool, used_of, alloc_mapped}
use ad_index.Pool.Placing.{Places, alloc_mapped-Places}
use ad_index.Store.Reading.{Works}
use ad_index.Pool.Saved.{dump_free_list, load_free_list}
use ad_index.Pool.Loading.{Loaded}
use ad_index.Pool.Totals.{list_blocks}
use ad_index.Pool.Reloading.{dump-load}
use ad_index.Pool.FreeList.{pop}
use ad_index.Pool.FilePool.{FilePool, do_alloc, do_free}
use ad_index.Pool.Accounts.{IsAccounted, weigh, do_alloc-do_free}
use ad_index.Pool.History.{History}
use ad_index.Pool.VariableLength.{MMapStore, get_u32, write, read}
use ad_index.Pool.Reading.{write-read}

abbrev same_size : ℕ → ℕ
same_size size = size

abbrev always : ℕ → ℕ → Bool
always pos size = true

abbrev new_pool : FilePool
new_pool = record {
  use_free_list = true;
  user_space_size = 0;
  block_size = 0;
  free_list = [];
  store = some 64;
}

abbrev grown_pool : FilePool
grown_pool = record new_pool { store = some 96 }

abbrev new_history : History
new_history = record { pool = new_pool; live = []; pending = [] }

abbrev one_block : History
one_block = record { pool = grown_pool; live = (64, 32) ∷ []; pending = [] }

abbrev one_waits : History
one_waits = record { pool = grown_pool; live = []; pending = (64, 32) ∷ [] }

abbrev one_free : History
one_free = record { pool = do_free same_size grown_pool 64 32; live = []; pending = [] }

new_pool-IsAccounted : IsAccounted new_pool
unfolding weigh
new_pool-IsAccounted = (refl, refl, omega arith, omega arith)

do_alloc-do_free_example :
    do_alloc same_size always (do_free same_size new_pool 64 32) 32 ≡ (some 64, new_pool)
unfolding weigh pop
do_alloc-do_free_example =
    do_alloc-do_free same_size always new_pool 64 32 refl (omega arith) new_pool-IsAccounted
      (omega arith) (omega arith) (omega arith) tt (λ b r e. absurd (cc e))

-- A block of four bytes at 1000, the start of a mapped file of 64 bytes.
abbrev mapped_store : MMapStore
mapped_store = record {
  base = 1000;
  mmap_size = 64;
  file_size = 64;
  memory = λ j. if j == 1000 then 4 else 0;
}

abbrev refuses : ℕ → List ℕ → Bool
refuses offset content = false

write-read_example :
    (s' : MMapStore) × (write refuses (some mapped_store) 1000 (7 ∷ 8 ∷ 9 ∷ []) ≡ (true, some s'))
    × (read (some s') 1000 ≡ some (7 ∷ 8 ∷ 9 ∷ []))
    × ((j : ℕ) → j < 1000 → s'.memory j ≡ mapped_store.memory j)
    × ((j : ℕ) → 1007 ≤ j → s'.memory j ≡ mapped_store.memory j)
unfolding get_u32
write-read_example =
    write-read refuses mapped_store 1000 (7 ∷ 8 ∷ 9 ∷ []) (omega arith) (omega arith) (omega arith)
      (omega arith) (omega arith)

abbrev obliging : System
obliging = record {
  opens = λ name r. true;
  seeks = λ pos. true;
  writes = λ pos n. some n;
  reads = λ pos n. some n;
  truncates = λ n. true;
}

obliging-Works : Works obliging
obliging-Works = record {
  opens_all = λ name. refl;
  seeks_all = λ pos h. refl;
  writes_all = λ pos n h. refl;
  reads_all = λ pos n h. refl;
}

-- Three blocks of two sizes are free in a pool whose memory begins at 4096.
abbrev some_free : FilePool
some_free = record grown_pool {
  user_space_size = 80;
  block_size = 3;
  free_list = (16, 5000 ∷ []) ∷ (32, 4300 ∷ 4200 ∷ []) ∷ [];
}

abbrev no_files : Disk
no_files name = none

abbrev unset : List ℕ
unset = 1 ∷ 2 ∷ 3 ∷ 4 ∷ 5 ∷ 6 ∷ 7 ∷ 8 ∷ 1 ∷ 2 ∷ 3 ∷ 4 ∷ 5 ∷ 6 ∷ 7 ∷ 8 ∷ []

abbrev garbage : ℕ → ℕ
garbage a = 77

-- It is loaded into a pool whose memory begins at 65536.
dump-load_example :
    (disk' : Disk) × (dump_free_list obliging garbage 4096 3 some_free false no_files (b'f' ∷ [])
      ≡ done (true, record some_free { free_list = []; user_space_size = 0 }, disk'))
    × (q : FilePool) × (disk'' : Disk) × (load_free_list obliging garbage 65536 new_pool disk'
          (b'f' ∷ [])
          unset
        ≡ (true, q, disk''))
    × Loaded 4096 65536 (record new_pool { free_list = [] }) q (list_blocks some_free.free_list)
dump-load_example =
    dump-load obliging obliging-Works garbage garbage 4096 65536 3 some_free new_pool no_files
      (b'f' ∷ []) unset (λ e. ground (arith, e)) (omega arith) (omega arith) (omega arith) refl

-- A mapped file of 64 bytes, all of them used.
abbrev used_up : File
used_up = record { size = 64; bytes = λ j. if j == 0 then 64 else 0 }

abbrev one_file : Disk
one_file name = some used_up

abbrev full_store : FileStore
full_store = record { fd = some false; size = 64; name = b'm' ∷ [] }

abbrev full_pool : MMapPool
full_pool = record { begin = 4096; min_expand_size = 32; store = some full_store; disk = one_file }

used_up-used : used_of used_up ≡ 64
unfolding used_of get_bytes number
used_up-used = refl

-- A block of 100 bytes takes four expansions.
alloc_mapped-Places_example :
    (p' : MMapPool) × (alloc_mapped obliging 102 full_pool 100
      ≡ done (some (4096 + used_of used_up), p'))
    × Places full_pool p' full_store (used_of used_up) 100
alloc_mapped-Places_example =
    alloc_mapped-Places obliging obliging-Works full_pool full_store 100 101 refl
      (record { writes = refl; tracks = refl }) (omega arith) (omega arith) (omega arith)
      (omega (arith, used_up-used)) (omega (arith, used_up-used)) (omega (arith, used_up-used))

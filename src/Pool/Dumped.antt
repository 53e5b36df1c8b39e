-- ===== src/Pool/Dumped.antt =====
-- What is in the file after `DumpFreeList`.
use mathlib.Core.Path.{subst}
use ad_index.Base.{
  ℕ, ◌+◌, ◌*◌, ◌%◌, ◌^◌, ◌<◌, ◌≤◌, ◌≡◌, ◌≢◌, refl, ap, ◌∙◌, Bool, true, false, not, ◌||◌, List, [],
  some, ltb, ◌==◌, if◌then◌else◌, length, u64_mod, bytes_of, length-bytes_of, get_bytes,
  get_bytes-same, done, ◌>>=◌, arith, Bool-cases, Option-cases, inl, inr,
}
use ad_index.Store.File.{
  StatusCode, File, Disk, file_at, set_file, written, System, FileStore, open_file, new_store,
  negative, opened, operate, truncate_file, truncated, padded,
}
use ad_index.Store.Reading.{Works, HasWritten, written-HasWritten, write_file-all, file_at-set_file}
use ad_index.Pool.FilePool.{FilePool}
use ad_index.Pool.Saved.{finish_dump, Writing, write_list, dump_free_list}
use ad_index.Pool.Totals.{list_blocks}
use ad_index.Pool.Blocks.{Holds-long, Holds, Holds-Keeps}
use ad_index.Pool.Dumping.{file_of, write_list-Wrote}

-- The store after a file was opened to write.
pub open_file-opened :
    (os : System)
    → Works os
    → (disk : Disk) (name : List ℕ)
    → open_file os new_store disk name false ≡ opened os new_store disk name false
unfolding open_file
open_file-opened os works disk name = rw (works.opens_all name) (elim (Option-cases (disk name)) [
  | inl missing ↦ rw missing refl
  | inr (f, found) ↦ rw found refl
])

-- The bytes of a file that `Truncate` to a size leaves, whether it succeeds or not.
padded_same :
    (f : File) (size j : ℕ) → j < size → size ≤ f.size → (truncated f size).bytes j ≡ f.bytes j
unfolding truncated padded
padded_same f size j l m = ground (arith, l, m)

truncate_file-keeps :
    (os : System) (s : FileStore) (disk : Disk) (size : ℕ)
    → s.fd ≡ some false
    → size ≤ (file_at disk s.name).size
    → (size ≤ (file_at (truncate_file os s disk size).1 s.name).size)
      × ((j : ℕ)
          → j < size
          → (file_at (truncate_file os s disk size).1 s.name).bytes j
            ≡ (file_at disk s.name).bytes j)
unfolding truncate_file truncated
truncate_file-keeps os s disk size e fits =
    rw e (elim (Bool-cases (false || negative size || not (os.truncates size))) [
      | inl fails ↦ rw fails (fits, λ j l. refl)
      | inr cuts ↦ rw cuts (
          rw (file_at-set_file disk s.name (truncated (file_at disk s.name) size))
            (omega arith, λ j l. padded_same (file_at disk s.name) size j l fits))
    ])

cut_at :
    (os : System) (s : FileStore) (disk : Disk) (size : ℕ) (f : File) (n : ℕ)
    → s.fd ≡ some false
    → file_at disk s.name ≡ f
    → size ≡ n
    → n ≤ f.size
    → (n ≤ (file_at (truncate_file os s disk size).1 s.name).size)
      × ((j : ℕ) → j < n → (file_at (truncate_file os s disk size).1 s.name).bytes j ≡ f.bytes j)
cut_at os s disk size f n e at size_eq fits =
    let (long, same) =
      truncate_file-keeps os s disk size e (rw at (omega (arith, size_eq, fits))) in
    (
      omega (arith, long, size_eq),
      λ j l. same j (omega (arith, l, size_eq)) ∙ ap (λ (f : File). f.bytes j) at,
    )

if_eq {ℓ} : {A : Type ℓ} (test : Bool) (x y : A) → test ≡ false → (if test then x else y) ≡ y
if_eq true x y e = absurd (ground (arith, e))
if_eq false x y e = refl

module _ (os : System) (works : Works os) (stamp : ℕ → ℕ) (base : ℕ) where
  abbrev start : Disk → List ℕ → Writing
  start disk name = record {
    store = (opened os new_store disk name false).1;
    disk = (opened os new_store disk name false).2;
    pos = 8;
    count = 0;
  }

  -- The file has the number of the blocks and the blocks.
  pub record IsSaved (f : File) (blocks : List (ℕ × ℕ)) : Type 0 where
    pub long : 8 + 16 * length blocks ≤ f.size
    pub number_first : get_bytes f.bytes 0 8 ≡ bytes_of 8 (length blocks)
    pub blocks_behind : Holds stamp base os f 8 blocks

  abbrev cleared_list : FilePool → FilePool
  cleared_list p = record p { free_list = []; user_space_size = 0 }

  written_count : (f : File) (n : ℕ) → HasWritten f (written f 0 (bytes_of 8 n)) 0 (bytes_of 8 n)
  unfolding bytes_of
  written_count f n = written-HasWritten f 0 _ _

  -- The file at the end, after a write of the count and a cut that leaves what was counted.
  finished-IsSaved :
      (f f2 f3 : File) (blocks : List (ℕ × ℕ)) (n : ℕ)
      → n ≡ length blocks
      → HasWritten f f2 0 (bytes_of 8 n)
      → Holds stamp base os f 8 blocks
      → (8 + 16 * n ≤ f2.size
          → (8 + 16 * n ≤ f3.size) × ((j : ℕ) → j < 8 + 16 * n → f3.bytes j ≡ f2.bytes j))
      → IsSaved f3 blocks
  finished-IsSaved f f2 f3 blocks n e has h cut =
      let size_number = length-bytes_of 8 n in
      let enough : 8 + 16 * n ≤ f2.size = elim (Bool-cases (ltb 0 (length blocks))) [
        | inl some_blocks ↦
            ground
              (arith, has.ends, size_number, some_blocks, e, Holds-long stamp base os f 8 blocks h)
        | inr no_blocks ↦ ground (arith, has.ends, size_number, no_blocks, e)
      ] in
      let (long, same) = cut enough in
      record {
        long = omega (arith, long, e);
        number_first =
            get_bytes-same f3.bytes f2.bytes 0 8 (λ j l m. same j (omega (arith, m)))
            ∙ subst (λ k. get_bytes f2.bytes 0 k ≡ bytes_of 8 n) size_number has.there
            ∙ ap (bytes_of 8) e;
        blocks_behind =
            Holds-Keeps stamp base os f f3 8 (8 + 16 * n) 8 blocks
              (inr long, λ j l m k. same j m ∙ has.behind j (omega (arith, l, size_number)) k)
              (omega arith) (omega (arith, e)) h;
      }

  finish_dump-IsSaved :
      (p : FilePool) (w : Writing) (blocks : List (ℕ × ℕ))
      → w.store.fd ≡ some false
      → w.count ≡ length blocks
      → length blocks < 2 ^ 58
      → Holds stamp base os (file_of stamp base os w) 8 blocks
      → (disk' : Disk) × (finish_dump os stamp base p w ≡ (true, cleared_list p, disk'))
        × IsSaved (file_at disk' w.store.name) blocks
  unfolding finish_dump operate
  finish_dump-IsSaved p w blocks e counted few h =
      let s' : FileStore = record w.store {
        size =
            if ltb w.store.size (0 + length (bytes_of 8 w.count))
            then 0 + length (bytes_of 8 w.count)
            else w.store.size;
      } in
      let f2 = written (file_of stamp base os w) 0 (bytes_of 8 w.count) in
      let disk2 = set_file w.disk w.store.name f2 in
      let all =
        write_file-all os works w.store w.disk 0 (bytes_of 8 w.count) e
          (rw (length-bytes_of 8 w.count) (omega arith)) in
      (
        (truncate_file os s' disk2 ((8 + w.count * 16) % u64_mod)).1,
        rw all refl,
        finished-IsSaved (file_of stamp base os w) f2 _ blocks w.count counted
            (written_count (file_of stamp base os w) w.count) h
            (cut_at os s' disk2 _ f2 (8 + 16 * w.count) e (file_at-set_file w.disk w.store.name f2)
              (omega (arith, counted, few))),
      )

  dump_run :
      (fuel : ℕ) (p : FilePool) (disk : Disk) (name : List ℕ) (w : Writing)
      (r : Bool × FilePool × Disk)
      → p.user_space_size ≢ 0
      → write_list os stamp base fuel (start disk name) p.free_list ≡ done w
      → finish_dump os stamp base p w ≡ r
      → dump_free_list os stamp base fuel p false disk name ≡ done r
  unfolding dump_free_list operate opened
  dump_run fuel p disk name w r some_free eq eq' =
      if_eq (p.user_space_size == 0) _ _ (ground (arith, some_free))
      ∙ (ap
            (λ (o : StatusCode × FileStore × Disk).
              if not (operate o.0)
              then done (false, p, o.2)
              else write_list os stamp base fuel
                  (record { store = o.1; disk = o.2; pos = 8; count = 0 }) p.free_list
                >>= λ w'. done (finish_dump os stamp base p w'))
            (open_file-opened os works disk name)
          ∙ (ap (λ m. m >>= λ w'. done (finish_dump os stamp base p w')) eq ∙ ap done eq'))

  pub dump_free_list-IsSaved :
      (fuel : ℕ) (p : FilePool) (disk : Disk) (name : List ℕ)
      → p.user_space_size ≢ 0
      → length (list_blocks p.free_list) ≤ fuel
      → length (list_blocks p.free_list) < 2 ^ 58
      → (disk' : Disk) × (dump_free_list os stamp base fuel p false disk name
          ≡ done (true, cleared_list p, disk'))
        × IsSaved (file_at disk' name) (list_blocks p.free_list)
  unfolding opened
  dump_free_list-IsSaved fuel p disk name some_free enough few =
      let (w, eq, wrote) =
        write_list-Wrote stamp base os works fuel (start disk name) p.free_list refl enough
          (omega (arith, few)) (omega (arith, few)) in
      let (disk', eq', saved) =
        finish_dump-IsSaved p w (list_blocks p.free_list) wrote.is_open
          (omega (arith, wrote.counted)) few wrote.holds in
      (
        disk',
        dump_run fuel p disk name w (true, cleared_list p, disk') some_free eq eq',
        subst (λ n. IsSaved (file_at disk' n) (list_blocks p.free_list)) wrote.same_name saved,
      )

-- ===== src/Pool/Placing.antt =====
-- The block that `AllocFromStore` gives lies in the file, behind those before it.
use mathlib.Core.Path.{subst}
use ad_index.Base.{
  ℕ, suc, ◌+◌, ◌%◌, ◌^◌, ◌<◌, ◌≤◌, ◌≡◌, refl, sym, ap, ◌∙◌, true, false, some, ◌==◌, u64_mod,
  bytes_of, number, number-bytes_of_8, length-bytes_of, put_bytes, put_outside, get_bytes,
  get_bytes-put_bytes, done, arith,
}
use ad_index.Store.File.{File, Disk, file_at, set_file, System, FileStore}
use ad_index.Store.Reading.{Works, file_at-set_file}
use ad_index.Pool.Mapped.{MMapPool, used_of, get_used_size, set_used, grow, alloc_mapped}
use ad_index.Pool.Growing.{IsOpen, Grew, used_of-same, grow-Grows}

number_stored : (f : File) (n : ℕ) → n < u64_mod → used_of (set_used f n) ≡ n
unfolding used_of set_used
number_stored f n small =
    ap number (
      subst (λ k. get_bytes (put_bytes f.bytes 0 (bytes_of 8 n)) 0 k ≡ bytes_of 8 n)
        (length-bytes_of 8 n) (get_bytes-put_bytes f.bytes 0 (bytes_of 8 n)))
    ∙ number-bytes_of_8 n small

set_used-behind : (f : File) (n j : ℕ) → 8 ≤ j → (set_used f n).bytes j ≡ f.bytes j
unfolding set_used
set_used-behind f n j l =
    (put_outside f.bytes 0 j (bytes_of 8 n)).1 (rw (length-bytes_of 8 n) (omega (arith, l)))

set_used-size : (f : File) (n : ℕ) → (set_used f n).size ≡ f.size
unfolding set_used
set_used-size f n = refl

-- What the pool is after it gave a block behind `used` bytes.
pub record Places (p p' : MMapPool) (s : FileStore) (used size : ℕ) : Type 0 where
  pub store : FileStore
  pub is_store : p'.store ≡ some store
  pub same_begin : p'.begin ≡ p.begin
  pub stays_open : IsOpen store p'.disk
  pub uses : used_of (file_at p'.disk store.name) ≡ used + size
  pub inside : used + size < store.size
  pub keeps :
      (j : ℕ)
      → 8 ≤ j
      → j < s.size
      → (file_at p'.disk store.name).bytes j ≡ (file_at p.disk s.name).bytes j

module _ (os : System) (works : Works os) (p : MMapPool) (s : FileStore) (size : ℕ) where
  abbrev used : ℕ
  used = used_of (file_at p.disk s.name)

  given : FileStore → Disk → MMapPool
  given s' disk' = record p {
    store = some s';
    disk = set_file disk' s'.name (set_used (file_at disk' s'.name) (used + size));
  }

  alloc-given :
      (fuel : ℕ) (s' : FileStore) (disk' : Disk)
      → p.store ≡ some s
      → grow os fuel p.begin p.min_expand_size size s p.disk ≡ done (true, s', disk')
      → (p.begin == 0) ≡ false
      → used_of (file_at disk' s'.name) ≡ used
      → (p.begin + used) % u64_mod ≡ p.begin + used
      → (used + size) % u64_mod ≡ used + size
      → alloc_mapped os fuel p size ≡ done (some (p.begin + used), given s' disk')
  unfolding alloc_mapped given
  alloc-given fuel s' disk' e eq b u small small' =
      rw e (rw eq (rw b (rw u (rw small (rw small' refl)))))

  given-Places :
      (s' : FileStore) (disk' : Disk)
      → Grew s p.disk s' disk'
      → used + size < s'.size
      → used + size < u64_mod
      → Places p (given s' disk') s used size
  unfolding given
  given-Places s' disk' g room small =
      let f = file_at disk' s'.name in
      let at = file_at-set_file disk' s'.name (set_used f (used + size)) in
      record {
        store = s';
        is_store = refl;
        same_begin = refl;
        stays_open = record {
          writes = g.stays_open.writes;
          tracks = rw at (g.stays_open.tracks ∙ sym (set_used-size f (used + size)));
        };
        uses = rw at (number_stored f (used + size) small);
        inside = room;
        keeps = λ j l m. rw at (set_used-behind f (used + size) j l ∙ g.keeps j m);
      }

  -- With a system that has room, a pool whose file is open, at least as long as the used size is wide, and which
  -- expands by some bytes, gives the address behind the used bytes, in fuel for the bytes that are missing:
  -- the block lies in the file, the used size grows by it, and no other byte of the file changes.
  pub alloc_mapped-Places :
      (fuel : ℕ)
      → p.store ≡ some s
      → IsOpen s p.disk
      → 0 < p.begin
      → 8 ≤ s.size
      → 0 < p.min_expand_size
      → used + size + p.min_expand_size < 2 ^ 63
      → p.begin + used < u64_mod
      → used + size < s.size + fuel
      → (p' : MMapPool) × (alloc_mapped os (suc fuel) p size ≡ done (some (p.begin + used), p'))
        × Places p p' s used size
  unfolding get_used_size
  alloc_mapped-Places fuel e o mapped long some_bytes small small' enough =
      let b : (p.begin == 0) ≡ false = ground (arith, mapped) in
      let wanted : (get_used_size p.begin s p.disk + size) % u64_mod ≡ used + size =
        rw b (omega (arith, small)) in
      let (s', disk', eq, room, g) =
        grow-Grows os works p.begin p.min_expand_size size fuel s p.disk o long some_bytes
          (omega (arith, wanted, small)) (omega (arith, wanted, enough)) in
      let same =
        used_of-same (file_at p.disk s.name) (file_at disk' s'.name)
          (λ j l. g.keeps j (omega (arith, l, long))) in
      (
        given s' disk',
        alloc-given (suc fuel) s' disk' e eq b same (omega (arith, small')) (omega (arith, small)),
        given-Places s' disk' g (omega (arith, room, wanted)) (omega (arith, small)),
      )

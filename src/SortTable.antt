-- ===== src/SortTable.antt =====
-- kernel/index/sort_table: a table of records in key order, in one block of pool memory.
-- `right` is kept as `hi = right + 1`, and `pos` as `pos + 1`: both can be -1 in the source.
pub mod Search
pub mod Table
pub mod Shifting
pub mod Add
pub mod Valid
pub mod Contents
pub mod Update
pub mod Hash
pub mod Batch
pub mod Difference
pub mod Compact
pub mod BatchDelete
pub mod Map
pub mod BatchInsert
pub mod BatchFull
pub mod Initial
mod Tests
use ad_index.Base.{
  ℕ, zero, suc, ◌+◌, ◌-◌, ◌*◌, ◌/◌, ◌%◌, ◌^◌, ◌<◌, ◌≤◌, min, ◌≡◌, Bool, true, false, ◌&&◌, List, [],
  ◌∷◌, Option, none, some, arith, ltb, leb, ◌==◌, if◌then◌else◌, length, get_elem?, get_or, set,
  Run, done, fault, out_of_fuel, ◌>>=◌, read, lt_i64, rank,
}

-- `struct Record`, with its two int64_t as bit patterns.
pub record Record : Type 0 where
  pub key : ℕ
  pub value : ℕ

-- `Record::Clear`
abbrev pub cleared : Record
cleared = record { key = 0; value = 0 }

-- The `SortTableHeader` and the records behind it, as many as the block has room for.
pub record Block : Type 0 where
  pub used_size : ℕ
  pub total_size : ℕ
  pub records : List Record

-- What a search finds: the index of the record, or `*pos + 1`, where a record would go.
pub data Find : Type 0 where
  found : ℕ → Find
  missing : ℕ → Find

-- What one round of the search loop decides.
pub data Probe : Type 0 where
  hit : ℕ → Probe
  next : ℕ → ℕ → Probe

-- `mid[i]`, an int32_t: base = size >> 2 and rem = size & 3.
pub mid : ℕ → ℕ → ℕ → ℕ
mid lo size i = (lo + size / 4 * i + min i (size % 4) + size / 4 / 2) % 2 ^ 32

-- Fills `cmp_buffer` from `mid` until it passes `right`. A negative `mid` is read, before `first_`.
load : List Record → ℕ → List ℕ → Run (List ℕ)
load records hi [] = done []
load records hi (m ∷ ms) =
    if leb (2 ^ 31) m
    then fault
    else if leb hi m
    then done []
    else read (get_elem? records m) >>= λ r. load records hi ms >>= λ keys. done (r.key ∷ keys)

-- The lanes of `_mm256_cmpgt_epi64(cmp_buffer, target)` up to the first that is set.
count_le : ℕ → List ℕ → ℕ
count_le nkey [] = 0
count_le nkey (k ∷ keys) = if lt_i64 nkey k then 0 else suc (count_le nkey keys)

narrow : List Record → ℕ → ℕ → ℕ → ℕ → Run Probe
narrow records nkey lo hi i =
    if i == 0
    then done (next lo (m 0))
    else read (get_elem? records (m (i - 1))) >>= λ r.
        if r.key == nkey
        then done (hit (m (i - 1)))
        else if leb 3 i
        then done (next (m 2 + 1) hi)
        else done (next (m (i - 1) + 1) (m i))
  where
    m : ℕ → ℕ
    m = mid lo (hi - lo)

pub probe : List Record → ℕ → ℕ → ℕ → Run Probe
probe records nkey lo hi =
    load records hi (mid lo (hi - lo) 0 ∷ mid lo (hi - lo) 1 ∷ mid lo (hi - lo) 2 ∷ []) >>= λ keys.
    narrow records nkey lo hi (count_le nkey keys)

search_loop : ℕ → List Record → ℕ → ℕ → ℕ → Run Find
search_loop zero records nkey lo hi = out_of_fuel
search_loop (suc fuel) records nkey lo hi = elim (ltb lo hi) [
  | false ↦ done (missing hi)
  | true ↦
      probe records nkey lo hi
      >>= elim [ hit i ↦ done (found i) | next lo' hi' ↦ search_loop fuel records nkey lo' hi' ]
]

-- `SimdBinarySearch` at `bs_level_` 2, the only level at which it is called.
pub simd_binary_search : Block → ℕ → Run Find
simd_binary_search b nkey =
    if b.used_size == 0
    then done (missing 0)
    else read (get_elem? b.records 0) >>= λ first.
        if first.key == nkey
        then done (found 0)
        else read (get_elem? b.records (b.used_size - 1)) >>= λ last.
            if last.key == nkey
            then done (found (b.used_size - 1))
            else search_loop (b.used_size + 1) b.records nkey 0 b.used_size

-- ===== src/SortTable/Batch.antt =====
-- `SortTable::BatchDelete`: one pass over the records and the sorted keys, moving in place what
-- stays. std::sort is an insertion sort by the order that it is given.
use ad_index.Base.{
  ℕ, zero, suc, ◌+◌, ◌-◌, Bool, true, false, List, [], ◌∷◌, ◌==◌, if◌then◌else◌, get_or, set,
  lt_i64,
}
use ad_index.SortTable.{Record, cleared}
use ad_index.SortTable.Table.{SortTable, get_hash_key}

-- The order of the keys, as `GetHashKey(left) < GetHashKey(right)`.
unfoldable pub insert_sorted : ℕ → List ℕ → List ℕ
insert_sorted k [] = k ∷ []
insert_sorted k (j ∷ js) = if lt_i64 j k then j ∷ insert_sorted k js else k ∷ j ∷ js

unfoldable pub sort_keys : List ℕ → List ℕ
unfolding insert_sorted
sort_keys [] = []
sort_keys (k ∷ ks) = insert_sorted k (sort_keys ks)

-- `if (write_pos != read_pos) first_[write_pos] = first_[read_pos]`
abbrev pub keep : List Record → ℕ → ℕ → List Record
keep records write read =
    if write == read then records else set records write (get_or records read cleared)

-- The loop, with `n = total - read_pos` records and the keys from `kv_index` on left.
unfoldable pub delete_loop : ℕ → List ℕ → ℕ → ℕ → ℕ → List Record → ℕ × List Record
delete_loop zero keys read write deleted records = (deleted, records)
delete_loop (suc n) [] read write deleted records =
    delete_loop n [] (read + 1) (write + 1) deleted (keep records write read)
delete_loop (suc n) (k ∷ ks) read write deleted records =
    elim ((get_or records read cleared).key == k) [
      | true ↦ delete_loop n ks (read + 1) write (deleted + 1) records
      | false ↦ elim (lt_i64 (get_or records read cleared).key k) [
        | true ↦ delete_loop n (k ∷ ks) (read + 1) (write + 1) deleted (keep records write read)
        | false ↦ delete_loop (suc n) ks read write deleted records
      ]
    ]

unfoldable pub hash_keys : List (List ℕ) → List ℕ
hash_keys [] = []
hash_keys (key ∷ keys) = get_hash_key key ∷ hash_keys keys

-- The keys of `kvs`, none of them nullptr.
unfoldable pub batch_delete : SortTable → List (List ℕ) → Bool → Bool × SortTable
unfolding hash_keys
batch_delete t kvs already_sorted =
    let keys = if already_sorted then hash_keys kvs else sort_keys (hash_keys kvs) in
    let (deleted, records) = delete_loop t.block.used_size keys 0 0 0 t.block.records in
    (
      true,
      record t {
        block = record t.block { used_size = t.block.used_size - deleted; records = records };
      },
    )

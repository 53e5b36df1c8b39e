-- ===== src/SortTable/BatchInsert.antt =====
-- `SortTable::BatchInsert`: the keys that the table does not hold are merged in, from the back. Keys that
-- it holds are left out. std::sort is an insertion sort by the order that it is given.
use ad_index.Base.{
  ℕ, zero, suc, ◌+◌, ◌-◌, ◌%◌, ◌^◌, Bool, true, false, List, [], ◌∷◌, ltb, if◌then◌else◌, length,
  get_elem?, set, u32_mod, u64_mod, lt_i64, Run, done, fault, ◌>>=◌, read,
}
use ad_index.SortTable.{Record, Block, Find, found, missing}
use ad_index.SortTable.Table.{SortTable, exclusive, shared, get_hash_key, locate}

-- A key of a `KvPair`, none of them nullptr, and its value.
abbrev pub Pair : Type 0
Pair = List ℕ × ℕ

unfoldable pub insert_pair : Pair → List Pair → List Pair
insert_pair kv [] = kv ∷ []
insert_pair kv (kv' ∷ kvs) =
    if lt_i64 (get_hash_key kv'.0) (get_hash_key kv.0)
    then kv' ∷ insert_pair kv kvs
    else kv ∷ kv' ∷ kvs

unfoldable pub sort_pairs : List Pair → List Pair
unfolding insert_pair
sort_pairs [] = []
sort_pairs (kv ∷ kvs) = insert_pair kv (sort_pairs kvs)

-- Adds what a search tells of a pair to the new records, `*pos + 1` with each.
abbrev pub keep_missing : Pair → Find → List (ℕ × Record) → List (ℕ × Record)
keep_missing kv (found i) news = news
keep_missing kv (missing p) news = (p, record { key = get_hash_key kv.0; value = kv.1 }) ∷ news

-- `insert_count`, an int32_t, as it is added to an int64_t: the low 32 bits of the number of new keys, with the sign
-- extended.
unfoldable pub insert_count : ℕ → ℕ
insert_count news =
    let low = news % u32_mod in if ltb low (2 ^ 31) then low else low + (u64_mod - u32_mod)

-- `used_size + insert_count`.
unfoldable pub expect_size : ℕ → ℕ → ℕ
expect_size used news = (used + insert_count news) % u64_mod

-- The `r + 1` records still to move and the new ones still to write, the last first, with `w + 1`. A write outside the
-- records is a fault.
unfoldable pub merge_back : ℕ → ℕ → List (ℕ × Record) → List Record → Run (List Record)
merge_back n w [] records = done records
merge_back n zero (x ∷ rest) records = fault
merge_back zero (suc w) ((p, new) ∷ rest) records = elim (ltb w (length records)) [
  | true ↦ merge_back zero w rest (set records w new)
  | false ↦ fault
]
merge_back (suc n) (suc w) ((p, new) ∷ rest) records = elim (ltb w (length records)) [
  | true ↦ elim (ltb p (suc n)) [
    | true ↦ read (get_elem? records n) >>= λ moved.
        merge_back n w ((p, new) ∷ rest) (set records w moved)
    | false ↦ merge_back (suc n) w rest (set records w new)
  ]
  | false ↦ fault
]

abbrev pub reversed : List (ℕ × Record) → List (ℕ × Record) → List (ℕ × Record)
reversed [] acc = acc
reversed (x ∷ xs) acc = reversed xs (x ∷ acc)

module _ (normal_binary_search : Block → ℕ → Run Find) where
  unfoldable pub find_missing : SortTable → List Pair → Run (List (ℕ × Record))
  find_missing t [] = done []
  find_missing t (kv ∷ kvs) = locate normal_binary_search t (get_hash_key kv.0) >>= λ r.
      find_missing t kvs >>= λ news. done (keep_missing kv r news)

  -- The places of an exclusive table are computed there and not used.
  unfoldable pub batch_insert : SortTable → List Pair → Bool → Run (Bool × SortTable)
  batch_insert t kvs already_sorted =
      find_missing t (if already_sorted then kvs else sort_pairs kvs) >>= λ news.
      let size = expect_size t.block.used_size (length news) in
      if lt_i64 t.block.total_size size
      then elim t.kind [ exclusive ↦ done (true, t) | shared ↦ done (false, t) ]
      else merge_back t.block.used_size size (reversed news []) t.block.records >>= λ records.
          done (true, record t { block = record t.block { used_size = size; records = records } })

-- ===== src/SortTable/BatchFull.antt =====
-- `BatchInsert` into a table that has no room for the new keys.
use ad_index.Base.{
  ℕ, ◌+◌, ◌<◌, ◌≡◌, refl, Bool, true, false, List, [], ◌∷◌, none, some, if◌then◌else◌, length,
  lt_i64, Run, done, Returns, Returns-inv, arith, ◌^◌, rank, inl, inr,
}
use ad_index.Index.{IsBytes}
use ad_index.SortTable.{Record, Block, Find}
use ad_index.SortTable.Table.{SortTable, exclusive, shared, get_hash_key}
use ad_index.SortTable.Contents.{contents, contents-at, contents-absent, Stored-cases}
use ad_index.SortTable.Valid.{IsValid}
use ad_index.SortTable.Hash.{get_hash_key-lt}
use ad_index.SortTable.Map.{IsSearch, locate-found, locate-absent}
use ad_index.SortTable.BatchInsert.{
  Pair, insert_pair, sort_pairs, find_missing, insert_count, expect_size, batch_insert,
}

-- The keys of all the pairs are bytes.
abbrev pub AllBytes : List Pair → Type 0
AllBytes [] = Unit {0}
AllBytes (kv ∷ kvs) = IsBytes kv.0 × AllBytes kvs

-- How many of the pairs have a key that the block does not hold.
unfoldable pub count_new : Block → List Pair → ℕ
count_new b [] = 0
count_new b (kv ∷ kvs) = elim (contents b (get_hash_key kv.0)) [
  | none ↦ 1 + count_new b kvs
  | some v ↦ count_new b kvs
]

AllBytes-insert_pair :
    (kv : Pair) (kvs : List Pair) → IsBytes kv.0 → AllBytes kvs → AllBytes (insert_pair kv kvs)
unfolding insert_pair
AllBytes-insert_pair kv [] b bs = (b, tt)
AllBytes-insert_pair kv (kv' ∷ kvs) b bs =
    go (lt_i64 (get_hash_key kv'.0) (get_hash_key kv.0)) (AllBytes-insert_pair kv kvs b bs.1)
  where
    go :
        (c : Bool)
        → AllBytes (insert_pair kv kvs)
        → AllBytes (if c then kv' ∷ insert_pair kv kvs else kv ∷ kv' ∷ kvs)
    go true rest = (bs.0, rest)
    go false rest = (b, bs)

AllBytes-sort_pairs : (kvs : List Pair) → AllBytes kvs → AllBytes (sort_pairs kvs)
unfolding sort_pairs
AllBytes-sort_pairs [] bs = tt
AllBytes-sort_pairs (kv ∷ kvs) bs =
    AllBytes-insert_pair kv (sort_pairs kvs) bs.0 (AllBytes-sort_pairs kvs bs.1)

count_new-insert_pair :
    (b : Block) (kv : Pair) (kvs : List Pair)
    → count_new b (insert_pair kv kvs) ≡ count_new b (kv ∷ kvs)
unfolding count_new insert_pair
count_new-insert_pair b kv [] = refl
count_new-insert_pair b kv (kv' ∷ kvs) = ground (arith, count_new-insert_pair b kv kvs)

count_new-sort_pairs :
    (b : Block) (kvs : List Pair) → count_new b (sort_pairs kvs) ≡ count_new b kvs
unfolding count_new sort_pairs
count_new-sort_pairs b [] = refl
count_new-sort_pairs b (kv ∷ kvs) =
    ground (arith, count_new-insert_pair b kv (sort_pairs kvs), count_new-sort_pairs b kvs)

module _ (normal : Block → ℕ → Run Find) (searches : IsSearch normal) (t : SortTable)
    (v : IsValid t.block) (bound : t.block.used_size < 2 ^ 31) where
  find_missing-count :
      (kvs : List Pair)
      → AllBytes kvs
      → Returns (find_missing normal t kvs) (λ news. length news ≡ count_new t.block kvs)
  unfolding find_missing count_new
  find_missing-count [] bs = refl
  find_missing-count (kv ∷ kvs) bs =
      let k = get_hash_key kv.0 in
      let small = get_hash_key-lt kv.0 bs.0 in
      let (news, ran, count) =
        Returns-inv (λ news. length news ≡ count_new t.block kvs) (find_missing normal t kvs)
          (find_missing-count kvs bs.1) in
      elim (Stored-cases t.block.records t.block.used_size k) [
        | inl (i, h, e) ↦
            rw (locate-found normal searches t k i v small bound h e, ran)
              (ground (arith, contents-at t.block k i v h e, count))
        | inr nowhere ↦
            let (p, at, _, _, _) = locate-absent normal searches t k v small bound nowhere in
            rw (at, ran) (ground (arith, contents-absent t.block k nowhere, count))
      ]

  lt_i64-expect_size :
      (news : List (ℕ × Record))
      → t.block.total_size < t.block.used_size + length news
      → length news < 2 ^ 31
      → lt_i64 t.block.total_size (expect_size t.block.used_size (length news)) ≡ true
  unfolding expect_size insert_count rank
  lt_i64-expect_size news full few = ground (arith, full, few, bound)

  -- Without room for the new keys, of which there are fewer than 2^31, `BatchInsert` into a valid table of fewer than
  -- 2^31 records, whose search for the lower levels is right, ends and leaves the table as it is; for an exclusive
  -- table it returns true all the same, for a shared one false.
  pub batch_insert_full :
      (kvs : List Pair) (already_sorted : Bool)
      → AllBytes kvs
      → t.block.total_size < t.block.used_size + count_new t.block kvs
      → count_new t.block kvs < 2 ^ 31
      → batch_insert normal t kvs already_sorted
        ≡ elim t.kind [ exclusive ↦ done (true, t) | shared ↦ done (false, t) ]
  unfolding batch_insert
  batch_insert_full kvs true bs full few =
      let (news, ran, count) =
        Returns-inv (λ news. length news ≡ count_new t.block kvs) (find_missing normal t kvs)
          (find_missing-count kvs bs) in
      rw (ran, lt_i64-expect_size news (omega (arith, full, count)) (omega (arith, few, count)))
        refl
  batch_insert_full kvs false bs full few =
      let (news, ran, count) =
        Returns-inv (λ news. length news ≡ count_new t.block (sort_pairs kvs))
          (find_missing normal t (sort_pairs kvs))
          (find_missing-count (sort_pairs kvs) (AllBytes-sort_pairs kvs bs)) in
      let same = count_new-sort_pairs t.block kvs in
      rw
        (
          ran,
          lt_i64-expect_size news (omega (arith, full, count, same))
              (omega (arith, few, count, same)),
        )
        refl

-- ===== src/SortTable/Map.antt =====
-- The table as a map: what `Search` finds after `Insert`, and what `Delete` does.
use ad_index.Base.{
  ℕ, ◌^◌, ◌<◌, ◌≤◌, ◌≡◌, ◌≢◌, refl, ap, Bool, true, false, List, none, some, arith, ltb, ◌==◌,
  if◌then◌else◌, length, Run, done, fault, Returns, Returns-inv, Bool-cases, inl, inr, u64_mod,
  bind-Returns,
}
use ad_index.SortTable.{Block, Find, found, missing}
use ad_index.SortTable.Table.{
  BlockPool, SortTable, exclusive, shared, set_value, add_record, locate, get_hash_key,
  get_record_by_key, insert, search, delete, max_binary_search_level,
}
use ad_index.Index.{KvPair, IsBytes, answer}
use ad_index.SortTable.Search.{key_at, Before, After, Locates, simd_binary_search-Locates}
use ad_index.SortTable.Add.{Adds, Inserted}
use ad_index.SortTable.Contents.{contents, contents-at, contents-absent, Stored-cases}
use ad_index.SortTable.Update.{set_value-IsValid, contents-set_value, contents-Inserted}
use ad_index.SortTable.Hash.{get_hash_key-lt}
use ad_index.SortTable.Valid.{
  IsValid, IsServed, add_record_refused, add_record-Inserted, Inserted-IsValid,
}

-- What sort_table.h says of `NormalBinarySearch`.
abbrev pub IsSearch : (Block → ℕ → Run Find) → Type 0
IsSearch normal =
    (b : Block) (k : ℕ)
    → IsValid b
    → b.used_size < 2 ^ 31
    → k < u64_mod
    → Returns (normal b k) (Locates b.records k b.used_size)

-- The table after `Insert` succeeded: valid, with the new value under its key and every other key
-- as before.
abbrev pub Updates : SortTable → ℕ → ℕ → Bool × SortTable → Type 0
Updates t k v (inserted, t') =
    (inserted ≡ true)
    × IsValid t'.block
    × (t' ≡ record t { block = t'.block })
    × ((j : ℕ) → contents t'.block j ≡ (if k == j then some v else contents t.block j))

module _ (normal : Block → ℕ → Run Find) (searches : IsSearch normal) where
  pub locate-Locates :
      (t : SortTable) (k : ℕ)
      → IsValid t.block
      → k < u64_mod
      → t.block.used_size < 2 ^ 31
      → Returns (locate normal t k) (Locates t.block.records k t.block.used_size)
  unfolding locate
  locate-Locates t k v small bound = elim (Bool-cases (ltb t.bs_level max_binary_search_level)) [
    | inl low ↦ rw low (searches t.block k v bound small)
    | inr simd ↦ rw simd (
        simd_binary_search-Locates t.block k v.sorted v.keys small (omega (arith, v.within, v.room))
          bound)
  ]

  -- A stored key is found where it stands, an absent key nowhere.
  pub locate-found :
      (t : SortTable) (k i : ℕ)
      → IsValid t.block
      → k < u64_mod
      → t.block.used_size < 2 ^ 31
      → i < t.block.used_size
      → key_at t.block.records i ≡ k
      → locate normal t k ≡ done (found i)
  locate-found t k i v small bound h e =
      let (r, ran, l) = Returns-inv _ (locate normal t k) (locate-Locates t k v small bound) in
      rw ran (go r l)
    where
      go : (r : Find) → Locates t.block.records k t.block.used_size r → done r ≡ done (found i)
      go (found j) (hj, ej) = ap (λ x. done (found x)) (ground (arith, v.sorted i j, v.sorted j i))
      go (missing p) (hp, b, a) = absurd (ground (arith, b i, a i))

  pub locate-absent :
      (t : SortTable) (k : ℕ)
      → IsValid t.block
      → k < u64_mod
      → t.block.used_size < 2 ^ 31
      → ((i : ℕ) → i < t.block.used_size → key_at t.block.records i ≢ k)
      → (p : ℕ) × (locate normal t k ≡ done (missing p))
        × (p ≤ t.block.used_size)
        × Before t.block.records k p
        × After t.block.records k p t.block.used_size
  locate-absent t k v small bound no_key =
      let (r, ran, l) = Returns-inv _ (locate normal t k) (locate-Locates t k v small bound) in
      go r ran l
    where
      go :
          (r : Find)
          → locate normal t k ≡ done r
          → Locates t.block.records k t.block.used_size r
          → (p : ℕ) × (locate normal t k ≡ done (missing p))
            × (p ≤ t.block.used_size)
            × Before t.block.records k p
            × After t.block.records k p t.block.used_size
      go (found j) e (hj, ej) = absurd (no_key j hj ej)
      go (missing p) e (hp, b, a) = (p, e, hp, b, a)

  -- `Search` ends, and returns what the table holds under the key; -1 if it holds none.
  pub search_lem :
      (t : SortTable) (key : List ℕ) (kv : KvPair)
      → IsValid t.block
      → t.block.used_size < 2 ^ 31
      → IsBytes key
      → kv.key ≡ some key
      → search normal t kv ≡ done (answer (contents t.block (get_hash_key key)))
  unfolding search get_record_by_key
  search_lem t key kv v bound bytes e =
      rw e (elim (Stored-cases t.block.records t.block.used_size (get_hash_key key)) [
        | inl (i, h, k) ↦ rw (
          locate-found t (get_hash_key key) i v (get_hash_key-lt key bytes) bound h k,
          contents-at t.block (get_hash_key key) i v h k,
        )
        | inr nowhere ↦
            let (p, ran, _, _, _) =
              locate-absent t (get_hash_key key) v (get_hash_key-lt key bytes) bound nowhere in
            rw (ran, contents-absent t.block (get_hash_key key) nowhere)
      ])

  overwrites :
      (t : SortTable) (k i v : ℕ)
      → IsValid t.block
      → i < t.block.used_size
      → key_at t.block.records i ≡ k
      → Updates t k v (true, record t { block = set_value t.block i v })
  overwrites t k i v valid h e = (
    refl,
    set_value-IsValid t.block i v valid h,
    refl,
    λ j. rw (← e) (contents-set_value t.block i v valid h j),
  )

  extends :
      (t : SortTable) (k p v : ℕ) (b : Block)
      → IsValid t.block
      → p ≤ t.block.used_size
      → Before t.block.records k p
      → After t.block.records k p t.block.used_size
      → k < u64_mod
      → Inserted t.block b p k
      → Updates t k v (true, record t { block = set_value b p v })
  extends t k p v b valid le before after small i =
      let valid' = Inserted-IsValid t.block b p k i le valid small before after in
      let h : p < b.used_size = omega (arith, i.count) in
      (
        refl,
        set_value-IsValid b p v valid' h,
        refl,
        λ j. ground (
          arith,
          contents-set_value b p v valid' h j,
          i.here,
          contents-Inserted t.block b p k j i le valid valid',
        ),
      )

  -- `Insert` into a valid table over a pool that serves it ends, returns true, keeps the table
  -- valid, and puts the value under its key and nothing else.
  pub insert_lem :
      (t : SortTable) (key : List ℕ) (kv : KvPair)
      → IsValid t.block
      → t.block.used_size < 2 ^ 31
      → IsServed t
      → IsBytes key
      → kv.key ≡ some key
      → kv.payload_len ≡ 0
      → Returns (insert normal t kv) (Updates t (get_hash_key key) kv.value)
  unfolding insert get_record_by_key
  insert_lem t key kv v bound served bytes e plain =
      let k = get_hash_key key in
      rw (e, plain)
        (elim (Stored-cases t.block.records t.block.used_size k) [
          | inl (i, h, same) ↦
              rw (locate-found t k i v (get_hash_key-lt key bytes) bound h same)
                (overwrites t k i kv.value v h same)
          | inr nowhere ↦
              let (p, ran, le, b, a) =
                locate-absent t k v (get_hash_key-lt key bytes) bound nowhere in
              rw ran (
                bind-Returns (Adds t.block p k) (Updates t k kv.value) (add_record t p k) _
                  (add_record-Inserted t p k served v le)
                  (λ r i.
                    rw i.0 (extends t k p kv.value r.1 v le b a (get_hash_key-lt key bytes) i.1)))
        ])

  -- `Delete` of a stored key returns false and leaves the table as it is; of any other key it ends
  -- in an access through nullptr.
  pub delete_lem :
      (t : SortTable) (key : List ℕ) (kv : KvPair)
      → IsValid t.block
      → t.block.used_size < 2 ^ 31
      → IsBytes key
      → kv.key ≡ some key
      → delete normal t kv
        ≡ elim (contents t.block (get_hash_key key)) [ some v ↦ done (false, t) | none ↦ fault ]
  unfolding delete get_record_by_key
  delete_lem t key kv v bound bytes e =
      rw e (elim (Stored-cases t.block.records t.block.used_size (get_hash_key key)) [
        | inl (i, h, k) ↦ rw (
          locate-found t (get_hash_key key) i v (get_hash_key-lt key bytes) bound h k,
          contents-at t.block (get_hash_key key) i v h k,
        )
        | inr nowhere ↦
            let (p, ran, _, _, _) =
              locate-absent t (get_hash_key key) v (get_hash_key-lt key bytes) bound nowhere in
            rw (ran, contents-absent t.block (get_hash_key key) nowhere)
      ])

  -- A new key does not fit into a full table whose pool gives no memory. A shared table is left as
  -- it is, and `Insert` returns false; an exclusive one that fills its memory is written past its end.
  pub insert_refused :
      (t : SortTable) (key : List ℕ) (kv : KvPair) (pool : BlockPool)
      → IsValid t.block
      → t.block.used_size < 2 ^ 31
      → IsBytes key
      → kv.key ≡ some key
      → kv.payload_len ≡ 0
      → contents t.block (get_hash_key key) ≡ none
      → t.block.used_size ≡ length t.block.records
      → t.mmap_pool ≡ some pool
      → ((n : ℕ) → pool.new_block n ≡ none)
      → ((n : ℕ) → pool.extension n ≡ none)
      → insert normal t kv ≡ elim t.kind [ exclusive ↦ fault | shared ↦ done (false, t) ]
  unfolding insert get_record_by_key
  insert_refused t key kv pool v bound bytes e plain absent full served no_block no_extension =
      rw (e, plain)
        (elim (Stored-cases t.block.records t.block.used_size (get_hash_key key)) [
          | inl (i, h, k) ↦ cc (contents-at t.block (get_hash_key key) i v h k)
          | inr nowhere ↦
              let (p, ran, le, _, _) =
                locate-absent t (get_hash_key key) v (get_hash_key-lt key bytes) bound nowhere in
              rw
                (
                  ran,
                  add_record_refused t p (get_hash_key key) pool v full served (no_block _)
                      (no_extension _),
                )
                (ground arith)
        ])

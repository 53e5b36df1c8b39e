-- ===== src/HashTable/Table.antt =====
-- kernel/index/hash_table/murmurhash_table.{h,cc}. A bucket is named by its index from `first_`: the
-- array holds those below `bucket_num_`, and the pool gives those of the chains behind it.
use ad_index.Base.{
  ℕ, zero, suc, ◌+◌, ◌-◌, ◌%◌, ◌^◌, Bool, true, false, ◌&&◌, not, List, Option, none, some, ltb,
  leb, ◌==◌, if◌then◌else◌, length, bit_and, Run, done, fault, out_of_fuel, ◌>>=◌, u32_mod,
}
use ad_index.Index.{KvPair, answer}
use ad_index.Utils.Murmur.{murmur_hash2}
use ad_index.HashTable.Bucket.{
  HashBucket, empty_bucket, set_value, get_value, set_next_bucket, mark_occupied, clear_occupied,
  set_key_size, set_hash_code, set_hash_code_in_payload, check_hash_code_in_payload,
  set_key_in_payload, check_key_in_payload,
}

-- The pool, with the state `P`: the index from `first_` of the bucket that `Alloc` gives, `none` for
-- nullptr, and what `Free` of a bucket returns.
pub record BucketPool (P : Type 0) : Type 0 where
  pub alloc : P → Option ℕ × P
  pub free : P → ℕ → Bool × P

-- `bucket_num_` and `used_size`, the memory from `first_` on, and the pool.
pub record HashTable (P : Type 0) : Type 0 where
  pub bucket_num : ℕ
  pub used_size : ℕ
  pub memory : ℕ → HashBucket
  pub mmap_pool : Option P

abbrev pub put : (ℕ → HashBucket) → ℕ → HashBucket → ℕ → HashBucket
put memory i b j = if j == i then b else memory j

-- The rounds from `i` on, `n` of them, for a number of at least 2.
unfoldable pub shift_until : ℕ → ℕ → ℕ → ℕ
shift_until zero i bucket_num = 2 ^ (i - 1)
shift_until (suc n) i bucket_num =
    let rest = shift_until n (i + 1) bucket_num in if leb bucket_num (2 ^ i) then 2 ^ i else rest

unfoldable pub set_bucket_num : ℕ → ℕ
unfolding shift_until
set_bucket_num bucket_num = shift_until 31 1 (if ltb 2 bucket_num then bucket_num else 2)

-- `first_[i].Clear()` for every bucket of the array.
unfoldable pub clear_buckets : ℕ → (ℕ → HashBucket) → ℕ → HashBucket
clear_buckets n memory j = if ltb j n then empty_bucket else memory j

-- `InitEmptyHashTable`, which calls `Alloc` for the header and the array: whether it gives memory,
-- and the table if it succeeds. The magic numbers of the header are not kept.
unfoldable pub init_empty_hash_table : {P : Type 0} → HashTable P → Bool → Option (HashTable P)
init_empty_hash_table t allocated = elim t.mmap_pool [
  | none ↦ none
  | some p ↦
      if allocated
      then some (record t { used_size = 0; memory = clear_buckets t.bucket_num t.memory })
      else none
]

-- `GetRawBucketByKey`
unfoldable pub raw_bucket : ℕ → List ℕ → ℕ
raw_bucket bucket_num key = bit_and (murmur_hash2 key 0x89741511) (bucket_num - 1)

abbrev pub check_code : List ℕ → ℕ
check_code key = murmur_hash2 key 0x91BA1109

abbrev pub payload_check_code : List ℕ → ℕ
payload_check_code key = murmur_hash2 key 0x27EF9050

-- The test of a bucket, for keys of at most two bytes and for longer ones.
unfoldable pub check : List ℕ → HashBucket → Bool
check key b =
    if leb (length key) 2
    then check_key_in_payload b key
    else b.key_size == length key
      && b.hash_code == check_code key
      && check_hash_code_in_payload b (payload_check_code key)

-- What is written into a bucket taken for a key, before its value.
unfoldable pub write_key : List ℕ → HashBucket → HashBucket
write_key key b =
    if leb (length key) 2
    then set_key_in_payload b key
    else set_hash_code_in_payload (set_hash_code (set_key_size b (length key)) (check_code key))
        (payload_check_code key)

-- A bucket with its predecessor, or the last one of the chain.
pub data Walk : Type 0 where
  reached : ℕ → ℕ → Walk
  stopped : ℕ → Walk

-- `while (bucket->GetNextBucket() >= bucket_num_)`
unfoldable pub walk : ℕ → (HashBucket → Bool) → (ℕ → HashBucket) → ℕ → ℕ → Run Walk
walk zero hit memory bucket_num i = out_of_fuel
walk (suc fuel) hit memory bucket_num i =
    let next = (memory i).next_bucket in
    elim (leb bucket_num next) [
      | false ↦ done (stopped i)
      | true ↦ elim (hit (memory next)) [
        | true ↦ done (reached i next)
        | false ↦ walk fuel hit memory bucket_num next
      ]
    ]

abbrev pub hits : List ℕ → HashBucket → Bool
hits key b = b.occupied && check key b

-- `if (prev != nullptr) prev->SetNextBucket(next_bucket)`
abbrev pub unlink : (ℕ → HashBucket) → Option ℕ → ℕ → ℕ → HashBucket
unlink memory none next = memory
unlink memory (some prev) next = put memory prev (set_next_bucket (memory prev) next)

module _ {P : Type 0} (pool : BucketPool P) where
  -- A bucket for the key, where the walk stopped at `last`.
  unfoldable pub create_bucket : HashTable P → List ℕ → ℕ → ℕ → Run (Option ℕ × HashTable P)
  create_bucket t key first last =
      if not (t.memory first).occupied
      then done
          (some first, record t { memory = put t.memory first (write_key key (t.memory first)) })
      else elim t.mmap_pool [
        | none ↦ done (none, t)
        | some p ↦ elim (pool.alloc p).0 [
          | none ↦ fault
          | some i ↦
              let written = put t.memory i (write_key key (t.memory i)) in
              let linked = put written last (set_next_bucket (written last) i) in
              done (
                some i,
                record t {
                  memory = put linked i (set_next_bucket (linked i) first);
                  mmap_pool = some (pool.alloc p).1;
                },
              )
        ]
      ]

  -- `GetBucketByKeyLePayloadSize` and `GetBucketByKeyGtPayloadSize`, with the fuel for the walk: the
  -- bucket and `*prev`.
  unfoldable pub get_bucket_by_key :
      ℕ → HashTable P → Option (List ℕ) → Bool → Run ((Option ℕ × Option ℕ) × HashTable P)
  get_bucket_by_key fuel t none allow_create = done ((none, none), t)
  get_bucket_by_key fuel t (some key) allow_create =
      if length key == 0
      then done ((none, none), t)
      else let first = raw_bucket t.bucket_num key in
        if hits key (t.memory first)
        then done ((some first, none), t)
        else walk fuel (hits key) t.memory t.bucket_num first >>= elim [
          | reached prev i ↦ done ((some i, some prev), t)
          | stopped last ↦
              if allow_create
              then (create_bucket t key first last >>= λ r.
                  done ((r.0, if (t.memory first).occupied then some last else none), r.1))
              else done ((none, none), t)
        ]

  unfoldable pub insert : ℕ → HashTable P → KvPair → Run (Bool × HashTable P)
  insert fuel t kv =
      if ltb 0 kv.payload_len
      then done (false, t)
      else get_bucket_by_key fuel t kv.key true >>= λ r. elim r.0.0 [
        | none ↦ done (false, r.1)
        | some i ↦
            let b = r.1.memory i in
            done (
              true,
              record r.1 {
                used_size = if b.occupied then r.1.used_size else (r.1.used_size + 1) % u32_mod;
                memory = put r.1.memory i (mark_occupied (set_value b kv.value));
              },
            )
      ]

  -- `mmap_pool_->Free` at the end, its result returned.
  unfoldable pub free_bucket : HashTable P → ℕ → Bool × HashTable P
  free_bucket t i = elim t.mmap_pool [
    | none ↦ (false, t)
    | some p ↦ ((pool.free p i).0, record t { mmap_pool = some (pool.free p i).1 })
  ]

  unfoldable pub delete : ℕ → HashTable P → KvPair → Run (Bool × HashTable P)
  unfolding free_bucket
  delete fuel t kv = get_bucket_by_key fuel t kv.key false >>= λ r. elim r.0.0 [
    | none ↦ done (true, t)
    | some i ↦
        let used_size = (t.used_size + (u32_mod - 1)) % u32_mod in
        let memory = put t.memory i (clear_occupied (t.memory i)) in
        let next = (t.memory i).next_bucket in
        if ltb i t.bucket_num
        then if leb t.bucket_num next
          then done (
              free_bucket
                (record t {
                  used_size = used_size;
                  memory = put (put memory i (memory next)) next empty_bucket;
                })
                next)
          else done (
              free_bucket
                (record t {
                  used_size = used_size;
                  memory = put (unlink memory r.0.1 next) i empty_bucket;
                })
                i)
        else done (true, record t { used_size = used_size; memory = memory })
  ]

  unfoldable pub search : ℕ → HashTable P → KvPair → Run (Bool × ℕ)
  search fuel t kv = get_bucket_by_key fuel t kv.key false >>= λ r. elim r.0.0 [
    | none ↦ done (answer none)
    | some i ↦ done (answer (some (get_value (t.memory i))))
  ]

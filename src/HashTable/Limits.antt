-- ===== src/HashTable/Limits.antt =====
-- The size of the array, keys of 256 bytes and more, and the buckets that `Delete` gives to the pool.
use mathlib.Core.Path.{subst}
use ad_index.Base.{
  ℕ, zero, suc, ◌+◌, ◌-◌, ◌^◌, ◌<◌, ◌≤◌, ◌≡◌, refl, ◌∙◌, ap, true, false, List, [], ◌∷◌, ltb, leb,
  length, arith, Bool-cases, inl, inr, none, some, leb-false, lt→ltb, done, Returns, ◌⊎◌,
}
use ad_index.Index.{KvPair, answer}
use ad_index.HashTable.Bucket.{HashBucket, check_key_in_payload}
use ad_index.HashTable.Table.{
  BucketPool, HashTable, hits, check, raw_bucket, delete, search, free_bucket, shift_until,
  set_bucket_num, clear_buckets, init_empty_hash_table,
}
use ad_index.HashTable.Chains.{Memory, Chain, first}
use ad_index.HashTable.Contents.{find, tally, find-first}
use ad_index.HashTable.Valid.{IsValid, contents, raw_bucket-lt}
use ad_index.HashTable.Lookup.{bucket_first, search-contents}

-- The least power of two, from 2 on, that reaches a number.
abbrev pub LeastPower : ℕ → ℕ → Type 0
LeastPower b r = (k : ℕ) × (r ≡ 2 ^ k) × (0 < k) × (b ≤ 2 ^ k) × ((k ≡ 1) ⊎ (2 ^ (k - 1) < b))

shift_until-LeastPower :
    (n i b : ℕ)
    → i + n ≡ 32
    → 0 < i
    → b ≤ 2 ^ 31
    → (i ≡ 1) ⊎ (2 ^ (i - 1) < b)
    → LeastPower b (shift_until n i b)
unfolding shift_until
shift_until-LeastPower zero i b e pos h (inl one) = absurd (omega arith)
shift_until-LeastPower zero i b e pos h (inr more) =
    absurd (omega (arith, ap (λ x. 2 ^ (x - 1)) {x = i} {y = 32} (omega arith)))
shift_until-LeastPower (suc n) i b e pos h below = elim (Bool-cases (leb b (2 ^ i))) [
  | inl fits ↦ rw fits (i, refl, pos, ground arith, below)
  | inr more ↦ rw more (
      shift_until-LeastPower n (i + 1) b (omega arith) (omega arith) h
        (inr (subst (λ x. 2 ^ x < b) {x = i} (omega arith) (ground arith))))
]

-- `SetBucketNum` takes the least power of two that is not less than the number asked for, and
-- than 2; numbers beyond 2^31 are left out.
pub set_bucket_num-LeastPower :
    (n : ℕ)
    → n ≤ 2 ^ 31
    → (k : ℕ) × (set_bucket_num n ≡ 2 ^ k) × (0 < k) × (n ≤ 2 ^ k) × ((k ≡ 1) ⊎ (2 ^ (k - 1) < n))
unfolding set_bucket_num
set_bucket_num-LeastPower n h = elim (Bool-cases (ltb 2 n)) [
  | inl large ↦ rw large (shift_until-LeastPower 31 1 n refl (omega arith) h (inl refl))
  | inr small ↦ rw small (1, refl, omega arith, ground (arith, small), inl refl)
]

-- `key_size_` is a uint8_t.
check_long :
    (key : List ℕ) (b : HashBucket) → b.key_size < 2 ^ 8 → 2 ^ 8 ≤ length key → check key b ≡ false
unfolding check check_key_in_payload
check_long key b h l = ground (arith, h, l)

first_long :
    (key : List ℕ) (m : Memory) (is : List ℕ)
    → ((i : ℕ) → (m i).key_size < 2 ^ 8)
    → 2 ^ 8 ≤ length key
    → first (hits key) m is ≡ none
unfolding first
first_long key m [] h l = refl
first_long key m (x ∷ xs) h l =
    ground (arith, check_long key (m x) (h x) l, first_long key m xs h l)

module _ {P : Type 0} (pool : BucketPool P) (fuel : ℕ) (t : HashTable P) (chains : ℕ → List ℕ)
    (owner : ℕ → ℕ) (key : List ℕ) (kv : KvPair) (v : IsValid t.bucket_num t.memory chains owner)
    (e : kv.key ≡ some key) (filled : 0 < length key)
    (enough : length (chains (raw_bucket t.bucket_num key)) < fuel) where
  -- `Search` for a key of 256 bytes or more in a valid table, whose buckets keep key sizes of 8 bits,
  -- finds nothing, whatever was inserted, given more fuel than the chain of the key is long.
  pub search-check_long :
      ((i : ℕ) → (t.memory i).key_size < 2 ^ 8)
      → 2 ^ 8 ≤ length key
      → search pool fuel t kv ≡ done (answer none)
  unfolding contents
  search-check_long sizes long =
      search-contents pool fuel t chains owner key kv v e filled enough
      ∙ rw
          (
            find-first t.memory _ key,
            first_long key t.memory
                (raw_bucket t.bucket_num key ∷ chains (raw_bucket t.bucket_num key)) sizes long,
          )
          refl

  -- `Delete` of a key that is not empty and stands in a bucket of the array with no chain behind it,
  -- from a valid table with a pool, frees that bucket, though it lies inside the array and stays there.
  pub delete-free_bucket :
      (p : P)
      → t.mmap_pool ≡ some p
      → hits key (t.memory (raw_bucket t.bucket_num key)) ≡ true
      → chains (raw_bucket t.bucket_num key) ≡ []
      → (raw_bucket t.bucket_num key < t.bucket_num)
        × Returns
            (delete pool fuel t kv)
            (λ r. r.1.mmap_pool ≡ some (pool.free p (raw_bucket t.bucket_num key)).1)
  unfolding delete free_bucket
  delete-free_bucket p has_pool hit alone =
      let here = raw_bucket t.bucket_num key in
      let here-lt : here < t.bucket_num = raw_bucket-lt t.bucket_num key v.positive in
      let link : (t.memory here).next_bucket < t.bucket_num =
        subst (λ l. Chain t.memory t.bucket_num here l) alone (v.links here here-lt) in
      (
        here-lt,
        rw
            (
              e,
              bucket_first pool fuel t chains owner v key filled enough false hit,
              lt→ltb here t.bucket_num here-lt,
              leb-false t.bucket_num (t.memory here).next_bucket link,
              has_pool,
            )
            refl,
      )

-- `InitEmptyHashTable` of 1 to 2^29 buckets, with a pool that gives the memory, succeeds whatever the
-- memory held: the table is valid, with no chains, counts no key and holds none.
pub init-IsValid :
    {P : Type 0} (t : HashTable P) (p : P)
    → t.mmap_pool ≡ some p
    → 0 < t.bucket_num
    → t.bucket_num ≤ 2 ^ 29
    → (t' : HashTable P) × (init_empty_hash_table t true ≡ some t')
      × IsValid t.bucket_num t'.memory (λ s. []) (λ s. s)
      × (t'.used_size ≡ 0)
      × ((k : List ℕ) → contents t.bucket_num t'.memory (λ s. []) k ≡ none)
unfolding init_empty_hash_table clear_buckets contents find tally
init-IsValid t p has_pool pos small = (
  record t { used_size = 0; memory = clear_buckets t.bucket_num t.memory },
  rw has_pool refl,
  record {
    positive = pos;
    small = small;
    owned = λ s h. tt;
    heads = λ s h. refl;
    distinct = λ s h. tt;
    links = λ s h. ground (arith, h, pos);
    unique = λ s h k. ground (arith, h);
  },
  refl,
  λ k. ground (arith, raw_bucket-lt t.bucket_num k pos),
)

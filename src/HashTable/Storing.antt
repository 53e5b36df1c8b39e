-- ===== src/HashTable/Storing.antt =====
-- `Insert` of a key that has a bucket, or whose bucket of the array is free.
use ad_index.Base.{
  ℕ, ◌+◌, ◌%◌, ◌^◌, ◌<◌, ◌≤◌, ◌≡◌, refl, sym, ◌∙◌, ap, Bool, true, false, List, ◌∷◌, if◌then◌else◌,
  length, arith, Option, none, some, done, u32_mod,
}
use ad_index.Index.{KvPair}
use ad_index.HashTable.Bucket.{HashBucket, empty_bucket, set_value, get_value, mark_occupied}
use ad_index.HashTable.Table.{
  BucketPool, HashTable, put, hits, check, write_key, raw_bucket, create_bucket, get_bucket_by_key,
  insert,
}
use ad_index.HashTable.Keys.{check-write_key, check-value, write_key_lem}
use ad_index.HashTable.Chains.{Memory, first, Without, put_here, put_there}
use ad_index.HashTable.Contents.{find-first, first-hits}
use ad_index.HashTable.Valid.{IsValid, contents, same_key}
use ad_index.HashTable.Insertion.{overwrite, fill}
use ad_index.HashTable.Lookup.{bucket_missing}

-- The 48 bits of a value that a bucket keeps, read back as an int64_t.
unfoldable pub narrowed : ℕ → ℕ
narrowed value = get_value (set_value empty_bucket value)

pub get_value_kept :
    (b : HashBucket) (value : ℕ) → get_value (mark_occupied (set_value b value)) ≡ narrowed value
unfolding narrowed get_value set_value
get_value_kept b value = refl

pub next_kept :
    (b : HashBucket) (value : ℕ) → (mark_occupied (set_value b value)).next_bucket ≡ b.next_bucket
unfolding set_value
next_kept b value = refl

-- The pool gives a bucket that is free and hangs in no chain.
pub record Gives {P : Type 0} (pool : BucketPool P) (t : HashTable P) (chains : ℕ → List ℕ)
    : Type 0 where
  pub state : P
  pub bucket : ℕ
  pub has_pool : t.mmap_pool ≡ some state
  pub gives : (pool.alloc state).0 ≡ some bucket
  pub behind_array : t.bucket_num ≤ bucket
  pub in_reach : bucket < 2 ^ 29
  pub fresh : (s : ℕ) → s < t.bucket_num → Without bucket (chains s)
  pub free : (t.memory bucket).occupied ≡ false

-- The table after `Insert`: valid, with the value under its key and every other key as before, and
-- counted if the key is new.
abbrev pub Stored :
    {P : Type 0} → HashTable P → (ℕ → List ℕ) → List ℕ → ℕ → Bool × HashTable P → Type 0
Stored t chains key value (inserted, t') =
    (inserted ≡ true)
    × (t'.bucket_num ≡ t.bucket_num)
    × (t'.used_size ≡ elim (contents t.bucket_num t.memory chains key) [
      | none ↦ (t.used_size + 1) % u32_mod
      | some _ ↦ t.used_size
    ])
    × ((chains' : ℕ → List ℕ) × (owner' : ℕ → ℕ) × IsValid t'.bucket_num t'.memory chains' owner'
        × ((j : List ℕ)
            → contents t'.bucket_num t'.memory chains' j ≡ (
                if same_key t.bucket_num key j
                then some (narrowed value)
                else contents t.bucket_num t.memory chains j)))

module _ {P : Type 0} (pool : BucketPool P) (fuel : ℕ) (t : HashTable P) (chains : ℕ → List ℕ)
    (owner : ℕ → ℕ) (key : List ℕ) (kv : KvPair) (v : IsValid t.bucket_num t.memory chains owner)
    (e : kv.key ≡ some key) (filled : 0 < length key)
    (enough : length (chains (raw_bucket t.bucket_num key)) < fuel) where
  abbrev home : List ℕ
  home = raw_bucket t.bucket_num key ∷ chains (raw_bucket t.bucket_num key)

  pub contents-home :
      contents t.bucket_num t.memory chains key ≡ elim (first (hits key) t.memory home) [
        | none ↦ none
        | some j ↦ some (get_value (t.memory j))
      ]
  unfolding contents
  contents-home = find-first t.memory home key

  abbrev here : ℕ
  here = raw_bucket t.bucket_num key

  -- A bucket of the key is there.
  pub stores_again :
      (i : ℕ)
      → first (hits key) t.memory home ≡ some i
      → Stored t chains key kv.value (
        true,
        record t {
          used_size = if (t.memory i).occupied then t.used_size else (t.used_size + 1) % u32_mod;
          memory = put t.memory i (mark_occupied (set_value (t.memory i) kv.value));
        },
      )
  unfolding set_value
  stores_again i f =
      let (valid, now) =
        overwrite t.bucket_num t.memory chains owner v key i
          (mark_occupied (set_value (t.memory i) kv.value)) f
          (λ l. check-value l (t.memory i) kv.value) refl refl in
      (
        refl,
        refl,
        rw (contents-home, f) (ground (arith, first-hits (hits key) t.memory home i f)),
        (chains, owner, valid, λ j. rw (← get_value_kept (t.memory i) kv.value) (now j)),
      )

  -- What `Insert` does with the bucket that it was given.
  pub inserted_at :
      (i : ℕ) (prev : Option ℕ) (t1 : HashTable P)
      → kv.payload_len ≡ 0
      → get_bucket_by_key pool fuel t (some key) true ≡ done ((some i, prev), t1)
      → insert pool fuel t kv
        ≡ done (
          true,
          record t1 {
            used_size =
                if (t1.memory i).occupied then t1.used_size else (t1.used_size + 1) % u32_mod;
            memory = put t1.memory i (mark_occupied (set_value (t1.memory i) kv.value));
          },
        )
  unfolding insert
  inserted_at i prev t1 plain eq = rw (e, plain) (rw eq refl)

  abbrev written : Memory
  written = put t.memory here (write_key key (t.memory here))

  pub given_first :
      first (hits key) t.memory home ≡ none
      → (t.memory here).occupied ≡ false
      → (prev : Option ℕ) × (get_bucket_by_key pool fuel t (some key) true
          ≡ done ((some here, prev), record t { memory = written }))
  unfolding create_bucket
  given_first absent free = (
    none,
    bucket_missing pool fuel t chains owner v key filled enough true absent ∙ ground (arith, free),
  )

  -- The bucket of the array is free.
  pub stores_first :
      length key < 256
      → first (hits key) t.memory home ≡ none
      → (t.memory here).occupied ≡ false
      → Stored t chains key kv.value (
        true,
        record t {
          used_size = if (written here).occupied then t.used_size else (t.used_size + 1) % u32_mod;
          memory = put written here (mark_occupied (set_value (written here) kv.value));
        },
      )
  stores_first fits absent free =
      let b = mark_occupied (set_value (written here) kv.value) in
      let (valid, now) =
        fill t.bucket_num t.memory chains owner v key (put written here b)
          (λ y ne. put_there written here y b ne ∙ put_there t.memory here y _ ne)
          (λ j.
            ap (check j) (put_here written here b)
            ∙ (check-value j (written here) kv.value
                ∙ (ap (check j) (put_here t.memory here _)
                    ∙ check-write_key key j (t.memory here) fits)))
          (ap (λ (c : HashBucket). c.occupied) (put_here written here b))
          (ap (λ (c : HashBucket). c.next_bucket) (put_here written here b)
            ∙ (next_kept (written here) kv.value
                ∙ (ap (λ (c : HashBucket). c.next_bucket) (put_here t.memory here _)
                    ∙ (write_key_lem key (t.memory here)).1)))
          free absent in
      (
        refl,
        refl,
        rw (contents-home, absent)
            (ground (
              arith,
              ap (λ (c : HashBucket). c.occupied) (put_here t.memory here _),
              (write_key_lem key (t.memory here)).0,
              free,
            )),
        (
          chains,
          owner,
          valid,
          λ j.
              rw
                (sym
                  (ap get_value (put_here written here b) ∙ get_value_kept (written here) kv.value))
                (now j),
        ),
      )

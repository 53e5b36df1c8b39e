-- ===== src/HashTable/Map.antt =====
-- `Insert` on the table as a map.
use ad_index.Base.{
  ℕ, ◌+◌, ◌%◌, ◌<◌, ◌≡◌, ◌≢◌, refl, sym, ◌∙◌, ap, true, List, ◌∷◌, if◌then◌else◌, length, arith,
  Bool-cases, Option-cases, inl, inr, Option, none, some, done, Returns, u32_mod,
}
use ad_index.Index.{KvPair}
use ad_index.HashTable.Bucket.{HashBucket, set_value, get_value, mark_occupied, set_next_bucket}
use ad_index.HashTable.Table.{
  BucketPool, HashTable, put, hits, check, write_key, raw_bucket, create_bucket, get_bucket_by_key,
  insert,
}
use ad_index.HashTable.Keys.{check-write_key, check-value, check-link, write_key_lem}
use ad_index.HashTable.Chains.{Memory, first, last, put_here, put_there, last-Without}
use ad_index.HashTable.Valid.{IsValid, raw_bucket-lt}
use ad_index.HashTable.Appending.{append}
use ad_index.HashTable.Lookup.{bucket_found, bucket_missing}
use ad_index.HashTable.Storing.{
  Gives, Stored, get_value_kept, next_kept, contents-home, stores_again, inserted_at, given_first,
  stores_first,
}

module _ {P : Type 0} (pool : BucketPool P) (fuel : ℕ) (t : HashTable P) (chains : ℕ → List ℕ)
    (owner : ℕ → ℕ) (key : List ℕ) (kv : KvPair) (v : IsValid t.bucket_num t.memory chains owner)
    (e : kv.key ≡ some key) (filled : 0 < length key)
    (enough : length (chains (raw_bucket t.bucket_num key)) < fuel) where
  abbrev home : List ℕ
  home = raw_bucket t.bucket_num key ∷ chains (raw_bucket t.bucket_num key)

  abbrev here : ℕ
  here = raw_bucket t.bucket_num key

  module _ (g : Gives pool t chains) where
    abbrev final : ℕ
    final = last here (chains here)

    abbrev keyed : Memory
    keyed = put t.memory g.bucket (write_key key (t.memory g.bucket))

    abbrev linked : Memory
    linked = put keyed final (set_next_bucket (keyed final) g.bucket)

    abbrev hung : Memory
    hung = put linked g.bucket (set_next_bucket (linked g.bucket) here)

    given_behind :
        first (hits key) t.memory home ≡ none
        → (t.memory here).occupied ≡ true
        → (prev : Option ℕ) × (get_bucket_by_key pool fuel t (some key) true
            ≡ done (
              (some g.bucket, prev),
              record t { memory = hung; mmap_pool = some (pool.alloc g.state).1 },
            ))
    unfolding create_bucket
    given_behind absent taken = (
      some final,
      bucket_missing pool fuel t chains owner v key filled enough true absent
          ∙ rw (taken, g.has_pool, g.gives) refl,
    )

    here-lt : here < t.bucket_num
    here-lt = raw_bucket-lt t.bucket_num key v.positive

    final_other : final ≢ g.bucket
    final_other =
        last-Without here g.bucket (chains here)
          (λ q. absurd (omega (arith, here-lt, q, g.behind_array))) (g.fresh here here-lt)

    abbrev filled_bucket : HashBucket
    filled_bucket = mark_occupied (set_value (hung g.bucket) kv.value)

    hung_bucket : hung g.bucket ≡ set_next_bucket (write_key key (t.memory g.bucket)) here
    hung_bucket =
        put_here linked g.bucket _
        ∙ ap (λ c. set_next_bucket c here)
            (put_there keyed final g.bucket _ (λ q. final_other (sym q))
              ∙ put_here t.memory g.bucket _)

    stored_last : put hung g.bucket filled_bucket final ≡ set_next_bucket (t.memory final) g.bucket
    stored_last =
        put_there hung g.bucket final filled_bucket final_other
        ∙ (put_there linked g.bucket final _ final_other
            ∙ (put_here keyed final _
                ∙ ap (λ c. set_next_bucket c g.bucket)
                    (put_there t.memory g.bucket final _ final_other)))

    stores_behind :
        length key < 256
        → first (hits key) t.memory home ≡ none
        → Stored t chains key kv.value (
          true,
          record t {
            used_size =
                if (hung g.bucket).occupied then t.used_size else (t.used_size + 1) % u32_mod;
            memory = put hung g.bucket filled_bucket;
            mmap_pool = some (pool.alloc g.state).1;
          },
        )
    stores_behind fits absent =
        let (valid, now) =
          append t.bucket_num t.memory chains owner v key (put hung g.bucket filled_bucket) g.bucket
            (λ y ne nl.
              put_there hung g.bucket y _ ne
              ∙ (put_there linked g.bucket y _ ne
                  ∙ (put_there keyed final y _ nl ∙ put_there t.memory g.bucket y _ ne)))
            (λ j. ap (check j) stored_last ∙ check-link j (t.memory final) g.bucket)
            (ap (λ (c : HashBucket). c.occupied) stored_last)
            (ap (λ (c : HashBucket). c.value) stored_last)
            (ap (λ (c : HashBucket). c.next_bucket) stored_last ∙ omega (arith, g.in_reach))
            (λ j.
              ap (check j) (put_here hung g.bucket _)
              ∙ (check-value j (hung g.bucket) kv.value
                  ∙ (ap (check j) hung_bucket
                      ∙ (check-link j _ here ∙ check-write_key key j (t.memory g.bucket) fits))))
            (ap (λ (c : HashBucket). c.occupied) (put_here hung g.bucket _))
            (omega (
              arith,
              ap (λ (c : HashBucket). c.next_bucket) (put_here hung g.bucket filled_bucket),
              next_kept (hung g.bucket) kv.value,
              ap (λ (c : HashBucket). c.next_bucket) hung_bucket,
              here-lt,
              v.small,
            ))
            g.behind_array g.fresh absent in
        (
          refl,
          refl,
          rw (contents-home pool fuel t chains owner key kv v e filled enough, absent)
              (ground (
                arith,
                ap (λ (c : HashBucket). c.occupied) hung_bucket,
                (write_key_lem key (t.memory g.bucket)).0,
                g.free,
              )),
          (
            _,
            _,
            valid,
            λ j.
                rw
                  (sym (
                    ap get_value (put_here hung g.bucket filled_bucket)
                    ∙ get_value_kept (hung g.bucket) kv.value))
                  (now j),
          ),
        )

  -- `Insert`, without payload, of a key of 1 to 255 bytes into a valid table over a pool that gives
  -- a free bucket ends, with more fuel than the chain of the key is long. It returns true, keeps the
  -- table valid, puts the lowest 48 bits of the value, sign-extended, under the key and those that
  -- the table takes for the same, leaves every other key, and counts a new key.
  pub insert-Stored :
      length key < 256
      → kv.payload_len ≡ 0
      → Gives pool t chains
      → Returns (insert pool fuel t kv) (Stored t chains key kv.value)
  insert-Stored fits plain g = elim (Option-cases (first (hits key) t.memory home)) [
    | inl absent ↦ elim (Bool-cases (t.memory here).occupied) [
      | inl taken ↦
          let (prev, eq) = given_behind g absent taken in
          rw
            (inserted_at pool fuel t chains owner key kv v e filled enough g.bucket prev _ plain eq)
            (stores_behind g fits absent)
      | inr free ↦
          let (prev, eq) =
            given_first pool fuel t chains owner key kv v e filled enough absent free in
          rw (inserted_at pool fuel t chains owner key kv v e filled enough here prev _ plain eq)
            (stores_first pool fuel t chains owner key kv v e filled enough fits absent free)
    ]
    | inr (i, f) ↦
        let (prev, eq) = bucket_found pool fuel t chains owner v key filled enough i true f in
        rw (inserted_at pool fuel t chains owner key kv v e filled enough i prev t plain eq)
          (stores_again pool fuel t chains owner key kv v e filled enough i f)
  ]

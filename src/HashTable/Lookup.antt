-- ===== src/HashTable/Lookup.antt =====
-- The bucket that GetBucketByKey gives, and what `Search` finds.
use ad_index.Base.{
  ℕ, ◌<◌, ◌≡◌, refl, Bool, true, false, List, ◌∷◌, ◌==◌, if◌then◌else◌, length, arith, Bool-cases,
  Option-cases, inl, inr, Option, none, some, done, ◌>>=◌,
}
use ad_index.Index.{KvPair, answer}
use ad_index.HashTable.Table.{
  BucketPool, HashTable, Walk, reached, stopped, walk, hits, raw_bucket, create_bucket,
  get_bucket_by_key, search,
}
use ad_index.HashTable.Chains.{first, last, seek, walk-seek, seek-Sought, Sought}
use ad_index.HashTable.Contents.{find-first}
use ad_index.HashTable.Valid.{IsValid, contents, raw_bucket-lt}

module _ {P : Type 0} (pool : BucketPool P) (fuel : ℕ) (t : HashTable P) (chains : ℕ → List ℕ)
    (owner : ℕ → ℕ) (v : IsValid t.bucket_num t.memory chains owner) (key : List ℕ)
    (filled : 0 < length key) (enough : length (chains (raw_bucket t.bucket_num key)) < fuel) where
  abbrev start : ℕ
  start = raw_bucket t.bucket_num key

  abbrev behind : List ℕ
  behind = chains start

  walks :
      walk fuel (hits key) t.memory t.bucket_num start
      ≡ done (seek (hits key) t.memory start behind)
  walks =
      walk-seek fuel (hits key) t.memory t.bucket_num start behind
        (v.links start (raw_bucket-lt t.bucket_num key v.positive)) enough

  nonempty : (length key == 0) ≡ false
  nonempty = ground (arith, filled)

  -- The bucket of the array stands for the key.
  pub bucket_first :
      (allow_create : Bool)
      → hits key (t.memory start) ≡ true
      → get_bucket_by_key pool fuel t (some key) allow_create ≡ done ((some start, none), t)
  unfolding get_bucket_by_key
  bucket_first allow_create hit = rw (nonempty, hit) refl

  -- The bucket of a key that the table holds.
  pub bucket_found :
      (i : ℕ) (allow_create : Bool)
      → first (hits key) t.memory (start ∷ behind) ≡ some i
      → (prev : Option ℕ) × (get_bucket_by_key pool fuel t (some key) allow_create
          ≡ done ((some i, prev), t))
  unfolding get_bucket_by_key first
  bucket_found i allow_create f = elim (Bool-cases (hits key (t.memory start))) [
    | inl hit ↦ (none, ground (arith, hit, f, filled))
    | inr miss ↦
        go (seek (hits key) t.memory start behind) walks miss
          (seek-Sought (hits key) t.memory start behind)
  ]
    where
      go :
          (w : Walk)
          → walk fuel (hits key) t.memory t.bucket_num start ≡ done w
          → hits key (t.memory start) ≡ false
          → Sought t.memory (hits key) start behind w
          → (prev : Option ℕ) × (get_bucket_by_key pool fuel t (some key) allow_create
              ≡ done ((some i, prev), t))
      go (reached p j) ran miss s = (some p, rw (nonempty, miss, ran) (ground (arith, f, miss, s)))
      go (stopped l) ran miss s = absurd (ground (arith, f, miss, s.0))

  -- No bucket, or a new one, for a key that the table does not hold.
  pub bucket_missing :
      (allow_create : Bool)
      → first (hits key) t.memory (start ∷ behind) ≡ none
      → get_bucket_by_key pool fuel t (some key) allow_create ≡ (
          if allow_create
          then (create_bucket pool t key start (last start behind) >>= λ r.
              done
                ((r.0, if (t.memory start).occupied then some (last start behind) else none), r.1))
          else done ((none, none), t))
  unfolding get_bucket_by_key first
  bucket_missing allow_create f = elim (Bool-cases (hits key (t.memory start))) [
    | inl hit ↦ absurd (ground (arith, hit, f))
    | inr miss ↦
        go (seek (hits key) t.memory start behind) walks miss
          (seek-Sought (hits key) t.memory start behind)
  ]
    where
      go :
          (w : Walk)
          → walk fuel (hits key) t.memory t.bucket_num start ≡ done w
          → hits key (t.memory start) ≡ false
          → Sought t.memory (hits key) start behind w
          → get_bucket_by_key pool fuel t (some key) allow_create ≡ (
              if allow_create
              then (create_bucket pool t key start (last start behind) >>= λ r. done (
                (r.0, if (t.memory start).occupied then some (last start behind) else none),
                r.1,
              ))
              else done ((none, none), t))
      go (reached p j) ran miss s = absurd (ground (arith, f, miss, s))
      go (stopped l) ran miss s = rw (nonempty, miss, ran) (rw s.1 refl)

module _ {P : Type 0} (pool : BucketPool P) (fuel : ℕ) (t : HashTable P) (chains : ℕ → List ℕ)
    (owner : ℕ → ℕ) (key : List ℕ) (kv : KvPair) (v : IsValid t.bucket_num t.memory chains owner)
    (e : kv.key ≡ some key) (filled : 0 < length key)
    (enough : length (chains (raw_bucket t.bucket_num key)) < fuel) where
  abbrev home : List ℕ
  home = raw_bucket t.bucket_num key ∷ chains (raw_bucket t.bucket_num key)

  -- `Search` of a valid table for a key that is not empty ends, with more fuel than the chain of
  -- the key is long, and returns what the table holds under the key; -1 if it holds nothing.
  pub search-contents :
      search pool fuel t kv ≡ done (answer (contents t.bucket_num t.memory chains key))
  unfolding search contents
  search-contents = rw e (elim (Option-cases (first (hits key) t.memory home)) [
    | inl absent ↦
        rw
          (
            bucket_missing pool fuel t chains owner v key filled enough false absent,
            find-first t.memory home key,
            absent,
          )
          refl
    | inr (i, f) ↦
        let (prev, eq) = bucket_found pool fuel t chains owner v key filled enough i false f in
        rw (eq, find-first t.memory home key, f) refl
  ])

-- ===== src/HashTable/Deletion.antt =====
-- `Delete` on the table as a map.
use mathlib.Core.Path.{subst}
use ad_index.Base.{
  ℕ, ◌+◌, ◌-◌, ◌%◌, ◌<◌, ◌≤◌, ◌≡◌, ◌≢◌, refl, sym, ◌∙◌, ap, Bool, true, false, List, [], ◌∷◌, ◌==◌,
  if◌then◌else◌, length, arith, Bool-cases, Option-cases, inl, inr, none, some, ltb-false,
  leb-false, le→leb, lt→ltb, done, Returns, u32_mod,
}
use ad_index.Index.{KvPair}
use ad_index.HashTable.Bucket.{empty_bucket, clear_occupied}
use ad_index.HashTable.Table.{BucketPool, HashTable, put, hits, raw_bucket, delete, free_bucket}
use ad_index.HashTable.Chains.{Memory, Chain, first, put_here, put_there}
use ad_index.HashTable.Contents.{find-first}
use ad_index.HashTable.Valid.{IsValid, contents, same_key, raw_bucket-lt}
use ad_index.HashTable.Removal.{unmark, clear}
use ad_index.HashTable.Pulling.{pull}
use ad_index.HashTable.Lookup.{bucket_first, bucket_found, bucket_missing}

-- The table after `Delete` of a key that it held: valid, without the key and with every other key.
abbrev pub Removed :
    {P : Type 0} → HashTable P → (ℕ → List ℕ) → List ℕ → Bool × HashTable P → Type 0
Removed t chains key (deleted, t') =
    (deleted ≡ true)
    × (t'.bucket_num ≡ t.bucket_num)
    × (t'.used_size ≡ (t.used_size + (u32_mod - 1)) % u32_mod)
    × ((chains' : ℕ → List ℕ) × (owner' : ℕ → ℕ) × IsValid t'.bucket_num t'.memory chains' owner'
        × ((j : List ℕ)
            → contents t'.bucket_num t'.memory chains' j ≡ (
                if same_key t.bucket_num key j
                then none
                else contents t.bucket_num t.memory chains j)))

first-in-Chain :
    (hit : _) (m : Memory) (n i j : ℕ) (is : List ℕ)
    → Chain m n i is
    → first hit m is ≡ some j
    → n ≤ j
unfolding first
first-in-Chain hit m n i j [] c f = absurd (cc f)
first-in-Chain hit m n i j (x ∷ xs) c f = ground (arith, f, c, first-in-Chain hit m n x j xs c.2)

module _ {P : Type 0} (pool : BucketPool P) (fuel : ℕ) (t : HashTable P) (chains : ℕ → List ℕ)
    (owner : ℕ → ℕ) (key : List ℕ) (kv : KvPair) (v : IsValid t.bucket_num t.memory chains owner)
    (e : kv.key ≡ some key) (filled : 0 < length key)
    (enough : length (chains (raw_bucket t.bucket_num key)) < fuel) (p : P)
    (has_pool : t.mmap_pool ≡ some p) (frees : (i : ℕ) → (pool.free p i).0 ≡ true) where
  abbrev here : ℕ
  here = raw_bucket t.bucket_num key

  here-lt : here < t.bucket_num
  here-lt = raw_bucket-lt t.bucket_num key v.positive

  abbrev fewer : ℕ
  fewer = (t.used_size + (u32_mod - 1)) % u32_mod

  -- A bucket of the chain.
  removes_behind :
      (i : ℕ)
      → first (hits key) t.memory (here ∷ chains here) ≡ some i
      → t.bucket_num ≤ i
      → Returns (delete pool fuel t kv) (Removed t chains key)
  unfolding delete
  removes_behind i f above =
      let (prev, eq) = bucket_found pool fuel t chains owner v key filled enough i false f in
      let (valid, now) = unmark t.bucket_num t.memory chains owner v key i f in
      rw (e, eq, ltb-false i t.bucket_num above) (refl, refl, refl, (chains, owner, valid, now))

  -- The bucket of the array.
  removes_first :
      hits key (t.memory here) ≡ true → Returns (delete pool fuel t kv) (Removed t chains key)
  unfolding delete free_bucket
  removes_first hit = go (chains here) refl
    where
      unmarked : Memory
      unmarked = put t.memory here (clear_occupied (t.memory here))

      go : (is : List ℕ) → chains here ≡ is → Returns (delete pool fuel t kv) (Removed t chains key)
      go [] q =
          let alone : (t.memory here).next_bucket < t.bucket_num =
            subst (λ l. Chain t.memory t.bucket_num here l) q (v.links here here-lt) in
          let (valid, now) =
            clear t.bucket_num t.memory chains owner v key (put unmarked here empty_bucket) q
              (put_here unmarked here _)
              (λ y ne. put_there unmarked here y _ ne ∙ put_there t.memory here y _ ne) hit in
          rw
            (
              e,
              bucket_first pool fuel t chains owner v key filled enough false hit,
              lt→ltb here t.bucket_num here-lt,
              leb-false t.bucket_num (t.memory here).next_bucket alone,
              has_pool,
            )
            (frees here, refl, refl, (chains, owner, valid, now))
      go (y ∷ xs) q =
          let linked : Chain t.memory t.bucket_num here (y ∷ xs) =
            subst (λ l. Chain t.memory t.bucket_num here l) q (v.links here here-lt) in
          let x = (t.memory here).next_bucket in
          let above : t.bucket_num ≤ x = omega (arith, linked.0, linked.1) in
          let apart : here ≢ x = λ same. absurd (omega (arith, here-lt, above, same)) in
          let (valid, now) =
            pull t.bucket_num t.memory chains owner v key
              (put (put unmarked here (unmarked x)) x empty_bucket) x xs
              (q ∙ ap (λ z. z ∷ xs) (sym linked.0))
              (put_there (put unmarked here (unmarked x)) x here empty_bucket apart
                ∙ (put_here unmarked here (unmarked x)
                    ∙ put_there t.memory here x (clear_occupied (t.memory here))
                        (λ same. apart (sym same))))
              (λ y ne nx.
                put_there (put unmarked here (unmarked x)) x y empty_bucket nx
                ∙ (put_there unmarked here y (unmarked x) ne
                    ∙ put_there t.memory here y (clear_occupied (t.memory here)) ne))
              hit in
          rw
            (
              e,
              bucket_first pool fuel t chains owner v key filled enough false hit,
              lt→ltb here t.bucket_num here-lt,
              le→leb t.bucket_num x above,
              has_pool,
            )
            (frees x, refl, refl, ((λ z. if z == here then xs else chains z), owner, valid, now))

  abbrev home : List ℕ
  home = here ∷ chains here

  removes :
      (i : ℕ)
      → first (hits key) t.memory home ≡ some i
      → Returns (delete pool fuel t kv) (Removed t chains key)
  unfolding first
  removes i f = elim (Bool-cases (hits key (t.memory here))) [
    | inl hit ↦ removes_first hit
    | inr miss ↦ removes_behind i f (
        first-in-Chain (hits key) t.memory t.bucket_num here i (chains here) (v.links here here-lt)
          (ground (arith, f, miss)))
  ]

  ignores : first (hits key) t.memory home ≡ none → delete pool fuel t kv ≡ done (true, t)
  unfolding delete
  ignores f = rw (e, bucket_missing pool fuel t chains owner v key filled enough false f) refl

  -- `Delete` of a key that is not empty, from a valid table over a pool whose `Free` succeeds, ends,
  -- with more fuel than the chain of the key is long, and returns true. A table that does not hold
  -- the key is left as it is; else the table stays valid and loses the key and those that it takes
  -- for the same, and no other key, and the count goes down by one.
  pub delete-Removed : Returns (delete pool fuel t kv) (λ r.
      elim (contents t.bucket_num t.memory chains key) [
        | none ↦ r ≡ (true, t)
        | some _ ↦ Removed t chains key r
      ])
  unfolding contents
  delete-Removed = elim (Option-cases (first (hits key) t.memory home)) [
    | inl absent ↦ rw (find-first t.memory home key, absent, ignores absent) refl
    | inr (i, f) ↦ rw (find-first t.memory home key, f) (removes i f)
  ]

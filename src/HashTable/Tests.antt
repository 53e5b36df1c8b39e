-- ===== src/HashTable/Tests.antt =====
-- The theorems on a table of two buckets that are both taken.
use ad_index.Base.{
  ℕ, ◌+◌, ◌≡◌, refl, true, List, [], ◌∷◌, ltb, if◌then◌else◌, arith, none, some, done, Returns,
}
use ad_index.Index.{KvPair, answer}
use ad_index.HashTable.Bucket.{HashBucket, empty_bucket}
use ad_index.HashTable.Table.{BucketPool, HashTable, insert, delete, search}
use ad_index.HashTable.Chains.{Memory}
use ad_index.HashTable.Contents.{tally}
use ad_index.HashTable.Valid.{IsValid, contents}
use ad_index.HashTable.Storing.{Gives, Stored}
use ad_index.HashTable.Map.{insert-Stored}
use ad_index.HashTable.Lookup.{search-contents}
use ad_index.HashTable.Deletion.{Removed, delete-Removed}

-- The pool gives the buckets from an index on, and takes none back.
abbrev counting_pool : BucketPool ℕ
counting_pool = record { alloc = λ p. (some p, p + 1); free = λ p i. (true, p) }

-- A bucket for the key of the byte 5.
abbrev taken_bucket : HashBucket
taken_bucket = record empty_bucket {
  value = 50;
  occupied = true;
  key_in_payload = true;
  key_size = 1;
  first_byte = 5;
}

abbrev memory : Memory
memory i = if ltb i 2 then taken_bucket else empty_bucket

abbrev table : HashTable ℕ
table = record { bucket_num = 2; used_size = 2; memory = memory; mmap_pool = some 2 }

abbrev no_chains : ℕ → List ℕ
no_chains s = []

abbrev owner : ℕ → ℕ
owner i = i

table-IsValid : IsValid 2 memory no_chains owner
unfolding tally
table-IsValid = record {
  positive = omega arith;
  small = omega arith;
  links = λ s h. ground (arith, h);
  owned = λ s h. tt;
  heads = λ s h. refl;
  distinct = λ s h. tt;
  unique = λ s h k. ground arith;
}

abbrev pair : List ℕ → KvPair
pair key = record { key = some key; value = 60; payload_len = 0 }

table-Gives : Gives counting_pool table no_chains
table-Gives = record {
  state = 2;
  bucket = 2;
  has_pool = refl;
  gives = refl;
  behind_array = omega arith;
  in_reach = omega arith;
  fresh = λ s h. tt;
  free = refl;
}

search-contents_example :
    search counting_pool 1 table (pair (5 ∷ []))
    ≡ done (answer (contents 2 memory no_chains (5 ∷ [])))
search-contents_example =
    search-contents counting_pool 1 table no_chains owner (5 ∷ []) (pair (5 ∷ [])) table-IsValid
      refl (omega arith) (omega arith)

insert-Stored_example :
    Returns (insert counting_pool 1 table (pair (6 ∷ []))) (Stored table no_chains (6 ∷ []) 60)
insert-Stored_example =
    insert-Stored counting_pool 1 table no_chains owner (6 ∷ []) (pair (6 ∷ [])) table-IsValid refl
      (omega arith) (omega arith) (omega arith) refl table-Gives

delete-Removed_example : Returns (delete counting_pool 1 table (pair (5 ∷ []))) (λ r.
    elim (contents 2 memory no_chains (5 ∷ [])) [
      | none ↦ r ≡ (true, table)
      | some _ ↦ Removed table no_chains (5 ∷ []) r
    ])
delete-Removed_example =
    delete-Removed counting_pool 1 table no_chains owner (5 ∷ []) (pair (5 ∷ [])) table-IsValid refl
      (omega arith) (omega arith) 2 refl (λ i. refl)

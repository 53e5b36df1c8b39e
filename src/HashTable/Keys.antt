-- ===== src/HashTable/Keys.antt =====
-- Which keys a bucket stands for: the keys of at most two bytes by their bytes, longer ones by their
-- length and two hash codes. `check` and `write_key` on one bucket.
use ad_index.Base.{
  ℕ, ◌/◌, ◌%◌, ◌^◌, ◌<◌, ◌≤◌, ◌≡◌, refl, Bool, true, false, ◌&&◌, List, [], ◌∷◌, leb, ◌==◌,
  if◌then◌else◌, length, arith, Bool-cases, inl, inr,
}
use ad_index.HashTable.Bucket.{
  HashBucket, set_next_bucket, mark_occupied, set_value, check_key_in_payload, set_key_in_payload,
  check_hash_code_in_payload, set_hash_code_in_payload, same_payload, copy_payload,
}
use ad_index.HashTable.Table.{check, write_key, check_code, payload_check_code}

-- Equality of keys of at most two bytes, as `memcmp` decides it.
abbrev pub same_bytes : List ℕ → List ℕ → Bool
same_bytes [] [] = true
same_bytes (x ∷ xs) (y ∷ ys) = x == y && same_bytes xs ys
same_bytes _ _ = false

-- The table takes the two keys for one, where they start in the same bucket.
unfoldable pub alike : List ℕ → List ℕ → Bool
alike k j =
    length k == length j
    && (if leb (length k) 2
        then same_bytes k j
        else check_code k == check_code j
          && (payload_check_code k % 2 ^ 8 == payload_check_code j % 2 ^ 8
              && payload_check_code k / 2 ^ 8 % 2 ^ 8 == payload_check_code j / 2 ^ 8 % 2 ^ 8))

-- The payload after a short key is copied.
same_payload-copy :
    (k j : List ℕ) (b : HashBucket)
    → length k ≤ 2
    → length k ≡ length j
    → same_payload (copy_payload b k) j ≡ same_bytes k j
same_payload-copy [] [] b h e = refl
same_payload-copy [] (y ∷ ys) b h e = absurd (omega arith)
same_payload-copy (x ∷ xs) [] b h e = absurd (omega arith)
same_payload-copy (x ∷ []) (y ∷ []) b h e = ground arith
same_payload-copy (x ∷ []) (y ∷ z ∷ ys) b h e = absurd (omega arith)
same_payload-copy (x ∷ w ∷ xs) (y ∷ []) b h e = absurd (omega arith)
same_payload-copy (x ∷ w ∷ []) (y ∷ z ∷ []) b h e = ground arith
same_payload-copy (x ∷ w ∷ []) (y ∷ z ∷ v ∷ ys) b h e = absurd (omega arith)
same_payload-copy (x ∷ w ∷ u ∷ xs) (y ∷ z ∷ ys) b h e = absurd (omega arith)

copy_payload_size : (k : List ℕ) (b : HashBucket) → (copy_payload b k).key_size ≡ b.key_size
copy_payload_size [] b = refl
copy_payload_size (x ∷ []) b = refl
copy_payload_size (x ∷ y ∷ xs) b = refl

short_check :
    (k j : List ℕ) (b : HashBucket)
    → length k < 256
    → length k ≤ 2
    → length j ≤ 2
    → check_key_in_payload (set_key_in_payload b k) j ≡ (length k == length j && same_bytes k j)
unfolding check_key_in_payload set_key_in_payload
short_check k j b h hk hj = elim (Bool-cases (length k == length j)) [
  | inl e ↦ ground (
    arith,
    copy_payload_size k (record b { key_size = length k % 2 ^ 8 }),
    same_payload-copy k j (record b { key_size = length k % 2 ^ 8 }) hk,
  )
  | inr n ↦ ground (arith, copy_payload_size k (record b { key_size = length k % 2 ^ 8 }))
]

-- A bucket written for a key stands for the keys that are alike.
pub check-write_key :
    (k j : List ℕ) (b : HashBucket) → length k < 256 → check j (write_key k b) ≡ alike k j
unfolding check write_key alike check_key_in_payload set_key_in_payload check_hash_code_in_payload
    set_hash_code_in_payload
check-write_key k j b h = elim (Bool-cases (leb (length k) 2)) [
  | inl short ↦ elim (Bool-cases (leb (length j) 2)) [
    | inl short' ↦ rw (short, short') (short_check k j b h (ground arith) (ground arith))
    | inr long' ↦
        rw (short, long')
          (ground (arith, copy_payload_size k (record b { key_size = length k % 2 ^ 8 })))
  ]
  | inr long ↦ elim (Bool-cases (leb (length j) 2)) [
    | inl short' ↦ rw (long, short') (ground arith)
    | inr long' ↦ rw (long, long') (ground arith)
  ]
]

same_payload-same :
    (k j : List ℕ) (b : HashBucket)
    → length k ≤ 2
    → length k ≡ length j
    → same_payload b k ≡ true
    → same_payload b j ≡ same_bytes k j
same_payload-same [] [] b h e m = refl
same_payload-same [] (y ∷ ys) b h e m = absurd (omega arith)
same_payload-same (x ∷ xs) [] b h e m = absurd (omega arith)
same_payload-same (x ∷ []) (y ∷ []) b h e m = ground arith
same_payload-same (x ∷ []) (y ∷ z ∷ ys) b h e m = absurd (omega arith)
same_payload-same (x ∷ w ∷ xs) (y ∷ []) b h e m = absurd (omega arith)
same_payload-same (x ∷ w ∷ []) (y ∷ z ∷ []) b h e m = ground arith
same_payload-same (x ∷ w ∷ []) (y ∷ z ∷ v ∷ ys) b h e m = absurd (omega arith)
same_payload-same (x ∷ w ∷ u ∷ xs) (y ∷ z ∷ ys) b h e m = absurd (omega arith)

-- Keys that a bucket stands for are alike, and it stands for every key alike.
pub check-alike : (k j : List ℕ) (b : HashBucket) → check k b ≡ true → check j b ≡ alike k j
unfolding check alike check_key_in_payload check_hash_code_in_payload
check-alike k j b h = elim (Bool-cases (leb (length k) 2)) [
  | inl short ↦ elim (Bool-cases (leb (length j) 2)) [
    | inl short' ↦ rw (short, short') (ground (arith, same_payload-same k j b))
    | inr long' ↦ ground arith
  ]
  | inr long ↦ ground arith
]

same_bytes_comm : (k j : List ℕ) → same_bytes k j ≡ same_bytes j k
same_bytes_comm [] [] = refl
same_bytes_comm [] (y ∷ ys) = refl
same_bytes_comm (x ∷ xs) [] = refl
same_bytes_comm (x ∷ xs) (y ∷ ys) = ground (arith, same_bytes_comm xs ys)

alike_comm : (k j : List ℕ) → alike k j ≡ alike j k
unfolding alike
alike_comm k j = ground (arith, same_bytes_comm k j)

-- A bucket that does not stand for a key stands for no key alike.
pub check-unlike :
    (k j : List ℕ) (b : HashBucket) → check k b ≡ false → alike k j ≡ true → check j b ≡ false
check-unlike k j b h e = elim (Bool-cases (check j b)) [
  | inl holds ↦ cc (h, e, alike_comm k j, check-alike j k b holds)
  | inr fails ↦ fails
]

-- The value, the link and the mark of a bucket do not tell which keys it stands for.
pub check-value :
    (k : List ℕ) (b : HashBucket) (value : ℕ)
    → check k (mark_occupied (set_value b value)) ≡ check k b
unfolding check check_key_in_payload check_hash_code_in_payload set_value
check-value [] b value = refl
check-value (x ∷ []) b value = refl
check-value (x ∷ y ∷ ys) b value = refl

pub check-link :
    (k : List ℕ) (b : HashBucket) (next : ℕ) → check k (set_next_bucket b next) ≡ check k b
unfolding check check_key_in_payload check_hash_code_in_payload
check-link [] b next = refl
check-link (x ∷ []) b next = refl
check-link (x ∷ y ∷ ys) b next = refl

-- Writing a key leaves the mark and the link.
pub write_key_lem :
    (k : List ℕ) (b : HashBucket)
    → ((write_key k b).occupied ≡ b.occupied) × ((write_key k b).next_bucket ≡ b.next_bucket)
unfolding write_key set_key_in_payload set_hash_code_in_payload
write_key_lem [] b = (refl, refl)
write_key_lem (x ∷ []) b = (refl, refl)
write_key_lem (x ∷ y ∷ []) b = (refl, refl)
write_key_lem (x ∷ y ∷ z ∷ zs) b = ground arith

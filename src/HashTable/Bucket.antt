-- ===== src/HashTable/Bucket.antt =====
-- kernel/index/hash_table/hash_bucket.{h,cc}: one bucket of 17 bytes. The bits of `flags_` are three
-- Booleans; the payload is two bytes.
use ad_index.Base.{
  ℕ, ◌+◌, ◌-◌, ◌/◌, ◌%◌, ◌^◌, Bool, true, false, ◌&&◌, List, [], ◌∷◌, ltb, ◌==◌, if◌then◌else◌,
  length, u64_mod,
}

pub record HashBucket : Type 0 where
  pub value : ℕ
  pub next_bucket : ℕ
  pub occupied : Bool
  pub hash_code_in_payload : Bool
  pub key_in_payload : Bool
  pub hash_code : ℕ
  pub key_size : ℕ
  pub first_byte : ℕ
  pub second_byte : ℕ

-- `HashBucket::Clear`
abbrev pub empty_bucket : HashBucket
empty_bucket = record {
  value = 0;
  next_bucket = 0;
  occupied = false;
  hash_code_in_payload = false;
  key_in_payload = false;
  hash_code = 0;
  key_size = 0;
  first_byte = 0;
  second_byte = 0;
}

-- The field is a signed one of 48 bits.
unfoldable pub set_value : HashBucket → ℕ → HashBucket
set_value b v = record b { value = v % 2 ^ 48 }

unfoldable pub get_value : HashBucket → ℕ
get_value b = if ltb b.value (2 ^ 47) then b.value else b.value + (u64_mod - 2 ^ 48)

-- The field has 29 bits.
abbrev pub set_next_bucket : HashBucket → ℕ → HashBucket
set_next_bucket b next = record b { next_bucket = next % 2 ^ 29 }

abbrev pub mark_occupied : HashBucket → HashBucket
mark_occupied b = record b { occupied = true }

abbrev pub clear_occupied : HashBucket → HashBucket
clear_occupied b = record b { occupied = false }

-- The field has 8 bits.
abbrev pub set_key_size : HashBucket → ℕ → HashBucket
set_key_size b size = record b { key_size = size % 2 ^ 8 }

abbrev pub set_hash_code : HashBucket → ℕ → HashBucket
set_hash_code b code = record b { hash_code = code }

-- `memcpy` of the two lowest bytes.
unfoldable pub set_hash_code_in_payload : HashBucket → ℕ → HashBucket
set_hash_code_in_payload b code = record b {
  first_byte = code % 2 ^ 8;
  second_byte = code / 2 ^ 8 % 2 ^ 8;
  hash_code_in_payload = true;
}

unfoldable pub check_hash_code_in_payload : HashBucket → ℕ → Bool
check_hash_code_in_payload b code =
    b.hash_code_in_payload && b.first_byte == code % 2 ^ 8 && b.second_byte == code / 2 ^ 8 % 2 ^ 8

-- `memcpy` of at most two bytes of the key.
abbrev pub copy_payload : HashBucket → List ℕ → HashBucket
copy_payload b [] = b
copy_payload b (x ∷ []) = record b { first_byte = x }
copy_payload b (x ∷ y ∷ _) = record b { first_byte = x; second_byte = y }

unfoldable pub set_key_in_payload : HashBucket → List ℕ → HashBucket
set_key_in_payload b key = record (copy_payload (set_key_size b (length key)) key) {
  key_in_payload = true;
}

-- `memcmp` of at most two bytes of the key.
abbrev pub same_payload : HashBucket → List ℕ → Bool
same_payload b [] = true
same_payload b (x ∷ []) = x == b.first_byte
same_payload b (x ∷ y ∷ _) = x == b.first_byte && y == b.second_byte

unfoldable pub check_key_in_payload : HashBucket → List ℕ → Bool
check_key_in_payload b key = b.key_in_payload && length key == b.key_size && same_payload b key

-- ===== src/Index/Magic.antt =====
-- The magic numbers that a header begins with: `IndexHeader` of kernel/index/index.h and kernel/index/index.cc, and
-- `MurMurHashTableHeader` of kernel/index/hash_table/murmurhash_table.{h,cc}, with how an index of each kind is made and
-- loaded. `Alloc` of the pool is an argument.
use ad_index.Base.{
  ℕ, ◌+◌, Bool, true, false, ◌&&◌, List, [], ◌∷◌, Option, none, some, ltb, ◌==◌, if◌then◌else◌,
  Bytes, put_bytes, get_bytes, bytes_of, number,
}

unfoldable pub get_magic : Bytes → ℕ → ℕ
get_magic memory a = number (get_bytes memory a 4)

-- `kMagicVec` of `IndexHeader`.
abbrev pub index_magic : List ℕ
index_magic =
    0xD5C5473F ∷ 0x236434A6 ∷ 0xD898C43C ∷ 0x7B34A9B4 ∷ 0x90E7F69D ∷ 0x0FEE88E1 ∷ 0x89741124
    ∷ 0xF57AC10B ∷ 0xD25E5371 ∷ 0x87C37615 ∷ 0x15EF7111 ∷ 0x8974ABCD ∷ 0xB59ACD6B ∷ 0x423E9371
    ∷ 0xD898C43C ∷ 0xB59ACD6B ∷ []

-- `kMagicVec` of `MurMurHashTableHeader`.
abbrev pub hash_table_magic : List ℕ
hash_table_magic =
    0xD5C5473F ∷ 0x236434A6 ∷ 0xD898C43C ∷ 0x7B34A9B4 ∷ 0x90E7F69D ∷ 0x0FEE88E1 ∷ 0x89741124
    ∷ 0xF57AC10B ∷ 0xD25E5371 ∷ 0x87C37615 ∷ 0x15EF7111 ∷ 0x8974ABCD ∷ 0xB59ACD6B ∷ 0x423E9372 ∷ []

-- The loop of `Init`.
unfoldable pub put_magic : Bytes → ℕ → List ℕ → Bytes
put_magic memory a [] = memory
put_magic memory a (w ∷ words) = put_magic (put_bytes memory a (bytes_of 4 w)) (a + 4) words

unfoldable pub check_magic_words : Bytes → ℕ → List ℕ → Bool
check_magic_words memory a [] = true
check_magic_words memory a (w ∷ words) =
    w == get_magic memory a && check_magic_words memory (a + 4) words

-- `GetDataSize()`, and the memory from `GetMMapDataBegin()` on.
pub record IndexPool : Type 0 where
  pub data_size : ℕ
  pub memory : Bytes

-- `none` is nullptr.
unfoldable pub check_magic : Option IndexPool → Bool
check_magic none = false
check_magic (some p) =
    if ltb p.data_size 64 then false else check_magic_words p.memory 0 index_magic

abbrev pub init_magic : Option IndexPool → Option IndexPool
init_magic none = none
init_magic (some p) = some (record p { memory = put_magic p.memory 0 index_magic })

-- `none` is false.
unfoldable pub make_header :
    (ℕ → IndexPool → Option IndexPool) → Option IndexPool → Option IndexPool
make_header alloc none = none
make_header alloc (some p) = init_magic (if ltb p.data_size 64 then alloc 64 p else some p)

-- `MurMurHashTableHeader::Init`, of a header that begins at an address.
unfoldable pub init_hash_table_header : ℕ → Bytes → ℕ → Bytes
init_hash_table_header bucket_num memory a =
    put_bytes (put_magic (put_bytes memory a (bytes_of 4 bucket_num)) (a + 8) hash_table_magic)
      (a + 4) (bytes_of 4 0)

-- What `LoadHashTable` reads: `bucket_num_`, and the address of the buckets; `none` for false.
unfoldable pub load_hash_table : Bytes → Option ℕ → Option (ℕ × ℕ)
load_hash_table memory none = none
load_hash_table memory (some begin) =
    if check_magic_words memory (begin + 8) hash_table_magic
    then some (get_magic memory begin, begin + 64)
    else none

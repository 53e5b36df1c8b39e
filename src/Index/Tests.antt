-- ===== src/Index/Tests.antt =====
-- The theorems on headers, on memory that is all zero.
use ad_index.Base.{ℕ, ◌+◌, ◌≤◌, ◌≡◌, refl, ap, true, Option, none, some, arith}
use ad_index.Index.Magic.{
  IndexPool, put_magic, index_magic, check_magic, make_header, init_hash_table_header,
  load_hash_table,
}
use ad_index.Index.Made.{check_magic-make_header, load_hash_table-init}

-- `Alloc` that gives what it is asked for.
abbrev add_bytes : ℕ → IndexPool → Option IndexPool
add_bytes n p = some (record p { data_size = p.data_size + n })

abbrev empty_pool : IndexPool
empty_pool = record { data_size = 0; memory = λ j. 0 }

abbrev made_pool : IndexPool
made_pool = record { data_size = 64; memory = put_magic (λ j. 0) 0 index_magic }

abbrev size_of : Option IndexPool → ℕ
size_of none = 0
size_of (some p) = p.data_size

add_bytes-enough : (n : ℕ) (q q' : IndexPool) → add_bytes n q ≡ some q' → n ≤ q'.data_size
add_bytes-enough n q q' e = omega (arith, ap size_of e)

made : make_header add_bytes (some empty_pool) ≡ some made_pool
unfolding make_header
made = refl

check_magic-make_header_example : check_magic (some made_pool) ≡ true
check_magic-make_header_example =
    check_magic-make_header add_bytes empty_pool made_pool add_bytes-enough made

load_hash_table-init_example :
    load_hash_table (init_hash_table_header 256 (λ j. 0) 1000) (some 1000) ≡ some (256, 1064)
load_hash_table-init_example = load_hash_table-init 256 1000 (λ j. 0) (omega arith)

-- ===== src/SortTable/Table.antt =====
-- The operations of a sort table: kernel/index/sort_table/sort_table.{h,cc}. A record is named by
-- its index, where the source returns a pointer.
use ad_index.Base.{
  ℕ, zero, suc, ◌+◌, ◌-◌, ◌*◌, ◌/◌, ◌%◌, ◌^◌, Bool, true, false, List, [], ◌∷◌, ◌++◌, Option, none,
  some, ltb, leb, if◌then◌else◌, length, get_or, set, replicate, bit_or, Run, done, fault, ◌>>=◌,
  u64_mod,
}
use ad_index.Index.{KvPair}
use ad_index.Utils.Murmur.{murmur_hash2}
use ad_index.SortTable.{Record, cleared, Block, Find, found, missing, simd_binary_search}

pub data SortTableType : Type 0 where
  exclusive shared : SortTableType

-- The pool that the table calls: what memory `Alloc` gives for a number of bytes, `none` for
-- nullptr, and what `Free` returns. The memory is read as records: behind the header of a new block,
-- or right after the table, where an exclusive table takes the next memory of the pool to lie.
pub record BlockPool : Type 0 where
  pub new_block : ℕ → Option (List Record)
  pub extension : ℕ → Option (List Record)
  pub frees : Bool

pub record SortTable : Type 0 where
  pub kind : SortTableType
  pub bs_level : ℕ
  pub bs_mid_count : ℕ
  pub init_record_num : ℕ
  pub mmap_pool : Option BlockPool
  pub block : Block

abbrev pub max_binary_search_level : ℕ
max_binary_search_level = 2

-- The local `key` of an int64_t, least byte first.
unfoldable pub from_bytes : List ℕ → ℕ
from_bytes [] = 0
from_bytes (b ∷ bs) = b + 2 ^ 8 * from_bytes bs

unfoldable pub get_hash_key : List ℕ → ℕ
unfolding from_bytes
get_hash_key key =
    if leb (length key) 8
    then from_bytes key
    else bit_or (murmur_hash2 key 0x89741511 * 2 ^ 32 % u64_mod) (murmur_hash2 key 0x15118974)

unfoldable pub set_binary_search_level : SortTable → ℕ → SortTable
set_binary_search_level t level =
    let l = if ltb max_binary_search_level level then max_binary_search_level else level in
    record t { bs_level = l; bs_mid_count = 2 ^ l - 1 }

-- `InitEmptySortTable`: the header, and `init_record_num` cleared records.
unfoldable pub init_empty_sort_table : SortTable → Option SortTable
init_empty_sort_table t = elim t.mmap_pool [
  | none ↦ none
  | some pool ↦ elim (pool.new_block (16 + 16 * t.init_record_num)) [
    | none ↦ none
    | some _ ↦ some (record t {
      block = record {
        used_size = 0;
        total_size = t.init_record_num;
        records = replicate t.init_record_num cleared;
      };
    })
  ]
]

-- `for (i = used_size - 1; i > pos; i--) first_[i + 1] = first_[i]`, over the rounds left; the
-- argument `p` is `pos + 1`.
unfoldable pub shift_up : ℕ → List Record → ℕ → List Record
shift_up zero records p = records
shift_up (suc n) records p = shift_up n (set records (p + n + 1) (get_or records (p + n) cleared)) p

-- `first_[p].SetKey(nkey)`, which leaves the value.
abbrev pub set_key : List Record → ℕ → ℕ → List Record
set_key records p nkey =
    set records p (record { key = nkey; value = (get_or records p cleared).value })

-- The highest index written is `used_size`.
unfoldable pub directly_add : Block → ℕ → ℕ → Run (Option ℕ × Block)
directly_add b p nkey =
    if ltb b.used_size (length b.records)
    then done (
      some p,
      record b {
        used_size = b.used_size + 1;
        records = set_key (shift_up (b.used_size - p) b.records p) p nkey;
      },
    )
    else fault

-- `for (; i < end; i++) new_first[i] = first_[i - back]`, over the rounds left.
unfoldable pub copy_from : ℕ → List Record → List Record → ℕ → ℕ → List Record
copy_from zero new old i back = new
copy_from (suc n) new old i back =
    copy_from n (set new i (get_or old (i - back) cleared)) old (i + 1) back

-- The sizes are in bytes; the new block has room for `2 * total_size + 1` records.
unfoldable pub alloc_add : Option BlockPool → Block → ℕ → ℕ → Run (Option ℕ × Block)
alloc_add none b p nkey = done (none, b)
alloc_add (some pool) b p nkey =
    let new_size = (b.total_size * 16 + 16) * 2 in
    elim (pool.new_block new_size) [
      | none ↦ done (none, b)
      | some new ↦
          if ltb b.used_size (length new)
          then done (
            if pool.frees then some p else none,
            record {
              used_size = b.used_size + 1;
              total_size = (new_size - 16) / 16;
              records =
                  copy_from (b.used_size - p) (set_key (copy_from p new b.records 0 0) p nkey)
                    b.records (p + 1) 1;
            },
          )
          else fault
    ]

abbrev pub extended : Block → Option (List Record) → List Record
extended b none = b.records
extended b (some more) = b.records ++ more

-- The result of `Alloc` is not looked at.
unfoldable pub expand_add : Option BlockPool → Block → ℕ → ℕ → Run (Option ℕ × Block)
expand_add none b p nkey = done (none, b)
expand_add (some pool) b p nkey =
    directly_add
      (record b {
        total_size = b.total_size * 2;
        records = extended b (pool.extension (b.total_size * 16));
      })
      p nkey

-- The search that `bs_level_` chooses. `NormalBinarySearch` is declared and nowhere defined.
unfoldable pub locate : (Block → ℕ → Run Find) → SortTable → ℕ → Run Find
locate normal_binary_search t nkey =
    if ltb t.bs_level max_binary_search_level
    then normal_binary_search t.block nkey
    else simd_binary_search t.block nkey

-- The insertion that fits the space left and the type of the table.
unfoldable pub add_record : SortTable → ℕ → ℕ → Run (Option ℕ × Block)
add_record t p nkey =
    if ltb t.block.used_size t.block.total_size then directly_add t.block p nkey else elim t.kind [
      | exclusive ↦ expand_add t.mmap_pool t.block p nkey
      | shared ↦ alloc_add t.mmap_pool t.block p nkey
    ]

-- `Record::SetValue`
abbrev pub set_value : Block → ℕ → ℕ → Block
set_value b i v = record b {
  records = set b.records i (record (get_or b.records i cleared) { value = v });
}

module _ (normal_binary_search : Block → ℕ → Run Find) where
  -- The index of the record, `none` for nullptr, and the block as it is left.
  unfoldable pub get_record_by_key : SortTable → Option (List ℕ) → Bool → Run (Option ℕ × Block)
  get_record_by_key t none allow_create = done (none, t.block)
  get_record_by_key t (some key) allow_create =
      locate normal_binary_search t (get_hash_key key) >>= elim [
        | found i ↦ done (some i, t.block)
        | missing p ↦
            if allow_create then add_record t p (get_hash_key key) else done (none, t.block)
      ]

  unfoldable pub insert : SortTable → KvPair → Run (Bool × SortTable)
  insert t kv =
      if ltb 0 kv.payload_len
      then done (false, t)
      else get_record_by_key t kv.key true >>= λ r. elim r.0 [
        | none ↦ done (false, record t { block = r.1 })
        | some i ↦ done (true, record t { block = set_value r.1 i kv.value })
      ]

  -- The test is the wrong way round. On nullptr the loop starts at nullptr, which lies below
  -- `first_ + used_size - 1`, and moves a record there.
  unfoldable pub delete : SortTable → KvPair → Run (Bool × SortTable)
  delete t kv =
      get_record_by_key t kv.key false >>= λ r. elim r.0 [ none ↦ fault | some i ↦ done (false, t) ]

  -- What `Search` returns, and the value that it leaves in `*kv`.
  unfoldable pub search : SortTable → KvPair → Run (Bool × ℕ)
  search t kv = get_record_by_key t kv.key false >>= λ r. elim r.0 [
    | none ↦ done (false, u64_mod - 1)
    | some i ↦ done (true, (get_or t.block.records i cleared).value)
  ]

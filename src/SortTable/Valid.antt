-- ===== src/SortTable/Valid.antt =====
-- The invariant of a block, kept by an insertion at the place that the search found.
use ad_index.Base.{
  ℕ, ◌+◌, ◌-◌, ◌*◌, ◌<◌, ◌≤◌, ◌≡◌, ap, none, some, arith, ◌⊎◌, ltb, ◌==◌, if◌then◌else◌, length,
  done, fault, Returns, Bool-cases, ltb→lt, inl, inr, u64_mod,
}
use ad_index.SortTable.{Record, Block}
use ad_index.SortTable.Table
use ad_index.SortTable.Table.{
  BlockPool, SortTable, SortTableType, exclusive, shared, set_value, add_record,
}
use ad_index.SortTable.Search.{key_at, IsSorted, Fits, Before, After}
use ad_index.SortTable.Shifting.{record_at}
use ad_index.SortTable.Add.{
  Adds, Inserted, Serves, directly_add-Inserted, alloc_add-Inserted, expand_add-Inserted,
}

pub record IsValid (b : Block) : Type 0 where
  pub sorted : IsSorted b.records b.used_size
  pub keys : Fits b.records b.used_size
  pub within : b.used_size ≤ b.total_size
  pub room : b.total_size ≤ length b.records
  pub positive : 0 < b.total_size

-- The pool behind the table serves it.
abbrev pub IsServed : SortTable → Type 0
IsServed t = (pool : BlockPool) × (t.mmap_pool ≡ some pool) × Serves pool

-- Whichever way the record is added, it goes in at `p`.
pub add_record-Inserted :
    (t : SortTable) (p k : ℕ)
    → IsServed t
    → IsValid t.block
    → p ≤ t.block.used_size
    → Returns (add_record t p k) (Adds t.block p k)
unfolding add_record
add_record-Inserted t p k (pool, e, s) v le =
    elim (Bool-cases (ltb t.block.used_size t.block.total_size)) [
      | inl room ↦ rw room (directly_add-Inserted t.block p k (ltb→lt _ _ room) v.room le)
      | inr full ↦ rw full (grow t.kind)
    ]
  where
    grow :
        (kind : SortTableType)
        → Returns
            (elim kind [
              | exclusive ↦ Table.expand_add t.mmap_pool t.block p k
              | shared ↦ Table.alloc_add t.mmap_pool t.block p k
            ])
            (Adds t.block p k)
    grow exclusive = rw e (expand_add-Inserted pool t.block p k s v.positive v.within v.room le)
    grow shared = rw e (alloc_add-Inserted pool t.block p k s v.within le)

-- With no memory left and none given, a shared table is left as it is and an exclusive one is
-- written past its end.
pub add_record_refused :
    (t : SortTable) (p k : ℕ) (pool : BlockPool)
    → IsValid t.block
    → t.block.used_size ≡ length t.block.records
    → t.mmap_pool ≡ some pool
    → pool.new_block ((t.block.total_size * 16 + 16) * 2) ≡ none
    → pool.extension (t.block.total_size * 16) ≡ none
    → add_record t p k ≡ elim t.kind [ exclusive ↦ fault | shared ↦ done (none, t.block) ]
unfolding add_record Table.expand_add Table.alloc_add Table.directly_add
add_record_refused t p k pool v full e b x = ground (arith, v.within, v.room)

order : (a b : ℕ) → (a < b) ⊎ ((a ≡ b) ⊎ (b < a))
order a b = omega arith

sub_add : (j : ℕ) → 0 < j → j - 1 + 1 ≡ j
sub_add j h = omega arith

module _ (old new : Block) (p k : ℕ) (i : Inserted old new p k) (le : p ≤ old.used_size) where
  -- The keys of the new block.
  pub Inserted-key :
      (j : ℕ)
      → j < old.used_size + 1
      → key_at new.records j ≡ (
          if ltb j p
          then key_at old.records j
          else if j == p
          then k
          else key_at old.records (j - 1))
  Inserted-key j h = elim (order j p) [
    | inl lt ↦
        ground (arith, ap {A = Record} (λ r. r.key) {x = record_at new.records j} (i.below j lt))
    | inr (inl e) ↦ rw e (ground (arith, i.here))
    | inr (inr gt) ↦ ground (
      arith,
      ap {A = Record} (λ r. r.key) {x = record_at new.records (j - 1 + 1)}
          (i.above (j - 1) (omega arith) (omega arith)),
      ap (key_at new.records) (sub_add j (omega arith)),
    )
  ]

  pub Inserted-IsValid :
      IsValid old
      → k < u64_mod
      → Before old.records k p
      → After old.records k p old.used_size
      → IsValid new
  Inserted-IsValid v small b a = record {
    sorted = λ x y h h'. ground (
      arith,
      i.count,
      Inserted-key x,
      Inserted-key y,
      v.sorted x y,
      v.sorted x (y - 1),
      v.sorted (x - 1) (y - 1),
      b x,
      a (y - 1),
    );
    keys = λ x h. ground (arith, i.count, Inserted-key x, v.keys x, v.keys (x - 1));
    within = i.fits_total;
    room = i.fits_block;
    positive = omega (arith, i.count, i.fits_total);
  }

-- ===== src/SortTable/Add.antt =====
-- What the three ways to add a record do to the block, record by record.
use ad_index.Base.{
  ℕ, ◌+◌, ◌-◌, ◌*◌, ◌/◌, ◌<◌, ◌≤◌, ◌≡◌, refl, ◌∙◌, ap, true, ◌&&◌, List, ◌++◌, Option, some, arith,
  ltb, leb, if◌then◌else◌, length, Returns, length-set, length-append, get_or-append, map-Returns,
  get_or-set, get_or-set_self, lt→ltb,
}
use ad_index.SortTable.{Record, cleared, Block}
use ad_index.SortTable.Table.{
  BlockPool, shift_up, set_key, directly_add, copy_from, alloc_add, expand_add, extended,
}
use ad_index.SortTable.Search.{key_at}
use ad_index.SortTable.Shifting.{
  record_at, length-shift_up, shift_up-get_or, length-copy_from, copy_from-get_or,
}

-- `new` is `old` with a record of key `k` put in at index `p`.
pub record Inserted (old new : Block) (p k : ℕ) : Type 0 where
  pub count : new.used_size ≡ old.used_size + 1
  pub fits_total : new.used_size ≤ new.total_size
  pub fits_block : new.total_size ≤ length new.records
  pub below : (j : ℕ) → j < p → record_at new.records j ≡ record_at old.records j
  pub here : key_at new.records p ≡ k
  pub above :
      (j : ℕ) → p ≤ j → j < old.used_size → record_at new.records (j + 1) ≡ record_at old.records j

-- What adding at index `p` returns: that index, and the block with the record in it.
abbrev pub Adds : Block → ℕ → ℕ → Option ℕ × Block → Type 0
Adds b p k r = (r.0 ≡ some p) × Inserted b r.1 p k

key_at-set_key :
    (records : List Record) (p k : ℕ) → p < length records → key_at (set_key records p k) p ≡ k
key_at-set_key records p k h i =
    (get_or-set_self records p (record { key = k; value = (record_at records p).value }) cleared h
      i).key

add_sub : (j : ℕ) → j + 1 - 1 ≡ j
add_sub j = omega arith

-- `DirectlyAdd`, with room left, puts the record in at `p` and returns it.
pub directly_add-Inserted :
    (b : Block) (p k : ℕ)
    → b.used_size < b.total_size
    → b.total_size ≤ length b.records
    → p ≤ b.used_size
    → Returns (directly_add b p k) (Adds b p k)
unfolding directly_add
directly_add-Inserted b p k room fits le =
    rw (lt→ltb b.used_size (length b.records) (omega arith)) (
      refl,
      record {
        count = refl;
        fits_total = omega arith;
        fits_block = omega (arith, length-set shifted p new, size);
        below = λ j h. ground (arith, get_or-set shifted p j new cleared, moved j);
        here = key_at-set_key shifted p k (omega (arith, size));
        above = λ j h h'. ground (
          arith,
          get_or-set shifted p (j + 1) new cleared,
          moved (j + 1),
          ap (record_at b.records) (add_sub j),
        );
      },
    )
  where
    n : ℕ
    n = b.used_size - p

    shifted : List Record
    shifted = shift_up n b.records p

    new : Record
    new = record { key = k; value = (record_at shifted p).value }

    size : length shifted ≡ length b.records
    size = length-shift_up n b.records p

    moved :
        (j : ℕ)
        → record_at shifted j ≡ (
            if ltb p j && leb j (p + n) then record_at b.records (j - 1) else record_at b.records j)
    moved j = shift_up-get_or n b.records p j (omega arith)

-- A pool that serves every request in full.
pub record Serves (pool : BlockPool) : Type 0 where
  pub serves_block :
      (n : ℕ) → (m : List Record) × (pool.new_block n ≡ some m) × (length m ≡ (n - 16) / 16)
  pub serves_extension :
      (n : ℕ) → (m : List Record) × (pool.extension n ≡ some m) × (length m ≡ n / 16)
  pub serves_free : pool.frees ≡ true

Inserted-base :
    (b b' new : Block) (p k : ℕ)
    → b'.used_size ≡ b.used_size
    → ((j : ℕ) → j < b.used_size → record_at b'.records j ≡ record_at b.records j)
    → p ≤ b.used_size
    → Inserted b' new p k
    → Inserted b new p k
Inserted-base b b' new p k e same le i = record {
  count = omega (arith, i.count);
  fits_total = i.fits_total;
  fits_block = i.fits_block;
  below = λ j h. i.below j h ∙ same j (omega arith);
  here = i.here;
  above = λ j h h'. i.above j h (omega arith) ∙ same j h';
}

-- `ExpandAdd` doubles the space in place and puts the record in.
pub expand_add-Inserted :
    (pool : BlockPool) (b : Block) (p k : ℕ)
    → Serves pool
    → 0 < b.total_size
    → b.used_size ≤ b.total_size
    → b.total_size ≤ length b.records
    → p ≤ b.used_size
    → Returns (expand_add (some pool) b p k) (Adds b p k)
unfolding expand_add
expand_add-Inserted pool b p k s pos room fits le =
    let (m, e, size) = s.serves_extension (b.total_size * 16) in
    let b' : Block = record b { total_size = b.total_size * 2; records = b.records ++ m } in
    rw (e, extended)
      (map-Returns (Adds b' p k) (Adds b p k) (directly_add b' p k)
        (directly_add-Inserted b' p k (omega arith) (omega (arith, length-append b.records m)) le)
        (λ r i. (
          i.0,
          Inserted-base b b' r.1 p k refl (λ j h. get_or-append b.records m j cleared (omega arith))
              le i.1,
        )))

-- The two copying loops round the new key.
module _ (b : Block) (p k : ℕ) (le : p ≤ b.used_size) (new : List Record)
    (room : b.used_size < length new) where
  head : List Record
  head = copy_from p new b.records 0 0

  marked : List Record
  unfolding head
  marked = set_key head p k

  copied : List Record
  unfolding marked
  copied = copy_from (b.used_size - p) marked b.records (p + 1) 1

  length-marked : length marked ≡ length new
  unfolding marked
  length-marked = length-set head p _ ∙ length-copy_from p new b.records 0 0

  length-copied : length copied ≡ length new
  unfolding copied
  length-copied = length-copy_from (b.used_size - p) marked b.records (p + 1) 1 ∙ length-marked

  head-get_or :
      (j : ℕ)
      → record_at head j ≡ (if ltb j p then record_at b.records (j - 0) else record_at new j)
  unfolding head
  head-get_or j = ground (arith, copy_from-get_or p new b.records 0 0 j)

  copied-get_or :
      (j : ℕ)
      → record_at copied j ≡ (
          if leb (p + 1) j && ltb j (b.used_size + 1)
          then record_at b.records (j - 1)
          else record_at marked j)
  unfolding copied
  copied-get_or j =
      ground (arith, length-marked, copy_from-get_or (b.used_size - p) marked b.records (p + 1) 1 j)

  marked-get_or : (j : ℕ) → j < p → record_at marked j ≡ record_at b.records j
  unfolding marked
  marked-get_or j h = ground (
    arith,
    head-get_or j,
    get_or-set head p j (record { key = k; value = (record_at head p).value }) cleared,
    ap (record_at b.records) (sub_zero j),
  )
    where
      sub_zero : (n : ℕ) → n - 0 ≡ n
      sub_zero n = omega arith

  marked-key : key_at marked p ≡ k
  unfolding marked
  marked-key = key_at-set_key head p k (
      omega (
        arith,
        length-marked,
        length-set head p (record { key = k; value = (record_at head p).value }),
      ))

  copied-Inserted :
      (total : ℕ)
      → b.used_size < total
      → total ≤ length new
      → Inserted b
          (record { used_size = b.used_size + 1; total_size = total; records = copied })
          p
          k
  copied-Inserted total h h' = record {
    count = refl;
    fits_total = omega arith;
    fits_block = omega (arith, length-copied);
    below = λ j l. ground (arith, copied-get_or j, marked-get_or j l);
    here =
        ap {A = Record} (λ r. r.key) {x = record_at copied p} {y = record_at marked p}
          (ground (arith, copied-get_or p))
        ∙ marked-key;
    above = λ j l l'. ground (arith, copied-get_or (j + 1), ap (record_at b.records) (add_sub j));
  }

-- `AllocAdd` moves the records to a new block of twice the size and puts the record in.
pub alloc_add-Inserted :
    (pool : BlockPool) (b : Block) (p k : ℕ)
    → Serves pool
    → b.used_size ≤ b.total_size
    → p ≤ b.used_size
    → Returns (alloc_add (some pool) b p k) (Adds b p k)
unfolding alloc_add
alloc_add-Inserted pool b p k s room le =
    let (new, e, size) = s.serves_block ((b.total_size * 16 + 16) * 2) in
    rw e (
      rw (lt→ltb b.used_size (length new) (omega arith), s.serves_free)
        (
          refl,
          unfold copied in copied-Inserted b p k le new (omega arith) _ (omega arith) (omega arith),
        ))

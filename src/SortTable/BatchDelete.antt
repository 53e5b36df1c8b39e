-- ===== src/SortTable/BatchDelete.antt =====
-- `BatchDelete` on the abstract view of the table.
use ad_index.Base.{
  ℕ, zero, suc, ◌-◌, ◌<◌, ◌≡◌, ◌≢◌, refl, ap, ◌∙◌, sym, Bool, true, false, List, [], ◌∷◌, none,
  some, arith, inl, inr, if◌then◌else◌, length, rank, get_or-append, take, drop, take-append-drop,
  length-take, get_or-take,
}
use ad_index.SortTable.{Record, cleared, Block}
use ad_index.SortTable.Search.{key_at, IsSorted, Fits}
use ad_index.SortTable.Shifting.{record_at}
use ad_index.SortTable.Contents.{scan, contents, value_at, scan-at, scan-absent, Stored-cases}
use ad_index.SortTable.Table.{SortTable}
use ad_index.SortTable.Valid.{IsValid}
use ad_index.SortTable.Batch.{delete_loop, batch_delete, hash_keys, sort_keys}
use ad_index.SortTable.Difference.{
  difference, has, find_key, Above, Ascending, NonDescending, difference-Ascending,
  find_key-difference, sort_keys-NonDescending, has-sort_keys,
}
use ad_index.SortTable.Compact.{Leaves, delete_loop-Leaves}

Above-intro :
    (n : ℕ) (rs : List Record) → ((i : ℕ) → i < length rs → n < rank (key_at rs i)) → Above n rs
Above-intro n [] h = tt
Above-intro n (r ∷ rs) h = (h 0 (omega arith), Above-intro n rs (λ i l. h (suc i) (omega arith)))

Above-at : (n : ℕ) (rs : List Record) (i : ℕ) → Above n rs → i < length rs → n < rank (key_at rs i)
Above-at n [] i a h = absurd (omega arith)
Above-at n (r ∷ rs) zero a h = a.0
Above-at n (r ∷ rs) (suc i) a h = Above-at n rs i a.1 (omega arith)

Ascending-intro : (rs : List Record) → IsSorted rs (length rs) → Fits rs (length rs) → Ascending rs
Ascending-intro [] s f = tt
Ascending-intro (r ∷ rs) s f = (
  Above-intro (rank r.key) rs (λ i l. s 0 (suc i) (omega arith) (omega arith)),
  f 0 (omega arith),
  Ascending-intro rs (λ i j h l. s (suc i) (suc j) (omega arith) (omega arith))
      (λ i l. f (suc i) (omega arith)),
)

pub Ascending-IsSorted : (rs : List Record) → Ascending rs → IsSorted rs (length rs)
Ascending-IsSorted [] a i j h l = absurd (omega arith)
Ascending-IsSorted (r ∷ rs) a zero zero h l = absurd (omega arith)
Ascending-IsSorted (r ∷ rs) a zero (suc j) h l = Above-at (rank r.key) rs j a.0 (omega arith)
Ascending-IsSorted (r ∷ rs) a (suc i) zero h l = absurd (omega arith)
Ascending-IsSorted (r ∷ rs) a (suc i) (suc j) h l =
    Ascending-IsSorted rs a.2 i j (omega arith) (omega arith)

pub Ascending-Fits : (rs : List Record) → Ascending rs → Fits rs (length rs)
Ascending-Fits [] a i l = absurd (omega arith)
Ascending-Fits (r ∷ rs) a zero l = a.1
Ascending-Fits (r ∷ rs) a (suc i) l = Ascending-Fits rs a.2 i (omega arith)

find_key-at :
    (rs : List Record) (k i : ℕ)
    → Ascending rs
    → i < length rs
    → key_at rs i ≡ k
    → find_key rs k ≡ some (value_at rs i)
unfolding find_key
find_key-at [] k i a h e = absurd (omega arith)
find_key-at (r ∷ rs) k zero a h e = ground (arith, e)
find_key-at (r ∷ rs) k (suc i) a h e =
    ground (arith, e, find_key-at rs k i a.2, Above-at (rank r.key) rs i a.0)

find_key-absent :
    (rs : List Record) (k : ℕ) → ((i : ℕ) → i < length rs → key_at rs i ≢ k) → find_key rs k ≡ none
unfolding find_key
find_key-absent [] k h = refl
find_key-absent (r ∷ rs) k h =
    ground (arith, h 0, find_key-absent rs k (λ i l. h (suc i) (omega arith)))

scan-find_key :
    (rs : List Record) (n k : ℕ) → Ascending rs → n ≡ length rs → scan rs n k ≡ find_key rs k
scan-find_key rs n k a size = rw size (elim (Stored-cases rs (length rs) k) [
  | inl (i, h, e) ↦
      scan-at rs (length rs) k i (Ascending-IsSorted rs a) h e ∙ sym (find_key-at rs k i a h e)
  | inr nowhere ↦ scan-absent rs (length rs) k nowhere ∙ sym (find_key-absent rs k nowhere)
])

scan-ext :
    (rs ss : List Record) (n k : ℕ)
    → ((i : ℕ) → i < n → record_at rs i ≡ record_at ss i)
    → scan rs n k ≡ scan ss n k
unfolding scan
scan-ext rs ss zero k h = refl
scan-ext rs ss (suc n) k h =
    rw (h n (omega arith), key_at, value_at) (rw (scan-ext rs ss n k (λ i l. h i (omega arith))))

-- The first records of a valid block, as a list.
abbrev front : Block → List Record
front b = take b.used_size b.records

module _ (b : Block) (v : IsValid b) where
  length-front : length (front b) ≡ b.used_size
  length-front = length-take b.used_size b.records (omega (arith, v.within, v.room))

  front-Ascending : Ascending (front b)
  front-Ascending =
      Ascending-intro (front b)
        (λ i j h l.
          rw (same i (omega (arith, length-front)), same j (omega (arith, length-front)))
            (v.sorted i j h (omega (arith, length-front))))
        (λ i l. rw (same i (omega (arith, length-front))) (v.keys i (omega (arith, length-front))))
    where
      same : (i : ℕ) → i < b.used_size → key_at (front b) i ≡ key_at b.records i
      same i l = ap (λ (r : Record). r.key) (get_or-take b.used_size b.records i cleared l)

  contents-front : (k : ℕ) → contents b k ≡ find_key (front b) k
  unfolding contents
  contents-front k =
      scan-ext b.records (front b) b.used_size k
        (λ i l. sym (get_or-take b.used_size b.records i cleared l))
      ∙ scan-find_key (front b) b.used_size k front-Ascending (sym length-front)

  -- The loop over the whole block, for keys in order.
  module _ (ks : List ℕ) (ordered : NonDescending ks) (deleted : ℕ) (records : List Record)
      (l : Leaves []
        (difference (front b) ks)
        b.used_size
        (length b.records)
        (deleted, records)) where
    abbrev left : Block
    left = record b { used_size = b.used_size - deleted; records = records }

    length-left : length (difference (front b) ks) ≡ b.used_size - deleted
    length-left = omega (arith, l.deleted)

    left_at :
        (i : ℕ)
        → i < b.used_size - deleted
        → record_at records i ≡ record_at (difference (front b) ks) i
    left_at i h =
        rw l.records
          (get_or-append (difference (front b) ks) l.rest i cleared (omega (arith, length-left)))

    left-IsValid : IsValid left
    left-IsValid = record {
      sorted = λ i j h h'.
          rw (left_key i (omega arith), left_key j h')
            (Ascending-IsSorted _ ascending i j h (omega (arith, length-left)));
      keys = λ i h. rw (left_key i h) (Ascending-Fits _ ascending i (omega (arith, length-left)));
      within = omega (arith, v.within);
      room = omega (arith, v.room, l.kept_size);
      positive = v.positive;
    }
      where
        ascending : Ascending (difference (front b) ks)
        ascending = difference-Ascending (front b) ks front-Ascending

        left_key :
            (i : ℕ)
            → i < b.used_size - deleted
            → key_at records i ≡ key_at (difference (front b) ks) i
        left_key i h = ap (λ (r : Record). r.key) (left_at i h)

    contents-left : (j : ℕ) → contents left j ≡ (if has j ks then none else contents b j)
    unfolding contents
    contents-left j =
        scan-ext records (difference (front b) ks) (b.used_size - deleted) j left_at
        ∙ (scan-find_key (difference (front b) ks) (b.used_size - deleted) j
              (difference-Ascending (front b) ks front-Ascending) (sym length-left)
            ∙ (find_key-difference j (front b) ks front-Ascending ordered
                ∙ ap (λ r. if has j ks then none else r) (sym (contents-front j))))

  -- What the loop leaves of the block, whatever it was given to start with.
  loop-Leaves :
      (ks : List ℕ)
      → Leaves []
          (difference (front b) ks)
          b.used_size
          (length b.records)
          (delete_loop b.used_size ks 0 0 0 b.records)
  loop-Leaves ks = ground (
    arith,
    take-append-drop b.used_size b.records,
    length-front,
    delete_loop-Leaves (front b) ks [] [] (drop b.used_size b.records) 0 0 0 b.used_size
        (length b.records) refl (omega arith) (omega (arith, length-front))
        (omega (arith, ap length (take-append-drop b.used_size b.records))),
  )

-- `BatchDelete` of a valid table returns true, keeps the table valid and takes out the keys given
-- and no other, whether it sorts them itself or they come in order.
pub batch_delete_lem :
    (t : SortTable) (kvs : List (List ℕ)) (already_sorted : Bool)
    → IsValid t.block
    → (already_sorted ≡ true → NonDescending (hash_keys kvs))
    → let (deleted, t') = batch_delete t kvs already_sorted in
      (deleted ≡ true)
      × IsValid t'.block
      × ((j : ℕ)
          → contents t'.block j ≡ (if has j (hash_keys kvs) then none else contents t.block j))
unfolding batch_delete
batch_delete_lem t kvs true v ordered =
    let l = loop-Leaves t.block v (hash_keys kvs) in
    (
      refl,
      left-IsValid t.block v (hash_keys kvs) (ordered refl) _ _ l,
      contents-left t.block v (hash_keys kvs) (ordered refl) _ _ l,
    )
batch_delete_lem t kvs false v ordered =
    let l = loop-Leaves t.block v (sort_keys (hash_keys kvs)) in
    (
      refl,
      left-IsValid t.block v _ (sort_keys-NonDescending (hash_keys kvs)) _ _ l,
      λ j.
          contents-left t.block v _ (sort_keys-NonDescending (hash_keys kvs)) _ _ l j
          ∙ rw (has-sort_keys j (hash_keys kvs)),
    )

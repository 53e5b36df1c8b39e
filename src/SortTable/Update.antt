-- ===== src/SortTable/Update.antt =====
-- The two steps of `Insert` on the abstract view: a new key, then its value.
use ad_index.Base.{
  ℕ, ◌+◌, ◌-◌, ◌<◌, ◌≤◌, ◌≡◌, ◌≢◌, sym, ◌∙◌, ap, some, arith, ltb→lt, inl, inr, ltb, ◌==◌,
  if◌then◌else◌, get_or-set, length-set, ==_iff, Bool-cases,
}
use ad_index.SortTable.{Record, cleared, Block}
use ad_index.SortTable.Table.{set_value}
use ad_index.SortTable.Search.{key_at}
use ad_index.SortTable.Shifting.{record_at}
use ad_index.SortTable.Add.{Inserted}
use ad_index.SortTable.Valid.{IsValid, Inserted-key}
use ad_index.SortTable.Contents.{value_at, contents, contents-at, contents-absent, Stored-cases}

module _ (b : Block) (i v : ℕ) (valid : IsValid b) (stored : i < b.used_size) where
  abbrev with_value : Record
  with_value = record (record_at b.records i) { value = v }

  record_at-set_value :
      (j : ℕ)
      → record_at (set_value b i v).records j
        ≡ (if i == j then with_value else record_at b.records j)
  record_at-set_value j =
      ground (arith, get_or-set b.records i j with_value cleared, valid.within, valid.room)

  key_at-set_value : (j : ℕ) → key_at (set_value b i v).records j ≡ key_at b.records j
  key_at-set_value j = elim (Bool-cases (i == j)) [
    | inl same ↦
        ap {A = Record} (λ r. r.key) {x = record_at (set_value b i v).records j} {y = with_value}
          (ground (arith, record_at-set_value j))
        ∙ ap (key_at b.records) ((==_iff i j).0 same)
    | inr other ↦
        ap {A = Record} (λ r. r.key) {x = record_at (set_value b i v).records j}
          {y = record_at b.records j} (ground (arith, record_at-set_value j))
  ]

  value_at-set_value :
      (j : ℕ) → value_at (set_value b i v).records j ≡ (if i == j then v else value_at b.records j)
  value_at-set_value j = elim (Bool-cases (i == j)) [
    | inl same ↦ rw same (
        ap {A = Record} (λ r. r.value) {x = record_at (set_value b i v).records j} {y = with_value}
          (ground (arith, record_at-set_value j)))
    | inr other ↦ rw other (
        ap {A = Record} (λ r. r.value) {x = record_at (set_value b i v).records j}
          {y = record_at b.records j} (ground (arith, record_at-set_value j)))
  ]

  pub set_value-IsValid : IsValid (set_value b i v)
  set_value-IsValid = record {
    sorted = λ x y h h'. ground (arith, valid.sorted x y, key_at-set_value x, key_at-set_value y);
    keys = λ x h. ground (arith, valid.keys x, key_at-set_value x);
    within = valid.within;
    room =
        omega (
          arith,
          valid.room,
          length-set b.records i (record (record_at b.records i) { value = v }),
        );
    positive = valid.positive;
  }

  -- Writing the value of a stored key changes that key alone.
  pub contents-set_value :
      (k : ℕ)
      → contents (set_value b i v) k ≡ (if key_at b.records i == k then some v else contents b k)
  contents-set_value k = elim (Stored-cases b.records b.used_size k) [
    | inl (j, h, e) ↦ ground (
      arith,
      contents-at b k j valid h e,
      contents-at (set_value b i v) k j set_value-IsValid h (key_at-set_value j ∙ e),
      value_at-set_value j,
      e,
      valid.sorted i j,
      valid.sorted j i,
    )
    | inr nowhere ↦ ground (
      arith,
      nowhere i,
      contents-absent b k nowhere,
      contents-absent (set_value b i v) k (λ j h e. nowhere j h (sym (key_at-set_value j) ∙ e)),
    )
  ]

contents-moved :
    (old new : Block) (x y j : ℕ)
    → IsValid old
    → IsValid new
    → x < old.used_size
    → y < new.used_size
    → record_at new.records y ≡ record_at old.records x
    → key_at old.records x ≡ j
    → contents new j ≡ contents old j
contents-moved old new x y j v v' hx hy e k =
    contents-at new j y v' hy (ap (λ (r : Record). r.key) e ∙ k)
    ∙ ap (λ (r : Record). some r.value) e
    ∙ sym (contents-at old j x v hx k)

-- A new key leaves the others with their values.
pub contents-Inserted :
    (old new : Block) (p k j : ℕ)
    → Inserted old new p k
    → p ≤ old.used_size
    → IsValid old
    → IsValid new
    → k ≢ j
    → contents new j ≡ contents old j
contents-Inserted old new p k j i le v v' ne = elim (Stored-cases old.records old.used_size j) [
  | inl (x, h, e) ↦ elim (Bool-cases (ltb x p)) [
    | inl before ↦
        contents-moved old new x x j v v' h (omega (arith, i.count)) (i.below x (ltb→lt _ _ before))
          e
    | inr behind ↦
        contents-moved old new x (x + 1) j v v' h (omega (arith, i.count))
          (i.above x (ground arith) h) e
  ]
  | inr nowhere ↦
      contents-absent new j (λ x h e.
        ground (arith, i.count, Inserted-key old new p k i le x, nowhere x, nowhere (x - 1)))
      ∙ sym (contents-absent old j nowhere)
]

-- ===== src/SortTable/Difference.antt =====
-- What `BatchDelete` is to leave: the records whose keys are not in the sorted list of keys.
use ad_index.Base.{
  ℕ, ◌<◌, ◌≤◌, ◌≡◌, refl, Bool, true, false, ◌||◌, List, [], ◌∷◌, Option, none, some, arith, ◌==◌,
  if◌then◌else◌, lt_i64, rank, u64_mod,
}
use ad_index.SortTable.{Record}
use ad_index.SortTable.Batch.{insert_sorted, sort_keys}

unfoldable pub difference : List Record → List ℕ → List Record
difference [] ks = []
difference (r ∷ rs) [] = r ∷ difference rs []
difference (r ∷ rs) (k ∷ ks) = elim (r.key == k) [
  | true ↦ difference rs ks
  | false ↦ elim (lt_i64 r.key k) [
    | true ↦ r ∷ difference rs (k ∷ ks)
    | false ↦ difference (r ∷ rs) ks
  ]
]

unfoldable pub has : ℕ → List ℕ → Bool
has j [] = false
has j (k ∷ ks) = k == j || has j ks

unfoldable pub find_key : List Record → ℕ → Option ℕ
find_key [] j = none
find_key (r ∷ rs) j = if r.key == j then some r.value else find_key rs j

-- Every key of the records lies above a bound.
abbrev pub Above : ℕ → List Record → Type 0
Above n [] = Unit {0}
Above n (r ∷ rs) = (n < rank r.key) × Above n rs

abbrev pub Ascending : List Record → Type 0
Ascending [] = Unit {0}
Ascending (r ∷ rs) = Above (rank r.key) rs × (r.key < u64_mod) × Ascending rs

-- The keys to delete do not descend.
abbrev pub AtLeast : ℕ → List ℕ → Type 0
AtLeast n [] = Unit {0}
AtLeast n (k ∷ ks) = (n ≤ rank k) × AtLeast n ks

abbrev pub NonDescending : List ℕ → Type 0
NonDescending [] = Unit {0}
NonDescending (k ∷ ks) = AtLeast (rank k) ks × NonDescending ks

find_key-Above : (n j : ℕ) (rs : List Record) → Above n rs → rank j ≤ n → find_key rs j ≡ none
unfolding find_key
find_key-Above n j [] a h = refl
find_key-Above n j (r ∷ rs) a h = ground (arith, find_key-Above n j rs a.1 h)

has-AtLeast : (n j : ℕ) (ks : List ℕ) → AtLeast n ks → rank j < n → has j ks ≡ false
unfolding has
has-AtLeast n j [] a h = refl
has-AtLeast n j (k ∷ ks) a h = ground (arith, has-AtLeast n j ks a.1 h)

Above-mono : (m n : ℕ) (rs : List Record) → m ≤ n → Above n rs → Above m rs
Above-mono m n [] h a = tt
Above-mono m n (r ∷ rs) h a = (omega arith, Above-mono m n rs h a.1)

AtLeast-mono : (m n : ℕ) (ks : List ℕ) → m ≤ n → AtLeast n ks → AtLeast m ks
AtLeast-mono m n [] h a = tt
AtLeast-mono m n (k ∷ ks) h a = (omega arith, AtLeast-mono m n ks h a.1)

difference-Above :
    (n : ℕ) (rs : List Record) (ks : List ℕ) → Above n rs → Above n (difference rs ks)
unfolding difference
difference-Above n [] ks a = tt
difference-Above n (r ∷ rs) [] a = (a.0, difference-Above n rs [] a.1)
difference-Above n (r ∷ rs) (k ∷ ks) a = ground (
  arith,
  difference-Above n rs ks a.1,
  difference-Above n rs (k ∷ ks) a.1,
  difference-Above n (r ∷ rs) ks a,
)

pub difference-Ascending :
    (rs : List Record) (ks : List ℕ) → Ascending rs → Ascending (difference rs ks)
unfolding difference
difference-Ascending [] ks a = tt
difference-Ascending (r ∷ rs) [] a =
    (difference-Above _ rs [] a.0, a.1, difference-Ascending rs [] a.2)
difference-Ascending (r ∷ rs) (k ∷ ks) a = ground (
  arith,
  difference-Ascending rs ks a.2,
  difference-Ascending rs (k ∷ ks) a.2,
  difference-Ascending (r ∷ rs) ks a,
  difference-Above (rank r.key) rs (k ∷ ks) a.0,
)

-- The records left are found as before, unless their key was to be deleted.
pub find_key-difference :
    (j : ℕ) (rs : List Record) (ks : List ℕ)
    → Ascending rs
    → NonDescending ks
    → find_key (difference rs ks) j ≡ (if has j ks then none else find_key rs j)
unfolding difference find_key has
find_key-difference j [] ks a d = ground arith
find_key-difference j (r ∷ rs) [] a d = ground (arith, find_key-difference j rs [] a.2 d)
find_key-difference j (r ∷ rs) (k ∷ ks) a d = ground (
  arith,
  find_key-difference j rs ks a.2 d.1,
  find_key-difference j rs (k ∷ ks) a.2 d,
  find_key-difference j (r ∷ rs) ks a d.1,
  find_key-Above (rank r.key) j rs a.0,
  has-AtLeast (rank k) j ks d.0,
)

AtLeast-insert :
    (n k : ℕ) (ks : List ℕ) → n ≤ rank k → AtLeast n ks → AtLeast n (insert_sorted k ks)
unfolding insert_sorted
AtLeast-insert n k [] h a = (h, tt)
AtLeast-insert n k (j ∷ js) h a = ground (arith, AtLeast-insert n k js h a.1)

insert_sorted-NonDescending :
    (k : ℕ) (ks : List ℕ) → NonDescending ks → NonDescending (insert_sorted k ks)
unfolding insert_sorted
insert_sorted-NonDescending k [] d = (tt, tt)
insert_sorted-NonDescending k (j ∷ js) d = ground (
  arith,
  insert_sorted-NonDescending k js d.1,
  AtLeast-insert (rank j) k js,
  AtLeast-mono (rank k) (rank j) js,
)

-- Sorting puts the keys in order.
pub sort_keys-NonDescending : (ks : List ℕ) → NonDescending (sort_keys ks)
unfolding sort_keys
sort_keys-NonDescending [] = tt
sort_keys-NonDescending (k ∷ ks) =
    insert_sorted-NonDescending k (sort_keys ks) (sort_keys-NonDescending ks)

has-insert_sorted : (j k : ℕ) (ks : List ℕ) → has j (insert_sorted k ks) ≡ (k == j || has j ks)
unfolding insert_sorted has
has-insert_sorted j k [] = refl
has-insert_sorted j k (i ∷ is) = ground (arith, has-insert_sorted j k is)

pub has-sort_keys : (j : ℕ) (ks : List ℕ) → has j (sort_keys ks) ≡ has j ks
unfolding sort_keys has
has-sort_keys j [] = refl
has-sort_keys j (k ∷ ks) = ground (arith, has-insert_sorted j k (sort_keys ks), has-sort_keys j ks)

-- ===== src/SortTable/Contents.antt =====
-- The abstract view of a block: a map from keys to values.
use ad_index.Base.{
  ℕ, zero, suc, ◌<◌, ◌≡◌, ◌≢◌, refl, true, false, List, Option, none, some, arith, ◌⊎◌, inl, inr,
  ◌==◌, if◌then◌else◌, ==_iff, Bool-cases,
}
use ad_index.SortTable.{Record, Block}
use ad_index.SortTable.Search.{key_at, IsSorted}
use ad_index.SortTable.Shifting.{record_at}
use ad_index.SortTable.Valid.{IsValid}

abbrev pub value_at : List Record → ℕ → ℕ
value_at records i = (record_at records i).value

-- The value of a key among the first `n` records.
unfoldable pub scan : List Record → ℕ → ℕ → Option ℕ
scan records zero k = none
scan records (suc n) k =
    if key_at records n == k then some (value_at records n) else scan records n k

unfoldable pub contents : Block → ℕ → Option ℕ
unfolding scan
contents b k = scan b.records b.used_size k

pub scan-absent :
    (records : List Record) (n k : ℕ)
    → ((i : ℕ) → i < n → key_at records i ≢ k)
    → scan records n k ≡ none
unfolding scan
scan-absent records zero k h = refl
scan-absent records (suc n) k h =
    ground (arith, h n, scan-absent records n k (λ i l. h i (omega arith)))

pub scan-at :
    (records : List Record) (n k i : ℕ)
    → IsSorted records n
    → i < n
    → key_at records i ≡ k
    → scan records n k ≡ some (value_at records i)
unfolding scan
scan-at records zero k i s h e = absurd (omega arith)
scan-at records (suc n) k i s h e = elim (Bool-cases (i == n)) [
  | inl last ↦ rw (← ((==_iff i n).0 last)) (ground (arith, e))
  | inr more ↦ ground (arith, s i n, scan-at records n k i (λ x y a b. s x y a (omega arith)))
]

-- Every key is stored at one index, or at none.
pub Stored-cases :
    (records : List Record) (n k : ℕ)
    → ((i : ℕ) × (i < n) × (key_at records i ≡ k)) ⊎ ((i : ℕ) → i < n → key_at records i ≢ k)
Stored-cases records zero k = inr (λ i h. absurd (omega arith))
Stored-cases records (suc n) k = go (Bool-cases (key_at records n == k)) (Stored-cases records n k)
  where
    go :
        ((key_at records n == k) ≡ true) ⊎ ((key_at records n == k) ≡ false)
        → ((i : ℕ) × (i < n) × (key_at records i ≡ k)) ⊎ ((i : ℕ) → i < n → key_at records i ≢ k)
        → ((i : ℕ) × (i < suc n) × (key_at records i ≡ k))
          ⊎ ((i : ℕ) → i < suc n → key_at records i ≢ k)
    go (inl hit) _ = inl (n, omega arith, (==_iff _ k).0 hit)
    go (inr miss) (inl (i, h, e)) = inl (i, omega arith, e)
    go (inr miss) (inr none_below) = inr (λ i h. ground (arith, none_below i))

pub contents-at :
    (b : Block) (k i : ℕ)
    → IsValid b
    → i < b.used_size
    → key_at b.records i ≡ k
    → contents b k ≡ some (value_at b.records i)
unfolding contents
contents-at b k i v = scan-at b.records b.used_size k i v.sorted

pub contents-absent :
    (b : Block) (k : ℕ) → ((i : ℕ) → i < b.used_size → key_at b.records i ≢ k) → contents b k ≡ none
unfolding contents
contents-absent b k = scan-absent b.records b.used_size k

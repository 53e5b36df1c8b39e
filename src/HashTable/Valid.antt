-- ===== src/HashTable/Valid.antt =====
-- The invariant of the buckets, and what the table holds under a key.
use ad_index.Base.{
  ℕ, ◌-◌, ◌^◌, ◌<◌, ◌≤◌, ◌≡◌, ◌≢◌, sym, ◌∙◌, Bool, false, ◌&&◌, List, [], ◌∷◌, ◌==◌, if◌then◌else◌,
  arith, Option, none, some, bit_and-le,
}
use ad_index.HashTable.Bucket.{HashBucket}
use ad_index.HashTable.Table.{raw_bucket}
use ad_index.HashTable.Keys.{alike}
use ad_index.HashTable.Chains.{Memory, Chain, first, Owned, Without, Distinct}
use ad_index.HashTable.Contents.{find, find-other, tally}

-- Behind every bucket of the array hangs a chain, and no bucket hangs in two of them: `owner` tells
-- in which.
pub record IsValid (n : ℕ) (m : Memory) (chains : ℕ → List ℕ) (owner : ℕ → ℕ) : Type 0 where
  pub positive : 0 < n
  pub small : n ≤ 2 ^ 29
  pub links : (s : ℕ) → s < n → Chain m n s (chains s)
  pub owned : (s : ℕ) → s < n → Owned owner s (chains s)
  pub heads : (s : ℕ) → s < n → owner s ≡ s
  pub distinct : (s : ℕ) → s < n → Distinct (chains s)
  pub unique : (s : ℕ) → s < n → (k : List ℕ) → tally m (s ∷ chains s) k ≤ 1

-- The value that the table holds under a key.
unfoldable pub contents : ℕ → Memory → (ℕ → List ℕ) → List ℕ → Option ℕ
contents n m chains k = find m (raw_bucket n k ∷ chains (raw_bucket n k)) k

-- The keys that the table takes for one.
abbrev pub same_key : ℕ → List ℕ → List ℕ → Bool
same_key n k j = raw_bucket n k == raw_bucket n j && alike k j

pub raw_bucket-lt : (n : ℕ) (k : List ℕ) → 0 < n → raw_bucket n k < n
unfolding raw_bucket
raw_bucket-lt n k h = omega (arith, bit_and-le _ (n - 1))

pub Chain-Without : (m : Memory) (n i s : ℕ) (is : List ℕ) → s < n → Chain m n i is → Without s is
Chain-Without m n i s [] h c = tt
Chain-Without m n i s (x ∷ xs) h c =
    ((λ e. absurd (omega (arith, c.1, e))), Chain-Without m n x s xs h c.2)

pub first-Owned :
    (hit : HashBucket → Bool) (m : Memory) (owner : ℕ → ℕ) (s i : ℕ) (is : List ℕ)
    → Owned owner s is
    → first hit m is ≡ some i
    → owner i ≡ s
unfolding first
first-Owned hit m owner s i [] o f = absurd (cc f)
first-Owned hit m owner s i (x ∷ xs) o f = ground (arith, f, first-Owned hit m owner s i xs, o)

-- What the table holds after a value was stored under a key.
abbrev pub Changed : ℕ → Memory → (ℕ → List ℕ) → List ℕ → Memory → (ℕ → List ℕ) → ℕ → Type 0
Changed n m chains k m' chains' value =
    (j : List ℕ)
    → contents n m' chains' j ≡ (if same_key n k j then some value else contents n m chains j)

-- What it holds after a key was taken out.
abbrev pub Dropped : ℕ → Memory → (ℕ → List ℕ) → List ℕ → Memory → (ℕ → List ℕ) → Type 0
Dropped n m chains k m' chains' =
    (j : List ℕ)
    → contents n m' chains' j ≡ (if same_key n k j then none else contents n m chains j)

pub unequal : (a b : ℕ) → (b == a) ≡ false → (a == b) ≡ false
unequal a b h = ground arith

module _ (n : ℕ) (m : Memory) (chains : ℕ → List ℕ) (owner : ℕ → ℕ) (v : IsValid n m chains owner)
    (k : List ℕ) where
  abbrev s : ℕ
  s = raw_bucket n k

  s-lt : s < n
  s-lt = raw_bucket-lt n k v.positive

  -- Any change to buckets of the chain of `k`, and to free ones, leaves the other chains alone.
  pub elsewhere :
      (m' : Memory) (chains' : ℕ → List ℕ) (x : ℕ) (j : List ℕ)
      → ((y : ℕ) → y ≢ x → owner y ≢ s → m' y ≡ m y)
      → raw_bucket n j ≢ s
      → Without x (raw_bucket n j ∷ chains (raw_bucket n j))
      → chains' (raw_bucket n j) ≡ chains (raw_bucket n j)
      → contents n m' chains' j ≡ contents n m chains j
  unfolding contents
  elsewhere m' chains' x j same other w kept =
      let h = raw_bucket-lt n j v.positive in
      rw kept (
        find-other m m' owner (raw_bucket n j) x (raw_bucket n j ∷ chains (raw_bucket n j)) j
          (λ y ne e. same y ne (λ e'. other (sym e ∙ e'))) w (v.heads _ h, v.owned _ h))

-- ===== src/HashTable/Contents.antt =====
-- What a chain holds under a key, and what writing one of its buckets does to that.
use ad_index.Base.{
  ℕ, ◌+◌, ◌≡◌, ◌≢◌, refl, ap, Bool, true, false, List, [], ◌∷◌, ◌++◌, if◌then◌else◌, arith,
  Bool-cases, inl, inr, Option, none, some,
}
use ad_index.HashTable.Bucket.{HashBucket, get_value}
use ad_index.HashTable.Table.{put, hits, check}
use ad_index.HashTable.Keys.{alike, check-alike, check-unlike}
use ad_index.HashTable.Chains.{Memory, first, Owned, Without}

-- The value of the first bucket of the list that stands for the key.
unfoldable pub find : Memory → List ℕ → List ℕ → Option ℕ
find memory [] k = none
find memory (j ∷ js) k = if hits k (memory j) then some (get_value (memory j)) else find memory js k

pub find-first :
    (memory : Memory) (is k : List ℕ)
    → find memory is k
      ≡ elim (first (hits k) memory is) [ none ↦ none | some j ↦ some (get_value (memory j)) ]
unfolding find first
find-first memory [] k = refl
find-first memory (j ∷ js) k = elim (Bool-cases (hits k (memory j))) [
  | inl h ↦ rw h refl
  | inr n ↦ rw n (find-first memory js k)
]

-- Only the buckets of the list matter, and of those not the links.
pub find-ext :
    (m m' : Memory) (k is : List ℕ) (j : ℕ)
    → ((y : ℕ) → y ≢ j → (hits k (m' y) ≡ hits k (m y)) × (get_value (m' y) ≡ get_value (m y)))
    → Without j is
    → find m' is k ≡ find m is k
unfolding find
find-ext m m' k [] j h w = refl
find-ext m m' k (x ∷ xs) j h w = rw ((h x w.0).0, (h x w.0).1, find-ext m m' k xs j h w.1) refl

pub find-other :
    (m m' : Memory) (owner : ℕ → ℕ) (s j : ℕ) (is k : List ℕ)
    → ((y : ℕ) → y ≢ j → owner y ≡ s → m' y ≡ m y)
    → Without j is
    → Owned owner s is
    → find m' is k ≡ find m is k
unfolding find
find-other m m' owner s j [] k h w o = refl
find-other m m' owner s j (x ∷ xs) k h w o =
    rw (h x w.0 o.0, find-other m m' owner s j xs k h w.1 o.1) refl

pub find-append :
    (m : Memory) (j : ℕ) (is k : List ℕ)
    → find m (is ++ j ∷ []) k ≡ elim (find m is k) [
      | some v ↦ some v
      | none ↦ if hits k (m j) then some (get_value (m j)) else none
    ]
unfolding find
find-append m j [] k = refl
find-append m j (x ∷ xs) k = ground (arith, find-append m j xs k)

-- Keys that are alike find the same.
pub find-alike : (m : Memory) (is k j : List ℕ) → alike k j ≡ true → find m is j ≡ find m is k
unfolding find
find-alike m [] k j e = refl
find-alike m (x ∷ xs) k j e =
    ground (arith, find-alike m xs k j e, check-alike k j (m x), check-unlike k j (m x))

pub first-hits :
    (hit : HashBucket → Bool) (m : Memory) (is : List ℕ) (i : ℕ)
    → first hit m is ≡ some i
    → hit (m i) ≡ true
unfolding first
first-hits hit m [] i f = absurd (cc f)
first-hits hit m (x ∷ xs) i f = ground (arith, f, first-hits hit m xs i)

-- A bucket that stands for other keys, before and after.
pub find-skip :
    (m : Memory) (is k : List ℕ) (i : ℕ) (b : HashBucket)
    → hits k b ≡ false
    → hits k (m i) ≡ false
    → find (put m i b) is k ≡ find m is k
unfolding find
find-skip m [] k i b h h' = refl
find-skip m (x ∷ xs) k i b h h' =
    ground (arith, find-skip m xs k i b h h', ap (λ y. hits k (m y)) {x = x} {y = i})

-- A new value in the first bucket that stands for the key.
pub find-overwrite :
    (m : Memory) (is k j : List ℕ) (i : ℕ) (b : HashBucket)
    → first (hits k) m is ≡ some i
    → ((l : List ℕ) → check l b ≡ check l (m i))
    → b.occupied ≡ true
    → find (put m i b) is j ≡ (if alike k j then some (get_value b) else find m is j)
unfolding find first
find-overwrite m [] k j i b f c o = absurd (cc f)
find-overwrite m (x ∷ xs) k j i b f c o = ground (
  arith,
  f,
  c j,
  c k,
  o,
  find-overwrite m xs k j i b,
  first-hits (hits k) m xs i,
  find-skip m xs j i b,
  check-alike k j (m x),
  check-unlike k j (m x),
)

-- How many buckets of the list stand for a key.
unfoldable pub tally : Memory → List ℕ → List ℕ → ℕ
tally memory [] k = 0
tally memory (j ∷ js) k = (if hits k (memory j) then 1 else 0) + tally memory js k

pub tally-kept :
    (m m' : Memory) (is k : List ℕ)
    → ((y : ℕ) → hits k (m' y) ≡ hits k (m y))
    → tally m' is k ≡ tally m is k
unfolding tally
tally-kept m m' [] k h = refl
tally-kept m m' (x ∷ xs) k h = rw (h x, tally-kept m m' xs k h) refl

pub tally-ext :
    (m m' : Memory) (k is : List ℕ) (j : ℕ)
    → ((y : ℕ) → y ≢ j → hits k (m' y) ≡ hits k (m y))
    → Without j is
    → tally m' is k ≡ tally m is k
unfolding tally
tally-ext m m' k [] j h w = refl
tally-ext m m' k (x ∷ xs) j h w = rw (h x w.0, tally-ext m m' k xs j h w.1) refl

pub tally-other :
    (m m' : Memory) (owner : ℕ → ℕ) (s j : ℕ) (is k : List ℕ)
    → ((y : ℕ) → y ≢ j → owner y ≡ s → m' y ≡ m y)
    → Without j is
    → Owned owner s is
    → tally m' is k ≡ tally m is k
unfolding tally
tally-other m m' owner s j [] k h w o = refl
tally-other m m' owner s j (x ∷ xs) k h w o =
    rw (h x w.0 o.0, tally-other m m' owner s j xs k h w.1 o.1) refl

pub tally-append :
    (m : Memory) (j : ℕ) (is k : List ℕ)
    → tally m (is ++ j ∷ []) k ≡ tally m is k + (if hits k (m j) then 1 else 0)
unfolding tally
tally-append m j [] k = ground arith
tally-append m j (x ∷ xs) k = ground (arith, tally-append m j xs k)

pub tally-alike : (m : Memory) (is k j : List ℕ) → alike k j ≡ true → tally m is j ≡ tally m is k
unfolding tally
tally-alike m [] k j e = refl
tally-alike m (x ∷ xs) k j e =
    ground (arith, tally-alike m xs k j e, check-alike k j (m x), check-unlike k j (m x))

pub tally-none : (m : Memory) (is k : List ℕ) → first (hits k) m is ≡ none → tally m is k ≡ 0
unfolding tally first
tally-none m [] k f = refl
tally-none m (x ∷ xs) k f = ground (arith, f, tally-none m xs k)

pub find-none : (m : Memory) (is k : List ℕ) → tally m is k ≡ 0 → find m is k ≡ none
unfolding tally find
find-none m [] k f = refl
find-none m (x ∷ xs) k f = ground (arith, f, find-none m xs k)

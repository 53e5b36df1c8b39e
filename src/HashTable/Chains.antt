-- ===== src/HashTable/Chains.antt =====
-- The chain of buckets behind a bucket of the array, as a list of indexes; `walk` follows it.
use ad_index.Base.{
  ℕ, zero, suc, ◌<◌, ◌≤◌, ◌≡◌, ◌≢◌, refl, sym, ◌∙◌, ap, Bool, false, List, [], ◌∷◌, ◌++◌,
  if◌then◌else◌, length, arith, Bool-cases, inl, inr, Option, none, some, done,
}
use ad_index.HashTable.Bucket.{HashBucket}
use ad_index.HashTable.Table.{Walk, reached, stopped, walk, put}

abbrev pub Memory : Type 0
Memory = ℕ → HashBucket

-- The chain behind `i` links the buckets of the list, and ends with a link back into the array.
abbrev pub Chain : Memory → ℕ → ℕ → List ℕ → Type 0
Chain memory n i [] = (memory i).next_bucket < n
Chain memory n i (j ∷ js) = ((memory i).next_bucket ≡ j) × (n ≤ j) × Chain memory n j js

-- Where the walk along a list ends.
unfoldable pub seek : (HashBucket → Bool) → Memory → ℕ → List ℕ → Walk
seek hit memory i [] = stopped i
seek hit memory i (j ∷ js) = if hit (memory j) then reached i j else seek hit memory j js

pub walk-seek :
    (fuel : ℕ) (hit : HashBucket → Bool) (memory : Memory) (n i : ℕ) (is : List ℕ)
    → Chain memory n i is
    → length is < fuel
    → walk fuel hit memory n i ≡ done (seek hit memory i is)
unfolding walk seek
walk-seek zero hit memory n i is c h = absurd (omega arith)
walk-seek (suc fuel) hit memory n i [] c h = ground (arith, c)
walk-seek (suc fuel) hit memory n i (j ∷ js) c h =
    ground (arith, c, walk-seek fuel hit memory n j js c.2)

unfoldable pub last : ℕ → List ℕ → ℕ
last i [] = i
last i (j ∷ js) = last j js

unfoldable pub first : (HashBucket → Bool) → Memory → List ℕ → Option ℕ
first hit memory [] = none
first hit memory (j ∷ js) = if hit (memory j) then some j else first hit memory js

-- The walk reaches the first bucket of the list that is hit, or stops at the end of the list.
abbrev pub Sought : Memory → (HashBucket → Bool) → ℕ → List ℕ → Walk → Type 0
Sought memory hit i is (reached p j) = first hit memory is ≡ some j
Sought memory hit i is (stopped l) = (first hit memory is ≡ none) × (l ≡ last i is)

pub seek-Sought :
    (hit : HashBucket → Bool) (memory : Memory) (i : ℕ) (is : List ℕ)
    → Sought memory hit i is (seek hit memory i is)
unfolding seek first last
seek-Sought hit memory i [] = (refl, refl)
seek-Sought hit memory i (j ∷ js) = elim (Bool-cases (hit (memory j))) [
  | inl holds ↦ rw holds (ground (arith, holds))
  | inr fails ↦ go (seek hit memory j js) fails (seek-Sought hit memory j js)
]
  where
    go :
        (w : Walk)
        → hit (memory j) ≡ false
        → Sought memory hit j js w
        → Sought memory hit i (j ∷ js) (if hit (memory j) then reached i j else w)
    go (reached p x) fails s = ground (arith, fails, s)
    go (stopped l) fails (s, e) = ground (arith, fails, s, e)

-- Every bucket of the list belongs to the chain of `s`.
abbrev pub Owned : (ℕ → ℕ) → ℕ → List ℕ → Type 0
Owned owner s [] = Unit {0}
Owned owner s (j ∷ js) = (owner j ≡ s) × Owned owner s js

abbrev pub Without : ℕ → List ℕ → Type 0
Without i [] = Unit {0}
Without i (j ∷ js) = (j ≢ i) × Without i js

abbrev pub Distinct : List ℕ → Type 0
Distinct [] = Unit {0}
Distinct (j ∷ js) = Without j js × Distinct js

pub Distinct-append : (x : ℕ) (is : List ℕ) → Without x is → Distinct is → Distinct (is ++ x ∷ [])
Distinct-append x [] w d = (tt, tt)
Distinct-append x (i ∷ is) w d = (Without-append i x is w.0 d.0, Distinct-append x is w.1 d.1)
  where
    Without-append : (i x : ℕ) (is : List ℕ) → i ≢ x → Without i is → Without i (is ++ x ∷ [])
    Without-append i x [] ne w = ((λ q. ne (sym q)), tt)
    Without-append i x (j ∷ js) ne w = (w.0, Without-append i x js ne w.1)

pub last-Owned :
    (owner : ℕ → ℕ) (s i : ℕ) (is : List ℕ) → owner i ≡ s → Owned owner s is → owner (last i is) ≡ s
unfolding last
last-Owned owner s i [] e o = e
last-Owned owner s i (j ∷ js) e o = last-Owned owner s j js o.0 o.1

Chain-last :
    (memory : Memory) (n i : ℕ) (is : List ℕ)
    → Chain memory n i is
    → (memory (last i is)).next_bucket < n
unfolding last
Chain-last memory n i [] c = c
Chain-last memory n i (j ∷ js) c = Chain-last memory n j js c.2

-- Buckets outside the chain may change.
pub Chain-other :
    (m m' : Memory) (owner : ℕ → ℕ) (n s j i : ℕ) (is : List ℕ)
    → ((y : ℕ) → y ≢ j → owner y ≡ s → (m' y).next_bucket ≡ (m y).next_bucket)
    → i ≢ j
    → owner i ≡ s
    → Without j is
    → Owned owner s is
    → Chain m n i is
    → Chain m' n i is
Chain-other m m' owner n s j i [] h e o w os c = rw (h i e o) c
Chain-other m m' owner n s j i (x ∷ xs) h e o w os c =
    (h i e o ∙ c.0, c.1, Chain-other m m' owner n s j x xs h w.0 os.0 w.1 os.1 c.2)

-- Buckets of the chain may change, but for their links.
pub Chain-kept :
    (m m' : Memory) (n i : ℕ) (is : List ℕ)
    → ((y : ℕ) → (m' y).next_bucket ≡ (m y).next_bucket)
    → Chain m n i is
    → Chain m' n i is
Chain-kept m m' n i [] h c = rw (h i) c
Chain-kept m m' n i (x ∷ xs) h c = (h i ∙ c.0, c.1, Chain-kept m m' n x xs h c.2)

-- A bucket linked behind the last one.
pub Chain-append :
    (m m' : Memory) (n i j : ℕ) (is : List ℕ)
    → ((y : ℕ) → y ≢ j → y ≢ last i is → (m' y).next_bucket ≡ (m y).next_bucket)
    → (m' (last i is)).next_bucket ≡ j
    → (m' j).next_bucket < n
    → n ≤ j
    → i ≢ j
    → Without j is
    → Chain m n i is
    → Chain m' n i (is ++ j ∷ [])
unfolding last
Chain-append m m' n i j [] h l e le ne w c = (l, le, e)
Chain-append m m' n i j (x ∷ xs) h l e le ne w c = (
  h i ne (λ same.
        absurd (ground (arith, c.0, ap (λ y. (m y).next_bucket) same, Chain-last m n x xs c.2)))
      ∙ c.0,
  c.1,
  Chain-append m m' n x j xs h l e le w.0 w.1 c.2,
)

pub put_here : (m : Memory) (i : ℕ) (b : HashBucket) → put m i b i ≡ b
put_here m i b = ground arith

pub put_there : (m : Memory) (i y : ℕ) (b : HashBucket) → y ≢ i → put m i b y ≡ m y
put_there m i y b ne = ground (arith, ne)

pub last-Without : (i j : ℕ) (is : List ℕ) → i ≢ j → Without j is → last i is ≢ j
unfolding last
last-Without i j [] ne w = ne
last-Without i j (x ∷ xs) ne w = last-Without x j xs w.0 w.1

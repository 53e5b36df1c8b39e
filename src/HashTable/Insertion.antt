-- ===== src/HashTable/Insertion.antt =====
-- Two of the three ways in which `Insert` changes the buckets: a new value in a bucket of the chain, and
-- a key in a free bucket of the array.
use ad_index.Base.{
  ℕ, ◌<◌, ◌≤◌, ◌≡◌, ◌≢◌, refl, true, false, ◌&&◌, List, ◌∷◌, ◌==◌, if◌then◌else◌, arith, Bool-cases,
  inl, inr, none, some, ==_iff,
}
use ad_index.HashTable.Bucket.{HashBucket, get_value}
use ad_index.HashTable.Table.{put, hits, check, raw_bucket}
use ad_index.HashTable.Keys.{alike}
use ad_index.HashTable.Chains.{Memory, first, Chain-kept}
use ad_index.HashTable.Contents.{
  find, find-other, find-overwrite, first-hits, tally, tally-kept, tally-other, tally-alike,
  tally-none,
}
use ad_index.HashTable.Valid.{
  IsValid, contents, Changed, raw_bucket-lt, Chain-Without, first-Owned, elsewhere,
}

module _ (n : ℕ) (m : Memory) (chains : ℕ → List ℕ) (owner : ℕ → ℕ) (v : IsValid n m chains owner)
    (k : List ℕ) where
  abbrev s : ℕ
  s = raw_bucket n k

  s-lt : s < n
  s-lt = raw_bucket-lt n k v.positive

  -- A new value in the first bucket of the chain that stands for the key.
  pub overwrite :
      (i : ℕ) (b : HashBucket)
      → first (hits k) m (s ∷ chains s) ≡ some i
      → ((l : List ℕ) → check l b ≡ check l (m i))
      → b.occupied ≡ true
      → b.next_bucket ≡ (m i).next_bucket
      → IsValid n (put m i b) chains owner × Changed n m chains k (put m i b) chains (get_value b)
  unfolding contents
  overwrite i b f c o l = (
    record {
      positive = v.positive;
      small = v.small;
      owned = v.owned;
      heads = v.heads;
      distinct = v.distinct;
      unique = unique;
      links = λ x h.
          Chain-kept m (put m i b) n x (chains x)
            (λ y. elim (Bool-cases (y == i)) [
              | inl e ↦ ground (arith, e, l)
              | inr d ↦ ground (arith, d)
            ])
            (v.links x h);
    },
    λ j. elim (Bool-cases (raw_bucket n k == raw_bucket n j)) [
      | inl same ↦
          rw (same, ← ((==_iff _ _).0 same)) (find-overwrite m (s ∷ chains s) k j i b f c o)
      | inr other ↦ rw other (
          elsewhere n m chains owner v k (put m i b) chains s j
            (λ y ne d. ground (
              arith,
              d,
              first-Owned (hits k) m owner s i (s ∷ chains s) (v.heads s s-lt, v.owned s s-lt) f,
            ))
            (ground (arith, other))
            (
              ground (arith, other),
              Chain-Without m n (raw_bucket n j) s (chains (raw_bucket n j)) s-lt
                  (v.links _ (raw_bucket-lt n j v.positive)),
            )
            refl)
    ],
  )
    where
      unique : (x : ℕ) → x < n → (j : List ℕ) → tally (put m i b) (x ∷ chains x) j ≤ 1
      unique x h j =
          rw
            (tally-kept m (put m i b) (x ∷ chains x) j
              (λ y. ground (arith, c j, o, first-hits (hits k) m (s ∷ chains s) i f)))
            (v.unique x h j)

  -- The key and its value in the bucket of the array, which was free.
  pub fill :
      (m' : Memory)
      → ((y : ℕ) → y ≢ s → m' y ≡ m y)
      → ((j : List ℕ) → check j (m' s) ≡ alike k j)
      → (m' s).occupied ≡ true
      → (m' s).next_bucket ≡ (m s).next_bucket
      → (m s).occupied ≡ false
      → first (hits k) m (s ∷ chains s) ≡ none
      → IsValid n m' chains owner × Changed n m chains k m' chains (get_value (m' s))
  unfolding contents find tally
  fill m' same c o l free f = (
    record {
      positive = v.positive;
      small = v.small;
      owned = v.owned;
      heads = v.heads;
      distinct = v.distinct;
      unique = unique;
      links = λ x h.
          Chain-kept m m' n x (chains x)
            (λ y. elim (Bool-cases (y == s)) [
              | inl e ↦ rw ((==_iff _ _).0 e) l
              | inr d ↦ rw (same y (ground (arith, d))) refl
            ])
            (v.links x h);
    },
    λ j. elim (Bool-cases (s == raw_bucket n j)) [
      | inl e ↦ rw (e, ← ((==_iff _ _).0 e)) (here j)
      | inr other ↦ rw other (
          elsewhere n m chains owner v k m' chains s j (λ y ne d. same y ne) (ground (arith, other))
            (
              ground (arith, other),
              Chain-Without m n (raw_bucket n j) s (chains (raw_bucket n j)) s-lt
                  (v.links _ (raw_bucket-lt n j v.positive)),
            )
            refl)
    ],
  )
    where
      rest : (j : List ℕ) → find m' (chains s) j ≡ find m (chains s) j
      rest j =
          find-other m m' owner s s (chains s) j (λ y ne d. same y ne)
            (Chain-Without m n s s (chains s) s-lt (v.links s s-lt)) (v.owned s s-lt)

      here :
          (j : List ℕ)
          → find m' (s ∷ chains s) j
            ≡ (if true && alike k j then some (get_value (m' s)) else find m (s ∷ chains s) j)
      here j = ground (arith, c j, o, free, rest j)

      unique : (x : ℕ) → x < n → (j : List ℕ) → tally m' (x ∷ chains x) j ≤ 1
      unique x h j = elim (Bool-cases (x == s)) [
        | inl is_s ↦ rw ((==_iff _ _).0 is_s) (
            ground (
              arith,
              c j,
              o,
              free,
              tally-none m (s ∷ chains s) k f,
              tally-alike m (chains s) k j,
              v.unique s s-lt j,
              tally-other m m' owner s s (chains s) j (λ y ne d. same y ne)
                  (Chain-Without m n s s (chains s) s-lt (v.links s s-lt)) (v.owned s s-lt),
            ))
        | inr not_s ↦
            rw
              (tally-other m m' owner x s (x ∷ chains x) j (λ y ne d. same y ne)
                ((ground (arith, not_s)), Chain-Without m n x s (chains x) s-lt (v.links x h))
                (v.heads x h, v.owned x h))
              (v.unique x h j)
      ]

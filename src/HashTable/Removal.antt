-- ===== src/HashTable/Removal.antt =====
-- Two of the three ways in which `Delete` changes the buckets: a bucket of the chain is marked free, and
-- the bucket of the array is cleared.
use ad_index.Base.{
  ℕ, ◌+◌, ◌<◌, ◌≤◌, ◌≡◌, ◌≢◌, refl, ◌∙◌, ap, true, false, List, [], ◌∷◌, ◌==◌, arith, Bool-cases,
  inl, inr, some, ==_iff,
}
use ad_index.HashTable.Bucket.{HashBucket, empty_bucket, clear_occupied}
use ad_index.HashTable.Table.{put, hits, raw_bucket}
use ad_index.HashTable.Keys.{alike, check-alike}
use ad_index.HashTable.Chains.{Memory, Chain, first, Chain-other, Chain-kept}
use ad_index.HashTable.Contents.{
  find, find-alike, find-skip, find-none, first-hits, tally, tally-other,
}
use ad_index.HashTable.Valid.{
  IsValid, contents, Dropped, raw_bucket-lt, Chain-Without, first-Owned, unequal, elsewhere,
}

tally_le :
    (m m' : Memory) (is k : List ℕ)
    → ((y : ℕ) → hits k (m' y) ≡ true → hits k (m y) ≡ true)
    → tally m' is k ≤ tally m is k
unfolding tally
tally_le m m' [] k h = omega arith
tally_le m m' (x ∷ xs) k h = ground (arith, h x, tally_le m m' xs k h)

tally_drop :
    (m m' : Memory) (is k : List ℕ) (i : ℕ)
    → ((y : ℕ) → hits k (m' y) ≡ true → hits k (m y) ≡ true)
    → hits k (m' i) ≡ false
    → first (hits k) m is ≡ some i
    → tally m' is k + 1 ≤ tally m is k
unfolding tally first
tally_drop m m' [] k i h d f = absurd (cc f)
tally_drop m m' (x ∷ xs) k i h d f =
    ground (arith, f, d, h x, tally_le m m' xs k h, tally_drop m m' xs k i h d)

module _ (n : ℕ) (m : Memory) (chains : ℕ → List ℕ) (owner : ℕ → ℕ) (v : IsValid n m chains owner)
    (k : List ℕ) where
  abbrev s : ℕ
  s = raw_bucket n k

  s-lt : s < n
  s-lt = raw_bucket-lt n k v.positive

  -- A bucket of the chain is marked free.
  pub unmark :
      (i : ℕ)
      → first (hits k) m (s ∷ chains s) ≡ some i
      → IsValid n (put m i (clear_occupied (m i))) chains owner
        × Dropped n m chains k (put m i (clear_occupied (m i))) chains
  unfolding contents
  unmark i f = (
    record {
      positive = v.positive;
      small = v.small;
      owned = v.owned;
      heads = v.heads;
      distinct = v.distinct;
      links = λ x h. Chain-kept m m' n x (chains x) (λ y. ground arith) (v.links x h);
      unique = λ x h j. omega (arith, tally_le m m' (x ∷ chains x) j (less j), v.unique x h j);
    },
    λ j. elim (Bool-cases (s == raw_bucket n j)) [
      | inl same ↦
          rw (same, ← ((==_iff _ _).0 same))
            (elim (Bool-cases (alike k j)) [
              | inl a ↦ rw a (
                  find-alike m' (s ∷ chains s) k j a
                  ∙ find-none m' (s ∷ chains s) k (
                      omega (
                        arith,
                        tally_drop m m' (s ∷ chains s) k i (less k) (cleared k) f,
                        v.unique s s-lt k,
                      )))
              | inr u ↦ rw u (
                  find-skip m (s ∷ chains s) j i (clear_occupied (m i)) refl (
                    ground
                      (arith, u, first-hits (hits k) m (s ∷ chains s) i f, check-alike k j (m i))))
            ])
      | inr other ↦ rw other (
          elsewhere n m chains owner v k m' chains s j
            (λ y ne d. ground (
              arith,
              d,
              first-Owned (hits k) m owner s i (s ∷ chains s) (v.heads s s-lt, v.owned s s-lt) f,
            ))
            (ground (arith, other))
            (
              ground (arith, other),
              Chain-Without m n (raw_bucket n j) s (chains (raw_bucket n j)) s-lt
                  (v.links _ (raw_bucket-lt n j v.positive)),
            )
            refl)
    ],
  )
    where
      m' : Memory
      m' = put m i (clear_occupied (m i))

      less : (j : List ℕ) (y : ℕ) → hits j (m' y) ≡ true → hits j (m y) ≡ true
      less j y h = ground (arith, h)

      cleared : (j : List ℕ) → hits j (m' i) ≡ false
      cleared j = ground arith

  -- The bucket of the array, with no chain behind it, is cleared.
  pub clear :
      (m' : Memory)
      → chains s ≡ []
      → m' s ≡ empty_bucket
      → ((y : ℕ) → y ≢ s → m' y ≡ m y)
      → hits k (m s) ≡ true
      → IsValid n m' chains owner × Dropped n m chains k m' chains
  unfolding contents find tally
  clear m' e cleared same hit = (
    record {
      positive = v.positive;
      small = v.small;
      heads = v.heads;
      owned = v.owned;
      distinct = v.distinct;
      links = links;
      unique = unique;
    },
    λ j. elim (Bool-cases (raw_bucket n j == s)) [
      | inl here ↦
          rw ((==_iff _ _).0 here) (rw e (ground (arith, cleared, hit, check-alike k j (m s))))
      | inr other ↦ rw (unequal s (raw_bucket n j) other) (
          elsewhere n m chains owner v k m' chains s j (λ y ne d. same y ne) (ground (arith, other))
            (
              ground (arith, other),
              Chain-Without m n (raw_bucket n j) s (chains (raw_bucket n j)) s-lt
                  (v.links _ (raw_bucket-lt n j v.positive)),
            )
            refl)
    ],
  )
    where
      links : (y : ℕ) → y < n → Chain m' n y (chains y)
      links y h = elim (Bool-cases (y == s)) [
        | inl is_s ↦ rw ((==_iff _ _).0 is_s, e) (rw cleared v.positive)
        | inr not_s ↦
            Chain-other m m' owner n y s y (chains y)
              (λ z ne d. ap (λ (b : HashBucket). b.next_bucket) (same z ne)) (ground (arith, not_s))
              (v.heads y h) (Chain-Without m n y s (chains y) s-lt (v.links y h)) (v.owned y h)
              (v.links y h)
      ]

      unique : (y : ℕ) → y < n → (j : List ℕ) → tally m' (y ∷ chains y) j ≤ 1
      unique y h j = elim (Bool-cases (y == s)) [
        | inl is_s ↦ rw ((==_iff _ _).0 is_s, e) (ground (arith, cleared))
        | inr not_s ↦
            rw
              (tally-other m m' owner y s (y ∷ chains y) j (λ z ne d. same z ne)
                (ground (arith, not_s), Chain-Without m n y s (chains y) s-lt (v.links y h))
                (v.heads y h, v.owned y h))
              (v.unique y h j)
      ]

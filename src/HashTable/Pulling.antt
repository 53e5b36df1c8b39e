-- ===== src/HashTable/Pulling.antt =====
-- The third way in which `Delete` changes the buckets: the bucket of the array takes the content of the
-- next one.
use ad_index.Base.{
  ℕ, ◌<◌, ◌≤◌, ◌≡◌, ◌≢◌, refl, sym, ◌∙◌, ap, true, false, ◌&&◌, List, [], ◌∷◌, ◌==◌, if◌then◌else◌,
  arith, Bool-cases, inl, inr, none, ==_iff,
}
use mathlib.Core.Path.{subst}
use ad_index.HashTable.Bucket.{HashBucket}
use ad_index.HashTable.Table.{hits, raw_bucket}
use ad_index.HashTable.Keys.{alike, check-alike}
use ad_index.HashTable.Chains.{Memory, Chain, Owned, Without, Distinct, Chain-other}
use ad_index.HashTable.Contents.{find, find-none, tally, tally-other}
use ad_index.HashTable.Valid.{
  IsValid, contents, Dropped, raw_bucket-lt, Chain-Without, unequal, elsewhere,
}

Owned-Without :
    (owner : ℕ → ℕ) (s x : ℕ) (is : List ℕ) → owner x ≢ s → Owned owner s is → Without x is
Owned-Without owner s x [] ne o = tt
Owned-Without owner s x (j ∷ js) ne o =
    ((λ q. ne (ap owner (sym q) ∙ o.0)), Owned-Without owner s x js ne o.1)

-- A chain whose first link stands in another bucket.
Chain-moved :
    (m m' : Memory) (n i i' s x : ℕ) (is : List ℕ)
    → (m' i').next_bucket ≡ (m i).next_bucket
    → ((y : ℕ) → y ≢ s → y ≢ x → m' y ≡ m y)
    → Without s is
    → Without x is
    → Chain m n i is
    → Chain m' n i' is
Chain-moved m m' n i i' s x [] e h ws wx c = rw e c
Chain-moved m m' n i i' s x (j ∷ js) e h ws wx c = (
  e ∙ c.0,
  c.1,
  Chain-moved m m' n j j s x js (ap (λ (b : HashBucket). b.next_bucket) (h j ws.0 wx.0)) h ws.1 wx.1
      c.2,
)

-- Two buckets outside the list may change.
find_two :
    (m m' : Memory) (s x : ℕ) (is k : List ℕ)
    → ((y : ℕ) → y ≢ s → y ≢ x → m' y ≡ m y)
    → Without s is
    → Without x is
    → find m' is k ≡ find m is k
unfolding find
find_two m m' s x [] k h ws wx = refl
find_two m m' s x (j ∷ js) k h ws wx = rw (h j ws.0 wx.0, find_two m m' s x js k h ws.1 wx.1) refl

tally_two :
    (m m' : Memory) (s x : ℕ) (is k : List ℕ)
    → ((y : ℕ) → y ≢ s → y ≢ x → m' y ≡ m y)
    → Without s is
    → Without x is
    → tally m' is k ≡ tally m is k
unfolding tally
tally_two m m' s x [] k h ws wx = refl
tally_two m m' s x (j ∷ js) k h ws wx = rw (h j ws.0 wx.0, tally_two m m' s x js k h ws.1 wx.1) refl

module _ (n : ℕ) (m : Memory) (chains : ℕ → List ℕ) (owner : ℕ → ℕ) (v : IsValid n m chains owner)
    (k : List ℕ) where
  abbrev s : ℕ
  s = raw_bucket n k

  s-lt : s < n
  s-lt = raw_bucket-lt n k v.positive

  -- The bucket of the array takes the content of the next one, which is cleared.
  pub pull :
      (m' : Memory) (x : ℕ) (xs : List ℕ)
      → chains s ≡ x ∷ xs
      → m' s ≡ m x
      → ((y : ℕ) → y ≢ s → y ≢ x → m' y ≡ m y)
      → hits k (m s) ≡ true
      → IsValid n m' (λ y. if y == s then xs else chains y) owner
        × Dropped n m chains k m' (λ y. if y == s then xs else chains y)
  unfolding contents find tally
  pull m' x xs e moved same hit = (
    record {
      positive = v.positive;
      small = v.small;
      heads = v.heads;
      owned = owned;
      distinct = distinct;
      links = links;
      unique = unique;
    },
    λ j. elim (Bool-cases (raw_bucket n j == s)) [
      | inl here ↦ rw (here, (==_iff _ _).0 here) (at_start j)
      | inr other ↦ rw (unequal s (raw_bucket n j) other) (
          elsewhere n m chains owner v k m' chains' x j
            (λ y ne d. same y (λ q. d (ap owner q ∙ v.heads s s-lt)) ne) (ground (arith, other))
            (
              ground (arith, linked.1, raw_bucket-lt n j v.positive),
              foreign _ (raw_bucket-lt n j v.positive) other,
            )
            (ground (arith, other)))
    ],
  )
    where
      chains' : ℕ → List ℕ
      chains' y = if y == s then xs else chains y

      linked : Chain m n s (x ∷ xs)
      linked = subst (λ l. Chain m n s l) e (v.links s s-lt)

      own : Owned owner s (x ∷ xs)
      own = subst (λ l. Owned owner s l) e (v.owned s s-lt)

      apart : Distinct (x ∷ xs)
      apart = subst (λ l. Distinct l) e (v.distinct s s-lt)

      once : (j : List ℕ) → tally m (s ∷ x ∷ xs) j ≤ 1
      once j = subst (λ l. tally m (s ∷ l) j ≤ 1) e (v.unique s s-lt j)

      no_s : Without s xs
      no_s = Chain-Without m n x s xs s-lt linked.2

      foreign : (y : ℕ) → y < n → (y == s) ≡ false → Without x (chains y)
      foreign y h not_s =
          Owned-Without owner y x (chains y) (ground (arith, own.0, not_s)) (v.owned y h)

      owned : (y : ℕ) → y < n → Owned owner y (chains' y)
      owned y h = elim (Bool-cases (y == s)) [
        | inl is_s ↦ rw (is_s, (==_iff _ _).0 is_s) own.1
        | inr not_s ↦ rw not_s (v.owned y h)
      ]

      distinct : (y : ℕ) → y < n → Distinct (chains' y)
      distinct y h = elim (Bool-cases (y == s)) [
        | inl is_s ↦ rw is_s apart.1
        | inr not_s ↦ rw not_s (v.distinct y h)
      ]

      links : (y : ℕ) → y < n → Chain m' n y (chains' y)
      links y h = elim (Bool-cases (y == s)) [
        | inl is_s ↦
            rw (is_s, (==_iff _ _).0 is_s)
              (Chain-moved m m' n x s s x xs (ap (λ (b : HashBucket). b.next_bucket) moved) same
                no_s apart.0 linked.2)
        | inr not_s ↦ rw not_s (
            Chain-other m m' owner n y x y (chains y)
              (λ z ne d.
                ap (λ (b : HashBucket). b.next_bucket)
                  (same z (λ q. absurd (ground (arith, not_s, d, ap owner q, v.heads s s-lt))) ne))
              (λ q. absurd (omega (arith, h, linked.1, q))) (v.heads y h) (foreign y h not_s)
              (v.owned y h) (v.links y h))
      ]

      unique : (y : ℕ) → y < n → (j : List ℕ) → tally m' (y ∷ chains' y) j ≤ 1
      unique y h j = elim (Bool-cases (y == s)) [
        | inl is_s ↦
            rw (is_s, (==_iff _ _).0 is_s)
              (ground (arith, moved, tally_two m m' s x xs j same no_s apart.0, once j))
        | inr not_s ↦
            rw
              (
                not_s,
                tally-other m m' owner y x (y ∷ chains y) j
                    (λ z ne d.
                      same z (λ q. absurd (ground (arith, not_s, d, ap owner q, v.heads s s-lt)))
                        ne)
                    ((λ q. absurd (omega (arith, h, linked.1, q))), foreign y h not_s)
                    (v.heads y h, v.owned y h),
              )
              (v.unique y h j)
      ]

      at_start :
          (j : List ℕ)
          → find m' (s ∷ xs) j ≡ (if (s == s) && alike k j then none else find m (s ∷ chains s) j)
      at_start j = rw e (
          ground (
            arith,
            moved,
            find_two m m' s x xs j same no_s apart.0,
            hit,
            check-alike k j (m s),
            once j,
            find-none m xs j,
          ))

-- ===== src/HashTable/Appending.antt =====
-- The third way in which `Insert` changes the buckets: a bucket behind the chain.
use ad_index.Base.{
  ℕ, ◌<◌, ◌≤◌, ◌≡◌, ◌≢◌, refl, ◌∙◌, ap, true, ◌&&◌, List, [], ◌∷◌, ◌++◌, ◌==◌, if◌then◌else◌, arith,
  Bool-cases, inl, inr, none, some, ==_iff,
}
use ad_index.HashTable.Bucket.{HashBucket, get_value}
use ad_index.HashTable.Table.{hits, check, raw_bucket}
use ad_index.HashTable.Keys.{alike}
use ad_index.HashTable.Chains.{
  Memory, Chain, first, last, Owned, Without, Distinct, Distinct-append, last-Owned, Chain-other,
  Chain-append,
}
use ad_index.HashTable.Contents.{
  find, find-first, find-ext, find-append, find-alike, tally, tally-ext, tally-other, tally-append,
  tally-alike, tally-none,
}
use ad_index.HashTable.Valid.{IsValid, contents, Changed, raw_bucket-lt, unequal, elsewhere}

Owned-set :
    (owner : ℕ → ℕ) (s x y : ℕ) (is : List ℕ)
    → Without x is
    → Owned owner y is
    → Owned (λ z. if z == x then s else owner z) y is
Owned-set owner s x y [] w o = tt
Owned-set owner s x y (i ∷ is) w o = (ground (arith, w, o), Owned-set owner s x y is w.1 o.1)

Owned-append :
    (owner : ℕ → ℕ) (s x : ℕ) (is : List ℕ)
    → Owned owner s is
    → Owned (λ z. if z == x then s else owner z) s (is ++ x ∷ [])
Owned-append owner s x [] o = (ground arith, tt)
Owned-append owner s x (i ∷ is) o = (ground (arith, o), Owned-append owner s x is o.1)

value_of : (b b' : HashBucket) → b.value ≡ b'.value → get_value b ≡ get_value b'
unfolding get_value
value_of b b' e = ground (arith, e)

module _ (n : ℕ) (m : Memory) (chains : ℕ → List ℕ) (owner : ℕ → ℕ) (v : IsValid n m chains owner)
    (k : List ℕ) where
  abbrev s : ℕ
  s = raw_bucket n k

  s-lt : s < n
  s-lt = raw_bucket-lt n k v.positive

  -- A new bucket behind the last one.
  pub append :
      (m' : Memory) (x : ℕ)
      → let l = last s (chains s) in
        ((y : ℕ) → y ≢ x → y ≢ l → m' y ≡ m y)
        → ((j : List ℕ) → check j (m' l) ≡ check j (m l))
        → (m' l).occupied ≡ (m l).occupied
        → (m' l).value ≡ (m l).value
        → (m' l).next_bucket ≡ x
        → ((j : List ℕ) → check j (m' x) ≡ alike k j)
        → (m' x).occupied ≡ true
        → (m' x).next_bucket < n
        → n ≤ x
        → ((y : ℕ) → y < n → Without x (chains y))
        → first (hits k) m (s ∷ chains s) ≡ none
        → IsValid n m'
            (λ y. if y == s then chains s ++ x ∷ [] else chains y)
            (λ y. if y == x then s else owner y)
          × Changed n m chains k m'
              (λ y. if y == s then chains s ++ x ∷ [] else chains y)
              (get_value (m' x))
  unfolding contents
  append m' x same lc lo lv ll c o e le fresh f = (
    record {
      positive = v.positive;
      small = v.small;
      heads = heads;
      links = links;
      owned = owned;
      distinct = distinct;
      unique = unique;
    },
    λ j. elim (Bool-cases (raw_bucket n j == s)) [
      | inl here ↦ rw (here, (==_iff _ _).0 here) (at_start j)
      | inr other ↦ rw (unequal s (raw_bucket n j) other) (
          elsewhere n m chains owner v k m' chains' x j
            (λ y ne d. same y ne (λ is_last. d (ap owner is_last ∙ owner_last)))
            (ground (arith, other))
            (
              ground (arith, le, raw_bucket-lt n j v.positive),
              fresh _ (raw_bucket-lt n j v.positive),
            )
            (ground (arith, other)))
    ],
  )
    where
      chains' : ℕ → List ℕ
      chains' y = if y == s then chains s ++ x ∷ [] else chains y

      owner' : ℕ → ℕ
      owner' y = if y == x then s else owner y

      owner_last : owner (last s (chains s)) ≡ s
      owner_last = last-Owned owner s s (chains s) (v.heads s s-lt) (v.owned s s-lt)

      s_x : s ≢ x
      s_x q = absurd (omega (arith, q, s-lt))

      heads : (y : ℕ) → y < n → owner' y ≡ y
      heads y h = ground (arith, v.heads y h)

      owned : (y : ℕ) → y < n → Owned owner' y (chains' y)
      owned y h = elim (Bool-cases (y == s)) [
        | inl is_s ↦
            rw (is_s, (==_iff _ _).0 is_s) (Owned-append owner s x (chains s) (v.owned s s-lt))
        | inr not_s ↦ rw not_s (Owned-set owner s x y (chains y) (fresh y h) (v.owned y h))
      ]

      links : (y : ℕ) → y < n → Chain m' n y (chains' y)
      links y h = elim (Bool-cases (y == s)) [
        | inl is_s ↦
            rw (is_s, (==_iff _ _).0 is_s)
              (Chain-append m m' n s x (chains s)
                (λ z ne nl. ap (λ b. b.next_bucket) (same z ne nl)) ll e le s_x (fresh s s-lt)
                (v.links s s-lt))
        | inr not_s ↦ rw not_s (
            Chain-other m m' owner n y x y (chains y)
              (λ z ne d.
                ap (λ b. b.next_bucket)
                  (same z ne
                    (λ is_last. absurd (ground (arith, not_s, d, owner_last, ap owner is_last)))))
              (ground (arith, h, le)) (v.heads y h) (fresh y h) (v.owned y h) (v.links y h))
      ]

      distinct : (y : ℕ) → y < n → Distinct (chains' y)
      distinct y h = elim (Bool-cases (y == s)) [
        | inl is_s ↦ rw is_s (Distinct-append x (chains s) (fresh s s-lt) (v.distinct s s-lt))
        | inr not_s ↦ rw not_s (v.distinct y h)
      ]

      agree :
          (j : List ℕ) (y : ℕ)
          → y ≢ x
          → (hits j (m' y) ≡ hits j (m y)) × (get_value (m' y) ≡ get_value (m y))
      agree j y ne = elim (Bool-cases (y == last s (chains s))) [
        | inl is_last ↦
            rw ((==_iff _ _).0 is_last) (
              ground (arith, lo, lc j),
              value_of (m' (last s (chains s))) (m (last s (chains s))) lv,
            )
        | inr no_last ↦ rw (same y ne (ground (arith, no_last))) (refl, refl)
      ]

      at_start :
          (j : List ℕ)
          → find m' (s ∷ chains s ++ x ∷ []) j
            ≡ (if (s == s) && alike k j then some (get_value (m' x)) else find m (s ∷ chains s) j)
      at_start j = ground (
        arith,
        find-append m' x (s ∷ chains s) j,
        find-ext m m' j (s ∷ chains s) x (agree j) (s_x, fresh s s-lt),
        find-alike m (s ∷ chains s) k j,
        find-first m (s ∷ chains s) k,
        f,
        c j,
        o,
      )

      unique : (y : ℕ) → y < n → (j : List ℕ) → tally m' (y ∷ chains' y) j ≤ 1
      unique y h j = elim (Bool-cases (y == s)) [
        | inl is_s ↦
            rw (is_s, (==_iff _ _).0 is_s)
              (ground (
                arith,
                tally-append m' x (s ∷ chains s) j,
                tally-ext m m' j (s ∷ chains s) x (λ z ne. (agree j z ne).0) (s_x, fresh s s-lt),
                tally-alike m (s ∷ chains s) k j,
                tally-none m (s ∷ chains s) k f,
                c j,
                o,
                v.unique s s-lt j,
              ))
        | inr not_s ↦
            rw
              (
                not_s,
                tally-other m m' owner y x (y ∷ chains y) j
                    (λ z ne d.
                      same z ne (λ is_last.
                        absurd (ground (arith, not_s, d, owner_last, ap owner is_last))))
                    (ground (arith, h, le), fresh y h) (v.heads y h, v.owned y h),
              )
              (v.unique y h j)
      ]

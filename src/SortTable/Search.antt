-- ===== src/SortTable/Search.antt =====
-- The binary search is total and exact on a sorted block.
use ad_index.Base.{
  ℕ, zero, suc, ◌+◌, ◌-◌, ◌^◌, ◌<◌, ◌≤◌, ◌≡◌, ◌⊎◌, inl, inr, List, [], ◌∷◌, arith, ltb, ◌==◌,
  if◌then◌else◌, length, get_elem?, get_or, Run, done, ◌>>=◌, read, rank, Returns,
  get_elem?-eq-get_or, u64_mod, ltb→lt, bind-Returns, rank-injective, ◌≢◌, Bool-cases, ==_iff, refl,
}
use ad_index.SortTable.{
  Record, cleared, Block, Find, found, missing, Probe, hit, next, mid, load, count_le, narrow,
  probe, search_loop, simd_binary_search,
}

abbrev pub key_at : List Record → ℕ → ℕ
key_at records i = (get_or records i cleared).key

mids :
    (lo hi : ℕ)
    → lo < hi
    → hi < 2 ^ 31
    → (mid lo (hi - lo) 0 < hi)
      × (lo ≤ mid lo (hi - lo) 0)
      × (mid lo (hi - lo) 0 < mid lo (hi - lo) 1)
      × (mid lo (hi - lo) 1 ≤ mid lo (hi - lo) 2)
      × (mid lo (hi - lo) 1 ≤ hi)
      × (mid lo (hi - lo) 1 < hi
          → (mid lo (hi - lo) 2 ≤ hi) × (mid lo (hi - lo) 1 < mid lo (hi - lo) 2))
      × (mid lo (hi - lo) 2 < 2 ^ 31)
unfolding mid
mids lo hi h k = omega arith

-- `narrow` is right about `i` records of the probed ones being at most the target.
abbrev Cut : (records : List Record) (k lo hi i : ℕ) → Type 0
Cut records k lo hi i =
    (0 < i
      → (mid lo (hi - lo) (i - 1) < hi)
        × (rank (key_at records (mid lo (hi - lo) (i - 1))) ≤ rank k))
    × (i < 3
        → (mid lo (hi - lo) i ≡ hi)
          ⊎ ((mid lo (hi - lo) i < hi) × (rank k < rank (key_at records (mid lo (hi - lo) i)))))
    × (i ≤ 3)

load-Cut :
    (records : List Record) (k lo hi : ℕ)
    → lo < hi
    → hi < 2 ^ 31
    → hi ≤ length records
    → Returns
        (load records hi (mid lo (hi - lo) 0 ∷ mid lo (hi - lo) 1 ∷ mid lo (hi - lo) 2 ∷ []))
        (λ keys. Cut records k lo hi (count_le k keys))
unfolding load count_le
load-Cut records k lo hi h small fits = ground (
  arith,
  mids lo hi h small,
  get_elem?-eq-get_or records (mid lo (hi - lo) 0) cleared,
  get_elem?-eq-get_or records (mid lo (hi - lo) 1) cleared,
  get_elem?-eq-get_or records (mid lo (hi - lo) 2) cleared,
)

-- The first `n` records stand in the signed order of their keys, each key once.
abbrev pub IsSorted : List Record → ℕ → Type 0
IsSorted records n = (i j : ℕ) → i < j → j < n → rank (key_at records i) < rank (key_at records j)

-- Their keys are int64_t.
abbrev pub Fits : List Record → ℕ → Type 0
Fits records n = (i : ℕ) → i < n → key_at records i < u64_mod

abbrev pub Before : List Record → ℕ → ℕ → Type 0
Before records k lo = (j : ℕ) → j < lo → rank (key_at records j) < rank k

abbrev pub After : List Record → ℕ → ℕ → ℕ → Type 0
After records k hi n = (j : ℕ) → hi ≤ j → j < n → rank k < rank (key_at records j)

-- An index that holds the target, or the place between the smaller keys and the greater.
abbrev pub Locates : List Record → ℕ → ℕ → Find → Type 0
Locates records k n (found i) = (i < n) × (key_at records i ≡ k)
Locates records k n (missing p) = (p ≤ n) × Before records k p × After records k p n

-- The tests of the two ends before the loop.
end_test :
    (records : List Record) (k n i : ℕ) (m : Run Find)
    → i < n
    → n ≤ length records
    → Returns m (Locates records k n)
    → Returns
        (read (get_elem? records i) >>= λ r. if r.key == k then done (found i) else m)
        (Locates records k n)
end_test records k n i m h room rest =
    rw (get_elem?-eq-get_or records i cleared (omega arith))
      (elim (Bool-cases (key_at records i == k)) [
        | inl same ↦ rw same (h, (==_iff _ k).0 same)
        | inr other ↦ rw other rest
      ])

module _ (records : List Record) (k n : ℕ) (sorted : IsSorted records n) (fits : Fits records n)
    (small : k < u64_mod) where
  Before-next :
      (m : ℕ)
      → m < n
      → rank (key_at records m) ≤ rank k
      → key_at records m ≢ k
      → Before records k (m + 1)
  Before-next m h le ne j hj =
      ground (arith, sorted j m, fits m, rank-injective (key_at records m) k)

  After-next : (m : ℕ) → m < n → rank k < rank (key_at records m) → After records k m n
  After-next m h lt j hj hn = ground (arith, sorted m j)

  abbrev Narrows : ℕ → ℕ → Probe → Type 0
  Narrows lo hi (hit i) = (i < n) × (key_at records i ≡ k)
  Narrows lo hi (next lo' hi') =
      (lo' ≤ hi')
      × (hi' ≤ hi)
      × (hi' - lo' < hi - lo)
      × Before records k lo'
      × After records k hi' n

  module _ (lo hi : ℕ) (h : lo < hi) (top : hi ≤ n) (room : n ≤ length records) (bound : n < 2 ^ 31)
      (b : Before records k lo) (a : After records k hi n) where
    step-Narrows :
        (i lo' hi' : ℕ)
        → mid lo (hi - lo) i < hi
        → rank (key_at records (mid lo (hi - lo) i)) ≤ rank k
        → lo' ≡ mid lo (hi - lo) i + 1
        → lo' ≤ hi'
        → hi' ≤ hi
        → lo < lo'
        → After records k hi' n
        → Returns
            (read (get_elem? records (mid lo (hi - lo) i)) >>= λ r.
              if r.key == k then done (hit (mid lo (hi - lo) i)) else done (next lo' hi'))
            (Narrows lo hi)
    step-Narrows i lo' hi' inside le e order within more after =
        rw (get_elem?-eq-get_or records (mid lo (hi - lo) i) cleared (omega arith))
          (elim (Bool-cases (key_at records (mid lo (hi - lo) i) == k)) [
            | inl same ↦ rw same (omega arith, (==_iff _ k).0 same)
            | inr other ↦ rw other (
              order,
              within,
              omega arith,
              rw e (Before-next (mid lo (hi - lo) i) (omega arith) le (λ q. ground arith)),
              after,
            )
          ])

    After-mid :
        (i m : ℕ)
        → m ≡ mid lo (hi - lo) i
        → (m ≡ hi) ⊎ ((m < hi) × (rank k < rank (key_at records m)))
        → After records k m n
    After-mid i m e (inl top) = rw top a
    After-mid i m e (inr (inside, above)) = After-next m (omega arith) above

    narrow-Narrows :
        (i : ℕ) → Cut records k lo hi i → Returns (narrow records k lo hi i) (Narrows lo hi)
    unfolding narrow
    narrow-Narrows zero c =
        let f = mids lo hi h (omega arith) in
        (
          omega arith,
          omega arith,
          omega (arith, f),
          b,
          After-mid 0 (mid lo (hi - lo) 0) refl (c.1 (omega arith)),
        )
    narrow-Narrows (suc zero) c =
        let f = mids lo hi h (omega arith) in
        let below = c.0 (omega arith) in
        step-Narrows 0 (mid lo (hi - lo) 0 + 1) (mid lo (hi - lo) 1) below.0 below.1 refl
          (omega arith) (omega arith) (omega arith)
          (After-mid 1 (mid lo (hi - lo) 1) refl (c.1 (omega arith)))
    narrow-Narrows (suc (suc zero)) c =
        let f = mids lo hi h (omega arith) in
        let below = c.0 (omega arith) in
        step-Narrows 1 (mid lo (hi - lo) 1 + 1) (mid lo (hi - lo) 2) below.0 below.1 refl
          (omega arith) (omega arith) (omega arith)
          (After-mid 2 (mid lo (hi - lo) 2) refl (c.1 (omega arith)))
    narrow-Narrows (suc (suc (suc zero))) c =
        let f = mids lo hi h (omega arith) in
        let below = c.0 (omega arith) in
        step-Narrows 2 (mid lo (hi - lo) 2 + 1) (hi) below.0 below.1 refl (omega arith)
          (omega arith) (omega arith) a
    narrow-Narrows (suc (suc (suc (suc i)))) c = absurd (omega arith)

    probe-Narrows : Returns (probe records k lo hi) (Narrows lo hi)
    unfolding probe
    probe-Narrows =
        bind-Returns _ _ _ _ (load-Cut records k lo hi h (omega arith) (omega arith))
          (λ keys c. narrow-Narrows (count_le k keys) c)

  search_loop-Locates :
      (fuel lo hi : ℕ)
      → lo ≤ hi
      → hi ≤ n
      → n ≤ length records
      → n < 2 ^ 31
      → hi - lo < fuel
      → Before records k lo
      → After records k hi n
      → Returns (search_loop fuel records k lo hi) (Locates records k n)
  unfolding search_loop
  search_loop-Locates zero lo hi order top room bound enough b a = absurd (omega arith)
  search_loop-Locates (suc fuel) lo hi order top room bound enough b a =
      elim (Bool-cases (ltb lo hi)) [
        | inl more ↦
            rw (more, search_loop)
              (bind-Returns (Narrows lo hi) (Locates records k n) _ _
                (probe-Narrows lo hi (ltb→lt _ _ more) top room bound b a)
                (elim [
                  | hit i ↦ λ g. g
                  | next lo' hi' ↦ λ g.
                      search_loop-Locates fuel lo' hi' g.0 (omega arith) room bound (omega arith)
                        g.3 g.4
                ]))
        | inr ended ↦ let e : lo ≡ hi = ground arith in rw (ended, search_loop) (top, rw (← e) b, a)
      ]

-- The search of a sorted block ends, reads inside the block, and finds the index of the target, or
-- the place where it belongs.
pub simd_binary_search-Locates :
    (b : Block) (k : ℕ)
    → IsSorted b.records b.used_size
    → Fits b.records b.used_size
    → k < u64_mod
    → b.used_size ≤ length b.records
    → b.used_size < 2 ^ 31
    → Returns (simd_binary_search b k) (Locates b.records k b.used_size)
unfolding simd_binary_search
simd_binary_search-Locates b k sorted fits small room bound = elim (Bool-cases (b.used_size == 0)) [
  | inl empty ↦
      let e : b.used_size ≡ 0 = (==_iff _ _).0 empty in
      rw empty (omega arith, (λ j h. absurd (omega arith)), λ j h h'. absurd (omega arith))
  | inr some_used ↦
      let pos : 0 < b.used_size = ground arith in
      rw some_used (
        end_test b.records k b.used_size 0 _ pos room (
          end_test b.records k b.used_size (b.used_size - 1) _ (omega arith) room (
            search_loop-Locates b.records k b.used_size sorted fits small (b.used_size + 1) 0
              b.used_size (omega arith) (omega arith) room bound (omega arith)
              (λ j h. absurd (omega arith)) (λ j h h'. absurd (omega arith)))))
]

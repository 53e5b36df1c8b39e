-- ===== src/Arena/Giving.antt =====
-- The search of `GetUintFromPageLevel` through the levels.
use mathlib.Core.Path.{subst}
use ad_index.Base.{
  ℕ, zero, suc, ◌+◌, ◌-◌, ◌<◌, ◌≤◌, ◌≡◌, ◌⊎◌, inl, inr, refl, sym, ap, ◌∙◌, true, false, List, [],
  some, ◌==◌, if◌then◌else◌, Bool-cases, length-set, get_elem?, get_elem?-eq-get_or, get_or, set,
  Run, done, ◌>>=◌, arith,
}
use ad_index.Arena.Levels.{invalid_addr, page_level_to_size}
use ad_index.Arena.Page.{
  get_u64, PageTable, split_down, take_page, split_from, split_from_high_level,
  get_unit_from_page_level,
}
use ad_index.Arena.Lists.{Chain, Chains-get, Chains-set, Chains-length, cover_levels-pop}
use ad_index.Arena.Units.{Chain-empty, Chain-first, HasLists, Takes, Takes-intro}
use ad_index.Arena.Taking.{split-Takes}

-- The outcome of a request for a block of a level: no list from a level on has a block, and nothing changes,
-- or a block is taken.
abbrev pub Gives : Run (ℕ × PageTable) → ℕ → ℕ → PageTable → List (List ℕ) → Type 0
Gives r level from t queues =
    ((r ≡ done (0, t)) × ((j : ℕ) → from ≤ j → j < 6 → get_or queues j [] ≡ []))
    ⊎ ((a : ℕ) × (t' : PageTable) × (r ≡ done (a, t')) × Takes level a queues t')

below_empty :
    (queues : List (List ℕ)) (i : ℕ)
    → get_or queues i [] ≡ []
    → ((j : ℕ) → i + 1 ≤ j → j < 6 → get_or queues j [] ≡ [])
    → (j : ℕ) → i ≤ j
    → j < 6
    → get_or queues j [] ≡ []
below_empty queues i e h j l m = elim (Bool-cases (i == j)) [
  | inl here ↦ ap (λ k. get_or queues k []) {x = j} {y = i} (ground (arith, here)) ∙ e
  | inr behind ↦ h j (ground (arith, l, behind)) m
]

module _ (t : PageTable) (queues : List (List ℕ)) (h : HasLists t queues) where
  abbrev head_of : ℕ → ℕ
  head_of i = get_or t.pages i 0

  has_head : (i : ℕ) → i < 6 → get_elem? t.pages i ≡ some (head_of i)
  has_head i l =
      get_elem?-eq-get_or t.pages i 0
        (omega (arith, l, h.six, Chains-length t.memory t.pages queues h.chains))

  head_of-Chain : (i : ℕ) → i < 6 → Chain t.memory (head_of i) (get_or queues i [])
  head_of-Chain i l = Chains-get t.memory t.pages queues i h.chains (omega (arith, l, h.six))

  split_from-next :
      (left i level : ℕ)
      → i < 6
      → (head_of i == invalid_addr) ≡ true
      → split_from (suc left) i level t ≡ split_from left (i + 1) level t
  unfolding split_from
  split_from-next left i level l e = ground (arith, has_head i l, e)

  split_from-here :
      (left i level : ℕ)
      → i < 6
      → (head_of i == invalid_addr) ≡ false
      → split_from (suc left) i level t
        ≡ (split_down (i - level) level (head_of i + page_level_to_size i) t >>= λ s. take_page i s)
  unfolding split_from
  split_from-here left i level l e = ground (arith, has_head i l, e)

  split_from-end : (i level : ℕ) → split_from zero i level t ≡ done (0, t)
  unfolding split_from
  split_from-end i level = refl

  split_from-Gives :
      (left i level : ℕ)
      → level < i
      → i + left ≡ 6
      → Gives (split_from left i level t) level i t queues
  split_from-Gives zero i level above e =
      inl (split_from-end i level, λ j l m. absurd (omega (arith, l, m, e)))
  split_from-Gives (suc left) i level above e = elim (Bool-cases (head_of i == invalid_addr)) [
    | inl none_here ↦
        elim (split_from-Gives left (i + 1) level (omega (arith, above)) (omega (arith, e))) [
          | inl (run, empty) ↦ inl (
            split_from-next left i level (omega (arith, e)) none_here ∙ run,
            below_empty queues i
                (Chain-empty t.memory (head_of i) (get_or queues i [])
                  (head_of-Chain i (omega (arith, e))) none_here)
                empty,
          )
          | inr (a, t', run, takes) ↦
              inr (a, t', split_from-next left i level (omega (arith, e)) none_here ∙ run, takes)
        ]
    | inr some_here ↦
        let (rest, first, valid, chain) =
          Chain-first t.memory (head_of i) (get_or queues i []) (head_of-Chain i (omega (arith, e)))
            some_here in
        let (t', run, takes) =
          split-Takes level i (head_of i) rest t queues h above (omega (arith, e))
            (has_head i (omega (arith, e))) first valid chain in
        inr (head_of i, t', split_from-here left i level (omega (arith, e)) some_here ∙ run, takes)
  ]

  -- The first block of level 0, whose list is not empty.
  abbrev popped : PageTable
  popped = record t {
    pages = set t.pages 0 (
        if get_u64 t.memory (head_of 0) == invalid_addr
        then invalid_addr
        else get_u64 t.memory (head_of 0));
  }

  get_unit-first :
      (head_of 0 == invalid_addr) ≡ false → get_unit_from_page_level t ≡ done (head_of 0, popped)
  unfolding get_unit_from_page_level
  get_unit-first e = rw (has_head 0 (omega arith)) (rw e refl)

  get_unit-split :
      (head_of 0 == invalid_addr) ≡ true → get_unit_from_page_level t ≡ split_from 5 1 0 t
  unfolding get_unit_from_page_level split_from_high_level
  get_unit-split e = rw (has_head 0 (omega arith)) (rw e refl)

  same_next : (next : ℕ) → (if next == invalid_addr then invalid_addr else next) ≡ next
  same_next next = ground arith

  popped-Takes : (head_of 0 == invalid_addr) ≡ false → Takes 0 (head_of 0) queues popped
  popped-Takes e =
      let (rest, first, valid, chain) =
        Chain-first t.memory (head_of 0) (get_or queues 0 []) (head_of-Chain 0 (omega arith)) e in
      let chain' =
        subst (λ k. Chain t.memory k rest) (sym (same_next (get_u64 t.memory (head_of 0)))) chain in
      Takes-intro t popped queues (set queues 0 rest) 0 (head_of 0) h
        (Chains-set t.memory t.pages queues 0 _ rest h.chains chain')
        (length-set queues 0 rest ∙ h.six)
        (λ x. cover_levels-pop x 0 0 (head_of 0) rest queues (omega (arith, h.six)) first)

  -- A table whose lists hold blocks that do not overlap and end before the invalid address gives a block of 4 KiB out of
  -- what the lists cover, and its lists then hold the rest; if it gives none, all its lists are empty, and nothing
  -- changes.
  pub get_unit_from_page_level-Gives : Gives (get_unit_from_page_level t) 0 0 t queues
  get_unit_from_page_level-Gives = elim (Bool-cases (head_of 0 == invalid_addr)) [
    | inl none_here ↦ elim (split_from-Gives 5 1 0 (omega arith) refl) [
      | inl (run, empty) ↦ inl (
        get_unit-split none_here ∙ run,
        below_empty queues 0
            (Chain-empty t.memory (head_of 0) (get_or queues 0 []) (head_of-Chain 0 (omega arith))
              none_here)
            empty,
      )
      | inr (a, t', run, takes) ↦ inr (a, t', get_unit-split none_here ∙ run, takes)
    ]
    | inr some_here ↦ inr (head_of 0, popped, get_unit-first some_here, popped-Takes some_here)
  ]

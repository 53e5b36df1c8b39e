-- ===== src/Arena/Gaining.antt =====
-- What becomes of the lists when `MergePageLevel` joins a block with another one.
use mathlib.Core.Path.{subst}
use ad_index.Base.{
  ℕ, suc, ◌+◌, ◌-◌, ◌*◌, ◌<◌, ◌≤◌, ◌≡◌, ◌⊎◌, inl, inr, refl, sym, ap, ◌∙◌, true, false, ◌==◌, List,
  [], length, get_or, get_or-set, set, min, fault, arith,
}
use ad_index.Arena.Levels.{invalid_addr, page_level_to_size}
use ad_index.Arena.Page.{PageTable}
use ad_index.Arena.Lists.{Chains-length, cover_levels, double_size}
use ad_index.Arena.Splitting.{least_size}
use ad_index.Arena.Units.{HasLists}
use ad_index.Arena.Pushing.{put_first-once, size_bound}
use ad_index.Arena.Freeing.{adjacent, merge_page_level}
use ad_index.Arena.Changing.{cover-set}
use ad_index.Arena.Overflow.{merge_beyond}
use ad_index.Arena.Rounds.{sides}
use ad_index.Arena.Joining.{Joins}
use ad_index.Pool.Cover.{covers, cover_queue}

-- The lists of a table hold what they held and the block.
pub record Frees (a size : ℕ) (queues : List (List ℕ)) (t' : PageTable) : Type 0 where
  pub queues' : List (List ℕ)
  pub lists : HasLists t' queues'
  pub gained : (x : ℕ) → cover_levels x 0 queues' ≡ covers x a size + cover_levels x 0 queues

-- Two blocks of the highest level lie side by side in free memory.
pub record Overflows (a size : ℕ) (queues : List (List ℕ)) : Type 0 where
  pub merged : ℕ
  pub block : ℕ
  pub side : adjacent block merged (page_level_to_size 5) ≡ true
  pub inside :
      (x : ℕ)
      → covers x merged (page_level_to_size 5) + covers x block (page_level_to_size 5)
        ≤ covers x a size + cover_levels x 0 queues

-- A block that can be freed: it is not in the lists, it and they end before the last byte below the invalid address, and
-- the lists from its level on are shorter than the fuel.
pub record CanFree (fuel a level : ℕ) (queues : List (List ℕ)) : Type 0 where
  pub ends : a + page_level_to_size level < invalid_addr
  pub free : (x : ℕ) → a ≤ x → x < a + page_level_to_size level → cover_levels x 0 queues ≡ 0
  pub top : cover_levels (invalid_addr - 1) 0 queues ≡ 0
  pub enough : (i : ℕ) → level ≤ i → length (get_or queues i []) < fuel

joined_covers :
    (x a b size : ℕ)
    → (a + size ≡ b) ⊎ (b + size ≡ a)
    → covers x (min a b) (2 * size) ≡ covers x a size + covers x b size
unfolding covers
joined_covers x a b size (inl e) = ground (arith, e)
joined_covers x a b size (inr e) = ground (arith, e)

covers_inside : (x a size : ℕ) → a ≤ x → x < a + size → covers x a size ≡ 1
unfolding covers
covers_inside x a size l m = ground (arith, l, m)

-- A block whose bytes are covered ends before a byte that is not.
block_ends :
    (b size top covered : ℕ) → covers top b size ≤ covered → covered ≡ 0 → b ≤ top → b + size ≤ top
unfolding covers
block_ends b size top covered inside none_covered low = ground (arith, inside, none_covered, low)

module _ (left fuel a level : ℕ) (t : PageTable) (queues : List (List ℕ)) (h : HasLists t queues)
    (l : level < 6) (c : CanFree fuel a level queues) (j : Joins left fuel a level t queues) where
  side_by_side : (a + page_level_to_size level ≡ j.block) ⊎ (j.block + page_level_to_size level ≡ a)
  side_by_side =
      sides j.block a (page_level_to_size level) j.block_valid (omega (arith, c.ends))
        (omega (arith, least_size level)) (size_bound level l) j.side

  taken :
      (x : ℕ)
      → cover_levels x 0 queues
        ≡ covers x j.block (page_level_to_size level) + cover_levels x 0 (set queues level j.more)
  unfolding cover_queue
  taken x = omega (arith, j.covered x, cover-set x level j.more queues (omega (arith, l, h.six)))

  next_size : page_level_to_size (level + 1) ≡ 2 * page_level_to_size level
  next_size =
      ap page_level_to_size {x = level + 1} {y = suc level} (omega arith) ∙ double_size level

  next_covers :
      (x : ℕ)
      → covers x (min a j.block) (page_level_to_size (level + 1))
          + cover_levels x 0 (set queues level j.more)
        ≡ covers x a (page_level_to_size level) + cover_levels x 0 queues
  next_covers x = omega (
    arith,
    ap (covers x (min a j.block)) next_size,
    joined_covers x a j.block (page_level_to_size level) side_by_side,
    taken x,
  )

  next_ends : min a j.block + page_level_to_size (level + 1) < invalid_addr
  next_ends =
      let at_top = taken (invalid_addr - 1) in
      let below =
        block_ends j.block (page_level_to_size level) (invalid_addr - 1)
          (cover_levels (invalid_addr - 1) 0 queues) (omega (arith, at_top)) c.top
          (omega (arith, j.block_valid)) in
      elim side_by_side [
        | inl behind ↦ omega (arith, behind, below, next_size)
        | inr before ↦ omega (arith, before, c.ends, next_size)
      ]

  next_free :
      (x : ℕ)
      → min a j.block ≤ x
      → x < min a j.block + page_level_to_size (level + 1)
      → cover_levels x 0 (set queues level j.more) ≡ 0
  next_free x low high =
      let one = covers_inside x (min a j.block) (page_level_to_size (level + 1)) low high in
      let once =
        put_first-once x a (page_level_to_size level) (cover_levels x 0 queues) (c.free x)
          (h.once x) in
      omega (arith, one, once, next_covers x)

  next_list : (i : ℕ) → level + 1 ≤ i → get_or (set queues level j.more) i [] ≡ get_or queues i []
  next_list i m =
      let other : (level == i) ≡ false = ground (arith, m) in
      get_or-set queues level i j.more [] ∙ rw other refl

  pub next-CanFree : CanFree fuel (min a j.block) (level + 1) (set queues level j.more)
  next-CanFree = record {
    ends = next_ends;
    free = next_free;
    top = omega (arith, taken (invalid_addr - 1), c.top);
    enough =
        λ i m. subst (λ q. length q < fuel) (sym (next_list i m)) (c.enough i (omega (arith, m)));
  }

  -- What the next level does is what this one does.
  pub next-Frees :
      (t' : PageTable)
      → Frees (min a j.block) (page_level_to_size (level + 1)) (set queues level j.more) t'
      → Frees a (page_level_to_size level) queues t'
  next-Frees t' f = record {
    queues' = f.queues';
    lists = f.lists;
    gained = λ x. f.gained x ∙ next_covers x;
  }

  pub next-Overflows :
      Overflows (min a j.block) (page_level_to_size (level + 1)) (set queues level j.more)
      → Overflows a (page_level_to_size level) queues
  next-Overflows o = record {
    merged = o.merged;
    block = o.block;
    side = o.side;
    inside = λ x. omega (arith, o.inside x, next_covers x);
  }

  -- A join at the highest level.
  pub last_level :
      level ≡ 5 → (n : ℕ) → merge_page_level (suc n) fuel (min a j.block) (level + 1) j.t' ≡ fault
  last_level e n =
      ap (λ k. merge_page_level (suc n) fuel (min a j.block) k j.t') {x = level + 1} {y = 6}
        (omega (arith, e))
      ∙ merge_beyond n fuel (min a j.block) j.t' (
          Chains-length j.t'.memory j.t'.pages (set queues level j.more) j.lists.chains
          ∙ j.lists.six)

  pub last-Overflows : level ≡ 5 → Overflows a (page_level_to_size level) queues
  last-Overflows e = record {
    merged = a;
    block = j.block;
    side = subst (λ k. adjacent j.block a (page_level_to_size k) ≡ true) e j.side;
    inside = λ x. omega (
      arith,
      taken x,
      ap (λ k. covers x a (page_level_to_size k)) e,
      ap (λ k. covers x j.block (page_level_to_size k)) e,
    );
  }

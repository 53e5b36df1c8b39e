-- ===== src/Arena/Joining.antt =====
-- One level of `MergePageLevel`: the block is put on its list, and joined with the first block side by side with it.
use mathlib.Core.Path.{subst}
use ad_index.Base.{
  ℕ, suc, ◌+◌, ◌<◌, ◌≤◌, ◌≡◌, ◌⊎◌, inl, inr, refl, sym, ap, ◌∙◌, true, false, List, [], ◌∷◌, some,
  Bool-cases, length, get_elem?, get_elem?-eq-get_or, get_or, get_or-set_self, set, min, done,
  arith,
}
use ad_index.Arena.Levels.{invalid_addr, page_level_to_size}
use ad_index.Arena.Page.{get_u64, put_u64, PageTable}
use ad_index.Arena.Words.{get_u64-put_u64}
use ad_index.Arena.Lists.{Chain, cover_levels, Chain-head, Chains-get, Chains-set, Chains-length}
use ad_index.Arena.Splitting.{least_size}
use ad_index.Arena.Units.{HasLists}
use ad_index.Arena.Pushing.{put_first, with_first, put_first-HasLists}
use ad_index.Arena.Freeing.{adjacent, merge_scan, merge_page_level}
use ad_index.Arena.Segments.{Found, spliced, merge_scan-Scans}
use ad_index.Arena.Changing.{set-set, HasLists-set}
use ad_index.Arena.Unlinking.{spliced-HasLists}
use ad_index.Arena.Overflow.{merge_first}
use ad_index.Pool.Cover.{covers, cover_queue}
use ad_index.Arena.Rounds.{beside_none, merge_later, merge_found, list_cases}

-- The block is joined with one of its list, and both are off the list.
pub record Joins (left fuel a level : ℕ) (t : PageTable) (queues : List (List ℕ)) : Type 0 where
  pub block : ℕ
  pub more : List ℕ
  pub t' : PageTable
  pub lists : HasLists t' (set queues level more)
  pub covered :
      (x : ℕ)
      → cover_queue x (page_level_to_size level) (a ∷ get_or queues level [])
        ≡ covers x a (page_level_to_size level)
          + (covers x block (page_level_to_size level)
              + cover_queue x (page_level_to_size level) more)
  pub block_valid : block < invalid_addr
  pub side : adjacent block a (page_level_to_size level) ≡ true
  pub run :
      merge_page_level (suc left) fuel a level t
      ≡ merge_page_level left fuel (min a block) (level + 1) t'

module _ (left fuel a level : ℕ) (t : PageTable) (queues : List (List ℕ)) (h : HasLists t queues)
    (l : level < 6) (ends : a + page_level_to_size level < invalid_addr)
    (free : (x : ℕ) → a ≤ x → x < a + page_level_to_size level → cover_levels x 0 queues ≡ 0)
    (enough : length (get_or queues level []) < fuel) where
  abbrev now : ℕ
  now = get_or t.pages level 0

  ins : level < length queues
  ins = omega (arith, l, h.six)

  pushed : HasLists (put_first level a t) (with_first level a queues)
  pushed = put_first-HasLists t queues level a h l (omega (arith, ends)) free

  now_small : get_or t.pages level 0 ≤ invalid_addr
  now_small =
      Chain-head t.memory (get_or t.pages level 0) (get_or queues level [])
        (Chains-get t.memory t.pages queues level h.chains ins)

  stored : get_u64 (put_u64 t.memory a (get_or t.pages level 0)) a ≡ get_or t.pages level 0
  stored = get_u64-put_u64 t.memory a (get_or t.pages level 0) (omega (arith, now_small))

  listed : get_elem? t.pages level ≡ some (get_or t.pages level 0)
  listed =
      get_elem?-eq-get_or t.pages level 0
        (omega (arith, Chains-length t.memory t.pages queues h.chains, ins))

  list_now : get_or (with_first level a queues) level [] ≡ a ∷ get_or queues level []
  list_now = get_or-set_self queues level (a ∷ get_or queues level []) [] ins

  -- The list behind the block, in the new memory.
  behind-Chain :
      Chain (put_first level a t).memory (get_or t.pages level 0) (get_or queues level [])
  behind-Chain =
      let m = (put_first level a t).memory in
      let at =
        Chains-get m (set t.pages level a) (with_first level a queues) level pushed.chains
          (omega (arith, pushed.six, l)) in
      let whole = subst (Chain m (get_or (set t.pages level a) level 0)) list_now at in
      subst (λ k. Chain m k (get_or queues level [])) stored whole.2

  a_valid : a < invalid_addr
  a_valid = omega (arith, ends)

  -- The first block behind is side by side with it.
  joined_first :
      (b : ℕ) (rest : List ℕ)
      → get_or queues level [] ≡ b ∷ rest
      → adjacent (get_or t.pages level 0) a (page_level_to_size level) ≡ true
      → Joins left fuel a level t queues
  unfolding cover_queue
  joined_first b rest parts side =
      let size = page_level_to_size level in
      let first = get_or t.pages level 0 in
      let t1 = put_first level a t in
      let queues1 = with_first level a queues in
      let listed_now = list_now ∙ ap (λ q. a ∷ q) parts in
      let c = subst (Chain t1.memory first) parts behind-Chain in
      let next = subst (λ k. Chain t1.memory (get_u64 t1.memory k) rest) (sym c.0) c.2 in
      let t2 : PageTable = record t1 { pages = set t1.pages level (get_u64 t1.memory first) } in
      let chains =
        Chains-set t1.memory t1.pages queues1 level (get_u64 t1.memory first) rest pushed.chains
          next in
      let lists =
        HasLists-set t1 t2 queues1 level rest pushed l chains
          (λ x. omega (arith, ap (cover_queue x (page_level_to_size level)) listed_now)) in
      record {
        block = first;
        more = rest;
        t' = t2;
        lists = subst (HasLists t2) (set-set queues level (a ∷ get_or queues level []) rest) lists;
        covered = λ x.
            ap (λ q. covers x a size + cover_queue x size q) (parts ∙ ap (λ k. k ∷ rest) (sym c.0));
        block_valid = omega (arith, c.0, c.1);
        side = side;
        run = merge_first left fuel a level first t listed stored side;
      }

  joined_behind :
      adjacent (get_or t.pages level 0) a (page_level_to_size level) ≡ false
      → (f : Found (put_first level a t).memory a level (a ∷ get_or queues level []))
      → merge_scan fuel a (get_or t.pages level 0) a level (put_first level a t)
        ≡ done (some (min a f.block), spliced f.last f.block a level (put_first level a t))
      → Joins left fuel a level t queues
  joined_behind apart f found =
      let t1 = put_first level a t in
      let queues1 = with_first level a queues in
      let f' : Found t1.memory a level (get_or queues1 level []) = record {
        before = f.before;
        last = f.last;
        block = f.block;
        behind = f.behind;
        parts = list_now ∙ f.parts;
        leads = f.leads;
        last_valid = f.last_valid;
        next = f.next;
        block_valid = f.block_valid;
        rest = f.rest;
        side = f.side;
      } in
      let (more, lists, cover) = spliced-HasLists t1 queues1 level a pushed l f' in
      record {
        block = f.block;
        more = more;
        t' = spliced f.last f.block a level t1;
        lists =
            subst (HasLists (spliced f.last f.block a level t1))
              (set-set queues level (a ∷ get_or queues level []) more) lists;
        covered = λ x. ap (cover_queue x (page_level_to_size level)) (sym list_now) ∙ cover x;
        block_valid = f.block_valid;
        side = f.side;
        run =
            merge_found left fuel a level (get_or t.pages level 0) (min a f.block) t _ listed stored
              apart found;
      }

  -- Another one may be.
  joined_later :
      adjacent (get_or t.pages level 0) a (page_level_to_size level) ≡ false
      → (merge_page_level (suc left) fuel a level t ≡ done (put_first level a t))
        ⊎ Joins left fuel a level t queues
  joined_later apart =
      elim (merge_scan-Scans (get_or queues level []) [] fuel a (get_or t.pages level 0) a level
        (put_first level a t) enough refl a_valid stored behind-Chain) [
          | inl none_found ↦ inl (
              merge_later left fuel a level (get_or t.pages level 0) t listed stored apart _
                none_found)
          | inr (f, found) ↦ inr (joined_behind apart f found)
        ]

  -- What a level does.
  pub merge_page_level-Joins :
      (merge_page_level (suc left) fuel a level t ≡ done (put_first level a t))
      ⊎ Joins left fuel a level t queues
  merge_page_level-Joins =
      elim (Bool-cases (adjacent (get_or t.pages level 0) a (page_level_to_size level))) [
        | inl side ↦ elim (list_cases (get_or queues level [])) [
          | inl none_behind ↦
              let at_end : get_or t.pages level 0 ≡ invalid_addr =
                subst (Chain (put_first level a t).memory (get_or t.pages level 0)) none_behind
                  behind-Chain in
              let apart =
                beside_none a (page_level_to_size level) (omega (arith, least_size level)) ends in
              absurd (
                let e : true ≡ false =
                  sym side ∙ (ap (λ k. adjacent k a (page_level_to_size level)) at_end ∙ apart) in
                cc e)
          | inr (b, rest, parts) ↦ inr (joined_first b rest parts side)
        ]
        | inr apart ↦ joined_later apart
      ]

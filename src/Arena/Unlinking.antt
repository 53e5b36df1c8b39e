-- ===== src/Arena/Unlinking.antt =====
-- Two blocks of a list that `MergePageLevel` takes out of it.
use mathlib.Core.Path.{subst}
use ad_index.Base.{
  ℕ, ◌+◌, ◌<◌, ◌≤◌, ◌≡◌, refl, sym, ap, ◌∙◌, List, [], ◌∷◌, ◌++◌, length, get_or, set, Bytes, arith,
}
use ad_index.Arena.Levels.{invalid_addr, page_level_to_size}
use ad_index.Arena.Page.{get_u64, put_u64, PageTable}
use ad_index.Arena.Words.{get_u64-put_u64}
use ad_index.Arena.Lists.{
  Chain, Chains, cover_levels, Chain-head, Chain-put, Chains-set, Chains-put,
}
use ad_index.Arena.Splitting.{least_size}
use ad_index.Arena.Units.{HasLists, OutQueue-cover, OutLists-cover}
use ad_index.Arena.Segments.{Seg, Seg-Chain, Seg-put, Found, spliced}
use ad_index.Pool.Cover.{covers, cover_queue}
use ad_index.Arena.Changing.{cover_queue-append, set-set, cover-set, HasLists-set}

-- The word of a block is covered by no other block of its list.
covers_word : (x a size : ℕ) → 8 ≤ size → a ≤ x → x < a + 8 → covers x a size ≡ 1
unfolding covers
covers_word x a size word l m = ground (arith, word, l, m)

-- With its first block, a list that leads from a head is not empty.
split_first :
    (m : Bytes) (head last : ℕ) (before behind : List ℕ)
    → Seg m head before last
    → (more : List ℕ) × (before ++ last ∷ behind ≡ head ∷ more)
split_first m head last [] behind s = (behind, ap (λ k. k ∷ behind) (sym s))
split_first m head last (b ∷ before) behind s =
    (before ++ last ∷ behind, ap (λ k. k ∷ before ++ last ∷ behind) (sym s.0))

module _ (t : PageTable) (queues : List (List ℕ)) (level head : ℕ) (h : HasLists t queues)
    (l : level < 6) (f : Found t.memory head level (get_or queues level [])) where
  parts_cover :
      (x : ℕ)
      → cover_queue x (page_level_to_size level) (get_or queues level [])
        ≡ cover_queue x (page_level_to_size level) f.before
          + (covers x f.last (page_level_to_size level)
              + (covers x f.block (page_level_to_size level)
                  + cover_queue x (page_level_to_size level) f.behind))
  unfolding cover_queue
  parts_cover x =
      ap (cover_queue x (page_level_to_size level)) f.parts
      ∙ cover_queue-append x (page_level_to_size level) f.before (f.last ∷ f.block ∷ f.behind)

  -- Nothing else covers the word of `last`.
  word_once :
      (x : ℕ)
      → f.last ≤ x
      → x < f.last + 8
      → (cover_queue x (page_level_to_size level) f.before ≡ 0)
        × (cover_queue x (page_level_to_size level) f.behind ≡ 0)
        × (cover_levels x 0 (set queues level []) ≡ 0)
  unfolding cover_queue
  word_once x low high =
      let ins : level < length queues = omega (arith, l, h.six) in
      let parts = parts_cover x in
      let one =
        covers_word x f.last (page_level_to_size level) (omega (arith, least_size level)) low
          high in
      let all = cover-set x level [] queues ins in
      let once = h.once x in
      (
        omega (arith, parts, one, all, once),
        omega (arith, parts, one, all, once),
        omega (arith, parts, one, all, once),
      )

  -- The list without the block that was found.
  after-Chain :
      Chain
        (put_u64 t.memory f.last (get_u64 t.memory f.block))
        head
        (f.before ++ f.last ∷ f.behind)
  after-Chain =
      let size = page_level_to_size level in
      let next = get_u64 t.memory f.block in
      let word : 8 ≤ size = omega (arith, least_size level) in
      let small = Chain-head t.memory next f.behind f.rest in
      let out_before =
        OutQueue-cover f.last (f.last + 8) size f.before word (omega arith)
          (λ x low high. (word_once x low high).0) in
      let out_behind =
        OutQueue-cover f.last (f.last + 8) size f.behind word (omega arith)
          (λ x low high. (word_once x low high).1) in
      let behind =
        Chain-put t.memory f.last (f.last + 8) f.last next next f.behind (omega arith) (omega arith)
          out_behind f.rest in
      let leads =
        Seg-put t.memory f.last (f.last + 8) f.last next head f.last f.before (omega arith)
          (omega arith) out_before f.leads in
      Seg-Chain (put_u64 t.memory f.last next) head f.last f.before (f.last ∷ f.behind) leads (
        refl,
        f.last_valid,
        subst (λ k. Chain (put_u64 t.memory f.last next) k f.behind)
            (sym (get_u64-put_u64 t.memory f.last next (omega (arith, small)))) behind,
      )

  others-Chains :
      Chains
        (put_u64 t.memory f.last (get_u64 t.memory f.block))
        (set t.pages level invalid_addr)
        (set queues level [])
  others-Chains =
      Chains-put t.memory f.last (f.last + 8) f.last (get_u64 t.memory f.block)
        (set t.pages level invalid_addr) (set queues level []) (omega arith) (omega arith)
        (OutLists-cover f.last (f.last + 8) 0 (set queues level []) (omega arith)
          (λ x low high. (word_once x low high).2))
        (Chains-set t.memory t.pages queues level invalid_addr [] h.chains refl)

  rest_cover :
      (more : List ℕ)
      → f.before ++ f.last ∷ f.behind ≡ head ∷ more
      → (x : ℕ)
      → cover_queue x (page_level_to_size level) (get_or queues level [])
        ≡ covers x head (page_level_to_size level)
          + (covers x f.block (page_level_to_size level)
              + cover_queue x (page_level_to_size level) more)
  unfolding cover_queue
  rest_cover more first x =
      let joined =
        sym (cover_queue-append x (page_level_to_size level) f.before (f.last ∷ f.behind))
        ∙ ap (cover_queue x (page_level_to_size level)) first in
      omega (arith, parts_cover x, joined)

  -- Both blocks are off the list, and the other lists are as they were.
  pub spliced-HasLists :
      (more : List ℕ) × HasLists (spliced f.last f.block head level t) (set queues level more)
      × ((x : ℕ)
          → cover_queue x (page_level_to_size level) (get_or queues level [])
            ≡ covers x head (page_level_to_size level)
              + (covers x f.block (page_level_to_size level)
                  + cover_queue x (page_level_to_size level) more))
  unfolding cover_queue
  spliced-HasLists =
      let next = get_u64 t.memory f.block in
      let m = put_u64 t.memory f.last next in
      let (more, first) = split_first t.memory head f.last f.before f.behind f.leads in
      let whole = subst (Chain m head) first after-Chain in
      let chains =
        subst (λ ps. Chains m ps (set (set queues level []) level more))
          (set-set t.pages level invalid_addr (get_u64 m head))
          (Chains-set m (set t.pages level invalid_addr) (set queues level []) level
            (get_u64 m head) more others-Chains whole.2) in
      let chains' =
        subst (Chains m (set t.pages level (get_u64 m head))) (set-set queues level [] more)
          chains in
      let cover = λ (x : ℕ). rest_cover more first x in
      (
        more,
        HasLists-set t (spliced f.last f.block head level t) queues level more h l chains'
            (λ x. omega (arith, cover x)),
        cover,
      )

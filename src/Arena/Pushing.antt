-- ===== src/Arena/Pushing.antt =====
-- A block that is put first into the list of its level, as page_mem_table.cc does it.
use mathlib.Core.Path.{subst}
use ad_index.Base.{
  ℕ, ◌+◌, ◌-◌, ◌<◌, ◌≤◌, ◌≡◌, inl, inr, refl, sym, ap, ◌∙◌, ◌&&◌, List, [], ◌∷◌, ltb, leb, ◌^◌,
  Bool-cases, length, length-set, get_or, set, arith,
}
use ad_index.Arena.Levels.{invalid_addr, page_level_to_size}
use ad_index.Arena.Page.{put_u64, PageTable}
use ad_index.Arena.Words.{get_u64-put_u64}
use ad_index.Arena.Lists.{
  Chain, cover_levels, Chain-head, Chains-get, Chains-set, Chains-put, cover_levels-push,
}
use ad_index.Arena.Splitting.{least_size, grows_size}
use ad_index.Arena.Units.{OutLists-cover, HasLists}
use ad_index.Pool.Cover.{covers}

-- A block is put first into the list of its level.
abbrev pub put_first : ℕ → ℕ → PageTable → PageTable
put_first level a t = record t {
  memory = put_u64 t.memory a (get_or t.pages level 0);
  pages = set t.pages level a;
}

abbrev pub with_first : ℕ → ℕ → List (List ℕ) → List (List ℕ)
with_first level a queues = set queues level (a ∷ get_or queues level [])

pub cover-put_first :
    (x level a : ℕ) (queues : List (List ℕ))
    → length queues ≡ 6
    → level < 6
    → cover_levels x 0 (with_first level a queues)
      ≡ covers x a (page_level_to_size level) + cover_levels x 0 queues
cover-put_first x level a queues six l =
    cover_levels-push x 0 level a queues (omega (arith, six, l))
    ∙ ap (λ k. covers x a (page_level_to_size k) + cover_levels x 0 queues) {x = 0 + level}
        {y = level} (omega arith)

pub put_first-once :
    (x a size covered : ℕ)
    → (a ≤ x → x < a + size → covered ≡ 0)
    → covered ≤ 1
    → covers x a size + covered ≤ 1
unfolding covers
put_first-once x a size covered free once = elim (Bool-cases (leb a x && ltb x (a + size))) [
  | inl here ↦ ground (arith, here, free (ground (arith, here)) (ground (arith, here)))
  | inr apart ↦ ground (arith, apart, once)
]

put_first-inside :
    (x a size covered : ℕ)
    → a + size ≤ invalid_addr
    → invalid_addr ≤ x
    → covered ≡ 0
    → covers x a size + covered ≡ 0
unfolding covers
put_first-inside x a size covered ends l e = ground (arith, ends, l, e)

pub put_first-HasLists :
    (t : PageTable) (queues : List (List ℕ)) (level a : ℕ)
    → HasLists t queues
    → level < 6
    → a + page_level_to_size level ≤ invalid_addr
    → ((x : ℕ) → a ≤ x → x < a + page_level_to_size level → cover_levels x 0 queues ≡ 0)
    → HasLists (put_first level a t) (with_first level a queues)
put_first-HasLists t queues level a h l ends free =
    let size = page_level_to_size level in
    let least = least_size level in
    let old = get_or t.pages level 0 in
    let memory = put_u64 t.memory a old in
    let ins : level < length queues = omega (arith, h.six, l) in
    let small =
      Chain-head t.memory old (get_or queues level [])
        (Chains-get t.memory t.pages queues level h.chains ins) in
    let out = OutLists-cover a (a + size) 0 queues (omega (arith, least)) free in
    let kept =
      Chains-put t.memory a (a + size) a old t.pages queues (omega arith) (omega (arith, least)) out
        h.chains in
    let chain =
      subst (λ k. Chain memory k (get_or queues level []))
        (sym (get_u64-put_u64 t.memory a old (omega (arith, small))))
        (Chains-get memory t.pages queues level kept ins) in
    record {
      chains =
          Chains-set memory t.pages queues level a (a ∷ get_or queues level []) kept
            (refl, omega (arith, ends, least), chain);
      six = length-set queues level (a ∷ get_or queues level []) ∙ h.six;
      once = λ x.
          subst (λ k. k ≤ 1) (sym (cover-put_first x level a queues h.six l))
            (put_first-once x a size (cover_levels x 0 queues) (free x) (h.once x));
      inside = λ x m.
          cover-put_first x level a queues h.six l
          ∙ put_first-inside x a size (cover_levels x 0 queues) ends m (h.inside x m);
    }

last_size : page_level_to_size 5 ≤ 2 ^ 17
unfolding page_level_to_size
last_size = omega arith

pub size_bound : (level : ℕ) → level < 6 → page_level_to_size level ≤ 2 ^ 17
size_bound level l = omega (
  arith,
  last_size,
  subst (λ k. page_level_to_size level ≤ page_level_to_size k) {x = level + (5 - level)} {y = 5}
      (omega (arith, l)) (grows_size level (5 - level)),
)

-- ===== src/Arena/Taking.antt =====
-- `GetUintFromPageLevel` and `SplitFromHighLevel` on the lists.
use mathlib.Core.Path.{subst}
use ad_index.Base.{
  ℕ, ◌+◌, ◌-◌, ◌<◌, ◌≤◌, ◌≡◌, inl, inr, refl, sym, ap, ◌∙◌, ◌&&◌, List, [], ◌∷◌, some, ltb, leb,
  if◌then◌else◌, Bool-cases, length, length-set, get_elem?, get_or, set, done, ◌>>=◌, arith,
}
use ad_index.Arena.Levels.{invalid_addr, page_level_to_size}
use ad_index.Arena.Page.{get_u64, put_u64, PageTable, split_down, take_page}
use ad_index.Arena.Lists.{
  Chain, Chains, cover_levels, OutLists, Chains-set, Chains-put, cover_levels-pop,
}
use ad_index.Arena.Splitting.{split_down-Splits, least_size, grows_size}
use ad_index.Pool.Cover.{covers}
use ad_index.Arena.Units.{OutLists-cover, HasLists, Takes, Takes-intro}

-- The lists end below the invalid address.
covered_end :
    (a size : ℕ) (queues left : List (List ℕ)) (t : PageTable)
    → HasLists t queues
    → a < invalid_addr
    → ((y : ℕ) → cover_levels y 0 queues ≡ covers y a size + cover_levels y 0 left)
    → a + size ≤ invalid_addr
unfolding covers
covered_end a size queues left t h l e = elim (Bool-cases (ltb invalid_addr (a + size))) [
  | inl beyond ↦
      absurd (ground (arith, beyond, l, e invalid_addr, h.inside invalid_addr (omega arith)))
  | inr ends ↦ ground (arith, ends)
]

covers-split :
    (x a size larger : ℕ)
    → size ≤ larger
    → covers x a larger
      ≡ covers x a size + (if leb (a + size) x && ltb x (a + larger) then 1 else 0)
unfolding covers
covers-split x a size larger l = ground (arith, l)

take_page-first :
    (i head : ℕ) (t : PageTable)
    → get_elem? t.pages i ≡ some head
    → take_page i t
      ≡ done (
        head,
        record t {
          pages = set t.pages i (get_u64 t.memory head);
          memory = put_u64 t.memory head invalid_addr;
        },
      )
unfolding take_page
take_page-first i head t e = rw e refl

free_of :
    (x a size whole left : ℕ)
    → a ≤ x
    → x < a + size
    → whole ≡ covers x a size + left
    → whole ≤ 1
    → left ≡ 0
unfolding covers
free_of x a size whole left l m e once = ground (arith, l, m, e, once)

-- A block of level `i` that is split and taken.
pub split-Takes :
    (level i head : ℕ) (rest : List ℕ) (t : PageTable) (queues : List (List ℕ))
    → HasLists t queues
    → level < i
    → i < 6
    → get_elem? t.pages i ≡ some head
    → get_or queues i [] ≡ head ∷ rest
    → head < invalid_addr
    → Chain t.memory (get_u64 t.memory head) rest
    → (t' : PageTable) × ((split_down (i - level) level (head + page_level_to_size i) t >>= λ s.
          take_page i s)
        ≡ done (head, t'))
      × Takes level head queues t'
split-Takes level i head rest t queues h above inside at first valid chain =
    let link = get_u64 t.memory head in
    let without = set queues i rest in
    let low : ℕ = head + page_level_to_size level in
    let high : ℕ = head + page_level_to_size i in
    let ins : i < length queues = omega (arith, h.six, inside) in
    let popped : (x : ℕ)
        → cover_levels x 0 queues
          ≡ covers x head (page_level_to_size i) + cover_levels x 0 without =
      λ (x : ℕ).
        cover_levels-pop x 0 i head rest queues ins first
        ∙ ap (λ k. covers x head (page_level_to_size k) + cover_levels x 0 without) {x = 0 + i}
            {y = i} (omega arith) in
    let least = least_size level in
    let larger : page_level_to_size level ≤ page_level_to_size i =
      subst (λ k. page_level_to_size level ≤ page_level_to_size k) {x = level + (i - level)} {y = i}
        (omega (arith, above)) (grows_size level (i - level)) in
    let out : OutLists head high without =
      OutLists-cover head high 0 without (omega (arith, least, larger)) (λ x l m.
        free_of x head (page_level_to_size i) (cover_levels x 0 queues) (cover_levels x 0 without) l
          m (popped x) (h.once x)) in
    let (s, queues', run, sp) =
      split_down-Splits i link (i - level) level head low high t without (omega (arith, above))
        (omega (arith, ins, length-set queues i rest))
        (omega
          (arith, ap page_level_to_size {x = level + (i - level)} {y = i} (omega (arith, above))))
        (omega (arith, least))
        (covered_end head (page_level_to_size i) queues without t h valid popped)
        (Chains-set t.memory t.pages queues i link rest h.chains chain) out in
    let memory = put_u64 s.memory head invalid_addr in
    let t' : PageTable = record s {
      pages = set s.pages i (get_u64 s.memory head);
      memory = memory;
    } in
    let chains : Chains memory (set s.pages i (get_u64 s.memory head)) queues' =
      Chains-put s.memory head low head invalid_addr _ queues' (omega arith) (omega (arith, least))
        sp.out
        (subst (λ k. Chains s.memory (set s.pages i k) queues') (sym sp.same_word) sp.chains) in
    (
      t',
      ap (λ m. m >>= λ s. take_page i s) run ∙ take_page-first i head s (sp.same_head ∙ at),
      Takes-intro t t' queues queues' level head h chains
          (sp.same_length ∙ (length-set queues i rest ∙ h.six))
          (λ x. omega (
            arith,
            popped x,
            sp.cover x,
            covers-split x head (page_level_to_size level) (page_level_to_size i) larger,
          )),
    )

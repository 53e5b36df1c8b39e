-- ===== src/Arena/Units.antt =====
-- The block that `GetUintFromPageLevel` takes from the lists, and what stays in them.
use mathlib.Core.Path.{subst}
use ad_index.Base.{
  ℕ, suc, ◌+◌, ◌<◌, ◌≤◌, ◌≡◌, ◌⊎◌, inl, inr, refl, sym, ap, true, false, List, [], ◌∷◌, ltb, ltb→lt,
  ◌==◌, Bool-cases, length, Bytes, arith,
}
use ad_index.Arena.Levels.{invalid_addr, page_level_to_size}
use ad_index.Arena.Page.{get_u64, PageTable}
use ad_index.Arena.Lists.{Chain, Chains, cover_levels, OutQueue, OutLists}
use ad_index.Arena.Splitting.{least_size}
use ad_index.Pool.Cover.{covers, cover_queue}

-- The queue behind a head.
pub Chain-empty :
    (m : Bytes) (head : ℕ) (queue : List ℕ)
    → Chain m head queue
    → (head == invalid_addr) ≡ true
    → queue ≡ []
Chain-empty m head [] c e = refl
Chain-empty m head (b ∷ queue) c e = absurd (ground (arith, c.0, c.1, e))

pub Chain-first :
    (m : Bytes) (head : ℕ) (queue : List ℕ)
    → Chain m head queue
    → (head == invalid_addr) ≡ false
    → (rest : List ℕ) × (queue ≡ head ∷ rest)
      × (head < invalid_addr)
      × Chain m (get_u64 m head) rest
Chain-first m head [] c e = absurd (ground (arith, c, e))
Chain-first m head (b ∷ queue) c e = (
  queue,
  ap (λ k. k ∷ queue) (sym c.0),
  omega (arith, c.0, c.1),
  subst (λ k. Chain m (get_u64 m k) queue) (sym c.0) c.2,
)

-- Blocks of which none covers a byte of the region.
covers-apart :
    (low high b size : ℕ)
    → 8 ≤ size
    → low < high
    → ((x : ℕ) → low ≤ x → x < high → covers x b size ≡ 0)
    → (b + 8 ≤ low) ⊎ (high ≤ b)
unfolding covers
covers-apart low high b size word some_bytes h = elim (Bool-cases (ltb low (b + 8))) [
  | inr before ↦ inl (ground (arith, before))
  | inl reaches ↦ elim (Bool-cases (ltb b high)) [
    | inr behind ↦ inr (ground (arith, behind))
    | inl inside ↦ elim (Bool-cases (ltb b low)) [
      | inl left ↦
          absurd (
            ground (arith, reaches, inside, left, word, some_bytes, h low (omega arith) some_bytes))
      | inr right ↦ absurd (
          ground (
            arith,
            reaches,
            inside,
            right,
            word,
            h b (ground (arith, right)) (ltb→lt b high inside),
          ))
    ]
  ]
]

pub OutQueue-cover :
    (low high size : ℕ) (queue : List ℕ)
    → 8 ≤ size
    → low < high
    → ((x : ℕ) → low ≤ x → x < high → cover_queue x size queue ≡ 0)
    → OutQueue low high queue
unfolding cover_queue
OutQueue-cover low high size [] word some_bytes h = record {}
OutQueue-cover low high size (b ∷ queue) word some_bytes h = (
  covers-apart low high b size word some_bytes (λ x l m. omega (arith, h x l m)),
  OutQueue-cover low high size queue word some_bytes (λ x l m. omega (arith, h x l m)),
)

pub OutLists-cover :
    (low high level : ℕ) (queues : List (List ℕ))
    → low < high
    → ((x : ℕ) → low ≤ x → x < high → cover_levels x level queues ≡ 0)
    → OutLists low high queues
unfolding cover_levels
OutLists-cover low high level [] some_bytes h = record {}
OutLists-cover low high level (q ∷ queues) some_bytes h = (
  OutQueue-cover low high (page_level_to_size level) q (omega (arith, least_size level)) some_bytes
      (λ x l m. omega (arith, h x l m)),
  OutLists-cover low high (suc level) queues some_bytes (λ x l m. omega (arith, h x l m)),
)

-- The lists of a table hold blocks that do not overlap and end before the invalid address.
pub record HasLists (t : PageTable) (queues : List (List ℕ)) : Type 0 where
  pub chains : Chains t.memory t.pages queues
  pub six : length queues ≡ 6
  pub once : (x : ℕ) → cover_levels x 0 queues ≤ 1
  pub inside : (x : ℕ) → invalid_addr ≤ x → cover_levels x 0 queues ≡ 0

-- A block of a level was taken out of what the lists cover.
pub record Takes (level a : ℕ) (queues : List (List ℕ)) (t' : PageTable) : Type 0 where
  pub left : List (List ℕ)
  pub has_left : HasLists t' left
  pub taken :
      (x : ℕ)
      → cover_levels x 0 queues ≡ covers x a (page_level_to_size level) + cover_levels x 0 left

pub Takes-intro :
    (t t' : PageTable) (queues left : List (List ℕ)) (level a : ℕ)
    → HasLists t queues
    → Chains t'.memory t'.pages left
    → length left ≡ 6
    → ((x : ℕ)
        → cover_levels x 0 queues ≡ covers x a (page_level_to_size level) + cover_levels x 0 left)
    → Takes level a queues t'
Takes-intro t t' queues left level a h c six e = record {
  left = left;
  has_left = record {
    chains = c;
    six = six;
    once = λ x. omega (arith, e x, h.once x);
    inside = λ x l. omega (arith, e x, h.inside x l);
  };
  taken = e;
}

-- ===== src/Arena/Lists.antt =====
-- The lists of free blocks of a table, as lists of addresses, level by level.
use mathlib.Core.Path.{subst}
use native.Mathlib.Numerals.{towards_suc}
use ad_index.Base.{
  ℕ, zero, suc, ◌+◌, ◌*◌, ◌<◌, ◌≤◌, ◌≡◌, ◌⊎◌, inl, inr, refl, sym, ap, List, [], ◌∷◌, length,
  get_or, set, Bytes, arith,
}
use ad_index.Arena.Levels.{invalid_addr, page_level_to_size}
use ad_index.Arena.Page.{get_u64, put_u64}
use ad_index.Arena.Words.{get_u64-put_apart}
use ad_index.Pool.Cover.{covers, cover_queue}

-- From a head, the words at the blocks lead from one to the next, and then to no address.
abbrev pub Chain : Bytes → ℕ → List ℕ → Type 0
Chain m head [] = head ≡ invalid_addr
Chain m head (b ∷ queue) = (head ≡ b) × (b < invalid_addr) × Chain m (get_u64 m b) queue

abbrev pub Chains : Bytes → List ℕ → List (List ℕ) → Type 0
Chains m [] [] = Unit {0}
Chains m [] (q ∷ queues) = ⊥
Chains m (h ∷ heads) [] = ⊥
Chains m (h ∷ heads) (q ∷ queues) = Chain m h q × Chains m heads queues

-- In how many free blocks an address lies, the lists beginning at a level.
unfoldable pub cover_levels : ℕ → ℕ → List (List ℕ) → ℕ
cover_levels x level [] = 0
cover_levels x level (q ∷ queues) =
    cover_queue x (page_level_to_size level) q + cover_levels x (suc level) queues

-- The words at the blocks do not reach into a region.
abbrev pub OutQueue : ℕ → ℕ → List ℕ → Type 0
OutQueue low high [] = Unit {0}
OutQueue low high (b ∷ queue) = ((b + 8 ≤ low) ⊎ (high ≤ b)) × OutQueue low high queue

abbrev pub OutLists : ℕ → ℕ → List (List ℕ) → Type 0
OutLists low high [] = Unit {0}
OutLists low high (q ∷ queues) = OutQueue low high q × OutLists low high queues

pub double_size : (level : ℕ) → page_level_to_size (suc level) ≡ 2 * page_level_to_size level
unfolding page_level_to_size
double_size level = simp towards_suc (omega arith)

pub Chain-head : (m : Bytes) (head : ℕ) (queue : List ℕ) → Chain m head queue → head ≤ invalid_addr
Chain-head m head [] c = omega (arith, c)
Chain-head m head (b ∷ queue) c = omega (arith, c.0, c.1)

pub Chains-get :
    (m : Bytes) (heads : List ℕ) (queues : List (List ℕ)) (i : ℕ)
    → Chains m heads queues
    → i < length queues
    → Chain m (get_or heads i 0) (get_or queues i [])
Chains-get m [] [] i c l = absurd (omega (arith, l))
Chains-get m [] (q ∷ queues) i c l = absurd c
Chains-get m (h ∷ heads) [] i c l = absurd c
Chains-get m (h ∷ heads) (q ∷ queues) zero c l = c.0
Chains-get m (h ∷ heads) (q ∷ queues) (suc i) c l =
    Chains-get m heads queues i c.1 (omega (arith, l))

pub Chains-set :
    (m : Bytes) (heads : List ℕ) (queues : List (List ℕ)) (i head : ℕ) (queue : List ℕ)
    → Chains m heads queues
    → Chain m head queue
    → Chains m (set heads i head) (set queues i queue)
Chains-set m [] [] i head queue c d = c
Chains-set m [] (q ∷ queues) i head queue c d = absurd c
Chains-set m (h ∷ heads) [] i head queue c d = absurd c
Chains-set m (h ∷ heads) (q ∷ queues) zero head queue c d = (d, c.1)
Chains-set m (h ∷ heads) (q ∷ queues) (suc i) head queue c d =
    (c.0, Chains-set m heads queues i head queue c.1 d)

pub Chains-length :
    (m : Bytes) (heads : List ℕ) (queues : List (List ℕ))
    → Chains m heads queues
    → length heads ≡ length queues
Chains-length m [] [] c = refl
Chains-length m [] (q ∷ queues) c = absurd c
Chains-length m (h ∷ heads) [] c = absurd c
Chains-length m (h ∷ heads) (q ∷ queues) c = ap suc (Chains-length m heads queues c.1)

-- A write into the region is apart from the word at a block outside it.
pub apart_words :
    (low high a b : ℕ)
    → low ≤ a
    → a + 8 ≤ high
    → (b + 8 ≤ low) ⊎ (high ≤ b)
    → (b + 8 ≤ a) ⊎ (a + 8 ≤ b)
apart_words low high a b l h (inl before) = inl (omega (arith, before, l))
apart_words low high a b l h (inr behind) = inr (omega (arith, behind, h))

-- A write into the region leaves the chains.
pub Chain-put :
    (m : Bytes) (low high a n head : ℕ) (queue : List ℕ)
    → low ≤ a
    → a + 8 ≤ high
    → OutQueue low high queue
    → Chain m head queue
    → Chain (put_u64 m a n) head queue
Chain-put m low high a n head [] l h out c = c
Chain-put m low high a n head (b ∷ queue) l h (out, rest) c = (
  c.0,
  c.1,
  Chain-put m low high a n (get_u64 (put_u64 m a n) b) queue l h rest (
      subst (λ k. Chain m k queue)
        (sym (get_u64-put_apart m a b n (apart_words low high a b l h out))) c.2),
)

pub Chains-put :
    (m : Bytes) (low high a n : ℕ) (heads : List ℕ) (queues : List (List ℕ))
    → low ≤ a
    → a + 8 ≤ high
    → OutLists low high queues
    → Chains m heads queues
    → Chains (put_u64 m a n) heads queues
Chains-put m low high a n [] [] l h out c = c
Chains-put m low high a n [] (q ∷ queues) l h out c = c
Chains-put m low high a n (k ∷ heads) [] l h out c = c
Chains-put m low high a n (k ∷ heads) (q ∷ queues) l h out c = (
  Chain-put m low high a n k q l h out.0 c.0,
  Chains-put m low high a n heads queues l h out.1 c.1,
)

OutQueue-narrow :
    (low high high' : ℕ) (queue : List ℕ)
    → high' ≤ high
    → OutQueue low high queue
    → OutQueue low high' queue
OutQueue-narrow low high high' [] h out = out
OutQueue-narrow low high high' (b ∷ queue) h (inl before, rest) =
    (inl before, OutQueue-narrow low high high' queue h rest)
OutQueue-narrow low high high' (b ∷ queue) h (inr behind, rest) =
    (inr (omega (arith, behind, h)), OutQueue-narrow low high high' queue h rest)

pub OutLists-narrow :
    (low high high' : ℕ) (queues : List (List ℕ))
    → high' ≤ high
    → OutLists low high queues
    → OutLists low high' queues
OutLists-narrow low high high' [] h out = out
OutLists-narrow low high high' (q ∷ queues) h out =
    (OutQueue-narrow low high high' q h out.0, OutLists-narrow low high high' queues h out.1)

pub OutLists-push :
    (low high b i : ℕ) (queues : List (List ℕ))
    → high ≤ b
    → OutLists low high queues
    → OutLists low high (set queues i (b ∷ get_or queues i []))
OutLists-push low high b i [] h out = out
OutLists-push low high b zero (q ∷ queues) h out = ((inr h, out.0), out.1)
OutLists-push low high b (suc i) (q ∷ queues) h out =
    (out.0, OutLists-push low high b i queues h out.1)

pub cover_levels-push :
    (x level i b : ℕ) (queues : List (List ℕ))
    → i < length queues
    → cover_levels x level (set queues i (b ∷ get_or queues i []))
      ≡ covers x b (page_level_to_size (level + i)) + cover_levels x level queues
unfolding cover_levels cover_queue
cover_levels-push x level i b [] l = absurd (omega (arith, l))
cover_levels-push x level zero b (q ∷ queues) l =
    omega
      (arith, ap (λ k. covers x b (page_level_to_size k)) {x = level + 0} {y = level} (omega arith))
cover_levels-push x level (suc i) b (q ∷ queues) l = omega (
  arith,
  cover_levels-push x (suc level) i b queues (omega (arith, l)),
  ap (λ k. covers x b (page_level_to_size k)) {x = level + suc i} {y = suc level + i} (omega arith),
)

pub cover_levels-pop :
    (x level i b : ℕ) (rest : List ℕ) (queues : List (List ℕ))
    → i < length queues
    → get_or queues i [] ≡ b ∷ rest
    → cover_levels x level queues
      ≡ covers x b (page_level_to_size (level + i)) + cover_levels x level (set queues i rest)
unfolding cover_levels cover_queue
cover_levels-pop x level i b rest [] l e = absurd (omega (arith, l))
cover_levels-pop x level zero b rest (q ∷ queues) l e = rw e (
    omega (
      arith,
      ap (λ k. covers x b (page_level_to_size k)) {x = level + 0} {y = level} (omega arith),
    ))
cover_levels-pop x level (suc i) b rest (q ∷ queues) l e = omega (
  arith,
  cover_levels-pop x (suc level) i b rest queues (omega (arith, l)) e,
  ap (λ k. covers x b (page_level_to_size k)) {x = level + suc i} {y = suc level + i} (omega arith),
)

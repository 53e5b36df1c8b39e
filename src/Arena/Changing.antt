-- ===== src/Arena/Changing.antt =====
-- What a change of one list does to the lists of a table.
use ad_index.Base.{
  ℕ, zero, suc, ◌+◌, ◌<◌, ◌≤◌, ◌≡◌, refl, ap, ◌∙◌, List, [], ◌∷◌, ◌++◌, length, length-set, get_or,
  set, arith,
}
use ad_index.Arena.Levels.{page_level_to_size}
use ad_index.Arena.Page.{PageTable}
use ad_index.Arena.Lists.{Chains, cover_levels}
use ad_index.Arena.Units.{HasLists}
use ad_index.Pool.Cover.{cover_queue}

pub set-set {ℓ} : {A : Type ℓ} (xs : List A) (i : ℕ) (a b : A) → set (set xs i a) i b ≡ set xs i b
set-set [] i a b = refl
set-set (x ∷ xs) zero a b = refl
set-set (x ∷ xs) (suc i) a b = ap (λ ys. x ∷ ys) (set-set xs i a b)

pub cover_queue-append :
    (x size : ℕ) (xs ys : List ℕ)
    → cover_queue x size (xs ++ ys) ≡ cover_queue x size xs + cover_queue x size ys
unfolding cover_queue
cover_queue-append x size [] ys = omega arith
cover_queue-append x size (a ∷ xs) ys = omega (arith, cover_queue-append x size xs ys)

pub cover_levels-set :
    (x level i : ℕ) (queue : List ℕ) (queues : List (List ℕ))
    → i < length queues
    → cover_levels x level (set queues i queue)
        + cover_queue x (page_level_to_size (level + i)) (get_or queues i [])
      ≡ cover_levels x level queues + cover_queue x (page_level_to_size (level + i)) queue
unfolding cover_levels
cover_levels-set x level i queue [] l = absurd (omega (arith, l))
cover_levels-set x level zero queue (q ∷ queues) l =
    let same = λ (k : List ℕ).
      ap (λ n. cover_queue x (page_level_to_size n) k) {x = level + 0} {y = level} (omega arith) in
    omega (arith, same q, same queue)
cover_levels-set x level (suc i) queue (q ∷ queues) l =
    let same = λ (k : List ℕ).
      ap (λ n. cover_queue x (page_level_to_size n) k) {x = level + suc i} {y = suc level + i}
        (omega arith) in
    omega (
      arith,
      same queue,
      same (get_or queues i []),
      cover_levels-set x (suc level) i queue queues (omega (arith, l)),
    )

-- The same at the first level.
pub cover-set :
    (x i : ℕ) (queue : List ℕ) (queues : List (List ℕ))
    → i < length queues
    → cover_levels x 0 (set queues i queue)
        + cover_queue x (page_level_to_size i) (get_or queues i [])
      ≡ cover_levels x 0 queues + cover_queue x (page_level_to_size i) queue
cover-set x i queue queues l =
    let same = λ (k : List ℕ).
      ap (λ n. cover_queue x (page_level_to_size n) k) {x = 0 + i} {y = i} (omega arith) in
    omega (arith, same queue, same (get_or queues i []), cover_levels-set x 0 i queue queues l)

-- A list is changed to one that covers less.
pub HasLists-set :
    (t t' : PageTable) (queues : List (List ℕ)) (level : ℕ) (queue : List ℕ)
    → HasLists t queues
    → level < 6
    → Chains t'.memory t'.pages (set queues level queue)
    → ((x : ℕ)
        → cover_queue x (page_level_to_size level) queue
          ≤ cover_queue x (page_level_to_size level) (get_or queues level []))
    → HasLists t' (set queues level queue)
HasLists-set t t' queues level queue h l c less = record {
  chains = c;
  six = length-set queues level queue ∙ h.six;
  once = λ x.
      omega (arith, cover-set x level queue queues (omega (arith, l, h.six)), less x, h.once x);
  inside = λ x m.
      omega (arith, cover-set x level queue queues (omega (arith, l, h.six)), less x, h.inside x m);
}

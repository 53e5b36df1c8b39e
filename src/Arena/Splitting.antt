-- ===== src/Arena/Splitting.antt =====
-- What a block that is split gives to the lower levels.
use mathlib.Core.Path.{subst}
use ad_index.Base.{
  ℕ, zero, suc, ◌+◌, ◌-◌, ◌*◌, ◌<◌, ◌≤◌, ◌≡◌, refl, sym, ap, ◌∙◌, ◌&&◌, List, [], ◌∷◌, ltb, leb,
  if◌then◌else◌, length, length-set, get_elem?, get_elem?-eq-get_or, get_or, get_or-set, set, inl,
  done, arith,
}
use ad_index.Arena.Levels.{invalid_addr, page_level_to_size}
use ad_index.Arena.Page.{get_u64, put_u64, PageTable, split_down}
use ad_index.Arena.Words.{get_u64-put_u64, get_u64-put_apart}
use ad_index.Arena.Lists.{
  Chain, Chains, cover_levels, OutLists, double_size, Chain-head, Chains-get, Chains-set,
  Chains-length, Chains-put, OutLists-narrow, OutLists-push, cover_levels-push,
}
use ad_index.Pool.Cover.{covers}

pub set-set_apart {ℓ} :
    {A : Type ℓ} (xs : List A) (i j : ℕ) (a b : A)
    → i < j
    → set (set xs i a) j b ≡ set (set xs j b) i a
set-set_apart [] i j a b l = refl
set-set_apart (x ∷ xs) i zero a b l = absurd (omega (arith, l))
set-set_apart (x ∷ xs) zero (suc j) a b l = refl
set-set_apart (x ∷ xs) (suc i) (suc j) a b l =
    ap (λ ys. x ∷ ys) (set-set_apart xs i j a b (omega (arith, l)))

-- A level that is larger has larger blocks.
pub grows_size : (level n : ℕ) → page_level_to_size level ≤ page_level_to_size (level + n)
grows_size level zero =
    subst (λ k. page_level_to_size level ≤ page_level_to_size k) {x = level} {y = level + zero}
      (omega arith) (omega arith)
grows_size level (suc n) =
    subst (λ k. page_level_to_size level ≤ page_level_to_size k) {x = suc (level + n)}
      {y = level + suc n} (omega arith) (omega (arith, grows_size level n, double_size (level + n)))

first_size : 4096 ≤ page_level_to_size zero
unfolding page_level_to_size
first_size = omega arith

pub least_size : (level : ℕ) → 4096 ≤ page_level_to_size level
least_size zero = first_size
least_size (suc level) = omega (arith, least_size level, double_size level)

get_elem?-set_apart {ℓ} :
    {A : Type ℓ} (xs : List A) (i j : ℕ) (a : A) → i < j → get_elem? (set xs i a) j ≡ get_elem? xs j
get_elem?-set_apart [] i j a l = refl
get_elem?-set_apart (x ∷ xs) i zero a l = absurd (omega (arith, l))
get_elem?-set_apart (x ∷ xs) zero (suc j) a l = refl
get_elem?-set_apart (x ∷ xs) (suc i) (suc j) a l = get_elem?-set_apart xs i j a (omega (arith, l))

pub region-covers :
    (x low addr high size : ℕ)
    → low ≤ addr
    → addr + size ≡ high
    → (if leb low x && ltb x addr then 1 else 0) + covers x addr size
      ≡ (if leb low x && ltb x high then 1 else 0)
unfolding covers
region-covers x low addr high size le e = ground (arith, le, e)

-- The list of level `i` is kept aside: its head stands for the block that is split, which leads to `link`.
module _ (i link : ℕ) where
  pub record Splits (t t' : PageTable) (queues queues' : List (List ℕ)) (block low high : ℕ)
      : Type 0 where
    pub chains : Chains t'.memory (set t'.pages i link) queues'
    pub same_head : get_elem? t'.pages i ≡ get_elem? t.pages i
    pub same_queue : get_or queues' i [] ≡ get_or queues i []
    pub same_length : length queues' ≡ length queues
    pub same_word : get_u64 t'.memory block ≡ get_u64 t.memory block
    pub out : OutLists block low queues'
    pub cover :
        (x : ℕ)
        → cover_levels x 0 queues'
          ≡ (if leb low x && ltb x high then 1 else 0) + cover_levels x 0 queues

  Splits-none :
      (t : PageTable) (queues : List (List ℕ)) (block low high : ℕ)
      → low ≡ high
      → Chains t.memory (set t.pages i link) queues
      → OutLists block high queues
      → Splits t t queues queues block low high
  Splits-none t queues block low high e c o = record {
    chains = c;
    same_head = refl;
    same_queue = refl;
    same_length = refl;
    same_word = refl;
    out = OutLists-narrow block high low queues (omega (arith, e)) o;
    cover = λ x. ground (arith, e);
  }

  -- The table after one round.
  abbrev pushed : PageTable → ℕ → ℕ → PageTable
  pushed t c addr = record t {
    memory = put_u64 t.memory addr (get_or t.pages c 0);
    pages = set t.pages c addr;
  }

  pushed-Chains :
      (t : PageTable) (queues : List (List ℕ)) (block high c addr : ℕ)
      → c < i
      → i < length queues
      → block ≤ addr
      → addr + 8 ≤ high
      → addr < invalid_addr
      → Chains t.memory (set t.pages i link) queues
      → OutLists block high queues
      → Chains
          (put_u64 t.memory addr (get_or t.pages c 0))
          (set (set t.pages c addr) i link)
          (set queues c (addr ∷ get_or queues c []))
  pushed-Chains t queues block high c addr below inside l h valid chains out =
      let old = get_or t.pages c 0 in
      let memory = put_u64 t.memory addr old in
      let heads = set t.pages i link in
      let in_range : c < length queues = omega (arith, below, inside) in
      let same : get_or heads c 0 ≡ old = ground (arith, get_or-set t.pages i c link 0, below) in
      let small : old ≤ invalid_addr =
        subst (λ k. k ≤ invalid_addr) same
          (Chain-head t.memory (get_or heads c 0) (get_or queues c [])
            (Chains-get t.memory heads queues c chains in_range)) in
      let kept = Chains-put t.memory block high addr old heads queues l h out chains in
      let chain =
        subst (λ k. Chain memory k (get_or queues c []))
          (same ∙ sym (get_u64-put_u64 t.memory addr old (omega (arith, small))))
          (Chains-get memory heads queues c kept in_range) in
      subst (λ hs. Chains memory hs (set queues c (addr ∷ get_or queues c [])))
        (sym (set-set_apart t.pages c i addr link below))
        (Chains-set memory heads queues c addr (addr ∷ get_or queues c []) kept
          (refl, valid, chain))

  split_down-pushed :
      (n level high : ℕ) (t : PageTable)
      → level + n < length t.pages
      → split_down (suc n) level high t
        ≡ split_down n level
            (high - page_level_to_size (level + n))
            (pushed t (level + n) (high - page_level_to_size (level + n)))
  unfolding split_down
  split_down-pushed n level high t l = rw (get_elem?-eq-get_or t.pages (level + n) 0 l) refl

  Splits-pushed :
      (t t' : PageTable) (queues queues' : List (List ℕ)) (block low high c addr : ℕ)
      → c < i
      → i < length queues
      → block + 8 ≤ addr
      → low ≤ addr
      → addr + page_level_to_size c ≡ high
      → Splits
          (pushed t c addr)
          t'
          (set queues c (addr ∷ get_or queues c []))
          queues'
          block
          low
          addr
      → Splits t t' queues queues' block low high
  Splits-pushed t t' queues queues' block low high c addr below inside apart le ends s = record {
    chains = s.chains;
    same_head = s.same_head ∙ get_elem?-set_apart t.pages c i addr below;
    same_queue =
        s.same_queue ∙ ground (arith, get_or-set queues c i (addr ∷ get_or queues c []) [], below);
    same_length = s.same_length ∙ length-set queues c (addr ∷ get_or queues c []);
    same_word =
        s.same_word ∙ get_u64-put_apart t.memory addr block (get_or t.pages c 0) (inl apart);
    out = s.out;
    cover = λ x. s.cover x ∙ pushed_cover x;
  }
    where
      pushed_cover :
          (x : ℕ)
          → (if leb low x && ltb x addr then 1 else 0)
              + cover_levels x 0 (set queues c (addr ∷ get_or queues c []))
            ≡ (if leb low x && ltb x high then 1 else 0) + cover_levels x 0 queues
      pushed_cover x = omega (
        arith,
        cover_levels-push x 0 c addr queues (omega (arith, below, inside)),
        ap (λ k. covers x addr (page_level_to_size k)) {x = 0 + c} {y = c} (omega arith),
        region-covers x low addr high (page_level_to_size c) le ends,
      )

  pub split_down-Splits :
      (n : ℕ) (level block low high : ℕ) (t : PageTable) (queues : List (List ℕ))
      → level + n ≤ i
      → i < length queues
      → low + page_level_to_size (level + n) ≡ high + page_level_to_size level
      → block + 8 ≤ low
      → high ≤ invalid_addr
      → Chains t.memory (set t.pages i link) queues
      → OutLists block high queues
      → (t' : PageTable) × (queues' : List (List ℕ)) × (split_down n level high t ≡ done t')
        × Splits t t' queues queues' block low high
  unfolding split_down
  split_down-Splits zero level block low high t queues lev ins e room valid chains out = (
    t,
    queues,
    refl,
    Splits-none t queues block low high
        (omega (arith, e, ap page_level_to_size {x = level + zero} {y = level} (omega arith)))
        chains out,
  )
  split_down-Splits (suc n) level block low high t queues lev ins e room valid chains out =
      let size = page_level_to_size (level + n) in
      let double : page_level_to_size (level + suc n) ≡ 2 * size =
        ap page_level_to_size {x = level + suc n} {y = suc (level + n)} (omega arith)
        ∙ double_size (level + n) in
      let more = grows_size level n in
      let least = least_size (level + n) in
      let addr : ℕ = high - size in
      let queues1 = set queues (level + n) (addr ∷ get_or queues (level + n) []) in
      let le : low ≤ addr = omega (arith, e, double, more) in
      let fits : addr + size ≡ high = omega (arith, e, double, more) in
      let as_many = length-set queues (level + n) (addr ∷ get_or queues (level + n) []) in
      let long = Chains-length t.memory (set t.pages i link) queues chains in
      let (t', queues', run, s) =
        split_down-Splits n level block low addr (pushed t (level + n) addr) queues1
          (omega (arith, lev)) (omega (arith, ins, as_many)) (omega (arith, e, double, fits)) room
          (omega (arith, valid))
          (pushed-Chains t queues block high (level + n) addr (omega (arith, lev)) ins
            (omega (arith, room, le)) (omega (arith, fits, least))
            (omega (arith, fits, least, valid)) chains out)
          (OutLists-push block addr addr (level + n) queues (omega arith)
            (OutLists-narrow block high addr queues (omega arith) out)) in
      (
        t',
        queues',
        split_down-pushed n level high t (omega (arith, long, length-set t.pages i link, ins, lev))
            ∙ run,
        Splits-pushed t t' queues queues' block low high (level + n) addr (omega (arith, lev)) ins
            (omega (arith, room, le)) le fits s,
      )

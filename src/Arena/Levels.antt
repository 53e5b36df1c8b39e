-- ===== src/Arena/Levels.antt =====
-- The sizes of kernel/pool/arena_buddy_pool/ab_pool_define.h and the levels of page_mem_table.h.
use mathlib.Core.Path.{subst}
use ad_index.Base.{
  ℕ, zero, suc, ◌+◌, ◌-◌, ◌*◌, ◌^◌, ◌<◌, ◌≤◌, ◌≡◌, refl, ltb, ltb→lt, ltb-false, if◌then◌else◌,
  Bool-cases, inl, inr, arith,
}

-- INVALID_MEM_ADDR
abbrev pub invalid_addr : ℕ
invalid_addr = 2 ^ 32 - 1

abbrev pub page_max_levels : ℕ
page_max_levels = 6

abbrev pub slab_max_levels : ℕ
slab_max_levels = 46

pub data SizeClass : Type 0 where
  small_object : SizeClass
  large_object : SizeClass
  huge_object : SizeClass

unfoldable pub divide_size : ℕ → SizeClass
divide_size size =
    if ltb size 2048
    then small_object
    else if ltb size (128 * 1024)
    then large_object
    else huge_object

unfoldable pub page_level_to_size : ℕ → ℕ
page_level_to_size level = 1024 * 2 ^ (level + 2)

unfoldable pub slab_level_to_size : ℕ → ℕ
slab_level_to_size level = if ltb level 16 then (level + 1) * 8 else 16 * 8 + (level - 16 + 1) * 64

-- The loop of `find_level` and `find_slab_level` from a level on, with so many levels left; -1 is an uint16_t.
unfoldable pub find_from : (ℕ → ℕ) → ℕ → ℕ → ℕ → ℕ
find_from to_size zero k size = 2 ^ 16 - 1
find_from to_size (suc left) k size =
    let rest = find_from to_size left (k + 1) size in if ltb (to_size k) size then rest else k

unfoldable pub find_level : ℕ → ℕ
find_level size = find_from page_level_to_size page_max_levels 0 size

unfoldable pub find_slab_level : ℕ → ℕ
find_slab_level size = find_from slab_level_to_size slab_max_levels 0 size

-- The level is the least of so many whose blocks are large enough.
pub record IsLevel (to_size : ℕ → ℕ) (levels size level : ℕ) : Type 0 where
  pub exists : level < levels
  pub fits : size ≤ to_size level
  pub least : (k : ℕ) → k < level → to_size k < size

below_next :
    (to_size : ℕ → ℕ) (k size : ℕ)
    → to_size k < size
    → ((j : ℕ) → j < k → to_size j < size)
    → (j : ℕ) → j < k + 1
    → to_size j < size
below_next to_size k size less below j l = elim (Bool-cases (ltb j k)) [
  | inl before ↦ below j (ltb→lt j k before)
  | inr here ↦ subst (λ i. to_size i < size) {x = k} {y = j} (ground (arith, here, l)) less
]

-- The loop stops at the least level that is large enough, if the last one is.
find_from-IsLevel :
    (to_size : ℕ → ℕ) (left k size levels : ℕ)
    → k + suc left ≡ levels
    → size ≤ to_size (levels - 1)
    → ((j : ℕ) → j < k → to_size j < size)
    → IsLevel to_size levels size (find_from to_size (suc left) k size)
unfolding find_from
find_from-IsLevel to_size zero k size levels e fits below =
    let enough : size ≤ to_size k =
      subst (λ i. size ≤ to_size i) {x = levels - 1} {y = k} (omega (arith, e)) fits in
    rw (ltb-false (to_size k) size enough)
      (record { exists = omega (arith, e); fits = enough; least = below })
find_from-IsLevel to_size (suc left) k size levels e fits below =
    elim (Bool-cases (ltb (to_size k) size)) [
      | inr enough ↦
          rw enough
            (record { exists = omega (arith, e); fits = ground (arith, enough); least = below })
      | inl less ↦ rw less (
          find_from-IsLevel to_size left (k + 1) size levels (omega (arith, e)) fits
            (below_next to_size k size (ltb→lt (to_size k) size less) below))
    ]

-- The level that serves a size.
abbrev pub HasLevel : SizeClass → ℕ → Type 0
HasLevel small_object size = IsLevel slab_level_to_size slab_max_levels size (find_slab_level size)
HasLevel large_object size = IsLevel page_level_to_size page_max_levels size (find_level size)
HasLevel huge_object size = 128 * 1024 ≤ size

small-HasLevel : (size : ℕ) → size < 2048 → HasLevel small_object size
unfolding find_slab_level slab_level_to_size
small-HasLevel size l =
    find_from-IsLevel slab_level_to_size 45 0 size 46 refl (omega (arith, l))
      (λ j m. absurd (omega (arith, m)))

pub large-HasLevel : (size : ℕ) → size < 128 * 1024 → HasLevel large_object size
unfolding find_level page_level_to_size
large-HasLevel size l =
    find_from-IsLevel page_level_to_size 5 0 size 6 refl (omega (arith, l))
      (λ j m. absurd (omega (arith, m)))

-- A size that is divided to the small objects has a slab level, one that is divided to the large objects a
-- page level, the least whose blocks are large enough; the others are the sizes from 128 KiB on.
pub divide_size-HasLevel : (size : ℕ) → HasLevel (divide_size size) size
unfolding divide_size
divide_size-HasLevel size = elim (Bool-cases (ltb size 2048)) [
  | inl small ↦ rw small (small-HasLevel size (ltb→lt size 2048 small))
  | inr other ↦ rw other (elim (Bool-cases (ltb size (128 * 1024))) [
    | inl large ↦ rw large (large-HasLevel size (ltb→lt size (128 * 1024) large))
    | inr huge ↦ rw huge (ground (arith, huge))
  ])
]

-- ===== src/Arena/Extending.antt =====
-- What `ExtendPageMem` adds to the lists.
use ad_index.Base.{
  ℕ, zero, suc, ◌+◌, ◌*◌, ◌<◌, ◌≤◌, ◌≡◌, inl, inr, refl, ap, ◌∙◌, Bool, true, false, ◌&&◌, List,
  ltb, leb, ltb-false, lt→ltb, leb→le, ◌%◌, ◌==◌, if◌then◌else◌, Bool-cases, length,
  get_elem?-eq-get_or, u64_mod, done, arith,
}
use ad_index.Arena.Levels.{invalid_addr, page_level_to_size}
use ad_index.Arena.Page.{PageTable, alloc_mem, extend_from, extend_page_mem}
use ad_index.Arena.Lists.{cover_levels, Chains-length}
use ad_index.Arena.Units.{HasLists}
use ad_index.Pool.Cover.{covers}
use ad_index.Arena.Pushing.{put_first, with_first, cover-put_first, put_first-HasLists, size_bound}

covers-beyond : (x a size covered : ℕ) → a + size ≤ x → covered ≡ 0 → covers x a size + covered ≡ 0
unfolding covers
covers-beyond x a size covered l e = ground (arith, l, e)

region-covers' :
    (x low middle high size : ℕ)
    → low + size ≡ middle
    → middle ≤ high
    → covers x low size + (if leb middle x && ltb x high then 1 else 0)
      ≡ (if leb low x && ltb x high then 1 else 0)
unfolding covers
region-covers' x low middle high size e l = ground (arith, e, l)

-- The memory from `current` to `end` is not in the lists.
pub record HasRoom (t : PageTable) (queues : List (List ℕ)) : Type 0 where
  pub lists : HasLists t queues
  pub started : 0 < t.current
  pub within : t.current ≤ t.end
  pub below_invalid : t.end ≤ invalid_addr
  pub unused : (x : ℕ) → t.current ≤ x → cover_levels x 0 queues ≡ 0

-- What became of the table: the lists hold what they held, and the memory that was behind it.
pub record Extends (t t' : PageTable) (queues : List (List ℕ)) : Type 0 where
  pub queues' : List (List ℕ)
  pub has_room : HasRoom t' queues'
  pub same_end : t'.end ≡ t.end
  pub moved : t.current ≤ t'.current
  pub added :
      (x : ℕ)
      → cover_levels x 0 queues'
        ≡ (if leb t.current x && ltb x t'.current then 1 else 0) + cover_levels x 0 queues

-- The sizes of so many levels from one on.
abbrev pub sizes_from : ℕ → ℕ → ℕ
sizes_from zero level = 0
sizes_from (suc left) level = page_level_to_size level + sizes_from left (level + 1)

-- One round of the loop, with room and without.
abbrev moved_on : ℕ → PageTable → PageTable
moved_on level t = record t { current = t.current + page_level_to_size level }

alloc_mem-fits :
    (len : ℕ) (t : PageTable)
    → t.current + len ≤ t.end
    → t.end ≤ invalid_addr
    → alloc_mem len t ≡ (t.current, record t { current = t.current + len })
unfolding alloc_mem
alloc_mem-fits len t fits valid =
    let same : (t.current + len) % u64_mod ≡ t.current + len = omega (arith, fits, valid) in
    rw same (rw (ltb-false t.end (t.current + len) fits) refl)

alloc_mem-full :
    (len : ℕ) (t : PageTable)
    → t.end < t.current + len
    → t.current + len < u64_mod
    → alloc_mem len t ≡ (0, t)
unfolding alloc_mem
alloc_mem-full len t full small =
    let same : (t.current + len) % u64_mod ≡ t.current + len = omega (arith, small) in
    rw same (rw (lt→ltb t.end (t.current + len) full) refl)

extend_from-full :
    (left level : ℕ) (t : PageTable)
    → alloc_mem (page_level_to_size level) t ≡ (0, t)
    → extend_from (suc left) level t ≡ done (false, t)
unfolding extend_from
extend_from-full left level t e = ground (arith, e)

extend_from-next :
    (left level : ℕ) (t : PageTable)
    → alloc_mem (page_level_to_size level) t ≡ (t.current, moved_on level t)
    → 0 < t.current
    → level < length t.pages
    → extend_from (suc left) level t
      ≡ extend_from left (level + 1) (put_first level t.current (moved_on level t))
unfolding extend_from
extend_from-next left level t e started l =
    let not_none : (t.current == 0) ≡ false = ground (arith, started) in
    ground (arith, e, not_none, get_elem?-eq-get_or t.pages level 0 l)

HasRoom-next :
    (level : ℕ) (t : PageTable) (queues : List (List ℕ))
    → HasRoom t queues
    → level < 6
    → t.current + page_level_to_size level ≤ t.end
    → HasRoom (put_first level t.current (moved_on level t)) (with_first level t.current queues)
HasRoom-next level t queues r l fits = record {
  lists =
      put_first-HasLists (moved_on level t) queues level t.current
        (record {
          chains = r.lists.chains;
          six = r.lists.six;
          once = r.lists.once;
          inside = r.lists.inside;
        })
        l (omega (arith, fits, r.below_invalid)) (λ x m n. r.unused x m);
  started = omega (arith, r.started);
  within = fits;
  below_invalid = r.below_invalid;
  unused = λ x m. cover-put_first x level t.current queues r.lists.six l ∙ beyond x m;
}
  where
    beyond :
        (x : ℕ)
        → t.current + page_level_to_size level ≤ x
        → covers x t.current (page_level_to_size level) + cover_levels x 0 queues ≡ 0
    beyond x m =
        covers-beyond x t.current (page_level_to_size level) (cover_levels x 0 queues) m
          (r.unused x (omega (arith, m)))

Extends-next :
    (level : ℕ) (t t' : PageTable) (queues : List (List ℕ))
    → HasRoom t queues
    → level < 6
    → Extends (put_first level t.current (moved_on level t)) t' (with_first level t.current queues)
    → Extends t t' queues
Extends-next level t t' queues r l e = record {
  queues' = e.queues';
  has_room = e.has_room;
  same_end = e.same_end;
  moved = omega (arith, e.moved);
  added = λ x.
      e.added x
      ∙ omega (
        arith,
        cover-put_first x level t.current queues r.lists.six l,
        region-covers' x t.current (t.current + page_level_to_size level) t'.current
            (page_level_to_size level) refl e.moved,
      );
}

extend_from-end : (level : ℕ) (t : PageTable) → extend_from zero level t ≡ done (true, t)
unfolding extend_from
extend_from-end level t = refl

Extends-none : (t : PageTable) (queues : List (List ℕ)) → HasRoom t queues → Extends t t queues
Extends-none t queues r = record {
  queues' = queues;
  has_room = r;
  same_end = refl;
  moved = omega arith;
  added = λ x. ground arith;
}

fits_all : (current end : ℕ) → current ≤ end → true ≡ leb (current + 0) end
fits_all current end l = ground (arith, l)

fits_none :
    (current size rest end : ℕ) → end < current + size → false ≡ leb (current + (size + rest)) end
fits_none current size rest end l = ground (arith, l)

all_sizes : sizes_from 6 0 ≡ 252 * 1024
unfolding page_level_to_size
all_sizes = refl

-- Each outcome of the loop.
extend_from-Extends :
    (left level : ℕ) (t : PageTable) (queues : List (List ℕ))
    → HasRoom t queues
    → level + left ≤ 6
    → (ok : Bool) × (t' : PageTable) × (extend_from left level t ≡ done (ok, t'))
      × Extends t t' queues
      × (ok ≡ leb (t.current + sizes_from left level) t.end)
extend_from-Extends zero level t queues r l =
    (true, t, extend_from-end level t, Extends-none t queues r, fits_all t.current t.end r.within)
extend_from-Extends (suc left) level t queues r l =
    elim (Bool-cases (leb (t.current + page_level_to_size level) t.end)) [
      | inl fits ↦
          let room : t.current + page_level_to_size level ≤ t.end =
            leb→le (t.current + page_level_to_size level) t.end fits in
          let t1 = put_first level t.current (moved_on level t) in
          let long = Chains-length t.memory t.pages queues r.lists.chains in
          let (ok, t', run, ext, e) =
            extend_from-Extends left (level + 1) t1 (with_first level t.current queues)
              (HasRoom-next level t queues r (omega (arith, l)) room) (omega (arith, l)) in
          (
            ok,
            t',
            extend_from-next left level t
                  (alloc_mem-fits (page_level_to_size level) t room r.below_invalid) r.started
                  (omega (arith, l, long, r.lists.six))
                ∙ run,
            Extends-next level t t' queues r (omega (arith, l)) ext,
            e
                ∙ ap (λ k. leb k t.end)
                    {x = t.current + page_level_to_size level + sizes_from left (level + 1)}
                    {y = t.current + (page_level_to_size level + sizes_from left (level + 1))}
                    (omega arith),
          )
      | inr full ↦
          let beyond : t.end < t.current + page_level_to_size level = ground (arith, full) in
          (
            false,
            t,
            extend_from-full left level t (
                alloc_mem-full (page_level_to_size level) t beyond
                  (omega (arith, r.within, r.below_invalid, size_bound level (omega (arith, l))))),
            Extends-none t queues r,
            fits_none t.current (page_level_to_size level) (sizes_from left (level + 1)) t.end
                beyond,
          )
    ]

-- A table whose lists hold blocks that do not overlap, with unused memory behind them that ends before the invalid
-- address, adds a block of each size to its lists, in order, as long as they fit, from where the unused memory begins;
-- it returns whether all six fit, and the lists then hold what they held and the memory that was used, and nothing else.
pub extend_page_mem-Extends :
    (t : PageTable) (queues : List (List ℕ))
    → HasRoom t queues
    → (ok : Bool) × (t' : PageTable) × (extend_page_mem t ≡ done (ok, t'))
      × Extends t t' queues
      × (ok ≡ leb (t.current + 252 * 1024) t.end)
unfolding extend_page_mem
extend_page_mem-Extends t queues r =
    let (ok, t', run, ext, e) = extend_from-Extends 6 0 t queues r (omega arith) in
    (ok, t', run, ext, e ∙ ap (λ k. leb (t.current + k) t.end) all_sizes)

-- ===== src/Arena/Reload/Sections.antt =====
-- The sections of heap_mem_manager.h while huge blocks are asked for: no section is ever linked to the first.
use ad_index.Base.{
  ℕ, suc, ◌+◌, ◌≡◌, ◌≢◌, ◌≤◌, refl, sym, List, [], ◌∷◌, ◌++◌, map, take, Option, none, some, ◌==◌,
  if◌then◌else◌, Bytes, done, arith, Bool-cases, inl, inr,
}
use ad_index.Arena.Levels.{invalid_addr}
use ad_index.Arena.Section.{Section, init_section, alloc_section}
use ad_index.Arena.Heap.{
  Heap, link_section, update_section_offset, alloc_from_sections, added_section, extend_section,
  alloc_data_from_section,
}
use ad_index.Arena.Requests.{begun_heap}
use ad_index.Arena.Reload.{section_at, load_sections, alloc_all, AreBehind}

-- What an `Alloc` that does not fail makes of the heap.
unfoldable pub alloc_huge : ℕ → ℕ → Heap → Option ℕ × Heap
alloc_huge given len h =
    let r = alloc_from_sections len h.sections in
    let h' : Heap = record h { sections = r.1 } in
    elim r.0 [ some a ↦ (some a, h') | none ↦ added_section given len h' ]

unfoldable pub alloc_each : List (ℕ × ℕ) → Heap → Heap
alloc_each [] h = h
alloc_each (r ∷ requests) h = alloc_each requests (alloc_huge r.0 r.1 h).1

-- No new section lies where the first one is.
abbrev pub AreApart : ℕ → List (ℕ × ℕ) → Type 0
AreApart start [] = Unit {0}
AreApart start (r ∷ requests) = (r.0 ≢ start) × AreApart start requests

pub AreBehind-AreApart :
    (start end : ℕ) (requests : List (ℕ × ℕ))
    → suc start ≤ end
    → AreBehind end requests
    → AreApart start requests
AreBehind-AreApart start end [] before behind = tt
AreBehind-AreApart start end (r ∷ requests) before behind = (
  (λ e. omega (arith, e, before, behind.0)),
  AreBehind-AreApart start end requests before behind.3,
)

alloc_data_from_section-alloc_huge :
    (given len : ℕ) (h : Heap)
    → given ≢ 0
    → alloc_data_from_section given len h ≡ done (alloc_huge given len h)
unfolding alloc_data_from_section alloc_huge extend_section
alloc_data_from_section-alloc_huge given len h some_given = ground (arith, some_given)

pub alloc_all-alloc_each :
    (requests : List (ℕ × ℕ)) (h : Heap)
    → AreApart 0 requests
    → alloc_all requests h ≡ done (alloc_each requests h)
unfolding alloc_all alloc_each
alloc_all-alloc_each [] h apart = refl
alloc_all-alloc_each (r ∷ requests) h apart =
    rw (alloc_data_from_section-alloc_huge r.0 r.1 h apart.0)
      (alloc_all-alloc_each requests _ apart.1)

-- The first section lies there, and nothing follows it.
abbrev pub IsFirst : ℕ → List Section → Type 0
IsFirst start [] = ⊥
IsFirst start (s ∷ sections) = (s.begin ≡ start) × (s.next ≡ invalid_addr)

pub record EndsAt (start : ℕ) (h : Heap) : Type 0 where
  pub first : IsFirst start h.sections
  pub start_first : h.head.section_mem_start ≡ start
  pub end_apart : h.head.section_mem_end ≢ start

IsFirst-alloc :
    (start len : ℕ) (sections : List Section)
    → IsFirst start sections
    → IsFirst start (alloc_from_sections len sections).1
unfolding alloc_from_sections alloc_section
IsFirst-alloc start len [] first = absurd first
IsFirst-alloc start len (s ∷ sections) first = ground (arith, first)

IsFirst-append :
    (start : ℕ) (sections more : List Section)
    → IsFirst start sections
    → IsFirst start (sections ++ more)
IsFirst-append start [] more first = absurd first
IsFirst-append start (s ∷ sections) more first = first

IsFirst-link :
    (start last offset : ℕ) (sections : List Section)
    → last ≢ start
    → IsFirst start sections
    → IsFirst start (link_section last offset sections)
unfolding link_section
IsFirst-link start last offset [] apart first = absurd first
IsFirst-link start last offset (s ∷ sections) apart first = ground (arith, apart, first)

IsFirst-move :
    (start given current : ℕ) (sections : List Section)
    → IsFirst start sections
    → IsFirst start
        (map (λ s. if s.begin == given then record s { current = current } else s) sections)
IsFirst-move start given current [] first = absurd first
IsFirst-move start given current (s ∷ sections) first = ground (arith, first)

update_section_offset-EndsAt :
    (start offset : ℕ) (h : Heap)
    → offset ≢ start
    → EndsAt start h
    → EndsAt start (update_section_offset offset h)
unfolding update_section_offset
update_section_offset-EndsAt start offset h apart ends =
    elim (Bool-cases (h.head.section_mem_end == invalid_addr)) [
      | inl first_more ↦
          rw first_more
            (record { first = ends.first; start_first = ends.start_first; end_apart = apart })
      | inr linked ↦ rw linked (record {
        first =
            IsFirst-link start h.head.section_mem_end offset h.sections ends.end_apart ends.first;
        start_first = ends.start_first;
        end_apart = ends.end_apart;
      })
    ]

added_section-EndsAt :
    (start given len : ℕ) (h : Heap)
    → given ≢ start
    → EndsAt start h
    → EndsAt start (added_section given len h).1
unfolding added_section
added_section-EndsAt start given len h apart ends =
    let h' : Heap = record h { sections = h.sections ++ init_section given ∷ [] } in
    let ends' : EndsAt start h' = record {
      first = IsFirst-append start h.sections _ ends.first;
      start_first = ends.start_first;
      end_apart = ends.end_apart;
    } in
    let updated = update_section_offset-EndsAt start given h' apart ends' in
    record {
      first = IsFirst-move start given _ _ updated.first;
      start_first = updated.start_first;
      end_apart = updated.end_apart;
    }

alloc_huge-EndsAt :
    (start given len : ℕ) (h : Heap)
    → given ≢ start
    → EndsAt start h
    → EndsAt start (alloc_huge given len h).1
unfolding alloc_huge
alloc_huge-EndsAt start given len h apart ends =
    let ends' : EndsAt start (record h { sections = (alloc_from_sections len h.sections).1 }) =
      record {
        first = IsFirst-alloc start len h.sections ends.first;
        start_first = ends.start_first;
        end_apart = ends.end_apart;
      } in
    elim (alloc_from_sections len h.sections).0
      as (λ o.
        let h' : Heap = record h { sections = (alloc_from_sections len h.sections).1 } in
        let r : Option ℕ × Heap = elim o [
          | some a ↦ (some a, h')
          | none ↦ added_section given len h'
        ] in
        EndsAt start r.1) [
          | some a ↦ ends'
          | none ↦ added_section-EndsAt start given len _ apart ends'
        ]

pub alloc_each-EndsAt :
    (start : ℕ) (requests : List (ℕ × ℕ)) (h : Heap)
    → AreApart start requests
    → EndsAt start h
    → EndsAt start (alloc_each requests h)
unfolding alloc_each
alloc_each-EndsAt start [] h apart ends = ends
alloc_each-EndsAt start (r ∷ requests) h apart ends =
    alloc_each-EndsAt start requests _ apart.1 (alloc_huge-EndsAt start r.0 r.1 h apart.0 ends)

pub load_sections-first :
    (fuel start : ℕ) (sections : List Section)
    → start ≢ invalid_addr
    → IsFirst start sections
    → load_sections (fuel + 2) start sections ≡ done (take 1 sections)
unfolding load_sections section_at
load_sections-first fuel start [] apart first = absurd first
load_sections-first fuel start (s ∷ sections) apart first = ground (arith, apart, first)

pub begun_heap-EndsAt :
    (start page section : ℕ) (memory : Bytes)
    → section ≢ invalid_addr
    → EndsAt section (begun_heap start page section memory)
unfolding begun_heap init_section
begun_heap-EndsAt start page section memory apart = record {
  first = (refl, refl);
  start_first = refl;
  end_apart = λ e. apart (sym e);
}

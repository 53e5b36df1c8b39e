-- ===== src/Arena/Serving.antt =====
-- The blocks that a section of kernel/pool/arena_buddy_pool/section_mem_table.cc gives.
use mathlib.Core.Path.{subst}
use native.Mathlib.Nat.{mod-eq_of_lt}
use ad_index.Base.{
  ℕ, ◌+◌, ◌-◌, ◌*◌, ◌^◌, ◌<◌, ◌≤◌, ◌≡◌, refl, ap, true, List, [], ◌∷◌, Option, none, some, ltb,
  ltb→lt, ltb-false, Bool-cases, inl, inr, arith, u64_mod,
}
use ad_index.Pool.Cover.{covers, cover_blocks}
use ad_index.Arena.Section.{Section, init_section, alloc_section}

abbrev pub give : ℕ → Option ℕ → List (ℕ × ℕ) → List (ℕ × ℕ)
give len none rest = rest
give len (some a) rest = (a, len) ∷ rest

-- A block for each request that a section has room for.
unfoldable pub serve : List ℕ → Section → List (ℕ × ℕ)
serve [] s = []
serve (len ∷ lens) s = let r = alloc_section len s in give len r.0 (serve lens r.1)

serve-next :
    (len : ℕ) (lens : List ℕ) (s : Section) (r : Option ℕ × Section)
    → alloc_section len s ≡ r
    → serve (len ∷ lens) s ≡ give len r.0 (serve lens r.1)
unfolding serve
serve-next len lens s r e = ap (λ q. give len q.0 (serve lens q.1)) e

-- No length wraps.
abbrev pub AreSmall : List ℕ → Type 0
AreSmall [] = Unit {0}
AreSmall (len ∷ lens) = (len < 2 ^ 63) × AreSmall lens

covers-split :
    (x a len end : ℕ)
    → a + len ≤ end
    → covers x a len + covers x (a + len) (end - (a + len)) ≤ covers x a (end - a)
unfolding covers
covers-split x a len end room = ground (arith, room)

alloc_section-full :
    (len : ℕ) (s : Section)
    → len < 2 ^ 63
    → s.current ≤ s.end
    → s.end < 2 ^ 63
    → s.end < s.current + len
    → alloc_section len s ≡ (none, s)
unfolding alloc_section
alloc_section-full len s small begun low full = ground (arith, small, begun, low, full)

alloc_section-room :
    (len : ℕ) (s : Section)
    → s.valid_flag ≡ true
    → s.end < 2 ^ 63
    → s.current + len ≤ s.end
    → alloc_section len s ≡ (some s.current, record s { current = s.current + len })
unfolding alloc_section
alloc_section-room len s valid low room =
    let whole = mod-eq_of_lt {n = s.current + len} {m = u64_mod} (omega (arith, low, room)) in
    rw (valid, whole, ltb-false s.end (s.current + len) room) refl

serve-covers :
    (x : ℕ) (lens : List ℕ) (s : Section)
    → AreSmall lens
    → s.valid_flag ≡ true
    → s.current ≤ s.end
    → s.end < 2 ^ 63
    → cover_blocks (λ len. len) x (serve lens s) ≤ covers x s.current (s.end - s.current)
unfolding cover_blocks serve
serve-covers x [] s small valid begun low = omega arith
serve-covers x (len ∷ lens) s small valid begun low =
    elim (Bool-cases (ltb s.end (s.current + len))) [
      | inl full ↦
          rw
            (serve-next len lens s _
              (alloc_section-full len s small.0 begun low (ltb→lt s.end (s.current + len) full)))
            (serve-covers x lens s small.1 valid begun low)
      | inr fits ↦
          let room : s.current + len ≤ s.end = ground (arith, fits) in
          rw (serve-next len lens s _ (alloc_section-room len s valid low room)) (
            omega (
              arith,
              covers-split x s.current len s.end room,
              serve-covers x lens (record s { current = s.current + len }) small.1 valid room low,
            ))
    ]

-- Whatever lengths below 2^63 are asked for, every address lies in at most one of the blocks that a new section below
-- 2^62 gives, and in none if it is in the head of the section or outside it.
pub serve-init_section :
    (x addr : ℕ) (lens : List ℕ)
    → AreSmall lens
    → addr < 2 ^ 62
    → cover_blocks (λ len. len) x (serve lens (init_section addr))
      ≤ covers x (addr + 40) (1024 * 1024 - 40)
unfolding init_section
serve-init_section x addr lens small low =
    subst
      (λ n. cover_blocks (λ len. len) x (serve lens (init_section addr)) ≤ covers x (addr + 40) n)
      (omega arith)
      (serve-covers x lens (init_section addr) small refl (omega arith) (omega (arith, low)))

-- ===== src/Arena/Segments.antt =====
-- A part of a list of free blocks, and what the inner loop of `MergePageLevel` finds in a list.
use mathlib.Core.Path.{subst}
use ad_index.Base.{
  ℕ, zero, suc, ◌+◌, ◌<◌, ◌≤◌, ◌≡◌, ◌⊎◌, inl, inr, refl, sym, ap, ◌∙◌, true, false, List, [], ◌∷◌,
  ◌++◌, none, some, ◌==◌, Bool-cases, length, set, min, Bytes, done, arith,
}
use ad_index.Arena.Levels.{invalid_addr, page_level_to_size}
use ad_index.Arena.Page.{get_u64, put_u64, PageTable}
use ad_index.Arena.Words.{get_u64-put_apart}
use ad_index.Arena.Lists.{Chain, OutQueue, apart_words}
use ad_index.Arena.Freeing.{adjacent, merge_scan}

-- From a head, the words at the blocks lead through them to an address.
abbrev pub Seg : Bytes → ℕ → List ℕ → ℕ → Type 0
Seg m head [] end = head ≡ end
Seg m head (b ∷ blocks) end = (head ≡ b) × (b < invalid_addr) × Seg m (get_u64 m b) blocks end

pub Seg-Chain :
    (m : Bytes) (head end : ℕ) (blocks rest : List ℕ)
    → Seg m head blocks end
    → Chain m end rest
    → Chain m head (blocks ++ rest)
Seg-Chain m head end [] rest s c = subst (λ k. Chain m k rest) (sym s) c
Seg-Chain m head end (b ∷ blocks) rest s c =
    (s.0, s.1, Seg-Chain m (get_u64 m b) end blocks rest s.2 c)

Seg-snoc :
    (m : Bytes) (head end : ℕ) (blocks : List ℕ)
    → Seg m head blocks end
    → end < invalid_addr
    → Seg m head (blocks ++ end ∷ []) (get_u64 m end)
Seg-snoc m head end [] s l = (s, l, refl)
Seg-snoc m head end (b ∷ blocks) s l = (s.0, s.1, Seg-snoc m (get_u64 m b) end blocks s.2 l)

pub Seg-put :
    (m : Bytes) (low high a n head end : ℕ) (blocks : List ℕ)
    → low ≤ a
    → a + 8 ≤ high
    → OutQueue low high blocks
    → Seg m head blocks end
    → Seg (put_u64 m a n) head blocks end
Seg-put m low high a n head end [] l h out s = s
Seg-put m low high a n head end (b ∷ blocks) l h out s = (
  s.0,
  s.1,
  Seg-put m low high a n (get_u64 (put_u64 m a n) b) end blocks l h out.1 (
      subst (λ k. Seg m k blocks end)
        (sym (get_u64-put_apart m a b n (apart_words low high a b l h out.0))) s.2),
)

append_one : (xs : List ℕ) (b : ℕ) (rest : List ℕ) → (xs ++ b ∷ []) ++ rest ≡ xs ++ b ∷ rest
append_one [] b rest = refl
append_one (x ∷ xs) b rest = ap (λ k. x ∷ k) (append_one xs b rest)

-- The block behind `last` is taken out, and the one at `head`.
abbrev pub spliced : ℕ → ℕ → ℕ → ℕ → PageTable → PageTable
spliced last b head level t = record t {
  memory = put_u64 t.memory last (get_u64 t.memory b);
  pages = set t.pages level (get_u64 (put_u64 t.memory last (get_u64 t.memory b)) head);
}

-- A block that is side by side with the one at `head`, behind others.
pub record Found (m : Bytes) (head level : ℕ) (queue : List ℕ) : Type 0 where
  pub before : List ℕ
  pub last : ℕ
  pub block : ℕ
  pub behind : List ℕ
  pub parts : queue ≡ before ++ last ∷ block ∷ behind
  pub leads : Seg m head before last
  pub last_valid : last < invalid_addr
  pub next : get_u64 m last ≡ block
  pub block_valid : block < invalid_addr
  pub rest : Chain m (get_u64 m block) behind
  pub side : adjacent block head (page_level_to_size level) ≡ true

-- What the loop does when it is behind `before` and at `last`.
abbrev pub Scans : ℕ → ℕ → ℕ → ℕ → PageTable → ℕ → List ℕ → Type 0
Scans fuel last now level t head queue =
    (merge_scan fuel last now head level t ≡ done (none, t))
    ⊎ ((f : Found t.memory head level queue) × (merge_scan fuel last now head level t
          ≡ done (some (min head f.block), spliced f.last f.block head level t)))

scan_hit :
    (fuel last now head level : ℕ) (t : PageTable)
    → now < invalid_addr
    → adjacent now head (page_level_to_size level) ≡ true
    → merge_scan (suc fuel) last now head level t
      ≡ done (some (min head now), spliced last now head level t)
unfolding merge_scan
scan_hit fuel last now head level t valid side =
    let some_now : (now == invalid_addr) ≡ false = ground (arith, valid) in rw (some_now, side) refl

scan_miss :
    (fuel last now head level : ℕ) (t : PageTable)
    → now < invalid_addr
    → adjacent now head (page_level_to_size level) ≡ false
    → merge_scan (suc fuel) last now head level t
      ≡ merge_scan fuel now (get_u64 t.memory now) head level t
unfolding merge_scan
scan_miss fuel last now head level t valid side =
    let some_now : (now == invalid_addr) ≡ false = ground (arith, valid) in rw (some_now, side) refl

pub merge_scan-Scans :
    (rest before : List ℕ) (fuel last now head level : ℕ) (t : PageTable)
    → length rest < fuel
    → Seg t.memory head before last
    → last < invalid_addr
    → get_u64 t.memory last ≡ now
    → Chain t.memory now rest
    → Scans fuel last now level t head (before ++ last ∷ rest)
unfolding merge_scan
merge_scan-Scans [] before zero last now head level t l s v e c = absurd (omega (arith, l))
merge_scan-Scans [] before (suc fuel) last now head level t l s v e c = inl (ground (arith, c))
merge_scan-Scans (b ∷ rest) before zero last now head level t l s v e c = absurd (omega (arith, l))
merge_scan-Scans (b ∷ rest) before (suc fuel) last now head level t l s v e c =
    let valid : now < invalid_addr = omega (arith, c.0, c.1) in
    let chain = subst (λ k. Chain t.memory (get_u64 t.memory k) rest) (sym c.0) c.2 in
    elim (Bool-cases (adjacent now head (page_level_to_size level))) [
      | inl side ↦ inr (
        record {
          before = before;
          last = last;
          block = now;
          behind = rest;
          parts = ap (λ k. before ++ last ∷ k ∷ rest) (sym c.0);
          leads = s;
          last_valid = v;
          next = e;
          block_valid = valid;
          rest = chain;
          side = side;
        },
        scan_hit fuel last now head level t valid side,
      )
      | inr apart ↦
          let missed = scan_miss fuel last now head level t valid apart in
          let leads =
            subst (λ k. Seg t.memory head (before ++ last ∷ []) k) e
              (Seg-snoc t.memory head last before s v) in
          elim (merge_scan-Scans rest (before ++ last ∷ []) fuel now (get_u64 t.memory now) head
            level t (omega (arith, l)) leads valid refl chain) [
              | inl run ↦ inl (missed ∙ run)
              | inr (f, run) ↦ inr (
                record {
                  before = f.before;
                  last = f.last;
                  block = f.block;
                  behind = f.behind;
                  parts =
                      ap (λ k. before ++ last ∷ k ∷ rest) (sym c.0)
                      ∙ (sym (append_one before last (now ∷ rest)) ∙ f.parts);
                  leads = f.leads;
                  last_valid = f.last_valid;
                  next = f.next;
                  block_valid = f.block_valid;
                  rest = f.rest;
                  side = f.side;
                },
                missed ∙ run,
              )
            ]
    ]

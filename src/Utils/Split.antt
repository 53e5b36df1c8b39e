-- ===== src/Utils/Split.antt =====
-- `Split` of kernel/common/utils/utils.cc ends for every separator that is not empty, and for no empty one. `Join` as the
-- separator between sections.
use mathlib.Core.List.{append-nil}
use ad_index.Base.{
  ℕ, zero, suc, ◌<◌, ◌≡◌, ◌≢◌, refl, ap, Bool, List, [], ◌∷◌, ◌++◌, some, out_of_fuel, length,
  length-append, arith, Option-cases, inl, inr,
}
use ad_index.Utils.Text.{behind, find, split, join, append_sections}

-- The pieces with the separator between them.
unfoldable pub intercalate : List ℕ → List (List ℕ) → List ℕ
intercalate sep [] = []
intercalate sep (p ∷ []) = p
intercalate sep (p ∷ q ∷ ps) = p ++ (sep ++ intercalate sep (q ∷ ps))

pub behind-append : (sep str rest : List ℕ) → behind sep str ≡ some rest → str ≡ sep ++ rest
unfolding behind
behind-append [] str rest e = ground (arith, e)
behind-append (s ∷ sep) [] rest e = absurd (cc e)
behind-append (s ∷ sep) (c ∷ str) rest e = ground (arith, e, behind-append sep str rest)

pub find-append :
    (sep str before rest : List ℕ)
    → find sep str ≡ some (before, rest)
    → str ≡ before ++ (sep ++ rest)
unfolding find
find-append sep [] before rest e = ground (arith, e, behind-append sep [] rest)
find-append sep (c ∷ str) before rest e = elim (Option-cases (behind sep (c ∷ str))) [
  | inl no_sep ↦ elim (Option-cases (find sep str)) [
    | inl nowhere ↦ absurd (ground (arith, e, no_sep, nowhere))
    | inr (r, found) ↦ ground (arith, e, no_sep, found, find-append sep str r.0 r.1 found)
  ]
  | inr (r, here) ↦ ground (arith, e, here, behind-append sep (c ∷ str) r here)
]

pub intercalate-cons :
    (sep p : List ℕ) (ps : List (List ℕ))
    → ps ≢ []
    → intercalate sep (p ∷ ps) ≡ p ++ (sep ++ intercalate sep ps)
unfolding intercalate
intercalate-cons sep p [] ne = absurd (ne refl)
intercalate-cons sep p (q ∷ ps) ne = refl

-- `Split` by a separator that is not empty ends within one round more than the text is long.
pub split-ends :
    (fuel : ℕ) (str sep : List ℕ) (ignore_empty : Bool)
    → 0 < length sep
    → length str < fuel
    → split fuel str sep ignore_empty ≢ out_of_fuel
unfolding split
split-ends zero str sep ignore_empty pos h = absurd (omega arith)
split-ends (suc fuel) str sep ignore_empty pos h = elim (Option-cases (find sep str)) [
  | inl last ↦ λ e. ground (arith, last, e)
  | inr (r, found) ↦
      let e = find-append sep str r.0 r.1 found in
      let shorter : length r.1 < fuel =
        omega (arith, ap length e, length-append r.0 (sep ++ r.1), length-append sep r.1) in
      λ f. ground (arith, found, f, split-ends fuel r.1 sep ignore_empty pos shorter)
]

find_empty : (str : List ℕ) → find [] str ≡ some ([], str)
unfolding find behind
find_empty [] = refl
find_empty (c ∷ str) = refl

-- `Split` by an empty separator does not end, whatever the text.
pub split_empty :
    (fuel : ℕ) (str : List ℕ) (ignore_empty : Bool) → split fuel str [] ignore_empty ≡ out_of_fuel
unfolding split
split_empty zero str ignore_empty = refl
split_empty (suc fuel) str ignore_empty =
    ground (arith, find_empty str, split_empty fuel str ignore_empty)

-- No piece but the first is empty.
abbrev pub Filled : List (List ℕ) → Type 0
Filled [] = Unit {0}
Filled (p ∷ ps) = (p ≢ []) × Filled ps

-- `Join` of sections of which none but the first is empty puts the separator between them.
pub join-intercalate :
    (sep p : List ℕ) (ps : List (List ℕ)) → Filled ps → join sep p ps ≡ intercalate sep (p ∷ ps)
unfolding join append_sections intercalate
join-intercalate sep p [] f = append-nil p
join-intercalate sep p ([] ∷ ps) f = absurd (f.0 refl)
join-intercalate sep p ((c ∷ q) ∷ ps) f =
    ap (λ t. p ++ (sep ++ t)) (join-intercalate sep (c ∷ q) ps f.1)

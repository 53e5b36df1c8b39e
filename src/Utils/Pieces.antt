-- ===== src/Utils/Pieces.antt =====
-- The pieces that `Split` of kernel/common/utils/utils.cc is to make of a text, and where the separator is found in them.
use mathlib.Core.List.{append_assoc}
use ad_index.Base.{
  ℕ, ◌≤◌, ◌≡◌, ◌≢◌, refl, sym, ap, ◌∙◌, Bool, true, false, List, [], ◌∷◌, ◌++◌, none, some, length,
  length-append, arith, Option-cases, inl, inr,
}
use ad_index.Utils.Text.{behind, find, emplace}
use ad_index.Utils.Split.{behind-append, find-append}

-- Wherever the separator lies in a piece and a separator behind it, it begins behind the piece.
abbrev pub FirstAt : List ℕ → List ℕ → Type 0
FirstAt sep p =
    (before after : List ℕ) → before ++ (sep ++ after) ≡ p ++ sep → length p ≤ length before

-- The separator is nowhere in a piece.
abbrev pub Absent : List ℕ → List ℕ → Type 0
Absent sep p = (before after : List ℕ) → before ++ (sep ++ after) ≢ p

-- There is a piece at least. In the last one the separator is nowhere, and each other one ends at the first separator.
abbrev pub IsSplit : List ℕ → List (List ℕ) → Type 0
IsSplit sep [] = ⊥
IsSplit sep (p ∷ []) = Absent sep p
IsSplit sep (p ∷ q ∷ ps) = FirstAt sep p × IsSplit sep (q ∷ ps)

-- The pieces that are not empty.
unfoldable pub filled : List (List ℕ) → List (List ℕ)
filled [] = []
filled ([] ∷ ps) = filled ps
filled ((c ∷ p) ∷ ps) = (c ∷ p) ∷ filled ps

-- The pieces that are kept: all of them, or those that are not empty.
abbrev pub kept : Bool → List (List ℕ) → List (List ℕ)
kept false ps = ps
kept true ps = filled ps

pub emplace-kept :
    (ignore_empty : Bool) (p : List ℕ) (ps : List (List ℕ))
    → emplace ignore_empty p (kept ignore_empty ps) ≡ kept ignore_empty (p ∷ ps)
unfolding filled
emplace-kept false p ps = refl
emplace-kept true [] ps = refl
emplace-kept true (c ∷ p) ps = refl

pub emplace-last :
    (ignore_empty : Bool) (p : List ℕ) → emplace ignore_empty p [] ≡ kept ignore_empty (p ∷ [])
unfolding filled
emplace-last false p = refl
emplace-last true [] = refl
emplace-last true (c ∷ p) = refl

behind-sep : (sep rest : List ℕ) → behind sep (sep ++ rest) ≡ some rest
unfolding behind
behind-sep [] rest = refl
behind-sep (s ∷ sep) rest = ground (arith, behind-sep sep rest)

find-here : (sep str rest : List ℕ) → behind sep str ≡ some rest → find sep str ≡ some ([], rest)
unfolding find
find-here sep [] rest e = ground (arith, e)
find-here sep (c ∷ str) rest e = ground (arith, e)

-- The first separator is not behind any other.
find-least :
    (sep str b r before rest : List ℕ)
    → find sep str ≡ some (b, r)
    → before ++ (sep ++ rest) ≡ str
    → length b ≤ length before
unfolding find
find-least sep [] b r before rest e at = elim (Option-cases (behind sep [])) [
  | inl no_sep ↦ absurd (ground (arith, e, no_sep))
  | inr (x, here) ↦ ground (arith, e, here)
]
find-least sep (c ∷ str) b r [] rest e at = elim (Option-cases (behind sep (c ∷ str))) [
  | inl no_sep ↦ absurd (cc (no_sep, at, behind-sep sep rest))
  | inr (x, here) ↦ ground (arith, e, here)
]
find-least sep (c ∷ str) b r (d ∷ before) rest e at = elim (Option-cases (behind sep (c ∷ str))) [
  | inl no_sep ↦ elim (Option-cases (find sep str)) [
    | inl nowhere ↦ absurd (ground (arith, e, no_sep, nowhere))
    | inr (x, found) ↦
        ground (arith, e, no_sep, found, find-least sep str x.0 x.1 before rest found (cc at))
  ]
  | inr (x, here) ↦ ground (arith, e, here)
]

pub find-nowhere :
    (sep str before rest : List ℕ) → before ++ (sep ++ rest) ≡ str → find sep str ≢ none
unfolding find
find-nowhere sep str [] rest at e =
    absurd (cc (e, find-here sep str rest (ap (behind sep) (sym at) ∙ behind-sep sep rest)))
find-nowhere sep [] (d ∷ before) rest at e = absurd (cc at)
find-nowhere sep (c ∷ str) (d ∷ before) rest at e = elim (Option-cases (behind sep (c ∷ str))) [
  | inl no_sep ↦ elim (Option-cases (find sep str)) [
    | inl nowhere ↦ find-nowhere sep str before rest (cc at) nowhere
    | inr (x, found) ↦ absurd (ground (arith, e, no_sep, found))
  ]
  | inr (x, here) ↦ absurd (ground (arith, e, here))
]

pub find-FirstAt : (sep str b r : List ℕ) → find sep str ≡ some (b, r) → FirstAt sep b
find-FirstAt sep str b r e before after at = find-least sep str b r before (after ++ r) e (
    ap (λ t. before ++ t) (sym (append_assoc sep after r))
    ∙ (sym (append_assoc before (sep ++ after) r)
        ∙ (ap (λ t. t ++ r) at ∙ (append_assoc b sep r ∙ sym (find-append sep str b r e)))))

prefix :
    (xs ys rest more : List ℕ)
    → xs ++ rest ≡ ys ++ more
    → length xs ≤ length ys
    → (after : List ℕ) × (xs ++ after ≡ ys)
prefix [] ys rest more e h = (ys, refl)
prefix (x ∷ xs) [] rest more e h = absurd (omega (arith, h))
prefix (x ∷ xs) (y ∷ ys) rest more e h =
    let (after, same) = prefix xs ys rest more (cc e) (omega (arith, h)) in (after, cc (e, same))

pub FirstAt-find :
    (sep p rest : List ℕ) → FirstAt sep p → find sep (p ++ (sep ++ rest)) ≡ some (p, rest)
unfolding find
FirstAt-find sep [] rest first = find-here sep (sep ++ rest) rest (behind-sep sep rest)
FirstAt-find sep (c ∷ p) rest first =
    let later : FirstAt sep p = λ before after at.
      let h = first (c ∷ before) after (ap (λ t. c ∷ t) at) in omega (arith, h) in
    elim (Option-cases (behind sep (c ∷ (p ++ (sep ++ rest))))) [
      | inl no_sep ↦ ground (arith, no_sep, FirstAt-find sep p rest later)
      | inr (x, here) ↦
          let joined =
            sym (behind-append sep (c ∷ (p ++ (sep ++ rest))) x here)
            ∙ ap (λ t. c ∷ t) (sym (append_assoc p sep rest)) in
          let (after, same) =
            prefix sep (c ∷ (p ++ sep)) x rest joined (omega (arith, length-append p sep)) in
          let h = first [] after same in absurd (omega (arith, h))
    ]

pub Absent-find : (sep p : List ℕ) → Absent sep p → find sep p ≡ none
Absent-find sep p absent = elim (Option-cases (find sep p)) [
  | inl nowhere ↦ nowhere
  | inr (r, found) ↦ absurd (absent r.0 r.1 (sym (find-append sep p r.0 r.1 found)))
]

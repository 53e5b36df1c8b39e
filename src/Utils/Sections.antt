-- ===== src/Utils/Sections.antt =====
-- `Split` of kernel/common/utils/utils.cc makes its pieces of a text, and of a text that `Join` made the sections.
use ad_index.Base.{
  ℕ, zero, suc, ◌<◌, ◌≤◌, ◌≡◌, ◌≢◌, refl, sym, ap, ◌∙◌, Bool, List, [], ◌∷◌, ◌++◌, none, some, done,
  length, length-append, arith, Option-cases, inl, inr,
}
use ad_index.Utils.Text.{find, emplace, split, join}
use ad_index.Utils.Split.{intercalate, find-append, intercalate-cons, Filled, join-intercalate}
use ad_index.Utils.Pieces.{
  FirstAt, IsSplit, kept, emplace-kept, emplace-last, find-nowhere, find-FirstAt, FirstAt-find,
  Absent-find,
}

IsSplit-some : (sep : List ℕ) (ps : List (List ℕ)) → IsSplit sep ps → ps ≢ []
IsSplit-some sep [] good = absurd good
IsSplit-some sep (p ∷ ps) good = λ e. absurd (cc e)

IsSplit-cons :
    (sep p : List ℕ) (ps : List (List ℕ)) → FirstAt sep p → IsSplit sep ps → IsSplit sep (p ∷ ps)
IsSplit-cons sep p [] first good = absurd good
IsSplit-cons sep p (q ∷ ps) first good = (first, good)

split_last :
    (fuel : ℕ) (str sep : List ℕ) (ignore_empty : Bool)
    → find sep str ≡ none
    → split (suc fuel) str sep ignore_empty ≡ done (emplace ignore_empty str [])
unfolding split
split_last fuel str sep ignore_empty last = ground (arith, last)

split_next :
    (fuel : ℕ) (str sep before rest : List ℕ) (pieces : List (List ℕ)) (ignore_empty : Bool)
    → find sep str ≡ some (before, rest)
    → split fuel rest sep ignore_empty ≡ done pieces
    → split (suc fuel) str sep ignore_empty ≡ done (emplace ignore_empty before pieces)
unfolding split
split_next fuel str sep before rest pieces ignore_empty found ran = ground (arith, found, ran)

-- `Split` by a separator that is not empty ends within one round more than the text is long, whether empty pieces are
-- kept or not. What it gives are the pieces, or those of them that are not empty, into which the text falls at each
-- separator, found from the left, and in none of which the separator is left; with the separator between them they are
-- the text.
pub split-IsSplit :
    (fuel : ℕ) (str sep : List ℕ) (ignore_empty : Bool)
    → 0 < length sep
    → length str < fuel
    → (pieces : List (List ℕ)) × (split fuel str sep ignore_empty ≡ done (kept ignore_empty pieces))
      × IsSplit sep pieces
      × (intercalate sep pieces ≡ str)
unfolding intercalate
split-IsSplit zero str sep ignore_empty pos h = absurd (omega arith)
split-IsSplit (suc fuel) str sep ignore_empty pos h = elim (Option-cases (find sep str)) [
  | inl last ↦ (
    str ∷ [],
    split_last fuel str sep ignore_empty last ∙ ap done (emplace-last ignore_empty str),
    (λ before after at. find-nowhere sep str before after at last),
    refl,
  )
  | inr (r, found) ↦
      let e = find-append sep str r.0 r.1 found in
      let shorter : length r.1 < fuel =
        omega (arith, ap length e, length-append r.0 (sep ++ r.1), length-append sep r.1) in
      let (pieces, ran, good, same) = split-IsSplit fuel r.1 sep ignore_empty pos shorter in
      (
        r.0 ∷ pieces,
        split_next fuel str sep r.0 r.1 (kept ignore_empty pieces) ignore_empty found ran
            ∙ ap done (emplace-kept ignore_empty r.0 pieces),
        IsSplit-cons sep r.0 pieces (find-FirstAt sep str r.0 r.1 found) good,
        intercalate-cons sep r.0 pieces (IsSplit-some sep pieces good)
            ∙ (ap (λ t. r.0 ++ (sep ++ t)) same ∙ sym e),
      )
]

-- The pieces with the separator between them are split into themselves.
split-intercalate :
    (fuel : ℕ) (sep p : List ℕ) (ps : List (List ℕ)) (ignore_empty : Bool)
    → 0 < length sep
    → IsSplit sep (p ∷ ps)
    → length (intercalate sep (p ∷ ps)) < fuel
    → split fuel (intercalate sep (p ∷ ps)) sep ignore_empty ≡ done (kept ignore_empty (p ∷ ps))
unfolding intercalate
split-intercalate zero sep p ps ignore_empty pos good h = absurd (omega arith)
split-intercalate (suc fuel) sep p [] ignore_empty pos good h =
    split_last fuel p sep ignore_empty (Absent-find sep p good)
    ∙ ap done (emplace-last ignore_empty p)
split-intercalate (suc fuel) sep p (q ∷ ps) ignore_empty pos good h =
    let text = intercalate sep (q ∷ ps) in
    let shorter : length text < fuel =
      omega (arith, h, length-append p (sep ++ text), length-append sep text) in
    split_next fuel (p ++ (sep ++ text)) sep p text (kept ignore_empty (q ∷ ps)) ignore_empty
      (FirstAt-find sep p text good.0)
      (split-intercalate fuel sep q ps ignore_empty pos good.1 shorter)
    ∙ ap done (emplace-kept ignore_empty p (q ∷ ps))

-- At most six sections, none but the first empty, joined by a separator that is not empty and that is in the joined text
-- nowhere but between them, found from the left: `Split` of it by the separator ends within one round more than it is
-- long and gives the sections again, or without an empty first one, if empty pieces are ignored.
pub split-join :
    (fuel : ℕ) (sep p : List ℕ) (ps : List (List ℕ)) (ignore_empty : Bool)
    → length ps ≤ 5
    → Filled ps
    → 0 < length sep
    → IsSplit sep (p ∷ ps)
    → length (join sep p ps) < fuel
    → split fuel (join sep p ps) sep ignore_empty ≡ done (kept ignore_empty (p ∷ ps))
split-join fuel sep p ps ignore_empty few full pos good h =
    let joined = join-intercalate sep p ps full in
    let enough : length (intercalate sep (p ∷ ps)) < fuel = omega (arith, h, ap length joined) in
    ap (λ str. split fuel str sep ignore_empty) joined
    ∙ split-intercalate fuel sep p ps ignore_empty pos good enough

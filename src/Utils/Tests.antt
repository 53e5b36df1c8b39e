-- ===== src/Utils/Tests.antt =====
-- The theorems on short texts.
use ad_index.Base.{ℕ, ◌≡◌, refl, true, List, [], ◌∷◌, done, arith}
use ad_index.Utils.Text.{behind, find, split, join}
use ad_index.Utils.Split.{intercalate}
use ad_index.Utils.Pieces.{FirstAt, Absent, IsSplit, kept, find-FirstAt, find-nowhere}
use ad_index.Utils.Sections.{split-IsSplit, split-join}

-- ","
abbrev comma : List ℕ
comma = 44 ∷ []

-- "a,b"
abbrev text : List ℕ
text = 97 ∷ 44 ∷ 44 ∷ 98 ∷ []

split-IsSplit_example :
    (pieces : List (List ℕ)) × (split 5 text comma true ≡ done (kept true pieces))
    × IsSplit comma pieces
    × (intercalate comma pieces ≡ text)
split-IsSplit_example = split-IsSplit 5 text comma true (omega arith) (omega arith)

first_a : FirstAt comma (97 ∷ [])
unfolding find behind
first_a = find-FirstAt comma (97 ∷ 44 ∷ []) (97 ∷ []) [] refl

first_b : FirstAt comma (98 ∷ [])
unfolding find behind
first_b = find-FirstAt comma (98 ∷ 44 ∷ []) (98 ∷ []) [] refl

no_comma : Absent comma (99 ∷ [])
unfolding find behind
no_comma before after at = find-nowhere comma (99 ∷ []) before after at refl

split-join_example :
    split 6 (join comma (97 ∷ []) ((98 ∷ []) ∷ (99 ∷ []) ∷ [])) comma true
    ≡ done (kept true ((97 ∷ []) ∷ (98 ∷ []) ∷ (99 ∷ []) ∷ []))
unfolding join
split-join_example =
    split-join 6 comma (97 ∷ []) ((98 ∷ []) ∷ (99 ∷ []) ∷ []) true (omega arith)
      ((λ e. absurd (cc e)), ((λ e. absurd (cc e)), tt)) (omega arith)
      (first_a, (first_b, no_comma)) (omega arith)

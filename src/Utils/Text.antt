-- ===== src/Utils/Text.antt =====
-- `Utils::Split`, `Utils::Strip` and `Utils::Join` of kernel/common/utils/utils.cc, on the characters of
-- a string. std::string::find gives the first occurrence.
use ad_index.Base.{
  ℕ, zero, suc, Bool, true, false, ◌&&◌, ◌||◌, List, [], ◌∷◌, ◌++◌, Option, none, some, ◌==◌,
  if◌then◌else◌, Run, done, out_of_fuel, ◌>>=◌,
}

abbrev pub is_empty : List ℕ → Bool
is_empty [] = true
is_empty (c ∷ cs) = false

-- The text behind the separator, if it starts with it.
unfoldable pub behind : List ℕ → List ℕ → Option (List ℕ)
behind [] str = some str
behind (s ∷ sep) [] = none
behind (s ∷ sep) (c ∷ str) = if s == c then behind sep str else none

-- `str.find(sep, start)`: the text from `start` to the first separator, and the text behind it.
unfoldable pub find : List ℕ → List ℕ → Option (List ℕ × List ℕ)
unfolding behind
find sep [] = elim (behind sep []) [ none ↦ none | some rest ↦ some ([], rest) ]
find sep (c ∷ str) = elim (behind sep (c ∷ str)) [
  | some rest ↦ some ([], rest)
  | none ↦ elim (find sep str) [ none ↦ none | some r ↦ some (c ∷ r.0, r.1) ]
]

-- `vec->emplace_back`, unless the piece is empty and empty pieces are ignored.
abbrev pub emplace : Bool → List ℕ → List (List ℕ) → List (List ℕ)
emplace ignore_empty piece pieces =
    if ignore_empty && is_empty piece then pieces else piece ∷ pieces

unfoldable pub split : ℕ → List ℕ → List ℕ → Bool → Run (List (List ℕ))
split zero str sep ignore_empty = out_of_fuel
split (suc fuel) str sep ignore_empty = elim (find sep str) [
  | none ↦ done (emplace ignore_empty str [])
  | some r ↦ split fuel r.1 sep ignore_empty >>= λ pieces. done (emplace ignore_empty r.0 pieces)
]

-- Space, line feed, tab and 0.
unfoldable pub is_blank : ℕ → Bool
is_blank c = c == 32 || c == 10 || c == 9 || c == 0

unfoldable pub trim_start : List ℕ → List ℕ
unfolding is_blank
trim_start [] = []
trim_start (c ∷ cs) = if is_blank c then trim_start cs else c ∷ cs

unfoldable pub trim_end : List ℕ → List ℕ
unfolding is_blank
trim_end [] = []
trim_end (c ∷ cs) = let rest = trim_end cs in if is_empty rest && is_blank c then [] else c ∷ rest

unfoldable pub strip : List ℕ → List ℕ
unfolding trim_start trim_end
strip str = trim_end (trim_start str)

-- The sections from the second one on.
unfoldable pub append_sections : List ℕ → List (List ℕ) → List ℕ
append_sections join_with [] = []
append_sections join_with (s ∷ sections) =
    if is_empty s
    then append_sections join_with sections
    else join_with ++ (s ++ append_sections join_with sections)

-- `Join`, of a first section and five more, of which those left out are empty.
unfoldable pub join : List ℕ → List ℕ → List (List ℕ) → List ℕ
unfolding append_sections
join join_with section0 sections = section0 ++ append_sections join_with sections

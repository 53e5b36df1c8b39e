-- ===== src/Manager/Names.antt =====
-- `FieldInfo::GetFieldInfoByUnionName` of kernel/manager/table_info/field_info.cc: a field of a tuple by
-- its name, with the names of the tuples around it and dots between them.
use ad_index.Base.{
  ℕ, zero, suc, ◌<◌, ◌≡◌, ◌≢◌, refl, ◌⊎◌, inl, inr, true, List, [], ◌∷◌, ◌++◌, length, Option, none,
  some, arith, Run, done, fault, ◌>>=◌,
}
use ad_index.Utils.Text.{split, find, behind, emplace}
use ad_index.Utils.Split.{intercalate}
use ad_index.Manager.FieldInfo.{FieldInfo, FieldDesc, tuple_field_map, find_field}

-- The loop over the sections, with the field found last; the end of the map is not a field.
unfoldable pub find_sections : Option FieldInfo → List (List ℕ) → FieldDesc → Run (Option FieldInfo)
find_sections none [] desc = fault
find_sections (some info) [] desc = done (some info)
find_sections it (section ∷ sections) desc = elim (find_field section desc) [
  | none ↦ done none
  | some info ↦ find_sections (some info) sections (tuple_field_map info)
]

unfoldable pub get_field_info_by_union_name : ℕ → List ℕ → FieldDesc → Run (Option FieldInfo)
unfolding find_sections
get_field_info_by_union_name fuel name desc =
    split fuel name (b'.' ∷ []) true >>= λ sections. find_sections none sections desc

-- A name without the separator, and not empty.
abbrev pub Lacks : ℕ → List ℕ → Type 0
Lacks c [] = Unit {0}
Lacks c (d ∷ ds) = (c ≢ d) × Lacks c ds

find-Lacks : (c : ℕ) (name : List ℕ) → Lacks c name → find (c ∷ []) name ≡ none
unfolding find behind
find-Lacks c [] h = refl
find-Lacks c (d ∷ ds) h = ground (arith, h.0, find-Lacks c ds h.1)

find-append :
    (c : ℕ) (name rest : List ℕ)
    → Lacks c name
    → find (c ∷ []) (name ++ c ∷ rest) ≡ some (name, rest)
unfolding find behind
find-append c [] rest h = ground arith
find-append c (d ∷ ds) rest h = ground (arith, h.0, find-append c ds rest h.1)

abbrev pub Names : ℕ → List (List ℕ) → Type 0
Names c [] = Unit {0}
Names c (name ∷ names) = (name ≢ []) × Lacks c name × Names c names

emplace_filled :
    (name : List ℕ) (names : List (List ℕ)) → name ≢ [] → emplace true name names ≡ name ∷ names
emplace_filled [] names h = absurd (h refl)
emplace_filled (d ∷ ds) names h = refl

-- `Split` takes apart again what a separator of one character joins.
pub split-intercalate-Names :
    (fuel c : ℕ) (name : List ℕ) (names : List (List ℕ))
    → Names c (name ∷ names)
    → length names < fuel
    → split fuel (intercalate (c ∷ []) (name ∷ names)) (c ∷ []) true ≡ done (name ∷ names)
unfolding split intercalate
split-intercalate-Names zero c name names h l = absurd (omega arith)
split-intercalate-Names (suc fuel) c name [] h l =
    ground (arith, find-Lacks c name h.1, emplace_filled name [] h.0)
split-intercalate-Names (suc fuel) c name (next ∷ names) h l = ground (
  arith,
  find-append c name (intercalate (c ∷ []) (next ∷ names)) h.1,
  split-intercalate-Names fuel c next names h.2 (omega (arith, l)),
  emplace_filled name (next ∷ names) h.0,
)

-- The field at the end of a path of names.
abbrev pub Leads : FieldDesc → List ℕ → List (List ℕ) → Option FieldInfo → Type 0
Leads desc name [] found = find_field name desc ≡ found
Leads desc name (next ∷ names) found =
    ((find_field name desc ≡ none) × (found ≡ none))
    ⊎ ((info : FieldInfo) × (find_field name desc ≡ some info)
        × Leads (tuple_field_map info) next names found)

find_sections-Leads :
    (desc : FieldDesc) (it : Option FieldInfo) (name : List ℕ) (names : List (List ℕ))
    (found : Option FieldInfo)
    → Leads desc name names found
    → find_sections it (name ∷ names) desc ≡ done found
unfolding find_sections
find_sections-Leads desc it name [] none h = rw (h, find_sections) refl
find_sections-Leads desc it name [] (some info) h = rw (h, find_sections) refl
find_sections-Leads desc it name (next ∷ names) found (inl h) = rw (h.0, h.1, find_sections) refl
find_sections-Leads desc it name (next ∷ names) found (inr (info, at, h)) =
    rw (at, find_sections)
      (find_sections-Leads (tuple_field_map info) (some info) next names found h)

-- Names that are not empty and have no dot, joined by dots, lead to the field that they name one after
-- the other, or to none if one of them is missing.
pub get_field_info_by_union_name_lem :
    (fuel : ℕ) (name : List ℕ) (names : List (List ℕ)) (desc : FieldDesc) (found : Option FieldInfo)
    → Names b'.' (name ∷ names)
    → length names < fuel
    → Leads desc name names found
    → get_field_info_by_union_name fuel (intercalate (b'.' ∷ []) (name ∷ names)) desc ≡ done found
unfolding get_field_info_by_union_name
get_field_info_by_union_name_lem fuel name names desc found h l leads =
    rw (split-intercalate-Names fuel b'.' name names h l)
      (find_sections-Leads desc none name names found leads)

-- ===== src/Manager/Ending.antt =====
-- That the loop over the fields of a message ends.
use ad_index.Base.{
  ℕ, ◌+◌, ◌%◌, ◌<◌, ◌≢◌, Bool, true, false, not, List, [], ◌∷◌, length, ◌&&◌, ◌==◌, Option, none,
  some, Option-cases, inl, inr, u32_mod, Run, done, out_of_fuel, if_ind, bind_ends, option_ind,
  arith,
}
use ad_index.Utils.Text.{is_empty, split}
use ad_index.Utils.Split.{split-ends}
use ad_index.Manager.FieldInfo.{
  FieldInfo, FieldDesc, attributes, minus_one, tuple_field_map, find_field, insert_field,
}
use ad_index.Manager.Names.{find_sections, get_field_info_by_union_name}
use ad_index.Manager.Layout.{table_attributes}
use ad_index.Manager.TableInfo.{
  proto, Protos, no_proto, with_proto, is_builtin, parse_field_desc, Table, parse_fields,
}

-- The fuel is enough for the names of related keys.
abbrev pub Enough : ℕ → Protos → Type 0
Enough fuel no_proto = Unit {0}
Enough fuel (with_proto (proto d protos) rest) = (length d.related_key < fuel) × Enough fuel rest

abbrev pub Ends : Run (Bool × Table) → Type 0
Ends r = r ≢ out_of_fuel

Ends-false : (t : Table) → Ends (done (false, t))
Ends-false t e = ground (arith, e)

find_sections-Ends :
    (it : Option FieldInfo) (sections : List (List ℕ)) (desc : FieldDesc)
    → find_sections it sections desc ≢ out_of_fuel
unfolding find_sections
find_sections-Ends none [] desc = λ e. ground (arith, e)
find_sections-Ends (some info) [] desc = λ e. ground (arith, e)
find_sections-Ends it (section ∷ sections) desc = elim (Option-cases (find_field section desc)) [
  | inl missing ↦ λ e. ground (arith, missing, e)
  | inr (info, found) ↦
      λ e. ground (arith, found, e, find_sections-Ends (some info) sections (tuple_field_map info))
]

get_field_info_by_union_name-Ends :
    (fuel : ℕ) (name : List ℕ) (desc : FieldDesc)
    → length name < fuel
    → get_field_info_by_union_name fuel name desc ≢ out_of_fuel
unfolding get_field_info_by_union_name
get_field_info_by_union_name-Ends fuel name desc h =
    bind_ends (split fuel name (b'.' ∷ []) true) _
      (split-ends fuel name (b'.' ∷ []) true (omega arith) h)
      (λ sections. find_sections-Ends none sections desc)

pub parse_fields-Ends :
    (fuel : ℕ) (full_name : List ℕ) (total : ℕ) (protos : Protos) (t : Table)
    → Enough fuel protos
    → Ends (parse_fields fuel full_name total protos t)
unfolding parse_fields
parse_fields-Ends fuel full_name total no_proto t h = λ e. ground (arith, e)
parse_fields-Ends fuel full_name total (with_proto (proto d protos) rest) t h =
    let info = parse_field_desc (proto d protos) (table_attributes full_name total) in
    let behind : ℕ = (total + (attributes info).size) % u32_mod in
    let more : Table = record t { field_desc = insert_field d.name info t.field_desc } in
    if_ind Ends (is_builtin d) _ _ (parse_fields-Ends fuel full_name total rest t h.1) (
      if_ind Ends (not (is_empty d.related_table) && not (is_empty d.related_key)) _ _
        (bind_ends (split fuel d.related_key (b'.' ∷ []) true) _
          (split-ends fuel d.related_key (b'.' ∷ []) true (omega arith) h.0)
          (λ sections.
            bind_ends (get_field_info_by_union_name fuel d.related_key t.field_desc) _
              (get_field_info_by_union_name-Ends fuel d.related_key t.field_desc h.0)
              (λ found.
                option_ind Ends found _ _ (parse_fields-Ends fuel full_name total rest t h.1)
                  (λ info. parse_fields-Ends fuel full_name total rest _ h.1))))
        (if_ind Ends ((attributes info).size == minus_one) (done (false, t))
          (parse_fields fuel full_name behind rest more) (Ends-false t)
          (parse_fields-Ends fuel full_name behind rest more h.1)))

-- ===== src/Manager/TableInfo.antt =====
-- `TableInfo` of kernel/manager/table_info/table_info.{h,cc}: the fields of a table from the descriptor of
-- its message. What protobuf tells of a message and rapidjson of a configuration is data here.
use ad_index.Base.{
  ℕ, ◌+◌, ◌^◌, ◌%◌, Bool, true, false, not, List, [], ◌∷◌, ◌&&◌, ltb, ◌==◌, if◌then◌else◌, none,
  some, u32_mod, codes, same_text, Run, done, ◌>>=◌,
}
use ad_index.Utils.Text.{is_empty, split}
use ad_index.Manager.FieldInfo.{
  FieldType, unknown_field, Attributes, minus_one, new_attributes, FieldInfo, field, FieldDesc,
  no_field, with_field, attributes, get_field_element_size, get_field_size, insert_field,
  assign_field, get_field_type,
}
use ad_index.Manager.Names.{get_field_info_by_union_name}

pub data CppType : Type 0 where
  message : CppType
  cpp_int32 : CppType
  cpp_int64 : CppType
  cpp_double : CppType
  cpp_float : CppType
  cpp_string : CppType
  other : CppType

-- A `google::protobuf::FieldDescriptor` with its options; `field_count` is an int32_t.
pub record Descriptor : Type 0 where
  pub name : List ℕ
  pub number : ℕ
  pub repeated : Bool
  pub cpp_type : CppType
  pub field_count : ℕ
  pub extend_type : List ℕ
  pub extend_flag : List ℕ
  pub related_table : List ℕ
  pub related_key : List ℕ

mutual
  -- With the fields of the message that it holds.
  pub data Proto : Type 0 where
    proto : Descriptor → Protos → Proto

  pub data Protos : Type 0 where
    no_proto : Protos
    with_proto : Proto → Protos → Protos

-- The switch of `ParseFieldDesc` on the type.
unfoldable pub parsed_type : Descriptor → FieldType
unfolding get_field_type
parsed_type d = elim d.cpp_type [
  | message ↦ get_field_type (codes "tuple")
  | cpp_int32 ↦
      if is_empty d.extend_type
      then get_field_type (codes "int32")
      else get_field_type d.extend_type
  | cpp_int64 ↦
      if is_empty d.extend_type
      then get_field_type (codes "int64")
      else get_field_type d.extend_type
  | cpp_double ↦ get_field_type (codes "double")
  | cpp_float ↦ get_field_type (codes "float")
  | cpp_string ↦
      if same_text d.extend_flag (codes "uniq_string")
      then get_field_type (codes "uniq_string")
      else get_field_type (codes "string")
  | other ↦ unknown_field
]

abbrev pub parsed_count : Descriptor → ℕ
parsed_count d =
    if ltb 0 d.field_count && ltb d.field_count (2 ^ 31)
    then d.field_count
    else if d.repeated
    then 0
    else 1

-- Fields with higher numbers are the kernel's own.
abbrev pub is_builtin : Descriptor → Bool
is_builtin d = ltb 10000 d.number

-- The sizes that are set at the end.
unfoldable pub set_sizes : Attributes → FieldDesc → FieldInfo
unfolding get_field_size get_field_element_size
set_sizes a map =
    field
      (record a {
        size = get_field_size (field a map);
        element_size = get_field_element_size (field a map);
      })
      map

abbrev pub set_offset : ℕ → FieldInfo → FieldInfo
set_offset offset (field a map) = field (record a { offset = offset }) map

abbrev pub named : Descriptor → Attributes → Attributes
named d a = record a { name = d.name; count = parsed_count d; field_type = parsed_type d }

abbrev pub is_message : CppType → Bool
is_message message = true
is_message cpp_int32 = false
is_message cpp_int64 = false
is_message cpp_double = false
is_message cpp_float = false
is_message cpp_string = false
is_message other = false

unfoldable mutual
  unfolding parsed_type set_sizes assign_field

  -- `ParseFieldDesc`, on what the caller has set.
  pub parse_field_desc : Proto → Attributes → FieldInfo
  parse_field_desc (proto d protos) a =
      set_sizes (named d a)
        (if is_message d.cpp_type then parse_sub_fields 0 protos no_field else no_field)

  -- The loop over the fields of a message.
  pub parse_sub_fields : ℕ → Protos → FieldDesc → FieldDesc
  parse_sub_fields total no_proto map = map
  parse_sub_fields total (with_proto (proto d protos) rest) map =
      let skipped = parse_sub_fields total rest map in
      let info = set_offset total (parse_field_desc (proto d protos) new_attributes) in
      let more =
        parse_sub_fields ((total + (attributes info).size) % u32_mod) rest
          (assign_field d.name info map) in
      if is_builtin d then skipped else more

-- What is changed through the pointer that `GetFieldInfoByUnionName` gives.
unfoldable pub change_field : List (List ℕ) → (Attributes → Attributes) → FieldDesc → FieldDesc
change_field sections f no_field = no_field
change_field [] f (with_field key info desc) = with_field key info desc
change_field (section ∷ []) f (with_field key (field a map) desc) =
    if same_text key section
    then with_field key (field (f a) map) desc
    else with_field key (field a map) (change_field (section ∷ []) f desc)
change_field (section ∷ next ∷ sections) f (with_field key (field a map) desc) =
    if same_text key section
    then with_field key (field a (change_field (next ∷ sections) f map)) desc
    else with_field key (field a map) (change_field (section ∷ next ∷ sections) f desc)

-- The fields of the table, and the related tables with the names of the fields that they are reached by.
pub record Table : Type 0 where
  pub field_desc : FieldDesc
  pub related_field_map : List (List ℕ × List ℕ)

unfoldable pub set_related : List ℕ → List (List ℕ) → Table → Table
unfolding change_field
set_related table sections t = record {
  field_desc =
      change_field sections (λ a. record a { related_table_name = table; count = 1 }) t.field_desc;
  related_field_map = t.related_field_map;
}

-- The loop over the fields of the table's message, with the size so far.
unfoldable pub parse_fields : ℕ → List ℕ → ℕ → Protos → Table → Run (Bool × Table)
unfolding parse_field_desc set_related
parse_fields fuel full_name total no_proto t = done (true, t)
parse_fields fuel full_name total (with_proto (proto d protos) rest) t =
    let skipped = parse_fields fuel full_name total rest t in
    let related = split fuel d.related_key (b'.' ∷ []) true >>= λ sections.
    get_field_info_by_union_name fuel d.related_key t.field_desc >>= λ found. elim found [
      | none ↦ parse_fields fuel full_name total rest t
      | some info ↦
          parse_fields fuel full_name total rest (record (set_related d.related_table sections t) {
            related_field_map = (d.related_table, d.related_key) ∷ t.related_field_map;
          })
    ] in
    let info =
      parse_field_desc (proto d protos)
        (record new_attributes { clazz_name = full_name; offset = total }) in
    let size = (attributes info).size in
    let more =
      parse_fields fuel full_name ((total + size) % u32_mod) rest
        (record t { field_desc = insert_field d.name info t.field_desc }) in
    if is_builtin d
    then skipped
    else if not (is_empty d.related_table) && not (is_empty d.related_key)
    then related
    else if size == minus_one
    then done (false, t)
    else more

-- ===== src/Manager/FieldInfo.antt =====
-- `FieldInfo` and `IndexInfo` of kernel/manager/table_info/{field_info,index_info}.{h,cc}. An int32_t is
-- its bit pattern, a number below 2^32, and -1 is 2^32 - 1. The order of a std::map shows in no result,
-- so a map is a list of keys and values.
use ad_index.Base.{
  ℕ, ◌+◌, ◌-◌, ◌*◌, ◌%◌, ◌^◌, Bool, List, ◌&&◌, ◌||◌, ltb, leb, ◌==◌, if◌then◌else◌, Option, none,
  some, u32_mod, codes, same_text, [],
}

pub data FieldType : Type 0 where
  int8 : FieldType
  int16 : FieldType
  int32 : FieldType
  int64 : FieldType
  float : FieldType
  double : FieldType
  string : FieldType
  tuple : FieldType
  reference : FieldType
  unig_string : FieldType
  unknown_field : FieldType

-- The fields of `FieldInfo` but the map and the pointers.
pub record Attributes : Type 0 where
  pub name : List ℕ
  pub field_type : FieldType
  pub count : ℕ
  pub offset : ℕ
  pub size : ℕ
  pub element_size : ℕ
  pub clazz_name : List ℕ
  pub related_table_name : List ℕ

abbrev pub minus_one : ℕ
minus_one = u32_mod - 1

-- `FieldInfo()`, with 0 in what it leaves open.
abbrev pub new_attributes : Attributes
new_attributes = record {
  name = [];
  field_type = unknown_field;
  count = 1;
  offset = minus_one;
  size = 0;
  element_size = 0;
  clazz_name = [];
  related_table_name = [];
}

mutual
  -- With `tuple_field_map`.
  pub data FieldInfo : Type 0 where
    field : Attributes → FieldDesc → FieldInfo

  pub data FieldDesc : Type 0 where
    no_field : FieldDesc
    with_field : List ℕ → FieldInfo → FieldDesc → FieldDesc

abbrev pub attributes : FieldInfo → Attributes
attributes (field a map) = a

abbrev pub tuple_field_map : FieldInfo → FieldDesc
tuple_field_map (field a map) = map

abbrev pub is_single : Attributes → Bool
is_single a = a.count == 1

abbrev pub is_multi_fix : Attributes → Bool
is_multi_fix a = ltb 1 a.count && ltb a.count (2 ^ 31)

abbrev pub is_multi_var : Attributes → Bool
is_multi_var a = a.count == 0

-- The switch of `GetFieldElementSize`, with the sum over `tuple_field_map`.
unfoldable pub type_size : FieldType → ℕ → ℕ
type_size int8 sum = 1
type_size int16 sum = 2
type_size int32 sum = 4
type_size int64 sum = 8
type_size float sum = 4
type_size double sum = 8
type_size string sum = 8
type_size unig_string sum = 8
type_size tuple sum = sum
type_size reference sum = 0
type_size unknown_field sum = minus_one

-- `GetFieldSize`, of the attributes and the size of an element.
unfoldable pub sized : Attributes → ℕ → ℕ
sized a element =
    if is_multi_var a
    then 8
    else if leb (2 ^ 31) element
    then minus_one
    else element * a.count % u32_mod

unfoldable mutual
  unfolding type_size sized

  -- `GetFieldElementSize`
  pub get_field_element_size : FieldInfo → ℕ
  get_field_element_size (field a map) = type_size a.field_type (tuple_size 0 map)

  -- The loop over `tuple_field_map`, with the size so far.
  pub tuple_size : ℕ → FieldDesc → ℕ
  tuple_size size no_field = size
  tuple_size size (with_field key (field a map) desc) =
      let local_size = sized a (get_field_element_size (field a map)) in
      let rest = tuple_size ((size + local_size) % u32_mod) desc in
      if local_size == minus_one then minus_one else rest

-- `GetFieldSize`
unfoldable pub get_field_size : FieldInfo → ℕ
unfolding get_field_element_size
get_field_size info = sized (attributes info) (get_field_element_size info)

-- `std::map::find`
unfoldable pub find_field : List ℕ → FieldDesc → Option FieldInfo
find_field key no_field = none
find_field key (with_field k info desc) = if same_text k key then some info else find_field key desc

-- `std::map::insert`, which keeps what the key has.
unfoldable pub insert_field : List ℕ → FieldInfo → FieldDesc → FieldDesc
insert_field key info no_field = with_field key info no_field
insert_field key info (with_field k other desc) =
    if same_text k key
    then with_field k other desc
    else with_field k other (insert_field key info desc)

-- `map[key] = info`
unfoldable pub assign_field : List ℕ → FieldInfo → FieldDesc → FieldDesc
assign_field key info no_field = with_field key info no_field
assign_field key info (with_field k other desc) =
    if same_text k key
    then with_field k info desc
    else with_field k other (assign_field key info desc)

-- `GetFieldType`
unfoldable pub get_field_type : List ℕ → FieldType
unfolding same_text
get_field_type name =
    if same_text name (codes "int8")
    then int8
    else if same_text name (codes "int16")
    then int16
    else if same_text name (codes "int32")
    then int32
    else if same_text name (codes "int64")
    then int64
    else if same_text name (codes "float")
    then float
    else if same_text name (codes "double")
    then double
    else if same_text name (codes "string")
    then string
    else if same_text name (codes "unig_string")
    then unig_string
    else if same_text name (codes "tuple")
    then tuple
    else unknown_field

-- `IndexInfo::GetPayloadSize`, with the size so far; it takes the sizes that the fields have.
unfoldable pub get_payload_size : ℕ → FieldDesc → ℕ
get_payload_size size no_field = size
get_payload_size size (with_field key info desc) =
    let rest = get_payload_size ((size + (attributes info).size) % u32_mod) desc in
    if (attributes info).size == 0 || leb (2 ^ 31) (attributes info).size then minus_one else rest

-- `IndexInfo::GetIndexSize`
unfoldable pub get_index_size : FieldDesc → ℕ
unfolding get_payload_size
get_index_size payload_info = (get_payload_size 0 payload_info + 8) % u32_mod

-- ===== src/Manager/Tests.antt =====
-- The theorems on small fields, messages and configurations.
use ad_index.Base.{
  bytes_of, ℕ, ◌*◌, ◌-◌, ◌%◌, ◌<◌, ◌≡◌, ◌≢◌, inl, inr, refl, true, false, List, [], ◌∷◌, ◌==◌,
  if◌then◌else◌, Option, none, some, length, u64_mod, u32_mod, codes, same_text, done, out_of_fuel,
  arith,
}
use ad_index.Utils.Split.{intercalate}
use ad_index.Manager.FieldInfo.{
  int16, int32, tuple, Attributes, new_attributes, FieldInfo, field, no_field, with_field,
  find_field, insert_field, is_multi_var, get_field_size, get_field_element_size,
}
use ad_index.Manager.Sizes.{IsSize, field_bytes, get_field_size-IsSize}
use ad_index.Manager.Names.{get_field_info_by_union_name, get_field_info_by_union_name_lem}
use ad_index.Manager.Convert.{Json, convert_single, convert_values, convert_json_field}
use ad_index.Manager.Widths.{width, convert_json_field-length}
use ad_index.Manager.Decimal.{Stores, value, convert_store_format_lem}
use ad_index.Manager.TableInfo.{
  Descriptor, cpp_int32, cpp_string, proto, Protos, no_proto, with_proto, Table, parse_field_desc,
  parse_fields,
}
use ad_index.Manager.Layout.{Separate, table_bytes, parse_fields-Separate}
use ad_index.Manager.Tables.{
  Info, Message, parse_messages, parse_structure_config, structure, empty_table,
}
use ad_index.Manager.Unique.{parse_fields_unique}

abbrev bytes_field : Attributes
bytes_field = record new_attributes { field_type = int16; count = 3 }

abbrev pair : FieldInfo
pair =
    field (record new_attributes { field_type = tuple })
      (with_field (codes "a") (field bytes_field no_field) no_field)

get_field_size-IsSize_example : IsSize (field_bytes pair) (get_field_size pair)
get_field_size-IsSize_example = get_field_size-IsSize pair

get_field_info_by_union_name_example :
    get_field_info_by_union_name 5
      (intercalate (b'.' ∷ []) (codes "p" ∷ codes "a" ∷ []))
      (with_field (codes "p") pair no_field)
    ≡ done (some (field bytes_field no_field))
unfolding find_field same_text
get_field_info_by_union_name_example =
    get_field_info_by_union_name_lem 5 (codes "p") (codes "a" ∷ [])
      (with_field (codes "p") pair no_field) (some (field bytes_field no_field))
      ((λ e. cc), (omega arith, tt), ((λ e. cc), (omega arith, tt), tt)) (omega arith)
      (inr (pair, refl, refl))

-- Values that are numbers, the one 7 an array of three.
abbrev numbers : Json ℕ
numbers = record {
  is_int = λ v. true;
  is_int64 = λ v. true;
  is_float = λ v. false;
  is_double = λ v. false;
  is_string = λ v. false;
  is_array = λ v. v == 7;
  get_int = λ v. v;
  get_int64 = λ v. v;
  get_float = λ v. 0;
  get_double = λ v. 0;
  get_string = λ v. [];
  get_array = λ v. if v == 7 then 1 ∷ 2 ∷ 258 ∷ [] else [];
}

abbrev stored_field : List ℕ
stored_field = 1 ∷ 0 ∷ 2 ∷ 0 ∷ 2 ∷ 1 ∷ []

converted : convert_json_field numbers bytes_field 7 ≡ (true, stored_field)
unfolding convert_json_field convert_values convert_single bytes_of
converted = refl

convert_json_field-length_example :
    (is_multi_var bytes_field ≡ false
      → length stored_field ≡ get_field_size (field bytes_field no_field))
    × (is_multi_var bytes_field ≡ true
        → length stored_field
          ≡ get_field_element_size (field bytes_field no_field) * length (numbers.get_array 7))
unfolding width
convert_json_field-length_example =
    convert_json_field-length numbers bytes_field no_field 7 2 stored_field refl (omega arith)
      converted

convert_store_format_example :
    Stores (λ t. 0) (λ t. 0) int32 (codes "305") (value 0 (3 ∷ 0 ∷ 5 ∷ []))
    × Stores (λ t. 0) (λ t. 0) int32 (codes "-305") ((u64_mod - value 0 (3 ∷ 0 ∷ 5 ∷ [])) % u64_mod)
unfolding value
convert_store_format_example =
    convert_store_format_lem (λ t. 0) (λ t. 0) int32 3 (0 ∷ 5 ∷ []) (omega arith) (omega arith)
      (omega arith)

abbrev number_field : List ℕ → Descriptor
number_field name = record {
  name = name;
  number = 1;
  repeated = false;
  cpp_type = cpp_int32;
  field_count = 0;
  extend_type = [];
  extend_flag = [];
  related_table = [];
  related_key = [];
}

abbrev two_fields : Protos
two_fields = with_proto (proto (number_field (codes "id")) no_proto) (
    with_proto (proto (record (number_field (codes "price")) { field_count = 2 }) no_proto)
      no_proto)

parsed_table :
    (t : Table) × (a : Attributes) × (b : Attributes) × (parse_fields 1
        (codes "Ad")
        0
        two_fields
        (record { field_desc = no_field; related_field_map = [] })
      ≡ done (true, t))
    × (find_field (codes "id") t.field_desc ≡ some (field a no_field))
    × (find_field (codes "price") t.field_desc ≡ some (field b no_field))
unfolding parse_fields find_field insert_field
parsed_table = (_, _, _, refl, refl, refl)

small : table_bytes two_fields < u32_mod
unfolding table_bytes parse_field_desc
small = omega arith

parse_fields-Separate_example : Separate parsed_table.1 parsed_table.2
unfolding parsed_table parse_fields
parse_fields-Separate_example =
    parse_fields-Separate 1 (codes "Ad") two_fields parsed_table.0 (codes "id") (codes "price")
      parsed_table.1 parsed_table.2 no_field no_field small parsed_table.3 parsed_table.4
      parsed_table.5 (λ e. cc)

abbrev unique_field : Descriptor
unique_field = record (number_field (codes "u")) {
  cpp_type = cpp_string;
  extend_flag = codes "uniq_string";
}

parse_fields_unique_example :
    (parse_fields 1 (codes "Ad") 0 (with_proto (proto unique_field no_proto) no_proto) empty_table
      ≢ out_of_fuel)
    × (parse_fields 1 (codes "Ad") 0 (with_proto (proto unique_field no_proto) no_proto) empty_table
        ≢ done (true, empty_table))
parse_fields_unique_example =
    parse_fields_unique 1 (codes "Ad") 0 (with_proto (proto unique_field no_proto) no_proto)
      empty_table empty_table
      (inl (record {
        is_text = refl;
        flag = refl;
        fixed = λ e. omega (arith, e);
        own = refl;
        not_related = refl;
      }))
      (omega arith, tt)

-- A JSON object with a key, over the message of the two fields.
abbrev object : List ℕ → Option (List ℕ)
object name =
    if same_text name (codes "key")
    then some (codes "id")
    else if same_text name (codes "proto_file")
    then some (codes "ad.proto")
    else if same_text name (codes "table_name")
    then some (codes "ad")
    else none

abbrev file : List ℕ → List ℕ → Option (List Message)
file path name =
    some (record { table_name = codes "ad"; full_name = codes "Ad"; fields = two_fields } ∷ [])

abbrev new_table : Info
new_table = record {
  name = codes "ad";
  clazz_name = [];
  table_type = structure;
  table_config = [];
  table = empty_table;
}

set_up_table : (info : Info) × (parse_structure_config object file 1 new_table ≡ done (true, info))
unfolding parse_structure_config parse_fields insert_field find_field same_text parse_messages
set_up_table = (_, refl)

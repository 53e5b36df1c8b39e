-- ===== src/Manager/Convert.antt =====
-- `ConvertJsonFieldToString` and `ConvertStoreFormat` of kernel/manager/table_info/field_info.cc: the bytes
-- that a field is stored as.
use ad_index.Base.{
  bytes_of, ℕ, ◌+◌, ◌-◌, ◌*◌, ◌%◌, ◌^◌, Bool, true, false, not, List, [], ◌∷◌, ◌++◌, length, ◌&&◌,
  ◌||◌, ltb, leb, ◌==◌, if◌then◌else◌, u32_mod, u64_mod,
}
use ad_index.Manager.FieldInfo.{
  FieldType, int8, int16, int32, int64, float, double, string, tuple, reference, unig_string,
  unknown_field, Attributes, is_single, is_multi_fix, is_multi_var,
}

-- What is read of a `rapidjson::Value`. Numbers are bit patterns, of 64 bits for an integer, 32 for a
-- float and 64 for a double; `get_string` ends before the first 0.
pub record Json (Value : Type 0) : Type 0 where
  pub is_int : Value → Bool
  pub is_int64 : Value → Bool
  pub is_float : Value → Bool
  pub is_double : Value → Bool
  pub is_string : Value → Bool
  pub is_array : Value → Bool
  pub get_int : Value → ℕ
  pub get_int64 : Value → ℕ
  pub get_float : Value → ℕ
  pub get_double : Value → ℕ
  pub get_string : Value → List ℕ
  pub get_array : Value → List Value

-- What is appended, if the test holds.
abbrev pub append_if : Bool → List ℕ → List ℕ → Bool × List ℕ
append_if test bytes result = if not test then (false, result) else (true, result ++ bytes)

module _ {Value : Type 0} (json : Json Value) where
  open json use {
    is_int, is_int64, is_float, is_double, is_string, is_array, get_int, get_int64, get_float,
    get_double, get_string, get_array,
  }

  -- `ConvertJsonSingleFieldToString`
  unfoldable pub convert_single : FieldType → Value → List ℕ → Bool × List ℕ
  convert_single int8 value result = append_if (is_int value) (bytes_of 1 (get_int value)) result
  convert_single int16 value result = append_if (is_int value) (bytes_of 2 (get_int value)) result
  convert_single int32 value result = append_if (is_int value) (bytes_of 4 (get_int value)) result
  convert_single int64 value result =
      append_if (is_int64 value) (bytes_of 8 (get_int64 value)) result
  convert_single float value result =
      append_if (is_float value) (bytes_of 4 (get_float value)) result
  convert_single double value result =
      append_if (is_double value) (bytes_of 8 (get_double value)) result
  convert_single string value result = append_if (is_string value) (get_string value) result
  convert_single unig_string value result = append_if (is_string value) (get_string value) result
  convert_single tuple value result = (false, result)
  convert_single reference value result = (false, result)
  convert_single unknown_field value result = (false, result)

  -- The loop over the values of an array.
  unfoldable pub convert_values : FieldType → List Value → List ℕ → Bool × List ℕ
  convert_values t [] result = (true, result)
  convert_values t (value ∷ values) result =
      let r = convert_single t value result in
      let rest = convert_values t values r.1 in if not r.0 then (false, r.1) else rest

  -- `ConvertJsonFieldToString`; the length of an array is cut to an int32_t.
  unfoldable pub convert_json_field : Attributes → Value → Bool × List ℕ
  convert_json_field a value =
      if is_single a && not (is_array value)
      then convert_single a.field_type value []
      else if is_multi_fix a && is_array value && length (get_array value) % u32_mod == a.count
          || is_multi_var a && is_array value
      then convert_values a.field_type (get_array value) []
      else (false, [])

-- `isspace`
abbrev pub is_space : ℕ → Bool
is_space c = c == 32 || leb 9 c && leb c 13

abbrev pub is_digit : ℕ → Bool
is_digit c = leb b'0' c && leb c b'9'

-- The value of the digits that a text starts with, after a number.
unfoldable pub digits : ℕ → List ℕ → ℕ
digits n [] = n
digits n (c ∷ text) = let rest = digits (10 * n + (c - b'0')) text in if is_digit c then rest else n

unfoldable pub skip_spaces : List ℕ → List ℕ
skip_spaces [] = []
skip_spaces (c ∷ text) = if is_space c then skip_spaces text else c ∷ text

abbrev pub at_most : ℕ → ℕ → ℕ
at_most limit n = if ltb limit n then limit else n

-- A number with its sign, as the bit pattern of a long; what is out of range becomes the nearest long.
unfoldable pub signed : List ℕ → ℕ
unfolding digits
signed [] = 0
signed (c ∷ text) =
    if c == b'-'
    then (u64_mod - at_most (2 ^ 63) (digits 0 text)) % u64_mod
    else if c == b'+'
    then at_most (2 ^ 63 - 1) (digits 0 text)
    else at_most (2 ^ 63 - 1) (digits 0 (c ∷ text))

unfoldable pub atol : List ℕ → ℕ
unfolding signed skip_spaces
atol text = signed (skip_spaces text)

-- `ConvertStoreFormat`, with `atof`, whose result is the bit pattern of a float or of a double.
module _ (atof_float atof_double : List ℕ → ℕ) where
  unfoldable pub convert_store_format : FieldType → List ℕ → Bool × List ℕ
  convert_store_format int8 text = (true, bytes_of 1 (atol text))
  convert_store_format int16 text = (true, bytes_of 2 (atol text))
  convert_store_format int32 text = (true, bytes_of 4 (atol text))
  convert_store_format int64 text = (true, bytes_of 8 (atol text))
  convert_store_format float text = (true, bytes_of 4 (atof_float text))
  convert_store_format double text = (true, bytes_of 8 (atof_double text))
  convert_store_format string text = (true, text)
  convert_store_format unig_string text = (true, text)
  convert_store_format tuple text = (false, [])
  convert_store_format reference text = (false, [])
  convert_store_format unknown_field text = (false, [])

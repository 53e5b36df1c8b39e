-- ===== src/Manager/Widths.antt =====
-- How many bytes a field is converted to, and which ones those of a decimal number are.
use ad_index.Base.{
  bytes_of, ℕ, zero, suc, ◌+◌, ◌*◌, ◌/◌, ◌%◌, ◌^◌, ◌<◌, ◌≤◌, ◌≡◌, refl, ap, ◌∙◌, inl, inr, true,
  false, not, List, [], ◌∷◌, map, length, length-append, ◌&&◌, ◌||◌, ◌==◌, Option, none, some,
  u32_mod, arith, Bool-cases,
}
use ad_index.Manager.FieldInfo.{
  FieldType, int8, int16, int32, int64, float, double, string, tuple, reference, unig_string,
  unknown_field, Attributes, field, FieldDesc, is_single, is_multi_fix, is_multi_var, type_size,
  sized, get_field_element_size, tuple_size, get_field_size,
}
use ad_index.Manager.Convert.{Json, convert_single, convert_values, convert_json_field}

length-bytes_of : (k n : ℕ) → length (bytes_of k n) ≡ k
unfolding bytes_of
length-bytes_of zero n = refl
length-bytes_of (suc k) n = ap suc (length-bytes_of k (n / 2 ^ 8))

-- The types of numbers, with their sizes.
unfoldable pub width : FieldType → Option ℕ
width int8 = some 1
width int16 = some 2
width int32 = some 4
width int64 = some 8
width float = some 4
width double = some 8
width string = none
width unig_string = none
width tuple = none
width reference = none
width unknown_field = none

-- The field information says the same.
type_size-width :
    (t : FieldType) (w sum : ℕ) → width t ≡ some w → (type_size t sum ≡ w) × (0 < w) × (w ≤ 8)
unfolding width type_size
type_size-width int8 w sum e = ground arith
type_size-width int16 w sum e = ground arith
type_size-width int32 w sum e = ground arith
type_size-width int64 w sum e = ground arith
type_size-width float w sum e = ground arith
type_size-width double w sum e = ground arith
type_size-width string w sum e = ground arith
type_size-width unig_string w sum e = ground arith
type_size-width tuple w sum e = ground arith
type_size-width reference w sum e = ground arith
type_size-width unknown_field w sum e = ground arith

times_at_most : (w count : ℕ) → w ≤ 8 → w * count ≤ 8 * count
times_at_most w count h = grind arith

-- The size of a field of numbers with a fixed number of elements.
sized_fixed :
    (a : Attributes) (size w : ℕ)
    → size ≡ w
    → w ≤ 8
    → a.count < 2 ^ 28
    → is_multi_var a ≡ false
    → sized a size ≡ w * a.count
unfolding sized
sized_fixed a size w e h small fix =
    rw (fix, e) (ground (arith, h, small, times_at_most w a.count h))

module _ {Value : Type 0} (json : Json Value) where
  convert_single-length :
      (t : FieldType) (w : ℕ) (value : Value) (before result : List ℕ)
      → width t ≡ some w
      → convert_single json t value before ≡ (true, result)
      → length result ≡ length before + w
  unfolding convert_single width
  convert_single-length int8 w value before result e h = ground (
    arith,
    length-append before (bytes_of 1 (json.get_int value)),
    length-bytes_of 1 (json.get_int value),
  )
  convert_single-length int16 w value before result e h = ground (
    arith,
    length-append before (bytes_of 2 (json.get_int value)),
    length-bytes_of 2 (json.get_int value),
  )
  convert_single-length int32 w value before result e h = ground (
    arith,
    length-append before (bytes_of 4 (json.get_int value)),
    length-bytes_of 4 (json.get_int value),
  )
  convert_single-length int64 w value before result e h = ground (
    arith,
    length-append before (bytes_of 8 (json.get_int64 value)),
    length-bytes_of 8 (json.get_int64 value),
  )
  convert_single-length float w value before result e h = ground (
    arith,
    length-append before (bytes_of 4 (json.get_float value)),
    length-bytes_of 4 (json.get_float value),
  )
  convert_single-length double w value before result e h = ground (
    arith,
    length-append before (bytes_of 8 (json.get_double value)),
    length-bytes_of 8 (json.get_double value),
  )
  convert_single-length string w value before result e h = ground arith
  convert_single-length unig_string w value before result e h = ground arith
  convert_single-length tuple w value before result e h = ground arith
  convert_single-length reference w value before result e h = ground arith
  convert_single-length unknown_field w value before result e h = ground arith

  convert_values-length :
      (t : FieldType) (w : ℕ) (values : List Value) (before result : List ℕ)
      → width t ≡ some w
      → convert_values json t values before ≡ (true, result)
      → length result ≡ length before + w * length values
  unfolding convert_values
  convert_values-length t w [] before result e h =
      let same : before ≡ result = ground (arith, h) in omega (arith, ap length same)
  convert_values-length t w (value ∷ values) before result e h =
      elim (Bool-cases (convert_single json t value before).0) [
        | inl goes ↦
            let r = (convert_single json t value before).1 in
            let one = convert_single-length t w value before r e (ground (arith, goes)) in
            let more = convert_values-length t w values r result e (ground (arith, h, goes)) in
            grind (arith, one, more)
        | inr stops ↦ absurd (ground (arith, h, stops))
      ]

  -- A field of numbers that is converted takes up the bytes that `GetFieldSize` says, if it has a fixed
  -- number of elements, and if not, those of its elements.
  pub convert_json_field-length :
      (a : Attributes) (map : FieldDesc) (value : Value) (w : ℕ) (result : List ℕ)
      → width a.field_type ≡ some w
      → length (json.get_array value) < 2 ^ 28
      → convert_json_field json a value ≡ (true, result)
      → (is_multi_var a ≡ false → length result ≡ get_field_size (field a map))
        × (is_multi_var a ≡ true
            → length result ≡ get_field_element_size (field a map) * length (json.get_array value))
  unfolding convert_json_field get_field_size get_field_element_size sized
  convert_json_field-length a map value w result e small h =
      let (size, positive, at_most) = type_size-width a.field_type w (tuple_size 0 map) e in
      elim (Bool-cases (is_single a && not (json.is_array value))) [
        | inl single ↦
            let one =
              convert_single-length a.field_type w value [] result e (ground (arith, h, single)) in
            let count : a.count ≡ 1 = ground (arith, single) in
            (
              (λ fix.
                  one
                  ∙ omega (
                    arith,
                    count,
                    sized_fixed a _ w size at_most (omega (arith, count)) fix,
                    ap (λ n. w * n) count,
                  )),
              λ var. absurd (ground (arith, count, var)),
            )
        | inr more ↦
            elim (Bool-cases (
              is_multi_fix a
                && json.is_array value
                && length (json.get_array value) % u32_mod == a.count
              || is_multi_var a && json.is_array value)) [
                | inl values ↦
                    let all =
                      convert_values-length a.field_type w (json.get_array value) [] result e
                        (ground (arith, h, more, values)) in
                    (
                      (λ fix.
                          let count : a.count ≡ length (json.get_array value) =
                            ground (arith, values, fix, small) in
                          omega (
                            arith,
                            all,
                            sized_fixed a _ w size at_most (omega (arith, count, small)) fix,
                            ap (λ n. w * n) count,
                          )),
                      λ var. omega (arith, all, ap (λ n. n * length (json.get_array value)) size),
                    )
                | inr neither ↦ absurd (ground (arith, h, more, neither))
              ]
      ]

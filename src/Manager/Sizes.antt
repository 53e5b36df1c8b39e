-- ===== src/Manager/Sizes.antt =====
-- The sizes of fields against their definition on numbers of any size.
use ad_index.Base.{
  ℕ, zero, suc, ◌+◌, ◌*◌, ◌%◌, ◌^◌, ◌<◌, ◌≤◌, ◌≡◌, ◌≢◌, refl, ◌==◌, if◌then◌else◌, Option, none,
  some, u32_mod, arith, Bool-cases, inl, inr,
}
use ad_index.Manager.FieldInfo.{
  FieldType, int8, int16, int32, int64, float, double, string, tuple, reference, unig_string,
  unknown_field, Attributes, minus_one, FieldInfo, field, FieldDesc, no_field, with_field,
  attributes, is_multi_var, type_size, sized, get_field_element_size, tuple_size, get_field_size,
}

-- The size of a field, if the field is known all through: 8 bytes for a variable number of elements,
-- else the elements' sizes, each the sum of its fields' if it is a tuple.
abbrev pub times : ℕ → Option ℕ → Option ℕ
times count none = none
times count (some element) = some (element * count)

abbrev pub plus : Option ℕ → Option ℕ → Option ℕ
plus none b = none
plus (some a) none = none
plus (some a) (some b) = some (a + b)

abbrev pub outer : Attributes → Option ℕ → Option ℕ
outer a element = if is_multi_var a then some 8 else times a.count element

unfoldable pub type_bytes : FieldType → Option ℕ → Option ℕ
type_bytes int8 sum = some 1
type_bytes int16 sum = some 2
type_bytes int32 sum = some 4
type_bytes int64 sum = some 8
type_bytes float sum = some 4
type_bytes double sum = some 8
type_bytes string sum = some 8
type_bytes unig_string sum = some 8
type_bytes tuple sum = sum
type_bytes reference sum = some 0
type_bytes unknown_field sum = none

unfoldable mutual
  unfolding type_bytes

  pub element_bytes : FieldInfo → Option ℕ
  element_bytes (field a map) = type_bytes a.field_type (map_bytes map)

  pub map_bytes : FieldDesc → Option ℕ
  map_bytes no_field = some 0
  map_bytes (with_field key (field a map) desc) =
      plus (outer a (element_bytes (field a map))) (map_bytes desc)

unfoldable pub field_bytes : FieldInfo → Option ℕ
field_bytes info = outer (attributes info) (element_bytes info)

abbrev pub IsSize : Option ℕ → ℕ → Type 0
IsSize none size = size ≡ minus_one
IsSize (some n) size = n < 2 ^ 31 → size ≡ n

le_times : (n count : ℕ) → count ≢ 0 → n ≤ n * count
le_times n zero h = absurd (h refl)
le_times n (suc count) h = grind arith

sized-IsSize :
    (a : Attributes) (b : Option ℕ) (element : ℕ)
    → IsSize b element
    → IsSize (outer a b) (sized a element)
unfolding sized
sized-IsSize a none element h = elim (Bool-cases (is_multi_var a)) [
  | inl var ↦ rw var (λ l. refl)
  | inr fix ↦ rw fix (ground (arith, h))
]
sized-IsSize a (some n) element h = elim (Bool-cases (is_multi_var a)) [
  | inl var ↦ rw var (λ l. refl)
  | inr fix ↦ rw fix (λ l.
      let small : n < 2 ^ 31 = omega (arith, l, le_times n a.count (ground (arith, fix))) in
      ground (arith, h small, l, small))
]

abbrev Adds : ℕ → Option ℕ → ℕ → Type 0
Adds size none total = total ≡ minus_one
Adds size (some n) total = size + n < 2 ^ 31 → total ≡ size + n

tuple_step :
    (size local_size rest : ℕ) (b c : Option ℕ)
    → IsSize b local_size
    → Adds ((size + local_size) % u32_mod) c rest
    → Adds size (plus b c) (if local_size == minus_one then minus_one else rest)
tuple_step size local_size rest none c h k = ground (arith, h)
tuple_step size local_size rest (some n) none h k = ground (arith, k)
tuple_step size local_size rest (some n) (some r) h k = λ l. ground (arith, h (omega (arith, l)), k)

Adds→IsSize : (b : Option ℕ) (size : ℕ) → Adds 0 b size → IsSize b size
Adds→IsSize none size h = h
Adds→IsSize (some n) size h = λ l. let e = h (omega (arith, l)) in omega (arith, e)

type_size-IsSize :
    (t : FieldType) (b : Option ℕ) (sum : ℕ)
    → IsSize b sum
    → IsSize (type_bytes t b) (type_size t sum)
unfolding type_bytes type_size
type_size-IsSize int8 b sum h = λ l. refl
type_size-IsSize int16 b sum h = λ l. refl
type_size-IsSize int32 b sum h = λ l. refl
type_size-IsSize int64 b sum h = λ l. refl
type_size-IsSize float b sum h = λ l. refl
type_size-IsSize double b sum h = λ l. refl
type_size-IsSize string b sum h = λ l. refl
type_size-IsSize unig_string b sum h = λ l. refl
type_size-IsSize tuple b sum h = h
type_size-IsSize reference b sum h = λ l. refl
type_size-IsSize unknown_field b sum h = refl

mutual
  unfolding element_bytes get_field_element_size

  get_field_element_size-IsSize :
      (info : FieldInfo) → IsSize (element_bytes info) (get_field_element_size info)
  get_field_element_size-IsSize (field a map) =
      type_size-IsSize a.field_type (map_bytes map) (tuple_size 0 map)
        (Adds→IsSize (map_bytes map) _ (tuple_size-Adds 0 map))

  tuple_size-Adds :
      (size : ℕ) (desc : FieldDesc) → Adds size (map_bytes desc) (tuple_size size desc)
  tuple_size-Adds size no_field = λ l. omega arith
  tuple_size-Adds size (with_field key (field a map) desc) =
      tuple_step size _ _ (outer a (element_bytes (field a map))) (map_bytes desc)
        (sized-IsSize a (element_bytes (field a map)) _
          (get_field_element_size-IsSize (field a map)))
        (tuple_size-Adds _ desc)

-- `GetFieldSize` is -1 if a type that is not known occurs in the field, outside those with a variable
-- number of elements; else it is the size of the field in bytes, if that is below 2^31.
pub get_field_size-IsSize : (info : FieldInfo) → IsSize (field_bytes info) (get_field_size info)
unfolding get_field_size field_bytes
get_field_size-IsSize info =
    sized-IsSize (attributes info) (element_bytes info) _ (get_field_element_size-IsSize info)

-- ===== src/Manager/Decimal.antt =====
-- The bytes that `ConvertStoreFormat` makes of a decimal number.
use mathlib.Core.Path.{subst}
use ad_index.Base.{
  bytes_of, number, ℕ, ◌+◌, ◌-◌, ◌*◌, ◌%◌, ◌^◌, ◌<◌, ◌≡◌, refl, ap, true, List, [], ◌∷◌, length,
  u64_mod, arith,
}
use ad_index.Manager.FieldInfo.{
  FieldType, int8, int16, int32, int64, float, double, string, tuple, reference, unig_string,
  unknown_field,
}
use ad_index.Manager.Convert.{digits, skip_spaces, signed, atol, convert_store_format}

-- The number that digits stand for, after another.
unfoldable pub value : ℕ → List ℕ → ℕ
value n [] = n
value n (d ∷ ds) = value (10 * n + d) ds

abbrev pub Digits : List ℕ → Type 0
Digits [] = Unit {0}
Digits (d ∷ ds) = (d < 10) × Digits ds

abbrev pub written : List ℕ → List ℕ
written [] = []
written (d ∷ ds) = (b'0' + d) ∷ written ds

-- How many bytes an integer type has, and 0 for the other types.
abbrev pub int_width : FieldType → ℕ
int_width int8 = 1
int_width int16 = 2
int_width int32 = 4
int_width int64 = 8
int_width float = 0
int_width double = 0
int_width string = 0
int_width tuple = 0
int_width reference = 0
int_width unig_string = 0
int_width unknown_field = 0

digits-written : (n : ℕ) (ds : List ℕ) → Digits ds → digits n (written ds) ≡ value n ds
unfolding digits value
digits-written n [] h = refl
digits-written n (d ∷ ds) h = ground (
  arith,
  h.0,
  digits-written (10 * n + (b'0' + d - b'0')) ds h.1,
  ap (λ k. value k ds) {x = 10 * n + (b'0' + d - b'0')} {y = 10 * n + d} (omega arith),
)

atol-written :
    (d : ℕ) (ds : List ℕ)
    → Digits (d ∷ ds)
    → value 0 (d ∷ ds) < 2 ^ 63
    → atol (written (d ∷ ds)) ≡ value 0 (d ∷ ds)
unfolding atol signed skip_spaces
atol-written d ds h small = ground (arith, digits-written 0 (d ∷ ds) h, h.0, small)

atol-minus :
    (d : ℕ) (ds : List ℕ)
    → Digits (d ∷ ds)
    → value 0 (d ∷ ds) < 2 ^ 63
    → atol (b'-' ∷ written (d ∷ ds)) ≡ (u64_mod - value 0 (d ∷ ds)) % u64_mod
unfolding atol signed skip_spaces
atol-minus d ds h small = ground (arith, digits-written 0 (d ∷ ds) h, small)

module _ (atof_float atof_double : List ℕ → ℕ) where
  abbrev pub Stores : FieldType → List ℕ → ℕ → Type 0
  Stores t text n =
      (bytes : List ℕ) × (convert_store_format atof_float atof_double t text ≡ (true, bytes))
      × (length bytes ≡ int_width t)
      × (number bytes ≡ n % 2 ^ (8 * int_width t))

  format_int : (t : FieldType) (text : List ℕ) → 0 < int_width t → Stores t text (atol text)
  unfolding convert_store_format bytes_of number
  format_int int8 text h = (_, refl, refl, omega arith)
  format_int int16 text h = (_, refl, refl, omega arith)
  format_int int32 text h = (_, refl, refl, omega arith)
  format_int int64 text h = (_, refl, refl, omega arith)
  format_int float text h = absurd (omega (arith, h))
  format_int double text h = absurd (omega (arith, h))
  format_int string text h = absurd (omega (arith, h))
  format_int tuple text h = absurd (omega (arith, h))
  format_int reference text h = absurd (omega (arith, h))
  format_int unig_string text h = absurd (omega (arith, h))
  format_int unknown_field text h = absurd (omega (arith, h))

  -- The decimal digits of a number below 2^63, or those behind a minus sign, are stored in a field of an
  -- integer type as the lowest bytes of the number, or of its opposite.
  pub convert_store_format_lem :
      (t : FieldType) (d : ℕ) (ds : List ℕ)
      → 0 < int_width t
      → Digits (d ∷ ds)
      → value 0 (d ∷ ds) < 2 ^ 63
      → Stores t (written (d ∷ ds)) (value 0 (d ∷ ds))
        × Stores t (b'-' ∷ written (d ∷ ds)) ((u64_mod - value 0 (d ∷ ds)) % u64_mod)
  convert_store_format_lem t d ds h all small = (
    subst (Stores t (written (d ∷ ds))) (atol-written d ds all small)
        (format_int t (written (d ∷ ds)) h),
    subst (Stores t (b'-' ∷ written (d ∷ ds))) (atol-minus d ds all small)
        (format_int t (b'-' ∷ written (d ∷ ds)) h),
  )

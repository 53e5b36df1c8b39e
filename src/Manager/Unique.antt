-- ===== src/Manager/Unique.antt =====
-- What becomes of a field that is marked "uniq_string".
use mathlib.Core.Path.{subst}
use ad_index.Base.{
  inl, inr, ℕ, ◌+◌, ◌%◌, ◌≡◌, ◌≢◌, ◌⊎◌, inl, inr, sym, Bool, true, false, not, List, [], ◌∷◌, ◌&&◌,
  ◌==◌, if◌then◌else◌, u32_mod, codes, Run, done, fault, out_of_fuel, if_ind, bind_ind, option_ind,
  arith,
}
use ad_index.Utils.Text.{is_empty, split}
use ad_index.Manager.FieldInfo.{
  FieldType, unknown_field, Attributes, minus_one, attributes, sized, get_field_element_size,
  get_field_size, type_size, insert_field,
}
use ad_index.Manager.Names.{get_field_info_by_union_name}
use ad_index.Manager.Ending.{Enough, parse_fields-Ends}
use ad_index.Manager.Layout.{table_attributes}
use ad_index.Manager.TableInfo.{
  cpp_string, Descriptor, proto, Protos, no_proto, with_proto, parsed_type, parsed_count,
  is_builtin, named, parse_field_desc, Table, parse_fields,
}

-- A text field with the flag, with one element or a fixed number, that the table takes in itself.
pub record IsUnique (d : Descriptor) : Type 0 where
  pub is_text : d.cpp_type ≡ cpp_string
  pub flag : d.extend_flag ≡ codes "uniq_string"
  pub fixed : parsed_count d ≢ 0
  pub own : is_builtin d ≡ false
  pub not_related : (not (is_empty d.related_table) && not (is_empty d.related_key)) ≡ false

abbrev pub HasUnique : Protos → Type 0
HasUnique no_proto = ⊥
HasUnique (with_proto (proto d protos) rest) = IsUnique d ⊎ HasUnique rest

parsed_type-unknown :
    (d : Descriptor)
    → d.cpp_type ≡ cpp_string
    → d.extend_flag ≡ codes "uniq_string"
    → parsed_type d ≡ unknown_field
unfolding parsed_type
parsed_type-unknown d t f = ground (arith, t, f)

sized-unknown :
    (a : Attributes) (t : FieldType) (sum : ℕ)
    → a.count ≢ 0
    → t ≡ unknown_field
    → sized a (type_size t sum) ≡ minus_one
unfolding sized type_size
sized-unknown a t sum c e =
    subst (λ k. sized a (type_size k sum) ≡ minus_one) (sym e) (ground (arith, c))

unknown_size :
    (d : Descriptor) (protos : Protos) (a : Attributes)
    → IsUnique d
    → (attributes (parse_field_desc (proto d protos) a)).size ≡ minus_one
unfolding parse_field_desc get_field_size get_field_element_size
unknown_size d protos a u =
    sized-unknown (named d a) (parsed_type d) _ u.fixed (parsed_type-unknown d u.is_text u.flag)

size_test : (size : ℕ) → size ≡ minus_one → (size == minus_one) ≡ true
size_test size e = ground (arith, e)

if_true {ℓ} :
    {A : Type ℓ} (P : A → Type 0) (test : Bool) (x y : A)
    → test ≡ true
    → P x
    → P (if test then x else y)
if_true P true x y e h = h
if_true P false x y e h = absurd (ground (arith, e))

if_false {ℓ} :
    {A : Type ℓ} (P : A → Type 0) (test : Bool) (x y : A)
    → test ≡ false
    → P y
    → P (if test then x else y)
if_false P true x y e h = absurd (ground (arith, e))
if_false P false x y e h = h

abbrev Fails : Run (Bool × Table) → Type 0
Fails r = (t : Table) → r ≢ done (true, t)

Fails-false : (t : Table) → Fails (done (false, t))
Fails-false t t' e = ground (arith, e)

Fails-fault : Fails fault
Fails-fault t e = ground (arith, e)

Fails-out_of_fuel : Fails out_of_fuel
Fails-out_of_fuel t e = ground (arith, e)

parse_fields-Fails :
    (fuel : ℕ) (full_name : List ℕ) (total : ℕ) (protos : Protos) (t t' : Table)
    → HasUnique protos
    → parse_fields fuel full_name total protos t ≢ done (true, t')
unfolding parse_fields
parse_fields-Fails fuel full_name total no_proto t t' h = absurd h
parse_fields-Fails fuel full_name total (with_proto (proto d protos) rest) t t' (inl u) =
    if_false Fails (is_builtin d) _ _ u.own
      (if_false Fails (not (is_empty d.related_table) && not (is_empty d.related_key)) _ _
        u.not_related
        (if_true Fails _ _ _
          (size_test _ (unknown_size d protos (table_attributes full_name total) u))
          (Fails-false t)))
      t'
parse_fields-Fails fuel full_name total (with_proto (proto d protos) rest) t t' (inr h) =
    let info = parse_field_desc (proto d protos) (table_attributes full_name total) in
    let behind : ℕ = (total + (attributes info).size) % u32_mod in
    let more : Table = record t { field_desc = insert_field d.name info t.field_desc } in
    if_ind Fails (is_builtin d) _ _ (λ t''. parse_fields-Fails fuel full_name total rest t t'' h)
      (if_ind Fails (not (is_empty d.related_table) && not (is_empty d.related_key)) _ _
        (bind_ind Fails (split fuel d.related_key (b'.' ∷ []) true) _ Fails-fault Fails-out_of_fuel
          (λ sections.
            bind_ind Fails (get_field_info_by_union_name fuel d.related_key t.field_desc) _
              Fails-fault Fails-out_of_fuel
              (λ found.
                option_ind Fails found _ _
                  (λ t''. parse_fields-Fails fuel full_name total rest t t'' h)
                  (λ info t''. parse_fields-Fails fuel full_name total rest _ t'' h))))
        (if_ind Fails ((attributes info).size == minus_one) (done (false, t))
          (parse_fields fuel full_name behind rest more) (Fails-false t)
          (λ t''. parse_fields-Fails fuel full_name behind rest more t'' h)))
      t'

-- A message with such a field cannot be taken in: with fuel for each related key, the loop over its
-- fields ends, and not with true.
pub parse_fields_unique :
    (fuel : ℕ) (full_name : List ℕ) (total : ℕ) (protos : Protos) (t t' : Table)
    → HasUnique protos
    → Enough fuel protos
    → (parse_fields fuel full_name total protos t ≢ out_of_fuel)
      × (parse_fields fuel full_name total protos t ≢ done (true, t'))
parse_fields_unique fuel full_name total protos t t' h enough = (
  parse_fields-Ends fuel full_name total protos t enough,
  parse_fields-Fails fuel full_name total protos t t' h,
)

-- ===== src/Manager/Layout.antt =====
-- Where the fields of a table lie.
use mathlib.Core.Path.{subst}
use ad_index.Base.{
  ℕ, ◌+◌, ◌%◌, ◌<◌, ◌≤◌, ◌≡◌, ◌≢◌, refl, sym, ap, ◌∙◌, ◌⊎◌, inl, inr, Bool, true, false, not, List,
  [], ◌∷◌, ◌&&◌, some, u32_mod, same_text, same_text_iff, Run, done, fault, out_of_fuel, if_ind,
  bind_ind, option_ind, arith, Bool-cases,
}
use ad_index.Utils.Text.{is_empty, split}
use ad_index.Manager.FieldInfo.{
  Attributes, new_attributes, field, FieldDesc, no_field, with_field, attributes, find_field,
  insert_field, get_field_size, get_field_element_size, sized,
}
use ad_index.Manager.Names.{get_field_info_by_union_name}
use ad_index.Manager.TableInfo.{
  Descriptor, proto, Protos, no_proto, with_proto, is_builtin, parse_field_desc, change_field,
  set_related, Table, parse_fields,
}

-- The fields lie one behind the other between two offsets.
abbrev pub Laid : FieldDesc → ℕ → ℕ → Type 0
Laid no_field start end = start ≤ end
Laid (with_field key (field a map) desc) start end =
    (start ≤ a.offset) × Laid desc (a.offset + a.size) end

Laid-le :
    (desc : FieldDesc) (start start' end end' : ℕ)
    → start' ≤ start
    → end ≤ end'
    → Laid desc start end
    → Laid desc start' end'
Laid-le no_field start start' end end' h k l = omega (arith, h, k, l)
Laid-le (with_field key (field a map) desc) start start' end end' h k l =
    (omega (arith, h, l.0), Laid-le desc _ _ end end' (omega arith) k l.1)

insert_field-Laid :
    (key : List ℕ) (a : Attributes) (map desc : FieldDesc) (start end : ℕ)
    → end ≡ a.offset
    → Laid desc start end
    → Laid (insert_field key (field a map) desc) start (a.offset + a.size)
unfolding insert_field
insert_field-Laid key a map no_field start end e l = (omega (arith, e, l), omega arith)
insert_field-Laid key a map (with_field k (field b m) desc) start end e l =
    elim (Bool-cases (same_text k key)) [
      | inl same ↦ rw same (l.0, Laid-le desc _ _ end _ (omega arith) (omega (arith, e)) l.1)
      | inr other ↦ rw other (l.0, insert_field-Laid key a map desc _ end e l.1)
    ]

change_field-Laid :
    (sections : List (List ℕ)) (f : Attributes → Attributes)
    → ((a : Attributes) → ((f a).offset ≡ a.offset) × ((f a).size ≡ a.size))
    → (desc : FieldDesc) (start end : ℕ) → Laid desc start end
    → Laid (change_field sections f desc) start end
unfolding change_field
change_field-Laid sections f keeps no_field start end l = l
change_field-Laid [] f keeps (with_field key info desc) start end l = l
change_field-Laid (section ∷ []) f keeps (with_field key (field a map) desc) start end l =
    elim (Bool-cases (same_text key section)) [
      | inl same ↦ rw (same, (keeps a).0, (keeps a).1) l
      | inr other ↦ rw other (l.0, change_field-Laid (section ∷ []) f keeps desc _ end l.1)
    ]
change_field-Laid (section ∷ next ∷ sections) f keeps (with_field key (field a map) desc) start end
      l =
    elim (Bool-cases (same_text key section)) [
      | inl same ↦ rw same l
      | inr other ↦
          rw other (l.0, change_field-Laid (section ∷ next ∷ sections) f keeps desc _ end l.1)
    ]

-- The bytes of the fields that the table itself takes in.
unfoldable pub table_bytes : Protos → ℕ
table_bytes no_proto = 0
table_bytes (with_proto (proto d protos) rest) =
    (attributes (parse_field_desc (proto d protos) new_attributes)).size + table_bytes rest

abbrev pub table_attributes : List ℕ → ℕ → Attributes
table_attributes full_name total = record new_attributes { clazz_name = full_name; offset = total }

pub parsed_lem :
    (d : Descriptor) (protos : Protos) (full_name : List ℕ) (total : ℕ)
    → (a : Attributes) × (map : FieldDesc) × (parse_field_desc
          (proto d protos)
          (table_attributes full_name total)
        ≡ field a map)
      × (a.offset ≡ total)
      × (a.size ≡ (attributes (parse_field_desc (proto d protos) new_attributes)).size)
unfolding parse_field_desc get_field_size get_field_element_size sized
parsed_lem d protos full_name total = (_, _, refl, refl, refl)

-- If the run says true, the fields lie before an offset.
abbrev Ends : ℕ → Run (Bool × Table) → Type 0
Ends end r = (t : Table) → r ≡ done (true, t) → Laid t.field_desc 0 end

Ends-le : (end end' : ℕ) (r : Run (Bool × Table)) → end ≤ end' → Ends end r → Ends end' r
Ends-le end end' r h k t e = Laid-le t.field_desc 0 0 end end' (omega arith) h (k t e)

Ends-fault : (end : ℕ) → Ends end fault
Ends-fault end = λ t e. absurd (ground (arith, e))

Ends-out_of_fuel : (end : ℕ) → Ends end out_of_fuel
Ends-out_of_fuel end = λ t e. absurd (ground (arith, e))

Ends-false : (end : ℕ) (t : Table) → Ends end (done (false, t))
Ends-false end t = λ t' e. absurd (ground (arith, e))

set_related-Laid :
    (table : List ℕ) (sections : List (List ℕ)) (t : Table) (end : ℕ)
    → Laid t.field_desc 0 end
    → Laid (set_related table sections t).field_desc 0 end
unfolding set_related
set_related-Laid table sections t end l =
    change_field-Laid sections (λ a. record a { related_table_name = table; count = 1 })
      (λ a. (refl, refl)) t.field_desc 0 end l

-- The fields of one message.
parse_fields-Ends :
    (fuel : ℕ) (full_name : List ℕ) (total : ℕ) (protos : Protos) (t : Table)
    → total + table_bytes protos < u32_mod
    → Laid t.field_desc 0 total
    → Ends (total + table_bytes protos) (parse_fields fuel full_name total protos t)
unfolding parse_fields table_bytes parsed_lem
parse_fields-Ends fuel full_name total no_proto t small l = λ t' h.
    let same : t.field_desc ≡ t'.field_desc = ground (arith, h) in
    Laid-le t'.field_desc 0 0 total _ (omega arith) (omega arith)
      (subst (λ x. Laid x 0 total) same l)
parse_fields-Ends fuel full_name total (with_proto (proto d protos) rest) t small l =
    let E = total + table_bytes (with_proto (proto d protos) rest) in
    let skipped = λ (t' : Table). λ (k : Laid t'.field_desc 0 total).
      Ends-le (total + table_bytes rest) E _ (omega arith)
        (parse_fields-Ends fuel full_name total rest t' (omega (arith, small)) k) in
    let (a, map, parsed, offset, size) = parsed_lem d protos full_name total in
    let end : (total + a.size) % u32_mod ≡ a.offset + a.size = omega (arith, offset, size, small) in
    if_ind (Ends E) (is_builtin d) _ _ (skipped t l) (
      if_ind (Ends E) (not (is_empty d.related_table) && not (is_empty d.related_key)) _ _
        (bind_ind (Ends E) (split fuel d.related_key (b'.' ∷ []) true) _ (Ends-fault E)
          (Ends-out_of_fuel E)
          (λ sections.
            bind_ind (Ends E) (get_field_info_by_union_name fuel d.related_key t.field_desc) _
              (Ends-fault E) (Ends-out_of_fuel E)
              (λ found.
                option_ind (Ends E) found _ _ (skipped t l)
                  (λ info. skipped _ (set_related-Laid d.related_table sections t total l)))))
        (if_ind (Ends E) _ _ _ (Ends-false E t) (
          Ends-le ((total + a.size) % u32_mod + table_bytes rest) E _
            (omega (arith, end, offset, size))
            (parse_fields-Ends fuel full_name ((total + a.size) % u32_mod) rest
              (record t { field_desc = insert_field d.name (field a map) t.field_desc })
              (omega (arith, end, offset, size, small))
              (subst (Laid (insert_field d.name (field a map) t.field_desc) 0) (sym end)
                (insert_field-Laid d.name a map t.field_desc 0 total (sym offset) l))))))

-- A field lies from its offset on.
Laid-find :
    (key : List ℕ) (desc : FieldDesc) (start end : ℕ) (a : Attributes) (map : FieldDesc)
    → Laid desc start end
    → find_field key desc ≡ some (field a map)
    → start ≤ a.offset
unfolding find_field
Laid-find key no_field start end a map l e = absurd (ground (arith, e))
Laid-find key (with_field k (field b m) desc) start end a map l e =
    elim (Bool-cases (same_text k key)) [
      | inl same ↦ ground (arith, e, same, l.0)
      | inr other ↦
          omega (arith, l.0, Laid-find key desc _ end a map l.1 (ground (arith, e, other)))
    ]

-- The bytes of two fields are apart.
abbrev pub Separate : Attributes → Attributes → Type 0
Separate a b = (a.offset + a.size ≤ b.offset) ⊎ (b.offset + b.size ≤ a.offset)

Laid-Separate :
    (key key' : List ℕ) (desc : FieldDesc) (start end : ℕ) (a b : Attributes) (map map' : FieldDesc)
    → Laid desc start end
    → find_field key desc ≡ some (field a map)
    → find_field key' desc ≡ some (field b map')
    → key ≢ key'
    → Separate a b
unfolding find_field
Laid-Separate key key' no_field start end a b map map' l e e' n = absurd (ground (arith, e))
Laid-Separate key key' (with_field k (field c m) desc) start end a b map map' l e e' n =
    elim (Bool-cases (same_text k key)) [
      | inl first ↦ elim (Bool-cases (same_text k key')) [
        | inl second ↦
            absurd (n (sym ((same_text_iff k key).0 first) ∙ (same_text_iff k key').0 second))
        | inr later ↦
            let at : c ≡ a = ground (arith, e, first) in
            inl (
              omega (
                arith,
                ap (λ x. x.offset + x.size) at,
                Laid-find key' desc _ end b map' l.1 (ground (arith, e', later)),
              ))
      ]
      | inr later ↦ elim (Bool-cases (same_text k key')) [
        | inl second ↦
            let at : c ≡ b = ground (arith, e', second) in
            inr (
              omega (
                arith,
                ap (λ x. x.offset + x.size) at,
                Laid-find key desc _ end a map l.1 (ground (arith, e, later)),
              ))
        | inr both ↦
            Laid-Separate key key' desc _ end a b map map' l.1 (ground (arith, e, later))
              (ground (arith, e', both)) n
      ]
    ]

-- The fields that are taken from one message into an empty table lie apart, if all their sizes together
-- fit 32 bits.
pub parse_fields-Separate :
    (fuel : ℕ) (full_name : List ℕ) (protos : Protos) (t : Table) (key key' : List ℕ)
    (a b : Attributes) (map map' : FieldDesc)
    → table_bytes protos < u32_mod
    → parse_fields fuel full_name 0 protos
        (record { field_desc = no_field; related_field_map = [] })
      ≡ done (true, t)
    → find_field key t.field_desc ≡ some (field a map)
    → find_field key' t.field_desc ≡ some (field b map')
    → key ≢ key'
    → Separate a b
parse_fields-Separate fuel full_name protos t key key' a b map map' small h e e' n =
    let l =
      parse_fields-Ends fuel full_name 0 protos
        (record { field_desc = no_field; related_field_map = [] }) (omega (arith, small))
        (omega arith) t h in
    Laid-Separate key key' t.field_desc 0 _ a b map map' l e e' n

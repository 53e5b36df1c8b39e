-- ===== src/Manager/Checked.antt =====
-- What a table that its configuration sets up has.
use mathlib.Core.Path.{subst}
use ad_index.Base.{
  ℕ, Bool, true, false, List, [], ◌∷◌, ◌≡◌, inl, inr, refl, sym, ◌&&◌, Option, none, some, codes,
  same_text_iff, Run, done, fault, out_of_fuel, ◌>>=◌, read, arith, Bool-cases,
}
use ad_index.Manager.FieldInfo.{find_field}
use ad_index.Manager.TableInfo.{Table}
use ad_index.Manager.Tables.{
  TableType, kkv, Config, slashes, clazz_of, empty_table, find_config, assign_config, Info,
  new_info, create_from_xml, parse_table_xml, check_field_desc, Message, parse_table_config,
  parse_structure_config, check_key,
}

abbrev pub has_field : List ℕ → Table → Bool
has_field name t = elim (find_field name t.field_desc) [ none ↦ false | some f ↦ true ]

-- What is set up for an element of a type, with a configuration.
abbrev set_up : TableType → List ℕ → Option (List ℕ) → Config → Info
set_up t name clazz config = record {
  name = name;
  clazz_name = slashes (clazz_of clazz);
  table_type = t;
  table_config = config;
  table = empty_table;
}

-- An element of type "kkv" with its three names is set up, and the check says whether its table has the
-- three fields.
pub check_field_desc-kkv :
    (attribute : List ℕ → Option (List ℕ)) (name pkey skey value : List ℕ)
    → attribute (codes "name") ≡ some name
    → attribute (codes "type") ≡ some (codes "kkv")
    → attribute (codes "pkey") ≡ some pkey
    → attribute (codes "skey") ≡ some skey
    → attribute (codes "value") ≡ some value
    → (info info' : Info) × (create_from_xml attribute ≡ some info)
      × (parse_table_xml attribute info ≡ (true, info'))
      × ((t : Table)
          → check_field_desc (record info' { table = t })
            ≡ done (has_field pkey t && has_field skey t && has_field value t))
unfolding create_from_xml parse_table_xml check_field_desc
check_field_desc-kkv attribute name pkey skey value n t p s v =
    let config : Config = (codes "name", name) ∷ (codes "type", codes "kkv") ∷ [] in
    let config' : Config =
      (codes "name", name)
      ∷ (codes "type", codes "kkv")
      ∷ (codes "pkey", pkey)
      ∷ (codes "skey", skey)
      ∷ (codes "value", value)
      ∷ [] in
    (
      set_up kkv name (attribute (codes "clazz")) config,
      set_up kkv name (attribute (codes "clazz")) config',
      rw (n, create_from_xml) (rw (t, new_info) refl),
      ground (arith, p, s, v),
      λ t. ground arith,
    )

find_config-assign :
    (key v : List ℕ) (config : Config) → find_config key (assign_config key v config) ≡ some v
unfolding find_config assign_config
find_config-assign key v [] = ground (arith, same_text_iff key key)
find_config-assign key v ((k, w) ∷ config) =
    ground (arith, same_text_iff k key, find_config-assign key v config)

bind_done {ℓ κ} :
    {A : Type ℓ} {B : Type κ} (m : Run A) (f : A → Run B) (b : B)
    → (m >>= f) ≡ done b
    → (a : A) × (m ≡ done a) × (f a ≡ done b)
bind_done (done a) f b h = (a, refl, h)
bind_done fault f b h = absurd (ground (arith, h))
bind_done out_of_fuel f b h = absurd (ground (arith, h))

abbrev keyed : List ℕ → Info → Info
keyed key i = record i { table_config = assign_config (codes "key") key i.table_config }

check_key-keyed :
    (key : List ℕ) (i info' : Info)
    → check_key (some key) i ≡ done (true, info')
    → (find_config (codes "key") info'.table_config ≡ some key) × (has_field key info'.table ≡ true)
unfolding check_key
check_key-keyed key i info' h =
    let at : find_config (codes "key") (keyed key i).table_config ≡ some key =
      find_config-assign (codes "key") key i.table_config in
    let (name, got, ended) =
      bind_done (read (find_config (codes "key") (keyed key i).table_config)) _ (true, info') h in
    let same : keyed key i ≡ info' = ground (arith, ended) in
    let named : key ≡ name = ground (arith, got, at) in
    (
      subst (λ x. find_config (codes "key") x.table_config ≡ some key) same at,
      subst (λ x. has_field key x.table ≡ true) same
          (subst (λ k. has_field k i.table ≡ true) (sym named) (ground (arith, ended))),
    )

-- A JSON object whose table is set up names a key, and the table has a field of that name.
pub parse_structure_config_key :
    (member : List ℕ → Option (List ℕ)) (imported : List ℕ → List ℕ → Option (List Message))
    (fuel : ℕ) (info info' : Info)
    → parse_structure_config member imported fuel info ≡ done (true, info')
    → (key : List ℕ) × (member (codes "key") ≡ some key)
      × (find_config (codes "key") info'.table_config ≡ some key)
      × (has_field key info'.table ≡ true)
unfolding parse_structure_config parse_table_config
parse_structure_config_key member imported fuel info info' h =
    let (r, parsed, checked) =
      bind_done (parse_table_config member imported fuel info) _ (true, info') h in
    let (key, given, rest) = bind_done (read (member (codes "key"))) _ r parsed in
    elim (Bool-cases r.0) [
      | inl fine ↦
          let named : member (codes "key") ≡ some key = ground (arith, given) in
          let ends = check_key-keyed key r.1 info' (
            subst (λ m. check_key m r.1 ≡ done (true, info')) named
              (ground (arith, checked, fine))) in
          (key, named, ends.0, ends.1)
      | inr fails ↦ absurd (ground (arith, checked, fails))
    ]

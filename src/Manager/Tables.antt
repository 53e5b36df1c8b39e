-- ===== src/Manager/Tables.antt =====
-- The kinds of tables: kernel/manager/table_info/{kv,kkv,structure,view}_table_info.cc, their configuration
-- and table_info_factory.cc, and `ParseTableConfig` of table_info.cc. The attributes of an XML element and
-- the members of a JSON object, all of them strings, are functions from names.
use ad_index.Base.{
  ℕ, Bool, true, false, not, List, [], ◌∷◌, map, ◌==◌, if◌then◌else◌, Option, none, some, codes,
  same_text, Run, done, ◌>>=◌, read,
}
use ad_index.Utils.Text.{is_empty}
use ad_index.Manager.FieldInfo.{no_field, find_field}
use ad_index.Manager.TableInfo.{Table, Protos, parse_fields}

pub data TableType : Type 0 where
  kkv : TableType
  kv : TableType
  structure : TableType
  view : TableType
  unknown : TableType

-- A std::map of strings; the order of its keys shows in no result.
abbrev pub Config : Type 0
Config = List (List ℕ × List ℕ)

-- `find`
unfoldable pub find_config : List ℕ → Config → Option (List ℕ)
find_config key [] = none
find_config key ((k, v) ∷ config) = if same_text k key then some v else find_config key config

-- `insert`, which keeps what the key has.
unfoldable pub insert_config : List ℕ → List ℕ → Config → Config
insert_config key v [] = (key, v) ∷ []
insert_config key v ((k, w) ∷ config) =
    if same_text k key then (k, w) ∷ config else (k, w) ∷ insert_config key v config

-- `config[key] = v`
unfoldable pub assign_config : List ℕ → List ℕ → Config → Config
assign_config key v [] = (key, v) ∷ []
assign_config key v ((k, w) ∷ config) =
    if same_text k key then (k, v) ∷ config else (k, w) ∷ assign_config key v config

pub record Info : Type 0 where
  pub name : List ℕ
  pub clazz_name : List ℕ
  pub table_type : TableType
  pub table_config : Config
  pub table : Table

abbrev pub empty_table : Table
empty_table = record { field_desc = no_field; related_field_map = [] }

-- The class that `CreateTableInfo` makes for a type.
unfoldable pub type_of : List ℕ → TableType
unfolding same_text
type_of name =
    if same_text name (codes "kkv")
    then kkv
    else if same_text name (codes "kv")
    then kv
    else if same_text name (codes "structure")
    then structure
    else if same_text name (codes "view")
    then view
    else unknown

-- What both versions of `CreateTableInfo` set, unless the type is unknown.
unfoldable pub new_info : List ℕ → List ℕ → List ℕ → Option Info
unfolding type_of assign_config
new_info name table_type clazz_name =
    let info : Info = record {
      name = name;
      clazz_name = clazz_name;
      table_type = type_of table_type;
      table_config = assign_config (codes "type") table_type (assign_config (codes "name") name []);
      table = empty_table;
    } in
    elim (type_of table_type) [
      | unknown ↦ none
      | kkv ↦ some info
      | kv ↦ some info
      | structure ↦ some info
      | view ↦ some info
    ]

abbrev pub slashes : List ℕ → List ℕ
slashes = map (λ c. if c == b'.' then b'/' else c)

abbrev pub clazz_of : Option (List ℕ) → List ℕ
clazz_of none = []
clazz_of (some clazz) = clazz

module _ (attribute : List ℕ → Option (List ℕ)) where
  -- `CreateTableInfo` of an XML element.
  unfoldable pub create_from_xml : Option Info
  unfolding new_info
  create_from_xml = elim (attribute (codes "name")) [
    | none ↦ none
    | some name ↦ elim (attribute (codes "type")) [
      | none ↦ none
      | some table_type ↦ new_info name table_type (slashes (clazz_of (attribute (codes "clazz"))))
    ]
  ]

  -- An attribute that has to be there, put into the configuration.
  unfoldable pub take_attribute : List ℕ → Info → Bool × Info
  unfolding insert_config
  take_attribute key info = elim (attribute key) [
    | none ↦ (false, info)
    | some v ↦ (true, record info { table_config = insert_config key v info.table_config })
  ]

  -- One after the other, up to the first that is missing.
  unfoldable pub take_attributes : List (List ℕ) → Info → Bool × Info
  unfolding take_attribute
  take_attributes [] info = (true, info)
  take_attributes (key ∷ keys) info =
      let r = take_attribute key info in
      let rest = take_attributes keys r.1 in if r.0 then rest else (false, r.1)

  -- `ParseKvTableConfig`, `ParseKkvTableConfig`, and `ParseStructureTableConfig`, which overwrites.
  unfoldable pub parse_table_xml : Info → Bool × Info
  unfolding take_attributes assign_config
  parse_table_xml info = elim info.table_type [
    | kv ↦ take_attributes (codes "key" ∷ codes "value" ∷ []) info
    | kkv ↦ take_attributes (codes "pkey" ∷ codes "skey" ∷ codes "value" ∷ []) info
    | structure ↦ elim (attribute (codes "key")) [
      | none ↦ (false, info)
      | some v ↦
          (true, record info { table_config = assign_config (codes "key") v info.table_config })
    ]
    | view ↦ (true, info)
    | unknown ↦ (true, info)
  ]

-- That the fields named in the configuration are there; what is not configured is read behind the map.
unfoldable pub check_fields : List (List ℕ) → Info → Run Bool
check_fields [] info = done true
check_fields (key ∷ keys) info =
    let rest = check_fields keys info in
    read (find_config key info.table_config) >>= λ name.
    elim (find_field name info.table.field_desc) [ none ↦ done false | some f ↦ rest ]

-- `CheckKvFieldDesc`, `CheckKkvFieldDesc`, `CheckStructureFieldDesc`
unfoldable pub check_field_desc : Info → Run Bool
unfolding check_fields find_config
check_field_desc info = elim info.table_type [
  | kv ↦ check_fields (codes "key" ∷ codes "value" ∷ []) info
  | kkv ↦ check_fields (codes "pkey" ∷ codes "skey" ∷ codes "value" ∷ []) info
  | structure ↦ check_fields (codes "key" ∷ []) info
  | view ↦ done true
  | unknown ↦ done true
]

-- A message of a proto file: its option `table_name`, its full name and its fields.
pub record Message : Type 0 where
  pub table_name : List ℕ
  pub full_name : List ℕ
  pub fields : Protos

-- The loop over the messages that have a table name.
unfoldable pub parse_messages : ℕ → List Message → Table → Run (Bool × Table)
parse_messages fuel [] t = done (true, t)
parse_messages fuel (message ∷ messages) t =
    let skipped = parse_messages fuel messages t in
    let taken = parse_fields fuel message.full_name 0 message.fields t >>= λ r.
    let rest = parse_messages fuel messages r.1 in if r.0 then rest else done (false, r.1) in
    if is_empty message.table_name then skipped else taken

-- The rest of `StructureTableInfo::ParseTableConfig`: the key once more, and the test for its field.
unfoldable pub check_key : Option (List ℕ) → Info → Run (Bool × Info)
unfolding assign_config find_config
check_key key info =
    let keyed : Info = elim key [
      | none ↦ info
      | some k ↦ record info { table_config = assign_config (codes "key") k info.table_config }
    ] in
    read (find_config (codes "key") keyed.table_config) >>= λ key_name.
    done (elim (find_field key_name keyed.table.field_desc) [ none ↦ false | some f ↦ true ], keyed)

-- The members of the JSON object, and the messages of a proto file; a missing member that is read all the
-- same is a failed assertion.
module _ (member : List ℕ → Option (List ℕ))
    (imported : List ℕ → List ℕ → Option (List Message)) where
  -- `CreateTableInfo` of a JSON object.
  unfoldable pub create_from_json : Run (Option Info)
  unfolding new_info
  create_from_json = read (member (codes "table_name")) >>= λ name.
      let table_type : List ℕ = elim (member (codes "table_type")) [
        | none ↦ codes "structure"
        | some t ↦ if is_empty t then codes "structure" else t
      ] in
      done (new_info name table_type (clazz_of (member (codes "clazz"))))

  -- `TableInfo::ParseTableConfig`
  unfoldable pub parse_table_config : ℕ → Info → Run (Bool × Info)
  unfolding assign_config
  parse_table_config fuel info = read (member (codes "key")) >>= λ key.
      let keyed : Info = record info {
        table_config = assign_config (codes "key") key info.table_config;
      } in
      elim (member (codes "proto_file")) [
        | none ↦ done (false, keyed)
        | some proto_file ↦ read (member (codes "table_name")) >>= λ name.
            elim (imported proto_file name) [
              | none ↦ done (false, keyed)
              | some messages ↦ parse_messages fuel messages keyed.table >>= λ r.
                  done (r.0, record keyed { table = r.1 })
            ]
      ]

  -- `StructureTableInfo::ParseTableConfig`
  unfoldable pub parse_structure_config : ℕ → Info → Run (Bool × Info)
  unfolding parse_table_config check_key
  parse_structure_config fuel info = parse_table_config fuel info >>= λ r.
      if not r.0 then done (false, r.1) else check_key (member (codes "key")) r.1

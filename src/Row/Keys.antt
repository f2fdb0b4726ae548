-- ===== src/Row/Keys.antt =====
-- src/client/row/keys.ts: the text under which a row is kept, its primary key as canonical JSON.
use sync_engine_v.Base.{String, Bool, List, [], ◌∷◌, Option, none, some}
use sync_engine_v.Errors.{Result, ok, err, row_operation, ◌>>=◌}
use sync_engine_v.Json.{Json, null, array, object, Items, nil, cons, Fields, end, member}
use sync_engine_v.Fingerprint.{canonicalize_json}
use sync_engine_v.Row.Types.{ReplicaSchemaContract}
use sync_engine_v.Row.Normalization.{set_field, require_table, normalize_primary_key}

-- the loop over `table.primaryKey`
unfoldable pub collect_key : Fields → Fields → List String → Result Fields
unfolding member set_field
collect_key row key [] = ok key
collect_key row key (column ∷ rest) = elim (member column row) [
  | none ↦ err (row_operation "row is missing a primary-key column")
  | some value ↦ collect_key row (set_field column value key) rest
]

unfoldable pub key_from_row : ReplicaSchemaContract → String → Fields → Result Fields
unfolding require_table collect_key
key_from_row schema table_name row = do
  table ← require_table schema table_name
  collect_key row end table.primary_key

abbrev pub or_null : Option Json → Json
or_null (some value) = value
or_null none = null

-- `table.primaryKey.map((column) => normalized[column])`
unfoldable pub key_values : Fields → List String → Items
unfolding member
key_values key [] = nil
key_values key (column ∷ rest) = cons (or_null (member column key)) (key_values key rest)

module _ (precedes : String → String → Bool) where
  unfoldable pub encode_primary_key : ReplicaSchemaContract → String → Fields → Result String
  unfolding require_table normalize_primary_key canonicalize_json key_values
  encode_primary_key schema table_name key = do
    table ← require_table schema table_name
    normalized ← normalize_primary_key precedes table (some (object key))
    ok (canonicalize_json precedes (array (key_values normalized table.primary_key)))

  unfoldable pub encode_row_primary_key : ReplicaSchemaContract → String → Fields → Result String
  unfolding key_from_row encode_primary_key
  encode_row_primary_key schema table_name row = do
    key ← key_from_row schema table_name row
    encode_primary_key schema table_name key

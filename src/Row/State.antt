-- ===== src/Row/State.antt =====
-- src/client/row/state.ts: an operation applied to a database, and rows that are read from it.
use sync_engine_v.Base.{String, Bool, List, [], ◌∷◌, Option, none, some, str_eq, if◌then◌else◌}
use sync_engine_v.Base.Dict.{Dict, lookup, put, values}
use sync_engine_v.Errors.{Result, ok, ◌>>=◌, ◌>>◌}
use sync_engine_v.Json.{Fields}
use sync_engine_v.Row.Types.{
  ReplicaSchemaContract, RowOperation, put_row, delete_row, ReplicaDatabaseState, operation_json,
  table_of,
}
use sync_engine_v.Row.Schema.{assert_database_state_schema}
use sync_engine_v.Row.Normalization.{normalize_row_operation}
use sync_engine_v.Row.Keys.{encode_primary_key, encode_row_primary_key}

-- `delete record[key]`
unfoldable pub remove {ℓ} : {A : Type ℓ} → String → Dict A → Dict A
remove key [] = []
remove key ((k, v) ∷ rest) =
    let kept = remove key rest in if str_eq k key then kept else (k, v) ∷ kept

-- `state.tables[name] ?? {}`
abbrev pub table_state : Option (Dict Fields) → Dict Fields
table_state none = []
table_state (some rows) = rows

-- `Object.entries(rows).sort(([left], [right]) => left.localeCompare(right))`
unfoldable pub insert_entry : (String → String → Bool) → String → Fields → Dict Fields → Dict Fields
insert_entry locale_precedes key row [] = (key, row) ∷ []
insert_entry locale_precedes key row ((k, r) ∷ rest) =
    let later = insert_entry locale_precedes key row rest in
    if locale_precedes key k then (key, row) ∷ (k, r) ∷ rest else (k, r) ∷ later

unfoldable pub sort_entries : (String → String → Bool) → Dict Fields → Dict Fields
unfolding insert_entry
sort_entries locale_precedes [] = []
sort_entries locale_precedes ((k, r) ∷ rest) =
    insert_entry locale_precedes k r (sort_entries locale_precedes rest)

unfoldable pub read_table_rows :
    (String → String → Bool) → ReplicaDatabaseState → String → List Fields
unfolding values sort_entries lookup
read_table_rows locale_precedes state table_name =
    values (sort_entries locale_precedes (table_state (lookup table_name state.tables)))

module _ (precedes : String → String → Bool) (schema : ReplicaSchemaContract) where
  -- the table after an operation on it
  abbrev pub next_table : RowOperation → Dict Fields → Result (Dict Fields)
  next_table (put_row name row) rows = do
    key ← encode_row_primary_key precedes schema name row
    ok (put key row rows)
  next_table (delete_row name key) rows = do
    encoded ← encode_primary_key precedes schema name key
    ok (remove encoded rows)

  unfoldable pub apply_row_operation :
      ReplicaDatabaseState → RowOperation → Result ReplicaDatabaseState
  unfolding assert_database_state_schema normalize_row_operation encode_primary_key
      encode_row_primary_key lookup put remove
  apply_row_operation state input = do
    assert_database_state_schema schema state
    operation ← normalize_row_operation precedes schema (operation_json input)
    rows ← next_table operation (table_state (lookup (table_of operation) state.tables))
    ok (record state { tables = put (table_of operation) rows state.tables })

  unfoldable pub read_table_row : ReplicaDatabaseState → String → Fields → Result (Option Fields)
  unfolding encode_primary_key lookup
  read_table_row state table_name key = elim (lookup table_name state.tables) [
    | none ↦ ok none
    | some rows ↦ do
      encoded ← encode_primary_key precedes schema table_name key
      ok (lookup encoded rows)
  ]

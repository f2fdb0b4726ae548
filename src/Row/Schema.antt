-- ===== src/Row/Schema.antt =====
-- src/client/row/schema.ts: databases of a schema, and the schemas that rows can be replicated under.
use sync_engine_v.Base.{String, Bool, not, List, [], ◌∷◌, Option, none, some, str_eq, ◌||◌}
use sync_engine_v.Base.Dict.{Dict, lookup}
use sync_engine_v.Errors.{Result, ok, row_operation, sync_client_schema_mismatch, throw_if, ◌>>◌}
use sync_engine_v.Json.{Fields}
use sync_engine_v.Row.Types.{
  ReplicaColumnContract, ReplicaTableContract, ReplicaSchemaContract, ReplicaDatabaseState,
}

-- `table.columns[name] === undefined`
abbrev pub is_missing {ℓ} : {A : Type ℓ} → Option A → Bool
is_missing none = Bool.true
is_missing (some a) = Bool.false

unfoldable pub assert_key_columns : Dict ReplicaColumnContract → List String → Result (Unit {0})
unfolding lookup
assert_key_columns columns [] = ok tt
assert_key_columns columns (name ∷ rest) = do
  throw_if (is_missing (lookup name columns)) (row_operation "primary key is not a column")
  assert_key_columns columns rest

-- `Object.entries(table.columns).filter(([, column]) => column.generated).length > 0`
unfoldable pub has_generated : Dict ReplicaColumnContract → Bool
has_generated [] = Bool.false
has_generated ((name, column) ∷ rest) = column.generated || has_generated rest

abbrev pub is_empty {ℓ} : {A : Type ℓ} → List A → Bool
is_empty [] = Bool.true
is_empty (x ∷ xs) = Bool.false

unfoldable pub assert_tables : Dict ReplicaTableContract → Result (Unit {0})
unfolding assert_key_columns has_generated
assert_tables [] = ok tt
assert_tables ((name, table) ∷ rest) = do
  throw_if (is_empty table.primary_key) (row_operation "table has no primary key")
  assert_key_columns table.columns table.primary_key
  throw_if (has_generated table.columns)
      (row_operation "the default row-replication runtime does not support generated columns")
  assert_tables rest

unfoldable pub assert_row_replication_schema : ReplicaSchemaContract → Result (Unit {0})
unfolding assert_tables
assert_row_replication_schema schema = assert_tables schema.tables

unfoldable pub assert_database_state_schema :
    ReplicaSchemaContract → ReplicaDatabaseState → Result (Unit {0})
assert_database_state_schema schema state =
    throw_if (not (str_eq state.schema_hash schema.schema_hash))
      (sync_client_schema_mismatch schema.schema_hash state.schema_hash)

unfoldable pub empty_tables : Dict ReplicaTableContract → Dict (Dict Fields)
empty_tables [] = []
empty_tables ((name, table) ∷ rest) = (name, []) ∷ empty_tables rest

unfoldable pub create_initial_database_state : ReplicaSchemaContract → Result ReplicaDatabaseState
unfolding assert_row_replication_schema empty_tables
create_initial_database_state schema = do
  assert_row_replication_schema schema
  ok (record { schema_hash = schema.schema_hash; tables = empty_tables schema.tables })

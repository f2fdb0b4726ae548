-- ===== src/Row/Types.antt =====
-- src/client/row/types.ts and src/schema/types.ts: schemas, operations on rows, and databases of rows.
-- A row is the fields of an object.
use sync_engine_v.Base.{String, Bool, List}
use sync_engine_v.Base.Dict.{Dict}
use sync_engine_v.Json.{Json, string, object, Fields, end, field}

pub data SqliteAffinity : Type 0 where
  integer real text blob numeric : SqliteAffinity

pub record ReplicaColumnContract : Type 0 where
  pub affinity : SqliteAffinity
  pub nullable : Bool
  pub generated : Bool

pub record ReplicaTableContract : Type 0 where
  pub primary_key : List String
  pub columns : Dict ReplicaColumnContract

pub record ReplicaSchemaContract : Type 0 where
  pub schema_hash : String
  pub tables : Dict ReplicaTableContract

pub data RowOperation : Type 0 where
  put_row : String → Fields → RowOperation
  delete_row : String → Fields → RowOperation

pub record RowRejection : Type 0 where
  pub code : String
  pub message : String

pub record ReplicaDatabaseState : Type 0 where
  pub schema_hash : String
  pub tables : Dict (Dict Fields)

-- An operation as the object that it is.
abbrev pub operation_json : RowOperation → Json
operation_json (put_row table row) =
    object
      (field "type" (string "putRow") (field "table" (string table) (field "row" (object row) end)))
operation_json (delete_row table key) = object (
    field "type" (string "deleteRow") (field "table" (string table) (field "key" (object key) end)))

-- `operation.table`
abbrev pub table_of : RowOperation → String
table_of (put_row name row) = name
table_of (delete_row name key) = name

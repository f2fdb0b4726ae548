-- ===== src/Row/Normalization.antt =====
-- src/client/row/normalization.ts: the operation that an unknown value stands for under a schema.
use Prim.Native.Char.{code}
use sync_engine_v.Base.{
  ℕ, String, Bool, true, false, not, ◌&&◌, ◌||◌, List, [], ◌∷◌, Option, none, some, leb, ◌==◌,
  str_eq, if◌then◌else◌,
}
use sync_engine_v.Base.Dict.{Dict, lookup}
use sync_engine_v.Errors.{Result, ok, err, row_operation, throw_if, ◌>>=◌, ◌>>◌}
use sync_engine_v.Json.{
  Json, null, bool, number, numeral, string, array, object, Items, nil, cons, Fields, end, field,
  member,
}
use sync_engine_v.Row.Types.{
  integer, real, text, blob, numeric, ReplicaColumnContract, ReplicaTableContract,
  ReplicaSchemaContract, RowOperation, put_row, delete_row,
}

-- `record[key] = value`
unfoldable pub set_field : String → Json → Fields → Fields
set_field key value end = field key value end
set_field key value (field k v rest) =
    if str_eq k key then field k value rest else field k v (set_field key value rest)

-- `Object.keys(record)`
unfoldable pub keys_of : Fields → List String
keys_of end = []
keys_of (field k v rest) = k ∷ keys_of rest

unfoldable pub insert_key : (String → String → Bool) → String → List String → List String
insert_key precedes key [] = key ∷ []
insert_key precedes key (k ∷ rest) =
    let later = insert_key precedes key rest in if precedes key k then key ∷ k ∷ rest else k ∷ later

-- `[...keys].sort()`
unfoldable pub sort_keys : (String → String → Bool) → List String → List String
unfolding insert_key
sort_keys precedes [] = []
sort_keys precedes (k ∷ rest) = insert_key precedes k (sort_keys precedes rest)

-- the same names at the same places, and as many
unfoldable pub same_keys : List String → List String → Bool
same_keys [] [] = true
same_keys (x ∷ xs) (y ∷ ys) = str_eq x y && same_keys xs ys
same_keys xs ys = false

-- white space and line ends of the language
unfoldable pub is_white : ℕ → Bool
is_white n =
    (leb 9 n && leb n 13)
    || n == 32
    || n == 160
    || n == 0x1680
    || (leb 0x2000 n && leb n 0x200A)
    || n == 0x2028
    || n == 0x2029
    || n == 0x202F
    || n == 0x205F
    || n == 0x3000
    || n == 0xFEFF

-- `text.trim() === ""`
unfoldable pub is_blank : String → Bool
unfolding is_white
is_blank String.[] = true
is_blank (String.◌∷◌ c s) = is_white (code c) && is_blank s

unfoldable pub read_table_name : Option Json → Result String
unfolding is_blank
read_table_name (some (string name)) =
    throw_if (is_blank name) (row_operation "operation.table must be a non-empty string") >> ok name
read_table_name other = err (row_operation "operation.table must be a non-empty string")

unfoldable pub require_table : ReplicaSchemaContract → String → Result ReplicaTableContract
unfolding lookup
require_table schema name = elim (lookup name schema.tables) [
  | none ↦ err (row_operation "unknown replicated table")
  | some table ↦ ok table
]

-- `isPlainRecord`, and the record
unfoldable pub plain_record : Option Json → String → Result Fields
plain_record (some (object fields)) message = ok fields
plain_record other message = err (row_operation message)

abbrev pub column_type_error : Result Json
column_type_error = err (row_operation "column expects another SQLite representation")

-- every element is a byte: a natural number, and not a fraction or a negative number, up to 255
unfoldable pub are_bytes : Items → Bool
are_bytes nil = true
are_bytes (cons (number n) rest) = leb n 255 && are_bytes rest
are_bytes (cons (numeral s) rest) = false
are_bytes (cons other rest) = false

abbrev pub normalize_blob : Items → Result Json
normalize_blob items = if are_bytes items then ok (array items) else column_type_error

-- Numbers of JSON are finite, so that `Number.isFinite` holds of each.
unfoldable pub normalize_column_value : ReplicaColumnContract → Json → Result Json
unfolding are_bytes
normalize_column_value column null =
    if column.nullable then ok null else err (row_operation "column is not nullable")
normalize_column_value column (number n) = elim column.affinity [
  | integer ↦ ok (number n)
  | real ↦ ok (number n)
  | numeric ↦ ok (number n)
  | text ↦ column_type_error
  | blob ↦ column_type_error
]
normalize_column_value column (numeral s) = elim column.affinity [
  | integer ↦ ok (numeral s)
  | real ↦ ok (numeral s)
  | numeric ↦ ok (numeral s)
  | text ↦ column_type_error
  | blob ↦ column_type_error
]
normalize_column_value column (string s) = elim column.affinity [
  | text ↦ ok (string s)
  | numeric ↦ ok (string s)
  | integer ↦ column_type_error
  | real ↦ column_type_error
  | blob ↦ column_type_error
]
normalize_column_value column (array items) = elim column.affinity [
  | blob ↦ normalize_blob items
  | integer ↦ column_type_error
  | real ↦ column_type_error
  | text ↦ column_type_error
  | numeric ↦ column_type_error
]
normalize_column_value column (bool b) = column_type_error
normalize_column_value column (object fields) = column_type_error

-- `candidate === undefined || candidate === null`
abbrev pub key_candidate : Option Json → Result Json
key_candidate none = err (row_operation "primary-key column cannot be null or missing")
key_candidate (some null) = err (row_operation "primary-key column cannot be null or missing")
key_candidate (some value) = ok value

abbrev pub key_column : Option ReplicaColumnContract → Result ReplicaColumnContract
key_column none = err (row_operation "primary-key column is missing from its schema")
key_column (some column) = ok column

-- the loop over `table.primaryKey`
unfoldable pub normalize_key_columns :
    Dict ReplicaColumnContract → Fields → Fields → List String → Result Fields
unfolding normalize_column_value lookup member set_field
normalize_key_columns columns value key [] = ok key
normalize_key_columns columns value key (name ∷ rest) = do
  column ← key_column (lookup name columns)
  candidate ← key_candidate (member name value)
  normalized ← normalize_column_value (record column { nullable = false }) candidate
  normalize_key_columns columns value (set_field name normalized key) rest

module _ (precedes : String → String → Bool) where
  unfoldable pub normalize_primary_key : ReplicaTableContract → Option Json → Result Fields
  unfolding plain_record same_keys sort_keys keys_of normalize_key_columns
  normalize_primary_key table value = do
    fields ← plain_record value "primary key must be a plain object"
    throw_if
        (not
          (same_keys (sort_keys precedes (keys_of fields)) (sort_keys precedes table.primary_key)))
        (row_operation "primary key must contain exactly its columns")
    normalize_key_columns table.columns fields end table.primary_key

-- some field is of no column
unfoldable pub has_unknown_column : Dict ReplicaColumnContract → Fields → Bool
unfolding lookup
has_unknown_column columns end = false
has_unknown_column columns (field name value rest) = elim (lookup name columns) [
  | none ↦ true
  | some column ↦ has_unknown_column columns rest
]

-- what a column takes from a row
abbrev pub column_value : ReplicaColumnContract → Option Json → Result Json
column_value column none =
    if column.nullable then ok null else err (row_operation "row is missing a non-null column")
column_value column (some value) = normalize_column_value column value

-- the loop over `table.columns`
unfoldable pub normalize_columns : Fields → Fields → Dict ReplicaColumnContract → Result Fields
unfolding normalize_column_value member set_field
normalize_columns value row [] = ok row
normalize_columns value row ((name, column) ∷ rest) = do
  normalized ← column_value column (member name value)
  normalize_columns value (set_field name normalized row) rest

unfoldable pub normalize_full_row : ReplicaTableContract → Option Json → Result Fields
unfolding plain_record has_unknown_column normalize_columns
normalize_full_row table value = do
  fields ← plain_record value "putRow requires a plain row object"
  throw_if (has_unknown_column table.columns fields) (row_operation "row contains unknown columns")
  normalize_columns fields end table.columns

module _ (precedes : String → String → Bool) where
  abbrev pub normalize_typed :
      Option Json → String → ReplicaTableContract → Fields → Result RowOperation
  normalize_typed (some (string type)) name table operation =
      if str_eq type "putRow"
      then (do row ← normalize_full_row table (member "row" operation); ok (put_row name row))
      else if str_eq type "deleteRow"
      then (do
        key ← normalize_primary_key precedes table (member "key" operation)
        ok (delete_row name key))
      else err (row_operation "operation.type must be \"putRow\" or \"deleteRow\"")
  normalize_typed other name table operation =
      err (row_operation "operation.type must be \"putRow\" or \"deleteRow\"")

  unfoldable pub normalize_row_operation : ReplicaSchemaContract → Json → Result RowOperation
  unfolding plain_record read_table_name require_table normalize_full_row normalize_primary_key
      member
  normalize_row_operation schema value = do
    operation ← plain_record (some value) "row operation must be a plain object"
    name ← read_table_name (member "table" operation)
    table ← require_table schema name
    normalize_typed (member "type" operation) name table operation

-- ===== src/Row/Normal/Operation.antt =====
-- `normalizeRowOperation` of src/client/row/normalization.ts as a whole.
use sync_engine_v.Base.{
  String, ◌≡◌, refl, sym, ap, ◌∙◌, subst, Bool, false, inl, inr, Option, none, some, arith, All,
  str_eq, Bool-cases, Option-cases,
}
use sync_engine_v.Base.Dict.{lookup}
use sync_engine_v.Errors.{ok, ok-injective, ok-ne-err, >>=-eq-ok}
use sync_engine_v.Json.{Json, null, bool, number, numeral, string, array, object, Fields, member}
use sync_engine_v.Row.{
  ReplicaColumnContract, ReplicaTableContract, ReplicaSchemaContract, RowOperation, put_row,
  delete_row, operation_json, plain_record, read_table_name, require_table, normalize_full_row,
  normalize_primary_key, normalize_typed, normalize_row_operation, table_of,
}
use sync_engine_v.Row.Normal.Fields.{IsDistinctDict}
use sync_engine_v.Row.Normal.Rows.{normalize_full_row-again}
use sync_engine_v.Row.Normal.Key.{IsDistinctNames, normalize_primary_key-again}

-- A column of the primary key, which has to be there.
pub record IsKeyColumn (table : ReplicaTableContract) (name : String) : Type 0 where
  pub column : ReplicaColumnContract
  pub there : lookup name table.columns ≡ some column
  pub required : column.nullable ≡ false

-- A table's columns have different names, its primary key names different columns that are not nullable.
pub record IsTable (table : ReplicaTableContract) : Type 0 where
  pub columns : IsDistinctDict table.columns
  pub names : IsDistinctNames table.primary_key
  pub key : All (IsKeyColumn table) table.primary_key

abbrev pub IsSchema : ReplicaSchemaContract → Type 0
IsSchema schema =
    (name : String) (table : ReplicaTableContract)
    → lookup name schema.tables ≡ some table
    → IsTable table

module _ (precedes : String → String → Bool) where
  -- What an operation is, for a table that it names.
  abbrev pub IsNormal : ReplicaTableContract → RowOperation → Type 0
  IsNormal table (put_row name row) = normalize_full_row table (some (object row)) ≡ ok row
  IsNormal table (delete_row name key) =
      normalize_primary_key precedes table (some (object key)) ≡ ok key

  normalize_string-IsNormal :
      (text name : String) (table : ReplicaTableContract) (operation : Fields) (op : RowOperation)
      → IsTable table
      → normalize_typed precedes (some (string text)) name table operation ≡ ok op
      → (table_of op ≡ name) × IsNormal table op
  normalize_string-IsNormal text name table operation op t h =
      elim (Bool-cases (str_eq text "putRow")) [
        | inl puts ↦
            let (row, normal, h₁) =
              >>=-eq-ok (normalize_full_row table (member "row" operation)) _ (rw puts at h) in
            subst (λ op. (table_of op ≡ name) × IsNormal table op) (ok-injective h₁)
              (refl, normalize_full_row-again table (member "row" operation) t.columns normal)
        | inr other ↦ elim (Bool-cases (str_eq text "deleteRow")) [
          | inl deletes ↦
              let (key, normal, h₁) =
                >>=-eq-ok (normalize_primary_key precedes table (member "key" operation)) _
                  (rw (other, deletes) at h) in
              subst (λ op. (table_of op ≡ name) × IsNormal table op) (ok-injective h₁)
                (
                  refl,
                  normalize_primary_key-again precedes table t.names (member "key" operation)
                      normal,
                )
          | inr neither ↦ absurd (ok-ne-err (sym (rw (other, neither) at h)))
        ]
      ]

  normalize_typed-IsNormal :
      (type : Option Json) (name : String) (table : ReplicaTableContract) (operation : Fields)
      (op : RowOperation)
      → IsTable table
      → normalize_typed precedes type name table operation ≡ ok op
      → (table_of op ≡ name) × IsNormal table op
  normalize_typed-IsNormal (some (string text)) name table operation op t h =
      normalize_string-IsNormal text name table operation op t h
  normalize_typed-IsNormal none name table operation op t h = absurd (ok-ne-err (sym h))
  normalize_typed-IsNormal (some null) name table operation op t h = absurd (ok-ne-err (sym h))
  normalize_typed-IsNormal (some (bool b)) name table operation op t h = absurd (ok-ne-err (sym h))
  normalize_typed-IsNormal (some (number n)) name table operation op t h =
      absurd (ok-ne-err (sym h))
  normalize_typed-IsNormal (some (numeral s)) name table operation op t h =
      absurd (ok-ne-err (sym h))
  normalize_typed-IsNormal (some (array items)) name table operation op t h =
      absurd (ok-ne-err (sym h))
  normalize_typed-IsNormal (some (object fields)) name table operation op t h =
      absurd (ok-ne-err (sym h))

  read_table_name-again :
      (o : Option Json) {name : String}
      → read_table_name o ≡ ok name
      → read_table_name (some (string name)) ≡ ok name
  unfolding read_table_name
  read_table_name-again (some (string s)) h = ground arith
  read_table_name-again none h = absurd (ok-ne-err (sym h))
  read_table_name-again (some null) h = absurd (ok-ne-err (sym h))
  read_table_name-again (some (bool b)) h = absurd (ok-ne-err (sym h))
  read_table_name-again (some (number n)) h = absurd (ok-ne-err (sym h))
  read_table_name-again (some (numeral s)) h = absurd (ok-ne-err (sym h))
  read_table_name-again (some (array items)) h = absurd (ok-ne-err (sym h))
  read_table_name-again (some (object fields)) h = absurd (ok-ne-err (sym h))

  pub require_table-eq-ok :
      (schema : ReplicaSchemaContract) (name : String) {table : ReplicaTableContract}
      → require_table schema name ≡ ok table
      → lookup name schema.tables ≡ some table
  unfolding require_table
  require_table-eq-ok schema name h = elim (Option-cases (lookup name schema.tables)) [
    | inl absent ↦ absurd (ok-ne-err (sym (rw (absent, require_table) at h)))
    | inr (found, there) ↦ there ∙ ap some (ok-injective (rw (there, require_table) at h))
  ]

  -- An operation that the schema takes as it is, with the table that it is about.
  pub record Normalized (schema : ReplicaSchemaContract) (op : RowOperation) : Type 0 where
    pub table : ReplicaTableContract
    pub named : read_table_name (some (string (table_of op))) ≡ ok (table_of op)
    pub known : require_table schema (table_of op) ≡ ok table
    pub well : IsTable table
    pub normal : IsNormal table op

  Normalized-normal :
      (schema : ReplicaSchemaContract) (op : RowOperation)
      → Normalized schema op
      → normalize_row_operation precedes schema (operation_json op) ≡ ok op
  unfolding normalize_row_operation plain_record
  Normalized-normal schema (put_row name row) n = rw (n.named, n.known, n.normal) refl
  Normalized-normal schema (delete_row name key) n = rw (n.named, n.known, n.normal) refl

  pub normalize_row_operation-Normalized :
      (schema : ReplicaSchemaContract) (value : Json) {op : RowOperation}
      → IsSchema schema
      → normalize_row_operation precedes schema value ≡ ok op
      → Normalized schema op
  unfolding normalize_row_operation
  normalize_row_operation-Normalized schema value {op} s h =
      let (operation, plain, h₁) =
        >>=-eq-ok (plain_record (some value) "row operation must be a plain object") _ h in
      let (name, named, h₂) = >>=-eq-ok (read_table_name (member "table" operation)) _ h₁ in
      let (table, known, h₃) = >>=-eq-ok (require_table schema name) _ h₂ in
      let well = s name table (require_table-eq-ok schema name known) in
      let (same, normal) =
        normalize_typed-IsNormal (member "type" operation) name table operation op well h₃ in
      record {
        table = table;
        named =
            subst (λ n. read_table_name (some (string n)) ≡ ok n) (sym same)
              (read_table_name-again (member "table" operation) named);
        known = subst (λ n. require_table schema n ≡ ok table) (sym same) known;
        well = well;
        normal = normal;
      }

  -- What a value is normalized to, under a schema whose tables are well formed, is normalized to itself:
  -- the operation that is decided is the one that is applied, and the one that is read after it was
  -- written.
  pub normalize_row_operation-again :
      (schema : ReplicaSchemaContract) (value : Json) {op : RowOperation}
      → IsSchema schema
      → normalize_row_operation precedes schema value ≡ ok op
      → normalize_row_operation precedes schema (operation_json op) ≡ ok op
  normalize_row_operation-again schema value {op} s h =
      Normalized-normal schema op (normalize_row_operation-Normalized schema value s h)

-- ===== src/Row/Typed/Steps.antt =====
-- The databases that the operations of src/client/row make from the initial one.
use sync_engine_v.Base.{
  String, Bool, ◌≡◌, refl, sym, ap, ◌∙◌, subst, inl, inr, [], ◌∷◌, some, str_eq, str_eq→eq,
  Bool-cases, some-injective, none-ne-some,
}
use sync_engine_v.Base.Dict.{Dict, lookup}
use sync_engine_v.Errors.{ok, ok-injective, >>-eq-ok}
use sync_engine_v.Json.{Fields}
use sync_engine_v.Row.{
  ReplicaTableContract, ReplicaSchemaContract, ReplicaDatabaseState, RowOperation, put_row,
  delete_row, table_of, apply_row_operation, create_initial_database_state, empty_tables,
}
use sync_engine_v.Row.Normal.Operation.{
  IsSchema, Normalized, normalize_row_operation-Normalized, require_table-eq-ok,
}
use sync_engine_v.Row.Table.{written, apply_row_operation-IsApplied}
use sync_engine_v.Row.{table_state, operation_json, assert_row_replication_schema}
use sync_engine_v.Row.Typed.{IsTyped, IsRowOf, normalize_full_row-IsRowOf}

-- The initial database of a schema, and any operations that are applied to it one after the other.
pub data RowSteps (precedes : String → String → Bool) (schema : ReplicaSchemaContract)
    : ReplicaDatabaseState → Type 0 where
  created :
      {state : ReplicaDatabaseState}
      → create_initial_database_state schema ≡ ok state
      → RowSteps precedes schema state
  applied :
      {state next : ReplicaDatabaseState} (operation : RowOperation)
      → RowSteps precedes schema state
      → apply_row_operation precedes schema state operation ≡ ok next
      → RowSteps precedes schema next

empty_tables-no_rows :
    (tables : Dict ReplicaTableContract) (name : String)
    → table_state (lookup name (empty_tables tables)) ≡ []
unfolding empty_tables lookup
empty_tables-no_rows [] name = refl
empty_tables-no_rows ((n, table) ∷ rest) name = elim (Bool-cases (str_eq n name)) [
  | inl same ↦ rw same refl
  | inr other ↦ rw other (empty_tables-no_rows rest name)
]

created-IsTyped :
    (schema : ReplicaSchemaContract) {state : ReplicaDatabaseState}
    → create_initial_database_state schema ≡ ok state
    → IsTyped schema state
unfolding create_initial_database_state
created-IsTyped schema {state} h =
    let (_, h₁) = (>>-eq-ok (assert_row_replication_schema schema) _).0 h in
    subst (IsTyped schema) (ok-injective h₁) λ name key row there.
      absurd
        (none-ne-some (ap (lookup key) (sym (empty_tables-no_rows schema.tables name)) ∙ there))

module _ (precedes : String → String → Bool) (schema : ReplicaSchemaContract)
    (valid : IsSchema schema) where
  -- what a normal operation writes is of its table
  written-IsRowOf :
      (op : RowOperation) (row : Fields)
      → Normalized precedes schema op
      → written op ≡ some row
      → (table : ReplicaTableContract) × (lookup (table_of op) schema.tables ≡ some table)
        × IsRowOf table row
  written-IsRowOf (put_row name row) r n h = (
    n.table,
    require_table-eq-ok precedes schema name n.known,
    subst (IsRowOf n.table) (some-injective h)
        (normalize_full_row-IsRowOf n.table row n.well n.normal),
  )
  written-IsRowOf (delete_row name key) r n h = absurd (none-ne-some h)

  applied-IsTyped :
      (state : ReplicaDatabaseState) (input : RowOperation) {next : ReplicaDatabaseState}
      → IsTyped schema state
      → apply_row_operation precedes schema state input ≡ ok next
      → IsTyped schema next
  applied-IsTyped state input typed h name k row there =
      let a = apply_row_operation-IsApplied precedes schema state input h in
      let n =
        normalize_row_operation-Normalized precedes schema (operation_json input) valid a.normal in
      let here = sym (a.rows name k) ∙ there in
      elim (Bool-cases (str_eq (table_of a.operation) name)) [
        | inl same ↦ elim (Bool-cases (str_eq a.key k)) [
          | inl own ↦
              subst
                (λ name.
                  (table : ReplicaTableContract) × (lookup name schema.tables ≡ some table)
                  × IsRowOf table row)
                (str_eq→eq same) (written-IsRowOf a.operation row n (rw (same, own) at here))
          | inr other ↦ typed name k row (rw (same, other) at here)
        ]
        | inr other ↦ typed name k row (rw other at here)
      ]

  -- Under a schema whose tables are well formed, every row of every database that operations make from
  -- the initial one is of a table of the schema: it has a value for each of the table's columns and
  -- nothing else. The value is null only where the column may be null, and otherwise of the column's
  -- affinity: a number for integer or real, a number or a text for numeric, a text for text, and for a
  -- blob an array of natural numbers up to 255.
  pub RowSteps-IsTyped :
      (state : ReplicaDatabaseState) → RowSteps precedes schema state → IsTyped schema state
  RowSteps-IsTyped state (created made) = created-IsTyped schema made
  RowSteps-IsTyped next (applied {state = state} operation steps h) =
      applied-IsTyped state operation (RowSteps-IsTyped state steps) h

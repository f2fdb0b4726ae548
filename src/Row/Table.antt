-- ===== src/Row/Table.antt =====
-- What `applyRowOperation` of src/client/row/state.ts does to a database of rows.
use sync_engine_v.Base.{
  String, ◌≡◌, refl, sym, ap, ◌∙◌, subst, Bool, inl, inr, [], ◌∷◌, Option, none, some, arith,
  str_eq, str_eq_iff, str_eq→eq, ◌&&◌, Bool-cases, if◌then◌else◌,
}
use sync_engine_v.Base.Dict.{Dict, lookup, lookup-put}
use sync_engine_v.Errors.{Result, ok, ok-injective, >>=-eq-ok, >>-eq-ok}
use sync_engine_v.Json.{Fields}
use sync_engine_v.Row.{
  ReplicaSchemaContract, ReplicaDatabaseState, RowOperation, put_row, delete_row, operation_json,
  table_of, encode_primary_key, encode_row_primary_key, normalize_row_operation, remove,
  table_state, next_table, apply_row_operation, assert_database_state_schema,
}

lookup-remove :
    {A : Type 0} (key j : String) (m : Dict A)
    → lookup j (remove key m) ≡ (if str_eq key j then none else lookup j m)
unfolding lookup remove
lookup-remove key j [] = ground arith
lookup-remove key j ((k, v) ∷ rest) =
    ground (arith, str_eq_iff key j, str_eq_iff k key, str_eq_iff k j, lookup-remove key j rest)

-- The row that a database has under a key's text.
abbrev pub row_at : ReplicaDatabaseState → String → String → Option Fields
row_at state name key = lookup key (table_state (lookup name state.tables))

-- What an operation writes under its key.
abbrev pub written : RowOperation → Option Fields
written (put_row name row) = some row
written (delete_row name key) = none

module _ (precedes : String → String → Bool) (schema : ReplicaSchemaContract) where
  -- the key of an operation
  abbrev pub key_of : RowOperation → Result String
  key_of (put_row name row) = encode_row_primary_key precedes schema name row
  key_of (delete_row name key) = encode_primary_key precedes schema name key

  next_table-lookup :
      (op : RowOperation) (rows next : Dict Fields)
      → next_table precedes schema op rows ≡ ok next
      → (key : String) × (key_of op ≡ ok key)
        × ((j : String) → lookup j next ≡ (if str_eq key j then written op else lookup j rows))
  next_table-lookup (put_row name row) rows next h =
      let (key, encoded, h₁) = >>=-eq-ok (encode_row_primary_key precedes schema name row) _ h in
      (key, encoded, λ j. ap (lookup j) (sym (ok-injective h₁)) ∙ lookup-put key j row rows)
  next_table-lookup (delete_row name k) rows next h =
      let (key, encoded, h₁) = >>=-eq-ok (encode_primary_key precedes schema name k) _ h in
      (key, encoded, λ j. ap (lookup j) (sym (ok-injective h₁)) ∙ lookup-remove key j rows)

  -- What an operation that is applied does: it writes what its normal form says under that form's key,
  -- and every other row of every table stays.
  pub record IsApplied (input : RowOperation) (state next : ReplicaDatabaseState) : Type 0 where
    pub operation : RowOperation
    pub normal : normalize_row_operation precedes schema (operation_json input) ≡ ok operation
    pub key : String
    pub encoded : key_of operation ≡ ok key
    pub hash : next.schema_hash ≡ state.schema_hash
    pub rows :
        (name k : String)
        → row_at next name k ≡ (
            if str_eq (table_of operation) name && str_eq key k
            then written operation
            else row_at state name k)

  -- An operation whose application succeeds writes one row, or deletes one: the row of its normal form,
  -- under the key of that row. Every other row of every table stays as it was, and so does the hash of
  -- the schema.
  pub apply_row_operation-IsApplied :
      (state : ReplicaDatabaseState) (input : RowOperation) {next : ReplicaDatabaseState}
      → apply_row_operation precedes schema state input ≡ ok next
      → IsApplied input state next
  unfolding apply_row_operation
  apply_row_operation-IsApplied state input {next} h =
      let (_, h₁) = (>>-eq-ok (assert_database_state_schema schema state) _).0 h in
      let (operation, normal, h₂) =
        >>=-eq-ok (normalize_row_operation precedes schema (operation_json input)) _ h₁ in
      let before = table_state (lookup (table_of operation) state.tables) in
      let (rows, changes, h₃) = >>=-eq-ok (next_table precedes schema operation before) _ h₂ in
      let (key, encoded, at) = next_table-lookup operation before rows changes in
      subst (IsApplied input state) (ok-injective h₃) (record {
        operation = operation;
        normal = normal;
        key = key;
        encoded = encoded;
        hash = refl;
        rows = λ name k. elim (Bool-cases (str_eq (table_of operation) name)) [
          | inl same ↦
              rw (lookup-put (table_of operation) name rows state.tables, same)
                (at k
                  ∙ ap (λ n. if str_eq key k then written operation else row_at state n k)
                      (str_eq→eq same))
          | inr other ↦ rw (lookup-put (table_of operation) name rows state.tables, other) refl
        ];
      })

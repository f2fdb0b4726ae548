-- ===== src/Row/Total.antt =====
-- What `normalizeRowOperation` returns can be applied, by `applyRowOperation` of src/client/row/state.ts.
use sync_engine_v.Base.{
  String, ◌≡◌, refl, sym, ap, ◌∙◌, subst, Bool, true, false, List, [], ◌∷◌, ◌++◌, some, arith, All,
  All-map, str_eq, str_eq_iff, str_eq_refl, if◌then◌else◌, append-nil, append_assoc,
}
use sync_engine_v.Base.Dict.{Dict, lookup, put}
use sync_engine_v.Errors.{ok, ok-ne-err}
use sync_engine_v.Json.{Json, null, array, object, Fields, end, member}
use sync_engine_v.Fingerprint.{canonicalize_json}
use sync_engine_v.Row.{
  ReplicaColumnContract, ReplicaTableContract, ReplicaSchemaContract, ReplicaDatabaseState,
  RowOperation, put_row, delete_row, table_of, require_table, set_field, keys_of, collect_key,
  key_from_row, key_values, key_candidate, normalize_column_value, column_value,
  normalize_key_columns, encode_primary_key, encode_row_primary_key, normalize_primary_key,
  normalize_row_operation, table_state, next_table, remove, apply_row_operation,
  assert_database_state_schema,
}
use sync_engine_v.Row.Normal.Fields.{Has, member-set_field}
use sync_engine_v.Row.Normal.Rows.{normalize_full_row-Has, All-lookup}
use sync_engine_v.Row.Normal.Key.{
  IsAbsent, IsDistinctNames, keys_of-set_field, All-IsAbsent-set_field, All-IsAbsent-end,
  normalize_primary_key-cong,
}
use sync_engine_v.Row.Normal.Operation.{
  IsKeyColumn, IsSchema, Normalized, normalize_row_operation-Normalized,
  normalize_row_operation-again,
}
use sync_engine_v.Row.Table.{key_of}

-- A row has a value that can stand in a key.
record IsKeyValue (columns : Dict ReplicaColumnContract) (row : Fields) (name : String)
    : Type 0 where
  column : ReplicaColumnContract
  there : lookup name columns ≡ some column
  value : Json
  has : member name row ≡ some value
  usable : key_candidate (some value) ≡ ok value
  taken : normalize_column_value (record column { nullable = false }) value ≡ ok value

-- A key holds what the row has for its columns.
record IsCollected (row key : Fields) (names : List String) (out : Fields) : Type 0 where
  collects : collect_key row key names ≡ ok out
  keys : keys_of out ≡ keys_of key ++ names
  same : All (λ name. member name out ≡ member name row) names
  others : (k : String) → All (λ name. str_eq k name ≡ false) names → member k out ≡ member k key

module _ (columns : Dict ReplicaColumnContract) (row : Fields) where
  collect_key-IsCollected :
      (key : Fields) (names : List String)
      → IsDistinctNames names
      → All (IsAbsent key) names
      → All (IsKeyValue columns row) names
      → (out : Fields) × IsCollected row key names out
  unfolding collect_key
  collect_key-IsCollected key [] d absent h = (
    key,
    record {
      collects = refl;
      keys = sym (append-nil (keys_of key));
      same = tt;
      others = λ k o. refl;
    },
  )
  collect_key-IsCollected key (name ∷ rest) d absent h =
      let v = h.0.value in
      let (out, c) =
        collect_key-IsCollected (set_field name v key) rest d.1
          (All-IsAbsent-set_field name v key rest d.0 absent.1) h.1 in
      (
        out,
        record {
          collects = rw (h.0.has, collect_key) c.collects;
          keys =
              c.keys
              ∙ ap (λ ks. ks ++ rest) (keys_of-set_field name v key absent.0)
              ∙ append_assoc (keys_of key) (name ∷ []) rest;
          same = (
            c.others name d.0
                ∙ member-set_field name name v key
                ∙ ap (λ b. if b then some v else member name key) (str_eq_refl name)
                ∙ sym h.0.has,
            c.same,
          );
          others = λ k o.
              let differs : str_eq name k ≡ false =
                ground (arith, o.0, str_eq_iff name k, str_eq_iff k name) in
              c.others k o.1
              ∙ member-set_field k name v key
              ∙ ap (λ b. if b then some v else member k key) differs;
        },
      )

  normalize_key_columns-total :
      (key : Fields) (names : List String)
      → All (IsKeyValue columns row) names
      → (out : Fields) × (normalize_key_columns columns row key names ≡ ok out)
  unfolding normalize_key_columns
  normalize_key_columns-total key [] h = (key, refl)
  normalize_key_columns-total key (name ∷ rest) h =
      let (out, normal) = normalize_key_columns-total (set_field name h.0.value key) rest h.1 in
      (out, rw (h.0.there, h.0.has, h.0.usable, h.0.taken) normal)

key_candidate-value :
    (column : ReplicaColumnContract) (v n : Json)
    → column.nullable ≡ false
    → normalize_column_value column v ≡ ok n
    → key_candidate (some v) ≡ ok v
unfolding normalize_column_value
key_candidate-value column null n required h = absurd (ok-ne-err (sym (rw required at h)))
key_candidate-value column (Json.bool b) n required h = refl
key_candidate-value column (Json.number m) n required h = refl
key_candidate-value column (Json.numeral s) n required h = refl
key_candidate-value column (Json.string s) n required h = refl
key_candidate-value column (array items) n required h = refl
key_candidate-value column (object fields) n required h = refl

module _ (precedes : String → String → Bool) (schema : ReplicaSchemaContract) where
  row-IsKeyValue :
      (table : ReplicaTableContract) (row : Fields) (name : String)
      → All (Has row row) table.columns
      → IsKeyColumn table name
      → IsKeyValue table.columns row name
  row-IsKeyValue table row name has k =
      let h = All-lookup (Has row row) table.columns name k.column has k.there in
      let taken : normalize_column_value k.column h.normal ≡ ok h.normal =
        ap (column_value k.column) (sym h.there) ∙ h.taken in
      record {
        column = k.column;
        there = k.there;
        value = h.normal;
        has = h.there;
        usable = key_candidate-value k.column h.normal h.normal k.required taken;
        taken =
            subst
              (λ b.
                normalize_column_value (record k.column { nullable = b }) h.normal ≡ ok h.normal)
              k.required taken;
      }

  encode_primary_key-total :
      (name : String) (table : ReplicaTableContract) (key out : Fields)
      → require_table schema name ≡ ok table
      → normalize_primary_key precedes table (some (object key)) ≡ ok out
      → (text : String) × (encode_primary_key precedes schema name key ≡ ok text)
  unfolding encode_primary_key
  encode_primary_key-total name table key out known normal = (
    canonicalize_json precedes (array (key_values out table.primary_key)),
    rw (known, normal) refl,
  )

  -- the key of a row is that of what is collected from it
  encode_row-eq :
      (name : String) (table : ReplicaTableContract) (row key : Fields) (text : String)
      → require_table schema name ≡ ok table
      → collect_key row end table.primary_key ≡ ok key
      → encode_primary_key precedes schema name key ≡ ok text
      → encode_row_primary_key precedes schema name row ≡ ok text
  unfolding encode_row_primary_key key_from_row
  encode_row-eq name table row key text known collects encoded =
      rw (known, collects) (rw known at encoded)

  key_of-total :
      (op : RowOperation)
      → Normalized precedes schema op
      → (key : String) × (key_of precedes schema op ≡ ok key)
  key_of-total (delete_row name key) n =
      encode_primary_key-total name n.table key key n.known n.normal
  key_of-total (put_row name row) n =
      let t = n.table in
      let has = normalize_full_row-Has t row n.well.columns n.normal in
      let values =
        All-map (IsKeyColumn t) t.primary_key (λ name k. row-IsKeyValue t row name has k)
          n.well.key in
      let absent = All-IsAbsent-end t.primary_key in
      let (key, c) =
        collect_key-IsCollected t.columns row end t.primary_key n.well.names absent values in
      let (out, normal) = normalize_key_columns-total t.columns row end t.primary_key values in
      let (text, encoded) = encode_primary_key-total name t key out n.known (
        normalize_primary_key-cong precedes t n.well.names row key (unfold keys_of in c.keys) c.same
          normal) in
      (text, encode_row-eq name t row key text n.known c.collects encoded)

  next_table-total :
      (op : RowOperation) (rows : Dict Fields) {key : String}
      → key_of precedes schema op ≡ ok key
      → (next : Dict Fields) × (next_table precedes schema op rows ≡ ok next)
  next_table-total (put_row name row) rows {key} h = (put key row rows, rw h refl)
  next_table-total (delete_row name k) rows {key} h = (remove key rows, rw h refl)

  -- What a value is normalized to, under a schema whose tables are well formed, can be applied to every
  -- database of that schema: what the authority accepts never fails when it is applied, at the
  -- authority or at a replica.
  pub apply_row_operation-total :
      (state : ReplicaDatabaseState) (value : Json) (op : RowOperation)
      → IsSchema schema
      → state.schema_hash ≡ schema.schema_hash
      → normalize_row_operation precedes schema value ≡ ok op
      → (next : ReplicaDatabaseState) × (apply_row_operation precedes schema state op ≡ ok next)
        × (next.schema_hash ≡ schema.schema_hash)
  unfolding apply_row_operation assert_database_state_schema
  apply_row_operation-total state value op s hash h =
      let n = normalize_row_operation-Normalized precedes schema value s h in
      let again = normalize_row_operation-again precedes schema value s h in
      let same : str_eq state.schema_hash schema.schema_hash ≡ true = (str_eq_iff _ _).1 hash in
      let (key, encoded) = key_of-total op n in
      let (rows, changes) =
        next_table-total op (table_state (lookup (table_of op) state.tables)) encoded in
      (
        record state { tables = put (table_of op) rows state.tables },
        rw (same, again, changes) refl,
        hash,
      )

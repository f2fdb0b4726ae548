-- ===== src/Row/Typed.antt =====
-- Rows of src/client/row hold what the schema says: every row of a database that operations have made.
pub mod Steps
use sync_engine_v.Base.{
  ℕ, ◌≤◌, String, Bool, true, false, ◌≡◌, ◌≢◌, refl, sym, ap, ◌∙◌, subst, inl, inr, List, [], ◌∷◌,
  Option, none, some, arith, All, All-map, str_eq, str_eq_iff, str_eq→eq, ◌&&◌, Bool-cases,
  Option-cases, some-injective, none-ne-some, if◌then◌else◌,
}
use sync_engine_v.Base.Dict.{Dict, lookup}
use sync_engine_v.Errors.{
  ok, err, ok-injective, ok-ne-err, >>=-eq-ok, >>-eq-ok, throw_if, throw_if-eq-ok, row_operation,
  ◌>>=◌,
}
use sync_engine_v.Json.{
  Json, null, bool, number, numeral, string, array, object, Items, nil, cons, Fields, end, field,
  member,
}
use sync_engine_v.Row.{
  SqliteAffinity, integer, real, text, blob, numeric, ReplicaColumnContract, ReplicaTableContract,
  ReplicaSchemaContract, ReplicaDatabaseState, RowOperation, put_row, delete_row,
  normalize_column_value, column_value, normalize_columns, normalize_full_row, has_unknown_column,
  are_bytes, table_of, apply_row_operation, create_initial_database_state, empty_tables,
}
use sync_engine_v.Row.Normal.Fields.{Has, normalize_columns-Has}
use sync_engine_v.Row.Normal.Operation.{
  IsTable, IsSchema, IsNormal, Normalized, normalize_row_operation-Normalized, require_table-eq-ok,
}
use sync_engine_v.Row.Table.{row_at, written, IsApplied, apply_row_operation-IsApplied}

-- The bytes of a blob.
pub data AreBytes : Items → Type 0 where
  no_byte : AreBytes nil
  byte : {n : ℕ} {rest : Items} → n ≤ 255 → AreBytes rest → AreBytes (cons (number n) rest)

-- The numbers, natural or not; each is finite.
pub data IsNumber : Json → Type 0 where
  natural : (n : ℕ) → IsNumber (number n)
  other_number : (s : String) → IsNumber (numeral s)

-- The values that a column of an affinity may hold.
pub data IsOf : SqliteAffinity → Json → Type 0 where
  in_integer : {v : Json} → IsNumber v → IsOf integer v
  in_real : {v : Json} → IsNumber v → IsOf real v
  a_text : (s : String) → IsOf text (string s)
  some_bytes : {items : Items} → AreBytes items → IsOf blob (array items)
  in_numeric : {v : Json} → IsNumber v → IsOf numeric v
  a_decimal : (s : String) → IsOf numeric (string s)

-- A value of a column: null if it may be, or a value of the column's affinity.
pub data IsValueOf (column : ReplicaColumnContract) : Json → Type 0 where
  is_null : column.nullable ≡ true → IsValueOf column null
  is_of : {v : Json} → IsOf column.affinity v → IsValueOf column v

-- A row of a table: a value for each of its columns, and nothing else.
pub record IsRowOf (table : ReplicaTableContract) (row : Fields) : Type 0 where
  pub values :
      All
        (λ (c : String × ReplicaColumnContract).
          (v : Json) × (member c.0 row ≡ some v) × IsValueOf c.1 v)
        table.columns
  pub known :
      (name : String) (v : Json)
      → member name row ≡ some v
      → (column : ReplicaColumnContract) × (lookup name table.columns ≡ some column)

-- A database whose rows are all of the tables of the schema.
abbrev pub IsTyped : ReplicaSchemaContract → ReplicaDatabaseState → Type 0
IsTyped schema state =
    (name key : String) (row : Fields)
    → row_at state name key ≡ some row
    → (table : ReplicaTableContract) × (lookup name schema.tables ≡ some table) × IsRowOf table row

are_bytes-AreBytes : (items : Items) → are_bytes items ≡ true → AreBytes items
unfolding are_bytes
are_bytes-AreBytes nil h = no_byte
are_bytes-AreBytes (cons (number n) rest) h =
    byte (ground arith) (are_bytes-AreBytes rest (ground arith))
are_bytes-AreBytes (cons null rest) h = absurd (ground arith)
are_bytes-AreBytes (cons (bool b) rest) h = absurd (ground arith)
are_bytes-AreBytes (cons (numeral s) rest) h = absurd (ground arith)
are_bytes-AreBytes (cons (string s) rest) h = absurd (ground arith)
are_bytes-AreBytes (cons (array items) rest) h = absurd (ground arith)
are_bytes-AreBytes (cons (object fields) rest) h = absurd (ground arith)

normalize_number-IsOf :
    (column : ReplicaColumnContract) (affinity : SqliteAffinity) (m : ℕ) (n : Json)
    → column.affinity ≡ affinity
    → normalize_column_value column (number m) ≡ ok n
    → IsOf affinity n
unfolding normalize_column_value
normalize_number-IsOf column integer m n a h =
    subst (IsOf integer) (ok-injective (rw a at h)) (in_integer (natural m))
normalize_number-IsOf column real m n a h =
    subst (IsOf real) (ok-injective (rw a at h)) (in_real (natural m))
normalize_number-IsOf column numeric m n a h =
    subst (IsOf numeric) (ok-injective (rw a at h)) (in_numeric (natural m))
normalize_number-IsOf column text m n a h = absurd (ok-ne-err (sym (rw a at h)))
normalize_number-IsOf column blob m n a h = absurd (ok-ne-err (sym (rw a at h)))

normalize_numeral-IsOf :
    (column : ReplicaColumnContract) (affinity : SqliteAffinity) (s : String) (n : Json)
    → column.affinity ≡ affinity
    → normalize_column_value column (numeral s) ≡ ok n
    → IsOf affinity n
unfolding normalize_column_value
normalize_numeral-IsOf column integer s n a h =
    subst (IsOf integer) (ok-injective (rw a at h)) (in_integer (other_number s))
normalize_numeral-IsOf column real s n a h =
    subst (IsOf real) (ok-injective (rw a at h)) (in_real (other_number s))
normalize_numeral-IsOf column numeric s n a h =
    subst (IsOf numeric) (ok-injective (rw a at h)) (in_numeric (other_number s))
normalize_numeral-IsOf column text s n a h = absurd (ok-ne-err (sym (rw a at h)))
normalize_numeral-IsOf column blob s n a h = absurd (ok-ne-err (sym (rw a at h)))

normalize_string-IsOf :
    (column : ReplicaColumnContract) (affinity : SqliteAffinity) (s : String) (n : Json)
    → column.affinity ≡ affinity
    → normalize_column_value column (string s) ≡ ok n
    → IsOf affinity n
unfolding normalize_column_value
normalize_string-IsOf column text s n a h = subst (IsOf text) (ok-injective (rw a at h)) (a_text s)
normalize_string-IsOf column numeric s n a h =
    subst (IsOf numeric) (ok-injective (rw a at h)) (a_decimal s)
normalize_string-IsOf column integer s n a h = absurd (ok-ne-err (sym (rw a at h)))
normalize_string-IsOf column real s n a h = absurd (ok-ne-err (sym (rw a at h)))
normalize_string-IsOf column blob s n a h = absurd (ok-ne-err (sym (rw a at h)))

normalize_array-IsOf :
    (column : ReplicaColumnContract) (affinity : SqliteAffinity) (items : Items) (n : Json)
    → column.affinity ≡ affinity
    → normalize_column_value column (array items) ≡ ok n
    → IsOf affinity n
unfolding normalize_column_value
normalize_array-IsOf column blob items n a h = elim (Bool-cases (are_bytes items)) [
  | inl bytes ↦
      subst (IsOf blob) (ok-injective (rw (a, bytes) at h))
        (some_bytes (are_bytes-AreBytes items bytes))
  | inr other ↦ absurd (ok-ne-err (sym (rw (a, other) at h)))
]
normalize_array-IsOf column text items n a h = absurd (ok-ne-err (sym (rw a at h)))
normalize_array-IsOf column numeric items n a h = absurd (ok-ne-err (sym (rw a at h)))
normalize_array-IsOf column integer items n a h = absurd (ok-ne-err (sym (rw a at h)))
normalize_array-IsOf column real items n a h = absurd (ok-ne-err (sym (rw a at h)))

null-IsValueOf :
    (column : ReplicaColumnContract) (message : String) (n : Json)
    → (if column.nullable then ok null else err (row_operation message)) ≡ ok n
    → IsValueOf column n
null-IsValueOf column message n h = elim (Bool-cases column.nullable) [
  | inl may ↦ subst (IsValueOf column) (ok-injective (rw may at h)) (is_null may)
  | inr not_null ↦ absurd (ok-ne-err (sym (rw not_null at h)))
]

-- What a column takes is one of its values.
column_value-IsValueOf :
    (column : ReplicaColumnContract) (o : Option Json) (n : Json)
    → column_value column o ≡ ok n
    → IsValueOf column n
unfolding normalize_column_value
column_value-IsValueOf column none n h =
    null-IsValueOf column "row is missing a non-null column" n h
column_value-IsValueOf column (some null) n h = null-IsValueOf column "column is not nullable" n h
column_value-IsValueOf column (some (number m)) n h =
    is_of (normalize_number-IsOf column column.affinity m n refl h)
column_value-IsValueOf column (some (numeral s)) n h =
    is_of (normalize_numeral-IsOf column column.affinity s n refl h)
column_value-IsValueOf column (some (string s)) n h =
    is_of (normalize_string-IsOf column column.affinity s n refl h)
column_value-IsValueOf column (some (array items)) n h =
    is_of (normalize_array-IsOf column column.affinity items n refl h)
column_value-IsValueOf column (some (bool b)) n h = absurd (ok-ne-err (sym h))
column_value-IsValueOf column (some (object fields)) n h = absurd (ok-ne-err (sym h))

has_unknown_column-eq-false :
    (columns : Dict ReplicaColumnContract) (row : Fields) (name : String) (v : Json)
    → has_unknown_column columns row ≡ false
    → member name row ≡ some v
    → (column : ReplicaColumnContract) × (lookup name columns ≡ some column)
unfolding has_unknown_column member
has_unknown_column-eq-false columns end name v known there = absurd (none-ne-some there)
has_unknown_column-eq-false columns (field k w rest) name v known there =
    elim (Option-cases (lookup k columns)) [
      | inl absent ↦ absurd (ground (arith, absent, known))
      | inr (column, found) ↦ elim (Bool-cases (str_eq k name)) [
        | inl same ↦ (column, subst (λ k. lookup k columns ≡ some column) (str_eq→eq same) found)
        | inr other ↦
            has_unknown_column-eq-false columns rest name v (ground (arith, found, known))
              (ground (arith, other, there))
      ]
    ]

-- A row that is normal is of its table.
pub normalize_full_row-IsRowOf :
    (table : ReplicaTableContract) (row : Fields)
    → IsTable table
    → normalize_full_row table (some (object row)) ≡ ok row
    → IsRowOf table row
unfolding normalize_full_row
normalize_full_row-IsRowOf table row t h =
    let (known, h₁) =
      (>>-eq-ok
          (throw_if (has_unknown_column table.columns row)
            (row_operation "row contains unknown columns"))
          (normalize_columns row end table.columns)).0
        h in
    record {
      values =
          All-map (Has row row) table.columns
            (λ c has. (
              has.normal,
              has.there,
              column_value-IsValueOf c.1 (member c.0 row) has.normal has.taken,
            ))
            (normalize_columns-Has row end table.columns t.columns h₁);
      known = λ name v there.
          has_unknown_column-eq-false table.columns row name v ((throw_if-eq-ok _ _).0 known) there;
    }

-- ===== src/Tests/Rows.antt =====
-- Runs of the row operations of src/client/row, on a table of notes.
use sync_engine_v.Base.{
  String, Bool, true, false, ◌≡◌, refl, subst, inl, inr, [], ◌∷◌, some-injective, none-ne-some,
  Bool-cases, str_eq,
}
use sync_engine_v.Base.Dict.{lookup}
use sync_engine_v.Json.{null, number, numeral, string, array, nil, cons, Fields, end, field}
use sync_engine_v.Errors.{ok, err, row_operation}
use sync_engine_v.Row.{
  text, integer, blob, normalize_column_value, column_type_error, ReplicaTableContract,
  ReplicaSchemaContract, ReplicaDatabaseState, RowOperation, put_row, delete_row, operation_json,
  create_initial_database_state, normalize_row_operation, apply_row_operation,
  assert_row_replication_schema,
}
use sync_engine_v.Row.Normal.Operation.{IsTable, IsSchema, normalize_row_operation-again}
use sync_engine_v.Row.Table.{IsApplied, apply_row_operation-IsApplied}
use sync_engine_v.Row.Total.{apply_row_operation-total}
use sync_engine_v.Row.Typed.{IsTyped}
use sync_engine_v.Row.Typed.Steps.{created, applied, RowSteps-IsTyped}

abbrev pub in_order : String → String → Bool
in_order s t = true

abbrev notes : ReplicaTableContract
notes = record {
  primary_key = "id" ∷ [];
  columns =
      ("id", record { affinity = text; nullable = false; generated = false })
      ∷ ("body", record { affinity = text; nullable = true; generated = false })
      ∷ ("stars", record { affinity = integer; nullable = false; generated = false })
      ∷ [];
}

abbrev pub schema : ReplicaSchemaContract
schema = record { schema_hash = "sha256:1"; tables = ("notes", notes) ∷ [] }

schema_passes : assert_row_replication_schema schema ≡ ok tt
unfolding assert_row_replication_schema
schema_passes = refl

abbrev pub initial : ReplicaDatabaseState
initial = record { schema_hash = "sha256:1"; tables = ("notes", []) ∷ [] }

schema_created : create_initial_database_state schema ≡ ok initial
unfolding create_initial_database_state
schema_created = refl

notes-IsTable : IsTable notes
unfolding lookup
notes-IsTable = record {
  columns = (refl, (refl, (refl, tt)));
  names = (tt, tt);
  key = (
    record {
      column = record { affinity = text; nullable = false; generated = false };
      there = refl;
      required = refl;
    },
    tt,
  );
}

pub schema-IsSchema : IsSchema schema
unfolding lookup
schema-IsSchema name table there = elim (Bool-cases (str_eq "notes" name)) [
  | inl same ↦ subst IsTable (some-injective (rw same at there)) notes-IsTable
  | inr other ↦ absurd (none-ne-some (rw other at there))
]

-- a row without its nullable column, its fields out of order
abbrev pub given : Fields
given = field "stars" (number 3) (field "id" (string "a") end)

abbrev pub normal : RowOperation
normal =
    put_row "notes" (field "id" (string "a") (field "body" null (field "stars" (number 3) end)))

pub given_normal :
    normalize_row_operation in_order schema (operation_json (put_row "notes" given)) ≡ ok normal
unfolding normalize_row_operation
given_normal = refl

normalize_row_operation-again_example :
    normalize_row_operation in_order schema (operation_json normal) ≡ ok normal
normalize_row_operation-again_example =
    normalize_row_operation-again in_order schema (operation_json (put_row "notes" given))
      schema-IsSchema given_normal

apply_row_operation-total_example :
    (next : ReplicaDatabaseState) × (apply_row_operation in_order schema initial normal ≡ ok next)
    × (next.schema_hash ≡ schema.schema_hash)
apply_row_operation-total_example =
    apply_row_operation-total in_order schema initial (operation_json (put_row "notes" given))
      normal schema-IsSchema refl given_normal

abbrev pub with_note : ReplicaDatabaseState
with_note = record {
  schema_hash = "sha256:1";
  tables =
      (
        "notes",
        ("[\"a\"]", field "id" (string "a") (field "body" null (field "stars" (number 3) end)))
            ∷ [],
      )
      ∷ [];
}

note_applied : apply_row_operation in_order schema initial (put_row "notes" given) ≡ ok with_note
unfolding apply_row_operation
note_applied = refl

apply_row_operation-IsApplied_example :
    IsApplied in_order schema (put_row "notes" given) initial with_note
apply_row_operation-IsApplied_example =
    apply_row_operation-IsApplied in_order schema initial (put_row "notes" given) note_applied

RowSteps-IsTyped_example : IsTyped schema with_note
RowSteps-IsTyped_example =
    RowSteps-IsTyped in_order schema schema-IsSchema with_note
      (applied (put_row "notes" given) (created schema_created) note_applied)

-- A fraction is a number of an integer column, and no byte of a blob.
half_stars :
    normalize_column_value
      (record { affinity = integer; nullable = false; generated = false })
      (numeral "0.5")
    ≡ ok (numeral "0.5")
unfolding normalize_column_value
half_stars = refl

half_byte :
    normalize_column_value
      (record { affinity = blob; nullable = false; generated = false })
      (array (cons (number 1) (cons (numeral "0.5") nil)))
    ≡ column_type_error
unfolding normalize_column_value
half_byte = refl

deleted :
    apply_row_operation in_order schema with_note (delete_row "notes" (field "id" (string "a") end))
    ≡ ok initial
unfolding apply_row_operation
deleted = refl

-- A schema whose primary key is nullable passes the check of schemas.
abbrev loose : ReplicaSchemaContract
loose = record {
  schema_hash = "sha256:2";
  tables =
      (
        "notes",
        record {
          primary_key = "id" ∷ [];
          columns = ("id", record { affinity = text; nullable = true; generated = false }) ∷ [];
        },
      )
      ∷ [];
}

loose_passes : assert_row_replication_schema loose ≡ ok tt
unfolding assert_row_replication_schema
loose_passes = refl

-- A row without its key is normalized under it, and cannot be applied.
keyless_normal :
    normalize_row_operation in_order loose (operation_json (put_row "notes" end))
    ≡ ok (put_row "notes" (field "id" null end))
unfolding normalize_row_operation
keyless_normal = refl

keyless_fails :
    apply_row_operation in_order loose
      (record { schema_hash = "sha256:2"; tables = [] })
      (put_row "notes" (field "id" null end))
    ≡ err (row_operation "primary-key column cannot be null or missing")
unfolding apply_row_operation
keyless_fails = refl

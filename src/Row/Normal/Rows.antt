-- ===== src/Row/Normal/Rows.antt =====
-- The rows that src/client/row/normalization.ts makes, as wholes.
use sync_engine_v.Row.Normal.Fields.{
  IsDistinctDict, Has, normalize_columns-Has, normalize_columns-again,
}
use sync_engine_v.Base.{
  String, ◌≡◌, refl, sym, ap, ◌∙◌, subst, false, inl, inr, [], ◌∷◌, Option, none, some, arith, All,
  str_eq, str_eq→eq, str_eq_iff, str_eq_refl, Bool-cases, none-ne-some,
}
use sync_engine_v.Base.Dict.{Dict, lookup}
use sync_engine_v.Errors.{ok, ok-injective, throw_if, row_operation, >>=-eq-ok, >>-eq-ok}
use sync_engine_v.Json.{Json, object, Fields, end, field, member}
use sync_engine_v.Row.{
  ReplicaColumnContract, set_field, has_unknown_column, column_value, normalize_columns,
  ReplicaTableContract, normalize_full_row, plain_record,
}

-- `c` is a column of a table
abbrev pub IsColumn : Dict ReplicaColumnContract → String × ReplicaColumnContract → Type 0
IsColumn columns c = lookup (c.0) columns ≡ some (c.1)

has_unknown_column-set_field :
    (columns : Dict ReplicaColumnContract) (c : String × ReplicaColumnContract) (v : Json)
    (row : Fields)
    → IsColumn columns c
    → has_unknown_column columns row ≡ false
    → has_unknown_column columns (set_field (c.0) v row) ≡ false
unfolding has_unknown_column set_field
has_unknown_column-set_field columns c v end known h = rw (known, has_unknown_column) refl
has_unknown_column-set_field columns c v (field k w rest) known h =
    ground (arith, known, str_eq_iff k (c.0), has_unknown_column-set_field columns c v rest known)

normalize_columns-known :
    (columns : Dict ReplicaColumnContract) (value row : Fields)
    (some_columns : Dict ReplicaColumnContract) {out : Fields}
    → All (IsColumn columns) some_columns
    → has_unknown_column columns row ≡ false
    → normalize_columns value row some_columns ≡ ok out
    → has_unknown_column columns out ≡ false
unfolding normalize_columns
normalize_columns-known columns value row [] known fine h =
    subst (λ out. has_unknown_column columns out ≡ false) (ok-injective h) fine
normalize_columns-known columns value row ((name, column) ∷ rest) known fine h =
    let (n, taken, h₁) = >>=-eq-ok (column_value column (member name value)) _ h in
    normalize_columns-known columns value (set_field name n row) rest known.1
      (has_unknown_column-set_field columns (name, column) n row known.0 fine) h₁

All-IsColumn-cons :
    (name : String) (column : ReplicaColumnContract)
    (rest some_columns : Dict ReplicaColumnContract)
    → lookup name rest ≡ none
    → All (IsColumn rest) some_columns
    → All (IsColumn ((name, column) ∷ rest)) some_columns
unfolding lookup
All-IsColumn-cons name column rest [] fresh h = tt
All-IsColumn-cons name column rest ((k, c) ∷ more) fresh h = (
  elim (Bool-cases (str_eq name k)) [
    | inl same ↦ absurd (none-ne-some (sym fresh ∙ ap (λ j. lookup j rest) (str_eq→eq same) ∙ h.0))
    | inr other ↦ rw other h.0
  ],
  All-IsColumn-cons name column rest more fresh h.1,
)

-- Every column of a table is one.
pub All-IsColumn :
    (columns : Dict ReplicaColumnContract) → IsDistinctDict columns → All (IsColumn columns) columns
unfolding lookup
All-IsColumn [] d = tt
All-IsColumn ((name, column) ∷ rest) d = (
  rw (str_eq_refl name) refl,
  All-IsColumn-cons name column rest rest d.0 (All-IsColumn rest d.1),
)

pub normalize_full_row-again :
    (table : ReplicaTableContract) (value : Option Json) {row : Fields}
    → IsDistinctDict table.columns
    → normalize_full_row table value ≡ ok row
    → normalize_full_row table (some (object row)) ≡ ok row
unfolding normalize_full_row
normalize_full_row-again table value {row} d h =
    let (fields, plain, h₁) =
      >>=-eq-ok (plain_record value "putRow requires a plain row object") _ h in
    let (_, h₂) =
      (>>-eq-ok
          (throw_if (has_unknown_column table.columns fields)
            (row_operation "row contains unknown columns"))
          _).0
        h₁ in
    let known =
      normalize_columns-known table.columns fields end table.columns (All-IsColumn table.columns d)
        (unfold has_unknown_column in refl) h₂ in
    rw (plain_record, known) (normalize_columns-again fields table.columns d h₂)

-- A row that the table takes as it is has a value for each of its columns that the column takes as it is.
pub normalize_full_row-Has :
    (table : ReplicaTableContract) (row : Fields)
    → IsDistinctDict table.columns
    → normalize_full_row table (some (object row)) ≡ ok row
    → All (Has row row) table.columns
unfolding normalize_full_row plain_record
normalize_full_row-Has table row d h =
    let (_, h₁) =
      (>>-eq-ok
          (throw_if (has_unknown_column table.columns row)
            (row_operation "row contains unknown columns"))
          _).0
        h in
    normalize_columns-Has row end table.columns d h₁

-- what is so of all columns is so of one
pub All-lookup :
    (P : String × ReplicaColumnContract → Type 0) (columns : Dict ReplicaColumnContract)
    (name : String) (column : ReplicaColumnContract)
    → All P columns
    → lookup name columns ≡ some column
    → P (name, column)
unfolding lookup
All-lookup P [] name column h there = absurd (none-ne-some there)
All-lookup P ((k, c) ∷ rest) name column h there = elim (Bool-cases (str_eq k name)) [
  | inl same ↦ subst P (ground (arith, str_eq_iff k name)) h.0
  | inr other ↦ All-lookup P rest name column h.1 (rw (other, lookup) at there)
]

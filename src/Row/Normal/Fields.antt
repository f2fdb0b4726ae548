-- ===== src/Row/Normal/Fields.antt =====
-- Rows that src/client/row/normalization.ts builds field by field, and the values of columns.
use sync_engine_v.Base.{
  String, ◌≡◌, refl, sym, ap, ◌∙◌, subst, false, inl, inr, [], ◌∷◌, Option, none, some, arith, All,
  All-map, str_eq, str_eq_iff, str_eq_refl, if◌then◌else◌,
}
use sync_engine_v.Base.Dict.{Dict, lookup}
use sync_engine_v.Errors.{ok, ok-injective, ok-ne-err, >>=-eq-ok, Result-cases}
use sync_engine_v.Json.{
  Json, null, bool, number, numeral, string, array, object, Fields, end, field, member,
}
use sync_engine_v.Row.{
  ReplicaColumnContract, set_field, normalize_column_value, column_value, normalize_columns,
}

pub member-set_field :
    (j k : String) (v : Json) (fields : Fields)
    → member j (set_field k v fields) ≡ (if str_eq k j then some v else member j fields)
unfolding member set_field
member-set_field j k v end = refl
member-set_field j k v (field i w rest) =
    ground (arith, str_eq_iff i k, str_eq_iff i j, str_eq_iff k j, member-set_field j k v rest)

-- A normal value of a column is taken as it is.
pub normalize_column_value-again :
    (column : ReplicaColumnContract) (v n : Json) → normalize_column_value column v ≡ ok n → (n ≡ v)
unfolding normalize_column_value
normalize_column_value-again column null n h = ground arith
normalize_column_value-again column (bool b) n h = absurd (ok-ne-err (sym h))
normalize_column_value-again column (object fields) n h = absurd (ok-ne-err (sym h))
normalize_column_value-again column (number m) n h = ground arith
normalize_column_value-again column (numeral s) n h = ground arith
normalize_column_value-again column (string s) n h = ground arith
normalize_column_value-again column (array items) n h = ground arith

column_value-again :
    (column : ReplicaColumnContract) (o : Option Json) (n : Json)
    → column_value column o ≡ ok n
    → column_value column (some n) ≡ ok n
unfolding normalize_column_value
column_value-again column none n h = ground arith
column_value-again column (some v) n h =
    subst (λ w. normalize_column_value column w ≡ ok n)
      (sym (normalize_column_value-again column v n h)) h

-- No two columns have one name.
abbrev pub IsDistinctDict : {A : Type 0} → Dict A → Type 0
IsDistinctDict [] = Unit
IsDistinctDict ((name, v) ∷ rest) = (lookup name rest ≡ none) × IsDistinctDict rest

-- A row has for a column what the column makes of a value.
pub record Has (value row : Fields) (c : String × ReplicaColumnContract) : Type 0 where
  pub normal : Json
  pub there : member c.0 row ≡ some normal
  pub taken : column_value c.1 (member c.0 value) ≡ ok normal

-- a key that is not there is not at the head, nor behind it
lookup-tail :
    {A : Type 0} (name k : String) (v : A) (rest : Dict A)
    → lookup k ((name, v) ∷ rest) ≡ none
    → (str_eq name k ≡ false) × (lookup k rest ≡ none)
unfolding lookup
lookup-tail name k v rest h = ground arith

normalize_columns-member :
    (value row : Fields) (columns : Dict ReplicaColumnContract) (k : String) {out : Fields}
    → lookup k columns ≡ none
    → normalize_columns value row columns ≡ ok out
    → member k out ≡ member k row
unfolding normalize_columns
normalize_columns-member value row [] k absent h = ap (member k) (sym (ok-injective h))
normalize_columns-member value row ((name, column) ∷ rest) k absent h =
    let (n, taken, h₁) = >>=-eq-ok (column_value column (member name value)) _ h in
    let later =
      normalize_columns-member value (set_field name n row) rest k
        (lookup-tail name k column rest absent).1 h₁ in
    later
    ∙ member-set_field k name n row
    ∙ ap (λ b. if b then some n else member k row) (lookup-tail name k column rest absent).0

pub normalize_columns-Has :
    (value row : Fields) (columns : Dict ReplicaColumnContract) {out : Fields}
    → IsDistinctDict columns
    → normalize_columns value row columns ≡ ok out
    → All (Has value out) columns
unfolding normalize_columns
normalize_columns-Has value row [] d h = tt
normalize_columns-Has value row ((name, column) ∷ rest) d h =
    let (n, taken, h₁) = >>=-eq-ok (column_value column (member name value)) _ h in
    (
      record {
        normal = n;
        there =
            normalize_columns-member value (set_field name n row) rest name d.0 h₁
            ∙ member-set_field name name n row
            ∙ ap (λ b. if b then some n else member name row) (str_eq_refl name);
        taken = taken;
      },
      normalize_columns-Has value (set_field name n row) rest d.1 h₁,
    )

-- Only what the row has for the columns counts.
normalize_columns-cong :
    (value value' row : Fields) (columns : Dict ReplicaColumnContract)
    → All
        (λ c. column_value (c.1) (member (c.0) value) ≡ column_value (c.1) (member (c.0) value'))
        columns
    → normalize_columns value row columns ≡ normalize_columns value' row columns
unfolding normalize_columns
normalize_columns-cong value value' row [] h = refl
normalize_columns-cong value value' row ((name, column) ∷ rest) h =
    elim (Result-cases (column_value column (member name value'))) [
      | inl (e, failed) ↦ rw (h.0, failed) refl
      | inr (n, taken) ↦
          rw (h.0, taken) (normalize_columns-cong value value' (set_field name n row) rest h.1)
    ]

-- A normal row is normal for the same columns.
pub normalize_columns-again :
    (value : Fields) (columns : Dict ReplicaColumnContract) {out : Fields}
    → IsDistinctDict columns
    → normalize_columns value end columns ≡ ok out
    → normalize_columns out end columns ≡ ok out
normalize_columns-again value columns {out} d h =
    normalize_columns-cong out value end columns (
      All-map (Has value out) columns
        (λ c has.
          ap (column_value (c.1)) has.there
          ∙ column_value-again (c.1) (member (c.0) value) has.normal has.taken
          ∙ sym has.taken)
        (normalize_columns-Has value end columns d h))
    ∙ h

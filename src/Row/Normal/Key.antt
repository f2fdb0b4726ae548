-- ===== src/Row/Normal/Key.antt =====
-- Primary keys that src/client/row/normalization.ts builds column by column.
use sync_engine_v.Base.{
  String, ◌≡◌, refl, sym, ap, ◌∙◌, Bool, true, false, inl, inr, List, [], ◌∷◌, ◌++◌, Option, none,
  some, arith, All, All-map, str_eq, str_eq_iff, str_eq_refl, if◌then◌else◌, append-nil,
  append_assoc, not,
}
use sync_engine_v.Base.Dict.{Dict, lookup}
use sync_engine_v.Errors.{
  ok, row_operation, throw_if, ok-injective, ok-ne-err, >>=-eq-ok, >>-eq-ok, Result-cases,
}
use sync_engine_v.Json.{Json, null, object, Fields, end, field, member}
use sync_engine_v.Row.{
  ReplicaColumnContract, ReplicaTableContract, set_field, keys_of, same_keys, sort_keys,
  normalize_column_value, key_candidate, key_column, normalize_key_columns, normalize_primary_key,
  plain_record,
}
use sync_engine_v.Row.Normal.Fields.{member-set_field, normalize_column_value-again}

-- No name stands twice.
abbrev pub IsDistinctNames : List String → Type 0
IsDistinctNames [] = Unit
IsDistinctNames (name ∷ rest) = All (λ other. str_eq name other ≡ false) rest × IsDistinctNames rest

abbrev pub IsAbsent : Fields → String → Type 0
IsAbsent fields name = member name fields ≡ none

pub keys_of-set_field :
    (name : String) (v : Json) (key : Fields)
    → IsAbsent key name
    → keys_of (set_field name v key) ≡ keys_of key ++ name ∷ []
unfolding keys_of set_field member
keys_of-set_field name v end absent = refl
keys_of-set_field name v (field k w rest) absent = ground (arith, keys_of-set_field name v rest)

pub All-IsAbsent-set_field :
    (name : String) (v : Json) (key : Fields) (names : List String)
    → All (λ other. str_eq name other ≡ false) names
    → All (IsAbsent key) names
    → All (IsAbsent (set_field name v key)) names
All-IsAbsent-set_field name v key [] other absent = tt
All-IsAbsent-set_field name v key (n ∷ ns) other absent = (
  rw (member-set_field n name v key, other.0) absent.0,
  All-IsAbsent-set_field name v key ns other.1 absent.1,
)

pub key_candidate-ok :
    (o : Option Json) {v : Json}
    → key_candidate o ≡ ok v
    → (o ≡ some v) × (key_candidate (some v) ≡ ok v)
key_candidate-ok none h = absurd (ok-ne-err (sym h))
key_candidate-ok (some null) h = absurd (ok-ne-err (sym h))
key_candidate-ok (some (Json.bool b)) h = ground arith
key_candidate-ok (some (Json.number n)) h = ground arith
key_candidate-ok (some (Json.numeral s)) h = ground arith
key_candidate-ok (some (Json.string s)) h = ground arith
key_candidate-ok (some (Json.array items)) h = ground arith
key_candidate-ok (some (object fields)) h = ground arith

-- A key has a column's value.
pub record HasKey (value key : Fields) (name : String) : Type 0 where
  pub kept : member name key ≡ member name value
  pub candidate : Json
  pub usable : key_candidate (member name value) ≡ ok candidate

module _ (columns : Dict ReplicaColumnContract) (value : Fields) where
  normalize_key_columns-member :
      (key : Fields) (names : List String) (k : String) {out : Fields}
      → All (λ name. str_eq k name ≡ false) names
      → normalize_key_columns columns value key names ≡ ok out
      → member k out ≡ member k key
  unfolding normalize_key_columns
  normalize_key_columns-member key [] k other h = ap (member k) (sym (ok-injective h))
  normalize_key_columns-member key (name ∷ rest) k other h =
      let (column, there, h₁) = >>=-eq-ok (key_column (lookup name columns)) _ h in
      let (v, found, h₂) = >>=-eq-ok (key_candidate (member name value)) _ h₁ in
      let (n, taken, h₃) =
        >>=-eq-ok (normalize_column_value (record column { nullable = false }) v) _ h₂ in
      let differs : str_eq name k ≡ false =
        ground (arith, other.0, str_eq_iff name k, str_eq_iff k name) in
      normalize_key_columns-member (set_field name n key) rest k other.1 h₃
      ∙ member-set_field k name n key
      ∙ ap (λ b. if b then some n else member k key) differs

  pub normalize_key_columns-HasKey :
      (key : Fields) (names : List String) {out : Fields}
      → IsDistinctNames names
      → All (IsAbsent key) names
      → normalize_key_columns columns value key names ≡ ok out
      → All (HasKey value out) names × (keys_of out ≡ keys_of key ++ names)
  unfolding normalize_key_columns
  normalize_key_columns-HasKey key [] d absent h =
      (tt, ap keys_of (sym (ok-injective h)) ∙ sym (append-nil (keys_of key)))
  normalize_key_columns-HasKey key (name ∷ rest) d absent h =
      let (column, there, h₁) = >>=-eq-ok (key_column (lookup name columns)) _ h in
      let (v, found, h₂) = >>=-eq-ok (key_candidate (member name value)) _ h₁ in
      let (n, taken, h₃) =
        >>=-eq-ok (normalize_column_value (record column { nullable = false }) v) _ h₂ in
      let (has, keys) =
        normalize_key_columns-HasKey (set_field name n key) rest d.1
          (All-IsAbsent-set_field name n key rest d.0 absent.1) h₃ in
      (
        (
          record {
            kept =
                normalize_key_columns-member (set_field name n key) rest name d.0 h₃
                ∙ member-set_field name name n key
                ∙ ap (λ b. if b then some n else member name key) (str_eq_refl name)
                ∙ ap some
                    (normalize_column_value-again (record column { nullable = false }) v n taken)
                ∙ sym (key_candidate-ok (member name value) found).0;
            candidate = v;
            usable = found;
          },
          has,
        ),
        keys
            ∙ ap (λ ks. ks ++ rest) (keys_of-set_field name n key absent.0)
            ∙ append_assoc (keys_of key) (name ∷ []) rest,
      )

  -- Only what the value has for the key's columns counts.
  pub normalize_key_columns-cong :
      (value' key : Fields) (names : List String)
      → All (λ name. member name value' ≡ member name value) names
      → normalize_key_columns columns value' key names
        ≡ normalize_key_columns columns value key names
  unfolding normalize_key_columns
  normalize_key_columns-cong value' key [] same = refl
  normalize_key_columns-cong value' key (name ∷ rest) same =
      rw same.0 (elim (Result-cases (key_column (lookup name columns))) [
        | inl (e, failed) ↦ rw failed refl
        | inr (column, there) ↦ rw there (elim (Result-cases (key_candidate (member name value))) [
          | inl (e, failed) ↦ rw failed refl
          | inr (v, found) ↦
              rw found
                (elim (Result-cases
                  (normalize_column_value (record column { nullable = false }) v)) [
                    | inl (e, failed) ↦ rw failed refl
                    | inr (n, taken) ↦
                        rw taken
                          (normalize_key_columns-cong value' (set_field name n key) rest same.1)
                  ])
        ])
      ])

pub same_keys_refl : (xs : List String) → same_keys xs xs ≡ true
unfolding same_keys
same_keys_refl [] = refl
same_keys_refl (x ∷ xs) = ground (arith, str_eq_refl x, same_keys_refl xs)

pub All-IsAbsent-end : (names : List String) → All (IsAbsent end) names
unfolding member
All-IsAbsent-end [] = tt
All-IsAbsent-end (n ∷ ns) = (refl, All-IsAbsent-end ns)

module _ (precedes : String → String → Bool) (table : ReplicaTableContract)
    (d : IsDistinctNames table.primary_key) where
  -- A value with the key's columns and no others, in whatever order, which has for them what a normal
  -- key has.
  pub normalize_primary_key-cong :
      (value key : Fields) {out : Fields}
      → keys_of key ≡ table.primary_key
      → All (λ name. member name key ≡ member name value) table.primary_key
      → normalize_key_columns table.columns value end table.primary_key ≡ ok out
      → normalize_primary_key precedes table (some (object key)) ≡ ok out
  unfolding normalize_primary_key plain_record
  normalize_primary_key-cong value key keys same h =
      rw (keys, same_keys_refl (sort_keys precedes table.primary_key))
        (normalize_key_columns-cong table.columns value key end table.primary_key same ∙ h)

  -- A normal key is taken as it is.
  pub normalize_primary_key-again :
      (value : Option Json) {key : Fields}
      → normalize_primary_key precedes table value ≡ ok key
      → normalize_primary_key precedes table (some (object key)) ≡ ok key
  unfolding normalize_primary_key
  normalize_primary_key-again value {key} h =
      let (fields, plain, h₁) =
        >>=-eq-ok (plain_record value "primary key must be a plain object") _ h in
      let exact =
        throw_if
          (not (
            same_keys (sort_keys precedes (keys_of fields)) (sort_keys precedes table.primary_key)))
          (row_operation "primary key must contain exactly its columns") in
      let (_, h₂) = (>>-eq-ok exact _).0 h₁ in
      let (has, keys) =
        normalize_key_columns-HasKey table.columns fields end table.primary_key d
          (All-IsAbsent-end table.primary_key) h₂ in
      normalize_primary_key-cong fields key (unfold keys_of in keys)
        (All-map (HasKey fields key) table.primary_key (λ name k. k.kept) has) h₂

-- ===== src/Json.antt =====
-- `JsonValue` of src/wire.ts. A value that is parsed from JSON has no cycles, accessors or symbols, so
-- that `canonicalizeJson` of src/fingerprint.ts accepts every one. A number is finite: it is a natural number,
-- or a fraction or a negative number, which stands by the text that `JSON.stringify` writes for it.
use sync_engine_v.Base.{
  ℕ, suc, String, ◌≡◌, refl, ap, ◌∙◌, Bool, Option, none, some, arith, str_eq, str_eq_iff,
  if◌then◌else◌,
}

mutual
  pub data Json : Type 0 where
    null : Json
    bool : Bool → Json
    number : ℕ → Json
    numeral : String → Json
    string : String → Json
    array : Items → Json
    object : Fields → Json

  pub data Items : Type 0 where
    nil : Items
    cons : Json → Items → Items

  pub data Fields : Type 0 where
    end : Fields
    field : String → Json → Fields → Fields

-- `record.key`, undefined if it is missing
unfoldable pub member : String → Fields → Option Json
member k end = none
member k (field j v rest) = if str_eq j k then some v else member k rest

-- `values.length`
unfoldable pub count : Items → ℕ
count nil = 0
count (cons v rest) = suc (count rest)

-- The language's order of strings, by which `Object.keys(value).sort()` sorts.
module _ (precedes : String → String → Bool) where
  unfoldable pub insert_field : String → Json → Fields → Fields
  insert_field k v end = field k v end
  insert_field k v (field j w rest) =
      let later = insert_field k v rest in
      if precedes k j then field k v (field j w rest) else field j w later

  -- `JSON.parse(canonicalizeJson(value))`: the fields of every object in order
  unfoldable mutual
    pub to_json_value : Json → Json
    to_json_value null = null
    to_json_value (bool b) = bool b
    to_json_value (number n) = number n
    to_json_value (numeral s) = numeral s
    to_json_value (string s) = string s
    to_json_value (array items) = array (to_json_items items)
    to_json_value (object fields) = object (to_json_fields fields)

    pub to_json_items : Items → Items
    to_json_items nil = nil
    to_json_items (cons v rest) = cons (to_json_value v) (to_json_items rest)

    pub to_json_fields : Fields → Fields
    to_json_fields end = end
    to_json_fields (field k v rest) = insert_field k (to_json_value v) (to_json_fields rest)

  member-insert_field :
      (k j : String) (v : Json) (fields : Fields)
      → member j fields ≡ none
      → member k (insert_field j v fields) ≡ (if str_eq j k then some v else member k fields)
  unfolding member insert_field
  member-insert_field k j v end h = refl
  member-insert_field k j v (field i w rest) h =
      ground (arith, str_eq_iff i j, str_eq_iff i k, str_eq_iff j k, member-insert_field k j v rest)

-- No key stands twice among the fields.
abbrev pub IsKeyed : Fields → Type 0
IsKeyed end = Unit
IsKeyed (field k v rest) = (member k rest ≡ none) × IsKeyed rest

module _ (precedes : String → String → Bool) where
  abbrev pub to_json_member : Option Json → Option Json
  to_json_member none = none
  to_json_member (some v) = some (to_json_value precedes v)

  -- Every field is still there when the fields are put in order.
  pub member-to_json_fields :
      (k : String) (fields : Fields)
      → IsKeyed fields
      → member k (to_json_fields precedes fields) ≡ to_json_member (member k fields)
  unfolding member to_json_fields
  member-to_json_fields k end keyed = refl
  member-to_json_fields k (field j v rest) keyed =
      let absent : member j (to_json_fields precedes rest) ≡ none =
        member-to_json_fields j rest keyed.1 ∙ ap to_json_member keyed.0 in
      ground (
        arith,
        member-insert_field precedes k j (to_json_value precedes v) (to_json_fields precedes rest)
            absent,
        member-to_json_fields k rest keyed.1,
      )

  pub count-to_json_items : (items : Items) → count (to_json_items precedes items) ≡ count items
  unfolding count to_json_items
  count-to_json_items nil = refl
  count-to_json_items (cons v rest) = ap suc (count-to_json_items rest)

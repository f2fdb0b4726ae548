-- ===== src/Fingerprint.antt =====
-- src/fingerprint.ts: canonical JSON texts and intent hashes. A value of JSON has no cycles, accessors,
-- symbols or prototypes, so that `canonicalizeJson` does not throw on it.
use Prim.Native.Nat.{◌/◌, ◌%◌}
use Prim.Native.Char.{code}
use Prim.Native.String.{◌++◌}
use sync_engine_v.Base.{
  ℕ, suc, String, Bool, true, false, List, [], ◌∷◌, Option, none, some, ltb, ◌==◌, if◌then◌else◌,
}
use sync_engine_v.Json.{
  Json, null, bool, number, numeral, string, array, object, Items, nil, cons, Fields, end, field,
}
use sync_engine_v.Errors.{Result, ok, err, sync_engine}
use sync_engine_v.Invariants.Position.{decimal}

-- a digit of `byte.toString(16)`
unfoldable pub hex_digit : ℕ → String
hex_digit n =
    if n == 10
    then "a"
    else if n == 11
    then "b"
    else if n == 12
    then "c"
    else if n == 13
    then "d"
    else if n == 14
    then "e"
    else if n == 15
    then "f"
    else decimal (suc n) n

-- `byte.toString(16).padStart(2, "0")`
unfoldable pub hex_byte : ℕ → String
unfolding hex_digit
hex_byte byte = hex_digit (byte / 16) ++ hex_digit (byte % 16)

-- what `JSON.stringify` makes of a character
unfoldable pub escaped : ℕ → String → String
unfolding hex_byte
escaped n c =
    if n == 34
    then "\\\""
    else if n == 92
    then "\\\\"
    else if n == 8
    then "\\b"
    else if n == 9
    then "\\t"
    else if n == 10
    then "\\n"
    else if n == 12
    then "\\f"
    else if n == 13
    then "\\r"
    else if ltb n 32
    then "\\u00" ++ hex_byte n
    else c

unfoldable pub escape : String → String
unfolding escaped
escape String.[] = ""
escape (String.◌∷◌ c s) = escaped (code c) (String.◌∷◌ c "") ++ escape s

-- `JSON.stringify(text)`
unfoldable pub quote : String → String
unfolding escape
quote s = "\"" ++ (escape s ++ "\"")

-- `texts.join(",")`
unfoldable pub join : List String → String
join [] = ""
join (s ∷ []) = s
join (s ∷ t ∷ rest) = s ++ ("," ++ join (t ∷ rest))

-- The language's order of strings, by which the keys of an object are sorted.
module _ (precedes : String → String → Bool) where
  -- a key and its value's text
  unfoldable pub insert_text : String → String → List (String × String) → List (String × String)
  insert_text key text [] = (key, text) ∷ []
  insert_text key text ((k, t) ∷ rest) =
      let later = insert_text key text rest in
      if precedes key k then (key, text) ∷ (k, t) ∷ rest else (k, t) ∷ later

  -- `${encodedKey}:${encodedValue}`
  unfoldable pub field_texts : List (String × String) → List String
  unfolding quote
  field_texts [] = []
  field_texts ((key, text) ∷ rest) = (quote key ++ (":" ++ text)) ∷ field_texts rest

  unfoldable mutual
    unfolding quote join insert_text field_texts decimal

    pub canonicalize_json : Json → String
    canonicalize_json null = "null"
    canonicalize_json (bool true) = "true"
    canonicalize_json (bool false) = "false"
    canonicalize_json (number n) = decimal (suc n) n
    canonicalize_json (numeral s) = s
    canonicalize_json (string s) = quote s
    canonicalize_json (array items) = "[" ++ (join (canonicalize_items items) ++ "]")
    canonicalize_json (object fields) =
        "{" ++ (join (field_texts (canonicalize_fields fields)) ++ "}")

    pub canonicalize_items : Items → List String
    canonicalize_items nil = []
    canonicalize_items (cons v rest) = canonicalize_json v ∷ canonicalize_items rest

    pub canonicalize_fields : Fields → List (String × String)
    canonicalize_fields end = []
    canonicalize_fields (field k v rest) =
        insert_text k (canonicalize_json v) (canonicalize_fields rest)

unfoldable pub hex_text : List ℕ → String
unfolding hex_byte
hex_text [] = ""
hex_text (byte ∷ rest) = hex_byte byte ++ hex_text rest

-- `crypto.subtle.digest("SHA-256", new TextEncoder().encode(text))`, where there is one
unfoldable pub create_intent_hash :
    (String → String → Bool) → Option (String → List ℕ) → Json → Result String
unfolding canonicalize_json hex_text
create_intent_hash precedes none value =
    err (sync_engine "Web Crypto is required to create an intent hash")
create_intent_hash precedes (some digest) value =
    ok ("sha256:" ++ hex_text (digest (canonicalize_json precedes value)))

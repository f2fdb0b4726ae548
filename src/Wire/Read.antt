-- ===== src/Wire/Read.antt =====
-- src/wire.ts: how values of JSON are read, and the payloads of the application.
use sync_engine_v.Base.{ℕ, suc, String, Bool, not, Option, none, some, str_eq, ◌==◌, text_append}
use sync_engine_v.Json.{Json, number, string, array, object, Items, Fields, to_json_value}
use sync_engine_v.Errors.{
  SyncError, Result, ok, err, unsupported_protocol_version, wire_encode, wire_decode, throw_if,
  ◌>>◌,
}
use sync_engine_v.Protocol.{sync_protocol_version}
use sync_engine_v.Invariants.Identity.{assert_non_empty_string}
use sync_engine_v.Invariants.Position.{decimal}

-- The application's conversion; a codec whose value is not one of JSON throws.
pub record JsonCodec (Value : Type 0) : Type 0 where
  pub encode : Value → Result Json
  pub decode : Json → Result Value

unfoldable pub read_record : Option Json → String → Result Fields
read_record (some (object fields)) path = ok fields
read_record other path = err (wire_decode path "must be an object")

unfoldable pub read_array : Option Json → String → Result Items
read_array (some (array items)) path = ok items
read_array other path = err (wire_decode path "must be an array")

unfoldable pub read_number : Option Json → String → Result ℕ
read_number (some (number n)) path = ok n
read_number other path = err (wire_decode path "must be a number")

unfoldable pub read_non_empty_string : Option Json → String → Result String
read_non_empty_string (some (string s)) path =
    throw_if (str_eq s "") (wire_decode path "must not be empty") >> ok s
read_non_empty_string other path = err (wire_decode path "must be a string")

-- `${path}[${index}]`
abbrev pub index_path : String → ℕ → String
index_path path index =
    text_append path (text_append "[" (text_append (decimal (suc index) index) "]"))

-- the error that leaves `decodePayload`
abbrev pub decode_failure : String → SyncError → SyncError
decode_failure path (wire_decode inner message) = wire_decode inner message
decode_failure path error = wire_decode path "payload codec rejected the value"

unfoldable pub assert_envelope : ℕ → String → Result (Unit {0})
unfolding assert_non_empty_string
assert_envelope protocol_version stream_id = do
  throw_if (not (protocol_version == sync_protocol_version))
      (unsupported_protocol_version (some (number protocol_version)))
  assert_non_empty_string "streamId" stream_id

-- `protocolVersion !== SYNC_PROTOCOL_VERSION` of a value that is read
unfoldable pub assert_protocol_version : Option Json → Result (Unit {0})
assert_protocol_version (some (number n)) =
    throw_if (not (n == sync_protocol_version)) (unsupported_protocol_version (some (number n)))
assert_protocol_version other = err (unsupported_protocol_version other)

module _ {Value : Type 0} where
  -- `codec.encode(value)`, its value in canonical form
  unfoldable pub encode_payload :
      (String → String → Bool) → JsonCodec Value → Value → String → Result Json
  encode_payload precedes codec value path = elim (codec.encode value) [
    | ok json ↦ ok (to_json_value precedes json)
    | err error ↦ err (wire_encode path "codec produced an invalid JSON value")
  ]

  unfoldable pub decode_payload : JsonCodec Value → Option Json → String → Result Value
  decode_payload codec none path = err (wire_decode path "payload codec rejected the value")
  decode_payload codec (some json) path = elim (codec.decode json) [
    | ok value ↦ ok value
    | err error ↦ err (decode_failure path error)
  ]

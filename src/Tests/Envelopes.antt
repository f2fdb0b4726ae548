-- ===== src/Tests/Envelopes.antt =====
-- Runs of src/wire.ts.
use sync_engine_v.Base.{ℕ, String, Bool, true, ◌≡◌, refl, none, contains}
use sync_engine_v.Base.Dict.{lookup, put}
use sync_engine_v.Json.{
  Json, null, bool, number, numeral, string, array, object, nil, cons, end, field, to_json_value,
  insert_field,
}
use sync_engine_v.Errors.{Result, ok, err, sync_engine, ok-injective}
use sync_engine_v.Limits.{ProtocolLimitOverrides}
use sync_engine_v.Protocol.{SyncRequestEnvelope, SyncResponseEnvelope}
use sync_engine_v.Invariants.Batch.{check_proposals}
use sync_engine_v.Invariants.Identity
use sync_engine_v.Invariants.Response
use sync_engine_v.Wire.{
  JsonCodec, proposal_json, request_json, entry_json, response_json, encode_sync_request_envelope,
  encode_sync_response_envelope, decode_sync_request_envelope, decode_sync_response_envelope,
}
use sync_engine_v.Wire.Roundtrip.{IsCodec, decode-encode_sync_request_envelope}
use sync_engine_v.Wire.Responses.{decode-encode_sync_response_envelope}
use sync_engine_v.Tests.Data.{small, large, small_entry, request, response}

-- an order that leaves the fields as they stand
abbrev pub order : String → String → Bool
order a b = true

pub read_count : Json → Result ℕ
read_count (number n) = ok n
read_count json = err (sync_engine "not a number")

pub read_text : Json → Result String
read_text (string s) = ok s
read_text json = err (sync_engine "not a text")

abbrev pub numbers : JsonCodec ℕ
numbers = record { encode = λ n. ok (number n); decode = read_count }

abbrev pub texts : JsonCodec String
texts = record { encode = λ s. ok (string s); decode = read_text }

pub numbers-IsCodec : IsCodec order numbers
unfolding read_count to_json_value
numbers-IsCodec = record { decodes = λ v j e. rw (← ok-injective e) refl; canonical = same }
  where
    same : (j : Json) → read_count (to_json_value order j) ≡ read_count j
    same null = refl
    same (bool b) = refl
    same (number n) = refl
    same (numeral s) = refl
    same (string s) = refl
    same (array items) = refl
    same (object fields) = refl

pub texts-IsCodec : IsCodec order texts
unfolding read_text to_json_value
texts-IsCodec = record { decodes = λ v j e. rw (← ok-injective e) refl; canonical = same }
  where
    same : (j : Json) → read_text (to_json_value order j) ≡ read_text j
    same null = refl
    same (bool b) = refl
    same (number n) = refl
    same (numeral s) = refl
    same (string s) = refl
    same (array items) = refl
    same (object fields) = refl

abbrev pub defaults : ProtocolLimitOverrides
defaults = record { maximum_proposals_per_request = none; maximum_entries_per_response = none }

abbrev pub request_envelope : SyncRequestEnvelope ℕ
request_envelope = record { protocol_version = 1; stream_id = "notes"; request = request }

abbrev pub response_envelope : SyncResponseEnvelope ℕ String
response_envelope = record { protocol_version = 1; stream_id = "notes"; response = response }

abbrev pub request_value : Json
request_value = request_json order numbers request_envelope (
    cons (proposal_json order numbers small (number 5))
      (cons (proposal_json order numbers large (number 500)) nil))

abbrev pub response_value : Json
response_value =
    response_json order numbers texts response_envelope
      (cons (entry_json order numbers small_entry (number 5)) nil)
      (cons
        (object (
          field "operationId" (string "small") (
            field "status" (string "accepted")
              (field "sequence" (number 1) (field "operation" (number 5) end)))))
        (cons
          (object (
            field "operationId" (string "large")
              (field "status" (string "rejected") (field "reason" (string "too large") end))))
          nil))

pub request_encodes :
    encode_sync_request_envelope order numbers request_envelope defaults ≡ ok request_value
unfolding encode_sync_request_envelope to_json_value check_proposals
    Identity.assert_submission_identity contains lookup put insert_field
request_encodes = refl

pub response_encodes :
    encode_sync_response_envelope order numbers texts response_envelope defaults ≡ ok response_value
unfolding encode_sync_response_envelope to_json_value Identity.assert_committed_operation lookup
    contains Response.check_outcome put insert_field
response_encodes = refl

decode-encode_sync_request_envelope_example :
    decode_sync_request_envelope numbers request_value defaults ≡ ok request_envelope
decode-encode_sync_request_envelope_example =
    decode-encode_sync_request_envelope order numbers numbers-IsCodec request_envelope defaults
      request_encodes

decode-encode_sync_response_envelope_example :
    decode_sync_response_envelope numbers texts response_value defaults ≡ ok response_envelope
decode-encode_sync_response_envelope_example =
    decode-encode_sync_response_envelope order numbers numbers-IsCodec texts texts-IsCodec
      response_envelope defaults response_encodes

-- ===== src/Client/Transport.antt =====
-- src/client/transport.ts: envelopes over HTTP. A text of JSON is the value that `JSON.stringify` writes
-- and `JSON.parse` reads; what is not JSON is kept as a text. `undefined` as a body is `null`.
pub mod Problem
pub mod Exchange
use sync_engine_v.Base.{ℕ, String, Bool, [], ◌∷◌, Option, none, some, length, ◌==◌, if◌then◌else◌}
use sync_engine_v.Base.Dict.{Dict, put_all, or_else}
use sync_engine_v.Json.{Json, null, string, object, member, to_json_value}
use sync_engine_v.Errors.{Result, ok, err, sync_client_http}
use sync_engine_v.Limits.{ProtocolLimitOverrides}
use sync_engine_v.Protocol.{SyncRequestEnvelope, SyncResponseEnvelope}
use sync_engine_v.Wire.{JsonCodec, encode_sync_request_envelope, decode_sync_response_envelope}
use sync_engine_v.Row.{ReplicaSchemaContract, RowOperation, create_row_operation_codec}
use sync_engine_v.Client.Action.{Action, lift, ◌>>=◌}

-- the text of a response
pub data ResponseText : Type 0 where
  blank : ResponseText
  json : Json → ResponseText
  not_json : String → ResponseText

pub record FetchResponse : Type 0 where
  pub status : ℕ
  pub is_ok : Bool
  pub text : ResponseText

-- What `fetch` is called with; the method is always `POST`.
pub record FetchRequest : Type 0 where
  pub url : String
  pub credentials : String
  pub headers : Dict String
  pub body : Json

abbrev pub Fetch : Type 0 → Type 0
Fetch World = FetchRequest → Action World FetchResponse

pub record SplitSyncEndpoints : Type 0 where
  pub pull : String
  pub push : String

-- The options of both transports but for where they post.
pub record FetchSyncTransportOptions (World Intent Operation Rejection : Type 0) : Type 0 where
  pub intent_codec : JsonCodec Intent
  pub operation_codec : JsonCodec Operation
  pub rejection_codec : JsonCodec Rejection
  pub fetch : Option (Fetch World)
  pub headers : Action World (Dict String)
  pub credentials : Option String
  pub limit_overrides : ProtocolLimitOverrides

abbrev pub text_or_default : Option String → String → String
text_or_default (some text) d = text
text_or_default none d = d

-- `text === "" ? null : JSON.parse(text)`
unfoldable pub parse_text : FetchResponse → Result Json
parse_text response = elim response.text [
  | blank ↦ ok null
  | json value ↦ ok value
  | not_json text ↦
      err (sync_client_http response.status "sync endpoint returned invalid JSON" (string text))
]

abbrev pub string_or_default : Option Json → String → String
string_or_default (some (string text)) d = text
string_or_default other d = d

-- the message of a response that is not ok
abbrev pub error_message : Json → String
error_message (object fields) =
    string_or_default (member "message" fields) "sync endpoint returned HTTP status"
error_message parsed = "sync endpoint returned HTTP status"

unfoldable pub read_response : FetchResponse → Result Json
unfolding parse_text
read_response response = elim (parse_text response) [
  | err e ↦ err e
  | ok parsed ↦
      if response.is_ok
      then ok parsed
      else err (sync_client_http response.status (error_message parsed) parsed)
]

module _ {World Intent Operation Rejection : Type 0}
    (options : FetchSyncTransportOptions World Intent Operation Rejection) where
  unfoldable pub post_json : Fetch World → String → Json → Action World Json
  unfolding read_response
  post_json fetch url body = do
    configured_headers ← options.headers
    response ← fetch (record {
      url = url;
      credentials = text_or_default options.credentials "same-origin";
      headers =
          put_all (("content-type", "application/json") ∷ ("accept", "application/json") ∷ [])
            configured_headers;
      body = body;
    })
    lift (read_response response)

  module _ (precedes : String → String → Bool) where
    -- an envelope to a URL and back
    unfoldable pub exchange :
        Fetch World
        → String
        → SyncRequestEnvelope Intent
        → Action World (SyncResponseEnvelope Operation Rejection)
    unfolding post_json encode_sync_request_envelope decode_sync_response_envelope
    exchange fetch url envelope = do
      body ← lift (
          encode_sync_request_envelope precedes options.intent_codec envelope
            options.limit_overrides)
      response_body ← post_json fetch url body
      lift (
          decode_sync_response_envelope options.operation_codec options.rejection_codec
            response_body options.limit_overrides)

    -- `options.fetch ?? globalThis.fetch`, checked when the transport is made
    abbrev pub transport_with :
        {Transport : Type 0} → Option (Fetch World) → (Fetch World → Transport) → Result Transport
    transport_with global make = elim (or_else options.fetch global) [
      | none ↦ err (sync_client_http 0 "fetch is unavailable" null)
      | some fetch ↦ ok (make fetch)
    ]

    unfoldable pub create_fetch_sync_transport :
        Option (Fetch World)
        → String
        → Result
            (SyncRequestEnvelope Intent → Action World (SyncResponseEnvelope Operation Rejection))
    unfolding exchange
    create_fetch_sync_transport global url = transport_with global λ fetch. exchange fetch url

    -- a request without proposals pulls, any other pushes
    unfoldable pub endpoint_of : SplitSyncEndpoints → SyncRequestEnvelope Intent → String
    endpoint_of endpoints envelope =
        if length envelope.request.proposals == 0 then endpoints.pull else endpoints.push

    unfoldable pub create_split_fetch_sync_transport :
        Option (Fetch World)
        → SplitSyncEndpoints
        → Result
            (SyncRequestEnvelope Intent → Action World (SyncResponseEnvelope Operation Rejection))
    unfolding exchange endpoint_of
    create_split_fetch_sync_transport global endpoints =
        transport_with global
          λ fetch envelope. exchange fetch (endpoint_of endpoints envelope) envelope

module _ (precedes : String → String → Bool) where
  unfoldable pub json_value_codec : JsonCodec Json
  unfolding to_json_value
  json_value_codec = record {
    encode = λ value. ok value;
    decode = λ value. ok (to_json_value precedes value);
  }

  -- the options of a transport of rows
  unfoldable pub row_transport_options :
      {World : Type 0}
      → ReplicaSchemaContract
      → Option (Fetch World)
      → Action World (Dict String)
      → Option String
      → Option (JsonCodec Json)
      → ProtocolLimitOverrides
      → FetchSyncTransportOptions World RowOperation RowOperation Json
  unfolding create_row_operation_codec json_value_codec
  row_transport_options schema fetch headers credentials rejection_codec limit_overrides = record {
    intent_codec = create_row_operation_codec precedes schema;
    operation_codec = create_row_operation_codec precedes schema;
    rejection_codec = elim rejection_codec [ none ↦ json_value_codec | some codec ↦ codec ];
    fetch = fetch;
    headers = headers;
    credentials = credentials;
    limit_overrides = limit_overrides;
  }

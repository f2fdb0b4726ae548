-- ===== src/Tests/Transports.antt =====
-- Runs of the transports of src/client/transport.ts.
use sync_engine_v.Base.{
  ℕ, ◌+◌, String, true, false, ◌≡◌, refl, [], ◌∷◌, none, some, str_eq, arith, if◌then◌else◌,
}
use sync_engine_v.Base.Dict.{Dict}
use sync_engine_v.Json.{Json, string, object, field, end, member}
use sync_engine_v.Errors.{Result, sync_client_http, ok, err}
use sync_engine_v.Protocol.{SyncRequestEnvelope, SyncResponseEnvelope}
use sync_engine_v.Client.Action.{Action}
use sync_engine_v.Client.Transport.{
  json, Fetch, FetchResponse, SplitSyncEndpoints, FetchSyncTransportOptions,
  create_fetch_sync_transport, create_split_fetch_sync_transport,
}
use sync_engine_v.Client.Transport.Problem.{written, said}
use sync_engine_v.Client.Transport.Exchange.{
  pushes, answers, refuses, Exchanges, answered, create_fetch_sync_transport-Exchanges,
}
use sync_engine_v.Tests.Envelopes.{
  order, numbers, texts, defaults, request_envelope, response_envelope, response_value,
  request_encodes, response_encodes, numbers-IsCodec, texts-IsCodec,
}

abbrev problem : Json
problem = object (field "message" (string "try again") end)

abbrev accepting : FetchResponse
accepting = record { status = 200; is_ok = true; text = json response_value }

abbrev busy : FetchResponse
busy = record { status = 503; is_ok = false; text = json problem }

-- An endpoint gives an answer and the others refuse; a call counts one, and the headers ten.
abbrev counting : Fetch ℕ
counting posted world = (ok (if str_eq posted.url "/sync" then accepting else busy), world + 1)

abbrev authorized : Action ℕ (Dict String)
authorized world = (ok (("authorization", "token") ∷ []), world + 10)

abbrev connected : FetchSyncTransportOptions ℕ ℕ ℕ String
connected = record {
  intent_codec = numbers;
  operation_codec = numbers;
  rejection_codec = texts;
  fetch = none;
  headers = authorized;
  credentials = none;
  limit_overrides = defaults;
}

abbrev urls : SplitSyncEndpoints
urls = record { pull = "/pull"; push = "/push" }

abbrev Sender : Type 0
Sender = SyncRequestEnvelope ℕ → Action ℕ (SyncResponseEnvelope ℕ String)

abbrev refusal : Result (SyncResponseEnvelope ℕ String)
refusal = err (sync_client_http 503 "try again" problem)

accepted_at :
    Exchanges order connected counting "/sync" request_envelope 0 (ok response_envelope) 11
accepted_at = answered request_encodes refl refl (answers refl refl response_encodes)

refused_at : Exchanges order connected counting "/push" request_envelope 0 refusal 11
unfolding member
refused_at = answered request_encodes refl refl (refuses refl refl (written problem) (said refl))

create_fetch_sync_transport-Exchanges_example :
    ((single : Sender) × (create_fetch_sync_transport connected order (some counting) "/sync"
        ≡ ok single)
      × (single request_envelope 0 ≡ (ok response_envelope, 11)))
    × ((split : Sender) × (create_split_fetch_sync_transport connected order (some counting) urls
          ≡ ok split)
        × (split request_envelope 0 ≡ (refusal, 11)))
create_fetch_sync_transport-Exchanges_example =
    create_fetch_sync_transport-Exchanges order connected numbers-IsCodec texts-IsCodec
      (some counting) counting "/sync" "/push" urls request_envelope 0 11 11 refl
      (pushes (omega arith)) accepted_at refused_at

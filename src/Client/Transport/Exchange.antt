-- ===== src/Client/Transport/Exchange.antt =====
-- src/client/transport.ts: an exchange over HTTP, from what the endpoint answers to what the caller gets.
use sync_engine_v.Base.{
  String, Bool, true, false, ◌≡◌, ◌≢◌, refl, ap, Option, some, none, length, arith, inl, inr, [],
  ◌∷◌,
}
use sync_engine_v.Base.Dict.{Dict, put_all, or_else}
use sync_engine_v.Json.{Json, null, string}
use sync_engine_v.Errors.{SyncError, Result, ok, err, sync_client_http, Result-cases, ◌>>=◌}
use sync_engine_v.Protocol.{SyncRequestEnvelope, SyncResponseEnvelope}
use sync_engine_v.Wire.{
  encode_sync_request_envelope, encode_sync_response_envelope, decode_sync_response_envelope,
}
use sync_engine_v.Wire.Roundtrip.{IsCodec}
use sync_engine_v.Wire.Responses.{decode-encode_sync_response_envelope}
use sync_engine_v.Client.Action.{Action}
use sync_engine_v.Client.Transport.Problem.{
  Body, written, unwritten, MessageOf, error_message-MessageOf,
}
use sync_engine_v.Client.Transport.{
  ResponseText, json, not_json, FetchResponse, FetchRequest, text_or_default, Fetch,
  SplitSyncEndpoints, FetchSyncTransportOptions, read_response, post_json, exchange, endpoint_of,
  transport_with, create_fetch_sync_transport, create_split_fetch_sync_transport,
}

-- The endpoint that a request goes to: pull without proposals, push with some.
pub data Targets {Intent : Type 0} (endpoints : SplitSyncEndpoints)
    (envelope : SyncRequestEnvelope Intent) : String → Type 0 where
  pulls : length envelope.request.proposals ≡ 0 → Targets endpoints envelope endpoints.pull
  pushes : length envelope.request.proposals ≢ 0 → Targets endpoints envelope endpoints.push

module _ (precedes : String → String → Bool) {World Intent Operation Rejection : Type 0}
    (options : FetchSyncTransportOptions World Intent Operation Rejection) where
  -- What an HTTP response stands for: an encoded response, a refusal with a problem, a text that is not JSON, or a value that is no response.
  pub data Answers (response : FetchResponse)
      : Result (SyncResponseEnvelope Operation Rejection) → Type 0 where
    answers :
        {body : Json} {answer : SyncResponseEnvelope Operation Rejection}
        → response.is_ok ≡ true
        → response.text ≡ json body
        → encode_sync_response_envelope precedes options.operation_codec options.rejection_codec
            answer options.limit_overrides
          ≡ ok body
        → Answers response (ok answer)
    refuses :
        {text : ResponseText} {problem : Json} {message : String}
        → response.is_ok ≡ false
        → response.text ≡ text
        → Body text problem
        → MessageOf problem message
        → Answers response (err (sync_client_http response.status message problem))
    garbles :
        {text : String}
        → response.text ≡ not_json text
        → Answers response (
            err (
              sync_client_http response.status "sync endpoint returned invalid JSON" (string text)))
    misleads :
        {text : ResponseText} {body : Json} {e : SyncError}
        → response.is_ok ≡ true
        → response.text ≡ text
        → Body text body
        → decode_sync_response_envelope options.operation_codec options.rejection_codec body
            options.limit_overrides
          ≡ err e
        → Answers response (err e)

  -- what is sent to a URL
  abbrev pub posted : String → Dict String → Json → FetchRequest
  posted url headers sent = record {
    url = url;
    credentials = text_or_default options.credentials "same-origin";
    headers =
        put_all (("content-type", "application/json") ∷ ("accept", "application/json") ∷ [])
          headers;
    body = sent;
  }

  -- A course of an exchange with a URL, its outcome and the world afterwards: the envelope cannot be
  -- sent, the headers fail, `fetch` fails, or there is a response.
  pub data Exchanges (fetch : Fetch World) (url : String) (envelope : SyncRequestEnvelope Intent)
      (world : World) : Result (SyncResponseEnvelope Operation Rejection) → World → Type 0 where
    unsent :
        {e : SyncError}
        → encode_sync_request_envelope precedes options.intent_codec envelope
            options.limit_overrides
          ≡ err e
        → Exchanges fetch url envelope world (err e) world
    unheaded :
        {sent : Json} {e : SyncError} {after : World}
        → encode_sync_request_envelope precedes options.intent_codec envelope
            options.limit_overrides
          ≡ ok sent
        → options.headers world ≡ (err e, after)
        → Exchanges fetch url envelope world (err e) after
    unreached :
        {sent : Json} {headers : Dict String} {asked after : World} {e : SyncError}
        → encode_sync_request_envelope precedes options.intent_codec envelope
            options.limit_overrides
          ≡ ok sent
        → options.headers world ≡ (ok headers, asked)
        → fetch (posted url headers sent) asked ≡ (err e, after)
        → Exchanges fetch url envelope world (err e) after
    answered :
        {sent : Json} {headers : Dict String} {asked after : World} {response : FetchResponse}
        {outcome : Result (SyncResponseEnvelope Operation Rejection)}
        → encode_sync_request_envelope precedes options.intent_codec envelope
            options.limit_overrides
          ≡ ok sent
        → options.headers world ≡ (ok headers, asked)
        → fetch (posted url headers sent) asked ≡ (ok response, after)
        → Answers response outcome
        → Exchanges fetch url envelope world outcome after

module _ (precedes : String → String → Bool) {World Intent Operation Rejection : Type 0}
    (options : FetchSyncTransportOptions World Intent Operation Rejection)
    (operations : IsCodec precedes options.operation_codec)
    (rejections : IsCodec precedes options.rejection_codec) where
  -- what a transport does with an envelope
  abbrev Transport : Type 0
  Transport = SyncRequestEnvelope Intent → Action World (SyncResponseEnvelope Operation Rejection)

  read_response-Answers :
      (response : FetchResponse) {outcome : Result (SyncResponseEnvelope Operation Rejection)}
      → Answers precedes options response outcome
      → (read_response response >>= λ body.
          decode_sync_response_envelope options.operation_codec options.rejection_codec body
            options.limit_overrides)
        ≡ outcome
  unfolding read_response
  read_response-Answers response (answers {answer = answer} fine text encoded) =
      rw (text, fine)
        (decode-encode_sync_response_envelope precedes options.operation_codec operations
          options.rejection_codec rejections answer options.limit_overrides encoded)
  read_response-Answers response (refuses bad text (written problem) message) =
      rw (text, bad)
        (ap (λ m. err (sync_client_http response.status m problem))
          (error_message-MessageOf message))
  read_response-Answers response (refuses bad text unwritten message) =
      rw (text, bad)
        (ap (λ m. err (sync_client_http response.status m null)) (error_message-MessageOf message))
  read_response-Answers response (garbles text) = rw text refl
  read_response-Answers response (misleads fine text (written body) refused) =
      rw (text, fine) refused
  read_response-Answers response (misleads fine text unwritten refused) = rw (text, fine) refused

  exchange-Exchanges :
      (fetch : Fetch World) (url : String) (envelope : SyncRequestEnvelope Intent)
      (world after : World) {outcome : Result (SyncResponseEnvelope Operation Rejection)}
      → Exchanges precedes options fetch url envelope world outcome after
      → exchange options precedes fetch url envelope world ≡ (outcome, after)
  unfolding exchange post_json
  exchange-Exchanges fetch url envelope world after (unsent encodes) = rw encodes refl
  exchange-Exchanges fetch url envelope world after (unheaded encodes headed) =
      rw (encodes, headed) refl
  exchange-Exchanges fetch url envelope world after (unreached encodes headed fetched) =
      rw (encodes, headed, fetched) refl
  exchange-Exchanges fetch url envelope world after
        (answered {response = response} encodes headed fetched answer) =
      let read = read_response-Answers response answer in
      rw (encodes, headed, fetched)
        (elim (Result-cases (read_response response)) [
          | inl (e, failed) ↦ rw failed (ap (λ r. (r, after)) (rw failed at read))
          | inr (body, reads) ↦ rw reads (ap (λ r. (r, after)) (rw reads at read))
        ])

  transport_with-some :
      {Made : Type 0} (global : Option (Fetch World)) {fetch : Fetch World}
      (make : Fetch World → Made)
      → or_else options.fetch global ≡ some fetch
      → transport_with options precedes global make ≡ ok (make fetch)
  transport_with-some {Made} global {fetch} make there =
      ap
        (λ (o : Option (Fetch World)). elim o as (λ o. Result Made) [
          | none ↦ err (sync_client_http 0 "fetch is unavailable" null)
          | some fetch ↦ ok (make fetch)
        ])
        there

  endpoint_of-Targets :
      (endpoints : SplitSyncEndpoints) (envelope : SyncRequestEnvelope Intent) {target : String}
      → Targets endpoints envelope target
      → endpoint_of options precedes endpoints envelope ≡ target
  unfolding endpoint_of
  endpoint_of-Targets endpoints envelope (pulls none_of) = ground arith
  endpoint_of-Targets endpoints envelope (pushes some_of) = ground arith

  -- Let the codecs of operations and rejections read back what they write, and let there be a `fetch`,
  -- of the options or else the global one. Then both transports are made. The one over one URL gives
  -- the outcome, and leaves the world, of an exchange with that URL; the one over two those of an
  -- exchange with the pull endpoint for an envelope without proposals, and with the push endpoint for
  -- any other. In an exchange the envelope is encoded, the headers are asked for, in a world that they
  -- may change, and `fetch` is called with them; where one of these fails, its error is thrown and the
  -- rest is left out. A response that is ok and carries an encoded answer gives that answer; one that
  -- is not ok gives an HTTP error with its status, message and value; a text that is not JSON gives an
  -- HTTP error with the text; and a value that is no response gives the decoder's error. The value of
  -- an empty text is null.
  pub create_fetch_sync_transport-Exchanges :
      (global : Option (Fetch World)) (fetch : Fetch World) (url target : String)
      (endpoints : SplitSyncEndpoints) (envelope : SyncRequestEnvelope Intent)
      (world after after' : World)
      {outcome outcome' : Result (SyncResponseEnvelope Operation Rejection)}
      → or_else options.fetch global ≡ some fetch
      → Targets endpoints envelope target
      → Exchanges precedes options fetch url envelope world outcome after
      → Exchanges precedes options fetch target envelope world outcome' after'
      → ((single : Transport) × (create_fetch_sync_transport options precedes global url
            ≡ ok single)
          × (single envelope world ≡ (outcome, after)))
        × ((split : Transport) × (create_split_fetch_sync_transport options precedes global
                endpoints
              ≡ ok split)
            × (split envelope world ≡ (outcome', after')))
  unfolding create_fetch_sync_transport create_split_fetch_sync_transport
  create_fetch_sync_transport-Exchanges global fetch url target endpoints envelope world after
        after' there targets one two =
      (
        (
          exchange options precedes fetch url,
          transport_with-some global (λ fetch. exchange options precedes fetch url) there,
          exchange-Exchanges fetch url envelope world after one,
        ),
        (
          λ sent.
              exchange options precedes fetch (endpoint_of options precedes endpoints sent) sent,
          transport_with-some global
              (λ fetch sent.
                exchange options precedes fetch (endpoint_of options precedes endpoints sent) sent)
              there,
          rw (endpoint_of-Targets endpoints envelope targets)
              (exchange-Exchanges fetch target envelope world after' two),
        ),
      )

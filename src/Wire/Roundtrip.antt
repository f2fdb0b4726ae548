-- ===== src/Wire/Roundtrip.antt =====
-- src/wire.ts: what is encoded can be decoded.
use sync_engine_v.Base.{
  ℕ, suc, ◌+◌, subst, String, Bool, ◌≡◌, ◌≢◌, refl, sym, ap, inl, inr, ◌∙◌, List, [], ◌∷◌, some,
  arith, All, length, str_eq_iff, text_append,
}
use sync_engine_v.Json.{
  Json, number, string, array, object, Items, nil, Fields, end, field, member, count, to_json_value,
  to_json_items, IsKeyed, member-to_json_fields, count-to_json_items,
}
use sync_engine_v.Errors.{ok, ok-injective, ok-ne-err, Result-cases, >>=-eq-ok, >>-eq-ok}
use sync_engine_v.Protocol.{ProposedOperation, SyncRequestEnvelope, sync_protocol_version}
use sync_engine_v.Limits.{
  ProtocolLimits, ProtocolLimitOverrides, resolve_protocol_limits, assert_within_limit,
  assert_within_limit-le,
}
use sync_engine_v.Invariants.Batch.{assert_sync_request}
use sync_engine_v.Invariants.Batch.Valid.{IsBatch, assert_sync_request-eq-ok}
use sync_engine_v.Invariants.Identity.{IsIdentity}
use sync_engine_v.Wire.{
  JsonCodec, read_non_empty_string, read_number, decode_payload, encode_payload, proposal_json,
  encode_proposals, request_json, encode_sync_request_envelope, assert_envelope, decode_proposal,
  decode_proposals, decode_sync_request_envelope, index_path,
}

-- A codec reads back what it has written, and does not depend on the order of an object's fields.
pub record IsCodec {Value : Type 0} (precedes : String → String → Bool) (codec : JsonCodec Value)
    : Type 0 where
  pub decodes : (v : Value) (j : Json) → codec.encode v ≡ ok j → codec.decode j ≡ ok v
  pub canonical : (j : Json) → codec.decode (to_json_value precedes j) ≡ codec.decode j

pub read_non_empty_string-string :
    (s path : String) → s ≢ "" → read_non_empty_string (some (string s)) path ≡ ok s
unfolding read_non_empty_string
read_non_empty_string-string s path h = ground (arith, str_eq_iff s "")

pub assert_envelope-eq-ok :
    (version : ℕ) (stream_id : String)
    → assert_envelope version stream_id ≡ ok tt
    → (version ≡ sync_protocol_version) × (stream_id ≢ "")
unfolding assert_envelope
assert_envelope-eq-ok version stream_id h =
    (ground (arith, str_eq_iff stream_id ""), ground (arith, str_eq_iff stream_id ""))

module _ {Value : Type 0} (precedes : String → String → Bool) (codec : JsonCodec Value)
    (c : IsCodec precedes codec) where
  pub decode_payload-encode_payload :
      (v : Value) (j : Json) (there here : String)
      → encode_payload precedes codec v there ≡ ok j
      → decode_payload codec (some (to_json_value precedes j)) here ≡ ok v
  unfolding encode_payload decode_payload
  decode_payload-encode_payload v j there here h = elim (Result-cases (codec.encode v)) [
    | inl (e, failed) ↦ absurd (ok-ne-err (sym (rw (failed, encode_payload) at h)))
    | inr (j', encoded) ↦
        let same : to_json_value precedes j' ≡ j =
          ok-injective (rw (encoded, encode_payload) at h) in
        let reads : codec.decode (to_json_value precedes j) ≡ ok v =
          c.canonical j ∙ ap codec.decode (sym same) ∙ c.canonical j' ∙ c.decodes v j' encoded in
        rw (reads, decode_payload) refl
  ]

module _ {Intent : Type 0} (precedes : String → String → Bool) (codec : JsonCodec Intent)
    (c : IsCodec precedes codec) where
  decode_proposal-proposal_json :
      (p : ProposedOperation Intent) (intent : Json) (there path : String)
      → IsIdentity p.submission
      → encode_payload precedes codec p.intent there ≡ ok intent
      → decode_proposal codec (to_json_value precedes (proposal_json precedes codec p intent)) path
        ≡ ok p
  unfolding decode_proposal to_json_value member
  decode_proposal-proposal_json p intent there path valid encoded =
      let fields : Fields = field "operationId" (string p.operation_id) (
        field "clientId" (string p.client_id) (
          field "clientSequence" (number p.client_sequence)
            (field "intentHash" (string p.intent_hash) (field "intent" intent end)))) in
      let keyed : IsKeyed fields = (refl, (refl, (refl, (refl, (refl, tt))))) in
      rw
        (
          member-to_json_fields precedes "operationId" fields keyed,
          member-to_json_fields precedes "clientId" fields keyed,
          member-to_json_fields precedes "clientSequence" fields keyed,
          member-to_json_fields precedes "intentHash" fields keyed,
          member-to_json_fields precedes "intent" fields keyed,
          read_non_empty_string-string p.operation_id (text_append path ".operationId")
              valid.has_operation_id,
          read_non_empty_string-string p.client_id (text_append path ".clientId")
              valid.has_client_id,
          read_non_empty_string-string p.intent_hash (text_append path ".intentHash")
              valid.has_intent_hash,
          read_number,
          decode_payload-encode_payload precedes codec c p.intent intent there
              (text_append path ".intent") encoded,
        )
        refl

  -- the proposals of a batch, from any index
  decode_proposals-encode_proposals :
      (ps : List (ProposedOperation Intent)) (items : Items) (index : ℕ)
      → All (λ p. IsIdentity p.submission) ps
      → encode_proposals precedes codec ps ≡ ok items
      → (decode_proposals codec index (to_json_items precedes items) ≡ ok ps)
        × (count items ≡ length ps)
  unfolding encode_proposals decode_proposals to_json_items count
  decode_proposals-encode_proposals [] items index valid h =
      let same : nil ≡ items = ok-injective h in
      subst
        (λ (items : Items).
          (decode_proposals codec index (to_json_items precedes items) ≡ ok []) × (count items ≡ 0))
        same (refl, refl)
  decode_proposals-encode_proposals (p ∷ ps) items index valid h =
      let (intent, encoded, h₁) =
        >>=-eq-ok (encode_payload precedes codec p.intent "$.request.proposals[].intent") _ h in
      let (rest, others, h₂) = >>=-eq-ok (encode_proposals precedes codec ps) _ h₁ in
      let first =
        decode_proposal-proposal_json p intent "$.request.proposals[].intent"
          (index_path "$.request.proposals" index) valid.0 encoded in
      let (decoded, counted) =
        decode_proposals-encode_proposals ps rest (index + 1) valid.1 others in
      subst
        (λ (items : Items).
          (decode_proposals codec index (to_json_items precedes items) ≡ ok (p ∷ ps))
          × (count items ≡ suc (length ps)))
        (ok-injective h₂) (rw (first, decoded) refl, ap suc counted)

  IsBatch-All :
      (ps : List (ProposedOperation Intent)) → IsBatch ps → All (λ p. IsIdentity p.submission) ps
  IsBatch-All [] b = tt
  IsBatch-All (p ∷ ps) b = (b.0, IsBatch-All ps b.2)

  -- the members of an encoded request are read back
  decode-request_json :
      (envelope : SyncRequestEnvelope Intent) (overrides : ProtocolLimitOverrides)
      (limits : ProtocolLimits) (items : Items)
      → resolve_protocol_limits overrides ≡ ok limits
      → envelope.stream_id ≢ ""
      → assert_sync_request envelope.request (some limits) ≡ ok tt
      → assert_within_limit "proposals" (count items) limits.maximum_proposals_per_request ≡ ok tt
      → decode_proposals codec 0 (to_json_items precedes items) ≡ ok envelope.request.proposals
      → decode_sync_request_envelope codec
          (to_json_value precedes (request_json precedes codec envelope items))
          overrides
        ≡ ok (record envelope { protocol_version = sync_protocol_version })
  unfolding decode_sync_request_envelope to_json_value member
  decode-request_json envelope overrides limits items resolved named valid few decoded =
      let request : Fields = field "baseSequence" (number envelope.request.base_sequence) (
        field "maximumEntries" (number envelope.request.maximum_entries)
          (field "proposals" (array items) end)) in
      let root : Fields =
        field "protocolVersion" (number sync_protocol_version)
          (field "streamId" (string envelope.stream_id) (field "request" (object request) end)) in
      let request_keyed : IsKeyed request = (refl, (refl, (refl, tt))) in
      let root_keyed : IsKeyed root = (refl, (refl, (refl, tt))) in
      rw
        (
          resolved,
          member-to_json_fields precedes "protocolVersion" root root_keyed,
          member-to_json_fields precedes "streamId" root root_keyed,
          member-to_json_fields precedes "request" root root_keyed,
          member-to_json_fields precedes "baseSequence" request request_keyed,
          member-to_json_fields precedes "maximumEntries" request request_keyed,
          member-to_json_fields precedes "proposals" request request_keyed,
          read_non_empty_string-string envelope.stream_id "$.streamId" named,
          count-to_json_items precedes items,
          few,
          decoded,
          valid,
        )
        refl

  -- A request that is encoded without an error is decoded to the same request, by a codec that reads
  -- back what it has written and does not depend on the order of fields, under the same limits and
  -- whatever the order of strings by which the fields are sorted.
  pub decode-encode_sync_request_envelope :
      (envelope : SyncRequestEnvelope Intent) (overrides : ProtocolLimitOverrides) {json : Json}
      → encode_sync_request_envelope precedes codec envelope overrides ≡ ok json
      → decode_sync_request_envelope codec json overrides ≡ ok envelope
  unfolding encode_sync_request_envelope
  decode-encode_sync_request_envelope envelope overrides {json} h =
      let (limits, resolved, h₁) = >>=-eq-ok (resolve_protocol_limits overrides) _ h in
      let (named, h₂) =
        (>>-eq-ok (assert_envelope envelope.protocol_version envelope.stream_id) _).0 h₁ in
      let (valid, h₃) = (>>-eq-ok (assert_sync_request envelope.request (some limits)) _).0 h₂ in
      let (items, encoded, h₄) =
        >>=-eq-ok (encode_proposals precedes codec envelope.request.proposals) _ h₃ in
      let request = (assert_sync_request-eq-ok envelope.request (some limits)).0 valid in
      let (version, stream) =
        assert_envelope-eq-ok envelope.protocol_version envelope.stream_id named in
      let (decoded, counted) =
        decode_proposals-encode_proposals envelope.request.proposals items 0
          (IsBatch-All envelope.request.proposals request.batch) encoded in
      let few : assert_within_limit "proposals" (count items) limits.maximum_proposals_per_request
          ≡ ok tt =
        assert_within_limit-le "proposals" (count items) limits.maximum_proposals_per_request
          (omega (arith, counted, request.few)) in
      let back =
        decode-request_json envelope overrides limits items resolved stream valid few decoded in
      subst (λ (j : Json). decode_sync_request_envelope codec j overrides ≡ ok envelope)
        (ok-injective h₄) (back ∙ cc version)

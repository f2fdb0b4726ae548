-- ===== src/Wire/Responses.antt =====
-- src/wire.ts: a response that is encoded can be decoded.
use sync_engine_v.Wire.Entries.{decode_entries-encode_entries}
use sync_engine_v.Base.{
  ℕ, suc, ◌+◌, subst, String, Bool, ◌≡◌, ◌≢◌, refl, ap, ◌∙◌, List, [], ◌∷◌, some, arith, All,
  All-map, length, text_append,
}
use sync_engine_v.Json.{
  Json, number, string, array, object, Items, Fields, end, field, member, count, to_json_value,
  to_json_items, IsKeyed, member-to_json_fields, count-to_json_items,
}
use sync_engine_v.Errors.{ok, ok-injective, >>=-eq-ok, >>-eq-ok}
use sync_engine_v.Limits.{
  ProtocolLimits, ProtocolLimitOverrides, resolve_protocol_limits, assert_within_limit,
  assert_within_limit-le,
}
use sync_engine_v.Protocol.{
  ProposalOutcome, accepted, rejected, ProposalDecision, SyncResponseEnvelope,
  sync_protocol_version,
}
use sync_engine_v.Invariants.Identity.{IsCommitted}
use sync_engine_v.Invariants.Response.{assert_sync_response}
use sync_engine_v.Invariants.Response.Valid.{assert_sync_response-eq-ok}
use sync_engine_v.Wire.{
  JsonCodec, encode_payload, encode_entries, encode_decision, encode_decisions, response_json,
  encode_sync_response_envelope, assert_envelope, decode_entries, decode_decision, decode_decisions,
  decode_sync_response_envelope, index_path,
}
use sync_engine_v.Wire.Roundtrip.{
  IsCodec, read_non_empty_string-string, assert_envelope-eq-ok, decode_payload-encode_payload,
}

module _ {Operation Rejection : Type 0} (precedes : String → String → Bool)
    (codec : JsonCodec Operation) (c : IsCodec precedes codec) (rejections : JsonCodec Rejection)
    (r : IsCodec precedes rejections) where
  decode_decision-encode_decision :
      (d : ProposalDecision Operation Rejection) (outcome : ProposalOutcome Operation Rejection)
      (json : Json) (path : String)
      → d.operation_id ≢ ""
      → d.outcome ≡ outcome
      → encode_decision precedes codec rejections d ≡ ok json
      → decode_decision codec rejections (to_json_value precedes json) path ≡ ok d
  unfolding encode_decision decode_decision to_json_value member
  decode_decision-encode_decision d (accepted n o) json path named same h =
      let there : String = "$.response.decisions[].operation" in
      let (payload, encoded, h₁) =
        >>=-eq-ok (encode_payload precedes codec o there) _ (rw (same, encode_decision) at h) in
      let fields : Fields = field "operationId" (string d.operation_id) (
        field "status" (string "accepted")
          (field "sequence" (number n) (field "operation" payload end))) in
      let keyed : IsKeyed fields = (refl, (refl, (refl, (refl, tt)))) in
      let back : decode_decision codec rejections (to_json_value precedes (object fields)) path
          ≡ ok (record { operation_id = d.operation_id; outcome = accepted n o }) =
        rw
          (
            member-to_json_fields precedes "operationId" fields keyed,
            member-to_json_fields precedes "status" fields keyed,
            member-to_json_fields precedes "sequence" fields keyed,
            member-to_json_fields precedes "operation" fields keyed,
            read_non_empty_string-string d.operation_id (text_append path ".operationId") named,
            decode_payload-encode_payload precedes codec c o payload there
                (text_append path ".operation") encoded,
          )
          refl in
      subst (λ (j : Json). decode_decision codec rejections (to_json_value precedes j) path ≡ ok d)
        (ok-injective h₁) (back ∙ cc same)
  decode_decision-encode_decision d (rejected reason) json path named same h =
      let there : String = "$.response.decisions[].reason" in
      let (payload, encoded, h₁) =
        >>=-eq-ok (encode_payload precedes rejections reason there) _
          (rw (same, encode_decision) at h) in
      let fields : Fields =
        field "operationId" (string d.operation_id)
          (field "status" (string "rejected") (field "reason" payload end)) in
      let keyed : IsKeyed fields = (refl, (refl, (refl, tt))) in
      let back : decode_decision codec rejections (to_json_value precedes (object fields)) path
          ≡ ok (record { operation_id = d.operation_id; outcome = rejected reason }) =
        rw
          (
            member-to_json_fields precedes "operationId" fields keyed,
            member-to_json_fields precedes "status" fields keyed,
            member-to_json_fields precedes "reason" fields keyed,
            read_non_empty_string-string d.operation_id (text_append path ".operationId") named,
            decode_payload-encode_payload precedes rejections r reason payload there
                (text_append path ".reason") encoded,
          )
          refl in
      subst (λ (j : Json). decode_decision codec rejections (to_json_value precedes j) path ≡ ok d)
        (ok-injective h₁) (back ∙ cc same)

  -- the decisions of a response, from any index
  decode_decisions-encode_decisions :
      (ds : List (ProposalDecision Operation Rejection)) (items : Items) (index : ℕ)
      → All (λ d. d.operation_id ≢ "") ds
      → encode_decisions precedes codec rejections ds ≡ ok items
      → (decode_decisions codec rejections index (to_json_items precedes items) ≡ ok ds)
        × (count items ≡ length ds)
  unfolding encode_decisions decode_decisions to_json_items count
  decode_decisions-encode_decisions [] items index named h =
      subst
        (λ (items : Items).
          (decode_decisions codec rejections index (to_json_items precedes items) ≡ ok [])
          × (count items ≡ 0))
        (ok-injective h) (refl, refl)
  decode_decisions-encode_decisions (d ∷ ds) items index named h =
      let (json, encoded, h₁) = >>=-eq-ok (encode_decision precedes codec rejections d) _ h in
      let (rest, others, h₂) = >>=-eq-ok (encode_decisions precedes codec rejections ds) _ h₁ in
      let first =
        decode_decision-encode_decision d d.outcome json (index_path "$.response.decisions" index)
          named.0 refl encoded in
      let (decoded, counted) =
        decode_decisions-encode_decisions ds rest (index + 1) named.1 others in
      subst
        (λ (items : Items).
          (decode_decisions codec rejections index (to_json_items precedes items) ≡ ok (d ∷ ds))
          × (count items ≡ suc (length ds)))
        (ok-injective h₂) (rw (first, decoded) refl, ap suc counted)

  -- the members of an encoded response are read back
  decode-response_json :
      (envelope : SyncResponseEnvelope Operation Rejection) (overrides : ProtocolLimitOverrides)
      (limits : ProtocolLimits) (entries decisions : Items)
      → resolve_protocol_limits overrides ≡ ok limits
      → envelope.stream_id ≢ ""
      → assert_sync_response envelope.response (some limits) ≡ ok tt
      → assert_within_limit "entries" (count entries) limits.maximum_entries_per_response ≡ ok tt
      → assert_within_limit "decisions" (count decisions) limits.maximum_proposals_per_request
        ≡ ok tt
      → decode_entries codec 0 (to_json_items precedes entries) ≡ ok envelope.response.entries
      → decode_decisions codec rejections 0 (to_json_items precedes decisions)
        ≡ ok envelope.response.decisions
      → decode_sync_response_envelope codec rejections
          (to_json_value precedes
            (response_json precedes codec rejections envelope entries decisions))
          overrides
        ≡ ok (record envelope { protocol_version = sync_protocol_version })
  unfolding decode_sync_response_envelope to_json_value member
  decode-response_json envelope overrides limits entries decisions resolved named valid few few'
        read read' =
      let response : Fields =
        field "requestedBaseSequence" (number envelope.response.requested_base_sequence) (
          field "throughSequence" (number envelope.response.through_sequence) (
            field "headSequence" (number envelope.response.head_sequence)
              (field "entries" (array entries) (field "decisions" (array decisions) end)))) in
      let root : Fields =
        field "protocolVersion" (number sync_protocol_version)
          (field "streamId" (string envelope.stream_id) (field "response" (object response) end)) in
      let keyed : IsKeyed response = (refl, (refl, (refl, (refl, (refl, tt))))) in
      let root_keyed : IsKeyed root = (refl, (refl, (refl, tt))) in
      rw
        (
          resolved,
          member-to_json_fields precedes "protocolVersion" root root_keyed,
          member-to_json_fields precedes "streamId" root root_keyed,
          member-to_json_fields precedes "response" root root_keyed,
          member-to_json_fields precedes "requestedBaseSequence" response keyed,
          member-to_json_fields precedes "throughSequence" response keyed,
          member-to_json_fields precedes "headSequence" response keyed,
          member-to_json_fields precedes "entries" response keyed,
          member-to_json_fields precedes "decisions" response keyed,
          read_non_empty_string-string envelope.stream_id "$.streamId" named,
          count-to_json_items precedes entries,
          count-to_json_items precedes decisions,
          few,
          few',
          read,
          read',
          valid,
        )
        refl

  -- A response that is encoded without an error is decoded to the same response, by codecs that read
  -- back what they have written and do not depend on the order of fields, under the same limits and
  -- whatever the order of strings by which the fields are sorted.
  pub decode-encode_sync_response_envelope :
      (envelope : SyncResponseEnvelope Operation Rejection) (overrides : ProtocolLimitOverrides)
      {json : Json}
      → encode_sync_response_envelope precedes codec rejections envelope overrides ≡ ok json
      → decode_sync_response_envelope codec rejections json overrides ≡ ok envelope
  unfolding encode_sync_response_envelope
  decode-encode_sync_response_envelope envelope overrides {json} h =
      let response = envelope.response in
      let (limits, resolved, h₁) = >>=-eq-ok (resolve_protocol_limits overrides) _ h in
      let (named, h₂) =
        (>>-eq-ok (assert_envelope envelope.protocol_version envelope.stream_id) _).0 h₁ in
      let (valid, h₃) = (>>-eq-ok (assert_sync_response response (some limits)) _).0 h₂ in
      let (entries, encoded, h₄) =
        >>=-eq-ok (encode_entries precedes codec response.entries) _ h₃ in
      let (decisions, encoded', h₅) =
        >>=-eq-ok (encode_decisions precedes codec rejections response.decisions) _ h₄ in
      let v = (assert_sync_response-eq-ok response (some limits)).0 valid in
      let (version, stream) =
        assert_envelope-eq-ok envelope.protocol_version envelope.stream_id named in
      let (read, counted) =
        decode_entries-encode_entries precedes codec c response.entries entries 0
          (All-map IsCommitted response.entries (λ e h. h.identity) v.page.committed) encoded in
      let (read', counted') =
        decode_decisions-encode_decisions response.decisions decisions 0
          (All-map _ response.decisions (λ d h. h.has_id) v.decisions) encoded' in
      let few : assert_within_limit "entries" (count entries) limits.maximum_entries_per_response
          ≡ ok tt =
        assert_within_limit-le "entries" (count entries) limits.maximum_entries_per_response
          (omega (arith, counted, v.cursors.few_entries)) in
      let few' : assert_within_limit "decisions" (count decisions)
            limits.maximum_proposals_per_request
          ≡ ok tt =
        assert_within_limit-le "decisions" (count decisions) limits.maximum_proposals_per_request
          (omega (arith, counted', v.cursors.few_decisions)) in
      subst (λ (j : Json). decode_sync_response_envelope codec rejections j overrides ≡ ok envelope)
        (ok-injective h₅)
        (decode-response_json envelope overrides limits entries decisions resolved stream valid few
            few' read read'
          ∙ cc version)

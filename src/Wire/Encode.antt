-- ===== src/Wire/Encode.antt =====
-- src/wire.ts: `encodeSyncRequestEnvelope` and `encodeSyncResponseEnvelope`.
use sync_engine_v.Base.{String, Bool, List, [], ◌∷◌, some}
use sync_engine_v.Json.{
  Json, number, string, array, object, Items, nil, cons, end, field, to_json_value,
}
use sync_engine_v.Errors.{Result, ok, ◌>>=◌, ◌>>◌}
use sync_engine_v.Limits.{ProtocolLimitOverrides, resolve_protocol_limits}
use sync_engine_v.Protocol.{
  ProposedOperation, CommittedOperation, accepted, rejected, ProposalDecision,
  sync_protocol_version, SyncRequestEnvelope, SyncResponseEnvelope,
}
use sync_engine_v.Invariants.Batch.{assert_sync_request}
use sync_engine_v.Invariants.Response.{assert_sync_response}
use sync_engine_v.Wire.Read.{JsonCodec, encode_payload, assert_envelope}

module _ (precedes : String → String → Bool) where
  module _ {Intent : Type 0} (codec : JsonCodec Intent) where
    abbrev pub proposal_json : ProposedOperation Intent → Json → Json
    proposal_json proposal intent = object (
        field "operationId" (string proposal.operation_id) (
          field "clientId" (string proposal.client_id) (
            field "clientSequence" (number proposal.client_sequence)
              (field "intentHash" (string proposal.intent_hash) (field "intent" intent end)))))

    unfoldable pub encode_proposals : List (ProposedOperation Intent) → Result Items
    unfolding encode_payload
    encode_proposals [] = ok nil
    encode_proposals (proposal ∷ rest) = do
      intent ← encode_payload precedes codec proposal.intent "$.request.proposals[].intent"
      proposals ← encode_proposals rest
      ok (cons (proposal_json proposal intent) proposals)

    abbrev pub request_json : SyncRequestEnvelope Intent → Items → Json
    request_json envelope proposals = object (
        field "protocolVersion" (number sync_protocol_version) (
          field "streamId" (string envelope.stream_id) (
            field "request"
              (object (
                field "baseSequence" (number envelope.request.base_sequence) (
                  field "maximumEntries" (number envelope.request.maximum_entries)
                    (field "proposals" (array proposals) end))))
              end)))

    unfoldable pub encode_sync_request_envelope :
        SyncRequestEnvelope Intent → ProtocolLimitOverrides → Result Json
    unfolding resolve_protocol_limits assert_envelope assert_sync_request encode_proposals
    encode_sync_request_envelope envelope limit_overrides = do
      limits ← resolve_protocol_limits limit_overrides
      assert_envelope envelope.protocol_version envelope.stream_id
      assert_sync_request envelope.request (some limits)
      proposals ← encode_proposals envelope.request.proposals
      ok (to_json_value precedes (request_json envelope proposals))

  module _ {Operation : Type 0} (operation_codec : JsonCodec Operation) where
    abbrev pub entry_json : CommittedOperation Operation → Json → Json
    entry_json entry operation = object (
        field "sequence" (number entry.sequence) (
          field "operationId" (string entry.operation_id) (
            field "origin"
              (object (
                field "clientId" (string entry.origin.client_id) (
                  field "clientSequence" (number entry.origin.client_sequence)
                    (field "intentHash" (string entry.origin.intent_hash) end))))
              (field "operation" operation end))))

    unfoldable pub encode_entries : List (CommittedOperation Operation) → Result Items
    unfolding encode_payload
    encode_entries [] = ok nil
    encode_entries (entry ∷ rest) = do
      operation ←
          encode_payload precedes operation_codec entry.operation "$.response.entries[].operation"
      entries ← encode_entries rest
      ok (cons (entry_json entry operation) entries)

    module _ {Rejection : Type 0} (rejection_codec : JsonCodec Rejection) where
      unfoldable pub encode_decision : ProposalDecision Operation Rejection → Result Json
      unfolding encode_payload
      encode_decision decision = elim decision.outcome [
        | accepted sequence operation ↦
            encode_payload precedes operation_codec operation "$.response.decisions[].operation"
            >>= λ payload. ok (
                object (
                  field "operationId" (string decision.operation_id) (
                    field "status" (string "accepted")
                      (field "sequence" (number sequence) (field "operation" payload end)))))
        | rejected reason ↦
            encode_payload precedes rejection_codec reason "$.response.decisions[].reason"
            >>= λ payload. ok (
                object (
                  field "operationId" (string decision.operation_id)
                    (field "status" (string "rejected") (field "reason" payload end))))
      ]

      unfoldable pub encode_decisions : List (ProposalDecision Operation Rejection) → Result Items
      unfolding encode_decision
      encode_decisions [] = ok nil
      encode_decisions (decision ∷ rest) = do
        first ← encode_decision decision
        decisions ← encode_decisions rest
        ok (cons first decisions)

      abbrev pub response_json : SyncResponseEnvelope Operation Rejection → Items → Items → Json
      response_json envelope entries decisions = object (
          field "protocolVersion" (number sync_protocol_version) (
            field "streamId" (string envelope.stream_id) (
              field "response"
                (object (
                  field "requestedBaseSequence" (number envelope.response.requested_base_sequence) (
                    field "throughSequence" (number envelope.response.through_sequence) (
                      field "headSequence" (number envelope.response.head_sequence) (
                        field "entries" (array entries)
                          (field "decisions" (array decisions) end))))))
                end)))

      unfoldable pub encode_sync_response_envelope :
          SyncResponseEnvelope Operation Rejection → ProtocolLimitOverrides → Result Json
      unfolding resolve_protocol_limits assert_envelope assert_sync_response encode_entries
          encode_decisions
      encode_sync_response_envelope envelope limit_overrides = do
        limits ← resolve_protocol_limits limit_overrides
        assert_envelope envelope.protocol_version envelope.stream_id
        assert_sync_response envelope.response (some limits)
        entries ← encode_entries envelope.response.entries
        decisions ← encode_decisions envelope.response.decisions
        ok (to_json_value precedes (response_json envelope entries decisions))

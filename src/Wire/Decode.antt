-- ===== src/Wire/Decode.antt =====
-- src/wire.ts: `decodeSyncRequestEnvelope` and `decodeSyncResponseEnvelope`.
use sync_engine_v.Base.{
  ℕ, ◌+◌, String, List, [], ◌∷◌, Option, some, str_eq, text_append, if◌then◌else◌,
}
use sync_engine_v.Json.{Json, string, Items, nil, cons, Fields, member, count}
use sync_engine_v.Errors.{SyncError, Result, ok, err, wire_decode, ◌>>=◌, ◌>>◌}
use sync_engine_v.Limits.{ProtocolLimitOverrides, resolve_protocol_limits, assert_within_limit}
use sync_engine_v.Protocol.{
  ProposedOperation, CommittedOperation, accepted, rejected, ProposalDecision, SyncRequest,
  SyncResponse, sync_protocol_version, SyncRequestEnvelope, SyncResponseEnvelope,
}
use sync_engine_v.Invariants.Batch.{assert_sync_request}
use sync_engine_v.Invariants.Response.{assert_sync_response}
use sync_engine_v.Wire.Read.{
  JsonCodec, read_record, read_array, read_number, read_non_empty_string, index_path,
  assert_protocol_version, decode_payload,
}

module _ {Intent : Type 0} (codec : JsonCodec Intent) where
  unfoldable pub decode_proposal : Json → String → Result (ProposedOperation Intent)
  unfolding read_record read_non_empty_string read_number decode_payload member
  decode_proposal value path = do
    record_fields ← read_record (some value) path
    operation_id ←
        read_non_empty_string (member "operationId" record_fields) (text_append path ".operationId")
    client_id ←
        read_non_empty_string (member "clientId" record_fields) (text_append path ".clientId")
    client_sequence ←
        read_number (member "clientSequence" record_fields) (text_append path ".clientSequence")
    intent_hash ←
        read_non_empty_string (member "intentHash" record_fields) (text_append path ".intentHash")
    intent ← decode_payload codec (member "intent" record_fields) (text_append path ".intent")
    ok (record {
      submission = record {
        identity = record {
          operation_id = operation_id;
          client_id = client_id;
          client_sequence = client_sequence;
        };
        intent_hash = intent_hash;
      };
      intent = intent;
    })

  -- `proposalValues.map((proposal, index) => …)`, from an index
  unfoldable pub decode_proposals : ℕ → Items → Result (List (ProposedOperation Intent))
  unfolding decode_proposal
  decode_proposals index nil = ok []
  decode_proposals index (cons value rest) = do
    proposal ← decode_proposal value (index_path "$.request.proposals" index)
    proposals ← decode_proposals (index + 1) rest
    ok (proposal ∷ proposals)

  unfoldable pub decode_sync_request_envelope :
      Json → ProtocolLimitOverrides → Result (SyncRequestEnvelope Intent)
  unfolding resolve_protocol_limits read_record read_array read_non_empty_string read_number
      assert_protocol_version member count assert_within_limit decode_proposals assert_sync_request
  decode_sync_request_envelope value limit_overrides = do
    limits ← resolve_protocol_limits limit_overrides
    root ← read_record (some value) "$"
    assert_protocol_version (member "protocolVersion" root)
    stream_id ← read_non_empty_string (member "streamId" root) "$.streamId"
    request_record ← read_record (member "request" root) "$.request"
    proposal_values ← read_array (member "proposals" request_record) "$.request.proposals"
    assert_within_limit "proposals" (count proposal_values) limits.maximum_proposals_per_request
    proposals ← decode_proposals 0 proposal_values
    base_sequence ← read_number (member "baseSequence" request_record) "$.request.baseSequence"
    maximum_entries ←
        read_number (member "maximumEntries" request_record) "$.request.maximumEntries"
    let request : SyncRequest Intent = record {
      base_sequence = base_sequence;
      maximum_entries = maximum_entries;
      proposals = proposals;
    }
    assert_sync_request request (some limits)
    ok (record {
      protocol_version = sync_protocol_version;
      stream_id = stream_id;
      request = request;
    })

module _ {Operation : Type 0} (operation_codec : JsonCodec Operation) where
  unfoldable pub decode_committed_operation : Json → String → Result (CommittedOperation Operation)
  unfolding read_record read_non_empty_string read_number decode_payload member
  decode_committed_operation value path = do
    record_fields ← read_record (some value) path
    origin ← read_record (member "origin" record_fields) (text_append path ".origin")
    sequence ← read_number (member "sequence" record_fields) (text_append path ".sequence")
    operation_id ←
        read_non_empty_string (member "operationId" record_fields) (text_append path ".operationId")
    client_id ←
        read_non_empty_string (member "clientId" origin) (text_append path ".origin.clientId")
    client_sequence ←
        read_number (member "clientSequence" origin) (text_append path ".origin.clientSequence")
    intent_hash ←
        read_non_empty_string (member "intentHash" origin) (text_append path ".origin.intentHash")
    operation ←
        decode_payload operation_codec (member "operation" record_fields)
          (text_append path ".operation")
    ok (record {
      sequence = sequence;
      operation_id = operation_id;
      origin = record {
        client_id = client_id;
        client_sequence = client_sequence;
        intent_hash = intent_hash;
      };
      operation = operation;
    })

  unfoldable pub decode_entries : ℕ → Items → Result (List (CommittedOperation Operation))
  unfolding decode_committed_operation
  decode_entries index nil = ok []
  decode_entries index (cons value rest) = do
    entry ← decode_committed_operation value (index_path "$.response.entries" index)
    entries ← decode_entries (index + 1) rest
    ok (entry ∷ entries)

  module _ {Rejection : Type 0} (rejection_codec : JsonCodec Rejection) where
    abbrev pub decode_accepted :
        Fields → String → String → Result (ProposalDecision Operation Rejection)
    decode_accepted record_fields operation_id path = do
      sequence ← read_number (member "sequence" record_fields) (text_append path ".sequence")
      operation ←
          decode_payload operation_codec (member "operation" record_fields)
            (text_append path ".operation")
      ok (record { operation_id = operation_id; outcome = accepted sequence operation })

    abbrev pub decode_rejected :
        Fields → String → String → Result (ProposalDecision Operation Rejection)
    decode_rejected record_fields operation_id path = do
      reason ←
          decode_payload rejection_codec (member "reason" record_fields)
            (text_append path ".reason")
      ok (record { operation_id = operation_id; outcome = rejected reason })

    abbrev pub bad_status : String → SyncError
    bad_status path =
        wire_decode (text_append path ".status") "must be either \"accepted\" or \"rejected\""

    -- the branches on `record.status`
    abbrev pub decode_status :
        Option Json → Fields → String → String → Result (ProposalDecision Operation Rejection)
    decode_status (some (string status)) record_fields operation_id path =
        if str_eq status "accepted"
        then decode_accepted record_fields operation_id path
        else if str_eq status "rejected"
        then decode_rejected record_fields operation_id path
        else err (bad_status path)
    decode_status other record_fields operation_id path = err (bad_status path)

    unfoldable pub decode_decision : Json → String → Result (ProposalDecision Operation Rejection)
    unfolding read_record read_non_empty_string read_number decode_payload member
    decode_decision value path = do
      record_fields ← read_record (some value) path
      operation_id ←
          read_non_empty_string (member "operationId" record_fields)
            (text_append path ".operationId")
      decode_status (member "status" record_fields) record_fields operation_id path

    unfoldable pub decode_decisions :
        ℕ → Items → Result (List (ProposalDecision Operation Rejection))
    unfolding decode_decision
    decode_decisions index nil = ok []
    decode_decisions index (cons value rest) = do
      decision ← decode_decision value (index_path "$.response.decisions" index)
      decisions ← decode_decisions (index + 1) rest
      ok (decision ∷ decisions)

    unfoldable pub decode_sync_response_envelope :
        Json → ProtocolLimitOverrides → Result (SyncResponseEnvelope Operation Rejection)
    unfolding resolve_protocol_limits read_record read_array read_non_empty_string read_number
        assert_protocol_version member count assert_within_limit decode_entries decode_decisions
        assert_sync_response
    decode_sync_response_envelope value limit_overrides = do
      limits ← resolve_protocol_limits limit_overrides
      root ← read_record (some value) "$"
      assert_protocol_version (member "protocolVersion" root)
      stream_id ← read_non_empty_string (member "streamId" root) "$.streamId"
      response_record ← read_record (member "response" root) "$.response"
      entry_values ← read_array (member "entries" response_record) "$.response.entries"
      decision_values ← read_array (member "decisions" response_record) "$.response.decisions"
      assert_within_limit "entries" (count entry_values) limits.maximum_entries_per_response
      assert_within_limit "decisions" (count decision_values) limits.maximum_proposals_per_request
      entries ← decode_entries 0 entry_values
      decisions ← decode_decisions 0 decision_values
      requested_base_sequence ←
          read_number (member "requestedBaseSequence" response_record)
            "$.response.requestedBaseSequence"
      through_sequence ←
          read_number (member "throughSequence" response_record) "$.response.throughSequence"
      head_sequence ← read_number (member "headSequence" response_record) "$.response.headSequence"
      let response : SyncResponse Operation Rejection = record {
        requested_base_sequence = requested_base_sequence;
        through_sequence = through_sequence;
        head_sequence = head_sequence;
        entries = entries;
        decisions = decisions;
      }
      assert_sync_response response (some limits)
      ok (record {
        protocol_version = sync_protocol_version;
        stream_id = stream_id;
        response = response;
      })

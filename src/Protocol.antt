-- ===== src/Protocol.antt =====
-- src/protocol.ts: identities, proposals, committed operations, decisions, requests and responses.
-- Sequence numbers are natural numbers; the safe-integer bound is checked where the code checks it.
use sync_engine_v.Base.{ℕ, String, Bool, List, ltb}

pub record OperationIdentity : Type 0 where
  pub operation_id : String
  pub client_id : String
  pub client_sequence : ℕ

pub record OperationSubmissionIdentity : Type 0 where
  pub identity : OperationIdentity
  pub open identity use *
  pub intent_hash : String

pub record ProposedOperation (Intent : Type 0) : Type 0 where
  pub submission : OperationSubmissionIdentity
  pub open submission use *
  pub intent : Intent

pub record OperationOrigin : Type 0 where
  pub client_id : String
  pub client_sequence : ℕ
  pub intent_hash : String

pub record CommittedOperation (Operation : Type 0) : Type 0 where
  pub sequence : ℕ
  pub operation_id : String
  pub origin : OperationOrigin
  pub operation : Operation

pub data ProposalOutcome (Operation Rejection : Type 0) : Type 0 where
  accepted : ℕ → Operation → ProposalOutcome Operation Rejection
  rejected : Rejection → ProposalOutcome Operation Rejection

-- A permanent outcome for one operation identity.
pub record ProposalDecision (Operation Rejection : Type 0) : Type 0 where
  pub operation_id : String
  pub outcome : ProposalOutcome Operation Rejection

-- The application's outcome, before a canonical sequence is allocated.
pub data DecisionDraft (Operation Rejection : Type 0) : Type 0 where
  accept : Operation → DecisionDraft Operation Rejection
  reject : Rejection → DecisionDraft Operation Rejection

pub record SyncRequest (Intent : Type 0) : Type 0 where
  pub base_sequence : ℕ
  pub maximum_entries : ℕ
  pub proposals : List (ProposedOperation Intent)

pub record SyncResponse (Operation Rejection : Type 0) : Type 0 where
  pub requested_base_sequence : ℕ
  pub through_sequence : ℕ
  pub head_sequence : ℕ
  pub entries : List (CommittedOperation Operation)
  pub decisions : List (ProposalDecision Operation Rejection)

-- `SYNC_PROTOCOL_VERSION`
abbrev pub sync_protocol_version : ℕ
sync_protocol_version = 1

pub record SyncRequestEnvelope (Intent : Type 0) : Type 0 where
  pub protocol_version : ℕ
  pub stream_id : String
  pub request : SyncRequest Intent

pub record SyncResponseEnvelope (Operation Rejection : Type 0) : Type 0 where
  pub protocol_version : ℕ
  pub stream_id : String
  pub response : SyncResponse Operation Rejection

module _ {Operation Rejection : Type 0} where
  unfoldable pub response_has_more_entries : SyncResponse Operation Rejection → Bool
  response_has_more_entries response = ltb response.through_sequence response.head_sequence

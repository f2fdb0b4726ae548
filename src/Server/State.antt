-- ===== src/Server/State.antt =====
-- src/server.ts: the state of `InMemoryLogServer`, of a staged transition and of a snapshot.
use sync_engine_v.Base.{ℕ, String, Bool, ◌&&◌, List, Option, none, some, ◌==◌, str_eq, length}
use sync_engine_v.Base.Dict.{Dict}
use sync_engine_v.Errors.{Result}
use sync_engine_v.Limits.{ProtocolLimits}
use sync_engine_v.Protocol.{
  OperationIdentity, OperationSubmissionIdentity, ProposedOperation, CommittedOperation,
  ProposalDecision, DecisionDraft,
}
use sync_engine_v.Invariants.Position

-- The application: it decides proposals and applies operations, and may throw.
pub record LogInterpreter (State Intent Operation Rejection : Type 0) : Type 0 where
  pub decide : State → ProposedOperation Intent → Result (DecisionDraft Operation Rejection)
  pub apply : State → Operation → Result State

pub record StoredProposalDecision (Operation Rejection : Type 0) : Type 0 where
  pub identity : OperationSubmissionIdentity
  pub decision : ProposalDecision Operation Rejection

pub record LogServerSnapshot (State Operation Rejection : Type 0) : Type 0 where
  pub materialized_state : State
  pub log : List (CommittedOperation Operation)
  pub decisions : List (StoredProposalDecision Operation Rejection)

pub record StagedServerTransition (State Operation Rejection : Type 0) : Type 0 where
  pub state : State
  pub entries : List (CommittedOperation Operation)
  pub decisions_by_operation_id : Dict (StoredProposalDecision Operation Rejection)
  pub operation_id_by_client_position : Dict String

pub record LogServer (State Intent Operation Rejection : Type 0) : Type 0 where
  pub interpreter : LogInterpreter State Intent Operation Rejection
  pub limits : ProtocolLimits
  pub state : State
  pub log : List (CommittedOperation Operation)
  pub decisions_by_operation_id : Dict (StoredProposalDecision Operation Rejection)
  pub operation_id_by_client_position : Dict String

abbrev pub client_position_key : OperationIdentity → String
client_position_key identity =
    Position.client_position_key identity.client_id identity.client_sequence

unfoldable pub same_operation_identity : OperationIdentity → OperationIdentity → Bool
same_operation_identity left right =
    str_eq left.operation_id right.operation_id
    && str_eq left.client_id right.client_id
    && left.client_sequence == right.client_sequence

module _ {State Intent Operation Rejection : Type 0} where
  abbrev pub head_sequence : LogServer State Intent Operation Rejection → ℕ
  head_sequence server = length server.log

module _ {Operation Rejection : Type 0} where
  abbrev pub decision_of :
      Option (StoredProposalDecision Operation Rejection)
      → Option (ProposalDecision Operation Rejection)
  decision_of none = none
  decision_of (some stored) = some stored.decision

  unfoldable pub create_stored_decision :
      OperationSubmissionIdentity
      → ProposalDecision Operation Rejection
      → StoredProposalDecision Operation Rejection
  create_stored_decision identity decision = record { identity = identity; decision = decision }

-- ===== src/Server/Direct.antt =====
-- The specification of one decision of the authority: the code of `#processProposal` in
-- src/server.ts without its staged transition, on the server's own log and maps.
use sync_engine_v.Base.{◌+◌, List, [], ◌∷◌, ◌++◌, Option, none, some, length}
use sync_engine_v.Base.Dict.{lookup, put}
use sync_engine_v.Errors.{Result, ok, ◌>>=◌, ◌>>◌}
use sync_engine_v.Protocol.{
  OperationSubmissionIdentity, ProposedOperation, accepted, rejected, ProposalDecision,
  DecisionDraft, accept, reject,
}
use sync_engine_v.Server.{
  LogServer, StoredProposalDecision, client_position_key, repeat_decision, assert_position_unbound,
  committed_as,
}

-- a decision and the server after it
abbrev pub Step : Type 0 → Type 0 → Type 0 → Type 0 → Type 0
Step State Intent Operation Rejection =
    ProposalDecision Operation Rejection × LogServer State Intent Operation Rejection

module _ {State Intent Operation Rejection : Type 0} where
  -- Note a new decision under its operation id and its client position.
  abbrev pub with_decision :
      LogServer State Intent Operation Rejection
      → OperationSubmissionIdentity
      → ProposalDecision Operation Rejection
      → LogServer State Intent Operation Rejection
  with_decision server identity decision = record server {
    decisions_by_operation_id =
        put identity.operation_id (record { identity = identity; decision = decision })
          server.decisions_by_operation_id;
    operation_id_by_client_position =
        put (client_position_key identity.identity) identity.operation_id
          server.operation_id_by_client_position;
  }

  abbrev pub reject_now :
      LogServer State Intent Operation Rejection
      → ProposedOperation Intent
      → Rejection
      → Step State Intent Operation Rejection
  reject_now server proposal reason =
      let decision : ProposalDecision Operation Rejection = record {
        operation_id = proposal.operation_id;
        outcome = rejected reason;
      } in
      (decision, with_decision server proposal.submission decision)

  abbrev pub append_now :
      LogServer State Intent Operation Rejection
      → ProposedOperation Intent
      → Operation
      → State
      → Step State Intent Operation Rejection
  append_now server proposal operation next_state =
      let sequence = length server.log + 1 in
      let decision : ProposalDecision Operation Rejection = record {
        operation_id = proposal.operation_id;
        outcome = accepted sequence operation;
      } in
      let appended = record server {
        state = next_state;
        log = server.log ++ committed_as sequence proposal operation ∷ [];
      } in
      (decision, with_decision appended proposal.submission decision)

  abbrev pub apply_draft :
      LogServer State Intent Operation Rejection
      → ProposedOperation Intent
      → DecisionDraft Operation Rejection
      → Result (Step State Intent Operation Rejection)
  apply_draft server proposal (reject reason) = ok (reject_now server proposal reason)
  apply_draft server proposal (accept operation) = do
    next_state ← server.interpreter.apply server.state operation
    ok (append_now server proposal operation next_state)

  abbrev pub decide_new :
      LogServer State Intent Operation Rejection
      → ProposedOperation Intent
      → Result (Step State Intent Operation Rejection)
  decide_new server proposal = do
    assert_position_unbound
        (lookup (client_position_key proposal.identity) server.operation_id_by_client_position)
        proposal
    draft ← server.interpreter.decide server.state proposal
    apply_draft server proposal draft

  abbrev pub decide_known :
      LogServer State Intent Operation Rejection
      → ProposedOperation Intent
      → Option (StoredProposalDecision Operation Rejection)
      → Result (Step State Intent Operation Rejection)
  decide_known server proposal (some stored) = do
    decision ← repeat_decision stored proposal
    ok (decision, server)
  decide_known server proposal none = decide_new server proposal

  unfoldable pub decide_one :
      LogServer State Intent Operation Rejection
      → ProposedOperation Intent
      → Result (Step State Intent Operation Rejection)
  decide_one server proposal =
      decide_known server proposal (lookup proposal.operation_id server.decisions_by_operation_id)

  -- The proposals one after the other.
  unfoldable pub decide_all :
      LogServer State Intent Operation Rejection
      → List (ProposedOperation Intent)
      → Result
          (List (ProposalDecision Operation Rejection) × LogServer State Intent Operation Rejection)
  decide_all server [] = ok ([], server)
  decide_all server (proposal ∷ rest) = do
    (decision, server') ← decide_one server proposal
    (decisions, server'') ← decide_all server' rest
    ok (decision ∷ decisions, server'')

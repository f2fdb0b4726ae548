-- ===== src/Server/Transition.antt =====
-- src/server.ts: how `InMemoryLogServer` decides the proposals of a request, on a staged transition.
use sync_engine_v.Base.{
  ℕ, ◌+◌, String, not, List, [], ◌∷◌, ◌++◌, Option, none, some, str_eq, length,
}
use sync_engine_v.Base.Dict.{lookup, put, or_else}
use sync_engine_v.Errors.{
  Result, ok, operation_identity_conflict, operation_intent_conflict, client_sequence_conflict,
  throw_if, ◌>>=◌, ◌>>◌,
}
use sync_engine_v.Protocol.{
  OperationSubmissionIdentity, ProposedOperation, CommittedOperation, accepted, rejected,
  ProposalDecision, DecisionDraft, accept, reject,
}
use sync_engine_v.Server.State.{
  StoredProposalDecision, StagedServerTransition, LogServer, client_position_key,
  same_operation_identity, create_stored_decision,
}

-- a decision and the staged transition after it
abbrev pub Decided : Type 0 → Type 0 → Type 0 → Type 0
Decided State Operation Rejection =
    ProposalDecision Operation Rejection × StagedServerTransition State Operation Rejection

module _ {State Operation Rejection : Type 0} where
  unfoldable pub stage_decision :
      StagedServerTransition State Operation Rejection
      → OperationSubmissionIdentity
      → ProposalDecision Operation Rejection
      → StagedServerTransition State Operation Rejection
  unfolding create_stored_decision
  stage_decision staged identity decision = record staged {
    decisions_by_operation_id =
        put identity.operation_id (create_stored_decision identity decision)
          staged.decisions_by_operation_id;
    operation_id_by_client_position =
        put (client_position_key identity.identity) identity.operation_id
          staged.operation_id_by_client_position;
  }

module _ {Intent : Type 0} where
  -- `if (existingOperationId !== undefined && existingOperationId !== proposal.operationId) …`
  unfoldable pub assert_position_unbound :
      Option String → ProposedOperation Intent → Result (Unit {0})
  assert_position_unbound none proposal = ok tt
  assert_position_unbound (some existing) proposal =
      throw_if (not (str_eq existing proposal.operation_id)) (
        client_sequence_conflict proposal.client_id proposal.client_sequence existing
          proposal.operation_id)

  -- the entry of a proposal that is accepted
  abbrev pub committed_as :
      {Operation : Type 0} → ℕ → ProposedOperation Intent → Operation → CommittedOperation Operation
  committed_as sequence proposal operation = record {
    sequence = sequence;
    operation_id = proposal.operation_id;
    origin = record {
      client_id = proposal.client_id;
      client_sequence = proposal.client_sequence;
      intent_hash = proposal.intent_hash;
    };
    operation = operation;
  }

module _ {Intent Operation Rejection : Type 0} where
  -- a proposal whose operation id has been decided
  unfoldable pub repeat_decision :
      StoredProposalDecision Operation Rejection
      → ProposedOperation Intent
      → Result (ProposalDecision Operation Rejection)
  unfolding same_operation_identity
  repeat_decision stored proposal = do
    throw_if (not (same_operation_identity stored.identity.identity proposal.identity))
        (operation_identity_conflict proposal.operation_id)
    throw_if (not (str_eq stored.identity.intent_hash proposal.intent_hash))
        (operation_intent_conflict proposal.operation_id)
    ok stored.decision

module _ {State Intent Operation Rejection : Type 0} where
  unfoldable pub stage_rejected :
      StagedServerTransition State Operation Rejection
      → ProposedOperation Intent
      → Rejection
      → Decided State Operation Rejection
  unfolding stage_decision
  stage_rejected staged proposal reason =
      let decision : ProposalDecision Operation Rejection = record {
        operation_id = proposal.operation_id;
        outcome = rejected reason;
      } in
      (decision, stage_decision staged proposal.submission decision)

  -- once `apply` has returned the next state
  unfoldable pub stage_accepted :
      LogServer State Intent Operation Rejection
      → StagedServerTransition State Operation Rejection
      → ProposedOperation Intent
      → Operation
      → State
      → Decided State Operation Rejection
  unfolding stage_decision
  stage_accepted server staged proposal operation next_state =
      let sequence = length server.log + length staged.entries + 1 in
      let entry = committed_as sequence proposal operation in
      let decision : ProposalDecision Operation Rejection = record {
        operation_id = proposal.operation_id;
        outcome = accepted sequence operation;
      } in
      let appended = record staged { state = next_state; entries = staged.entries ++ entry ∷ [] } in
      (decision, stage_decision appended proposal.submission decision)

  -- the two branches on `draft.status`
  unfoldable pub stage_draft :
      LogServer State Intent Operation Rejection
      → StagedServerTransition State Operation Rejection
      → ProposedOperation Intent
      → DecisionDraft Operation Rejection
      → Result (Decided State Operation Rejection)
  unfolding stage_rejected stage_accepted
  stage_draft server staged proposal (reject reason) = ok (stage_rejected staged proposal reason)
  stage_draft server staged proposal (accept operation) = do
    next_state ← server.interpreter.apply staged.state operation
    ok (stage_accepted server staged proposal operation next_state)

  -- a proposal whose operation id has not been decided
  unfoldable pub decide_proposal :
      LogServer State Intent Operation Rejection
      → StagedServerTransition State Operation Rejection
      → ProposedOperation Intent
      → Result (Decided State Operation Rejection)
  unfolding assert_position_unbound stage_draft
  decide_proposal server staged proposal = do
    let position_key = client_position_key proposal.identity
    assert_position_unbound
        (or_else (lookup position_key staged.operation_id_by_client_position)
          (lookup position_key server.operation_id_by_client_position))
        proposal
    draft ← server.interpreter.decide staged.state proposal
    stage_draft server staged proposal draft

  abbrev pub dispatch_proposal :
      LogServer State Intent Operation Rejection
      → StagedServerTransition State Operation Rejection
      → ProposedOperation Intent
      → Option (StoredProposalDecision Operation Rejection)
      → Result (Decided State Operation Rejection)
  dispatch_proposal server staged proposal (some stored) = do
    decision ← repeat_decision stored proposal
    ok (decision, staged)
  dispatch_proposal server staged proposal none = decide_proposal server staged proposal

  unfoldable pub process_proposal :
      LogServer State Intent Operation Rejection
      → StagedServerTransition State Operation Rejection
      → ProposedOperation Intent
      → Result (Decided State Operation Rejection)
  unfolding repeat_decision decide_proposal
  process_proposal server staged proposal = dispatch_proposal server staged proposal (
      or_else (lookup proposal.operation_id staged.decisions_by_operation_id)
        (lookup proposal.operation_id server.decisions_by_operation_id))

  -- `request.proposals.map((proposal) => this.#processProposal(proposal, staged))`
  unfoldable pub process_proposals :
      LogServer State Intent Operation Rejection
      → StagedServerTransition State Operation Rejection
      → List (ProposedOperation Intent)
      → Result (
          List (ProposalDecision Operation Rejection)
          × StagedServerTransition State Operation Rejection)
  process_proposals server staged [] = ok ([], staged)
  process_proposals server staged (proposal ∷ rest) = do
    (decision, staged') ← process_proposal server staged proposal
    (decisions, staged'') ← process_proposals server staged' rest
    ok (decision ∷ decisions, staged'')

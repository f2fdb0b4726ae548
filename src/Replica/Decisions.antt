-- ===== src/Replica/Decisions.antt =====
-- src/replica.ts: how `mergeSyncResponse` takes in the decisions of a response.
use sync_engine_v.Base.{
  ℕ, zero, suc, String, Bool, not, ◌||◌, List, [], ◌∷◌, ◌++◌, Option, none, some, ◌==◌, str_eq,
  get_elem?, if◌then◌else◌,
}
use sync_engine_v.Errors.{
  Result, ok, err, sync_engine, log_divergence, decision_conflict, throw_if, ◌>>=◌, ◌>>◌,
}
use sync_engine_v.Protocol.{
  ProposedOperation, CommittedOperation, accepted as accepts, rejected, ProposalDecision,
}
use sync_engine_v.Replica.State.{pending, accepted, OutboxEntry}

module _ {Intent Operation : Type 0} where
  -- `outbox.findIndex((entry) => entry.proposal.operationId === operationId)`
  unfoldable pub find_index : String → List (OutboxEntry Intent Operation) → Option ℕ
  find_index operation_id [] = none
  find_index operation_id (entry ∷ rest) =
      if str_eq entry.proposal.operation_id operation_id
      then some 0
      else elim (find_index operation_id rest) [ none ↦ none | some i ↦ some (suc i) ]

  -- `outbox.splice(index, 1)`
  unfoldable pub remove_at :
      ℕ → List (OutboxEntry Intent Operation) → List (OutboxEntry Intent Operation)
  remove_at i [] = []
  remove_at zero (entry ∷ rest) = rest
  remove_at (suc i) (entry ∷ rest) = entry ∷ remove_at i rest

  -- `outbox[index] = value`
  unfoldable pub replace_at :
      ℕ
      → OutboxEntry Intent Operation
      → List (OutboxEntry Intent Operation)
      → List (OutboxEntry Intent Operation)
  replace_at i value [] = []
  replace_at zero value (entry ∷ rest) = value ∷ rest
  replace_at (suc i) value (entry ∷ rest) = entry ∷ replace_at i value rest

  -- `const local = outbox[index]; if (local === undefined) throw …`
  unfoldable pub local_at :
      String → ℕ → List (OutboxEntry Intent Operation) → Result (OutboxEntry Intent Operation)
  local_at message index outbox = elim (get_elem? outbox index) [
    | none ↦ err (sync_engine message)
    | some local ↦ ok local
  ]

  -- the first difference, if any, of a proposal and an entry of the log
  unfoldable pub proposal_difference :
      ProposedOperation Intent → CommittedOperation Operation → Option String
  proposal_difference proposal committed =
      if not (str_eq proposal.operation_id committed.operation_id)
      then some "operationId differs"
      else if not (str_eq proposal.client_id committed.origin.client_id)
      then some "origin clientId differs"
      else if not (proposal.client_sequence == committed.origin.client_sequence)
      then some "origin clientSequence differs"
      else if not (str_eq proposal.intent_hash committed.origin.intent_hash)
      then some "origin intentHash differs"
      else none

  unfoldable pub assert_proposal_matches_committed :
      ProposedOperation Intent → CommittedOperation Operation → Result (Unit {0})
  unfolding proposal_difference
  assert_proposal_matches_committed proposal committed =
      elim (proposal_difference proposal committed) [
        | none ↦ ok tt
        | some detail ↦
            err (
              log_divergence committed.sequence proposal.operation_id committed.operation_id detail)
      ]

module _ {Operation : Type 0} where
  unfoldable pub committed_metadata_difference :
      CommittedOperation Operation → CommittedOperation Operation → Option String
  committed_metadata_difference expected received =
      if not (str_eq expected.operation_id received.operation_id)
      then some "operationId differs"
      else if not (str_eq expected.origin.client_id received.origin.client_id)
      then some "origin clientId differs"
      else if not (expected.origin.client_sequence == received.origin.client_sequence)
      then some "origin clientSequence differs"
      else if not (str_eq expected.origin.intent_hash received.origin.intent_hash)
      then some "origin intentHash differs"
      else none

  -- `if (detail !== undefined || !operationsAreEqual(…)) throw …`
  unfoldable pub assert_same_committed_position :
      (Operation → Operation → Bool)
      → CommittedOperation Operation
      → CommittedOperation Operation
      → Result (Unit {0})
  unfolding committed_metadata_difference
  assert_same_committed_position are_equal expected received =
      elim (committed_metadata_difference expected received) [
        | some detail ↦
            err
              (log_divergence received.sequence expected.operation_id received.operation_id detail)
        | none ↦ throw_if (not (are_equal expected.operation received.operation)) (
            log_divergence received.sequence expected.operation_id received.operation_id
              "canonical operation payload differs")
      ]

-- The outbox and the decisions learned so far, in the merge.
pub record Learned (Intent Operation Rejection : Type 0) : Type 0 where
  pub outbox : List (OutboxEntry Intent Operation)
  pub newly_resolved : List (ProposalDecision Operation Rejection)

module _ {Intent Operation Rejection : Type 0} (are_equal : Operation → Operation → Bool) where
  -- the local entry of a decision, at its index
  abbrev pub merge_local :
      Learned Intent Operation Rejection
      → ProposalDecision Operation Rejection
      → ℕ
      → OutboxEntry Intent Operation
      → Result (Learned Intent Operation Rejection)
  merge_local learned decision index local = elim decision.outcome [
    | rejected reason ↦ elim local.status [
      | accepted sequence operation ↦ err (decision_conflict decision.operation_id)
      | pending ↦ ok (record {
        outbox = remove_at index learned.outbox;
        newly_resolved = learned.newly_resolved ++ decision ∷ [];
      })
    ]
    | accepts sequence operation ↦ elim local.status [
      | accepted known_sequence known_operation ↦
          throw_if (not (known_sequence == sequence) || not (are_equal known_operation operation))
            (decision_conflict decision.operation_id)
          >> ok learned
      | pending ↦ ok (record {
        outbox =
            replace_at index
              (record { proposal = local.proposal; status = accepted sequence operation })
              learned.outbox;
        newly_resolved = learned.newly_resolved ++ decision ∷ [];
      })
    ]
  ]

  -- a round of the loop over `response.decisions`
  unfoldable pub merge_decision :
      Learned Intent Operation Rejection
      → ProposalDecision Operation Rejection
      → Result (Learned Intent Operation Rejection)
  unfolding local_at
  merge_decision learned decision = elim (find_index decision.operation_id learned.outbox) [
    | none ↦ ok learned
    | some index ↦
        local_at "outbox index disappeared during decision merge" index learned.outbox
        >>= merge_local learned decision index
  ]

  unfoldable pub merge_decisions :
      Learned Intent Operation Rejection
      → List (ProposalDecision Operation Rejection)
      → Result (Learned Intent Operation Rejection)
  merge_decisions learned [] = ok learned
  merge_decisions learned (decision ∷ rest) = do
    learned' ← merge_decision learned decision
    merge_decisions learned' rest

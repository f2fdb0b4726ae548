-- ===== src/Invariants/Response.antt =====
-- src/invariants.ts: `assertSyncResponse`.
pub mod Entries
pub mod Valid
use sync_engine_v.Base.{
  ℕ, suc, ◌+◌, ◌-◌, String, Bool, true, false, not, ◌&&◌, List, [], ◌∷◌, Option, none, some, ltb,
  ◌==◌, length, contains,
}
use sync_engine_v.Base.Dict.{Dict, lookup, put}
use sync_engine_v.Errors.{Result, ok, err, malformed_sync_response, throw_if, ◌>>=◌, ◌>>◌}
use sync_engine_v.Limits.{ProtocolLimits, assert_within_limit}
use sync_engine_v.Protocol.{
  CommittedOperation, ProposalOutcome, accepted, rejected, ProposalDecision, SyncResponse,
}
use sync_engine_v.Invariants.Identity.{
  assert_non_empty_string, assert_log_sequence, assert_committed_operation,
}
use sync_engine_v.Invariants.Batch.{assert_optional_limit}
use sync_engine_v.Invariants.Log.{entry_position_key}

-- `x !== undefined`
abbrev pub is_defined {ℓ} : {A : Type ℓ} → Option A → Bool
is_defined none = false
is_defined (some a) = true

module _ {Operation : Type 0} where
  -- the loop over the entries; it returns `entriesByOperationId`
  unfoldable pub check_entries :
      ℕ
      → Dict (CommittedOperation Operation)
      → Dict String
      → List (CommittedOperation Operation)
      → Result (Dict (CommittedOperation Operation))
  check_entries expected by_operation_id client_positions [] = ok by_operation_id
  check_entries expected by_operation_id client_positions (entry ∷ rest) = do
    assert_committed_operation "response entry" entry
    throw_if (not (entry.sequence == expected))
        (malformed_sync_response "response entries must be contiguous")
    throw_if (is_defined (lookup entry.operation_id by_operation_id))
        (malformed_sync_response "response repeats committed operation")
    throw_if (is_defined (lookup (entry_position_key entry) client_positions))
        (malformed_sync_response "response binds client position to both")
    check_entries (expected + 1) (put entry.operation_id entry by_operation_id)
        (put (entry_position_key entry) entry.operation_id client_positions) rest

  -- `committed !== undefined && committed.sequence !== sequence`
  abbrev pub disagrees : Option (CommittedOperation Operation) → ℕ → Bool
  disagrees none sequence = false
  disagrees (some committed) sequence = not (committed.sequence == sequence)

  -- the two branches on `decision.status`, given the entry of that operation, if any
  unfoldable pub check_outcome :
      {Rejection : Type 0}
      → ℕ
      → Option (CommittedOperation Operation)
      → ProposalOutcome Operation Rejection
      → Result (Unit {0})
  check_outcome head committed (accepted sequence operation) = do
    assert_log_sequence "accepted decision sequence" sequence false
    throw_if (ltb head sequence)
        (malformed_sync_response "accepted decision is beyond response head")
    throw_if (disagrees committed sequence)
        (malformed_sync_response "accepted decision disagrees with its committed sequence")
  check_outcome head committed (rejected reason) =
      throw_if (is_defined committed)
        (malformed_sync_response "rejected decision also appears in the committed page")

module _ {Operation Rejection : Type 0} where
  -- the loop over the decisions
  unfoldable pub check_decisions :
      ℕ
      → Dict (CommittedOperation Operation)
      → List String
      → List (ProposalDecision Operation Rejection)
      → Result (Unit {0})
  check_decisions head by_operation_id decision_ids [] = ok tt
  check_decisions head by_operation_id decision_ids (decision ∷ rest) = do
    assert_non_empty_string "decision.operationId" decision.operation_id
    throw_if (contains decision.operation_id decision_ids)
        (malformed_sync_response "response repeats decision")
    check_outcome head (lookup decision.operation_id by_operation_id) decision.outcome
    check_decisions head by_operation_id (decision.operation_id ∷ decision_ids) rest

  -- the checks before the two loops
  unfoldable pub check_cursors :
      SyncResponse Operation Rejection → Option ProtocolLimits → Result (Unit {0})
  unfolding assert_log_sequence assert_within_limit
  check_cursors response limits = do
    assert_log_sequence "requestedBaseSequence" response.requested_base_sequence true
    assert_log_sequence "throughSequence" response.through_sequence true
    assert_log_sequence "headSequence" response.head_sequence true
    throw_if (ltb response.through_sequence response.requested_base_sequence)
        (malformed_sync_response "requestedBaseSequence cannot be greater than throughSequence")
    throw_if (ltb response.head_sequence response.through_sequence)
        (malformed_sync_response "throughSequence cannot be greater than headSequence")
    assert_optional_limit (λ l. l.maximum_entries_per_response) "entries" (length response.entries)
        limits
    assert_optional_limit (λ l. l.maximum_proposals_per_request) "decisions"
        (length response.decisions) limits
    throw_if
        (not
          (length response.entries == response.through_sequence - response.requested_base_sequence))
        (malformed_sync_response "entries length does not match the declared page")
    throw_if
        (ltb response.requested_base_sequence response.head_sequence
          && length response.entries == 0)
        (malformed_sync_response "a response behind the server head must advance throughSequence")

  unfoldable pub assert_sync_response :
      SyncResponse Operation Rejection → Option ProtocolLimits → Result (Unit {0})
  unfolding check_cursors check_entries check_decisions
  assert_sync_response response limits = do
    check_cursors response limits
    by_operation_id ← check_entries (response.requested_base_sequence + 1) [] [] response.entries
    check_decisions response.head_sequence by_operation_id [] response.decisions

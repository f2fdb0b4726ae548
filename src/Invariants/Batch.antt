-- ===== src/Invariants/Batch.antt =====
-- src/invariants.ts: `assertProposalBatch` and `assertSyncRequest`.
pub mod Valid
use sync_engine_v.Base.{
  ℕ, String, ◌≡◌, Bool, true, false, List, [], ◌∷◌, Option, none, some, leb, length, contains,
  if◌then◌else◌,
}
use sync_engine_v.Base.Dict.{Dict, lookup, put}
use sync_engine_v.Errors.{
  Result, ok, err, duplicate_operation_id, invalid_proposal_order, throw_if, ◌>>=◌, ◌>>◌,
}
use sync_engine_v.Limits.{ProtocolLimits, assert_positive_safe_integer, assert_within_limit}
use sync_engine_v.Protocol.{ProposedOperation, SyncRequest}
use sync_engine_v.Invariants.Identity.{assert_log_sequence, assert_submission_identity}

-- `if (previous !== undefined && proposal.clientSequence <= previous) throw …`
unfoldable pub assert_ordered_after : Option ℕ → String → ℕ → Result (Unit {0})
assert_ordered_after none client_id received = ok tt
assert_ordered_after (some previous) client_id received =
    throw_if (leb received previous) (invalid_proposal_order client_id previous received)

-- a limit that is checked if the limits are given
abbrev pub assert_optional_limit :
    (ProtocolLimits → ℕ) → String → ℕ → Option ProtocolLimits → Result (Unit {0})
assert_optional_limit field label received none = ok tt
assert_optional_limit field label received (some limits) =
    assert_within_limit label received (field limits)

module _ {Intent : Type 0} where
  -- the loop, after the operation ids and the last sequence of each client that it has seen
  unfoldable pub check_proposals :
      List String → Dict ℕ → List (ProposedOperation Intent) → Result (Unit {0})
  unfolding assert_ordered_after
  check_proposals operation_ids last_sequence_by_client [] = ok tt
  check_proposals operation_ids last_sequence_by_client (proposal ∷ rest) = do
    assert_submission_identity "proposal" proposal.submission
    throw_if (contains proposal.operation_id operation_ids)
        (duplicate_operation_id proposal.operation_id)
    assert_ordered_after (lookup proposal.client_id last_sequence_by_client) proposal.client_id
        proposal.client_sequence
    check_proposals (proposal.operation_id ∷ operation_ids)
        (put proposal.client_id proposal.client_sequence last_sequence_by_client) rest

  unfoldable pub assert_proposal_batch : List (ProposedOperation Intent) → Result (Unit {0})
  assert_proposal_batch proposals = check_proposals [] [] proposals

  unfoldable pub assert_sync_request :
      SyncRequest Intent → Option ProtocolLimits → Result (Unit {0})
  unfolding assert_proposal_batch assert_log_sequence assert_positive_safe_integer
      assert_within_limit
  assert_sync_request request limits = do
    assert_log_sequence "baseSequence" request.base_sequence true
    assert_positive_safe_integer "maximumEntries" request.maximum_entries
    assert_optional_limit (λ l. l.maximum_proposals_per_request) "proposals"
        (length request.proposals) limits
    assert_proposal_batch request.proposals

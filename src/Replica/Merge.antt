-- ===== src/Replica/Merge.antt =====
-- src/replica.ts: `mergeSyncResponse` and how it takes in the canonical entries of a response.
use sync_engine_v.Base.{
  ℕ, ◌+◌, ◌-◌, Bool, not, ◌||◌, List, [], ◌∷◌, ◌++◌, none, some, ltb, leb, ◌==◌, get_elem?,
  if◌then◌else◌,
}
use sync_engine_v.Errors.{
  Result, ok, err, sync_engine, log_gap, decision_conflict, throw_if, ◌>>=◌, ◌>>◌,
}
use sync_engine_v.Protocol.{CommittedOperation, accepted as accepts, ProposalDecision, SyncResponse}
use sync_engine_v.Invariants.Response.{assert_sync_response}
use sync_engine_v.Replica.State.{
  pending, accepted, OutboxEntry, ReplicaState, ReplicaInterpreter, assert_retained_confirmed_log,
}
use sync_engine_v.Replica.Decisions.{
  find_index, remove_at, local_at, assert_proposal_matches_committed,
  assert_same_committed_position, Learned, merge_decisions,
}

pub record MergeSyncResult (State Intent Operation Rejection : Type 0) : Type 0 where
  pub state : ReplicaState State Intent Operation
  pub newly_resolved : List (ProposalDecision Operation Rejection)
  pub caught_up_to_observed_head : Bool

module _ {Intent Operation Rejection : Type 0} (are_equal : Operation → Operation → Bool) where
  -- the local entry of a committed operation, at its index
  abbrev pub resolve_local :
      Learned Intent Operation Rejection
      → CommittedOperation Operation
      → ℕ
      → OutboxEntry Intent Operation
      → Result (Learned Intent Operation Rejection)
  resolve_local learned committed index local =
      assert_proposal_matches_committed local.proposal committed >> elim local.status [
        | accepted sequence operation ↦
            throw_if
              (not (sequence == committed.sequence)
                || not (are_equal operation committed.operation))
              (decision_conflict committed.operation_id)
            >> ok (record learned { outbox = remove_at index learned.outbox })
        | pending ↦ ok (record {
          outbox = remove_at index learned.outbox;
          newly_resolved =
              learned.newly_resolved
              ++ record {
                operation_id = committed.operation_id;
                outcome = accepts committed.sequence committed.operation;
              }
                ∷ [];
        })
      ]

  unfoldable pub resolve_outbox_from_committed :
      Learned Intent Operation Rejection
      → CommittedOperation Operation
      → Result (Learned Intent Operation Rejection)
  unfolding local_at assert_proposal_matches_committed
  resolve_outbox_from_committed learned committed =
      elim (find_index committed.operation_id learned.outbox) [
        | none ↦ ok learned
        | some index ↦
            local_at "outbox index disappeared during log merge" index learned.outbox
            >>= resolve_local learned committed index
      ]

-- The local variables of `mergeSyncResponse`.
pub record Progress (State Intent Operation Rejection : Type 0) : Type 0 where
  pub confirmed_sequence : ℕ
  pub confirmed_state : State
  pub confirmed_log : List (CommittedOperation Operation)
  pub learned : Learned Intent Operation Rejection

module _ {State Intent Operation Rejection : Type 0}
    (interpreter : ReplicaInterpreter State Intent Operation) (retained_base_sequence : ℕ) where
  -- an entry that the retained log should have
  unfoldable pub merge_retained :
      Progress State Intent Operation Rejection
      → CommittedOperation Operation
      → Result (Progress State Intent Operation Rejection)
  unfolding assert_same_committed_position resolve_outbox_from_committed
  merge_retained progress received =
      elim (get_elem? progress.confirmed_log (received.sequence - retained_base_sequence - 1)) [
        | none ↦ err (log_gap (progress.confirmed_sequence + 1) received.sequence)
        | some existing ↦ do
          assert_same_committed_position interpreter.are_committed_operations_equal existing
              received
          learned ←
              resolve_outbox_from_committed interpreter.are_committed_operations_equal
                progress.learned received
          ok (record progress { learned = learned })
      ]

  -- an entry behind the confirmed prefix
  unfoldable pub merge_next :
      Progress State Intent Operation Rejection
      → CommittedOperation Operation
      → Result (Progress State Intent Operation Rejection)
  unfolding resolve_outbox_from_committed
  merge_next progress received = do
    let expected_sequence = progress.confirmed_sequence + 1
    throw_if (not (received.sequence == expected_sequence))
        (log_gap expected_sequence received.sequence)
    next_state ← interpreter.apply_committed progress.confirmed_state received.operation
    learned ←
        resolve_outbox_from_committed interpreter.are_committed_operations_equal progress.learned
          received
    ok (record {
      confirmed_sequence = received.sequence;
      confirmed_state = next_state;
      confirmed_log = progress.confirmed_log ++ received ∷ [];
      learned = learned;
    })

  -- a round of the loop over `response.entries`
  unfoldable pub merge_entry :
      Progress State Intent Operation Rejection
      → CommittedOperation Operation
      → Result (Progress State Intent Operation Rejection)
  unfolding merge_retained merge_next
  merge_entry progress received =
      if leb received.sequence retained_base_sequence
      then ok progress
      else if leb received.sequence progress.confirmed_sequence
      then merge_retained progress received
      else merge_next progress received

  unfoldable pub merge_entries :
      Progress State Intent Operation Rejection
      → List (CommittedOperation Operation)
      → Result (Progress State Intent Operation Rejection)
  merge_entries progress [] = ok progress
  merge_entries progress (received ∷ rest) = do
    progress' ← merge_entry progress received
    merge_entries progress' rest

module _ {State Intent Operation : Type 0} (interpreter : ReplicaInterpreter State Intent Operation)
    (retained_base_sequence : ℕ) where
  -- whether an accepted receipt stays in the outbox; one whose entry is confirmed is checked
  unfoldable pub keeps_accepted :
      ℕ
      → List (CommittedOperation Operation)
      → OutboxEntry Intent Operation
      → ℕ
      → Operation
      → Result Bool
  unfolding assert_proposal_matches_committed
  keeps_accepted confirmed_sequence confirmed_log entry sequence operation =
      if ltb confirmed_sequence sequence then ok Bool.true else do
        throw_if (leb sequence retained_base_sequence)
            (sync_engine "accepted outbox entry refers to compacted canonical sequence")
        committed ← elim (get_elem? confirmed_log (sequence - retained_base_sequence - 1)) [
          | none ↦ err (log_gap sequence (confirmed_sequence + 1))
          | some committed ↦ ok committed
        ]
        assert_proposal_matches_committed entry.proposal committed
        throw_if (not (interpreter.are_committed_operations_equal operation committed.operation))
            (decision_conflict committed.operation_id)
        ok Bool.false

  abbrev pub keeps_entry :
      ℕ → List (CommittedOperation Operation) → OutboxEntry Intent Operation → Result Bool
  keeps_entry confirmed_sequence confirmed_log entry = elim entry.status [
    | pending ↦ ok Bool.true
    | accepted sequence operation ↦
        keeps_accepted confirmed_sequence confirmed_log entry sequence operation
  ]

  -- `outbox.filter((entry) => …)`
  unfoldable pub reconcile :
      ℕ
      → List (CommittedOperation Operation)
      → List (OutboxEntry Intent Operation)
      → Result (List (OutboxEntry Intent Operation))
  unfolding keeps_accepted
  reconcile confirmed_sequence confirmed_log [] = ok []
  reconcile confirmed_sequence confirmed_log (entry ∷ rest) = do
    keep ← keeps_entry confirmed_sequence confirmed_log entry
    kept ← reconcile confirmed_sequence confirmed_log rest
    ok (if keep then entry ∷ kept else kept)

module _ {State Intent Operation Rejection : Type 0} where
  unfoldable pub merge_sync_response :
      ReplicaState State Intent Operation
      → SyncResponse Operation Rejection
      → ReplicaInterpreter State Intent Operation
      → Result (MergeSyncResult State Intent Operation Rejection)
  unfolding merge_entries merge_decisions reconcile
  merge_sync_response state response interpreter = do
    assert_sync_response response none
    retained_base_sequence ← assert_retained_confirmed_log state
    throw_if (ltb state.confirmed_sequence response.requested_base_sequence)
        (log_gap (state.confirmed_sequence + 1) (response.requested_base_sequence + 1))
    learned ←
        merge_decisions interpreter.are_committed_operations_equal
          (record { outbox = state.outbox; newly_resolved = [] }) response.decisions
    merged ←
        merge_entries interpreter retained_base_sequence
          (record {
            confirmed_sequence = state.confirmed_sequence;
            confirmed_state = state.confirmed_state;
            confirmed_log = state.confirmed_log;
            learned = learned;
          })
          response.entries
    outbox ←
        reconcile interpreter retained_base_sequence merged.confirmed_sequence merged.confirmed_log
          merged.learned.outbox
    ok (record {
      state = record state {
        confirmed_sequence = merged.confirmed_sequence;
        confirmed_state = merged.confirmed_state;
        confirmed_log = merged.confirmed_log;
        outbox = outbox;
      };
      newly_resolved = merged.learned.newly_resolved;
      caught_up_to_observed_head = leb response.head_sequence merged.confirmed_sequence;
    })

-- ===== src/Replica/State.antt =====
-- src/replica.ts: the replica's state, its creation, new local operations, and log compaction.
use sync_engine_v.Base.{
  ℕ, ◌+◌, ◌-◌, String, Bool, true, false, not, ◌||◌, List, [], ◌∷◌, ◌++◌, Option, ltb, leb, ◌==◌,
  str_eq, length, drop, if◌then◌else◌,
}
use sync_engine_v.Errors.{
  Result, ok, sync_engine, log_gap, duplicate_operation_id, throw_if, ◌>>=◌, ◌>>◌,
}
use sync_engine_v.Limits.{or_default}
use sync_engine_v.Protocol.{ProposedOperation, CommittedOperation}
use sync_engine_v.Invariants.Identity.{
  assert_non_empty_string, assert_log_sequence, assert_client_sequence,
}

pub data OutboxStatus (Operation : Type 0) : Type 0 where
  pending : OutboxStatus Operation
  accepted : ℕ → Operation → OutboxStatus Operation

-- A pending entry, or an accepted one with its canonical sequence and operation.
pub record OutboxEntry (Intent Operation : Type 0) : Type 0 where
  pub proposal : ProposedOperation Intent
  pub status : OutboxStatus Operation

pub record ReplicaState (State Intent Operation : Type 0) : Type 0 where
  pub client_id : String
  pub next_client_sequence : ℕ
  pub confirmed_sequence : ℕ
  pub confirmed_state : State
  pub confirmed_log : List (CommittedOperation Operation)
  pub outbox : List (OutboxEntry Intent Operation)

-- The application: it applies operations and intents, and may throw, and compares operations.
pub record ReplicaInterpreter (State Intent Operation : Type 0) : Type 0 where
  pub apply_committed : State → Operation → Result State
  pub apply_optimistic : State → Intent → Result State
  pub are_committed_operations_equal : Operation → Operation → Bool

pub record CreateReplicaOptions (State : Type 0) : Type 0 where
  pub client_id : String
  pub initial_state : State
  pub next_client_sequence : Option ℕ

pub record EnqueueOperationInput (Intent : Type 0) : Type 0 where
  pub operation_id : String
  pub intent_hash : String
  pub intent : Intent

module _ {State Intent Operation : Type 0} where
  unfoldable pub create_replica_state :
      CreateReplicaOptions State → Result (ReplicaState State Intent Operation)
  unfolding assert_non_empty_string assert_client_sequence
  create_replica_state options = do
    assert_non_empty_string "clientId" options.client_id
    let next_client_sequence = or_default options.next_client_sequence 1
    assert_client_sequence "nextClientSequence" next_client_sequence
    ok (record {
      client_id = options.client_id;
      next_client_sequence = next_client_sequence;
      confirmed_sequence = 0;
      confirmed_state = options.initial_state;
      confirmed_log = [];
      outbox = [];
    })

module _ {Operation : Type 0} where
  -- the loop of `assertRetainedConfirmedLog`, from the sequence number before the next entry
  unfoldable pub check_retained : ℕ → List (CommittedOperation Operation) → Result (Unit {0})
  check_retained previous [] = ok tt
  check_retained previous (entry ∷ rest) = do
    let expected = previous + 1
    throw_if (not (entry.sequence == expected)) (log_gap expected entry.sequence)
    check_retained expected rest

  -- `log.some((entry) => entry.operationId === operationId)`
  unfoldable pub log_has : String → List (CommittedOperation Operation) → Bool
  log_has operation_id [] = false
  log_has operation_id (entry ∷ rest) =
      str_eq entry.operation_id operation_id || log_has operation_id rest

module _ {Intent Operation : Type 0} where
  -- `outbox.some((entry) => entry.proposal.operationId === operationId)`
  unfoldable pub outbox_has : String → List (OutboxEntry Intent Operation) → Bool
  outbox_has operation_id [] = false
  outbox_has operation_id (entry ∷ rest) =
      str_eq entry.proposal.operation_id operation_id || outbox_has operation_id rest

module _ {State Intent Operation : Type 0} where
  -- It returns the sequence number behind which the retained log starts.
  unfoldable pub assert_retained_confirmed_log : ReplicaState State Intent Operation → Result ℕ
  unfolding assert_log_sequence check_retained
  assert_retained_confirmed_log state = do
    assert_log_sequence "confirmedSequence" state.confirmed_sequence true
    throw_if (ltb state.confirmed_sequence (length state.confirmed_log))
        (sync_engine "confirmedLog cannot contain more entries than confirmedSequence")
    let retained_base_sequence = state.confirmed_sequence - length state.confirmed_log
    check_retained retained_base_sequence state.confirmed_log
    ok retained_base_sequence

  unfoldable pub enqueue_operation :
      ReplicaState State Intent Operation
      → EnqueueOperationInput Intent
      → Result (ReplicaState State Intent Operation)
  unfolding assert_non_empty_string assert_client_sequence
  enqueue_operation state input = do
    assert_non_empty_string "clientId" state.client_id
    assert_client_sequence "nextClientSequence" state.next_client_sequence
    assert_client_sequence "nextClientSequence" (state.next_client_sequence + 1)
    assert_non_empty_string "operationId" input.operation_id
    assert_non_empty_string "intentHash" input.intent_hash
    _ ← assert_retained_confirmed_log state
    throw_if
        (log_has input.operation_id state.confirmed_log
          || outbox_has input.operation_id state.outbox)
        (duplicate_operation_id input.operation_id)
    let proposal : ProposedOperation Intent = record {
      submission = record {
        identity = record {
          operation_id = input.operation_id;
          client_id = state.client_id;
          client_sequence = state.next_client_sequence;
        };
        intent_hash = input.intent_hash;
      };
      intent = input.intent;
    }
    ok (record state {
      next_client_sequence = state.next_client_sequence + 1;
      outbox = state.outbox ++ record { proposal = proposal; status = pending } ∷ [];
    })

  unfoldable pub delete_committed_log_prefix :
      ReplicaState State Intent Operation → ℕ → Result (ReplicaState State Intent Operation)
  unfolding assert_log_sequence
  delete_committed_log_prefix state through_sequence = do
    assert_log_sequence "throughSequence" through_sequence true
    retained_base_sequence ← assert_retained_confirmed_log state
    throw_if (ltb state.confirmed_sequence through_sequence)
        (log_gap (state.confirmed_sequence + 1) through_sequence)
    ok (
        if leb through_sequence retained_base_sequence then state else record state {
          confirmed_log = drop (through_sequence - retained_base_sequence) state.confirmed_log;
        })

  unfoldable pub confirmed_sequence_of : ReplicaState State Intent Operation → Result ℕ
  unfolding assert_retained_confirmed_log
  confirmed_sequence_of state = do
    _ ← assert_retained_confirmed_log state
    ok state.confirmed_sequence

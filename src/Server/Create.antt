-- ===== src/Server/Create.antt =====
-- src/server.ts: the constructor of `InMemoryLogServer`, which starts from a state or from a snapshot.
use sync_engine_v.Base.{
  ◌-◌, String, false, not, ◌||◌, List, [], ◌∷◌, Option, none, some, str_eq, ◌==◌, get_elem?,
  if◌then◌else◌,
}
use sync_engine_v.Base.Dict.{Dict, lookup, put, values}
use sync_engine_v.Errors.{
  Result, ok, err, sync_engine, client_sequence_conflict, throw_if, ◌>>=◌, ◌>>◌,
}
use sync_engine_v.Limits.{ProtocolLimits, ProtocolLimitOverrides, resolve_protocol_limits}
use sync_engine_v.Protocol.{
  OperationSubmissionIdentity, CommittedOperation, ProposalOutcome, accepted, rejected,
}
use sync_engine_v.Invariants.Identity.{
  assert_non_empty_string, assert_log_sequence, assert_submission_identity,
}
use sync_engine_v.Invariants.Log.{assert_contiguous_log}
use sync_engine_v.Server.State.{
  LogInterpreter, StoredProposalDecision, LogServerSnapshot, LogServer, client_position_key,
}

pub record InMemoryLogServerOptions (State Intent Operation Rejection : Type 0) : Type 0 where
  pub initial_state : State
  pub interpreter : LogInterpreter State Intent Operation Rejection
  pub limits : ProtocolLimitOverrides
  pub snapshot : Option (LogServerSnapshot State Operation Rejection)

module _ {Operation : Type 0} where
  unfoldable pub assert_identity_matches_entry :
      OperationSubmissionIdentity → CommittedOperation Operation → Result (Unit {0})
  assert_identity_matches_entry identity entry =
      throw_if
        (not (str_eq identity.operation_id entry.operation_id)
          || not (str_eq identity.client_id entry.origin.client_id)
          || not (identity.client_sequence == entry.origin.client_sequence)
          || not (str_eq identity.intent_hash entry.origin.intent_hash))
        (sync_engine "snapshot identity does not match its canonical entry")

-- `if (existing !== undefined && existing !== operationId) throw …`
abbrev pub assert_position_restorable :
    Option String → OperationSubmissionIdentity → Result (Unit {0})
assert_position_restorable none identity = ok tt
assert_position_restorable (some existing) identity =
    throw_if (not (str_eq existing identity.operation_id)) (
      client_sequence_conflict identity.client_id identity.client_sequence existing
        identity.operation_id)

module _ {Operation Rejection : Type 0} where
  -- the sequence number of an accepted decision is checked
  abbrev pub assert_outcome_sequence : ProposalOutcome Operation Rejection → Result (Unit {0})
  assert_outcome_sequence (accepted sequence operation) =
      assert_log_sequence "stored accepted decision sequence" sequence false
  assert_outcome_sequence (rejected reason) = ok tt

  abbrev pub assert_undecided :
      Option (StoredProposalDecision Operation Rejection) → Result (Unit {0})
  assert_undecided none = ok tt
  assert_undecided (some stored) = err (sync_engine "snapshot contains duplicate decision")

module _ {State Intent Operation Rejection : Type 0} where
  unfoldable pub restore_decision :
      LogServer State Intent Operation Rejection
      → StoredProposalDecision Operation Rejection
      → Result (LogServer State Intent Operation Rejection)
  unfolding assert_submission_identity assert_non_empty_string assert_log_sequence
  restore_decision server stored = do
    assert_submission_identity "stored decision identity" stored.identity
    assert_non_empty_string "stored decision operationId" stored.decision.operation_id
    throw_if (not (str_eq stored.decision.operation_id stored.identity.operation_id))
        (sync_engine "stored decision operationId does not match identity")
    assert_outcome_sequence stored.decision.outcome
    let operation_id = stored.identity.operation_id
    assert_undecided (lookup operation_id server.decisions_by_operation_id)
    let position_key = client_position_key stored.identity.identity
    assert_position_restorable (lookup position_key server.operation_id_by_client_position)
        stored.identity
    ok (record server {
      decisions_by_operation_id = put operation_id stored server.decisions_by_operation_id;
      operation_id_by_client_position =
          put position_key operation_id server.operation_id_by_client_position;
    })

  -- the loop over `options.snapshot.decisions`
  unfoldable pub restore_decisions :
      LogServer State Intent Operation Rejection
      → List (StoredProposalDecision Operation Rejection)
      → Result (LogServer State Intent Operation Rejection)
  restore_decisions server [] = ok server
  restore_decisions server (stored ∷ rest) = do
    server' ← restore_decision server stored
    restore_decisions server' rest

abbrev pub missing_decision : Result (Unit {0})
missing_decision = err (sync_engine "snapshot log entry has no matching accepted decision")

abbrev pub missing_entry : Result (Unit {0})
missing_entry = err (sync_engine "accepted decision has no matching canonical entry")

module _ {Operation Rejection : Type 0} where
  -- the decision that an entry of the log must have
  abbrev pub check_decision_of :
      CommittedOperation Operation
      → Option (StoredProposalDecision Operation Rejection)
      → Result (Unit {0})
  check_decision_of entry none = missing_decision
  check_decision_of entry (some stored) = elim stored.decision.outcome [
    | rejected reason ↦ missing_decision
    | accepted sequence operation ↦
        (if sequence == entry.sequence then ok tt else missing_decision)
        >> assert_identity_matches_entry stored.identity entry
  ]

module _ {Operation : Type 0} where
  -- the entry of the log that an accepted decision must have
  abbrev pub check_entry_at :
      OperationSubmissionIdentity → Option (CommittedOperation Operation) → Result (Unit {0})
  check_entry_at identity none = missing_entry
  check_entry_at identity (some entry) =
      (if str_eq entry.operation_id identity.operation_id then ok tt else missing_entry)
      >> assert_identity_matches_entry identity entry

module _ {Operation Rejection : Type 0} where
  -- `for (const entry of this.#log)`
  unfoldable pub check_log_entries :
      Dict (StoredProposalDecision Operation Rejection)
      → List (CommittedOperation Operation)
      → Result (Unit {0})
  unfolding assert_identity_matches_entry
  check_log_entries decisions [] = ok tt
  check_log_entries decisions (entry ∷ rest) = do
    check_decision_of entry (lookup entry.operation_id decisions)
    check_log_entries decisions rest

  abbrev pub check_stored_entry :
      List (CommittedOperation Operation)
      → StoredProposalDecision Operation Rejection
      → Result (Unit {0})
  check_stored_entry log stored = elim stored.decision.outcome [
    | rejected reason ↦ ok tt
    | accepted sequence operation ↦ check_entry_at stored.identity (get_elem? log (sequence - 1))
  ]

  -- `for (const record of this.#decisionsByOperationId.values())`
  unfoldable pub check_stored_decisions :
      List (CommittedOperation Operation)
      → List (StoredProposalDecision Operation Rejection)
      → Result (Unit {0})
  unfolding assert_identity_matches_entry
  check_stored_decisions log [] = ok tt
  check_stored_decisions log (stored ∷ rest) = do
    check_stored_entry log stored
    check_stored_decisions log rest

module _ {State Intent Operation Rejection : Type 0} where
  unfoldable pub validate_restored_snapshot :
      LogServer State Intent Operation Rejection → Result (Unit {0})
  unfolding check_log_entries check_stored_decisions
  validate_restored_snapshot server = do
    check_log_entries server.decisions_by_operation_id server.log
    check_stored_decisions server.log (values server.decisions_by_operation_id)

  -- the fields before any decision is restored
  abbrev pub server_with :
      LogInterpreter State Intent Operation Rejection
      → ProtocolLimits
      → State
      → List (CommittedOperation Operation)
      → LogServer State Intent Operation Rejection
  server_with interpreter limits state log = record {
    interpreter = interpreter;
    limits = limits;
    state = state;
    log = log;
    decisions_by_operation_id = [];
    operation_id_by_client_position = [];
  }

  abbrev pub restore_snapshot :
      LogInterpreter State Intent Operation Rejection
      → ProtocolLimits
      → LogServerSnapshot State Operation Rejection
      → Result (LogServer State Intent Operation Rejection)
  restore_snapshot interpreter limits snapshot = do
    assert_contiguous_log snapshot.log
    server ←
        restore_decisions (server_with interpreter limits snapshot.materialized_state snapshot.log)
          snapshot.decisions
    validate_restored_snapshot server
    ok server

  -- `constructor`
  unfoldable pub create_log_server :
      InMemoryLogServerOptions State Intent Operation Rejection
      → Result (LogServer State Intent Operation Rejection)
  unfolding resolve_protocol_limits assert_contiguous_log restore_decisions
      validate_restored_snapshot
  create_log_server options = resolve_protocol_limits options.limits >>= λ limits.
      elim options.snapshot [
        | none ↦ ok (server_with options.interpreter limits options.initial_state [])
        | some snapshot ↦ restore_snapshot options.interpreter limits snapshot
      ]

-- ===== src/Row/Interpreters.antt =====
-- src/client/row/interpreters.ts and src/client/row/codec.ts: rows as an application of the log server
-- and of the replica, and their codec.
use sync_engine_v.Base.{String, Bool, Option, none, some, str_eq}
use sync_engine_v.Errors.{SyncError, Result, ok, err, row_operation, ◌>>=◌, ◌>>◌}
use sync_engine_v.Protocol.{ProposedOperation, DecisionDraft, accept, reject}
use sync_engine_v.Replica.{ReplicaInterpreter}
use sync_engine_v.Server.{LogInterpreter}
use sync_engine_v.Wire.{JsonCodec}
use sync_engine_v.Fingerprint.{canonicalize_json}
use sync_engine_v.Row.Types.{
  ReplicaSchemaContract, RowOperation, RowRejection, ReplicaDatabaseState, operation_json,
}
use sync_engine_v.Row.Schema.{assert_row_replication_schema}
use sync_engine_v.Row.Normalization.{normalize_row_operation}
use sync_engine_v.Row.State.{apply_row_operation}

-- `error.message`
abbrev pub message_of : SyncError → String
message_of (row_operation message) = message
message_of other = "invalid row operation"

unfoldable pub to_row_rejection : SyncError → RowRejection
to_row_rejection error = record { code = "invalid-row-operation"; message = message_of error }

-- `options.rejectInvalidOperation`
abbrev pub RejectInvalidOperation : Type 0
RejectInvalidOperation = Option (SyncError → ProposedOperation RowOperation → RowRejection)

abbrev pub rejection_of :
    RejectInvalidOperation → SyncError → ProposedOperation RowOperation → RowRejection
rejection_of none error proposal = to_row_rejection error
rejection_of (some f) error proposal = f error proposal

module _ (precedes : String → String → Bool) (schema : ReplicaSchemaContract) where
  unfoldable pub decide_row :
      RejectInvalidOperation
      → ProposedOperation RowOperation
      → DecisionDraft RowOperation RowRejection
  unfolding normalize_row_operation to_row_rejection
  decide_row reject_invalid_operation proposal =
      elim (normalize_row_operation precedes schema (operation_json proposal.intent)) [
        | ok operation ↦ accept operation
        | err error ↦ reject (rejection_of reject_invalid_operation error proposal)
      ]

  unfoldable pub create_row_log_interpreter :
      RejectInvalidOperation
      → Result (LogInterpreter ReplicaDatabaseState RowOperation RowOperation RowRejection)
  unfolding assert_row_replication_schema decide_row apply_row_operation
  create_row_log_interpreter reject_invalid_operation = do
    assert_row_replication_schema schema
    ok (record {
      decide = λ state proposal. ok (decide_row reject_invalid_operation proposal);
      apply = apply_row_operation precedes schema;
    })

  unfoldable pub create_row_replica_interpreter :
      Result (ReplicaInterpreter ReplicaDatabaseState RowOperation RowOperation)
  unfolding assert_row_replication_schema apply_row_operation canonicalize_json
  create_row_replica_interpreter = do
    assert_row_replication_schema schema
    ok (record {
      apply_committed = apply_row_operation precedes schema;
      apply_optimistic = apply_row_operation precedes schema;
      are_committed_operations_equal = λ left right.
          str_eq (canonicalize_json precedes (operation_json left))
            (canonicalize_json precedes (operation_json right));
    })

  unfoldable pub create_row_operation_codec : JsonCodec RowOperation
  unfolding normalize_row_operation
  create_row_operation_codec = record {
    encode = λ value.
        normalize_row_operation precedes schema (operation_json value) >>= λ operation.
        ok (operation_json operation);
    decode = normalize_row_operation precedes schema;
  }

-- ===== src/IndexedDb/Store.antt =====
-- src/indexeddb/store.ts and src/indexeddb/open.ts: the calls of a store on one stream. A database is
-- the object store, by stream id. A call is one transaction: `withTransaction` aborts it if the code
-- throws, which leaves the database as it was.
use sync_engine_v.Base.{
  ℕ, ◌-◌, String, List, [], ◌∷◌, Option, none, some, contains, length, if◌then◌else◌,
}
use sync_engine_v.Base.Dict.{Dict, lookup, put, or_else}
use sync_engine_v.Errors.{Result, ok, err, sync_engine, ◌>>=◌, ◌>>◌}
use sync_engine_v.Protocol.{ProposedOperation, ProposalDecision, SyncRequest, SyncResponse}
use sync_engine_v.Replica.{
  ReplicaInterpreter, EnqueueOperationInput, PrepareSyncRequestOptions, MergeSyncResult,
  enqueue_operation as reduce_enqueue_operation,
  prepare_sync_request as reduce_prepare_sync_request, materialize_optimistic_state,
  merge_sync_response as reduce_merge_sync_response,
  delete_committed_log_prefix as reduce_delete_committed_log_prefix,
}
use sync_engine_v.IndexedDb.Record.{
  IndexedDbReplicaRecord, IndexedDbReplicaStatus, status_from_record, append_unique_resolutions,
}
use sync_engine_v.IndexedDb.Check.{assert_replica_record, invalid_record}
use sync_engine_v.IndexedDb.Value.{Payloads, record_value}

pub record IndexedDbReplicaViewSnapshot (State : Type 0) : Type 0 where
  pub client_id : String
  pub optimistic_state : State
  pub status : IndexedDbReplicaStatus

pub record IndexedDbMergeResult (State Intent Operation Rejection : Type 0) : Type 0 where
  pub merged : MergeSyncResult State Intent Operation Rejection
  pub status : IndexedDbReplicaStatus

-- `array.at(-1)`
abbrev pub last {ℓ} : {A : Type ℓ} → List A → Option A
last [] = none
last (x ∷ xs) = or_else (last xs) (some x)

module _ {Operation Rejection : Type 0} where
  -- `resolutions.filter((decision) => !acknowledged.has(decision.operationId))`
  unfoldable pub without :
      List String
      → List (ProposalDecision Operation Rejection)
      → List (ProposalDecision Operation Rejection)
  without acknowledged [] = []
  without acknowledged (decision ∷ rest) =
      let kept = without acknowledged rest in
      if contains decision.operation_id acknowledged then kept else decision ∷ kept

-- What a store is made of: its stream, its application, and how the application's values look.
pub record IndexedDbReplicaStore (State Intent Operation Rejection : Type 0) : Type 0 where
  pub stream_id : String
  pub interpreter : ReplicaInterpreter State Intent Operation
  pub payloads : Payloads State Intent Operation Rejection

abbrev pub Database : Type 0 → Type 0 → Type 0 → Type 0 → Type 0
Database State Intent Operation Rejection =
    Dict (IndexedDbReplicaRecord State Intent Operation Rejection)

module _ {State Intent Operation Rejection : Type 0}
    (store : IndexedDbReplicaStore State Intent Operation Rejection) where
  -- `assertReplicaRecord(await store.get(streamId), streamId)`
  unfoldable pub read_stored :
      Database State Intent Operation Rejection
      → Result (IndexedDbReplicaRecord State Intent Operation Rejection)
  unfolding lookup record_value assert_replica_record invalid_record
  read_stored database = elim (lookup store.stream_id database) [
    | none ↦ invalid_record store.stream_id "record is missing"
    | some stored ↦
        assert_replica_record store.stream_id (some (record_value store.payloads stored))
        >> ok stored
  ]

  -- the end of a transaction: what is put is there, and an error leaves everything
  abbrev pub settle {ℓ} :
      {A : Type ℓ}
      → Database State Intent Operation Rejection
      → Result (IndexedDbReplicaRecord State Intent Operation Rejection × A)
      → Result A × Database State Intent Operation Rejection
  settle database (err error) = (err error, database)
  settle database (ok (stored, result)) = (ok result, put stored.stream_id stored database)

  -- what `#updateRecord` may throw in, before it puts the next record
  unfoldable pub attempt {ℓ} :
      {A : Type ℓ}
      → (IndexedDbReplicaRecord State Intent Operation Rejection
          → Result (IndexedDbReplicaRecord State Intent Operation Rejection × A))
      → Database State Intent Operation Rejection
      → Result (IndexedDbReplicaRecord State Intent Operation Rejection × A)
  unfolding read_stored
  attempt update database = do
    current ← read_stored database
    next ← update current
    assert_replica_record store.stream_id (some (record_value store.payloads next.0))
    ok next

  unfoldable pub update_record {ℓ} :
      {A : Type ℓ}
      → (IndexedDbReplicaRecord State Intent Operation Rejection
          → Result (IndexedDbReplicaRecord State Intent Operation Rejection × A))
      → Database State Intent Operation Rejection
      → Result A × Database State Intent Operation Rejection
  unfolding attempt put
  update_record update database = settle database (attempt update database)

  unfoldable pub read_view_snapshot :
      Database State Intent Operation Rejection → Result (IndexedDbReplicaViewSnapshot State)
  unfolding read_stored materialize_optimistic_state status_from_record
  read_view_snapshot database = do
    stored ← read_stored database
    optimistic_state ← materialize_optimistic_state stored.replica store.interpreter
    ok (record {
      client_id = stored.replica.client_id;
      optimistic_state = optimistic_state;
      status = status_from_record stored;
    })

  unfoldable pub read_resolutions :
      Database State Intent Operation Rejection
      → Result (List (ProposalDecision Operation Rejection))
  unfolding read_stored
  read_resolutions database = do stored ← read_stored database; ok stored.resolutions

  unfoldable pub prepare_sync_request :
      Database State Intent Operation Rejection
      → PrepareSyncRequestOptions
      → Result (SyncRequest Intent)
  unfolding read_stored reduce_prepare_sync_request
  prepare_sync_request database options = do
    stored ← read_stored database
    reduce_prepare_sync_request stored.replica options

  abbrev pub enqueued :
      EnqueueOperationInput Intent
      → IndexedDbReplicaRecord State Intent Operation Rejection
      → Result (IndexedDbReplicaRecord State Intent Operation Rejection × ProposedOperation Intent)
  enqueued input stored = do
    replica ← reduce_enqueue_operation stored.replica input
    elim (last replica.outbox) [
      | none ↦ err (sync_engine "enqueue produced no outbox entry")
      | some entry ↦ ok (record stored { replica = replica }, entry.proposal)
    ]

  unfoldable pub enqueue_operation :
      Database State Intent Operation Rejection
      → EnqueueOperationInput Intent
      → Result (ProposedOperation Intent) × Database State Intent Operation Rejection
  unfolding update_record reduce_enqueue_operation
  enqueue_operation database input = update_record (enqueued input) database

  abbrev pub merged_with :
      SyncResponse Operation Rejection
      → IndexedDbReplicaRecord State Intent Operation Rejection
      → Result (
          IndexedDbReplicaRecord State Intent Operation Rejection
          × IndexedDbMergeResult State Intent Operation Rejection)
  merged_with response stored = do
    merged ← reduce_merge_sync_response stored.replica response store.interpreter
    let next_record : IndexedDbReplicaRecord State Intent Operation Rejection = record stored {
      replica = merged.state;
      resolutions = append_unique_resolutions stored.resolutions merged.newly_resolved;
    }
    ok (next_record, record { merged = merged; status = status_from_record next_record })

  unfoldable pub merge_sync_response :
      Database State Intent Operation Rejection
      → SyncResponse Operation Rejection
      → Result (IndexedDbMergeResult State Intent Operation Rejection)
        × Database State Intent Operation Rejection
  unfolding update_record reduce_merge_sync_response append_unique_resolutions status_from_record
  merge_sync_response database response = update_record (merged_with response) database

  abbrev pub shortened :
      ℕ
      → IndexedDbReplicaRecord State Intent Operation Rejection
      → Result (IndexedDbReplicaRecord State Intent Operation Rejection × ℕ)
  shortened through_sequence stored = do
    let previous_length = length stored.replica.confirmed_log
    replica ← reduce_delete_committed_log_prefix stored.replica through_sequence
    ok (record stored { replica = replica }, previous_length - length replica.confirmed_log)

  unfoldable pub delete_committed_log_prefix :
      Database State Intent Operation Rejection
      → ℕ
      → Result ℕ × Database State Intent Operation Rejection
  unfolding update_record reduce_delete_committed_log_prefix
  delete_committed_log_prefix database through_sequence =
      update_record (shortened through_sequence) database

  abbrev pub acknowledging :
      List String
      → IndexedDbReplicaRecord State Intent Operation Rejection
      → Result (IndexedDbReplicaRecord State Intent Operation Rejection × ℕ)
  acknowledging acknowledged stored = do
    let resolutions = without acknowledged stored.resolutions
    ok (record stored { resolutions = resolutions }, length stored.resolutions - length resolutions)

  unfoldable pub acknowledge_resolutions :
      Database State Intent Operation Rejection
      → List String
      → Result ℕ × Database State Intent Operation Rejection
  unfolding update_record without
  acknowledge_resolutions database [] = (ok 0, database)
  acknowledge_resolutions database (operation_id ∷ operation_ids) =
      update_record (acknowledging (operation_id ∷ operation_ids)) database

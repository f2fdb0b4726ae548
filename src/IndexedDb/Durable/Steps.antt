-- ===== src/IndexedDb/Durable/Steps.antt =====
-- Any sequence of calls of the stores of a database, of src/indexeddb.
use sync_engine_v.Base.{ℕ, String, ◌≡◌, List, [], ◌∷◌}
use sync_engine_v.Errors.{ok}
use sync_engine_v.Protocol.{SyncResponse}
use sync_engine_v.Replica.{EnqueueOperationInput}
use sync_engine_v.IndexedDb.Store.{
  Database, IndexedDbReplicaStore, enqueued, merged_with, shortened, acknowledging,
  enqueue_operation, merge_sync_response, delete_committed_log_prefix, acknowledge_resolutions,
}
use sync_engine_v.IndexedDb.Open.{OpenIndexedDbReplicaStoreOptions, open_indexed_db_replica_store}
use sync_engine_v.IndexedDb.Durable.{
  IsSoundDatabase, Preserves, Preserves-refl, Preserves-trans, update_record-keeps,
}
use sync_engine_v.IndexedDb.Durable.Updates.{
  enqueued-Advances, merged_with-Advances, shortened-Advances, acknowledging-Advances,
}
use sync_engine_v.IndexedDb.Durable.Open.{open-keeps}

module _ {State Intent Operation Rejection : Type 0} where
  -- A call of some store of the database, with any arguments, and the database that it leaves.
  pub data StoreStep (database : Database State Intent Operation Rejection)
      : Database State Intent Operation Rejection → Type 0 where
    enqueues :
        (store : IndexedDbReplicaStore State Intent Operation Rejection)
        (input : EnqueueOperationInput Intent)
        → StoreStep database (enqueue_operation store database input).1
    merges :
        (store : IndexedDbReplicaStore State Intent Operation Rejection)
        (response : SyncResponse Operation Rejection)
        → StoreStep database (merge_sync_response store database response).1
    deletes :
        (store : IndexedDbReplicaStore State Intent Operation Rejection) (through : ℕ)
        → StoreStep database (delete_committed_log_prefix store database through).1
    acknowledges :
        (store : IndexedDbReplicaStore State Intent Operation Rejection) (ids : List String)
        → StoreStep database (acknowledge_resolutions store database ids).1
    opens :
        (options : OpenIndexedDbReplicaStoreOptions State Intent Operation Rejection)
        (created : String) {next : Database State Intent Operation Rejection}
        → open_indexed_db_replica_store options created database ≡ ok next
        → StoreStep database next

  pub data StoreSteps (database : Database State Intent Operation Rejection)
      : Database State Intent Operation Rejection → Type 0 where
    start : StoreSteps database database
    called :
        {middle next : Database State Intent Operation Rejection}
        → StoreSteps database middle
        → StoreStep middle next
        → StoreSteps database next

module _ {State Intent Operation Rejection : Type 0} where
  StoreStep-keeps :
      {database next : Database State Intent Operation Rejection}
      → StoreStep database next
      → IsSoundDatabase database
      → IsSoundDatabase next × Preserves database next
  unfolding enqueue_operation merge_sync_response delete_committed_log_prefix
      acknowledge_resolutions
  StoreStep-keeps {database} (enqueues store input) all =
      update_record-keeps store (enqueued store input) (enqueued-Advances store input) database all
  StoreStep-keeps {database} (merges store response) all =
      update_record-keeps store (merged_with store response) (merged_with-Advances store response)
        database all
  StoreStep-keeps {database} (deletes store through) all =
      update_record-keeps store (shortened store through) (shortened-Advances store through)
        database all
  StoreStep-keeps {database} (acknowledges store []) all = (all, Preserves-refl database)
  StoreStep-keeps {database} (acknowledges store (id ∷ ids)) all =
      update_record-keeps store (acknowledging store (id ∷ ids))
        (acknowledging-Advances store (id ∷ ids)) database all
  StoreStep-keeps {database} (opens options created opened) all =
      open-keeps options created database opened all

  -- Whatever stores of a database are opened and called, in whatever order and with whatever responses:
  -- if every record was sound, every record is sound afterwards, and every record that was there still
  -- is, of the same client, with neither its next number nor its confirmed prefix gone back.
  pub StoreSteps-IsSoundDatabase :
      {database next : Database State Intent Operation Rejection}
      → StoreSteps database next
      → IsSoundDatabase database
      → IsSoundDatabase next × Preserves database next
  StoreSteps-IsSoundDatabase {database} start all = (all, Preserves-refl database)
  StoreSteps-IsSoundDatabase {database} {next} (called {middle = middle} steps step) all =
      let (sound, before) = StoreSteps-IsSoundDatabase steps all in
      let (sound', after) = StoreStep-keeps step sound in
      (sound', Preserves-trans database middle next before after)

-- ===== src/Client/Create.antt =====
-- src/client/client.ts: `createSyncClient` over the store of src/indexeddb, `createIndexedDbSyncClient`, and
-- src/client/id.ts. Calls of the client are awaited one after the other here, so that no other task of the
-- view waits when one refreshes. What is outside is the network and the making of ids.
pub mod Stored
pub mod Configured
pub mod Shown
pub mod Proposing
use sync_engine_v.Base.{
  ℕ, String, Bool, true, false, not, List, [], Option, none, some, str_eq, text_append,
}
use sync_engine_v.Errors.{SyncError, Result, ok, err, sync_client, throw_if, ◌>>=◌, ◌>>◌}
use sync_engine_v.Protocol.{SyncRequestEnvelope, SyncResponseEnvelope}
use sync_engine_v.IndexedDb.{IndexedDbReplicaStatus, Payloads}
use sync_engine_v.IndexedDb.Store as Idb
use sync_engine_v.IndexedDb.Store.{Database, IndexedDbReplicaStore, read_view_snapshot}
use sync_engine_v.IndexedDb.Open.{OpenIndexedDbReplicaStoreOptions, open_indexed_db_replica_store}
use sync_engine_v.Row.{
  ReplicaSchemaContract, RowOperation, ReplicaDatabaseState, create_initial_database_state,
  create_row_replica_interpreter,
}
use sync_engine_v.Client.Action.{Action}
use sync_engine_v.Client.{RunSyncSessionOptions}
use sync_engine_v.Client.View.{
  ReplicaView, create_replica_view, refresh, start_task, finish_task, set_phase, close_view,
}
use sync_engine_v.Client.Operations.{SyncClientPorts}

-- `createOperationId`: with a random UUID, or from the time and some entropy
unfoldable pub create_operation_id : String → Option String → String → String → String
create_operation_id prefix (some random) time entropy = text_append prefix (text_append "_" random)
create_operation_id prefix none time entropy =
    text_append prefix (text_append "_" (text_append time (text_append "_" entropy)))

abbrev pub RowStore : Type 0 → Type 0
RowStore Rejection = IndexedDbReplicaStore ReplicaDatabaseState RowOperation RowOperation Rejection

abbrev pub RowDatabase : Type 0 → Type 0
RowDatabase Rejection = Database ReplicaDatabaseState RowOperation RowOperation Rejection

-- `operation_id` is the option of that name, or `createOperationId`.
pub record CreateSyncClientOptions (Outside Rejection : Type 0) : Type 0 where
  pub schema : ReplicaSchemaContract
  pub stream_id : String
  pub store : RowStore Rejection
  pub transport :
      SyncRequestEnvelope RowOperation
      → Action Outside (SyncResponseEnvelope RowOperation Rejection)
  pub maximum_entries : Option ℕ
  pub maximum_proposals : Option ℕ
  pub maximum_sync_rounds : Option ℕ
  pub operation_id : Action Outside String

-- What a client acts on: the durable database, its view, and whether it is closed.
pub record ClientWorld (Outside Rejection : Type 0) : Type 0 where
  pub database : RowDatabase Rejection
  pub view : ReplicaView
  pub closed : Bool
  pub outside : Outside

module _ {Outside Rejection : Type 0} (locale_precedes : String → String → Bool)
    (options : CreateSyncClientOptions Outside Rejection) where
  abbrev World : Type 0
  World = ClientWorld Outside Rejection

  -- an awaited call that acts outside
  abbrev outside {ℓ} : {A : Type ℓ} → Result A × Outside → World → Result A × World
  outside (result, after) world = (result, record world { outside = after })

  -- an awaited call of the store
  abbrev stored {ℓ} : {A : Type ℓ} → Result A × RowDatabase Rejection → World → Result A × World
  stored (result, database) world = (result, record world { database = database })

  -- what the database and a view become by an awaited task of the view
  abbrev refreshed :
      Result IndexedDbReplicaStatus × ReplicaView × List ℕ
      → World
      → Result IndexedDbReplicaStatus × World
  refreshed (result, view, called) world = (result, record world { view = view })

  -- `await view.refresh()`
  unfoldable pub await_refresh : Action World IndexedDbReplicaStatus
  unfolding refresh start_task finish_task read_view_snapshot
  await_refresh world =
      let started =
        start_task locale_precedes options.schema none []
          (refresh locale_precedes options.schema none world.view) in
      refreshed
        (finish_task locale_precedes options.schema
          (read_view_snapshot options.store world.database) started)
        world

  -- what an awaited merge of the store is to the session
  abbrev without_result {ℓ} : {A : Type ℓ} → Result A × World → Result (Unit {0}) × World
  without_result (err e, world) = (err e, world)
  without_result (ok merged, world) = (ok tt, world)

  -- the options of `runSyncSession` in `performSync`
  unfoldable pub session_options : RunSyncSessionOptions World RowOperation RowOperation Rejection
  unfolding await_refresh Idb.prepare_sync_request Idb.merge_sync_response
  session_options = record {
    stream_id = options.stream_id;
    prepare_sync_request =
        λ limits world. (Idb.prepare_sync_request options.store world.database limits, world);
    merge_sync_response = λ response world.
        without_result
          (stored (Idb.merge_sync_response options.store world.database response) world);
    transport = λ envelope world. outside (options.transport envelope world.outside) world;
    refresh_after_merge = await_refresh;
    maximum_entries = options.maximum_entries;
    maximum_proposals = options.maximum_proposals;
    maximum_sync_rounds = options.maximum_sync_rounds;
  }

  -- A client whose calls are awaited one after the other: none is in flight when it is closed.
  unfoldable pub client_ports : SyncClientPorts World Rejection
  unfolding await_refresh session_options set_phase close_view Idb.enqueue_operation
      Idb.read_resolutions Idb.delete_committed_log_prefix Idb.acknowledge_resolutions
  client_ports = record {
    is_closed = λ world. world.closed;
    set_closed = λ world. record world { closed = true };
    set_phase = λ phase error world. record world {
      view = (set_phase locale_precedes options.schema phase error world.view).0;
    };
    refresh = await_refresh;
    close_view =
        λ world. record world { view = (close_view locale_precedes options.schema world.view).0 };
    operation_id = λ world. outside (options.operation_id world.outside) world;
    enqueue_operation =
        λ input world. stored (Idb.enqueue_operation options.store world.database input) world;
    read_resolutions = λ world. (Idb.read_resolutions options.store world.database, world);
    delete_committed_log_prefix = λ through_sequence world.
        stored (Idb.delete_committed_log_prefix options.store world.database through_sequence)
          world;
    acknowledge_resolutions = λ operation_ids world.
        stored (Idb.acknowledge_resolutions options.store world.database operation_ids) world;
    close_store = λ world. (ok tt, world);
    sync_promise = λ world. (ok tt, world);
    session = session_options;
  }

  -- `createSyncClient`
  unfoldable pub create_sync_client : RowDatabase Rejection → Outside → Result World
  unfolding create_replica_view read_view_snapshot
  create_sync_client database outside = do
    throw_if (not (str_eq options.store.stream_id options.stream_id))
        (sync_client "store stream does not match client stream")
    initial ← read_view_snapshot options.store database
    view ← create_replica_view locale_precedes options.schema initial
    ok (record { database = database; view = view; closed = false; outside = outside })

-- `database_name` is the option of that name, or its default; `payloads` is how rows look when stored.
pub record CreateIndexedDbSyncClientOptions (Outside Rejection : Type 0) : Type 0 where
  pub schema : ReplicaSchemaContract
  pub stream_id : String
  pub transport :
      SyncRequestEnvelope RowOperation
      → Action Outside (SyncResponseEnvelope RowOperation Rejection)
  pub maximum_entries : Option ℕ
  pub maximum_proposals : Option ℕ
  pub maximum_sync_rounds : Option ℕ
  pub operation_id : Action Outside String
  pub database_name : String
  pub client_id : Option String
  pub payloads : Payloads ReplicaDatabaseState RowOperation RowOperation Rejection

module _ {Outside Rejection : Type 0} (locale_precedes precedes : String → String → Bool)
    (options : CreateIndexedDbSyncClientOptions Outside Rejection) where
  -- `{ ...options, store }`
  abbrev pub with_store : RowStore Rejection → CreateSyncClientOptions Outside Rejection
  with_store store = record {
    schema = options.schema;
    stream_id = options.stream_id;
    store = store;
    transport = options.transport;
    maximum_entries = options.maximum_entries;
    maximum_proposals = options.maximum_proposals;
    maximum_sync_rounds = options.maximum_sync_rounds;
    operation_id = options.operation_id;
  }

  -- the store, and the database that holds its record
  unfoldable pub open_row_store :
      String → RowDatabase Rejection → Result (RowStore Rejection × RowDatabase Rejection)
  unfolding create_initial_database_state create_row_replica_interpreter
      open_indexed_db_replica_store
  open_row_store created_client_id database = do
    initial_state ← create_initial_database_state options.schema
    interpreter ← create_row_replica_interpreter precedes options.schema
    let store : RowStore Rejection = record {
      stream_id = options.stream_id;
      interpreter = interpreter;
      payloads = options.payloads;
    }
    opened ←
        open_indexed_db_replica_store
          (record {
            store = store;
            client_id = options.client_id;
            initial_state = initial_state;
            database_name = options.database_name;
          })
          created_client_id database
    ok (store, opened)

  -- It gives the client, or throws; the database stays as it was opened either way.
  unfoldable pub create_indexed_db_sync_client :
      String
      → RowDatabase Rejection
      → Outside
      → Result (ClientWorld Outside Rejection) × RowDatabase Rejection
  unfolding open_row_store create_sync_client
  create_indexed_db_sync_client created_client_id database outside =
      elim (open_row_store created_client_id database) [
        | err e ↦ (err e, database)
        | ok (store, opened) ↦
            (create_sync_client locale_precedes (with_store store) opened outside, opened)
      ]

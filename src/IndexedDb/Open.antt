-- ===== src/IndexedDb/Open.antt =====
-- src/indexeddb/open.ts: a store is opened, and its record made if there is none.
use sync_engine_v.Base.{String, not, [], Option, none, some, str_eq}
use sync_engine_v.Base.Dict.{lookup, put}
use sync_engine_v.Errors.{Result, ok, indexed_db_replica_identity, throw_if, ◌>>=◌, ◌>>◌}
use sync_engine_v.Replica.{create_replica_state}
use sync_engine_v.IndexedDb.Record.{indexed_db_replica_schema_version}
use sync_engine_v.IndexedDb.Check.{assert_non_empty_string, assert_replica_record}
use sync_engine_v.IndexedDb.Value.{record_value}
use sync_engine_v.IndexedDb.Store.{Database, IndexedDbReplicaStore}

pub record OpenIndexedDbReplicaStoreOptions (State Intent Operation Rejection : Type 0)
    : Type 0 where
  pub store : IndexedDbReplicaStore State Intent Operation Rejection
  pub open store use *
  pub client_id : Option String
  pub initial_state : State
  pub database_name : String

module _ {State Intent Operation Rejection : Type 0}
    (options : OpenIndexedDbReplicaStoreOptions State Intent Operation Rejection) where
  abbrev pub assert_client_id : Option String → Result (Unit {0})
  assert_client_id none = ok tt
  assert_client_id (some client_id) = assert_non_empty_string "clientId" client_id

  abbrev pub assert_belongs : Option String → String → Result (Unit {0})
  assert_belongs none received = ok tt
  assert_belongs (some client_id) received =
      throw_if (not (str_eq received client_id))
        (indexed_db_replica_identity options.stream_id client_id received)

  abbrev pub or_created : Option String → String → String
  or_created (some client_id) created = client_id
  or_created none created = created

  -- the transaction of `openIndexedDbReplicaStore`, with what `createClientId` would make
  unfoldable pub ensure_record :
      String
      → Database State Intent Operation Rejection
      → Result (Database State Intent Operation Rejection)
  unfolding lookup put create_replica_state assert_replica_record record_value
  ensure_record created_client_id database = elim (lookup options.stream_id database) [
    | none ↦ do
      replica ← create_replica_state (record {
        client_id = or_created options.client_id created_client_id;
        initial_state = options.initial_state;
        next_client_sequence = none;
      })
      ok (
          put options.stream_id
            (record {
              schema_version = indexed_db_replica_schema_version;
              stream_id = options.stream_id;
              replica = replica;
              resolutions = [];
            })
            database)
    | some stored ↦ do
      assert_replica_record options.stream_id (some (record_value options.payloads stored))
      assert_belongs options.client_id stored.replica.client_id
      ok database
  ]

  -- It gives the store, or throws and leaves the database.
  unfoldable pub open_indexed_db_replica_store :
      String
      → Database State Intent Operation Rejection
      → Result (Database State Intent Operation Rejection)
  unfolding assert_non_empty_string ensure_record
  open_indexed_db_replica_store created_client_id database = do
    assert_non_empty_string "streamId" options.stream_id
    assert_client_id options.client_id
    assert_non_empty_string "databaseName" options.database_name
    ensure_record created_client_id database

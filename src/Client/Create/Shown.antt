-- ===== src/Client/Create/Shown.antt =====
-- A client of src/client/client.ts over the store of src/indexeddb: what it enqueues is stored and shown.
use sync_engine_v.Base.{
  ℕ, ◌+◌, String, Bool, ◌≡◌, refl, sym, ap, ◌∙◌, false, List, [], Option, some, str_eq_iff,
}
use sync_engine_v.Base.Dict.{lookup, put, lookup-put_self}
use sync_engine_v.Errors.{ok, ok-injective, >>-eq-ok}
use sync_engine_v.Protocol.{ProposedOperation}
use sync_engine_v.Fingerprint.{create_intent_hash}
use sync_engine_v.Replica.{
  ReplicaState, EnqueueOperationInput, enqueue_operation as reduce_enqueue_operation,
  materialize_optimistic_state, ReplicaInterpreter,
}
use sync_engine_v.Replica.Enqueue.{entry_for}
use sync_engine_v.IndexedDb.{IndexedDbReplicaRecord, status_from_record}
use sync_engine_v.IndexedDb.Sound.{IsSound}
use sync_engine_v.IndexedDb.Store.{read_view_snapshot, IndexedDbReplicaViewSnapshot}
use sync_engine_v.Row.{
  ReplicaSchemaContract, RowOperation, ReplicaDatabaseState, operation_json,
  assert_database_state_schema, normalize_row_operation, apply_row_operation,
  create_row_replica_interpreter, assert_row_replication_schema,
}
use sync_engine_v.Row.Normal.Operation.{IsSchema}
use sync_engine_v.Row.Total.{apply_row_operation-total}
use sync_engine_v.Client.View.{
  snapshot_tables, refresh, start_task, finish_task, emit, make_snapshot,
}
use sync_engine_v.Client.Operations.{assert_open, enqueue}
use sync_engine_v.Client.Create.{CreateSyncClientOptions, ClientWorld, await_refresh, client_ports}
use sync_engine_v.Client.Create.Stored.{
  enqueue_operation-puts, counts_one_more, read_view_snapshot-after,
}

module _ {Outside Rejection : Type 0} (locale_precedes precedes : String → String → Bool)
    (digest : Option (String → List ℕ)) (options : CreateSyncClientOptions Outside Rejection) where
  -- A client that can take an operation: it is open; the operation normalizes, and an id and a hash are
  -- made for it; the stored record is sound, its replica takes a proposal of them, and what it shows is
  -- of the schema.
  pub record IsReady (world : ClientWorld Outside Rejection) (operation : RowOperation)
      : Type 0 where
    pub is_open : world.closed ≡ false
    pub normalized : RowOperation
    pub normalizes :
        normalize_row_operation precedes options.schema (operation_json operation) ≡ ok normalized
    pub operation_id : String
    pub outside : Outside
    pub makes_id : options.operation_id world.outside ≡ (ok operation_id, outside)
    pub intent_hash : String
    pub hashes : create_intent_hash precedes digest (operation_json normalized) ≡ ok intent_hash
    pub stored : IndexedDbReplicaRecord ReplicaDatabaseState RowOperation RowOperation Rejection
    pub there : lookup options.store.stream_id world.database ≡ some stored
    pub sound : IsSound options.store.stream_id stored
    pub next : ReplicaState ReplicaDatabaseState RowOperation RowOperation
    pub takes :
        reduce_enqueue_operation stored.replica
          (record { operation_id = operation_id; intent_hash = intent_hash; intent = normalized })
        ≡ ok next
    pub rows : ReplicaDatabaseState
    pub shows : materialize_optimistic_state stored.replica options.store.interpreter ≡ ok rows
    pub of_schema : rows.schema_hash ≡ options.schema.schema_hash

  -- The proposal that such a client makes.
  abbrev pub proposal_of :
      {world : ClientWorld Outside Rejection} {operation : RowOperation}
      → IsReady world operation
      → ProposedOperation RowOperation
  proposal_of r =
      (entry_for {Operation = RowOperation} r.stored.replica (record {
        operation_id = r.operation_id;
        intent_hash = r.intent_hash;
        intent = r.normalized;
      })).proposal

  -- What a client has stored and shows once it has enqueued an operation.
  pub record IsShown {world : ClientWorld Outside Rejection} {operation : RowOperation}
      (r : IsReady world operation) (last : ClientWorld Outside Rejection) : Type 0 where
    pub kept :
        lookup options.store.stream_id last.database ≡ some (record r.stored { replica = r.next })
    pub applied :
        apply_row_operation precedes options.schema r.rows r.normalized
        ≡ ok last.view.optimistic_state
    pub tables :
        last.view.snapshot.tables
        ≡ snapshot_tables locale_precedes options.schema options.schema.tables
            last.view.optimistic_state
    pub counted :
        last.view.snapshot.pending_proposal_count
        ≡ (status_from_record r.stored).pending_proposal_count + 1
    pub numbered : last.view.snapshot.revision ≡ world.view.revision + 1

create_row_replica_interpreter-applies :
    (precedes : String → String → Bool) (schema : ReplicaSchemaContract)
    {i : ReplicaInterpreter ReplicaDatabaseState RowOperation RowOperation}
    → create_row_replica_interpreter precedes schema ≡ ok i
    → i.apply_optimistic ≡ apply_row_operation precedes schema
unfolding create_row_replica_interpreter
create_row_replica_interpreter-applies precedes schema h =
    let (_, h₁) = (>>-eq-ok (assert_row_replication_schema schema) _).0 h in
    ap
      (λ (i : ReplicaInterpreter ReplicaDatabaseState RowOperation RowOperation).
        i.apply_optimistic)
      (sym (ok-injective h₁))

module _ {Outside Rejection : Type 0} (locale_precedes : String → String → Bool)
    (options : CreateSyncClientOptions Outside Rejection) where
  -- a client whose view has read the store
  abbrev after_read :
      ClientWorld Outside Rejection
      → IndexedDbReplicaViewSnapshot ReplicaDatabaseState
      → ClientWorld Outside Rejection
  after_read world seen = record world {
    view = record world.view {
      client_id = seen.client_id;
      revision = world.view.revision + 1;
      optimistic_state = seen.optimistic_state;
      status = seen.status;
      snapshot =
          make_snapshot locale_precedes options.schema seen.optimistic_state seen.status
            world.view.phase world.view.error (world.view.revision + 1);
      waiting = [];
      is_reading = false;
    };
  }

  await_refresh-reads :
      (world : ClientWorld Outside Rejection)
      (seen : IndexedDbReplicaViewSnapshot ReplicaDatabaseState)
      → read_view_snapshot options.store world.database ≡ ok seen
      → assert_database_state_schema options.schema seen.optimistic_state ≡ ok tt
      → await_refresh locale_precedes options world ≡ (ok seen.status, after_read world seen)
  unfolding await_refresh finish_task start_task refresh emit
  await_refresh-reads world seen reads fits = rw (reads, finish_task, fits) refl

module _ {Outside Rejection : Type 0} (locale_precedes precedes : String → String → Bool)
    (digest : Option (String → List ℕ)) (options : CreateSyncClientOptions Outside Rejection)
    (valid : IsSchema options.schema)
    (interprets : create_row_replica_interpreter precedes options.schema
      ≡ ok options.store.interpreter) where
  -- Under a schema whose tables are well formed, a client over a store of rows that is ready for an
  -- operation takes it: the call returns the proposal, the store's record has it last in its outbox, and
  -- the client shows the rows of before with the operation applied to them, one waiting proposal more,
  -- and the next revision.
  pub enqueue-IsShown :
      (world : ClientWorld Outside Rejection) (operation : RowOperation)
      (r : IsReady locale_precedes precedes digest options world operation)
      → (last : ClientWorld Outside Rejection) × (enqueue
            (client_ports locale_precedes options)
            precedes
            digest
            options.schema
            operation
            world
          ≡ (ok (proposal_of locale_precedes precedes digest options r), last))
        × IsShown locale_precedes precedes digest options r last
  unfolding enqueue assert_open client_ports make_snapshot assert_database_state_schema
      status_from_record
  enqueue-IsShown world operation r =
      let input : EnqueueOperationInput RowOperation = record {
        operation_id = r.operation_id;
        intent_hash = r.intent_hash;
        intent = r.normalized;
      } in
      let stored' : IndexedDbReplicaRecord ReplicaDatabaseState RowOperation RowOperation
          Rejection =
        record r.stored { replica = r.next } in
      let (shown, applies, hash) =
        apply_row_operation-total precedes options.schema r.rows (operation_json operation)
          r.normalized valid r.of_schema r.normalizes in
      let applied : options.store.interpreter.apply_optimistic r.rows r.normalized ≡ ok shown =
        ap (λ f. f r.rows r.normalized)
          (create_row_replica_interpreter-applies precedes options.schema interprets)
        ∙ applies in
      let puts =
        enqueue_operation-puts options.store world.database r.stored r.there r.sound input
          r.takes in
      let seen : IndexedDbReplicaViewSnapshot ReplicaDatabaseState = record {
        client_id = r.next.client_id;
        optimistic_state = shown;
        status = status_from_record stored';
      } in
      let reads : read_view_snapshot options.store
            (put options.store.stream_id stored' world.database)
          ≡ ok seen =
        read_view_snapshot-after options.store world.database r.stored r.there r.sound input r.takes
          r.shows applied in
      let counts =
        counts_one_more options.store world.database r.stored r.there r.sound input r.takes in
      let fits : assert_database_state_schema options.schema shown ≡ ok tt =
        rw
          (
            (str_eq_iff shown.schema_hash options.schema.schema_hash).1 hash,
            assert_database_state_schema,
          )
          refl in
      let w : ClientWorld Outside Rejection = record world {
        closed = false;
        outside = r.outside;
        database = put options.store.stream_id stored' world.database;
      } in
      let refreshes = await_refresh-reads locale_precedes options w seen reads fits in
      (
        after_read locale_precedes options w seen,
        rw (r.is_open, r.normalizes, r.makes_id, r.hashes, puts, refreshes) refl,
        record {
          kept = lookup-put_self options.store.stream_id stored' world.database;
          applied = applies;
          tables = refl;
          counted = counts;
          numbered = refl;
        },
      )

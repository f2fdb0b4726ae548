-- ===== src/Tests/Assembly.antt =====
-- A run of a client that is put together as in src/client/client.ts.
use sync_engine_v.Base.{ℕ, ◌+◌, String, ◌≡◌, refl, [], ◌∷◌, none, some, false, str_eq}
use sync_engine_v.Json.{string}
use sync_engine_v.Errors.{ok, err, sync_client_closed}
use sync_engine_v.Replica.{
  EnqueueOperationInput, ReplicaInterpreter, ReplicaState, pending, materialize_optimistic_state,
  enqueue_operation as reduce_enqueue_operation,
}
use sync_engine_v.IndexedDb.{IndexedDbReplicaRecord, record_value, assert_replica_record}
use sync_engine_v.Row.{
  RowOperation, put_row, ReplicaDatabaseState, apply_row_operation, operation_json,
  create_row_replica_interpreter,
}
use sync_engine_v.Client.Operations.{enqueue}
use sync_engine_v.Client.Create.{
  RowStore, CreateSyncClientOptions, ClientWorld, client_ports, create_sync_client,
}
use sync_engine_v.Client.Create.Shown.{IsReady, IsShown, enqueue-IsShown}
use sync_engine_v.Fingerprint.{canonicalize_json, create_intent_hash}
use sync_engine_v.IndexedDb.Sound.{assert_replica_record-eq-ok}
use sync_engine_v.Base.Dict.{lookup}
use sync_engine_v.Tests.Rows.{
  in_order, schema, initial, given, normal, given_normal, schema-IsSchema,
}
use sync_engine_v.Tests.Clients.{zeros, note_proposal, first_view}

-- A client of rows over a store that has nothing yet.
abbrev row_interpreter : ReplicaInterpreter ReplicaDatabaseState RowOperation RowOperation
row_interpreter = record {
  apply_committed = apply_row_operation in_order schema;
  apply_optimistic = apply_row_operation in_order schema;
  are_committed_operations_equal = λ left right.
      str_eq (canonicalize_json in_order (operation_json left))
        (canonicalize_json in_order (operation_json right));
}

row_interpreter_made : create_row_replica_interpreter in_order schema ≡ ok row_interpreter
unfolding create_row_replica_interpreter
row_interpreter_made = refl

abbrev row_store : RowStore String
row_store = record {
  stream_id = "notes";
  interpreter = row_interpreter;
  payloads = record {
    state_value = λ state. string state.schema_hash;
    intent_value = operation_json;
    operation_value = operation_json;
    rejection_value = λ s. string s;
  };
}

abbrev client_options : CreateSyncClientOptions ℕ String
client_options = record {
  schema = schema;
  stream_id = "notes";
  store = row_store;
  transport = λ envelope outside. (err sync_client_closed, outside);
  maximum_entries = none;
  maximum_proposals = none;
  maximum_sync_rounds = none;
  operation_id = λ outside. (ok "op_1", outside + 1);
}

abbrev alice_rows : ReplicaState ReplicaDatabaseState RowOperation RowOperation
alice_rows = record {
  client_id = "alice";
  next_client_sequence = 1;
  confirmed_sequence = 0;
  confirmed_state = initial;
  confirmed_log = [];
  outbox = [];
}

abbrev rows_stored : IndexedDbReplicaRecord ReplicaDatabaseState RowOperation RowOperation String
rows_stored = record {
  schema_version = 1;
  stream_id = "notes";
  replica = alice_rows;
  resolutions = [];
}

rows_pass :
    assert_replica_record "notes" (some (record_value row_store.payloads rows_stored)) ≡ ok tt
unfolding assert_replica_record record_value
rows_pass = refl

abbrev fresh_world : ClientWorld ℕ String
fresh_world = record {
  database = ("notes", rows_stored) ∷ [];
  view = first_view;
  closed = false;
  outside = 0;
}

world_made :
    create_sync_client in_order client_options (("notes", rows_stored) ∷ []) 0 ≡ ok fresh_world
unfolding create_sync_client
world_made = refl

normal_hashed : create_intent_hash in_order (some zeros) (operation_json normal) ≡ ok "sha256:00"
unfolding create_intent_hash
normal_hashed = refl

rows_there : lookup "notes" fresh_world.database ≡ some rows_stored
unfolding lookup
rows_there = refl

abbrev alice_next : ReplicaState ReplicaDatabaseState RowOperation RowOperation
alice_next = record alice_rows {
  next_client_sequence = 2;
  outbox = record { proposal = note_proposal; status = pending } ∷ [];
}

note_taken :
    reduce_enqueue_operation alice_rows
      (record { operation_id = "op_1"; intent_hash = "sha256:00"; intent = normal })
    ≡ ok alice_next
unfolding reduce_enqueue_operation sync_engine_v.Replica.assert_retained_confirmed_log
    sync_engine_v.Replica.log_has sync_engine_v.Replica.outbox_has
note_taken = refl

rows_shown : materialize_optimistic_state alice_rows row_interpreter ≡ ok initial
unfolding materialize_optimistic_state
rows_shown = refl

abbrev fresh_ready :
    IsReady in_order in_order (some zeros) client_options fresh_world (put_row "notes" given)
fresh_ready = record {
  is_open = refl;
  normalized = normal;
  normalizes = given_normal;
  operation_id = "op_1";
  outside = 1;
  makes_id = refl;
  intent_hash = "sha256:00";
  hashes = normal_hashed;
  stored = rows_stored;
  there = rows_there;
  sound = (assert_replica_record-eq-ok row_store.payloads "notes" rows_stored).0 rows_pass;
  next = alice_next;
  takes = note_taken;
  rows = initial;
  shows = rows_shown;
  of_schema = refl;
}

enqueue-IsShown_example :
    (last : ClientWorld ℕ String) × (enqueue
        (client_ports in_order client_options)
        in_order
        (some zeros)
        schema
        (put_row "notes" given)
        fresh_world
      ≡ (ok note_proposal, last))
    × IsShown in_order in_order (some zeros) client_options fresh_ready last
enqueue-IsShown_example =
    enqueue-IsShown in_order in_order (some zeros) client_options schema-IsSchema
      row_interpreter_made fresh_world (put_row "notes" given) fresh_ready

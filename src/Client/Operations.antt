-- ===== src/Client/Operations.antt =====
-- src/client/client.ts: the calls of a client over its store and its view, and src/client/database.ts.
pub mod Accepted
use sync_engine_v.Base.{ℕ, String, Bool, List, Option, none, some, if◌then◌else◌}
use sync_engine_v.Base.Dict.{lookup}
use sync_engine_v.Json.{Fields}
use sync_engine_v.Errors.{SyncError, Result, ok, err, sync_client, sync_client_closed, throw_if}
use sync_engine_v.Protocol.{ProposedOperation, ProposalDecision}
use sync_engine_v.Replica.{EnqueueOperationInput}
use sync_engine_v.IndexedDb.{IndexedDbReplicaStatus}
use sync_engine_v.Fingerprint.{create_intent_hash}
use sync_engine_v.Row.{
  ReplicaSchemaContract, RowOperation, put_row, delete_row, ReplicaDatabaseState, operation_json,
  normalize_row_operation, read_table_rows, read_table_row,
}
use sync_engine_v.Client.Action.{Action, go_on, lift, ◌>>=◌, ◌>>◌}
use sync_engine_v.Client.Session.{RunSyncSessionOptions, run_sync_session}
use sync_engine_v.Client.View.{SyncClientPhase, phase_idle, phase_syncing, phase_error}

-- What a client is made of: its variables, its view, its store and its session.
pub record SyncClientPorts (World Rejection : Type 0) : Type 0 where
  pub is_closed : World → Bool
  pub set_closed : World → World
  pub set_phase : SyncClientPhase → Option SyncError → World → World
  pub refresh : Action World IndexedDbReplicaStatus
  pub close_view : World → World
  pub operation_id : Action World String
  pub enqueue_operation :
      EnqueueOperationInput RowOperation → Action World (ProposedOperation RowOperation)
  pub read_resolutions : Action World (List (ProposalDecision RowOperation Rejection))
  pub delete_committed_log_prefix : ℕ → Action World ℕ
  pub acknowledge_resolutions : List String → Action World ℕ
  pub close_store : Action World (Unit {0})
  -- the promise of a synchronization that is in flight, or what is done at once
  pub sync_promise : Action World (Unit {0})
  pub session : RunSyncSessionOptions World RowOperation RowOperation Rejection

module _ {World Rejection : Type 0} (ports : SyncClientPorts World Rejection) where
  unfoldable pub assert_open : Action World (Unit {0})
  assert_open world = (throw_if (ports.is_closed world) sync_client_closed, world)

  -- a function that cannot throw
  abbrev pub silently : (World → World) → Action World (Unit {0})
  silently change world = (ok tt, change world)

  unfoldable pub enqueue :
      (String → String → Bool)
      → Option (String → List ℕ)
      → ReplicaSchemaContract
      → RowOperation
      → Action World (ProposedOperation RowOperation)
  unfolding assert_open normalize_row_operation create_intent_hash
  enqueue precedes digest schema operation = do
    assert_open
    normalized ← lift (normalize_row_operation precedes schema (operation_json operation))
    operation_id ← ports.operation_id
    intent_hash ← lift (create_intent_hash precedes digest (operation_json normalized))
    proposal ←
        ports.enqueue_operation
          (record { operation_id = operation_id; intent_hash = intent_hash; intent = normalized })
    status ← ports.refresh
    lift (ok proposal)

  -- the end of `try … catch …`
  abbrev pub show_outcome : Result (Unit {0}) × World → Result (Unit {0}) × World
  show_outcome (ok done, world) = (ok tt, ports.set_phase phase_idle none world)
  show_outcome (err error, world) = (err error, ports.set_phase phase_error (some error) world)

  unfoldable pub perform_sync : Action World (Unit {0})
  unfolding assert_open run_sync_session
  perform_sync = do
    assert_open
    silently (ports.set_phase phase_syncing none)
    λ world. show_outcome (run_sync_session ports.session world)

  unfoldable pub read_resolutions : Action World (List (ProposalDecision RowOperation Rejection))
  unfolding assert_open
  read_resolutions = assert_open >> ports.read_resolutions

  unfoldable pub delete_log_prefix : ℕ → Action World ℕ
  unfolding assert_open
  delete_log_prefix through_sequence =
      assert_open >> ports.delete_committed_log_prefix through_sequence

  unfoldable pub acknowledge : List String → Action World ℕ
  unfolding assert_open
  acknowledge operation_ids = do
    assert_open
    count ← ports.acknowledge_resolutions operation_ids
    status ← ports.refresh
    lift (ok count)

  -- `try { await … } catch {}`
  abbrev pub ignoring_errors : Action World (Unit {0}) → Action World (Unit {0})
  ignoring_errors first world = (ok tt, (first world).1)

  unfoldable pub close_client : Action World (Unit {0})
  close_client world =
      if ports.is_closed world
      then (ok tt, world)
      else (silently ports.set_closed
            >> ignoring_errors ports.sync_promise
            >> ports.close_store
            >> silently ports.close_view)
          world

-- `table(name)`: the name, if the schema has it
unfoldable pub table_named : ReplicaSchemaContract → String → Result String
unfolding lookup
table_named schema name = elim (lookup name schema.tables) [
  | none ↦ err (sync_client "unknown replicated table")
  | some table ↦ ok name
]

module _ (locale_precedes precedes : String → String → Bool) (schema : ReplicaSchemaContract)
    (state : ReplicaDatabaseState) (name : String) where
  unfoldable pub table_all : List Fields
  unfolding read_table_rows
  table_all = read_table_rows locale_precedes state name

  unfoldable pub table_get : Fields → Result (Option Fields)
  unfolding read_table_row
  table_get key = read_table_row precedes schema state name key

module _ {Promise : Type 0} (enqueue_row : RowOperation → Promise) (name : String) where
  unfoldable pub table_put : Fields → Promise
  table_put row = enqueue_row (put_row name row)

  unfoldable pub table_delete : Fields → Promise
  table_delete key = enqueue_row (delete_row name key)

-- ===== src/Client/View.antt =====
-- src/client/replica-view.ts: a store's version as an observable view. A listener is a number; what it
-- does when it is called is not modelled, and neither is freezing, which forbids later writes.
pub mod Coherent
use sync_engine_v.Base.{
  ℕ, ◌+◌, String, Bool, true, false, List, [], ◌∷◌, ◌++◌, Option, none, some, ◌==◌, if◌then◌else◌,
}
use sync_engine_v.Base.Dict.{Dict}
use sync_engine_v.Json.{Fields}
use sync_engine_v.Errors.{SyncError, Result, ok, err, ◌>>=◌, ◌>>◌}
use sync_engine_v.IndexedDb.{IndexedDbReplicaStatus}
use sync_engine_v.IndexedDb.Store.{IndexedDbReplicaViewSnapshot}
use sync_engine_v.Row.{
  ReplicaSchemaContract, ReplicaTableContract, ReplicaDatabaseState, assert_database_state_schema,
  read_table_rows,
}

pub data SyncClientPhase : Type 0 where
  phase_idle phase_syncing phase_error phase_closed : SyncClientPhase

pub record SyncClientSnapshot : Type 0 where
  pub phase : SyncClientPhase
  pub error : Option SyncError
  pub confirmed_sequence : ℕ
  pub pending_proposal_count : ℕ
  pub accepted_awaiting_confirmation_count : ℕ
  pub unacknowledged_resolution_count : ℕ
  pub revision : ℕ
  pub tables : Dict (List Fields)

pub record ReplicaViewRefreshOptions : Type 0 where
  pub phase : SyncClientPhase
  pub error : Option SyncError

-- The variables of a view. The tasks that wait for `refreshTail` are in `waiting`; `is_reading` says
-- that a task waits for the store.
pub record ReplicaView : Type 0 where
  pub client_id : String
  pub phase : SyncClientPhase
  pub error : Option SyncError
  pub revision : ℕ
  pub optimistic_state : ReplicaDatabaseState
  pub status : IndexedDbReplicaStatus
  pub snapshot : SyncClientSnapshot
  pub listeners : List ℕ
  pub waiting : List (Option ReplicaViewRefreshOptions)
  pub is_reading : Bool

-- `listeners.add(listener)`, of a `Set` in insertion order
unfoldable pub add_listener : ℕ → List ℕ → List ℕ
add_listener listener [] = listener ∷ []
add_listener listener (other ∷ rest) =
    let added = add_listener listener rest in
    if other == listener then other ∷ rest else other ∷ added

unfoldable pub delete_listener : ℕ → List ℕ → List ℕ
delete_listener listener [] = []
delete_listener listener (other ∷ rest) =
    let left = delete_listener listener rest in if other == listener then rest else other ∷ left

module _ (locale_precedes : String → String → Bool) (schema : ReplicaSchemaContract) where
  unfoldable pub snapshot_tables :
      Dict ReplicaTableContract → ReplicaDatabaseState → Dict (List Fields)
  unfolding read_table_rows
  snapshot_tables [] state = []
  snapshot_tables ((table_name, table) ∷ rest) state =
      (table_name, read_table_rows locale_precedes state table_name) ∷ snapshot_tables rest state

  unfoldable pub make_snapshot :
      ReplicaDatabaseState
      → IndexedDbReplicaStatus
      → SyncClientPhase
      → Option SyncError
      → ℕ
      → SyncClientSnapshot
  unfolding snapshot_tables
  make_snapshot state status phase error revision = record {
    phase = phase;
    error = error;
    confirmed_sequence = status.confirmed_sequence;
    pending_proposal_count = status.pending_proposal_count;
    accepted_awaiting_confirmation_count = status.accepted_awaiting_confirmation_count;
    unacknowledged_resolution_count = status.unacknowledged_resolution_count;
    revision = revision;
    tables = snapshot_tables schema.tables state;
  }

  -- a new snapshot, and the listeners that are called
  unfoldable pub emit : ReplicaView → ReplicaView × List ℕ
  unfolding make_snapshot
  emit view = (
    record view {
      snapshot =
          make_snapshot view.optimistic_state view.status view.phase view.error view.revision;
    },
    view.listeners,
  )

  unfoldable pub create_replica_view :
      IndexedDbReplicaViewSnapshot ReplicaDatabaseState → Result ReplicaView
  unfolding assert_database_state_schema make_snapshot
  create_replica_view initial = do
    assert_database_state_schema schema initial.optimistic_state
    ok (record {
      client_id = initial.client_id;
      phase = phase_idle;
      error = none;
      revision = 0;
      optimistic_state = initial.optimistic_state;
      status = initial.status;
      snapshot = make_snapshot initial.optimistic_state initial.status phase_idle none 0;
      listeners = [];
      waiting = [];
      is_reading = false;
    })

  -- `refresh`: its task comes behind those that wait
  unfoldable pub refresh : Option ReplicaViewRefreshOptions → ReplicaView → ReplicaView
  refresh options view = record view { waiting = view.waiting ++ options ∷ [] }

  -- a task up to its read of the store
  unfoldable pub start_task :
      Option ReplicaViewRefreshOptions
      → List (Option ReplicaViewRefreshOptions)
      → ReplicaView
      → ReplicaView
  start_task none rest view = record view { waiting = rest; is_reading = true }
  start_task (some options) rest view = record view {
    phase = options.phase;
    error = options.error;
    waiting = rest;
    is_reading = true;
  }

  -- a task from its read of the store: what its promise is, what it leaves, and whom it calls
  unfoldable pub finish_task :
      Result (IndexedDbReplicaViewSnapshot ReplicaDatabaseState)
      → ReplicaView
      → Result IndexedDbReplicaStatus × ReplicaView × List ℕ
  unfolding assert_database_state_schema emit
  finish_task (err e) view = (err e, record view { is_reading = false }, [])
  finish_task (ok next) view =
      let seen = record view {
        is_reading = false;
        client_id = next.client_id;
        optimistic_state = next.optimistic_state;
      } in
      elim (assert_database_state_schema schema next.optimistic_state) [
        | err e ↦ (err e, seen, [])
        | ok done ↦
            let (shown, called) =
              emit (record seen { status = next.status; revision = view.revision + 1 }) in
            (ok next.status, shown, called)
      ]

  unfoldable pub set_phase : SyncClientPhase → Option SyncError → ReplicaView → ReplicaView × List ℕ
  unfolding emit
  set_phase phase error view = emit (record view { phase = phase; error = error })

  unfoldable pub subscribe : ℕ → ReplicaView → ReplicaView
  unfolding add_listener
  subscribe listener view = record view { listeners = add_listener listener view.listeners }

  unfoldable pub unsubscribe : ℕ → ReplicaView → ReplicaView
  unfolding delete_listener
  unsubscribe listener view = record view { listeners = delete_listener listener view.listeners }

  unfoldable pub close_view : ReplicaView → ReplicaView × List ℕ
  unfolding emit
  close_view view =
      let (closed_view, called) = emit (record view { phase = phase_closed }) in
      (record closed_view { listeners = [] }, called)

-- ===== src/Tests/Clients.antt =====
-- Runs of the view and of the calls of a client, in src/client.
use sync_engine_v.Base.{ℕ, ◌+◌, String, ◌≡◌, refl, sym, ap, List, [], ◌∷◌, none, some, true, false}
use sync_engine_v.Errors.{ok, err, sync_client_closed, ok-injective}
use sync_engine_v.Protocol.{ProposedOperation}
use sync_engine_v.Replica.{EnqueueOperationInput}
use sync_engine_v.IndexedDb.{IndexedDbReplicaStatus}
use sync_engine_v.Row.{RowOperation, put_row, assert_database_state_schema}
use sync_engine_v.Client.Action.{Action}
use sync_engine_v.Client.{RunSyncSessionOptions}
use sync_engine_v.Client.View.{
  ReplicaView, create_replica_view, refresh, start_task, finish_task, make_snapshot, phase_idle,
}
use sync_engine_v.Client.View.Coherent.{
  Read, created, requested, started, read, IsCoherent, ViewSteps-IsCoherent,
}
use sync_engine_v.Client.Operations.{SyncClientPorts, enqueue}
use sync_engine_v.Client.Operations.Accepted.{Proposes, IsAcceptable, enqueue-IsAcceptable}
use sync_engine_v.Tests.Rows.{in_order, schema, initial, given, normal, with_note, schema-IsSchema}

abbrev status : ℕ → IndexedDbReplicaStatus
status waiting = record {
  confirmed_sequence = 0;
  pending_proposal_count = waiting;
  accepted_awaiting_confirmation_count = 0;
  unacknowledged_resolution_count = 0;
}

abbrev first_read : Read
first_read = record { client_id = "alice"; optimistic_state = initial; status = status 0 }

abbrev second_read : Read
second_read = record { client_id = "alice"; optimistic_state = with_note; status = status 1 }

abbrev pub first_view : ReplicaView
first_view = record {
  client_id = "alice";
  phase = phase_idle;
  error = none;
  revision = 0;
  optimistic_state = initial;
  status = status 0;
  snapshot = make_snapshot in_order schema initial (status 0) phase_idle none 0;
  listeners = [];
  waiting = [];
  is_reading = false;
}

view_created : create_replica_view in_order schema first_read ≡ ok first_view
unfolding create_replica_view
view_created = refl

second_fits : assert_database_state_schema schema with_note ≡ ok tt
unfolding assert_database_state_schema
second_fits = refl

abbrev asked : ReplicaView
asked = record first_view { waiting = none ∷ [] }

abbrev reading : ReplicaView
reading = record first_view { waiting = []; is_reading = true }

ViewSteps-IsCoherent_example :
    IsCoherent in_order schema first_read
      (second_read ∷ [])
      (finish_task in_order schema
        (ok second_read)
        (start_task in_order schema none [] (refresh in_order schema none first_view))).1
unfolding refresh start_task
ViewSteps-IsCoherent_example =
    ViewSteps-IsCoherent in_order schema first_read
      (read second_read refl (started none [] refl refl (requested none (created view_created))))
      (second_fits, tt)

-- A client whose world is the number of its proposals.
abbrev no_session : RunSyncSessionOptions ℕ RowOperation RowOperation String
no_session = record {
  stream_id = "notes";
  prepare_sync_request = λ options world. (err sync_client_closed, world);
  merge_sync_response = λ response world. (ok tt, world);
  transport = λ envelope world. (err sync_client_closed, world);
  refresh_after_merge = λ world. (ok (status world), world);
  maximum_entries = none;
  maximum_proposals = none;
  maximum_sync_rounds = none;
}

abbrev propose : EnqueueOperationInput RowOperation → Action ℕ (ProposedOperation RowOperation)
propose input world = (
  ok (record {
    submission = record {
      identity = record {
        operation_id = input.operation_id;
        client_id = "alice";
        client_sequence = world + 1;
      };
      intent_hash = input.intent_hash;
    };
    intent = input.intent;
  }),
  world + 1,
)

abbrev ports : SyncClientPorts ℕ String
ports = record {
  is_closed = λ world. false;
  set_closed = λ world. world;
  set_phase = λ phase error world. world;
  refresh = λ world. (ok (status world), world);
  close_view = λ world. world;
  operation_id = λ world. (ok "op_1", world);
  enqueue_operation = propose;
  read_resolutions = λ world. (ok [], world);
  delete_committed_log_prefix = λ through world. (ok through, world);
  acknowledge_resolutions = λ ids world. (ok 0, world);
  close_store = λ world. (ok tt, world);
  sync_promise = λ world. (ok tt, world);
  session = no_session;
}

ports-Proposes : Proposes ports
ports-Proposes input world proposal after h =
    let same = ok-injective (ap (λ r. r.0) h) in
    (
      ap (λ (p : ProposedOperation RowOperation). p.intent) (sym same),
      ap (λ (p : ProposedOperation RowOperation). p.intent_hash) (sym same),
    )

abbrev pub zeros : String → List ℕ
zeros text = 0 ∷ []

abbrev pub note_proposal : ProposedOperation RowOperation
note_proposal = record {
  submission = record {
    identity = record { operation_id = "op_1"; client_id = "alice"; client_sequence = 1 };
    intent_hash = "sha256:00";
  };
  intent = normal;
}

note_enqueued :
    enqueue ports in_order (some zeros) schema (put_row "notes" given) 0 ≡ (ok note_proposal, 1)
unfolding enqueue
note_enqueued = refl

enqueue-IsAcceptable_example : IsAcceptable in_order (some zeros) schema note_proposal
enqueue-IsAcceptable_example =
    enqueue-IsAcceptable ports ports-Proposes in_order (some zeros) schema (put_row "notes" given) 0
      schema-IsSchema note_enqueued

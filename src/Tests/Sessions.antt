-- ===== src/Tests/Sessions.antt =====
-- A session of src/client/sync-session.ts, one proposal and one entry at a time.
use sync_engine_v.Base.{ℕ, ◌≡◌, String, refl, none, some, [], arith, str_eq→ne}
use sync_engine_v.Replay.{replay}
use sync_engine_v.Replica.Converge.{IsReplica}
use sync_engine_v.Client.{run_sync_session, run_rounds, run_round, assert_response_envelope}
use sync_engine_v.Errors.{ok}
use sync_engine_v.Server.{synchronize}
use sync_engine_v.Invariants.Batch
use sync_engine_v.Invariants.Identity
use sync_engine_v.Invariants.Response
use sync_engine_v.Invariants.Position
use sync_engine_v.Base.Dict.{lookup, put, put_all}
use sync_engine_v.Base.{contains}
use sync_engine_v.Server.{process_proposals, process_proposal}
use sync_engine_v.IndexedDb.{count_outbox}
use sync_engine_v.Replica.{
  collect_proposals, merge_decision, find_index, merge_entry, replace_at, remove_at, local_at,
  merge_decisions, merge_entries, merge_next, merge_retained, reconcile,
  resolve_outbox_from_committed, assert_retained_confirmed_log, check_retained, keeps_accepted,
  assert_proposal_matches_committed, proposal_difference,
}
use sync_engine_v.Replica.{prepare_sync_request, merge_sync_response}
use sync_engine_v.IndexedDb.{status_from_record}
use sync_engine_v.Protocol.{response_has_more_entries}
use sync_engine_v.System.Session.{SessionWorld, SessionSettings, direct_session, Ends, IsSession}
use sync_engine_v.System.Session.Drain.{AreUsable, run_sync_session-Ends}
use sync_engine_v.Tests.Data.{alice, new_server, replica_interpreter}
use sync_engine_v.Tests.Authority.{consistent}
use sync_engine_v.Tests.Replicas.{equal_refl, alice-IsLocal}

abbrev settings : SessionSettings
settings = record {
  maximum_entries = some 1;
  maximum_proposals = some 1;
  maximum_sync_rounds = none;
}

abbrev world : SessionWorld ℕ ℕ ℕ String
world = record {
  stored = record { schema_version = 1; stream_id = "notes"; replica = alice; resolutions = [] };
  server = new_server;
}

settings-AreUsable : AreUsable settings
settings-AreUsable = record {
  some_proposals = omega arith;
  safe_proposals = omega arith;
  some_entries = omega arith;
  safe_entries = omega arith;
}

-- the empty log has none of what she has submitted
alice-IsReplica_new : IsReplica replica_interpreter 0 [] alice
unfolding replay
alice-IsReplica_new = record {
  base = 0;
  follows = record {
    within = omega arith;
    covers = refl;
    agrees = λ i c there. absurd (ground arith);
    replays = refl;
  };
  sound = record {
    own = (
      record { matches = λ i c there. absurd (ground arith); receipt = tt },
      (record { matches = λ i c there. absurd (ground arith); receipt = tt }, tt),
    );
    distinct = ((str_eq→ne refl, tt), (tt, tt));
  };
}

world-IsSession : IsSession 0 replica_interpreter world
world-IsSession = record {
  consistent = consistent;
  shared = record { apply = refl; equal_refl = equal_refl };
  replica = alice-IsReplica_new;
  local = alice-IsLocal;
  room = omega arith;
}

run_sync_session-Ends_example :
    Ends settings
      (run_sync_session (direct_session String replica_interpreter "notes" settings) world)
run_sync_session-Ends_example =
    run_sync_session-Ends 0 replica_interpreter settings settings-AreUsable "notes" world
      world-IsSession (omega arith)

-- it drains: of her two operations the authority accepts the small one
drains :
    (run_sync_session (direct_session String replica_interpreter "notes" settings) world).0 ≡ ok tt
unfolding run_sync_session run_rounds run_round assert_response_envelope prepare_sync_request
    merge_sync_response synchronize status_from_record response_has_more_entries collect_proposals
    contains lookup process_proposals process_proposal put merge_decision find_index merge_entry
    replace_at remove_at put_all count_outbox local_at merge_decisions merge_entries merge_next
    merge_retained reconcile resolve_outbox_from_committed assert_retained_confirmed_log
    check_retained keeps_accepted assert_proposal_matches_committed proposal_difference
    Batch.assert_sync_request Batch.check_proposals Identity.assert_submission_identity
    Response.assert_sync_response Identity.assert_committed_operation Response.check_outcome
    Position.client_position_key
drains = refl

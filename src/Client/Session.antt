-- ===== src/Client/Session.antt =====
-- src/client/sync-session.ts, over the ports of src/client/replica-store.ts and of
-- src/client/transport.ts that it uses.
use sync_engine_v.Base.{
  ℕ, zero, suc, String, Bool, not, ◌&&◌, Option, some, str_eq, ◌==◌, if◌then◌else◌,
}
use sync_engine_v.Errors.{Result, ok, err, sync_client, sync_client_protocol}
use sync_engine_v.Limits.{or_default}
use sync_engine_v.Protocol.{
  SyncRequest, SyncResponse, SyncRequestEnvelope, SyncResponseEnvelope, sync_protocol_version,
  response_has_more_entries,
}
use sync_engine_v.Replica.{PrepareSyncRequestOptions}
use sync_engine_v.IndexedDb.{IndexedDbReplicaStatus}
use sync_engine_v.Client.Action.{Action, lift, ◌>>=◌, ◌>>◌}

pub record RunSyncSessionOptions (World Intent Operation Rejection : Type 0) : Type 0 where
  pub stream_id : String
  pub prepare_sync_request : PrepareSyncRequestOptions → Action World (SyncRequest Intent)
  pub merge_sync_response : SyncResponse Operation Rejection → Action World (Unit {0})
  pub transport :
      SyncRequestEnvelope Intent → Action World (SyncResponseEnvelope Operation Rejection)
  pub refresh_after_merge : Action World IndexedDbReplicaStatus
  pub maximum_entries : Option ℕ
  pub maximum_proposals : Option ℕ
  pub maximum_sync_rounds : Option ℕ

unfoldable pub assert_response_envelope :
    {Operation Rejection : Type 0}
    → String
    → SyncResponseEnvelope Operation Rejection
    → Result (Unit {0})
assert_response_envelope stream_id envelope =
    if not (envelope.protocol_version == sync_protocol_version)
    then err (sync_client_protocol "unsupported sync protocol version")
    else if not (str_eq envelope.stream_id stream_id)
    then err (sync_client_protocol "sync response stream does not match")
    else ok tt

module _ {World Intent Operation Rejection : Type 0}
    (options : RunSyncSessionOptions World Intent Operation Rejection) where
  -- a round, and whether it was the last that is needed
  unfoldable pub run_round : Action World Bool
  unfolding assert_response_envelope response_has_more_entries
  run_round = do
    request ← options.prepare_sync_request (record {
      maximum_proposals = some (or_default options.maximum_proposals 64);
      maximum_entries = some (or_default options.maximum_entries 256);
    })
    envelope ← options.transport (record {
      protocol_version = sync_protocol_version;
      stream_id = options.stream_id;
      request = request;
    })
    lift (assert_response_envelope options.stream_id envelope)
    options.merge_sync_response envelope.response
    status ← options.refresh_after_merge
    lift (
        ok (
          not (response_has_more_entries envelope.response)
          && status.pending_proposal_count == 0
          && status.accepted_awaiting_confirmation_count == 0))

  -- the loop, with the rounds that are left
  unfoldable pub run_rounds : ℕ → Action World (Unit {0})
  unfolding run_round
  run_rounds zero = lift (
      err (
        sync_client
          "synchronization exceeded its rounds; the authority may be changing continuously"))
  run_rounds (suc rounds) = do
    finished ← run_round
    let more = run_rounds rounds
    if finished then lift (ok tt) else more

  unfoldable pub run_sync_session : Action World (Unit {0})
  unfolding run_rounds
  run_sync_session = run_rounds (or_default options.maximum_sync_rounds 100)

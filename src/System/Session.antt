-- ===== src/System/Session.antt =====
-- `runSyncSession` of src/client/sync-session.ts on a stored record of src/indexeddb/record.ts, with
-- the authority of src/server.ts at the other end of the transport, and nobody else between.
pub mod Round
pub mod Over
pub mod Drain
use sync_engine_v.Base.{ℕ, ◌+◌, ◌-◌, ◌*◌, ◌≤◌, ◌≡◌, ◌⊎◌, String, List, [], Option, some, length}
use sync_engine_v.Errors.{SyncError, Result, ok, err}
use sync_engine_v.Limits.{max_safe_integer, or_default}
use sync_engine_v.Protocol.{
  SyncRequest, SyncResponse, SyncRequestEnvelope, SyncResponseEnvelope, sync_protocol_version,
}
use sync_engine_v.Server.{LogServer, synchronize}
use sync_engine_v.Server.Consistent.{IsConsistent}
use sync_engine_v.Replica.{
  ReplicaInterpreter, MergeSyncResult, PrepareSyncRequestOptions, prepare_sync_request,
  merge_sync_response,
}
use sync_engine_v.Replica.Prepare.{pending_of}
use sync_engine_v.Replica.Local.{IsLocal}
use sync_engine_v.Replica.Converge.{IsReplica}
use sync_engine_v.IndexedDb.{
  IndexedDbReplicaRecord, IndexedDbReplicaStatus, status_from_record, append_unique_resolutions,
}
use sync_engine_v.Client.{RunSyncSessionOptions}
use sync_engine_v.System.Late.{IsShared}

-- The stored record, and the authority.
pub record SessionWorld (State Intent Operation Rejection : Type 0) : Type 0 where
  pub stored : IndexedDbReplicaRecord State Intent Operation Rejection
  pub server : LogServer State Intent Operation Rejection

-- The optional settings of a session.
pub record SessionSettings : Type 0 where
  pub maximum_entries : Option ℕ
  pub maximum_proposals : Option ℕ
  pub maximum_sync_rounds : Option ℕ

-- what a session asks its replica for
abbrev pub options_of : SessionSettings → PrepareSyncRequestOptions
options_of settings = record {
  maximum_proposals = some (or_default settings.maximum_proposals 64);
  maximum_entries = some (or_default settings.maximum_entries 256);
}

module _ {State Intent Operation Rejection : Type 0} where
  -- what the client gets of an answer of the authority
  abbrev pub reply :
      String
      → IndexedDbReplicaRecord State Intent Operation Rejection
      → LogServer State Intent Operation Rejection
      → Result (SyncResponse Operation Rejection)
      → Result (SyncResponseEnvelope Operation Rejection)
        × SessionWorld State Intent Operation Rejection
  reply stream_id stored server (err e) = (err e, record { stored = stored; server = server })
  reply stream_id stored server (ok response) = (
    ok (record {
      protocol_version = sync_protocol_version;
      stream_id = stream_id;
      response = response;
    }),
    record { stored = stored; server = server },
  )

  -- what is stored of a merge
  abbrev pub store_merged :
      SessionWorld State Intent Operation Rejection
      → Result (MergeSyncResult State Intent Operation Rejection)
      → Result (Unit {0}) × SessionWorld State Intent Operation Rejection
  store_merged world (err e) = (err e, world)
  store_merged world (ok merged) = (
    ok tt,
    record world {
      stored = record (world.stored) {
        replica = merged.state;
        resolutions = append_unique_resolutions world.stored.resolutions merged.newly_resolved;
      };
    },
  )

module _ {State Intent Operation : Type 0} (Rejection : Type 0)
    (interpreter : ReplicaInterpreter State Intent Operation) (stream_id : String)
    (settings : SessionSettings) where
  abbrev pub direct_session :
      RunSyncSessionOptions
        (SessionWorld State Intent Operation Rejection)
        Intent
        Operation
        Rejection
  direct_session = record {
    stream_id = stream_id;
    prepare_sync_request =
        λ options world. (prepare_sync_request world.stored.replica options, world);
    merge_sync_response = λ response world.
        store_merged world (merge_sync_response world.stored.replica response interpreter);
    transport = λ envelope world.
        reply envelope.stream_id world.stored (synchronize world.server envelope.request).1
          (synchronize world.server envelope.request).0;
    refresh_after_merge = λ world. (ok (status_from_record world.stored), world);
    maximum_entries = settings.maximum_entries;
    maximum_proposals = settings.maximum_proposals;
    maximum_sync_rounds = settings.maximum_sync_rounds;
  }

module _ {State Intent Operation Rejection : Type 0} where
  -- Two for each proposal that waits, and one for each entry that the replica has not confirmed.
  abbrev pub work_left : SessionWorld State Intent Operation Rejection → ℕ
  work_left world =
      2 * length (pending_of world.stored.replica.outbox)
      + (length world.server.log - world.stored.replica.confirmed_sequence)

  -- The authority refuses, with this error, what the replica prepares.
  abbrev pub IsRefused :
      SessionSettings → SessionWorld State Intent Operation Rejection → SyncError → Type 0
  IsRefused settings world e =
      (request : SyncRequest Intent) × (prepare_sync_request world.stored.replica
          (options_of settings)
        ≡ ok request)
      × ((synchronize world.server request).0 ≡ err e)

  -- Nothing is left in the outbox, and the replica has the whole log and the authority's state.
  pub record IsDrained (world : SessionWorld State Intent Operation Rejection) : Type 0 where
    pub outbox : world.stored.replica.outbox ≡ []
    pub confirmed : world.stored.replica.confirmed_sequence ≡ length world.server.log
    pub state : world.stored.replica.confirmed_state ≡ world.server.state

  -- A session returns and is drained, or it throws what the authority throws.
  abbrev pub Ends :
      SessionSettings → Result (Unit {0}) × SessionWorld State Intent Operation Rejection → Type 0
  Ends settings r =
      ((r.0 ≡ ok tt) × IsDrained r.1) ⊎ ((e : SyncError) × (r.0 ≡ err e) × IsRefused settings r.1 e)

  -- A consistent authority and a replica of its log, which interpret operations alike, and numbers
  -- left for all that waits.
  pub record IsSession (initial : State) (interpreter : ReplicaInterpreter State Intent Operation)
      (world : SessionWorld State Intent Operation Rejection) : Type 0 where
    pub consistent : IsConsistent initial world.server
    pub shared : IsShared world.server interpreter
    pub replica : IsReplica interpreter initial world.server.log world.stored.replica
    pub local : IsLocal world.stored.replica
    pub room :
        length world.server.log + length (pending_of world.stored.replica.outbox) ≤ max_safe_integer

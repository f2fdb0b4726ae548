-- ===== src/IndexedDb/Merged/Accepts.antt =====
-- A store of src/indexeddb that merges a response of the authority.
use sync_engine_v.Base.{◌≤◌, max, ◌≡◌, refl, true, List, some, length}
use sync_engine_v.Base.Dict.{lookup, put}
use sync_engine_v.Errors.{ok}
use sync_engine_v.Limits.{max_safe_integer}
use sync_engine_v.Protocol.{CommittedOperation, SyncResponse}
use sync_engine_v.Invariants.Log.Valid.{IsPage}
use sync_engine_v.Replica.Follow.{IsCanonical}
use sync_engine_v.Replica.Converge.{IsReplica, IsAuthentic, merge_sync_response-IsReplica}
use sync_engine_v.IndexedDb.{IndexedDbReplicaRecord, append_unique_resolutions, status_from_record}
use sync_engine_v.IndexedDb.Sound.{IsSound, assert_replica_record-eq-ok}
use sync_engine_v.IndexedDb.Store.{
  Database, IndexedDbReplicaStore, IndexedDbMergeResult, read_stored, attempt, update_record,
  merge_sync_response,
}
use sync_engine_v.IndexedDb.Merged.Numbered.{IsNumbered, merge-IsNumbered, merged-IsSound}

pub IsSound-read_stored :
    {State Intent Operation Rejection : Type 0}
    (store : IndexedDbReplicaStore State Intent Operation Rejection)
    (database : Database State Intent Operation Rejection)
    (stored : IndexedDbReplicaRecord State Intent Operation Rejection)
    → lookup store.stream_id database ≡ some stored
    → IsSound store.stream_id stored
    → read_stored store database ≡ ok stored
unfolding read_stored
IsSound-read_stored store database stored there sound =
    rw
      (
        there,
        read_stored,
        (assert_replica_record-eq-ok store.payloads store.stream_id stored).1 sound,
      )
      refl

-- A stored record that its check accepts, of a replica of the log.
pub record IsStoredReplica {State Intent Operation Rejection : Type 0}
    (store : IndexedDbReplicaStore State Intent Operation Rejection) (initial : State)
    (log : List (CommittedOperation Operation))
    (stored : IndexedDbReplicaRecord State Intent Operation Rejection) : Type 0 where
  pub sound : IsSound store.stream_id stored
  pub replica : IsReplica store.interpreter initial log stored.replica
  pub numbered : IsNumbered log stored.replica

module _ {State Intent Operation Rejection : Type 0}
    (store : IndexedDbReplicaStore State Intent Operation Rejection)
    (equal_refl : (o : Operation) → store.interpreter.are_committed_operations_equal o o ≡ true)
    (initial final : State) (log : List (CommittedOperation Operation))
    (canonical : IsCanonical store.interpreter.apply_committed initial final log)
    (page : IsPage 0 log) (safe : length log ≤ max_safe_integer) where
  -- A store never refuses what the authority answers. Let the log be canonical, with usable entries
  -- and of a safe length, equality of operations reflexive, and the stored record sound, of a replica
  -- of the log whose client's numbers the log has as the client has given them. Then the store merges
  -- an authentic response to a request from within its confirmed prefix without an error, and puts a
  -- record of which all this holds again and which has confirmed what the response goes through, or
  -- more if it had before.
  pub merge_sync_response-IsStoredReplica :
      (database : Database State Intent Operation Rejection)
      (stored : IndexedDbReplicaRecord State Intent Operation Rejection)
      (response : SyncResponse Operation Rejection)
      → lookup store.stream_id database ≡ some stored
      → IsStoredReplica store initial log stored
      → IsAuthentic log stored.replica.outbox response
      → response.requested_base_sequence ≤ stored.replica.confirmed_sequence
      → (next : IndexedDbReplicaRecord State Intent Operation Rejection)
        × (result : IndexedDbMergeResult State Intent Operation Rejection) × (merge_sync_response
              store database response
            ≡ (ok result, put store.stream_id next database))
        × IsStoredReplica store initial log next
        × (next.replica.confirmed_sequence
            ≡ max stored.replica.confirmed_sequence response.through_sequence)
  unfolding merge_sync_response update_record attempt
  merge_sync_response-IsStoredReplica database stored response there s a reach =
      let (result, merges, replica, confirmed) =
        merge_sync_response-IsReplica store.interpreter equal_refl initial final log canonical safe
          stored.replica response s.replica a reach in
      let next : IndexedDbReplicaRecord State Intent Operation Rejection = record stored {
        replica = result.state;
        resolutions = append_unique_resolutions stored.resolutions result.newly_resolved;
      } in
      let next_sound =
        merged-IsSound store.interpreter initial log page safe store.stream_id stored s.sound
          s.numbered response result a.valid merges replica in
      (
        next,
        record { merged = result; status = status_from_record next },
        rw
            (
              IsSound-read_stored store database stored there s.sound,
              merges,
              (assert_replica_record-eq-ok store.payloads store.stream_id next).1 next_sound,
              ← s.sound.stream,
            )
            refl,
        record {
          sound = next_sound;
          replica = replica;
          numbered =
              merge-IsNumbered store.interpreter stored.replica response merges log s.numbered;
        },
        confirmed,
      )

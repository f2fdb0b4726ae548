-- ===== src/System/Late.antt =====
-- A request of a replica (src/replica.ts) to the authority (src/server.ts), and the response that
-- comes back at some time: the network may delay, repeat and reorder responses.
use sync_engine_v.Base.{◌≤◌, max, ◌≡◌, ap, subst, true, List, length}
use sync_engine_v.Errors.{ok}
use sync_engine_v.Limits.{max_safe_integer}
use sync_engine_v.Protocol.{SyncRequest, SyncResponse}
use sync_engine_v.Server.{LogServer, synchronize}
use sync_engine_v.Server.Sync.{serve, serve-Extends, synchronize-Synchronizes}
use sync_engine_v.Server.Consistent.{IsConsistent}
use sync_engine_v.Server.Preserve.{synchronize-IsConsistent, serve-IsConsistent}
use sync_engine_v.Replica.{ReplicaState, ReplicaInterpreter, MergeSyncResult, merge_sync_response}
use sync_engine_v.Replica.Follow.{IsCanonical}
use sync_engine_v.Replica.Converge.{IsReplica, merge_sync_response-IsReplica}
use sync_engine_v.System.Authority.{IsConsistent-IsCanonical, Synchronizes-IsAuthentic}

module _ {State Intent Operation Rejection : Type 0} where
  -- The replica applies canonical operations as the authority does, and finds an operation equal to
  -- itself.
  pub record IsShared (server : LogServer State Intent Operation Rejection)
      (interpreter : ReplicaInterpreter State Intent Operation) : Type 0 where
    pub apply : server.interpreter.apply ≡ interpreter.apply_committed
    pub equal_refl : (o : Operation) → interpreter.are_committed_operations_equal o o ≡ true

  -- A response of a consistent authority may arrive at any time, after any further requests were
  -- served. A replica of the authority's log merges it without an error if it has confirmed the
  -- request's base, applies operations as the authority does and finds each equal to itself, and the
  -- log's length is a safe integer. It is then still a replica of that log, and has confirmed all that the response goes
  -- through, or more if it had before.
  pub synchronize-merge_sync_response :
      (initial : State) (server : LogServer State Intent Operation Rejection)
      (request : SyncRequest Intent) (response : SyncResponse Operation Rejection)
      (requests : List (SyncRequest Intent))
      (interpreter : ReplicaInterpreter State Intent Operation)
      (state : ReplicaState State Intent Operation)
      → IsConsistent initial server
      → (synchronize server request).0 ≡ ok response
      → let later = serve (synchronize server request).1 requests in
        IsShared later interpreter
        → length later.log ≤ max_safe_integer
        → IsReplica interpreter initial later.log state
        → request.base_sequence ≤ state.confirmed_sequence
        → (result : MergeSyncResult State Intent Operation Rejection) × (merge_sync_response state
              response interpreter
            ≡ ok result)
          × IsReplica interpreter initial later.log result.state
          × (result.state.confirmed_sequence
              ≡ max state.confirmed_sequence response.through_sequence)
  synchronize-merge_sync_response initial server request response requests interpreter state c h
        shared safe r reach =
      let s = synchronize-Synchronizes server request c.indexed h in
      let last = (synchronize server request).1 in
      let c' = synchronize-IsConsistent initial server request c in
      let later = serve last requests in
      let c'' = serve-IsConsistent initial last requests c' in
      let canonical =
        subst (λ a. IsCanonical a initial later.state later.log) shared.apply
          (IsConsistent-IsCanonical initial later c'') in
      let authentic =
        Synchronizes-IsAuthentic initial server last later request response state.confirmed_sequence
          state.outbox s c'' (serve-Extends last requests c'.indexed) r.sound in
      let base : request.base_sequence ≡ response.requested_base_sequence =
        ap (λ (a : SyncResponse Operation Rejection). a.requested_base_sequence) s.page in
      merge_sync_response-IsReplica interpreter shared.equal_refl initial later.state later.log
        canonical safe state response r authentic
        (subst (λ n. n ≤ state.confirmed_sequence) base reach)

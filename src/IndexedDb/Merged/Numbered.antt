-- ===== src/IndexedDb/Merged/Numbered.antt =====
-- The record of src/indexeddb that a merge leaves, of a replica of the authority's log.
use sync_engine_v.Base.{
  ◌+◌, ◌-◌, ◌≤◌, String, ◌≡◌, subst, List, [], none, arith, All, All-map, All-get_elem?,
  All-of-get_elem?, length,
}
use sync_engine_v.Errors.{ok, ok-injective, >>=-eq-ok, >>-eq-ok}
use sync_engine_v.Limits.{max_safe_integer}
use sync_engine_v.Protocol.{CommittedOperation, SyncResponse}
use sync_engine_v.Invariants.Log.Valid.{IsPage}
use sync_engine_v.Invariants.Log.Piece.{IsPage-within}
use sync_engine_v.Invariants.Response.{assert_sync_response}
use sync_engine_v.Invariants.Response.Valid.{IsResponse}
use sync_engine_v.Replica.{
  ReplicaState, ReplicaInterpreter, Learned, Progress, MergeSyncResult, merge_decisions,
  merge_entries, reconcile, assert_retained_confirmed_log,
  merge_sync_response as reduce_merge_sync_response,
}
use sync_engine_v.Replica.Prepare.{proposals_of}
use sync_engine_v.Replica.Canonical.{IsOwn}
use sync_engine_v.Replica.Converge.{IsReplica}
use sync_engine_v.Replica.Shrink.{
  IsPart-trans, IsPart-All, IsPart-proposals_of, merge_decisions-IsPart,
}
use sync_engine_v.Replica.Shrink.Response.{merge_sync_response-Merges, merge_sync_response-IsLocal}
use sync_engine_v.IndexedDb.{IndexedDbReplicaRecord, append_unique_resolutions}
use sync_engine_v.IndexedDb.Valid.{IsEarlier, note_all, IsUsable}
use sync_engine_v.IndexedDb.Sound.{IsSound, unseen}
use sync_engine_v.IndexedDb.Merged.{IsBatch-AllStored}
use sync_engine_v.IndexedDb.Merged.Reports.{merge_decisions-Reports, merge_entries-Tells}
use sync_engine_v.IndexedDb.Merged.Resolved.{append_unique_resolutions-AllUsable}
use sync_engine_v.IndexedDb.Merged.Sound.{
  IsSound-IsLocal, IsResponse-IsUsable, Owned, IsReceipt-IsAhead, outbox-Clear, IsBatch-positive,
}

-- The log has the numbers of the replica's client as the client has given them: before its next number,
-- and those of the outbox to the operations of the outbox.
pub record IsNumbered {State Intent Operation : Type 0} (log : List (CommittedOperation Operation))
    (state : ReplicaState State Intent Operation) : Type 0 where
  pub earlier : All (IsEarlier state.client_id state.next_client_sequence) log
  pub owned : All (Owned log) (proposals_of state.outbox)

module _ {State Intent Operation Rejection : Type 0}
    (interpreter : ReplicaInterpreter State Intent Operation)
    (state : ReplicaState State Intent Operation) (response : SyncResponse Operation Rejection)
    {result : MergeSyncResult State Intent Operation Rejection}
    (merges : reduce_merge_sync_response state response interpreter ≡ ok result) where
  -- what a merge reports is usable
  newly_resolved-IsUsable : IsResponse response none → All IsUsable result.newly_resolved
  unfolding reduce_merge_sync_response
  newly_resolved-IsUsable valid =
      let (_, h₁) = (>>-eq-ok (assert_sync_response response none) _).0 merges in
      let (base, retained, h₂) = >>=-eq-ok (assert_retained_confirmed_log state) _ h₁ in
      let (_, h₃) = (>>-eq-ok _ _).0 h₂ in
      let start : Learned Intent Operation Rejection = record {
        outbox = state.outbox;
        newly_resolved = [];
      } in
      let equal = interpreter.are_committed_operations_equal in
      let (learned, learns, h₄) = >>=-eq-ok (merge_decisions equal start response.decisions) _ h₃ in
      let progress : Progress State Intent Operation Rejection = record {
        confirmed_sequence = state.confirmed_sequence;
        confirmed_state = state.confirmed_state;
        confirmed_log = state.confirmed_log;
        learned = learned;
      } in
      let (merged, entered, h₅) =
        >>=-eq-ok (merge_entries interpreter base progress response.entries) _ h₄ in
      let (outbox, reconciled, h₆) =
        >>=-eq-ok
          (reconcile interpreter base merged.confirmed_sequence merged.confirmed_log
            merged.learned.outbox)
          _ h₅ in
      subst
        (λ (r : MergeSyncResult State Intent Operation Rejection). All IsUsable r.newly_resolved)
        (ok-injective h₆)
        (merge_entries-Tells interpreter base progress merged response.entries valid.page.committed
          (merge_decisions-Reports equal start learned response.decisions
            (IsResponse-IsUsable response valid) tt learns)
          entered)

  pub merge-IsNumbered :
      (log : List (CommittedOperation Operation))
      → IsNumbered log state
      → IsNumbered log result.state
  merge-IsNumbered log numbered =
      let m = merge_sync_response-Merges state response interpreter merges in
      let part =
        IsPart-trans
          (merge_decisions-IsPart interpreter.are_committed_operations_equal _ m.learned
            response.decisions m.learns)
          (IsPart-proposals_of m.part) in
      record {
        earlier = rw (m.client, m.number) numbered.earlier;
        owned = IsPart-All (Owned log) part numbered.owned;
      }

module _ {State Intent Operation Rejection : Type 0}
    (interpreter : ReplicaInterpreter State Intent Operation) (initial : State)
    (log : List (CommittedOperation Operation)) (page : IsPage 0 log)
    (safe : length log ≤ max_safe_integer) (stream_id : String)
    (stored : IndexedDbReplicaRecord State Intent Operation Rejection)
    (sound : IsSound stream_id stored) (numbered : IsNumbered log stored.replica) where
  -- a replica of the log that comes from a sound record by a merge
  pub merged-IsSound :
      (response : SyncResponse Operation Rejection)
      (result : MergeSyncResult State Intent Operation Rejection)
      → IsResponse response none
      → reduce_merge_sync_response stored.replica response interpreter ≡ ok result
      → IsReplica interpreter initial log result.state
      → IsSound stream_id (record stored {
        replica = result.state;
        resolutions = append_unique_resolutions stored.resolutions result.newly_resolved;
      })
  merged-IsSound response result valid merges r =
      let m = merge_sync_response-Merges stored.replica response interpreter merges in
      let local =
        merge_sync_response-IsLocal stored.replica response interpreter
          (IsSound-IsLocal stream_id stored sound) merges in
      let next = result.state in
      let n = merge-IsNumbered interpreter stored.replica response merges log numbered in
      let f = r.follows in
      let behind : r.base ≡ next.confirmed_sequence - length next.confirmed_log =
        omega (arith, f.covers) in
      record {
        version = sound.version;
        stream = sound.stream;
        client = rw m.client sound.client;
        next = rw m.number sound.next;
        confirmed = omega (arith, f.within, safe);
        retained = omega (arith, f.covers);
        page =
            subst (λ b. IsPage b next.confirmed_log) behind
              (IsPage-within r.base next.confirmed_log log page f.agrees);
        earlier =
            All-of-get_elem? (IsEarlier next.client_id next.next_client_sequence) next.confirmed_log
              λ i c there.
                All-get_elem? (IsEarlier next.client_id next.next_client_sequence) log (r.base + i)
                  n.earlier (f.agrees i c there);
        outbox =
            IsBatch-AllStored next.client_id next.next_client_sequence next.confirmed_sequence
              (note_all unseen next.confirmed_log) 0 next.outbox local.batch local.own
              (IsBatch-positive (proposals_of next.outbox) local.batch)
              (outbox-Clear log r.base next.confirmed_sequence next.confirmed_log f.covers f.agrees
                next.outbox r.sound.own n.owned)
              (All-map (IsOwn log next.confirmed_sequence) next.outbox
                (λ e own.
                  IsReceipt-IsAhead log next.confirmed_sequence e e.status safe own own.receipt)
                r.sound.own);
        resolutions =
            append_unique_resolutions-AllUsable stored.resolutions result.newly_resolved
              sound.resolutions
              (newly_resolved-IsUsable interpreter stored.replica response merges valid);
      }

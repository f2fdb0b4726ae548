-- ===== src/Client/Create/Stored.antt =====
-- What a store of src/indexeddb has and shows after it has enqueued an operation.
use sync_engine_v.Base.{◌+◌, ◌≡◌, refl, sym, ap, subst, ◌∙◌, List, [], ◌∷◌, ◌++◌, some}
use sync_engine_v.Base.Dict.{lookup, put, lookup-put_self}
use sync_engine_v.Errors.{ok, ◌>>=◌}
use sync_engine_v.Replica.{
  ReplicaState, EnqueueOperationInput, enqueue_operation as reduce_enqueue_operation,
  materialize_optimistic_state,
}
use sync_engine_v.Replica.Enqueue.{entry_for, enqueue_operation-IsEnqueued}
use sync_engine_v.Replica.View.{enqueue_operation-materialize_optimistic_state}
use sync_engine_v.IndexedDb.{IndexedDbReplicaRecord, OutboxCounts, count_outbox, status_from_record}
use sync_engine_v.IndexedDb.Counted.{count_outbox-append}
use sync_engine_v.IndexedDb.Sound.{IsSound}
use sync_engine_v.IndexedDb.Changed.{enqueued-IsSound}
use sync_engine_v.IndexedDb.Local.{update_record-local}
use sync_engine_v.IndexedDb.Merged.Accepts.{IsSound-read_stored}
use sync_engine_v.IndexedDb.Store.{
  Database, IndexedDbReplicaStore, last, enqueued, read_view_snapshot, enqueue_operation,
}

pub last-append {ℓ} : {A : Type ℓ} (xs : List A) (x : A) → last (xs ++ x ∷ []) ≡ some x
last-append [] x = refl
last-append (y ∷ ys) x = rw (last-append ys x) refl

module _ {State Intent Operation Rejection : Type 0}
    (store : IndexedDbReplicaStore State Intent Operation Rejection)
    (database : Database State Intent Operation Rejection)
    (stored : IndexedDbReplicaRecord State Intent Operation Rejection)
    (there : lookup store.stream_id database ≡ some stored) (sound : IsSound store.stream_id stored)
    (input : EnqueueOperationInput Intent) {next : ReplicaState State Intent Operation}
    (takes : reduce_enqueue_operation stored.replica input ≡ ok next) where
  abbrev pub after : IndexedDbReplicaRecord State Intent Operation Rejection
  after = record stored { replica = next }

  -- the store puts the record with the new proposal, and gives the proposal
  pub enqueue_operation-puts :
      enqueue_operation store database input
      ≡ (ok (entry_for stored.replica input).proposal, put store.stream_id after database)
  enqueue_operation-puts =
      let q = enqueue_operation-IsEnqueued stored.replica input takes in
      let outbox : stored.replica.outbox ++ entry_for stored.replica input ∷ [] ≡ next.outbox =
        ap (λ (r : ReplicaState State Intent Operation). r.outbox) q.next_state in
      let end : last next.outbox ≡ some (entry_for stored.replica input) =
        ap last (sym outbox) ∙ last-append stored.replica.outbox (entry_for stored.replica input) in
      let gives : enqueued store input stored
          ≡ ok (after, (entry_for {Operation = Operation} stored.replica input).proposal) =
        rw (takes, ◌>>=◌, end) refl in
      (update_record-local store database input 0 "" []).0
      ∙ rw (IsSound-read_stored store database stored there sound, gives, ← sound.stream) refl

  -- one proposal more waits
  pub counts_one_more :
      (status_from_record after).pending_proposal_count
      ≡ (status_from_record stored).pending_proposal_count + 1
  unfolding status_from_record
  counts_one_more =
      let q = enqueue_operation-IsEnqueued stored.replica input takes in
      let none_yet : OutboxCounts = record { pending_count = 0; accepted_count = 0 } in
      subst
        (λ (r : ReplicaState State Intent Operation).
          (count_outbox none_yet r.outbox).pending_count
          ≡ (count_outbox none_yet stored.replica.outbox).pending_count + 1)
        q.next_state
        (count_outbox-append none_yet stored.replica.outbox
          (entry_for {Operation = Operation} stored.replica input).proposal)

  -- what a view then reads
  pub read_view_snapshot-after :
      {rows shown : State}
      → materialize_optimistic_state stored.replica store.interpreter ≡ ok rows
      → store.interpreter.apply_optimistic rows input.intent ≡ ok shown
      → read_view_snapshot store (put store.stream_id after database)
        ≡ ok (record {
          client_id = next.client_id;
          optimistic_state = shown;
          status = status_from_record after;
        })
  unfolding read_view_snapshot
  read_view_snapshot-after shows applied =
      let view =
        enqueue_operation-materialize_optimistic_state store.interpreter stored.replica input
          takes in
      rw
        (
          IsSound-read_stored store (put store.stream_id after database) after
              (lookup-put_self store.stream_id after database)
              (enqueued-IsSound store.stream_id stored sound input takes),
          view,
          shows,
          applied,
        )
        refl

-- ===== src/IndexedDb/Changed.antt =====
-- What a replica changes by itself keeps a record of src/indexeddb sound.
use sync_engine_v.Base.{
  ℕ, String, ◌≡◌, refl, subst, List, [], arith, All-map, All-drop, length-drop, drop, contains-nil,
}
use sync_engine_v.Base.Dict.{lookup}
use sync_engine_v.Errors.{ok}
use sync_engine_v.Invariants.Identity.{IsIdentity}
use sync_engine_v.Replica.{
  ReplicaState, EnqueueOperationInput, enqueue_operation as reduce_enqueue_operation,
  delete_committed_log_prefix as reduce_delete_committed_log_prefix,
}
use sync_engine_v.Replica.Enqueue.{entry_for, enqueue_operation-IsEnqueued}
use sync_engine_v.Replica.Advance.{delete_committed_log_prefix-eq-ok}
use sync_engine_v.IndexedDb.{IndexedDbReplicaRecord}
use sync_engine_v.IndexedDb.Valid.{IsEarlier, note_all}
use sync_engine_v.IndexedDb.Sound.{IsSound, unseen}
use sync_engine_v.IndexedDb.Store.{without}
use sync_engine_v.IndexedDb.Shrunk.{
  IsPage-drop, Covers-refl, Covers-drop, AllStored-Covers, AllUsable-without,
}
use sync_engine_v.IndexedDb.Grown.{IsNew, IsNew-note_all, AllStored-append}

module _ {State Intent Operation Rejection : Type 0} (stream_id : String)
    (stored : IndexedDbReplicaRecord State Intent Operation Rejection)
    (sound : IsSound stream_id stored) where
  -- A record with a new operation is sound.
  pub enqueued-IsSound :
      (input : EnqueueOperationInput Intent) {next : ReplicaState State Intent Operation}
      → reduce_enqueue_operation stored.replica input ≡ ok next
      → IsSound stream_id (record stored { replica = next })
  enqueued-IsSound input h =
      let q = enqueue_operation-IsEnqueued stored.replica input h in
      let r = stored.replica in
      let valid : IsIdentity (entry_for {Operation = Operation} r input).proposal.submission =
        record {
          has_operation_id = q.has_operation_id;
          has_client_id = q.has_client_id;
          sequence = record { positive = q.positive; safe = omega (arith, q.safe) };
          has_intent_hash = q.has_intent_hash;
        } in
      let new : IsNew r.client_id r.next_client_sequence input.operation_id unseen = record {
        fresh = contains-nil input.operation_id;
        free = unfold lookup in refl;
      } in
      subst
        (λ (next : ReplicaState State Intent Operation).
          IsSound stream_id (record stored { replica = next }))
        q.next_state
        (record {
          version = sound.version;
          stream = sound.stream;
          client = sound.client;
          next = record { positive = omega arith; safe = q.safe };
          confirmed = sound.confirmed;
          retained = sound.retained;
          page = sound.page;
          earlier =
              All-map (IsEarlier r.client_id r.next_client_sequence) r.confirmed_log
                (λ e h. record { before = λ same. omega (arith, h.before same) }) sound.earlier;
          outbox =
              AllStored-append r.client_id r.next_client_sequence r.confirmed_sequence
                input.operation_id input.intent_hash input.intent
                (record { seen = note_all unseen r.confirmed_log; previous_client_sequence = 0 })
                r.outbox q.fresh (omega (arith, q.positive)) valid
                (IsNew-note_all r.client_id r.next_client_sequence input.operation_id unseen
                  r.confirmed_log q.unconfirmed sound.earlier new)
                sound.outbox;
          resolutions = sound.resolutions;
        })

  -- A record with a shorter log is sound.
  pub shortened-IsSound :
      (through : ℕ) {next : ReplicaState State Intent Operation}
      → reduce_delete_committed_log_prefix stored.replica through ≡ ok next
      → IsSound stream_id (record stored { replica = next })
  shortened-IsSound through h =
      let (n, same) = delete_committed_log_prefix-eq-ok stored.replica through h in
      let r = stored.replica in
      subst
        (λ (next : ReplicaState State Intent Operation).
          IsSound stream_id (record stored { replica = next }))
        same
        (record {
          version = sound.version;
          stream = sound.stream;
          client = sound.client;
          next = sound.next;
          confirmed = sound.confirmed;
          retained = omega (arith, sound.retained, length-drop n r.confirmed_log);
          page = IsPage-drop n r.confirmed_sequence r.confirmed_log sound.retained sound.page;
          earlier =
              All-drop (IsEarlier r.client_id r.next_client_sequence) n r.confirmed_log
                sound.earlier;
          outbox =
              AllStored-Covers r.client_id r.next_client_sequence r.confirmed_sequence 0
                (note_all unseen r.confirmed_log) (note_all unseen (drop n r.confirmed_log))
                r.outbox (Covers-drop n unseen unseen r.confirmed_log (Covers-refl unseen))
                sound.outbox;
          resolutions = sound.resolutions;
        })

  pub acknowledging-IsSound :
      (ids : List String)
      → IsSound stream_id (record stored { resolutions = without ids stored.resolutions })
  acknowledging-IsSound ids = record {
    version = sound.version;
    stream = sound.stream;
    client = sound.client;
    next = sound.next;
    confirmed = sound.confirmed;
    retained = sound.retained;
    page = sound.page;
    earlier = sound.earlier;
    outbox = sound.outbox;
    resolutions = AllUsable-without ids [] [] stored.resolutions (λ id h. h) sound.resolutions;
  }

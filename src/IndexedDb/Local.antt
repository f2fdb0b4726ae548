-- ===== src/IndexedDb/Local.antt =====
-- What a replica changes by itself, in src/indexeddb/store.ts: a new operation, compaction, and what the
-- application acknowledges.
use sync_engine_v.Base.{ℕ, String, ◌≡◌, refl, sym, ap, subst, inl, inr, List, ◌∷◌, Option-cases}
use sync_engine_v.Errors.{Result, ok, Result-cases, >>=-eq-ok, ◌>>=◌, ok-injective, ok-ne-err}
use sync_engine_v.Protocol.{ProposedOperation}
use sync_engine_v.Replica.{
  EnqueueOperationInput, enqueue_operation as reduce_enqueue_operation,
  delete_committed_log_prefix as reduce_delete_committed_log_prefix,
}
use sync_engine_v.IndexedDb.{IndexedDbReplicaRecord}
use sync_engine_v.IndexedDb.Sound.{IsSound, assert_replica_record-eq-ok}
use sync_engine_v.IndexedDb.Store.{
  Database, IndexedDbReplicaStore, enqueued, shortened, acknowledging, read_stored, attempt,
  update_record, last, settle, enqueue_operation, delete_committed_log_prefix,
  acknowledge_resolutions,
}
use sync_engine_v.IndexedDb.Durable.{read_stored-eq-ok}
use sync_engine_v.IndexedDb.Changed.{enqueued-IsSound, shortened-IsSound, acknowledging-IsSound}

module _ {State Intent Operation Rejection : Type 0}
    (store : IndexedDbReplicaStore State Intent Operation Rejection)
    (database : Database State Intent Operation Rejection) where
  -- the second check of an update that keeps records sound
  attempt-checked :
      {A : Type 0}
      (update : IndexedDbReplicaRecord State Intent Operation Rejection
        → Result (IndexedDbReplicaRecord State Intent Operation Rejection × A))
      → ((stored next : IndexedDbReplicaRecord State Intent Operation Rejection) (a : A)
          → IsSound store.stream_id stored
          → update stored ≡ ok (next, a)
          → IsSound store.stream_id next)
      → attempt store update database ≡ (read_stored store database >>= update)
  unfolding attempt
  attempt-checked update keeps = elim (Result-cases (read_stored store database)) [
    | inl (e, failed) ↦ rw failed refl
    | inr (stored, reads) ↦ rw reads (elim (Result-cases (update stored)) [
      | inl (e, failed) ↦ rw failed refl
      | inr ((next, a), updates) ↦
          let sound = keeps stored next a (read_stored-eq-ok store database reads).1 updates in
          rw (updates, (assert_replica_record-eq-ok store.payloads store.stream_id next).1 sound)
            refl
    ])
  ]

  enqueued-keeps :
      (input : EnqueueOperationInput Intent)
      (stored next : IndexedDbReplicaRecord State Intent Operation Rejection)
      (p : ProposedOperation Intent)
      → IsSound store.stream_id stored
      → enqueued store input stored ≡ ok (next, p)
      → IsSound store.stream_id next
  enqueued-keeps input stored next p sound h =
      let (replica, enqueues, h₁) = >>=-eq-ok (reduce_enqueue_operation stored.replica input) _ h in
      elim (Option-cases (last replica.outbox)) [
        | inl empty ↦ absurd (ok-ne-err (sym (rw empty at h₁)))
        | inr (entry, there) ↦
            subst
              (λ (r : IndexedDbReplicaRecord State Intent Operation Rejection
                  × ProposedOperation Intent).
                IsSound store.stream_id r.0)
              (ok-injective (rw there at h₁))
              (enqueued-IsSound store.stream_id stored sound input enqueues)
      ]

  shortened-keeps :
      (through : ℕ) (stored next : IndexedDbReplicaRecord State Intent Operation Rejection) (n : ℕ)
      → IsSound store.stream_id stored
      → shortened store through stored ≡ ok (next, n)
      → IsSound store.stream_id next
  shortened-keeps through stored next n sound h =
      let (replica, deletes, h₁) =
        >>=-eq-ok (reduce_delete_committed_log_prefix stored.replica through) _ h in
      subst
        (λ (r : IndexedDbReplicaRecord State Intent Operation Rejection × ℕ).
          IsSound store.stream_id r.0)
        (ok-injective h₁) (shortened-IsSound store.stream_id stored sound through deletes)

  acknowledging-keeps :
      (ids : List String) (stored next : IndexedDbReplicaRecord State Intent Operation Rejection)
      (n : ℕ)
      → IsSound store.stream_id stored
      → acknowledging store ids stored ≡ ok (next, n)
      → IsSound store.stream_id next
  acknowledging-keeps ids stored next n sound h =
      subst
        (λ (r : IndexedDbReplicaRecord State Intent Operation Rejection × ℕ).
          IsSound store.stream_id r.0)
        (ok-injective h) (acknowledging-IsSound store.stream_id stored sound ids)

  -- The check before a record is put never refuses what a replica changes by itself: a new operation,
  -- compaction and the acknowledgement of some outcomes come to what their function on the stored
  -- record comes to, whether the function returns or throws.
  pub update_record-local :
      (input : EnqueueOperationInput Intent) (through : ℕ) (id : String) (ids : List String)
      → (enqueue_operation store database input
          ≡ settle store database (read_stored store database >>= enqueued store input))
        × (delete_committed_log_prefix store database through
            ≡ settle store database (read_stored store database >>= shortened store through))
        × (acknowledge_resolutions store database (id ∷ ids)
            ≡ settle store database (read_stored store database >>= acknowledging store (id ∷ ids)))
  unfolding enqueue_operation delete_committed_log_prefix acknowledge_resolutions update_record
  update_record-local input through id ids = (
    ap (settle store database) (attempt-checked (enqueued store input) (enqueued-keeps input)),
    ap (settle store database)
        (attempt-checked (shortened store through) (shortened-keeps through)),
    ap (settle store database)
        (attempt-checked (acknowledging store (id ∷ ids)) (acknowledging-keeps (id ∷ ids))),
  )

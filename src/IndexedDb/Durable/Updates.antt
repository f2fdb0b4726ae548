-- ===== src/IndexedDb/Durable/Updates.antt =====
-- What each call of src/indexeddb/store.ts does to the numbers of the replica it stores.
use sync_engine_v.Base.{ℕ, String, ◌≡◌, sym, subst, inl, inr, List, Option-cases}
use sync_engine_v.Errors.{ok, ok-injective, ok-ne-err, >>=-eq-ok}
use sync_engine_v.Protocol.{ProposedOperation, SyncResponse}
use sync_engine_v.Replica.{
  EnqueueOperationInput, enqueue_operation as reduce_enqueue_operation,
  merge_sync_response as reduce_merge_sync_response,
  delete_committed_log_prefix as reduce_delete_committed_log_prefix,
}
use sync_engine_v.Replica.Advance.{
  Advances, Advances-refl, enqueue_operation-Advances, delete_committed_log_prefix-Advances,
  merge_sync_response-Advances,
}
use sync_engine_v.IndexedDb.{IndexedDbReplicaRecord}
use sync_engine_v.IndexedDb.Store.{
  IndexedDbReplicaStore, IndexedDbMergeResult, enqueued, merged_with, shortened, acknowledging,
  last,
}

module _ {State Intent Operation Rejection : Type 0}
    (store : IndexedDbReplicaStore State Intent Operation Rejection) where
  pub enqueued-Advances :
      (input : EnqueueOperationInput Intent)
      (stored next : IndexedDbReplicaRecord State Intent Operation Rejection)
      (p : ProposedOperation Intent)
      → enqueued store input stored ≡ ok (next, p)
      → Advances stored.replica next.replica
  enqueued-Advances input stored next p h =
      let (replica, enqueues, h₁) = >>=-eq-ok (reduce_enqueue_operation stored.replica input) _ h in
      elim (Option-cases (last replica.outbox)) [
        | inl empty ↦ absurd (ok-ne-err (sym (rw empty at h₁)))
        | inr (entry, there) ↦
            subst
              (λ (r : IndexedDbReplicaRecord State Intent Operation Rejection
                  × ProposedOperation Intent).
                Advances stored.replica r.0.replica)
              (ok-injective (rw there at h₁))
              (enqueue_operation-Advances stored.replica input enqueues)
      ]

  pub merged_with-Advances :
      (response : SyncResponse Operation Rejection)
      (stored next : IndexedDbReplicaRecord State Intent Operation Rejection)
      (m : IndexedDbMergeResult State Intent Operation Rejection)
      → merged_with store response stored ≡ ok (next, m)
      → Advances stored.replica next.replica
  merged_with-Advances response stored next m h =
      let (merged, merges, h₁) =
        >>=-eq-ok (reduce_merge_sync_response stored.replica response store.interpreter) _ h in
      subst
        (λ (r : IndexedDbReplicaRecord State Intent Operation Rejection
            × IndexedDbMergeResult State Intent Operation Rejection).
          Advances stored.replica r.0.replica)
        (ok-injective h₁)
        (merge_sync_response-Advances stored.replica response store.interpreter merges)

  pub shortened-Advances :
      (through : ℕ) (stored next : IndexedDbReplicaRecord State Intent Operation Rejection) (n : ℕ)
      → shortened store through stored ≡ ok (next, n)
      → Advances stored.replica next.replica
  shortened-Advances through stored next n h =
      let (replica, deletes, h₁) =
        >>=-eq-ok (reduce_delete_committed_log_prefix stored.replica through) _ h in
      subst
        (λ (r : IndexedDbReplicaRecord State Intent Operation Rejection × ℕ).
          Advances stored.replica r.0.replica)
        (ok-injective h₁) (delete_committed_log_prefix-Advances stored.replica through deletes)

  pub acknowledging-Advances :
      (ids : List String) (stored next : IndexedDbReplicaRecord State Intent Operation Rejection)
      (n : ℕ)
      → acknowledging store ids stored ≡ ok (next, n)
      → Advances stored.replica next.replica
  acknowledging-Advances ids stored next n h =
      subst
        (λ (r : IndexedDbReplicaRecord State Intent Operation Rejection × ℕ).
          Advances stored.replica r.0.replica)
        (ok-injective h) (Advances-refl stored.replica)

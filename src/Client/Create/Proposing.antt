-- ===== src/Client/Create/Proposing.antt =====
-- What the store of src/indexeddb/store.ts gives back to a client of src/client/client.ts that enqueues.
use sync_engine_v.Base.{String, Bool, ◌≡◌, refl, sym, ap, subst, ◌∙◌, inl, inr, some}
use sync_engine_v.Errors.{ok, ok-injective, ok-ne-err, Result-cases, >>=-eq-ok, >>-eq-ok}
use sync_engine_v.Protocol.{ProposedOperation}
use sync_engine_v.Replica.{EnqueueOperationInput, enqueue_operation as reduce_enqueue_operation}
use sync_engine_v.Replica.Enqueue.{entry_for, enqueue_operation-IsEnqueued}
use sync_engine_v.IndexedDb.{IndexedDbReplicaRecord}
use sync_engine_v.IndexedDb.Store.{
  Database, IndexedDbReplicaStore, enqueued, read_stored, attempt, update_record, last,
  enqueue_operation,
}
use sync_engine_v.Client.Operations.Accepted.{Proposes}
use sync_engine_v.Client.Create.{CreateSyncClientOptions, client_ports}
use sync_engine_v.Client.Create.Stored.{last-append}

-- The intent and the hash of a proposal are those of an input.
abbrev IsFor : {Intent : Type 0} → EnqueueOperationInput Intent → ProposedOperation Intent → Type 0
IsFor input p = (p.intent ≡ input.intent) × (p.intent_hash ≡ input.intent_hash)

module _ {State Intent Operation Rejection : Type 0}
    (store : IndexedDbReplicaStore State Intent Operation Rejection)
    (input : EnqueueOperationInput Intent) where
  enqueued-IsFor :
      (stored next : IndexedDbReplicaRecord State Intent Operation Rejection)
      (p : ProposedOperation Intent)
      → enqueued store input stored ≡ ok (next, p)
      → IsFor input p
  enqueued-IsFor stored next p h =
      let (replica, enqueues, h₁) = >>=-eq-ok (reduce_enqueue_operation stored.replica input) _ h in
      let e = enqueue_operation-IsEnqueued stored.replica input enqueues in
      let entry = entry_for {Operation = Operation} stored.replica input in
      let there : last replica.outbox ≡ some entry =
        subst (λ (s : _). last s.outbox ≡ some entry) e.next_state
          (last-append stored.replica.outbox entry) in
      let same =
        ap
          (λ (r : IndexedDbReplicaRecord State Intent Operation Rejection
              × ProposedOperation Intent).
            r.1)
          (ok-injective (rw there at h₁)) in
      subst (IsFor input) same (refl, refl)

  enqueue_operation-IsFor :
      (database : Database State Intent Operation Rejection) (p : ProposedOperation Intent)
      → (enqueue_operation store database input).0 ≡ ok p
      → IsFor input p
  unfolding enqueue_operation update_record attempt
  enqueue_operation-IsFor database p h =
      elim (Result-cases (attempt store (enqueued store input) database)) [
        | inl (e, failed) ↦ absurd (ok-ne-err (sym (rw failed at h)))
        | inr ((next, a), attempted) ↦
            let (stored, reads, h₁) = >>=-eq-ok (read_stored store database) _ attempted in
            let (pair, updates, h₂) = >>=-eq-ok (enqueued store input stored) _ h₁ in
            let kept = ok-injective ((>>-eq-ok _ _).0 h₂).1 in
            let given : a ≡ p = ok-injective (rw attempted at h) in
            subst (IsFor input) (ap (λ r. r.1) kept ∙ given)
              (enqueued-IsFor stored pair.0 pair.1 updates)
      ]

-- The store of a client gives back a proposal of the intent and of the hash that it is given.
pub client_ports-Proposes :
    {Outside Rejection : Type 0} (locale_precedes : String → String → Bool)
    (options : CreateSyncClientOptions Outside Rejection)
    → Proposes (client_ports locale_precedes options)
unfolding client_ports
client_ports-Proposes locale_precedes options input world proposal after h =
    enqueue_operation-IsFor options.store input world.database proposal (ap (λ r. r.0) h)

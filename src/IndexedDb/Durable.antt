-- ===== src/IndexedDb/Durable.antt =====
-- What a database of src/indexeddb holds, whatever its stores are called for and answered.
pub mod Updates
pub mod Open
pub mod Steps
use sync_engine_v.Base.{
  ℕ, String, ◌≡◌, refl, sym, subst, inl, inr, List, [], ◌∷◌, none, some, some-injective,
  none-ne-some, arith, Option-cases, Bool-cases, str_eq, str_eq→eq, if◌then◌else◌, ap, ◌∙◌, Option,
}
use sync_engine_v.Base.Dict.{lookup, put, lookup-put}
use sync_engine_v.Errors.{
  Result, SyncError, ok, err, ok-injective, ok-ne-err, Result-cases, >>=-eq-ok, >>-eq-ok,
}
use sync_engine_v.Protocol.{ProposedOperation, SyncResponse}
use sync_engine_v.Replica.{
  ReplicaState, EnqueueOperationInput, MergeSyncResult, OutboxEntry,
  enqueue_operation as reduce_enqueue_operation, merge_sync_response as reduce_merge_sync_response,
  delete_committed_log_prefix as reduce_delete_committed_log_prefix, create_replica_state,
}
use sync_engine_v.Replica.Advance.{
  Advances, Advances-refl, Advances-trans, enqueue_operation-Advances,
  delete_committed_log_prefix-Advances, merge_sync_response-Advances,
}
use sync_engine_v.Invariants.Identity.{
  assert_non_empty_string, assert_client_sequence, assert_non_empty_string-eq-ok,
}
use sync_engine_v.IndexedDb.{
  indexed_db_replica_schema_version, IndexedDbReplicaRecord, record_value, assert_replica_record,
}
use sync_engine_v.IndexedDb.Sound.{IsSound, assert_replica_record-eq-ok}
use sync_engine_v.IndexedDb.Store.{
  Database, IndexedDbReplicaStore, IndexedDbMergeResult, read_stored, attempt, update_record,
  enqueued, merged_with, shortened, acknowledging, last, enqueue_operation, merge_sync_response,
  delete_committed_log_prefix, acknowledge_resolutions,
}
use sync_engine_v.IndexedDb.Open.{
  OpenIndexedDbReplicaStoreOptions, ensure_record, or_created, assert_belongs, assert_client_id,
  open_indexed_db_replica_store,
}

module _ {State Intent Operation Rejection : Type 0} where
  -- Every stream's record is sound.
  abbrev pub IsSoundDatabase : Database State Intent Operation Rejection → Type 0
  IsSoundDatabase database =
      (k : String) (stored : IndexedDbReplicaRecord State Intent Operation Rejection)
      → lookup k database ≡ some stored
      → IsSound k stored

  -- Every stream's record is still there, its numbers not gone back.
  abbrev pub Preserves :
      Database State Intent Operation Rejection → Database State Intent Operation Rejection → Type 0
  Preserves database next =
      (k : String) (stored : IndexedDbReplicaRecord State Intent Operation Rejection)
      → lookup k database ≡ some stored
      → (stored' : IndexedDbReplicaRecord State Intent Operation Rejection) × (lookup k next
          ≡ some stored')
        × Advances stored.replica stored'.replica

  pub Preserves-refl :
      (database : Database State Intent Operation Rejection) → Preserves database database
  Preserves-refl database k stored there = (stored, there, Advances-refl stored.replica)

  pub Preserves-trans :
      (a b c : Database State Intent Operation Rejection)
      → Preserves a b
      → Preserves b c
      → Preserves a c
  Preserves-trans a b c p q k stored there =
      let (stored', there', ahead) = p k stored there in
      let (stored'', there'', ahead') = q k stored' there' in
      (stored'', there'', Advances-trans ahead ahead')

  -- Putting a sound record over one that it advances.
  pub put-IsSoundDatabase :
      (database : Database State Intent Operation Rejection) (k : String)
      (stored : IndexedDbReplicaRecord State Intent Operation Rejection)
      → IsSound k stored
      → IsSoundDatabase database
      → IsSoundDatabase (put k stored database)
  put-IsSoundDatabase database k stored sound all j found there = elim (Bool-cases (str_eq k j)) [
    | inl same ↦
        subst (λ j. IsSound j found) (str_eq→eq same)
          (subst (IsSound k) (some-injective (rw (lookup-put k j stored database, same) at there))
            sound)
    | inr other ↦ all j found (rw (lookup-put k j stored database, other) at there)
  ]

  pub put-Preserves :
      (database : Database State Intent Operation Rejection) (k : String)
      (stored : IndexedDbReplicaRecord State Intent Operation Rejection)
      → ((old : IndexedDbReplicaRecord State Intent Operation Rejection)
          → lookup k database ≡ some old
          → Advances old.replica stored.replica)
      → Preserves database (put k stored database)
  put-Preserves database k stored ahead j old there = elim (Bool-cases (str_eq k j)) [
    | inl same ↦ (
      stored,
      rw (lookup-put k j stored database, same) refl,
      ahead old (subst (λ j. lookup j database ≡ some old) (sym (str_eq→eq same)) there),
    )
    | inr other ↦ (old, rw (lookup-put k j stored database, other) there, Advances-refl old.replica)
  ]

module _ {State Intent Operation Rejection : Type 0}
    (store : IndexedDbReplicaStore State Intent Operation Rejection) where
  pub read_stored-eq-ok :
      (database : Database State Intent Operation Rejection)
      {stored : IndexedDbReplicaRecord State Intent Operation Rejection}
      → read_stored store database ≡ ok stored
      → (lookup store.stream_id database ≡ some stored) × IsSound store.stream_id stored
  unfolding read_stored
  read_stored-eq-ok database {stored} h = elim (Option-cases (lookup store.stream_id database)) [
    | inl absent ↦ absurd (ok-ne-err (sym (rw (absent, read_stored) at h)))
    | inr (found, there) ↦
        let (passes, same) = (>>-eq-ok _ _).0 (rw (there, read_stored) at h) in
        let sound = (assert_replica_record-eq-ok store.payloads store.stream_id found).0 passes in
        (
          there ∙ ap some (ok-injective same),
          subst (IsSound store.stream_id) (ok-injective same) sound,
        )
  ]

  module _ {A : Type 0}
      (update : IndexedDbReplicaRecord State Intent Operation Rejection
        → Result (IndexedDbReplicaRecord State Intent Operation Rejection × A))
      (ahead : (stored next : IndexedDbReplicaRecord State Intent Operation Rejection) (a : A)
        → update stored ≡ ok (next, a)
        → Advances stored.replica next.replica) where
    attempt-eq-ok :
        (database : Database State Intent Operation Rejection)
        (next : IndexedDbReplicaRecord State Intent Operation Rejection) (a : A)
        → attempt store update database ≡ ok (next, a)
        → IsSound store.stream_id next
          × ((old : IndexedDbReplicaRecord State Intent Operation Rejection)
              → lookup store.stream_id database ≡ some old
              → Advances old.replica next.replica)
    unfolding attempt
    attempt-eq-ok database next a h =
        let (current, reads, h₁) = >>=-eq-ok (read_stored store database) _ h in
        let (next', updates, h₂) = >>=-eq-ok (update current) _ h₁ in
        let (passes, same) = (>>-eq-ok _ _).0 h₂ in
        let (there, _) = read_stored-eq-ok database reads in
        let sound = (assert_replica_record-eq-ok store.payloads store.stream_id next'.0).0 passes in
        (
          subst
              (λ (r : IndexedDbReplicaRecord State Intent Operation Rejection × A).
                IsSound store.stream_id r.0)
              (ok-injective same) sound,
          λ old found.
              subst
                (λ (r : IndexedDbReplicaRecord State Intent Operation Rejection).
                  Advances r.replica next.replica)
                (some-injective (sym there ∙ found)) (ahead current next a (updates ∙ same)),
        )

    pub update_record-keeps :
        (database : Database State Intent Operation Rejection)
        → IsSoundDatabase database
        → IsSoundDatabase (update_record store update database).1
          × Preserves database (update_record store update database).1
    unfolding update_record
    update_record-keeps database all = elim (Result-cases (attempt store update database)) [
      | inl (e, failed) ↦ rw failed (all, Preserves-refl database)
      | inr ((next, a), done) ↦
          let (sound, over) = attempt-eq-ok database next a done in
          rw done (
            subst
              (λ k.
                IsSoundDatabase (put k next database) × Preserves database (put k next database))
              (sym sound.stream)
              (
                put-IsSoundDatabase database store.stream_id next sound all,
                put-Preserves database store.stream_id next over,
              ))
    ]

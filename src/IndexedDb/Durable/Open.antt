-- ===== src/IndexedDb/Durable/Open.antt =====
-- Opening a store, of src/indexeddb/open.ts.
use sync_engine_v.Base.{
  String, ◌≡◌, refl, sym, subst, inl, inr, [], none, none-ne-some, arith, Option-cases, ◌∙◌,
}
use sync_engine_v.Base.Dict.{lookup}
use sync_engine_v.Errors.{ok, ok-injective, >>=-eq-ok, >>-eq-ok}
use sync_engine_v.Replica.{ReplicaState, create_replica_state}
use sync_engine_v.Invariants.Identity.{
  assert_non_empty_string, assert_client_sequence, assert_non_empty_string-eq-ok,
}
use sync_engine_v.IndexedDb.{indexed_db_replica_schema_version, IndexedDbReplicaRecord}
use sync_engine_v.IndexedDb.Sound.{IsSound}
use sync_engine_v.IndexedDb.Store.{Database}
use sync_engine_v.IndexedDb.Open.{
  OpenIndexedDbReplicaStoreOptions, ensure_record, or_created, assert_belongs, assert_client_id,
  open_indexed_db_replica_store,
}
use sync_engine_v.IndexedDb.Durable.{
  IsSoundDatabase, Preserves, Preserves-refl, put-IsSoundDatabase, put-Preserves,
}

module _ {State Intent Operation Rejection : Type 0}
    (options : OpenIndexedDbReplicaStoreOptions State Intent Operation Rejection) where
  abbrev made :
      ReplicaState State Intent Operation → IndexedDbReplicaRecord State Intent Operation Rejection
  made replica = record {
    schema_version = indexed_db_replica_schema_version;
    stream_id = options.stream_id;
    replica = replica;
    resolutions = [];
  }

  -- What a first opening stores is sound, though the code does not check it.
  made-IsSound :
      (client_id : String) {replica : ReplicaState State Intent Operation}
      → create_replica_state (record {
        client_id = client_id;
        initial_state = options.initial_state;
        next_client_sequence = none;
      })
        ≡ ok replica
      → IsSound options.stream_id (made replica)
  unfolding create_replica_state assert_client_sequence
  made-IsSound client_id h =
      let (named, h₁) = (>>-eq-ok (assert_non_empty_string "clientId" client_id) _).0 h in
      subst (λ (r : ReplicaState State Intent Operation). IsSound options.stream_id (made r))
        (ok-injective h₁)
        (record {
          version = refl;
          stream = refl;
          client = (assert_non_empty_string-eq-ok "clientId" client_id).0 named;
          next = record { positive = omega arith; safe = omega arith };
          confirmed = omega arith;
          retained = omega arith;
          page = record { contiguous = tt; committed = tt; distinct = tt };
          earlier = tt;
          outbox = tt;
          resolutions = tt;
        })

  ensure_record-keeps :
      (created : String) (database : Database State Intent Operation Rejection)
      {next : Database State Intent Operation Rejection}
      → ensure_record options created database ≡ ok next
      → IsSoundDatabase database
      → IsSoundDatabase next × Preserves database next
  unfolding ensure_record
  ensure_record-keeps created database h all =
      elim (Option-cases (lookup options.stream_id database)) [
        | inl absent ↦
            let (replica, creates, h₁) =
              >>=-eq-ok
                (create_replica_state (record {
                  client_id = or_created options options.client_id created;
                  initial_state = options.initial_state;
                  next_client_sequence = none;
                }))
                _ (rw (absent, ensure_record) at h) in
            let sound = made-IsSound (or_created options options.client_id created) creates in
            subst (λ d. IsSoundDatabase d × Preserves database d) (ok-injective h₁)
              (
                put-IsSoundDatabase database options.stream_id (made replica) sound all,
                put-Preserves database options.stream_id (made replica)
                    (λ old there. absurd (none-ne-some (sym absent ∙ there))),
              )
        | inr (stored, there) ↦
            let (_, h₁) = (>>-eq-ok _ _).0 (rw (there, ensure_record) at h) in
            let (_, h₂) =
              (>>-eq-ok (assert_belongs options options.client_id stored.replica.client_id) _).0
                h₁ in
            subst (λ d. IsSoundDatabase d × Preserves database d) (ok-injective h₂)
              (all, Preserves-refl database)
      ]

  pub open-keeps :
      (created : String) (database : Database State Intent Operation Rejection)
      {next : Database State Intent Operation Rejection}
      → open_indexed_db_replica_store options created database ≡ ok next
      → IsSoundDatabase database
      → IsSoundDatabase next × Preserves database next
  unfolding open_indexed_db_replica_store
  open-keeps created database h all =
      let (_, h₁) = (>>-eq-ok _ _).0 h in
      let (_, h₂) = (>>-eq-ok (assert_client_id options options.client_id) _).0 h₁ in
      let (_, h₃) = (>>-eq-ok _ _).0 h₂ in ensure_record-keeps created database h₃ all

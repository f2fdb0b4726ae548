-- ===== src/Tests/Stores.antt =====
-- Runs of the durable store of src/indexeddb, with the replicas of the counter.
use sync_engine_v.Base.{
  ℕ, zero, suc, sym, ap, ◌∙◌, str_eq→ne, arith, String, ◌≡◌, ◌↔◌, refl, subst, inl, inr, [], ◌∷◌,
  some, some-injective, none-ne-some, Bool-cases, str_eq, str_eq→eq,
}
use sync_engine_v.Base.Dict.{lookup, put}
use sync_engine_v.Json.{number, string}
use sync_engine_v.Errors.{ok, ◌>>=◌}
use sync_engine_v.IndexedDb.{IndexedDbReplicaRecord, Payloads, record_value, assert_replica_record}
use sync_engine_v.IndexedDb.Sound.{IsSound, assert_replica_record-eq-ok}
use sync_engine_v.IndexedDb.Store.{
  Database, IndexedDbReplicaStore, IndexedDbMergeResult, read_stored, settle, enqueued, shortened,
  acknowledging, enqueue_operation, merge_sync_response, delete_committed_log_prefix,
  acknowledge_resolutions,
}
use sync_engine_v.IndexedDb.Durable.{IsSoundDatabase, Preserves}
use sync_engine_v.IndexedDb.Durable.Steps.{
  start, called, enqueues, merges, StoreSteps-IsSoundDatabase,
}
use sync_engine_v.IndexedDb.Local.{update_record-local}
use sync_engine_v.IndexedDb.Merged.Sound.{Owned}
use sync_engine_v.IndexedDb.Merged.Accepts.{IsStoredReplica, merge_sync_response-IsStoredReplica}
use sync_engine_v.Invariants.Identity
use sync_engine_v.Invariants.Position
use sync_engine_v.Invariants.Log
use sync_engine_v.Invariants.Log.{assert_contiguous_log}
use sync_engine_v.Invariants.Log.Valid.{assert_contiguous_log-eq-ok}
use sync_engine_v.Protocol.{CommittedOperation}
use sync_engine_v.Tests.Replicas.{equal_refl, alice-IsReplica, canonical, authentic}
use sync_engine_v.Tests.Data.{
  alice, alice_merged, both_served, small, large, replica_interpreter, response, third,
  large_decision,
}

abbrev payloads : Payloads ℕ ℕ ℕ String
payloads = record {
  state_value = λ n. number n;
  intent_value = λ n. number n;
  operation_value = λ n. number n;
  rejection_value = λ s. string s;
}

abbrev store : IndexedDbReplicaStore ℕ ℕ ℕ String
store = record { stream_id = "counter"; interpreter = replica_interpreter; payloads = payloads }

abbrev alice_stored : IndexedDbReplicaRecord ℕ ℕ ℕ String
alice_stored = record {
  schema_version = 1;
  stream_id = "counter";
  replica = alice_merged;
  resolutions = large_decision ∷ [];
}

abbrev database : Database ℕ ℕ ℕ String
database = ("counter", alice_stored) ∷ []

assert_replica_record-eq-ok_example :
    (assert_replica_record "counter" (some (record_value payloads alice_stored)) ≡ ok tt)
    ↔ IsSound "counter" alice_stored
assert_replica_record-eq-ok_example = assert_replica_record-eq-ok payloads "counter" alice_stored

alice_passes : assert_replica_record "counter" (some (record_value payloads alice_stored)) ≡ ok tt
unfolding assert_replica_record record_value
alice_passes = refl

database-IsSoundDatabase : IsSoundDatabase database
unfolding lookup
database-IsSoundDatabase k stored there = elim (Bool-cases (str_eq "counter" k)) [
  | inl same ↦
      subst (λ k. IsSound k stored) (str_eq→eq same)
        (subst (IsSound "counter") (some-injective (rw same at there))
          ((assert_replica_record-eq-ok payloads "counter" alice_stored).0 alice_passes))
  | inr other ↦ absurd (none-ne-some (rw other at there))
]

abbrev after_enqueue : Database ℕ ℕ ℕ String
after_enqueue = (enqueue_operation store database third).1

abbrev after_merge : Database ℕ ℕ ℕ String
after_merge = (merge_sync_response store after_enqueue response).1

StoreSteps-IsSoundDatabase_example : IsSoundDatabase after_merge × Preserves database after_merge
StoreSteps-IsSoundDatabase_example =
    StoreSteps-IsSoundDatabase
      (called (called start (enqueues store third)) (merges store response))
      database-IsSoundDatabase

update_record-local_example :
    (enqueue_operation store database third
      ≡ settle store database (read_stored store database >>= enqueued store third))
    × (delete_committed_log_prefix store database 1
        ≡ settle store database (read_stored store database >>= shortened store 1))
    × (acknowledge_resolutions store database ("large" ∷ [])
        ≡ settle store database (read_stored store database >>= acknowledging store ("large" ∷ [])))
update_record-local_example = update_record-local store database third 1 "large" []

-- `alice` before she has merged anything, and the log that the authority has by then
abbrev alice_waiting : IndexedDbReplicaRecord ℕ ℕ ℕ String
alice_waiting = record {
  schema_version = 1;
  stream_id = "counter";
  replica = alice;
  resolutions = [];
}

log_passes : assert_contiguous_log both_served.log ≡ ok tt
unfolding assert_contiguous_log sync_engine_v.Invariants.Log.check_log
    sync_engine_v.Invariants.Identity.assert_committed_operation sync_engine_v.Base.contains lookup
    put sync_engine_v.Invariants.Position.client_position_key
log_passes = refl

waiting_passes :
    assert_replica_record "counter" (some (record_value payloads alice_waiting)) ≡ ok tt
unfolding assert_replica_record record_value sync_engine_v.Invariants.Position.client_position_key
waiting_passes = refl

small-Owned : Owned both_served.log small
small-Owned zero c at client sequence =
    ap (λ (c : CommittedOperation ℕ). c.operation_id) (sym (some-injective at))
small-Owned (suc zero) c at client sequence = absurd (
    str_eq→ne {s = "bob"} {t = "alice"} refl
      (ap (λ (c : CommittedOperation ℕ). c.origin.client_id) (some-injective at) ∙ client))
small-Owned (suc (suc i)) c at client sequence = absurd (ground arith)

large-Owned : Owned both_served.log large
large-Owned zero c at client sequence =
    let same : 1 ≡ 2 =
      ap (λ (c : CommittedOperation ℕ). c.origin.client_sequence) (some-injective at) ∙ sequence in
    absurd (omega (arith, same))
large-Owned (suc zero) c at client sequence = absurd (
    str_eq→ne {s = "bob"} {t = "alice"} refl
      (ap (λ (c : CommittedOperation ℕ). c.origin.client_id) (some-injective at) ∙ client))
large-Owned (suc (suc i)) c at client sequence = absurd (ground arith)

alice_waiting-IsStoredReplica : IsStoredReplica store 0 both_served.log alice_waiting
alice_waiting-IsStoredReplica = record {
  sound = (assert_replica_record-eq-ok payloads "counter" alice_waiting).0 waiting_passes;
  replica = alice-IsReplica;
  numbered = record {
    earlier = (
      record { before = λ same. omega arith },
      (record { before = λ same. absurd (str_eq→ne {s = "bob"} {t = "alice"} refl same) }, tt),
    );
    owned = (small-Owned, (large-Owned, tt));
  };
}

merge_sync_response-IsStoredReplica_example :
    (next : IndexedDbReplicaRecord ℕ ℕ ℕ String) × (result : IndexedDbMergeResult ℕ ℕ ℕ String)
    × (merge_sync_response store (("counter", alice_waiting) ∷ []) response
        ≡ (ok result, put "counter" next (("counter", alice_waiting) ∷ [])))
    × IsStoredReplica store 0 both_served.log next
    × (next.replica.confirmed_sequence ≡ 1)
unfolding lookup
merge_sync_response-IsStoredReplica_example =
    merge_sync_response-IsStoredReplica store equal_refl 0 12 both_served.log canonical
      ((assert_contiguous_log-eq-ok both_served.log).0 log_passes) (omega arith)
      (("counter", alice_waiting) ∷ []) alice_waiting response refl alice_waiting-IsStoredReplica
      authentic (omega arith)

-- ===== src/IndexedDb/Record.antt =====
-- src/indexeddb/schema.ts, and src/indexeddb/record.ts: what is derived from a stored record.
use sync_engine_v.Base.{ℕ, ◌+◌, String, List, [], ◌∷◌, ◌++◌, contains, length, map, if◌then◌else◌}
use sync_engine_v.Protocol.{ProposalDecision}
use sync_engine_v.Replica.{ReplicaState, OutboxEntry, pending, accepted}

-- `INDEXED_DB_REPLICA_SCHEMA_VERSION`
abbrev pub indexed_db_replica_schema_version : ℕ
indexed_db_replica_schema_version = 1

-- A replica and the outcomes that the application has not acknowledged.
pub record IndexedDbReplicaRecord (State Intent Operation Rejection : Type 0) : Type 0 where
  pub schema_version : ℕ
  pub stream_id : String
  pub replica : ReplicaState State Intent Operation
  pub resolutions : List (ProposalDecision Operation Rejection)

pub record IndexedDbReplicaStatus : Type 0 where
  pub confirmed_sequence : ℕ
  pub pending_proposal_count : ℕ
  pub accepted_awaiting_confirmation_count : ℕ
  pub unacknowledged_resolution_count : ℕ

-- The two counters of `statusFromRecord`.
pub record OutboxCounts : Type 0 where
  pub pending_count : ℕ
  pub accepted_count : ℕ

module _ {Intent Operation : Type 0} where
  abbrev pub count_entry : OutboxCounts → OutboxEntry Intent Operation → OutboxCounts
  count_entry counts entry = elim entry.status [
    | pending ↦ record counts { pending_count = counts.pending_count + 1 }
    | accepted sequence operation ↦ record counts { accepted_count = counts.accepted_count + 1 }
  ]

  unfoldable pub count_outbox : OutboxCounts → List (OutboxEntry Intent Operation) → OutboxCounts
  count_outbox counts [] = counts
  count_outbox counts (entry ∷ rest) = count_outbox (count_entry counts entry) rest

module _ {Operation Rejection : Type 0} where
  -- the loop over `received`, after the ids that it has seen
  unfoldable pub append_unseen :
      List String
      → List (ProposalDecision Operation Rejection)
      → List (ProposalDecision Operation Rejection)
      → List (ProposalDecision Operation Rejection)
  append_unseen seen result [] = result
  append_unseen seen result (decision ∷ rest) =
      let skipped = append_unseen seen result rest in
      let pushed = append_unseen (decision.operation_id ∷ seen) (result ++ decision ∷ []) rest in
      if contains decision.operation_id seen then skipped else pushed

  abbrev pub ids_of : List (ProposalDecision Operation Rejection) → List String
  ids_of decisions = map (λ decision. decision.operation_id) decisions

  unfoldable pub append_unique_resolutions :
      List (ProposalDecision Operation Rejection)
      → List (ProposalDecision Operation Rejection)
      → List (ProposalDecision Operation Rejection)
  unfolding append_unseen
  append_unique_resolutions existing [] = existing
  append_unique_resolutions existing (decision ∷ rest) =
      append_unseen (ids_of existing) existing (decision ∷ rest)

module _ {State Intent Operation Rejection : Type 0} where
  unfoldable pub status_from_record :
      IndexedDbReplicaRecord State Intent Operation Rejection → IndexedDbReplicaStatus
  unfolding count_outbox
  status_from_record stored =
      let counts =
        count_outbox (record { pending_count = 0; accepted_count = 0 }) stored.replica.outbox in
      record {
        confirmed_sequence = stored.replica.confirmed_sequence;
        pending_proposal_count = counts.pending_count;
        accepted_awaiting_confirmation_count = counts.accepted_count;
        unacknowledged_resolution_count = length stored.resolutions;
      }

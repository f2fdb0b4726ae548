-- ===== src/IndexedDb/Value.antt =====
-- A stored record as the value that the check of src/indexeddb/record.ts sees: the object with its
-- fields. What the application's values look like is a parameter, and the check never looks.
use sync_engine_v.Base.{List, [], ◌∷◌}
use sync_engine_v.Json.{Json, number, string, array, object, Items, nil, cons, end, field}
use sync_engine_v.Protocol.{
  ProposedOperation, CommittedOperation, accepted as accepts, rejected, ProposalDecision,
}
use sync_engine_v.Replica.{ReplicaState, OutboxEntry, pending, accepted}
use sync_engine_v.IndexedDb.Record.{IndexedDbReplicaRecord}

pub record Payloads (State Intent Operation Rejection : Type 0) : Type 0 where
  pub state_value : State → Json
  pub intent_value : Intent → Json
  pub operation_value : Operation → Json
  pub rejection_value : Rejection → Json

module _ {State Intent Operation Rejection : Type 0}
    (payloads : Payloads State Intent Operation Rejection) where
  abbrev pub entry_value : CommittedOperation Operation → Json
  entry_value entry = object (
      field "sequence" (number entry.sequence) (
        field "operationId" (string entry.operation_id) (
          field "origin"
            (object (
              field "clientId" (string entry.origin.client_id) (
                field "clientSequence" (number entry.origin.client_sequence)
                  (field "intentHash" (string entry.origin.intent_hash) end))))
            (field "operation" (payloads.operation_value entry.operation) end))))

  abbrev pub proposal_value : ProposedOperation Intent → Json
  proposal_value proposal = object (
      field "operationId" (string proposal.operation_id) (
        field "clientId" (string proposal.client_id) (
          field "clientSequence" (number proposal.client_sequence) (
            field "intentHash" (string proposal.intent_hash)
              (field "intent" (payloads.intent_value proposal.intent) end)))))

  abbrev pub outbox_entry_value : OutboxEntry Intent Operation → Json
  outbox_entry_value entry = elim entry.status [
    | pending ↦
        object
          (field "status" (string "pending") (field "proposal" (proposal_value entry.proposal) end))
    | accepted sequence operation ↦ object (
        field "status" (string "accepted") (
          field "proposal" (proposal_value entry.proposal) (
            field "sequence" (number sequence)
              (field "operation" (payloads.operation_value operation) end))))
  ]

  abbrev pub decision_value : ProposalDecision Operation Rejection → Json
  decision_value decision = elim decision.outcome [
    | accepts sequence operation ↦ object (
        field "operationId" (string decision.operation_id) (
          field "status" (string "accepted") (
            field "sequence" (number sequence)
              (field "operation" (payloads.operation_value operation) end))))
    | rejected reason ↦ object (
        field "operationId" (string decision.operation_id) (
          field "status" (string "rejected")
            (field "reason" (payloads.rejection_value reason) end)))
  ]

  abbrev pub replica_value : ReplicaState State Intent Operation → Items → Items → Json
  replica_value replica log outbox = object (
      field "clientId" (string replica.client_id) (
        field "nextClientSequence" (number replica.next_client_sequence) (
          field "confirmedSequence" (number replica.confirmed_sequence) (
            field "confirmedState" (payloads.state_value replica.confirmed_state)
              (field "confirmedLog" (array log) (field "outbox" (array outbox) end))))))

-- the values of a list's elements
unfoldable pub items_of {ℓ} : {A : Type ℓ} → (A → Json) → List A → Items
items_of value [] = nil
items_of value (x ∷ xs) = cons (value x) (items_of value xs)

module _ {State Intent Operation Rejection : Type 0}
    (payloads : Payloads State Intent Operation Rejection) where
  unfoldable pub record_value : IndexedDbReplicaRecord State Intent Operation Rejection → Json
  unfolding items_of
  record_value stored = object (
      field "schemaVersion" (number stored.schema_version) (
        field "streamId" (string stored.stream_id) (
          field "replica"
            (replica_value payloads stored.replica
              (items_of (entry_value payloads) stored.replica.confirmed_log)
              (items_of (outbox_entry_value payloads) stored.replica.outbox))
            (field "resolutions" (array (items_of (decision_value payloads) stored.resolutions))
              end))))

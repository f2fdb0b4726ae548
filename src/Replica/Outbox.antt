-- ===== src/Replica/Outbox.antt =====
-- src/replica.ts: what is sent from the outbox, and the optimistic view over it.
use sync_engine_v.Base.{ℕ, List, [], ◌∷◌, ◌++◌, Option, leb, ◌==◌, length, if◌then◌else◌}
use sync_engine_v.Errors.{Result, ok, ◌>>=◌, ◌>>◌}
use sync_engine_v.Limits.{
  default_protocol_limits, or_default, assert_non_negative_safe_integer,
  assert_positive_safe_integer,
}
use sync_engine_v.Protocol.{ProposedOperation, SyncRequest}
use sync_engine_v.Replica.State.{
  pending, accepted, OutboxEntry, ReplicaState, ReplicaInterpreter, assert_retained_confirmed_log,
}

pub record PrepareSyncRequestOptions : Type 0 where
  pub maximum_proposals : Option ℕ
  pub maximum_entries : Option ℕ

module _ {Intent Operation : Type 0} where
  -- the loop over the outbox: push what is pending, and stop at the maximum
  unfoldable pub collect_proposals :
      ℕ
      → List (ProposedOperation Intent)
      → List (OutboxEntry Intent Operation)
      → List (ProposedOperation Intent)
  collect_proposals maximum proposals [] = proposals
  collect_proposals maximum proposals (entry ∷ rest) = elim entry.status [
    | pending ↦
        let pushed = proposals ++ entry.proposal ∷ [] in
        let more = collect_proposals maximum pushed rest in
        if leb maximum (length pushed) then pushed else more
    | accepted sequence operation ↦ collect_proposals maximum proposals rest
  ]

module _ {State Intent Operation : Type 0} where
  unfoldable pub prepare_sync_request :
      ReplicaState State Intent Operation → PrepareSyncRequestOptions → Result (SyncRequest Intent)
  unfolding assert_retained_confirmed_log assert_non_negative_safe_integer
      assert_positive_safe_integer
  prepare_sync_request state options = do
    _ ← assert_retained_confirmed_log state
    let maximum_proposals =
        or_default options.maximum_proposals default_protocol_limits.maximum_proposals_per_request
    let maximum_entries =
        or_default options.maximum_entries default_protocol_limits.maximum_entries_per_response
    assert_non_negative_safe_integer "maximumProposals" maximum_proposals
    assert_positive_safe_integer "maximumEntries" maximum_entries
    ok (record {
      base_sequence = state.confirmed_sequence;
      maximum_entries = maximum_entries;
      proposals =
          if maximum_proposals == 0
          then []
          else collect_proposals maximum_proposals [] state.outbox;
    })

  -- one entry of the overlay
  abbrev pub apply_entry :
      ReplicaInterpreter State Intent Operation
      → State
      → OutboxEntry Intent Operation
      → Result State
  apply_entry interpreter state entry = elim entry.status [
    | pending ↦ interpreter.apply_optimistic state entry.proposal.intent
    | accepted sequence operation ↦ interpreter.apply_committed state operation
  ]

  unfoldable pub apply_outbox :
      ReplicaInterpreter State Intent Operation
      → State
      → List (OutboxEntry Intent Operation)
      → Result State
  apply_outbox interpreter state [] = ok state
  apply_outbox interpreter state (entry ∷ rest) = do
    next ← apply_entry interpreter state entry
    apply_outbox interpreter next rest

  unfoldable pub materialize_optimistic_state :
      ReplicaState State Intent Operation → ReplicaInterpreter State Intent Operation → Result State
  unfolding apply_outbox
  materialize_optimistic_state state interpreter =
      apply_outbox interpreter state.confirmed_state state.outbox

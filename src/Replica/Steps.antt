-- ===== src/Replica/Steps.antt =====
-- The operations of src/replica.ts in any order: new local operations, responses, and compaction.
use sync_engine_v.Replica.Compact.{delete_committed_log_prefix-IsReplica}
use sync_engine_v.Base.{
  ℕ, ◌≤◌, ◌≡◌, refl, sym, ap, subst, ◌∙◌, inl, inr, true, List, [], ◌∷◌, none, some, arith,
  All-append, get_elem?, length, ltb, Bool-cases,
}
use sync_engine_v.Errors.{ok, ok-injective, ok-ne-err, >>-eq-ok}
use sync_engine_v.Limits.{or_default, max_safe_integer}
use sync_engine_v.Protocol.{CommittedOperation, SyncResponse}
use sync_engine_v.Invariants.Identity.{
  submitted_as, assert_non_empty_string, assert_client_sequence,
}
use sync_engine_v.Invariants.Response.Valid.{assert_sync_response-eq-ok}
use sync_engine_v.Replay.{replay}
use sync_engine_v.Replica.{
  ReplicaState, ReplicaInterpreter, MergeSyncResult, CreateReplicaOptions, EnqueueOperationInput,
  create_replica_state, enqueue_operation, delete_committed_log_prefix, merge_sync_response,
}
use sync_engine_v.Replica.Canonical.{IsOwn}
use sync_engine_v.Replica.Follow.{IsCanonical}
use sync_engine_v.Replica.Converge.{
  IsReplica, IsAuthentic, assert_retained-on_track, merge_sync_response-IsReplica,
}
use sync_engine_v.Replica.Enqueue.{
  outbox_has-eq-false, IsDistinct-append, submission_of, entry_for, enqueue_operation-IsEnqueued,
}

module _ {State Intent Operation : Type 0} (interpreter : ReplicaInterpreter State Intent Operation)
    (initial : State) (log : List (CommittedOperation Operation)) where
  -- The log has an operation only as this replica submits it, and behind its confirmed prefix.
  abbrev pub IsUnclaimed :
      ReplicaState State Intent Operation → EnqueueOperationInput Intent → Type 0
  IsUnclaimed state input =
      (i : ℕ) (c : CommittedOperation Operation)
      → get_elem? log i ≡ some c
      → c.operation_id ≡ input.operation_id
      → (state.confirmed_sequence ≤ i) × (submitted_as c ≡ submission_of state input)

  enqueue_operation-IsReplica :
      (state : ReplicaState State Intent Operation) (input : EnqueueOperationInput Intent)
      {next : ReplicaState State Intent Operation}
      → IsReplica interpreter initial log state
      → IsUnclaimed state input
      → enqueue_operation state input ≡ ok next
      → IsReplica interpreter initial log next
  enqueue_operation-IsReplica state input r unclaimed h =
      let q = enqueue_operation-IsEnqueued state input h in
      let e = entry_for {Operation = Operation} state input in
      subst (IsReplica interpreter initial log) q.next_state (record {
        base = r.base;
        follows = r.follows;
        sound = record {
          own =
              All-append (IsOwn log state.confirmed_sequence) state.outbox (e ∷ []) r.sound.own
                (record { matches = unclaimed; receipt = tt }, tt);
          distinct =
              IsDistinct-append e state.outbox r.sound.distinct
                (outbox_has-eq-false input.operation_id state.outbox q.fresh);
        };
      })

  -- A new replica that is created with the log's initial state is a replica of every log.
  pub create_replica_state-IsReplica :
      (options : CreateReplicaOptions State) {state : ReplicaState State Intent Operation}
      → options.initial_state ≡ initial
      → create_replica_state options ≡ ok state
      → IsReplica interpreter initial log state
  unfolding create_replica_state
  create_replica_state-IsReplica options same h =
      let (_, h₁) = (>>-eq-ok (assert_non_empty_string "clientId" options.client_id) _).0 h in
      let number = or_default options.next_client_sequence 1 in
      let (_, h₂) = (>>-eq-ok (assert_client_sequence "nextClientSequence" number) _).0 h₁ in
      subst (IsReplica interpreter initial log) (ok-injective h₂) (record {
        base = 0;
        follows = record {
          within = omega arith;
          covers = refl;
          agrees = λ i c there. absurd (ground arith);
          replays = unfold replay in ap ok (sym same);
        };
        sound = record { own = tt; distinct = tt };
      })

module _ {State Intent Operation : Type 0} (Rejection : Type 0)
    (interpreter : ReplicaInterpreter State Intent Operation) (initial : State)
    (log : List (CommittedOperation Operation)) where
  -- One operation on a replica of the log that succeeds.
  pub data ReplicaStep (state next : ReplicaState State Intent Operation) : Type 0 where
    enqueued :
        (input : EnqueueOperationInput Intent)
        → IsUnclaimed interpreter initial log state input
        → enqueue_operation state input ≡ ok next
        → ReplicaStep state next
    merged :
        (response : SyncResponse Operation Rejection)
        (result : MergeSyncResult State Intent Operation Rejection)
        → IsAuthentic log state.outbox response
        → merge_sync_response state response interpreter ≡ ok result
        → result.state ≡ next
        → ReplicaStep state next
    compacted :
        (through : ℕ) → delete_committed_log_prefix state through ≡ ok next → ReplicaStep state next

  -- Any number of them.
  pub data ReplicaSteps
      : ReplicaState State Intent Operation → ReplicaState State Intent Operation → Type 0 where
    start : {state : ReplicaState State Intent Operation} → ReplicaSteps state state
    then :
        {state middle next : ReplicaState State Intent Operation}
        → ReplicaStep state middle
        → ReplicaSteps middle next
        → ReplicaSteps state next

module _ {State Intent Operation Rejection : Type 0}
    (interpreter : ReplicaInterpreter State Intent Operation)
    (equal_refl : (o : Operation) → interpreter.are_committed_operations_equal o o ≡ true)
    (initial final : State) (log : List (CommittedOperation Operation))
    (canonical : IsCanonical interpreter.apply_committed initial final log)
    (safe : length log ≤ max_safe_integer) where
  -- a response to a request from ahead of the confirmed prefix is not merged
  merge_sync_response-reach :
      (state : ReplicaState State Intent Operation) (response : SyncResponse Operation Rejection)
      {result : MergeSyncResult State Intent Operation Rejection}
      → IsReplica interpreter initial log state
      → IsAuthentic log state.outbox response
      → merge_sync_response state response interpreter ≡ ok result
      → response.requested_base_sequence ≤ state.confirmed_sequence
  unfolding merge_sync_response
  merge_sync_response-reach state response r a h =
      elim (Bool-cases (ltb state.confirmed_sequence response.requested_base_sequence)) [
        | inl above ↦ absurd (
            ok-ne-err (
              sym (
                rw
                  (
                    (assert_sync_response-eq-ok response none).1 a.valid,
                    assert_retained-on_track interpreter initial final log canonical safe state r,
                    above,
                  )
                  at h)))
        | inr reach ↦ ground arith
      ]

  ReplicaStep-IsReplica :
      (state next : ReplicaState State Intent Operation)
      → ReplicaStep Rejection interpreter initial log state next
      → IsReplica interpreter initial log state
      → IsReplica interpreter initial log next
        × (state.confirmed_sequence ≤ next.confirmed_sequence)
  ReplicaStep-IsReplica state next (enqueued input unclaimed h) r = (
    enqueue_operation-IsReplica interpreter initial log state input r unclaimed h,
    subst
        (λ (s : ReplicaState State Intent Operation).
          state.confirmed_sequence ≤ s.confirmed_sequence)
        (enqueue_operation-IsEnqueued state input h).next_state (omega arith),
  )
  ReplicaStep-IsReplica state next (merged response result a h same) r =
      let (result', returns, r', confirmed) =
        merge_sync_response-IsReplica interpreter equal_refl initial final log canonical safe state
          response r a (merge_sync_response-reach state response r a h) in
      let now : result'.state ≡ next =
        ap (λ (m : MergeSyncResult State Intent Operation Rejection). m.state)
          (ok-injective (sym returns ∙ h))
        ∙ same in
      subst
        (λ (s : ReplicaState State Intent Operation).
          IsReplica interpreter initial log s × (state.confirmed_sequence ≤ s.confirmed_sequence))
        now (r', omega (arith, confirmed))
  ReplicaStep-IsReplica state next (compacted through h) r =
      let (r', kept) =
        delete_committed_log_prefix-IsReplica interpreter initial final log canonical safe state
          through r h in
      let same : next.confirmed_sequence ≡ state.confirmed_sequence =
        ap (λ (s : ReplicaState State Intent Operation). s.confirmed_sequence) kept in
      (r', omega (arith, same))

  -- Let the log be canonical, of a safe length, and the replica's equality of operations reflexive.
  -- Whatever authentic responses are merged, in any order and any number of times, mixed with new
  -- operations that the log has only as this replica's own and with compaction: a replica of the log
  -- stays one, and its confirmed prefix never goes back.
  pub ReplicaSteps-IsReplica :
      (state next : ReplicaState State Intent Operation)
      → ReplicaSteps Rejection interpreter initial log state next
      → IsReplica interpreter initial log state
      → IsReplica interpreter initial log next
        × (state.confirmed_sequence ≤ next.confirmed_sequence)
  ReplicaSteps-IsReplica state next start r = (r, omega arith)
  ReplicaSteps-IsReplica state next (then {middle = middle} step rest) r =
      let (r', first) = ReplicaStep-IsReplica state middle step r in
      let (r'', more) = ReplicaSteps-IsReplica middle next rest r' in
      (r'', omega (arith, first, more))

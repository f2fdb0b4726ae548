-- ===== src/Replica/View.antt =====
-- `materializeOptimisticState` of src/replica.ts: the confirmed state under the replica's outbox.
use sync_engine_v.Base.{◌≡◌, refl, subst, inl, inr, List, [], ◌∷◌, ◌++◌}
use sync_engine_v.Errors.{ok, Result-cases, ◌>>=◌}
use sync_engine_v.Replica.{
  OutboxEntry, ReplicaState, ReplicaInterpreter, EnqueueOperationInput, enqueue_operation,
  apply_entry, apply_outbox, materialize_optimistic_state,
}
use sync_engine_v.Replica.Enqueue.{entry_for, enqueue_operation-IsEnqueued}

module _ {State Intent Operation : Type 0}
    (interpreter : ReplicaInterpreter State Intent Operation) where
  -- the view over a longer outbox
  apply_outbox-append :
      (state : State) (es : List (OutboxEntry Intent Operation)) (e : OutboxEntry Intent Operation)
      → apply_outbox interpreter state (es ++ e ∷ [])
        ≡ (apply_outbox interpreter state es >>= λ shown. apply_entry interpreter shown e)
  unfolding apply_outbox
  apply_outbox-append state [] e = elim (Result-cases (apply_entry interpreter state e)) [
    | inl (error, failed) ↦ rw failed refl
    | inr (next, applied) ↦ rw applied refl
  ]
  apply_outbox-append state (x ∷ xs) e = elim (Result-cases (apply_entry interpreter state x)) [
    | inl (error, failed) ↦ rw failed refl
    | inr (next, applied) ↦ rw applied (apply_outbox-append next xs e)
  ]

  -- An operation that is enqueued is seen at once: the view after it is the view before with its
  -- intent applied on top, and fails exactly if one of these does.
  pub enqueue_operation-materialize_optimistic_state :
      (state : ReplicaState State Intent Operation) (input : EnqueueOperationInput Intent)
      {next : ReplicaState State Intent Operation}
      → enqueue_operation state input ≡ ok next
      → materialize_optimistic_state next interpreter ≡ (
          materialize_optimistic_state state interpreter >>= λ shown.
          interpreter.apply_optimistic shown input.intent)
  unfolding materialize_optimistic_state
  enqueue_operation-materialize_optimistic_state state input h =
      subst
        (λ (s : ReplicaState State Intent Operation). materialize_optimistic_state s interpreter ≡ (
          materialize_optimistic_state state interpreter >>= λ shown.
          interpreter.apply_optimistic shown input.intent))
        (enqueue_operation-IsEnqueued state input h).next_state
        (apply_outbox-append state.confirmed_state state.outbox (entry_for state input))

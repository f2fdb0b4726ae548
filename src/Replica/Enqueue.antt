-- ===== src/Replica/Enqueue.antt =====
-- `enqueueOperation` of src/replica.ts.
use sync_engine_v.Base.{
  ◌+◌, ◌≤◌, String, ◌≡◌, ◌≢◌, inl, inr, false, ◌||◌, List, [], ◌∷◌, ◌++◌, arith, All, All-append,
  Bool-cases, str_eq, str_eq→ne,
}
use sync_engine_v.Errors.{
  ok, throw_if, ok-injective, duplicate_operation_id, throw_if-eq-ok, >>-eq-ok, >>=-eq-ok,
}
use sync_engine_v.Limits.{max_safe_integer}
use sync_engine_v.Protocol.{OperationSubmissionIdentity}
use sync_engine_v.Invariants.Identity.{
  assert_non_empty_string, assert_client_sequence, assert_non_empty_string-eq-ok,
  assert_client_sequence-eq-ok,
}
use sync_engine_v.Replica.{
  pending, OutboxEntry, ReplicaState, EnqueueOperationInput, enqueue_operation, outbox_has, log_has,
  assert_retained_confirmed_log,
}
use sync_engine_v.Replica.Find.{id_of, IsDistinct}

module _ {Intent Operation : Type 0} where
  pub outbox_has-eq-false :
      (id : String) (outbox : List (OutboxEntry Intent Operation))
      → outbox_has id outbox ≡ false
      → All (λ e. id_of e ≢ id) outbox
  unfolding outbox_has
  outbox_has-eq-false id [] h = tt
  outbox_has-eq-false id (e ∷ es) h = elim (Bool-cases (str_eq (id_of e) id)) [
    | inl same ↦ absurd (ground arith)
    | inr other ↦ (str_eq→ne other, outbox_has-eq-false id es (ground arith))
  ]

  pub IsDistinct-append :
      (e : OutboxEntry Intent Operation) (es : List (OutboxEntry Intent Operation))
      → IsDistinct es
      → All (λ e'. id_of e' ≢ id_of e) es
      → IsDistinct (es ++ e ∷ [])
  IsDistinct-append e [] d fresh = (tt, tt)
  IsDistinct-append e (x ∷ xs) d fresh = (
    All-append (λ e'. id_of x ≢ id_of e') xs (e ∷ []) d.0 (fresh.0, tt),
    IsDistinct-append e xs d.1 fresh.1,
  )

module _ {State Intent Operation : Type 0} where
  -- what a new operation is submitted as
  abbrev pub submission_of :
      ReplicaState State Intent Operation
      → EnqueueOperationInput Intent
      → OperationSubmissionIdentity
  submission_of state input = record {
    identity = record {
      operation_id = input.operation_id;
      client_id = state.client_id;
      client_sequence = state.next_client_sequence;
    };
    intent_hash = input.intent_hash;
  }

  abbrev pub entry_for :
      ReplicaState State Intent Operation
      → EnqueueOperationInput Intent
      → OutboxEntry Intent Operation
  entry_for state input = record {
    proposal = record { submission = submission_of state input; intent = input.intent };
    status = pending;
  }

  -- A new operation that is enqueued.
  pub record IsEnqueued (state : ReplicaState State Intent Operation)
      (input : EnqueueOperationInput Intent) (next : ReplicaState State Intent Operation)
      : Type 0 where
    pub has_client_id : state.client_id ≢ ""
    pub has_operation_id : input.operation_id ≢ ""
    pub has_intent_hash : input.intent_hash ≢ ""
    pub positive : 1 ≤ state.next_client_sequence
    pub safe : state.next_client_sequence + 1 ≤ max_safe_integer
    pub fresh : outbox_has input.operation_id state.outbox ≡ false
    pub unconfirmed : log_has input.operation_id state.confirmed_log ≡ false
    pub next_state :
        record state {
          next_client_sequence = state.next_client_sequence + 1;
          outbox = state.outbox ++ entry_for state input ∷ [];
        }
        ≡ next

  -- An operation whose enqueueing succeeds has usable identifiers, is new to the outbox and to the
  -- retained log, takes the client's next sequence number, and goes to the end of the outbox;
  -- nothing else changes.
  pub enqueue_operation-IsEnqueued :
      (state : ReplicaState State Intent Operation) (input : EnqueueOperationInput Intent)
      {next : ReplicaState State Intent Operation}
      → enqueue_operation state input ≡ ok next
      → IsEnqueued state input next
  unfolding enqueue_operation
  enqueue_operation-IsEnqueued state input {next} h =
      let (clients, h₁) = (>>-eq-ok (assert_non_empty_string "clientId" state.client_id) _).0 h in
      let (numbers, h₂) =
        (>>-eq-ok (assert_client_sequence "nextClientSequence" state.next_client_sequence) _).0
          h₁ in
      let (numbers', h₃) =
        (>>-eq-ok (assert_client_sequence "nextClientSequence" (state.next_client_sequence + 1))
            _).0
          h₂ in
      let (ids, h₄) =
        (>>-eq-ok (assert_non_empty_string "operationId" input.operation_id) _).0 h₃ in
      let (hashes, h₅) =
        (>>-eq-ok (assert_non_empty_string "intentHash" input.intent_hash) _).0 h₄ in
      let (base, retained, h₆) = >>=-eq-ok (assert_retained_confirmed_log state) _ h₅ in
      let (fresh, h₇) =
        (>>-eq-ok
            (throw_if
              (log_has input.operation_id state.confirmed_log
                || outbox_has input.operation_id state.outbox)
              (duplicate_operation_id input.operation_id))
            _).0
          h₆ in
      record {
        has_client_id = (assert_non_empty_string-eq-ok "clientId" _).0 clients;
        has_operation_id = (assert_non_empty_string-eq-ok "operationId" _).0 ids;
        has_intent_hash = (assert_non_empty_string-eq-ok "intentHash" _).0 hashes;
        positive = ((assert_client_sequence-eq-ok "nextClientSequence" _).0 numbers).positive;
        safe = ((assert_client_sequence-eq-ok "nextClientSequence" _).0 numbers').safe;
        fresh = ground (arith, (throw_if-eq-ok _ _).0 fresh);
        unconfirmed = ground (arith, (throw_if-eq-ok _ _).0 fresh);
        next_state = ok-injective h₇;
      }

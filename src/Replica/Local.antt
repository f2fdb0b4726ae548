-- ===== src/Replica/Local.antt =====
-- The client's own part of the state of src/replica.ts: its numbering of its operations.
use sync_engine_v.Base.{
  ℕ, ◌+◌, ◌<◌, String, ◌≡◌, ◌≢◌, refl, sym, ap, subst, List, [], ◌∷◌, ◌++◌, arith, All, All-append,
  All-map,
}
use sync_engine_v.Errors.{ok}
use sync_engine_v.Protocol.{ProposedOperation}
use sync_engine_v.Invariants.Identity.{IsIdentity}
use sync_engine_v.Invariants.Batch.Valid.{IsBatch, MayFollow}
use sync_engine_v.Replica.{OutboxEntry, ReplicaState, EnqueueOperationInput, enqueue_operation}
use sync_engine_v.Replica.Enqueue.{outbox_has-eq-false, entry_for, enqueue_operation-IsEnqueued}
use sync_engine_v.Replica.Prepare.{proposals_of}

-- Of this client, numbered before its next number.
abbrev pub IsOfClient : {Intent : Type 0} → String → ℕ → ProposedOperation Intent → Type 0
IsOfClient client_id next p = (p.client_id ≡ client_id) × (p.client_sequence < next)

-- The outbox is a valid batch of the client's own operations.
pub record IsLocal {State Intent Operation : Type 0} (state : ReplicaState State Intent Operation)
    : Type 0 where
  pub batch : IsBatch (proposals_of state.outbox)
  pub own : All (IsOfClient state.client_id state.next_client_sequence) (proposals_of state.outbox)

module _ {Intent Operation : Type 0} where
  proposals_of-append :
      (es : List (OutboxEntry Intent Operation)) (e : OutboxEntry Intent Operation)
      → proposals_of (es ++ e ∷ []) ≡ proposals_of es ++ e.proposal ∷ []
  proposals_of-append [] e = refl
  proposals_of-append (x ∷ xs) e = ap (λ ps. x.proposal ∷ ps) (proposals_of-append xs e)

  pub All-proposals_of :
      (P : ProposedOperation Intent → Type 0) (es : List (OutboxEntry Intent Operation))
      → All (λ e. P e.proposal) es
      → All P (proposals_of es)
  All-proposals_of P [] h = tt
  All-proposals_of P (e ∷ es) h = (h.0, All-proposals_of P es h.1)

module _ {Intent : Type 0} where
  IsBatch-append :
      (ps : List (ProposedOperation Intent)) (q : ProposedOperation Intent)
      → IsBatch ps
      → IsIdentity q.submission
      → All (λ p. MayFollow p q) ps
      → IsBatch (ps ++ q ∷ [])
  IsBatch-append [] q b valid follow = (valid, tt, tt)
  IsBatch-append (p ∷ ps) q b valid follow = (
    b.0,
    All-append (MayFollow p) ps (q ∷ []) b.1 (follow.0, tt),
    IsBatch-append ps q b.2 valid follow.1,
  )

  -- a proposal may follow all that are of other operations and numbered before it
  All-MayFollow :
      (client_id : String) (next : ℕ) (q : ProposedOperation Intent)
      (ps : List (ProposedOperation Intent))
      → q.client_sequence ≡ next
      → All (λ p. p.operation_id ≢ q.operation_id) ps
      → All (IsOfClient client_id next) ps
      → All (λ p. MayFollow p q) ps
  All-MayFollow client_id next q [] number fresh own = tt
  All-MayFollow client_id next q (p ∷ ps) number fresh own = (
    record { differs = fresh.0; ordered = λ same. omega (arith, own.0.1, number) },
    All-MayFollow client_id next q ps number fresh.1 own.1,
  )

module _ {State Intent Operation : Type 0} where
  -- Enqueueing keeps the outbox a valid batch of the client's own operations, each numbered before the
  -- client's next number.
  pub enqueue_operation-IsLocal :
      (state : ReplicaState State Intent Operation) (input : EnqueueOperationInput Intent)
      {next : ReplicaState State Intent Operation}
      → IsLocal state
      → enqueue_operation state input ≡ ok next
      → IsLocal next
  enqueue_operation-IsLocal state input l h =
      let q = enqueue_operation-IsEnqueued state input h in
      let e = entry_for {Operation = Operation} state input in
      let n = state.next_client_sequence in
      let fresh =
        All-proposals_of (λ p. p.operation_id ≢ input.operation_id) state.outbox
          (outbox_has-eq-false input.operation_id state.outbox q.fresh) in
      let valid : IsIdentity e.proposal.submission = record {
        has_operation_id = q.has_operation_id;
        has_client_id = q.has_client_id;
        sequence = record { positive = q.positive; safe = omega (arith, q.safe) };
        has_intent_hash = q.has_intent_hash;
      } in
      let more = sym (proposals_of-append state.outbox e) in
      subst IsLocal q.next_state (record {
        batch = subst IsBatch more (
            IsBatch-append (proposals_of state.outbox) e.proposal l.batch valid (
              All-MayFollow state.client_id n e.proposal (proposals_of state.outbox) refl fresh
                l.own));
        own = subst (All (IsOfClient state.client_id (n + 1))) more (
            All-append (IsOfClient state.client_id (n + 1)) (proposals_of state.outbox)
              (e.proposal ∷ [])
              (All-map (IsOfClient state.client_id n) (proposals_of state.outbox)
                (λ p h. (h.0, omega (arith, h.1))) l.own)
              ((refl, omega arith), tt));
      })

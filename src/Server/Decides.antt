-- ===== src/Server/Decides.antt =====
-- One decision of the authority as a step relation, and what every step keeps.
use sync_engine_v.Base.{
  String, ◌≡◌, refl, subst, ◌≢◌, true, Option, none, some, arith, str_eq, str_eq_iff, str_eq→eq,
  Option-cases, inl, inr,
}
use sync_engine_v.Base.Dict.{lookup, lookup-put}
use sync_engine_v.Errors.{ok, >>=-eq-ok, >>-eq-ok}
use sync_engine_v.Protocol.{
  OperationSubmissionIdentity, ProposedOperation, ProposalDecision, DecisionDraft, accept, reject,
}
use sync_engine_v.Server.{
  LogServer, StoredProposalDecision, client_position_key, repeat_decision, assert_position_unbound,
}
use sync_engine_v.Server.Direct.{
  Step, with_decision, reject_now, append_now, apply_draft, decide_known, decide_one,
}

module _ {State Intent Operation Rejection : Type 0} where
  -- The operation that a client position is bound to has been decided.
  pub record IsIndexed (server : LogServer State Intent Operation Rejection) : Type 0 where
    pub decided :
        (key id : String)
        → lookup key server.operation_id_by_client_position ≡ some id
        → lookup id server.decisions_by_operation_id ≢ none

  -- A proposal that nobody has decided, at a free client position.
  pub record IsNew (server : LogServer State Intent Operation Rejection)
      (p : ProposedOperation Intent) : Type 0 where
    pub unknown : lookup p.operation_id server.decisions_by_operation_id ≡ none
    pub unbound :
        assert_position_unbound
          (lookup (client_position_key p.identity) server.operation_id_by_client_position)
          p
        ≡ ok tt

  -- The outcomes of one decision.
  pub data DecidesTo (server : LogServer State Intent Operation Rejection)
      (p : ProposedOperation Intent) (r : Step State Intent Operation Rejection) : Type 0 where
    again :
        (stored : StoredProposalDecision Operation Rejection)
        → lookup p.operation_id server.decisions_by_operation_id ≡ some stored
        → repeat_decision stored p ≡ ok r.0
        → server ≡ r.1
        → DecidesTo server p r
    refused :
        (reason : Rejection)
        → IsNew server p
        → server.interpreter.decide server.state p ≡ ok (reject reason)
        → reject_now server p reason ≡ r
        → DecidesTo server p r
    appended :
        (operation : Operation) (next_state : State)
        → IsNew server p
        → server.interpreter.decide server.state p ≡ ok (accept operation)
        → server.interpreter.apply server.state operation ≡ ok next_state
        → append_now server p operation next_state ≡ r
        → DecidesTo server p r

  apply_draft-DecidesTo :
      (server : LogServer State Intent Operation Rejection) (p : ProposedOperation Intent)
      (draft : DecisionDraft Operation Rejection) (r : Step State Intent Operation Rejection)
      → IsNew server p
      → server.interpreter.decide server.state p ≡ ok draft
      → apply_draft server p draft ≡ ok r
      → DecidesTo server p r
  apply_draft-DecidesTo server p (reject reason) r fresh d h = refused reason fresh d (cc)
  apply_draft-DecidesTo server p (accept operation) r fresh d h =
      let (next_state, applied, e) = >>=-eq-ok _ _ h in
      appended operation next_state fresh d applied (cc)

  decide_known-DecidesTo :
      (server : LogServer State Intent Operation Rejection) (p : ProposedOperation Intent)
      (o : Option (StoredProposalDecision Operation Rejection))
      (r : Step State Intent Operation Rejection)
      → lookup p.operation_id server.decisions_by_operation_id ≡ o
      → decide_known server p o ≡ ok r
      → DecidesTo server p r
  decide_known-DecidesTo server p (some stored) r e h =
      let (decision, repeated, e') = >>=-eq-ok (repeat_decision stored p) _ h in
      again stored e (cc) (cc)
  decide_known-DecidesTo server p none r e h =
      let (unbound, h₁) = (>>-eq-ok _ _).0 h in
      let (draft, decided, h₂) = >>=-eq-ok (server.interpreter.decide server.state p) _ h₁ in
      apply_draft-DecidesTo server p draft r (record { unknown = e; unbound = unbound }) decided h₂

  pub decide_one-DecidesTo :
      (server : LogServer State Intent Operation Rejection) (p : ProposedOperation Intent)
      {r : Step State Intent Operation Rejection}
      → decide_one server p ≡ ok r
      → DecidesTo server p r
  unfolding decide_one
  decide_one-DecidesTo server p {r} h = decide_known-DecidesTo server p _ r refl h

  pub DecidesTo-decide_one :
      (server : LogServer State Intent Operation Rejection) (p : ProposedOperation Intent)
      {r : Step State Intent Operation Rejection}
      → DecidesTo server p r
      → decide_one server p ≡ ok r
  unfolding decide_one
  DecidesTo-decide_one server p (again stored e d same) = rw (e, d) (cc)
  DecidesTo-decide_one server p (refused reason fresh d same) =
      rw (fresh.unknown, fresh.unbound, d) (cc)
  DecidesTo-decide_one server p (appended operation next_state fresh d applied same) =
      rw (fresh.unknown, fresh.unbound, d, applied) (cc)

  pub IsIndexed-with_decision :
      (server : LogServer State Intent Operation Rejection) (identity : OperationSubmissionIdentity)
      (decision : ProposalDecision Operation Rejection)
      → IsIndexed server
      → IsIndexed (with_decision server identity decision)
  IsIndexed-with_decision server identity decision h = record {
    decided = λ key id e k. ground (
      arith,
      h.decided key id,
      lookup-put (client_position_key identity.identity) key identity.operation_id
          server.operation_id_by_client_position,
      lookup-put identity.operation_id id (record { identity = identity; decision = decision })
          server.decisions_by_operation_id,
      str_eq_iff identity.operation_id id,
    );
  }

  pub decide_one-IsIndexed :
      (server : LogServer State Intent Operation Rejection) (p : ProposedOperation Intent)
      {r : Step State Intent Operation Rejection}
      → DecidesTo server p r
      → IsIndexed server
      → IsIndexed r.1
  decide_one-IsIndexed server p {r} (again stored e d same) h = rw (← same) h
  decide_one-IsIndexed server p {r} (refused reason fresh d same) h =
      subst (λ r. IsIndexed r.1) same (IsIndexed-with_decision server p.submission _ h)
  decide_one-IsIndexed server p {r} (appended operation next_state fresh d applied same) h =
      subst (λ r. IsIndexed r.1) same
        (IsIndexed-with_decision _ p.submission _ (record { decided = h.decided }))

  -- A new proposal is at a position that nothing is bound to.
  pub IsNew-free :
      (server : LogServer State Intent Operation Rejection) (p : ProposedOperation Intent)
      → IsIndexed server
      → IsNew server p
      → lookup (client_position_key p.identity) server.operation_id_by_client_position ≡ none
  IsNew-free server p i fresh =
      elim (Option-cases
        (lookup (client_position_key p.identity) server.operation_id_by_client_position)) [
          | inl free ↦ free
          | inr (id, bound) ↦
              let same : str_eq id p.operation_id ≡ true =
                unfold assert_position_unbound in ground (arith, fresh.unbound, bound) in
              absurd (i.decided _ id bound (rw (str_eq→eq same) fresh.unknown))
        ]

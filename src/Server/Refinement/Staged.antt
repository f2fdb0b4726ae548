-- ===== src/Server/Refinement/Staged.antt =====
-- src/server.ts: what a step has staged, and the server that publishing it makes.
use sync_engine_v.Base.{
  ◌+◌, ◌≡◌, refl, ap, inl, inr, [], ◌∷◌, ◌++◌, append_assoc, none, length, length-append,
}
use sync_engine_v.Base.Dict.{lookup, Overlays, Overlays-put, put_all-put}
use sync_engine_v.Errors.{Result, ok, err, Result-cases, ◌>>=◌}
use sync_engine_v.Protocol.{
  OperationSubmissionIdentity, ProposedOperation, accepted, ProposalDecision, DecisionDraft, accept,
  reject,
}
use sync_engine_v.Server.{
  LogServer, StagedServerTransition, Decided, client_position_key, create_stored_decision,
  stage_decision, committed_as, stage_rejected, stage_accepted, stage_draft, publish,
}
use sync_engine_v.Server.Direct.{Step, with_decision, reject_now, append_now, apply_draft}

module _ {State Intent Operation Rejection : Type 0} where
  -- The staged maps lie over the server's.
  pub record IsStaged (server : LogServer State Intent Operation Rejection)
      (staged : StagedServerTransition State Operation Rejection) : Type 0 where
    pub decisions : Overlays server.decisions_by_operation_id staged.decisions_by_operation_id
    pub positions :
        Overlays server.operation_id_by_client_position staged.operation_id_by_client_position

  -- publish what a step has staged
  abbrev pub published :
      LogServer State Intent Operation Rejection
      → Result (Decided State Operation Rejection)
      → Result (Step State Intent Operation Rejection)
  published server (err e) = err e
  published server (ok (decision, staged)) = ok (decision, publish server staged)

  pub published-bind :
      {A : Type 0} (server : LogServer State Intent Operation Rejection) (m : Result A)
      (f : A → Result (Decided State Operation Rejection))
      (g : A → Result (Step State Intent Operation Rejection))
      → ((a : A) → published server (f a) ≡ g a)
      → published server (m >>= f) ≡ (m >>= g)
  published-bind server (ok a) f g h = h a
  published-bind server (err e) f g h = refl

  abbrev pub StaysStaged :
      LogServer State Intent Operation Rejection
      → Result (Decided State Operation Rejection)
      → Type 0
  StaysStaged server (err e) = Unit
  StaysStaged server (ok (decision, staged)) = IsStaged server staged

  pub StaysStaged-bind :
      {A : Type 0} (server : LogServer State Intent Operation Rejection) (m : Result A)
      (f : A → Result (Decided State Operation Rejection))
      → ((a : A) → StaysStaged server (f a))
      → StaysStaged server (m >>= f)
  StaysStaged-bind server (ok a) f h = h a
  StaysStaged-bind server (err e) f h = tt

  publish-stage_decision :
      (server : LogServer State Intent Operation Rejection)
      (staged : StagedServerTransition State Operation Rejection)
      (identity : OperationSubmissionIdentity) (decision : ProposalDecision Operation Rejection)
      → lookup identity.operation_id staged.decisions_by_operation_id ≡ none
      → lookup (client_position_key identity.identity) staged.operation_id_by_client_position ≡ none
      → publish server (stage_decision staged identity decision)
        ≡ with_decision (publish server staged) identity decision
  unfolding publish stage_decision
  publish-stage_decision server staged identity decision h k = cc (
    put_all-put server.decisions_by_operation_id staged.decisions_by_operation_id
        identity.operation_id (create_stored_decision identity decision) h,
    put_all-put server.operation_id_by_client_position staged.operation_id_by_client_position
        (client_position_key identity.identity) identity.operation_id k,
  )

  IsStaged-stage_decision :
      (server : LogServer State Intent Operation Rejection)
      (staged : StagedServerTransition State Operation Rejection)
      (identity : OperationSubmissionIdentity) (decision : ProposalDecision Operation Rejection)
      → lookup identity.operation_id staged.decisions_by_operation_id ≡ none
      → lookup (client_position_key identity.identity) staged.operation_id_by_client_position ≡ none
      → IsStaged server staged
      → IsStaged server (stage_decision staged identity decision)
  unfolding stage_decision
  IsStaged-stage_decision server staged identity decision h k s = record {
    decisions = Overlays-put _ _ _ _ h s.decisions;
    positions = Overlays-put _ _ _ _ k s.positions;
  }

  -- A draft that is staged and published is the draft applied to the published server.
  module _ (server : LogServer State Intent Operation Rejection)
      (staged : StagedServerTransition State Operation Rejection)
      (proposal : ProposedOperation Intent)
      (unseen : lookup proposal.operation_id staged.decisions_by_operation_id ≡ none)
      (unbound : lookup
          (client_position_key proposal.identity)
          staged.operation_id_by_client_position
        ≡ none) where
    abbrev publish_step : Decided State Operation Rejection → Step State Intent Operation Rejection
    publish_step (decision, staged') = (decision, publish server staged')

    stage_rejected-published :
        (reason : Rejection)
        → publish_step (stage_rejected staged proposal reason)
          ≡ reject_now (publish server staged) proposal reason
    unfolding stage_rejected
    stage_rejected-published reason =
        cc (publish-stage_decision server staged proposal.submission _ unseen unbound)

    stage_accepted-published :
        (operation : Operation) (next_state : State)
        → publish_step (stage_accepted server staged proposal operation next_state)
          ≡ append_now (publish server staged) proposal operation next_state
    unfolding stage_accepted publish
    stage_accepted-published operation next_state = rw (length-append server.log staged.entries) (
        cc (
          append_assoc server.log staged.entries (
              committed_as (length server.log + length staged.entries + 1) proposal operation ∷ []),
          put_all-put server.decisions_by_operation_id staged.decisions_by_operation_id
              proposal.operation_id
              (record {
                identity = proposal.submission;
                decision = record {
                  operation_id = proposal.operation_id;
                  outcome = accepted (length server.log + length staged.entries + 1) operation;
                };
              })
              unseen,
          put_all-put server.operation_id_by_client_position staged.operation_id_by_client_position
              (client_position_key proposal.identity) proposal.operation_id unbound,
        ))

    pub stage_draft-published :
        (draft : DecisionDraft Operation Rejection)
        → published server (stage_draft server staged proposal draft)
          ≡ apply_draft (publish server staged) proposal draft
    unfolding stage_draft
    stage_draft-published (reject reason) = ap ok (stage_rejected-published reason)
    stage_draft-published (accept operation) =
        elim (Result-cases (server.interpreter.apply staged.state operation)) [
          | inl (e, failed) ↦ unfold publish in rw failed
          | inr (next_state, applied) ↦
              unfold publish in rw applied (ap ok (stage_accepted-published operation next_state))
        ]

    -- What `stage_draft` leaves lies over the server's maps.
    pub stage_draft-StaysStaged :
        IsStaged server staged
        → (draft : DecisionDraft Operation Rejection)
        → StaysStaged server (stage_draft server staged proposal draft)
    unfolding stage_draft
    stage_draft-StaysStaged s (reject reason) =
        IsStaged-stage_decision server staged proposal.submission _ unseen unbound s
    stage_draft-StaysStaged s (accept operation) =
        elim (Result-cases (server.interpreter.apply staged.state operation)) [
          | inl (e, failed) ↦ rw failed tt
          | inr (next_state, applied) ↦ rw applied (
              IsStaged-stage_decision server
                (record staged {
                  state = next_state;
                  entries =
                      staged.entries
                      ++ committed_as (length server.log + length staged.entries + 1) proposal
                          operation
                        ∷ [];
                })
                proposal.submission _ unseen unbound
                (record { decisions = s.decisions; positions = s.positions }))
        ]

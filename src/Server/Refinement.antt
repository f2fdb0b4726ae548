-- ===== src/Server/Refinement.antt =====
-- The batch of src/server.ts, which works on a staged transition and publishes it at the end, does
-- what the direct decisions do one after the other.
mod Staged
use sync_engine_v.Base.{
  ℕ, suc, ◌+◌, String, ◌≡◌, refl, sym, ap, ◌∙◌, ◌≢◌, ◌⊎◌, inl, inr, Bool, true, false, List, [],
  ◌∷◌, ◌++◌, append_assoc, append-nil, Option, none, some, arith, length, length-append, Bool-cases,
  Option-cases, str_eq, str_eq→eq,
}
use sync_engine_v.Base.Dict.{
  Dict, lookup, put, put_all, or_else, Overlays, Overlays-nil, Overlays-put, put_all-put,
}
use sync_engine_v.Errors.{
  SyncError, Result, ok, err, Result-cases, ok-injective, ok-ne-err, ◌>>=◌, ◌>>◌,
}
use sync_engine_v.Protocol.{
  OperationSubmissionIdentity, ProposedOperation, CommittedOperation, accepted, rejected,
  ProposalDecision, DecisionDraft, accept, reject,
}
use sync_engine_v.Server.{
  LogServer, StoredProposalDecision, StagedServerTransition, Decided, client_position_key,
  create_stored_decision, stage_decision, repeat_decision, assert_position_unbound, committed_as,
  stage_rejected, stage_accepted, stage_draft, decide_proposal, dispatch_proposal, process_proposal,
  process_proposals, publish, empty_transition,
}
use sync_engine_v.Server.Decides.{IsIndexed, decide_one-DecidesTo, decide_one-IsIndexed}
use sync_engine_v.Server.Direct.{
  Step, with_decision, reject_now, append_now, apply_draft, decide_new, decide_known, decide_one,
  decide_all,
}
use sync_engine_v.Server.Refinement.Staged.{
  IsStaged, published, published-bind, StaysStaged, StaysStaged-bind, stage_draft-published,
  stage_draft-StaysStaged,
}

module _ {State Intent Operation Rejection : Type 0} where
  -- a draft of a proposal whose operation id nobody has used
  module _ (server : LogServer State Intent Operation Rejection)
      (staged : StagedServerTransition State Operation Rejection)
      (proposal : ProposedOperation Intent) (s : IsStaged server staged)
      (indexed : IsIndexed (publish server staged))
      (unseen : lookup proposal.operation_id staged.decisions_by_operation_id ≡ none)
      (unknown : lookup proposal.operation_id server.decisions_by_operation_id ≡ none) where
    abbrev key : String
    key = client_position_key proposal.identity

    bound_to_another :
        (id : String)
        → lookup key staged.operation_id_by_client_position ≡ some id
        → str_eq id proposal.operation_id ≡ false
    unfolding publish
    bound_to_another id h = elim (Bool-cases (str_eq id proposal.operation_id)) [
      | inl same ↦
          let same_id : id ≡ proposal.operation_id = str_eq→eq same in
          let bound = indexed.decided key id (rw (s.positions.at key, h)) in
          absurd (bound (rw same_id (rw (s.decisions.at proposal.operation_id, unseen) unknown)))
      | inr other ↦ other
    ]

    decide_proposal-published :
        published server (decide_proposal server staged proposal)
        ≡ decide_new (publish server staged) proposal
    unfolding decide_proposal publish
    decide_proposal-published =
        elim (Option-cases (lookup key staged.operation_id_by_client_position)) [
          | inl unbound ↦
              rw (s.positions.at key, unbound)
                (published-bind server _ _ _ λ _.
                  published-bind server (server.interpreter.decide staged.state proposal) _ _
                    (stage_draft-published server staged proposal unseen unbound))
          | inr (id, bound) ↦
              rw (s.positions.at key, bound)
                (unfold assert_position_unbound in rw (bound_to_another id bound))
        ]

    decide_proposal-StaysStaged : StaysStaged server (decide_proposal server staged proposal)
    unfolding decide_proposal
    decide_proposal-StaysStaged =
        elim (Option-cases (lookup key staged.operation_id_by_client_position)) [
          | inl unbound ↦ StaysStaged-bind server _ _ λ _.
              StaysStaged-bind server (server.interpreter.decide staged.state proposal) _
                (stage_draft-StaysStaged server staged proposal unseen unbound s)
          | inr (id, bound) ↦
              rw bound (unfold assert_position_unbound in rw (bound_to_another id bound) tt)
        ]

  module _ (server : LogServer State Intent Operation Rejection)
      (staged : StagedServerTransition State Operation Rejection)
      (proposal : ProposedOperation Intent) (s : IsStaged server staged)
      (indexed : IsIndexed (publish server staged)) where
    abbrev known : Option (StoredProposalDecision Operation Rejection)
    known =
        or_else (lookup proposal.operation_id staged.decisions_by_operation_id)
          (lookup proposal.operation_id server.decisions_by_operation_id)

    -- an operation id that is not known is in neither map
    not_known :
        known ≡ none
        → (lookup proposal.operation_id staged.decisions_by_operation_id ≡ none)
          × (lookup proposal.operation_id server.decisions_by_operation_id ≡ none)
    not_known h = ground arith

    dispatch-published :
        (o : Option (StoredProposalDecision Operation Rejection))
        → known ≡ o
        → published server (dispatch_proposal server staged proposal o)
          ≡ decide_known (publish server staged) proposal o
    dispatch-published (some stored) h =
        published-bind server (repeat_decision stored proposal) _ _ (λ _. refl)
    dispatch-published none h =
        let (unseen, unknown) = not_known h in
        decide_proposal-published server staged proposal s indexed unseen unknown

    process_proposal-published :
        published server (process_proposal server staged proposal)
        ≡ decide_one (publish server staged) proposal
    unfolding process_proposal decide_one publish
    process_proposal-published =
        rw (s.decisions.at proposal.operation_id) (dispatch-published known refl)

    dispatch-StaysStaged :
        (o : Option (StoredProposalDecision Operation Rejection))
        → known ≡ o
        → StaysStaged server (dispatch_proposal server staged proposal o)
    dispatch-StaysStaged (some stored) h =
        StaysStaged-bind server (repeat_decision stored proposal) _ (λ _. s)
    dispatch-StaysStaged none h =
        let (unseen, unknown) = not_known h in
        decide_proposal-StaysStaged server staged proposal s indexed unseen unknown

    process_proposal-StaysStaged : StaysStaged server (process_proposal server staged proposal)
    unfolding process_proposal
    process_proposal-StaysStaged = dispatch-StaysStaged known refl

  abbrev pub publish_all :
      LogServer State Intent Operation Rejection
      → Result (
          List (ProposalDecision Operation Rejection)
          × StagedServerTransition State Operation Rejection)
      → Result
          (List (ProposalDecision Operation Rejection) × LogServer State Intent Operation Rejection)
  publish_all server (err e) = err e
  publish_all server (ok (decisions, staged)) = ok (decisions, publish server staged)

  publish_all-cons :
      (server : LogServer State Intent Operation Rejection)
      (decision : ProposalDecision Operation Rejection)
      (m : Result (
        List (ProposalDecision Operation Rejection)
        × StagedServerTransition State Operation Rejection))
      (m' : Result
        (List (ProposalDecision Operation Rejection) × LogServer State Intent Operation Rejection))
      → publish_all server m ≡ m'
      → publish_all server (m >>= λ x. ok (decision ∷ x.0, x.1))
        ≡ (m' >>= λ x. ok (decision ∷ x.0, x.1))
  publish_all-cons server decision (ok r) m' h = rw (← h)
  publish_all-cons server decision (err e) m' h = rw (← h)

  process_proposals-published :
      (server : LogServer State Intent Operation Rejection)
      (staged : StagedServerTransition State Operation Rejection)
      (proposals : List (ProposedOperation Intent))
      → IsStaged server staged
      → IsIndexed (publish server staged)
      → publish_all server (process_proposals server staged proposals)
        ≡ decide_all (publish server staged) proposals
  unfolding process_proposals decide_all
  process_proposals-published server staged [] s indexed = refl
  process_proposals-published server staged (proposal ∷ rest) s indexed =
      let direct = process_proposal-published server staged proposal s indexed in
      elim (Result-cases (process_proposal server staged proposal)) [
        | inl (e, failed) ↦ rw (failed, ← (rw failed at direct)) refl
        | inr ((decision, staged'), decided) ↦
            let step = rw decided at direct in
            let s' =
              rw decided at (process_proposal-StaysStaged server staged proposal s indexed) in
            let indexed' =
              decide_one-IsIndexed (publish server staged) proposal
                (decide_one-DecidesTo (publish server staged) proposal (sym step)) indexed in
            rw (decided, ← step)
              (publish_all-cons server decision _ _
                (process_proposals-published server staged' rest s' indexed'))
      ]

  publish-empty_transition :
      (server : LogServer State Intent Operation Rejection)
      → publish server (empty_transition server) ≡ server
  unfolding publish put_all
  publish-empty_transition server = rw (append-nil server.log)

  IsStaged-empty_transition :
      (server : LogServer State Intent Operation Rejection)
      → IsStaged server (empty_transition server)
  IsStaged-empty_transition server = record {
    decisions = Overlays-nil _;
    positions = Overlays-nil _;
  }

  -- Deciding a batch on a staged transition and publishing it has the outcome, error or not, of
  -- deciding its proposals directly one after the other, on a server whose client positions are
  -- bound to decided operations.
  pub process_proposals-decide_all :
      (server : LogServer State Intent Operation Rejection)
      (proposals : List (ProposedOperation Intent))
      → IsIndexed server
      → publish_all server (process_proposals server (empty_transition server) proposals)
        ≡ decide_all server proposals
  process_proposals-decide_all server proposals indexed = rw (publish-empty_transition server) at (
      process_proposals-published server (empty_transition server) proposals
        (IsStaged-empty_transition server) (rw (publish-empty_transition server) indexed))

  publish_all-eq-ok :
      (server : LogServer State Intent Operation Rejection)
      (r : Result (
        List (ProposalDecision Operation Rejection)
        × StagedServerTransition State Operation Rejection))
      {ds : List (ProposalDecision Operation Rejection)}
      {last : LogServer State Intent Operation Rejection}
      → publish_all server r ≡ ok (ds, last)
      → (staged : StagedServerTransition State Operation Rejection) × (r ≡ ok (ds, staged))
        × (publish server staged ≡ last)
  publish_all-eq-ok server (err e) h = absurd (ok-ne-err (sym h))
  publish_all-eq-ok server (ok (ds', staged)) h =
      (staged, cc (ok-injective h), ap (λ r. r.1) (ok-injective h))

  -- So a batch that can be decided directly can be staged, and publishing gives the same server.
  pub decide_all-staged :
      (server : LogServer State Intent Operation Rejection)
      (proposals : List (ProposedOperation Intent))
      {ds : List (ProposalDecision Operation Rejection)}
      {last : LogServer State Intent Operation Rejection}
      → IsIndexed server
      → decide_all server proposals ≡ ok (ds, last)
      → (staged : StagedServerTransition State Operation Rejection) × (process_proposals server
            (empty_transition server)
            proposals
          ≡ ok (ds, staged))
        × (publish server staged ≡ last)
  decide_all-staged server proposals i h =
      publish_all-eq-ok server _ (process_proposals-decide_all server proposals i ∙ h)

-- ===== src/Server/Snapshot.antt =====
-- `snapshot` of src/server.ts, and the constructor that starts from what it gives.
use sync_engine_v.Base.{
  String, ◌-◌, ◌≤◌, ◌≡◌, refl, ap, inl, inr, List, [], ◌∷◌, ◌++◌, none, some, true, arith, All,
  get_elem?-lt, length, str_eq_refl, ◌==◌,
}
use sync_engine_v.Base.Dict.{Dict, lookup, values, put-fresh, lookup-append, values-append}
use sync_engine_v.Errors.{ok, Result-cases, ◌>>=◌}
use sync_engine_v.Limits.{max_safe_integer}
use sync_engine_v.Protocol.{
  OperationSubmissionIdentity, CommittedOperation, ProposalOutcome, accepted, rejected,
}
use sync_engine_v.Invariants.Identity.{
  IsIdentity, submitted_as, entry_of, assert_submission_identity-eq-ok,
  assert_non_empty_string-eq-ok, assert_log_sequence,
}
use sync_engine_v.Server.{
  LogServer, StoredProposalDecision, assert_identity_matches_entry, assert_outcome_sequence,
  restore_decision, restore_decisions, check_log_entries, check_stored_entry,
  check_stored_decisions,
}
use sync_engine_v.Server.Consistent.{IsLogged, stored_for}
use sync_engine_v.Server.Register.{id_of, place_of, Registers, empty, one_more}

module _ {Operation Rejection : Type 0} where
  -- What restoring needs of a decision on record beside a usable identity.
  pub record IsOwnDecision (stored : StoredProposalDecision Operation Rejection) : Type 0 where
    pub own : stored.decision.operation_id ≡ id_of stored
    pub sequence : assert_outcome_sequence stored.decision.outcome ≡ ok tt

module _ {State Intent Operation Rejection : Type 0} where
  abbrev with_maps :
      LogServer State Intent Operation Rejection
      → Dict (StoredProposalDecision Operation Rejection)
      → Dict String
      → LogServer State Intent Operation Rejection
  with_maps server decisions places = record server {
    decisions_by_operation_id = decisions;
    operation_id_by_client_position = places;
  }

  restore_decisions-append :
      (server : LogServer State Intent Operation Rejection)
      (stored : StoredProposalDecision Operation Rejection)
      (decisions : List (StoredProposalDecision Operation Rejection))
      → restore_decisions server (decisions ++ stored ∷ [])
        ≡ (restore_decisions server decisions >>= λ next. restore_decision next stored)
  unfolding restore_decisions
  restore_decisions-append server stored [] = elim (Result-cases (restore_decision server stored)) [
    | inl (e, failed) ↦ rw failed refl
    | inr (next, restored) ↦ rw restored refl
  ]
  restore_decisions-append server stored (d ∷ ds) =
      elim (Result-cases (restore_decision server d)) [
        | inl (e, failed) ↦ rw failed refl
        | inr (next, restored) ↦ rw restored (restore_decisions-append next stored ds)
      ]

  restore_decision-fresh :
      (server : LogServer State Intent Operation Rejection)
      (stored : StoredProposalDecision Operation Rejection)
      → IsIdentity stored.identity
      → IsOwnDecision stored
      → lookup (id_of stored) server.decisions_by_operation_id ≡ none
      → lookup (place_of stored) server.operation_id_by_client_position ≡ none
      → restore_decision server stored
        ≡ ok (
            with_maps server
              (server.decisions_by_operation_id ++ (id_of stored, stored) ∷ [])
              (server.operation_id_by_client_position ++ (place_of stored, id_of stored) ∷ []))
  unfolding restore_decision
  restore_decision-fresh server stored valid own free free_place =
      rw
        (
          put-fresh (id_of stored) stored server.decisions_by_operation_id free,
          put-fresh (place_of stored) (id_of stored) server.operation_id_by_client_position
              free_place,
          (assert_submission_identity-eq-ok "stored decision identity" stored.identity).1 valid,
          own.own,
          (assert_non_empty_string-eq-ok "stored decision operationId" (id_of stored)).1
              valid.has_operation_id,
          str_eq_refl (id_of stored),
          own.sequence,
          free,
          free_place,
        )
        refl

  -- Restoring what is on record, in its order, makes the maps anew.
  pub restore_decisions-Registers :
      (server : LogServer State Intent Operation Rejection)
      {decisions : Dict (StoredProposalDecision Operation Rejection)} {places : Dict String}
      → server.decisions_by_operation_id ≡ []
      → server.operation_id_by_client_position ≡ []
      → Registers decisions places
      → ((stored : StoredProposalDecision Operation Rejection)
          → lookup (id_of stored) decisions ≡ some stored
          → IsOwnDecision stored)
      → restore_decisions server (values decisions) ≡ ok (with_maps server decisions places)
  unfolding restore_decisions values lookup
  restore_decisions-Registers server no_decisions no_places empty own =
      ap ok (rw (← no_decisions, ← no_places) refl)
  restore_decisions-Registers server no_decisions no_places
        (one_more {decisions = decisions} {places = places} stored r valid free free_place) own =
      let entry : Dict (StoredProposalDecision Operation Rejection) = (id_of stored, stored) ∷ [] in
      let last : lookup (id_of stored) (decisions ++ entry) ≡ some stored =
        rw (lookup-append (id_of stored) decisions entry, free, str_eq_refl (id_of stored)) refl in
      rw
        (
          values-append decisions entry,
          restore_decisions-append server stored (values decisions),
          restore_decisions-Registers server no_decisions no_places r
              λ s h. own s (rw (lookup-append (id_of s) decisions entry, h) refl),
        )
        (restore_decision-fresh (with_maps server decisions places) stored valid (own stored last)
          free free_place)

module _ {Operation : Type 0} where
  assert_identity_matches_entry_self :
      (e : CommittedOperation Operation) → assert_identity_matches_entry (submitted_as e) e ≡ ok tt
  unfolding assert_identity_matches_entry
  assert_identity_matches_entry_self e = ground (
    arith,
    str_eq_refl e.operation_id,
    str_eq_refl e.origin.client_id,
    str_eq_refl e.origin.intent_hash,
  )

module _ {Operation Rejection : Type 0} where
  -- a log whose entries are on record passes
  pub check_log_entries-eq-ok :
      (decisions : Dict (StoredProposalDecision Operation Rejection))
      (log : List (CommittedOperation Operation))
      → All (λ e. lookup e.operation_id decisions ≡ some (stored_for e)) log
      → check_log_entries decisions log ≡ ok tt
  unfolding check_log_entries
  check_log_entries-eq-ok decisions [] h = refl
  check_log_entries-eq-ok decisions (e ∷ es) h =
      let same : (e.sequence == e.sequence) ≡ true = ground arith in
      rw (h.0, same, assert_identity_matches_entry_self e)
        (check_log_entries-eq-ok decisions es h.1)

  check_stored_entry-IsLogged :
      (log : List (CommittedOperation Operation))
      (stored : StoredProposalDecision Operation Rejection)
      (outcome : ProposalOutcome Operation Rejection)
      → stored.decision.outcome ≡ outcome
      → IsLogged log stored.identity outcome
      → check_stored_entry log stored ≡ ok tt
  check_stored_entry-IsLogged log stored (rejected reason) same h = rw same refl
  check_stored_entry-IsLogged log stored (accepted sequence operation) same (i, at, there) =
      let place : sequence - 1 ≡ i = omega (arith, at) in
      rw
        (
          same,
          place,
          there,
          str_eq_refl (id_of stored),
          assert_identity_matches_entry_self (entry_of stored.identity sequence operation),
        )
        refl

  -- decisions that stand in the log pass
  pub check_stored_decisions-eq-ok :
      (log : List (CommittedOperation Operation))
      (decisions : List (StoredProposalDecision Operation Rejection))
      → All (λ stored. IsLogged log stored.identity stored.decision.outcome) decisions
      → check_stored_decisions log decisions ≡ ok tt
  unfolding check_stored_decisions
  check_stored_decisions-eq-ok log [] h = refl
  check_stored_decisions-eq-ok log (d ∷ ds) h =
      rw (check_stored_entry-IsLogged log d d.decision.outcome refl h.0)
        (check_stored_decisions-eq-ok log ds h.1)

  pub assert_outcome_sequence-IsLogged :
      (log : List (CommittedOperation Operation)) (identity : OperationSubmissionIdentity)
      (outcome : ProposalOutcome Operation Rejection)
      → length log ≤ max_safe_integer
      → IsLogged log identity outcome
      → assert_outcome_sequence outcome ≡ ok tt
  unfolding assert_log_sequence
  assert_outcome_sequence-IsLogged log identity (rejected reason) safe h = refl
  assert_outcome_sequence-IsLogged log identity (accepted sequence operation) safe (i, at, there) =
      ground (arith, at, get_elem?-lt log i there)

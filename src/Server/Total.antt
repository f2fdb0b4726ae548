-- ===== src/Server/Total.antt =====
-- The response of a consistent authority always passes `assertSyncResponse` of src/server.ts.
use sync_engine_v.Base.{
  ℕ, suc, ◌+◌, ◌≤◌, min, String, ◌≡◌, refl, sym, ap, subst, ◌∙◌, ◌≢◌, inl, inr, Bool-cases, str_eq,
  str_eq→eq, List, [], ◌∷◌, Option, none, some, arith, All, length, length-slice, get_elem?-lt,
  slice, some-injective,
}
use sync_engine_v.Base.Dict.{Dict, lookup, put, lookup-put}
use sync_engine_v.Errors.{ok}
use sync_engine_v.Limits.{IsPositive, max_safe_integer}
use sync_engine_v.Protocol.{
  ProposedOperation, CommittedOperation, ProposalOutcome, accepted, rejected, ProposalDecision,
  SyncRequest,
}
use sync_engine_v.Invariants.Identity.{IsIdentity}
use sync_engine_v.Invariants.Batch.Valid.{IsBatch, MayFollow, IsRequest}
use sync_engine_v.Invariants.Response.Valid.{IsDecision, IsAnswer, IsResponse}
use sync_engine_v.Invariants.Response.Entries.{Agrees, index_entries}
use sync_engine_v.Server.{LogServer, StoredProposalDecision, repeat_decision}
use sync_engine_v.Server.Growth.{DecidesTo-IsDecided}
use sync_engine_v.Server.Batch.{DecidesAll, done, next, DecidesAll-Extends}
use sync_engine_v.Server.Sync.{answer}
use sync_engine_v.Server.Consistent.{stored_for, IsLogged, IsConsistent}
use sync_engine_v.Server.Page.{Recorded, slice-IsPage, slice-Recorded}

module _ {Intent Operation Rejection : Type 0} where
  repeat_decision-eq-ok :
      (stored : StoredProposalDecision Operation Rejection) (p : ProposedOperation Intent)
      {d : ProposalDecision Operation Rejection}
      → repeat_decision stored p ≡ ok d
      → stored.decision ≡ d
  unfolding repeat_decision
  repeat_decision-eq-ok stored p h = ground arith

module _ {Operation : Type 0} (P : CommittedOperation Operation → Type 0) where
  -- what an index finds is one of the indexed entries, under its operation id
  abbrev Finds : Dict (CommittedOperation Operation) → Type 0
  Finds d =
      (id : String) (e : CommittedOperation Operation)
      → lookup id d ≡ some e
      → P e × (e.operation_id ≡ id)

  Finds-put :
      (d : Dict (CommittedOperation Operation)) (e : CommittedOperation Operation)
      → P e
      → Finds d
      → Finds (put e.operation_id e d)
  Finds-put d e pe f id e' h =
      let found = sym (lookup-put e.operation_id id e d) ∙ h in
      elim (Bool-cases (str_eq e.operation_id id)) [
        | inl same ↦
            subst (λ (x : CommittedOperation Operation). P x × (x.operation_id ≡ id))
              (some-injective (rw same at found)) (pe, str_eq→eq same)
        | inr other ↦ f id e' (rw other at found)
      ]

  Finds-index_entries :
      (d : Dict (CommittedOperation Operation)) (es : List (CommittedOperation Operation))
      → All P es
      → Finds d
      → Finds (index_entries d es)
  unfolding index_entries
  Finds-index_entries d [] all f = f
  Finds-index_entries d (e ∷ es) all f =
      Finds-index_entries (put e.operation_id e d) es all.1 (Finds-put d e all.0 f)

module _ {State Intent Operation Rejection : Type 0} where
  -- `d` is the decision that the server has on record for `p`.
  pub record Answers (server : LogServer State Intent Operation Rejection)
      (p : ProposedOperation Intent) (d : ProposalDecision Operation Rejection) : Type 0 where
    pub stored : StoredProposalDecision Operation Rejection
    pub known : lookup p.operation_id server.decisions_by_operation_id ≡ some stored
    pub decision : stored.decision ≡ d

  abbrev pub AnswersAll :
      LogServer State Intent Operation Rejection
      → List (ProposedOperation Intent)
      → List (ProposalDecision Operation Rejection)
      → Type 0
  AnswersAll server [] [] = Unit
  AnswersAll server (p ∷ ps) (d ∷ ds) = Answers server p d × AnswersAll server ps ds
  AnswersAll server [] (d ∷ ds) = ⊥
  AnswersAll server (p ∷ ps) [] = ⊥

  pub DecidesAll-AnswersAll :
      {server last : LogServer State Intent Operation Rejection}
      {ps : List (ProposedOperation Intent)} {ds : List (ProposalDecision Operation Rejection)}
      → DecidesAll server ps ds last
      → AnswersAll last ps ds
  DecidesAll-AnswersAll done = tt
  DecidesAll-AnswersAll (next {p = p} step rest) =
      let (stored, noted, repeated) = DecidesTo-IsDecided _ p step in
      (
        record {
          stored = stored;
          known = (DecidesAll-Extends rest).decisions _ stored noted;
          decision = repeat_decision-eq-ok stored p repeated;
        },
        DecidesAll-AnswersAll rest,
      )

module _ {State Intent Operation Rejection : Type 0} (initial : State)
    (server : LogServer State Intent Operation Rejection) (c : IsConsistent initial server)
    (safe : length server.log ≤ max_safe_integer) where
  -- the outcome on record for an entry's operation is that of the entry
  outcome_of_entry :
      (id : String) (stored : StoredProposalDecision Operation Rejection)
      (outcome : ProposalOutcome Operation Rejection) (e : CommittedOperation Operation)
      → lookup id server.decisions_by_operation_id ≡ some stored
      → stored.decision.outcome ≡ outcome
      → Recorded initial server c e × (e.operation_id ≡ id)
      → outcome ≡ accepted e.sequence e.operation
  outcome_of_entry id stored outcome e h same (recorded, own) =
      let found : stored ≡ stored_for e = cc (h, recorded, own) in
      sym same ∙ ap (λ (s : StoredProposalDecision Operation Rejection). s.decision.outcome) found

  logged-Agrees :
      (id : String) (stored : StoredProposalDecision Operation Rejection)
      (outcome : ProposalOutcome Operation Rejection) (o : Option (CommittedOperation Operation))
      → lookup id server.decisions_by_operation_id ≡ some stored
      → stored.decision.outcome ≡ outcome
      → IsLogged server.log stored.identity outcome
      → ((e : CommittedOperation Operation)
          → o ≡ some e
          → Recorded initial server c e × (e.operation_id ≡ id))
      → Agrees (length server.log) o outcome
  logged-Agrees id stored (accepted sequence operation) none h same (i, e, at) found =
      let inside = get_elem?-lt server.log i at in
      (record { positive = omega arith; safe = omega arith }, omega arith)
  logged-Agrees id stored (accepted sequence operation) (some entry) h same (i, e, at) found =
      let inside = get_elem?-lt server.log i at in
      let own =
        outcome_of_entry id stored (accepted sequence operation) entry h same (found entry refl) in
      (record { positive = omega arith; safe = omega arith }, omega arith, cc own)
  logged-Agrees id stored (rejected reason) none h same logged found = tt
  logged-Agrees id stored (rejected reason) (some entry) h same logged found =
      cc (outcome_of_entry id stored (rejected reason) entry h same (found entry refl))

  -- a decision is under the operation id of its proposal
  pub Answers-id :
      (p : ProposedOperation Intent) (d : ProposalDecision Operation Rejection)
      → Answers server p d
      → p.operation_id ≡ d.operation_id
  Answers-id p d a =
      sym (c.filed p.operation_id a.stored a.known).decision
      ∙ ap (λ (d : ProposalDecision Operation Rejection). d.operation_id) a.decision

  -- Every decision that the server gives agrees with its page and its head.
  answered-IsDecision :
      (from to : ℕ) (p : ProposedOperation Intent) (d : ProposalDecision Operation Rejection)
      → IsIdentity p.submission
      → Answers server p d
      → IsDecision (length server.log) (index_entries [] (slice from to server.log)) d
        × (p.operation_id ≡ d.operation_id)
  answered-IsDecision from to p d valid a =
      let f = c.filed p.operation_id a.stored a.known in
      let own = Answers-id p d a in
      let finds =
        Finds-index_entries (Recorded initial server c) [] (slice from to server.log)
          (slice-Recorded initial server c from to) (λ id e h. unfold lookup in cc h) in
      (
        record {
          has_id = λ e. valid.has_operation_id (own ∙ e);
          agrees =
              logged-Agrees d.operation_id a.stored d.outcome _ (rw (← own) a.known)
                (ap (λ (d : ProposalDecision Operation Rejection). d.outcome) a.decision)
                (subst (IsLogged server.log a.stored.identity)
                  (ap (λ (d : ProposalDecision Operation Rejection). d.outcome) a.decision)
                  f.logged)
                (finds d.operation_id);
        },
        own,
      )

  AnswersAll-fresh :
      (p : ProposedOperation Intent) (d : ProposalDecision Operation Rejection)
      (ps : List (ProposedOperation Intent)) (ds : List (ProposalDecision Operation Rejection))
      → p.operation_id ≡ d.operation_id
      → All (MayFollow p) ps
      → AnswersAll server ps ds
      → All (λ d'. d.operation_id ≢ d'.operation_id) ds
  AnswersAll-fresh p d [] [] own m a = tt
  AnswersAll-fresh p d [] (d' ∷ ds) own m a = absurd a
  AnswersAll-fresh p d (p' ∷ ps) [] own m a = tt
  AnswersAll-fresh p d (p' ∷ ps) (d' ∷ ds) own m a = (
    λ same. m.0.differs (own ∙ same ∙ sym (Answers-id p' d' a.0)),
    AnswersAll-fresh p d ps ds own m.1 a.1,
  )

  AnswersAll-decisions :
      (from to : ℕ) (ps : List (ProposedOperation Intent))
      (ds : List (ProposalDecision Operation Rejection))
      → IsBatch ps
      → AnswersAll server ps ds
      → All (IsDecision (length server.log) (index_entries [] (slice from to server.log))) ds
        × IsAnswer ds
        × (length ds ≡ length ps)
  AnswersAll-decisions from to [] [] b a = (tt, tt, refl)
  AnswersAll-decisions from to [] (d ∷ ds) b a = absurd a
  AnswersAll-decisions from to (p ∷ ps) [] b a = absurd a
  AnswersAll-decisions from to (p ∷ ps) (d ∷ ds) b a =
      let (first, own) = answered-IsDecision from to p d b.0 a.0 in
      let (rest, distinct, same_length) = AnswersAll-decisions from to ps ds b.2 a.1 in
      ((first, rest), (AnswersAll-fresh p d ps ds own b.1 a.1, distinct), ap suc same_length)

  -- What a consistent server with positive limits and a log of a safe length answers to a valid
  -- request from within the log, with the decisions on record for its proposals, passes the check of
  -- responses.
  pub answer-IsResponse :
      (request : SyncRequest Intent) (ds : List (ProposalDecision Operation Rejection))
      → IsPositive server.limits
      → IsRequest request (some server.limits)
      → request.base_sequence ≤ length server.log
      → AnswersAll server request.proposals ds
      → IsResponse (answer server request ds) (some server.limits)
  answer-IsResponse request ds positive valid base a =
      let page_size = min request.maximum_entries server.limits.maximum_entries_per_response in
      let to = request.base_sequence + page_size in
      let count = length-slice request.base_sequence to server.log in
      let (decisions, distinct, few) =
        AnswersAll-decisions request.base_sequence to request.proposals ds valid.batch a in
      record {
        cursors = record {
          safe_head = safe;
          base_through = omega arith;
          through_head = omega (arith, count);
          page = refl;
          advances = λ behind. omega (arith, count, valid.entries.positive, positive.entries);
          few_entries = omega (arith, count);
          few_decisions = omega (arith, few, valid.few);
        };
        page = slice-IsPage initial server c request.base_sequence to base safe;
        decisions = decisions;
        answer = distinct;
      }

-- ===== src/Invariants/Response/Valid.antt =====
-- What the check of src/invariants.ts on a response accepts.
use sync_engine_v.Invariants.Response.Entries.{
  index_entries, no_ids, check_entries-eq-ok, Agrees, check_outcome-eq-ok,
}
use sync_engine_v.Base.{
  ℕ, ◌+◌, ◌≤◌, ◌<◌, String, ◌≡◌, refl, ◌≢◌, ◌↔◌, false, List, [], ◌∷◌, Option, none, some, arith,
  str_eq_iff, All, All-×_iff, length, contains, contains-nil, contains-cons,
}
use sync_engine_v.Base.Dict.{Dict, lookup}
use sync_engine_v.Errors.{ok, throw_if-eq-ok, >>-eq-ok, >>=-eq-ok}
use sync_engine_v.Limits.{ProtocolLimits, max_safe_integer}
use sync_engine_v.Protocol.{CommittedOperation, ProposalDecision, SyncResponse}
use sync_engine_v.Invariants.Identity.{assert_non_empty_string-eq-ok}
use sync_engine_v.Invariants.Batch.Valid.{IsWithinLimits}
use sync_engine_v.Invariants.Log.Valid.{IsPage, Fits-nil, IsPageAfter}
use sync_engine_v.Invariants.Response.{check_decisions, check_cursors, assert_sync_response}

module _ {Operation Rejection : Type 0} where
  -- Usable decisions, no operation id twice, each in agreement with the page and the head.
  pub record IsDecision (head : ℕ) (index : Dict (CommittedOperation Operation))
      (d : ProposalDecision Operation Rejection) : Type 0 where
    pub has_id : d.operation_id ≢ ""
    pub agrees : Agrees head (lookup d.operation_id index) d.outcome

  abbrev pub IsAnswer : List (ProposalDecision Operation Rejection) → Type 0
  IsAnswer [] = Unit
  IsAnswer (d ∷ ds) = All (λ d'. d.operation_id ≢ d'.operation_id) ds × IsAnswer ds

  abbrev Unseen : List String → ProposalDecision Operation Rejection → Type 0
  Unseen ids d = contains d.operation_id ids ≡ false

  Unseen-cons :
      (ids : List String) (d d' : ProposalDecision Operation Rejection)
      → Unseen (d.operation_id ∷ ids) d' ↔ (Unseen ids d' × (d.operation_id ≢ d'.operation_id))
  Unseen-cons ids d d' = (
    λ h. ground (
      arith,
      contains-cons d'.operation_id d.operation_id ids,
      str_eq_iff d.operation_id d'.operation_id,
    ),
    λ h. ground (
      arith,
      contains-cons d'.operation_id d.operation_id ids,
      str_eq_iff d.operation_id d'.operation_id,
    ),
  )

  check_decisions-cons :
      (head : ℕ) (index : Dict (CommittedOperation Operation)) (ids : List String)
      (d : ProposalDecision Operation Rejection) (ds : List (ProposalDecision Operation Rejection))
      → (check_decisions head index ids (d ∷ ds) ≡ ok tt) ↔ (
          IsDecision head index d
          × Unseen ids d
          × (check_decisions head index (d.operation_id ∷ ids) ds ≡ ok tt))
  unfolding check_decisions
  check_decisions-cons head index ids d ds =
      let id = assert_non_empty_string-eq-ok "decision.operationId" d.operation_id in
      let outcome = check_outcome-eq-ok head (lookup d.operation_id index) d.outcome in
      (
        λ h.
            let (first, h₁) = (>>-eq-ok _ _).0 h in
            let (second, h₂) = (>>-eq-ok _ _).0 h₁ in
            let (third, rest) = (>>-eq-ok _ _).0 h₂ in
            (
              record { has_id = id.0 first; agrees = outcome.0 third },
              (throw_if-eq-ok _ _).0 second,
              rest,
            ),
        λ h. (>>-eq-ok _ _).1 (
          id.1 h.0.has_id,
          (>>-eq-ok _ _).1
              ((throw_if-eq-ok _ _).1 h.1, (>>-eq-ok _ _).1 (outcome.1 h.0.agrees, h.2)),
        ),
      )

  check_decisions-eq-ok :
      (head : ℕ) (index : Dict (CommittedOperation Operation)) (ids : List String)
      (ds : List (ProposalDecision Operation Rejection))
      → (check_decisions head index ids ds ≡ ok tt)
        ↔ (All (IsDecision head index) ds × All (Unseen ids) ds × IsAnswer ds)
  check_decisions-eq-ok head index ids [] = (λ h. (tt, tt, tt), λ h. unfold check_decisions in refl)
  check_decisions-eq-ok head index ids (d ∷ ds) =
      let round = check_decisions-cons head index ids d ds in
      let rest = check_decisions-eq-ok head index (d.operation_id ∷ ids) ds in
      let each = All-×_iff _ _ _ ds (Unseen-cons ids d) in
      (
        λ h.
            let (valid, unseen, more) = round.0 h in
            let (all, fresh, answer) = rest.0 more in
            let split = each.0 fresh in ((valid, all), (unseen, split.0), (split.1, answer)),
        λ h. round.1 (h.0.0, h.1.0, rest.1 (h.0.1, each.1 (h.1.1, h.2.0), h.2.1)),
      )

  Unseen-nil : (ds : List (ProposalDecision Operation Rejection)) → All (Unseen []) ds
  Unseen-nil [] = tt
  Unseen-nil (d ∷ ds) = (contains-nil d.operation_id, Unseen-nil ds)

  -- The cursors of a response: in order, in range, the page as long as they say, and a page that
  -- stays behind the head not empty.
  pub record IsCursors (r : SyncResponse Operation Rejection) (limits : Option ProtocolLimits)
      : Type 0 where
    pub safe_head : r.head_sequence ≤ max_safe_integer
    pub base_through : r.requested_base_sequence ≤ r.through_sequence
    pub through_head : r.through_sequence ≤ r.head_sequence
    pub page : r.requested_base_sequence + length r.entries ≡ r.through_sequence
    pub advances : r.requested_base_sequence < r.head_sequence → 0 < length r.entries
    pub few_entries : IsWithinLimits (λ l. l.maximum_entries_per_response) (length r.entries) limits
    pub few_decisions :
        IsWithinLimits (λ l. l.maximum_proposals_per_request) (length r.decisions) limits

  check_cursors-eq-ok :
      (r : SyncResponse Operation Rejection) (limits : Option ProtocolLimits)
      → (check_cursors r limits ≡ ok tt) ↔ IsCursors r limits
  unfolding check_cursors
  check_cursors-eq-ok r none = (λ h. ground arith, λ h. ground arith)
  check_cursors-eq-ok r (some limits) = (λ h. ground arith, λ h. ground arith)

  pub record IsResponse (r : SyncResponse Operation Rejection) (limits : Option ProtocolLimits)
      : Type 0 where
    pub cursors : IsCursors r limits
    pub page : IsPage r.requested_base_sequence r.entries
    pub decisions : All (IsDecision r.head_sequence (index_entries [] r.entries)) r.decisions
    pub answer : IsAnswer r.decisions

  -- The check of a response accepts it exactly if its cursors are in order and match its page, the
  -- page is a piece of a canonical log, and its decisions are of different operations and agree with
  -- the head and with the page.
  pub assert_sync_response-eq-ok :
      (r : SyncResponse Operation Rejection) (limits : Option ProtocolLimits)
      → (assert_sync_response r limits ≡ ok tt) ↔ IsResponse r limits
  unfolding assert_sync_response
  assert_sync_response-eq-ok r limits =
      let entries = λ (d : Dict (CommittedOperation Operation)).
        check_entries-eq-ok r.requested_base_sequence [] [] [] r.entries d no_ids in
      let decisions =
        check_decisions-eq-ok r.head_sequence (index_entries [] r.entries) [] r.decisions in
      (
        λ h.
            let (first, h₁) = (>>-eq-ok _ _).0 h in
            let (index, second, third) = >>=-eq-ok _ _ h₁ in
            let (page, e) = (entries index).0 second in
            let (valid, _, answer) = decisions.0 (rw e third) in
            record {
              cursors = (check_cursors-eq-ok r limits).0 first;
              page = page.page;
              decisions = valid;
              answer = answer;
            },
        λ h.
            let page : IsPageAfter [] [] r.requested_base_sequence r.entries = record {
              fits = Fits-nil r.entries;
              page = h.page;
            } in
            (>>-eq-ok _ _).1 (
              (check_cursors-eq-ok r limits).1 h.cursors,
              rw ((entries (index_entries [] r.entries)).1 (page, refl))
                  (decisions.1 (h.decisions, Unseen-nil r.decisions, h.answer)),
            ),
      )

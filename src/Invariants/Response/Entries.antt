-- ===== src/Invariants/Response/Entries.antt =====
-- What the loop over the entries and the check of an outcome in `assertSyncResponse` of src/invariants.ts accept.
use sync_engine_v.Base.{
  ℕ, ◌+◌, ◌≤◌, String, ◌≡◌, refl, ◌↔◌, false, List, [], ◌∷◌, Option, none, some, arith, contains,
  contains-nil, contains-cons,
}
use sync_engine_v.Base.Dict.{Dict, lookup, put, lookup-put}
use sync_engine_v.Errors.{ok}
use sync_engine_v.Protocol.{CommittedOperation, ProposalOutcome, accepted, rejected}
use sync_engine_v.Invariants.Identity.{
  IsCommitted, IsSequence, assert_committed_operation-eq-ok, assert_log_sequence,
}
use sync_engine_v.Invariants.Log.{entry_position_key}
use sync_engine_v.Invariants.Log.Valid.{Fits, IsPageAfter, IsPageAfter-nil, IsPageAfter-cons}
use sync_engine_v.Invariants.Response.{check_entries, check_outcome}

module _ {Operation : Type 0} where
  -- The entries by operation id.
  unfoldable pub index_entries :
      Dict (CommittedOperation Operation)
      → List (CommittedOperation Operation)
      → Dict (CommittedOperation Operation)
  index_entries d [] = d
  index_entries d (e ∷ es) = index_entries (put e.operation_id e d) es

  -- the ids of a dictionary
  abbrev pub HasIds : Dict (CommittedOperation Operation) → List String → Type 0
  HasIds d ids = (k : String) → (lookup k d ≡ none) ↔ (contains k ids ≡ false)

  pub no_ids : HasIds [] []
  no_ids k = (λ p. contains-nil k, λ p. unfold lookup in refl)

  HasIds-put :
      (d : Dict (CommittedOperation Operation)) (ids : List String)
      (e : CommittedOperation Operation)
      → HasIds d ids
      → HasIds (put e.operation_id e d) (e.operation_id ∷ ids)
  HasIds-put d ids e h k = (
    λ p. ground (arith, contains-cons k e.operation_id ids, lookup-put e.operation_id k e d, h k),
    λ p. ground (arith, contains-cons k e.operation_id ids, lookup-put e.operation_id k e d, h k),
  )

  check_entries-cons :
      (base : ℕ) (d : Dict (CommittedOperation Operation)) (ids : List String)
      (places : Dict String) (e : CommittedOperation Operation)
      (es : List (CommittedOperation Operation)) (d' : Dict (CommittedOperation Operation))
      → HasIds d ids
      → (check_entries (base + 1) d places (e ∷ es) ≡ ok d') ↔ (
          IsCommitted e
          × (e.sequence ≡ base + 1)
          × Fits ids places e
          × (check_entries
                (base + 1 + 1)
                (put e.operation_id e d)
                (put (entry_position_key e) e.operation_id places)
                es
              ≡ ok d'))
  unfolding check_entries
  check_entries-cons base d ids places e es d' h = (
    λ p. ground (arith, assert_committed_operation-eq-ok "response entry" e, h e.operation_id),
    λ p. ground (arith, assert_committed_operation-eq-ok "response entry" e, h e.operation_id),
  )

  pub check_entries-eq-ok :
      (base : ℕ) (d : Dict (CommittedOperation Operation)) (ids : List String)
      (places : Dict String) (es : List (CommittedOperation Operation))
      (d' : Dict (CommittedOperation Operation))
      → HasIds d ids
      → (check_entries (base + 1) d places es ≡ ok d')
        ↔ (IsPageAfter ids places base es × (index_entries d es ≡ d'))
  unfolding check_entries index_entries
  check_entries-eq-ok base d ids places [] d' h =
      (λ p. (IsPageAfter-nil ids places base, cc p), λ p. cc (p.1))
  check_entries-eq-ok base d ids places (e ∷ es) d' h =
      let round = check_entries-cons base d ids places e es d' h in
      let rest =
        check_entries-eq-ok (base + 1) (put e.operation_id e d) (e.operation_id ∷ ids)
          (put (entry_position_key e) e.operation_id places) es d' (HasIds-put d ids e h) in
      let page = IsPageAfter-cons ids places e.operation_id base e es in
      (
        λ p.
            let parts = round.0 p in
            let more = rest.0 parts.3 in (page.1 (parts.0, parts.1, parts.2, more.0), more.1),
        λ p. let parts = page.0 p.0 in round.1 (parts.0, parts.1, parts.2, rest.1 (parts.3, p.1)),
      )

  -- An outcome agrees with the head and with the entry of its operation, if the page has it.
  abbrev pub Agrees :
      {Rejection : Type 0}
      → ℕ
      → Option (CommittedOperation Operation)
      → ProposalOutcome Operation Rejection
      → Type 0
  Agrees head none (accepted sequence operation) = IsSequence sequence × (sequence ≤ head)
  Agrees head (some e) (accepted sequence operation) =
      IsSequence sequence × (sequence ≤ head) × (e.sequence ≡ sequence)
  Agrees head none (rejected reason) = Unit
  Agrees head (some e) (rejected reason) = ⊥

  pub check_outcome-eq-ok :
      {Rejection : Type 0} (head : ℕ) (o : Option (CommittedOperation Operation))
      (outcome : ProposalOutcome Operation Rejection)
      → (check_outcome head o outcome ≡ ok tt) ↔ Agrees head o outcome
  unfolding check_outcome assert_log_sequence
  check_outcome-eq-ok head none (accepted sequence operation) =
      (λ h. ground arith, λ h. ground arith)
  check_outcome-eq-ok head (some e) (accepted sequence operation) =
      (λ h. ground arith, λ h. ground arith)
  check_outcome-eq-ok head none (rejected reason) = (λ h. tt, λ h. refl)
  check_outcome-eq-ok head (some e) (rejected reason) = (λ h. ground arith, λ h. absurd h)

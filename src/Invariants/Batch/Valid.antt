-- ===== src/Invariants/Batch/Valid.antt =====
-- What the checks of src/invariants.ts on a proposal batch accept.
use sync_engine_v.Base.{
  ℕ, ◌≤◌, ◌<◌, String, ◌≡◌, refl, ◌≢◌, ◌↔◌, false, List, [], ◌∷◌, Option, none, some, arith,
  str_eq_iff, All, All-×_iff, length, contains, contains-nil, contains-cons,
}
use sync_engine_v.Base.Dict.{Dict, lookup, put, lookup-put}
use sync_engine_v.Errors.{ok}
use sync_engine_v.Limits.{ProtocolLimits, max_safe_integer}
use sync_engine_v.Protocol.{ProposedOperation, SyncRequest}
use sync_engine_v.Invariants.Identity.{IsIdentity, IsSequence, assert_submission_identity-eq-ok}
use sync_engine_v.Invariants.Batch.{check_proposals, assert_proposal_batch, assert_sync_request}

-- the last sequence number seen of a client is below `n`
abbrev Above : Option ℕ → ℕ → Type 0
Above none n = Unit
Above (some m) n = m < n

-- At most as many as a limit allows, where limits are given.
abbrev pub IsWithinLimits : (ProtocolLimits → ℕ) → ℕ → Option ProtocolLimits → Type 0
IsWithinLimits field n none = Unit
IsWithinLimits field n (some limits) = n ≤ field limits

module _ {Intent : Type 0} where
  -- `q` may stand behind `p` in a batch.
  pub record MayFollow (p q : ProposedOperation Intent) : Type 0 where
    pub differs : p.operation_id ≢ q.operation_id
    pub ordered : p.client_id ≡ q.client_id → p.client_sequence < q.client_sequence

  -- Usable identities, no operation id twice, and each client's sequence numbers rising.
  abbrev pub IsBatch : List (ProposedOperation Intent) → Type 0
  IsBatch [] = Unit
  IsBatch (p ∷ ps) = IsIdentity p.submission × All (MayFollow p) ps × IsBatch ps

  -- `q` may stand behind what the loop has seen
  record Fits (ids : List String) (last : Dict ℕ) (q : ProposedOperation Intent) : Type 0 where
    fresh : contains q.operation_id ids ≡ false
    above : Above (lookup q.client_id last) q.client_sequence

  Fits-cons :
      (ids : List String) (last : Dict ℕ) (p q : ProposedOperation Intent)
      → Fits ids last p
      → Fits (p.operation_id ∷ ids) (put p.client_id p.client_sequence last) q
        ↔ (Fits ids last q × MayFollow p q)
  Fits-cons ids last p q f = (
    λ h. ground (
      arith,
      contains-cons q.operation_id p.operation_id ids,
      str_eq_iff p.operation_id q.operation_id,
      lookup-put p.client_id q.client_id p.client_sequence last,
      str_eq_iff p.client_id q.client_id,
    ),
    λ h. ground (
      arith,
      contains-cons q.operation_id p.operation_id ids,
      str_eq_iff p.operation_id q.operation_id,
      lookup-put p.client_id q.client_id p.client_sequence last,
      str_eq_iff p.client_id q.client_id,
    ),
  )

  -- one round of the loop
  check_proposals-cons :
      (ids : List String) (last : Dict ℕ) (p : ProposedOperation Intent)
      (ps : List (ProposedOperation Intent))
      → (check_proposals ids last (p ∷ ps) ≡ ok tt) ↔ (
          IsIdentity p.submission
          × Fits ids last p
          × (check_proposals (p.operation_id ∷ ids) (put p.client_id p.client_sequence last) ps
              ≡ ok tt))
  unfolding check_proposals
  check_proposals-cons ids last p ps = (
    λ h. ground (arith, assert_submission_identity-eq-ok "proposal" p.submission),
    λ h. ground (arith, assert_submission_identity-eq-ok "proposal" p.submission),
  )

  check_proposals-eq-ok :
      (ids : List String) (last : Dict ℕ) (ps : List (ProposedOperation Intent))
      → (check_proposals ids last ps ≡ ok tt) ↔ (All (Fits ids last) ps × IsBatch ps)
  check_proposals-eq-ok ids last [] = (λ h. (tt, tt), λ h. unfold check_proposals in refl)
  check_proposals-eq-ok ids last (p ∷ ps) =
      let round = check_proposals-cons ids last p ps in
      let rest =
        check_proposals-eq-ok (p.operation_id ∷ ids) (put p.client_id p.client_sequence last) ps in
      (
        λ h.
            let (valid, fits, more) = round.0 h in
            let (fit, batch) = rest.0 more in
            let split = (All-×_iff _ _ _ ps (λ q. Fits-cons ids last p q fits)).0 fit in
            ((fits, split.0), (valid, split.1, batch)),
        λ h.
            let fits = h.0.0 in
            let all = (All-×_iff _ _ _ ps (λ q. Fits-cons ids last p q fits)).1 (h.0.1, h.1.1) in
            round.1 (h.1.0, fits, rest.1 (all, h.1.2)),
      )

  Fits-nil : (ps : List (ProposedOperation Intent)) → All (Fits [] []) ps
  Fits-nil [] = tt
  Fits-nil (p ∷ ps) =
      (record { fresh = contains-nil p.operation_id; above = unfold lookup in tt }, Fits-nil ps)

  -- The check of a batch accepts it exactly if it has usable identities, no operation id twice, and
  -- rising sequence numbers for each client.
  pub assert_proposal_batch-eq-ok :
      (ps : List (ProposedOperation Intent)) → (assert_proposal_batch ps ≡ ok tt) ↔ IsBatch ps
  unfolding assert_proposal_batch
  assert_proposal_batch-eq-ok ps = (
    λ h. ((check_proposals-eq-ok [] [] ps).0 h).1,
    λ h. (check_proposals-eq-ok [] [] ps).1 (Fits-nil ps, h),
  )

  -- What `assertSyncRequest` accepts.
  pub record IsRequest (request : SyncRequest Intent) (limits : Option ProtocolLimits)
      : Type 0 where
    pub safe_base : request.base_sequence ≤ max_safe_integer
    pub entries : IsSequence request.maximum_entries
    pub few :
        IsWithinLimits (λ l. l.maximum_proposals_per_request) (length request.proposals) limits
    pub batch : IsBatch request.proposals

  -- The check of a request accepts it exactly if its numbers are in range, its proposals are within
  -- the limits, and its batch is valid.
  pub assert_sync_request-eq-ok :
      (request : SyncRequest Intent) (limits : Option ProtocolLimits)
      → (assert_sync_request request limits ≡ ok tt) ↔ IsRequest request limits
  unfolding assert_sync_request
  assert_sync_request-eq-ok request limits = (
    λ h. ground (arith, assert_proposal_batch-eq-ok request.proposals),
    λ h. ground (arith, assert_proposal_batch-eq-ok request.proposals),
  )

-- ===== src/Replica/Prepare.antt =====
-- `prepareSyncRequest` of src/replica.ts: what is sent, and that the authority's check accepts it.
use sync_engine_v.Base.{
  ℕ, zero, suc, ◌-◌, ◌≤◌, ◌<◌, true, ◌≡◌, refl, sym, ap, subst, ◌∙◌, inl, inr, ◌⊎◌, List, [], ◌∷◌,
  ◌++◌, append_assoc, append-nil, none, arith, All, All-take, length, length-append, take, leb,
  ◌==◌, Bool-cases, if◌then◌else◌,
}
use sync_engine_v.Errors.{ok, ok-injective, >>=-eq-ok, >>-eq-ok}
use sync_engine_v.Limits.{
  max_safe_integer, or_default, default_protocol_limits, assert_non_negative_safe_integer,
  assert_positive_safe_integer,
}
use sync_engine_v.Protocol.{ProposedOperation, SyncRequest}
use sync_engine_v.Invariants.Identity.{
  IsIdentity, assert_log_sequence, assert_positive_safe_integer-eq-ok,
}
use sync_engine_v.Invariants.Batch.Valid.{IsBatch, MayFollow, IsRequest}
use sync_engine_v.Replica.{
  OutboxStatus, pending, accepted, OutboxEntry, ReplicaState, PrepareSyncRequestOptions,
  assert_retained_confirmed_log, collect_proposals, prepare_sync_request,
}

module _ {Operation : Type 0} where
  status_cases :
      (status : OutboxStatus Operation)
      → (status ≡ pending) ⊎ ((n : ℕ) × (o : Operation) × (status ≡ accepted n o))
  status_cases pending = inl refl
  status_cases (accepted n o) = inr (n, o, refl)

take-nil : {A : Type 0} (n : ℕ) → take {A = A} n [] ≡ []
take-nil zero = refl
take-nil (suc n) = refl

module _ {Intent Operation : Type 0} where
  abbrev pub pending_first :
      OutboxStatus Operation
      → ProposedOperation Intent
      → List (ProposedOperation Intent)
      → List (ProposedOperation Intent)
  pending_first pending p ps = p ∷ ps
  pending_first (accepted n o) p ps = ps

  -- The proposals that wait for a decision, and all of them.
  abbrev pub pending_of : List (OutboxEntry Intent Operation) → List (ProposedOperation Intent)
  pending_of [] = []
  pending_of (e ∷ es) = pending_first e.status e.proposal (pending_of es)

  abbrev pub proposals_of : List (OutboxEntry Intent Operation) → List (ProposedOperation Intent)
  proposals_of [] = []
  proposals_of (e ∷ es) = e.proposal ∷ proposals_of es

  -- the loop takes what is pending until the maximum
  collect_proposals-take :
      (maximum : ℕ) (done : List (ProposedOperation Intent))
      (outbox : List (OutboxEntry Intent Operation))
      → length done < maximum
      → collect_proposals maximum done outbox
        ≡ done ++ take (maximum - length done) (pending_of outbox)
  unfolding collect_proposals
  collect_proposals-take maximum done [] below =
      sym (ap (λ xs. done ++ xs) (take-nil (maximum - length done)) ∙ append-nil done)
  collect_proposals-take maximum done (e ∷ es) below = elim (status_cases e.status) [
    | inl waits ↦ elim (Bool-cases (leb maximum (length (done ++ e.proposal ∷ [])))) [
      | inl full ↦
          let one : maximum - length done ≡ 1 =
            ground (arith, length-append done (e.proposal ∷ [])) in
          rw (waits, full, one) refl
      | inr space ↦
          let more = done ++ e.proposal ∷ [] in
          let n = maximum - length more in
          let left : maximum - length done ≡ suc n =
            ground (arith, length-append done (e.proposal ∷ [])) in
          rw (waits, space, left)
            (collect_proposals-take maximum more es
                (ground (arith, length-append done (e.proposal ∷ [])))
              ∙ append_assoc done (e.proposal ∷ []) (take n (pending_of es)))
    ]
    | inr (n, o, decided) ↦ rw decided (collect_proposals-take maximum done es below)
  ]

  All-pending_first :
      (P : ProposedOperation Intent → Type 0) (status : OutboxStatus Operation)
      (p : ProposedOperation Intent) (ps : List (ProposedOperation Intent))
      → P p
      → All P ps
      → All P (pending_first status p ps)
  All-pending_first P pending p ps h hs = (h, hs)
  All-pending_first P (accepted n o) p ps h hs = hs

  pub All-pending_of :
      (P : ProposedOperation Intent → Type 0) (es : List (OutboxEntry Intent Operation))
      → All P (proposals_of es)
      → All P (pending_of es)
  All-pending_of P [] h = tt
  All-pending_of P (e ∷ es) h =
      All-pending_first P e.status e.proposal (pending_of es) h.0 (All-pending_of P es h.1)

  IsBatch-pending_first :
      (status : OutboxStatus Operation) (p : ProposedOperation Intent)
      (ps : List (ProposedOperation Intent))
      → IsIdentity p.submission
      → All (MayFollow p) ps
      → IsBatch ps
      → IsBatch (pending_first status p ps)
  IsBatch-pending_first pending p ps valid follow b = (valid, follow, b)
  IsBatch-pending_first (accepted n o) p ps valid follow b = b

  IsBatch-pending_of :
      (es : List (OutboxEntry Intent Operation))
      → IsBatch (proposals_of es)
      → IsBatch (pending_of es)
  IsBatch-pending_of [] b = tt
  IsBatch-pending_of (e ∷ es) b =
      IsBatch-pending_first e.status e.proposal (pending_of es) b.0
        (All-pending_of (MayFollow e.proposal) es b.1) (IsBatch-pending_of es b.2)

module _ {Intent : Type 0} where
  IsBatch-take : (n : ℕ) (ps : List (ProposedOperation Intent)) → IsBatch ps → IsBatch (take n ps)
  IsBatch-take zero ps b = tt
  IsBatch-take (suc n) [] b = tt
  IsBatch-take (suc n) (p ∷ ps) b = (b.0, All-take (MayFollow p) n ps b.1, IsBatch-take n ps b.2)

-- the maximum that a request's options give
abbrev pub maximum_of : PrepareSyncRequestOptions → ℕ
maximum_of options =
    or_default options.maximum_proposals default_protocol_limits.maximum_proposals_per_request

module _ {Intent Operation : Type 0} where
  chosen :
      (maximum : ℕ) (outbox : List (OutboxEntry Intent Operation))
      → (if maximum == 0 then [] else collect_proposals maximum [] outbox)
        ≡ take maximum (pending_of outbox)
  chosen maximum outbox = elim (Bool-cases (maximum == 0)) [
    | inl nothing ↦ let none_left : maximum ≡ 0 = ground arith in rw none_left refl
    | inr some_left ↦
        let whole : maximum - 0 ≡ maximum = omega arith in
        rw some_left (
          collect_proposals-take maximum [] outbox (ground arith)
          ∙ ap (λ n. take n (pending_of outbox)) whole)
  ]

module _ {State Intent Operation : Type 0} where
  assert_retained-safe :
      (state : ReplicaState State Intent Operation) {base : ℕ}
      → assert_retained_confirmed_log state ≡ ok base
      → state.confirmed_sequence ≤ max_safe_integer
  unfolding assert_retained_confirmed_log assert_log_sequence
  assert_retained-safe state h =
      let (range, rest) =
        (>>-eq-ok (assert_log_sequence "confirmedSequence" state.confirmed_sequence true) _).0 h in
      ground arith

  pub prepare_sync_request-IsRequest :
      (state : ReplicaState State Intent Operation) (options : PrepareSyncRequestOptions)
      {request : SyncRequest Intent}
      → IsBatch (proposals_of state.outbox)
      → prepare_sync_request state options ≡ ok request
      → IsRequest request none
        × (request.base_sequence ≡ state.confirmed_sequence)
        × (request.proposals ≡ take (maximum_of options) (pending_of state.outbox))
  unfolding prepare_sync_request
  prepare_sync_request-IsRequest state options b h =
      let (base, retained, h₁) = >>=-eq-ok (assert_retained_confirmed_log state) _ h in
      let entries =
        or_default options.maximum_entries default_protocol_limits.maximum_entries_per_response in
      let (_, h₂) =
        (>>-eq-ok (assert_non_negative_safe_integer "maximumProposals" (maximum_of options)) _).0
          h₁ in
      let (range, h₃) = (>>-eq-ok (assert_positive_safe_integer "maximumEntries" entries) _).0 h₂ in
      let same = chosen (maximum_of options) state.outbox in
      subst
        (λ (r : SyncRequest Intent).
          IsRequest r none
          × (r.base_sequence ≡ state.confirmed_sequence)
          × (r.proposals ≡ take (maximum_of options) (pending_of state.outbox)))
        (ok-injective h₃)
        (
          record {
            safe_base = assert_retained-safe state retained;
            entries = (assert_positive_safe_integer-eq-ok "maximumEntries" entries).0 range;
            few = tt;
            batch = subst IsBatch (sym same) (
                IsBatch-take (maximum_of options) (pending_of state.outbox)
                  (IsBatch-pending_of state.outbox b));
          },
          refl,
          same,
        )

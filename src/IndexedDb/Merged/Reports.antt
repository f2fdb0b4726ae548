-- ===== src/IndexedDb/Merged/Reports.antt =====
-- What `mergeSyncResponse` of src/replica.ts reports is usable, as src/indexeddb stores it.
use sync_engine_v.Base.{
  ℕ, ◌-◌, Bool, ◌≡◌, refl, sym, subst, inl, inr, List, [], ◌∷◌, All, All-append, get_elem?,
  Option-cases, Bool-cases, leb,
}
use sync_engine_v.Errors.{ok, ok-injective, ok-ne-err, >>=-eq-ok, >>-eq-ok}
use sync_engine_v.Protocol.{
  CommittedOperation, ProposalOutcome, accepted as accepts, rejected, ProposalDecision,
}
use sync_engine_v.Invariants.Identity.{IsCommitted}
use sync_engine_v.Replica.{
  OutboxStatus, pending, accepted, OutboxEntry, Learned, find_index, local_at, merge_local,
  merge_decision, merge_decisions, resolve_local, resolve_outbox_from_committed,
  assert_proposal_matches_committed, ReplicaInterpreter, Progress, merge_retained, merge_next,
  merge_entry, merge_entries,
}
use sync_engine_v.Replica.Find.{find_index-eq-some}
use sync_engine_v.IndexedDb.Valid.{IsOutcome, IsUsable}

module _ {Intent Operation Rejection : Type 0} (are_equal : Operation → Operation → Bool) where
  -- What the merge has reported is usable.
  abbrev pub Reports : Learned Intent Operation Rejection → Type 0
  Reports learned = All IsUsable learned.newly_resolved

  merge_local-Reports :
      (learned last : Learned Intent Operation Rejection) (d : ProposalDecision Operation Rejection)
      (i : ℕ) (e : OutboxEntry Intent Operation) (outcome : ProposalOutcome Operation Rejection)
      (status : OutboxStatus Operation)
      → d.outcome ≡ outcome
      → e.status ≡ status
      → IsUsable d
      → Reports learned
      → merge_local are_equal learned d i e ≡ ok last
      → Reports last
  merge_local-Reports learned last d i e (rejected reason) pending o s u r h =
      let d' : ProposalDecision Operation Rejection = record {
        operation_id = d.operation_id;
        outcome = rejected reason;
      } in
      let u' : IsUsable d' = record { named = u.named; outcome = tt } in
      subst Reports (ok-injective (rw (o, s) at h))
        (All-append IsUsable learned.newly_resolved (d' ∷ []) r (u', tt))
  merge_local-Reports learned last d i e (rejected reason) (accepted n op) o s u r h =
      absurd (ok-ne-err (sym (rw (o, s) at h)))
  merge_local-Reports learned last d i e (accepts n op) pending o s u r h =
      let d' : ProposalDecision Operation Rejection = record {
        operation_id = d.operation_id;
        outcome = accepts n op;
      } in
      let u' : IsUsable d' = record {
        named = u.named;
        outcome = subst (λ (x : ProposalOutcome Operation Rejection). IsOutcome x) o u.outcome;
      } in
      subst Reports (ok-injective (rw (o, s) at h))
        (All-append IsUsable learned.newly_resolved (d' ∷ []) r (u', tt))
  merge_local-Reports learned last d i e (accepts n op) (accepted n' op') o s u r h =
      subst Reports (ok-injective ((>>-eq-ok _ _).0 (rw (o, s) at h)).1) r

  merge_decision-Reports :
      (learned last : Learned Intent Operation Rejection) (d : ProposalDecision Operation Rejection)
      → IsUsable d
      → Reports learned
      → merge_decision are_equal learned d ≡ ok last
      → Reports last
  unfolding merge_decision
  merge_decision-Reports learned last d u r h =
      elim (Option-cases (find_index d.operation_id learned.outbox)) [
        | inl absent ↦ subst Reports (ok-injective (rw (absent, merge_decision) at h)) r
        | inr (i, found) ↦
            let (e, at, own) = find_index-eq-some d.operation_id learned.outbox i found in
            merge_local-Reports learned last d i e d.outcome e.status refl refl u r
              (rw (found, merge_decision, at, local_at) at h)
      ]

  pub merge_decisions-Reports :
      (learned last : Learned Intent Operation Rejection)
      (ds : List (ProposalDecision Operation Rejection))
      → All IsUsable ds
      → Reports learned
      → merge_decisions are_equal learned ds ≡ ok last
      → Reports last
  unfolding merge_decisions
  merge_decisions-Reports learned last [] u r h = subst Reports (ok-injective h) r
  merge_decisions-Reports learned last (d ∷ ds) u r h =
      let (next, merged, h₁) = >>=-eq-ok (merge_decision are_equal learned d) _ h in
      merge_decisions-Reports next last ds u.1 (merge_decision-Reports learned next d u.0 r merged)
        h₁

  resolve_local-Reports :
      (learned last : Learned Intent Operation Rejection) (c : CommittedOperation Operation) (i : ℕ)
      (e : OutboxEntry Intent Operation) (status : OutboxStatus Operation)
      → e.status ≡ status
      → IsCommitted c
      → Reports learned
      → resolve_local are_equal learned c i e ≡ ok last
      → Reports last
  resolve_local-Reports learned last c i e pending s committed r h =
      let (_, h₁) = (>>-eq-ok (assert_proposal_matches_committed e.proposal c) _).0 h in
      let d : ProposalDecision Operation Rejection = record {
        operation_id = c.operation_id;
        outcome = accepts c.sequence c.operation;
      } in
      subst Reports (ok-injective (rw s at h₁)) (
        All-append IsUsable learned.newly_resolved (d ∷ []) r (
          record { named = committed.identity.has_operation_id; outcome = committed.sequence },
          tt,
        ))
  resolve_local-Reports learned last c i e (accepted n op) s committed r h =
      let (_, h₁) = (>>-eq-ok (assert_proposal_matches_committed e.proposal c) _).0 h in
      subst Reports (ok-injective ((>>-eq-ok _ _).0 (rw s at h₁)).1) r

  resolve-Reports :
      (learned last : Learned Intent Operation Rejection) (c : CommittedOperation Operation)
      → IsCommitted c
      → Reports learned
      → resolve_outbox_from_committed are_equal learned c ≡ ok last
      → Reports last
  unfolding resolve_outbox_from_committed
  resolve-Reports learned last c committed r h =
      elim (Option-cases (find_index c.operation_id learned.outbox)) [
        | inl absent ↦
            subst Reports (ok-injective (rw (absent, resolve_outbox_from_committed) at h)) r
        | inr (i, found) ↦
            let (e, at, own) = find_index-eq-some c.operation_id learned.outbox i found in
            resolve_local-Reports learned last c i e e.status refl committed r
              (rw (found, resolve_outbox_from_committed, at, local_at) at h)
      ]

module _ {State Intent Operation Rejection : Type 0}
    (interpreter : ReplicaInterpreter State Intent Operation) (base : ℕ) where
  abbrev Tells : Progress State Intent Operation Rejection → Type 0
  Tells progress = All IsUsable progress.learned.newly_resolved

  merge_retained-Tells :
      (progress last : Progress State Intent Operation Rejection) (c : CommittedOperation Operation)
      → IsCommitted c
      → Tells progress
      → merge_retained interpreter base progress c ≡ ok last
      → Tells last
  unfolding merge_retained
  merge_retained-Tells progress last c committed r h =
      elim (Option-cases (get_elem? progress.confirmed_log (c.sequence - base - 1))) [
        | inl absent ↦ absurd (ok-ne-err (sym (rw (absent, merge_retained) at h)))
        | inr (existing, there) ↦
            let (_, h₁) = (>>-eq-ok _ _).0 (rw (there, merge_retained) at h) in
            let (learned, resolved, h₂) =
              >>=-eq-ok
                (resolve_outbox_from_committed interpreter.are_committed_operations_equal
                  progress.learned c)
                _ h₁ in
            subst Tells (ok-injective h₂) (
              resolve-Reports interpreter.are_committed_operations_equal progress.learned learned c
                committed r resolved)
      ]

  merge_next-Tells :
      (progress last : Progress State Intent Operation Rejection) (c : CommittedOperation Operation)
      → IsCommitted c
      → Tells progress
      → merge_next interpreter base progress c ≡ ok last
      → Tells last
  unfolding merge_next
  merge_next-Tells progress last c committed r h =
      let (_, h₁) = (>>-eq-ok _ _).0 h in
      let (next, applied, h₂) =
        >>=-eq-ok (interpreter.apply_committed progress.confirmed_state c.operation) _ h₁ in
      let (learned, resolved, h₃) =
        >>=-eq-ok
          (resolve_outbox_from_committed interpreter.are_committed_operations_equal progress.learned
            c)
          _ h₂ in
      subst Tells (ok-injective h₃) (
        resolve-Reports interpreter.are_committed_operations_equal progress.learned learned c
          committed r resolved)

  merge_entry-Tells :
      (progress last : Progress State Intent Operation Rejection) (c : CommittedOperation Operation)
      → IsCommitted c
      → Tells progress
      → merge_entry interpreter base progress c ≡ ok last
      → Tells last
  unfolding merge_entry
  merge_entry-Tells progress last c committed r h = elim (Bool-cases (leb c.sequence base)) [
    | inl compacted ↦ subst Tells (ok-injective (rw (compacted, merge_entry) at h)) r
    | inr behind ↦ elim (Bool-cases (leb c.sequence progress.confirmed_sequence)) [
      | inl confirmed ↦
          merge_retained-Tells progress last c committed r
            (rw (behind, confirmed, merge_entry) at h)
      | inr new ↦ merge_next-Tells progress last c committed r (rw (behind, new, merge_entry) at h)
    ]
  ]

  pub merge_entries-Tells :
      (progress last : Progress State Intent Operation Rejection)
      (cs : List (CommittedOperation Operation))
      → All IsCommitted cs
      → Tells progress
      → merge_entries interpreter base progress cs ≡ ok last
      → Tells last
  unfolding merge_entries
  merge_entries-Tells progress last [] committed r h = subst Tells (ok-injective h) r
  merge_entries-Tells progress last (c ∷ cs) committed r h =
      let (next, merged, h₁) = >>=-eq-ok (merge_entry interpreter base progress c) _ h in
      merge_entries-Tells next last cs committed.1
        (merge_entry-Tells progress next c committed.0 r merged) h₁

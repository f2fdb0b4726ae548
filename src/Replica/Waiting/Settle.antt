-- ===== src/Replica/Waiting/Settle.antt =====
-- `mergeSyncResponse` of src/replica.ts and the proposals that wait for a decision.
use sync_engine_v.Base.{
  ℕ, String, ◌≡◌, refl, sym, subst, ◌≢◌, inl, inr, Bool, List, [], ◌∷◌, some, All, All-map,
  get_elem?, Option-cases,
}
use sync_engine_v.Errors.{ok, ok-injective, ok-ne-err, >>=-eq-ok, >>-eq-ok}
use sync_engine_v.Protocol.{
  ProposalOutcome, accepted as accepts, rejected, ProposalDecision, SyncResponse,
}
use sync_engine_v.Invariants.Batch.Valid.{IsBatch}
use sync_engine_v.Replica.{
  OutboxStatus, pending, accepted, OutboxEntry, Learned, find_index, remove_at, replace_at,
  local_at, merge_local, merge_decision, merge_decisions, ReplicaInterpreter, ReplicaState,
  MergeSyncResult, merge_sync_response,
}
use sync_engine_v.Replica.Find.{
  id_of, IsDistinct, find_index-eq-none, find_index-eq-some, remove_at-gone, replace_at-IsDistinct,
}
use sync_engine_v.Replica.Prepare.{proposals_of, pending_of}
use sync_engine_v.Replica.Shrink.{
  IsPart, IsPart-refl, IsPart-trans, IsPart-All, IsPart-IsBatch, remove_at-IsPart,
  merge_decision-IsPart,
}
use sync_engine_v.Replica.Shrink.Response.{merge_sync_response-Merges}
use sync_engine_v.Replica.Waiting.{
  IsDone, IsPart-pending_of, IsDone-pending_of, accepted-IsDone, get_elem?-replace_at,
  replace_at-IsPart, IsBatch-IsDistinct,
}

module _ {Intent Operation Rejection : Type 0} (are_equal : Operation → Operation → Bool) where
  -- After a decision its operation does not wait, and nothing waits that did not before.
  abbrev Settles :
      String → Learned Intent Operation Rejection → Learned Intent Operation Rejection → Type 0
  Settles id learned last =
      IsPart (pending_of learned.outbox) (pending_of last.outbox)
      × IsDone id (pending_of last.outbox)

  merge_local-Settles :
      (learned last : Learned Intent Operation Rejection) (d : ProposalDecision Operation Rejection)
      (i : ℕ) (e : OutboxEntry Intent Operation) (outcome : ProposalOutcome Operation Rejection)
      (status : OutboxStatus Operation)
      → d.outcome ≡ outcome
      → e.status ≡ status
      → IsDistinct learned.outbox
      → get_elem? learned.outbox i ≡ some e
      → merge_local are_equal learned d i e ≡ ok last
      → Settles (id_of e) learned last
  merge_local-Settles learned last d i e (rejected reason) pending o s distinct at h =
      let left = remove_at i learned.outbox in
      subst (Settles (id_of e) learned) (ok-injective (rw (o, s) at h)) (
        IsPart-pending_of (remove_at-IsPart i learned.outbox),
        IsDone-pending_of (id_of e) left (
            All-map (λ e'. id_of e ≢ id_of e') left (λ e' ne waits same. ne (sym same))
              (remove_at-gone i learned.outbox distinct at)),
      )
  merge_local-Settles learned last d i e (rejected reason) (accepted n op) o s distinct at h =
      absurd (ok-ne-err (sym (rw (o, s) at h)))
  merge_local-Settles learned last d i e (accepts n op) pending o s distinct at h =
      let v : OutboxEntry Intent Operation = record {
        proposal = e.proposal;
        status = accepted n op;
      } in
      let after = replace_at i v learned.outbox in
      subst (Settles (id_of e) learned) (ok-injective (rw (o, s) at h)) (
        replace_at-IsPart i e.proposal n op learned.outbox,
        IsDone-pending_of (id_of e) after (
            accepted-IsDone i after v n op
              (replace_at-IsDistinct i v learned.outbox at refl distinct)
              (get_elem?-replace_at i v learned.outbox at) refl),
      )
  merge_local-Settles learned last d i e (accepts n op) (accepted n' op') o s distinct at h =
      subst (Settles (id_of e) learned) (ok-injective ((>>-eq-ok _ _).0 (rw (o, s) at h)).1) (
        IsPart-refl (pending_of learned.outbox),
        IsDone-pending_of (id_of e) learned.outbox
            (accepted-IsDone i learned.outbox e n' op' distinct at s),
      )

  merge_decision-Settles :
      (learned last : Learned Intent Operation Rejection) (d : ProposalDecision Operation Rejection)
      → IsDistinct learned.outbox
      → merge_decision are_equal learned d ≡ ok last
      → Settles d.operation_id learned last
  unfolding merge_decision
  merge_decision-Settles learned last d distinct h =
      elim (Option-cases (find_index d.operation_id learned.outbox)) [
        | inl absent ↦
            subst (Settles d.operation_id learned) (ok-injective (rw (absent, merge_decision) at h))
              (
                IsPart-refl (pending_of learned.outbox),
                IsDone-pending_of d.operation_id learned.outbox (
                    All-map (λ e. id_of e ≢ d.operation_id) learned.outbox (λ e ne waits. ne)
                      (find_index-eq-none d.operation_id learned.outbox absent)),
              )
        | inr (i, found) ↦
            let (e, at, own) = find_index-eq-some d.operation_id learned.outbox i found in
            subst (λ id. Settles id learned last) own
              (merge_local-Settles learned last d i e d.outcome e.status refl refl distinct at
                (rw (found, merge_decision, at, local_at) at h))
      ]

  merge_decisions-Settles :
      (learned last : Learned Intent Operation Rejection)
      (ds : List (ProposalDecision Operation Rejection))
      → IsBatch (proposals_of learned.outbox)
      → merge_decisions are_equal learned ds ≡ ok last
      → IsPart (pending_of learned.outbox) (pending_of last.outbox)
        × All (λ d. IsDone d.operation_id (pending_of last.outbox)) ds
  unfolding merge_decisions
  merge_decisions-Settles learned last [] b h = (
    subst
        (λ (l : Learned Intent Operation Rejection).
          IsPart (pending_of learned.outbox) (pending_of l.outbox))
        (ok-injective h) (IsPart-refl (pending_of learned.outbox)),
    tt,
  )
  merge_decisions-Settles learned last (d ∷ ds) b h =
      let (next, merged, h₁) = >>=-eq-ok (merge_decision are_equal learned d) _ h in
      let (part, first) =
        merge_decision-Settles learned next d (IsBatch-IsDistinct learned.outbox b) merged in
      let (parts, others) =
        merge_decisions-Settles next last ds
          (IsPart-IsBatch (merge_decision-IsPart are_equal learned next d merged) b) h₁ in
      (
        IsPart-trans part parts,
        (IsPart-All (λ p. p.operation_id ≢ d.operation_id) parts first, others),
      )

module _ {State Intent Operation Rejection : Type 0} where
  -- After a merge that succeeds, of an outbox that is a valid batch, nothing waits for a decision that
  -- did not before, and no operation that the response decides.
  pub merge_sync_response-settles :
      (state : ReplicaState State Intent Operation) (response : SyncResponse Operation Rejection)
      (interpreter : ReplicaInterpreter State Intent Operation)
      {result : MergeSyncResult State Intent Operation Rejection}
      → IsBatch (proposals_of state.outbox)
      → merge_sync_response state response interpreter ≡ ok result
      → IsPart (pending_of state.outbox) (pending_of result.state.outbox)
        × All (λ d. IsDone d.operation_id (pending_of result.state.outbox)) response.decisions
  merge_sync_response-settles state response interpreter {result} b h =
      let m = merge_sync_response-Merges state response interpreter h in
      let left = IsPart-pending_of m.part in
      let (part, settled) =
        merge_decisions-Settles interpreter.are_committed_operations_equal _ m.learned
          response.decisions b m.learns in
      (
        IsPart-trans part left,
        All-map (λ d. IsDone d.operation_id (pending_of m.learned.outbox)) response.decisions
            (λ d. IsPart-All (λ p. p.operation_id ≢ d.operation_id) left) settled,
      )

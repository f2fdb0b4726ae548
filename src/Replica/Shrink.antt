-- ===== src/Replica/Shrink.antt =====
-- What the loops of `mergeSyncResponse` in src/replica.ts leave of the outbox's proposals.
pub mod Response
pub mod Stays
pub mod Unnamed
use sync_engine_v.Base.{
  ℕ, zero, suc, ◌≡◌, refl, sym, ap, subst, ◌∙◌, inl, inr, Bool, true, false, List, [], ◌∷◌, Option,
  none, some, some-injective, arith, All, get_elem?, Option-cases, Bool-cases, leb, ◌-◌, ◌+◌, ltb,
  if◌then◌else◌,
}
use sync_engine_v.Errors.{
  Result, ok, err, Result-cases, ok-injective, ok-ne-err, >>=-eq-ok, >>-eq-ok, ◌>>=◌, ◌>>◌,
}
use sync_engine_v.Protocol.{
  ProposedOperation, CommittedOperation, ProposalOutcome, accepted as accepts, rejected,
  ProposalDecision, SyncResponse,
}
use sync_engine_v.Invariants.Batch.Valid.{IsBatch, MayFollow}
use sync_engine_v.Replica.{
  OutboxStatus, pending, accepted, OutboxEntry, Learned, find_index, remove_at, replace_at,
  local_at, merge_local, merge_decision, merge_decisions, ReplicaInterpreter, ReplicaState,
  MergeSyncResult, Progress, resolve_local, resolve_outbox_from_committed,
  assert_proposal_matches_committed, merge_retained, merge_next, merge_entry, merge_entries,
  keeps_entry, reconcile, assert_retained_confirmed_log, merge_sync_response,
}
use sync_engine_v.Replica.Find.{find_index-eq-some}
use sync_engine_v.Replica.Prepare.{proposals_of}
use sync_engine_v.Replica.Local.{IsOfClient, IsLocal}
use sync_engine_v.Invariants.Response.{assert_sync_response}

-- The second list has some elements of the first, in their order.
pub data IsPart {A : Type 0} : List A → List A → Type 0 where
  empty : IsPart [] []
  kept : {x : A} {xs ys : List A} → IsPart xs ys → IsPart (x ∷ xs) (x ∷ ys)
  gone : {x : A} {xs ys : List A} → IsPart xs ys → IsPart (x ∷ xs) ys

module _ {A : Type 0} where
  pub IsPart-refl : (xs : List A) → IsPart xs xs
  IsPart-refl [] = empty
  IsPart-refl (x ∷ xs) = kept (IsPart-refl xs)

  pub IsPart-trans : {xs ys zs : List A} → IsPart xs ys → IsPart ys zs → IsPart xs zs
  IsPart-trans empty q = q
  IsPart-trans (gone p) q = gone (IsPart-trans p q)
  IsPart-trans (kept p) (kept q) = kept (IsPart-trans p q)
  IsPart-trans (kept p) (gone q) = gone (IsPart-trans p q)

  pub IsPart-All : (P : A → Type 0) {xs ys : List A} → IsPart xs ys → All P xs → All P ys
  IsPart-All P empty h = tt
  IsPart-All P (kept p) h = (h.0, IsPart-All P p h.1)
  IsPart-All P (gone p) h = IsPart-All P p h.1

pub IsPart-IsBatch :
    {Intent : Type 0} {ps qs : List (ProposedOperation Intent)}
    → IsPart ps qs
    → IsBatch ps
    → IsBatch qs
IsPart-IsBatch empty b = tt
IsPart-IsBatch (kept {x = x} p) b = (b.0, IsPart-All (MayFollow x) p b.1, IsPart-IsBatch p b.2)
IsPart-IsBatch (gone p) b = IsPart-IsBatch p b.2

module _ {Intent Operation : Type 0} where
  pub IsPart-proposals_of :
      {es fs : List (OutboxEntry Intent Operation)}
      → IsPart es fs
      → IsPart (proposals_of es) (proposals_of fs)
  IsPart-proposals_of empty = empty
  IsPart-proposals_of (kept part) = kept (IsPart-proposals_of part)
  IsPart-proposals_of (gone part) = gone (IsPart-proposals_of part)

  pub remove_at-IsPart :
      (i : ℕ) (es : List (OutboxEntry Intent Operation)) → IsPart es (remove_at i es)
  unfolding remove_at
  remove_at-IsPart i [] = empty
  remove_at-IsPart zero (e ∷ es) = gone (IsPart-refl es)
  remove_at-IsPart (suc i) (e ∷ es) = kept (remove_at-IsPart i es)

  proposals_of-replace_at :
      (i : ℕ) (v : OutboxEntry Intent Operation) (es : List (OutboxEntry Intent Operation))
      {e : OutboxEntry Intent Operation}
      → get_elem? es i ≡ some e
      → e.proposal ≡ v.proposal
      → proposals_of es ≡ proposals_of (replace_at i v es)
  unfolding replace_at
  proposals_of-replace_at i v [] at same = refl
  proposals_of-replace_at zero v (x ∷ xs) at same =
      ap (λ p. p ∷ proposals_of xs)
        (ap (λ (e : OutboxEntry Intent Operation). e.proposal) (some-injective at) ∙ same)
  proposals_of-replace_at (suc i) v (x ∷ xs) at same =
      ap (λ ps. x.proposal ∷ ps) (proposals_of-replace_at i v xs at same)

module _ {Intent Operation Rejection : Type 0} (are_equal : Operation → Operation → Bool) where
  abbrev Shrinks : Learned Intent Operation Rejection → Learned Intent Operation Rejection → Type 0
  Shrinks learned last = IsPart (proposals_of learned.outbox) (proposals_of last.outbox)

  abbrev Leaves : Learned Intent Operation Rejection → Learned Intent Operation Rejection → Type 0
  Leaves learned last = IsPart learned.outbox last.outbox

  merge_local-IsPart :
      (learned last : Learned Intent Operation Rejection) (d : ProposalDecision Operation Rejection)
      (i : ℕ) (e : OutboxEntry Intent Operation) (outcome : ProposalOutcome Operation Rejection)
      (status : OutboxStatus Operation)
      → d.outcome ≡ outcome
      → e.status ≡ status
      → get_elem? learned.outbox i ≡ some e
      → merge_local are_equal learned d i e ≡ ok last
      → IsPart (proposals_of learned.outbox) (proposals_of last.outbox)
  merge_local-IsPart learned last d i e (rejected reason) pending o s at h =
      subst (Shrinks learned) (ok-injective (rw (o, s) at h))
        (IsPart-proposals_of (remove_at-IsPart i learned.outbox))
  merge_local-IsPart learned last d i e (rejected reason) (accepted n op) o s at h =
      absurd (ok-ne-err (sym (rw (o, s) at h)))
  merge_local-IsPart learned last d i e (accepts n op) pending o s at h =
      subst (Shrinks learned) (ok-injective (rw (o, s) at h)) (
        subst (IsPart (proposals_of learned.outbox))
          (proposals_of-replace_at i (record { proposal = e.proposal; status = accepted n op })
            learned.outbox at refl)
          (IsPart-refl (proposals_of learned.outbox)))
  merge_local-IsPart learned last d i e (accepts n op) (accepted n' op') o s at h =
      subst (Shrinks learned) (ok-injective ((>>-eq-ok _ _).0 (rw (o, s) at h)).1)
        (IsPart-refl (proposals_of learned.outbox))

  pub merge_decision-IsPart :
      (learned last : Learned Intent Operation Rejection) (d : ProposalDecision Operation Rejection)
      → merge_decision are_equal learned d ≡ ok last
      → IsPart (proposals_of learned.outbox) (proposals_of last.outbox)
  unfolding merge_decision
  merge_decision-IsPart learned last d h =
      elim (Option-cases (find_index d.operation_id learned.outbox)) [
        | inl absent ↦
            subst (Shrinks learned) (ok-injective (rw (absent, merge_decision) at h))
              (IsPart-refl (proposals_of learned.outbox))
        | inr (i, found) ↦
            let (e, at, own) = find_index-eq-some d.operation_id learned.outbox i found in
            merge_local-IsPart learned last d i e d.outcome e.status refl refl at
              (rw (found, merge_decision, at, local_at) at h)
      ]

  pub merge_decisions-IsPart :
      (learned last : Learned Intent Operation Rejection)
      (ds : List (ProposalDecision Operation Rejection))
      → merge_decisions are_equal learned ds ≡ ok last
      → IsPart (proposals_of learned.outbox) (proposals_of last.outbox)
  unfolding merge_decisions
  merge_decisions-IsPart learned last [] h =
      subst (Shrinks learned) (ok-injective h) (IsPart-refl (proposals_of learned.outbox))
  merge_decisions-IsPart learned last (d ∷ ds) h =
      let (next, merged, h₁) = >>=-eq-ok (merge_decision are_equal learned d) _ h in
      IsPart-trans (merge_decision-IsPart learned next d merged)
        (merge_decisions-IsPart next last ds h₁)

  resolve_local-IsPart :
      (learned last : Learned Intent Operation Rejection) (c : CommittedOperation Operation) (i : ℕ)
      (e : OutboxEntry Intent Operation) (status : OutboxStatus Operation)
      → e.status ≡ status
      → resolve_local are_equal learned c i e ≡ ok last
      → IsPart learned.outbox last.outbox
  resolve_local-IsPart learned last c i e pending s h =
      let (_, h₁) = (>>-eq-ok (assert_proposal_matches_committed e.proposal c) _).0 h in
      subst (Leaves learned) (ok-injective (rw s at h₁)) (remove_at-IsPart i learned.outbox)
  resolve_local-IsPart learned last c i e (accepted n op) s h =
      let (_, h₁) = (>>-eq-ok (assert_proposal_matches_committed e.proposal c) _).0 h in
      subst (Leaves learned) (ok-injective ((>>-eq-ok _ _).0 (rw s at h₁)).1)
        (remove_at-IsPart i learned.outbox)

  pub resolve-IsPart :
      (learned last : Learned Intent Operation Rejection) (c : CommittedOperation Operation)
      → resolve_outbox_from_committed are_equal learned c ≡ ok last
      → IsPart learned.outbox last.outbox
  unfolding resolve_outbox_from_committed
  resolve-IsPart learned last c h = elim (Option-cases (find_index c.operation_id learned.outbox)) [
    | inl absent ↦
        subst (Leaves learned) (ok-injective (rw (absent, resolve_outbox_from_committed) at h))
          (IsPart-refl learned.outbox)
    | inr (i, found) ↦
        let (e, at, own) = find_index-eq-some c.operation_id learned.outbox i found in
        resolve_local-IsPart learned last c i e e.status refl
          (rw (found, resolve_outbox_from_committed, at, local_at) at h)
  ]

-- ===== src/Replica/Shrink/Stays.antt =====
-- What `mergeSyncResponse` of src/replica.ts leaves in the outbox: the entries that a response does not
-- name.
use sync_engine_v.Base.{
  ℕ, zero, suc, ◌⊎◌, str_eq, str_eq→eq, str_eq→ne, ◌<◌, String, ◌≡◌, ◌≢◌, refl, sym, ap, subst, ◌∙◌,
  inl, inr, Bool, List, [], ◌∷◌, some, some-injective, All, get_elem?, Option-cases, Bool-cases,
}
use sync_engine_v.Errors.{ok, ok-injective, ok-ne-err, >>=-eq-ok, >>-eq-ok}
use sync_engine_v.Protocol.{
  CommittedOperation, ProposalOutcome, accepted as accepts, rejected, ProposalDecision,
}
use sync_engine_v.Replica.{
  OutboxStatus, pending, accepted, OutboxEntry, Learned, find_index, remove_at, replace_at,
  local_at, merge_local, merge_decision, merge_decisions, resolve_local,
  resolve_outbox_from_committed, assert_proposal_matches_committed,
}
use sync_engine_v.Replica.Find.{id_of, find_index-eq-some}

-- The element is in the list.
pub data Holds {A : Type 0} (x : A) : List A → Type 0 where
  here : {xs : List A} → Holds x (x ∷ xs)
  later : {y : A} {xs : List A} → Holds x xs → Holds x (y ∷ xs)

module _ {A : Type 0} where
  pub All-Holds : (P : A → Type 0) (xs : List A) → ((x : A) → Holds x xs → P x) → All P xs
  All-Holds P [] h = tt
  All-Holds P (x ∷ xs) h = (h x here, All-Holds P xs λ y held. h y (later held))

  -- an element of a name, or none
  pub named_among :
      (name : A → String) (id : String) (xs : List A)
      → ((x : A) × Holds x xs × (name x ≡ id)) ⊎ All (λ x. name x ≢ id) xs
  named_among name id [] = inr tt
  named_among name id (x ∷ xs) = elim (Bool-cases (str_eq (name x) id)) [
    | inl same ↦ inl (x, here, str_eq→eq same)
    | inr other ↦ elim (named_among name id xs) [
      | inl (y, held, same) ↦ inl (y, later held, same)
      | inr others ↦ inr (str_eq→ne other, others)
    ]
  ]

-- Of an entry that the first k canonical entries do not reach: pending, or accepted after them.
pub data IsWaiting {Operation : Type 0} (k : ℕ) : OutboxStatus Operation → Type 0 where
  unsent : IsWaiting k pending
  receipt : {n : ℕ} {o : Operation} → k < n → IsWaiting k (accepted n o)

module _ {Intent Operation : Type 0} (e : OutboxEntry Intent Operation) where
  remove_at-Holds :
      (i : ℕ) (es : List (OutboxEntry Intent Operation)) {x : OutboxEntry Intent Operation}
      → get_elem? es i ≡ some x
      → id_of x ≢ id_of e
      → Holds e es
      → Holds e (remove_at i es)
  unfolding remove_at
  remove_at-Holds zero [] at other h = elim h [ ]
  remove_at-Holds (suc i) [] at other h = elim h [ ]
  remove_at-Holds zero (y ∷ ys) at other here = absurd (other (ap id_of (sym (some-injective at))))
  remove_at-Holds zero (y ∷ ys) at other (later h) = h
  remove_at-Holds (suc i) (y ∷ ys) at other here = here
  remove_at-Holds (suc i) (y ∷ ys) at other (later h) = later (remove_at-Holds i ys at other h)

  replace_at-Holds :
      (i : ℕ) (v : OutboxEntry Intent Operation) (es : List (OutboxEntry Intent Operation))
      {x : OutboxEntry Intent Operation}
      → get_elem? es i ≡ some x
      → id_of x ≢ id_of e
      → Holds e es
      → Holds e (replace_at i v es)
  unfolding replace_at
  replace_at-Holds zero v [] at other h = elim h [ ]
  replace_at-Holds (suc i) v [] at other h = elim h [ ]
  replace_at-Holds zero v (y ∷ ys) at other here =
      absurd (other (ap id_of (sym (some-injective at))))
  replace_at-Holds zero v (y ∷ ys) at other (later h) = later h
  replace_at-Holds (suc i) v (y ∷ ys) at other here = here
  replace_at-Holds (suc i) v (y ∷ ys) at other (later h) =
      later (replace_at-Holds i v ys at other h)

  module _ {Rejection : Type 0} (are_equal : Operation → Operation → Bool) where
    -- the entry is still there
    abbrev Still : Learned Intent Operation Rejection → Type 0
    Still learned = Holds e learned.outbox

    merge_local-Holds :
        (learned last : Learned Intent Operation Rejection)
        (d : ProposalDecision Operation Rejection) (i : ℕ) (x : OutboxEntry Intent Operation)
        (outcome : ProposalOutcome Operation Rejection) (status : OutboxStatus Operation)
        → d.outcome ≡ outcome
        → x.status ≡ status
        → get_elem? learned.outbox i ≡ some x
        → id_of x ≢ id_of e
        → merge_local are_equal learned d i x ≡ ok last
        → Still learned
        → Still last
    merge_local-Holds learned last d i x (rejected reason) pending o s at other h held =
        subst Still (ok-injective (rw (o, s) at h)) (remove_at-Holds i learned.outbox at other held)
    merge_local-Holds learned last d i x (rejected reason) (accepted n op) o s at other h held =
        absurd (ok-ne-err (sym (rw (o, s) at h)))
    merge_local-Holds learned last d i x (accepts n op) pending o s at other h held =
        subst Still (ok-injective (rw (o, s) at h)) (
          replace_at-Holds i (record { proposal = x.proposal; status = accepted n op })
            learned.outbox at other held)
    merge_local-Holds learned last d i x (accepts n op) (accepted n' op') o s at other h held =
        subst Still (ok-injective ((>>-eq-ok _ _).0 (rw (o, s) at h)).1) held

    merge_decision-Holds :
        (learned last : Learned Intent Operation Rejection)
        (d : ProposalDecision Operation Rejection)
        → d.operation_id ≢ id_of e
        → merge_decision are_equal learned d ≡ ok last
        → Still learned
        → Still last
    unfolding merge_decision
    merge_decision-Holds learned last d other h held =
        elim (Option-cases (find_index d.operation_id learned.outbox)) [
          | inl absent ↦ subst Still (ok-injective (rw (absent, merge_decision) at h)) held
          | inr (i, found) ↦
              let (x, at, own) = find_index-eq-some d.operation_id learned.outbox i found in
              merge_local-Holds learned last d i x d.outcome x.status refl refl at
                (λ same. other (sym own ∙ same)) (rw (found, merge_decision, at, local_at) at h)
                held
        ]

    pub merge_decisions-Holds :
        (learned last : Learned Intent Operation Rejection)
        (ds : List (ProposalDecision Operation Rejection))
        → All (λ d. d.operation_id ≢ id_of e) ds
        → merge_decisions are_equal learned ds ≡ ok last
        → Still learned
        → Still last
    unfolding merge_decisions
    merge_decisions-Holds learned last [] other h held = subst Still (ok-injective h) held
    merge_decisions-Holds learned last (d ∷ ds) other h held =
        let (next, merged, h₁) = >>=-eq-ok (merge_decision are_equal learned d) _ h in
        merge_decisions-Holds next last ds other.1 h₁
          (merge_decision-Holds learned next d other.0 merged held)

    resolve_local-Holds :
        (learned last : Learned Intent Operation Rejection) (c : CommittedOperation Operation)
        (i : ℕ) (x : OutboxEntry Intent Operation) (status : OutboxStatus Operation)
        → x.status ≡ status
        → get_elem? learned.outbox i ≡ some x
        → id_of x ≢ id_of e
        → resolve_local are_equal learned c i x ≡ ok last
        → Still learned
        → Still last
    resolve_local-Holds learned last c i x pending s at other h held =
        let (_, h₁) = (>>-eq-ok (assert_proposal_matches_committed x.proposal c) _).0 h in
        subst Still (ok-injective (rw s at h₁)) (remove_at-Holds i learned.outbox at other held)
    resolve_local-Holds learned last c i x (accepted n op) s at other h held =
        let (_, h₁) = (>>-eq-ok (assert_proposal_matches_committed x.proposal c) _).0 h in
        subst Still (ok-injective ((>>-eq-ok _ _).0 (rw s at h₁)).1)
          (remove_at-Holds i learned.outbox at other held)

    pub resolve-Holds :
        (learned last : Learned Intent Operation Rejection) (c : CommittedOperation Operation)
        → c.operation_id ≢ id_of e
        → resolve_outbox_from_committed are_equal learned c ≡ ok last
        → Still learned
        → Still last
    unfolding resolve_outbox_from_committed
    resolve-Holds learned last c other h held =
        elim (Option-cases (find_index c.operation_id learned.outbox)) [
          | inl absent ↦
              subst Still (ok-injective (rw (absent, resolve_outbox_from_committed) at h)) held
          | inr (i, found) ↦
              let (x, at, own) = find_index-eq-some c.operation_id learned.outbox i found in
              resolve_local-Holds learned last c i x x.status refl at
                (λ same. other (sym own ∙ same))
                (rw (found, resolve_outbox_from_committed, at, local_at) at h) held
        ]

-- ===== src/Replica/Confirm.antt =====
-- The entries of a canonical log are taken in without an error (`resolveOutboxFromCommitted` and the
-- second loop of `mergeSyncResponse` in src/replica.ts).
use sync_engine_v.Base.{
  ℕ, suc, ◌<◌, ◌≡◌, refl, sym, ap, subst, ◌∙◌, ◌≢◌, inl, inr, Bool, true, List, [], ◌∷◌, ◌++◌, some,
  arith, All, All-get_elem?, All-map, All-of-get_elem?, get_elem?, Option-cases, str_eq, str_eq_iff,
}
use sync_engine_v.Errors.{ok}
use sync_engine_v.Protocol.{ProposedOperation, CommittedOperation, accepted as accepts}
use sync_engine_v.Invariants.Identity.{submitted_as, entry_of}
use sync_engine_v.Replica.{
  OutboxStatus, pending, accepted, OutboxEntry, Learned, find_index, remove_at, local_at,
  assert_proposal_matches_committed, proposal_difference, resolve_local,
  resolve_outbox_from_committed,
}
use sync_engine_v.Replica.Find.{id_of, find_index-eq-none, find_index-eq-some, remove_at-gone}
use sync_engine_v.Replica.Canonical.{IsUnique, IsReceipt, IsOwn, IsSound, remove_at-IsSound}

module _ {Intent Operation : Type 0} where
  assert_proposal_matches_committed_self :
      (p : ProposedOperation Intent) (c : CommittedOperation Operation)
      → submitted_as c ≡ p.submission
      → assert_proposal_matches_committed p c ≡ ok tt
  unfolding assert_proposal_matches_committed proposal_difference
  assert_proposal_matches_committed_self p c same =
      let a : str_eq p.operation_id c.operation_id ≡ true =
        (str_eq_iff _ _).1 (ap (λ s. s.operation_id) (sym same)) in
      let b : str_eq p.client_id c.origin.client_id ≡ true =
        (str_eq_iff _ _).1 (ap (λ s. s.client_id) (sym same)) in
      let d : p.client_sequence ≡ c.origin.client_sequence =
        ap (λ s. s.client_sequence) (sym same) in
      let e : str_eq p.intent_hash c.origin.intent_hash ≡ true =
        (str_eq_iff _ _).1 (ap (λ s. s.intent_hash) (sym same)) in
      ground arith

module _ {Intent Operation : Type 0} (log : List (CommittedOperation Operation)) where
  -- Once the log's next entry is confirmed and its operation is not in the outbox, the outbox agrees
  -- with the log after it.
  IsSound-suc :
      (k : ℕ) (outbox : List (OutboxEntry Intent Operation)) (c : CommittedOperation Operation)
      → IsSound log k outbox
      → get_elem? log k ≡ some c
      → All (λ e. id_of e ≢ c.operation_id) outbox
      → IsSound log (suc k) outbox
  IsSound-suc k outbox c sound at gone = record {
    own = All-of-get_elem? (IsOwn log (suc k)) outbox λ i e there.
        let own = All-get_elem? (IsOwn log k) outbox i sound.own there in
        record {
          matches = λ n d at' same.
              let behind = (own.matches n d at' same).0 in
              let other : k ≢ n = λ h.
                All-get_elem? (λ e. id_of e ≢ c.operation_id) outbox i gone there
                  (cc (at, at', h, same)) in
              (omega (arith, behind, other), (own.matches n d at' same).1);
          receipt = own.receipt;
        };
    distinct = sound.distinct;
  }

module _ {Intent Operation Rejection : Type 0} (log : List (CommittedOperation Operation))
    (unique : IsUnique log) (are_equal : Operation → Operation → Bool)
    (equal_refl : (o : Operation) → are_equal o o ≡ true) where
  -- an entry that the replica has confirmed is of no operation in the outbox
  pub resolve-confirmed :
      (k j : ℕ) (learned : Learned Intent Operation Rejection) (c : CommittedOperation Operation)
      → IsSound log k learned.outbox
      → get_elem? log j ≡ some c
      → j < k
      → resolve_outbox_from_committed are_equal learned c ≡ ok learned
  unfolding resolve_outbox_from_committed
  resolve-confirmed k j learned c sound at below =
      elim (Option-cases (find_index c.operation_id learned.outbox)) [
        | inl absent ↦ rw (absent, resolve_outbox_from_committed) refl
        | inr (i, found) ↦
            let (e, there, same) = find_index-eq-some c.operation_id learned.outbox i found in
            let own = All-get_elem? (IsOwn log k) learned.outbox i sound.own there in
            absurd (omega (arith, (own.matches j c at (sym same)).0))
      ]

  resolve_local-next :
      (k i : ℕ) (learned : Learned Intent Operation Rejection) (c : CommittedOperation Operation)
      (e : OutboxEntry Intent Operation) (status : OutboxStatus Operation)
      → e.status ≡ status
      → submitted_as c ≡ e.proposal.submission
      → IsReceipt log e.proposal status
      → get_elem? log k ≡ some c
      → (last : Learned Intent Operation Rejection) × (resolve_local are_equal learned c i e
          ≡ ok last)
        × (last.outbox ≡ remove_at i learned.outbox)
  resolve_local-next k i learned c e pending s same receipt at = (
    record {
      outbox = remove_at i learned.outbox;
      newly_resolved =
          learned.newly_resolved
          ++ record { operation_id = c.operation_id; outcome = accepts c.sequence c.operation }
            ∷ [];
    },
    rw (assert_proposal_matches_committed_self e.proposal c same, s) refl,
    refl,
  )
  resolve_local-next k i learned c e (accepted n op) s same receipt at =
      let place =
        unique receipt.index k _ c receipt.entry at (ap (λ s. s.operation_id) (sym same)) in
      let entries : some (entry_of e.proposal.submission n op) ≡ some c =
        sym receipt.entry ∙ ap (get_elem? log) place ∙ at in
      let n_same : n ≡ c.sequence = cc entries in
      let op_same : op ≡ c.operation = cc entries in
      (
        record learned { outbox = remove_at i learned.outbox },
        rw
            (
              assert_proposal_matches_committed_self e.proposal c same,
              s,
              n_same,
              op_same,
              equal_refl c.operation,
            )
            (ground arith),
        refl,
      )

  pub resolve-next :
      (k : ℕ) (learned : Learned Intent Operation Rejection) (c : CommittedOperation Operation)
      → IsSound log k learned.outbox
      → get_elem? log k ≡ some c
      → (last : Learned Intent Operation Rejection) × (resolve_outbox_from_committed are_equal
            learned c
          ≡ ok last)
        × IsSound log (suc k) last.outbox
  unfolding resolve_outbox_from_committed
  resolve-next k learned c sound at =
      elim (Option-cases (find_index c.operation_id learned.outbox)) [
        | inl absent ↦ (
          learned,
          rw (absent, resolve_outbox_from_committed) refl,
          IsSound-suc log k learned.outbox c sound at (find_index-eq-none _ _ absent),
        )
        | inr (i, found) ↦
            let (e, there, same) = find_index-eq-some c.operation_id learned.outbox i found in
            let own = All-get_elem? (IsOwn log k) learned.outbox i sound.own there in
            let (last, returns, left) =
              resolve_local-next k i learned c e e.status refl (own.matches k c at (sym same)).1
                own.receipt at in
            let gone =
              All-map (λ e'. id_of e ≢ id_of e') (remove_at i learned.outbox)
                (λ e' ne h. ne (same ∙ sym h))
                (remove_at-gone i learned.outbox sound.distinct there) in
            (
              last,
              rw (found, resolve_outbox_from_committed, there, local_at) returns,
              subst (IsSound log (suc k)) (sym left) (
                  IsSound-suc log k (remove_at i learned.outbox) c
                    (remove_at-IsSound log k i learned.outbox sound) at gone),
            )
      ]

-- ===== src/Replica/Learn.antt =====
-- The decisions of a canonical authority are taken in without an error (the first loop of
-- `mergeSyncResponse` in src/replica.ts).
use sync_engine_v.Base.{
  ℕ, ◌≡◌, refl, sym, inl, inr, Bool, true, List, [], ◌∷◌, ◌++◌, some, arith, All, All-get_elem?,
  All-map, get_elem?, Option-cases,
}
use sync_engine_v.Errors.{Result, ok}
use sync_engine_v.Protocol.{
  CommittedOperation, ProposalOutcome, accepted as accepts, rejected, ProposalDecision,
}
use sync_engine_v.Replica.{
  OutboxStatus, pending, accepted, OutboxEntry, Learned, find_index, remove_at, replace_at,
  local_at, merge_local, merge_decision, merge_decisions,
}
use sync_engine_v.Replica.Find.{find_index-eq-some}
use sync_engine_v.Replica.Canonical.{
  IsUnique, IsCommittedAt-unique, IsReceipt, IsOwn, Holds, IsTrue, IsSound, remove_at-IsSound,
  replace_at-IsSound, OutboxStep, unchanged, removed, receipted, OutboxStep-All,
}

module _ {Intent Operation Rejection : Type 0} (log : List (CommittedOperation Operation))
    (unique : IsUnique log) (are_equal : Operation → Operation → Bool)
    (equal_refl : (o : Operation) → are_equal o o ≡ true) (k : ℕ) where
  -- A merge of decisions that succeeds, with what it leaves.
  record Learns (learned : Learned Intent Operation Rejection)
      (r : Result (Learned Intent Operation Rejection)) : Type 0 where
    pub last : Learned Intent Operation Rejection
    pub returns : r ≡ ok last
    pub step : OutboxStep learned.outbox last.outbox
    pub sound : IsSound log k last.outbox

  merge_local-Learns :
      (learned : Learned Intent Operation Rejection) (d : ProposalDecision Operation Rejection)
      (i : ℕ) (e : OutboxEntry Intent Operation) (outcome : ProposalOutcome Operation Rejection)
      (status : OutboxStatus Operation)
      → d.outcome ≡ outcome
      → e.status ≡ status
      → get_elem? learned.outbox i ≡ some e
      → IsSound log k learned.outbox
      → IsReceipt log e.proposal status
      → Holds log e.proposal outcome
      → Learns learned (merge_local are_equal learned d i e)
  merge_local-Learns learned d i e (rejected reason) pending o s at sound receipt holds = record {
    last = record {
      outbox = remove_at i learned.outbox;
      newly_resolved = learned.newly_resolved ++ d ∷ [];
    };
    returns = rw (o, s);
    step = removed i refl;
    sound = remove_at-IsSound log k i learned.outbox sound;
  }
  merge_local-Learns learned d i e (rejected reason) (accepted n op) o s at sound receipt holds =
      absurd (holds receipt.index _ receipt.entry refl)
  merge_local-Learns learned d i e (accepts n op) pending o s at sound receipt holds =
      let own = All-get_elem? (IsOwn log k) learned.outbox i sound.own at in
      let v : OutboxEntry Intent Operation = record {
        proposal = e.proposal;
        status = accepted n op;
      } in
      record {
        last = record {
          outbox = replace_at i v learned.outbox;
          newly_resolved = learned.newly_resolved ++ d ∷ [];
        };
        returns = rw (o, s);
        step = receipted i e v at refl refl;
        sound =
            replace_at-IsSound log k i v learned.outbox at refl
              (record { matches = own.matches; receipt = holds }) sound;
      }
  merge_local-Learns learned d i e (accepts n op) (accepted n' op') o s at sound receipt holds =
      let (same, same_op) = IsCommittedAt-unique log e.proposal n' n op' op unique receipt holds in
      record {
        last = learned;
        returns = rw (o, s) (rw (same, same_op, equal_refl op) (ground arith));
        step = unchanged refl;
        sound = sound;
      }

  merge_decision-Learns :
      (learned : Learned Intent Operation Rejection) (d : ProposalDecision Operation Rejection)
      → IsSound log k learned.outbox
      → All (λ e. IsTrue log e.proposal d) learned.outbox
      → Learns learned (merge_decision are_equal learned d)
  unfolding merge_decision
  merge_decision-Learns learned d sound true_of =
      elim (Option-cases (find_index d.operation_id learned.outbox)) [
        | inl absent ↦
            rw (absent, merge_decision)
              (record { last = learned; returns = refl; step = unchanged refl; sound = sound })
        | inr (i, found) ↦
            let (e, at, own) = find_index-eq-some d.operation_id learned.outbox i found in
            rw (found, merge_decision, at, local_at)
              (merge_local-Learns learned d i e d.outcome e.status refl refl at sound
                (All-get_elem? (IsOwn log k) learned.outbox i sound.own at).receipt
                (All-get_elem? (λ e. IsTrue log e.proposal d) learned.outbox i true_of at
                  (sym own)))
      ]

  -- Decisions that hold in a log without repeated operations are all taken in without an error, for
  -- an outbox that agrees with the log and a reflexive equality of operations, and the outbox agrees
  -- with the log afterwards.
  pub merge_decisions-Learns :
      (learned : Learned Intent Operation Rejection)
      (ds : List (ProposalDecision Operation Rejection))
      → IsSound log k learned.outbox
      → All (λ e. All (IsTrue log e.proposal) ds) learned.outbox
      → (last : Learned Intent Operation Rejection) × (merge_decisions are_equal learned ds
          ≡ ok last)
        × IsSound log k last.outbox
  unfolding merge_decisions
  merge_decisions-Learns learned [] sound true_of = (learned, refl, sound)
  merge_decisions-Learns learned (d ∷ ds) sound true_of =
      let first =
        merge_decision-Learns learned d sound (
          All-map (λ e. All (IsTrue log e.proposal) (d ∷ ds)) learned.outbox (λ e h. h.0)
            true_of) in
      let rest =
        OutboxStep-All (λ p. All (IsTrue log p) ds) learned.outbox first.last.outbox first.step
          (All-map (λ e. All (IsTrue log e.proposal) (d ∷ ds)) learned.outbox (λ e h. h.1)
            true_of) in
      let (last, returns, sound') = merge_decisions-Learns first.last ds first.sound rest in
      (last, rw (first.returns) returns, sound')

-- ===== src/System/Session/Over.antt =====
-- When `runSyncSession` of src/client/sync-session.ts needs no further round, and that it does otherwise.
use sync_engine_v.Base.{
  ℕ, ◌+◌, ◌≤◌, ◌<◌, ◌≡◌, refl, subst, inl, inr, Bool, true, false, not, ◌&&◌, List, [], ◌∷◌, arith,
  All, get_elem?-lt, length, ltb, ◌==◌, Bool-cases,
}
use sync_engine_v.Protocol.{CommittedOperation, SyncResponse, response_has_more_entries}
use sync_engine_v.Replica.{
  PrepareSyncRequestOptions, OutboxStatus, pending, accepted, OutboxEntry, ReplicaInterpreter,
}
use sync_engine_v.Replica.Canonical.{IsOwn}
use sync_engine_v.Replica.Prepare.{pending_first, pending_of}
use sync_engine_v.Replica.Follow.{IsCanonical}
use sync_engine_v.Replica.Converge.{IsReplica-caught_up}
use sync_engine_v.IndexedDb.{status_from_record}
use sync_engine_v.IndexedDb.Counted.{count_outbox_lem}
use sync_engine_v.System.Authority.{IsConsistent-IsCanonical}
use sync_engine_v.System.Session.{SessionWorld, work_left, IsDrained}
use sync_engine_v.System.Session.Round.{IsUsable, Progresses}

module _ {Intent Operation : Type 0} (log : List (CommittedOperation Operation)) (k : ℕ)
    (whole : length log ≤ k) where
  receipt-waits :
      (e : OutboxEntry Intent Operation) (es : List (OutboxEntry Intent Operation))
      (status : OutboxStatus Operation)
      → e.status ≡ status
      → IsOwn log k e
      → length (pending_first e.status e.proposal (pending_of es)) ≡ length (pending_of es) + 1
  receipt-waits e es pending s own = rw s (omega arith)
  receipt-waits e es (accepted n o) s own =
      let receipt = rw s at own.receipt in
      absurd (
        omega (
          arith,
          get_elem?-lt log receipt.index receipt.entry,
          (own.matches receipt.index _ receipt.entry refl).0,
          whole,
        ))

  -- Once the whole log is confirmed, all that is in the outbox waits for a decision.
  caught_up-length :
      (es : List (OutboxEntry Intent Operation))
      → All (IsOwn log k) es
      → length (pending_of es) ≡ length es
  caught_up-length [] own = refl
  caught_up-length (e ∷ es) own =
      omega (arith, receipt-waits e es e.status refl own.0, caught_up-length es own.1)

module _ {A : Type 0} where
  length-eq-zero : (xs : List A) → length xs ≡ 0 → xs ≡ []
  length-eq-zero [] h = refl
  length-eq-zero (x ∷ xs) h = absurd (omega (arith, h))

module _ {State Intent Operation Rejection : Type 0} where
  -- whether the session needs no further round
  abbrev pub is_over :
      SessionWorld State Intent Operation Rejection → SyncResponse Operation Rejection → Bool
  is_over after response =
      let status = status_from_record after.stored in
      not (response_has_more_entries response)
      && status.pending_proposal_count == 0
      && status.accepted_awaiting_confirmation_count == 0

module _ {State Intent Operation Rejection : Type 0} (initial : State)
    (interpreter : ReplicaInterpreter State Intent Operation) (options : PrepareSyncRequestOptions)
    (usable : IsUsable options) where
  abbrev Achieves :
      SessionWorld State Intent Operation Rejection
      → SessionWorld State Intent Operation Rejection
      → SyncResponse Operation Rejection
      → Type 0
  Achieves before after response =
      Progresses initial interpreter options usable before after response

  pub over-IsDrained :
      (before after : SessionWorld State Intent Operation Rejection)
      (response : SyncResponse Operation Rejection)
      → Achieves before after response
      → is_over after response ≡ true
      → IsDrained after
  unfolding status_from_record response_has_more_entries
  over-IsDrained before after response p ended =
      let outbox = after.stored.replica.outbox in
      let (waits, total) =
        count_outbox_lem (record { pending_count = 0; accepted_count = 0 }) outbox in
      let empty : length outbox ≡ 0 = ground (arith, total) in
      let whole : after.stored.replica.confirmed_sequence ≡ length after.server.log =
        ground (arith, p.through, p.head, p.reaches) in
      let s = p.session in
      let canonical =
        subst (λ a. IsCanonical a initial after.server.state after.server.log) (s.shared.apply)
          (IsConsistent-IsCanonical initial after.server s.consistent) in
      record {
        outbox = length-eq-zero outbox empty;
        confirmed = whole;
        state =
            (IsReplica-caught_up interpreter initial after.server.state after.server.log canonical
              (omega (arith, s.room)) after.stored.replica s.replica whole).0;
      }

  pub more-work_left :
      (before after : SessionWorld State Intent Operation Rejection)
      (response : SyncResponse Operation Rejection)
      → Achieves before after response
      → is_over after response ≡ false
      → work_left after < work_left before
  unfolding status_from_record response_has_more_entries
  more-work_left before after response p more =
      let outbox = after.stored.replica.outbox in
      let (waits, total) =
        count_outbox_lem (record { pending_count = 0; accepted_count = 0 }) outbox in
      let own = p.session.replica.sound.own in
      let left = length (pending_of before.stored.replica.outbox) in
      elim (Bool-cases (ltb 0 left)) [
        | inl waiting ↦
            let some_sent = p.some_sent (ground arith) in
            omega (arith, p.fewer, p.grows, p.within, p.reaches, p.forward, some_sent)
        | inr nothing ↦
            let none_left : left ≡ 0 = ground arith in
            elim (Bool-cases
              (ltb after.stored.replica.confirmed_sequence (length after.server.log))) [
                | inl behind ↦
                    let k' = after.stored.replica.confirmed_sequence in
                    let later : k' < length after.server.log = ground arith in
                    omega (
                      arith,
                      p.fewer,
                      p.grows,
                      p.within,
                      p.advances (omega (arith, later, p.forward)),
                    )
                | inr whole ↦
                    let all_wait =
                      caught_up-length after.server.log after.stored.replica.confirmed_sequence
                        (ground arith) outbox own in
                    absurd (
                      ground (arith, total, waits, all_wait, none_left, p.fewer, p.through, p.head))
              ]
      ]

-- ===== src/System/Growing.antt =====
-- A replica of src/replica.ts whose own proposals the authority of src/server.ts appends.
use sync_engine_v.Base.{
  ℕ, ◌+◌, ◌≤◌, ◌≡◌, refl, sym, ap, subst, ◌∙◌, ◌≢◌, inl, inr, ◌⊎◌, List, [], ◌∷◌, ◌++◌, some, arith,
  All, All-map, All-and, All-get_elem?, All-of-get_elem?, get_elem?, get_elem?-append_left,
  get_elem?-append_last, length, length-append, take-append_left,
}
use sync_engine_v.Protocol.{
  OperationSubmissionIdentity, ProposedOperation, CommittedOperation, ProposalDecision,
}
use sync_engine_v.Invariants.Identity.{submitted_as, entry_of}
use sync_engine_v.Replay.{replay}
use sync_engine_v.Server.{LogServer}
use sync_engine_v.Server.Direct.{Step}
use sync_engine_v.Server.Decides.{DecidesTo, again, refused, appended}
use sync_engine_v.Server.Growth.{DecidesTo-Extends}
use sync_engine_v.Server.Batch.{DecidesAll, done, next}
use sync_engine_v.Replica.{
  OutboxStatus, pending, accepted, OutboxEntry, ReplicaState, ReplicaInterpreter,
}
use sync_engine_v.Replica.Find.{id_of, IsDistinct}
use sync_engine_v.Replica.Canonical.{IsReceipt, IsOwn}
use sync_engine_v.Replica.Prepare.{pending_of, All-pending_of}
use sync_engine_v.Replica.Local.{All-proposals_of}
use sync_engine_v.Replica.Converge.{IsReplica}

module _ {Intent Operation : Type 0} where
  -- The entries of the outbox that are of this operation were submitted so.
  abbrev pub IsSubmittedIn :
      List (OutboxEntry Intent Operation) → OperationSubmissionIdentity → Type 0
  IsSubmittedIn es s = All (λ e. s.operation_id ≡ id_of e → s ≡ e.proposal.submission) es

  entries-IsSubmittedIn :
      (es : List (OutboxEntry Intent Operation))
      → IsDistinct es
      → All (λ e. IsSubmittedIn es e.proposal.submission) es
  entries-IsSubmittedIn [] d = tt
  entries-IsSubmittedIn (e ∷ es) d = (
    (λ same. refl, All-map (λ e'. id_of e ≢ id_of e') es (λ e' ne same. absurd (ne same)) d.0),
    All-map
        (λ (e' : OutboxEntry Intent Operation).
          (id_of e ≢ id_of e') × IsSubmittedIn es e'.proposal.submission)
        es (λ e' h. (λ same. absurd (h.0 (sym same)), h.1))
        (All-and (λ e'. id_of e ≢ id_of e') (λ e'. IsSubmittedIn es e'.proposal.submission) es d.0
          (entries-IsSubmittedIn es d.1)),
  )

  pub pending_of-IsSubmittedIn :
      (es : List (OutboxEntry Intent Operation))
      → IsDistinct es
      → All (λ p. IsSubmittedIn es p.submission) (pending_of es)
  pending_of-IsSubmittedIn es d =
      All-pending_of (λ p. IsSubmittedIn es p.submission) es
        (All-proposals_of (λ p. IsSubmittedIn es p.submission) es (entries-IsSubmittedIn es d))

module _ {Operation : Type 0} (P : OperationSubmissionIdentity → Type 0) where
  -- An entry of the log was there before, or is new and submitted so.
  abbrev pub IsOldOr :
      List (CommittedOperation Operation) → ℕ → CommittedOperation Operation → Type 0
  IsOldOr log i c = (get_elem? log i ≡ some c) ⊎ ((length log ≤ i) × P (submitted_as c))

module _ {State Intent Operation Rejection : Type 0}
    (P : OperationSubmissionIdentity → Type 0) where
  DecidesTo-log :
      (server : LogServer State Intent Operation Rejection) (p : ProposedOperation Intent)
      {r : Step State Intent Operation Rejection}
      → P p.submission
      → DecidesTo server p r
      → (i : ℕ) (c : CommittedOperation Operation) → get_elem? r.1.log i ≡ some c
      → IsOldOr P server.log i c
  DecidesTo-log server p h (again stored known d same) i c there = inl (rw same there)
  DecidesTo-log server p h (refused reason fresh d same) i c there = inl (
      subst (λ (s : Step State Intent Operation Rejection). get_elem? s.1.log i ≡ some c) (sym same)
        there)
  DecidesTo-log server p h (appended operation next_state fresh d applied same) i c there =
      let entry = entry_of p.submission (length server.log + 1) operation in
      let placed : get_elem? (server.log ++ entry ∷ []) i ≡ some c =
        subst (λ (s : Step State Intent Operation Rejection). get_elem? s.1.log i ≡ some c)
          (sym same) there in
      elim (get_elem?-append_last server.log entry i placed) [
        | inl old ↦ inl old
        | inr (at, new) ↦ inr (
          omega (arith, at),
          subst (λ (c : CommittedOperation Operation). P (submitted_as c)) new h,
        )
      ]

  pub DecidesAll-log :
      {server last : LogServer State Intent Operation Rejection}
      {ps : List (ProposedOperation Intent)} {ds : List (ProposalDecision Operation Rejection)}
      → All (λ p. P p.submission) ps
      → DecidesAll server ps ds last
      → (i : ℕ) (c : CommittedOperation Operation) → get_elem? last.log i ≡ some c
      → IsOldOr P server.log i c
  DecidesAll-log h done i c there = inl there
  DecidesAll-log {server} h (next {p = p} {middle = middle} step rest) i c there =
      elim (DecidesAll-log h.1 rest i c there) [
        | inl before ↦ DecidesTo-log server p h.0 step i c before
        | inr (behind, own) ↦
            let x = DecidesTo-Extends server p step in
            inr (omega (arith, behind, ap length x.log, length-append server.log x.added), own)
      ]

module _ {State Intent Operation : Type 0} (interpreter : ReplicaInterpreter State Intent Operation)
    (initial : State) (log added : List (CommittedOperation Operation)) where
  IsReceipt-append :
      (p : ProposedOperation Intent) (status : OutboxStatus Operation)
      → IsReceipt log p status
      → IsReceipt (log ++ added) p status
  IsReceipt-append p pending r = tt
  IsReceipt-append p (accepted n o) r = record {
    index = r.index;
    position = r.position;
    entry = get_elem?-append_left log added r.index r.entry;
  }

  -- A replica of a log is one of every longer log whose new entries were submitted as the outbox
  -- has them, if it has them.
  pub IsReplica-append :
      (state : ReplicaState State Intent Operation)
      → ((i : ℕ) (c : CommittedOperation Operation)
          → get_elem? (log ++ added) i ≡ some c
          → IsOldOr (IsSubmittedIn state.outbox) log i c)
      → IsReplica interpreter initial log state
      → IsReplica interpreter initial (log ++ added) state
  IsReplica-append state new r =
      let f = r.follows in
      record {
        base = r.base;
        follows = record {
          within = omega (arith, f.within, length-append log added);
          covers = f.covers;
          agrees = λ i c there. get_elem?-append_left log added _ (f.agrees i c there);
          replays =
              ap (replay interpreter.apply_committed initial)
                (take-append_left state.confirmed_sequence log added f.within)
              ∙ f.replays;
        };
        sound = record {
          own =
              All-of-get_elem? (IsOwn (log ++ added) state.confirmed_sequence) state.outbox
                λ j e at.
                  let own =
                    All-get_elem? (IsOwn log state.confirmed_sequence) state.outbox j r.sound.own
                      at in
                  record {
                    matches = λ i c there same. elim (new i c there) [
                      | inl old ↦ own.matches i c old same
                      | inr (behind, submitted) ↦ (
                        omega (arith, behind, f.within),
                        All-get_elem?
                            (λ (e : OutboxEntry Intent Operation).
                              c.operation_id ≡ id_of e → submitted_as c ≡ e.proposal.submission)
                            state.outbox j submitted at same,
                      )
                    ];
                    receipt = IsReceipt-append e.proposal e.status own.receipt;
                  };
          distinct = r.sound.distinct;
        };
      }

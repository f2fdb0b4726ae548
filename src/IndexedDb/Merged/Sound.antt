-- ===== src/IndexedDb/Merged/Sound.antt =====
-- A stored record of src/indexeddb whose replica has merged a response of the authority.
use sync_engine_v.Base.{
  ℕ, ◌+◌, ◌≤◌, ◌<◌, String, ◌≡◌, ◌≢◌, refl, subst, true, List, [], ◌∷◌, Option, none, some, arith,
  All, All-map, All-of-get_elem?, contains, contains-cons, contains-nil, str_eq_iff, length,
  get_elem?, get_elem?-lt,
}
use sync_engine_v.Base.Dict.{lookup}
use sync_engine_v.Limits.{max_safe_integer}
use sync_engine_v.Protocol.{
  ProposedOperation, CommittedOperation, ProposalOutcome, accepted as accepts, rejected,
  SyncResponse,
}
use sync_engine_v.Invariants.Batch.Valid.{IsBatch, MayFollow}
use sync_engine_v.Invariants.Response.Valid.{IsResponse}
use sync_engine_v.Invariants.Response.Entries.{Agrees}
use sync_engine_v.Replica.{OutboxEntry, OutboxStatus, pending, accepted}
use sync_engine_v.Replica.Prepare.{proposals_of}
use sync_engine_v.Replica.Local.{IsOfClient, IsLocal}
use sync_engine_v.Replica.Canonical.{IsOwn, IsReceipt}
use sync_engine_v.IndexedDb.{IndexedDbReplicaRecord, SeenOutbox}
use sync_engine_v.IndexedDb.Valid.{note_all, IsAhead, note_proposal, AllStored, IsOutcome, IsUsable}
use sync_engine_v.IndexedDb.Sound.{IsSound, unseen}
use sync_engine_v.IndexedDb.Merged.{IsApart, IsClear-note_all, Clear}

module _ {Intent Operation : Type 0} (client_id : String) (next confirmed : ℕ) where
  -- what the check takes behind a proposal may follow it
  AllStored-MayFollow :
      (p : ProposedOperation Intent) (s : SeenOutbox) (es : List (OutboxEntry Intent Operation))
      → contains p.operation_id s.seen.operation_ids ≡ true
      → p.client_sequence ≤ s.previous_client_sequence
      → AllStored client_id next confirmed s es
      → All (MayFollow p) (proposals_of es)
  AllStored-MayFollow p s [] seen behind h = tt
  AllStored-MayFollow p s (e ∷ es) seen behind h = (
    record {
      differs = λ same.
          let there : contains e.proposal.operation_id s.seen.operation_ids ≡ true =
            subst (λ id. contains id s.seen.operation_ids ≡ true) same seen in
          ground (arith, there, h.0.fresh);
      ordered = λ same. omega (arith, behind, h.0.after);
    },
    AllStored-MayFollow p (note_proposal s e) es
        (ground
          (arith, contains-cons p.operation_id e.proposal.operation_id s.seen.operation_ids, seen))
        (omega (arith, behind, h.0.after)) h.1,
  )

  AllStored-IsBatch :
      (s : SeenOutbox) (es : List (OutboxEntry Intent Operation))
      → AllStored client_id next confirmed s es
      → IsBatch (proposals_of es)
  AllStored-IsBatch s [] h = tt
  AllStored-IsBatch s (e ∷ es) h = (
    h.0.identity,
    AllStored-MayFollow e.proposal (note_proposal s e) es
        (ground (
          arith,
          contains-cons e.proposal.operation_id e.proposal.operation_id s.seen.operation_ids,
          str_eq_iff e.proposal.operation_id e.proposal.operation_id,
        ))
        (omega arith) h.1,
    AllStored-IsBatch (note_proposal s e) es h.1,
  )

  AllStored-own :
      (s : SeenOutbox) (es : List (OutboxEntry Intent Operation))
      → AllStored client_id next confirmed s es
      → All (IsOfClient client_id next) (proposals_of es)
  AllStored-own s [] h = tt
  AllStored-own s (e ∷ es) h = ((h.0.own, h.0.before), AllStored-own (note_proposal s e) es h.1)

module _ {State Intent Operation Rejection : Type 0} (stream_id : String)
    (stored : IndexedDbReplicaRecord State Intent Operation Rejection) where
  -- The outbox of a sound record is a valid batch of the client's own operations.
  pub IsSound-IsLocal : IsSound stream_id stored → IsLocal stored.replica
  IsSound-IsLocal sound =
      let r = stored.replica in
      let s : SeenOutbox = record {
        seen = note_all unseen r.confirmed_log;
        previous_client_sequence = 0;
      } in
      record {
        batch =
            AllStored-IsBatch r.client_id r.next_client_sequence r.confirmed_sequence s r.outbox
              sound.outbox;
        own =
            AllStored-own r.client_id r.next_client_sequence r.confirmed_sequence s r.outbox
              sound.outbox;
      }

module _ {Operation Rejection : Type 0} where
  Agrees-IsOutcome :
      (head : ℕ) (o : Option (CommittedOperation Operation))
      (outcome : ProposalOutcome Operation Rejection)
      → Agrees head o outcome
      → IsOutcome outcome
  Agrees-IsOutcome head none (accepts n op) a = a.0
  Agrees-IsOutcome head (some e) (accepts n op) a = a.0
  Agrees-IsOutcome head o (rejected reason) a = tt

  -- The decisions of a valid response are usable.
  pub IsResponse-IsUsable :
      (response : SyncResponse Operation Rejection)
      → IsResponse response none
      → All IsUsable response.decisions
  IsResponse-IsUsable response v =
      All-map _ response.decisions
        (λ d h. record {
          named = h.has_id;
          outcome = Agrees-IsOutcome response.head_sequence _ d.outcome h.agrees;
        })
        v.decisions

module _ {Intent Operation : Type 0} (log : List (CommittedOperation Operation)) where
  -- What the log has at the position of a proposal is its operation.
  abbrev pub Owned : ProposedOperation Intent → Type 0
  Owned p =
      (i : ℕ) (c : CommittedOperation Operation)
      → get_elem? log i ≡ some c
      → c.origin.client_id ≡ p.client_id
      → c.origin.client_sequence ≡ p.client_sequence
      → c.operation_id ≡ p.operation_id

  pub IsReceipt-IsAhead :
      (k : ℕ) (e : OutboxEntry Intent Operation) (status : OutboxStatus Operation)
      → length log ≤ max_safe_integer
      → IsOwn log k e
      → IsReceipt log e.proposal status
      → IsAhead k status
  IsReceipt-IsAhead k e pending safe own receipt = tt
  IsReceipt-IsAhead k e (accepted n op) safe own receipt =
      let ahead = own.matches receipt.index _ receipt.entry refl in
      let below = get_elem?-lt log receipt.index receipt.entry in
      (
        record {
          positive = omega (arith, receipt.position);
          safe = omega (arith, receipt.position, below, safe);
        },
        omega (arith, receipt.position, ahead.0),
      )

  module _ (base k : ℕ) (retained : List (CommittedOperation Operation))
      (covers : base + length retained ≡ k)
      (agrees : (i : ℕ) (c : CommittedOperation Operation)
        → get_elem? retained i ≡ some c
        → get_elem? log (base + i) ≡ some c) where
    -- an outbox that agrees with the log has nothing of what is retained
    pub outbox-Clear :
        (es : List (OutboxEntry Intent Operation))
        → All (IsOwn log k) es
        → All Owned (proposals_of es)
        → All (Clear (note_all unseen retained)) es
    outbox-Clear [] own owned = tt
    outbox-Clear (e ∷ es) own owned =
        let p = e.proposal in
        let apart : All (IsApart p.client_id p.client_sequence p.operation_id) retained =
          All-of-get_elem? _ retained λ i c there.
            let below = get_elem?-lt retained i there in
            let other : c.operation_id ≢ p.operation_id = λ same.
              omega
                (arith, (own.0.matches (base + i) c (agrees i c there) same).0, below, covers) in
            (
              other,
              λ client number. other (owned.0 (base + i) c (agrees i c there) client number),
            ) in
        (
          IsClear-note_all p.client_id p.client_sequence p.operation_id unseen retained apart
              (record { fresh = contains-nil p.operation_id; free = unfold lookup in refl }),
          outbox-Clear es own.1 owned.1,
        )

pub IsBatch-positive :
    {Intent : Type 0} (ps : List (ProposedOperation Intent))
    → IsBatch ps
    → All (λ p. 0 < p.client_sequence) ps
IsBatch-positive [] b = tt
IsBatch-positive (p ∷ ps) b = (omega (arith, b.0.sequence.positive), IsBatch-positive ps b.2)

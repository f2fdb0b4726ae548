-- ===== src/Replica/Canonical.antt =====
-- What the outbox of src/replica.ts and the decisions of a response have to do with the canonical
-- log of the authority.
use sync_engine_v.Base.{
  ℕ, ◌+◌, ◌≤◌, ◌≡◌, refl, sym, ap, subst, ◌∙◌, ◌≢◌, List, some, All, All-get_elem?, get_elem?,
}
use sync_engine_v.Protocol.{
  ProposedOperation, CommittedOperation, ProposalOutcome, accepted as accepts, rejected,
  ProposalDecision,
}
use sync_engine_v.Invariants.Identity.{submitted_as, entry_of}
use sync_engine_v.Replica.{OutboxStatus, pending, accepted, OutboxEntry, remove_at, replace_at}
use sync_engine_v.Replica.Find.{
  id_of, IsDistinct, remove_at-All, remove_at-IsDistinct, replace_at-All, replace_at-IsDistinct,
}

-- No operation stands twice in a log.
abbrev pub IsUnique : {Operation : Type 0} → List (CommittedOperation Operation) → Type 0
IsUnique {Operation} log =
    (i j : ℕ) (c c' : CommittedOperation Operation)
    → get_elem? log i ≡ some c
    → get_elem? log j ≡ some c'
    → c.operation_id ≡ c'.operation_id
    → i ≡ j

module _ {Intent Operation : Type 0} (log : List (CommittedOperation Operation)) where
  -- The log has the proposal at a sequence number, as that operation.
  pub record IsCommittedAt (p : ProposedOperation Intent) (sequence : ℕ) (operation : Operation)
      : Type 0 where
    pub index : ℕ
    pub position : sequence ≡ index + 1
    pub entry : get_elem? log index ≡ some (entry_of p.submission sequence operation)

  abbrev pub IsReceipt : ProposedOperation Intent → OutboxStatus Operation → Type 0
  IsReceipt p pending = Unit
  IsReceipt p (accepted sequence operation) = IsCommittedAt p sequence operation

  -- An outbox entry of a replica that has confirmed `k` entries: if the log has its operation, then
  -- behind those and under its identity, and a receipt is right.
  pub record IsOwn (k : ℕ) (e : OutboxEntry Intent Operation) : Type 0 where
    pub matches :
        (i : ℕ) (c : CommittedOperation Operation)
        → get_elem? log i ≡ some c
        → c.operation_id ≡ id_of e
        → (k ≤ i) × (submitted_as c ≡ e.proposal.submission)
    pub receipt : IsReceipt e.proposal e.status

  -- What an outcome says of a proposal is so.
  abbrev pub Holds :
      {Rejection : Type 0} → ProposedOperation Intent → ProposalOutcome Operation Rejection → Type 0
  Holds p (accepts sequence operation) = IsCommittedAt p sequence operation
  Holds p (rejected reason) =
      (i : ℕ) (c : CommittedOperation Operation)
      → get_elem? log i ≡ some c
      → c.operation_id ≢ p.operation_id

  abbrev pub IsTrue :
      {Rejection : Type 0}
      → ProposedOperation Intent
      → ProposalDecision Operation Rejection
      → Type 0
  IsTrue p d = d.operation_id ≡ p.operation_id → Holds p d.outcome

  -- An outbox that agrees with the log, after `k` confirmed entries.
  pub record IsSound (k : ℕ) (outbox : List (OutboxEntry Intent Operation)) : Type 0 where
    pub own : All (IsOwn k) outbox
    pub distinct : IsDistinct outbox

  pub remove_at-IsSound :
      (k i : ℕ) (outbox : List (OutboxEntry Intent Operation))
      → IsSound k outbox
      → IsSound k (remove_at i outbox)
  remove_at-IsSound k i outbox s = record {
    own = remove_at-All (IsOwn k) i outbox s.own;
    distinct = remove_at-IsDistinct i outbox s.distinct;
  }

  pub replace_at-IsSound :
      (k i : ℕ) (v : OutboxEntry Intent Operation) (outbox : List (OutboxEntry Intent Operation))
      {e : OutboxEntry Intent Operation}
      → get_elem? outbox i ≡ some e
      → id_of e ≡ id_of v
      → IsOwn k v
      → IsSound k outbox
      → IsSound k (replace_at i v outbox)
  replace_at-IsSound k i v outbox at same own s = record {
    own = replace_at-All (IsOwn k) i v outbox own s.own;
    distinct = replace_at-IsDistinct i v outbox at same s.distinct;
  }

  -- Two places of one proposal are the same.
  pub IsCommittedAt-unique :
      (p : ProposedOperation Intent) (n n' : ℕ) (o o' : Operation)
      → IsUnique log
      → IsCommittedAt p n o
      → IsCommittedAt p n' o'
      → (n ≡ n') × (o ≡ o')
  IsCommittedAt-unique p n n' o o' unique a b =
      let same = unique a.index b.index _ _ a.entry b.entry refl in
      let entries : some (entry_of p.submission n o) ≡ some (entry_of p.submission n' o') =
        sym a.entry ∙ ap (get_elem? log) same ∙ b.entry in
      (cc, cc entries)

-- How one decision may change an outbox.
pub data OutboxStep {Intent Operation : Type 0} (xs ys : List (OutboxEntry Intent Operation))
    : Type 0 where
  unchanged : xs ≡ ys → OutboxStep xs ys
  removed : (i : ℕ) → remove_at i xs ≡ ys → OutboxStep xs ys
  receipted :
      (i : ℕ) (e v : OutboxEntry Intent Operation)
      → get_elem? xs i ≡ some e
      → e.proposal ≡ v.proposal
      → replace_at i v xs ≡ ys
      → OutboxStep xs ys

module _ {Intent Operation : Type 0} (P : ProposedOperation Intent → Type 0) where
  -- A change keeps what holds of all proposals.
  pub OutboxStep-All :
      (xs ys : List (OutboxEntry Intent Operation))
      → OutboxStep xs ys
      → All (λ e. P e.proposal) xs
      → All (λ e. P e.proposal) ys
  OutboxStep-All xs ys (unchanged same) h = subst (All (λ e. P e.proposal)) same h
  OutboxStep-All xs ys (removed i same) h =
      subst (All (λ e. P e.proposal)) same (remove_at-All (λ e. P e.proposal) i xs h)
  OutboxStep-All xs ys (receipted i e v at p same) h = subst (All (λ e. P e.proposal)) same (
      replace_at-All (λ e. P e.proposal) i v xs
        (subst P p (All-get_elem? (λ e. P e.proposal) xs i h at)) h)

-- ===== src/IndexedDb/Merged.antt =====
-- What src/indexeddb stores of a replica of the authority's log: its log and its outbox pass the check.
pub mod Resolved
pub mod Reports
pub mod Numbered
pub mod Sound
pub mod Accepts
use sync_engine_v.Base.{
  ℕ, zero, suc, ◌+◌, ◌<◌, ◌≤◌, String, ◌≡◌, ◌≢◌, refl, sym, ap, subst, false, List, [], ◌∷◌, none,
  some, some-injective, arith, All, All-take, All-drop, All-map, contains, contains-cons,
  contains-nil, str_eq_iff, length, get_elem?, get_elem?-drop, take, drop,
}
use sync_engine_v.Base.Dict.{lookup, put, lookup-put}
use sync_engine_v.Protocol.{ProposedOperation, CommittedOperation}
use sync_engine_v.Invariants.Identity.{IsCommitted}
use sync_engine_v.Invariants.Batch.Valid.{IsBatch, MayFollow}
use sync_engine_v.Invariants.Position.{client_position_key, client_position_key-injective}
use sync_engine_v.Invariants.Log.{entry_position_key}
use sync_engine_v.Invariants.Log.Valid.{Differs, IsContiguous, IsDistinct, IsPage}
use sync_engine_v.Replica.{OutboxEntry, OutboxStatus}
use sync_engine_v.Replica.Prepare.{proposals_of}
use sync_engine_v.Replica.Local.{IsOfClient}
use sync_engine_v.IndexedDb.{Seen, SeenOutbox}
use sync_engine_v.IndexedDb.Valid.{
  note, note_all, IsStored, IsAhead, note_proposal, AllStored, outbox_position_key,
}

-- Nothing of a client's number and nothing of an operation's id is seen.
pub record IsClear (client_id : String) (n : ℕ) (id : String) (seen : Seen) : Type 0 where
  pub fresh : contains id seen.operation_ids ≡ false
  pub free : lookup (client_position_key client_id n) seen.client_positions ≡ none

pub IsClear-add :
    (client_id : String) (n : ℕ) (id : String) (seen : Seen) (other client : String) (m : ℕ)
    → other ≢ id
    → (client ≡ client_id → m ≢ n)
    → IsClear client_id n id seen
    → IsClear client_id n id (record {
      operation_ids = other ∷ seen.operation_ids;
      client_positions = put (client_position_key client m) other seen.client_positions;
    })
IsClear-add client_id n id seen other client m ne apart clear =
    let differs : client_position_key client m ≢ client_position_key client_id n =
      λ same. let parts = client_position_key-injective _ _ _ _ same in apart parts.0 parts.1 in
    record {
      fresh =
          ground
            (arith, contains-cons id other seen.operation_ids, str_eq_iff other id, clear.fresh);
      free = ground (
        arith,
        lookup-put (client_position_key client m) (client_position_key client_id n) other
            seen.client_positions,
        str_eq_iff (client_position_key client m) (client_position_key client_id n),
        clear.free,
      );
    }

module _ {Operation : Type 0} (client_id : String) (n : ℕ) (id : String) where
  -- An entry of another operation and of another number.
  abbrev pub IsApart : CommittedOperation Operation → Type 0
  IsApart c =
      (c.operation_id ≢ id) × (c.origin.client_id ≡ client_id → c.origin.client_sequence ≢ n)

  pub IsClear-note_all :
      (seen : Seen) (es : List (CommittedOperation Operation))
      → All IsApart es
      → IsClear client_id n id seen
      → IsClear client_id n id (note_all seen es)
  IsClear-note_all seen [] h clear = clear
  IsClear-note_all seen (e ∷ es) h clear = IsClear-note_all (note seen e) es h.1 (
      IsClear-add client_id n id seen e.operation_id e.origin.client_id e.origin.client_sequence
        h.0.0 h.0.1 clear)

module _ {Intent Operation : Type 0} where
  abbrev pub Clear : Seen → OutboxEntry Intent Operation → Type 0
  Clear seen e =
      IsClear e.proposal.client_id e.proposal.client_sequence e.proposal.operation_id seen

  -- what stands behind an entry is clear of it
  Clear-add :
      (seen : Seen) (e : OutboxEntry Intent Operation) (es : List (OutboxEntry Intent Operation))
      → All (MayFollow e.proposal) (proposals_of es)
      → All (Clear seen) es
      → All
          (Clear (record {
            operation_ids = e.proposal.operation_id ∷ seen.operation_ids;
            client_positions =
                put (outbox_position_key e) e.proposal.operation_id seen.client_positions;
          }))
          es
  Clear-add seen e [] follow clear = tt
  Clear-add seen e (x ∷ xs) follow clear = (
    IsClear-add x.proposal.client_id x.proposal.client_sequence x.proposal.operation_id seen
        e.proposal.operation_id e.proposal.client_id e.proposal.client_sequence follow.0.differs
        (λ same equal. omega (arith, follow.0.ordered same, equal)) clear.0,
    Clear-add seen e xs follow.1 clear.1,
  )

module _ {Intent Operation : Type 0} (client_id : String) (next confirmed : ℕ) where
  behind :
      (p : ProposedOperation Intent) (es : List (OutboxEntry Intent Operation))
      → p.client_id ≡ client_id
      → All (MayFollow p) (proposals_of es)
      → All (IsOfClient client_id next) (proposals_of es)
      → All (λ q. p.client_sequence < q.client_sequence) (proposals_of es)
  behind p [] same follow own = tt
  behind p (x ∷ xs) same follow own =
      (follow.0.ordered (cc (same, own.0.0)), behind p xs same follow.1 own.1)

  -- A valid batch of the client's own operations, clear of what is seen, with receipts for what is not
  -- confirmed, is taken as an outbox.
  pub IsBatch-AllStored :
      (seen : Seen) (previous : ℕ) (es : List (OutboxEntry Intent Operation))
      → IsBatch (proposals_of es)
      → All (IsOfClient client_id next) (proposals_of es)
      → All (λ p. previous < p.client_sequence) (proposals_of es)
      → All (Clear seen) es
      → All (λ e. IsAhead confirmed e.status) es
      → AllStored client_id next confirmed
          (record { seen = seen; previous_client_sequence = previous })
          es
  IsBatch-AllStored seen previous [] batch own after clear ahead = tt
  IsBatch-AllStored seen previous (e ∷ es) batch own after clear ahead = (
    record {
      identity = batch.0;
      own = own.0.0;
      before = own.0.1;
      after = after.0;
      fresh = clear.0.fresh;
      free = clear.0.free;
      ahead = ahead.0;
    },
    IsBatch-AllStored
        (record {
          operation_ids = e.proposal.operation_id ∷ seen.operation_ids;
          client_positions =
              put (outbox_position_key e) e.proposal.operation_id seen.client_positions;
        })
        e.proposal.client_sequence es batch.2 own.1 (behind e.proposal es own.0.0 batch.1 own.1)
        (Clear-add seen e es batch.1 clear.1) ahead.1,
  )

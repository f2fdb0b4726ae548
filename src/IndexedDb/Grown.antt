-- ===== src/IndexedDb/Grown.antt =====
-- A sound record of src/indexeddb to which a new operation is added.
use sync_engine_v.Base.{
  ℕ, ◌+◌, ◌<◌, String, ◌≡◌, ◌≢◌, refl, false, List, [], ◌∷◌, ◌++◌, none, arith, All, contains,
  contains-cons, str_eq_iff,
}
use sync_engine_v.Base.Dict.{lookup, put, lookup-put}
use sync_engine_v.Protocol.{CommittedOperation}
use sync_engine_v.Invariants.Identity.{IsIdentity}
use sync_engine_v.Invariants.Position.{client_position_key, client_position_key-injective}
use sync_engine_v.Replica.{OutboxEntry, pending, log_has, outbox_has}
use sync_engine_v.IndexedDb.{Seen, SeenOutbox}
use sync_engine_v.IndexedDb.Valid.{IsEarlier, note, note_all, IsStored, note_proposal, AllStored}

-- The client's next position, and a new operation id, are not among what is seen.
pub record IsNew (client_id : String) (next : ℕ) (id : String) (seen : Seen) : Type 0 where
  pub fresh : contains id seen.operation_ids ≡ false
  pub free : lookup (client_position_key client_id next) seen.client_positions ≡ none

module _ (client_id : String) (next : ℕ) (id : String) where
  pub IsNew-add :
      (seen : Seen) (other client : String) (n : ℕ)
      → other ≢ id
      → (client ≡ client_id → n < next)
      → IsNew client_id next id seen
      → IsNew client_id next id (record {
        operation_ids = other ∷ seen.operation_ids;
        client_positions = put (client_position_key client n) other seen.client_positions;
      })
  IsNew-add seen other client n ne before new =
      let differs : client_position_key client n ≢ client_position_key client_id next = λ same.
        let parts = client_position_key-injective _ _ _ _ same in
        omega (arith, before parts.0, parts.1) in
      record {
        fresh =
            ground
              (arith, contains-cons id other seen.operation_ids, str_eq_iff other id, new.fresh);
        free = ground (
          arith,
          lookup-put (client_position_key client n) (client_position_key client_id next) other
              seen.client_positions,
          str_eq_iff (client_position_key client n) (client_position_key client_id next),
          new.free,
        );
      }

  pub IsNew-note_all :
      {Operation : Type 0} (seen : Seen) (es : List (CommittedOperation Operation))
      → log_has id es ≡ false
      → All (IsEarlier client_id next) es
      → IsNew client_id next id seen
      → IsNew client_id next id (note_all seen es)
  unfolding log_has
  IsNew-note_all seen [] h earlier new = new
  IsNew-note_all seen (e ∷ es) h earlier new =
      IsNew-note_all (note seen e) es (ground arith) earlier.1 (
        IsNew-add seen e.operation_id e.origin.client_id e.origin.client_sequence
          (ground (arith, str_eq_iff e.operation_id id)) earlier.0.before new)

module _ {Intent Operation : Type 0} (client_id : String) (next confirmed : ℕ) (id hash : String)
    (intent : Intent) where
  abbrev pub added : OutboxEntry Intent Operation
  added = record {
    proposal = record {
      submission = record {
        identity = record { operation_id = id; client_id = client_id; client_sequence = next };
        intent_hash = hash;
      };
      intent = intent;
    };
    status = pending;
  }

  -- an entry is also numbered before the next number but one
  later :
      (s : SeenOutbox) (x : OutboxEntry Intent Operation)
      → IsStored client_id next confirmed s x
      → IsStored client_id (next + 1) confirmed s x
  later s x h = record {
    identity = h.identity;
    own = h.own;
    before = omega (arith, h.before);
    after = h.after;
    fresh = h.fresh;
    free = h.free;
    ahead = h.ahead;
  }

  pub AllStored-append :
      (s : SeenOutbox) (es : List (OutboxEntry Intent Operation))
      → outbox_has id es ≡ false
      → s.previous_client_sequence < next
      → IsIdentity added.proposal.submission
      → IsNew client_id next id s.seen
      → AllStored client_id next confirmed s es
      → AllStored client_id (next + 1) confirmed s (es ++ added ∷ [])
  unfolding outbox_has
  AllStored-append s [] h before valid new stored = (
    record {
      identity = valid;
      own = refl;
      before = omega arith;
      after = before;
      fresh = new.fresh;
      free = new.free;
      ahead = tt;
    },
    tt,
  )
  AllStored-append s (x ∷ xs) h before valid new stored = (
    later s x stored.0,
    AllStored-append (note_proposal s x) xs (ground arith) stored.0.before valid
        (IsNew-add client_id next id s.seen x.proposal.operation_id x.proposal.client_id
          x.proposal.client_sequence (ground (arith, str_eq_iff x.proposal.operation_id id))
          (λ same. stored.0.before) new)
        stored.1,
  )

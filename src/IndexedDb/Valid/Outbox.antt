-- ===== src/IndexedDb/Valid/Outbox.antt =====
-- What the loop over the outbox in `assertReplicaRecord` accepts.
use sync_engine_v.Base.{
  ℕ, ◌+◌, ◌<◌, String, ◌≡◌, refl, ◌↔◌, List, [], ◌∷◌, none, arith, str_eq_iff, contains, false,
  subst,
}
use sync_engine_v.Base.Dict.{lookup, put}
use sync_engine_v.Errors.{ok, >>=-eq-ok}
use sync_engine_v.Protocol.{ProposedOperation}
use sync_engine_v.Invariants.Position.{client_position_key}
use sync_engine_v.Invariants.Identity.{IsIdentity, IsSequence}
use sync_engine_v.Replica.{OutboxEntry, OutboxStatus, pending, accepted}
use sync_engine_v.Wire.{index_path}
use sync_engine_v.IndexedDb.{
  SeenOutbox, Payloads, outbox_entry_value, items_of, check_outbox_entry, check_outbox_entries,
}

-- The receipt of an accepted entry is for a number that is not confirmed yet.
abbrev pub IsAhead : {Operation : Type 0} → ℕ → OutboxStatus Operation → Type 0
IsAhead confirmed pending = Unit
IsAhead confirmed (accepted sequence operation) = IsSequence sequence × (confirmed < sequence)

module _ {Intent Operation : Type 0} where
  abbrev pub outbox_position_key : OutboxEntry Intent Operation → String
  outbox_position_key e = client_position_key e.proposal.client_id e.proposal.client_sequence

  -- An outbox entry that the loop takes, after what it has seen.
  pub record IsStored (client_id : String) (next confirmed : ℕ) (s : SeenOutbox)
      (e : OutboxEntry Intent Operation) : Type 0 where
    pub identity : IsIdentity e.proposal.submission
    pub own : e.proposal.client_id ≡ client_id
    pub before : e.proposal.client_sequence < next
    pub after : s.previous_client_sequence < e.proposal.client_sequence
    pub fresh : contains e.proposal.operation_id s.seen.operation_ids ≡ false
    pub free : lookup (outbox_position_key e) s.seen.client_positions ≡ none
    pub ahead : IsAhead confirmed e.status

  abbrev pub note_proposal : SeenOutbox → OutboxEntry Intent Operation → SeenOutbox
  note_proposal s e = record {
    seen = record {
      operation_ids = e.proposal.operation_id ∷ s.seen.operation_ids;
      client_positions =
          put (outbox_position_key e) e.proposal.operation_id s.seen.client_positions;
    };
    previous_client_sequence = e.proposal.client_sequence;
  }

  abbrev pub AllStored : String → ℕ → ℕ → SeenOutbox → List (OutboxEntry Intent Operation) → Type 0
  AllStored client_id next confirmed s [] = Unit
  AllStored client_id next confirmed s (e ∷ es) =
      IsStored client_id next confirmed s e
      × AllStored client_id next confirmed (note_proposal s e) es

module _ {State Intent Operation Rejection : Type 0}
    (payloads : Payloads State Intent Operation Rejection) (stream_id client_id : String)
    (next confirmed : ℕ) where
  check_outbox_entry-eq-ok :
      (path : String) (s : SeenOutbox) (p : ProposedOperation Intent)
      (status : OutboxStatus Operation) {out : SeenOutbox}
      → check_outbox_entry stream_id client_id next confirmed path s
          (outbox_entry_value payloads (record { proposal = p; status = status }))
        ≡ ok out
      → IsStored client_id next confirmed s (record { proposal = p; status = status })
        × (out ≡ note_proposal {Operation = Operation} s (record { proposal = p; status = status }))
  unfolding check_outbox_entry
  check_outbox_entry-eq-ok path s p pending h = ground (
    arith,
    str_eq_iff p.operation_id "",
    str_eq_iff p.client_id "",
    str_eq_iff p.intent_hash "",
    str_eq_iff p.client_id client_id,
  )
  check_outbox_entry-eq-ok path s p (accepted sequence operation) h = ground (
    arith,
    str_eq_iff p.operation_id "",
    str_eq_iff p.client_id "",
    str_eq_iff p.intent_hash "",
    str_eq_iff p.client_id client_id,
  )

  check_outbox_entry-passes :
      (path : String) (s : SeenOutbox) (p : ProposedOperation Intent)
      (status : OutboxStatus Operation)
      → IsStored client_id next confirmed s (record { proposal = p; status = status })
      → check_outbox_entry stream_id client_id next confirmed path s
          (outbox_entry_value payloads (record { proposal = p; status = status }))
        ≡ ok (note_proposal {Operation = Operation} s (record { proposal = p; status = status }))
  unfolding check_outbox_entry
  check_outbox_entry-passes path s p pending h = ground (
    arith,
    str_eq_iff p.operation_id "",
    str_eq_iff p.client_id "",
    str_eq_iff p.intent_hash "",
    str_eq_iff p.client_id client_id,
  )
  check_outbox_entry-passes path s p (accepted sequence operation) h = ground (
    arith,
    str_eq_iff p.operation_id "",
    str_eq_iff p.client_id "",
    str_eq_iff p.intent_hash "",
    str_eq_iff p.client_id client_id,
  )

  pub check_outbox_entries-eq-ok :
      (index : ℕ) (s : SeenOutbox) (es : List (OutboxEntry Intent Operation))
      → (check_outbox_entries stream_id client_id next confirmed index s
            (items_of (outbox_entry_value payloads) es)
          ≡ ok tt)
        ↔ AllStored client_id next confirmed s es
  unfolding check_outbox_entries items_of
  check_outbox_entries-eq-ok index s [] = (λ h. tt, λ h. refl)
  check_outbox_entries-eq-ok index s (e ∷ es) =
      let rest = check_outbox_entries-eq-ok (index + 1) (note_proposal s e) es in
      (
        λ h.
            let (s', round, h₁) =
              >>=-eq-ok
                (check_outbox_entry stream_id client_id next confirmed
                  (index_path "replica.outbox" index) s (outbox_entry_value payloads e))
                _ h in
            let (fits, out) = check_outbox_entry-eq-ok _ s e.proposal e.status round in
            (
              fits,
              rest.0 (
                  subst
                    (λ s'.
                      check_outbox_entries stream_id client_id next confirmed (index + 1) s'
                        (items_of (outbox_entry_value payloads) es)
                      ≡ ok tt)
                    out h₁),
            ),
        λ h.
            rw
              (check_outbox_entry-passes (index_path "replica.outbox" index) s e.proposal e.status
                h.0)
              (rest.1 h.1),
      )

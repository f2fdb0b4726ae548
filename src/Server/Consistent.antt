-- ===== src/Server/Consistent.antt =====
-- The invariant of the authority: its log, its state, its decisions and its client positions agree.
use sync_engine_v.Base.{
  ℕ, ◌+◌, String, ◌≡◌, refl, sym, subst, ◌∙◌, inl, inr, List, some, arith, str_eq, str_eq_iff,
  str_eq→eq, some-injective, Bool-cases, All, get_elem?,
}
use sync_engine_v.Base.Dict.{lookup, lookup-put, lookup-put_self}
use sync_engine_v.Errors.{ok}
use sync_engine_v.Protocol.{
  OperationSubmissionIdentity, ProposedOperation, CommittedOperation, ProposalOutcome, accepted,
  rejected, ProposalDecision,
}
use sync_engine_v.Invariants.Identity.{IsIdentity, submitted_as, entry_of}
use sync_engine_v.Invariants.Log.Valid.{IsContiguous}
use sync_engine_v.Replay.{replay}
use sync_engine_v.Server.{LogServer, StoredProposalDecision, client_position_key}
use sync_engine_v.Server.Direct.{with_decision, reject_now}
use sync_engine_v.Server.Decides.{IsIndexed, IsNew, IsNew-free, IsIndexed-with_decision}

module _ {Operation Rejection : Type 0} where
  -- An accepted outcome stands in the log, under its sequence number and identity.
  abbrev pub IsLogged :
      List (CommittedOperation Operation)
      → OperationSubmissionIdentity
      → ProposalOutcome Operation Rejection
      → Type 0
  IsLogged log identity (accepted sequence operation) =
      (i : ℕ) × (sequence ≡ i + 1) × (get_elem? log i ≡ some (entry_of identity sequence operation))
  IsLogged log identity (rejected reason) = Unit

  -- the record that an entry of the log has
  abbrev pub stored_for : CommittedOperation Operation → StoredProposalDecision Operation Rejection
  stored_for entry = record {
    identity = submitted_as entry;
    decision = record {
      operation_id = entry.operation_id;
      outcome = accepted entry.sequence entry.operation;
    };
  }

  IsLogged-mono :
      (log log' : List (CommittedOperation Operation)) (identity : OperationSubmissionIdentity)
      (outcome : ProposalOutcome Operation Rejection)
      → ((i : ℕ) (e : CommittedOperation Operation)
          → get_elem? log i ≡ some e
          → get_elem? log' i ≡ some e)
      → IsLogged log identity outcome
      → IsLogged log' identity outcome
  IsLogged-mono log log' identity (accepted sequence operation) kept (i, e, at) =
      (i, e, kept i _ at)
  IsLogged-mono log log' identity (rejected reason) kept h = tt

module _ {State Intent Operation Rejection : Type 0} where
  -- A stored decision is filed under its own operation id, its client position is bound to it, and
  -- its entry, if it is accepted, is in the log.
  pub record IsFiled (server : LogServer State Intent Operation Rejection) (id : String)
      (stored : StoredProposalDecision Operation Rejection) : Type 0 where
    pub identity : stored.identity.operation_id ≡ id
    pub decision : stored.decision.operation_id ≡ id
    pub position :
        lookup (client_position_key stored.identity.identity) server.operation_id_by_client_position
        ≡ some id
    pub logged : IsLogged server.log stored.identity stored.decision.outcome

  pub record IsConsistent (initial : State) (server : LogServer State Intent Operation Rejection)
      : Type 0 where
    pub contiguous : IsContiguous 0 server.log
    pub identities : All (λ e. IsIdentity (submitted_as e)) server.log
    pub replays : replay server.interpreter.apply initial server.log ≡ ok server.state
    pub filed :
        (id : String) (stored : StoredProposalDecision Operation Rejection)
        → lookup id server.decisions_by_operation_id ≡ some stored
        → IsFiled server id stored
    pub recorded :
        (i : ℕ) (e : CommittedOperation Operation)
        → get_elem? server.log i ≡ some e
        → lookup e.operation_id server.decisions_by_operation_id ≡ some (stored_for e)
    pub indexed : IsIndexed server

  -- A new decision, with what it appends to the log and the state after that.
  module _ (initial : State) (server : LogServer State Intent Operation Rejection)
      (p : ProposedOperation Intent) (c : IsConsistent initial server) (fresh : IsNew server p)
      (state : State) (log : List (CommittedOperation Operation))
      (kept : (i : ℕ) (e : CommittedOperation Operation)
        → get_elem? server.log i ≡ some e
        → get_elem? log i ≡ some e)
      (outcome : ProposalOutcome Operation Rejection) where
    abbrev pub decision : ProposalDecision Operation Rejection
    decision = record { operation_id = p.operation_id; outcome = outcome }

    abbrev pub grown : LogServer State Intent Operation Rejection
    grown = record server { state = state; log = log }

    abbrev pub next_server : LogServer State Intent Operation Rejection
    next_server = with_decision grown p.submission decision

    -- a decision that was filed stays so beside the new one
    IsFiled-before :
        (id : String) (stored : StoredProposalDecision Operation Rejection)
        → lookup id server.decisions_by_operation_id ≡ some stored
        → IsFiled next_server id stored
    IsFiled-before id stored known =
        let f = c.filed id stored known in
        record {
          identity = f.identity;
          decision = f.decision;
          position = ground (
            arith,
            f.position,
            IsNew-free server p c.indexed fresh,
            lookup-put (client_position_key p.identity)
                (client_position_key stored.identity.identity) p.operation_id
                server.operation_id_by_client_position,
            str_eq_iff (client_position_key p.identity)
                (client_position_key stored.identity.identity),
          );
          logged = IsLogged-mono server.log log _ _ kept f.logged;
        }

    IsFiled-self :
        IsLogged log p.submission outcome
        → IsFiled next_server p.operation_id
            (record { identity = p.submission; decision = decision })
    IsFiled-self logged = record {
      identity = refl;
      decision = refl;
      position = lookup-put_self _ p.operation_id _;
      logged = logged;
    }

    pub IsFiled-now :
        IsLogged log p.submission outcome
        → (id : String) (stored : StoredProposalDecision Operation Rejection)
        → lookup id next_server.decisions_by_operation_id ≡ some stored
        → IsFiled next_server id stored
    IsFiled-now logged id stored h =
        let found =
          sym (
            lookup-put p.operation_id id (record { identity = p.submission; decision = decision })
              server.decisions_by_operation_id)
          ∙ h in
        elim (Bool-cases (str_eq p.operation_id id)) [
          | inl same ↦
              subst (λ k. IsFiled next_server k stored) (str_eq→eq same)
                (subst (IsFiled next_server p.operation_id) (some-injective (rw same at found))
                  (IsFiled-self logged))
          | inr other ↦ IsFiled-before id stored (rw other at found)
        ]

    -- what the log held is still on record
    pub recorded_before :
        (i : ℕ) (e : CommittedOperation Operation)
        → get_elem? server.log i ≡ some e
        → lookup e.operation_id next_server.decisions_by_operation_id ≡ some (stored_for e)
    recorded_before i e h = ground (
      arith,
      c.recorded i e h,
      fresh.unknown,
      lookup-put p.operation_id e.operation_id
          (record { identity = p.submission; decision = decision })
          server.decisions_by_operation_id,
      str_eq_iff p.operation_id e.operation_id,
    )

  -- A decision keeps the server consistent.
  pub reject_now-IsConsistent :
      (initial : State) (server : LogServer State Intent Operation Rejection)
      (p : ProposedOperation Intent) (reason : Rejection)
      → IsConsistent initial server
      → IsNew server p
      → IsConsistent initial (reject_now server p reason).1
  reject_now-IsConsistent initial server p reason c fresh = record {
    contiguous = c.contiguous;
    identities = c.identities;
    replays = c.replays;
    filed =
        IsFiled-now initial server p c fresh server.state server.log (λ i e h. h) (rejected reason)
          tt;
    recorded =
        recorded_before initial server p c fresh server.state server.log (λ i e h. h)
          (rejected reason);
    indexed = IsIndexed-with_decision server p.submission _ c.indexed;
  }

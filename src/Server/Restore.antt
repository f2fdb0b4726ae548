-- ===== src/Server/Restore.antt =====
-- What the constructor of `InMemoryLogServer` in src/server.ts starts from.
use sync_engine_v.Base.{◌≡◌, refl, subst, inl, inr, none, List, [], ◌∷◌, arith, Option-cases}
use sync_engine_v.Base.Dict.{lookup}
use sync_engine_v.Errors.{ok, ok-injective, >>=-eq-ok, >>-eq-ok}
use sync_engine_v.Limits.{
  ProtocolLimits, IsPositive, resolve_protocol_limits, resolve_protocol_limits-IsPositive,
}
use sync_engine_v.Invariants.Log.Valid.{IsPage, assert_contiguous_log-eq-ok}
use sync_engine_v.Replay.{replay}
use sync_engine_v.Server.{
  LogInterpreter, LogServer, LogServerSnapshot, StoredProposalDecision, InMemoryLogServerOptions,
  restore_decision, restore_decisions, server_with, restore_snapshot, create_log_server,
}
use sync_engine_v.Server.Direct.{with_decision}
use sync_engine_v.Server.Decides.{IsIndexed, IsIndexed-with_decision}
use sync_engine_v.Server.Consistent.{IsConsistent}

module _ {State Intent Operation Rejection : Type 0} where
  IsIndexed-server_with :
      (interpreter : LogInterpreter State Intent Operation Rejection) (limits : ProtocolLimits)
      (state : State) (log : _)
      → IsIndexed (server_with interpreter limits state log)
  unfolding lookup
  IsIndexed-server_with interpreter limits state log = record {
    decided = λ key id h. absurd (ground arith);
  }

  -- a decision that is restored is noted as a new one is
  restore_decision-eq-ok :
      (server : LogServer State Intent Operation Rejection)
      (stored : StoredProposalDecision Operation Rejection)
      {last : LogServer State Intent Operation Rejection}
      → restore_decision server stored ≡ ok last
      → with_decision server stored.identity stored.decision ≡ last
  unfolding restore_decision
  restore_decision-eq-ok server stored h = ground arith

  -- What every restored server has.
  pub record IsRestored (start last : LogServer State Intent Operation Rejection) : Type 0 where
    pub log : start.log ≡ last.log
    pub state : start.state ≡ last.state
    pub limits : start.limits ≡ last.limits
    pub interpreter : start.interpreter ≡ last.interpreter
    pub indexed : IsIndexed last

  restore_decisions-IsRestored :
      (server : LogServer State Intent Operation Rejection)
      (decisions : List (StoredProposalDecision Operation Rejection))
      {last : LogServer State Intent Operation Rejection}
      → IsIndexed server
      → restore_decisions server decisions ≡ ok last
      → IsRestored server last
  unfolding restore_decisions
  restore_decisions-IsRestored server [] i h =
      subst (IsRestored server) (ok-injective h)
        (record { log = refl; state = refl; limits = refl; interpreter = refl; indexed = i })
  restore_decisions-IsRestored server (stored ∷ rest) i h =
      let (next, restored, h₁) = >>=-eq-ok (restore_decision server stored) _ h in
      let same = restore_decision-eq-ok server stored restored in
      let r =
        restore_decisions-IsRestored next rest
          (subst IsIndexed same (IsIndexed-with_decision server stored.identity stored.decision i))
          h₁ in
      record {
        log = cc (same, r.log);
        state = cc (same, r.state);
        limits = cc (same, r.limits);
        interpreter = cc (same, r.interpreter);
        indexed = r.indexed;
      }

  -- The fields of a server that the constructor returns.
  pub record IsCreated (options : InMemoryLogServerOptions State Intent Operation Rejection)
      (server : LogServer State Intent Operation Rejection) : Type 0 where
    pub interpreter : options.interpreter ≡ server.interpreter
    pub limits : IsPositive server.limits
    pub indexed : IsIndexed server
    pub page : IsPage 0 server.log

  restore_snapshot-IsCreated :
      (options : InMemoryLogServerOptions State Intent Operation Rejection)
      (limits : ProtocolLimits) (snapshot : LogServerSnapshot State Operation Rejection)
      {server : LogServer State Intent Operation Rejection}
      → IsPositive limits
      → restore_snapshot options.interpreter limits snapshot ≡ ok server
      → IsCreated options server
  restore_snapshot-IsCreated options limits snapshot positive h =
      let start = server_with options.interpreter limits snapshot.materialized_state snapshot.log in
      let (page, h₁) = (>>-eq-ok _ _).0 h in
      let (restored, decided, h₂) = >>=-eq-ok (restore_decisions start snapshot.decisions) _ h₁ in
      let (_, h₃) = (>>-eq-ok _ _).0 h₂ in
      let r =
        restore_decisions-IsRestored start snapshot.decisions
          (IsIndexed-server_with options.interpreter limits snapshot.materialized_state
            snapshot.log)
          decided in
      subst (IsCreated options) (ok-injective h₃) (record {
        interpreter = r.interpreter;
        limits = subst IsPositive r.limits positive;
        indexed = r.indexed;
        page = subst (IsPage 0) r.log ((assert_contiguous_log-eq-ok snapshot.log).0 page);
      })

  -- A server that the constructor returns, fresh or from a snapshot, has the interpreter it was given, positive limits, client
  -- positions that are bound to decided operations, and a log that counts from one, of usable
  -- entries that share neither an operation id nor a client position.
  pub create_log_server-IsCreated :
      (options : InMemoryLogServerOptions State Intent Operation Rejection)
      {server : LogServer State Intent Operation Rejection}
      → create_log_server options ≡ ok server
      → IsCreated options server
  unfolding create_log_server
  create_log_server-IsCreated options h =
      let (limits, resolved, h₁) = >>=-eq-ok (resolve_protocol_limits options.limits) _ h in
      let positive = resolve_protocol_limits-IsPositive options.limits resolved in
      elim (Option-cases options.snapshot) [
        | inl absent ↦ subst (IsCreated options) (ok-injective (rw absent at h₁)) (record {
          interpreter = refl;
          limits = positive;
          indexed = IsIndexed-server_with options.interpreter limits options.initial_state [];
          page = record { contiguous = tt; committed = tt; distinct = tt };
        })
        | inr (snapshot, given) ↦
            restore_snapshot-IsCreated options limits snapshot positive (rw given at h₁)
      ]

  -- A server that the constructor returns without a snapshot is consistent with the initial state.
  pub create_log_server-IsConsistent :
      (options : InMemoryLogServerOptions State Intent Operation Rejection)
      {server : LogServer State Intent Operation Rejection}
      → options.snapshot ≡ none
      → create_log_server options ≡ ok server
      → IsConsistent options.initial_state server
  unfolding create_log_server
  create_log_server-IsConsistent options fresh h =
      let (limits, resolved, h₁) = >>=-eq-ok (resolve_protocol_limits options.limits) _ h in
      subst (IsConsistent options.initial_state) (ok-injective (rw fresh at h₁)) (record {
        contiguous = tt;
        identities = tt;
        replays = unfold replay in refl;
        filed = λ id stored known. unfold lookup in absurd (ground arith);
        recorded = λ i e at. absurd (ground arith);
        indexed = IsIndexed-server_with options.interpreter limits options.initial_state [];
      })

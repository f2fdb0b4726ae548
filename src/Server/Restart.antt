-- ===== src/Server/Restart.antt =====
-- A snapshot of src/server.ts, taken at any time, from which the constructor starts again.
use sync_engine_v.Base.{
  ◌-◌, ◌≤◌, ◌≡◌, refl, sym, ap, subst, ◌∙◌, List, [], none, some, arith, All-map, All-of-get_elem?,
  length, take, take-length,
}
use sync_engine_v.Base.Dict.{lookup, values}
use sync_engine_v.Errors.{ok, ok-injective, >>=-eq-ok}
use sync_engine_v.Limits.{max_safe_integer, resolve_protocol_limits}
use sync_engine_v.Protocol.{SyncRequest}
use sync_engine_v.Invariants.Identity.{IsIdentity}
use sync_engine_v.Invariants.Log.Valid.{IsPage, assert_contiguous_log-eq-ok}
use sync_engine_v.Server.{
  LogServer, StoredProposalDecision, InMemoryLogServerOptions, validate_restored_snapshot,
  server_with, restore_snapshot, create_log_server, snapshot,
}
use sync_engine_v.Server.Sync.{serve, serve-Extends}
use sync_engine_v.Server.Consistent.{IsConsistent, stored_for}
use sync_engine_v.Server.Preserve.{serve-IsConsistent}
use sync_engine_v.Server.Restore.{create_log_server-IsConsistent}
use sync_engine_v.Server.Page.{slice-IsPage}
use sync_engine_v.Server.Register.{id_of, empty, Registers-lookup, IsRegistered, serve-IsRegistered}
use sync_engine_v.Server.Snapshot.{
  restore_decisions-Registers, check_log_entries-eq-ok, check_stored_decisions-eq-ok,
  assert_outcome_sequence-IsLogged,
}

module _ {State Intent Operation Rejection : Type 0} (initial : State)
    (server : LogServer State Intent Operation Rejection) (c : IsConsistent initial server)
    (r : IsRegistered server) (safe : length server.log ≤ max_safe_integer) where
  log-IsPage : IsPage 0 server.log
  log-IsPage =
      let whole : length server.log - 0 ≡ length server.log = omega arith in
      subst (IsPage 0) (ap (λ n. take n server.log) whole ∙ take-length server.log)
        (slice-IsPage initial server c 0 (length server.log) (omega arith) safe)

  validate-registered : validate_restored_snapshot server ≡ ok tt
  unfolding validate_restored_snapshot
  validate-registered =
      rw
        (check_log_entries-eq-ok server.decisions_by_operation_id server.log (
          All-of-get_elem?
            (λ e. lookup e.operation_id server.decisions_by_operation_id ≡ some (stored_for e))
            server.log c.recorded))
        (check_stored_decisions-eq-ok server.log (values server.decisions_by_operation_id) (
          All-map
            (λ (stored : StoredProposalDecision Operation Rejection).
              (lookup (id_of stored) server.decisions_by_operation_id ≡ some stored)
              × IsIdentity stored.identity)
            (values server.decisions_by_operation_id)
            (λ stored h. (c.filed (id_of stored) stored h.0).logged) (Registers-lookup r)))

  -- what a registered server gives as its snapshot is restored as it was
  restore_snapshot-registered :
      restore_snapshot server.interpreter server.limits (snapshot server) ≡ ok server
  unfolding snapshot
  restore_snapshot-registered =
      let start = server_with server.interpreter server.limits server.state server.log in
      rw
        (
          (assert_contiguous_log-eq-ok server.log).1 log-IsPage,
          restore_decisions-Registers start refl refl r λ stored h.
              let f = c.filed (id_of stored) stored h in
              record {
                own = f.decision;
                sequence =
                    assert_outcome_sequence-IsLogged server.log stored.identity
                      stored.decision.outcome safe f.logged;
              },
          validate-registered,
        )
        refl

module _ {State Intent Operation Rejection : Type 0} where
  -- Start an authority from an initial state and serve any requests. The snapshot that it then gives
  -- starts, under the same interpreter and limits, an authority with the same state, log, decisions and
  -- client positions, in the same order, as long as the log's length is a safe integer.
  pub create_log_server-snapshot :
      (options : InMemoryLogServerOptions State Intent Operation Rejection)
      (server : LogServer State Intent Operation Rejection) (requests : List (SyncRequest Intent))
      → options.snapshot ≡ none
      → create_log_server options ≡ ok server
      → length (serve server requests).log ≤ max_safe_integer
      → create_log_server (record options { snapshot = some (snapshot (serve server requests)) })
        ≡ ok (serve server requests)
  unfolding create_log_server
  create_log_server-snapshot options server requests fresh h safe =
      let (limits, resolved, h₁) = >>=-eq-ok (resolve_protocol_limits options.limits) _ h in
      let start = server_with options.interpreter limits options.initial_state [] in
      let same : start ≡ server = ok-injective (rw fresh at h₁) in
      let c = create_log_server-IsConsistent options fresh h in
      let registered : IsRegistered server = subst IsRegistered same empty in
      let last = serve server requests in
      let x = serve-Extends server requests c.indexed in
      let interpreter : last.interpreter ≡ options.interpreter =
        x.interpreter
        ∙ ap (λ (s : LogServer State Intent Operation Rejection). s.interpreter) (sym same) in
      let kept : last.limits ≡ limits =
        x.limits ∙ ap (λ (s : LogServer State Intent Operation Rejection). s.limits) (sym same) in
      rw (resolved, ← interpreter, ← kept)
        (restore_snapshot-registered options.initial_state last
          (serve-IsConsistent options.initial_state server requests c)
          (serve-IsRegistered server requests c.indexed registered) safe)

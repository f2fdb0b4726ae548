-- ===== src/Server/Preserve.antt =====
-- Every decision and every request of src/server.ts keeps the authority consistent.
use sync_engine_v.Base.{
  ℕ, ◌+◌, ◌≡◌, refl, subst, ◌∙◌, inl, inr, List, [], ◌∷◌, ◌++◌, some, arith, All-append, length,
  get_elem?, get_elem?-append_left, get_elem?-append_end, get_elem?-append_last,
}
use sync_engine_v.Base.Dict.{lookup, lookup-put_self}
use sync_engine_v.Errors.{ok, Result-cases}
use sync_engine_v.Protocol.{
  ProposedOperation, CommittedOperation, accepted, ProposalDecision, SyncRequest,
}
use sync_engine_v.Invariants.Identity.{IsIdentity, submitted_as}
use sync_engine_v.Invariants.Batch.Valid.{IsBatch}
use sync_engine_v.Invariants.Log.Valid.{IsContiguous-append}
use sync_engine_v.Replay.{replay, replay-append}
use sync_engine_v.Server.{LogServer, committed_as, synchronize}
use sync_engine_v.Server.Direct.{Step, append_now}
use sync_engine_v.Server.Decides.{
  IsNew, DecidesTo, again, refused, appended, IsIndexed-with_decision,
}
use sync_engine_v.Server.Batch.{DecidesAll, done, next}
use sync_engine_v.Server.Sync.{synchronize-eq-err, synchronize-Synchronizes, serve}
use sync_engine_v.Server.Consistent.{
  stored_for, IsConsistent, IsFiled-now, recorded_before, reject_now-IsConsistent,
}

module _ {State Intent Operation Rejection : Type 0} where
  module _ (initial : State) (server : LogServer State Intent Operation Rejection)
      (p : ProposedOperation Intent) (operation : Operation) (next_state : State)
      (c : IsConsistent initial server) (fresh : IsNew server p) (valid : IsIdentity p.submission)
      (applied : server.interpreter.apply server.state operation ≡ ok next_state) where
    abbrev entry : CommittedOperation Operation
    entry = committed_as (length server.log + 1) p operation

    abbrev log : List (CommittedOperation Operation)
    log = server.log ++ entry ∷ []

    kept :
        (i : ℕ) (e : CommittedOperation Operation)
        → get_elem? server.log i ≡ some e
        → get_elem? log i ≡ some e
    kept i e h = get_elem?-append_left server.log (entry ∷ []) i h

    append_now-recorded :
        (i : ℕ) (e : CommittedOperation Operation)
        → get_elem? log i ≡ some e
        → lookup e.operation_id
            (append_now server p operation next_state).1.decisions_by_operation_id
          ≡ some (stored_for e)
    append_now-recorded i e h = elim (get_elem?-append_last server.log entry i h) [
      | inl old ↦
          recorded_before initial server p c fresh next_state log kept
            (accepted (length server.log + 1) operation) i e old
      | inr (at, same) ↦
          subst
            (λ (e : CommittedOperation Operation).
              lookup e.operation_id
                (append_now server p operation next_state).1.decisions_by_operation_id
              ≡ some (stored_for e))
            same (lookup-put_self p.operation_id _ server.decisions_by_operation_id)
    ]

    append_now-IsConsistent : IsConsistent initial (append_now server p operation next_state).1
    append_now-IsConsistent = record {
      contiguous = IsContiguous-append 0 server.log (entry ∷ []) c.contiguous (omega arith, tt);
      identities =
          All-append (λ e. IsIdentity (submitted_as e)) server.log (entry ∷ []) c.identities
            (valid, tt);
      replays =
          replay-append server.interpreter.apply initial server.log (entry ∷ []) c.replays
          ∙ (unfold replay in rw applied);
      filed =
          IsFiled-now initial server p c fresh next_state log kept
            (accepted (length server.log + 1) operation)
            (length server.log, refl, get_elem?-append_end server.log entry);
      recorded = append_now-recorded;
      indexed = IsIndexed-with_decision _ p.submission _ (record { decided = c.indexed.decided });
    }

  DecidesTo-IsConsistent :
      (initial : State) (server : LogServer State Intent Operation Rejection)
      (p : ProposedOperation Intent) {r : Step State Intent Operation Rejection}
      → IsIdentity p.submission
      → DecidesTo server p r
      → IsConsistent initial server
      → IsConsistent initial r.1
  DecidesTo-IsConsistent initial server p valid (again stored e d same) c =
      subst (IsConsistent initial) same c
  DecidesTo-IsConsistent initial server p valid (refused reason fresh d same) c =
      subst (λ (r : Step State Intent Operation Rejection). IsConsistent initial r.1) same
        (reject_now-IsConsistent initial server p reason c fresh)
  DecidesTo-IsConsistent initial server p valid (appended operation next_state fresh d applied same)
        c =
      subst (λ (r : Step State Intent Operation Rejection). IsConsistent initial r.1) same
        (append_now-IsConsistent initial server p operation next_state c fresh valid applied)

  pub DecidesAll-IsConsistent :
      (initial : State) {server last : LogServer State Intent Operation Rejection}
      {ps : List (ProposedOperation Intent)} {ds : List (ProposalDecision Operation Rejection)}
      → IsBatch ps
      → DecidesAll server ps ds last
      → IsConsistent initial server
      → IsConsistent initial last
  DecidesAll-IsConsistent initial b done c = c
  DecidesAll-IsConsistent initial b (next {p = p} step rest) c =
      DecidesAll-IsConsistent initial b.2 rest (DecidesTo-IsConsistent initial _ p b.0 step c)

  -- A request keeps a consistent server consistent, whatever its answer: the log counts from one and
  -- replays to the state, every decision on record is filed under its id and position and, if
  -- accepted, stands in the log, and every entry of the log has its decision on record.
  pub synchronize-IsConsistent :
      (initial : State) (server : LogServer State Intent Operation Rejection)
      (request : SyncRequest Intent)
      → IsConsistent initial server
      → IsConsistent initial (synchronize server request).1
  synchronize-IsConsistent initial server request c =
      elim (Result-cases (synchronize server request).0) [
        | inl (e, failed) ↦ rw (synchronize-eq-err server request failed) c
        | inr (response, finished) ↦
            let s = synchronize-Synchronizes server request c.indexed finished in
            DecidesAll-IsConsistent initial s.valid.batch s.steps c
      ]

  pub serve-IsConsistent :
      (initial : State) (server : LogServer State Intent Operation Rejection)
      (requests : List (SyncRequest Intent))
      → IsConsistent initial server
      → IsConsistent initial (serve server requests)
  unfolding serve
  serve-IsConsistent initial server [] c = c
  serve-IsConsistent initial server (request ∷ rest) c =
      serve-IsConsistent initial (synchronize server request).1 rest
        (synchronize-IsConsistent initial server request c)

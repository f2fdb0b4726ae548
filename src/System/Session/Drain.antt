-- ===== src/System/Session/Drain.antt =====
-- `runSyncSession` of src/client/sync-session.ts drains the outbox, or throws what the authority throws.
use sync_engine_v.Base.{
  ℕ, zero, suc, String, ◌≤◌, ◌<◌, ◌≡◌, refl, inl, inr, Bool, true, false, arith, Bool-cases,
  str_eq_refl,
}
use sync_engine_v.Errors.{SyncError, Result, ok, err, Result-cases}
use sync_engine_v.Limits.{max_safe_integer, or_default}
use sync_engine_v.Server.{synchronize}
use sync_engine_v.Server.Sync.{synchronize-eq-err}
use sync_engine_v.Replica.{ReplicaInterpreter}
use sync_engine_v.Client.{assert_response_envelope, run_round, run_rounds, run_sync_session}
use sync_engine_v.System.Session.{
  SessionWorld, SessionSettings, options_of, store_merged, direct_session, work_left, IsRefused,
  IsDrained, Ends, IsSession,
}
use sync_engine_v.System.Session.Over.{is_over, over-IsDrained, more-work_left}
use sync_engine_v.System.Session.Round.{IsUsable, prepare_sync_request-total, served-Progresses}

-- What a session asks for has at least one proposal and one entry, and safe integers for both.
pub record AreUsable (settings : SessionSettings) : Type 0 where
  pub some_proposals : 0 < or_default settings.maximum_proposals 64
  pub safe_proposals : or_default settings.maximum_proposals 64 ≤ max_safe_integer
  pub some_entries : 0 < or_default settings.maximum_entries 256
  pub safe_entries : or_default settings.maximum_entries 256 ≤ max_safe_integer

AreUsable-IsUsable :
    (settings : SessionSettings) → AreUsable settings → IsUsable (options_of settings)
AreUsable-IsUsable settings u = record {
  maximum_proposals = or_default settings.maximum_proposals 64;
  proposals_at = refl;
  some_proposals = u.some_proposals;
  safe_proposals = u.safe_proposals;
  maximum_entries = or_default settings.maximum_entries 256;
  entries_at = refl;
  some_entries = u.some_entries;
  safe_entries = u.safe_entries;
}

module _ {State Intent Operation Rejection : Type 0} (initial : State)
    (interpreter : ReplicaInterpreter State Intent Operation) (settings : SessionSettings) where
  -- How a round ends.
  data RoundEnds (before : SessionWorld State Intent Operation Rejection)
      (r : Result Bool × SessionWorld State Intent Operation Rejection) : Type 0 where
    refused :
        (e : SyncError) (after : SessionWorld State Intent Operation Rejection)
        → r ≡ (err e, after)
        → IsRefused settings after e
        → RoundEnds before r
    finished :
        (after : SessionWorld State Intent Operation Rejection)
        → r ≡ (ok true, after)
        → IsDrained after
        → RoundEnds before r
    goes_on :
        (after : SessionWorld State Intent Operation Rejection)
        → r ≡ (ok false, after)
        → IsSession initial interpreter after
        → work_left after < work_left before
        → RoundEnds before r

module _ {State Intent Operation Rejection : Type 0} (initial : State)
    (interpreter : ReplicaInterpreter State Intent Operation) (settings : SessionSettings)
    (usable : AreUsable settings) where
  run_round-end :
      (stream_id : String) (world : SessionWorld State Intent Operation Rejection)
      → IsSession initial interpreter world
      → RoundEnds initial interpreter settings world
          (run_round (direct_session Rejection interpreter stream_id settings) world)
  unfolding run_round assert_response_envelope
  run_round-end stream_id world s =
      let usable' = AreUsable-IsUsable settings usable in
      let options = options_of settings in
      let (request, prepared) =
        prepare_sync_request-total initial interpreter options usable' world s in
      elim (Result-cases (synchronize world.server request).0) [
        | inl (e, failed) ↦
            let left : SessionWorld State Intent Operation Rejection = record {
              stored = world.stored;
              server = (synchronize world.server request).1;
            } in
            let ran : run_round (direct_session Rejection interpreter stream_id settings) world
                ≡ (err e, left) =
              rw (prepared, failed) refl in
            refused e left ran
              (request, prepared, rw (synchronize-eq-err world.server request failed) failed)
        | inr (response, done) ↦
            let (merged, merges, p) =
              served-Progresses initial interpreter options usable' world request response s
                prepared done in
            let after =
              (store_merged
                (record { stored = world.stored; server = (synchronize world.server request).1 })
                (ok merged)).1 in
            let ran : run_round (direct_session Rejection interpreter stream_id settings) world
                ≡ (ok (is_over after response), after) =
              rw (prepared, done, str_eq_refl stream_id, merges) refl in
            elim (Bool-cases (is_over after response)) [
              | inl ended ↦
                  finished after (rw ended at ran) (
                    over-IsDrained initial interpreter options usable' world after response p ended)
              | inr more ↦
                  goes_on after (rw more at ran) p.session
                    (more-work_left initial interpreter options usable' world after response p more)
            ]
      ]

  run_rounds-Ends :
      (stream_id : String) (rounds : ℕ) (world : SessionWorld State Intent Operation Rejection)
      → IsSession initial interpreter world
      → work_left world < rounds
      → Ends settings
          (run_rounds (direct_session Rejection interpreter stream_id settings) rounds world)
  unfolding run_rounds
  run_rounds-Ends stream_id zero world s enough = absurd (omega (arith, enough))
  run_rounds-Ends stream_id (suc rounds) world s enough =
      let round = run_round (direct_session Rejection interpreter stream_id settings) world in
      elim (run_round-end stream_id world s) [
        | refused e after thrown refusal ↦ rw (thrown, run_rounds) (inr (e, refl, refusal))
        | finished after returned drained ↦ rw (returned, run_rounds) (inl (refl, drained))
        | goes_on after returned s' less ↦
            rw (returned, run_rounds)
              (run_rounds-Ends stream_id rounds after s' (omega (arith, less, enough)))
      ]

  -- Take a consistent authority and a stored replica of its log that interprets operations alike, whose
  -- outbox is a valid batch of the client's own operations, with safe integers left to number what waits
  -- in it. Let a session ask for at least one proposal and one entry at a time, and let its rounds be more
  -- than two for each proposal that waits and one for each entry that is not confirmed. If nobody else
  -- speaks to the authority meanwhile, the session either returns, with an empty outbox, the whole log
  -- confirmed and the authority's state, or throws the error with which the authority refuses what the
  -- replica prepares.
  pub run_sync_session-Ends :
      (stream_id : String) (world : SessionWorld State Intent Operation Rejection)
      → IsSession initial interpreter world
      → work_left world < or_default settings.maximum_sync_rounds 100
      → Ends settings
          (run_sync_session (direct_session Rejection interpreter stream_id settings) world)
  unfolding run_sync_session
  run_sync_session-Ends stream_id world s enough =
      run_rounds-Ends stream_id (or_default settings.maximum_sync_rounds 100) world s enough

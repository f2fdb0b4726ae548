-- ===== src/Server/Retry.antt =====
-- When `synchronize` of src/server.ts succeeds, and what a repeated request does.
use sync_engine_v.Base.{
  ◌≤◌, ◌≡◌, refl, ap, subst, ◌∙◌, inl, inr, List, some, false, arith, length, length-append, ltb,
  Bool-cases, ltb→lt,
}
use sync_engine_v.Errors.{SyncError, Result, ok, err, ok-ne-err}
use sync_engine_v.Limits.{ProtocolLimits, IsPositive, max_safe_integer}
use sync_engine_v.Protocol.{ProposalDecision, SyncRequest, SyncResponse}
use sync_engine_v.Invariants.Batch.Valid.{IsRequest, assert_sync_request-eq-ok}
use sync_engine_v.Invariants.Response.Valid.{IsResponse, assert_sync_response-eq-ok}
use sync_engine_v.Server.{
  LogServer, StagedServerTransition, head_sequence, empty_transition, process_proposals,
  create_response, publish, synchronize,
}
use sync_engine_v.Server.Direct.{decide_all}
use sync_engine_v.Server.Decides.{IsIndexed}
use sync_engine_v.Server.Batch.{decide_all-DecidesAll, DecidesAll-Extends, decide_all-again}
use sync_engine_v.Server.Refinement.{decide_all-staged, publish_all, process_proposals-decide_all}
use sync_engine_v.Server.Sync.{answer, synchronize-Synchronizes, serve, serve-Extends}
use sync_engine_v.Server.Consistent.{IsConsistent}
use sync_engine_v.Server.Preserve.{
  DecidesAll-IsConsistent, synchronize-IsConsistent, serve-IsConsistent,
}
use sync_engine_v.Server.Total.{DecidesAll-AnswersAll, answer-IsResponse}

module _ {State Intent Operation Rejection : Type 0} where
  -- the response of `respond` is the answer of the published server
  responds :
      (server : LogServer State Intent Operation Rejection) (request : SyncRequest Intent)
      (ds : List (ProposalDecision Operation Rejection))
      (staged : StagedServerTransition State Operation Rejection)
      → IsRequest request (some server.limits)
      → request.base_sequence ≤ head_sequence server
      → process_proposals server (empty_transition server) request.proposals ≡ ok (ds, staged)
      → IsResponse (answer (publish server staged) request ds) (some server.limits)
      → synchronize server request
        ≡ (ok (answer (publish server staged) request ds), publish server staged)
  unfolding synchronize create_response
  responds server request ds staged valid base decided checked =
      rw
        (
          (assert_sync_request-eq-ok request (some server.limits)).1 valid,
          within,
          decided,
          (assert_sync_response-eq-ok _ (some server.limits)).1 checked,
        )
        refl
    where
      within : ltb (head_sequence server) request.base_sequence ≡ false
      within = elim (Bool-cases (ltb (head_sequence server) request.base_sequence)) [
        | inl above ↦ absurd (omega (arith, ltb→lt _ _ above))
        | inr fine ↦ fine
      ]

  -- A valid request whose base is within the log and whose proposals can be decided succeeds: on a
  -- consistent server with positive limits and a log that stays within the safe integers, the checks
  -- of the response never fail.
  pub synchronize-eq-ok :
      (initial : State) (server last : LogServer State Intent Operation Rejection)
      (request : SyncRequest Intent) (ds : List (ProposalDecision Operation Rejection))
      → IsConsistent initial server
      → IsPositive server.limits
      → IsRequest request (some server.limits)
      → request.base_sequence ≤ head_sequence server
      → decide_all server request.proposals ≡ ok (ds, last)
      → head_sequence last ≤ max_safe_integer
      → synchronize server request ≡ (ok (answer last request ds), last)
  synchronize-eq-ok initial server last request ds c positive valid base decided safe =
      let steps = decide_all-DecidesAll server request.proposals decided in
      let extends = DecidesAll-Extends steps in
      let checked =
        answer-IsResponse initial last (DecidesAll-IsConsistent initial valid.batch steps c) safe
          request ds (rw extends.limits positive) (rw extends.limits valid)
          (omega (arith, ap length extends.log, length-append server.log extends.added))
          (DecidesAll-AnswersAll steps) in
      let (staged, processed, published) =
        decide_all-staged server request.proposals c.indexed decided in
      subst
        (λ (s : LogServer State Intent Operation Rejection).
          synchronize server request ≡ (ok (answer s request ds), s))
        published
        (responds server request ds staged valid base processed (
          rw published (
            subst (λ (l : ProtocolLimits). IsResponse (answer last request ds) (some l))
              extends.limits checked)))

  publish_all-eq-err :
      (server : LogServer State Intent Operation Rejection)
      (r : Result (
        List (ProposalDecision Operation Rejection)
        × StagedServerTransition State Operation Rejection))
      {e : SyncError}
      → publish_all server r ≡ err e
      → r ≡ err e
  publish_all-eq-err server (ok r) h = absurd (ok-ne-err h)
  publish_all-eq-err server (err e) h = cc

  -- A batch is decided as a whole: if deciding its proposals one after the other fails at any of
  -- them, then a valid request from within the log fails with that proposal's error, and the server,
  -- whose client positions are bound to decided operations, stays as it was.
  pub synchronize-decide_all_err :
      (server : LogServer State Intent Operation Rejection) (request : SyncRequest Intent)
      {e : SyncError}
      → IsIndexed server
      → IsRequest request (some server.limits)
      → request.base_sequence ≤ head_sequence server
      → decide_all server request.proposals ≡ err e
      → synchronize server request ≡ (err e, server)
  unfolding synchronize
  synchronize-decide_all_err server request i valid base failed =
      let refused =
        publish_all-eq-err server _
          (process_proposals-decide_all server request.proposals i ∙ failed) in
      let within : ltb (head_sequence server) request.base_sequence ≡ false = ground arith in
      rw ((assert_sync_request-eq-ok request (some server.limits)).1 valid, within, refused) refl

  -- A retry is idempotent. After a request to a consistent server with positive limits has
  -- succeeded, and whatever was served since, a valid request with the same proposals and a base
  -- within the log succeeds with the same decisions and leaves the server as it is, as long as the
  -- log's length is a safe integer.
  pub synchronize-again :
      (initial : State) (server : LogServer State Intent Operation Rejection)
      (request : SyncRequest Intent) (response : SyncResponse Operation Rejection)
      (requests : List (SyncRequest Intent)) (retry : SyncRequest Intent)
      → IsConsistent initial server
      → IsPositive server.limits
      → (synchronize server request).0 ≡ ok response
      → retry.proposals ≡ request.proposals
      → let later = serve (synchronize server request).1 requests in
        IsRequest retry (some later.limits)
        → retry.base_sequence ≤ head_sequence later
        → head_sequence later ≤ max_safe_integer
        → synchronize later retry ≡ (ok (answer later retry response.decisions), later)
  synchronize-again initial server request response requests retry c positive h same valid base
        safe =
      let done = synchronize-Synchronizes server request c.indexed h in
      let after = (synchronize server request).1 in
      let c' = synchronize-IsConsistent initial server request c in
      let extends = serve-Extends after requests c'.indexed in
      let limits = extends.limits ∙ (DecidesAll-Extends done.steps).limits in
      synchronize-eq-ok initial (serve after requests) (serve after requests) retry
        response.decisions (serve-IsConsistent initial after requests c') (rw limits positive) valid
        base (rw same (decide_all-again done.steps (serve after requests) extends)) safe

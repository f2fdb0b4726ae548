-- ===== src/Server/Sync.antt =====
-- `synchronize` of src/server.ts as a transition of the whole server.
use sync_engine_v.Base.{
  ◌+◌, ◌≤◌, ◌≡◌, refl, sym, subst, inl, inr, min, List, [], ◌∷◌, some, ltb→le, length, slice,
}
use sync_engine_v.Errors.{
  SyncError, Result, ok, err, Result-cases, ok-injective, ok-ne-err, throw_if-eq-ok, >>-eq-ok,
}
use sync_engine_v.Protocol.{ProposalDecision, SyncRequest, SyncResponse}
use sync_engine_v.Invariants.Batch.Valid.{IsRequest, assert_sync_request-eq-ok}
use sync_engine_v.Invariants.Response.Valid.{IsResponse, assert_sync_response-eq-ok}
use sync_engine_v.Server.{
  LogServer, StagedServerTransition, head_sequence, empty_transition, process_proposals,
  create_response, respond, publish, settle, synchronize,
}
use sync_engine_v.Server.Decides.{IsIndexed}
use sync_engine_v.Server.Growth.{Extends, Extends-refl, Extends-trans}
use sync_engine_v.Server.Batch.{
  DecidesAll, decide_all-DecidesAll, DecidesAll-IsIndexed, DecidesAll-Extends,
}
use sync_engine_v.Server.Refinement.{process_proposals-decide_all}

module _ {State Intent Operation Rejection : Type 0} where
  -- The response that a server gives once it has taken the decisions in.
  abbrev pub answer :
      LogServer State Intent Operation Rejection
      → SyncRequest Intent
      → List (ProposalDecision Operation Rejection)
      → SyncResponse Operation Rejection
  answer server request decisions =
      let page_size = min request.maximum_entries server.limits.maximum_entries_per_response in
      let entries = slice request.base_sequence (request.base_sequence + page_size) server.log in
      record {
        requested_base_sequence = request.base_sequence;
        through_sequence = request.base_sequence + length entries;
        head_sequence = length server.log;
        entries = entries;
        decisions = decisions;
      }

  -- A request that succeeds.
  pub record Synchronizes (server : LogServer State Intent Operation Rejection)
      (request : SyncRequest Intent) (response : SyncResponse Operation Rejection)
      (last : LogServer State Intent Operation Rejection) : Type 0 where
    pub valid : IsRequest request (some server.limits)
    pub base : request.base_sequence ≤ head_sequence server
    pub steps : DecidesAll server request.proposals response.decisions last
    pub page : answer last request response.decisions ≡ response
    pub checked : IsResponse response (some server.limits)

  respond-Synchronizes :
      (server : LogServer State Intent Operation Rejection) (request : SyncRequest Intent)
      {response : SyncResponse Operation Rejection}
      {staged : StagedServerTransition State Operation Rejection}
      → IsIndexed server
      → respond server request ≡ ok (response, staged)
      → Synchronizes server request response (publish server staged)
  unfolding respond
  respond-Synchronizes server request i h =
      let refined = process_proposals-decide_all server request.proposals i in
      elim (Result-cases (process_proposals server (empty_transition server) request.proposals)) [
        | inl (e, failed) ↦
            let (_, h₁) = (>>-eq-ok _ _).0 (rw failed at h) in
            absurd (ok-ne-err (sym ((>>-eq-ok _ _).0 h₁).1))
        | inr ((decisions, staged'), decided) ↦
            let (valid, h₁) = (>>-eq-ok _ _).0 (rw decided at h) in
            let (base, h₂) = (>>-eq-ok _ _).0 h₁ in
            let (checked, same) = (>>-eq-ok _ _).0 h₂ in
            let steps =
              decide_all-DecidesAll server request.proposals (sym (rw decided at refined)) in
            subst
              (λ (r : SyncResponse Operation Rejection
                  × StagedServerTransition State Operation Rejection).
                Synchronizes server request r.0 (publish server r.1))
              (ok-injective same)
              (record {
                valid = (assert_sync_request-eq-ok request (some server.limits)).0 valid;
                base = ltb→le _ _ ((throw_if-eq-ok _ _).0 base);
                steps = unfold create_response in steps;
                page = unfold create_response publish in refl;
                checked = (assert_sync_response-eq-ok _ (some server.limits)).0 checked;
              })
      ]

  settle-eq-err :
      (server : LogServer State Intent Operation Rejection)
      (r : Result
        (SyncResponse Operation Rejection × StagedServerTransition State Operation Rejection))
      {e : SyncError}
      → (settle server r).0 ≡ err e
      → (settle server r).1 ≡ server
  settle-eq-err server (err e) h = refl
  settle-eq-err server (ok r) h = absurd (ok-ne-err h)

  -- A request that fails leaves the server as it was: no decision, no entry and no state change of a
  -- part of its batch stays.
  pub synchronize-eq-err :
      (server : LogServer State Intent Operation Rejection) (request : SyncRequest Intent)
      {e : SyncError}
      → (synchronize server request).0 ≡ err e
      → (synchronize server request).1 ≡ server
  unfolding synchronize
  synchronize-eq-err server request h = settle-eq-err server (respond server request) h

  -- A request that succeeds, on a server whose client positions are bound to decided operations, is
  -- valid, starts within the log, and decides its proposals one after the other on the whole server;
  -- its response passes the check of responses and is the page of the log after that.
  pub synchronize-Synchronizes :
      (server : LogServer State Intent Operation Rejection) (request : SyncRequest Intent)
      {response : SyncResponse Operation Rejection}
      → IsIndexed server
      → (synchronize server request).0 ≡ ok response
      → Synchronizes server request response (synchronize server request).1
  unfolding synchronize
  synchronize-Synchronizes server request {response} i h =
      elim (Result-cases (respond server request)) [
        | inl (e, failed) ↦ absurd (ok-ne-err (sym (rw failed at h)))
        | inr ((response', staged), responded) ↦
            let same : response' ≡ response = ok-injective (rw responded at h) in
            rw responded (
              subst (λ r. Synchronizes server request r (publish server staged)) same
                (respond-Synchronizes server request i responded))
      ]

  -- Whatever the answer, the server keeps its indexes and what it has noted.
  pub synchronize-IsIndexed :
      (server : LogServer State Intent Operation Rejection) (request : SyncRequest Intent)
      → IsIndexed server
      → IsIndexed (synchronize server request).1
  synchronize-IsIndexed server request i = elim (Result-cases (synchronize server request).0) [
    | inl (e, failed) ↦ rw (synchronize-eq-err server request failed) i
    | inr (response, done) ↦
        DecidesAll-IsIndexed (synchronize-Synchronizes server request i done).steps i
  ]

  pub synchronize-Extends :
      (server : LogServer State Intent Operation Rejection) (request : SyncRequest Intent)
      → IsIndexed server
      → Extends (synchronize server request).1 server
  synchronize-Extends server request i = elim (Result-cases (synchronize server request).0) [
    | inl (e, failed) ↦ rw (synchronize-eq-err server request failed) (Extends-refl server)
    | inr (response, done) ↦
        DecidesAll-Extends (synchronize-Synchronizes server request i done).steps
  ]

  -- Serve one request after the other, whatever their answers.
  unfoldable pub serve :
      LogServer State Intent Operation Rejection
      → List (SyncRequest Intent)
      → LogServer State Intent Operation Rejection
  serve server [] = server
  serve server (request ∷ rest) = serve (synchronize server request).1 rest

  -- Over any history of requests to a server whose client positions are bound to decided operations,
  -- the canonical log grows at its end only, and every decision that is on record stays as it is.
  pub serve-Extends :
      (server : LogServer State Intent Operation Rejection) (requests : List (SyncRequest Intent))
      → IsIndexed server
      → Extends (serve server requests) server
  unfolding serve
  serve-Extends server [] i = Extends-refl server
  serve-Extends server (request ∷ rest) i =
      Extends-trans (synchronize-Extends server request i)
        (serve-Extends (synchronize server request).1 rest (synchronize-IsIndexed server request i))

  serve-IsIndexed :
      (server : LogServer State Intent Operation Rejection) (requests : List (SyncRequest Intent))
      → IsIndexed server
      → IsIndexed (serve server requests)
  unfolding serve
  serve-IsIndexed server [] i = i
  serve-IsIndexed server (request ∷ rest) i =
      serve-IsIndexed (synchronize server request).1 rest (synchronize-IsIndexed server request i)

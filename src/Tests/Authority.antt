-- ===== src/Tests/Authority.antt =====
-- Runs of src/server.ts.
use sync_engine_v.Base.{
  ℕ, String, ◌≡◌, refl, sym, ap, subst, [], ◌∷◌, some, arith, contains, length, ◌≤◌,
}
use sync_engine_v.Base.Dict.{lookup, put, put_all}
use sync_engine_v.Errors.{Result, ok, err, unknown_base_sequence, operation_intent_conflict}
use sync_engine_v.Invariants.Batch.{assert_sync_request, check_proposals}
use sync_engine_v.Invariants.Identity
use sync_engine_v.Invariants.Position
use sync_engine_v.Invariants.Response
use sync_engine_v.Server.Restart.{create_log_server-snapshot}
use sync_engine_v.Server.{
  snapshot, LogServer, create_log_server, synchronize, process_proposals, process_proposal,
  empty_transition, repeat_decision, assert_position_unbound,
}
use sync_engine_v.Server.Direct.{decide_one, decide_all}
use sync_engine_v.Server.Growth.{Extends}
use sync_engine_v.Server.Refinement.{publish_all, process_proposals-decide_all}
use sync_engine_v.Server.Sync.{Synchronizes, answer, serve, synchronize-Synchronizes, serve-Extends}
use sync_engine_v.Server.Consistent.{IsConsistent}
use sync_engine_v.Server.Preserve.{synchronize-IsConsistent, serve-IsConsistent}
use sync_engine_v.Protocol.{SyncResponse}
use sync_engine_v.Limits.{ProtocolLimits, IsPositive, max_safe_integer}
use sync_engine_v.Invariants.Batch.Valid.{IsRequest, assert_sync_request-eq-ok}
use sync_engine_v.Server.Retry.{synchronize-decide_all_err, synchronize-eq-ok, synchronize-again}
use sync_engine_v.Server.Restore.{
  IsCreated, create_log_server-IsCreated, create_log_server-IsConsistent,
}
use sync_engine_v.Tests.Data.{
  options, new_server, request, response, other_request, retry, unknown_request, served, small,
  large, both_served, other, conflicting, conflicting_request, small_decision, large_decision,
}

pub created : create_log_server options ≡ ok new_server
unfolding create_log_server
created = refl

pub consistent : IsConsistent 0 new_server
consistent = create_log_server-IsConsistent options refl created

pub synchronized : (synchronize new_server request).0 ≡ ok response
unfolding synchronize assert_sync_request check_proposals Identity.assert_submission_identity
    contains lookup put process_proposals process_proposal Position.client_position_key
    Response.assert_sync_response Identity.assert_committed_operation Response.check_outcome
synchronized = refl

refused : (synchronize new_server unknown_request).0 ≡ err (unknown_base_sequence 9 0)
unfolding synchronize assert_sync_request check_proposals
refused = refl

create_log_server-IsCreated_example : IsCreated options new_server
create_log_server-IsCreated_example = create_log_server-IsCreated options created

synchronize-IsConsistent_example : IsConsistent 0 (synchronize new_server request).1
synchronize-IsConsistent_example = synchronize-IsConsistent 0 new_server request consistent

serve-Extends_example : Extends (serve new_server (request ∷ other_request ∷ [])) new_server
serve-Extends_example = serve-Extends new_server (request ∷ other_request ∷ []) consistent.indexed

synchronize-Synchronizes_example :
    Synchronizes new_server request response (synchronize new_server request).1
synchronize-Synchronizes_example =
    synchronize-Synchronizes new_server request consistent.indexed synchronized

process_proposals-decide_all_example :
    publish_all new_server
      (process_proposals new_server (empty_transition new_server) (small ∷ large ∷ []))
    ≡ decide_all new_server (small ∷ large ∷ [])
process_proposals-decide_all_example =
    process_proposals-decide_all new_server (small ∷ large ∷ []) consistent.indexed

pub decided :
    decide_all new_server (small ∷ large ∷ []) ≡ ok (small_decision ∷ large_decision ∷ [], served)
unfolding decide_all decide_one lookup put Position.client_position_key assert_position_unbound
decided = refl

synchronized_pair : synchronize new_server request ≡ (ok response, served)
unfolding synchronize assert_sync_request check_proposals Identity.assert_submission_identity
    contains lookup put put_all process_proposals process_proposal Position.client_position_key
    Response.assert_sync_response Identity.assert_committed_operation Response.check_outcome
synchronized_pair = refl

served-IsConsistent : IsConsistent 0 served
served-IsConsistent =
    subst (λ (r : Result (SyncResponse ℕ String) × LogServer ℕ ℕ ℕ String). IsConsistent 0 r.1)
      synchronized_pair (synchronize-IsConsistent 0 new_server request consistent)

request-IsRequest : IsRequest request (some new_server.limits)
unfolding assert_sync_request check_proposals Identity.assert_submission_identity contains lookup
    put
request-IsRequest = (assert_sync_request-eq-ok request (some new_server.limits)).0 refl

retry-IsRequest : IsRequest retry (some new_server.limits)
unfolding assert_sync_request check_proposals Identity.assert_submission_identity contains lookup
    put
retry-IsRequest = (assert_sync_request-eq-ok retry (some new_server.limits)).0 refl

pub positive : IsPositive new_server.limits
positive = record { proposals = omega arith; entries = omega arith }

synchronize-eq-ok_example :
    synchronize new_server request
    ≡ (ok (answer served request (small_decision ∷ large_decision ∷ [])), served)
synchronize-eq-ok_example =
    synchronize-eq-ok 0 new_server served request (small_decision ∷ large_decision ∷ []) consistent
      positive request-IsRequest (omega arith) decided (ground arith)

abbrev pub later : LogServer ℕ ℕ ℕ String
later = serve (synchronize new_server request).1 (other_request ∷ [])

pub later_is : later ≡ both_served
unfolding serve synchronize assert_sync_request check_proposals Identity.assert_submission_identity
    contains lookup put put_all process_proposals process_proposal Position.client_position_key
    Response.assert_sync_response Identity.assert_committed_operation Response.check_outcome
later_is = refl

short : length (serve new_server (request ∷ other_request ∷ [])).log ≤ max_safe_integer
unfolding serve
short = rw later_is (omega arith)

create_log_server-snapshot_example :
    create_log_server (record options {
      snapshot = some (snapshot (serve new_server (request ∷ other_request ∷ [])));
    })
    ≡ ok (serve new_server (request ∷ other_request ∷ []))
create_log_server-snapshot_example =
    create_log_server-snapshot options new_server (request ∷ other_request ∷ []) refl created short

synchronize-again_example :
    synchronize later retry
    ≡ (ok (answer later retry (small_decision ∷ large_decision ∷ [])), later)
synchronize-again_example =
    synchronize-again 0 new_server request response (other_request ∷ []) retry consistent positive
      synchronized refl
      (subst (λ (l : ProtocolLimits). IsRequest retry (some l))
        (ap (λ (s : LogServer ℕ ℕ ℕ String). s.limits) (sym later_is)) retry-IsRequest)
      (rw later_is (omega arith)) (rw later_is (omega arith))

pub both_served-IsConsistent : IsConsistent 0 both_served
both_served-IsConsistent = subst (IsConsistent 0) later_is (
    serve-IsConsistent 0 (synchronize new_server request).1 (other_request ∷ [])
      (synchronize-IsConsistent 0 new_server request consistent))

conflicting-IsRequest : IsRequest conflicting_request (some served.limits)
unfolding assert_sync_request check_proposals Identity.assert_submission_identity contains lookup
    put
conflicting-IsRequest = (assert_sync_request-eq-ok conflicting_request (some served.limits)).0 refl

conflicts : decide_all served (other ∷ conflicting ∷ []) ≡ err (operation_intent_conflict "small")
unfolding decide_all decide_one lookup put Position.client_position_key assert_position_unbound
    repeat_decision
conflicts = refl

synchronize-decide_all_err_example :
    synchronize served conflicting_request ≡ (err (operation_intent_conflict "small"), served)
synchronize-decide_all_err_example =
    synchronize-decide_all_err served conflicting_request served-IsConsistent.indexed
      conflicting-IsRequest (omega arith) conflicts

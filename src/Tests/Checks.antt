-- ===== src/Tests/Checks.antt =====
-- Runs of the checks of src/invariants.ts and src/limits.ts.
use sync_engine_v.Base.{◌≡◌, ◌↔◌, refl, none, some}
use sync_engine_v.Errors.{ok}
use sync_engine_v.Limits.{IsPositive, resolve_protocol_limits, resolve_protocol_limits-IsPositive}
use sync_engine_v.Invariants.Position.{client_position_key-injective}
use sync_engine_v.Invariants.Batch.{assert_sync_request}
use sync_engine_v.Invariants.Batch.Valid.{IsRequest, assert_sync_request-eq-ok}
use sync_engine_v.Invariants.Log.{assert_contiguous_log}
use sync_engine_v.Invariants.Log.Valid.{IsPage, assert_contiguous_log-eq-ok}
use sync_engine_v.Invariants.Response.{assert_sync_response}
use sync_engine_v.Invariants.Response.Valid.{IsResponse, assert_sync_response-eq-ok}
use sync_engine_v.Tests.Data.{options, new_server, both_served, small, request, response}

resolved : resolve_protocol_limits options.limits ≡ ok new_server.limits
unfolding resolve_protocol_limits
resolved = refl

resolve_protocol_limits-IsPositive_example : IsPositive new_server.limits
resolve_protocol_limits-IsPositive_example =
    resolve_protocol_limits-IsPositive options.limits resolved

client_position_key-injective_example : (small.client_id ≡ "alice") × (small.client_sequence ≡ 1)
client_position_key-injective_example =
    client_position_key-injective small.client_id "alice" small.client_sequence 1 refl

assert_sync_request-eq-ok_example :
    (assert_sync_request request (some new_server.limits) ≡ ok tt)
    ↔ IsRequest request (some new_server.limits)
assert_sync_request-eq-ok_example = assert_sync_request-eq-ok request (some new_server.limits)

assert_contiguous_log-eq-ok_example :
    (assert_contiguous_log both_served.log ≡ ok tt) ↔ IsPage 0 both_served.log
assert_contiguous_log-eq-ok_example = assert_contiguous_log-eq-ok both_served.log

assert_sync_response-eq-ok_example :
    (assert_sync_response response none ≡ ok tt) ↔ IsResponse response none
assert_sync_response-eq-ok_example = assert_sync_response-eq-ok response none

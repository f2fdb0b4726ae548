-- ===== src/Server.antt =====
-- src/server.ts: the class `InMemoryLogServer`. A server is the record of its private fields; a
-- method that changes it takes it and returns it, also beside an error.
mod State
mod Transition
mod Create
pub mod Direct
pub mod Decides
pub mod Refinement
pub mod Growth
pub mod Batch
pub mod Sync
pub mod Consistent
pub mod Preserve
pub mod Page
pub mod Total
pub mod Retry
pub mod Restore
pub mod Register
pub mod Snapshot
pub mod Restart
unfoldable pub use State.*
unfoldable pub use Transition.*
unfoldable pub use Create.*
use sync_engine_v.Base.{ℕ, ◌+◌, min, String, List, [], ◌++◌, Option, none, some, ltb, length, slice}
use sync_engine_v.Base.Dict.{lookup, put_all, values}
use sync_engine_v.Errors.{Result, ok, err, unknown_base_sequence, throw_if, ◌>>=◌, ◌>>◌}
use sync_engine_v.Protocol.{ProposalDecision, SyncRequest, SyncResponse}
use sync_engine_v.Invariants.Batch.{assert_sync_request}
use sync_engine_v.Invariants.Response.{assert_sync_response}

module _ {State Intent Operation Rejection : Type 0} where
  unfoldable pub get_decision :
      LogServer State Intent Operation Rejection
      → String
      → Option (ProposalDecision Operation Rejection)
  get_decision server operation_id =
      decision_of (lookup operation_id server.decisions_by_operation_id)

  unfoldable pub snapshot :
      LogServer State Intent Operation Rejection → LogServerSnapshot State Operation Rejection
  snapshot server = record {
    materialized_state = server.state;
    log = server.log;
    decisions = values server.decisions_by_operation_id;
  }

  abbrev pub empty_transition :
      LogServer State Intent Operation Rejection → StagedServerTransition State Operation Rejection
  empty_transition server = record {
    state = server.state;
    entries = [];
    decisions_by_operation_id = [];
    operation_id_by_client_position = [];
  }

  -- the response to a request that was decided
  unfoldable pub create_response :
      LogServer State Intent Operation Rejection
      → StagedServerTransition State Operation Rejection
      → SyncRequest Intent
      → List (ProposalDecision Operation Rejection)
      → SyncResponse Operation Rejection
  create_response server staged request decisions =
      let next_log = server.log ++ staged.entries in
      let page_size = min request.maximum_entries server.limits.maximum_entries_per_response in
      let entries = slice request.base_sequence (request.base_sequence + page_size) next_log in
      record {
        requested_base_sequence = request.base_sequence;
        through_sequence = request.base_sequence + length entries;
        head_sequence = length next_log;
        entries = entries;
        decisions = decisions;
      }

  -- the part of `synchronize` that may throw: it changes the staged transition only
  unfoldable pub respond :
      LogServer State Intent Operation Rejection
      → SyncRequest Intent
      → Result (SyncResponse Operation Rejection × StagedServerTransition State Operation Rejection)
  unfolding create_response
  respond server request = do
    assert_sync_request request (some server.limits)
    throw_if (ltb (head_sequence server) request.base_sequence)
        (unknown_base_sequence request.base_sequence (head_sequence server))
    (decisions, staged) ← process_proposals server (empty_transition server) request.proposals
    let response = create_response server staged request decisions
    assert_sync_response response (some server.limits)
    ok (response, staged)

  -- `// Publish the staged transition …`
  unfoldable pub publish :
      LogServer State Intent Operation Rejection
      → StagedServerTransition State Operation Rejection
      → LogServer State Intent Operation Rejection
  publish server staged = record server {
    state = staged.state;
    log = server.log ++ staged.entries;
    decisions_by_operation_id =
        put_all server.decisions_by_operation_id staged.decisions_by_operation_id;
    operation_id_by_client_position =
        put_all server.operation_id_by_client_position staged.operation_id_by_client_position;
  }

  abbrev pub settle :
      LogServer State Intent Operation Rejection
      → Result (SyncResponse Operation Rejection × StagedServerTransition State Operation Rejection)
      → Result (SyncResponse Operation Rejection) × LogServer State Intent Operation Rejection
  settle server (err e) = (err e, server)
  settle server (ok (response, staged)) = (ok response, publish server staged)

  unfoldable pub synchronize :
      LogServer State Intent Operation Rejection
      → SyncRequest Intent
      → Result (SyncResponse Operation Rejection) × LogServer State Intent Operation Rejection
  unfolding respond publish
  synchronize server request = settle server (respond server request)

-- ===== src/Tests/Replicas.antt =====
-- Runs of src/replica.ts, and of both sides together.
use sync_engine_v.Base.{
  ℕ, zero, suc, ◌∙◌, ◌≤◌, String, ◌≡◌, ◌≢◌, refl, sym, ap, subst, true, [], ◌∷◌, some,
  some-injective, arith, All, get_elem?, str_eq→ne, ==_iff, contains,
}
use sync_engine_v.Base.Dict.{lookup, put}
use sync_engine_v.Errors.{ok, ◌>>=◌}
use sync_engine_v.Protocol.{CommittedOperation}
use sync_engine_v.Invariants.Identity
use sync_engine_v.Invariants.Identity.{submitted_as}
use sync_engine_v.Invariants.Response
use sync_engine_v.Replica.{
  OutboxEntry, assert_retained_confirmed_log, merge_decision, find_index, replace_at, merge_entry,
  remove_at, log_has, outbox_has, MergeSyncResult, enqueue_operation, merge_sync_response,
  delete_committed_log_prefix,
}
use sync_engine_v.Replica.Follow.{IsCanonical}
use sync_engine_v.Replica.Converge.{IsReplica, IsAuthentic, merge_sync_response-IsReplica}
use sync_engine_v.Server.{LogServer, synchronize}
use sync_engine_v.Server.Sync.{serve-Extends, synchronize-Synchronizes}
use sync_engine_v.System.Authority.{IsConsistent-IsCanonical, Synchronizes-IsAuthentic}
use sync_engine_v.System.Late.{IsShared, synchronize-merge_sync_response}
use sync_engine_v.Server.Growth.{Extends}
use sync_engine_v.Server.Preserve.{synchronize-IsConsistent}
use sync_engine_v.Replica.Find.{id_of}
use sync_engine_v.Replica.{materialize_optimistic_state, PrepareSyncRequestOptions}
use sync_engine_v.Replica.View.{enqueue_operation-materialize_optimistic_state}
use sync_engine_v.Replica.Local.{IsLocal, enqueue_operation-IsLocal}
use sync_engine_v.Replica.CaughtUp.{merge_sync_response-caught_up}
use sync_engine_v.Replica.Shrink.{IsPart}
use sync_engine_v.Replica.Shrink.Unnamed.{Fate, merge_sync_response-Shrinks}
use sync_engine_v.Base.Dict.{put_all}
use sync_engine_v.Server.{process_proposals}
use sync_engine_v.Server.Sync.{Synchronizes, serve}
use sync_engine_v.Protocol.{SyncResponse}
use sync_engine_v.Invariants.Batch
use sync_engine_v.Invariants.Position
use sync_engine_v.Errors.{Result}
use sync_engine_v.Replica.Prepare.{proposals_of}
use sync_engine_v.Invariants.Batch.{assert_proposal_batch, check_proposals}
use sync_engine_v.Invariants.Batch.Valid.{IsBatch, assert_proposal_batch-eq-ok}
use sync_engine_v.Replica.Steps.{merged, start, then, ReplicaSteps-IsReplica}
use sync_engine_v.Replay.{replay}
use sync_engine_v.Tests.Data.{
  replica_interpreter, new_server, both_served, small, large, request, other_request, response,
  pull, pulled, part_pulled, alice_part_result, alice, alice_merged, alice_result, alice_caught_up,
  alice_enqueued, third,
}
use sync_engine_v.Tests.Authority.{
  consistent, synchronized, later, later_is, both_served-IsConsistent,
}

pub equal_refl : (o : ℕ) → replica_interpreter.are_committed_operations_equal o o ≡ true
equal_refl o = (==_iff o o).1 refl

-- `alice` alone has submitted what is in her outbox
small-matches :
    (i : ℕ) (c : CommittedOperation ℕ)
    → get_elem? both_served.log i ≡ some c
    → c.operation_id ≡ "small"
    → (0 ≤ i) × (submitted_as c ≡ small.submission)
small-matches zero c at same = (omega arith, ap submitted_as (sym (some-injective at)))
small-matches (suc zero) c at same = absurd (
    str_eq→ne {s = "other"} {t = "small"} refl
      (ap (λ (c : CommittedOperation ℕ). c.operation_id) (some-injective at) ∙ same))
small-matches (suc (suc i)) c at same = absurd (ground arith)

large-matches :
    (i : ℕ) (c : CommittedOperation ℕ)
    → get_elem? both_served.log i ≡ some c
    → c.operation_id ≡ "large"
    → (0 ≤ i) × (submitted_as c ≡ large.submission)
large-matches zero c at same = absurd (
    str_eq→ne {s = "small"} {t = "large"} refl
      (ap (λ (c : CommittedOperation ℕ). c.operation_id) (some-injective at) ∙ same))
large-matches (suc zero) c at same = absurd (
    str_eq→ne {s = "other"} {t = "large"} refl
      (ap (λ (c : CommittedOperation ℕ). c.operation_id) (some-injective at) ∙ same))
large-matches (suc (suc i)) c at same = absurd (ground arith)

pub alice-IsReplica : IsReplica replica_interpreter 0 both_served.log alice
unfolding replay
alice-IsReplica = record {
  base = 0;
  follows = record {
    within = omega arith;
    covers = refl;
    agrees = λ i c there. absurd (ground arith);
    replays = refl;
  };
  sound = record {
    own = (
      record { matches = small-matches; receipt = tt },
      (record { matches = large-matches; receipt = tt }, tt),
    );
    distinct = ((str_eq→ne refl, tt), (tt, tt));
  };
}

pub canonical : IsCanonical replica_interpreter.apply_committed 0 12 both_served.log
canonical = IsConsistent-IsCanonical 0 both_served both_served-IsConsistent

served_before : Extends both_served (synchronize new_server request).1
served_before =
    subst (λ s. Extends s (synchronize new_server request).1) later_is
      (serve-Extends (synchronize new_server request).1 (other_request ∷ [])
        (synchronize-IsConsistent 0 new_server request consistent).indexed)

pub authentic : IsAuthentic both_served.log alice.outbox response
authentic =
    Synchronizes-IsAuthentic 0 new_server (synchronize new_server request).1 both_served request
      response 0 alice.outbox
      (synchronize-Synchronizes new_server request consistent.indexed synchronized)
      both_served-IsConsistent served_before alice-IsReplica.sound

merge_sync_response-IsReplica_example :
    (result : MergeSyncResult ℕ ℕ ℕ String) × (merge_sync_response alice response
        replica_interpreter
      ≡ ok result)
    × IsReplica replica_interpreter 0 both_served.log result.state
    × (result.state.confirmed_sequence ≡ 1)
merge_sync_response-IsReplica_example =
    merge_sync_response-IsReplica replica_interpreter equal_refl 0 12 both_served.log canonical
      (omega arith) alice response alice-IsReplica authentic (omega arith)

later_alice : IsReplica replica_interpreter 0 later.log alice
later_alice =
    subst (λ (s : LogServer ℕ ℕ ℕ String). IsReplica replica_interpreter 0 s.log alice)
      (sym later_is) alice-IsReplica

later-IsShared : IsShared later replica_interpreter
later-IsShared =
    subst (λ (s : LogServer ℕ ℕ ℕ String). IsShared s replica_interpreter) (sym later_is)
      (record { apply = refl; equal_refl = equal_refl })

synchronize-merge_sync_response_example :
    (result : MergeSyncResult ℕ ℕ ℕ String) × (merge_sync_response alice response
        replica_interpreter
      ≡ ok result)
    × IsReplica replica_interpreter 0 later.log result.state
    × (result.state.confirmed_sequence ≡ 1)
synchronize-merge_sync_response_example =
    synchronize-merge_sync_response 0 new_server request response (other_request ∷ [])
      replica_interpreter alice consistent synchronized later-IsShared (rw later_is (omega arith))
      later_alice (omega arith)

pull_synchronized : synchronize both_served pull ≡ (ok pulled, both_served)
unfolding synchronize Batch.assert_sync_request Batch.check_proposals put_all process_proposals
    lookup contains put Response.assert_sync_response Identity.assert_committed_operation
    Response.check_outcome Position.client_position_key
pull_synchronized = refl

both_served-Extends : Extends both_served both_served
unfolding serve
both_served-Extends = serve-Extends both_served [] both_served-IsConsistent.indexed

pulled-IsAuthentic : IsAuthentic both_served.log alice.outbox pulled
pulled-IsAuthentic =
    Synchronizes-IsAuthentic 0 both_served both_served both_served pull pulled 0 alice.outbox
      (subst
        (λ (r : Result (SyncResponse ℕ String) × LogServer ℕ ℕ ℕ String).
          Synchronizes both_served pull pulled r.1)
        pull_synchronized
        (synchronize-Synchronizes both_served pull both_served-IsConsistent.indexed (
          ap (λ (r : Result (SyncResponse ℕ String) × LogServer ℕ ℕ ℕ String). r.0)
            pull_synchronized)))
      both_served-IsConsistent both_served-Extends alice-IsReplica.sound

merge_sync_response-caught_up_example :
    (result : MergeSyncResult ℕ ℕ ℕ String) × (merge_sync_response alice pulled replica_interpreter
      ≡ ok result)
    × (result.caught_up_to_observed_head ≡ true)
    × (result.state.confirmed_sequence ≡ 2)
    × (result.state.confirmed_state ≡ 12)
    × All
        (λ (e : OutboxEntry ℕ ℕ).
          (i : ℕ) (c : CommittedOperation ℕ)
          → get_elem? both_served.log i ≡ some c
          → c.operation_id ≢ id_of e)
        result.state.outbox
merge_sync_response-caught_up_example =
    merge_sync_response-caught_up replica_interpreter equal_refl 0 12 both_served.log canonical
      (omega arith) alice pulled alice-IsReplica pulled-IsAuthentic (omega arith) refl refl

compacts :
    delete_committed_log_prefix alice_caught_up 2
    ≡ ok (record alice_caught_up { confirmed_log = [] })
unfolding delete_committed_log_prefix assert_retained_confirmed_log
compacts = refl

enqueues : enqueue_operation alice third ≡ ok alice_enqueued
unfolding enqueue_operation log_has outbox_has assert_retained_confirmed_log
enqueues = refl

merges : merge_sync_response alice response replica_interpreter ≡ ok alice_result
unfolding merge_sync_response Response.assert_sync_response Identity.assert_committed_operation
    lookup contains Response.check_outcome put assert_retained_confirmed_log merge_decision
    find_index replace_at merge_entry remove_at
merges = refl

ReplicaSteps-IsReplica_example :
    IsReplica replica_interpreter 0 both_served.log alice_merged × (0 ≤ 1)
ReplicaSteps-IsReplica_example =
    ReplicaSteps-IsReplica replica_interpreter equal_refl 0 12 both_served.log canonical
      (omega arith) alice alice_merged
      (then (merged response alice_result authentic merges refl) start) alice-IsReplica

abbrev one_at_most : PrepareSyncRequestOptions
one_at_most = record { maximum_proposals = some 1; maximum_entries = some 10 }

alice-IsBatch : IsBatch (proposals_of alice.outbox)
unfolding assert_proposal_batch check_proposals Identity.assert_submission_identity lookup contains
    put
alice-IsBatch = (assert_proposal_batch-eq-ok (small ∷ large ∷ [])).0 refl

enqueue_operation-materialize_optimistic_state_example :
    materialize_optimistic_state alice_enqueued replica_interpreter ≡ (
      materialize_optimistic_state alice replica_interpreter >>= λ shown.
      replica_interpreter.apply_optimistic shown third.intent)
enqueue_operation-materialize_optimistic_state_example =
    enqueue_operation-materialize_optimistic_state replica_interpreter alice third enqueues

pub alice-IsLocal : IsLocal alice
alice-IsLocal = record {
  batch = alice-IsBatch;
  own = ((refl, omega arith), ((refl, omega arith), tt));
}

enqueue_operation-IsLocal_example : IsLocal alice_enqueued
enqueue_operation-IsLocal_example = enqueue_operation-IsLocal alice third alice-IsLocal enqueues

-- A page from which `alice` learns of `small` only.
pulls_part : merge_sync_response alice part_pulled replica_interpreter ≡ ok alice_part_result
unfolding merge_sync_response Response.assert_sync_response Identity.assert_committed_operation
    lookup contains Response.check_outcome put assert_retained_confirmed_log merge_decision
    find_index replace_at merge_entry remove_at
pulls_part = refl

merge_sync_response-Shrinks_example :
    IsLocal alice_part_result.state
    × IsPart (small ∷ large ∷ []) (large ∷ [])
    × All (Fate part_pulled alice_part_result.state) alice.outbox
merge_sync_response-Shrinks_example =
    merge_sync_response-Shrinks alice part_pulled replica_interpreter alice-IsLocal pulls_part

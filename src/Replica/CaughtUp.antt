-- ===== src/Replica/CaughtUp.antt =====
-- `mergeSyncResponse` of src/replica.ts on a response that goes through the end of the log.
use sync_engine_v.Base.{
  ℕ, ◌≤◌, none, some, List, ◌≡◌, refl, subst, ◌∙◌, ◌≢◌, true, arith, All, get_elem?, leb, length,
}
use sync_engine_v.Errors.{ok, ok-injective, >>=-eq-ok, >>-eq-ok}
use sync_engine_v.Limits.{max_safe_integer}
use sync_engine_v.Protocol.{CommittedOperation, SyncResponse}
use sync_engine_v.Invariants.Response.{assert_sync_response}
use sync_engine_v.Replica.{
  ReplicaState, ReplicaInterpreter, MergeSyncResult, assert_retained_confirmed_log, merge_decisions,
  merge_entries, reconcile, merge_sync_response,
}
use sync_engine_v.Replica.Find.{id_of}
use sync_engine_v.Replica.Follow.{IsCanonical}
use sync_engine_v.Replica.Converge.{
  IsReplica, IsAuthentic, IsReplica-caught_up, merge_sync_response-IsReplica,
}

module _ {State Intent Operation Rejection : Type 0} where
  -- the flag of a merge tells whether the head that the response names is confirmed
  merge_sync_response-observed :
      (state : ReplicaState State Intent Operation) (response : SyncResponse Operation Rejection)
      (interpreter : ReplicaInterpreter State Intent Operation)
      {result : MergeSyncResult State Intent Operation Rejection}
      → merge_sync_response state response interpreter ≡ ok result
      → result.caught_up_to_observed_head
        ≡ leb response.head_sequence result.state.confirmed_sequence
  unfolding merge_sync_response
  merge_sync_response-observed state response interpreter h =
      let (_, h₁) = (>>-eq-ok (assert_sync_response response none) _).0 h in
      let (base, retained, h₂) = >>=-eq-ok (assert_retained_confirmed_log state) _ h₁ in
      let (_, h₃) = (>>-eq-ok _ _).0 h₂ in
      let (learned, learns, h₄) = >>=-eq-ok (merge_decisions _ _ response.decisions) _ h₃ in
      let (merged, merges, h₅) =
        >>=-eq-ok (merge_entries interpreter base _ response.entries) _ h₄ in
      let (outbox, reconciled, h₆) =
        >>=-eq-ok
          (reconcile interpreter base merged.confirmed_sequence merged.confirmed_log
            merged.learned.outbox)
          _ h₅ in
      subst
        (λ (r : MergeSyncResult State Intent Operation Rejection).
          r.caught_up_to_observed_head ≡ leb response.head_sequence r.state.confirmed_sequence)
        (ok-injective h₆) refl

module _ {State Intent Operation Rejection : Type 0}
    (interpreter : ReplicaInterpreter State Intent Operation)
    (equal_refl : (o : Operation) → interpreter.are_committed_operations_equal o o ≡ true)
    (initial final : State) (log : List (CommittedOperation Operation))
    (canonical : IsCanonical interpreter.apply_committed initial final log)
    (safe : length log ≤ max_safe_integer) where
  -- Let the log be canonical, of a safe length, and equality of operations reflexive. A replica of
  -- the log that merges an authentic response to a request from within its confirmed prefix, where
  -- the response goes through the end of the log and names it as the head, succeeds and is caught up:
  -- the merge says so, the whole log is confirmed, the confirmed state is the one to which the log
  -- replays, and what is left in the outbox is in none of the log's entries.
  pub merge_sync_response-caught_up :
      (state : ReplicaState State Intent Operation) (response : SyncResponse Operation Rejection)
      → IsReplica interpreter initial log state
      → IsAuthentic log state.outbox response
      → response.requested_base_sequence ≤ state.confirmed_sequence
      → response.through_sequence ≡ length log
      → response.head_sequence ≡ length log
      → (result : MergeSyncResult State Intent Operation Rejection) × (merge_sync_response state
            response interpreter
          ≡ ok result)
        × (result.caught_up_to_observed_head ≡ true)
        × (result.state.confirmed_sequence ≡ length log)
        × (result.state.confirmed_state ≡ final)
        × All
            (λ e.
              (i : ℕ) (c : CommittedOperation Operation)
              → get_elem? log i ≡ some c
              → c.operation_id ≢ id_of e)
            result.state.outbox
  merge_sync_response-caught_up state response r a reach through head =
      let (result, merges, r', at) =
        merge_sync_response-IsReplica interpreter equal_refl initial final log canonical safe state
          response r a reach in
      let whole : result.state.confirmed_sequence ≡ length log =
        omega (arith, at, through, r.follows.within) in
      let (replayed, apart) =
        IsReplica-caught_up interpreter initial final log canonical safe result.state r' whole in
      let reached : leb response.head_sequence result.state.confirmed_sequence ≡ true =
        ground (arith, head, whole) in
      (
        result,
        merges,
        merge_sync_response-observed state response interpreter merges ∙ reached,
        whole,
        replayed,
        apart,
      )

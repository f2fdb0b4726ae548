-- ===== src/System/Session/Round.antt =====
-- A round of `runSyncSession` in src/client/sync-session.ts that the authority answers.
use sync_engine_v.Base.{
  ℕ, zero, suc, ◌+◌, ◌≤◌, ◌<◌, ◌≡◌, refl, sym, ap, subst, ◌∙◌, false, List, [], ◌∷◌, some, arith,
  All, All-take, get_elem?, length, length-take, take, ◌==◌, if◌then◌else◌,
}
use sync_engine_v.Errors.{ok}
use sync_engine_v.Limits.{
  max_safe_integer, is_out_of_range, assert_non_negative_safe_integer, assert_positive_safe_integer,
}
use sync_engine_v.Protocol.{
  ProposedOperation, CommittedOperation, ProposalDecision, SyncRequest, SyncResponse,
}
use sync_engine_v.Server.{LogInterpreter, LogServer, synchronize}
use sync_engine_v.Server.Consistent.{IsConsistent}
use sync_engine_v.Server.Preserve.{synchronize-IsConsistent}
use sync_engine_v.Server.Sync.{serve, Synchronizes, synchronize-Synchronizes, synchronize-Extends}
use sync_engine_v.Server.Batch.{DecidesAll-length, DecidesAll-Extends}
use sync_engine_v.Server.Total.{AnswersAll, DecidesAll-AnswersAll, Answers-id}
use sync_engine_v.Replica.{
  ReplicaInterpreter, MergeSyncResult, PrepareSyncRequestOptions, collect_proposals,
  prepare_sync_request, merge_sync_response,
}
use sync_engine_v.Replica.Prepare.{pending_of, prepare_sync_request-IsRequest}
use sync_engine_v.Replica.Waiting.{IsDone, IsPart-sent}
use sync_engine_v.Replica.Waiting.Settle.{merge_sync_response-settles}
use sync_engine_v.Replica.Shrink.Response.{merge_sync_response-IsLocal}
use sync_engine_v.Replica.Follow.{IsCanonical}
use sync_engine_v.Replica.Converge.{IsReplica, assert_retained-on_track}
use sync_engine_v.System.Authority.{IsConsistent-IsCanonical}
use sync_engine_v.System.Late.{IsShared, synchronize-merge_sync_response}
use sync_engine_v.System.Growing.{
  IsSubmittedIn, IsOldOr, pending_of-IsSubmittedIn, DecidesAll-log, IsReplica-append,
}
use sync_engine_v.System.Session.{SessionWorld, store_merged, IsSession}

-- Numbers that the settings of a session may have.
pub record IsUsable (options : PrepareSyncRequestOptions) : Type 0 where
  pub maximum_proposals : ℕ
  pub proposals_at : options.maximum_proposals ≡ some maximum_proposals
  pub some_proposals : 0 < maximum_proposals
  pub safe_proposals : maximum_proposals ≤ max_safe_integer
  pub maximum_entries : ℕ
  pub entries_at : options.maximum_entries ≡ some maximum_entries
  pub some_entries : 0 < maximum_entries
  pub safe_entries : maximum_entries ≤ max_safe_integer

module _ {A : Type 0} where
  take-some : (n : ℕ) (xs : List A) → 0 < n → 0 < length xs → 0 < length (take n xs)
  take-some zero xs some_n some_xs = some_n
  take-some (suc n) [] some_n some_xs = some_xs
  take-some (suc n) (x ∷ xs) some_n some_xs = omega arith

module _ {State Intent Operation Rejection : Type 0} (initial : State)
    (interpreter : ReplicaInterpreter State Intent Operation) (options : PrepareSyncRequestOptions)
    (usable : IsUsable options) where
  pub prepare_sync_request-total :
      (world : SessionWorld State Intent Operation Rejection)
      → IsSession initial interpreter world
      → (request : SyncRequest Intent) × (prepare_sync_request world.stored.replica options
          ≡ ok request)
  unfolding prepare_sync_request assert_non_negative_safe_integer assert_positive_safe_integer
  prepare_sync_request-total world s =
      let state = world.stored.replica in
      let canonical =
        subst (λ a. IsCanonical a initial world.server.state world.server.log) (s.shared.apply)
          (IsConsistent-IsCanonical initial world.server s.consistent) in
      let retained =
        assert_retained-on_track interpreter initial world.server.state world.server.log canonical
          (omega (arith, s.room)) state s.replica in
      let proposals : is_out_of_range 0 usable.maximum_proposals ≡ false =
        ground (arith, usable.safe_proposals) in
      let entries : is_out_of_range 1 usable.maximum_entries ≡ false =
        ground (arith, usable.safe_entries, usable.some_entries) in
      let request : SyncRequest Intent = record {
        base_sequence = state.confirmed_sequence;
        maximum_entries = usable.maximum_entries;
        proposals =
            if usable.maximum_proposals == 0
            then []
            else collect_proposals usable.maximum_proposals [] state.outbox;
      } in
      (request, rw (retained, usable.proposals_at, usable.entries_at, proposals, entries) refl)

  -- What a round has achieved.
  pub record Progresses (before after : SessionWorld State Intent Operation Rejection)
      (response : SyncResponse Operation Rejection) : Type 0 where
    pub session : IsSession initial interpreter after
    pub through : after.stored.replica.confirmed_sequence ≡ response.through_sequence
    pub head : response.head_sequence ≡ length after.server.log
    pub sent : ℕ
    pub some_sent : 0 < length (pending_of before.stored.replica.outbox) → 0 < sent
    pub fewer :
        length (pending_of after.stored.replica.outbox) + sent
        ≤ length (pending_of before.stored.replica.outbox)
    pub grows : length after.server.log ≤ length before.server.log + sent
    pub within : before.stored.replica.confirmed_sequence ≤ length before.server.log
    pub forward : before.stored.replica.confirmed_sequence ≤ after.stored.replica.confirmed_sequence
    pub advances :
        before.stored.replica.confirmed_sequence < length after.server.log
        → before.stored.replica.confirmed_sequence < after.stored.replica.confirmed_sequence
    pub reaches : after.stored.replica.confirmed_sequence ≤ length after.server.log

  -- the replica of the log before is one of the log with what the authority took of its outbox
  grown-IsReplica :
      (world : SessionWorld State Intent Operation Rejection) (request : SyncRequest Intent)
      {response : SyncResponse Operation Rejection}
      {last : LogServer State Intent Operation Rejection}
      → IsSession initial interpreter world
      → request.proposals ≡ take usable.maximum_proposals (pending_of world.stored.replica.outbox)
      → Synchronizes world.server request response last
      → IsReplica interpreter initial last.log world.stored.replica
  grown-IsReplica world request {last = last} s sent steps =
      let state = world.stored.replica in
      let x = DecidesAll-Extends steps.steps in
      let own : All (λ p. IsSubmittedIn state.outbox p.submission) request.proposals = rw sent (
        All-take (λ p. IsSubmittedIn state.outbox p.submission) usable.maximum_proposals
          (pending_of state.outbox)
          (pending_of-IsSubmittedIn state.outbox s.replica.sound.distinct)) in
      let new = DecidesAll-log (IsSubmittedIn state.outbox) own steps.steps in
      subst (λ log. IsReplica interpreter initial log state) (sym x.log)
        (IsReplica-append interpreter initial world.server.log x.added state
          (subst
            (λ log.
              (i : ℕ) (c : CommittedOperation Operation)
              → get_elem? log i ≡ some c
              → IsOldOr (IsSubmittedIn state.outbox) world.server.log i c)
            x.log new)
          s.replica)

module _ {State Intent Operation Rejection : Type 0} (initial : State)
    (server : LogServer State Intent Operation Rejection) (c : IsConsistent initial server)
    (safe : length server.log ≤ max_safe_integer) where
  -- what is decided for the proposals that were sent does not wait
  AnswersAll-IsDone :
      (qs ps : List (ProposedOperation Intent)) (ds : List (ProposalDecision Operation Rejection))
      → AnswersAll server ps ds
      → All (λ d. IsDone d.operation_id qs) ds
      → All (λ p. IsDone p.operation_id qs) ps
  AnswersAll-IsDone qs [] [] a h = tt
  AnswersAll-IsDone qs [] (d ∷ ds) a h = absurd a
  AnswersAll-IsDone qs (p ∷ ps) [] a h = absurd a
  AnswersAll-IsDone qs (p ∷ ps) (d ∷ ds) a h = (
    subst (λ id. IsDone id qs) (sym (Answers-id initial server c safe p d a.0)) h.0,
    AnswersAll-IsDone qs ps ds a.1 h.1,
  )

module _ {State Intent Operation Rejection : Type 0} (initial : State)
    (interpreter : ReplicaInterpreter State Intent Operation) (options : PrepareSyncRequestOptions)
    (usable : IsUsable options) where
  -- what the authority answers is merged, and the round has achieved something
  pub served-Progresses :
      (world : SessionWorld State Intent Operation Rejection) (request : SyncRequest Intent)
      (response : SyncResponse Operation Rejection)
      → IsSession initial interpreter world
      → prepare_sync_request world.stored.replica options ≡ ok request
      → (synchronize world.server request).0 ≡ ok response
      → let served : SessionWorld State Intent Operation Rejection = record {
        stored = world.stored;
        server = (synchronize world.server request).1;
      } in
        (merged : MergeSyncResult State Intent Operation Rejection) × (merge_sync_response
            world.stored.replica response interpreter
          ≡ ok merged)
        × Progresses initial interpreter options usable world
            (store_merged served (ok merged)).1
            response
  unfolding serve
  served-Progresses world request response s prepared done =
      let state = world.stored.replica in
      let last = (synchronize world.server request).1 in
      let (valid, base, sent) =
        prepare_sync_request-IsRequest state options s.local.batch prepared in
      let sent : request.proposals ≡ take usable.maximum_proposals (pending_of state.outbox) =
        rw usable.proposals_at at sent in
      let steps = synchronize-Synchronizes world.server request s.consistent.indexed done in
      let x = synchronize-Extends world.server request s.consistent.indexed in
      let c = synchronize-IsConsistent initial world.server request s.consistent in
      let n = length (take usable.maximum_proposals (pending_of state.outbox)) in
      let grows : length last.log ≤ length world.server.log + n =
        omega (arith, DecidesAll-length steps.steps, ap length sent) in
      let few : n ≤ length (pending_of state.outbox) =
        omega (arith, length-take usable.maximum_proposals (pending_of state.outbox)) in
      let safe : length last.log ≤ max_safe_integer = omega (arith, s.room) in
      let shared : IsShared last interpreter = record {
        apply =
            ap (λ (i : LogInterpreter State Intent Operation Rejection). i.apply) x.interpreter
            ∙ s.shared.apply;
        equal_refl = s.shared.equal_refl;
      } in
      let (merged, merges, r, at) =
        synchronize-merge_sync_response initial world.server request response [] interpreter state
          s.consistent done shared safe
          (grown-IsReplica initial interpreter options usable world request s sent steps)
          (omega (arith, base)) in
      let (part, settled) =
        merge_sync_response-settles state response interpreter s.local.batch merges in
      let fewer = IsPart-sent usable.maximum_proposals part (
        subst (All λ p. IsDone p.operation_id (pending_of merged.state.outbox)) sent (
          AnswersAll-IsDone initial last c safe (pending_of merged.state.outbox) request.proposals
            response.decisions (DecidesAll-AnswersAll steps.steps) settled)) in
      let cursors = steps.checked.cursors in
      let from : response.requested_base_sequence ≡ state.confirmed_sequence =
        ap (λ (r : SyncResponse Operation Rejection). r.requested_base_sequence) (sym steps.page)
        ∙ base in
      let head : response.head_sequence ≡ length last.log =
        ap (λ (r : SyncResponse Operation Rejection). r.head_sequence) (sym steps.page) in
      let through : merged.state.confirmed_sequence ≡ response.through_sequence =
        omega (arith, at, cursors.base_through, from) in
      (
        merged,
        merges,
        record {
          session = record {
            consistent = c;
            shared = shared;
            replica = r;
            local = merge_sync_response-IsLocal state response interpreter s.local merges;
            room = omega (arith, s.room, grows, fewer);
          };
          through = through;
          head = head;
          sent = n;
          some_sent =
              take-some usable.maximum_proposals (pending_of state.outbox) usable.some_proposals;
          fewer = fewer;
          grows = grows;
          within = s.replica.follows.within;
          forward = omega (arith, at);
          advances = λ behind.
              let some_entries = cursors.advances (omega (arith, behind, from, head)) in
              omega (arith, some_entries, cursors.page, through, from);
          reaches = omega (arith, cursors.through_head, through, head);
        },
      )

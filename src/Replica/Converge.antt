-- ===== src/Replica/Converge.antt =====
-- `mergeSyncResponse` of src/replica.ts on a response of an authority, and where it leads.
use sync_engine_v.Base.{
  ℕ, suc, ◌+◌, ◌-◌, ◌≤◌, max, ◌≡◌, refl, sym, ap, subst, ◌∙◌, ◌≢◌, true, false, List, [], ◌∷◌, none,
  some, arith, All, All-map, get_elem?, get_elem?-lt, take-length, ◌==◌, take, length, ltb, leb,
}
use sync_engine_v.Errors.{ok, ok-injective}
use sync_engine_v.Limits.{max_safe_integer, is_out_of_range}
use sync_engine_v.Protocol.{CommittedOperation, SyncResponse}
use sync_engine_v.Invariants.Identity.{assert_log_sequence}
use sync_engine_v.Invariants.Response.Valid.{IsResponse, assert_sync_response-eq-ok}
use sync_engine_v.Replay.{replay}
use sync_engine_v.Replica.{
  OutboxStatus, pending, accepted, OutboxEntry, ReplicaState, ReplicaInterpreter, Progress,
  MergeSyncResult, check_retained, assert_retained_confirmed_log, keeps_accepted, keeps_entry,
  reconcile, merge_sync_response,
}
use sync_engine_v.Replica.Find.{id_of}
use sync_engine_v.Replica.Canonical.{IsReceipt, IsOwn, IsTrue, IsSound}
use sync_engine_v.Replica.Learn.{merge_decisions-Learns}
use sync_engine_v.Replica.Follow.{IsCanonical, FromLog, Follows, merge_entries-IsOnTrack}

module _ {Operation : Type 0} where
  -- entries that count up pass
  check_retained-eq-ok :
      (base : ℕ) (es : List (CommittedOperation Operation))
      → ((i : ℕ) (c : CommittedOperation Operation)
          → get_elem? es i ≡ some c
          → c.sequence ≡ base + i + 1)
      → check_retained base es ≡ ok tt
  unfolding check_retained
  check_retained-eq-ok base [] h = refl
  check_retained-eq-ok base (e ∷ es) h =
      let first : (e.sequence == base + 1) ≡ true = ground (arith, h 0 e refl) in
      rw first (check_retained-eq-ok (base + 1) es λ i c there. omega (arith, h (suc i) c there))

module _ {State Intent Operation : Type 0} (interpreter : ReplicaInterpreter State Intent Operation)
    (base k : ℕ) (log retained : List (CommittedOperation Operation)) where
  -- receipts of what is not confirmed stay
  keeps_entry-on_track :
      (e : OutboxEntry Intent Operation) (status : OutboxStatus Operation)
      → e.status ≡ status
      → IsOwn log k e
      → IsReceipt log e.proposal status
      → keeps_entry interpreter base k retained e ≡ ok true
  unfolding keeps_accepted
  keeps_entry-on_track e pending s own receipt = rw s refl
  keeps_entry-on_track e (accepted n op) s own receipt =
      let behind : ltb k n ≡ true =
        ground (arith, receipt.position, own.matches receipt.index _ receipt.entry refl) in
      rw (s, behind, keeps_accepted) refl

  reconcile-on_track :
      (outbox : List (OutboxEntry Intent Operation))
      → All (IsOwn log k) outbox
      → reconcile interpreter base k retained outbox ≡ ok outbox
  unfolding reconcile
  reconcile-on_track [] own = refl
  reconcile-on_track (e ∷ es) own =
      rw (keeps_entry-on_track e e.status refl own.0 own.0.receipt, reconcile-on_track es own.1)
        refl

module _ {State Intent Operation : Type 0} (interpreter : ReplicaInterpreter State Intent Operation)
    (initial : State) (log : List (CommittedOperation Operation)) where
  -- A replica of the log: it follows a prefix, and its outbox agrees with the log.
  pub record IsReplica (state : ReplicaState State Intent Operation) : Type 0 where
    pub base : ℕ
    pub follows :
        Follows interpreter.apply_committed initial log base state.confirmed_sequence
          state.confirmed_state state.confirmed_log
    pub sound : IsSound log state.confirmed_sequence state.outbox

module _ {State Intent Operation : Type 0} (interpreter : ReplicaInterpreter State Intent Operation)
    (initial final : State) (log : List (CommittedOperation Operation))
    (canonical : IsCanonical interpreter.apply_committed initial final log)
    (safe : length log ≤ max_safe_integer) where
  pub assert_retained-on_track :
      (state : ReplicaState State Intent Operation)
      → (r : IsReplica interpreter initial log state)
      → assert_retained_confirmed_log state ≡ ok r.base
  unfolding assert_retained_confirmed_log assert_log_sequence
  assert_retained-on_track state r =
      let f = r.follows in
      let in_range : is_out_of_range 0 state.confirmed_sequence ≡ false =
        ground (arith, f.within, safe) in
      let enough : ltb state.confirmed_sequence (length state.confirmed_log) ≡ false =
        ground (arith, f.covers) in
      let behind : state.confirmed_sequence - length state.confirmed_log ≡ r.base =
        omega (arith, f.covers) in
      rw
        (
          in_range,
          enough,
          behind,
          check_retained-eq-ok r.base state.confirmed_log
              λ i c there. canonical.counted (r.base + i) c (f.agrees i c there),
        )
        refl

  -- A replica that has confirmed the whole of a canonical log, of a safe length, has the state to
  -- which the log replays, and what is left in its outbox is in none of the log's entries.
  pub IsReplica-caught_up :
      (state : ReplicaState State Intent Operation)
      → IsReplica interpreter initial log state
      → state.confirmed_sequence ≡ length log
      → (state.confirmed_state ≡ final)
        × All
            (λ e.
              (i : ℕ) (c : CommittedOperation Operation)
              → get_elem? log i ≡ some c
              → c.operation_id ≢ id_of e)
            state.outbox
  IsReplica-caught_up state r whole =
      let f = r.follows in
      (
        ok-injective (
            sym f.replays
            ∙ ap (replay interpreter.apply_committed initial)
                (ap (λ n. take n log) whole ∙ take-length log)
            ∙ canonical.replays),
        All-map (IsOwn log state.confirmed_sequence) state.outbox
            (λ e own i c there same.
              omega (arith, (own.matches i c there same).0, get_elem?-lt log i there, whole))
            r.sound.own,
      )

-- A response of the log's authority to the replica: it is valid, its entries stand in the log, and
-- what it says of the proposals in the outbox is so.
pub record IsAuthentic {Intent Operation Rejection : Type 0}
    (log : List (CommittedOperation Operation)) (outbox : List (OutboxEntry Intent Operation))
    (response : SyncResponse Operation Rejection) : Type 0 where
  pub valid : IsResponse response none
  pub entries : FromLog log response.requested_base_sequence response.entries
  pub decisions : All (λ e. All (IsTrue log e.proposal) response.decisions) outbox

module _ {State Intent Operation Rejection : Type 0}
    (interpreter : ReplicaInterpreter State Intent Operation)
    (equal_refl : (o : Operation) → interpreter.are_committed_operations_equal o o ≡ true)
    (initial final : State) (log : List (CommittedOperation Operation))
    (canonical : IsCanonical interpreter.apply_committed initial final log)
    (safe : length log ≤ max_safe_integer) where
  -- Let the log be canonical, of a safe length, and equality of operations reflexive. A replica of
  -- the log that merges an authentic response to a request from within its confirmed prefix
  -- succeeds: it is a replica of the log afterwards, and has confirmed what the response goes
  -- through, or more if it had before.
  pub merge_sync_response-IsReplica :
      (state : ReplicaState State Intent Operation) (response : SyncResponse Operation Rejection)
      → IsReplica interpreter initial log state
      → IsAuthentic log state.outbox response
      → response.requested_base_sequence ≤ state.confirmed_sequence
      → (result : MergeSyncResult State Intent Operation Rejection) × (merge_sync_response state
            response interpreter
          ≡ ok result)
        × IsReplica interpreter initial log result.state
        × (result.state.confirmed_sequence ≡ max state.confirmed_sequence response.through_sequence)
  unfolding merge_sync_response
  merge_sync_response-IsReplica state response r a reach =
      let (learned, learns, sound) =
        merge_decisions-Learns log canonical.unique interpreter.are_committed_operations_equal
          equal_refl state.confirmed_sequence
          (record { outbox = state.outbox; newly_resolved = [] }) response.decisions r.sound
          a.decisions in
      let start : Progress State Intent Operation Rejection = record {
        confirmed_sequence = state.confirmed_sequence;
        confirmed_state = state.confirmed_state;
        confirmed_log = state.confirmed_log;
        learned = learned;
      } in
      let (merged, merges, t) =
        merge_entries-IsOnTrack interpreter equal_refl initial final log canonical r.base
          state.confirmed_sequence response.requested_base_sequence start response.entries
          (record { at = refl; follows = r.follows; sound = sound }) a.entries reach in
      let k =
        max state.confirmed_sequence (response.requested_base_sequence + length response.entries) in
      let fine : ltb state.confirmed_sequence response.requested_base_sequence ≡ false =
        ground arith in
      let sound' : IsSound log merged.confirmed_sequence merged.learned.outbox =
        subst (λ n. IsSound log n merged.learned.outbox) (sym t.at) t.sound in
      (
        record {
          state = record state {
            confirmed_sequence = merged.confirmed_sequence;
            confirmed_state = merged.confirmed_state;
            confirmed_log = merged.confirmed_log;
            outbox = merged.learned.outbox;
          };
          newly_resolved = merged.learned.newly_resolved;
          caught_up_to_observed_head = leb response.head_sequence merged.confirmed_sequence;
        },
        rw
            (
              (assert_sync_response-eq-ok response none).1 a.valid,
              assert_retained-on_track interpreter initial final log canonical safe state r,
              fine,
              learns,
              merges,
              reconcile-on_track interpreter r.base merged.confirmed_sequence log
                  merged.confirmed_log merged.learned.outbox sound'.own,
            )
            refl,
        record {
          base = r.base;
          follows =
              subst
                (λ n.
                  Follows interpreter.apply_committed initial log r.base n merged.confirmed_state
                    merged.confirmed_log)
                (sym t.at) t.follows;
          sound = sound';
        },
        t.at ∙ ap (max state.confirmed_sequence) a.valid.cursors.page,
      )

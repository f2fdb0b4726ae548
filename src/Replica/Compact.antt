-- ===== src/Replica/Compact.antt =====
-- `deleteCommittedLogPrefix` of src/replica.ts, on a replica of a log.
use sync_engine_v.Base.{
  ℕ, ◌+◌, ◌-◌, ◌≤◌, ◌≡◌, refl, sym, subst, ◌∙◌, inl, inr, true, List, some, arith, get_elem?, drop,
  get_elem?-drop, length, length-drop, ltb, leb, Bool-cases,
}
use sync_engine_v.Errors.{log_gap, ok, throw_if, ok-injective, throw_if-eq-ok, >>-eq-ok}
use sync_engine_v.Limits.{max_safe_integer}
use sync_engine_v.Protocol.{CommittedOperation}
use sync_engine_v.Invariants.Identity.{assert_log_sequence}
use sync_engine_v.Replica.{ReplicaState, ReplicaInterpreter, delete_committed_log_prefix}
use sync_engine_v.Replica.Follow.{IsCanonical, Follows}
use sync_engine_v.Replica.Converge.{IsReplica, assert_retained-on_track}

module _ {State Intent Operation : Type 0} (interpreter : ReplicaInterpreter State Intent Operation)
    (initial final : State) (log : List (CommittedOperation Operation))
    (canonical : IsCanonical interpreter.apply_committed initial final log)
    (safe : length log ≤ max_safe_integer) where
  -- dropping a piece of the retained log moves the base
  Follows-drop :
      (base k n : ℕ) (state : State) (retained : List (CommittedOperation Operation))
      → n ≤ length retained
      → Follows interpreter.apply_committed initial log base k state retained
      → Follows interpreter.apply_committed initial log (base + n) k state (drop n retained)
  Follows-drop base k n state retained few f = record {
    within = f.within;
    covers = omega (arith, length-drop n retained, f.covers);
    agrees = λ i c there.
        let place : base + (n + i) ≡ base + n + i = omega arith in
        subst (λ m. get_elem? log m ≡ some c) place
          (f.agrees (n + i) c (sym (get_elem?-drop n retained i) ∙ there));
    replays = f.replays;
  }

  -- Compaction that succeeds keeps a replica of a canonical log of a safe length: it changes the
  -- retained log only, and what is retained still stands in the log behind a later base.
  pub delete_committed_log_prefix-IsReplica :
      (state : ReplicaState State Intent Operation) (through : ℕ)
      {next : ReplicaState State Intent Operation}
      → IsReplica interpreter initial log state
      → delete_committed_log_prefix state through ≡ ok next
      → IsReplica interpreter initial log next
        × (record next { confirmed_log = state.confirmed_log } ≡ state)
  unfolding delete_committed_log_prefix
  delete_committed_log_prefix-IsReplica state through {next} r h =
      let (range, h₁) = (>>-eq-ok (assert_log_sequence "throughSequence" through true) _).0 h in
      let (within, h₂) =
        (>>-eq-ok
            (throw_if (ltb state.confirmed_sequence through)
              (log_gap (state.confirmed_sequence + 1) through))
            _).0
          (rw (assert_retained-on_track interpreter initial final log canonical safe state r) at
            h₁) in
      let Kept = λ (s : ReplicaState State Intent Operation).
        IsReplica interpreter initial log s
        × (record s { confirmed_log = state.confirmed_log } ≡ state) in
      elim (Bool-cases (leb through r.base)) [
        | inl compacted ↦ subst Kept (ok-injective (rw compacted at h₂)) (r, refl)
        | inr some_left ↦
            let n = through - r.base in
            subst Kept (ok-injective (rw some_left at h₂)) (
              record {
                base = r.base + n;
                follows =
                    Follows-drop r.base state.confirmed_sequence n state.confirmed_state
                      state.confirmed_log
                      (ground (arith, r.follows.covers, (throw_if-eq-ok _ _).0 within)) r.follows;
                sound = r.sound;
              },
              refl,
            )
      ]

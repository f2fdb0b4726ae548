-- ===== src/Replica/Advance.antt =====
-- The numbers of a replica of src/replica.ts never go back, whatever is merged.
use sync_engine_v.Base.{
  ℕ, ◌+◌, ◌-◌, ◌≤◌, ◌≡◌, refl, sym, subst, inl, inr, true, List, [], ◌∷◌, none, arith, get_elem?,
  Option-cases, Bool-cases, leb, ◌==◌, not, drop, ltb,
}
use sync_engine_v.Errors.{
  ok, ok-injective, ok-ne-err, >>=-eq-ok, >>-eq-ok, throw_if-eq-ok, throw_if, log_gap,
}
use sync_engine_v.Protocol.{CommittedOperation, SyncResponse}
use sync_engine_v.Invariants.Identity.{assert_log_sequence}
use sync_engine_v.Invariants.Response.{assert_sync_response}
use sync_engine_v.Replica.{
  Learned, merge_decisions, ReplicaInterpreter, ReplicaState, MergeSyncResult, Progress,
  EnqueueOperationInput, enqueue_operation, delete_committed_log_prefix,
  resolve_outbox_from_committed, merge_retained, merge_next, merge_entry, merge_entries, reconcile,
  assert_retained_confirmed_log, merge_sync_response,
}
use sync_engine_v.Replica.Enqueue.{enqueue_operation-IsEnqueued}

le_refl : (n : ℕ) → n ≤ n
le_refl n = omega arith

module _ {State Intent Operation Rejection : Type 0}
    (interpreter : ReplicaInterpreter State Intent Operation) (base : ℕ) where
  abbrev Grows :
      Progress State Intent Operation Rejection → Progress State Intent Operation Rejection → Type 0
  Grows progress last = progress.confirmed_sequence ≤ last.confirmed_sequence

  merge_retained-Grows :
      (progress last : Progress State Intent Operation Rejection) (c : CommittedOperation Operation)
      → merge_retained interpreter base progress c ≡ ok last
      → Grows progress last
  unfolding merge_retained
  merge_retained-Grows progress last c h =
      elim (Option-cases (get_elem? progress.confirmed_log (c.sequence - base - 1))) [
        | inl absent ↦ absurd (ok-ne-err (sym (rw (absent, merge_retained) at h)))
        | inr (existing, there) ↦
            let (_, h₁) = (>>-eq-ok _ _).0 (rw (there, merge_retained) at h) in
            let (learned, resolved, h₂) =
              >>=-eq-ok
                (resolve_outbox_from_committed interpreter.are_committed_operations_equal
                  progress.learned c)
                _ h₁ in
            subst (Grows progress) (ok-injective h₂) (le_refl progress.confirmed_sequence)
      ]

  merge_next-Grows :
      (progress last : Progress State Intent Operation Rejection) (c : CommittedOperation Operation)
      → merge_next interpreter base progress c ≡ ok last
      → Grows progress last
  unfolding merge_next
  merge_next-Grows progress last c h =
      let gap =
        throw_if (not (c.sequence == progress.confirmed_sequence + 1))
          (log_gap (progress.confirmed_sequence + 1) c.sequence) in
      let (follows, h₁) = (>>-eq-ok gap _).0 h in
      let (next, applied, h₂) =
        >>=-eq-ok (interpreter.apply_committed progress.confirmed_state c.operation) _ h₁ in
      let (learned, resolved, h₃) =
        >>=-eq-ok
          (resolve_outbox_from_committed interpreter.are_committed_operations_equal progress.learned
            c)
          _ h₂ in
      let counted : progress.confirmed_sequence ≤ c.sequence = ground (
        arith,
        (throw_if-eq-ok (not (c.sequence == progress.confirmed_sequence + 1)) _).0 follows,
      ) in
      subst (Grows progress) (ok-injective h₃) counted

  merge_entry-Grows :
      (progress last : Progress State Intent Operation Rejection) (c : CommittedOperation Operation)
      → merge_entry interpreter base progress c ≡ ok last
      → Grows progress last
  unfolding merge_entry
  merge_entry-Grows progress last c h = elim (Bool-cases (leb c.sequence base)) [
    | inl compacted ↦
        subst (Grows progress) (ok-injective (rw (compacted, merge_entry) at h))
          (le_refl progress.confirmed_sequence)
    | inr behind ↦ elim (Bool-cases (leb c.sequence progress.confirmed_sequence)) [
      | inl confirmed ↦
          merge_retained-Grows progress last c (rw (behind, confirmed, merge_entry) at h)
      | inr new ↦ merge_next-Grows progress last c (rw (behind, new, merge_entry) at h)
    ]
  ]

  merge_entries-Grows :
      (progress last : Progress State Intent Operation Rejection)
      (cs : List (CommittedOperation Operation))
      → merge_entries interpreter base progress cs ≡ ok last
      → Grows progress last
  unfolding merge_entries
  merge_entries-Grows progress last [] h =
      subst (Grows progress) (ok-injective h) (le_refl progress.confirmed_sequence)
  merge_entries-Grows progress last (c ∷ cs) h =
      let (next, merged, h₁) = >>=-eq-ok (merge_entry interpreter base progress c) _ h in
      omega (arith, merge_entry-Grows progress next c merged, merge_entries-Grows next last cs h₁)

module _ {State Intent Operation : Type 0} where
  -- The same client, and neither of its numbers has gone back.
  pub record Advances (state next : ReplicaState State Intent Operation) : Type 0 where
    pub client : next.client_id ≡ state.client_id
    pub numbered : state.next_client_sequence ≤ next.next_client_sequence
    pub confirmed : state.confirmed_sequence ≤ next.confirmed_sequence

  pub Advances-refl : (state : ReplicaState State Intent Operation) → Advances state state
  Advances-refl state = record { client = refl; numbered = omega arith; confirmed = omega arith }

  pub Advances-trans :
      {a b c : ReplicaState State Intent Operation} → Advances a b → Advances b c → Advances a c
  Advances-trans p q = ground arith

  pub enqueue_operation-Advances :
      (state : ReplicaState State Intent Operation) (input : EnqueueOperationInput Intent)
      {next : ReplicaState State Intent Operation}
      → enqueue_operation state input ≡ ok next
      → Advances state next
  enqueue_operation-Advances state input h =
      subst (Advances state) (enqueue_operation-IsEnqueued state input h).next_state
        (record { client = refl; numbered = omega arith; confirmed = omega arith })

  pub delete_committed_log_prefix-eq-ok :
      (state : ReplicaState State Intent Operation) (through : ℕ)
      {next : ReplicaState State Intent Operation}
      → delete_committed_log_prefix state through ≡ ok next
      → (n : ℕ) × (record state { confirmed_log = drop n state.confirmed_log } ≡ next)
  unfolding delete_committed_log_prefix
  delete_committed_log_prefix-eq-ok state through h =
      let (_, h₁) = (>>-eq-ok (assert_log_sequence "throughSequence" through true) _).0 h in
      let (base, retained, h₂) = >>=-eq-ok (assert_retained_confirmed_log state) _ h₁ in
      let gap =
        throw_if (ltb state.confirmed_sequence through)
          (log_gap (state.confirmed_sequence + 1) through) in
      let (_, h₃) = (>>-eq-ok gap _).0 h₂ in
      elim (Bool-cases (leb through base)) [
        | inl short ↦ (0, ok-injective (rw short at h₃))
        | inr long ↦ (through - base, ok-injective (rw long at h₃))
      ]

  pub delete_committed_log_prefix-Advances :
      (state : ReplicaState State Intent Operation) (through : ℕ)
      {next : ReplicaState State Intent Operation}
      → delete_committed_log_prefix state through ≡ ok next
      → Advances state next
  delete_committed_log_prefix-Advances state through h =
      let (n, same) = delete_committed_log_prefix-eq-ok state through h in
      subst (Advances state) same (record {
        client = refl;
        numbered = le_refl state.next_client_sequence;
        confirmed = le_refl state.confirmed_sequence;
      })

module _ {State Intent Operation Rejection : Type 0} where
  pub merge_sync_response-Advances :
      (state : ReplicaState State Intent Operation) (response : SyncResponse Operation Rejection)
      (interpreter : ReplicaInterpreter State Intent Operation)
      {result : MergeSyncResult State Intent Operation Rejection}
      → merge_sync_response state response interpreter ≡ ok result
      → Advances state result.state
  unfolding merge_sync_response
  merge_sync_response-Advances state response interpreter h =
      let (_, h₁) = (>>-eq-ok (assert_sync_response response none) _).0 h in
      let (base, retained, h₂) = >>=-eq-ok (assert_retained_confirmed_log state) _ h₁ in
      let (_, h₃) = (>>-eq-ok _ _).0 h₂ in
      let start : Learned Intent Operation Rejection = record {
        outbox = state.outbox;
        newly_resolved = [];
      } in
      let equal = interpreter.are_committed_operations_equal in
      let (learned, learns, h₄) = >>=-eq-ok (merge_decisions equal start response.decisions) _ h₃ in
      let progress : Progress State Intent Operation Rejection = record {
        confirmed_sequence = state.confirmed_sequence;
        confirmed_state = state.confirmed_state;
        confirmed_log = state.confirmed_log;
        learned = learned;
      } in
      let (merged, merges, h₅) =
        >>=-eq-ok (merge_entries interpreter base progress response.entries) _ h₄ in
      let (outbox, reconciled, h₆) =
        >>=-eq-ok
          (reconcile interpreter base merged.confirmed_sequence merged.confirmed_log
            merged.learned.outbox)
          _ h₅ in
      let ahead = merge_entries-Grows interpreter base progress merged response.entries merges in
      subst (λ (r : MergeSyncResult State Intent Operation Rejection). Advances state r.state)
        (ok-injective h₆)
        (record { client = refl; numbered = le_refl state.next_client_sequence; confirmed = ahead })

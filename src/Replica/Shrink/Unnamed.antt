-- ===== src/Replica/Shrink/Unnamed.antt =====
-- `mergeSyncResponse` of src/replica.ts and the entries of the outbox that a response does not name.
use sync_engine_v.Base.{
  ℕ, ◌≤◌, ◌≡◌, ◌≢◌, refl, sym, subst, inl, inr, true, List, [], ◌∷◌, arith, All, get_elem?,
  Option-cases, Bool-cases, leb, ltb, ◌-◌,
}
use sync_engine_v.Errors.{ok, ok-injective, ok-ne-err, >>=-eq-ok, >>-eq-ok}
use sync_engine_v.Protocol.{CommittedOperation, ProposalDecision, SyncResponse}
use sync_engine_v.Replica.{
  OutboxStatus, pending, accepted, OutboxEntry, ReplicaInterpreter, ReplicaState, MergeSyncResult,
  Progress, resolve_outbox_from_committed, merge_retained, merge_next, merge_entry, merge_entries,
  keeps_accepted, keeps_entry, reconcile, merge_sync_response,
}
use sync_engine_v.Replica.Find.{id_of}
use sync_engine_v.Replica.Prepare.{proposals_of}
use sync_engine_v.Replica.Local.{IsLocal}
use sync_engine_v.Replica.Shrink.{IsPart}
use sync_engine_v.Replica.Shrink.Response.{
  merge_sync_response-Merges, merge_sync_response-IsPart, merge_sync_response-IsLocal,
}
use sync_engine_v.Replica.Shrink.Stays.{
  Holds, here, later, All-Holds, named_among, IsWaiting, unsent, receipt, merge_decisions-Holds,
  resolve-Holds,
}

module _ {State Intent Operation Rejection : Type 0}
    (interpreter : ReplicaInterpreter State Intent Operation) (base : ℕ)
    (e : OutboxEntry Intent Operation) where
  -- the entry is still there
  abbrev Still : Progress State Intent Operation Rejection → Type 0
  Still progress = Holds e progress.learned.outbox

  merge_retained-Holds :
      (progress last : Progress State Intent Operation Rejection) (c : CommittedOperation Operation)
      → c.operation_id ≢ id_of e
      → merge_retained interpreter base progress c ≡ ok last
      → Still progress
      → Still last
  unfolding merge_retained
  merge_retained-Holds progress last c other h held =
      elim (Option-cases (get_elem? progress.confirmed_log (c.sequence - base - 1))) [
        | inl absent ↦ absurd (ok-ne-err (sym (rw (absent, merge_retained) at h)))
        | inr (existing, found) ↦
            let (_, h₁) = (>>-eq-ok _ _).0 (rw (found, merge_retained) at h) in
            let (learned, resolved, h₂) =
              >>=-eq-ok
                (resolve_outbox_from_committed interpreter.are_committed_operations_equal
                  progress.learned c)
                _ h₁ in
            subst Still (ok-injective h₂) (
              resolve-Holds e interpreter.are_committed_operations_equal progress.learned learned c
                other resolved held)
      ]

  merge_next-Holds :
      (progress last : Progress State Intent Operation Rejection) (c : CommittedOperation Operation)
      → c.operation_id ≢ id_of e
      → merge_next interpreter base progress c ≡ ok last
      → Still progress
      → Still last
  unfolding merge_next
  merge_next-Holds progress last c other h held =
      let (_, h₁) = (>>-eq-ok _ _).0 h in
      let (next, applied, h₂) =
        >>=-eq-ok (interpreter.apply_committed progress.confirmed_state c.operation) _ h₁ in
      let (learned, resolved, h₃) =
        >>=-eq-ok
          (resolve_outbox_from_committed interpreter.are_committed_operations_equal progress.learned
            c)
          _ h₂ in
      subst Still (ok-injective h₃) (
        resolve-Holds e interpreter.are_committed_operations_equal progress.learned learned c other
          resolved held)

  merge_entry-Holds :
      (progress last : Progress State Intent Operation Rejection) (c : CommittedOperation Operation)
      → c.operation_id ≢ id_of e
      → merge_entry interpreter base progress c ≡ ok last
      → Still progress
      → Still last
  unfolding merge_entry
  merge_entry-Holds progress last c other h held = elim (Bool-cases (leb c.sequence base)) [
    | inl compacted ↦ subst Still (ok-injective (rw (compacted, merge_entry) at h)) held
    | inr behind ↦ elim (Bool-cases (leb c.sequence progress.confirmed_sequence)) [
      | inl confirmed ↦
          merge_retained-Holds progress last c other (rw (behind, confirmed, merge_entry) at h) held
      | inr new ↦ merge_next-Holds progress last c other (rw (behind, new, merge_entry) at h) held
    ]
  ]

  merge_entries-Holds :
      (progress last : Progress State Intent Operation Rejection)
      (cs : List (CommittedOperation Operation))
      → All (λ c. c.operation_id ≢ id_of e) cs
      → merge_entries interpreter base progress cs ≡ ok last
      → Still progress
      → Still last
  unfolding merge_entries
  merge_entries-Holds progress last [] other h held = subst Still (ok-injective h) held
  merge_entries-Holds progress last (c ∷ cs) other h held =
      let (next, merged, h₁) = >>=-eq-ok (merge_entry interpreter base progress c) _ h in
      merge_entries-Holds next last cs other.1 h₁
        (merge_entry-Holds progress next c other.0 merged held)

module _ {State Intent Operation : Type 0} (interpreter : ReplicaInterpreter State Intent Operation)
    (base : ℕ) where
  keeps_entry-waiting :
      (k : ℕ) (retained : List (CommittedOperation Operation)) (e : OutboxEntry Intent Operation)
      (status : OutboxStatus Operation)
      → e.status ≡ status
      → IsWaiting k status
      → keeps_entry interpreter base k retained e ≡ ok true
  unfolding keeps_accepted
  keeps_entry-waiting k retained e pending s unsent = rw s refl
  keeps_entry-waiting k retained e (accepted n o) s (receipt behind) =
      let after : ltb k n ≡ true = ground arith in rw (s, after, keeps_accepted) refl

  reconcile-Holds :
      (k : ℕ) (retained : List (CommittedOperation Operation)) (e : OutboxEntry Intent Operation)
      (es last : List (OutboxEntry Intent Operation))
      → IsWaiting k e.status
      → reconcile interpreter base k retained es ≡ ok last
      → Holds e es
      → Holds e last
  unfolding reconcile
  reconcile-Holds k retained e [] last waits h held = elim held [ ]
  reconcile-Holds k retained e (x ∷ es) last waits h here =
      let (rest, reconciled, h₁) =
        >>=-eq-ok (reconcile interpreter base k retained es) _
          (rw (keeps_entry-waiting k retained e e.status refl waits, reconcile) at h) in
      subst (Holds e) (ok-injective h₁) here
  reconcile-Holds k retained e (x ∷ es) last waits h (later held) =
      let (keep, decided, h₁) = >>=-eq-ok (keeps_entry interpreter base k retained x) _ h in
      let (rest, reconciled, h₂) = >>=-eq-ok (reconcile interpreter base k retained es) _ h₁ in
      let still = reconcile-Holds k retained e es rest waits reconciled held in
      elim (Bool-cases keep) [
        | inl stays ↦ subst (Holds e) (ok-injective (rw stays at h₂)) (later still)
        | inr leaves ↦ subst (Holds e) (ok-injective (rw leaves at h₂)) still
      ]

-- No decision and no entry of the response is of the entry's operation.
abbrev IsUnnamed :
    {Intent Operation Rejection : Type 0}
    → SyncResponse Operation Rejection
    → OutboxEntry Intent Operation
    → Type 0
IsUnnamed response e =
    All (λ d. d.operation_id ≢ id_of e) response.decisions
    × All (λ c. c.operation_id ≢ id_of e) response.entries

module _ {State Intent Operation Rejection : Type 0} where
  merge_sync_response-Holds :
      (state : ReplicaState State Intent Operation) (response : SyncResponse Operation Rejection)
      (interpreter : ReplicaInterpreter State Intent Operation)
      {result : MergeSyncResult State Intent Operation Rejection}
      → merge_sync_response state response interpreter ≡ ok result
      → (e : OutboxEntry Intent Operation) → IsUnnamed response e
      → IsWaiting result.state.confirmed_sequence e.status
      → Holds e state.outbox
      → Holds e result.state.outbox
  merge_sync_response-Holds state response interpreter {result} h e (undecided, uncommitted) waits
        held =
      let m = merge_sync_response-Merges state response interpreter h in
      let equal = interpreter.are_committed_operations_equal in
      reconcile-Holds interpreter m.base result.state.confirmed_sequence m.progress.confirmed_log e
        m.progress.learned.outbox result.state.outbox waits m.reconciled
        (merge_entries-Holds interpreter m.base e _ m.progress response.entries uncommitted m.merges
          (merge_decisions-Holds e equal _ m.learned response.decisions undecided m.learns held))

  -- What becomes of an entry of the outbox in a merge.
  pub data Fate (response : SyncResponse Operation Rejection)
      (last : ReplicaState State Intent Operation) (e : OutboxEntry Intent Operation) : Type 0 where
    decided :
        {d : ProposalDecision Operation Rejection}
        → Holds d response.decisions
        → d.operation_id ≡ id_of e
        → Fate response last e
    committed :
        {c : CommittedOperation Operation}
        → Holds c response.entries
        → c.operation_id ≡ id_of e
        → Fate response last e
    confirmed :
        {n : ℕ} {o : Operation}
        → e.status ≡ accepted n o
        → n ≤ last.confirmed_sequence
        → Fate response last e
    stays : Holds e last.outbox → Fate response last e

  unnamed-Fate :
      (response : SyncResponse Operation Rejection) (last : ReplicaState State Intent Operation)
      (e : OutboxEntry Intent Operation) (status : OutboxStatus Operation)
      → e.status ≡ status
      → (IsWaiting last.confirmed_sequence e.status → Holds e last.outbox)
      → Fate response last e
  unnamed-Fate response last e pending s held =
      stays (held (subst (IsWaiting last.confirmed_sequence) (sym s) unsent))
  unnamed-Fate response last e (accepted n o) s held =
      elim (Bool-cases (ltb last.confirmed_sequence n)) [
        | inl behind ↦ stays (
            held (
              subst (IsWaiting last.confirmed_sequence) (sym s) (receipt (ground (arith, behind)))))
        | inr reached ↦ confirmed s (ground (arith, reached))
      ]

  -- Merging any response, if it succeeds, keeps the outbox a valid batch of the client's own operations,
  -- each numbered before the client's next number. The proposals of the outbox are then some of those
  -- that were there, in their order. An entry that was there stays as it was, unless a decision or an
  -- entry of the response is of its operation, or it was accepted at a sequence number that is
  -- confirmed afterwards.
  pub merge_sync_response-Shrinks :
      (state : ReplicaState State Intent Operation) (response : SyncResponse Operation Rejection)
      (interpreter : ReplicaInterpreter State Intent Operation)
      {result : MergeSyncResult State Intent Operation Rejection}
      → IsLocal state
      → merge_sync_response state response interpreter ≡ ok result
      → IsLocal result.state
        × IsPart (proposals_of state.outbox) (proposals_of result.state.outbox)
        × All (Fate response result.state) state.outbox
  merge_sync_response-Shrinks state response interpreter {result} l h = (
    merge_sync_response-IsLocal state response interpreter l h,
    merge_sync_response-IsPart state response interpreter h,
    All-Holds (Fate response result.state) state.outbox λ e held.
        elim (named_among (λ (d : ProposalDecision Operation Rejection). d.operation_id) (id_of e)
          response.decisions) [
            | inl (d, among, same) ↦ decided among same
            | inr undecided ↦
                elim (named_among (λ (c : CommittedOperation Operation). c.operation_id) (id_of e)
                  response.entries) [
                    | inl (c, among, same) ↦ committed among same
                    | inr uncommitted ↦ unnamed-Fate response result.state e e.status refl λ waits.
                        merge_sync_response-Holds state response interpreter h e
                          (undecided, uncommitted) waits held
                  ]
          ],
  )

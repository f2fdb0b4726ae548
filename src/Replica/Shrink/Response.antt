-- ===== src/Replica/Shrink/Response.antt =====
-- What `mergeSyncResponse` of src/replica.ts leaves of the outbox's proposals, as a whole.
use sync_engine_v.Base.{
  ℕ, ◌≡◌, refl, sym, subst, inl, inr, List, [], ◌∷◌, none, get_elem?, Option-cases, Bool-cases, leb,
  ◌-◌,
}
use sync_engine_v.Errors.{ok, ok-injective, ok-ne-err, >>=-eq-ok, >>-eq-ok}
use sync_engine_v.Protocol.{CommittedOperation, SyncResponse}
use sync_engine_v.Replica.{
  OutboxEntry, Learned, merge_decisions, ReplicaInterpreter, ReplicaState, MergeSyncResult,
  Progress, resolve_outbox_from_committed, merge_retained, merge_next, merge_entry, merge_entries,
  keeps_entry, reconcile, assert_retained_confirmed_log, merge_sync_response,
}
use sync_engine_v.Replica.Prepare.{proposals_of}
use sync_engine_v.Replica.Local.{IsOfClient, IsLocal}
use sync_engine_v.Invariants.Response.{assert_sync_response}
use sync_engine_v.Replica.Shrink.{
  IsPart, empty, kept, gone, IsPart-refl, IsPart-trans, IsPart-proposals_of, IsPart-All,
  IsPart-IsBatch, merge_decisions-IsPart, resolve-IsPart,
}

module _ {State Intent Operation Rejection : Type 0}
    (interpreter : ReplicaInterpreter State Intent Operation) (base : ℕ) where
  abbrev Keeps :
      Progress State Intent Operation Rejection → Progress State Intent Operation Rejection → Type 0
  Keeps progress last = IsPart progress.learned.outbox last.learned.outbox

  merge_retained-IsPart :
      (progress last : Progress State Intent Operation Rejection) (c : CommittedOperation Operation)
      → merge_retained interpreter base progress c ≡ ok last
      → Keeps progress last
  unfolding merge_retained
  merge_retained-IsPart progress last c h =
      elim (Option-cases (get_elem? progress.confirmed_log (c.sequence - base - 1))) [
        | inl absent ↦ absurd (ok-ne-err (sym (rw (absent, merge_retained) at h)))
        | inr (existing, there) ↦
            let (_, h₁) = (>>-eq-ok _ _).0 (rw (there, merge_retained) at h) in
            let (learned, resolved, h₂) =
              >>=-eq-ok
                (resolve_outbox_from_committed interpreter.are_committed_operations_equal
                  progress.learned c)
                _ h₁ in
            subst (Keeps progress) (ok-injective h₂) (
              resolve-IsPart interpreter.are_committed_operations_equal progress.learned learned c
                resolved)
      ]

  merge_next-IsPart :
      (progress last : Progress State Intent Operation Rejection) (c : CommittedOperation Operation)
      → merge_next interpreter base progress c ≡ ok last
      → Keeps progress last
  unfolding merge_next
  merge_next-IsPart progress last c h =
      let (_, h₁) = (>>-eq-ok _ _).0 h in
      let (next, applied, h₂) =
        >>=-eq-ok (interpreter.apply_committed progress.confirmed_state c.operation) _ h₁ in
      let (learned, resolved, h₃) =
        >>=-eq-ok
          (resolve_outbox_from_committed interpreter.are_committed_operations_equal progress.learned
            c)
          _ h₂ in
      subst (Keeps progress) (ok-injective h₃) (
        resolve-IsPart interpreter.are_committed_operations_equal progress.learned learned c
          resolved)

  merge_entry-IsPart :
      (progress last : Progress State Intent Operation Rejection) (c : CommittedOperation Operation)
      → merge_entry interpreter base progress c ≡ ok last
      → Keeps progress last
  unfolding merge_entry
  merge_entry-IsPart progress last c h = elim (Bool-cases (leb c.sequence base)) [
    | inl compacted ↦
        subst (Keeps progress) (ok-injective (rw (compacted, merge_entry) at h))
          (IsPart-refl progress.learned.outbox)
    | inr behind ↦ elim (Bool-cases (leb c.sequence progress.confirmed_sequence)) [
      | inl confirmed ↦
          merge_retained-IsPart progress last c (rw (behind, confirmed, merge_entry) at h)
      | inr new ↦ merge_next-IsPart progress last c (rw (behind, new, merge_entry) at h)
    ]
  ]

  merge_entries-IsPart :
      (progress last : Progress State Intent Operation Rejection)
      (cs : List (CommittedOperation Operation))
      → merge_entries interpreter base progress cs ≡ ok last
      → Keeps progress last
  unfolding merge_entries
  merge_entries-IsPart progress last [] h =
      subst (Keeps progress) (ok-injective h) (IsPart-refl progress.learned.outbox)
  merge_entries-IsPart progress last (c ∷ cs) h =
      let (next, merged, h₁) = >>=-eq-ok (merge_entry interpreter base progress c) _ h in
      IsPart-trans (merge_entry-IsPart progress next c merged)
        (merge_entries-IsPart next last cs h₁)

module _ {State Intent Operation : Type 0} (interpreter : ReplicaInterpreter State Intent Operation)
    (base : ℕ) where
  reconcile-IsPart :
      (k : ℕ) (retained : List (CommittedOperation Operation))
      (es last : List (OutboxEntry Intent Operation))
      → reconcile interpreter base k retained es ≡ ok last
      → IsPart es last
  unfolding reconcile
  reconcile-IsPart k retained [] last h =
      subst (λ (es : List (OutboxEntry Intent Operation)). IsPart [] es) (ok-injective h) empty
  reconcile-IsPart k retained (e ∷ es) last h =
      let (keep, decided, h₁) = >>=-eq-ok (keeps_entry interpreter base k retained e) _ h in
      let (rest, reconciled, h₂) = >>=-eq-ok (reconcile interpreter base k retained es) _ h₁ in
      let part = reconcile-IsPart k retained es rest reconciled in
      let Part = λ (last : List (OutboxEntry Intent Operation)). IsPart (e ∷ es) last in
      elim (Bool-cases keep) [
        | inl stays ↦ subst Part (ok-injective (rw stays at h₂)) (kept part)
        | inr leaves ↦ subst Part (ok-injective (rw leaves at h₂)) (gone part)
      ]

module _ {State Intent Operation Rejection : Type 0} where
  -- the merge before any canonical entry
  abbrev pub starting :
      ReplicaState State Intent Operation
      → Learned Intent Operation Rejection
      → Progress State Intent Operation Rejection
  starting state learned = record {
    confirmed_sequence = state.confirmed_sequence;
    confirmed_state = state.confirmed_state;
    confirmed_log = state.confirmed_log;
    learned = learned;
  }

  -- What a merge that succeeds does to the outbox: the decisions are learned, the canonical entries
  -- are merged, and the outbox is reconciled; entries leave it.
  pub record Merges (state : ReplicaState State Intent Operation)
      (response : SyncResponse Operation Rejection)
      (interpreter : ReplicaInterpreter State Intent Operation)
      (last : ReplicaState State Intent Operation) : Type 0 where
    pub learned : Learned Intent Operation Rejection
    pub learns :
        merge_decisions interpreter.are_committed_operations_equal
          (record { outbox = state.outbox; newly_resolved = [] })
          response.decisions
        ≡ ok learned
    pub base : ℕ
    pub progress : Progress State Intent Operation Rejection
    pub merges :
        merge_entries interpreter base (starting state learned) response.entries ≡ ok progress
    pub reconciled :
        reconcile interpreter base last.confirmed_sequence progress.confirmed_log
          progress.learned.outbox
        ≡ ok last.outbox
    pub part : IsPart learned.outbox last.outbox
    pub client : last.client_id ≡ state.client_id
    pub number : last.next_client_sequence ≡ state.next_client_sequence

  pub merge_sync_response-Merges :
      (state : ReplicaState State Intent Operation) (response : SyncResponse Operation Rejection)
      (interpreter : ReplicaInterpreter State Intent Operation)
      {result : MergeSyncResult State Intent Operation Rejection}
      → merge_sync_response state response interpreter ≡ ok result
      → Merges state response interpreter result.state
  unfolding merge_sync_response
  merge_sync_response-Merges state response interpreter h =
      let (_, h₁) = (>>-eq-ok (assert_sync_response response none) _).0 h in
      let (base, retained, h₂) = >>=-eq-ok (assert_retained_confirmed_log state) _ h₁ in
      let (_, h₃) = (>>-eq-ok _ _).0 h₂ in
      let start : Learned Intent Operation Rejection = record {
        outbox = state.outbox;
        newly_resolved = [];
      } in
      let equal = interpreter.are_committed_operations_equal in
      let (learned, learns, h₄) = >>=-eq-ok (merge_decisions equal start response.decisions) _ h₃ in
      let progress = starting state learned in
      let (merged, merges, h₅) =
        >>=-eq-ok (merge_entries interpreter base progress response.entries) _ h₄ in
      let (outbox, reconciled, h₆) =
        >>=-eq-ok
          (reconcile interpreter base merged.confirmed_sequence merged.confirmed_log
            merged.learned.outbox)
          _ h₅ in
      subst
        (λ (r : MergeSyncResult State Intent Operation Rejection).
          Merges state response interpreter r.state)
        (ok-injective h₆)
        (record {
          learned = learned;
          learns = learns;
          base = base;
          progress = merged;
          merges = merges;
          reconciled = reconciled;
          part =
              IsPart-trans
                (merge_entries-IsPart interpreter base progress merged response.entries merges)
                (reconcile-IsPart interpreter base merged.confirmed_sequence merged.confirmed_log
                  merged.learned.outbox outbox reconciled);
          client = refl;
          number = refl;
        })

  -- The proposals that a merge leaves are some of those that were there, in their order.
  pub merge_sync_response-IsPart :
      (state : ReplicaState State Intent Operation) (response : SyncResponse Operation Rejection)
      (interpreter : ReplicaInterpreter State Intent Operation)
      {result : MergeSyncResult State Intent Operation Rejection}
      → merge_sync_response state response interpreter ≡ ok result
      → IsPart (proposals_of state.outbox) (proposals_of result.state.outbox)
  merge_sync_response-IsPart state response interpreter h =
      let m = merge_sync_response-Merges state response interpreter h in
      IsPart-trans
        (merge_decisions-IsPart interpreter.are_committed_operations_equal _ m.learned
          response.decisions m.learns)
        (IsPart-proposals_of m.part)

  -- A merge keeps the outbox a valid batch of the client's own operations.
  pub merge_sync_response-IsLocal :
      (state : ReplicaState State Intent Operation) (response : SyncResponse Operation Rejection)
      (interpreter : ReplicaInterpreter State Intent Operation)
      {result : MergeSyncResult State Intent Operation Rejection}
      → IsLocal state
      → merge_sync_response state response interpreter ≡ ok result
      → IsLocal result.state
  merge_sync_response-IsLocal state response interpreter {result} l h =
      let m = merge_sync_response-Merges state response interpreter h in
      let part = merge_sync_response-IsPart state response interpreter h in
      record {
        batch = IsPart-IsBatch part l.batch;
        own =
            rw (m.client, m.number)
              (IsPart-All (IsOfClient state.client_id state.next_client_sequence) part l.own);
      }

-- ===== src/Replica/Waiting.antt =====
-- The outbox of src/replica.ts: the proposals in it that wait for a decision.
pub mod Settle
use sync_engine_v.Base.{
  ℕ, zero, suc, String, ◌+◌, ◌≤◌, ◌≡◌, refl, sym, ap, subst, ◌∙◌, ◌≢◌, inl, inr, Bool, List, [],
  ◌∷◌, some, arith, All, All-map, All-get_elem?, get_elem?, Option-cases, length, take,
  some-injective,
}
use sync_engine_v.Errors.{ok, ok-injective, ok-ne-err, >>=-eq-ok, >>-eq-ok}
use sync_engine_v.Protocol.{
  ProposedOperation, ProposalOutcome, accepted as accepts, rejected, ProposalDecision, SyncResponse,
}
use sync_engine_v.Invariants.Batch.Valid.{IsBatch, MayFollow}
use sync_engine_v.Replica.{
  OutboxStatus, pending, accepted, OutboxEntry, Learned, find_index, remove_at, replace_at,
  local_at, merge_local, merge_decision, merge_decisions, ReplicaInterpreter, ReplicaState,
  MergeSyncResult, merge_sync_response,
}
use sync_engine_v.Replica.Find.{
  id_of, IsDistinct, find_index-eq-none, find_index-eq-some, remove_at-gone, replace_at-IsDistinct,
}
use sync_engine_v.Replica.Prepare.{proposals_of, pending_first, pending_of}
use sync_engine_v.Replica.Shrink.{
  IsPart, empty, kept, gone, IsPart-refl, IsPart-trans, IsPart-All, IsPart-IsBatch,
  IsPart-proposals_of, remove_at-IsPart, merge_decision-IsPart,
}

module _ {Intent : Type 0} where
  -- No proposal of that operation waits.
  abbrev pub IsDone : String → List (ProposedOperation Intent) → Type 0
  IsDone id ps = All (λ p. p.operation_id ≢ id) ps

  IsPart-length : {ps qs : List (ProposedOperation Intent)} → IsPart ps qs → length qs ≤ length ps
  IsPart-length empty = omega arith
  IsPart-length (kept part) = omega (arith, IsPart-length part)
  IsPart-length (gone part) = omega (arith, IsPart-length part)

  -- What waits is shorter by what was sent, if none of that waits still.
  pub IsPart-sent :
      (n : ℕ) {ps qs : List (ProposedOperation Intent)}
      → IsPart ps qs
      → All (λ p. IsDone p.operation_id qs) (take n ps)
      → length qs + length (take n ps) ≤ length ps
  IsPart-sent zero part sent = omega (arith, IsPart-length part)
  IsPart-sent (suc n) empty sent = omega arith
  IsPart-sent (suc n) (kept part) sent = absurd (sent.0.0 refl)
  IsPart-sent (suc n) (gone part) sent = omega (arith, IsPart-sent n part sent.1)

module _ {Intent Operation : Type 0} where
  IsPart-pending_first :
      (status : OutboxStatus Operation) (p : ProposedOperation Intent)
      {ps qs : List (ProposedOperation Intent)}
      → IsPart ps qs
      → IsPart (pending_first status p ps) (pending_first status p qs)
        × IsPart (pending_first status p ps) qs
  IsPart-pending_first pending p part = (kept part, gone part)
  IsPart-pending_first (accepted n o) p part = (part, part)

  pub IsPart-pending_of :
      {es fs : List (OutboxEntry Intent Operation)}
      → IsPart es fs
      → IsPart (pending_of es) (pending_of fs)
  IsPart-pending_of empty = empty
  IsPart-pending_of (kept {x = e} part) =
      (IsPart-pending_first e.status e.proposal (IsPart-pending_of part)).0
  IsPart-pending_of (gone {x = e} part) =
      (IsPart-pending_first e.status e.proposal (IsPart-pending_of part)).1

  -- An entry that waits is of another operation.
  abbrev pub Other : String → OutboxEntry Intent Operation → Type 0
  Other id e = e.status ≡ pending → id_of e ≢ id

  IsDone-pending_first :
      (id : String) (status : OutboxStatus Operation) (p : ProposedOperation Intent)
      (ps : List (ProposedOperation Intent))
      → (status ≡ pending → p.operation_id ≢ id)
      → IsDone id ps
      → IsDone id (pending_first status p ps)
  IsDone-pending_first id pending p ps other h = (other refl, h)
  IsDone-pending_first id (accepted n o) p ps other h = h

  pub IsDone-pending_of :
      (id : String) (es : List (OutboxEntry Intent Operation))
      → All (Other id) es
      → IsDone id (pending_of es)
  IsDone-pending_of id [] h = tt
  IsDone-pending_of id (e ∷ es) h =
      IsDone-pending_first id e.status e.proposal (pending_of es) h.0 (IsDone-pending_of id es h.1)

  -- the operation of an accepted entry does not wait
  pub accepted-IsDone :
      (i : ℕ) (es : List (OutboxEntry Intent Operation)) (e : OutboxEntry Intent Operation) (n : ℕ)
      (o : Operation)
      → IsDistinct es
      → get_elem? es i ≡ some e
      → e.status ≡ accepted n o
      → All (Other (id_of e)) es
  accepted-IsDone i [] e n o d at s = tt
  accepted-IsDone zero (x ∷ es) e n o d at s =
      let same : x ≡ e = some-injective at in
      (
        λ waits. absurd (cc (waits, s, same)),
        All-map (λ e'. id_of x ≢ id_of e') es (λ e' ne waits h. ne (sym (h ∙ ap id_of (sym same))))
            d.0,
      )
  accepted-IsDone (suc i) (x ∷ es) e n o d at s = (
    λ waits h. All-get_elem? (λ e'. id_of x ≢ id_of e') es i d.0 at h,
    accepted-IsDone i es e n o d.1 at s,
  )

  pub get_elem?-replace_at :
      (i : ℕ) (v : OutboxEntry Intent Operation) (es : List (OutboxEntry Intent Operation))
      {e : OutboxEntry Intent Operation}
      → get_elem? es i ≡ some e
      → get_elem? (replace_at i v es) i ≡ some v
  unfolding replace_at
  get_elem?-replace_at i v [] at = absurd (ground arith)
  get_elem?-replace_at zero v (x ∷ es) at = refl
  get_elem?-replace_at (suc i) v (x ∷ es) at = get_elem?-replace_at i v es at

  pub replace_at-IsPart :
      (i : ℕ) (p : ProposedOperation Intent) (n : ℕ) (o : Operation)
      (es : List (OutboxEntry Intent Operation))
      → IsPart
          (pending_of es)
          (pending_of (replace_at i (record { proposal = p; status = accepted n o }) es))
  unfolding replace_at
  replace_at-IsPart i p n o [] = empty
  replace_at-IsPart zero p n o (x ∷ es) =
      (IsPart-pending_first x.status x.proposal (IsPart-refl (pending_of es))).1
  replace_at-IsPart (suc i) p n o (x ∷ es) =
      (IsPart-pending_first x.status x.proposal (replace_at-IsPart i p n o es)).0

  All-MayFollow-distinct :
      (e : OutboxEntry Intent Operation) (es : List (OutboxEntry Intent Operation))
      → All (MayFollow e.proposal) (proposals_of es)
      → All (λ e'. id_of e ≢ id_of e') es
  All-MayFollow-distinct e [] h = tt
  All-MayFollow-distinct e (x ∷ es) h = (h.0.differs, All-MayFollow-distinct e es h.1)

  pub IsBatch-IsDistinct :
      (es : List (OutboxEntry Intent Operation)) → IsBatch (proposals_of es) → IsDistinct es
  IsBatch-IsDistinct [] b = tt
  IsBatch-IsDistinct (e ∷ es) b = (All-MayFollow-distinct e es b.1, IsBatch-IsDistinct es b.2)

-- ===== src/IndexedDb/Shrunk.antt =====
-- Parts of a sound record of src/indexeddb are sound: a suffix of the log, some of the resolutions.
use sync_engine_v.Base.{
  ℕ, zero, suc, ◌+◌, ◌-◌, ◌≤◌, String, ◌≡◌, subst, inl, inr, false, List, [], ◌∷◌, none, arith,
  All-drop, length, length-drop, drop, contains, contains-cons, Bool-cases,
}
use sync_engine_v.Base.Dict.{lookup, put, lookup-put}
use sync_engine_v.Protocol.{CommittedOperation, ProposalDecision}
use sync_engine_v.Invariants.Identity.{IsCommitted}
use sync_engine_v.Invariants.Log.{entry_position_key}
use sync_engine_v.Invariants.Log.Valid.{IsContiguous, IsPage}
use sync_engine_v.Invariants.Log.Piece.{IsDistinct-drop}
use sync_engine_v.Replica.{OutboxEntry}
use sync_engine_v.IndexedDb.{Seen}
use sync_engine_v.IndexedDb.Valid.{note, note_all, AllStored, outbox_position_key, AllUsable}
use sync_engine_v.IndexedDb.Store.{without}

module _ {Operation : Type 0} where
  IsContiguous-drop :
      (n base : ℕ) (es : List (CommittedOperation Operation))
      → IsContiguous base es
      → IsContiguous (base + (length es - length (drop n es))) (drop n es)
  IsContiguous-drop zero base es h = subst (λ b. IsContiguous b es) (omega arith) h
  IsContiguous-drop (suc n) base [] h = tt
  IsContiguous-drop (suc n) base (e ∷ es) h =
      subst (λ b. IsContiguous b (drop n es)) (omega (arith, length-drop n es))
        (IsContiguous-drop n (base + 1) es h.1)

  -- a suffix of a log that ends at `k`
  pub IsPage-drop :
      (n k : ℕ) (es : List (CommittedOperation Operation))
      → length es ≤ k
      → IsPage (k - length es) es
      → IsPage (k - length (drop n es)) (drop n es)
  IsPage-drop n k es h p = record {
    contiguous =
        subst (λ b. IsContiguous b (drop n es)) (omega (arith, h, length-drop n es))
          (IsContiguous-drop n (k - length es) es p.contiguous);
    committed = All-drop IsCommitted n es p.committed;
    distinct = IsDistinct-drop n es p.distinct;
  }

-- What is new to `more` is new to `fewer`.
pub record Covers (more fewer : Seen) : Type 0 where
  pub ids :
      (id : String)
      → contains id more.operation_ids ≡ false
      → contains id fewer.operation_ids ≡ false
  pub positions :
      (key : String)
      → lookup key more.client_positions ≡ none
      → lookup key fewer.client_positions ≡ none

abbrev add : Seen → String → String → Seen
add seen id key = record {
  operation_ids = id ∷ seen.operation_ids;
  client_positions = put key id seen.client_positions;
}

pub Covers-refl : (s : Seen) → Covers s s
Covers-refl s = record { ids = λ id h. h; positions = λ key h. h }

Covers-add :
    (more fewer : Seen) (id key : String)
    → Covers more fewer
    → Covers (add more id key) (add fewer id key)
Covers-add more fewer id key c = record {
  ids = λ i h. ground (
    arith,
    contains-cons i id more.operation_ids,
    contains-cons i id fewer.operation_ids,
    c.ids i,
  );
  positions = λ k h. ground (
    arith,
    lookup-put key k id more.client_positions,
    lookup-put key k id fewer.client_positions,
    c.positions k,
  );
}

Covers-more :
    (more fewer : Seen) (id key : String) → Covers more fewer → Covers (add more id key) fewer
Covers-more more fewer id key c = record {
  ids = λ i h. ground (arith, contains-cons i id more.operation_ids, c.ids i);
  positions = λ k h. ground (arith, lookup-put key k id more.client_positions, c.positions k);
}

module _ {Operation : Type 0} where
  Covers-note_all :
      (more fewer : Seen) (es : List (CommittedOperation Operation))
      → Covers more fewer
      → Covers (note_all more es) (note_all fewer es)
  Covers-note_all more fewer [] c = c
  Covers-note_all more fewer (e ∷ es) c =
      Covers-note_all (note more e) (note fewer e) es
        (Covers-add more fewer e.operation_id (entry_position_key e) c)

  pub Covers-drop :
      (n : ℕ) (more fewer : Seen) (es : List (CommittedOperation Operation))
      → Covers more fewer
      → Covers (note_all more es) (note_all fewer (drop n es))
  Covers-drop zero more fewer es c = Covers-note_all more fewer es c
  Covers-drop (suc n) more fewer [] c = c
  Covers-drop (suc n) more fewer (e ∷ es) c =
      Covers-drop n (note more e) fewer es
        (Covers-more more fewer e.operation_id (entry_position_key e) c)

module _ {Intent Operation : Type 0} (client_id : String) (next confirmed : ℕ) where
  pub AllStored-Covers :
      (previous : ℕ) (more fewer : Seen) (es : List (OutboxEntry Intent Operation))
      → Covers more fewer
      → AllStored client_id next confirmed
          (record { seen = more; previous_client_sequence = previous })
          es
      → AllStored client_id next confirmed
          (record { seen = fewer; previous_client_sequence = previous })
          es
  AllStored-Covers previous more fewer [] c h = tt
  AllStored-Covers previous more fewer (e ∷ es) c h = (
    record {
      identity = h.0.identity;
      own = h.0.own;
      before = h.0.before;
      after = h.0.after;
      fresh = c.ids e.proposal.operation_id h.0.fresh;
      free = c.positions (outbox_position_key e) h.0.free;
      ahead = h.0.ahead;
    },
    AllStored-Covers e.proposal.client_sequence
        (add more e.proposal.operation_id (outbox_position_key e))
        (add fewer e.proposal.operation_id (outbox_position_key e)) es
        (Covers-add more fewer e.proposal.operation_id (outbox_position_key e) c) h.1,
  )

abbrev pub FewerIds : List String → List String → Type 0
FewerIds more fewer = (id : String) → contains id more ≡ false → contains id fewer ≡ false

FewerIds-cons :
    (id : String) (more fewer : List String)
    → FewerIds more fewer
    → FewerIds (id ∷ more) (id ∷ fewer)
FewerIds-cons id more fewer c i h =
    ground (arith, contains-cons i id more, contains-cons i id fewer, c i)

FewerIds-more :
    (id : String) (more fewer : List String) → FewerIds more fewer → FewerIds (id ∷ more) fewer
FewerIds-more id more fewer c i h = ground (arith, contains-cons i id more, c i)

module _ {Operation Rejection : Type 0} where
  pub AllUsable-without :
      (acknowledged more fewer : List String) (ds : List (ProposalDecision Operation Rejection))
      → FewerIds more fewer
      → AllUsable more ds
      → AllUsable fewer (without acknowledged ds)
  unfolding without
  AllUsable-without acknowledged more fewer [] c h = tt
  AllUsable-without acknowledged more fewer (d ∷ ds) c h =
      elim (Bool-cases (contains d.operation_id acknowledged)) [
        | inl gone ↦ rw gone (
            AllUsable-without acknowledged (d.operation_id ∷ more) fewer ds
              (FewerIds-more d.operation_id more fewer c) h.2)
        | inr stays ↦ rw stays (
          h.0,
          c d.operation_id h.1,
          AllUsable-without acknowledged (d.operation_id ∷ more) (d.operation_id ∷ fewer) ds
              (FewerIds-cons d.operation_id more fewer c) h.2,
        )
      ]

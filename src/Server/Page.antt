-- ===== src/Server/Page.antt =====
-- The pages that a consistent authority of src/server.ts cuts from its log.
use sync_engine_v.Base.{
  ℕ, ◌+◌, ◌-◌, ◌≤◌, ◌<◌, ◌≡◌, subst, List, [], ◌∷◌, some, arith, All, All-×_iff, All-of-get_elem?,
  All-take, All-drop, All-map, length, length-slice, drop, slice,
}
use sync_engine_v.Base.Dict.{lookup}
use sync_engine_v.Limits.{max_safe_integer}
use sync_engine_v.Protocol.{CommittedOperation}
use sync_engine_v.Invariants.Identity.{IsIdentity, IsCommitted, submitted_as}
use sync_engine_v.Invariants.Log.Valid.{IsContiguous, Differs, IsDistinct, IsPage}
use sync_engine_v.Invariants.Log.Piece.{IsContiguous-take, IsContiguous-drop}
use sync_engine_v.Server.{LogServer}
use sync_engine_v.Server.Consistent.{stored_for, IsConsistent}

module _ {Operation : Type 0} where
  -- the entries behind `base` have larger sequence numbers
  later_than :
      (base : ℕ) (es : List (CommittedOperation Operation))
      → IsContiguous base es
      → All (λ e. base < e.sequence) es
  later_than base [] h = tt
  later_than base (e ∷ es) h = (
    omega (arith, h.0),
    All-map (λ e. base + 1 < e.sequence) es (λ a p. omega arith) (later_than (base + 1) es h.1),
  )

  IsCommitted-of-contiguous :
      (base : ℕ) (es : List (CommittedOperation Operation))
      → IsContiguous base es
      → All (λ e. IsIdentity (submitted_as e)) es
      → base + length es ≤ max_safe_integer
      → All IsCommitted es
  IsCommitted-of-contiguous base [] h ids n = tt
  IsCommitted-of-contiguous base (e ∷ es) h ids n = (
    record { sequence = omega (arith, h.0); identity = ids.0 },
    IsCommitted-of-contiguous (base + 1) es h.1 ids.1 (omega arith),
  )

module _ {State Intent Operation Rejection : Type 0} (initial : State)
    (server : LogServer State Intent Operation Rejection) (c : IsConsistent initial server) where
  abbrev pub Recorded : CommittedOperation Operation → Type 0
  Recorded e = lookup e.operation_id server.decisions_by_operation_id ≡ some (stored_for e)

  -- an operation id has one entry
  same_entry :
      (e e' : CommittedOperation Operation)
      → Recorded e
      → Recorded e'
      → e.operation_id ≡ e'.operation_id
      → e.sequence ≡ e'.sequence
  same_entry e e' r r' same = cc (r, r', same)

  -- two entries on record with different sequence numbers are of different proposals
  Recorded-Differs :
      (e e' : CommittedOperation Operation)
      → Recorded e
      → Recorded e'
      → e.sequence < e'.sequence
      → Differs e e'
  Recorded-Differs e e' r r' h =
      let f = (c.filed e.operation_id (stored_for e) r).position in
      let f' = (c.filed e'.operation_id (stored_for e') r').position in
      record {
        ids = λ same. absurd (omega (arith, same_entry e e' r r' same));
        places = λ client sequence.
            absurd (omega (arith, same_entry e e' r r' (cc (f, f', client, sequence))));
      }

  Recorded-IsDistinct :
      (base : ℕ) (es : List (CommittedOperation Operation))
      → IsContiguous base es
      → All Recorded es
      → IsDistinct es
  Recorded-IsDistinct base [] h r = tt
  Recorded-IsDistinct base (e ∷ es) h r = (
    All-map (λ e'. Recorded e' × (base + 1 < e'.sequence)) es
        (λ e' q. Recorded-Differs e e' r.0 q.0 (omega (arith, h.0, q.1)))
        ((All-×_iff _ Recorded (λ e'. base + 1 < e'.sequence) es (λ a. (λ q. q, λ q. q))).1
          (r.1, later_than (base + 1) es h.1)),
    Recorded-IsDistinct (base + 1) es h.1 r.1,
  )

  log-Recorded : All Recorded server.log
  log-Recorded = All-of-get_elem? Recorded server.log c.recorded

  -- Every page of the log passes the check of `assertSyncResponse` on entries.
  pub slice-IsPage :
      (from to : ℕ)
      → from ≤ length server.log
      → length server.log ≤ max_safe_integer
      → IsPage from (slice from to server.log)
  slice-IsPage from to h safe =
      let rest = drop from server.log in
      let contiguous = IsContiguous-take from (to - from) rest (
        subst (λ n. IsContiguous n rest) (omega arith)
          (IsContiguous-drop 0 from server.log c.contiguous)) in
      let valid = λ (e : CommittedOperation Operation). IsIdentity (submitted_as e) in
      record {
        contiguous = contiguous;
        committed =
            IsCommitted-of-contiguous from (slice from to server.log) contiguous
              (All-take valid (to - from) rest (All-drop valid from server.log c.identities))
              (omega (arith, length-slice from to server.log));
        distinct =
            Recorded-IsDistinct from (slice from to server.log) contiguous
              (All-take Recorded (to - from) rest (All-drop Recorded from server.log log-Recorded));
      }

  pub slice-Recorded : (from to : ℕ) → All Recorded (slice from to server.log)
  slice-Recorded from to =
      All-take Recorded (to - from) (drop from server.log)
        (All-drop Recorded from server.log log-Recorded)

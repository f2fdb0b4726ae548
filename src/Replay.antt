-- ===== src/Replay.antt =====
-- The meaning of a canonical log: apply its operations to a state, one after the other. `apply` is
-- the application's, as the authority and the replicas call it.
use sync_engine_v.Base.{
  ℕ, zero, suc, ◌≡◌, sym, ◌∙◌, inl, inr, List, [], ◌∷◌, ◌++◌, some, some-injective, arith,
  get_elem?, take,
}
use sync_engine_v.Errors.{Result, ok, Result-cases, ok-injective, ok-ne-err, ◌>>=◌}
use sync_engine_v.Protocol.{CommittedOperation}

module _ {State Operation : Type 0} (apply : State → Operation → Result State) where
  unfoldable pub replay : State → List (CommittedOperation Operation) → Result State
  replay state [] = ok state
  replay state (entry ∷ rest) = do next ← apply state entry.operation; replay next rest

  pub replay-append :
      (state : State) (log rest : List (CommittedOperation Operation)) {middle : State}
      → replay state log ≡ ok middle
      → replay state (log ++ rest) ≡ replay middle rest
  unfolding replay
  replay-append state [] rest h = rw (ok-injective h)
  replay-append state (entry ∷ log) rest h = elim (Result-cases (apply state entry.operation)) [
    | inl (e, failed) ↦ absurd (ok-ne-err (sym (rw failed at h)))
    | inr (next, applied) ↦ rw applied (replay-append next log rest (rw applied at h))
  ]

  -- If a whole log replays, then so does one entry more of any part of it.
  pub replay-next :
      (state final middle : State) (log : List (CommittedOperation Operation)) (n : ℕ)
      (entry : CommittedOperation Operation)
      → replay state log ≡ ok final
      → get_elem? log n ≡ some entry
      → replay state (take n log) ≡ ok middle
      → (next : State) × (apply middle entry.operation ≡ ok next)
        × (replay state (take (suc n) log) ≡ ok next)
  unfolding replay
  replay-next state final middle [] n entry h at m = absurd (ground arith)
  replay-next state final middle (x ∷ log) zero entry h at m =
      elim (Result-cases (apply state x.operation)) [
        | inl (e, failed) ↦ absurd (ok-ne-err (sym (rw failed at h)))
        | inr (first, applied) ↦
            let same : apply middle entry.operation ≡ apply state x.operation =
              cc (some-injective at, ok-injective m) in
            (first, same ∙ applied, rw applied)
      ]
  replay-next state final middle (x ∷ log) (suc n) entry h at m =
      elim (Result-cases (apply state x.operation)) [
        | inl (e, failed) ↦ absurd (ok-ne-err (sym (rw failed at h)))
        | inr (first, applied) ↦
            let (next, last, whole) =
              replay-next first final middle log n entry (rw applied at h) at (rw applied at m) in
            (next, last, rw applied whole)
      ]

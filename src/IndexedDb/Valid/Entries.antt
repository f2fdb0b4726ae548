-- ===== src/IndexedDb/Valid/Entries.antt =====
-- What the loop over the confirmed log in `assertReplicaRecord` accepts.
use sync_engine_v.Base.{
  ℕ, ◌+◌, ◌<◌, String, ◌≡◌, refl, sym, subst, List, [], ◌∷◌, arith, str_eq_iff, All,
}
use sync_engine_v.Base.Dict.{put}
use sync_engine_v.Errors.{ok, ok-injective, >>=-eq-ok}
use sync_engine_v.Protocol.{CommittedOperation}
use sync_engine_v.Invariants.Identity.{IsCommitted}
use sync_engine_v.Invariants.Log.{entry_position_key}
use sync_engine_v.Invariants.Log.Valid.{Fits, IsPageAfter, IsPageAfter-cons, IsPageAfter-nil}
use sync_engine_v.Wire.{index_path}
use sync_engine_v.IndexedDb.{
  Seen, Payloads, entry_value, items_of, check_log_entry, check_log_entries,
}

module _ {Operation : Type 0} where
  -- An entry of this client is numbered before the client's next number.
  pub record IsEarlier (client_id : String) (next : ℕ) (entry : CommittedOperation Operation)
      : Type 0 where
    pub before : entry.origin.client_id ≡ client_id → entry.origin.client_sequence < next

  abbrev pub note : Seen → CommittedOperation Operation → Seen
  note seen e = record {
    operation_ids = e.operation_id ∷ seen.operation_ids;
    client_positions = put (entry_position_key e) e.operation_id seen.client_positions;
  }

  -- what the loop has seen after a list of entries
  abbrev pub note_all : Seen → List (CommittedOperation Operation) → Seen
  note_all seen [] = seen
  note_all seen (e ∷ es) = note_all (note seen e) es

module _ {State Intent Operation Rejection : Type 0}
    (payloads : Payloads State Intent Operation Rejection) (stream_id client_id : String)
    (next : ℕ) where
  check_log_entry-eq-ok :
      (path : String) (expected : ℕ) (seen : Seen) (e : CommittedOperation Operation) {out : Seen}
      → check_log_entry stream_id client_id next path expected seen (entry_value payloads e)
        ≡ ok out
      → (IsCommitted e)
        × (e.sequence ≡ expected)
        × Fits seen.operation_ids seen.client_positions e
        × IsEarlier client_id next e
        × (out ≡ note seen e)
  unfolding check_log_entry
  check_log_entry-eq-ok path expected seen e h = ground (
    arith,
    str_eq_iff e.operation_id "",
    str_eq_iff e.origin.client_id "",
    str_eq_iff e.origin.intent_hash "",
    str_eq_iff e.origin.client_id client_id,
  )

  check_log_entry-passes :
      (path : String) (expected : ℕ) (seen : Seen) (e : CommittedOperation Operation)
      → IsCommitted e
      → e.sequence ≡ expected
      → Fits seen.operation_ids seen.client_positions e
      → IsEarlier client_id next e
      → check_log_entry stream_id client_id next path expected seen (entry_value payloads e)
        ≡ ok (note seen e)
  unfolding check_log_entry
  check_log_entry-passes path expected seen e c s f o = ground (
    arith,
    str_eq_iff e.operation_id "",
    str_eq_iff e.origin.client_id "",
    str_eq_iff e.origin.intent_hash "",
    str_eq_iff e.origin.client_id client_id,
  )

  pub check_log_entries-eq-ok :
      (index base : ℕ) (seen : Seen) (es : List (CommittedOperation Operation)) {out : Seen}
      → check_log_entries stream_id client_id next index
          (base + 1)
          seen
          (items_of (entry_value payloads) es)
        ≡ ok out
      → IsPageAfter seen.operation_ids seen.client_positions base es
        × All (IsEarlier client_id next) es
        × (out ≡ note_all seen es)
  unfolding check_log_entries items_of
  check_log_entries-eq-ok index base seen [] h =
      (IsPageAfter-nil seen.operation_ids seen.client_positions base, tt, sym (ok-injective h))
  check_log_entries-eq-ok index base seen (e ∷ es) {out} h =
      let (seen', round, h₁) =
        >>=-eq-ok
          (check_log_entry stream_id client_id next (index_path "replica.confirmedLog" index)
            (base + 1) seen (entry_value payloads e))
          _ h in
      let (c, s, f, o, noted) = check_log_entry-eq-ok _ (base + 1) seen e round in
      let rest = check_log_entries-eq-ok (index + 1) (base + 1) (note seen e) es (
        subst
          (λ s'.
            check_log_entries stream_id client_id next (index + 1) (base + 1 + 1) s'
              (items_of (entry_value payloads) es)
            ≡ ok out)
          noted h₁) in
      (
        (IsPageAfter-cons seen.operation_ids seen.client_positions e.operation_id base e es).1
            (c, s, f, rest.0),
        (o, rest.1),
        rest.2,
      )

  pub check_log_entries-passes :
      (index base : ℕ) (seen : Seen) (es : List (CommittedOperation Operation))
      → IsPageAfter seen.operation_ids seen.client_positions base es
      → All (IsEarlier client_id next) es
      → check_log_entries stream_id client_id next index
          (base + 1)
          seen
          (items_of (entry_value payloads) es)
        ≡ ok (note_all seen es)
  unfolding check_log_entries items_of
  check_log_entries-passes index base seen [] p o = refl
  check_log_entries-passes index base seen (e ∷ es) p o =
      let (c, s, f, rest) =
        (IsPageAfter-cons seen.operation_ids seen.client_positions e.operation_id base e es).0 p in
      rw
        (
          check_log_entry-passes (index_path "replica.confirmedLog" index) (base + 1) seen e c s f
              o.0,
          check_log_entries-passes (index + 1) (base + 1) (note seen e) es rest o.1,
        )
        refl

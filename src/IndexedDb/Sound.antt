-- ===== src/IndexedDb/Sound.antt =====
-- `assertReplicaRecord` of src/indexeddb/record.ts accepts exactly the sound records of its stream.
use sync_engine_v.Base.{
  ℕ, ◌+◌, ◌-◌, ◌≤◌, String, ◌≡◌, ◌≢◌, refl, ◌↔◌, inl, inr, List, [], ◌∷◌, some, arith, str_eq_iff,
  All, length,
}
use sync_engine_v.Json.{Json, count, Items}
use sync_engine_v.Errors.{ok, Result-cases}
use sync_engine_v.Limits.{max_safe_integer}
use sync_engine_v.Invariants.Identity.{IsSequence}
use sync_engine_v.Invariants.Log.Valid.{IsPage, Fits-nil}
use sync_engine_v.IndexedDb.{
  IndexedDbReplicaRecord, Payloads, Seen, SeenOutbox, items_of, record_value, assert_replica_record,
  indexed_db_replica_schema_version, entry_value, outbox_entry_value, decision_value,
  check_log_entries, check_outbox_entries, check_resolutions,
}
use sync_engine_v.IndexedDb.Valid.{
  IsEarlier, note_all, check_log_entries-eq-ok, check_log_entries-passes, AllStored,
  check_outbox_entries-eq-ok, AllUsable, check_resolutions-eq-ok,
}

pub count-items_of {ℓ} :
    {A : Type ℓ} (value : A → Json) (xs : List A) → count (items_of value xs) ≡ length xs
unfolding count items_of
count-items_of value [] = refl
count-items_of value (x ∷ xs) = omega (arith, count-items_of value xs)

abbrev pub unseen : Seen
unseen = record { operation_ids = []; client_positions = [] }

module _ {State Intent Operation Rejection : Type 0} where
  -- A sound record: of this version and stream, with usable numbers; a confirmed log that ends at the
  -- confirmed sequence and has no operation or client position twice; an outbox of the client's own
  -- operations, in the order of their numbers, none of them in the confirmed log, with receipts for
  -- what is not confirmed; and usable resolutions of different operations.
  pub record IsSound (stream_id : String)
      (stored : IndexedDbReplicaRecord State Intent Operation Rejection) : Type 0 where
    pub version : stored.schema_version ≡ indexed_db_replica_schema_version
    pub stream : stored.stream_id ≡ stream_id
    pub client : stored.replica.client_id ≢ ""
    pub next : IsSequence stored.replica.next_client_sequence
    pub confirmed : stored.replica.confirmed_sequence ≤ max_safe_integer
    pub retained : length stored.replica.confirmed_log ≤ stored.replica.confirmed_sequence
    pub page :
        IsPage
          (stored.replica.confirmed_sequence - length stored.replica.confirmed_log)
          stored.replica.confirmed_log
    pub earlier :
        All
          (IsEarlier stored.replica.client_id stored.replica.next_client_sequence)
          stored.replica.confirmed_log
    pub outbox :
        AllStored stored.replica.client_id stored.replica.next_client_sequence
          stored.replica.confirmed_sequence
          (record {
            seen = note_all unseen stored.replica.confirmed_log;
            previous_client_sequence = 0;
          })
          stored.replica.outbox
    pub resolutions : AllUsable [] stored.resolutions

module _ {State Intent Operation Rejection : Type 0}
    (payloads : Payloads State Intent Operation Rejection) (stream_id : String)
    (stored : IndexedDbReplicaRecord State Intent Operation Rejection) where
  abbrev client : String
  client = stored.replica.client_id

  abbrev next : ℕ
  next = stored.replica.next_client_sequence

  abbrev confirmed : ℕ
  confirmed = stored.replica.confirmed_sequence

  abbrev log : Items
  log = items_of (entry_value payloads) stored.replica.confirmed_log

  abbrev base : ℕ
  base = confirmed - length stored.replica.confirmed_log

  -- What the check comes to, for a record whose fields are there.
  record Checks : Type 0 where
    version : stored.schema_version ≡ indexed_db_replica_schema_version
    stream : stored.stream_id ≡ stream_id
    has_client : client ≢ ""
    numbered : IsSequence next
    confirms : confirmed ≤ max_safe_integer
    retained : length stored.replica.confirmed_log ≤ confirmed
    entries :
        check_log_entries stream_id client next 0 (base + 1) unseen log
        ≡ ok (note_all unseen stored.replica.confirmed_log)
    outbox :
        check_outbox_entries stream_id client next confirmed 0
          (record {
            seen = note_all unseen stored.replica.confirmed_log;
            previous_client_sequence = 0;
          })
          (items_of (outbox_entry_value payloads) stored.replica.outbox)
        ≡ ok tt
    resolved :
        check_resolutions stream_id 0 [] (items_of (decision_value payloads) stored.resolutions)
        ≡ ok tt

  Checks-passes :
      Checks → assert_replica_record stream_id (some (record_value payloads stored)) ≡ ok tt
  unfolding assert_replica_record record_value
  Checks-passes c = ground (
    arith,
    c.version,
    c.stream,
    c.has_client,
    c.numbered,
    c.confirms,
    c.retained,
    c.entries,
    c.outbox,
    c.resolved,
    str_eq_iff client "",
    str_eq_iff stored.stream_id stream_id,
    count-items_of (entry_value payloads) stored.replica.confirmed_log,
  )

  Checks-of : assert_replica_record stream_id (some (record_value payloads stored)) ≡ ok tt → Checks
  unfolding assert_replica_record record_value
  Checks-of h =
      elim (Result-cases (check_log_entries stream_id client next 0 (base + 1) unseen log)) [
        | inl (e, failed) ↦ absurd (
            ground (
              arith,
              failed,
              str_eq_iff client "",
              str_eq_iff stored.stream_id stream_id,
              count-items_of (entry_value payloads) stored.replica.confirmed_log,
            ))
        | inr (seen, passed) ↦
            let (page, earlier, out) =
              check_log_entries-eq-ok payloads stream_id client next 0 base unseen
                stored.replica.confirmed_log passed in
            ground (
              arith,
              passed,
              out,
              str_eq_iff client "",
              str_eq_iff stored.stream_id stream_id,
              count-items_of (entry_value payloads) stored.replica.confirmed_log,
            )
      ]

module _ {State Intent Operation Rejection : Type 0}
    (payloads : Payloads State Intent Operation Rejection) where
  -- The check of a stored record accepts exactly the sound records of its stream.
  pub assert_replica_record-eq-ok :
      (stream_id : String) (stored : IndexedDbReplicaRecord State Intent Operation Rejection)
      → (assert_replica_record stream_id (some (record_value payloads stored)) ≡ ok tt)
        ↔ IsSound stream_id stored
  assert_replica_record-eq-ok stream_id stored =
      let r = stored.replica in
      let b = r.confirmed_sequence - length r.confirmed_log in
      let start : SeenOutbox = record {
        seen = note_all unseen r.confirmed_log;
        previous_client_sequence = 0;
      } in
      let outbox =
        check_outbox_entries-eq-ok payloads stream_id r.client_id r.next_client_sequence
          r.confirmed_sequence 0 start r.outbox in
      let resolutions = check_resolutions-eq-ok payloads stream_id 0 [] stored.resolutions in
      (
        λ h.
            let c = Checks-of payloads stream_id stored h in
            let (page, earlier, out) =
              check_log_entries-eq-ok payloads stream_id r.client_id r.next_client_sequence 0 b
                unseen r.confirmed_log c.entries in
            record {
              version = c.version;
              stream = c.stream;
              client = c.has_client;
              next = c.numbered;
              confirmed = c.confirms;
              retained = c.retained;
              page = page.page;
              earlier = earlier;
              outbox = outbox.0 c.outbox;
              resolutions = resolutions.0 c.resolved;
            },
        λ s. Checks-passes payloads stream_id stored (record {
          version = s.version;
          stream = s.stream;
          has_client = s.client;
          numbered = s.next;
          confirms = s.confirmed;
          retained = s.retained;
          entries =
              check_log_entries-passes payloads stream_id r.client_id r.next_client_sequence 0 b
                unseen r.confirmed_log (record { fits = Fits-nil r.confirmed_log; page = s.page })
                s.earlier;
          outbox = outbox.1 s.outbox;
          resolved = resolutions.1 s.resolutions;
        }),
      )

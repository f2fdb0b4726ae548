-- ===== src/IndexedDb/Check.antt =====
-- `assertReplicaRecord` of src/indexeddb/record.ts: the check of a value that is read from the database
-- or about to be written to it, before anything is known of the value. The value is a tree of JSON.
use sync_engine_v.Base.{
  ℕ, ◌+◌, ◌-◌, String, Bool, not, ◌&&◌, List, [], ◌∷◌, Option, none, some, str_eq, ltb, leb, ◌==◌,
  contains, text_append, if◌then◌else◌,
}
use sync_engine_v.Base.Dict.{Dict, lookup, put}
use sync_engine_v.Json.{
  Json, number, string, array, object, Items, nil, cons, Fields, member, count,
}
use sync_engine_v.Errors.{
  Result, ok, err, indexed_db_replica, indexed_db_replica_record, throw_if, ◌>>=◌, ◌>>◌,
}
use sync_engine_v.Limits.{is_out_of_range}
use sync_engine_v.Invariants.Position.{client_position_key}
use sync_engine_v.Wire.{index_path}
use sync_engine_v.IndexedDb.Record.{indexed_db_replica_schema_version}

unfoldable pub assert_non_empty_string : String → String → Result (Unit {0})
assert_non_empty_string label value =
    throw_if (str_eq value "")
      (indexed_db_replica (text_append label " must be a non-empty string"))

-- the operation ids and client positions that the loops have seen
pub record Seen : Type 0 where
  pub operation_ids : List String
  pub client_positions : Dict String

-- the variables of the loop over the outbox
pub record SeenOutbox : Type 0 where
  pub seen : Seen
  pub previous_client_sequence : ℕ

-- `value === text`
abbrev pub is_text : String → Option Json → Bool
is_text text (some (string s)) = str_eq s text
is_text text other = Bool.false

module _ (stream_id : String) where
  unfoldable pub invalid_record {ℓ} : {A : Type ℓ} → String → Result A
  invalid_record detail = err (indexed_db_replica_record stream_id detail)

  unfoldable pub read_record : Option Json → String → Result Fields
  unfolding invalid_record
  read_record (some (object fields)) detail = ok fields
  read_record other detail = invalid_record detail

  unfoldable pub read_array : Option Json → String → Result Items
  unfolding invalid_record
  read_array (some (array items)) path = ok items
  read_array other path = invalid_record (text_append path " is not an array")

  unfoldable pub read_non_empty_string : Option Json → String → Result String
  unfolding invalid_record
  read_non_empty_string (some (string s)) path =
      if str_eq s "" then invalid_record (text_append path " must be a non-empty string") else ok s
  read_non_empty_string other path = invalid_record (text_append path " must be a non-empty string")

  unfoldable pub read_safe_integer : Option Json → String → ℕ → Result ℕ
  unfolding invalid_record
  read_safe_integer (some (number n)) path minimum =
      if is_out_of_range minimum n
      then invalid_record (text_append path " must be a safe integer")
      else ok n
  read_safe_integer other path minimum = invalid_record (text_append path " must be a safe integer")

  -- `if (bad) invalidRecord(…)`
  abbrev pub invalid_if : Bool → String → Result (Unit {0})
  invalid_if bad detail = throw_if bad (indexed_db_replica_record stream_id detail)

  abbrev pub is_absent : Option Json → Bool
  is_absent none = Bool.true
  is_absent (some value) = Bool.false

  unfoldable pub require_own_property : Fields → String → String → Result (Unit {0})
  unfolding member
  require_own_property fields property path =
      invalid_if (is_absent (member property fields))
        (text_append path (text_append "." (text_append property " is missing")))

  abbrev pub is_bound : Option String → Bool
  is_bound none = Bool.false
  is_bound (some operation_id) = Bool.true

  unfoldable pub register_identity : String → Seen → String → String → ℕ → Result Seen
  unfolding contains lookup put
  register_identity path seen operation_id client_id client_sequence = do
    invalid_if (contains operation_id seen.operation_ids) (text_append path " repeats operationId")
    let position_key = client_position_key client_id client_sequence
    invalid_if (is_bound (lookup position_key seen.client_positions))
        (text_append path " reuses client position")
    ok (record {
      operation_ids = operation_id ∷ seen.operation_ids;
      client_positions = put position_key operation_id seen.client_positions;
    })

  module _ (client_id : String) (next_client_sequence : ℕ) where
    -- a round of the loop over `confirmedLog`
    unfoldable pub check_log_entry : String → ℕ → Seen → Json → Result Seen
    unfolding read_record read_safe_integer read_non_empty_string require_own_property
        register_identity member
    check_log_entry path expected_sequence seen value = do
      entry ← read_record (some value) (text_append path " is invalid")
      sequence ← read_safe_integer (member "sequence" entry) (text_append path ".sequence") 1
      invalid_if (not (sequence == expected_sequence))
          (text_append path " must have the next sequence")
      operation_id ←
          read_non_empty_string (member "operationId" entry) (text_append path ".operationId")
      origin ← read_record (member "origin" entry) (text_append path ".origin is invalid")
      origin_client_id ←
          read_non_empty_string (member "clientId" origin) (text_append path ".origin.clientId")
      origin_client_sequence ←
          read_safe_integer (member "clientSequence" origin)
            (text_append path ".origin.clientSequence") 1
      _ ← read_non_empty_string (member "intentHash" origin) (text_append path ".origin.intentHash")
      require_own_property entry "operation" path
      seen' ← register_identity path seen operation_id origin_client_id origin_client_sequence
      invalid_if
          (str_eq origin_client_id client_id && leb next_client_sequence origin_client_sequence)
          (text_append path ".origin.clientSequence must be less than nextClientSequence")
      ok seen'

    -- the loop from an index, where `expected_sequence` counts with it
    unfoldable pub check_log_entries : ℕ → ℕ → Seen → Items → Result Seen
    unfolding check_log_entry
    check_log_entries index expected_sequence seen nil = ok seen
    check_log_entries index expected_sequence seen (cons value rest) = do
      seen' ← check_log_entry (index_path "replica.confirmedLog" index) expected_sequence seen value
      check_log_entries (index + 1) (expected_sequence + 1) seen' rest

    -- what is checked of an accepted entry only
    abbrev pub check_receipt : String → ℕ → Fields → Result (Unit {0})
    check_receipt path confirmed_sequence entry = do
      accepted_sequence ←
          read_safe_integer (member "sequence" entry) (text_append path ".sequence") 1
      invalid_if (leb accepted_sequence confirmed_sequence)
          (text_append path ".sequence must be greater than confirmedSequence")
      require_own_property entry "operation" path

    -- a round of the loop over the outbox
    unfoldable pub check_outbox_entry : ℕ → String → SeenOutbox → Json → Result SeenOutbox
    unfolding read_record read_safe_integer read_non_empty_string require_own_property
        register_identity member
    check_outbox_entry confirmed_sequence path s value = do
      entry ← read_record (some value) (text_append path " is invalid")
      invalid_if
          (not (is_text "pending" (member "status" entry))
            && not (is_text "accepted" (member "status" entry)))
          (text_append path ".status must be \"pending\" or \"accepted\"")
      proposal ← read_record (member "proposal" entry) (text_append path ".proposal is invalid")
      operation_id ←
          read_non_empty_string (member "operationId" proposal)
            (text_append path ".proposal.operationId")
      proposal_client_id ←
          read_non_empty_string (member "clientId" proposal) (text_append path ".proposal.clientId")
      proposal_client_sequence ←
          read_safe_integer (member "clientSequence" proposal)
            (text_append path ".proposal.clientSequence") 1
      _ ←
          read_non_empty_string (member "intentHash" proposal)
            (text_append path ".proposal.intentHash")
      require_own_property proposal "intent" (text_append path ".proposal")
      invalid_if (not (str_eq proposal_client_id client_id))
          (text_append path ".proposal.clientId does not match replica.clientId")
      invalid_if (leb next_client_sequence proposal_client_sequence)
          (text_append path ".proposal.clientSequence must be less than nextClientSequence")
      invalid_if (leb proposal_client_sequence s.previous_client_sequence)
          (text_append path ".proposal.clientSequence must increase through the outbox")
      seen ← register_identity path s.seen operation_id proposal_client_id proposal_client_sequence
      if is_text "accepted" (member "status" entry)
          then check_receipt path confirmed_sequence entry
          else ok tt
      ok (record { seen = seen; previous_client_sequence = proposal_client_sequence })

    unfoldable pub check_outbox_entries : ℕ → ℕ → SeenOutbox → Items → Result (Unit {0})
    unfolding check_outbox_entry
    check_outbox_entries confirmed_sequence index s nil = ok tt
    check_outbox_entries confirmed_sequence index s (cons value rest) = do
      s' ← check_outbox_entry confirmed_sequence (index_path "replica.outbox" index) s value
      check_outbox_entries confirmed_sequence (index + 1) s' rest

  -- the branches on `decision.status`
  abbrev pub check_outcome : String → Fields → Result (Unit {0})
  check_outcome path decision =
      if is_text "accepted" (member "status" decision)
      then (do
        _ ← read_safe_integer (member "sequence" decision) (text_append path ".sequence") 1
        require_own_property decision "operation" path)
      else if is_text "rejected" (member "status" decision)
      then require_own_property decision "reason" path
      else invalid_record (text_append path ".status must be \"accepted\" or \"rejected\"")

  -- a round of the loop over the resolutions
  unfoldable pub check_resolution : String → List String → Json → Result (List String)
  unfolding read_record read_safe_integer read_non_empty_string require_own_property invalid_record
      contains member
  check_resolution path resolution_ids value = do
    decision ← read_record (some value) (text_append path " is invalid")
    operation_id ←
        read_non_empty_string (member "operationId" decision) (text_append path ".operationId")
    invalid_if (contains operation_id resolution_ids) "resolutions repeat operationId"
    check_outcome path decision
    ok (operation_id ∷ resolution_ids)

  unfoldable pub check_resolutions : ℕ → List String → Items → Result (Unit {0})
  unfolding check_resolution
  check_resolutions index resolution_ids nil = ok tt
  check_resolutions index resolution_ids (cons value rest) = do
    resolution_ids' ← check_resolution (index_path "resolutions" index) resolution_ids value
    check_resolutions (index + 1) resolution_ids' rest

  abbrev pub is_number : ℕ → Option Json → Bool
  is_number n (some (number m)) = m == n
  is_number n other = Bool.false

  -- It returns its argument, as a record that is known to be sound.
  unfoldable pub assert_replica_record : Option Json → Result (Unit {0})
  unfolding read_record read_array read_safe_integer read_non_empty_string check_log_entries
      check_outbox_entries check_resolutions member count
  assert_replica_record value = do
    stored ← read_record value "record is missing"
    invalid_if (not (is_number indexed_db_replica_schema_version (member "schemaVersion" stored)))
        "unsupported schemaVersion"
    invalid_if (not (is_text stream_id (member "streamId" stored))) "stored streamId is another"
    replica ← read_record (member "replica" stored) "replica is not an object"
    client_id ← read_non_empty_string (member "clientId" replica) "replica.clientId"
    next_client_sequence ←
        read_safe_integer (member "nextClientSequence" replica) "replica.nextClientSequence" 1
    confirmed_sequence ←
        read_safe_integer (member "confirmedSequence" replica) "replica.confirmedSequence" 0
    confirmed_log ← read_array (member "confirmedLog" replica) "replica.confirmedLog"
    invalid_if (ltb confirmed_sequence (count confirmed_log))
        "confirmedLog contains more entries than confirmedSequence"
    seen ←
        check_log_entries client_id next_client_sequence 0
          (confirmed_sequence - count confirmed_log + 1)
          (record { operation_ids = []; client_positions = [] }) confirmed_log
    outbox ← read_array (member "outbox" replica) "replica.outbox"
    check_outbox_entries client_id next_client_sequence confirmed_sequence 0
        (record { seen = seen; previous_client_sequence = 0 }) outbox
    resolutions ← read_array (member "resolutions" stored) "resolutions"
    check_resolutions 0 [] resolutions

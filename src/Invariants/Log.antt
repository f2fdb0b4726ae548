-- ===== src/Invariants/Log.antt =====
-- src/invariants.ts: `assertContiguousLog`.
pub mod Valid
pub mod Piece
use sync_engine_v.Base.{
  ℕ, ◌+◌, String, Bool, List, [], ◌∷◌, Option, none, some, not, ◌==◌, contains,
}
use sync_engine_v.Base.Dict.{Dict, lookup, put}
use sync_engine_v.Errors.{
  Result, ok, err, log_gap, duplicate_operation_id, client_sequence_conflict, throw_if, ◌>>=◌, ◌>>◌,
}
use sync_engine_v.Protocol.{CommittedOperation}
use sync_engine_v.Invariants.Identity.{assert_committed_operation}
use sync_engine_v.Invariants.Position.{client_position_key}

module _ {Operation : Type 0} where
  -- the key under which an entry's client position is noted
  abbrev pub entry_position_key : CommittedOperation Operation → String
  entry_position_key entry = client_position_key entry.origin.client_id entry.origin.client_sequence

  -- `if (existing !== undefined) throw new ClientSequenceConflictError(…)`
  unfoldable pub assert_position_free :
      Option String → CommittedOperation Operation → Result (Unit {0})
  assert_position_free none entry = ok tt
  assert_position_free (some existing) entry = err (
      client_sequence_conflict entry.origin.client_id entry.origin.client_sequence existing
        entry.operation_id)

  -- the loop from an array index, after the ids and client positions that it has seen
  unfoldable pub check_log :
      ℕ → List String → Dict String → List (CommittedOperation Operation) → Result (Unit {0})
  unfolding assert_position_free
  check_log index operation_ids by_position [] = ok tt
  check_log index operation_ids by_position (entry ∷ rest) = do
    let expected = index + 1
    assert_committed_operation "committed operation" entry
    throw_if (not (entry.sequence == expected)) (log_gap expected entry.sequence)
    throw_if (contains entry.operation_id operation_ids) (duplicate_operation_id entry.operation_id)
    assert_position_free (lookup (entry_position_key entry) by_position) entry
    check_log (index + 1) (entry.operation_id ∷ operation_ids)
        (put (entry_position_key entry) entry.operation_id by_position) rest

  unfoldable pub assert_contiguous_log : List (CommittedOperation Operation) → Result (Unit {0})
  assert_contiguous_log log = check_log 0 [] [] log

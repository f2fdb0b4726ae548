-- ===== src/Invariants/Identity.antt =====
-- src/invariants.ts: checks of texts, sequence numbers, identities and committed operations.
use sync_engine_v.Base.{
  ℕ, ◌≤◌, String, ◌≡◌, ◌≢◌, ◌↔◌, Bool, false, arith, str_eq, str_eq_iff, text_append, if◌then◌else◌,
}
use sync_engine_v.Errors.{Result, ok, sync_engine, invalid_sequence, throw_if, ◌>>◌}
use sync_engine_v.Limits.{assert_positive_safe_integer, max_safe_integer, is_out_of_range}
use sync_engine_v.Protocol.{OperationSubmissionIdentity, CommittedOperation}

unfoldable pub assert_non_empty_string : String → String → Result (Unit {0})
assert_non_empty_string label value =
    throw_if (str_eq value "") (sync_engine (text_append label " must not be empty"))

unfoldable pub assert_log_sequence : String → ℕ → Bool → Result (Unit {0})
assert_log_sequence label value allow_zero =
    throw_if (is_out_of_range (if allow_zero then 0 else 1) value) (invalid_sequence label value)

unfoldable pub assert_client_sequence : String → ℕ → Result (Unit {0})
unfolding assert_log_sequence
assert_client_sequence label value = assert_log_sequence label value false

unfoldable pub assert_submission_identity : String → OperationSubmissionIdentity → Result (Unit {0})
unfolding assert_non_empty_string assert_client_sequence
assert_submission_identity label identity = do
  assert_non_empty_string (text_append label ".operationId") identity.operation_id
  assert_non_empty_string (text_append label ".clientId") identity.client_id
  assert_client_sequence (text_append label ".clientSequence") identity.client_sequence
  assert_non_empty_string (text_append label ".intentHash") identity.intent_hash

unfoldable pub assert_committed_operation :
    {Operation : Type 0} → String → CommittedOperation Operation → Result (Unit {0})
unfolding assert_log_sequence assert_non_empty_string assert_client_sequence
assert_committed_operation label entry = do
  assert_log_sequence (text_append label ".sequence") entry.sequence false
  assert_non_empty_string (text_append label ".operationId") entry.operation_id
  assert_non_empty_string (text_append label ".origin.clientId") entry.origin.client_id
  assert_client_sequence (text_append label ".origin.clientSequence") entry.origin.client_sequence
  assert_non_empty_string (text_append label ".origin.intentHash") entry.origin.intent_hash

-- A usable sequence number.
pub record IsSequence (n : ℕ) : Type 0 where
  pub positive : 1 ≤ n
  pub safe : n ≤ max_safe_integer

pub record IsIdentity (identity : OperationSubmissionIdentity) : Type 0 where
  pub has_operation_id : identity.operation_id ≢ ""
  pub has_client_id : identity.client_id ≢ ""
  pub sequence : IsSequence identity.client_sequence
  pub has_intent_hash : identity.intent_hash ≢ ""

-- The submission identity that a committed operation keeps.
abbrev pub submitted_as :
    {Operation : Type 0} → CommittedOperation Operation → OperationSubmissionIdentity
submitted_as entry = record {
  identity = record {
    operation_id = entry.operation_id;
    client_id = entry.origin.client_id;
    client_sequence = entry.origin.client_sequence;
  };
  intent_hash = entry.origin.intent_hash;
}

-- The entry of an operation that was submitted under an identity.
abbrev pub entry_of :
    {Operation : Type 0}
    → OperationSubmissionIdentity
    → ℕ
    → Operation
    → CommittedOperation Operation
entry_of identity sequence operation = record {
  sequence = sequence;
  operation_id = identity.operation_id;
  origin = record {
    client_id = identity.client_id;
    client_sequence = identity.client_sequence;
    intent_hash = identity.intent_hash;
  };
  operation = operation;
}

pub record IsCommitted {Operation : Type 0} (entry : CommittedOperation Operation) : Type 0 where
  pub sequence : IsSequence entry.sequence
  pub identity : IsIdentity (submitted_as entry)

pub assert_non_empty_string-eq-ok :
    (label s : String) → assert_non_empty_string label s ≡ ok tt ↔ s ≢ ""
unfolding assert_non_empty_string
assert_non_empty_string-eq-ok label s =
    (λ h. ground (arith, str_eq_iff s ""), λ h. ground (arith, str_eq_iff s ""))

pub assert_submission_identity-eq-ok :
    (label : String) (identity : OperationSubmissionIdentity)
    → (assert_submission_identity label identity ≡ ok tt) ↔ IsIdentity identity
unfolding assert_submission_identity
assert_submission_identity-eq-ok label identity = (
  λ h. ground (
    arith,
    str_eq_iff identity.operation_id "",
    str_eq_iff identity.client_id "",
    str_eq_iff identity.intent_hash "",
  ),
  λ h. ground (
    arith,
    str_eq_iff identity.operation_id "",
    str_eq_iff identity.client_id "",
    str_eq_iff identity.intent_hash "",
  ),
)

pub assert_committed_operation-eq-ok :
    {Operation : Type 0} (label : String) (entry : CommittedOperation Operation)
    → (assert_committed_operation label entry ≡ ok tt) ↔ IsCommitted entry
unfolding assert_committed_operation
assert_committed_operation-eq-ok label entry = (
  λ h. ground (
    arith,
    str_eq_iff entry.operation_id "",
    str_eq_iff entry.origin.client_id "",
    str_eq_iff entry.origin.intent_hash "",
  ),
  λ h. ground (
    arith,
    str_eq_iff entry.operation_id "",
    str_eq_iff entry.origin.client_id "",
    str_eq_iff entry.origin.intent_hash "",
  ),
)

pub assert_client_sequence-eq-ok :
    (label : String) (n : ℕ) → (assert_client_sequence label n ≡ ok tt) ↔ IsSequence n
unfolding assert_client_sequence
assert_client_sequence-eq-ok label n = (λ h. ground arith, λ h. ground arith)

pub assert_positive_safe_integer-eq-ok :
    (label : String) (n : ℕ) → (assert_positive_safe_integer label n ≡ ok tt) ↔ IsSequence n
unfolding assert_positive_safe_integer
assert_positive_safe_integer-eq-ok label n = (λ h. ground arith, λ h. ground arith)

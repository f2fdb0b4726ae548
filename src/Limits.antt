-- ===== src/Limits.antt =====
-- src/limits.ts: the protocol limits and the range checks on them.
use sync_engine_v.Base.{ℕ, ◌-◌, ◌^◌, ◌≤◌, String, ◌≡◌, Bool, ◌||◌, Option, none, some, arith, ltb}
use sync_engine_v.Errors.{Result, ok, invalid_limit, protocol_limit_exceeded, throw_if, ◌>>◌}

-- `Number.MAX_SAFE_INTEGER`
abbrev pub max_safe_integer : ℕ
max_safe_integer = 2 ^ 53 - 1

-- `!Number.isSafeInteger(value) || value < minimum`
abbrev pub is_out_of_range : ℕ → ℕ → Bool
is_out_of_range minimum value = ltb max_safe_integer value || ltb value minimum

pub record ProtocolLimits : Type 0 where
  pub maximum_proposals_per_request : ℕ
  pub maximum_entries_per_response : ℕ

-- `Partial<ProtocolLimits>`
pub record ProtocolLimitOverrides : Type 0 where
  pub maximum_proposals_per_request : Option ℕ
  pub maximum_entries_per_response : Option ℕ

abbrev pub default_protocol_limits : ProtocolLimits
default_protocol_limits = record {
  maximum_proposals_per_request = 64;
  maximum_entries_per_response = 256;
}

unfoldable pub assert_positive_safe_integer : String → ℕ → Result (Unit {0})
assert_positive_safe_integer label value =
    throw_if (is_out_of_range 1 value) (invalid_limit label value)

unfoldable pub assert_non_negative_safe_integer : String → ℕ → Result (Unit {0})
assert_non_negative_safe_integer label value =
    throw_if (is_out_of_range 0 value) (invalid_limit label value)

-- `value ?? fallback`
abbrev pub or_default : Option ℕ → ℕ → ℕ
or_default (some v) d = v
or_default none d = d

unfoldable pub resolve_protocol_limits : ProtocolLimitOverrides → Result ProtocolLimits
unfolding assert_positive_safe_integer
resolve_protocol_limits overrides = do
  let proposals =
      or_default overrides.maximum_proposals_per_request
        default_protocol_limits.maximum_proposals_per_request
  let entries =
      or_default overrides.maximum_entries_per_response
        default_protocol_limits.maximum_entries_per_response
  assert_positive_safe_integer "maximumProposalsPerRequest" proposals
  assert_positive_safe_integer "maximumEntriesPerResponse" entries
  ok (record { maximum_proposals_per_request = proposals; maximum_entries_per_response = entries })

unfoldable pub assert_within_limit : String → ℕ → ℕ → Result (Unit {0})
assert_within_limit label received maximum =
    throw_if (ltb maximum received) (protocol_limit_exceeded label received maximum)

-- Limits that the server can work with.
pub record IsPositive (limits : ProtocolLimits) : Type 0 where
  pub proposals : 1 ≤ limits.maximum_proposals_per_request
  pub entries : 1 ≤ limits.maximum_entries_per_response

-- Limits that are resolved from any overrides without an error are positive.
pub resolve_protocol_limits-IsPositive :
    (overrides : ProtocolLimitOverrides) {limits : ProtocolLimits}
    → resolve_protocol_limits overrides ≡ ok limits
    → IsPositive limits
unfolding resolve_protocol_limits
resolve_protocol_limits-IsPositive overrides h = ground arith

pub assert_within_limit-le :
    (label : String) (received maximum : ℕ)
    → received ≤ maximum
    → assert_within_limit label received maximum ≡ ok tt
unfolding assert_within_limit
assert_within_limit-le label received maximum h = ground arith

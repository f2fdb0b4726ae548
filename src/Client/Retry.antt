-- ===== src/Client/Retry.antt =====
-- src/client/client.ts: `syncWithRetry` and what it retries.
use sync_engine_v.Base.{
  ℕ, zero, suc, ◌+◌, ◌*◌, ◌^◌, min, String, Bool, false, not, ◌||◌, Option, none, some, str_eq,
  ◌==◌, if◌then◌else◌,
}
use sync_engine_v.Json.{Json, string, object, member}
use sync_engine_v.Errors.{SyncError, Result, ok, err, sync_client, sync_client_http}
use sync_engine_v.Limits.{or_default, is_out_of_range}
use sync_engine_v.Client.Action.{Action, lift, ◌>>◌}

-- Without a function of its own, an option takes the client's.
pub record SyncRetryOptions (World : Type 0) : Type 0 where
  pub maximum_attempts : Option ℕ
  pub base_delay_ms : Option ℕ
  pub maximum_delay_ms : Option ℕ
  pub jitter_ms : Option ℕ
  pub should_retry : Option (SyncError → ℕ → Bool)
  pub wait : ℕ → Action World (Unit {0})

pub data SyncRetryPolicy (World : Type 0) : Type 0 where
  never : SyncRetryPolicy World
  retry : SyncRetryOptions World → SyncRetryPolicy World

abbrev pub sync_route_error_code : Json → Option String
sync_route_error_code (object fields) = elim (member "code" fields) [
  | some (string code) ↦ some code
  | _ ↦ none
]
sync_route_error_code body = none

abbrev pub is_code : String → Option String → Bool
is_code expected (some code) = str_eq code expected
is_code expected none = false

-- The messages are a parameter: `message.includes(…)` of the two texts that ask for a retry.
module _ (asks_for_retry : SyncError → Bool) where
  unfoldable pub is_retryable_sync_error : SyncError → Bool
  is_retryable_sync_error (sync_client_http status message body) =
      is_code "sync-conflict" (sync_route_error_code body)
      || asks_for_retry (sync_client_http status message body)
  is_retryable_sync_error error = asks_for_retry error

  -- `jitter` is `Math.floor(Math.random() * jitterMs)`
  unfoldable pub sync_retry_delay_ms : {World : Type 0} → ℕ → SyncRetryOptions World → ℕ → ℕ
  sync_retry_delay_ms attempt options jitter =
      min (or_default options.maximum_delay_ms 2000)
        (or_default options.base_delay_ms 120 * 2 ^ attempt)
      + jitter

  module _ {World : Type 0} (sync : Action World (Unit {0})) (options : SyncRetryOptions World)
      (draw : ℕ → ℕ) where
    abbrev pub should_retry : SyncError → ℕ → Bool
    should_retry error attempt = elim options.should_retry [
      | none ↦ is_retryable_sync_error error
      | some f ↦ f error attempt
    ]

    -- what follows an attempt: it is over, or there is a pause and `again`
    abbrev pub after_attempt :
        Action World (Unit {0}) → ℕ → ℕ → Result (Unit {0}) × World → Result (Unit {0}) × World
    after_attempt again attempt left (ok done, world) = (ok done, world)
    after_attempt again attempt left (err error, world) =
        if left == 0 || not (should_retry error attempt)
        then (err error, world)
        else (options.wait (sync_retry_delay_ms attempt options (draw attempt)) >> again) world

    -- the loop, from an attempt, with the attempts that are left
    unfoldable pub attempt_sync : ℕ → ℕ → Action World (Unit {0})
    unfolding is_retryable_sync_error sync_retry_delay_ms
    attempt_sync attempt zero world = (ok tt, world)
    attempt_sync attempt (suc left) world =
        let again = attempt_sync (attempt + 1) left in after_attempt again attempt left (sync world)

  unfoldable pub sync_with_retry :
      {World : Type 0}
      → Action World (Unit {0})
      → SyncRetryPolicy World
      → (ℕ → ℕ)
      → Action World (Unit {0})
  unfolding attempt_sync
  sync_with_retry sync never draw = sync
  sync_with_retry sync (retry options) draw =
      let maximum_attempts = or_default options.maximum_attempts 5 in
      if is_out_of_range 1 maximum_attempts
      then lift (err (sync_client "sync retry maximumAttempts must be a positive integer"))
      else attempt_sync sync options draw 0 maximum_attempts

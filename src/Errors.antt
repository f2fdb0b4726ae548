-- ===== src/Errors.antt =====
-- src/errors.ts: each error class is a constructor with its public fields. A throw is the value
-- `err`; a statement that may throw is an action of the monad `Result`.
use sync_engine_v.Json.{Json}
use sync_engine_v.Base.{ℕ, String, Option, ◌≡◌, refl, ◌↔◌, ◌⊎◌, inl, inr, Bool, true, false}

pub data SyncError : Type 0 where
  -- a plain `Error`
  plain : String → SyncError
  sync_engine : String → SyncError
  invalid_sequence : String → ℕ → SyncError
  invalid_limit : String → ℕ → SyncError
  protocol_limit_exceeded : String → ℕ → ℕ → SyncError
  duplicate_operation_id : String → SyncError
  invalid_proposal_order : String → ℕ → ℕ → SyncError
  unknown_base_sequence : ℕ → ℕ → SyncError
  operation_identity_conflict : String → SyncError
  operation_intent_conflict : String → SyncError
  client_sequence_conflict : String → ℕ → String → String → SyncError
  malformed_sync_response : String → SyncError
  log_gap : ℕ → ℕ → SyncError
  log_divergence : ℕ → String → String → String → SyncError
  decision_conflict : String → SyncError
  unsupported_protocol_version : Option Json → SyncError
  wire_encode : String → String → SyncError
  wire_decode : String → String → SyncError
  -- what an application's interpreter throws
  interpreter_failure : String → SyncError
  -- src/indexeddb/errors.ts
  indexed_db_replica : String → SyncError
  indexed_db_replica_identity : String → String → String → SyncError
  indexed_db_replica_record : String → String → SyncError
  -- src/client/errors.ts
  sync_client : String → SyncError
  sync_client_closed : SyncError
  sync_client_protocol : String → SyncError
  sync_client_schema_mismatch : String → String → SyncError
  sync_client_http : ℕ → String → Json → SyncError
  row_operation : String → SyncError

-- What a function returns or throws.
pub data Result {ℓ} (Value : Type ℓ) : Type ℓ where
  ok : Value → Result Value
  err : SyncError → Result Value

module _ {ℓ κ} {Value : Type ℓ} {Next : Type κ} where
  infixl 5 ◌>>=◌
  -- a value that may not come goes on to the rest of a function
  abbrev pub ◌>>=◌ : Result Value → (Value → Result Next) → Result Next
  err thrown >>= rest = err thrown
  ok value >>= rest = rest value

  -- If the whole returns, then the first part has, and the rest from its value.
  pub >>=-eq-ok :
      (first : Result Value) (rest : Value → Result Next) {result : Next}
      → (first >>= rest) ≡ ok result
      → (value : Value) × (first ≡ ok value) × (rest value ≡ ok result)
  >>=-eq-ok (err thrown) rest h = cc
  >>=-eq-ok (ok value) rest h = (value, refl, h)

infixl 5 ◌>>◌
-- a statement before the rest of a function
abbrev pub ◌>>◌ {ℓ} : {Next : Type ℓ} → Result (Unit {0}) → Result Next → Result Next
statement >> rest = statement >>= λ done. rest

-- `if (bad) throw e;`
abbrev pub throw_if : Bool → SyncError → Result (Unit {0})
throw_if true e = err e
throw_if false e = ok tt

pub >>-eq-ok {ℓ} :
    {B : Type ℓ} (m : Result (Unit {0})) (k : Result B) {b : B}
    → ((m >> k) ≡ ok b) ↔ ((m ≡ ok tt) × (k ≡ ok b))
>>-eq-ok (ok tt) k = (λ h. (refl, h), λ h. h.1)
>>-eq-ok (err e) k = (λ h. cc, λ h. cc)

pub throw_if-eq-ok : (b : Bool) (e : SyncError) → (throw_if b e ≡ ok tt) ↔ (b ≡ false)
throw_if-eq-ok true e = (λ h. cc, λ h. cc)
throw_if-eq-ok false e = (λ h. refl, λ h. refl)

pub Result-cases {ℓ} :
    {A : Type ℓ} (m : Result A) → ((e : SyncError) × (m ≡ err e)) ⊎ ((a : A) × (m ≡ ok a))
Result-cases (ok a) = inr (a, refl)
Result-cases (err e) = inl (e, refl)

pub ok-injective {ℓ} : {A : Type ℓ} {a b : A} → ok a ≡ ok b → a ≡ b
ok-injective h = cc

pub ok-ne-err {ℓ} : {A : Type ℓ} {a : A} {e : SyncError} → ¬ (ok a ≡ err e)
ok-ne-err h = cc
